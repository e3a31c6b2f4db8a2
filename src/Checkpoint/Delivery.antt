-- ===== src/Checkpoint/Delivery.antt =====
-- `Checkpoint::queueDirty` of src/checkpoint.cc and the cursors: each still has ahead of it exactly what
-- it has to see.
use mathlib.Core.Path.{subst}
use native.Mathlib.Decide.{ℕ_discrete}
use mathlib.Core.Option
use ep_engine.Base.{
  ℕ, ◌≡◌, refl, sym, ◌∙◌, ap, ◌≢◌, ◌⊎◌, inl, inr, Bool, true, false, Option, none, some, List, [],
  ◌∷◌, ◌++◌, arith, ◌==◌, if◌then◌else◌, get_elem?, zero, suc, eq_of_some,
}
use ep_engine.Checkpoint.Nodes.{Item, is_meta, Node, after, previous_addr, erase_node}
use ep_engine.Checkpoint.NodeLaws.{
  HasAddr, Distinct, absurd_addr, after-append, HasAddr-append, after-previous_addr,
  HasAddr-previous_addr, HasAddr-erase_node, after-skip,
}
use ep_engine.Checkpoint.Index.{
  with_key, drop_key, HasAddr-with_key, drop_key_none, with_key-after, erase_node-drop_key,
  after-drop_key, with_key-after_self,
}
use ep_engine.Checkpoint.{
  IndexEntry, find_entry, Checkpoint, Cursor, adjust_cursor, adjust_cursors, queue_open,
}
use ep_engine.Checkpoint.Expected.{IsSound, expected, no_node, found, queue_open-expected}

module _ (addr : ℕ) (qi : Item) (chk : Checkpoint) (sound : IsSound chk) where
  pos-adjust_cursor :
      (e : IndexEntry) (c : Cursor)
      → c.checkpoint ≡ chk.self
      → (adjust_cursor chk e c).0.pos
        ≡ (if c.pos == e.position then previous_addr c.pos chk.to_write else c.pos)
  unfolding adjust_cursor
  pos-adjust_cursor e c here = ground arith

  -- The node that mutates a key is not the first of the queue.
  behind :
      (x : Node)
      → with_key qi.key chk.to_write ≡ x ∷ []
      → (sound.head.addr ≢ x.addr) × HasAddr x.addr sound.rest
  unfolding with_key
  behind x only =
      let i = HasAddr-with_key qi.key sound.rest x [] (ground (arith, sound.shape, sound.dummy)) in
      let d = subst Distinct sound.shape sound.distinct in
      (
        λ w.
            absurd_addr sound.head.addr sound.rest d.0
              (subst (λ z. HasAddr z sound.rest) (sym w) i),
        i,
      )

  -- What `adjust_cursor` does to a cursor's place, for the node that is dropped.
  abbrev Ahead : ℕ → ℕ → Type 0
  Ahead before now =
      HasAddr now (drop_key qi.key chk.to_write)
      × (after now (drop_key qi.key chk.to_write) ≡ drop_key qi.key (after before chk.to_write))

  Ahead-elsewhere :
      (x : Node) (a : ℕ)
      → with_key qi.key chk.to_write ≡ x ∷ []
      → HasAddr a chk.to_write
      → a ≢ x.addr
      → Ahead a a
  Ahead-elsewhere x a only placed ne = (
    subst (HasAddr a) (erase_node-drop_key qi.key chk.to_write x sound.distinct only)
        (HasAddr-erase_node a x.addr chk.to_write ne placed),
    after-drop_key qi.key a chk.to_write x only placed ne,
  )

  Ahead-here :
      (x : Node)
      → with_key qi.key chk.to_write ≡ x ∷ []
      → Ahead x.addr (previous_addr x.addr chk.to_write)
  Ahead-here x only =
      let (ne, i) = behind x only in
      let d = subst Distinct sound.shape sound.distinct in
      let dropped = erase_node-drop_key qi.key chk.to_write x sound.distinct only in
      let w =
        subst
          (λ l.
            HasAddr (previous_addr x.addr l) (erase_node x.addr l)
            × (after (previous_addr x.addr l) (erase_node x.addr l) ≡ after x.addr l))
          (sym sound.shape)
          (
            HasAddr-previous_addr x.addr sound.head sound.rest ne i,
            after-previous_addr x.addr sound.head sound.rest d ne i
                ∙ sym (after-skip x.addr sound.head sound.rest ne),
          ) in
      (
        subst (HasAddr (previous_addr x.addr chk.to_write)) dropped w.0,
        ap (after (previous_addr x.addr chk.to_write)) (sym dropped)
            ∙ w.1
            ∙ sym (
                drop_key_none qi.key (after x.addr chk.to_write)
                  (with_key-after_self qi.key chk.to_write x sound.distinct only)),
      )

  adjust_cursor-Ahead :
      (e : IndexEntry) (c : Cursor)
      → find_entry qi.key chk.key_index ≡ some e
      → c.checkpoint ≡ chk.self
      → HasAddr c.pos chk.to_write
      → Ahead c.pos (adjust_cursor chk e c).0.pos
  adjust_cursor-Ahead e c hit here placed =
      let (x, only, at) = found addr qi chk sound e hit in
      elim (ℕ_discrete c.pos x.addr) [
        | yes w ↦
            subst (Ahead c.pos) (sym (ground (arith, pos-adjust_cursor e c here)))
              (subst (λ a. Ahead a (previous_addr a chk.to_write)) (sym w) (Ahead-here x only))
        | no w ↦
            subst (Ahead c.pos) (sym (ground (arith, pos-adjust_cursor e c here)))
              (Ahead-elsewhere x c.pos only placed w)
      ]

  adjust_cursors-get_elem? :
      (e : IndexEntry) (cs : List Cursor) (i : ℕ) (c : Cursor)
      → get_elem? cs i ≡ some c
      → get_elem? (adjust_cursors chk e cs).0 i ≡ some (adjust_cursor chk e c).0
  unfolding adjust_cursors
  adjust_cursors-get_elem? e [] i c h = absurd (cc)
  adjust_cursors-get_elem? e (d ∷ cs) zero c h =
      ap (λ o. Option.map (λ z. (adjust_cursor chk e z).0) o) h
  adjust_cursors-get_elem? e (d ∷ cs) (suc i) c h = adjust_cursors-get_elem? e cs i c h

  name-adjust_cursor :
      (e : IndexEntry) (c : Cursor)
      → ((adjust_cursor chk e c).0.name ≡ c.name)
        × ((adjust_cursor chk e c).0.checkpoint ≡ c.checkpoint)
  unfolding adjust_cursor
  name-adjust_cursor e c = (ground arith, ground arith)

  cursors-queue_open :
      (e : IndexEntry) (cs : List Cursor)
      → is_meta qi ≡ false
      → find_entry qi.key chk.key_index ≡ some e
      → (queue_open addr qi chk cs).1 ≡ (adjust_cursors chk e cs).0
  unfolding queue_open
  cursors-queue_open e cs m hit = ground arith

  cursors_kept :
      (cs : List Cursor)
      → (is_meta qi ≡ true) ⊎ (find_entry qi.key chk.key_index ≡ none)
      → (queue_open addr qi chk cs).1 ≡ cs
  unfolding queue_open
  cursors_kept cs h = ground arith

  abbrev pub Sees : Cursor → Cursor → List Node → Type 0
  Sees c c' queue =
      (c'.name ≡ c.name)
      × (c'.checkpoint ≡ c.checkpoint)
      × HasAddr c'.pos queue
      × (after c'.pos queue ≡ expected qi addr (after c.pos chk.to_write))

  -- The cases in which the cursors stay where they are.
  Sees-unmoved :
      (c : Cursor)
      → (is_meta qi ≡ true) ⊎ ((is_meta qi ≡ false) × (with_key qi.key chk.to_write ≡ []))
      → HasAddr c.pos chk.to_write
      → Sees c c (expected qi addr chk.to_write)
  Sees-unmoved c (inl m) placed = rw m (
    refl,
    refl,
    HasAddr-append c.pos chk.to_write _ placed,
    after-append c.pos chk.to_write _ placed,
  )
  Sees-unmoved c (inr (m, none_there)) placed =
      rw
        (
          m,
          drop_key_none qi.key chk.to_write none_there,
          drop_key_none qi.key (after c.pos chk.to_write)
              (with_key-after qi.key c.pos chk.to_write none_there),
        )
        (
          refl,
          refl,
          HasAddr-append c.pos chk.to_write _ placed,
          after-append c.pos chk.to_write _ placed,
        )

  Sees-moved :
      (e : IndexEntry) (c : Cursor)
      → is_meta qi ≡ false
      → find_entry qi.key chk.key_index ≡ some e
      → c.checkpoint ≡ chk.self
      → HasAddr c.pos chk.to_write
      → Sees c (adjust_cursor chk e c).0 (expected qi addr chk.to_write)
  Sees-moved e c m hit here placed =
      let (i, a) = adjust_cursor-Ahead e c hit here placed in
      rw m (
        (name-adjust_cursor e c).0,
        (name-adjust_cursor e c).1,
        HasAddr-append _ _ _ i,
        after-append _ _ _ i ∙ ap (λ l. l ++ record { addr = addr; item = qi } ∷ []) a,
      )

  -- Queueing an item loses nothing for a cursor and shows it nothing twice: a cursor that stands in
  -- the checkpoint has ahead of it afterwards what it had before, less the mutations of the item's
  -- key if the item is a mutation, and then the item. It keeps its name and its checkpoint, and
  -- stands on a node of the new queue.
  pub queue_open-Sees :
      (cs : List Cursor) (i : ℕ) (c c' : Cursor)
      → get_elem? cs i ≡ some c
      → get_elem? (queue_open addr qi chk cs).1 i ≡ some c'
      → c.checkpoint ≡ chk.self
      → HasAddr c.pos chk.to_write
      → Sees c c' (queue_open addr qi chk cs).0.to_write
  queue_open-Sees cs i c c' h h' here placed =
      subst (Sees c c') (sym (queue_open-expected addr qi chk sound cs))
        (go (is_meta qi) refl (find_entry qi.key chk.key_index) refl)
    where
      same : (is_meta qi ≡ true) ⊎ (find_entry qi.key chk.key_index ≡ none) → c ≡ c'
      same w = eq_of_some (sym h ∙ ap (λ l. get_elem? l i) (sym (cursors_kept cs w)) ∙ h')

      moved :
          (e : IndexEntry)
          → is_meta qi ≡ false
          → find_entry qi.key chk.key_index ≡ some e
          → (adjust_cursor chk e c).0 ≡ c'
      moved e m w = eq_of_some (
          sym (adjust_cursors-get_elem? e cs i c h)
          ∙ ap (λ l. get_elem? l i) (sym (cursors-queue_open e cs m w))
          ∙ h')

      go :
          (b : Bool)
          → is_meta qi ≡ b
          → (o : Option IndexEntry) → find_entry qi.key chk.key_index ≡ o
          → Sees c c' (expected qi addr chk.to_write)
      go true m o w =
          subst (λ z. Sees c z (expected qi addr chk.to_write)) (same (inl m))
            (Sees-unmoved c (inl m) placed)
      go false m none w =
          subst (λ z. Sees c z (expected qi addr chk.to_write)) (same (inr w))
            (Sees-unmoved c (inr (m, no_node _ _ (sound.indexed qi.key) w)) placed)
      go false m (some e) w =
          subst (λ z. Sees c z (expected qi addr chk.to_write)) (moved e m w)
            (Sees-moved e c m w here placed)
