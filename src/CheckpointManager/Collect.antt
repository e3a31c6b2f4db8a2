-- ===== src/CheckpointManager/Collect.antt =====
-- `getAllItemsForCursor` of src/checkpoint.cc.
use native.Mathlib.Decide.{ℕ_discrete}
use mathlib.Core.Path.{subst}
use ep_engine.Base.{
  ℕ, zero, suc, ◌<◌, ◌≡◌, refl, sym, ◌∙◌, ap, ◌⊎◌, inl, inr, true, false, Option, none, some, List,
  [], ◌∷◌, ◌++◌, map, arith, Bool-cases, length,
}
use ep_engine.Checkpoint.Nodes.{Item, Node, is_end, node_at, after}
use ep_engine.Checkpoint.{Checkpoint, Cursor}
use ep_engine.CheckpointManager.{
  Frame, frames, from_frame, queue_at, move_to_next, incr_cursor, snap_end_at, after_item, collect,
}
use ep_engine.CheckpointManager.Walk.{
  Stands, ahead, later_nodes, moved, Stands-moved, queue_at-Stands, move_on, move_off,
  incr_cursor-Advanced, incr_cursor-Stopped,
}

pub items_of : List Node → List Item
items_of = map λ n. n.item

-- The outcome of a walk that got the items `l`: nothing is ahead of the cursor any more.
abbrev pub Collected :
    List Frame → List Item → Option (Cursor × List Checkpoint × List Item × ℕ) → Type 0
Collected fs l out =
    (c : Cursor) × (ks : List Checkpoint) × (here : Frame) × (later : List Frame) × (out
      ≡ some (c, ks, l, snap_end_at c.checkpoint fs))
    × (frames ks ≡ fs)
    × Stands c fs here later
    × (ahead c here later ≡ [])

length-frames : (ks : List Checkpoint) → length (frames ks) ≡ length ks
unfolding frames
length-frames [] = refl
length-frames (k ∷ ks) = ap suc (length-frames ks)

length-from_frame :
    (a : ℕ) (fs : List Frame) (f : Frame) (r : List Frame)
    → from_frame a fs ≡ f ∷ r
    → length r < length fs
unfolding from_frame
length-from_frame a [] f r h = absurd (cc)
length-from_frame a (x ∷ fs) f r h = elim (ℕ_discrete x.self a) [
  | yes e ↦ omega (arith, ap length (same e))
  | no e ↦ omega (arith, length-from_frame a fs f r (ground arith))
]
  where
    same : x.self ≡ a → fs ≡ r
    same e = ground arith

collect-stop :
    (fuel : ℕ) (ks : List Checkpoint) (c c' : Cursor) (ks' : List Checkpoint)
    → incr_cursor (suc (length ks)) c ks ≡ (c', ks', false)
    → collect (suc fuel) c ks ≡ some (c', ks', [], snap_end_at c'.checkpoint (frames ks'))
unfolding collect
collect-stop fuel ks c c' ks' h = ground arith

collect-step :
    (fuel : ℕ) (ks : List Checkpoint) (c c' : Cursor) (ks' : List Checkpoint) (n : Node)
    (d : Cursor) (ls : List Checkpoint) (e : Cursor) (ms : List Checkpoint) (items : List Item)
    (last : ℕ)
    → incr_cursor (suc (length ks)) c ks ≡ (c', ks', true)
    → node_at c'.pos (queue_at c'.checkpoint (frames ks')) ≡ some n
    → after_item n.item c' ks' ≡ (d, ls)
    → collect fuel d ls ≡ some (e, ms, items, last)
    → collect (suc fuel) c ks ≡ some (e, ms, n.item ∷ items, last)
unfolding collect
collect-step fuel ks c c' ks' n d ls e ms items last h i j k = ground arith

-- Where the cursor stands after the item has been pushed.
record Resumed (r : List Node) (fs : List Frame) (out : Cursor × List Checkpoint) : Type 0 where
  here : Frame
  later : List Frame
  same : frames out.1 ≡ fs
  stands : Stands out.0 fs here later
  rest : ahead out.0 here later ≡ r

after_item-stay :
    (qi : Item) (c : Cursor) (ks : List Checkpoint)
    → (is_end qi.operation ≡ false) ⊎ (move_to_next c ks ≡ none)
    → after_item qi c ks ≡ (c, ks)
unfolding after_item
after_item-stay qi c ks h = ground arith

after_item-move :
    (qi : Item) (c c' : Cursor) (ks ks' : List Checkpoint)
    → is_end qi.operation ≡ true
    → move_to_next c ks ≡ some (c', ks')
    → after_item qi c ks ≡ (c', ks')
unfolding after_item
after_item-move qi c c' ks ks' h m = ground arith

after_item-Resumed :
    (n : Node) (r : List Node) (fs : List Frame) (c : Cursor) (ks : List Checkpoint) (f : Frame)
    (later : List Frame)
    → Stands c fs f later
    → frames ks ≡ fs
    → ahead c f later ≡ r
    → (is_end n.item.operation ≡ true → after c.pos f.queue ≡ [])
    → Resumed r fs (after_item n.item c ks)
after_item-Resumed n r fs c ks f later s same b ended =
    elim (Bool-cases (is_end n.item.operation)) [
      | inl e ↦ at_end later s b e
      | inr e ↦
          subst (Resumed r fs) (sym (after_item-stay n.item c ks (inl e)))
            (record { here = f; later = later; same = same; stands = s; rest = b })
    ]
  where
    at_end :
        (later : List Frame)
        → Stands c fs f later
        → ahead c f later ≡ r
        → is_end n.item.operation ≡ true
        → Resumed r fs (after_item n.item c ks)
    at_end [] s b e =
        subst (Resumed r fs) (sym (after_item-stay n.item c ks (inr (move_off c ks fs f s same))))
          (record { here = f; later = []; same = same; stands = s; rest = b })
    at_end (g ∷ gs) s b e =
        let (ks', mv, same') = move_on c ks fs f g gs s same in
        let (s', d) = Stands-moved c fs f g gs s in
        subst (Resumed r fs) (sym (after_item-move n.item c (moved c g) ks ks' e mv)) (record {
          here = g;
          later = gs;
          same = same';
          stands = s';
          rest =
              ap (λ z. z ++ later_nodes gs) d
              ∙ sym (ap (λ z. z ++ later_nodes (g ∷ gs)) (ended e))
              ∙ b;
        })

pub incr_fuel :
    (c : Cursor) (fs : List Frame) (f : Frame) (later : List Frame) (ks : List Checkpoint)
    → Stands c fs f later
    → frames ks ≡ fs
    → length later < suc (length ks)
incr_fuel c fs f later ks s same =
    omega (
      arith,
      length-from_frame c.checkpoint fs f later s.position,
      ap length same,
      length-frames ks,
    )

pub collect-Collected :
    (l : List Node) (fuel : ℕ) (c : Cursor) (ks : List Checkpoint) (fs : List Frame) (f : Frame)
    (later : List Frame)
    → Stands c fs f later
    → frames ks ≡ fs
    → ahead c f later ≡ l
    → length l < fuel
    → Collected fs (items_of l) (collect fuel c ks)
unfolding items_of
collect-Collected l zero c ks fs f later s same e h = elim h [ ]
collect-Collected [] (suc fuel) c ks fs f later s same e h =
    let w =
      incr_cursor-Stopped (suc (length ks)) later c ks fs f s same
        (incr_fuel c fs f later ks s same) e in
    let out = incr_cursor (suc (length ks)) c ks in
    (
      out.0,
      out.1,
      w.here,
      w.later,
      collect-stop fuel ks c out.0 out.1 (λ i. (out.0, out.1, w.more i))
          ∙ ap (λ z. some (out.0, out.1, [], snap_end_at out.0.checkpoint z)) w.same,
      w.same,
      w.stands,
      w.rest,
    )
collect-Collected (n ∷ r) (suc fuel) c ks fs f later s same e h =
    let w =
      incr_cursor-Advanced (suc (length ks)) later c ks fs f n r s same
        (incr_fuel c fs f later ks s same) e in
    let out = incr_cursor (suc (length ks)) c ks in
    let p = after_item n.item out.0 out.1 in
    let q = after_item-Resumed n r fs out.0 out.1 w.here w.later w.stands w.same w.behind w.ended in
    let (d, ls, here, last, eq, same', s', nil) =
      collect-Collected r fuel p.0 p.1 fs q.here q.later q.stands q.same q.rest (omega arith) in
    (
      d,
      ls,
      here,
      last,
      collect-step fuel ks c out.0 out.1 n p.0 p.1 d ls (items_of r) _
          (λ i. (out.0, out.1, w.more i))
          (ap (λ z. node_at out.0.pos (queue_at out.0.checkpoint z)) w.same
            ∙ ap (node_at out.0.pos) (queue_at-Stands out.0 fs w.here w.later w.stands)
            ∙ w.current)
          refl eq,
      same',
      s',
      nil,
    )
