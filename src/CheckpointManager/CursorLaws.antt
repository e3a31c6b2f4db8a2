-- ===== src/CheckpointManager/CursorLaws.antt =====
-- The registration of cursors and `nextItem` of src/checkpoint.cc.
use mathlib.Core.Path.{subst}
use ep_engine.Base.{
  ℕ, suc, ◌≡◌, refl, sym, ◌∙◌, ap, ◌≢◌, ◌⊎◌, inl, inr, Bool, true, not, ◌||◌, none, some, List, [],
  ◌∷◌, String, str_eq, eq_iff, arith, ltb, ◌==◌, if◌then◌else◌, Bool-cases, Option-cases, length,
}
use ep_engine.Checkpoint.Nodes.{Item, Node, node_at}
use ep_engine.Checkpoint.{Checkpoint, Cursor, persistence_name}
use ep_engine.CheckpointManager.{
  Manager, Frame, frames, queue_at, begin_addr, has_name, register_name, remove_name, at_checkpoint,
  incr_cursor, find_cursor, put_cursor,
}
use ep_engine.CheckpointManager.WalkLaws.{frames-at_checkpoint}
use ep_engine.CheckpointManager.Names.{find_cursor-name, find_cursor-put_cursor, name-incr_cursor}
use ep_engine.CheckpointManager.Walk.{Stands, ahead, incr_cursor-Advanced, queue_at-Stands}
use ep_engine.CheckpointManager.Collect.{incr_fuel}
use ep_engine.CheckpointManager.Open.{Config, last_checkpoint}
use ep_engine.CheckpointManager.RemovalLaws.{IsRegistered}
use ep_engine.CheckpointManager.Cursors.{
  find_id, find_later, unregister, registered, place_cursor, kept_place, items_before,
  register_cursor, is_last_mutation, next_item,
}

-- A checkpoint of the list has the address.
abbrev HasSelf : ℕ → List Checkpoint → Type 0
HasSelf a [] = ⊥
HasSelf a (k ∷ ks) = (k.self ≡ a) ⊎ HasSelf a ks

HasSelf-find_id :
    (id : ℕ) (ks : List Checkpoint) (k : Checkpoint) → find_id id ks ≡ some k → HasSelf k.self ks
unfolding find_id
HasSelf-find_id id [] k h = absurd (cc)
HasSelf-find_id id (x ∷ ks) k h = elim (Bool-cases (id == x.id)) [
  | inl e ↦ inl (ground arith)
  | inr e ↦ inr (HasSelf-find_id id ks k (ground arith))
]

HasSelf-find_later :
    (pre : ℕ) (ks : List Checkpoint) (k : Checkpoint)
    → find_later pre ks ≡ some k
    → HasSelf k.self ks
unfolding find_later
HasSelf-find_later pre [] k h = absurd (cc)
HasSelf-find_later pre (x ∷ ks) k h = elim (Bool-cases (ltb pre x.id || (pre == 0))) [
  | inl e ↦ inl (ground arith)
  | inr e ↦ inr (HasSelf-find_later pre ks k (ground arith))
]

has_name-register_name :
    (name : String) (k : Checkpoint) → has_name name (register_name name k).cursor_names ≡ true
unfolding register_name has_name
has_name-register_name name k = ground (arith, eq_iff name name)

IsRegistered-register :
    (name : String) (a : ℕ) (ks : List Checkpoint)
    → HasSelf a ks
    → IsRegistered name a (at_checkpoint a (register_name name) ks)
unfolding at_checkpoint register_name
IsRegistered-register name a [] h = absurd h
IsRegistered-register name a (k ∷ ks) h = elim (Bool-cases (k.self == a)) [
  | inl e ↦ rw e (inl (ground arith, has_name-register_name name k))
  | inr e ↦ rw e (inr (IsRegistered-register name a ks (tail h (ground arith))))
]
  where
    tail : (k.self ≡ a) ⊎ HasSelf a ks → k.self ≢ a → HasSelf a ks
    tail (inl e) n = absurd (n e)
    tail (inr r) n = r

frames-unregister :
    (name : String) (cs : List Cursor) (ks : List Checkpoint)
    → frames (unregister name cs ks) ≡ frames ks
unfolding unregister
frames-unregister name cs ks = elim (Option-cases (find_cursor name cs)) [
  | inl e ↦ ap frames {y = ks} (ground (arith, e))
  | inr (c, e) ↦
      ap frames {y = at_checkpoint c.checkpoint (remove_name name) ks} (ground (arith, e))
      ∙ (frames-at_checkpoint c.checkpoint name ks).1
]

abbrev placed : String → Bool → Checkpoint → ℕ → ℕ → Cursor
placed name send_end k pos offset = record {
  name = name;
  checkpoint = k.self;
  pos = pos;
  offset = offset;
  from_beginning_on_collapse = not (str_eq name persistence_name);
  send_checkpoint_end = send_end;
}

-- What a registration leaves: the cursor is found under its name, the checkpoint that it is in knows it,
-- and it sends checkpoint ends as asked.
abbrev pub Placed : String → Bool → List Frame → Manager → Type 0
Placed name send_end fs m =
    (c : Cursor) × (find_cursor name m.conn_cursors ≡ some c)
    × IsRegistered name c.checkpoint m.checkpoints
    × (c.send_checkpoint_end ≡ send_end)
    × (frames m.checkpoints ≡ fs)

place_cursor-Placed :
    (name : String) (send_end : Bool) (k : Checkpoint) (pos offset : ℕ) (ks : List Checkpoint)
    (m : Manager)
    → HasSelf k.self ks
    → frames ks ≡ frames m.checkpoints
    → Placed name send_end (frames m.checkpoints) (place_cursor name send_end k pos offset ks m)
unfolding place_cursor
place_cursor-Placed name send_end k pos offset ks m h same = (
  placed name send_end k pos offset,
  find_cursor-put_cursor name m.conn_cursors (placed name send_end k pos offset)
      ∙ ground (arith, eq_iff name name),
  IsRegistered-register name k.self ks h,
  refl,
  (frames-at_checkpoint k.self name ks).0 ∙ same,
)

-- If `registerCursor` does not throw, the cursor is found under its name afterwards, the checkpoint that
-- it is in knows it, so that it is not removed, it sends checkpoint ends as asked, and no queue, state or
-- snapshot of a checkpoint has changed.
register_cursor-Placed :
    (name : String) (id : ℕ) (always send_end : Bool) (m m' : Manager) (found : Bool)
    → register_cursor name id always send_end m ≡ (m', registered found)
    → Placed name send_end (frames m.checkpoints) m'
unfolding register_cursor
register_cursor-Placed name id always send_end m m' found h =
    let ks = unregister name m.conn_cursors m.checkpoints in
    let same = frames-unregister name m.conn_cursors m.checkpoints in
    let into : (k : Checkpoint) (pos offset : ℕ)
        → HasSelf k.self ks
        → place_cursor name send_end k pos offset ks m ≡ m'
        → Placed name send_end (frames m.checkpoints) m' =
      λ k pos offset i e.
        subst (Placed name send_end (frames m.checkpoints)) e
          (place_cursor-Placed name send_end k pos offset ks m i same) in
    elim (Option-cases (find_id id ks)) [
      | inr (k, e) ↦
          elim (Option-cases (if always then none else kept_place name k m.conn_cursors ks)) [
            | inl w ↦
                into k (begin_addr k.to_write) (items_before k.self ks) (HasSelf-find_id id ks k e)
                  (ground (arith, e, w, h))
            | inr ((pos, offset), w) ↦
                into k pos offset (HasSelf-find_id id ks k e) (ground (arith, e, w, h))
          ]
      | inl e ↦ elim (Option-cases (find_later m.p_cursor_pre_checkpoint_id ks)) [
        | inl w ↦ absurd (ground (arith, e, w, h))
        | inr (k, w) ↦
            into k (begin_addr k.to_write) (items_before k.self ks)
              (HasSelf-find_later m.p_cursor_pre_checkpoint_id ks k w) (ground (arith, e, w, h))
      ]
    ]

incr-eq :
    (cfg : Config) (name : String) (last : Bool) (m : Manager) (c : Cursor) (k : Checkpoint)
    (c' : Cursor) (ks : List Checkpoint) (n : Node)
    → find_cursor name m.conn_cursors ≡ some c
    → last_checkpoint m.checkpoints ≡ some k
    → k.id ≢ 0
    → incr_cursor (suc (length m.checkpoints)) c m.checkpoints ≡ (c', ks, true)
    → node_at c'.pos (queue_at c'.checkpoint (frames ks)) ≡ some n
    → next_item cfg name last m ≡ (
      record m { checkpoints = ks; conn_cursors = put_cursor c' m.conn_cursors },
      n.item,
      is_last_mutation c'.pos (queue_at c'.checkpoint (frames ks)),
    )
unfolding next_item
incr-eq cfg name last m c k c' ks n f l z e i = ground arith

-- For a registered cursor that stands on an item, while the vbucket is not in its backfill phase,
-- `nextItem` returns the first item ahead of the cursor; afterwards the cursor is found under its name
-- and has the others ahead, and no queue, state or snapshot of a checkpoint has changed.
pub next_item-head :
    (cfg : Config) (name : String) (last : Bool) (m : Manager) (c : Cursor) (k : Checkpoint)
    (here : Frame) (later : List Frame) (n : Node) (r : List Node)
    → find_cursor name m.conn_cursors ≡ some c
    → Stands c (frames m.checkpoints) here later
    → last_checkpoint m.checkpoints ≡ some k
    → k.id ≢ 0
    → ahead c here later ≡ n ∷ r
    → let (m', item, flag) = next_item cfg name last m in
      (item ≡ n.item)
      × (frames m'.checkpoints ≡ frames m.checkpoints)
      × ((c' : Cursor) × (here' : Frame) × (later' : List Frame) × (find_cursor name m'.conn_cursors
            ≡ some c')
          × Stands c' (frames m'.checkpoints) here' later'
          × (ahead c' here' later' ≡ r))
next_item-head cfg name last m c k here later n r f s l z e =
    let out = incr_cursor (suc (length m.checkpoints)) c m.checkpoints in
    let w =
      incr_cursor-Advanced (suc (length m.checkpoints)) later c m.checkpoints (frames m.checkpoints)
        here n r s refl (incr_fuel c (frames m.checkpoints) here later m.checkpoints s refl) e in
    let at : node_at out.0.pos (queue_at out.0.checkpoint (frames out.1)) ≡ some n =
      ap (λ x. node_at out.0.pos (queue_at out.0.checkpoint x)) w.same
      ∙ ap (node_at out.0.pos)
          (queue_at-Stands out.0 (frames m.checkpoints) w.here w.later w.stands)
      ∙ w.current in
    let eq = incr-eq cfg name last m c k out.0 out.1 n f l z (λ i. (out.0, out.1, w.more i)) at in
    (
      ap (λ (x : Manager × Item × Bool). x.1) eq,
      ap (λ (x : Manager × Item × Bool). frames x.0.checkpoints) eq ∙ w.same,
      (
        out.0,
        w.here,
        w.later,
        ap (λ (x : Manager × Item × Bool). find_cursor name x.0.conn_cursors) eq
            ∙ find_cursor-put_cursor name m.conn_cursors out.0
            ∙ ground (
              arith,
              eq_iff out.0.name name,
              find_cursor-name name m.conn_cursors c f,
              name-incr_cursor (suc (length m.checkpoints)) c m.checkpoints,
            ),
        subst (λ x. Stands out.0 x w.here w.later)
            (sym (ap (λ (x : Manager × Item × Bool). frames x.0.checkpoints) eq ∙ w.same)) w.stands,
        w.behind,
      ),
    )
