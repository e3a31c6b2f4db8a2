-- ===== src/CheckpointManager/RemovalLaws.antt =====
-- Removing unreferenced checkpoints, of src/checkpoint.cc, leaves every cursor what it has ahead.
use mathlib.Core.Path.{subst}
use ep_engine.Base.{
  ℕ, ◌+◌, ◌-◌, ◌*◌, ◌≤◌, ◌<◌, ◌≡◌, refl, sym, ◌∙◌, ap, ◌⊎◌, inl, inr, true, ◌&&◌, ◌||◌, some, List,
  [], ◌∷◌, ◌++◌, String, str_eq, eq_iff, arith, ltb, leb, Bool-cases, length, eq_of_some,
}
use ep_engine.Checkpoint.{Checkpoint, Cursor, decr_offset}
use ep_engine.CheckpointManager.{Manager, Frame, frame, frames, from_frame, has_name, find_cursor}
use ep_engine.CheckpointManager.WalkLaws.{Unused, OwnAddresses}
use ep_engine.CheckpointManager.Walk.{Stands, ahead}
use ep_engine.CheckpointManager.Open.{Config}
use ep_engine.CheckpointManager.Removal.{
  is_valid_name, valid_names, remove_invalid, take_unref, sum_items, decr_offsets, remove_unref,
}

-- The checkpoint at the address knows the name.
abbrev pub IsRegistered : String → ℕ → List Checkpoint → Type 0
IsRegistered name a [] = ⊥
IsRegistered name a (k ∷ ks) =
    ((k.self ≡ a) × (has_name name k.cursor_names ≡ true)) ⊎ IsRegistered name a ks

valid_names-some :
    (cs : List Cursor) (name : String) (c : Cursor) (xs : List String)
    → find_cursor name cs ≡ some c
    → has_name name xs ≡ true
    → 0 < length (valid_names cs c.checkpoint xs)
unfolding valid_names has_name is_valid_name
valid_names-some cs name c [] f h = absurd (ground arith)
valid_names-some cs name c (x ∷ xs) f h = elim (Bool-cases (str_eq x name)) [
  | inl e ↦
      let same : x ≡ name = ground (arith, eq_iff x name) in
      let here : find_cursor x cs ≡ some c = ap (λ z. find_cursor z cs) same ∙ f in
      ground (arith, here)
  | inr e ↦ let r = valid_names-some cs name c xs f (ground arith) in ground (arith, r)
]

frame-remove_invalid : (cs : List Cursor) (k : Checkpoint) → frame (remove_invalid cs k) ≡ frame k
unfolding remove_invalid
frame-remove_invalid cs k = refl

IsRegistered-Unused :
    (name : String) (a b : ℕ) (ks : List Checkpoint)
    → IsRegistered name a ks
    → Unused b (frames ks)
    → b ≡ a
    → ⊥
unfolding frames
IsRegistered-Unused name a b [] r u e = absurd r
IsRegistered-Unused name a b (k ∷ ks) (inl (s, h)) u e = u.0 (s ∙ sym e)
IsRegistered-Unused name a b (k ∷ ks) (inr r) u e = IsRegistered-Unused name a b ks r u.1 e

from_frame-tail :
    (a : ℕ) (k : Checkpoint) (ks : List Checkpoint)
    → (k.self ≡ a → ⊥)
    → from_frame a (frames (k ∷ ks)) ≡ from_frame a (frames ks)
unfolding frames from_frame
from_frame-tail a k ks h = ground arith

module _ (cfg : Config) (cs : List Cursor) (pre size : ℕ) where
  take_unref-head :
      (count : ℕ) (k : Checkpoint) (ks : List Checkpoint)
      → (frames (take_unref cfg cs pre size count (k ∷ ks)).1 ≡ frames (k ∷ ks))
        ⊎ (((frames (take_unref cfg cs pre size count (k ∷ ks)).1 ≡ frames ks)
              ⊎ (frames (take_unref cfg cs pre size count (k ∷ ks)).1
                  ≡ frames (take_unref cfg cs pre size (count + 1) ks).1))
            × (length (remove_invalid cs k).cursor_names ≡ 0))
  unfolding take_unref frames remove_invalid
  take_unref-head count k ks = ground arith

  take_unref-from_frame :
      (name : String) (c : Cursor) (ks : List Checkpoint) (count : ℕ)
      → find_cursor name cs ≡ some c
      → IsRegistered name c.checkpoint ks
      → OwnAddresses (frames ks)
      → from_frame c.checkpoint (frames (take_unref cfg cs pre size count ks).1)
        ≡ from_frame c.checkpoint (frames ks)
  unfolding remove_invalid valid_names frames
  take_unref-from_frame name c [] count f r o = absurd r
  take_unref-from_frame name c (k ∷ ks) count f (inl (e, h)) o = elim (take_unref-head count k ks) [
    | inl same ↦ ap (from_frame c.checkpoint) same
    | inr (w, z) ↦
        let some_left : 0 < length (remove_invalid cs k).cursor_names =
          subst (λ a. 0 < length (valid_names cs a k.cursor_names)) (sym e)
            (valid_names-some cs name c k.cursor_names f h) in
        absurd (omega (arith, some_left, z))
  ]
  take_unref-from_frame name c (k ∷ ks) count f (inr r) o =
      let past =
        from_frame-tail c.checkpoint k ks (IsRegistered-Unused name c.checkpoint k.self ks r o.0) in
      elim (take_unref-head count k ks) [
        | inl same ↦ ap (from_frame c.checkpoint) same
        | inr (inl same, z) ↦ ap (from_frame c.checkpoint) same ∙ sym past
        | inr (inr same, z) ↦
            ap (from_frame c.checkpoint) same
            ∙ take_unref-from_frame name c ks (count + 1) f r o.1
            ∙ sym past
      ]

  take_unref-OwnAddresses :
      (ks : List Checkpoint) (count : ℕ)
      → OwnAddresses (frames ks)
      → OwnAddresses (frames (take_unref cfg cs pre size count ks).1)
  unfolding frames take_unref
  take_unref-OwnAddresses [] count o = tt
  take_unref-OwnAddresses (k ∷ ks) count o = elim (take_unref-head count k ks) [
    | inl same ↦ subst OwnAddresses (sym same) o
    | inr (inl same, z) ↦ subst OwnAddresses (sym same) o.1
    | inr (inr same, z) ↦ subst OwnAddresses (sym same) (take_unref-OwnAddresses ks (count + 1) o.1)
  ]

  -- No cursor is in them, and the persistence cursor has left them.
  abbrev pub AllUnreferenced : List Checkpoint → Type 0
  AllUnreferenced [] = Unit {0}
  AllUnreferenced (k ∷ ks) = (k.id ≤ pre) × (length k.cursor_names ≡ 0) × AllUnreferenced ks

  take_unref-split :
      (ks : List Checkpoint) (count : ℕ)
      → let (gone, kept) = take_unref cfg cs pre size count ks in
        (frames gone ++ frames kept ≡ frames ks) × AllUnreferenced gone
  unfolding take_unref frames remove_invalid
  take_unref-split [] count = (refl, tt)
  take_unref-split (k ∷ ks) count =
      let r = take_unref-split ks (count + 1) in
      elim (Bool-cases (ltb 0 (length (remove_invalid cs k).cursor_names) || ltb pre k.id)) [
        | inl e ↦ rw e (refl, tt)
        | inr e ↦
            elim (Bool-cases
              (cfg.keep_closed_checkpoints && leb (size - (count + 1)) cfg.max_checkpoints)) [
                | inl w ↦ rw (e, w) (refl, (ground arith, ground arith, tt))
                | inr w ↦ rw (e, w) (ap (λ l. frame k ∷ l) r.0, (ground arith, ground arith, r.1))
              ]
      ]

find_cursor-decr_offsets :
    (name : String) (n : ℕ) (cs : List Cursor) (c : Cursor)
    → find_cursor name cs ≡ some c
    → find_cursor name (decr_offsets n cs) ≡ some (decr_offset n c)
unfolding find_cursor decr_offsets decr_offset
find_cursor-decr_offsets name n [] c h = absurd (cc)
find_cursor-decr_offsets name n (d ∷ cs) c h = elim (Bool-cases (str_eq d.name name)) [
  | inl e ↦ rw e (ap (λ z. some (decr_offset n z)) (eq_of_some (ground arith)))
  | inr e ↦ rw e (find_cursor-decr_offsets name n cs c (ground arith))
]

Stands-decr_offset :
    (n : ℕ) (c : Cursor) (fs : List Frame) (here : Frame) (later : List Frame)
    → Stands c fs here later
    → Stands (decr_offset n c) fs here later
      × (ahead (decr_offset n c) here later ≡ ahead c here later)
unfolding decr_offset
Stands-decr_offset n c fs here later s =
    (record { position = s.position; placed = s.placed; chain = s.chain; own = s.own }, refl)

-- A registered cursor, whose name the checkpoint that it stands in knows, still stands in it after
-- unreferenced checkpoints have been removed, with the same items ahead.
pub remove_unref-Stands :
    (cfg : Config) (m : Manager) (name : String) (c : Cursor) (here : Frame) (later : List Frame)
    → find_cursor name m.conn_cursors ≡ some c
    → IsRegistered name c.checkpoint m.checkpoints
    → Stands c (frames m.checkpoints) here later
    → (c' : Cursor) × (find_cursor name (remove_unref cfg m).0.conn_cursors ≡ some c')
      × Stands c' (frames (remove_unref cfg m).0.checkpoints) here later
      × (ahead c' here later ≡ ahead c here later)
unfolding remove_unref
remove_unref-Stands cfg m name c here later f r s =
    let cs = m.conn_cursors in
    let pre = m.p_cursor_pre_checkpoint_id in
    let size = length m.checkpoints in
    let kept = (take_unref cfg cs pre size 0 m.checkpoints).1 in
    let gone = (take_unref cfg cs pre size 0 m.checkpoints).0 in
    let total = sum_items gone + 2 * length gone in
    let s' : Stands c (frames kept) here later = record {
      position =
          take_unref-from_frame cfg cs pre size name c m.checkpoints 0 f r s.own ∙ s.position;
      placed = s.placed;
      chain = s.chain;
      own = take_unref-OwnAddresses cfg cs pre size m.checkpoints 0 s.own;
    } in
    elim (Bool-cases (ltb 0 total)) [
      | inl e ↦
          let (t, same) = Stands-decr_offset total c (frames kept) here later s' in
          (decr_offset total c, ground (arith, find_cursor-decr_offsets name total cs c f), t, same)
      | inr e ↦ (c, ground arith, s', refl)
    ]

-- The checkpoints that are removed are the first of the list: their ids are at most the last one that the
-- persistence cursor has left, no cursor is in them, and the number returned is that of their items.
-- The queues and states of the others stay as they are.
remove_unref-AllUnreferenced :
    (cfg : Config) (m : Manager)
    → (gone : List Checkpoint) × (frames gone ++ frames (remove_unref cfg m).0.checkpoints
        ≡ frames m.checkpoints)
      × AllUnreferenced cfg m.conn_cursors m.p_cursor_pre_checkpoint_id (length m.checkpoints) gone
      × ((remove_unref cfg m).1 ≡ sum_items gone)
unfolding remove_unref
remove_unref-AllUnreferenced cfg m =
    let pre = m.p_cursor_pre_checkpoint_id in
    let size = length m.checkpoints in
    let r = take_unref-split cfg m.conn_cursors pre size m.checkpoints 0 in
    ((take_unref cfg m.conn_cursors pre size 0 m.checkpoints).0, r.0, r.1, refl)
