-- ===== src/CheckpointManager/Removal.antt =====
-- `removeClosedUnrefCheckpoints` of src/checkpoint.cc, without the collapsing of closed checkpoints on a
-- replica that merges them.
use ep_engine.Base.{
  ℕ, ◌+◌, ◌-◌, ◌*◌, ◌%◌, ◌^◌, Bool, true, false, ◌&&◌, ◌||◌, none, some, List, [], ◌∷◌, String, ltb,
  leb, ◌==◌, if◌then◌else◌, length,
}
use ep_engine.Checkpoint.{Checkpoint, Cursor, decr_offset}
use ep_engine.CheckpointManager.{Manager, find_cursor}
use ep_engine.CheckpointManager.Open.{Config, can_create, check_open_checkpoint}

-- Whether a cursor of that name is in the checkpoint at the address.
unfoldable pub is_valid_name : List Cursor → ℕ → String → Bool
is_valid_name cs a name = elim (find_cursor name cs) [ none ↦ false | some c ↦ c.checkpoint == a ]

unfoldable pub valid_names : List Cursor → ℕ → List String → List String
unfolding is_valid_name
valid_names cs a [] = []
valid_names cs a (x ∷ xs) = let r = valid_names cs a xs in if is_valid_name cs a x then x ∷ r else r

-- `removeInvalidCursorsOnCheckpoint`
unfoldable pub remove_invalid : List Cursor → Checkpoint → Checkpoint
unfolding valid_names
remove_invalid cs k = record k { cursor_names = valid_names cs k.self k.cursor_names }

-- The loop over the checkpoints: those that it takes, and those that stay. `count` have been taken.
unfoldable pub take_unref :
    Config → List Cursor → ℕ → ℕ → ℕ → List Checkpoint → List Checkpoint × List Checkpoint
unfolding remove_invalid
take_unref cfg cs pre size count [] = ([], [])
take_unref cfg cs pre size count (k ∷ ks) =
    let k' = remove_invalid cs k in
    let (gone, kept) = take_unref cfg cs pre size (count + 1) ks in
    if ltb 0 (length k'.cursor_names) || ltb pre k'.id
    then ([], k' ∷ ks)
    else (if cfg.keep_closed_checkpoints && leb (size - (count + 1)) cfg.max_checkpoints
        then (k' ∷ [], ks)
        else (k' ∷ gone, kept))

unfoldable pub sum_items : List Checkpoint → ℕ
sum_items [] = 0
sum_items (k ∷ ks) = k.num_items + sum_items ks

unfoldable pub decr_offsets : ℕ → List Cursor → List Cursor
unfolding decr_offset
decr_offsets n [] = []
decr_offsets n (c ∷ cs) = decr_offset n c ∷ decr_offsets n cs

-- From the loop to the removal of the checkpoints from the list: the manager, and the items removed.
unfoldable pub remove_unref : Config → Manager → Manager × ℕ
unfolding take_unref sum_items decr_offsets
remove_unref cfg m =
    let (gone, kept) =
      take_unref cfg m.conn_cursors m.p_cursor_pre_checkpoint_id (length m.checkpoints) 0
        m.checkpoints in
    let total = sum_items gone + 2 * length gone in
    (
      record m {
        checkpoints = kept;
        num_items = (m.num_items + 2 ^ 64 - total) % 2 ^ 64;
        conn_cursors = if ltb 0 total then decr_offsets total m.conn_cursors else m.conn_cursors;
      },
      sum_items gone,
    )

-- `removeClosedUnrefCheckpoints`; `force` is the result of `isCheckpointCreationForHighMemUsage`, and
-- `memory_low` says that the memory used is below the high mark. The result has the number of items and
-- the flag for a new checkpoint.
unfoldable pub remove_closed_unref : Config → ℕ → Bool → Bool → Bool → Manager → Manager × ℕ × Bool
unfolding remove_unref
remove_closed_unref cfg now active force memory_low m =
    let (m1, old) =
      if active && can_create cfg m.checkpoints
      then check_open_checkpoint cfg now force true m
      else (m, 0) in
    let (m2, items) = remove_unref cfg m1 in
    if cfg.keep_closed_checkpoints && memory_low && leb (length m1.checkpoints) cfg.max_checkpoints
    then (m1, 0, ltb 0 old)
    else (m2, items, ltb 0 old)
