-- ===== src/CheckpointManager/CursorTests.antt =====
-- The theorems on registering cursors, on nextItem and on removing checkpoints at concrete managers.
use ep_engine.Base.{◌≡◌, refl, inl, inr, true, false, some, List, [], ◌∷◌, ◌++◌, arith, drop}
use ep_engine.Checkpoint.Nodes.{is_end, checkpoint_start, after}
use ep_engine.Checkpoint.{Checkpoint, Cursor}
use ep_engine.CheckpointManager.{Manager, Frame, frame, frames, from_frame, find_cursor, has_name}
use ep_engine.CheckpointManager.Open.{meta_item, last_checkpoint}
use ep_engine.CheckpointManager.Walk.{Stands, ahead}
use ep_engine.CheckpointManager.Removal.{remove_unref}
use ep_engine.CheckpointManager.RemovalLaws.{IsRegistered, remove_unref-Stands}
use ep_engine.CheckpointManager.Cursors.{registered, register_cursor, next_item}
use ep_engine.CheckpointManager.CursorLaws.{next_item-head}
use ep_engine.CheckpointManager.Tests.{
  config, reader, first_closed, second_open, at_front, manager, at_front-Stands, at_front_found,
}

-- With the cursor in the open checkpoint, the closed one is removed.
abbrev in_second : Cursor
in_second = record reader { checkpoint = 6; pos = 8; offset = 4 }

abbrev open_named : Checkpoint
open_named = record second_open { cursor_names = "persistence" ∷ [] }

abbrev read_first : Manager
read_first = record manager {
  checkpoints = record first_closed { cursor_names = [] } ∷ open_named ∷ [];
  conn_cursors = in_second ∷ [];
  p_cursor_pre_checkpoint_id = 1;
}

removal_run : (remove_unref config read_first).1 ≡ 1
unfolding remove_unref find_cursor
removal_run = refl

in_second-Stands : Stands in_second (frames read_first.checkpoints) (frame second_open) []
unfolding frames from_frame meta_item is_end
in_second-Stands = record {
  position = refl;
  placed = inr (inl refl);
  chain = (omega arith, (refl, (refl, tt)));
  own = omega arith;
}

in_second_found : find_cursor "persistence" read_first.conn_cursors ≡ some in_second
unfolding find_cursor
in_second_found = refl

in_second-IsRegistered : IsRegistered "persistence" 6 read_first.checkpoints
unfolding has_name
in_second-IsRegistered = inr (inl (refl, refl))

remove_unref-Stands_example :
    (c : Cursor) × (find_cursor "persistence" (remove_unref config read_first).0.conn_cursors
      ≡ some c)
    × Stands c (frames (remove_unref config read_first).0.checkpoints) (frame second_open) []
    × (ahead c (frame second_open) [] ≡ ahead in_second (frame second_open) [])
remove_unref-Stands_example =
    remove_unref-Stands config read_first "persistence" in_second (frame second_open) []
      in_second_found in_second-IsRegistered in_second-Stands

abbrev with_replica : Manager
with_replica = (register_cursor "replica" 2 false true manager).0

replica_run : register_cursor "replica" 2 false true manager ≡ (with_replica, registered true)
unfolding register_cursor find_cursor
replica_run = refl

open_last : last_checkpoint manager.checkpoints ≡ some second_open
unfolding last_checkpoint
open_last = refl

next_item-head_example :
    let (m', item, flag) = next_item config "persistence" false manager in
    (item ≡ meta_item config "checkpoint_start" checkpoint_start 1 1)
    × (frames m'.checkpoints ≡ frames manager.checkpoints)
    × ((c' : Cursor) × (here' : Frame) × (later' : List Frame) × (find_cursor "persistence"
            m'.conn_cursors
          ≡ some c')
        × Stands c' (frames m'.checkpoints) here' later'
        × (ahead c' here' later' ≡ drop 2 first_closed.to_write ++ drop 1 second_open.to_write))
unfolding after
next_item-head_example =
    next_item-head config "persistence" false manager at_front second_open (frame first_closed)
      (frame second_open ∷ [])
      (record { addr = 3; item = meta_item config "checkpoint_start" checkpoint_start 1 1 })
      (drop 2 first_closed.to_write ++ drop 1 second_open.to_write) at_front_found at_front-Stands
      open_last (λ e. ground arith) refl
