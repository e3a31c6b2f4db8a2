-- ===== src/CheckpointManager/Tests.antt =====
-- Runs of the checkpoints, and the theorems at concrete managers.

use ep_engine.Base.{
  ℕ, ◌≤◌, ◌≡◌, refl, ap, inl, inr, true, false, some, [], ◌∷◌, String, arith, get_elem?,
}
use ep_engine.Checkpoint.Nodes.{
  set, empty, checkpoint_start, checkpoint_end, Item, is_end, is_meta_operation, Node, erase_node,
}
use ep_engine.Checkpoint.NodeLaws.{HasAddr, IsFresh}
use ep_engine.Checkpoint.Index.{with_key}
use ep_engine.Checkpoint.Expected.{IsSound, expected, queue_open-expected}
use ep_engine.Checkpoint.Delivery.{Sees, queue_open-Sees}
use ep_engine.Checkpoint.Sound.{queue_open-IsSound}
use ep_engine.Checkpoint.{
  Checkpoint, opened, closed, is_open, Cursor, queue_open, find_entry, put_entry, index_item,
  adjust_cursors,
}
use ep_engine.CheckpointManager.{Manager, frame, frames, from_frame, find_cursor}
use ep_engine.CheckpointManager.Open.{
  Config, last_checkpoint, meta_item, can_create, check_open_checkpoint, make_room,
  assign_and_enqueue, enqueue, queue_into, queued, queue_dirty,
}
use ep_engine.CheckpointManager.Walk.{Stands}
use ep_engine.CheckpointManager.AllItems.{Delivers, get_all_items-Delivers}
use ep_engine.CheckpointManager.QueueDirty.{queue_dirty-in_range, queue_dirty-expected}

abbrev pub config : Config
config = record {
  checkpoint_period = 5;
  checkpoint_max_items = 500;
  max_checkpoints = 2;
  item_num_based_new_checkpoint = true;
  keep_closed_checkpoints = false;
  sizeof_item = 128;
}

abbrev dummy_node : Node
dummy_node = record { addr = 2; item = meta_item config "dummy_key" empty 0 0 }

abbrev start_node : Node
start_node = record { addr = 3; item = meta_item config "checkpoint_start" checkpoint_start 1 1 }

abbrev mutation : String → ℕ → Item
mutation key seqno = record {
  key = key;
  operation = set;
  rev_seqno = 1;
  by_seqno = seqno;
  size = 200;
}

-- An open checkpoint without mutations.
abbrev pub fresh : Checkpoint
fresh = record {
  self = 1;
  id = 1;
  snap_start = 0;
  snap_end = 0;
  creation_time = 100;
  state = opened;
  num_items = 0;
  cursor_names = "persistence" ∷ [];
  to_write = dummy_node ∷ start_node ∷ [];
  key_index = [];
  meta_key_index = [];
  mem_overhead = 0;
  effective_mem_usage = 0;
}

fresh-IsSound : IsSound fresh
unfolding meta_item is_meta_operation with_key find_entry
fresh-IsSound = record {
  head = dummy_node;
  rest = start_node ∷ [];
  shape = refl;
  dummy = refl;
  distinct = omega arith;
  indexed = λ k. tt;
}

queue_open-IsSound_example : IsSound (queue_open 4 (mutation "a" 1) fresh []).0
queue_open-IsSound_example =
    queue_open-IsSound 4 (mutation "a" 1) fresh fresh-IsSound [] (omega arith) (λ e. ground arith)

second_address : IsFresh 5 (queue_open 4 (mutation "a" 1) fresh []).0.to_write
unfolding queue_open find_entry put_entry index_item is_meta_operation
second_address = omega arith

-- With the keys "a" and "b"; the cursor has passed "a".
abbrev filled : Checkpoint
filled = (queue_open 5 (mutation "b" 2) (queue_open 4 (mutation "a" 1) fresh []).0 []).0

filled-IsSound : IsSound filled
filled-IsSound =
    queue_open-IsSound 5 (mutation "b" 2) (queue_open 4 (mutation "a" 1) fresh []).0
      queue_open-IsSound_example [] second_address (λ e. ground arith)

abbrev pub reader : Cursor
reader = record {
  name = "persistence";
  checkpoint = 1;
  pos = 4;
  offset = 2;
  from_beginning_on_collapse = false;
  send_checkpoint_end = false;
}

filled_queue :
    (queue_open 6 (mutation "a" 3) filled (reader ∷ [])).1
    ≡ record reader { pos = 3; offset = 1 } ∷ []
unfolding queue_open find_entry put_entry index_item adjust_cursors erase_node is_meta_operation
filled_queue = refl

filled_moves :
    get_elem? (queue_open 6 (mutation "a" 3) filled (reader ∷ [])).1 0
    ≡ some (record reader { pos = 3; offset = 1 })
filled_moves = ap (λ l. get_elem? l 0) filled_queue

reader_place : HasAddr reader.pos filled.to_write
unfolding queue_open find_entry put_entry index_item is_meta_operation
reader_place = inr (inr (inl refl))

queue_open-Sees_example :
    Sees 6
      (mutation "a" 3)
      filled
      filled-IsSound
      reader
      (record reader { pos = 3; offset = 1 })
      (queue_open 6 (mutation "a" 3) filled (reader ∷ [])).0.to_write
unfolding queue_open find_entry put_entry index_item is_meta_operation
queue_open-Sees_example =
    queue_open-Sees 6 (mutation "a" 3) filled filled-IsSound (reader ∷ []) 0 reader
      (record reader { pos = 3; offset = 1 }) refl filled_moves refl reader_place

queue_open-expected_example :
    (queue_open 6 (mutation "a" 3) filled (reader ∷ [])).0.to_write
    ≡ expected (mutation "a" 3) 6 filled.to_write
queue_open-expected_example =
    queue_open-expected 6 (mutation "a" 3) filled filled-IsSound (reader ∷ [])

-- A closed checkpoint and an open one, with a cursor at the front of the first.
abbrev pub first_closed : Checkpoint
first_closed = record fresh {
  state = closed;
  num_items = 1;
  snap_end = 1;
  to_write =
      dummy_node
      ∷ start_node
      ∷ record { addr = 4; item = mutation "a" 1 }
      ∷ record { addr = 5; item = meta_item config "checkpoint_end" checkpoint_end 1 1 }
      ∷ [];
}

abbrev pub second_open : Checkpoint
second_open = record fresh {
  self = 6;
  id = 2;
  num_items = 1;
  cursor_names = [];
  snap_start = 1;
  snap_end = 2;
  to_write =
      record { addr = 7; item = meta_item config "dummy_key" empty 0 1 }
      ∷ record { addr = 8; item = meta_item config "checkpoint_start" checkpoint_start 2 2 }
      ∷ record { addr = 9; item = mutation "b" 2 }
      ∷ [];
}

abbrev pub at_front : Cursor
at_front = record reader { pos = 2; offset = 0 }

abbrev pub manager : Manager
manager = record {
  checkpoints = first_closed ∷ second_open ∷ [];
  conn_cursors = at_front ∷ [];
  num_items = 5;
  last_by_seqno = 2;
  last_closed_chk_by_seqno = 1;
  is_collapsed = false;
  last_closed_checkpoint_id = 1;
  p_cursor_pre_checkpoint_id = 0;
  next_address = 10;
  flusher_calls = 3;
  total_enqueued = 2;
  disk_queue_size = 2;
}

pub at_front-Stands :
    Stands at_front (frames manager.checkpoints) (frame first_closed) (frame second_open ∷ [])
unfolding frames from_frame meta_item is_end
at_front-Stands = record {
  position = refl;
  placed = inl refl;
  chain = (omega arith, (refl, (refl, (refl, tt))), refl, tt, (omega arith, (refl, (refl, tt))));
  own = omega arith;
}

pub at_front_found : find_cursor "persistence" manager.conn_cursors ≡ some at_front
unfolding find_cursor
at_front_found = refl

get_all_items-Delivers_example :
    Delivers "persistence" manager at_front (frame first_closed) (frame second_open ∷ [])
get_all_items-Delivers_example =
    get_all_items-Delivers "persistence" manager at_front (frame first_closed)
      (frame second_open ∷ []) at_front_found at_front-Stands

-- A vbucket with one checkpoint, which takes an item.
abbrev small : Manager
small = record manager {
  checkpoints = fresh ∷ [];
  conn_cursors = record reader { pos = 3; offset = 1 } ∷ [];
  last_by_seqno = 0;
  next_address = 4;
}

abbrev grown : Manager
grown = (queue_dirty config 200 true (mutation "a" 0) true small).0

grown_run : queue_dirty config 200 true (mutation "a" 0) true small ≡ (grown, queued true)
unfolding queue_dirty make_room assign_and_enqueue enqueue queue_into queue_open index_item
    last_checkpoint check_open_checkpoint is_open is_meta_operation find_entry
grown_run = refl

grown_ready : make_room config 200 true small ≡ (small, true)
unfolding make_room can_create check_open_checkpoint last_checkpoint is_open
grown_ready = refl

fresh_last : last_checkpoint small.checkpoints ≡ some fresh
unfolding last_checkpoint
fresh_last = refl

queue_dirty-in_range_example :
    (grown.last_by_seqno ≡ 1)
    × ((k : Checkpoint) × (last_checkpoint grown.checkpoints ≡ some k)
        × (k.snap_start ≤ grown.last_by_seqno)
        × (grown.last_by_seqno ≤ k.snap_end))
queue_dirty-in_range_example =
    queue_dirty-in_range config 200 true true (mutation "a" 0) small grown true grown_run

queue_dirty-expected_example :
    (k : Checkpoint) × (last_checkpoint grown.checkpoints ≡ some k)
    × (k.to_write ≡ expected (mutation "a" 1) 4 fresh.to_write)
queue_dirty-expected_example =
    queue_dirty-expected config 200 true true (mutation "a" 0) small grown true fresh fresh_last
      fresh-IsSound grown_ready grown_run
