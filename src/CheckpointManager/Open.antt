-- ===== src/CheckpointManager/Open.antt =====
-- `CheckpointManager` of src/checkpoint.cc: closing the open checkpoint, adding one, and queueing an
-- item in it.
use Prim.Native.String.{len}
use ep_engine.Base.{
  ℕ, ◌+◌, ◌-◌, ◌%◌, ◌^◌, Bool, true, false, not, ◌&&◌, ◌||◌, Option, none, some, List, [], ◌∷◌,
  ◌++◌, String, ltb, leb, ◌==◌, if◌then◌else◌, length,
}
use ep_engine.Checkpoint.Nodes.{
  Operation, empty, checkpoint_start, checkpoint_end, Item, Node, is_end, is_start, node_at,
  next_addr, last_node,
}
use ep_engine.Checkpoint.{
  Checkpoint, opened, closed, is_open, Cursor, QueueDirty, existing_item, new_item, queue_open,
}
use ep_engine.CheckpointManager.{Manager, frames, queue_at, move_to_next}

-- `CheckpointConfig`, and `sizeof(Item)` on the platform.
pub record Config : Type 0 where
  pub checkpoint_period : ℕ
  pub checkpoint_max_items : ℕ
  pub max_checkpoints : ℕ
  pub item_num_based_new_checkpoint : Bool
  pub keep_closed_checkpoints : Bool
  pub sizeof_item : ℕ

unfoldable pub last_checkpoint : List Checkpoint → Option Checkpoint
last_checkpoint [] = none
last_checkpoint (k ∷ []) = some k
last_checkpoint (k ∷ l ∷ ks) = last_checkpoint (l ∷ ks)

-- Runs a method on the last checkpoint.
unfoldable pub set_last : Checkpoint → List Checkpoint → List Checkpoint
set_last c [] = []
set_last c (k ∷ []) = c ∷ []
set_last c (k ∷ l ∷ ks) = k ∷ set_last c (l ∷ ks)

unfoldable pub meta_item : Config → String → Operation → ℕ → ℕ → Item
meta_item cfg key op id seqno = record {
  key = key;
  operation = op;
  rev_seqno = id;
  by_seqno = seqno;
  size = cfg.sizeof_item + len key;
}

-- `createCheckpointItem`: `none` is the exception for any other operation.
unfoldable create_checkpoint_item : Config → ℕ → Operation → ℕ → Option Item
unfolding meta_item
create_checkpoint_item cfg id checkpoint_start last =
    some (meta_item cfg "checkpoint_start" checkpoint_start id (last + 1))
create_checkpoint_item cfg id checkpoint_end last =
    some (meta_item cfg "checkpoint_end" checkpoint_end id last)
create_checkpoint_item cfg id empty last = some (meta_item cfg "dummy_key" empty id last)
create_checkpoint_item cfg id _ last = none

-- `Checkpoint::queueDirty` called with the manager: the new node takes the next address, the cursors
-- may move, and the flusher is called for a checkpoint_start and a checkpoint_end.
unfoldable pub queue_into : Item → Checkpoint → Manager → Checkpoint × Manager × QueueDirty
queue_into qi k m =
    let (k', cs, rv) = queue_open m.next_address qi k m.conn_cursors in
    (
      k',
      record m {
        conn_cursors = cs;
        next_address = m.next_address + 1;
        flusher_calls =
            if is_start qi.operation || is_end qi.operation
            then m.flusher_calls + 1
            else m.flusher_calls;
      },
      rv,
    )

unfoldable pub queue_meta : Option Item → Checkpoint → Manager → Checkpoint × Manager
unfolding queue_into
queue_meta none k m = (k, m)
queue_meta (some qi) k m = let (k', m', rv) = queue_into qi k m in (k', m')

-- `getHighSeqno`
unfoldable pub high_seqno : Checkpoint → ℕ
unfolding last_node
high_seqno k = elim (last_node k.to_write) [ none ↦ 0 | some n ↦ n.item.by_seqno ]

-- `closeOpenCheckpoint_UNLOCKED`
unfoldable pub close_open_checkpoint : Config → Manager → Manager × Bool
unfolding queue_meta create_checkpoint_item high_seqno
close_open_checkpoint cfg m = elim (last_checkpoint m.checkpoints) [
  | none ↦ (m, false)
  | some k ↦
      (let (k', m') =
          queue_meta (create_checkpoint_item cfg k.id checkpoint_end m.last_by_seqno) k m in
        if is_open k.state
        then (
          record m' {
            checkpoints = set_last (record k' { state = closed }) m'.checkpoints;
            num_items = m'.num_items + 1;
            last_closed_chk_by_seqno = high_seqno k';
          },
          true,
        )
        else (m, true))
]

-- The constructor of `Checkpoint`, created at the time `now`.
unfoldable new_checkpoint : ℕ → ℕ → ℕ → ℕ → ℕ → Checkpoint
new_checkpoint self id snap_start snap_end now = record {
  self = self;
  id = id;
  snap_start = snap_start;
  snap_end = snap_end;
  creation_time = now;
  state = opened;
  num_items = 0;
  cursor_names = [];
  to_write = [];
  key_index = [];
  meta_key_index = [];
  mem_overhead = 0;
  effective_mem_usage = 0;
}

-- The end of the loop body of `addNewCheckpoint_UNLOCKED`, for a cursor past the last item.
unfoldable leave_checkpoint : Cursor → List Checkpoint → Cursor × List Checkpoint
leave_checkpoint c ks = elim (move_to_next c ks) [ none ↦ (c, ks) | some (c', ks') ↦ (c', ks') ]

unfoldable ends_at : ℕ → List Node → Bool
unfolding node_at
ends_at a ns = elim (node_at a ns) [ none ↦ false | some n ↦ is_end n.item.operation ]

-- The loop body: a cursor with nothing ahead in a closed checkpoint, or only a checkpoint_end that it
-- need not send, moves on.
unfoldable skip_end : Cursor → List Checkpoint → Cursor × List Checkpoint
unfolding leave_checkpoint ends_at
skip_end c ks =
    let ns = queue_at c.checkpoint (frames ks) in
    elim (next_addr c.pos ns) [
      | none ↦ leave_checkpoint c ks
      | some a ↦
          (let past = record c { pos = a; offset = c.offset + 1 } in
            if not c.send_checkpoint_end && ends_at a ns
            then (elim (next_addr a ns) [ none ↦ leave_checkpoint past ks | some b ↦ (past, ks) ])
            else (c, ks))
    ]

unfoldable skip_ends : List Cursor → List Checkpoint → List Cursor × List Checkpoint
unfolding skip_end
skip_ends [] ks = ([], ks)
skip_ends (c ∷ cs) ks =
    let (c', ks') = skip_end c ks in let (cs', ks'') = skip_ends cs ks' in (c' ∷ cs', ks'')

-- The part of `addNewCheckpoint_UNLOCKED` behind the closing of the open checkpoint.
unfoldable pub append_checkpoint : Config → ℕ → ℕ → ℕ → ℕ → Manager → Manager
unfolding queue_meta create_checkpoint_item new_checkpoint skip_ends
append_checkpoint cfg now id snap_start snap_end m =
    let k = new_checkpoint m.next_address id snap_start snap_end now in
    let m1 = record m { next_address = m.next_address + 1 } in
    let (k2, m2) = queue_meta (create_checkpoint_item cfg 0 empty m.last_by_seqno) k m1 in
    let (k3, m3) =
      queue_meta (create_checkpoint_item cfg id checkpoint_start m.last_by_seqno) k2 m2 in
    let m4 = record m3 { checkpoints = m3.checkpoints ++ k3 ∷ []; num_items = m3.num_items + 1 } in
    let (cs, ks) = skip_ends m4.conn_cursors m4.checkpoints in
    if length m.checkpoints == 0 then m4 else record m4 { conn_cursors = cs; checkpoints = ks }

-- `addNewCheckpoint_UNLOCKED`
unfoldable pub add_new_checkpoint : Config → ℕ → ℕ → ℕ → ℕ → Manager → Manager
add_new_checkpoint cfg now id snap_start snap_end m = elim (last_checkpoint m.checkpoints) [
  | none ↦ append_checkpoint cfg now id snap_start snap_end m
  | some k ↦
      append_checkpoint cfg now id snap_start snap_end
        (if is_open k.state then (close_open_checkpoint cfg m).0 else m)
]

-- A checkpoint id through `int checkpoint_id` and back to `uint64_t`.
unfoldable pub through_int : ℕ → ℕ
through_int id = if ltb (id % 2 ^ 32) (2 ^ 31) then id % 2 ^ 32 else 2 ^ 64 - 2 ^ 32 + id % 2 ^ 32

-- `checkOpenCheckpoint_UNLOCKED`; `now` is `ep_real_time()`, a 32-bit number. The id is kept in an
-- `int`.
unfoldable pub check_open_checkpoint : Config → ℕ → Bool → Bool → Manager → Manager × ℕ
unfolding through_int
check_open_checkpoint cfg now force time_bound m = elim (last_checkpoint m.checkpoints) [
  | none ↦ (m, 0)
  | some k ↦
      (let late =
          time_bound && leb cfg.checkpoint_period ((now + 2 ^ 32 - k.creation_time) % 2 ^ 32) in
        let full = cfg.item_num_based_new_checkpoint && leb cfg.checkpoint_max_items k.num_items in
        if force || full || (ltb 0 k.num_items && late)
        then (
          add_new_checkpoint cfg now ((through_int k.id + 1) % 2 ^ 64) m.last_by_seqno
              m.last_by_seqno m,
          through_int k.id,
        )
        else (m, 0))
]

pub data Reply : Type 0 where
  queued : Bool → Reply
  logic_error : Reply

unfoldable no_cursors : List Checkpoint → Bool
no_cursors [] = true
no_cursors (k ∷ ks) = length k.cursor_names == 0

-- The condition for creating a checkpoint in `queueDirty`.
unfoldable pub can_create : Config → List Checkpoint → Bool
unfolding no_cursors
can_create cfg ks =
    ltb (length ks) cfg.max_checkpoints || ((length ks == cfg.max_checkpoints) && no_cursors ks)

-- The first part of `queueDirty`, up to the tests of the state. The flag is false for the exception.
unfoldable pub make_room : Config → ℕ → Bool → Manager → Manager × Bool
unfolding can_create
make_room cfg now active m =
    let m1 =
      if active && can_create cfg m.checkpoints
      then (check_open_checkpoint cfg now false true m).0
      else m in
    elim (last_checkpoint m1.checkpoints) [
      | none ↦ (m1, false)
      | some k ↦
          if is_open k.state
          then (m1, true)
          else (if active
              then (
                add_new_checkpoint cfg now (k.id + 1) m1.last_by_seqno m1.last_by_seqno m1,
                true,
              )
              else (m1, false))
    ]

unfoldable pub is_existing : QueueDirty → Bool
is_existing existing_item = true
is_existing _ = false

unfoldable pub is_new : QueueDirty → Bool
is_new new_item = true
is_new _ = false

-- The last part of `queueDirty`, on the open checkpoint `k` with its snapshot end set.
unfoldable pub enqueue : Item → Checkpoint → Manager → Manager × Reply
unfolding queue_into is_existing is_new
enqueue qi k m =
    let (k', m', rv) = queue_into qi k m in
    let counted = record m' { num_items = if is_new rv then m'.num_items + 1 else m'.num_items } in
    if is_existing rv
    then (record counted { checkpoints = set_last k' m.checkpoints }, queued false)
    else (
      record counted {
        checkpoints =
            set_last (record k' { effective_mem_usage = k'.effective_mem_usage + qi.size })
              m.checkpoints;
        total_enqueued = m.total_enqueued + 1;
        disk_queue_size = m.disk_queue_size + 1;
      },
      queued true,
    )

-- `queueDirty` behind `make_room`: the sequence number, the snapshot range and the queueing.
unfoldable pub assign_and_enqueue : Item → Bool → Manager → Manager × Reply
assign_and_enqueue qi gen_seqno m = elim (last_checkpoint m.checkpoints) [
  | none ↦ (m, logic_error)
  | some k ↦
      (let seqno = if gen_seqno then m.last_by_seqno + 1 else qi.by_seqno in
        let qi' = record qi { by_seqno = seqno } in
        let k' = if gen_seqno then record k { snap_end = seqno } else k in
        let m' = record m { last_by_seqno = seqno; checkpoints = set_last k' m.checkpoints } in
        if leb k'.snap_start seqno && leb seqno k'.snap_end
        then enqueue qi' k' m'
        else (m', logic_error))
]

-- `CheckpointManager::queueDirty`; `active` says that the vbucket is active.
unfoldable pub queue_dirty : Config → ℕ → Bool → Item → Bool → Manager → Manager × Reply
queue_dirty cfg now active qi gen_seqno m =
    let (m', ready) = make_room cfg now active m in
    if ready then assign_and_enqueue qi gen_seqno m' else (m', logic_error)
