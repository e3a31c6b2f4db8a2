-- ===== src/Checkpoint.antt =====
-- src/checkpoint.h and src/checkpoint.cc: the checkpoints of a vbucket, which queue its mutations for
-- the flusher and for replication, and the cursors that walk through them. This file holds the data
-- and `Checkpoint::queueDirty`; the manager's operations are in the children.
pub mod Nodes
pub mod NodeLaws
pub mod Index
pub mod Expected
pub mod Delivery
pub mod Sound
use Prim.Native.String.{len}
use ep_engine.Base.{
  ℕ, zero, suc, ◌+◌, ◌-◌, Bool, true, false, not, ◌&&◌, ◌||◌, Option, none, some, List, [], ◌∷◌,
  ◌++◌, String, str_eq, leb, ◌==◌, if◌then◌else◌,
}
use Nodes.{
  Operation, Item, is_meta, Node, node_at, after, first_addr, next_addr, previous_addr, erase_node,
}

-- `index_entry`: the position is the address of the node.
pub record IndexEntry : Type 0 where
  pub position : ℕ
  pub mutation_id : ℕ

-- `checkpoint_index`
abbrev pub CheckpointIndex : Type 0
CheckpointIndex = List (String × IndexEntry)

unfoldable pub find_entry : String → CheckpointIndex → Option IndexEntry
find_entry k [] = none
find_entry k ((j, e) ∷ r) = if str_eq j k then some e else find_entry k r

-- `index[key] = entry`
unfoldable pub put_entry : String → IndexEntry → CheckpointIndex → CheckpointIndex
put_entry k e [] = (k, e) ∷ []
put_entry k e ((j, d) ∷ r) = if str_eq j k then (k, e) ∷ r else (j, d) ∷ put_entry k e r

unfoldable erase_entry : String → CheckpointIndex → CheckpointIndex
erase_entry k [] = []
erase_entry k ((j, d) ∷ r) = if str_eq j k then r else (j, d) ∷ erase_entry k r

-- `checkpoint_state`
pub data CheckpointState : Type 0 where
  opened closed : CheckpointState

unfoldable pub is_open : CheckpointState → Bool
is_open opened = true
is_open closed = false

-- `Checkpoint`; `self` is its address.
pub record Checkpoint : Type 0 where
  pub self : ℕ
  pub id : ℕ
  pub snap_start : ℕ
  pub snap_end : ℕ
  pub creation_time : ℕ
  pub state : CheckpointState
  pub num_items : ℕ
  pub cursor_names : List String
  pub to_write : List Node
  pub key_index : CheckpointIndex
  pub meta_key_index : CheckpointIndex
  pub mem_overhead : ℕ
  pub effective_mem_usage : ℕ

-- `CheckpointCursor`: the checkpoint and the position are addresses.
pub record Cursor : Type 0 where
  pub name : String
  pub checkpoint : ℕ
  pub pos : ℕ
  pub offset : ℕ
  pub from_beginning_on_collapse : Bool
  pub send_checkpoint_end : Bool

-- `queue_dirty_t`
pub data QueueDirty : Type 0 where
  existing_item persist_again new_item : QueueDirty

-- `sizeof(index_entry)` and `sizeof(queued_item)` on a 64-bit target.
abbrev sizeof_index_entry : ℕ
sizeof_index_entry = 16

abbrev sizeof_queued_item : ℕ
sizeof_queued_item = 8

-- `CheckpointManager::pCursorName`
abbrev pub persistence_name : String
persistence_name = "persistence"

-- `CheckpointCursor::decrOffset`
unfoldable pub decr_offset : ℕ → Cursor → Cursor
decr_offset d c = record c { offset = if leb d c.offset then c.offset - d else 0 }

-- `CheckpointCursor::decrPos`, in the queue of the cursor's checkpoint.
unfoldable decr_pos : List Node → Cursor → Cursor
unfolding previous_addr
decr_pos ns c = record c { pos = previous_addr c.pos ns }

-- Whether a cursor has passed the item that is about to be replaced.
unfoldable has_passed : CheckpointIndex → ℕ → Option Node → Bool
unfolding find_entry
has_passed index current none = false
has_passed index current (some n) = elim (find_entry n.item.key index) [
  | none ↦ false
  | some e ↦ not (is_meta n.item) && leb current e.mutation_id
]

-- One round of the loop over the cursors, for the entry that is about to be replaced: the cursor as
-- it is left, and whether it had passed the item.
unfoldable pub adjust_cursor : Checkpoint → IndexEntry → Cursor → Cursor × Bool
unfolding decr_offset decr_pos has_passed node_at
adjust_cursor chk entry c =
    let passed = has_passed chk.key_index entry.mutation_id (node_at c.pos chk.to_write) in
    let c' = if passed then decr_offset 1 c else c in
    if c.checkpoint == chk.self
    then ((if c.pos == entry.position then decr_pos chk.to_write c' else c'), passed)
    else (c, false)

-- The loop; the flag is whether the persistence cursor had passed the item.
unfoldable pub adjust_cursors : Checkpoint → IndexEntry → List Cursor → List Cursor × Bool
unfolding adjust_cursor
adjust_cursors chk entry [] = ([], false)
adjust_cursors chk entry (c ∷ cs) =
    let (c', passed) = adjust_cursor chk entry c in
    let (cs', again) = adjust_cursors chk entry cs in
    (c' ∷ cs', (passed && str_eq c.name persistence_name) || again)

-- The last part of `queueDirty`: the index of the new node, at `addr`, and the memory overhead.
unfoldable pub index_item : ℕ → Item → QueueDirty → Checkpoint → Checkpoint
unfolding put_entry
index_item addr qi rv chk = if len qi.key == 0 then chk else record chk {
  key_index = if is_meta qi then chk.key_index else put_entry qi.key entry chk.key_index;
  meta_key_index =
      if is_meta qi then put_entry qi.key entry chk.meta_key_index else chk.meta_key_index;
  mem_overhead = elim rv [
    | new_item ↦ chk.mem_overhead + (len qi.key + sizeof_index_entry + sizeof_queued_item)
    | _ ↦ chk.mem_overhead
  ];
}
  where
    entry : IndexEntry
    entry = record { position = addr; mutation_id = qi.by_seqno }

unfoldable pub push_back : ℕ → Item → Checkpoint → Checkpoint
push_back addr qi chk = record chk {
  to_write = chk.to_write ++ record { addr = addr; item = qi } ∷ [];
}

-- `Checkpoint::queueDirty` on an open checkpoint; `addr` is the address of the new node.
unfoldable pub queue_open :
    ℕ → Item → Checkpoint → List Cursor → Checkpoint × List Cursor × QueueDirty
unfolding push_back
queue_open addr qi chk cs =
    if is_meta qi
    then (index_item addr qi new_item (push_back addr qi chk), cs, new_item)
    else (elim (find_entry qi.key chk.key_index) [
      | some entry ↦
          (let (cs', again) = adjust_cursors chk entry cs in
            let rv = if again then persist_again else existing_item in
            let pushed = push_back addr qi chk in
            (
              index_item addr qi rv
                  (record pushed { to_write = erase_node entry.position pushed.to_write }),
              cs',
              rv,
            ))
      | none ↦ (
        index_item addr qi new_item
            (record (push_back addr qi chk) { num_items = chk.num_items + 1 }),
        cs,
        new_item,
      )
    ])

-- `Checkpoint::queueDirty`: `none` is the `logic_error` for a checkpoint that is not open.
unfoldable pub queue_dirty :
    ℕ → Item → Checkpoint → List Cursor → Option (Checkpoint × List Cursor × QueueDirty)
unfolding queue_open is_open
queue_dirty addr qi chk cs = if is_open chk.state then some (queue_open addr qi chk cs) else none
