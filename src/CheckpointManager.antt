-- ===== src/CheckpointManager.antt =====
-- `CheckpointManager` of src/checkpoint.h and src/checkpoint.cc: its state, and the cursors' walk
-- through the checkpoints. The queue lock makes each public method one step.
pub mod Open
pub mod OpenLaws
pub mod QueueDirty
pub mod Walk
pub mod WalkLaws
pub mod Collect
pub mod Names
pub mod AllItems
pub mod Removal
pub mod Cursors
pub mod CursorLaws
pub mod RemovalLaws
mod Tests
mod CursorTests
use ep_engine.Base.{
  ℕ, zero, suc, ◌+◌, ◌-◌, Bool, true, false, Option, none, some, List, [], ◌∷◌, ◌++◌, map, String,
  str_eq, ◌==◌, if◌then◌else◌, length, drop,
}
use ep_engine.Checkpoint.Nodes.{
  Operation, Item, Node, is_end, node_at, after, next_addr, first_addr, last_node, second_node,
}
use ep_engine.Checkpoint.{Checkpoint, CheckpointState, opened, closed, is_open, Cursor}

-- The fields of the class. `next_address` is the address of the next object that is allocated,
-- `flusher_calls` counts the calls of the flusher's callback, and the last two are the counters of the
-- engine's statistics that `queueDirty` adds to.
pub record Manager : Type 0 where
  pub checkpoints : List Checkpoint
  pub conn_cursors : List Cursor
  pub num_items : ℕ
  pub last_by_seqno : ℕ
  pub last_closed_chk_by_seqno : ℕ
  pub is_collapsed : Bool
  pub last_closed_checkpoint_id : ℕ
  pub p_cursor_pre_checkpoint_id : ℕ
  pub next_address : ℕ
  pub flusher_calls : ℕ
  pub total_enqueued : ℕ
  pub disk_queue_size : ℕ

-- What a walking cursor reads of a checkpoint.
pub record Frame : Type 0 where
  pub self : ℕ
  pub state : CheckpointState
  pub queue : List Node
  pub snap_start : ℕ
  pub snap_end : ℕ

abbrev pub frame : Checkpoint → Frame
frame k = record {
  self = k.self;
  state = k.state;
  queue = k.to_write;
  snap_start = k.snap_start;
  snap_end = k.snap_end;
}

unfoldable pub frames : List Checkpoint → List Frame
frames [] = []
frames (k ∷ ks) = frame k ∷ frames ks

-- The checkpoint that an iterator points at, and those behind it.
unfoldable pub from_frame : ℕ → List Frame → List Frame
from_frame a [] = []
from_frame a (f ∷ fs) = if f.self == a then f ∷ fs else from_frame a fs

unfoldable pub queue_at : ℕ → List Frame → List Node
unfolding from_frame
queue_at a fs = elim (from_frame a fs) [ [] ↦ [] | f ∷ r ↦ f.queue ]

unfoldable pub begin_addr : List Node → ℕ
begin_addr [] = 0
begin_addr (n ∷ ns) = n.addr

unfoldable pub has_name : String → List String → Bool
has_name s [] = false
has_name s (x ∷ xs) = let r = has_name s xs in if str_eq x s then true else r

-- `registerCursorName` and `removeCursorName`, on a std::set.
unfoldable pub register_name : String → Checkpoint → Checkpoint
unfolding has_name
register_name s k = record k {
  cursor_names = if has_name s k.cursor_names then k.cursor_names else s ∷ k.cursor_names;
}

unfoldable erase_name : String → List String → List String
erase_name s [] = []
erase_name s (x ∷ xs) = let r = erase_name s xs in if str_eq x s then r else x ∷ r

unfoldable pub remove_name : String → Checkpoint → Checkpoint
unfolding erase_name
remove_name s k = record k { cursor_names = erase_name s k.cursor_names }

-- Runs a method on the checkpoint at an address.
unfoldable pub at_checkpoint : ℕ → (Checkpoint → Checkpoint) → List Checkpoint → List Checkpoint
at_checkpoint a f [] = []
at_checkpoint a f (k ∷ ks) = if k.self == a then f k ∷ ks else k ∷ at_checkpoint a f ks

-- The part of `moveCursorToNextCheckpoint` that decides: where the cursor goes, if it may.
unfoldable pub next_place : Cursor → List Frame → Option Cursor
next_place c [] = none
next_place c (f ∷ []) = none
next_place c (f ∷ g ∷ fs) =
    if is_open f.state
    then none
    else some (record c { checkpoint = g.self; pos = begin_addr g.queue })

-- `moveCursorToNextCheckpoint`: `none` is the result false.
unfoldable pub move_to_next : Cursor → List Checkpoint → Option (Cursor × List Checkpoint)
move_to_next c ks = elim (next_place c (from_frame c.checkpoint (frames ks))) [
  | none ↦ none
  | some c' ↦ some (
    c',
    at_checkpoint c'.checkpoint (register_name c.name)
        (at_checkpoint c.checkpoint (remove_name c.name) ks),
  )
]

-- `incrCursor`, with fuel for the checkpoints that it may skip; `Walk` shows that one for each is
-- enough.
unfoldable pub incr_cursor : ℕ → Cursor → List Checkpoint → Cursor × List Checkpoint × Bool
incr_cursor zero c ks = (c, ks, false)
incr_cursor (suc fuel) c ks = elim (next_addr c.pos (queue_at c.checkpoint (frames ks))) [
  | some a ↦ (record c { pos = a; offset = c.offset + 1 }, ks, true)
  | none ↦ elim (move_to_next c ks) [
    | none ↦ (c, ks, false)
    | some (c', ks') ↦ incr_cursor fuel c' ks'
  ]
]

unfoldable pub snap_end_at : ℕ → List Frame → ℕ
unfolding from_frame
snap_end_at a fs = elim (from_frame a fs) [ [] ↦ 0 | f ∷ r ↦ f.snap_end ]

unfoldable pub snap_start_at : ℕ → List Frame → ℕ
unfolding from_frame
snap_start_at a fs = elim (from_frame a fs) [ [] ↦ 0 | f ∷ r ↦ f.snap_start ]

-- What follows a pushed item in the loop of `getAllItemsForCursor`: behind a checkpoint_end the cursor
-- moves on, if it can.
unfoldable pub after_item : Item → Cursor → List Checkpoint → Cursor × List Checkpoint
after_item qi c ks =
    if is_end qi.operation
    then (elim (move_to_next c ks) [ none ↦ (c, ks) | some (c', ks') ↦ (c', ks') ])
    else (c, ks)

-- The loop of `getAllItemsForCursor`; `none` means that the fuel ran out. The result has the items
-- and the end of the range.
unfoldable pub collect :
    ℕ → Cursor → List Checkpoint → Option (Cursor × List Checkpoint × List Item × ℕ)
collect zero c ks = none
collect (suc fuel) c ks =
    let (c', ks', more) = incr_cursor (suc (length ks)) c ks in
    elim more [
      | false ↦ some (c', ks', [], snap_end_at c'.checkpoint (frames ks'))
      | true ↦ elim (node_at c'.pos (queue_at c'.checkpoint (frames ks'))) [
        | none ↦ none
        | some n ↦
            (let (c'', ks'') = after_item n.item c' ks' in
              elim (collect fuel c'' ks'') [
                | none ↦ none
                | some (d, ls, items, last) ↦ some (d, ls, n.item ∷ items, last)
              ])
      ]
    ]

unfoldable pub find_cursor : String → List Cursor → Option Cursor
find_cursor s [] = none
find_cursor s (c ∷ cs) = if str_eq c.name s then some c else find_cursor s cs

unfoldable pub put_cursor : Cursor → List Cursor → List Cursor
put_cursor c [] = c ∷ []
put_cursor c (d ∷ ds) = if str_eq d.name c.name then c ∷ ds else d ∷ put_cursor c ds

unfoldable pub total_nodes : List Checkpoint → ℕ
total_nodes [] = 0
total_nodes (k ∷ ks) = length k.to_write + total_nodes ks

-- `getAllItemsForCursor`: the manager afterwards, the items, and the range as (start, end).
unfoldable pub get_all_items_for_cursor : String → Manager → Option (Manager × List Item × ℕ × ℕ)
get_all_items_for_cursor name m = elim (find_cursor name m.conn_cursors) [
  | none ↦ some (m, [], 0, 0)
  | some c ↦ elim (collect (suc (total_nodes m.checkpoints)) c m.checkpoints) [
    | none ↦ none
    | some (c', ks, items, last) ↦ some (
      record m { checkpoints = ks; conn_cursors = put_cursor c' m.conn_cursors },
      items,
      snap_start_at c.checkpoint (frames m.checkpoints),
      last,
    )
  ]
]
