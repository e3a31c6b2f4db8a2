-- ===== src/CheckpointManager/AllItems.antt =====
-- `getAllItemsForCursor` of src/checkpoint.cc, as a caller sees it.

use native.Mathlib.Decide.{ℕ_discrete}
use ep_engine.Base.{
  ℕ, suc, ◌+◌, ◌≤◌, ◌<◌, ◌≡◌, refl, ◌∙◌, ap, some, List, [], ◌∷◌, String, eq_iff, arith, length,
  length-append, drop,
}
use ep_engine.Checkpoint.Nodes.{Item, Node, after}
use ep_engine.Checkpoint.{Checkpoint, Cursor}
use ep_engine.CheckpointManager.{
  Manager, Frame, frames, from_frame, snap_start_at, snap_end_at, collect, find_cursor, put_cursor,
  total_nodes, get_all_items_for_cursor,
}
use ep_engine.CheckpointManager.Walk.{Stands, ahead, later_nodes}
use ep_engine.CheckpointManager.Collect.{items_of, collect-Collected}
use ep_engine.CheckpointManager.Names.{name-collect, find_cursor-name, find_cursor-put_cursor}

-- The nodes of all the checkpoints.
abbrev frame_nodes : List Frame → ℕ
frame_nodes [] = 0
frame_nodes (f ∷ fs) = length f.queue + frame_nodes fs

frame_nodes-frames : (ks : List Checkpoint) → frame_nodes (frames ks) ≡ total_nodes ks
unfolding frames total_nodes
frame_nodes-frames [] = refl
frame_nodes-frames (k ∷ ks) = omega (arith, frame_nodes-frames ks)

length-after : (a : ℕ) (ns : List Node) → length (after a ns) ≤ length ns
unfolding after
length-after a [] = omega arith
length-after a (n ∷ ns) = ground (arith, length-after a ns)

length-drop_one : (ns : List Node) → length (drop 1 ns) ≤ length ns
length-drop_one [] = omega arith
length-drop_one (n ∷ ns) = omega arith

length-later_nodes : (fs : List Frame) → length (later_nodes fs) ≤ frame_nodes fs
length-later_nodes [] = omega arith
length-later_nodes (f ∷ fs) = omega (
  arith,
  length-append (drop 1 f.queue) (later_nodes fs),
  length-drop_one f.queue,
  length-later_nodes fs,
)

from_frame-nodes :
    (a : ℕ) (fs : List Frame) (f : Frame) (r : List Frame)
    → from_frame a fs ≡ f ∷ r
    → frame_nodes (f ∷ r) ≤ frame_nodes fs
unfolding from_frame
from_frame-nodes a [] f r h = absurd (cc)
from_frame-nodes a (x ∷ fs) f r h = elim (ℕ_discrete x.self a) [
  | yes e ↦ omega (arith, ap frame_nodes (same e))
  | no e ↦ omega (arith, from_frame-nodes a fs f r (ground arith))
]
  where
    same : x.self ≡ a → x ∷ fs ≡ f ∷ r
    same e = ground arith

-- The loop has fuel for every item.
enough :
    (c : Cursor) (ks : List Checkpoint) (f : Frame) (later : List Frame)
    → Stands c (frames ks) f later
    → length (ahead c f later) < suc (total_nodes ks)
enough c ks f later s = omega (
  arith,
  length-append (after c.pos f.queue) (later_nodes later),
  length-after c.pos f.queue,
  length-later_nodes later,
  from_frame-nodes c.checkpoint (frames ks) f later s.position,
  frame_nodes-frames ks,
)

-- What `getAllItemsForCursor` gives for a cursor `name` with `here` and `later` in front of it.
abbrev pub Delivers : String → Manager → Cursor → Frame → List Frame → Type 0
Delivers name m c here later =
    (m' : Manager) × (c' : Cursor) × (here' : Frame) × (later' : List Frame)
    × (get_all_items_for_cursor name m
        ≡ some (
          m',
          items_of (ahead c here later),
          here.snap_start,
          snap_end_at c'.checkpoint (frames m.checkpoints),
        ))
    × (frames m'.checkpoints ≡ frames m.checkpoints)
    × (find_cursor name m'.conn_cursors ≡ some c')
    × Stands c' (frames m.checkpoints) here' later'
    × (ahead c' here' later' ≡ [])

get_all_items-eq :
    (name : String) (m : Manager) (c c' : Cursor) (ks : List Checkpoint) (items : List Item)
    (last : ℕ)
    → find_cursor name m.conn_cursors ≡ some c
    → collect (suc (total_nodes m.checkpoints)) c m.checkpoints ≡ some (c', ks, items, last)
    → get_all_items_for_cursor name m
      ≡ some (
        record m { checkpoints = ks; conn_cursors = put_cursor c' m.conn_cursors },
        items,
        snap_start_at c.checkpoint (frames m.checkpoints),
        last,
      )
unfolding get_all_items_for_cursor
get_all_items-eq name m c c' ks items last h e = ground arith

snap_start-Stands :
    (c : Cursor) (fs : List Frame) (f : Frame) (later : List Frame)
    → Stands c fs f later
    → snap_start_at c.checkpoint fs ≡ f.snap_start
unfolding snap_start_at
snap_start-Stands c fs f later s = ground (arith, s.position)

-- For a registered cursor that stands on an item, `getAllItemsForCursor` ends, and returns exactly
-- the items ahead of the cursor, in order: the rest of its checkpoint and then every later checkpoint
-- without its dummy item. The range begins at the snapshot start of the checkpoint that the cursor
-- was in, and ends at the snapshot end of the one that it is in afterwards. The cursor keeps its name
-- and has nothing ahead of it afterwards, and no queue, state or snapshot of a checkpoint changes.
pub get_all_items-Delivers :
    (name : String) (m : Manager) (c : Cursor) (here : Frame) (later : List Frame)
    → find_cursor name m.conn_cursors ≡ some c
    → Stands c (frames m.checkpoints) here later
    → Delivers name m c here later
get_all_items-Delivers name m c here later h s =
    let (c', ks, here', later', eq, same, s', nil) =
      collect-Collected (ahead c here later) (suc (total_nodes m.checkpoints)) c m.checkpoints
        (frames m.checkpoints) here later s refl refl (enough c m.checkpoints here later s) in
    (
      record m { checkpoints = ks; conn_cursors = put_cursor c' m.conn_cursors },
      c',
      here',
      later',
      get_all_items-eq name m c c' ks (items_of (ahead c here later)) _ h eq
          ∙ ap
              (λ z. some (
                record m { checkpoints = ks; conn_cursors = put_cursor c' m.conn_cursors },
                items_of (ahead c here later),
                z,
                snap_end_at c'.checkpoint (frames m.checkpoints),
              ))
              (snap_start-Stands c (frames m.checkpoints) here later s),
      same,
      find_cursor-put_cursor name m.conn_cursors c'
          ∙ ground (
            arith,
            eq_iff c'.name name,
            find_cursor-name name m.conn_cursors c h,
            name-collect (suc (total_nodes m.checkpoints)) c m.checkpoints c' ks
                (items_of (ahead c here later)) (snap_end_at c'.checkpoint (frames m.checkpoints))
                eq,
          ),
      s',
      nil,
    )
