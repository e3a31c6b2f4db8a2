-- ===== src/CheckpointManager/Cursors.antt =====
-- The registration and removal of cursors, and `nextItem`, of `CheckpointManager` of src/checkpoint.cc.
use ep_engine.Base.{
  ℕ, suc, ◌+◌, Bool, true, false, not, ◌||◌, Option, none, some, List, [], ◌∷◌, String, str_eq, ltb,
  ◌==◌, if◌then◌else◌, length,
}
use ep_engine.Checkpoint.Nodes.{empty, Item, Node, is_end, node_at, next_addr}
use ep_engine.Checkpoint.{Checkpoint, Cursor, persistence_name}
use ep_engine.CheckpointManager.{
  Manager, frames, queue_at, begin_addr, register_name, remove_name, at_checkpoint, incr_cursor,
  find_cursor, put_cursor,
}
use ep_engine.CheckpointManager.Open.{Config, last_checkpoint}

-- The first checkpoint with the id.
unfoldable pub find_id : ℕ → List Checkpoint → Option Checkpoint
find_id id [] = none
find_id id (k ∷ ks) = let r = find_id id ks in if id == k.id then some k else r

-- The first checkpoint that the persistence cursor has not left.
unfoldable pub find_later : ℕ → List Checkpoint → Option Checkpoint
find_later pre [] = none
find_later pre (k ∷ ks) =
    let r = find_later pre ks in if ltb pre k.id || (pre == 0) then some k else r

-- The items of the checkpoints before the one at the address, and two for each.
unfoldable pub items_before : ℕ → List Checkpoint → ℕ
items_before a [] = 0
items_before a (k ∷ ks) =
    let r = items_before a ks in if k.self == a then 0 else k.num_items + 2 + r

unfoldable id_at : ℕ → List Checkpoint → ℕ
id_at a [] = 0
id_at a (k ∷ ks) = let r = id_at a ks in if k.self == a then k.id else r

-- Removes the name from the checkpoint that the cursor of that name is in, if there is one.
unfoldable pub unregister : String → List Cursor → List Checkpoint → List Checkpoint
unregister name cs ks = elim (find_cursor name cs) [
  | none ↦ ks
  | some c ↦ at_checkpoint c.checkpoint (remove_name name) ks
]

-- `registered` has the result of the function; the other is the exception.
pub data Registration : Type 0 where
  registered : Bool → Registration
  no_checkpoint : Registration

-- Puts a cursor at the given position of a checkpoint and registers its name there.
unfoldable pub place_cursor :
    String → Bool → Checkpoint → ℕ → ℕ → List Checkpoint → Manager → Manager
place_cursor name send_end k pos offset ks m = record m {
  checkpoints = at_checkpoint k.self (register_name name) ks;
  conn_cursors =
      put_cursor
        (record {
          name = name;
          checkpoint = k.self;
          pos = pos;
          offset = offset;
          from_beginning_on_collapse = not (str_eq name persistence_name);
          send_checkpoint_end = send_end;
        })
        m.conn_cursors;
}

-- Where a cursor that exists may stay: its position and offset.
unfoldable pub kept_place : String → Checkpoint → List Cursor → List Checkpoint → Option (ℕ × ℕ)
unfolding id_at
kept_place name k cs ks = elim (find_cursor name cs) [
  | none ↦ none
  | some c ↦ if id_at c.checkpoint ks == k.id then some (c.pos, c.offset) else none
]

-- `registerCursor_UNLOCKED`
unfoldable pub register_cursor : String → ℕ → Bool → Bool → Manager → Manager × Registration
unfolding unregister place_cursor kept_place find_id find_later items_before begin_addr
register_cursor name id always_from_beginning send_end m =
    let ks = unregister name m.conn_cursors m.checkpoints in
    if length m.checkpoints == 0 then (m, no_checkpoint) else elim (find_id id ks) [
      | none ↦ elim (find_later m.p_cursor_pre_checkpoint_id ks) [
        | none ↦ (record m { checkpoints = ks }, no_checkpoint)
        | some k ↦ (
          place_cursor name send_end k (begin_addr k.to_write) (items_before k.self ks) ks m,
          registered false,
        )
      ]
      | some k ↦
          elim (if always_from_beginning then none else kept_place name k m.conn_cursors ks) [
            | none ↦ (
              place_cursor name send_end k (begin_addr k.to_write) (items_before k.self ks) ks m,
              registered true,
            )
            | some (pos, offset) ↦ (place_cursor name send_end k pos offset ks m, registered true)
          ]
    ]

unfoldable remove_names : String → List Checkpoint → List Checkpoint
unfolding remove_name
remove_names name [] = []
remove_names name (k ∷ ks) = remove_name name k ∷ remove_names name ks

unfoldable erase_cursor : String → List Cursor → List Cursor
erase_cursor name [] = []
erase_cursor name (c ∷ cs) =
    let r = erase_cursor name cs in if str_eq c.name name then cs else c ∷ r

-- `removeCursor_UNLOCKED`
unfoldable pub remove_cursor : String → Manager → Manager × Bool
unfolding remove_names erase_cursor
remove_cursor name m = elim (find_cursor name m.conn_cursors) [
  | none ↦ (m, false)
  | some c ↦ (
    record m {
      checkpoints = remove_names name m.checkpoints;
      conn_cursors = erase_cursor name m.conn_cursors;
    },
    true,
  )
]

-- The item that stands for none.
unfoldable no_item : Config → Item
no_item cfg = record {
  key = "";
  operation = empty;
  rev_seqno = 0;
  by_seqno = 0;
  size = cfg.sizeof_item;
}

-- `isLastMutationItemInCheckpoint`, in the queue of the cursor's checkpoint.
unfoldable pub is_last_mutation : ℕ → List Node → Bool
is_last_mutation a ns = elim (next_addr a ns) [
  | none ↦ true
  | some b ↦ elim (node_at b ns) [ none ↦ true | some n ↦ is_end n.item.operation ]
]

-- `nextItem`; `last` is what the caller's flag was before. The result has the item and the flag.
unfoldable pub next_item : Config → String → Bool → Manager → Manager × Item × Bool
unfolding no_item is_last_mutation
next_item cfg name last m = elim (find_cursor name m.conn_cursors) [
  | none ↦ (m, no_item cfg, last)
  | some c ↦ elim (last_checkpoint m.checkpoints) [
    | none ↦ (m, no_item cfg, last)
    | some k ↦
        (let (c', ks, more) = incr_cursor (suc (length m.checkpoints)) c m.checkpoints in
          let m' = record m { checkpoints = ks; conn_cursors = put_cursor c' m.conn_cursors } in
          let queue = queue_at c'.checkpoint (frames ks) in
          if k.id == 0
          then (m, no_item cfg, last)
          else (if more
              then elim (node_at c'.pos queue) [
                | none ↦ (m', no_item cfg, true)
                | some n ↦ (m', n.item, is_last_mutation c'.pos queue)
              ]
              else (m', no_item cfg, false)))
  ]
]
