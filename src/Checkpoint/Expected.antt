-- ===== src/Checkpoint/Expected.antt =====
-- The queue after `Checkpoint::queueDirty` of src/checkpoint.cc: it holds one mutation of a key, the
-- newest.

use Prim.Native.String.{len}
use ep_engine.Base.{
  ℕ, ◌+◌, ◌≡◌, refl, ◌≢◌, inl, inr, true, Option, none, some, List, [], ◌∷◌, ◌++◌, String, arith,
  if◌then◌else◌, Option-cases,
}
use ep_engine.Checkpoint.Nodes.{Item, is_meta, Node, erase_node}
use ep_engine.Checkpoint.NodeLaws.{erase_node-append, Distinct}
use ep_engine.Checkpoint.Index.{
  with_key, drop_key, HasAddr-with_key, drop_key_none, erase_node-drop_key, Agrees,
}
use ep_engine.Checkpoint.{
  IndexEntry, find_entry, put_entry, Checkpoint, Cursor, QueueDirty, existing_item, persist_again,
  new_item, adjust_cursors, queue_open, push_back, index_item,
}

-- The queue begins with a node that is no mutation (the dummy), its nodes have their own addresses,
-- and for every key the index points at the only mutation of that key.
pub record IsSound (chk : Checkpoint) : Type 0 where
  pub head : Node
  pub rest : List Node
  pub shape : chk.to_write ≡ head ∷ rest
  pub dummy : is_meta head.item ≡ true
  pub distinct : Distinct chk.to_write
  pub indexed : (k : String) → Agrees (find_entry k chk.key_index) (with_key k chk.to_write)

-- What an operation leaves ahead of a cursor.
abbrev pub expected : Item → ℕ → List Node → List Node
expected qi addr ns =
    (if is_meta qi then ns else drop_key qi.key ns) ++ record { addr = addr; item = qi } ∷ []

entry_node :
    (o : Option IndexEntry) (ns : List Node) (e : IndexEntry)
    → Agrees o ns
    → o ≡ some e
    → (x : Node) × (ns ≡ x ∷ []) × (x.addr ≡ e.position)
entry_node none [] e a h = absurd (cc)
entry_node none (n ∷ ns) e a h = absurd a
entry_node (some d) [] e a h = absurd a
entry_node (some d) (n ∷ []) e a h = (n, refl, ground arith)
entry_node (some d) (n ∷ m ∷ ns) e a h = absurd a

pub no_node : (o : Option IndexEntry) (ns : List Node) → Agrees o ns → o ≡ none → ns ≡ []
no_node none [] a h = refl
no_node none (n ∷ ns) a h = absurd a
no_node (some d) [] a h = absurd a
no_node (some d) (n ∷ []) a h = absurd (cc)
no_node (some d) (n ∷ m ∷ ns) a h = absurd a

to_write-index_item :
    (addr : ℕ) (qi : Item) (rv : QueueDirty) (chk : Checkpoint)
    → (index_item addr qi rv chk).to_write ≡ chk.to_write
unfolding index_item
to_write-index_item addr qi rv chk = ground arith

pub key_index-index_item :
    (addr : ℕ) (qi : Item) (rv : QueueDirty) (chk : Checkpoint)
    → len qi.key ≢ 0
    → (index_item addr qi rv chk).key_index ≡ (
        if is_meta qi
        then chk.key_index
        else put_entry qi.key (record { position = addr; mutation_id = qi.by_seqno }) chk.key_index)
unfolding index_item
key_index-index_item addr qi rv chk h = ground arith

module _ (addr : ℕ) (qi : Item) (chk : Checkpoint) (sound : IsSound chk) where
  -- The node that the index holds for the key of the item.
  pub found :
      (e : IndexEntry)
      → find_entry qi.key chk.key_index ≡ some e
      → (x : Node) × (with_key qi.key chk.to_write ≡ x ∷ []) × (x.addr ≡ e.position)
  found e h = entry_node (find_entry qi.key chk.key_index) _ e (sound.indexed qi.key) h

  -- The queue afterwards, on every branch: the older mutation of the key is gone, and the new item is
  -- the last.
  pub queue_open-expected :
      (cs : List Cursor) → (queue_open addr qi chk cs).0.to_write ≡ expected qi addr chk.to_write
  unfolding queue_open
  queue_open-expected cs = elim (Option-cases (find_entry qi.key chk.key_index)) [
    | inl miss ↦ ground (
      arith,
      to_write-index_item addr qi new_item (push_back addr qi chk),
      to_write-index_item addr qi new_item
          (record (push_back addr qi chk) { num_items = chk.num_items + 1 }),
      drop_key_none qi.key chk.to_write
          (no_node (find_entry qi.key chk.key_index) _ (sound.indexed qi.key) miss),
    )
    | inr (e, hit) ↦
        let (x, only, at) = found e hit in
        let i = HasAddr-with_key qi.key chk.to_write x [] only in
        ground (
          arith,
          to_write-index_item addr qi new_item (push_back addr qi chk),
          to_write-index_item addr qi
              (if (adjust_cursors chk e cs).1 then persist_again else existing_item)
              (record (push_back addr qi chk) {
                to_write = erase_node e.position (push_back addr qi chk).to_write;
              }),
          erase_node-append x.addr chk.to_write (record { addr = addr; item = qi } ∷ []) i,
          erase_node-drop_key qi.key chk.to_write x sound.distinct only,
        )
  ]
