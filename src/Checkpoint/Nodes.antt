-- ===== src/Checkpoint/Nodes.antt =====
-- `CheckpointQueue` of src/checkpoint.h, a std::list of queued items: a node has an address, which is
-- what an iterator at it holds, and keeps it while other nodes come and go. src/item.h gives the
-- operations of an item.
use ep_engine.Base.{
  ℕ, Bool, true, false, Option, none, some, List, [], ◌∷◌, String, ◌==◌, if◌then◌else◌,
}

-- `queue_operation`
pub data Operation : Type 0 where
  set del flush empty checkpoint_start checkpoint_end : Operation

-- The fields of `Item` that the checkpoints read or write; `size` is `Item::size()`.
pub record Item : Type 0 where
  pub key : String
  pub operation : Operation
  pub rev_seqno : ℕ
  pub by_seqno : ℕ
  pub size : ℕ

-- `Item::isCheckPointMetaItem`
unfoldable pub is_meta_operation : Operation → Bool
is_meta_operation set = false
is_meta_operation del = false
is_meta_operation _ = true

abbrev pub is_meta : Item → Bool
is_meta i = is_meta_operation i.operation

unfoldable pub is_end : Operation → Bool
is_end checkpoint_end = true
is_end _ = false

unfoldable pub is_start : Operation → Bool
is_start checkpoint_start = true
is_start _ = false

pub record Node : Type 0 where
  pub addr : ℕ
  pub item : Item

-- `*it`
unfoldable pub node_at : ℕ → List Node → Option Node
node_at a [] = none
node_at a (n ∷ ns) = if n.addr == a then some n else node_at a ns

-- The nodes behind the one at the iterator.
unfoldable pub after : ℕ → List Node → List Node
after a [] = []
after a (n ∷ ns) = if n.addr == a then ns else after a ns

-- `begin()`, `none` for `end()`.
unfoldable pub first_addr : List Node → Option ℕ
first_addr [] = none
first_addr (n ∷ ns) = some n.addr

-- `++it`
unfoldable pub next_addr : ℕ → List Node → Option ℕ
unfolding after first_addr
next_addr a ns = first_addr (after a ns)

-- The walk from the front to the node before the one at `a`.
unfoldable pub previous_from : ℕ → ℕ → List Node → ℕ
previous_from p a [] = a
previous_from p a (n ∷ ns) = if n.addr == a then p else previous_from n.addr a ns

-- `--it`, and `it` where it is `begin()`.
unfoldable pub previous_addr : ℕ → List Node → ℕ
unfolding previous_from
previous_addr a [] = a
previous_addr a (n ∷ ns) = if n.addr == a then a else previous_from n.addr a ns

-- `erase(it)`
unfoldable pub erase_node : ℕ → List Node → List Node
erase_node a [] = []
erase_node a (n ∷ ns) = if n.addr == a then ns else n ∷ erase_node a ns

-- `back()`
unfoldable pub last_node : List Node → Option Node
last_node [] = none
last_node (n ∷ []) = some n
last_node (n ∷ m ∷ ns) = last_node (m ∷ ns)

-- The element behind `begin()`.
unfoldable pub second_node : List Node → Option Node
second_node (n ∷ m ∷ ns) = some m
second_node _ = none
