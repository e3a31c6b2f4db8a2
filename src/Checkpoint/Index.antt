-- ===== src/Checkpoint/Index.antt =====
-- The mutations of one key in a checkpoint's queue, and `keyIndex` of src/checkpoint.h, which is to
-- point at the only one.
use mathlib.Core.Path.{subst}
use native.Mathlib.Decide.{ℕ_discrete}
use ep_engine.Base.{
  ℕ, ◌≡◌, refl, sym, ◌∙◌, ap, ◌≢◌, inl, inr, Bool, not, ◌&&◌, Option, none, some, List, [], ◌∷◌,
  ◌++◌, String, str_eq, eq_iff, arith, if◌then◌else◌, Bool-cases,
}
use ep_engine.Checkpoint.Nodes.{is_meta, Node, after, erase_node}
use ep_engine.Checkpoint.NodeLaws.{HasAddr, Distinct, absurd_addr, HasAddr-skip}
use ep_engine.Checkpoint.{IndexEntry, CheckpointIndex, find_entry, put_entry}

-- The node queues a mutation of the key.
abbrev pub mutates : String → Node → Bool
mutates k n = not (is_meta n.item) && str_eq n.item.key k

unfoldable pub with_key : String → List Node → List Node
with_key k [] = []
with_key k (n ∷ ns) = if mutates k n then n ∷ with_key k ns else with_key k ns

unfoldable pub drop_key : String → List Node → List Node
drop_key k [] = []
drop_key k (n ∷ ns) = if mutates k n then drop_key k ns else n ∷ drop_key k ns

pub with_key-append :
    (k : String) (ns ms : List Node) → with_key k (ns ++ ms) ≡ with_key k ns ++ with_key k ms
unfolding with_key
with_key-append k [] ms = refl
with_key-append k (n ∷ ns) ms = ground (arith, with_key-append k ns ms)

pub with_key-drop_key : (k : String) (ns : List Node) → with_key k (drop_key k ns) ≡ []
unfolding with_key drop_key
with_key-drop_key k [] = refl
with_key-drop_key k (n ∷ ns) = ground (arith, with_key-drop_key k ns)

pub with_key-drop_key_ne :
    (j k : String) (ns : List Node) → k ≢ j → with_key j (drop_key k ns) ≡ with_key j ns
unfolding with_key drop_key
with_key-drop_key_ne j k [] h = refl
with_key-drop_key_ne j k (n ∷ ns) h =
    ground (arith, with_key-drop_key_ne j k ns h, eq_iff n.item.key k, eq_iff n.item.key j)

pub drop_key_none : (k : String) (ns : List Node) → with_key k ns ≡ [] → drop_key k ns ≡ ns
unfolding with_key drop_key
drop_key_none k [] h = refl
drop_key_none k (n ∷ ns) h = ground (arith, drop_key_none k ns)

pub with_key-after :
    (k : String) (a : ℕ) (ns : List Node) → with_key k ns ≡ [] → with_key k (after a ns) ≡ []
unfolding with_key after
with_key-after k a [] h = refl
with_key-after k a (n ∷ ns) h = ground (arith, with_key-after k a ns)

-- The one node of a key stands in the queue.
pub HasAddr-with_key :
    (k : String) (ns : List Node) (x : Node) (r : List Node)
    → with_key k ns ≡ x ∷ r
    → HasAddr x.addr ns
unfolding with_key
HasAddr-with_key k [] x r h = absurd (cc)
HasAddr-with_key k (n ∷ ns) x r h = elim (Bool-cases (mutates k n)) [
  | inl e ↦ inl (ground arith)
  | inr e ↦ inr (HasAddr-with_key k ns x r (ground arith))
]

-- Erasing the node that the index points at drops the key.
pub erase_node-drop_key :
    (k : String) (ns : List Node) (x : Node)
    → Distinct ns
    → with_key k ns ≡ x ∷ []
    → erase_node x.addr ns ≡ drop_key k ns
unfolding with_key drop_key erase_node
erase_node-drop_key k [] x d h = absurd (cc)
erase_node-drop_key k (n ∷ ns) x d h = elim (Bool-cases (mutates k n)) [
  | inl e ↦ ground (arith, drop_key_none k ns)
  | inr e ↦
      let h' : with_key k ns ≡ x ∷ [] = ground arith in
      ground (
        arith,
        erase_node-drop_key k ns x d.1 h',
        λ (w : n.addr ≡ x.addr).
            absurd_addr {A = ⊥} n.addr ns d.0
              (subst (λ z. HasAddr z ns) (sym w) (HasAddr-with_key k ns x [] h')),
      )
]

after-drop_key_none :
    (k : String) (a : ℕ) (ns : List Node)
    → with_key k ns ≡ []
    → after a (drop_key k ns) ≡ drop_key k (after a ns)
after-drop_key_none k a ns h =
    ap (after a) (drop_key_none k ns h)
    ∙ sym (drop_key_none k (after a ns) (with_key-after k a ns h))

-- Seen from any other node, dropping the key drops it from what lies ahead.
pub after-drop_key :
    (k : String) (a : ℕ) (ns : List Node) (x : Node)
    → with_key k ns ≡ x ∷ []
    → HasAddr a ns
    → a ≢ x.addr
    → after a (drop_key k ns) ≡ drop_key k (after a ns)
unfolding with_key drop_key after
after-drop_key k a [] x h i e = absurd i
after-drop_key k a (n ∷ ns) x h i e = elim (Bool-cases (mutates k n)) [
  | inl m ↦ ground (arith, after-drop_key_none k a ns)
  | inr m ↦ elim (ℕ_discrete n.addr a) [
    | yes w ↦ ground arith
    | no w ↦ ground (arith, after-drop_key k a ns x (ground arith) (HasAddr-skip a n ns i w) e)
  ]
]

-- Behind the only node of a key there is none of that key.
pub with_key-after_self :
    (k : String) (ns : List Node) (x : Node)
    → Distinct ns
    → with_key k ns ≡ x ∷ []
    → with_key k (after x.addr ns) ≡ []
unfolding with_key after
with_key-after_self k [] x d h = absurd (cc)
with_key-after_self k (n ∷ ns) x d h = elim (Bool-cases (mutates k n)) [
  | inl e ↦ ground arith
  | inr e ↦
      let h' : with_key k ns ≡ x ∷ [] = ground arith in
      ground (
        arith,
        with_key-after_self k ns x d.1 h',
        λ (w : n.addr ≡ x.addr).
            absurd_addr {A = ⊥} n.addr ns d.0
              (subst (λ z. HasAddr z ns) (sym w) (HasAddr-with_key k ns x [] h')),
      )
]

-- The index agrees with the queue on one key: it points at the only node that mutates the key, and
-- has no entry where there is none.
abbrev pub Agrees : Option IndexEntry → List Node → Type 0
Agrees none [] = Unit {0}
Agrees (some e) (n ∷ []) = (n.addr ≡ e.position) × (n.item.by_seqno ≡ e.mutation_id)
Agrees _ _ = ⊥

pub find_entry-put_entry :
    (j k : String) (e : IndexEntry) (r : CheckpointIndex)
    → find_entry j (put_entry k e r) ≡ (if str_eq k j then some e else find_entry j r)
unfolding find_entry put_entry
find_entry-put_entry j k e [] = refl
find_entry-put_entry j k e ((i, d) ∷ r) =
    ground (arith, find_entry-put_entry j k e r, eq_iff k j, eq_iff i k, eq_iff i j)
