-- ===== src/Checkpoint/NodeLaws.antt =====
-- Laws of the queue operations of `Checkpoint.Nodes`: addresses, and the mutations of one key.
use ep_engine.Base.{ℕ, ◌≡◌, sym, ◌∙◌, ◌≢◌, ◌⊎◌, inl, inr, List, [], ◌∷◌, ◌++◌, arith}
use native.Mathlib.Decide.{ℕ_discrete}
use mathlib.Core.Path.{subst}
use ep_engine.Checkpoint.Nodes.{Node, after, previous_from, previous_addr, erase_node}

abbrev pub HasAddr : ℕ → List Node → Type 0
HasAddr a [] = ⊥
HasAddr a (n ∷ ns) = (n.addr ≡ a) ⊎ HasAddr a ns

abbrev pub IsFresh : ℕ → List Node → Type 0
IsFresh a [] = Unit {0}
IsFresh a (n ∷ ns) = (n.addr ≢ a) × IsFresh a ns

abbrev pub Distinct : List Node → Type 0
Distinct [] = Unit {0}
Distinct (n ∷ ns) = IsFresh n.addr ns × Distinct ns

pub absurd_addr {ℓ} : {A : Type ℓ} (a : ℕ) (ns : List Node) → IsFresh a ns → HasAddr a ns → A
absurd_addr a [] f h = absurd h
absurd_addr a (n ∷ ns) f (inl e) = absurd (f.0 e)
absurd_addr a (n ∷ ns) f (inr h) = absurd_addr a ns f.1 h

pub after-append :
    (a : ℕ) (ns ms : List Node) → HasAddr a ns → after a (ns ++ ms) ≡ after a ns ++ ms
unfolding after
after-append a [] ms h = absurd h
after-append a (n ∷ ns) ms (inl e) = ground arith
after-append a (n ∷ ns) ms (inr h) = ground (arith, after-append a ns ms h)

pub erase_node-append :
    (a : ℕ) (ns ms : List Node) → HasAddr a ns → erase_node a (ns ++ ms) ≡ erase_node a ns ++ ms
unfolding erase_node
erase_node-append a [] ms h = absurd h
erase_node-append a (n ∷ ns) ms (inl e) = ground arith
erase_node-append a (n ∷ ns) ms (inr h) = ground (arith, erase_node-append a ns ms h)

pub HasAddr-append : (a : ℕ) (ns ms : List Node) → HasAddr a ns → HasAddr a (ns ++ ms)
HasAddr-append a [] ms h = absurd h
HasAddr-append a (n ∷ ns) ms (inl e) = inl e
HasAddr-append a (n ∷ ns) ms (inr h) = inr (HasAddr-append a ns ms h)

pub HasAddr-last : (a : ℕ) (ns : List Node) (n : Node) → n.addr ≡ a → HasAddr a (ns ++ n ∷ [])
HasAddr-last a [] n e = inl e
HasAddr-last a (m ∷ ns) n e = inr (HasAddr-last a ns n e)

IsFresh-append :
    (a : ℕ) (ns : List Node) (n : Node) → IsFresh a ns → n.addr ≢ a → IsFresh a (ns ++ n ∷ [])
IsFresh-append a [] n f h = (h, tt)
IsFresh-append a (m ∷ ns) n f h = (f.0, IsFresh-append a ns n f.1 h)

pub Distinct-append :
    (ns : List Node) (n : Node) → Distinct ns → IsFresh n.addr ns → Distinct (ns ++ n ∷ [])
Distinct-append [] n d f = (tt, tt)
Distinct-append (m ∷ ns) n d f =
    (IsFresh-append m.addr ns n d.0 (λ e. f.0 (sym e)), Distinct-append ns n d.1 f.1)

previous_from_hit :
    (p a : ℕ) (m : Node) (ns : List Node) → m.addr ≡ a → previous_from p a (m ∷ ns) ≡ p
unfolding previous_from
previous_from_hit p a m ns e = ground arith

previous_from_skip :
    (p a : ℕ) (m : Node) (ns : List Node)
    → m.addr ≢ a
    → previous_from p a (m ∷ ns) ≡ previous_from m.addr a ns
unfolding previous_from
previous_from_skip p a m ns e = ground arith

pub HasAddr-skip :
    (a : ℕ) (m : Node) (ns : List Node) → HasAddr a (m ∷ ns) → m.addr ≢ a → HasAddr a ns
HasAddr-skip a m ns (inl e) ne = absurd (ne e)
HasAddr-skip a m ns (inr i) ne = i

HasAddr-previous_from :
    (a : ℕ) (n : Node) (ns : List Node)
    → HasAddr a ns
    → HasAddr (previous_from n.addr a ns) (n ∷ ns)
HasAddr-previous_from a n [] h = absurd h
HasAddr-previous_from a n (m ∷ ns) h = elim (ℕ_discrete m.addr a) [
  | yes e ↦ inl (sym (previous_from_hit n.addr a m ns e))
  | no e ↦
      subst (λ q. HasAddr q (n ∷ m ∷ ns)) (sym (previous_from_skip n.addr a m ns e))
        (inr (HasAddr-previous_from a m ns (HasAddr-skip a m ns h e)))
]

pub after-skip : (q : ℕ) (h : Node) (ns : List Node) → h.addr ≢ q → after q (h ∷ ns) ≡ after q ns
unfolding after
after-skip q h ns e = ground arith

after-previous_from :
    (a : ℕ) (h : Node) (ns : List Node)
    → Distinct (h ∷ ns)
    → HasAddr a ns
    → after (previous_from h.addr a ns) (h ∷ erase_node a ns) ≡ after a ns
unfolding after erase_node
after-previous_from a h [] d i = absurd i
after-previous_from a h (m ∷ ns) d i = elim (ℕ_discrete m.addr a) [
  | yes e ↦ ground (arith, previous_from_hit h.addr a m ns e)
  | no e ↦
      let i' = HasAddr-skip a m ns i e in
      let q = previous_from m.addr a ns in
      ground (
        arith,
        previous_from_skip h.addr a m ns e,
        after-skip q h (m ∷ erase_node a ns) (λ (w : h.addr ≡ q).
            absurd_addr h.addr (m ∷ ns) d.0
              (subst (λ z. HasAddr z (m ∷ ns)) (sym w) (HasAddr-previous_from a m ns i'))),
        after-previous_from a m ns d.1 i',
      )
]

-- Stepping back from a node and erasing it leaves the iterator in front of the same nodes.
pub after-previous_addr :
    (a : ℕ) (h : Node) (ns : List Node)
    → Distinct (h ∷ ns)
    → h.addr ≢ a
    → HasAddr a ns
    → after (previous_addr a (h ∷ ns)) (erase_node a (h ∷ ns)) ≡ after a ns
unfolding previous_addr erase_node
after-previous_addr a h ns d e i = ground (arith, after-previous_from a h ns d i)

previous_from_ne :
    (a : ℕ) (h : Node) (ns : List Node) → h.addr ≢ a → HasAddr a ns → previous_from h.addr a ns ≢ a
previous_from_ne a h [] e i = absurd i
previous_from_ne a h (m ∷ ns) e i = elim (ℕ_discrete m.addr a) [
  | yes w ↦ λ q. e (sym (previous_from_hit h.addr a m ns w) ∙ q)
  | no w ↦ λ q.
      previous_from_ne a m ns w (HasAddr-skip a m ns i w)
        (sym (previous_from_skip h.addr a m ns w) ∙ q)
]

erase_node_hit : (p : ℕ) (n : Node) (ns : List Node) → n.addr ≡ p → erase_node p (n ∷ ns) ≡ ns
unfolding erase_node
erase_node_hit p n ns e = ground arith

erase_node_skip :
    (p : ℕ) (n : Node) (ns : List Node) → n.addr ≢ p → erase_node p (n ∷ ns) ≡ n ∷ erase_node p ns
unfolding erase_node
erase_node_skip p n ns e = ground arith

previous_addr_from :
    (a : ℕ) (h : Node) (ns : List Node)
    → h.addr ≢ a
    → previous_addr a (h ∷ ns) ≡ previous_from h.addr a ns
unfolding previous_addr
previous_addr_from a h ns e = ground arith

pub HasAddr-erase_node :
    (a p : ℕ) (ns : List Node) → a ≢ p → HasAddr a ns → HasAddr a (erase_node p ns)
unfolding erase_node
HasAddr-erase_node a p [] e h = absurd h
HasAddr-erase_node a p (n ∷ ns) e (inl w) =
    subst (HasAddr a) (sym (erase_node_skip p n ns (λ q. e (sym w ∙ q)))) (inl w)
HasAddr-erase_node a p (n ∷ ns) e (inr i) = elim (ℕ_discrete n.addr p) [
  | yes w ↦ subst (HasAddr a) (sym (erase_node_hit p n ns w)) i
  | no w ↦ subst (HasAddr a) (sym (erase_node_skip p n ns w)) (inr (HasAddr-erase_node a p ns e i))
]

-- Stepping back from a node lands on another node that stays when the first is erased.
pub HasAddr-previous_addr :
    (a : ℕ) (h : Node) (ns : List Node)
    → h.addr ≢ a
    → HasAddr a ns
    → HasAddr (previous_addr a (h ∷ ns)) (erase_node a (h ∷ ns))
HasAddr-previous_addr a h ns e i =
    subst (λ q. HasAddr q (erase_node a (h ∷ ns))) (sym (previous_addr_from a h ns e))
      (HasAddr-erase_node (previous_from h.addr a ns) a (h ∷ ns) (previous_from_ne a h ns e i)
        (HasAddr-previous_from a h ns i))
