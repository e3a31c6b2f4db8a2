-- ===== src/CheckpointManager/WalkLaws.antt =====
-- One step of a cursor of src/checkpoint.cc: along a queue, and from a checkpoint to the next.
use mathlib.Core.Path.{subst}
use native.Mathlib.Decide.{ℕ_discrete}
use ep_engine.Base.{
  ℕ, ◌≡◌, refl, sym, ◌∙◌, ap, ◌≢◌, inl, inr, true, false, none, some, List, [], ◌∷◌, String, arith,
}
use ep_engine.Checkpoint.Nodes.{Node, is_end, node_at, after}
use ep_engine.Checkpoint.NodeLaws.{HasAddr, IsFresh, Distinct, absurd_addr}
use ep_engine.Checkpoint.{Checkpoint, closed, Cursor}
use ep_engine.CheckpointManager.{
  Frame, frames, from_frame, register_name, remove_name, at_checkpoint, next_place, move_to_next,
}

-- A checkpoint_end is the last item of its queue.
abbrev pub EndIsLast : List Node → Type 0
EndIsLast [] = Unit {0}
EndIsLast (n ∷ []) = Unit {0}
EndIsLast (n ∷ m ∷ ns) = (is_end n.item.operation ≡ false) × EndIsLast (m ∷ ns)

abbrev pub NonEmpty : List Node → Type 0
NonEmpty [] = ⊥
NonEmpty (n ∷ ns) = Unit {0}

-- The checkpoints from the cursor's on: all but the last are closed.
abbrev pub Chain : Frame → List Frame → Type 0
Chain f [] = Distinct f.queue × EndIsLast f.queue
Chain f (g ∷ gs) =
    Distinct f.queue × EndIsLast f.queue × (f.state ≡ closed) × NonEmpty g.queue × Chain g gs

abbrev pub Unused : ℕ → List Frame → Type 0
Unused a [] = Unit {0}
Unused a (f ∷ fs) = (f.self ≢ a) × Unused a fs

abbrev pub OwnAddresses : List Frame → Type 0
OwnAddresses [] = Unit {0}
OwnAddresses (f ∷ fs) = Unused f.self fs × OwnAddresses fs

-- What every checkpoint list shows of itself stays the same while names are registered.
pub frames-at_checkpoint :
    (a : ℕ) (s : String) (ks : List Checkpoint)
    → (frames (at_checkpoint a (register_name s) ks) ≡ frames ks)
      × (frames (at_checkpoint a (remove_name s) ks) ≡ frames ks)
unfolding frames at_checkpoint register_name remove_name
frames-at_checkpoint a s [] = (refl, refl)
frames-at_checkpoint a s (k ∷ ks) = (
  ground (arith, (frames-at_checkpoint a s ks).0),
  ground (arith, (frames-at_checkpoint a s ks).1),
)

pub move_to_next-some :
    (c c' : Cursor) (ks : List Checkpoint)
    → next_place c (from_frame c.checkpoint (frames ks)) ≡ some c'
    → (ks' : List Checkpoint) × (move_to_next c ks ≡ some (c', ks')) × (frames ks' ≡ frames ks)
unfolding move_to_next
move_to_next-some c c' ks h = (
  at_checkpoint c'.checkpoint (register_name c.name)
      (at_checkpoint c.checkpoint (remove_name c.name) ks),
  ground arith,
  (frames-at_checkpoint c'.checkpoint c.name _).0 ∙ (frames-at_checkpoint c.checkpoint c.name ks).1,
)

pub move_to_next-none :
    (c : Cursor) (ks : List Checkpoint)
    → next_place c (from_frame c.checkpoint (frames ks)) ≡ none
    → move_to_next c ks ≡ none
unfolding move_to_next
move_to_next-none c ks h = ground arith

-- Going on from a checkpoint's successor.
self-from_frame :
    (a : ℕ) (fs : List Frame) (f : Frame) (r : List Frame) → from_frame a fs ≡ f ∷ r → f.self ≡ a
unfolding from_frame
self-from_frame a [] f r h = absurd (cc)
self-from_frame a (x ∷ fs) f r h = ground (arith, self-from_frame a fs f r)

Unused-head :
    (l : List Frame) (g : Frame) (r : List Frame) (b : ℕ) → l ≡ g ∷ r → Unused b l → g.self ≢ b
Unused-head [] g r b e v = absurd (cc)
Unused-head (y ∷ l) g r b e v = λ w. v.0 (ap (λ z. z.self) first ∙ w)
  where
    first : y ≡ g
    first = cc

used :
    (a : ℕ) (fs : List Frame) (f g : Frame) (r : List Frame) (b : ℕ)
    → from_frame a fs ≡ f ∷ g ∷ r
    → Unused b fs
    → g.self ≢ b
unfolding from_frame
used a [] f g r b h u = absurd (cc)
used a (x ∷ fs) f g r b h u = elim (ℕ_discrete x.self a) [
  | yes e ↦ Unused-head fs g r b (ground arith) u.1
  | no e ↦ used a fs f g r b (ground arith) u.1
]

from_frame-head :
    (l : List Frame) (g : Frame) (r : List Frame) → l ≡ g ∷ r → from_frame g.self l ≡ g ∷ r
unfolding from_frame
from_frame-head [] g r e = absurd (cc)
from_frame-head (y ∷ l) g r e = ground arith

-- Checkpoints with addresses of their own: the iterator to a checkpoint's successor leads on from
-- there.
pub from_frame-next :
    (a : ℕ) (fs : List Frame) (f g : Frame) (r : List Frame)
    → OwnAddresses fs
    → from_frame a fs ≡ f ∷ g ∷ r
    → from_frame g.self fs ≡ g ∷ r
unfolding from_frame
from_frame-next a [] f g r o h = absurd (cc)
from_frame-next a (x ∷ fs) f g r o h = elim (ℕ_discrete x.self a) [
  | yes e ↦
      let e' : fs ≡ g ∷ r = ground arith in
      ground (arith, Unused-head fs g r x.self e' o.0, from_frame-head fs g r e')
  | no e ↦
      let e' : from_frame a fs ≡ f ∷ g ∷ r = ground arith in
      ground (arith, used a fs f g r x.self e' o.0, from_frame-next a fs f g r o.1 e')
]

-- The iterator at `n` is in the queue, and `r` lies behind it.
abbrev pub StandsAt : Node → List Node → List Node → Type 0
StandsAt n r ns = (after n.addr ns ≡ r) × HasAddr n.addr ns × (node_at n.addr ns ≡ some n)

StandsAt-head : (ns : List Node) (n : Node) (r : List Node) → ns ≡ n ∷ r → StandsAt n r ns
unfolding after node_at
StandsAt-head [] n r e = absurd (cc)
StandsAt-head (m ∷ ns) n r e = (ground arith, inl (ground arith), ground arith)

StandsAt-cons :
    (m n : Node) (r ns : List Node) → IsFresh m.addr ns → StandsAt n r ns → StandsAt n r (m ∷ ns)
unfolding after node_at
StandsAt-cons m n r ns f (a, i, e) =
    let ne : (m.addr ≢ n.addr) =
      λ w. absurd_addr m.addr ns f (subst (λ z. HasAddr z ns) (sym w) i) in
    (ground arith, inr i, ground arith)

pub after-StandsAt :
    (a : ℕ) (ns : List Node) (n : Node) (r : List Node)
    → Distinct ns
    → after a ns ≡ n ∷ r
    → StandsAt n r ns
unfolding after
after-StandsAt a [] n r d h = absurd (cc)
after-StandsAt a (m ∷ ns) n r d h = elim (ℕ_discrete m.addr a) [
  | yes e ↦ StandsAt-cons m n r ns d.0 (StandsAt-head ns n r (ground arith))
  | no e ↦ StandsAt-cons m n r ns d.0 (after-StandsAt a ns n r d.1 (ground arith))
]

-- Nothing lies behind a checkpoint_end.
pub after-end :
    (a : ℕ) (ns : List Node) (n : Node) (r : List Node)
    → EndIsLast ns
    → after a ns ≡ n ∷ r
    → is_end n.item.operation ≡ true
    → r ≡ []
unfolding after
after-end a [] n r l h e = absurd (cc)
after-end a (m ∷ []) n r l h e = absurd (ground arith)
after-end a (m ∷ m' ∷ ns) n r l h e = elim (ℕ_discrete m.addr a) [
  | yes w ↦ tail_end ns n r l.1 (ground arith) e
  | no w ↦ after-end a (m' ∷ ns) n r l.1 (ground arith) e
]
  where
    tail_end :
        (ns : List Node) (n : Node) (r : List Node)
        → EndIsLast (m' ∷ ns)
        → (m' ∷ ns) ≡ n ∷ r
        → is_end n.item.operation ≡ true
        → r ≡ []
    tail_end [] n r l h e = cc
    tail_end (x ∷ ns) n r l h e = absurd (ground arith)
