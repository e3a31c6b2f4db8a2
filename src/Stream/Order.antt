-- ===== src/Stream/Order.antt =====
-- The order of the sequence numbers of the messages that a stream holds and of the documents that have
-- left it (src/dcp/stream.cc).
use mathlib.Core.Path.{subst}
use ep_engine.Base.{
  ℕ, ◌+◌, ◌<◌, ◌≤◌, ◌≡◌, ◌⊎◌, inl, inr, Bool, true, false, List, [], ◌∷◌, ◌++◌, arith, ltb, refl,
  sym,
}

-- What the order of the messages depends on: a document's sequence number, a message without one, and
-- one that the stream does not take.
pub data Mark : Type 0 where
  document : ℕ → Mark
  control foreign : Mark

-- The last sequence number seen once a message that has `s` follows.
unfoldable pub floor : ℕ → Mark → ℕ
floor lo control = lo
floor lo foreign = lo
floor lo (document n) = n

unfoldable pub rises : ℕ → Mark → Bool
rises lo control = true
rises lo foreign = false
rises lo (document n) = ltb lo n

-- From `lo` on, each document of the messages has a greater sequence number than what comes before it, none is foreign,
-- and `hi` is no less than the last one.
unfoldable pub Between : {A : Type 0} → (A → Mark) → ℕ → List A → ℕ → Type 0
Between mark lo [] hi = lo ≤ hi
Between mark lo (m ∷ ms) hi = (rises lo (mark m) ≡ true) × Between mark (floor lo (mark m)) ms hi

-- The numbers are below `bound` and each one is below the one before it.
unfoldable pub Descends : ℕ → List ℕ → Type 0
Descends bound [] = 0 ≤ bound
Descends bound (n ∷ ns) = (n < bound) × Descends n ns

pub Descends-le : {a b : ℕ} (ns : List ℕ) → a ≤ b → Descends a ns → Descends b ns
unfolding Descends
Descends-le [] h d = omega arith
Descends-le (n ∷ ns) h d = let first = d.0 in (omega arith, d.1)

floor-le : (lo : ℕ) (s : Mark) → rises lo s ≡ true → lo ≤ floor lo s
unfolding floor rises
floor-le lo control h = omega arith
floor-le lo foreign h = absurd (ground arith)
floor-le lo (document n) h = ground arith

Between-append_empty :
    (lo hi : ℕ) (s : Mark)
    → lo ≤ hi
    → rises hi s ≡ true
    → (rises lo s ≡ true) × (floor lo s ≤ floor hi s)
unfolding rises floor
Between-append_empty lo hi control b h = (refl, b)
Between-append_empty lo hi foreign b h = absurd (ground arith)
Between-append_empty lo hi (document n) b h = (ground arith, omega arith)

module _ {A : Type 0} (mark : A → Mark) where
  pub Between-le : (lo hi : ℕ) (ms : List A) → Between mark lo ms hi → lo ≤ hi
  unfolding Between
  Between-le lo hi [] b = b
  Between-le lo hi (m ∷ ms) b =
      omega (arith, floor-le lo (mark m) b.0, Between-le (floor lo (mark m)) hi ms b.1)

  pub Between-append :
      (lo hi : ℕ) (ms : List A) (m : A)
      → Between mark lo ms hi
      → rises hi (mark m) ≡ true
      → Between mark lo (ms ++ m ∷ []) (floor hi (mark m))
  unfolding Between
  Between-append lo hi [] m b h = Between-append_empty lo hi (mark m) b h
  Between-append lo hi (x ∷ ms) m b h = (b.0, Between-append (floor lo (mark x)) hi ms m b.1 h)

Descends-took_some :
    (lo n : ℕ) (before : List ℕ)
    → Descends (lo + 1) before
    → rises lo (document n) ≡ true
    → Descends (floor lo (document n) + 1) (n ∷ before)
unfolding rises floor Descends
Descends-took_some lo n before d h =
    let rise : lo < n = ground arith in (omega arith, Descends-le before (omega arith) d)

-- Once a message is processed, what the store has taken is not above it.
pub Descends-took :
    (lo : ℕ) (s : Mark) (before after : List ℕ)
    → Descends (lo + 1) before
    → rises lo s ≡ true
    → (after ≡ before) ⊎ ((n : ℕ) × (s ≡ document n) × (after ≡ n ∷ before))
    → Descends (floor lo s + 1) after
Descends-took lo s before after d h (inl e) =
    subst (Descends (floor lo s + 1)) (sym e)
      (Descends-le before (omega (arith, floor-le lo s h)) d)
Descends-took lo s before after d h (inr (n, e, w)) =
    subst (λ z. Descends (floor lo z + 1) after) (sym e)
      (subst (Descends (floor lo (document n) + 1)) (sym w)
        (Descends-took_some lo n before d (subst (λ z. rises lo z ≡ true) e h)))
