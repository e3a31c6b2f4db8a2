-- ===== src/Consumer/Streams.antt =====
-- The map of a consumer's streams (src/dcp/consumer.cc): the bytes that they hold.
use mathlib.Core.Path.{subst}
use ep_engine.Base.{
  ℕ, ◌+◌, ◌≡◌, sym, inl, inr, List, [], ◌∷◌, some, arith, ◌==◌, if◌then◌else◌, Bool-cases,
}
use ep_engine.Stream.Passive.{Passive}
use ep_engine.Stream.Passive.Invariant.{total, Sound}
use ep_engine.Consumer.{find_stream, put_stream, erase_stream}

module _ {S : Type 0} where
  -- The bytes of the buffers.
  unfoldable pub held : List (ℕ × Passive S) → ℕ
  unfolding total
  held [] = 0
  held ((v, p) ∷ rest) = total p.messages + held rest

  unfoldable pub AllSound : List (ℕ × Passive S) → Type 0
  AllSound [] = Unit {0}
  AllSound ((v, p) ∷ rest) = Sound p × AllSound rest

  pub Sound-find :
      (vb : ℕ) (l : List (ℕ × Passive S)) (p : Passive S)
      → AllSound l
      → find_stream vb l ≡ some p
      → Sound p
  unfolding find_stream AllSound
  Sound-find vb [] p s e = absurd (ground (arith, e))
  Sound-find vb ((v, q) ∷ rest) p s e = elim (Bool-cases (v == vb)) [
    | inl b ↦ (let same : q ≡ p = ground (arith, e, b) in subst Sound same s.0)
    | inr b ↦ Sound-find vb rest p s.1 (ground (arith, e, b))
  ]

  pub AllSound-put :
      (vb : ℕ) (q : Passive S) (l : List (ℕ × Passive S))
      → AllSound l
      → Sound q
      → AllSound (put_stream vb q l)
  unfolding put_stream AllSound
  AllSound-put vb q [] s h = (h, tt)
  AllSound-put vb q ((v, p) ∷ rest) s h = elim (Bool-cases (v == vb)) [
    | inl b ↦
        subst (λ x. AllSound (if x then (v, q) ∷ rest else (v, p) ∷ put_stream vb q rest)) (sym b)
          (h, s.1)
    | inr b ↦
        subst (λ x. AllSound (if x then (v, q) ∷ rest else (v, p) ∷ put_stream vb q rest)) (sym b)
          (s.0, AllSound-put vb q rest s.1 h)
  ]

  pub AllSound-erase :
      (vb : ℕ) (l : List (ℕ × Passive S)) → AllSound l → AllSound (erase_stream vb l)
  unfolding erase_stream AllSound
  AllSound-erase vb [] s = tt
  AllSound-erase vb ((v, p) ∷ rest) s = elim (Bool-cases (v == vb)) [
    | inl b ↦ subst (λ x. AllSound (if x then rest else (v, p) ∷ erase_stream vb rest)) (sym b) s.1
    | inr b ↦
        subst (λ x. AllSound (if x then rest else (v, p) ∷ erase_stream vb rest)) (sym b)
          (s.0, AllSound-erase vb rest s.1)
  ]

  pub held-put :
      (vb : ℕ) (p q : Passive S) (l : List (ℕ × Passive S))
      → find_stream vb l ≡ some p
      → held (put_stream vb q l) + total p.messages ≡ held l + total q.messages
  unfolding find_stream put_stream held
  held-put vb p q [] e = absurd (ground (arith, e))
  held-put vb p q ((v, r) ∷ rest) e = elim (Bool-cases (v == vb)) [
    | inl b ↦
        let same : r ≡ p = ground (arith, e, b) in
        subst
          (λ z.
            held (if v == vb then (v, q) ∷ rest else (v, r) ∷ put_stream vb q rest)
              + total z.messages
            ≡ total r.messages + held rest + total q.messages)
          same
          (subst
            (λ x.
              held (if x then (v, q) ∷ rest else (v, r) ∷ put_stream vb q rest) + total r.messages
              ≡ total r.messages + held rest + total q.messages)
            (sym b) (omega arith))
    | inr b ↦
        let later = held-put vb p q rest (ground (arith, e, b)) in
        subst
          (λ x.
            held (if x then (v, q) ∷ rest else (v, r) ∷ put_stream vb q rest) + total p.messages
            ≡ total r.messages + held rest + total q.messages)
          (sym b) (omega (arith, later))
  ]

  pub held-erase :
      (vb : ℕ) (p : Passive S) (l : List (ℕ × Passive S))
      → find_stream vb l ≡ some p
      → held (erase_stream vb l) + total p.messages ≡ held l
  unfolding find_stream erase_stream held
  held-erase vb p [] e = absurd (ground (arith, e))
  held-erase vb p ((v, r) ∷ rest) e = elim (Bool-cases (v == vb)) [
    | inl b ↦
        let same : r ≡ p = ground (arith, e, b) in
        subst
          (λ z.
            held (if v == vb then rest else (v, r) ∷ erase_stream vb rest) + total z.messages
            ≡ total r.messages + held rest)
          same
          (subst
            (λ x.
              held (if x then rest else (v, r) ∷ erase_stream vb rest) + total r.messages
              ≡ total r.messages + held rest)
            (sym b) (omega arith))
    | inr b ↦
        let later = held-erase vb p rest (ground (arith, e, b)) in
        subst
          (λ x.
            held (if x then rest else (v, r) ∷ erase_stream vb rest) + total p.messages
            ≡ total r.messages + held rest)
          (sym b) (omega (arith, later))
  ]
