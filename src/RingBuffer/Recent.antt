-- ===== src/RingBuffer/Recent.antt =====
-- `RingBuffer` of src/ringbuffer.h holds the newest elements, oldest first.
use mathlib.Core.List.{append_assoc, append-nil}
use native.Mathlib.Decide.{ℕ_discrete}
use ep_engine.Base.{
  ℕ, zero, suc, ◌-◌, ◌≤◌, ◌<◌, min, ◌≡◌, refl, sym, ◌∙◌, ap, ◌≢◌, inl, inr, true, false, List, [],
  ◌∷◌, ◌++◌, arith, ◌==◌, if◌then◌else◌, length, length-append, length-set, length-take,
  length-drop, set, take, drop, Bool-cases, leb,
}
use ep_engine.RingBuffer.{RingBuffer, new_buffer, size, add, reset, contents, add_all}

module _ {ℓ} {A : Type ℓ} where
  take-set :
      (xs : List A) (i : ℕ) (v : A)
      → i < length xs
      → take (suc i) (set xs i v) ≡ take i xs ++ v ∷ []
  take-set [] i v h = elim h [ ]
  take-set (x ∷ xs) zero v h = refl
  take-set (x ∷ xs) (suc i) v h = ap (λ l. x ∷ l) (take-set xs i v (omega arith))

  drop-set : (xs : List A) (i : ℕ) (v : A) → drop (suc i) (set xs i v) ≡ drop 1 (drop i xs)
  drop-set [] zero v = refl
  drop-set [] (suc i) v = refl
  drop-set (x ∷ xs) zero v = refl
  drop-set (x ∷ xs) (suc i) v = drop-set xs i v

  take-all : (n : ℕ) (xs : List A) → length xs ≤ n → take n xs ≡ xs
  take-all zero [] h = refl
  take-all zero (x ∷ xs) h = elim h [ ]
  take-all (suc n) [] h = refl
  take-all (suc n) (x ∷ xs) h = ap (λ l. x ∷ l) (take-all n xs (omega arith))

  drop-all : (n : ℕ) (xs : List A) → length xs ≤ n → drop n xs ≡ []
  drop-all zero [] h = refl
  drop-all zero (x ∷ xs) h = elim h [ ]
  drop-all (suc n) [] h = refl
  drop-all (suc n) (x ∷ xs) h = drop-all n xs (omega arith)

  drop-append : (n : ℕ) (xs ys : List A) → n ≤ length xs → drop n (xs ++ ys) ≡ drop n xs ++ ys
  drop-append zero xs ys h = refl
  drop-append (suc n) [] ys h = elim h [ ]
  drop-append (suc n) (x ∷ xs) ys h = drop-append n xs ys (omega arith)

  drop-drop : (n : ℕ) (xs : List A) → drop 1 (drop n xs) ≡ drop (suc n) xs
  drop-drop zero xs = refl
  drop-drop (suc n) [] = refl
  drop-drop (suc n) (x ∷ xs) = drop-drop n xs

  -- The newest `n` elements.
  abbrev pub newest : ℕ → List A → List A
  newest n xs = drop (length xs - n) xs

  newest-append :
      (n : ℕ) (xs : List A) (x : A)
      → 0 < n
      → newest n (xs ++ x ∷ [])
        ≡ (if length (newest n xs) == n then drop 1 (newest n xs) else newest n xs) ++ x ∷ []
  newest-append n xs x h = elim (Bool-cases (leb n (length xs))) [
    | inl e ↦
        let full : (length (newest n xs) == n) ≡ true =
          ground (arith, length-drop (length xs - n) xs) in
        rw full (
          ap (λ z. drop z (xs ++ x ∷ [])) {y = suc (length xs - n)}
            (ground (arith, length-append xs (x ∷ [])))
          ∙ drop-append (suc (length xs - n)) xs (x ∷ []) (ground arith)
          ∙ ap (λ l. l ++ x ∷ []) (sym (drop-drop (length xs - n) xs)))
    | inr e ↦
        let room : (length (newest n xs) == n) ≡ false =
          ground (arith, length-drop (length xs - n) xs) in
        rw room (
          ap (λ z. drop z (xs ++ x ∷ [])) {y = 0} (ground (arith, length-append xs (x ∷ [])))
          ∙ ap (λ z. drop z xs ++ x ∷ []) {x = 0} (ground arith))
  ]

  -- The array has the size that the constructor was given, and the position is in it.
  pub record IsBuffer (r : RingBuffer A) : Type 0 where
    pub allocated : length r.storage ≡ r.max
    pub positive : 0 < r.max
    pub bounded : r.pos ≤ r.max

  add-IsBuffer : (x : A) (r : RingBuffer A) → IsBuffer r → IsBuffer (add x r)
  unfolding add
  add-IsBuffer x r b = record {
    allocated = length-set r.storage (if r.pos == r.max then 0 else r.pos) x ∙ b.allocated;
    positive = b.positive;
    bounded = ground (arith, b.bounded, b.positive);
  }

  contents-eq :
      (r : RingBuffer A)
      → IsBuffer r
      → contents r ≡ (if r.wrapped then drop r.pos r.storage else []) ++ take r.pos r.storage
  unfolding contents
  contents-eq r b = ground (arith, last)
    where
      last : r.pos ≡ r.max → drop r.pos r.storage ≡ []
      last e = drop-all r.pos r.storage (omega (arith, b.allocated))

  -- The length of the contents.
  length-contents : (r : RingBuffer A) → IsBuffer r → length (contents r) ≡ size r
  unfolding size
  length-contents r b = ground (
    arith,
    contents-eq r b,
    length-append (drop r.pos r.storage) (take r.pos r.storage),
    length-drop r.pos r.storage,
    length-take r.pos r.storage,
    b.allocated,
    b.bounded,
  )

  contents_full :
      (x : A) (r : RingBuffer A)
      → IsBuffer r
      → r.pos ≡ r.max
      → (contents r ≡ r.storage) × (contents (add x r) ≡ drop 1 r.storage ++ x ∷ [])
  unfolding add
  contents_full x r b e = (
    ground (
      arith,
      contents-eq r b,
      drop-all r.pos r.storage (omega (arith, b.allocated)),
      take-all r.pos r.storage (omega (arith, b.allocated)),
    ),
    ground (
      arith,
      contents-eq (add x r) (add-IsBuffer x r b),
      drop-set r.storage 0 x,
      take-set r.storage 0 x (omega (arith, b.allocated, b.positive)),
    ),
  )

  contents_room :
      (x : A) (r : RingBuffer A)
      → IsBuffer r
      → r.pos ≢ r.max
      → contents (add x r)
        ≡ ((if r.wrapped then drop 1 (drop r.pos r.storage) else []) ++ take r.pos r.storage)
          ++ x ∷ []
  unfolding add
  contents_room x r b e = ground (
    arith,
    contents-eq (add x r) (add-IsBuffer x r b),
    drop-set r.storage r.pos x,
    take-set r.storage r.pos x (omega (arith, b.allocated, b.bounded)),
    append_assoc (drop 1 (drop r.pos r.storage)) (take r.pos r.storage) (x ∷ []),
  )

  contents-add :
      (x : A) (r : RingBuffer A)
      → IsBuffer r
      → contents (add x r)
        ≡ (if length (contents r) == r.max then drop 1 (contents r) else contents r) ++ x ∷ []
  unfolding size
  contents-add x r b = elim (ℕ_discrete r.pos r.max) [
    | yes e ↦ ground (arith, contents_full x r b e, b.allocated)
    | no e ↦ ground (
      arith,
      contents_room x r b e,
      contents-eq r b,
      length-contents r b,
      drop-append 1 (drop r.pos r.storage) (take r.pos r.storage)
          (omega (arith, length-drop r.pos r.storage, b.allocated, b.bounded, e)),
    )
  ]

  add_all-newest :
      (xs ys : List A) (r : RingBuffer A)
      → IsBuffer r
      → contents r ≡ newest r.max xs
      → contents (add_all ys r) ≡ newest r.max (xs ++ ys)
  unfolding add_all
  add_all-newest xs [] r b h = h ∙ ap (newest r.max) (sym (append-nil xs))
  add_all-newest xs (y ∷ ys) r b h =
      add_all-newest (xs ++ y ∷ []) ys (add y r) (add-IsBuffer y r b) (step y)
      ∙ ap (newest r.max) (append_assoc xs (y ∷ []) ys)
    where
      step : (z : A) → contents (add z r) ≡ newest r.max (xs ++ z ∷ [])
      step z =
          contents-add z r b
          ∙ ap (λ c. (if length c == r.max then drop 1 c else c) ++ z ∷ []) h
          ∙ sym (newest-append r.max xs z b.positive)

  add_all-IsBuffer :
      (xs : List A) (r : RingBuffer A)
      → IsBuffer r
      → IsBuffer (add_all xs r) × ((add_all xs r).max ≡ r.max)
  unfolding add_all add
  add_all-IsBuffer [] r b = (b, refl)
  add_all-IsBuffer (x ∷ xs) r b = add_all-IsBuffer xs (add x r) (add-IsBuffer x r b)

  newest_nothing : (n : ℕ) → newest n [] ≡ []
  newest_nothing n = drop-all (0 - n) [] (omega arith)

  contents-reset : (r : RingBuffer A) → IsBuffer r → IsBuffer (reset r) × (contents (reset r) ≡ [])
  unfolding reset contents
  contents-reset r b =
      (record { allocated = b.allocated; positive = b.positive; bounded = omega arith }, refl)

  from_start :
      (xs : List A) (r : RingBuffer A)
      → IsBuffer r
      → contents r ≡ []
      → (contents (add_all xs r) ≡ newest r.max xs) × (size (add_all xs r) ≡ min r.max (length xs))
  from_start xs r b h =
      let c = add_all-newest [] xs r b (h ∙ sym (newest_nothing r.max)) in
      let (b', m) = add_all-IsBuffer xs r b in
      (
        c,
        omega (
          arith,
          length-contents (add_all xs r) b',
          ap length c,
          length-drop (length xs - r.max) xs,
        ),
      )

  -- After any calls of `add` on a new buffer of at least one element, its contents are the newest
  -- `max` of the elements added, oldest first, and its size is their number; and so they are again
  -- after a `reset` and more calls.
  pub contents-add_all :
      (max : ℕ) (storage xs ys : List A)
      → 0 < max
      → length storage ≡ max
      → (contents (add_all xs (new_buffer max storage)) ≡ newest max xs)
        × (size (add_all xs (new_buffer max storage)) ≡ min max (length xs))
        × (contents (add_all ys (reset (add_all xs (new_buffer max storage)))) ≡ newest max ys)
  unfolding new_buffer reset
  contents-add_all max storage xs ys h l =
      let r = new_buffer max storage in
      let b : IsBuffer r = record { allocated = l; positive = h; bounded = omega arith } in
      let (c, n) = from_start xs r b (contents-reset r b).1 in
      let (b', m) = add_all-IsBuffer xs r b in
      let (b'', e) = contents-reset (add_all xs r) b' in
      (c, n, (from_start ys (reset (add_all xs r)) b'' e).0 ∙ ap (λ k. newest k ys) m)
