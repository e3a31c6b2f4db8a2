-- ===== src/FlowControl/Dynamic.antt =====
-- The dynamic policy of src/dcp/flow-control-manager.cc: the sizes that it gives, and its account of them.

use ep_engine.Base.{
  ℕ, zero, suc, ◌+◌, ◌%◌, ◌^◌, ◌≤◌, ◌<◌, ◌≡◌, refl, ◌∙◌, ap, Bool, List, [], ◌∷◌, arith,
}
use ep_engine.FlowControl.Managers.{Limits, within_bounds, dynamic_new_consumer, dynamic_disconnect}

pub within_bounds-range :
    (c : Limits) (size : ℕ)
    → c.conn_buffer_size ≤ c.conn_buffer_size_max
    → (c.conn_buffer_size ≤ within_bounds c size) × (within_bounds c size ≤ c.conn_buffer_size_max)
unfolding within_bounds
within_bounds-range c size h = (ground arith, ground arith)

-- The events of the dynamic policy: a new consumer, for which the quota has the part and the threshold
-- that are given, and the end of the consumer that came `n`-th of those that are left.
pub data DynamicEvent : Type 0 where
  joins : ℕ → (ℕ → Bool) → DynamicEvent
  leaves : ℕ → DynamicEvent

abbrev pub sizes_sum : List ℕ → ℕ
sizes_sum [] = 0
sizes_sum (x ∷ xs) = x + sizes_sum xs

-- The buffers without the `n`-th, and the size of that.
abbrev pub remove_at : ℕ → List ℕ → List ℕ × ℕ
remove_at n [] = ([], 0)
remove_at zero (x ∷ xs) = (xs, x)
remove_at (suc n) (x ∷ xs) = let (ys, y) = remove_at n xs in (x ∷ ys, y)

remove_at-sum :
    (n : ℕ) (xs : List ℕ) → sizes_sum xs ≡ (remove_at n xs).1 + sizes_sum (remove_at n xs).0
remove_at-sum n [] = omega arith
remove_at-sum zero (x ∷ xs) = omega arith
remove_at-sum (suc n) (x ∷ xs) = omega (arith, remove_at-sum n xs)

abbrev pub AllWithin : ℕ → ℕ → List ℕ → Type 0
AllWithin lo hi [] = Unit {0}
AllWithin lo hi (x ∷ xs) = (lo ≤ x) × (x ≤ hi) × AllWithin lo hi xs

remove_at-size : (lo hi n : ℕ) (xs : List ℕ) → AllWithin lo hi xs → (remove_at n xs).1 ≤ hi
remove_at-size lo hi n [] h = omega arith
remove_at-size lo hi zero (x ∷ xs) h = h.1
remove_at-size lo hi (suc n) (x ∷ xs) h = remove_at-size lo hi n xs h.2

disconnect-sum :
    (sum size left : ℕ)
    → sum ≡ (size + left) % 2 ^ 64
    → size < 2 ^ 32
    → dynamic_disconnect size sum ≡ left % 2 ^ 64
unfolding dynamic_disconnect
disconnect-sum sum size left h i = omega arith

remove_at-AllWithin :
    (lo hi n : ℕ) (xs : List ℕ) → AllWithin lo hi xs → AllWithin lo hi (remove_at n xs).0
remove_at-AllWithin lo hi n [] h = tt
remove_at-AllWithin lo hi zero (x ∷ xs) h = h.2
remove_at-AllWithin lo hi (suc n) (x ∷ xs) h = (h.0, h.1, remove_at-AllWithin lo hi n xs h.2)

-- The sum that the manager keeps, and the buffers of the consumers.
abbrev pub dynamic_run : Limits → List DynamicEvent → ℕ × List ℕ
dynamic_run c [] = (0, [])
dynamic_run c (joins part exceeds ∷ es) =
    let (sum, sizes) = dynamic_run c es in
    let (sum', size) = dynamic_new_consumer c part exceeds sum in (sum', size ∷ sizes)
dynamic_run c (leaves n ∷ es) =
    let (sum, sizes) = dynamic_run c es in
    let (left, size) = remove_at n sizes in (dynamic_disconnect size sum, left)

dynamic_size :
    (c : Limits) (part : ℕ) (exceeds : ℕ → Bool) (sum : ℕ)
    → c.conn_buffer_size ≤ c.conn_buffer_size_max
    → (c.conn_buffer_size ≤ (dynamic_new_consumer c part exceeds sum).1)
      × ((dynamic_new_consumer c part exceeds sum).1 ≤ c.conn_buffer_size_max)
unfolding dynamic_new_consumer
dynamic_size c part exceeds sum h =
    let r = within_bounds-range c part h in (ground (arith, r), ground (arith, r))

dynamic_sum :
    (c : Limits) (part : ℕ) (exceeds : ℕ → Bool) (sum : ℕ)
    → (dynamic_new_consumer c part exceeds sum).0
      ≡ (sum + (dynamic_new_consumer c part exceeds sum).1) % 2 ^ 64
unfolding dynamic_new_consumer
dynamic_sum c part exceeds sum = refl

-- Under the dynamic policy, whatever consumers come and go and however the products are rounded, every
-- consumer has a buffer within the configured bounds, if they are in order, and the sum that the
-- manager keeps is the sum of the buffers of the connected consumers, modulo 2 ^ 64. Events are listed
-- from the last to the first.
dynamic_run-sum :
    (c : Limits) (es : List DynamicEvent)
    → c.conn_buffer_size ≤ c.conn_buffer_size_max
    → c.conn_buffer_size_max < 2 ^ 32
    → let (sum, sizes) = dynamic_run c es in
      (sum ≡ sizes_sum sizes % 2 ^ 64) × AllWithin c.conn_buffer_size c.conn_buffer_size_max sizes
dynamic_run-sum c [] h i = (refl, tt)
dynamic_run-sum c (joins part exceeds ∷ es) h i =
    let (s, a) = dynamic_run-sum c es h i in
    let sum = (dynamic_run c es).0 in
    let (lo, hi) = dynamic_size c part exceeds sum h in
    (omega (arith, s, dynamic_sum c part exceeds sum), (lo, hi, a))
dynamic_run-sum c (leaves n ∷ es) h i =
    let (s, a) = dynamic_run-sum c es h i in
    let sizes = (dynamic_run c es).1 in
    (
      disconnect-sum (dynamic_run c es).0 (remove_at n sizes).1 (sizes_sum (remove_at n sizes).0)
          (s ∙ ap (λ z. z % 2 ^ 64) (remove_at-sum n sizes))
          (omega (arith, remove_at-size c.conn_buffer_size c.conn_buffer_size_max n sizes a)),
      remove_at-AllWithin c.conn_buffer_size c.conn_buffer_size_max n sizes a,
    )
