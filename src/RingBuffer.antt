-- ===== src/RingBuffer.antt =====
-- src/ringbuffer.h: the buffer of a fixed number of elements that keeps the task log.
pub mod Recent
mod Tests
use ep_engine.Base.{
  ℕ, suc, ◌-◌, Bool, true, false, not, ◌&&◌, List, [], ◌∷◌, ◌++◌, ◌==◌, if◌then◌else◌, set, take,
  drop,
}

-- `RingBuffer`; `storage` is the array.
pub record RingBuffer {ℓ} (A : Type ℓ) : Type ℓ where
  pub storage : List A
  pub pos : ℕ
  pub max : ℕ
  pub wrapped : Bool

module _ {ℓ} {A : Type ℓ} where
  -- The constructor, for an array of `max` elements as `new` gives it.
  unfoldable pub new_buffer : ℕ → List A → RingBuffer A
  new_buffer max storage = record { storage = storage; pos = 0; max = max; wrapped = false }

  unfoldable pub size : RingBuffer A → ℕ
  size r = if r.wrapped then r.max else r.pos

  unfoldable pub add : A → RingBuffer A → RingBuffer A
  add ob r =
      let full = r.pos == r.max in
      let at = if full then 0 else r.pos in
      record r {
        wrapped = if full then true else r.wrapped;
        storage = set r.storage at ob;
        pos = suc at;
      }

  unfoldable pub reset : RingBuffer A → RingBuffer A
  reset r = record r { pos = 0; wrapped = false }

  -- The two copies; the vector has `size` elements.
  unfoldable pub contents : RingBuffer A → List A
  contents r =
      (if r.wrapped && not (r.pos == r.max) then drop r.pos r.storage else [])
      ++ take r.pos r.storage

  -- Calls of `add`.
  unfoldable pub add_all : List A → RingBuffer A → RingBuffer A
  unfolding add
  add_all [] r = r
  add_all (x ∷ xs) r = add_all xs (add x r)
