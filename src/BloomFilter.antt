-- ===== src/BloomFilter.antt =====
-- src/bloomfilter.h and src/bloomfilter.cc: the Bloom filter of a vbucket's keys. The hash function is
-- a parameter, and so is the size that the constructor computes with logarithms.
pub mod Members
pub mod Vbucket
pub mod VbucketLaws
mod Tests
use ep_engine.Base.{
  ℕ, zero, suc, ◌+◌, ◌%◌, Bool, true, false, not, ◌&&◌, Option, none, some, List, [], ◌∷◌, String,
  ◌==◌, if◌then◌else◌, get_elem?, set, replicate,
}

-- `bfilter_status_t`
pub data FilterStatus : Type 0 where
  disabled pending compacting enabled : FilterStatus

pub record BloomFilter : Type 0 where
  pub filter_size : ℕ
  pub no_of_hashes : ℕ
  pub key_counter : ℕ
  pub status : FilterStatus
  pub bit_array : List Bool

-- The constructor, with `filter_size` and `no_of_hashes` as estimated.
unfoldable pub new_filter : ℕ → ℕ → FilterStatus → BloomFilter
new_filter filter_size no_of_hashes status = record {
  filter_size = filter_size;
  no_of_hashes = no_of_hashes;
  key_counter = 0;
  status = status;
  bit_array = replicate filter_size false;
}

-- The assignment with `bitArray.clear()`.
unfoldable clear_as : FilterStatus → BloomFilter → BloomFilter
clear_as to f = record f { status = to; bit_array = [] }

-- `setStatus`
unfoldable pub set_status : FilterStatus → BloomFilter → BloomFilter
unfolding clear_as
set_status to f = elim f.status [
  | disabled ↦ elim to [ enabled ↦ record f { status = pending } | _ ↦ f ]
  | pending ↦ elim to [
    | disabled ↦ clear_as disabled f
    | compacting ↦ record f { status = compacting }
    | _ ↦ f
  ]
  | compacting ↦ elim to [
    | disabled ↦ clear_as disabled f
    | enabled ↦ record f { status = enabled }
    | _ ↦ f
  ]
  | enabled ↦ elim to [
    | disabled ↦ clear_as disabled f
    | compacting ↦ record f { status = compacting }
    | _ ↦ f
  ]
]

unfoldable pub is_active : FilterStatus → Bool
is_active disabled = false
is_active pending = false
is_active compacting = true
is_active enabled = true

-- `bitArray[result % filterSize]`: `none` for a division by 0 and for an index out of range.
unfoldable pub read_bit : ℕ → ℕ → List Bool → Option Bool
read_bit size result bits = if size == 0 then none else get_elem? bits (result % size)

module _ (hash : String → ℕ → ℕ) where
  -- The loop of `addKey`, from the hash function `i` on, `k` of them.
  unfoldable pub add_loop : ℕ → ℕ → ℕ → String → Bool → List Bool → Option (Bool × List Bool)
  unfolding read_bit
  add_loop size zero i key overlap bits = some (overlap, bits)
  add_loop size (suc k) i key overlap bits = elim (read_bit size (hash key i) bits) [
    | none ↦ none
    | some b ↦ add_loop size k (suc i) key (overlap && b) (set bits (hash key i % size) true)
  ]

  -- `addKey`; `none` is an access out of range.
  unfoldable pub add_key : String → BloomFilter → Option BloomFilter
  unfolding is_active
  add_key key f =
      if is_active f.status
      then (elim (add_loop f.filter_size f.no_of_hashes 0 key true f.bit_array) [
        | none ↦ none
        | some (overlap, bits) ↦ some (record f {
          bit_array = bits;
          key_counter = if not overlap then f.key_counter + 1 else f.key_counter;
        })
      ])
      else some f

  -- The loop of `maybeKeyExists`.
  unfoldable pub exists_loop : ℕ → ℕ → ℕ → String → List Bool → Option Bool
  unfolding read_bit
  exists_loop size zero i key bits = some true
  exists_loop size (suc k) i key bits = elim (read_bit size (hash key i) bits) [
    | none ↦ none
    | some b ↦ (let r = exists_loop size k (suc i) key bits in if b then r else some false)
  ]

  unfoldable pub maybe_key_exists : String → BloomFilter → Option Bool
  unfolding is_active
  maybe_key_exists key f =
      if is_active f.status
      then exists_loop f.filter_size f.no_of_hashes 0 key f.bit_array
      else some true

-- `getNumOfKeysInFilter` and `getFilterSize`
unfoldable pub get_num_of_keys : BloomFilter → ℕ
unfolding is_active
get_num_of_keys f = if is_active f.status then f.key_counter else 0

unfoldable pub get_filter_size : BloomFilter → ℕ
unfolding is_active
get_filter_size f = if is_active f.status then f.filter_size else 0
