-- ===== src/BloomFilter/Vbucket.antt =====
-- The filters of a vbucket of src/vbucket.cc: the main one, and the one that a compaction fills and
-- then puts in its place. The lock makes each operation one step.
use ep_engine.Base.{ℕ, Bool, true, false, Option, none, some, String, if◌then◌else◌}
use ep_engine.BloomFilter.{
  BloomFilter, FilterStatus, compacting, enabled, new_filter, set_status, is_active, add_key,
  maybe_key_exists, get_filter_size, get_num_of_keys,
}

-- `bFilter` and `tempFilter`
pub record Filters : Type 0 where
  pub main : Option BloomFilter
  pub temp : Option BloomFilter

-- `createFilter`
unfoldable pub create_filter : ℕ → ℕ → Filters → Filters
create_filter size hashes v = elim v.main [
  | some f ↦ v
  | none ↦ elim v.temp [
    | some g ↦ v
    | none ↦ record v { main = some (new_filter size hashes enabled) }
  ]
]

-- `bFilter->setStatus(to)` unless it is null.
unfoldable pub set_if : FilterStatus → Option BloomFilter → Option BloomFilter
set_if to none = none
set_if to (some f) = some (set_status to f)

-- `initTempFilter`
unfoldable pub init_temp_filter : ℕ → ℕ → Filters → Filters
unfolding set_if
init_temp_filter size hashes v = record {
  main = set_if compacting v.main;
  temp = some (new_filter size hashes compacting);
}

-- `setFilterStatus`
unfoldable pub set_filter_status : FilterStatus → Filters → Filters
unfolding set_if
set_filter_status to v = record { main = set_if to v.main; temp = set_if to v.temp }

-- `swapFilter`
unfoldable pub swap_filter : Filters → Filters
swap_filter v = elim v.temp [
  | none ↦ record { main = none; temp = none }
  | some g ↦
      if is_active g.status
      then record { main = some (set_status enabled g); temp = none }
      else record { main = none; temp = none }
]

-- `clearFilter`
unfoldable pub clear_filter : Filters → Filters
clear_filter v = record { main = none; temp = none }

-- `isTempFilterAvailable`
unfoldable pub is_temp_filter_available : Filters → Bool
is_temp_filter_available v = elim v.temp [ none ↦ false | some g ↦ is_active g.status ]

-- `getFilterSize` and `getNumOfKeysInFilter`
unfoldable pub vb_filter_size : Filters → ℕ
vb_filter_size v = elim v.main [ none ↦ 0 | some f ↦ get_filter_size f ]

unfoldable pub vb_num_of_keys : Filters → ℕ
vb_num_of_keys v = elim v.main [ none ↦ 0 | some f ↦ get_num_of_keys f ]

module _ (hash : String → ℕ → ℕ) where
  -- `addKey` unless the filter is null; the outer `none` is an access out of range.
  unfoldable pub add_if : String → Option BloomFilter → Option (Option BloomFilter)
  add_if key none = some none
  add_if key (some f) = elim (add_key hash key f) [ none ↦ none | some g ↦ some (some g) ]

  -- `addToFilter`
  unfoldable pub add_to_filter : String → Filters → Option Filters
  unfolding add_if
  add_to_filter key v = elim (add_if key v.main) [
    | none ↦ none
    | some f ↦ elim (add_if key v.temp) [
      | none ↦ none
      | some g ↦ some (record { main = f; temp = g })
    ]
  ]

  -- `addToTempFilter`
  unfoldable pub add_to_temp_filter : String → Filters → Option Filters
  unfolding add_if
  add_to_temp_filter key v = elim (add_if key v.temp) [
    | none ↦ none
    | some g ↦ some (record v { temp = g })
  ]

  -- `maybeKeyExistsInFilter`
  unfoldable pub maybe_key_exists_in_filter : String → Filters → Option Bool
  maybe_key_exists_in_filter key v = elim v.main [
    | none ↦ some true
    | some f ↦ maybe_key_exists hash key f
  ]
