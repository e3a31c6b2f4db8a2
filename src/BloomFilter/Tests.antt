-- ===== src/BloomFilter/Tests.antt =====
-- Runs of the Bloom filters with a small hash function, and the theorems at concrete filters.
use Prim.Native.String.{len}
use mathlib.Core.Path.{subst}
use ep_engine.Base.{ℕ, ◌+◌, ◌*◌, ◌<◌, ◌≡◌, refl, none, some, [], ◌∷◌, String, arith, eq_of_some}
use ep_engine.BloomFilter.{BloomFilter, disabled, enabled, new_filter, is_active}
use ep_engine.BloomFilter.Members.{IsReady, add_keys, new_filter-IsReady, add_keys-AllFound}
use ep_engine.BloomFilter.Members as Members
use ep_engine.BloomFilter.Vbucket.{
  Filters, init_temp_filter, set_filter_status, swap_filter, add_to_filter,
}
use ep_engine.BloomFilter.VbucketLaws.{
  stored, compacted, arrive_all, AllFound, MainReady, compaction-AllFound, reenabled-overruns,
}

abbrev small_hash : String → ℕ → ℕ
small_hash key i = len key * 7 + i * 5

abbrev eight : BloomFilter
eight = new_filter 8 2 enabled

eight-IsReady : IsReady eight
unfolding is_active
eight-IsReady = new_filter-IsReady 8 2 enabled (omega arith) refl

add_keys-AllFound_example :
    (g : BloomFilter) × (add_keys small_hash ("a" ∷ "key" ∷ []) eight ≡ some g)
    × Members.AllFound small_hash ("a" ∷ "key" ∷ []) g
add_keys-AllFound_example = add_keys-AllFound small_hash ("a" ∷ "key" ∷ []) eight eight-IsReady

abbrev no_filters : Filters
no_filters = record { main = none; temp = none }

abbrev one_filter : Filters
one_filter = record { main = some eight; temp = none }

one_filter-MainReady : MainReady one_filter
one_filter-MainReady f e = subst IsReady (eq_of_some e) eight-IsReady

eight_status : eight.status ≡ enabled
unfolding new_filter
eight_status = refl

eight_hashes : 0 < eight.no_of_hashes
unfolding new_filter
eight_hashes = omega arith

compaction-AllFound_example :
    (w : Filters) × (arrive_all small_hash
        (stored "a" ∷ compacted "key" ∷ [])
        (init_temp_filter 16 2 one_filter)
      ≡ some w)
    × AllFound small_hash (stored "a" ∷ compacted "key" ∷ []) (swap_filter w)
compaction-AllFound_example =
    compaction-AllFound small_hash (stored "a" ∷ compacted "key" ∷ []) 16 2 one_filter (omega arith)
      one_filter-MainReady

reenabled-overruns_example :
    add_to_filter small_hash "a"
      (init_temp_filter 16 2 (set_filter_status enabled (set_filter_status disabled one_filter)))
    ≡ none
reenabled-overruns_example =
    reenabled-overruns small_hash "a" 16 2 one_filter eight refl eight_status eight_hashes
