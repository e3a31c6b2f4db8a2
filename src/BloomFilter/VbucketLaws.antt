-- ===== src/BloomFilter/VbucketLaws.antt =====
-- The filters of a vbucket of src/vbucket.cc through a compaction.
use mathlib.Core.Path.{subst}
use ep_engine.Base.{
  ℕ, zero, suc, ◌<◌, ◌≡◌, refl, sym, true, Option, none, some, List, [], ◌∷◌, String, arith,
  eq_of_some, Option-cases, inl, inr,
}
use ep_engine.BloomFilter.{
  BloomFilter, disabled, compacting, enabled, new_filter, set_status, is_active, read_bit, add_loop,
  add_key,
}
use ep_engine.BloomFilter.Members.{
  IsReady, IsMember, add_key-IsReady, IsMember-add_key, maybe-IsMember, new_filter-IsReady,
}
use ep_engine.BloomFilter.Vbucket.{
  Filters, set_if, init_temp_filter, set_filter_status, swap_filter, add_if, add_to_filter,
  add_to_temp_filter, maybe_key_exists_in_filter,
}

-- There is no main filter, or it works.
abbrev pub MainReady : Filters → Type 0
MainReady v = (f : BloomFilter) → v.main ≡ some f → IsReady f

-- A key that arrives during a compaction: a new one, or one that the compaction reads.
pub data Arrival : Type 0 where
  stored compacted : String → Arrival

abbrev pub key_of : Arrival → String
key_of (stored k) = k
key_of (compacted k) = k

set_status-IsReady : (f : BloomFilter) → IsReady f → IsReady (set_status compacting f)
unfolding set_status is_active
set_status-IsReady f r = record {
  active = ground (arith, r.active);
  positive = ground (arith, r.positive);
  allocated = ground (arith, r.allocated, r.active);
}

set_status-enabled :
    (f : BloomFilter) → IsReady f → set_status enabled f ≡ record f { status = enabled }
unfolding set_status is_active
set_status-enabled f r = ground (arith, r.active)

enable-IsReady : (f : BloomFilter) → IsReady f → IsReady (set_status enabled f)
unfolding is_active
enable-IsReady f r =
    subst IsReady (sym (set_status-enabled f r))
      (record { active = refl; positive = r.positive; allocated = r.allocated })

module _ (hash : String → ℕ → ℕ) where
  abbrev pub arrive : Arrival → Filters → Option Filters
  arrive (stored k) v = add_to_filter hash k v
  arrive (compacted k) v = add_to_temp_filter hash k v

  abbrev pub arrive_all : List Arrival → Filters → Option Filters
  arrive_all [] v = some v
  arrive_all (a ∷ bs) v = elim (arrive a v) [ none ↦ none | some w ↦ arrive_all bs w ]

  abbrev pub AllFound : List Arrival → Filters → Type 0
  AllFound [] v = Unit {0}
  AllFound (a ∷ bs) v = (maybe_key_exists_in_filter hash (key_of a) v ≡ some true) × AllFound bs v

  abbrev TempReady : Filters → Type 0
  TempReady v = (g : BloomFilter) × (v.temp ≡ some g) × IsReady g

  abbrev InTemp : String → Filters → Type 0
  InTemp k v = (g : BloomFilter) → v.temp ≡ some g → IsMember hash k g

  -- One arrival while both filters work.
  abbrev Arrived : Arrival → Filters → Type 0
  Arrived a v =
      (w : Filters) × (arrive a v ≡ some w)
      × MainReady w
      × TempReady w
      × InTemp (key_of a) w
      × ((k : String) → InTemp k v → InTemp k w)

  add_if-IsReady :
      (k : String) (o : Option BloomFilter)
      → ((f : BloomFilter) → o ≡ some f → IsReady f)
      → (p : Option BloomFilter) × (add_if hash k o ≡ some p)
        × ((f : BloomFilter) → p ≡ some f → IsReady f)
  unfolding add_if
  add_if-IsReady k none r = (none, refl, r)
  add_if-IsReady k (some f) r =
      let (g, e, ready, s, n, keeps, mem) = add_key-IsReady hash k f (r f refl) in
      (some g, ground (arith, e), (λ h w. subst IsReady (eq_of_some w) ready))

  add_if-temp :
      (k : String) (g h : BloomFilter)
      → add_key hash k g ≡ some h
      → add_if hash k (some g) ≡ some (some h)
  unfolding add_if
  add_if-temp k g h e = ground (arith, e)

  arrive-Arrived : (a : Arrival) (v : Filters) → MainReady v → TempReady v → Arrived a v
  unfolding add_to_filter add_to_temp_filter
  arrive-Arrived (stored k) v m (g, e, r) =
      let (h, eq, ready, s, n, keeps, mem) = add_key-IsReady hash k g r in
      let (p, eq', m') = add_if-IsReady k v.main m in
      (
        record { main = p; temp = some h },
        ground (arith, e, eq', add_if-temp k g h eq),
        m',
        (h, refl, ready),
        (λ x w. subst (IsMember hash k) (eq_of_some w) mem),
        (λ j i x w.
            subst (IsMember hash j) (eq_of_some w) (IsMember-add_key hash k j g h r eq (i g e))),
      )
  arrive-Arrived (compacted k) v m (g, e, r) =
      let (h, eq, ready, s, n, keeps, mem) = add_key-IsReady hash k g r in
      (
        record v { temp = some h },
        ground (arith, e, add_if-temp k g h eq),
        m,
        (h, refl, ready),
        (λ x w. subst (IsMember hash k) (eq_of_some w) mem),
        (λ j i x w.
            subst (IsMember hash j) (eq_of_some w) (IsMember-add_key hash k j g h r eq (i g e))),
      )

  abbrev AllInTemp : List Arrival → Filters → Type 0
  AllInTemp [] v = Unit {0}
  AllInTemp (a ∷ bs) v = InTemp (key_of a) v × AllInTemp bs v

  arrive_all-InTemp :
      (bs : List Arrival) (v : Filters)
      → MainReady v
      → TempReady v
      → (w : Filters) × (arrive_all bs v ≡ some w)
        × TempReady w
        × AllInTemp bs w
        × ((k : String) → InTemp k v → InTemp k w)
  arrive_all-InTemp [] v m t = (v, refl, t, tt, (λ k i. i))
  arrive_all-InTemp (a ∷ bs) v m t =
      let (u, e, m', t', i, mono) = arrive-Arrived a v m t in
      let (w, e', t'', all, mono') = arrive_all-InTemp bs u m' t' in
      (w, ground (arith, e, e'), t'', (mono' (key_of a) i, all), (λ k x. mono' k (mono k x)))

  swap-found :
      (k : String) (v : Filters)
      → TempReady v
      → InTemp k v
      → maybe_key_exists_in_filter hash k (swap_filter v) ≡ some true
  unfolding swap_filter maybe_key_exists_in_filter
  swap-found k v (g, e, r) i = ground (
    arith,
    e,
    r.active,
    maybe-IsMember hash k (set_status enabled g) (enable-IsReady g r) (enable-member g r (i g e)),
  )
    where
      enable-member :
          (f : BloomFilter) → IsReady f → IsMember hash k f → IsMember hash k (set_status enabled f)
      enable-member f x m = subst (IsMember hash k) (sym (set_status-enabled f x)) m

  AllFound-swap :
      (bs : List Arrival) (v : Filters) → TempReady v → AllInTemp bs v → AllFound bs (swap_filter v)
  AllFound-swap [] v t i = tt
  AllFound-swap (a ∷ bs) v t i = (swap-found (key_of a) v t i.0, AllFound-swap bs v t i.1)

  main_ready :
      (v : Filters) (size hashes : ℕ) → MainReady v → MainReady (init_temp_filter size hashes v)
  unfolding init_temp_filter set_if
  main_ready v size hashes m f e = elim (Option-cases v.main) [
    | inl w ↦ absurd (ground arith)
    | inr (g, w) ↦ subst IsReady (eq_of_some (ground (arith, w, e))) (set_status-IsReady g (m g w))
  ]

  temp_ready :
      (v : Filters) (size hashes : ℕ) → 0 < size → TempReady (init_temp_filter size hashes v)
  unfolding init_temp_filter is_active
  temp_ready v size hashes p =
      (new_filter size hashes compacting, refl, new_filter-IsReady size hashes compacting p refl)

  -- Keys that arrive during a compaction of a vbucket whose main filter works, or that has none, are
  -- all found in the filter that is put in place at the end, and nothing is accessed out of range.
  pub compaction-AllFound :
      (bs : List Arrival) (size hashes : ℕ) (v : Filters)
      → 0 < size
      → MainReady v
      → (w : Filters) × (arrive_all bs (init_temp_filter size hashes v) ≡ some w)
        × AllFound bs (swap_filter w)
  compaction-AllFound bs size hashes v p m =
      let (w, e, t, all, mono) =
        arrive_all-InTemp bs (init_temp_filter size hashes v) (main_ready v size hashes m)
          (temp_ready v size hashes p) in
      (w, e, AllFound-swap bs w t all)

  add_loop-cleared : (key : String) (size n : ℕ) → 0 < n → add_loop hash size n 0 key true [] ≡ none
  unfolding add_loop read_bit
  add_loop-cleared key size zero h = elim h [ ]
  add_loop-cleared key size (suc n) h = ground arith

  add_key-cleared :
      (key : String) (f : BloomFilter)
      → f.status ≡ compacting
      → f.bit_array ≡ []
      → 0 < f.no_of_hashes
      → add_key hash key f ≡ none
  unfolding add_key is_active
  add_key-cleared key f s b h =
      ground (arith, s, b, add_loop-cleared key f.filter_size f.no_of_hashes h)

  add_to_filter-main :
      (key : String) (v : Filters) (f : BloomFilter)
      → v.main ≡ some f
      → add_key hash key f ≡ none
      → add_to_filter hash key v ≡ none
  unfolding add_to_filter add_if
  add_to_filter-main key v f e n = ground (arith, e, n)

  main-reenabled :
      (v : Filters) (f : BloomFilter)
      → v.main ≡ some f
      → f.status ≡ enabled
      → (size hashes : ℕ)
      → (init_temp_filter size hashes
          (set_filter_status enabled (set_filter_status disabled v))).main
        ≡ some (record f { status = compacting; bit_array = [] })
  unfolding init_temp_filter set_filter_status set_if set_status
  main-reenabled v f e s size hashes = ground (arith, e, s)

  -- Disabling and enabling the filters leaves an enabled main filter without its array; the next
  -- compaction makes it work again, and adding a key then writes out of range.
  pub reenabled-overruns :
      (key : String) (size hashes : ℕ) (v : Filters) (f : BloomFilter)
      → v.main ≡ some f
      → f.status ≡ enabled
      → 0 < f.no_of_hashes
      → add_to_filter hash key
          (init_temp_filter size hashes (set_filter_status enabled (set_filter_status disabled v)))
        ≡ none
  reenabled-overruns key size hashes v f e s h =
      add_to_filter-main key
        (init_temp_filter size hashes (set_filter_status enabled (set_filter_status disabled v)))
        (record f { status = compacting; bit_array = [] }) (main-reenabled v f e s size hashes)
        (add_key-cleared key (record f { status = compacting; bit_array = [] }) refl refl h)
