-- ===== src/BloomFilter/Members.antt =====
-- The Bloom filter of src/bloomfilter.cc has no false negatives.
use mathlib.Core.Path.{subst}
use native.Mathlib.Decide.{ℕ_discrete}
use native.Mathlib.Nat.{mod-lt}
use ep_engine.Base.{
  ℕ, zero, suc, ◌+◌, ◌<◌, ◌%◌, ◌≡◌, refl, sym, ◌∙◌, Bool, true, false, not, ◌&&◌, Option, none,
  some, List, [], ◌∷◌, String, arith, if◌then◌else◌, get_elem?, set, length, length-set,
  get_elem?-set_self, get_elem?-set_ne, eq_of_some, length-replicate,
}
use ep_engine.BloomFilter.{
  BloomFilter, FilterStatus, new_filter, is_active, add_loop, add_key, exists_loop,
  maybe_key_exists,
}

-- The filter works, and its array has the size that it computes with.
pub record IsReady (f : BloomFilter) : Type 0 where
  pub active : is_active f.status ≡ true
  pub positive : 0 < f.filter_size
  pub allocated : length f.bit_array ≡ f.filter_size

get_elem?-in : (xs : List Bool) (i : ℕ) → i < length xs → (b : Bool) × (get_elem? xs i ≡ some b)
get_elem?-in [] i h = elim h [ ]
get_elem?-in (x ∷ xs) zero h = (x, refl)
get_elem?-in (x ∷ xs) (suc i) h = get_elem?-in xs i (omega arith)

in_range : (size n : ℕ) → 0 < size → n % size < size
in_range size n h = mod-lt n h

-- Bits that were set are set.
abbrev Keeps : List Bool → List Bool → Type 0
Keeps xs ys = (i : ℕ) → get_elem? xs i ≡ some true → get_elem? ys i ≡ some true

Keeps-set : (xs : List Bool) (j : ℕ) → j < length xs → Keeps xs (set xs j true)
Keeps-set xs j h i e = elim (ℕ_discrete j i) [
  | yes w ↦ ground (arith, get_elem?-set_self xs j true h)
  | no w ↦ get_elem?-set_ne xs true w ∙ e
]

module _ (hash : String → ℕ → ℕ) where
  -- The bits of a key, for the hash functions from `i` on.
  abbrev Marked : ℕ → ℕ → ℕ → String → List Bool → Type 0
  Marked size zero i key bits = Unit {0}
  Marked size (suc k) i key bits =
      (get_elem? bits (hash key i % size) ≡ some true) × Marked size k (suc i) key bits

  Marked-Keeps :
      (size k i : ℕ) (key : String) (xs ys : List Bool)
      → Keeps xs ys
      → Marked size k i key xs
      → Marked size k i key ys
  Marked-Keeps size zero i key xs ys h m = tt
  Marked-Keeps size (suc k) i key xs ys h m =
      (h (hash key i % size) m.0, Marked-Keeps size k (suc i) key xs ys h m.1)

  -- What the loop of `addKey` leaves.
  abbrev Added : ℕ → ℕ → ℕ → String → List Bool → Option (Bool × List Bool) → Type 0
  Added size k i key bits out =
      (o : Bool) × (bs : List Bool) × (out ≡ some (o, bs))
      × (length bs ≡ length bits)
      × Keeps bits bs
      × Marked size k i key bs

  add_loop-Added :
      (size k i : ℕ) (key : String) (overlap : Bool) (bits : List Bool)
      → 0 < size
      → length bits ≡ size
      → Added size k i key bits (add_loop hash size k i key overlap bits)
  unfolding add_loop
  add_loop-Added size zero i key overlap bits p l = (overlap, bits, refl, refl, (λ j e. e), tt)
  add_loop-Added size (suc k) i key overlap bits p l =
      let j = hash key i % size in
      let lt : j < length bits = omega (arith, in_range size (hash key i) p, l) in
      let (b, e) = get_elem?-in bits j lt in
      let r =
        add_loop-Added size k (suc i) key (overlap && b) (set bits j true) p
          (length-set bits j true ∙ l) in
      let (o, bs, eq, n, keeps, m) = r in
      (
        o,
        bs,
        ground (arith, e, eq),
        n ∙ length-set bits j true,
        (λ x w. keeps x (Keeps-set bits j lt x w)),
        (keeps j (get_elem?-set_self bits j true lt), m),
      )

  exists_loop-Marked :
      (size k i : ℕ) (key : String) (bits : List Bool)
      → 0 < size
      → Marked size k i key bits
      → exists_loop hash size k i key bits ≡ some true
  unfolding exists_loop
  exists_loop-Marked size zero i key bits p m = refl
  exists_loop-Marked size (suc k) i key bits p m =
      ground (arith, m.0, exists_loop-Marked size k (suc i) key bits p m.1)

  -- The key has been added.
  abbrev pub IsMember : String → BloomFilter → Type 0
  IsMember key f = Marked f.filter_size f.no_of_hashes 0 key f.bit_array

  pub add_key-IsReady :
      (key : String) (f : BloomFilter)
      → IsReady f
      → (g : BloomFilter) × (add_key hash key f ≡ some g)
        × IsReady g
        × (g.filter_size ≡ f.filter_size)
        × (g.no_of_hashes ≡ f.no_of_hashes)
        × Keeps f.bit_array g.bit_array
        × IsMember key g
  unfolding add_key
  add_key-IsReady key f r =
      let (o, bs, eq, n, keeps, m) =
        add_loop-Added f.filter_size f.no_of_hashes 0 key true f.bit_array r.positive r.allocated in
      (
        record f {
          bit_array = bs;
          key_counter = if not o then f.key_counter + 1 else f.key_counter;
        },
        ground (arith, r.active, eq),
        record { active = r.active; positive = r.positive; allocated = n ∙ r.allocated },
        refl,
        refl,
        keeps,
        m,
      )

  pub IsMember-add_key :
      (key other : String) (f g : BloomFilter)
      → IsReady f
      → add_key hash key f ≡ some g
      → IsMember other f
      → IsMember other g
  IsMember-add_key key other f g r e m =
      let (h, eq, ready, size, hashes, keeps, in_it) = add_key-IsReady key f r in
      let moved : IsMember other h =
        subst (λ s. Marked s h.no_of_hashes 0 other h.bit_array) (sym size)
          (subst (λ k. Marked f.filter_size k 0 other h.bit_array) (sym hashes)
            (Marked-Keeps f.filter_size f.no_of_hashes 0 other f.bit_array h.bit_array keeps m)) in
      subst (IsMember other) (eq_of_some (sym eq ∙ e)) moved

  -- A key that is in a working filter is found.
  pub maybe-IsMember :
      (key : String) (f : BloomFilter)
      → IsReady f
      → IsMember key f
      → maybe_key_exists hash key f ≡ some true
  unfolding maybe_key_exists
  maybe-IsMember key f r m = ground (
    arith,
    r.active,
    exists_loop-Marked f.filter_size f.no_of_hashes 0 key f.bit_array r.positive m,
  )

  -- `addKey` for each key in turn.
  abbrev pub add_keys : List String → BloomFilter → Option BloomFilter
  add_keys [] f = some f
  add_keys (k ∷ ks) f = elim (add_key hash k f) [ none ↦ none | some g ↦ add_keys ks g ]

  abbrev pub AllFound : List String → BloomFilter → Type 0
  AllFound [] f = Unit {0}
  AllFound (k ∷ ks) f = (maybe_key_exists hash k f ≡ some true) × AllFound ks f

  abbrev AllMember : List String → BloomFilter → Type 0
  AllMember [] f = Unit {0}
  AllMember (k ∷ ks) f = IsMember k f × AllMember ks f

  AllFound-AllMember :
      (ks : List String) (f : BloomFilter) → IsReady f → AllMember ks f → AllFound ks f
  AllFound-AllMember [] f r m = tt
  AllFound-AllMember (k ∷ ks) f r m = (maybe-IsMember k f r m.0, AllFound-AllMember ks f r m.1)

  add_keys-IsReady :
      (ks : List String) (f : BloomFilter)
      → IsReady f
      → (g : BloomFilter) × (add_keys ks f ≡ some g)
        × IsReady g
        × AllMember ks g
        × ((k : String) → IsMember k f → IsMember k g)
  add_keys-IsReady [] f r = (f, refl, r, tt, (λ k m. m))
  add_keys-IsReady (k ∷ ks) f r =
      let (h, eq, ready, size, hashes, keeps, m) = add_key-IsReady k f r in
      let (g, e, ready', all, mono) = add_keys-IsReady ks h ready in
      (
        g,
        ground (arith, eq, e),
        ready',
        (mono k m, all),
        (λ j w. mono j (IsMember-add_key k j f h r eq w)),
      )

  -- Keys added to a filter that is enabled or compacting and has its array are all found afterwards,
  -- whatever the hash function, and nothing is read or written out of range.
  pub add_keys-AllFound :
      (ks : List String) (f : BloomFilter)
      → IsReady f
      → (g : BloomFilter) × (add_keys ks f ≡ some g) × AllFound ks g
  add_keys-AllFound ks f r =
      let (g, e, ready, all, mono) = add_keys-IsReady ks f r in
      (g, e, AllFound-AllMember ks g ready all)

pub new_filter-IsReady :
    (size hashes : ℕ) (s : FilterStatus)
    → 0 < size
    → is_active s ≡ true
    → IsReady (new_filter size hashes s)
unfolding new_filter
new_filter-IsReady size hashes s h a = record {
  active = a;
  positive = h;
  allocated = length-replicate size false;
}
