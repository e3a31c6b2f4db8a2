-- ===== src/Failover/Prune.antt =====
-- `FailoverTable::pruneEntries` and `FailoverTable::getLastSeqnoForUUID` of src/failover-table.cc.
use mathlib.Core.Path.{subst}
use ep_engine.Base.{
  ℕ, ◌+◌, ◌≤◌, ◌<◌, ◌≡◌, refl, sym, ◌↔◌, ◌⊎◌, inl, inr, Bool, true, false, some, List, [], ◌∷◌,
  arith, ltb, length,
}
use ep_engine.Failover.{
  Entry, FailoverTable, done, invalid_argument, remove_above, count_above, prune_entries,
  last_seqno_loop, get_last_seqno_for_uuid, find_upper,
}
use ep_engine.Failover.Rollback.{Absent, find_upper_absent}
use ep_engine.Failover.Entries.{AllBelow, Descending}

-- `Kept n es rs`: going through `es`, exactly the entries at or below `n` are kept, in order.
pub data Kept (n : ℕ) : List Entry → List Entry → Type 0 where
  nothing : Kept n [] []
  keep : {e : Entry} {es rs : List Entry} → e.by_seqno ≤ n → Kept n es rs → Kept n (e ∷ es) (e ∷ rs)
  drop_it : {e : Entry} {es rs : List Entry} → n < e.by_seqno → Kept n es rs → Kept n (e ∷ es) rs

remove_above-Kept : (n : ℕ) (es : List Entry) → Kept n es (remove_above n es)
unfolding remove_above
remove_above-Kept n [] = nothing
remove_above-Kept n (e ∷ es) = go (ltb n e.by_seqno) refl (remove_above-Kept n es)
  where
    go :
        (b : Bool)
        → ltb n e.by_seqno ≡ b
        → Kept n es (remove_above n es)
        → Kept n (e ∷ es) (remove_above n (e ∷ es))
    go true h k = rw (h, remove_above) (drop_it (ground arith) k)
    go false h k = rw (h, remove_above) (keep (ground arith) k)

pub length-remove_above :
    (n : ℕ) (es : List Entry) → length (remove_above n es) + count_above n es ≡ length es
unfolding remove_above count_above
length-remove_above n [] = refl
length-remove_above n (e ∷ es) = ground (arith, length-remove_above n es)

Kept-unique : (n : ℕ) {es rs : List Entry} → Kept n es rs → rs ≡ remove_above n es
unfolding remove_above
Kept-unique n nothing = refl
Kept-unique n (keep h k) = ground (arith, Kept-unique n k)
Kept-unique n (drop_it h k) = ground (arith, Kept-unique n k)

-- A prune that returns keeps exactly the entries at or below the given sequence number, in order,
-- keeps at least one, and makes the uuid of the first one the latest.
prune_entries-Kept :
    (n : ℕ) (t t' : FailoverTable)
    → prune_entries n t ≡ done t'
    → Kept n t.table t'.table
      × ((e : Entry) × (rest : List Entry) × (t'.table ≡ e ∷ rest) × (t'.latest_uuid ≡ e.vb_uuid))
      × (t'.max_entries ≡ t.max_entries)
unfolding prune_entries
prune_entries-Kept n t t' h = (
  subst (Kept n t.table) (sym (ground arith)) (remove_above-Kept n t.table),
  first (remove_above n t.table) refl,
  ground arith,
)
  where
    first :
        (l : List Entry)
        → remove_above n t.table ≡ l
        → (e : Entry) × (rest : List Entry) × (t'.table ≡ e ∷ rest) × (t'.latest_uuid ≡ e.vb_uuid)
    first [] e = absurd (ground (arith, length-remove_above n t.table))
    first (x ∷ l) e = (x, l, ground arith, ground arith)

-- A prune throws exactly when it is asked to prune up to zero, or when no entry would be kept.
prune_entries-invalid_iff :
    (n : ℕ) (t : FailoverTable)
    → (prune_entries n t ≡ invalid_argument) ↔ ((n ≡ 0) ⊎ Kept n t.table [])
unfolding prune_entries
prune_entries-invalid_iff n t = (
  λ h. elim (none_left (remove_above n t.table) refl h) [
    | inl z ↦ inl z
    | inr e ↦ inr (subst (Kept n t.table) e (remove_above-Kept n t.table))
  ],
  λ h. elim h [
    | inl z ↦ ground arith
    | inr k ↦ ground (arith, Kept-unique n k, length-remove_above n t.table)
  ],
)
  where
    none_left :
        (l : List Entry)
        → remove_above n t.table ≡ l
        → prune_entries n t ≡ invalid_argument
        → (n ≡ 0) ⊎ (remove_above n t.table ≡ [])
    none_left [] e h = inr e
    none_left (x ∷ l) e h = ground (arith, length-remove_above n t.table)

Kept-AllBelow : {n : ℕ} (m : ℕ) {es rs : List Entry} → Kept n es rs → AllBelow m es → AllBelow m rs
Kept-AllBelow m nothing h = tt
Kept-AllBelow m (keep l k) h = (h.0, Kept-AllBelow m k h.1)
Kept-AllBelow m (drop_it l k) h = Kept-AllBelow m k h.1

Kept-Descending : {n : ℕ} {es rs : List Entry} → Kept n es rs → Descending es → Descending rs
Kept-Descending nothing h = tt
Kept-Descending (keep l k) h = (Kept-AllBelow _ k h.0, Kept-Descending k h.1)
Kept-Descending (drop_it l k) h = Kept-Descending k h.1

-- A prune that returns leaves a table in order if it was in order.
prune_entries-Descending :
    (n : ℕ) (t t' : FailoverTable)
    → prune_entries n t ≡ done t'
    → Descending t.table
    → Descending t'.table
prune_entries-Descending n t t' h d = Kept-Descending (prune_entries-Kept n t t' h).0 d

-- No uuid stands in the table twice.
abbrev pub Distinct : List Entry → Type 0
Distinct [] = Unit {0}
Distinct (e ∷ es) = Absent e.vb_uuid es × Distinct es

last_seqno_loop-find_upper :
    (uuid : ℕ) (prev : Entry) (es : List Entry) (s : ℕ)
    → Distinct es
    → last_seqno_loop uuid prev es ≡ some s
    → find_upper uuid prev.by_seqno es ≡ some s
unfolding last_seqno_loop find_upper
last_seqno_loop-find_upper uuid prev [] s d h = cc
last_seqno_loop-find_upper uuid prev (e ∷ es) s d h =
    ground (arith, last_seqno_loop-find_upper uuid e es s d.1, find_upper_absent uuid e.by_seqno es)

-- Where no uuid stands in the table twice, the last sequence number that the table gives for a uuid
-- is the bound that the rollback decision uses for it.
get_last_seqno-find_upper :
    (uuid cur s : ℕ) (t : FailoverTable)
    → Distinct t.table
    → get_last_seqno_for_uuid uuid t ≡ done (some s)
    → find_upper uuid cur t.table ≡ some s
unfolding get_last_seqno_for_uuid find_upper
get_last_seqno-find_upper uuid cur s t = go t.table refl
  where
    go :
        (es : List Entry)
        → t.table ≡ es
        → Distinct t.table
        → get_last_seqno_for_uuid uuid t ≡ done (some s)
        → find_upper uuid cur t.table ≡ some s
    go [] e d h = absurd (ground arith)
    go (x ∷ es) e d h = ground (arith, last_seqno_loop-find_upper uuid x es s)
