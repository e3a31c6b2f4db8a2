-- ===== src/Failover/Inv.antt =====
-- What holds of a failover table after any sequence of the calls of src/failover-table.h.
use mathlib.Core.Path.{subst}
use ep_engine.Base.{ℕ, zero, suc, ◌/◌, ◌<◌, ◌≡◌, refl, some, List, [], ◌∷◌, arith, length, take}
use ep_engine.Failover.CachedJson.{array}
use ep_engine.Failover.{
  Entry, FailoverTable, Outcome, done, invalid_argument, undefined, json_items, cache_table_json,
  new_entry, create_entry, erase_above, blank_table, new_table, prune_entries, remove_above,
  read_log, replace_failover_log,
}
use ep_engine.Failover.Prune.{length-remove_above}

pub data Call : Type 0 where
  creates : ℕ → ℕ → Call
  prunes : ℕ → Call
  replaces : List ℕ → Call

-- One call that changes the table, with its arguments.
unfoldable pub step : Call → FailoverTable → Outcome FailoverTable
step (creates random high) t = create_entry random high t
step (prunes n) t = prune_entries n t
step (replaces bytes) t = replace_failover_log bytes t

unfoldable pub run : List Call → FailoverTable → Outcome FailoverTable
run [] t = done t
run (c ∷ cs) t = elim (step c t) [
  | done t' ↦ run cs t'
  | invalid_argument ↦ invalid_argument
  | undefined ↦ undefined
]

-- The table has a first entry, whose uuid is the cached latest uuid, and the cached text is that of
-- the table.
pub record IsConsistent (t : FailoverTable) : Type 0 where
  pub first : Entry
  pub rest : List Entry
  pub shape : t.table ≡ first ∷ rest
  pub latest : t.latest_uuid ≡ first.vb_uuid
  pub cached : t.cached_json ≡ some (array (json_items t.table))
  pub room : 0 < t.max_entries

take_front :
    (n : ℕ) (e : Entry) (es : List Entry)
    → 0 < n
    → (rest : List Entry) × (take n (e ∷ es) ≡ e ∷ rest)
take_front zero e es h = elim h [ ]
take_front (suc n) e es h = (take n es, refl)

create_entry-IsConsistent :
    (random high : ℕ) (t t' : FailoverTable)
    → 0 < t.max_entries
    → create_entry random high t ≡ done t'
    → IsConsistent t' × (t'.max_entries ≡ t.max_entries)
unfolding create_entry cache_table_json
create_entry-IsConsistent random high t t' h ok = go (erase_above high t.table) refl
  where
    go :
        (o : Outcome (List Entry))
        → erase_above high t.table ≡ o
        → IsConsistent t' × (t'.max_entries ≡ t.max_entries)
    go (done r) e =
        let (rest, cut) = take_front t.max_entries (new_entry random high) r h in
        (
          record {
            first = new_entry random high;
            rest = rest;
            shape = ground arith;
            latest = ground arith;
            cached = ground arith;
            room = ground arith;
          },
          ground arith,
        )
    go invalid_argument e = absurd (ground arith)
    go undefined e = absurd (ground arith)

prune_entries-IsConsistent :
    (n : ℕ) (t t' : FailoverTable)
    → 0 < t.max_entries
    → prune_entries n t ≡ done t'
    → IsConsistent t' × (t'.max_entries ≡ t.max_entries)
unfolding prune_entries cache_table_json
prune_entries-IsConsistent n t t' h ok = go (remove_above n t.table) refl
  where
    go :
        (l : List Entry)
        → remove_above n t.table ≡ l
        → IsConsistent t' × (t'.max_entries ≡ t.max_entries)
    go [] e = absurd (ground (arith, length-remove_above n t.table))
    go (x ∷ l) e = (
      record {
        first = x;
        rest = l;
        shape = ground arith;
        latest = ground arith;
        cached = ground arith;
        room = ground arith;
      },
      ground arith,
    )

read_log_front :
    (n : ℕ) (bytes : List ℕ) (e : Entry) (acc : List Entry)
    → (x : Entry) × (r : List Entry) × (read_log n bytes (e ∷ acc) ≡ x ∷ r)
unfolding read_log
read_log_front zero bytes e acc = (e, acc, refl)
read_log_front (suc n) bytes e acc = read_log_front n bytes _ (e ∷ acc)

read_log_nonempty :
    (n : ℕ) (bytes : List ℕ)
    → 0 < n
    → (x : Entry) × (r : List Entry) × (read_log n bytes [] ≡ x ∷ r)
unfolding read_log
read_log_nonempty zero bytes h = elim h [ ]
read_log_nonempty (suc n) bytes h = read_log_front n bytes _ []

replace_failover_log-IsConsistent :
    (bytes : List ℕ) (t t' : FailoverTable)
    → 0 < t.max_entries
    → replace_failover_log bytes t ≡ done t'
    → IsConsistent t' × (t'.max_entries ≡ t.max_entries)
unfolding replace_failover_log cache_table_json
replace_failover_log-IsConsistent bytes t t' h ok =
    let (x, r, e) = read_log_nonempty (length bytes / 16) bytes (ground arith) in
    (
      record {
        first = x;
        rest = r;
        shape = ground arith;
        latest = ground arith;
        cached = ground arith;
        room = ground arith;
      },
      ground arith,
    )

-- Any call that returns, made on a table with room for an entry, leaves a consistent table of the
-- same capacity.
step-IsConsistent :
    (c : Call) (t t' : FailoverTable)
    → 0 < t.max_entries
    → step c t ≡ done t'
    → IsConsistent t' × (t'.max_entries ≡ t.max_entries)
unfolding step
step-IsConsistent (creates random high) t t' h ok = create_entry-IsConsistent random high t t' h ok
step-IsConsistent (prunes n) t t' h ok = prune_entries-IsConsistent n t t' h ok
step-IsConsistent (replaces bytes) t t' h ok = replace_failover_log-IsConsistent bytes t t' h ok

run_keeps :
    (cs : List Call) (t t' : FailoverTable) → IsConsistent t → run cs t ≡ done t' → IsConsistent t'
unfolding run
run_keeps [] t t' v ok = subst IsConsistent (ground arith) v
run_keeps (c ∷ cs) t t' v ok = go (λ u. run_keeps cs u t') (step c t) refl
  where
    go :
        ((u : FailoverTable) → IsConsistent u → run cs u ≡ done t' → IsConsistent t')
        → (o : Outcome FailoverTable) → step c t ≡ o
        → IsConsistent t'
    go later (done u) e = later u (step-IsConsistent c t u v.room e).0 (ground arith)
    go later invalid_argument e = absurd (ground arith)
    go later undefined e = absurd (ground arith)

-- After any sequence of calls that return, on a table made for at least one entry, the table is not
-- empty, its cached uuid is that of its first entry, and its cached JSON is that of its entries.
pub run-new_table-IsConsistent :
    (random capacity : ℕ) (cs : List Call) (t t' : FailoverTable)
    → 0 < capacity
    → new_table random capacity ≡ done t
    → run cs t ≡ done t'
    → IsConsistent t'
unfolding new_table
run-new_table-IsConsistent random capacity cs t t' h new ok =
    run_keeps cs t t' (create_entry-IsConsistent random 0 (blank_table capacity) t h new).0 ok
