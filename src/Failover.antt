-- ===== src/Failover.antt =====
-- src/failover-table.h and src/failover-table.cc: the failover table of a vbucket, newest entry
-- first. `Undefined` stands for an operation on an iterator that the C++ leaves undefined. The
-- mutex makes each method one step, so it has no counterpart here. The random generator's value is
-- an argument of the methods that draw one.
pub mod CachedJson
pub mod Load
pub mod Rollback
pub mod Entries
pub mod Prune
pub mod Inv
pub mod Log
mod Tests
use ep_engine.Base.{
  ℕ, zero, suc, ◌+◌, ◌-◌, ◌*◌, ◌/◌, ◌%◌, ◌^◌, Bool, true, false, not, ◌&&◌, ◌||◌, Option, none,
  some, List, [], ◌∷◌, ◌++◌, ltb, leb, ◌==◌, if◌then◌else◌, length, take, drop, be_value,
}
use CachedJson.{Json, JsonItem, array, object, number, to_double}

-- `failover_entry_t`
pub record Entry : Type 0 where
  pub vb_uuid : ℕ
  pub by_seqno : ℕ

-- The fields of the class. `cached_json` is the value whose unformatted print `cachedTableJSON` is,
-- `none` while it is the empty text.
pub record FailoverTable : Type 0 where
  pub table : List Entry
  pub max_entries : ℕ
  pub latest_uuid : ℕ
  pub cached_json : Option Json

pub data Outcome {ℓ} (A : Type ℓ) : Type ℓ where
  done : A → Outcome A
  invalid_argument : Outcome A
  undefined : Outcome A

abbrev pub map_outcome {ℓ κ} : {A : Type ℓ} {B : Type κ} → (A → B) → Outcome A → Outcome B
map_outcome f (done a) = done (f a)
map_outcome f invalid_argument = invalid_argument
map_outcome f undefined = undefined

-- What `cacheTableJSON` builds: an array of objects with the members "id" and "seq".
pub json_items : List Entry → List JsonItem
json_items [] = []
json_items (e ∷ es) =
    object (number (to_double e.vb_uuid)) (number (to_double e.by_seqno)) ∷ json_items es

-- `cacheTableJSON`
pub cache_table_json : FailoverTable → FailoverTable
cache_table_json t = record t { cached_json = some (array (json_items t.table)) }

-- `getLatestEntry`: `front()` of an empty list is undefined.
get_latest_entry : FailoverTable → Outcome Entry
get_latest_entry t = elim t.table [ [] ↦ undefined | e ∷ es ↦ done e ]

-- `getLatestUUID`
get_latest_uuid : FailoverTable → ℕ
get_latest_uuid t = t.latest_uuid

-- The loop of `createEntry`. An erasure moves the iterator to the next element and the loop's `++`
-- then steps over that element; at the end of the list it increments `end()`.
pub erase_above : ℕ → List Entry → Outcome (List Entry)
erase_above high [] = done []
erase_above high (e ∷ []) = if ltb high e.by_seqno then undefined else done (e ∷ [])
erase_above high (e ∷ e' ∷ es) =
    let skipped = map_outcome (λ r. e' ∷ r) (erase_above high es) in
    let kept = map_outcome (λ r. e ∷ r) (erase_above high (e' ∷ es)) in
    if ltb high e.by_seqno then skipped else kept

-- The entry that `createEntry` adds, with the upper 48 bits of the generator's value.
abbrev pub new_entry : ℕ → ℕ → Entry
new_entry random high_seqno = record { vb_uuid = random / 2 ^ 16; by_seqno = high_seqno }

-- `createEntry`; `random` is what the generator returns.
pub create_entry : ℕ → ℕ → FailoverTable → Outcome FailoverTable
unfolding cache_table_json erase_above
create_entry random high_seqno t = map_outcome insert (erase_above high_seqno t.table)
  where
    insert : List Entry → FailoverTable
    insert rest = cache_table_json (record t {
      table = take t.max_entries (new_entry random high_seqno ∷ rest);
      latest_uuid = random / 2 ^ 16;
    })

-- The members before the body of the constructor runs.
abbrev pub blank_table : ℕ → FailoverTable
blank_table capacity = record {
  table = [];
  max_entries = capacity;
  latest_uuid = 0;
  cached_json = none;
}

-- The constructor from a capacity.
pub new_table : ℕ → ℕ → Outcome FailoverTable
unfolding create_entry
new_table random capacity = create_entry random 0 (blank_table capacity)

pub last_seqno_loop : ℕ → Entry → List Entry → Option ℕ
last_seqno_loop uuid prev [] = none
last_seqno_loop uuid prev (e ∷ es) =
    if e.vb_uuid == uuid then some prev.by_seqno else last_seqno_loop uuid e es

-- `getLastSeqnoForUUID`: the number is what goes through `seqno`, `none` is the result false. The
-- method reads `begin()` without a test.
pub get_last_seqno_for_uuid : ℕ → FailoverTable → Outcome (Option ℕ)
unfolding last_seqno_loop
get_last_seqno_for_uuid uuid t = elim t.table [
  | [] ↦ undefined
  | e ∷ es ↦ done (if e.vb_uuid == uuid then none else last_seqno_loop uuid e es)
]

-- `adjustSnapshotRange`: the pair is (snap_start_seqno, snap_end_seqno).
pub adjust_snapshot_range : ℕ → ℕ → ℕ → ℕ × ℕ
adjust_snapshot_range start snap_start snap_end =
    if start == snap_end
    then (start, snap_end)
    else (if start == snap_start then (snap_start, start) else (snap_start, snap_end))

-- The loop over the reversed list: the entry that matches, and the upper bound that the next newer
-- entry gives. `newer` is the entry in front of the rest, if any.
pub find_upper : ℕ → ℕ → List Entry → Option ℕ
find_upper uuid upper [] = none
find_upper uuid upper (e ∷ es) =
    let older = find_upper uuid e.by_seqno es in
    elim older [ some u ↦ some u | none ↦ if e.vb_uuid == uuid then some upper else none ]

-- The last part of `needsRollback`, on the adjusted snapshot and the match in the table.
rollback_point : ℕ → ℕ → Option ℕ → Option ℕ
rollback_point s e none = some 0
rollback_point s e (some upper) =
    if leb e upper then none else (if ltb upper s then some upper else some s)

-- `needsRollback`: `none` is the result false, `some r` is true with `r` in `rollback_seqno`.
pub needs_rollback : ℕ → ℕ → ℕ → ℕ → ℕ → ℕ → FailoverTable → Option ℕ
unfolding adjust_snapshot_range rollback_point
needs_rollback start cur uuid snap_start snap_end purge t =
    let (s, e) = adjust_snapshot_range start snap_start snap_end in
    if start == 0
    then none
    else (if ltb s purge then some 0 else rollback_point s e (find_upper uuid cur t.table))

-- `std::list::remove_if` and `std::count_if` with the predicate `seqno_too_high`.
pub remove_above : ℕ → List Entry → List Entry
remove_above seqno [] = []
remove_above seqno (e ∷ es) =
    let rest = remove_above seqno es in if ltb seqno e.by_seqno then rest else e ∷ rest

pub count_above : ℕ → List Entry → ℕ
count_above seqno [] = 0
count_above seqno (e ∷ es) =
    let rest = count_above seqno es in if ltb seqno e.by_seqno then suc rest else rest

abbrev front_uuid : ℕ → List Entry → ℕ
front_uuid u [] = u
front_uuid u (e ∷ es) = e.vb_uuid

-- `pruneEntries`. The difference of the two sizes is a `size_t`.
pub prune_entries : ℕ → FailoverTable → Outcome FailoverTable
unfolding remove_above count_above cache_table_json
prune_entries seqno t =
    if seqno == 0
    then invalid_argument
    else (if ltb (length t.table - count_above seqno t.table) 1
        then invalid_argument
        else done (
            cache_table_json (record t {
              table = remove_above seqno t.table;
              latest_uuid = front_uuid t.latest_uuid (remove_above seqno t.table);
            })))

pub log_entries : List Entry → List (ℕ × ℕ)
log_entries [] = []
log_entries (e ∷ es) = (e.vb_uuid, e.by_seqno) ∷ log_entries es

-- `addFailoverLog`: what is handed to the callback, and the count.
pub add_failover_log : FailoverTable → List (ℕ × ℕ) × ℕ
unfolding log_entries
add_failover_log t = (log_entries t.table, length t.table)

-- The loop of `replaceFailoverLog` reads the records from the last to the first and pushes each to
-- the front. `records` counts those left; `length` is 16 times that.
pub read_log : ℕ → List ℕ → List Entry → List Entry
read_log zero bytes acc = acc
read_log (suc n) bytes acc = read_log n bytes (entry ∷ acc)
  where
    entry : Entry
    entry = record {
      vb_uuid = be_value (take 8 (drop (16 * n) bytes));
      by_seqno = be_value (take 8 (drop (16 * n + 8) bytes));
    }

-- `replaceFailoverLog`
pub replace_failover_log : List ℕ → FailoverTable → Outcome FailoverTable
unfolding read_log cache_table_json
replace_failover_log bytes t =
    if not (length bytes % 16 == 0) || (length bytes == 0)
    then invalid_argument
    else (let entries = read_log (length bytes / 16) bytes [] in
        done (
          cache_table_json
            (record t { table = entries; latest_uuid = front_uuid t.latest_uuid entries })))
