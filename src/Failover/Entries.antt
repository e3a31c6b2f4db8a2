-- ===== src/Failover/Entries.antt =====
-- The operations of src/failover-table.cc that add and remove entries: `createEntry`,
-- `pruneEntries` and `getLastSeqnoForUUID`.
use ep_engine.Base.{
  ℕ, zero, suc, ◌/◌, ◌^◌, ◌≤◌, ◌<◌, ◌≡◌, refl, ap, ◌∙◌, List, [], ◌∷◌, arith, ltb, if◌then◌else◌,
  take,
}
use ep_engine.Failover.{
  Entry, FailoverTable, Outcome, done, invalid_argument, undefined, map_outcome, erase_above,
  new_entry, create_entry, cache_table_json,
}

abbrev pub AllBelow : ℕ → List Entry → Type 0
AllBelow n [] = Unit {0}
AllBelow n (e ∷ es) = (e.by_seqno ≤ n) × AllBelow n es

-- Newest first: the sequence numbers do not grow along the table.
abbrev pub Descending : List Entry → Type 0
Descending [] = Unit {0}
Descending (e ∷ es) = AllBelow e.by_seqno es × Descending es

erase_above_below : (n : ℕ) (es : List Entry) → AllBelow n es → erase_above n es ≡ done es
unfolding erase_above
erase_above_below n [] h = refl
erase_above_below n (e ∷ []) h = ground arith
erase_above_below n (e ∷ e' ∷ es) h = ground (arith, erase_above_below n (e' ∷ es) h.1)

-- `createEntry` on a table of which at most the newest entry is above the new sequence number, that
-- entry not being the only one: exactly the entries above it go, the new entry with the upper 48
-- bits of the random number comes in front, its uuid is the latest one, and the oldest entries
-- beyond the capacity are cut off.
pub create_entry_lem :
    (random high : ℕ) (t : FailoverTable) (e e' : Entry) (es : List Entry)
    → t.table ≡ e ∷ e' ∷ es
    → AllBelow high (e' ∷ es)
    → create_entry random high t
      ≡ done (
          cache_table_json (record t {
            table =
                take t.max_entries
                  (new_entry random high ∷ (if ltb high e.by_seqno then e' ∷ es else e ∷ e' ∷ es));
            latest_uuid = random / 2 ^ 16;
          }))
unfolding create_entry erase_above
create_entry_lem random high t e e' es same below =
    ground (arith, erase_above_below high (e' ∷ es) below, erase_above_below high es below.1)

head_of_outcome :
    (e' : Entry) (o : Outcome (List Entry)) (r : List Entry)
    → map_outcome (λ r. e' ∷ r) o ≡ done r
    → (rest : List Entry) × (r ≡ e' ∷ rest)
head_of_outcome e' (done rest) r h = (rest, ground arith)
head_of_outcome e' invalid_argument r h = cc
head_of_outcome e' undefined r h = cc

create_entry-front :
    (random high : ℕ) (t t' : FailoverTable) (r : List Entry)
    → erase_above high t.table ≡ done r
    → create_entry random high t ≡ done t'
    → t'.table ≡ take t.max_entries (new_entry random high ∷ r)
unfolding create_entry
create_entry-front random high t t' r e h = ground arith

erase_above_second :
    (high : ℕ) (e e' : Entry) (es : List Entry)
    → high < e.by_seqno
    → erase_above high (e ∷ e' ∷ es) ≡ map_outcome (λ r. e' ∷ r) (erase_above high es)
unfolding erase_above
erase_above_second high e e' es h = ground arith

create_entry-erased :
    (random high : ℕ) (t t' : FailoverTable)
    → create_entry random high t ≡ done t'
    → (r : List Entry) × (erase_above high t.table ≡ done r)
unfolding create_entry
create_entry-erased random high t t' h = go (erase_above high t.table) refl
  where
    go :
        (o : Outcome (List Entry))
        → erase_above high t.table ≡ o
        → (r : List Entry) × (erase_above high t.table ≡ done r)
    go (done r) e = (r, e)
    go invalid_argument e = absurd (ground arith)
    go undefined e = absurd (ground arith)

-- When the two newest entries are both above the new sequence number, the loop of `createEntry`
-- steps over the second: if the call returns at all, that entry of a diverged branch stays right
-- behind the new one, and the sequence numbers of the table are out of order.
pub create_entry_keeps_diverged :
    (random high : ℕ) (t t' : FailoverTable) (e e' : Entry) (es : List Entry)
    → t.table ≡ e ∷ e' ∷ es
    → high < e.by_seqno
    → high < e'.by_seqno
    → 2 ≤ t.max_entries
    → create_entry random high t ≡ done t'
    → ((rest : List Entry) × (t'.table ≡ new_entry random high ∷ e' ∷ rest)) × ¬ Descending t'.table
create_entry_keeps_diverged random high t t' e e' es same h h' room ok =
    ((rest.0, shape), λ d. out_of_order t'.table shape d)
  where
    erased : (r : List Entry) × (erase_above high t.table ≡ done r)
    erased = create_entry-erased random high t t' ok

    second : (r : List Entry) × (erased.0 ≡ e' ∷ r)
    second =
        head_of_outcome e' (erase_above high es) erased.0
          (cc (erased.1, same, erase_above_second high e e' es h))

    cut :
        (n : ℕ)
        → 2 ≤ n
        → (x : Entry) (r : List Entry) → (rest : List Entry) × (take n (x ∷ e' ∷ r) ≡ x ∷ e' ∷ rest)
    cut zero l x r = absurd (omega arith)
    cut (suc zero) l x r = absurd (omega arith)
    cut (suc (suc n)) l x r = (take n r, refl)

    rest :
        (rest : List Entry) × (take t.max_entries (new_entry random high ∷ e' ∷ second.0)
          ≡ new_entry random high ∷ e' ∷ rest)
    rest = cut t.max_entries room _ second.0

    shape : t'.table ≡ new_entry random high ∷ e' ∷ rest.0
    shape =
        create_entry-front random high t t' erased.0 erased.1 ok
        ∙ ap (λ l. take t.max_entries (new_entry random high ∷ l)) second.1
        ∙ rest.1

    out_of_order : (l : List Entry) → l ≡ new_entry random high ∷ e' ∷ rest.0 → Descending l → ⊥
    out_of_order l s d = ground arith
