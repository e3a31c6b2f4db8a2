-- ===== src/Failover/Log.antt =====
-- `FailoverTable::replaceFailoverLog` of src/failover-table.cc: the log that another node sends, and
-- that it is read back as the table that was sent.
use native.Mathlib.Nat.{zero-add, suc-add}
use ep_engine.Base.{
  ℕ, zero, suc, ◌+◌, ◌*◌, ◌/◌, ◌^◌, ◌<◌, ◌≡◌, refl, ap, sym, ◌∙◌, List, [], ◌∷◌, ◌++◌, arith,
  length, take, drop, length-append, be_value, be_bytes, be_value-be_bytes, length-be_bytes,
}
use ep_engine.Failover.{
  Entry, FailoverTable, done, cache_table_json, log_entries, add_failover_log, read_log,
  replace_failover_log,
}

-- The body of the message: each uuid and sequence number in network order, newest first.
pub encode_log : List (ℕ × ℕ) → List ℕ
encode_log [] = []
encode_log ((uuid, seqno) ∷ r) = be_bytes 8 uuid ++ (be_bytes 8 seqno ++ encode_log r)

-- Every number of the table is a `uint64_t`.
abbrev pub InRange : List Entry → Type 0
InRange [] = Unit {0}
InRange (e ∷ es) = (e.vb_uuid < 2 ^ 64) × (e.by_seqno < 2 ^ 64) × InRange es

module _ {ℓ} {A : Type ℓ} where
  drop-nil : (n : ℕ) → drop {A = A} n [] ≡ []
  drop-nil zero = refl
  drop-nil (suc n) = refl

  drop-drop : (n m : ℕ) (xs : List A) → drop n (drop m xs) ≡ drop (m + n) xs
  drop-drop n zero xs = rw zero-add
  drop-drop n (suc m) [] = drop-nil n ∙ sym (drop-nil (suc m + n))
  drop-drop n (suc m) (x ∷ xs) = rw suc-add (drop-drop n m xs)

record_at : ℕ → List ℕ → Entry
record_at n bytes = record {
  vb_uuid = be_value (take 8 (drop (16 * n) bytes));
  by_seqno = be_value (take 8 (drop (16 * n + 8) bytes));
}

record_at-drop : (n : ℕ) (bytes : List ℕ) → record_at n (drop 16 bytes) ≡ record_at (suc n) bytes
unfolding record_at
record_at-drop n bytes =
    rw (drop-drop (16 * n) 16 bytes, drop-drop (16 * n + 8) 16 bytes, fact, fact')
  where
    fact : 16 + 16 * n ≡ 16 * suc n
    fact = omega arith

    fact' : 16 + (16 * n + 8) ≡ 16 * suc n + 8
    fact' = omega arith

-- The loop from the back builds the same list as one from the front would.
read_log-front :
    (n : ℕ) (bytes : List ℕ) (acc : List Entry)
    → read_log (suc n) bytes acc ≡ record_at 0 bytes ∷ read_log n (drop 16 bytes) acc
unfolding read_log record_at
read_log-front zero bytes acc = refl
read_log-front (suc n) bytes acc =
    read_log-front n bytes (record_at (suc n) bytes ∷ acc)
    ∙ ap (λ e. record_at 0 bytes ∷ read_log n (drop 16 bytes) (e ∷ acc))
        (sym (record_at-drop n bytes))

head_record :
    (e : Entry) (r : List ℕ)
    → (e.vb_uuid < 2 ^ 64)
    → (e.by_seqno < 2 ^ 64)
    → let bytes = be_bytes 8 e.vb_uuid ++ (be_bytes 8 e.by_seqno ++ r) in
      (record_at 0 bytes ≡ e) × (drop 16 bytes ≡ r)
unfolding record_at be_bytes
head_record e r hu hs = (
  λ i. record {
    vb_uuid = be_value-be_bytes 8 e.vb_uuid hu i;
    by_seqno = be_value-be_bytes 8 e.by_seqno hs i;
  },
  refl,
)

read_log-encode :
    (es : List Entry) → InRange es → read_log (length es) (encode_log (log_entries es)) [] ≡ es
unfolding log_entries encode_log
read_log-encode [] h = unfold read_log in refl
read_log-encode (e ∷ es) h =
    read_log-front (length es) (encode_log (log_entries (e ∷ es))) []
    ∙ rw (
      (head_record e (encode_log (log_entries es)) h.0 h.1).0,
      (head_record e (encode_log (log_entries es)) h.0 h.1).1,
      read_log-encode es h.2,
    )

length-encode_log : (es : List Entry) → length (encode_log (log_entries es)) ≡ 16 * length es
unfolding log_entries encode_log
length-encode_log [] = refl
length-encode_log (e ∷ es) = omega (
  arith,
  length-append (be_bytes 8 e.vb_uuid) (be_bytes 8 e.by_seqno ++ encode_log (log_entries es)),
  length-append (be_bytes 8 e.by_seqno) (encode_log (log_entries es)),
  length-be_bytes 8 e.vb_uuid,
  length-be_bytes 8 e.by_seqno,
  length-encode_log es,
)

-- A log of at least one entry that one node sends in network order makes the other node hold the
-- same entries in the same order, with the uuid of the first as its latest and the new JSON cached;
-- only the capacity stays its own.
pub replace-add :
    (t u : FailoverTable) (e : Entry) (es : List Entry)
    → t.table ≡ e ∷ es
    → InRange t.table
    → replace_failover_log (encode_log (add_failover_log t).0) u
      ≡ done (cache_table_json (record u { table = t.table; latest_uuid = e.vb_uuid }))
unfolding replace_failover_log add_failover_log
replace-add t u e es same h =
    ground (arith, length-encode_log t.table, read_log-encode t.table h, sixteenth (length t.table))
  where
    sixteenth : (n : ℕ) → 16 * n / 16 ≡ n
    sixteenth n = omega arith
