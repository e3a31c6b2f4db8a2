-- ===== src/Conflict/Order.antt =====
-- `ConflictResolution::resolve` of src/conflict_resolution.cc against an order on the meta data.
use ep_engine.Base.{
  ℕ, ◌<◌, ◌≡◌, ◌↔◌, ◌⊎◌, inl, inr, Bool, true, false, ◌&&◌, List, [], ◌∷◌, arith, if◌then◌else◌,
  Bool-cases,
}
use ep_engine.Conflict.{
  MetaData, Mode, is_lww, StoredValue, is_temp_non_existent, resolve_lww, resolve_rev_seqno,
  resolve,
}

-- Lexicographic order.
abbrev pub Precedes : List ℕ → List ℕ → Type 0
Precedes [] ys = ⊥
Precedes (x ∷ xs) [] = ⊥
Precedes (x ∷ xs) (y ∷ ys) = (x < y) ⊎ ((x ≡ y) × Precedes xs ys)

-- The fields that count, in the order in which they are compared.
abbrev pub ranking : Bool → Bool → MetaData → List ℕ
ranking lww deletion m =
    let tail = if deletion then [] else m.exptime ∷ m.flags ∷ [] in
    if lww then m.cas ∷ m.rev_seqno ∷ tail else m.rev_seqno ∷ m.cas ∷ tail

-- Whether the comparison begins with the cas.
abbrev pub by_cas : Bool → StoredValue → Mode → Bool
by_cas time_sync v mode = time_sync && is_lww v.mode && is_lww mode

resolve_lww_iff :
    (v : StoredValue) (meta : MetaData) (deletion : Bool)
    → (resolve_lww v meta deletion ≡ true) ↔ (
        (is_temp_non_existent v ≡ true)
        ⊎ Precedes (ranking true deletion v.meta) (ranking true deletion meta))
unfolding resolve_lww
resolve_lww_iff v meta true = ground arith
resolve_lww_iff v meta false = ground arith

resolve_rev_seqno_iff :
    (v : StoredValue) (meta : MetaData) (deletion : Bool)
    → (resolve_rev_seqno v meta deletion ≡ true) ↔ (
        (is_temp_non_existent v ≡ true)
        ⊎ Precedes (ranking false deletion v.meta) (ranking false deletion meta))
unfolding resolve_rev_seqno
resolve_rev_seqno_iff v meta true = ground arith
resolve_rev_seqno_iff v meta false = ground arith

-- A document that arrives replaces the local one exactly if that is a placeholder for a key that does
-- not exist, or ranks below it: by cas, revision, expiry and flags if the vbucket's time is
-- synchronised and both documents are in last-write-wins mode, and else by revision, cas, expiry and
-- flags. Of a deletion only the first two fields count.
pub resolve_iff :
    (time_sync : Bool) (v : StoredValue) (meta : MetaData) (deletion : Bool) (mode : Mode)
    → (resolve time_sync v meta deletion mode ≡ true) ↔ (
        (is_temp_non_existent v ≡ true)
        ⊎ Precedes
            (ranking (by_cas time_sync v mode) deletion v.meta)
            (ranking (by_cas time_sync v mode) deletion meta))
unfolding resolve
resolve_iff time_sync v meta deletion mode = elim (Bool-cases (by_cas time_sync v mode)) [
  | inl e ↦ rw e (resolve_lww_iff v meta deletion)
  | inr e ↦ rw e (resolve_rev_seqno_iff v meta deletion)
]

-- The meta data that a node holds after a mutation has arrived.
abbrev pub settled : Bool → StoredValue → StoredValue → MetaData
settled time_sync here there =
    if resolve time_sync here there.meta false there.mode then there.meta else here.meta

settled_lww :
    (a b : StoredValue)
    → is_temp_non_existent a ≡ false
    → is_temp_non_existent b ≡ false
    → (if resolve_lww a b.meta false then b.meta else a.meta)
      ≡ (if resolve_lww b a.meta false then a.meta else b.meta)
unfolding resolve_lww
settled_lww a b i j = ground arith

settled_rev_seqno :
    (a b : StoredValue)
    → is_temp_non_existent a ≡ false
    → is_temp_non_existent b ≡ false
    → (if resolve_rev_seqno a b.meta false then b.meta else a.meta)
      ≡ (if resolve_rev_seqno b a.meta false then a.meta else b.meta)
unfolding resolve_rev_seqno
settled_rev_seqno a b i j = ground arith

-- Two nodes that send each other their mutations of a key end with the same meta data, whatever modes
-- the documents are in, if the vbuckets agree on the time synchronisation and neither document is a
-- placeholder.
pub settled_agree :
    (time_sync : Bool) (a b : StoredValue)
    → is_temp_non_existent a ≡ false
    → is_temp_non_existent b ≡ false
    → settled time_sync a b ≡ settled time_sync b a
unfolding resolve
settled_agree time_sync a b i j = elim (Bool-cases (time_sync && is_lww a.mode && is_lww b.mode)) [
  | inl e ↦ ground (arith, settled_lww a b i j)
  | inr e ↦ ground (arith, settled_rev_seqno a b i j)
]
