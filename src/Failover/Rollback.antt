-- ===== src/Failover/Rollback.antt =====
-- `FailoverTable::needsRollback` of src/failover-table.cc: which clients are let through, and that a
-- client which follows the answers is let through in the end.

use ep_engine.Base.{
  ℕ, ◌≤◌, ◌≡◌, refl, ◌≢◌, ◌↔◌, ◌⊎◌, inl, inr, ◌||◌, none, some, List, [], ◌∷◌, ◌++◌, arith, leb,
  ◌==◌, if◌then◌else◌, Option-cases,
}
use ep_engine.Failover.{Entry, FailoverTable, adjust_snapshot_range, find_upper, needs_rollback}

abbrev pub Absent : ℕ → List Entry → Type 0
Absent uuid [] = Unit {0}
Absent uuid (e ∷ es) = (e.vb_uuid ≢ uuid) × Absent uuid es

-- The sequence number at which the branch below the entries `newer` ended.
abbrev pub branch_end : ℕ → List Entry → ℕ
branch_end cur [] = cur
branch_end cur (e ∷ es) = branch_end e.by_seqno es

-- The table knows the branch `uuid`, and that branch ended at `upper`.
pub record Shared (uuid cur : ℕ) (es : List Entry) (upper : ℕ) : Type 0 where
  pub newer : List Entry
  pub entry : Entry
  pub older : List Entry
  pub split : es ≡ newer ++ entry ∷ older
  pub owner : entry.vb_uuid ≡ uuid
  pub oldest : Absent uuid older
  pub bound : upper ≡ branch_end cur newer

pub find_upper_absent :
    (uuid cur : ℕ) (es : List Entry) → Absent uuid es → find_upper uuid cur es ≡ none
unfolding find_upper
find_upper_absent uuid cur [] h = refl
find_upper_absent uuid cur (e ∷ es) h = ground (arith, find_upper_absent uuid e.by_seqno es h.1)

absent_of_none : (uuid cur : ℕ) (es : List Entry) → find_upper uuid cur es ≡ none → Absent uuid es
unfolding find_upper
absent_of_none uuid cur [] h = tt
absent_of_none uuid cur (e ∷ es) h = ground (arith, absent_of_none uuid e.by_seqno es)

find_upper-split :
    (uuid cur : ℕ) (newer : List Entry) (e : Entry) (older : List Entry)
    → e.vb_uuid ≡ uuid
    → Absent uuid older
    → find_upper uuid cur (newer ++ e ∷ older) ≡ some (branch_end cur newer)
unfolding find_upper
find_upper-split uuid cur [] e older h a = ground (arith, find_upper_absent uuid e.by_seqno older a)
find_upper-split uuid cur (x ∷ newer) e older h a =
    ground (arith, find_upper-split uuid x.by_seqno newer e older h a)

shift_Shared :
    {uuid cur : ℕ} {e : Entry} {es : List Entry} {u : ℕ}
    → Shared uuid e.by_seqno es u
    → Shared uuid cur (e ∷ es) u
shift_Shared {e} s = record {
  newer = e ∷ s.newer;
  entry = s.entry;
  older = s.older;
  split = ground arith;
  owner = s.owner;
  oldest = s.oldest;
  bound = s.bound;
}

find_upper-Shared :
    (uuid cur : ℕ) (es : List Entry) (u : ℕ)
    → find_upper uuid cur es ≡ some u
    → Shared uuid cur es u
unfolding find_upper
find_upper-Shared uuid cur [] u h = cc
find_upper-Shared uuid cur (e ∷ es) u h = elim (Option-cases (find_upper uuid e.by_seqno es)) [
  | inl stop ↦ record {
    newer = [];
    entry = e;
    older = es;
    split = refl;
    owner = ground arith;
    oldest = absent_of_none uuid e.by_seqno es stop;
    bound = ground arith;
  }
  | inr (v, hit) ↦ shift_Shared (find_upper-Shared uuid e.by_seqno es u (ground arith))
]

find_upper_mono :
    (uuid a b : ℕ) (es : List Entry) (u : ℕ)
    → a ≤ b
    → find_upper uuid a es ≡ some u
    → (v : ℕ) × (find_upper uuid b es ≡ some v) × (u ≤ v)
unfolding find_upper
find_upper_mono uuid a b [] u h e = cc
find_upper_mono uuid a b (x ∷ es) u h e = elim (Option-cases (find_upper uuid x.by_seqno es)) [
  | inl stop ↦ (b, ground arith, ground arith)
  | inr (v, hit) ↦ (v, ground arith, ground arith)
]

-- A client that starts above zero is let through exactly when the start of its adjusted snapshot is
-- not below the purge point, its uuid is in the table, and its adjusted snapshot ends no later than
-- the branch of that uuid did. The branch is that of the oldest entry with the uuid: it ended at the
-- sequence number of the next newer entry, or is still at `cur`.
pub needs_rollback_iff :
    (start cur uuid snap_start snap_end purge : ℕ) (t : FailoverTable)
    → start ≢ 0
    → let (s, e) = adjust_snapshot_range start snap_start snap_end in
      (needs_rollback start cur uuid snap_start snap_end purge t ≡ none)
      ↔ ((purge ≤ s) × ((upper : ℕ) × Shared uuid cur t.table upper × (e ≤ upper)))
unfolding needs_rollback
needs_rollback_iff start cur uuid snap_start snap_end purge t h = (forward, backward)
  where
    r : ℕ × ℕ
    r = adjust_snapshot_range start snap_start snap_end

    forward :
        needs_rollback start cur uuid snap_start snap_end purge t ≡ none
        → (purge ≤ r.0) × ((upper : ℕ) × Shared uuid cur t.table upper × (r.1 ≤ upper))
    forward go = elim (Option-cases (find_upper uuid cur t.table)) [
      | inl miss ↦ absurd (ground arith)
      | inr (u, hit) ↦ (ground arith, (u, find_upper-Shared uuid cur t.table u hit, ground arith))
    ]

    backward :
        (purge ≤ r.0) × ((upper : ℕ) × Shared uuid cur t.table upper × (r.1 ≤ upper))
        → needs_rollback start cur uuid snap_start snap_end purge t ≡ none
    backward (p, (u, s, q)) = ground (
      arith,
      s.split,
      s.bound,
      find_upper-split uuid cur s.newer s.entry s.older s.owner s.oldest,
    )

-- The point of a demanded rollback is never past the start of the client's adjusted snapshot, and a
-- point other than zero lies on the branch that the two share, no later than that branch's end.
pub needs_rollback-bound :
    (start cur uuid snap_start snap_end purge : ℕ) (t : FailoverTable) (r : ℕ)
    → needs_rollback start cur uuid snap_start snap_end purge t ≡ some r
    → (r ≤ (adjust_snapshot_range start snap_start snap_end).0)
      × ((r ≡ 0) ⊎ ((upper : ℕ) × Shared uuid cur t.table upper × (r ≤ upper)))
unfolding needs_rollback
needs_rollback-bound start cur uuid snap_start snap_end purge t r go =
    elim (Option-cases (find_upper uuid cur t.table)) [
      | inl miss ↦ (ground arith, inl (ground arith))
      | inr (u, hit) ↦
          (ground arith, point (find_upper-Shared uuid cur t.table u hit) (ground arith))
    ]
  where
    point :
        {u : ℕ}
        → Shared uuid cur t.table u
        → (r ≡ 0) ⊎ (r ≤ u)
        → (r ≡ 0) ⊎ ((upper : ℕ) × Shared uuid cur t.table upper × (r ≤ upper))
    point s (inl z) = inl z
    point {u} s (inr l) = inr (u, s, l)

-- A client that was told to roll back to `r`, did so, and asks again from `r` with the empty snapshot
-- at `r`, is let through, unless items above `r` have been purged: then it is sent to zero, from
-- where every client is let through. The vbucket's high seqno may have grown in between.
pub rollback_settles :
    (start cur uuid snap_start snap_end purge : ℕ) (t : FailoverTable) (r later : ℕ)
    → needs_rollback start cur uuid snap_start snap_end purge t ≡ some r
    → cur ≤ later
    → (needs_rollback r later uuid r r purge t ≡ (if r == 0 || leb purge r then none else some 0))
      × (needs_rollback 0 later uuid 0 0 purge t ≡ none)
unfolding needs_rollback adjust_snapshot_range
rollback_settles start cur uuid snap_start snap_end purge t r later go grown =
    elim (Option-cases (find_upper uuid cur t.table)) [
      | inl miss ↦ (ground arith, ground arith)
      | inr (u, hit) ↦
          (ground (arith, find_upper_mono uuid cur later t.table u grown hit), ground arith)
    ]
