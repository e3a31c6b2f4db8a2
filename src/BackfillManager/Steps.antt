-- ===== src/BackfillManager/Steps.antt =====
-- Every run of the backfill manager of src/dcp/backfill-manager.cc, with one task: places are taken for
-- the backfills that are active, snoozing or running, and no backfill is lost.

use ep_engine.Base.{ℕ, ◌+◌, ◌≤◌, ◌≡◌, ◌∙◌, ap, Bool, List, [], ◌∷◌, arith, length, length-append}
use ep_engine.BackfillManager.{
  Manager, new_manager, can_add, take_place, leave_place, wake_up_task, schedule, bytes_read,
  bytes_sent, move_to_active_queue, delete_dead, BackfillStatus, backfill_begin, backfill_end,
}
use ep_engine.BackfillManager.Moves.{
  copies, copies-append, sleepers-append, places, total, Balanced, move_to_active_queue-Balanced,
  delete_dead-Balanced,
}

-- The managers that are reached from `m0`, with the backfills that were scheduled.
pub data Reached (m0 : Manager) : List ℕ → Manager → Type 0 where
  start : Reached m0 [] m0
  schedules :
      {xs : List ℕ} {m : Manager} (dead : Bool) (b : ℕ)
      → Reached m0 xs m
      → Reached m0 (b ∷ xs) (schedule dead b m)
  reads :
      {xs : List ℕ} {m : Manager} (bytes : ℕ)
      → Reached m0 xs m
      → Reached m0 xs (bytes_read bytes m).0
  sends :
      {xs : List ℕ} {m : Manager} (bytes : ℕ)
      → Reached m0 xs m
      → Reached m0 xs (bytes_sent bytes m).0
  begins :
      {xs : List ℕ} {m : Manager} (memory_too_high : Bool) (now : ℕ) (is_dead : ℕ → Bool)
      → Reached m0 xs m
      → m.running ≡ []
      → Reached m0 xs (backfill_begin memory_too_high now is_dead m).0
  ends :
      {xs : List ℕ} {m : Manager} (now b : ℕ) (status : BackfillStatus) (vb_exists : Bool)
      → Reached m0 xs m
      → m.running ≡ b ∷ []
      → Reached m0 xs (backfill_end now b status vb_exists m)

-- `others` places are taken by the other connections.
pub record IsAccounted (others : ℕ) (xs : List ℕ) (m : Manager) : Type 0 where
  pub counted : m.num_active_snoozing ≡ others + places m
  pub limited : m.num_active_snoozing ≤ m.max_active_snoozing
  pub none_lost : (x : ℕ) → total x m ≡ copies x xs

Balanced-IsAccounted :
    (others : ℕ) (xs : List ℕ) (m r : Manager)
    → IsAccounted others xs m
    → Balanced m r
    → IsAccounted others xs r
Balanced-IsAccounted others xs m r a b = record {
  counted = omega (arith, a.counted, b.taken);
  limited = b.limit a.limited;
  none_lost = λ x. b.kept x ∙ a.none_lost x;
}

schedule-IsAccounted :
    (others : ℕ) (xs : List ℕ) (m : Manager) (dead : Bool) (b : ℕ)
    → IsAccounted others xs m
    → IsAccounted others (b ∷ xs) (schedule dead b m)
unfolding schedule can_add take_place wake_up_task
schedule-IsAccounted others xs m dead b a = record {
  counted = ground (arith, a.counted, length-append m.active (b ∷ []));
  limited = ground (arith, a.limited);
  none_lost = λ x.
      ground (
        arith,
        a.none_lost x,
        copies-append x m.active (b ∷ []),
        copies-append x m.pending (b ∷ []),
      );
}

bytes_read-IsAccounted :
    (others : ℕ) (xs : List ℕ) (m : Manager) (bytes : ℕ)
    → IsAccounted others xs m
    → IsAccounted others xs (bytes_read bytes m).0
unfolding bytes_read
bytes_read-IsAccounted others xs m bytes a = record {
  counted = ground (arith, a.counted);
  limited = ground (arith, a.limited);
  none_lost = λ x. ground (arith, a.none_lost x);
}

bytes_sent-IsAccounted :
    (others : ℕ) (xs : List ℕ) (m : Manager) (bytes : ℕ)
    → IsAccounted others xs m
    → IsAccounted others xs (bytes_sent bytes m).0
unfolding bytes_sent wake_up_task
bytes_sent-IsAccounted others xs m bytes a = record {
  counted = ground (arith, a.counted);
  limited = ground (arith, a.limited);
  none_lost = λ x. ground (arith, a.none_lost x);
}

backfill_begin-IsAccounted :
    (others : ℕ) (xs : List ℕ) (m : Manager) (high : Bool) (now : ℕ) (is_dead : ℕ → Bool)
    → IsAccounted others xs m
    → IsAccounted others xs (backfill_begin high now is_dead m).0
unfolding backfill_begin
backfill_begin-IsAccounted others xs m high now is_dead a =
    let m1 = move_to_active_queue now m in
    let a1 = Balanced-IsAccounted others xs m m1 a (move_to_active_queue-Balanced now m) in
    let a2 =
      Balanced-IsAccounted others xs m1 (delete_dead is_dead m1.active m1) a1
        (delete_dead-Balanced is_dead m1 (omega (arith, a1.counted))) in
    record {
      counted = ground (arith, a.counted, a1.counted, a2.counted);
      limited = ground (arith, a.limited, a1.limited, a2.limited);
      none_lost = λ x. ground (arith, a.none_lost x, a1.none_lost x, a2.none_lost x);
    }

backfill_end-IsAccounted :
    (others : ℕ) (xs : List ℕ) (m : Manager) (now b : ℕ) (status : BackfillStatus)
    (vb_exists : Bool)
    → IsAccounted others xs m
    → m.running ≡ b ∷ []
    → IsAccounted others xs (backfill_end now b status vb_exists m)
unfolding backfill_end leave_place
backfill_end-IsAccounted others xs m now b status vb_exists a h = record {
  counted = ground (
    arith,
    a.counted,
    ap length h,
    length-append m.active (b ∷ []),
    length-append m.snoozing ((now, b) ∷ []),
  );
  limited = ground (arith, a.limited);
  none_lost = λ x. ground (
    arith,
    a.none_lost x,
    ap (copies x) h,
    copies-append x m.active (b ∷ []),
    sleepers-append x m.snoozing ((now, b) ∷ []),
  );
}

-- In every run from a new manager, with one task and within the limit at the start, the count of the
-- connection map is that of the other connections and one for each backfill that is active, snoozing
-- or running, it stays within its limit, and every scheduled backfill is in exactly one of the lists or
-- has been deleted.
pub Reached-IsAccounted :
    (scan_bytes scan_items bytes others max_active : ℕ) (xs : List ℕ) (m : Manager)
    → others ≤ max_active
    → Reached (new_manager scan_bytes scan_items bytes others max_active) xs m
    → IsAccounted others xs m
unfolding new_manager
Reached-IsAccounted s i bytes others max xs m h start = record {
  counted = omega arith;
  limited = h;
  none_lost = λ x. omega arith;
}
Reached-IsAccounted s i bytes others max xs m h (schedules {xs = ys} {m = n} dead b r) =
    schedule-IsAccounted others ys n dead b (Reached-IsAccounted s i bytes others max ys n h r)
Reached-IsAccounted s i bytes others max xs m h (reads {m = n} k r) =
    bytes_read-IsAccounted others xs n k (Reached-IsAccounted s i bytes others max xs n h r)
Reached-IsAccounted s i bytes others max xs m h (sends {m = n} k r) =
    bytes_sent-IsAccounted others xs n k (Reached-IsAccounted s i bytes others max xs n h r)
Reached-IsAccounted s i bytes others max xs m h (begins {m = n} high now is_dead r e) =
    backfill_begin-IsAccounted others xs n high now is_dead
      (Reached-IsAccounted s i bytes others max xs n h r)
Reached-IsAccounted s i bytes others max xs m h (ends {m = n} now b status vb_exists r e) =
    backfill_end-IsAccounted others xs n now b status vb_exists
      (Reached-IsAccounted s i bytes others max xs n h r) e
