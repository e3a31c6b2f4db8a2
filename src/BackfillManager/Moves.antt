-- ===== src/BackfillManager/Moves.antt =====
-- The moves of backfills between the lists of src/dcp/backfill-manager.cc, counted.

use ep_engine.Base.{
  ℕ, ◌+◌, ◌-◌, ◌≤◌, ◌≡◌, refl, ◌∙◌, ap, Bool, true, List, [], ◌∷◌, ◌++◌, arith, leb, ◌==◌,
  if◌then◌else◌, length, length-append, Bool-cases, inl, inr,
}
use ep_engine.BackfillManager.{
  Manager, can_add, take_place, leave_place, move_pending, move_snoozing, sleep_time,
  move_to_active_queue, delete_dead,
}

-- How often a backfill is in a list.
abbrev pub copies : ℕ → List ℕ → ℕ
copies x [] = 0
copies x (y ∷ ys) = (if x == y then 1 else 0) + copies x ys

pub copies-append : (x : ℕ) (xs ys : List ℕ) → copies x (xs ++ ys) ≡ copies x xs + copies x ys
copies-append x [] ys = omega arith
copies-append x (z ∷ xs) ys = omega (arith, copies-append x xs ys)

abbrev pub sleepers : List (ℕ × ℕ) → List ℕ
sleepers [] = []
sleepers ((t, b) ∷ r) = b ∷ sleepers r

pub sleepers-append :
    (x : ℕ) (xs ys : List (ℕ × ℕ))
    → copies x (sleepers (xs ++ ys)) ≡ copies x (sleepers xs) + copies x (sleepers ys)
sleepers-append x [] ys = omega arith
sleepers-append x ((t, b) ∷ xs) ys = omega (arith, sleepers-append x xs ys)

-- The backfills that hold a place, and the copies of one in all the lists.
abbrev pub places : Manager → ℕ
places m = length m.active + length m.snoozing + length m.running

abbrev pub total : ℕ → Manager → ℕ
total x m =
    copies x m.active
    + copies x (sleepers m.snoozing)
    + copies x m.pending
    + copies x m.running
    + copies x m.deleted

-- What an operation may do to the counts: as many places are taken as backfills gain one, within the
-- limit, and no backfill is lost or made.
pub record Balanced (m r : Manager) : Type 0 where
  pub taken : r.num_active_snoozing + places m ≡ m.num_active_snoozing + places r
  pub limit :
      m.num_active_snoozing ≤ m.max_active_snoozing → r.num_active_snoozing ≤ r.max_active_snoozing
  pub kept : (x : ℕ) → total x r ≡ total x m
  pub same_running : r.running ≡ m.running

Balanced-trans : {m r s : Manager} → Balanced m r → Balanced r s → Balanced m s
Balanced-trans {m} {r} {s} a b = record {
  taken = omega (arith, a.taken, b.taken);
  limit = λ h. b.limit (a.limit h);
  kept = λ x. b.kept x ∙ a.kept x;
  same_running = b.same_running ∙ a.same_running;
}

Balanced-refl : (m : Manager) → Balanced m m
Balanced-refl m = record { taken = refl; limit = λ h. h; kept = λ x. refl; same_running = refl }

pending_step : ℕ → List ℕ → Manager → Manager
pending_step b bs m = record (take_place m) { active = m.active ++ b ∷ []; pending = bs }

pending_step-Balanced :
    (b : ℕ) (bs : List ℕ) (m : Manager)
    → m.pending ≡ b ∷ bs
    → can_add m ≡ true
    → Balanced m (pending_step b bs m)
unfolding pending_step can_add take_place
pending_step-Balanced b bs m h c = record {
  taken = omega (arith, length-append m.active (b ∷ []));
  limit = λ l. ground arith;
  kept = λ x. omega (arith, copies-append x m.active (b ∷ []), ap (copies x) h);
  same_running = refl;
}

move_pending-Balanced :
    (bs : List ℕ) (m : Manager) → m.pending ≡ bs → Balanced m (move_pending bs m)
unfolding move_pending pending_step
move_pending-Balanced [] m h = Balanced-refl m
move_pending-Balanced (b ∷ bs) m h = elim (Bool-cases (can_add m)) [
  | inl e ↦ rw e (
      Balanced-trans (pending_step-Balanced b bs m h e)
        (move_pending-Balanced bs (pending_step b bs m) refl))
  | inr e ↦ rw e (Balanced-refl m)
]

snoozing_step : ℕ → List (ℕ × ℕ) → Manager → Manager
snoozing_step b r m = record m { active = m.active ++ b ∷ []; snoozing = r }

snoozing_step-Balanced :
    (t b : ℕ) (r : List (ℕ × ℕ)) (m : Manager)
    → m.snoozing ≡ (t, b) ∷ r
    → Balanced m (snoozing_step b r m)
unfolding snoozing_step
snoozing_step-Balanced t b r m h = record {
  taken = omega (arith, length-append m.active (b ∷ []), ap length h);
  limit = λ l. l;
  kept = λ x. omega (arith, copies-append x m.active (b ∷ []), ap (λ z. copies x (sleepers z)) h);
  same_running = refl;
}

move_snoozing-Balanced :
    (now : ℕ) (l : List (ℕ × ℕ)) (m : Manager) → m.snoozing ≡ l → Balanced m (move_snoozing now l m)
unfolding move_snoozing snoozing_step
move_snoozing-Balanced now [] m h = Balanced-refl m
move_snoozing-Balanced now ((t, b) ∷ r) m h = elim (Bool-cases (leb (t + sleep_time) now)) [
  | inl e ↦ rw e (
      Balanced-trans (snoozing_step-Balanced t b r m h)
        (move_snoozing-Balanced now r (snoozing_step b r m) refl))
  | inr e ↦ rw e (Balanced-refl m)
]

pub move_to_active_queue-Balanced :
    (now : ℕ) (m : Manager) → Balanced m (move_to_active_queue now m)
unfolding move_to_active_queue
move_to_active_queue-Balanced now m =
    Balanced-trans (move_pending-Balanced m.pending m refl) (
      move_snoozing-Balanced now (move_pending m.pending m).snoozing (move_pending m.pending m)
        refl)

-- What deleting the dead does to the manager, whose active backfills are `l`.
record Deleted (l : List ℕ) (m r : Manager) : Type 0 where
  shorter : length r.active ≤ length l
  left : r.num_active_snoozing ≡ m.num_active_snoozing - (length l - length r.active)
  copied : (x : ℕ) → copies x r.active + copies x r.deleted ≡ copies x l + copies x m.deleted
  others :
      (r.snoozing ≡ m.snoozing)
      × (r.pending ≡ m.pending)
      × (r.running ≡ m.running)
      × (r.max_active_snoozing ≡ m.max_active_snoozing)

delete_dead-Deleted :
    (is_dead : ℕ → Bool) (l : List ℕ) (m : Manager) → Deleted l m (delete_dead is_dead l m)
unfolding delete_dead leave_place
delete_dead-Deleted is_dead [] m = record {
  shorter = omega arith;
  left = omega arith;
  copied = λ x. omega arith;
  others = (refl, refl, refl, refl);
}
delete_dead-Deleted is_dead (b ∷ bs) m =
    let d = delete_dead-Deleted is_dead bs m in
    elim (Bool-cases (is_dead b)) [
      | inl e ↦ rw e (record {
        shorter = omega (arith, d.shorter);
        left = omega (arith, d.left, d.shorter);
        copied = λ x. omega (arith, d.copied x);
        others = d.others;
      })
      | inr e ↦ rw e (record {
        shorter = omega (arith, d.shorter);
        left = omega (arith, d.left, d.shorter);
        copied = λ x. omega (arith, d.copied x);
        others = d.others;
      })
    ]

pub delete_dead-Balanced :
    (is_dead : ℕ → Bool) (m : Manager)
    → places m ≤ m.num_active_snoozing
    → Balanced m (delete_dead is_dead m.active m)
delete_dead-Balanced is_dead m h =
    let d = delete_dead-Deleted is_dead m.active m in
    let (s, p, r, x) = d.others in
    record {
      taken = omega (arith, d.left, d.shorter, ap length s, ap length r);
      limit = λ l. omega (arith, d.left, x);
      kept = λ y.
          omega (
            arith,
            d.copied y,
            ap (λ z. copies y (sleepers z)) s,
            ap (copies y) p,
            ap (copies y) r,
          );
      same_running = r;
    }
