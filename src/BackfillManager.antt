-- ===== src/BackfillManager.antt =====
-- src/dcp/backfill-manager.cc: the backfills of a DCP connection and the bytes that they may read, and
-- the limit on active backfills of src/dcp/dcpconnmap.cc. A backfill is a number here; what it answers
-- when it runs and whether its stream is gone come from src/dcp/backfill.cc and are arguments. The lock
-- is released while a backfill runs, so `backfill` is two steps.
pub mod Buffer
pub mod Moves
pub mod Steps
mod Tests
use ep_engine.Base.{
  ℕ, ◌+◌, ◌-◌, ◌*◌, ◌/◌, ◌%◌, ◌^◌, Bool, true, false, not, ◌&&◌, ◌||◌, List, [], ◌∷◌, ◌++◌, ltb,
  leb, ◌==◌, if◌then◌else◌, length,
}

-- The fields of the class, `scan_*` for `scanBuffer` and `buffer_*` for `buffer`, and the two counts of
-- `DcpConnMap`. `running` holds the backfill that the task has taken, `deleted` those that were
-- deleted, and `wakes` counts the wake-ups of the task.
pub record Manager : Type 0 where
  pub active : List ℕ
  pub snoozing : List (ℕ × ℕ)
  pub pending : List ℕ
  pub running : List ℕ
  pub deleted : List ℕ
  pub scan_bytes : ℕ
  pub scan_items : ℕ
  pub scan_max_bytes : ℕ
  pub scan_max_items : ℕ
  pub buffer_bytes : ℕ
  pub buffer_max_bytes : ℕ
  pub next_read_size : ℕ
  pub full : Bool
  pub num_active_snoozing : ℕ
  pub max_active_snoozing : ℕ
  pub has_task : Bool
  pub wakes : ℕ

-- The constructor, with the limits of the configuration.
unfoldable pub new_manager : ℕ → ℕ → ℕ → ℕ → ℕ → Manager
new_manager scan_byte_limit scan_item_limit byte_limit num_active max_active = record {
  active = [];
  snoozing = [];
  pending = [];
  running = [];
  deleted = [];
  scan_bytes = 0;
  scan_items = 0;
  scan_max_bytes = scan_byte_limit;
  scan_max_items = scan_item_limit;
  buffer_bytes = 0;
  buffer_max_bytes = byte_limit;
  next_read_size = 0;
  full = false;
  num_active_snoozing = num_active;
  max_active_snoozing = max_active;
  has_task = false;
  wakes = 0;
}

-- The test of `canAddBackfillToActiveQ`; when it holds the caller has taken a place.
unfoldable pub can_add : Manager → Bool
can_add m = ltb m.num_active_snoozing m.max_active_snoozing

unfoldable pub take_place : Manager → Manager
take_place m = record m { num_active_snoozing = m.num_active_snoozing + 1 }

-- `decrNumActiveSnoozingBackfills`; the subtraction stops at 0 as the test there does.
unfoldable pub leave_place : Manager → Manager
leave_place m = record m { num_active_snoozing = m.num_active_snoozing - 1 }

-- Wakes the task if there is one.
unfoldable pub wake_up_task : Manager → Manager
wake_up_task m = if m.has_task then record m { wakes = m.wakes + 1 } else m

-- `schedule`; `dead` is the task's `isdead`.
unfoldable pub schedule : Bool → ℕ → Manager → Manager
unfolding can_add take_place wake_up_task
schedule dead b m =
    let m1 =
      if can_add m
      then record (take_place m) { active = m.active ++ b ∷ [] }
      else record m { pending = m.pending ++ b ∷ [] } in
    if m1.has_task && not dead then wake_up_task m1 else record m1 { has_task = true }

-- `bytesRead`, in 32-bit arithmetic.
unfoldable pub bytes_read : ℕ → Manager → Manager × Bool
bytes_read bytes m =
    if leb m.scan_max_items m.scan_items
    then (m, false)
    else (if leb ((m.scan_bytes + bytes) % 2 ^ 32) m.scan_max_bytes || (m.scan_bytes == 0)
        then (if (m.buffer_bytes == 0) || leb ((m.buffer_bytes + bytes) % 2 ^ 32) m.buffer_max_bytes
            then (
              record m {
                scan_bytes = (m.scan_bytes + bytes) % 2 ^ 32;
                buffer_bytes = (m.buffer_bytes + bytes) % 2 ^ 32;
                scan_items = m.scan_items + 1;
              },
              true,
            )
            else (
              record m {
                scan_bytes = ((m.scan_bytes + bytes) % 2 ^ 32 + 2 ^ 32 - bytes) % 2 ^ 32;
                full = true;
                next_read_size = bytes;
              },
              false,
            ))
        else (m, false))

-- `bytesSent`; the flag is false for the exception.
unfoldable pub bytes_sent : ℕ → Manager → Manager × Bool
unfolding wake_up_task
bytes_sent bytes m =
    let left = m.buffer_bytes - bytes in
    let m1 = record m { buffer_bytes = left } in
    let can_fit_next = leb m.next_read_size ((m.buffer_max_bytes + 2 ^ 32 - left) % 2 ^ 32) in
    let enough_cleared = ltb left (m.buffer_max_bytes * 3 % 2 ^ 32 / 4) in
    if ltb m.buffer_bytes bytes
    then (m, false)
    else (if m.full && can_fit_next && enough_cleared
        then (wake_up_task (record m1 { next_read_size = 0; full = false }), true)
        else (m1, true))

-- The first loop of `moveToActiveQueue`, on the pending backfills.
unfoldable pub move_pending : List ℕ → Manager → Manager
unfolding can_add take_place
move_pending [] m = m
move_pending (b ∷ bs) m =
    let moved =
      move_pending bs (record (take_place m) { active = m.active ++ b ∷ []; pending = bs }) in
    if can_add m then moved else m

-- `sleepTime`
abbrev pub sleep_time : ℕ
sleep_time = 1

-- The second loop, on the snoozing backfills.
unfoldable pub move_snoozing : ℕ → List (ℕ × ℕ) → Manager → Manager
move_snoozing now [] m = m
move_snoozing now ((t, b) ∷ r) m =
    let moved = move_snoozing now r (record m { active = m.active ++ b ∷ []; snoozing = r }) in
    if leb (t + sleep_time) now then moved else m

unfoldable pub move_to_active_queue : ℕ → Manager → Manager
unfolding move_pending move_snoozing
move_to_active_queue now m = let m1 = move_pending m.pending m in move_snoozing now m1.snoozing m1

-- `backfill_status_t`
pub data BackfillStatus : Type 0 where
  success finished snooze : BackfillStatus

-- The loop over the active backfills when the buffer is full: those whose stream is gone are deleted.
unfoldable pub delete_dead : (ℕ → Bool) → List ℕ → Manager → Manager
unfolding leave_place
delete_dead is_dead [] m = record m { active = [] }
delete_dead is_dead (b ∷ bs) m =
    let rest = delete_dead is_dead bs m in
    if is_dead b
    then record (leave_place rest) { deleted = b ∷ rest.deleted }
    else record rest { active = b ∷ rest.active }

-- How `backfill` begins: it answers, or runs a backfill.
pub data Begun : Type 0 where
  answers : BackfillStatus → Begun
  runs : ℕ → Begun

unfoldable pub backfill_begin : Bool → ℕ → (ℕ → Bool) → Manager → Manager × Begun
unfolding move_to_active_queue delete_dead
backfill_begin memory_too_high now is_dead m =
    let m1 = move_to_active_queue now m in
    let m2 = delete_dead is_dead m1.active m1 in
    if (length m.active == 0) && (length m.snoozing == 0) && (length m.pending == 0)
    then (record m { has_task = false }, answers finished)
    else (if memory_too_high then (m, answers snooze) else elim m1.active [
      | [] ↦ (m1, answers snooze)
      | b ∷ bs ↦
          if m1.full
          then (m2, answers (if length m2.active == length m1.active then snooze else success))
          else (record m1 { active = bs; running = b ∷ m1.running }, runs b)
    ])

-- The rest of `backfill`, after the backfill `b` has answered; `vb_exists` says whether its vbucket is
-- still there.
unfoldable pub backfill_end : ℕ → ℕ → BackfillStatus → Bool → Manager → Manager
unfolding leave_place
backfill_end now b status vb_exists m =
    let m1 = record m { scan_bytes = 0; scan_items = 0; running = [] } in
    let gone = record (leave_place m1) { deleted = b ∷ m.deleted } in
    elim status [
      | success ↦ record m1 { active = m.active ++ b ∷ [] }
      | finished ↦ gone
      | snooze ↦ if vb_exists then record m1 { snoozing = m.snoozing ++ (now, b) ∷ [] } else gone
    ]
