-- ===== src/BackfillManager/Tests.antt =====
-- Runs of the backfill manager, and the theorems at concrete managers.
use ep_engine.Base.{◌≡◌, refl, true, false, [], ◌∷◌, arith}
use ep_engine.BackfillManager.{
  Manager, new_manager, can_add, take_place, schedule, bytes_read, wake_up_task, snooze,
  move_to_active_queue, move_pending, move_snoozing, backfill_begin, backfill_end,
}
use ep_engine.BackfillManager.Steps.{
  start, schedules, begins, ends, IsAccounted, Reached-IsAccounted,
}

-- A manager whose connection has read 900 of its 1000 bytes.
abbrev reading : Manager
reading = record {
  active = [];
  snoozing = [];
  pending = [];
  running = 7 ∷ [];
  deleted = [];
  scan_bytes = 300;
  scan_items = 3;
  scan_max_bytes = 4096;
  scan_max_items = 100;
  buffer_bytes = 900;
  buffer_max_bytes = 1000;
  next_read_size = 0;
  full = false;
  num_active_snoozing = 1;
  max_active_snoozing = 4;
  has_task = true;
  wakes = 0;
}

-- 200 more bytes do not fit.
filled_run : bytes_read 200 reading ≡ (record reading { full = true; next_read_size = 200 }, false)
unfolding bytes_read
filled_run = refl

-- An item of 2000 bytes waits for a buffer of 1000.
abbrev waiting : Manager
waiting = record reading { full = true; next_read_size = 2000 }

abbrev at_start : Manager
at_start = new_manager 4096 100 1000 1 2

abbrev two_scheduled : Manager
two_scheduled = schedule false 8 (schedule false 7 at_start)

abbrev taken_up : Manager
taken_up = (backfill_begin false 50 (λ b. false) two_scheduled).0

not_running : two_scheduled.running ≡ []
unfolding schedule new_manager wake_up_task can_add take_place
not_running = refl

seven_runs : taken_up.running ≡ 7 ∷ []
unfolding backfill_begin move_to_active_queue move_pending move_snoozing schedule new_manager
    wake_up_task can_add take_place
seven_runs = refl

Reached-IsAccounted_example : IsAccounted 1 (8 ∷ 7 ∷ []) (backfill_end 52 7 snooze true taken_up)
Reached-IsAccounted_example =
    Reached-IsAccounted 4096 100 1000 1 2 (8 ∷ 7 ∷ []) (backfill_end 52 7 snooze true taken_up)
      (omega arith)
      (ends 52 7 snooze true
        (begins false 50 (λ b. false) (schedules false 8 (schedules false 7 start)) not_running)
        seven_runs)
