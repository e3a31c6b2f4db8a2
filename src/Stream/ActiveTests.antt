-- ===== src/Stream/ActiveTests.antt =====
-- Runs of a producer's stream and of a notifier at fixed inputs (src/dcp/stream.cc).
use ep_engine.Base.{ℕ, ◌+◌, ◌-◌, ◌≡◌, ◌≢◌, refl, true, false, [], ◌∷◌, none, some}
use ep_engine.Stream.{
  pending, backfilling, in_memory, dead, EndStatus, ok, Mutation, key_value, stream_end_response,
  mutation_response, push, pop, notify, empty_queue, mutation_size,
}
use ep_engine.Stream.Active.{Engine, Active}
use ep_engine.Stream.Active.Events.{handle_slow_stream}
use ep_engine.Stream.Active.Backfill.{backfill_received, complete_backfill}
use ep_engine.Stream.Active.Phases.{next}
use ep_engine.Stream.Active.Reached.{Reached, created}
use ep_engine.Stream.Notifier.{
  Notifier, new_notifier, notify_seqno_available, told, created as created_one,
  set_dead as kill_notifier, Sound, reached-notifies,
}

abbrev document : ℕ → Mutation
document n = record {
  key = 1 ∷ [];
  value = 2 ∷ 3 ∷ [];
  by_seqno = n;
  cas = 9;
  is_deleted = false;
  payload = key_value;
  ext_meta = none;
}

-- An engine whose state counts the bytes of the backfill, and 1000 for each scheduled one: a vbucket with the sequence numbers up to 9, of
-- which the checkpoints hold those from 8 on.
abbrev engine : Engine ℕ
engine = record {
  has_vbucket = λ e. true;
  is_replica = λ e. false;
  snapshot_end = λ e. 9;
  high_seqno = λ e. 9;
  persisted_seqno = λ e. 9;
  register_cursor = λ n e. (e, 8, true);
  items_for_cursor = λ e. 0;
  remove_cursor = λ e. e;
  set_vbucket_dead = λ e. e;
  is_takeover_backed_up = λ e. false;
  set_takeover_backed_up = λ b e. e;
  buffer_log_insert = λ n e. (e, true);
  bytes_read = λ n e. (e + n, true);
  bytes_sent = λ n e. e - n;
  schedule_backfill_manager = λ a b e. e + 1000;
  schedule_checkpoint_task = λ e. e;
  current_time = λ e. 1;
  item_size = λ m. 100;
}

abbrev waiting : Active ℕ
waiting = record {
  state = pending;
  ready = empty_queue;
  stream_opaque = 4;
  takeover = false;
  disk_only = false;
  payload = key_value;
  end_seqno = 50;
  snap_start_seqno = 5;
  last_read_unsnapshotted = 5;
  last_read_seqno = 5;
  last_sent_seqno = 5;
  cur_chk_seqno = 5;
  takeover_active = false;
  backfill_remaining = 0;
  items_from_memory = 0;
  first_marker_sent = false;
  wait_for_snapshot = 0;
  backfill_running = false;
  pending_backfill = false;
  last_sent_snap_end = 0;
  extraction_in_progress = false;
  takeover_start = 0;
  takeover_max_time = 60;
  backfill_from_memory = 0;
  backfill_from_disk = 0;
  backfill_sent = 0;
  buffered_bytes = 0;
  buffered_items = 0;
  engine = 0;
  sent = [];
}

abbrev filling : Active ℕ
filling = record waiting {
  state = backfilling;
  cur_chk_seqno = 8;
  backfill_running = true;
  engine = 1000;
}

abbrev received : Active ℕ
received = (backfill_received engine (some (document 7)) false filling).0

-- The document of the backfill is in the queue.
receive : received.ready.queue ≡ mutation_response (document 7) ∷ []
unfolding backfill_received empty_queue notify push
receive = refl

-- A backfill that completes while another one is wanted schedules it, and the stream does not count it
-- as running.
abbrev interrupted : Active ℕ
interrupted = record filling { pending_backfill = true }

abbrev completed : Active ℕ
completed = record filling {
  backfill_running = false;
  engine = 2000;
  ready = record empty_queue { items_ready = true; notified = 1 };
}

complete : complete_backfill engine interrupted ≡ some completed
unfolding complete_backfill notify empty_queue
complete = refl

-- A slow stream whose backfill has been read up to the last sequence number goes on in memory, and the
-- bytes of the documents that it has not sent stay in the account of the backfill.
abbrev unsent : Active ℕ
unsent = record (backfill_received engine (some (document 9)) false filling).0 {
  backfill_running = false;
}

abbrev slowed : Active ℕ
slowed = record unsent { state = in_memory; ready = record unsent.ready { items_ready = true } }

slow_down : handle_slow_stream engine unsent ≡ some slowed
unfolding handle_slow_stream backfill_received
slow_down = refl

abbrev drained : Active ℕ
drained = record slowed {
  ready = record (pop slowed.ready) { items_ready = true };
  last_sent_seqno = 9;
  items_from_memory = 1;
  sent = 9 ∷ [];
}

send_last : next engine slowed ≡ some (drained, some (mutation_response (document 9)))
unfolding next backfill_received empty_queue mutation_size notify push
send_last = refl

still_counted : (drained.buffered_bytes ≡ 100) × (drained.ready.queue ≡ [])
unfolding backfill_received empty_queue mutation_size pop notify push
still_counted = (refl, refl)

-- A notifier that is told of a sequence number.
abbrev told_notifier : Notifier
told_notifier = record {
  state = dead;
  ready = notify (push (stream_end_response 3 ok) empty_queue);
  stream_opaque = 3;
  start_seqno = 5;
}

abbrev new_one : Notifier
new_one = record { state = pending; ready = empty_queue; stream_opaque = 3; start_seqno = 5 }

create_notifier : new_notifier 3 5 (some 4) ≡ some new_one
unfolding new_notifier
create_notifier = refl

tell_notifier : notify_seqno_available 6 new_one ≡ some told_notifier
unfolding notify_seqno_available
tell_notifier = refl

reached-notifies_example :
    Sound told_notifier
    × ((status : EndStatus) (seqno : ℕ)
        → (kill_notifier status told_notifier ≢ none)
          × (notify_seqno_available seqno told_notifier ≢ none))
reached-notifies_example =
    reached-notifies (
      told 6 new_one told_notifier (created_one 3 5 (some 4) new_one create_notifier) tell_notifier)
