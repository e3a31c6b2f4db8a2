-- ===== src/Stream/Tests.antt =====
-- Runs of the streams at fixed inputs (src/dcp/stream.cc).
use ep_engine.Base.{
  ℕ, ◌+◌, ◌<◌, ◌≤◌, ◌^◌, ◌*◌, ◌≡◌, refl, true, false, List, [], ◌∷◌, ◌++◌, none, some, arith,
  length,
}
use ep_engine.Stream.{
  Mutation, key_value, mutation_response, push, notify, empty_queue, ReadyQueue, message_size,
  is_meta_event, mutation_size,
}
use ep_engine.Stream.Queue.{
  total_size, documents, pushed, notifying, start, Counted, reached-Counted,
}
use ep_engine.Stream.Passive.{
  Store, Passive, mutation, marker, success, tmpfail, erange, key_enoent, all_processed,
  new_passive, size, batch_size, is_retry, disk,
}
use ep_engine.Stream.Passive.Receive.{message_received, process_buffered}
use ep_engine.Stream.Passive.Invariant.{total, Sound}
use ep_engine.Stream.Passive.Reached.{created, Reached, received, processed, reached-Sound}
use ep_engine.Stream.Passive.Account.{refused, process_buffered-account}
use ep_engine.Stream.Passive.Drain.{Takes, process_times, process_times-drains}

-- A document of a one-byte key, and its queue.
abbrev document : ℕ → Mutation
document n = record {
  key = 1 ∷ [];
  value = 2 ∷ 3 ∷ [];
  by_seqno = n;
  cas = 9;
  is_deleted = false;
  payload = key_value;
  ext_meta = none;
}

abbrev one_document : ReadyQueue
one_document = push (mutation_response (document 7)) empty_queue

one_size : total_size (empty_queue.queue ++ mutation_response (document 7) ∷ []) < 2 ^ 64
unfolding total_size message_size mutation_size empty_queue
one_size = ground arith

one_count : documents (empty_queue.queue ++ mutation_response (document 7) ∷ []) < 2 ^ 64
unfolding documents empty_queue is_meta_event
one_count = ground arith

reached-Counted_example : Counted (notify one_document)
reached-Counted_example =
    reached-Counted (notifying (pushed (mutation_response (document 7)) start one_size one_count))

-- A store that keeps what it is given, has no vbucket in its backfill phase and is never full; it takes
-- messages at once if the list is not empty.
abbrev log : Store (List Mutation)
log = record {
  has_vbucket = λ s. true;
  is_backfill_phase = λ s. false;
  set_backfill_phase = λ b s. s;
  high_seqno = λ s. 5;
  open_checkpoint_id = λ s. 1;
  backfill_snapshot = λ a b s. s;
  create_snapshot = λ a b s. s;
  update_snapshot_end = λ a s. s;
  add_checkpoint = λ a s. s;
  add_backfill_item = λ m s. (m ∷ s, success);
  set_with_meta = λ m s. (m ∷ s, success);
  delete_with_meta = λ m b s. (s, key_enoent);
  set_vbucket_state = λ n s. s;
  next_cas = λ s. (s, 77);
  should_process = λ s. false;
  over_high_watermark = λ s. false;
}

-- A stream, and what it becomes by the receipt of a marker and of a document, both buffered.
abbrev fresh : Passive (List Mutation)
fresh = new_passive 1 0 5 100 33 5 5 5 []

abbrev marked : Passive (List Mutation)
marked = record fresh { messages = marker 5 8 2 ∷ []; buffer_items = 1; buffer_bytes = 44 }

abbrev buffered : Passive (List Mutation)
buffered = record fresh {
  last_seqno = 7;
  messages = marker 5 8 2 ∷ mutation (document 7) ∷ [];
  buffer_items = 2;
  buffer_bytes = 102;
}

-- What the processing of the buffer leaves.
abbrev processed_stream : Passive (List Mutation)
processed_stream = record fresh {
  last_seqno = 7;
  cur_snapshot_start = 5;
  cur_snapshot_end = 8;
  cur_snapshot_type = disk;
  store = document 7 ∷ [];
  applied = 7 ∷ [];
}

receive_marker : message_received log (some (marker 5 8 2)) fresh ≡ some (marked, tmpfail)
unfolding message_received new_passive
receive_marker = refl

receive_document :
    message_received log (some (mutation (document 7))) marked ≡ some (buffered, tmpfail)
unfolding message_received new_passive mutation_size
receive_document = refl

receive_out_of_order :
    message_received log (some (mutation (document 7))) buffered ≡ some (buffered, erange)
unfolding message_received new_passive
receive_out_of_order = refl

process_both : process_buffered log buffered ≡ some (processed_stream, all_processed, 102)
unfolding process_buffered new_passive mutation_size
process_both = refl

one_fits : length marked.messages < 2 ^ 64
one_fits = omega arith

none_fits : length fresh.messages < 2 ^ 64
unfolding new_passive
none_fits = ground arith

Reached-buffered : Reached log buffered
Reached-buffered =
    received
      (received (created 1 0 5 100 33 5 5 5 []) (some (marker 5 8 2)) (marked, tmpfail) none_fits
        receive_marker)
      (some (mutation (document 7))) (buffered, tmpfail) one_fits receive_document

reached-Sound_example : Sound processed_stream
reached-Sound_example =
    reached-Sound (processed Reached-buffered (processed_stream, all_processed, 102) process_both)

buffered_fits : total buffered.messages < 2 ^ 32
unfolding total size mutation_size
buffered_fits = ground arith

process_buffered-account_example :
    102 + refused log batch_size buffered.messages buffered + total processed_stream.messages
    ≡ total buffered.messages
process_buffered-account_example =
    process_buffered-account log buffered (processed_stream, all_processed, 102)
      (reached-Sound Reached-buffered) buffered_fits process_both

log-Takes : Takes log
unfolding is_retry
log-Takes = record {
  takes_backfill = λ m s. refl;
  takes_mutation = λ m s. refl;
  takes_deletion = λ m b s. refl;
}

buffered_small : length buffered.messages ≤ 1 * batch_size
buffered_small = omega arith

process_times-drains_example :
    (q : Passive (List Mutation)) × (process_times log 1 buffered ≡ some q) × (q.messages ≡ [])
process_times-drains_example =
    process_times-drains log 1 buffered log-Takes (reached-Sound Reached-buffered) buffered_small

-- A document outside the snapshot leaves the buffer, and its 58 bytes are not reported.
abbrev misplaced : Passive (List Mutation)
misplaced = record marked {
  last_seqno = 9;
  messages = marker 5 8 2 ∷ mutation (document 9) ∷ [];
  buffer_items = 2;
  buffer_bytes = 102;
}

process_misplaced :
    process_buffered log misplaced
    ≡ some (
      record misplaced {
        messages = [];
        buffer_items = 0;
        buffer_bytes = 0;
        cur_snapshot_start = 5;
        cur_snapshot_end = 8;
        cur_snapshot_type = disk;
      },
      all_processed,
      44,
    )
unfolding process_buffered new_passive mutation_size
process_misplaced = refl
