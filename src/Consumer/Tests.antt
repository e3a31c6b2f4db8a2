-- ===== src/Consumer/Tests.antt =====
-- Runs of a consumer, and the theorems at concrete connections (src/dcp/consumer.cc).
use ep_engine.Base.{◌^◌, ◌≡◌, refl, Bool, true, false, List, [], ◌∷◌, none, some, ◌-◌}
use ep_engine.FlowControl.{FlowControl}
use ep_engine.Stream.{Mutation, key_value, stream_request}
use ep_engine.Stream.Passive.{Store, Passive, mutation, success, key_enoent, new_passive}
use ep_engine.Stream.Passive.Receive.{next}
use ep_engine.Consumer.{Consumer}
use ep_engine.Consumer.Handlers.{add_stream, vbucket_state_changed}
use ep_engine.Consumer.Reached.{connected, added, sent, reached-AllSound}
use ep_engine.Consumer.Ready.{get_next_item}
use ep_engine.Consumer.Streams.{AllSound}

-- A vbucket that keeps what it is given, and whether it may be given something.
abbrev vbucket : Bool → Store (List Mutation)
vbucket has_room = record {
  has_vbucket = λ s. true;
  is_backfill_phase = λ s. false;
  set_backfill_phase = λ b s. s;
  high_seqno = λ s. 5;
  open_checkpoint_id = λ s. 1;
  backfill_snapshot = λ a b s. s;
  create_snapshot = λ a b s. s;
  update_snapshot_end = λ a s. s;
  add_checkpoint = λ a s. s;
  add_backfill_item = λ m s. (m ∷ s, success);
  set_with_meta = λ m s. (m ∷ s, success);
  delete_with_meta = λ m b s. (s, key_enoent);
  set_vbucket_state = λ n s. s;
  next_cas = λ s. (s, 77);
  should_process = λ s. has_room;
  over_high_watermark = λ s. false;
}

abbrev letter : Mutation
letter = record {
  key = 1 ∷ [];
  value = 2 ∷ 3 ∷ [];
  by_seqno = 7;
  cas = 9;
  is_deleted = false;
  payload = key_value;
  ext_meta = none;
}

abbrev fresh : Passive (List Mutation)
fresh = new_passive 1 0 5 100 33 5 5 5 []

abbrev buffered : Passive (List Mutation)
buffered = record fresh {
  last_seqno = 7;
  messages = mutation letter ∷ [];
  buffer_items = 1;
  buffer_bytes = 58;
}

abbrev flow : FlowControl
flow = record {
  enabled = true;
  pending_control = false;
  buffer_size = 1000;
  last_buffer_ack = 0;
  acked_bytes = 0;
  freed_bytes = 0;
}

abbrev connection : Consumer (List Mutation)
connection = record {
  disconnecting = false;
  last_message_time = 0;
  opaque_counter = 1;
  streams = (3, fresh) ∷ [];
  opaque_map = [];
  vb_ready = [];
  ready = 3 ∷ [];
  paused = false;
  processer_notification = false;
  flow = flow;
  backoffs = 0;
  woken = 0;
  notified = 0;
}

-- The document is buffered.
abbrev loaded : Consumer (List Mutation)
loaded = record connection {
  last_message_time = 10;
  streams = (3, buffered) ∷ [];
  vb_ready = 3 ∷ [];
  processer_notification = true;
  woken = 1;
}

-- The stream is gone, and its bytes are freed.
abbrev closed : Consumer (List Mutation)
closed = record loaded { streams = []; flow = record flow { freed_bytes = 58 } }

close_run : vbucket_state_changed 3 loaded ≡ some closed
unfolding vbucket_state_changed new_passive
close_run = refl

-- A connection to which a stream is added and which sends the request for it.
abbrev empty : Consumer (List Mutation)
empty = record connection { opaque_counter = 0; streams = []; ready = [] }

abbrev joined : Consumer (List Mutation)
joined = (add_stream (vbucket true) 10 9 3 0 false 5 5 5 33 5 [] empty).0

abbrev requested : Passive (List Mutation)
requested = new_passive 1 0 5 (2 ^ 64 - 1) 33 5 5 5 []

abbrev asked : Consumer (List Mutation)
asked = record joined { streams = (3, (next requested).0) ∷ [] }

ask_run :
    get_next_item (vbucket true) joined
    ≡ some (asked, some (stream_request 1 0 5 (2 ^ 64 - 1) 33 5 5))
unfolding get_next_item add_stream new_passive next
ask_run = refl

reached-AllSound_example : AllSound asked.streams
reached-AllSound_example = reached-AllSound {ops = vbucket true} (
    sent (added (connected empty refl) 10 9 3 0 false 5 5 5 33 5 [])
      (asked, some (stream_request 1 0 5 (2 ^ 64 - 1) 33 5 5)) ask_run)
