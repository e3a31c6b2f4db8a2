-- ===== src/Stream.antt =====
-- src/dcp/stream.cc, stream.h and response.h: what the streams of DCP share, which are their states,
-- the messages and the queue of those that wait to be sent. A stream belongs to one vbucket, which the
-- messages here do not repeat.
pub mod Queue
pub mod Order
pub mod Passive
pub mod Active
pub mod Notifier
mod Tests
mod ActiveTests
use ep_engine.Base.{
  ℕ, ◌+◌, ◌-◌, ◌%◌, ◌/◌, ◌^◌, Bool, true, false, not, List, [], ◌∷◌, ◌++◌, Option, none, some,
  length, leb, ◌==◌, if◌then◌else◌,
}

-- `stream_state_t`
pub data State : Type 0 where
  pending backfilling in_memory takeover_send takeover_wait reading dead : State

-- `end_stream_status_t`
pub data EndStatus : Type 0 where
  ok closed state_changed disconnected slow : EndStatus

-- `MutationPayload`
pub data Payload : Type 0 where
  key_value key_only : Payload

-- `MutationResponse` and what the streams read of its item.
pub record Mutation : Type 0 where
  pub key : List ℕ
  pub value : List ℕ
  pub by_seqno : ℕ
  pub cas : ℕ
  pub is_deleted : Bool
  pub payload : Payload
  pub ext_meta : Option (List ℕ)

-- The classes derived from `DcpResponse`, with their members.
pub data Response : Type 0 where
  stream_request : (opaque flags start_seqno end_seqno vb_uuid snap_start snap_end : ℕ) → Response
  add_stream_response : (opaque stream_opaque status : ℕ) → Response
  snapshot_marker_response set_vbucket_state_response : (opaque status : ℕ) → Response
  stream_end_response : (opaque : ℕ) → EndStatus → Response
  set_vbucket_state : (opaque state : ℕ) → Response
  snapshot_marker : (opaque start_seqno end_seqno flags : ℕ) → Response
  mutation_response : Mutation → Response

unfoldable body_size : Mutation → Payload → ℕ
body_size m key_value = length m.key + length m.value
body_size m key_only = length m.key

unfoldable meta_size : Option (List ℕ) → ℕ
meta_size none = 0
meta_size (some bytes) = length bytes

-- `MutationResponse::getMessageSize`
unfoldable pub mutation_size : Mutation → ℕ
unfolding body_size meta_size
mutation_size m =
    ((if m.is_deleted then 42 else 55) + body_size m m.payload + meta_size m.ext_meta) % 2 ^ 32

-- `getMessageSize`
unfoldable pub message_size : Response → ℕ
unfolding mutation_size
message_size (stream_request _ _ _ _ _ _ _) = 72
message_size (add_stream_response _ _ _) = 28
message_size (snapshot_marker_response _ _) = 24
message_size (set_vbucket_state_response _ _) = 24
message_size (stream_end_response _ _) = 28
message_size (set_vbucket_state _ _) = 25
message_size (snapshot_marker _ _ _ _) = 44
message_size (mutation_response m) = mutation_size m

-- `isMetaEvent`
unfoldable pub is_meta_event : Response → Bool
is_meta_event (mutation_response _) = false
is_meta_event _ = true

-- The members of `Stream` that concern `readyQ`. `notified` counts the calls of `notifyStreamReady`.
pub record ReadyQueue : Type 0 where
  pub queue : List Response
  pub items_ready : Bool
  pub non_meta_items : ℕ
  pub memory : ℕ
  pub notified : ℕ

unfoldable pub empty_queue : ReadyQueue
empty_queue = record {
  queue = [];
  items_ready = false;
  non_meta_items = 0;
  memory = 0;
  notified = 0;
}

-- `pushToReadyQ`
unfoldable pub push : Response → ReadyQueue → ReadyQueue
unfolding is_meta_event
push r q = record q {
  queue = q.queue ++ r ∷ [];
  non_meta_items = if is_meta_event r then q.non_meta_items else (q.non_meta_items + 1) % 2 ^ 64;
  memory = (q.memory + message_size r) % 2 ^ 64;
}

unfoldable pop_front : Response → List Response → ReadyQueue → ReadyQueue
unfolding is_meta_event
pop_front r rest q = record q {
  queue = rest;
  non_meta_items =
      if is_meta_event r then q.non_meta_items else (q.non_meta_items + 2 ^ 64 - 1) % 2 ^ 64;
  memory = if leb (message_size r) q.memory then q.memory - message_size r else 0;
}

-- `popFromReadyQ`
unfoldable pub pop : ReadyQueue → ReadyQueue
unfolding pop_front
pop q = elim q.queue [ [] ↦ q | r ∷ rest ↦ pop_front r rest q ]

unfoldable clear_list : List Response → ReadyQueue → ReadyQueue
unfolding pop_front
clear_list [] q = q
clear_list (r ∷ rest) q = clear_list rest (pop_front r rest q)

-- `clear_UNLOCKED`
unfoldable pub clear : ReadyQueue → ReadyQueue
unfolding clear_list
clear q = clear_list q.queue q

-- The exchange of `itemsReady` from false to true, which notifies the connection where it succeeds.
unfoldable pub notify : ReadyQueue → ReadyQueue
notify q = if q.items_ready then q else record q { items_ready = true; notified = q.notified + 1 }
