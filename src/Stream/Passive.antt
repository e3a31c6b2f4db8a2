-- ===== src/Stream/Passive.antt =====
-- src/dcp/stream.cc, class PassiveStream: the stream of a consumer, which hands what it receives to the
-- store or keeps it in a buffer. What it asks of the engine, the vbucket and its checkpoint manager is
-- an interface. `none` stands for a thrown exception or an `abort`.
pub mod Process
pub mod Receive
pub mod Frame
pub mod Effect
pub mod Invariant
pub mod Steps
pub mod Reached
pub mod Total
pub mod Account
pub mod Receipt
pub mod Drain
use ep_engine.Base.{
  ℕ, zero, suc, ◌+◌, ◌-◌, ◌*◌, ◌%◌, ◌/◌, ◌^◌, Bool, true, false, not, ◌&&◌, ◌||◌, List, [], ◌∷◌,
  ◌++◌, Option, none, some, ltb, leb, ◌==◌, ◌>>=◌, if◌then◌else◌,
}
use ep_engine.Stream.{
  State, pending, backfilling, in_memory, takeover_send, takeover_wait, reading, dead, Mutation,
  Response, stream_request, add_stream_response, snapshot_marker_response,
  set_vbucket_state_response, mutation_size, ReadyQueue, empty_queue, push, pop, notify,
}

-- The answers of `ENGINE_ERROR_CODE` that the stream tells apart.
pub data Code : Type 0 where
  success tmpfail enomem erange key_enoent not_my_vbucket einval disconnect : Code
  other : ℕ → Code

-- `snapshot_type_t`; `no_snapshot` is its `none`.
pub data SnapshotType : Type 0 where
  no_snapshot disk memory : SnapshotType

-- `process_items_error_t`
pub data Outcome : Type 0 where
  all_processed more_to_process cannot_process : Outcome

-- What the consumer hands to the stream, by its event; `unknown` is an event that a stream does not
-- take, of a message of that size.
pub data Message : Type 0 where
  mutation : Mutation → Message
  marker : (start_seqno end_seqno flags : ℕ) → Message
  set_vbucket : (state : ℕ) → Message
  stream_end : Message
  unknown : (size : ℕ) → Message

-- `getMessageSize`
unfoldable pub size : Message → ℕ
size (mutation m) = mutation_size m
size (marker _ _ _) = 44
size (set_vbucket _) = 25
size stream_end = 28
size (unknown n) = n % 2 ^ 32

-- What the stream calls: the vbucket, if the engine has it, its checkpoint manager, the store, the
-- clock that makes CAS values, the replication throttle and the memory statistics.
pub record Store (S : Type 0) : Type 0 where
  pub has_vbucket : S → Bool
  pub is_backfill_phase : S → Bool
  pub set_backfill_phase : Bool → S → S
  pub high_seqno : S → ℕ
  pub open_checkpoint_id : S → ℕ
  pub backfill_snapshot : (start_seqno end_seqno : ℕ) → S → S
  pub create_snapshot : (start_seqno end_seqno : ℕ) → S → S
  pub update_snapshot_end : ℕ → S → S
  pub add_checkpoint : ℕ → S → S
  pub add_backfill_item : Mutation → S → S × Code
  pub set_with_meta : Mutation → S → S × Code
  pub delete_with_meta : Mutation → Bool → S → S × Code
  pub set_vbucket_state : ℕ → S → S
  pub next_cas : S → S × ℕ
  pub should_process : S → Bool
  pub over_high_watermark : S → Bool

-- The members of the class. `applied` is the model's own: the sequence numbers that the store
-- has taken, the last one first.
pub record Passive (S : Type 0) : Type 0 where
  pub state : State
  pub ready : ReadyQueue
  pub stream_opaque : ℕ
  pub flags : ℕ
  pub start_seqno : ℕ
  pub end_seqno : ℕ
  pub vb_uuid : ℕ
  pub snap_start_seqno : ℕ
  pub snap_end_seqno : ℕ
  pub last_seqno : ℕ
  pub cur_snapshot_start : ℕ
  pub cur_snapshot_end : ℕ
  pub cur_snapshot_type : SnapshotType
  pub cur_snapshot_ack : Bool
  pub messages : List Message
  pub buffer_bytes : ℕ
  pub buffer_items : ℕ
  pub store : S
  pub applied : List ℕ

-- `PassiveStream::batchSize`
abbrev pub batch_size : ℕ
batch_size = 10

unfoldable pub is_dead : State → Bool
is_dead dead = true
is_dead _ = false

unfoldable pub is_pending : State → Bool
is_pending pending = true
is_pending _ = false

unfoldable pub is_disk : SnapshotType → Bool
is_disk disk = true
is_disk _ = false

-- The answers after which the message is tried again.
unfoldable pub is_retry : Code → Bool
is_retry tmpfail = true
is_retry enomem = true
is_retry _ = false

-- The answer to a message that was put in the buffer.
unfoldable pub is_tmpfail : Code → Bool
is_tmpfail tmpfail = true
is_tmpfail _ = false

unfoldable pub is_erange : Code → Bool
is_erange erange = true
is_erange _ = false

unfoldable pub is_success : Code → Bool
is_success success = true
is_success _ = false

-- A bit of the flags of a snapshot marker.
unfoldable pub has_flag : ℕ → ℕ → Bool
has_flag flag flags = flags / flag % 2 == 1

-- `Item::isValidCas`
unfoldable pub is_valid_cas : ℕ → Bool
is_valid_cas cas = not (cas == 0 || cas == 2 ^ 64 - 1)

-- `transitionState`, from the state to the new one: whether the state changed.
unfoldable pub transition : State → State → Option Bool
transition pending pending = some false
transition pending reading = some true
transition pending dead = some true
transition reading reading = some false
transition reading pending = some true
transition reading dead = some true
transition dead dead = some false
transition backfilling backfilling = some false
transition in_memory in_memory = some false
transition takeover_send takeover_send = some false
transition takeover_wait takeover_wait = some false
transition _ _ = none

-- A deletion of a key that is not there succeeds.
unfoldable pub found : Code → Code
found key_enoent = success
found c = c

module _ {S : Type 0} where
  -- The constructor.
  unfoldable pub new_passive :
      (stream_opaque flags start_seqno end_seqno vb_uuid snap_start snap_end vb_high_seqno : ℕ)
      → S
      → Passive S
  unfolding push empty_queue
  new_passive o flags start stop uuid snap_start snap_end high s =
      let q = push (stream_request o flags start stop uuid snap_start snap_end) empty_queue in
      record {
        state = pending;
        ready = record q { items_ready = true };
        stream_opaque = o;
        flags = flags;
        start_seqno = start;
        end_seqno = stop;
        vb_uuid = uuid;
        snap_start_seqno = snap_start;
        snap_end_seqno = snap_end;
        last_seqno = high;
        cur_snapshot_start = 0;
        cur_snapshot_end = 0;
        cur_snapshot_type = no_snapshot;
        cur_snapshot_ack = false;
        messages = [];
        buffer_bytes = 0;
        buffer_items = 0;
        store = s;
        applied = [];
      }

  unfoldable pub enter : State → Passive S → Option (Passive S)
  unfolding transition
  enter new p = do _ ← transition p.state new; some (record p { state = new })

  -- What pushes a message and tells the connection.
  unfoldable pub send : Response → Passive S → Passive S
  send r p = record p { ready = notify (push r p.ready) }
