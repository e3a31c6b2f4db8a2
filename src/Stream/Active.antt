-- ===== src/Stream/Active.antt =====
-- src/dcp/stream.cc, class ActiveStream: the stream of a producer, its state machine and its phases. What
-- it asks of the engine, the vbucket, its checkpoint manager and the producer is an interface. `none`
-- stands for a thrown exception.
pub mod Transitions
pub mod Events
pub mod Backfill
pub mod Phases
pub mod Snapshots
pub mod Diagram
pub mod Frame
pub mod End
pub mod Moves
pub mod EventLaws
pub mod Sends
pub mod PhaseLaws
pub mod Batches
pub mod Takes
pub mod Extracts
pub mod Reached
pub mod Follows
use ep_engine.Base.{
  ℕ, zero, suc, ◌+◌, ◌-◌, ◌%◌, ◌^◌, min, Bool, true, false, not, ◌&&◌, ◌||◌, List, [], ◌∷◌, Option,
  none, some, ltb, leb, ◌==◌, ◌>>=◌, if◌then◌else◌,
}
use ep_engine.Stream.{
  State, pending, backfilling, in_memory, takeover_send, takeover_wait, reading, dead, EndStatus,
  ok, closed, state_changed, disconnected, slow, Payload, key_value, key_only, Mutation, Response,
  stream_end_response, set_vbucket_state, snapshot_marker, mutation_response, message_size,
  ReadyQueue, empty_queue, push, pop, clear, notify,
}

-- What the stream calls: the vbucket, if the engine has it, its checkpoint manager with the cursor of the
-- stream, the log of the connection, the backfill manager, the tasks and the clock.
pub record Engine (E : Type 0) : Type 0 where
  pub has_vbucket : E → Bool
  pub is_replica : E → Bool
  pub snapshot_end : E → ℕ
  pub high_seqno : E → ℕ
  pub persisted_seqno : E → ℕ
  pub register_cursor : ℕ → E → E × ℕ × Bool
  pub items_for_cursor : E → ℕ
  pub remove_cursor : E → E
  pub set_vbucket_dead : E → E
  pub is_takeover_backed_up : E → Bool
  pub set_takeover_backed_up : Bool → E → E
  pub buffer_log_insert : ℕ → E → E × Bool
  pub bytes_read : ℕ → E → E × Bool
  pub bytes_sent : ℕ → E → E
  pub schedule_backfill_manager : (backfill_start backfill_end : ℕ) → E → E
  pub schedule_checkpoint_task : E → E
  pub current_time : E → ℕ
  pub item_size : Mutation → ℕ

-- The members of the class. `takeover` and `disk_only` are bits of the flags, `takeover_active` says that
-- `takeoverState` has become active, and `sent` is the model's own: the sequence numbers of the
-- documents that were sent, the last one first.
pub record Active (E : Type 0) : Type 0 where
  pub state : State
  pub ready : ReadyQueue
  pub stream_opaque : ℕ
  pub takeover : Bool
  pub disk_only : Bool
  pub payload : Payload
  pub end_seqno : ℕ
  pub snap_start_seqno : ℕ
  pub last_read_unsnapshotted : ℕ
  pub last_read_seqno : ℕ
  pub last_sent_seqno : ℕ
  pub cur_chk_seqno : ℕ
  pub takeover_active : Bool
  pub backfill_remaining : ℕ
  pub items_from_memory : ℕ
  pub first_marker_sent : Bool
  pub wait_for_snapshot : ℕ
  pub backfill_running : Bool
  pub pending_backfill : Bool
  pub last_sent_snap_end : ℕ
  pub extraction_in_progress : Bool
  pub takeover_start : ℕ
  pub takeover_max_time : ℕ
  pub backfill_from_memory : ℕ
  pub backfill_from_disk : ℕ
  pub backfill_sent : ℕ
  pub buffered_bytes : ℕ
  pub buffered_items : ℕ
  pub engine : E
  pub sent : List ℕ

-- The table of `transitionState`, for two states that differ.
unfoldable pub is_valid_transition : State → State → Bool
is_valid_transition pending backfilling = true
is_valid_transition pending dead = true
is_valid_transition backfilling in_memory = true
is_valid_transition backfilling takeover_send = true
is_valid_transition backfilling dead = true
is_valid_transition in_memory backfilling = true
is_valid_transition in_memory dead = true
is_valid_transition takeover_send takeover_wait = true
is_valid_transition takeover_send dead = true
is_valid_transition takeover_wait takeover_send = true
is_valid_transition takeover_wait dead = true
is_valid_transition _ _ = false

unfoldable pub is_dead : State → Bool
is_dead dead = true
is_dead _ = false

unfoldable pub is_backfilling : State → Bool
is_backfilling backfilling = true
is_backfilling _ = false

unfoldable pub is_in_memory : State → Bool
is_in_memory in_memory = true
is_in_memory _ = false

unfoldable pub is_takeover_send : State → Bool
is_takeover_send takeover_send = true
is_takeover_send _ = false

unfoldable pub is_pending : State → Bool
is_pending pending = true
is_pending _ = false

unfoldable pub is_disconnected : EndStatus → Bool
is_disconnected disconnected = true
is_disconnected _ = false

-- The end of the backfill that precedes the cursor at `cursor`.
unfoldable pub cursor_end : (start cursor stop : ℕ) → ℕ
cursor_end start cursor stop =
    if ltb start cursor then (if ltb stop cursor then stop else cursor - 1) else 0
