-- ===== src/FlowControl.antt =====
-- src/dcp/flow-control.cc: the consumer's side of the flow control of a DCP connection. What the
-- callbacks of the protocol answer is an argument.
pub mod Acks
pub mod Managers
pub mod Dynamic
pub mod Shares
mod Tests
use ep_engine.Base.{
  ℕ, ◌+◌, ◌-◌, ◌*◌, ◌%◌, ◌^◌, Bool, true, false, not, ◌&&◌, ltb, ◌==◌, if◌then◌else◌,
}

-- The fields of the class.
pub record FlowControl : Type 0 where
  pub enabled : Bool
  pub pending_control : Bool
  pub buffer_size : ℕ
  pub last_buffer_ack : ℕ
  pub acked_bytes : ℕ
  pub freed_bytes : ℕ

-- `ENGINE_ERROR_CODE`; `other` is any other answer of a callback.
pub data Code : Type 0 where
  success want_more failed : Code
  other : ℕ → Code

-- What is sent to the producer.
pub data Message : Type 0 where
  no_message : Message
  control buffer_ack : ℕ → Message

-- The constructor, for the size that the manager gives, if it is enabled. The size of a disabled one is
-- never set; 0 stands for it.
unfoldable pub new_flow_control : Bool → ℕ → ℕ → FlowControl
new_flow_control enabled now size = record {
  enabled = enabled;
  pending_control = true;
  buffer_size = if enabled then size % 2 ^ 32 else 0;
  last_buffer_ack = now;
  acked_bytes = 0;
  freed_bytes = 0;
}

unfoldable answer : Code → Code
answer success = want_more
answer c = c

-- `isBufferSufficientlyDrained_UNLOCKED`. For the 32-bit sizes the product of doubles `bufferSize * .2`
-- is on the same side of a whole number as the fraction.
unfoldable pub is_drained : ℕ → FlowControl → Bool
is_drained ackable f = ltb f.buffer_size (ackable * 5)

-- The two branches that acknowledge.
unfoldable pub acknowledge : ℕ → ℕ → FlowControl → FlowControl
acknowledge now ackable f = record f {
  last_buffer_ack = now;
  acked_bytes = (f.acked_bytes + ackable) % 2 ^ 64;
  freed_bytes = (f.freed_bytes + 2 ^ 64 - ackable) % 2 ^ 64;
}

-- `handleFlowCtl`; `ret` is what the callback answers.
unfoldable pub handle_flow_ctl : Code → ℕ → FlowControl → FlowControl × Code × Message
unfolding answer is_drained acknowledge
handle_flow_ctl ret now f =
    let ackable = f.freed_bytes % 2 ^ 32 in
    let late = ltb 0 ackable && ltb 5 ((now + 2 ^ 32 - f.last_buffer_ack) % 2 ^ 32) in
    if f.enabled
    then (if f.pending_control
        then (record f { pending_control = false }, answer ret, control f.buffer_size)
        else (if is_drained ackable f
            then (acknowledge now ackable f, answer ret, buffer_ack ackable)
            else (if late
                then (acknowledge now ackable f, answer ret, buffer_ack ackable)
                else (f, failed, no_message))))
    else (f, failed, no_message)

-- `incrFreedBytes`
unfoldable pub incr_freed_bytes : ℕ → FlowControl → FlowControl
incr_freed_bytes bytes f = record f { freed_bytes = (f.freed_bytes + bytes) % 2 ^ 64 }

-- `setFlowControlBufSize`
unfoldable pub set_buf_size : ℕ → FlowControl → FlowControl
set_buf_size size f =
    if size == f.buffer_size then f else record f { buffer_size = size; pending_control = true }
