-- ===== src/FlowControl/Acks.antt =====
-- `FlowControl` of src/dcp/flow-control.cc over a whole connection: which bytes are acknowledged.
use ep_engine.Base.{
  ℕ, ◌+◌, ◌-◌, ◌*◌, ◌%◌, ◌^◌, ◌<◌, ◌≡◌, ◌↔◌, ◌⊎◌, true, false, List, [], ◌∷◌, arith,
}
use ep_engine.FlowControl.{
  FlowControl, Code, Message, no_message, buffer_ack, is_drained, acknowledge, handle_flow_ctl,
  incr_freed_bytes, set_buf_size,
}

-- A call of the connection.
pub data Call : Type 0 where
  frees : ℕ → Call
  handles : Code → ℕ → Call
  resizes : ℕ → Call

abbrev pub step : Call → FlowControl → FlowControl × Message
step (frees bytes) f = (incr_freed_bytes bytes f, no_message)
step (handles ret now) f = let (f', code, message) = handle_flow_ctl ret now f in (f', message)
step (resizes size) f = (set_buf_size size f, no_message)

abbrev pub freed_by : Call → ℕ
freed_by (frees bytes) = bytes
freed_by _ = 0

abbrev pub acked_by : Message → ℕ
acked_by (buffer_ack bytes) = bytes
acked_by _ = 0

-- The connection after the calls, the bytes they freed and the bytes acknowledged to the producer.
abbrev pub run : List Call → FlowControl → FlowControl × ℕ × ℕ
run [] f = (f, 0, 0)
run (c ∷ cs) f =
    let (f', message) = step c f in
    let (g, freed, acked) = run cs f' in (g, freed_by c + freed, acked_by message + acked)

-- The bytes of one call, if no counter wraps around.
step-bytes :
    (c : Call) (f : FlowControl)
    → f.acked_bytes + f.freed_bytes + freed_by c < 2 ^ 64
    → let (f', message) = step c f in
      (f'.acked_bytes ≡ f.acked_bytes + acked_by message)
      × (f'.acked_bytes + f'.freed_bytes ≡ f.acked_bytes + f.freed_bytes + freed_by c)
unfolding incr_freed_bytes handle_flow_ctl set_buf_size acknowledge
step-bytes (frees bytes) f h = (omega arith, omega arith)
step-bytes (handles ret now) f h = (ground arith, ground arith)
step-bytes (resizes size) f h = (ground arith, ground arith)

-- Over any calls, if the freed bytes do not wrap around 2 ^ 64: the counter of acknowledged bytes grows
-- by what the messages to the producer acknowledge, and every byte that was freed is either
-- acknowledged or still counted as freed. No byte is acknowledged twice.
pub run-bytes :
    (cs : List Call) (f : FlowControl)
    → f.acked_bytes + f.freed_bytes + (run cs f).1 < 2 ^ 64
    → let (g, freed, acked) = run cs f in
      (g.acked_bytes ≡ f.acked_bytes + acked)
      × (g.acked_bytes + g.freed_bytes ≡ f.acked_bytes + f.freed_bytes + freed)
run-bytes [] f h = (omega arith, omega arith)
run-bytes (c ∷ cs) f h =
    let s = step-bytes c f (omega arith) in
    let r = run-bytes cs (step c f).0 (omega (arith, s)) in
    (omega (arith, s, r), omega (arith, s, r))

-- On an enabled connection that has nothing to negotiate, `handleFlowCtl` sends an acknowledgement
-- exactly if the low 32 bits of the freed bytes are more than a fifth of the buffer, or are not 0 and
-- the last acknowledgement is more than 5 seconds old; it acknowledges all of them, and after it they
-- are 0 until more are freed.
handle_flow_ctl_iff :
    (ret : Code) (now : ℕ) (f : FlowControl)
    → f.enabled ≡ true
    → f.pending_control ≡ false
    → f.freed_bytes < 2 ^ 64
    → let (f', code, message) = handle_flow_ctl ret now f in
      let ackable = f.freed_bytes % 2 ^ 32 in
      ((message ≡ buffer_ack ackable) ↔ (
        (f.buffer_size < ackable * 5)
        ⊎ ((0 < ackable) × (5 < (now + 2 ^ 32 - f.last_buffer_ack) % 2 ^ 32))))
      × (message ≡ buffer_ack ackable → f'.freed_bytes % 2 ^ 32 ≡ 0)
unfolding handle_flow_ctl acknowledge is_drained
handle_flow_ctl_iff ret now f e p h = (ground arith, λ m. ground arith)
