-- ===== src/Consumer.antt =====
-- src/dcp/consumer.cc: the consumer's end of a DCP connection, which gives what it receives to the stream
-- of the vbucket and tells the flow control which bytes are done with. `none` stands for a thrown exception
-- or an `abort` of a stream, or for a copy past the end of a member in the reading of extended meta data.
pub mod Handlers
pub mod Ready
pub mod Streams
pub mod Bytes
pub mod Drains
pub mod Processing
pub mod Accounts
pub mod Buffers
pub mod Keeps
pub mod Reached
mod Tests
use ep_engine.Base.{
  ℕ, zero, suc, ◌+◌, ◌%◌, ◌^◌, Bool, true, false, not, ◌&&◌, List, [], ◌∷◌, ◌++◌, Option, none,
  some, ltb, ◌==◌, ◌>>=◌, if◌then◌else◌,
}
use ep_engine.FlowControl.{FlowControl, incr_freed_bytes, is_drained}
use ep_engine.Stream.Passive.{
  Store, Passive, Message, Code, success, key_enoent, is_dead, is_tmpfail,
}
use ep_engine.Stream.Passive.Receive.{message_received, set_dead}

-- The members of the class that the operations use. `woken` and `notified` count the calls that wake the
-- processing task and that notify the connection.
pub record Consumer (S : Type 0) : Type 0 where
  pub disconnecting : Bool
  pub last_message_time : ℕ
  pub opaque_counter : ℕ
  pub streams : List (ℕ × Passive S)
  pub opaque_map : List (ℕ × ℕ × ℕ)
  pub vb_ready : List ℕ
  pub ready : List ℕ
  pub paused : Bool
  pub processer_notification : Bool
  pub flow : FlowControl
  pub backoffs : ℕ
  pub woken : ℕ
  pub notified : ℕ

-- `DcpReadyQueue`, whose set has the values of its queue.
unfoldable pub exists : ℕ → List ℕ → Bool
exists vb [] = false
exists vb (v ∷ vs) = if v == vb then true else exists vb vs

unfoldable pub push_unique : ℕ → List ℕ → List ℕ
unfolding exists
push_unique vb vs = if exists vb vs then vs else vs ++ vb ∷ []

module _ {S : Type 0} where
  -- The map of the streams, by their vbuckets.
  unfoldable pub find_stream : ℕ → List (ℕ × Passive S) → Option (Passive S)
  find_stream vb [] = none
  find_stream vb ((v, p) ∷ rest) = if v == vb then some p else find_stream vb rest

  unfoldable pub put_stream : ℕ → Passive S → List (ℕ × Passive S) → List (ℕ × Passive S)
  put_stream vb q [] = (vb, q) ∷ []
  put_stream vb q ((v, p) ∷ rest) = if v == vb then (v, q) ∷ rest else (v, p) ∷ put_stream vb q rest

  unfoldable pub erase_stream : ℕ → List (ℕ × Passive S) → List (ℕ × Passive S)
  erase_stream vb [] = []
  erase_stream vb ((v, p) ∷ rest) = if v == vb then rest else (v, p) ∷ erase_stream vb rest

  unfoldable pub heard : ℕ → Consumer S → Consumer S
  heard now c = record c { last_message_time = now }

  -- `notifyVbucketReady`
  unfoldable pub notify_vbucket_ready : ℕ → Consumer S → Consumer S
  unfolding push_unique exists
  notify_vbucket_ready vb c = if exists vb c.vb_ready then c else record c {
    vb_ready = push_unique vb c.vb_ready;
    processer_notification = true;
    woken = if c.processer_notification then c.woken else c.woken + 1;
  }

  -- `notifyConsumerIfNecessary`
  unfoldable pub notify_consumer : Consumer S → Consumer S
  unfolding is_drained
  notify_consumer c =
      if is_drained (c.flow.freed_bytes % 2 ^ 32) c.flow
      then record c { notified = c.notified + 1 }
      else c

  -- `incrFreedBytes` of the flow control, and the notification after it.
  unfoldable pub free_bytes : ℕ → Consumer S → Consumer S
  unfolding incr_freed_bytes notify_consumer
  free_bytes bytes c = notify_consumer (record c { flow = incr_freed_bytes bytes c.flow })

  -- What the handlers of messages share: the stream with that opaque, if there is a live one, receives
  -- the message.
  unfoldable pub note_ready : ℕ → Code → Consumer S → Consumer S
  unfolding notify_vbucket_ready is_tmpfail
  note_ready vb err c = if is_tmpfail err then notify_vbucket_ready vb c else c

  unfoldable pub deliver_to :
      Store S
      → (stream_opaque vb : ℕ) → Message
      → Passive S
      → Consumer S
      → Option (Consumer S × Code)
  unfolding message_received note_ready put_stream is_dead
  deliver_to ops o vb m p c =
      let received = message_received ops (some m) p in
      if (p.stream_opaque == o) && not (is_dead p.state)
      then (do
        out ← received
        some (note_ready vb out.1 (record c { streams = put_stream vb out.0 c.streams }), out.1))
      else some (c, key_enoent)

  unfoldable pub deliver :
      Store S → (stream_opaque vb : ℕ) → Message → Consumer S → Option (Consumer S × Code)
  unfolding deliver_to find_stream
  deliver ops o vb m c = elim (find_stream vb c.streams) [
    | none ↦ some (c, key_enoent)
    | some p ↦ deliver_to ops o vb m p c
  ]

  -- A buffered message is processed later; the bytes of every other one are done with.
  unfoldable pub settle : ℕ → Consumer S × Code → Consumer S × Code
  unfolding free_bytes is_tmpfail
  settle bytes out = if is_tmpfail out.1 then (out.0, success) else (free_bytes bytes out.0, out.1)

  unfoldable pub receive :
      Store S → (bytes stream_opaque vb : ℕ) → Message → Consumer S → Option (Consumer S × Code)
  unfolding deliver settle
  receive ops bytes o vb m c = do out ← deliver ops o vb m c; some (settle bytes out)
