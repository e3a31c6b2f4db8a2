-- ===== src/Consumer/Reached.antt =====
-- The consumers that the operations reach, and their streams (src/dcp/consumer.cc).
use mathlib.Core.Path.{subst}
use ep_engine.Base.{ℕ, ◌+◌, ◌^◌, ◌<◌, ◌≡◌, sym, ◌∙◌, inl, inr, Bool, [], Option, some, eq_of_some}
use ep_engine.Stream.{Response}
use ep_engine.Stream.Passive.{Store, Code, Outcome}
use ep_engine.Consumer.{Consumer}
use ep_engine.Consumer.Handlers.{add_stream, close_stream, vbucket_state_changed}
use ep_engine.Consumer.Ready.{process_buffered_items, get_next_item, stream_accepted}
use ep_engine.Consumer.Streams.{AllSound}
use ep_engine.Consumer.Bytes.{known, AllFit}
use ep_engine.Consumer.Accounts.{Packet, packet_bytes, IsPacket, handle, Handled, handle-Handled}
use ep_engine.Consumer.Buffers.{AllSmall, vbucket_state_changed-Gains, process_buffered_items-known}
use ep_engine.Consumer.Keeps.{
  Streamed, Streamed-add, Streamed-close, AllSound-stream_accepted, AllSound-get_next_item,
}

module _ {S : Type 0} where
  -- `free` is any change of the members that do not concern the streams, such as that of the flow control
  -- when it acknowledges.
  pub data Reached (ops : Store S) : Consumer S → Type 0 where
    connected : (c : Consumer S) → c.streams ≡ [] → Reached ops c
    freed :
        {c : Consumer S} (d : Consumer S) → Reached ops c → d.streams ≡ c.streams → Reached ops d
    handled :
        {c : Consumer S}
        → Reached ops c
        → (now stream_opaque vb : ℕ) (packet : Packet) (out : Consumer S × Code) → IsPacket packet
        → AllFit c.streams
        → known c + packet_bytes packet < 2 ^ 64
        → handle ops now stream_opaque vb packet c ≡ some out
        → Reached ops out.0
    processed :
        {c : Consumer S}
        → Reached ops c
        → (out : Consumer S × Outcome) → AllSmall c.streams
        → known c < 2 ^ 64
        → process_buffered_items ops c ≡ some out
        → Reached ops out.0
    changed :
        {c : Consumer S}
        → Reached ops c
        → (vb : ℕ) (d : Consumer S) → AllSmall c.streams
        → known c < 2 ^ 64
        → vbucket_state_changed vb c ≡ some d
        → Reached ops d
    added :
        {c : Consumer S}
        → Reached ops c
        → (now add_opaque vb flags : ℕ) (is_active : Bool)
          (start range_start range_end vb_uuid high_seqno : ℕ) (s : S)
        → Reached ops
            (add_stream ops now add_opaque vb flags is_active start range_start range_end vb_uuid
              high_seqno s c).0
    closed :
        {c : Consumer S}
        → Reached ops c
        → (now stream_opaque vb : ℕ) (out : Consumer S × Code)
        → close_stream now stream_opaque vb c ≡ some out
        → Reached ops out.0
    accepted :
        {c : Consumer S}
        → Reached ops c
        → (replace_log : S → S) (stream_opaque status : ℕ) (d : Consumer S)
        → stream_accepted ops replace_log stream_opaque status c ≡ some d
        → Reached ops d
    sent :
        {c : Consumer S}
        → Reached ops c
        → (out : Consumer S × Option Response) → get_next_item ops c ≡ some out
        → Reached ops out.0

  -- Every consumer that a connection without streams reaches by messages, by the processing of its
  -- buffers, by added, accepted, closed and retired streams, and by what it sends, has only sound streams:
  -- each has given its vbucket documents in the order of their sequence numbers, and the counters of its
  -- buffer are those of the messages in it. The number of buffered messages and bytes is bounded as
  -- the accounts of the bytes need it.
  pub reached-AllSound : {ops : Store S} {c : Consumer S} → Reached ops c → AllSound c.streams
  unfolding AllSound Streamed Handled
  reached-AllSound {ops = ops} (connected c e) = subst AllSound (sym e) tt
  reached-AllSound {ops = ops} (freed d r e) = subst AllSound (sym e) (reached-AllSound r)
  reached-AllSound {ops = ops} (handled {c = c} r now o vb packet out h all_fit fits e) =
      elim (handle-Handled ops now o vb packet c out h (reached-AllSound r) all_fit fits e) [
        | inl g ↦ g.sound
        | inr (g, _) ↦ g.sound
      ]
  reached-AllSound {ops = ops} (processed {c = c} r out small fits e) =
      let done = process_buffered_items-known ops c (reached-AllSound r) small fits in
      subst (λ (z : Consumer S × Outcome). AllSound z.0.streams) (eq_of_some (sym done.1 ∙ e))
        done.2
  reached-AllSound {ops = ops} (changed {c = c} r vb d small fits e) =
      (vbucket_state_changed-Gains vb c d (reached-AllSound r) small fits e).sound
  reached-AllSound {ops = ops}
        (added {c = c} r now o vb flags active start range_start range_end uuid high s) =
      Streamed-add ops now o vb flags active start range_start range_end uuid high s c
        (reached-AllSound r)
  reached-AllSound {ops = ops} (closed {c = c} r now o vb out e) =
      Streamed-close now o vb c out (reached-AllSound r) e
  reached-AllSound {ops = ops} (accepted {c = c} r replace_log o status d e) =
      AllSound-stream_accepted ops replace_log o status c d (reached-AllSound r) e
  reached-AllSound {ops = ops} (sent {c = c} r out e) =
      AllSound-get_next_item ops c out (reached-AllSound r) e
