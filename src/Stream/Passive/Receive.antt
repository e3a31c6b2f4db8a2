-- ===== src/Stream/Passive/Receive.antt =====
-- src/dcp/stream.cc, class PassiveStream: the operations of the stream, its receipt of messages and its
-- buffer.
use ep_engine.Base.{
  ℕ, zero, suc, ◌+◌, ◌-◌, ◌%◌, ◌^◌, true, false, ◌&&◌, List, [], ◌∷◌, ◌++◌, Option, none, some, ltb,
  leb, ◌==◌, ◌>>=◌, if◌then◌else◌,
}
use ep_engine.Stream.{reading, dead, Response, stream_request, add_stream_response, pop}
use ep_engine.Stream.Passive.{
  Code, success, tmpfail, erange, key_enoent, einval, disconnect, Outcome, all_processed,
  cannot_process, Message, mutation, marker, set_vbucket, stream_end, unknown, size, Store, Passive,
  batch_size, is_dead, is_pending, is_retry, is_erange, is_success, enter, send,
}
use ep_engine.Stream.Passive.Process.{process}

module _ {S : Type 0} where
  unfoldable pub buffer_message : Message → Passive S → Passive S
  unfolding size
  buffer_message m p = record p {
    messages = p.messages ++ m ∷ [];
    buffer_items = (p.buffer_items + 1) % 2 ^ 64;
    buffer_bytes = (p.buffer_bytes + size m) % 2 ^ 64;
  }

  -- `messageReceived` up to the throttle: a refusal, or the stream to go on with.
  unfoldable pub check : Message → Passive S → Code × Passive S
  check (mutation m) p =
      if leb m.by_seqno p.last_seqno
      then (erange, p)
      else (success, record p { last_seqno = m.by_seqno })
  check (marker start stop flags) p =
      if ltb start p.last_seqno && leb stop p.last_seqno then (erange, p) else (success, p)
  check (set_vbucket new) p = (success, p)
  check stream_end p = (success, p)
  check (unknown n) p = (disconnect, p)

  unfoldable pub kept_or_done : Passive S × Code × Message → Passive S × Code
  unfolding buffer_message is_retry
  kept_or_done out =
      if is_retry out.1 then (buffer_message out.2 out.0, tmpfail) else (out.0, out.1)

  unfoldable pub admit : Store S → Message → Passive S → Option (Passive S × Code)
  unfolding process kept_or_done buffer_message
  admit ops m p =
      let processed = process ops m p in
      if ops.should_process p.store && (p.buffer_items == 0)
      then (do out ← processed; some (kept_or_done out))
      else some (buffer_message m p, tmpfail)

  -- `messageReceived`; the message may be null.
  unfoldable pub message_received : Store S → Option Message → Passive S → Option (Passive S × Code)
  unfolding check admit is_dead is_success
  message_received ops none p = some (p, einval)
  message_received ops (some m) p =
      let checked = check m p in
      let admitted = admit ops m checked.1 in
      if is_dead p.state
      then some (p, key_enoent)
      else (if is_success checked.0 then admitted else some (p, checked.0))

  -- `clearBuffer_UNLOCKED`: the stream, and the bytes not acknowledged.
  unfoldable pub clear_buffer : Passive S → Passive S × ℕ
  clear_buffer p =
      (record p { messages = []; buffer_bytes = 0; buffer_items = 0 }, p.buffer_bytes % 2 ^ 32)

  -- The front of the buffer leaves it.
  unfoldable pub drop_front : Message → List Message → Passive S → Passive S
  unfolding size
  drop_front m rest p = record p {
    messages = rest;
    buffer_items = (p.buffer_items + 2 ^ 64 - 1) % 2 ^ 64;
    buffer_bytes = (p.buffer_bytes + 2 ^ 64 - size m) % 2 ^ 64;
  }

  -- The loop of `processBufferedMessages`, which has `left` messages of its batch left and has processed
  -- `total` bytes. A failed message stays in front, as its processing left it.
  unfoldable pub process_loop :
      Store S → (left total : ℕ) → List Message → Passive S → Option (Passive S × Outcome × ℕ)
  unfolding process drop_front clear_buffer is_dead is_retry is_erange
  process_loop ops zero total ms p = some (p, all_processed, total)
  process_loop ops (suc left) total [] p = some (p, all_processed, total)
  process_loop ops (suc left) total (m ∷ rest) p =
      let cleared = clear_buffer p in
      let next = process ops m p in
      elim (is_dead p.state) [
        | true ↦ some (cleared.0, all_processed, (total + cleared.1) % 2 ^ 32)
        | false ↦ elim next [
          | none ↦ none
          | some (q, ret, m') ↦ elim (is_retry ret) [
            | true ↦ some (record q { messages = m' ∷ rest }, cannot_process, total)
            | false ↦
                process_loop ops left (if is_erange ret then total else (total + size m) % 2 ^ 32)
                  rest (drop_front m rest q)
          ]
        ]
      ]

  -- `processBufferedMessages`: the answer and the processed bytes.
  unfoldable pub process_buffered : Store S → Passive S → Option (Passive S × Outcome × ℕ)
  unfolding process_loop
  process_buffered ops p = process_loop ops batch_size 0 p.messages p

  -- `setDead`: the bytes not acknowledged.
  unfoldable pub set_dead : Passive S → Option (Passive S × ℕ)
  unfolding clear_buffer enter
  set_dead p = do q ← enter dead (clear_buffer p).0; some (q, (clear_buffer p).1)

  -- `acceptStream`
  unfoldable pub accept_stream : (status add_opaque : ℕ) → Passive S → Option (Passive S)
  unfolding is_pending enter send
  accept_stream status add_opaque p =
      let entered = enter (if status == 0 then reading else dead) p in
      if is_pending p.state
      then (do q ← entered; some (send (add_stream_response add_opaque p.stream_opaque status) q))
      else some p

  -- `reconnectStream`, with the uuid of the latest entry of the failover table and the snapshot of
  -- the checkpoint manager, and the sequence number to start from.
  unfoldable pub reconnect_stream :
      (vb_uuid snapshot_seqno range_start range_end new_opaque start_seqno : ℕ)
      → Passive S
      → Passive S
  unfolding send
  reconnect_stream uuid seqno range_start range_end o start p =
      let snap_start = if range_end == seqno then seqno else range_start in
      send (stream_request o p.flags start p.end_seqno uuid snap_start range_end) (record p {
        vb_uuid = uuid;
        snap_start_seqno = snap_start;
        start_seqno = seqno;
        snap_end_seqno = range_end;
        last_seqno = start;
      })

  -- `next`
  unfoldable pub next : Passive S → Passive S × Option Response
  unfolding pop
  next p = elim p.ready.queue [
    | [] ↦ (record p { ready = record p.ready { items_ready = false } }, none)
    | r ∷ rest ↦ (record p { ready = pop p.ready }, some r)
  ]
