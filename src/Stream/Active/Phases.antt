-- ===== src/Stream/Active/Phases.antt =====
-- src/dcp/stream.cc: what a producer's stream hands to the connection in each of its states.
use ep_engine.Base.{
  ◌+◌, ◌-◌, ◌%◌, ◌^◌, Bool, true, false, not, ◌&&◌, ◌||◌, List, [], ◌∷◌, Option, none, some, ltb,
  leb, ◌==◌, ◌>>=◌, if◌then◌else◌,
}
use ep_engine.Stream.{
  State, pending, backfilling, in_memory, takeover_send, takeover_wait, reading, dead, ok, Response,
  set_vbucket_state, mutation_response, message_size, pop,
}
use ep_engine.Stream.Active.{Engine, Active, is_backfilling}
use ep_engine.Stream.Active.Transitions.{
  end_stream, next_checkpoint_item, enter_backfilling, enter_takeover_send, enter_takeover_wait,
  enter_in_memory,
}

unfoldable pub is_empty : List Response → Bool
is_empty [] = true
is_empty (r ∷ rs) = false

unfoldable pub is_some : Option Response → Bool
is_some none = false
is_some (some r) = true

module _ {E : Type 0} where
  -- What is noted of a document that is sent.
  unfoldable pub note_sent : Response → Active E → Active E
  unfolding is_backfilling
  note_sent (mutation_response m) p =
      let filling = is_backfilling p.state in
      record p {
        last_sent_seqno = m.by_seqno;
        backfill_sent = if filling then (p.backfill_sent + 1) % 2 ^ 64 else p.backfill_sent;
        items_from_memory =
            if filling then p.items_from_memory else (p.items_from_memory + 1) % 2 ^ 64;
        sent = m.by_seqno ∷ p.sent;
      }
  note_sent _ p = p

  -- `nextQueuedItem`
  unfoldable pub next_queued_item : Engine E → Active E → Active E × Option Response
  unfolding note_sent
  next_queued_item ops p = elim p.ready.queue [
    | [] ↦ (p, none)
    | r ∷ rest ↦
        let (e, room) = ops.buffer_log_insert (message_size r) p.engine in
        let q = record p { engine = e } in
        if room
        then (let noted = note_sent r q in (record noted { ready = pop noted.ready }, some r))
        else (q, none)
  ]

  -- A document of the backfill has left the buffer.
  unfoldable pub release : Engine E → Option Response → Active E → Active E
  release ops (some (mutation_response m)) p = record p {
    engine = ops.bytes_sent (ops.item_size m) p.engine;
    buffered_bytes = (p.buffered_bytes + 2 ^ 32 - ops.item_size m % 2 ^ 32) % 2 ^ 32;
    buffered_items = (p.buffered_items + 2 ^ 32 - 1) % 2 ^ 32;
    backfill_remaining = p.backfill_remaining - 1;
  }
  release ops _ p = p

  -- The state after a backfill.
  unfoldable pub after_backfill : Engine E → Active E → Option (Active E)
  unfolding end_stream enter_takeover_send enter_in_memory
  after_backfill ops p =
      if leb p.end_seqno p.last_read_seqno
      then end_stream ops ok p
      else (if p.takeover
          then enter_takeover_send ops p
          else (if p.disk_only then end_stream ops ok p else enter_in_memory ops p))

  unfoldable pub or_next : Engine E → Option Response → Active E → Active E × Option Response
  unfolding next_queued_item
  or_next ops (some r) p = (p, some r)
  or_next ops none p = next_queued_item ops p

  -- `backfillPhase`
  unfoldable pub backfill_phase : Engine E → Active E → Option (Active E × Option Response)
  unfolding next_queued_item release after_backfill or_next is_empty
  backfill_phase ops p =
      let (first, resp) = next_queued_item ops p in
      let q = release ops resp first in
      let entered = after_backfill ops (record q { backfill_remaining = 0 }) in
      if not q.backfill_running && is_empty q.ready.queue
      then (do r ← entered; some (or_next ops resp r))
      else some (q, resp)

  -- `inMemoryPhase`
  unfoldable pub switch_to_backfill : Engine E → Active E → Option (Active E × Option Response)
  unfolding enter_backfilling
  switch_to_backfill ops p = do
    q ← enter_backfilling ops p
    some (record q { pending_backfill = false }, none)

  unfoldable pub end_in_memory : Engine E → Active E → Option (Active E × Option Response)
  unfolding end_stream next_queued_item
  end_in_memory ops p = do q ← end_stream ops ok p; some (next_queued_item ops q)

  unfoldable pub in_memory_phase : Engine E → Active E → Option (Active E × Option Response)
  unfolding end_in_memory switch_to_backfill next_checkpoint_item next_queued_item is_empty
  in_memory_phase ops p =
      let (q, more) = next_checkpoint_item ops p in
      if leb p.end_seqno p.last_sent_seqno
      then end_in_memory ops p
      else (if is_empty p.ready.queue
          then (if p.pending_backfill
              then switch_to_backfill ops p
              else (if more then some (q, none) else some (next_queued_item ops q)))
          else some (next_queued_item ops p))

  -- `takeoverSendPhase`; the states of a vbucket are those of its protocol, 1 for active and 3 for
  -- pending.
  unfoldable pub back_up : Engine E → Active E → Active E
  back_up ops p =
      if ops.has_vbucket p.engine
        && not (p.takeover_start == 0)
        && not (ops.is_takeover_backed_up p.engine)
        && ltb p.takeover_max_time
            ((ops.current_time p.engine + 2 ^ 32 - p.takeover_start) % 2 ^ 32)
      then record p { engine = ops.set_takeover_backed_up true p.engine }
      else p

  unfoldable pub stop_clock : Engine E → Active E → Active E
  stop_clock ops p =
      if ops.has_vbucket p.engine
      then record p { engine = ops.set_takeover_backed_up false p.engine; takeover_start = 0 }
      else p

  unfoldable pub hand_over : Engine E → Active E → Option (Active E × Option Response)
  unfolding enter_takeover_wait stop_clock
  hand_over ops p =
      let q = stop_clock ops p in
      let (e, room) = ops.buffer_log_insert 25 q.engine in
      let inserted = record q { engine = e } in
      let state = if p.takeover_active then 1 else 3 in
      let waiting = enter_takeover_wait inserted in
      if room
      then (do r ← waiting; some (r, some (set_vbucket_state p.stream_opaque state)))
      else some (inserted, none)

  unfoldable pub takeover_send_phase : Engine E → Active E → Option (Active E × Option Response)
  unfolding back_up next_queued_item next_checkpoint_item hand_over is_empty
  takeover_send_phase ops p =
      let q = back_up ops p in
      let (r, more) = next_checkpoint_item ops q in
      let handed = hand_over ops r in
      if is_empty q.ready.queue
      then (if more || not (r.wait_for_snapshot == 0) then some (r, none) else handed)
      else some (next_queued_item ops q)

  unfoldable pub phase : Engine E → State → Active E → Option (Active E × Option Response)
  unfolding backfill_phase in_memory_phase takeover_send_phase next_queued_item
  phase ops pending p = some (p, none)
  phase ops backfilling p = backfill_phase ops p
  phase ops in_memory p = in_memory_phase ops p
  phase ops takeover_send p = takeover_send_phase ops p
  phase ops takeover_wait p = some (next_queued_item ops p)
  phase ops reading p = none
  phase ops dead p = some (next_queued_item ops p)

  -- `next`. Its test for another round compares the state with itself, so that there is none.
  unfoldable pub next : Engine E → Active E → Option (Active E × Option Response)
  unfolding phase is_some
  next ops p = do
    (q, resp) ← phase ops p.state p
    some (record q { ready = record q.ready { items_ready = is_some resp } }, resp)
