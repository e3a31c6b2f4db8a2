-- ===== src/Stream/Active/Transitions.antt =====
-- src/dcp/stream.cc, class ActiveStream: the transitions of its state machine, with what each starts.
use ep_engine.Base.{
  ℕ, ◌+◌, ◌%◌, ◌^◌, Bool, true, false, not, ◌&&◌, ◌||◌, Option, none, some, ltb, leb, ◌>>=◌,
  if◌then◌else◌,
}
use ep_engine.Stream.{
  State, backfilling, in_memory, takeover_send, takeover_wait, dead, EndStatus, ok,
  stream_end_response, push, clear, notify,
}
use ep_engine.Stream.Active.{
  Engine, Active, is_valid_transition, is_dead, is_backfilling, is_in_memory, is_takeover_send,
  is_disconnected, cursor_end,
}

module _ {E : Type 0} where
  -- The part of `transitionState` that all states share: a valid new state is stored.
  unfoldable pub store_state : State → Active E → Option (Active E)
  unfolding is_valid_transition
  store_state new p =
      if is_valid_transition p.state new then some (record p { state = new }) else none

  -- `transitionState(STREAM_DEAD)`
  unfoldable pub enter_dead : Engine E → Active E → Option (Active E)
  unfolding store_state is_dead
  enter_dead ops p =
      let stored = store_state dead p in
      if is_dead p.state then some p else (do
        q ← stored
        some (
            if ops.has_vbucket q.engine
            then record q { engine = ops.remove_cursor q.engine }
            else q))

  -- The backfilled items that were not sent are given up.
  unfoldable pub clear_backfill : Engine E → Active E → Active E
  unfolding is_backfilling
  clear_backfill ops p =
      if is_backfilling p.state
      then record p {
        ready = clear p.ready;
        engine = ops.bytes_sent p.buffered_bytes p.engine;
        buffered_bytes = 0;
        buffered_items = 0;
      }
      else p

  unfoldable pub push_end : EndStatus → Active E → Active E
  unfolding is_disconnected
  push_end reason p =
      if is_disconnected reason
      then p
      else record p { ready = push (stream_end_response p.stream_opaque reason) p.ready }

  -- `endStream`
  unfoldable pub end_stream : Engine E → EndStatus → Active E → Option (Active E)
  unfolding enter_dead clear_backfill push_end is_dead
  end_stream ops reason p =
      let entered = enter_dead ops (clear_backfill ops (record p { pending_backfill = false })) in
      if is_dead p.state then some p else (do q ← entered; some (push_end reason q))

  -- `nextCheckpointItem`
  unfoldable pub next_checkpoint_item : Engine E → Active E → Active E × Bool
  next_checkpoint_item ops p =
      if ops.has_vbucket p.engine && ltb 0 (ops.items_for_cursor p.engine)
      then (record p { engine = ops.schedule_checkpoint_task p.engine }, true)
      else (p, p.extraction_in_progress)

  unfoldable pub tell : Active E → Active E
  tell p = record p { ready = notify p.ready }

  -- `transitionState(STREAM_IN_MEMORY)`
  unfoldable pub settle_in_memory : Engine E → Active E → Option (Active E)
  unfolding end_stream next_checkpoint_item tell
  settle_in_memory ops p =
      let ended = end_stream ops ok p in
      if leb p.end_seqno p.last_sent_seqno
      then (do q ← ended; some (tell q))
      else some (next_checkpoint_item ops p).0

  unfoldable pub enter_in_memory : Engine E → Active E → Option (Active E)
  unfolding store_state settle_in_memory is_in_memory
  enter_in_memory ops p =
      let stored = store_state in_memory p in
      if is_in_memory p.state then some p else (do q ← stored; settle_in_memory ops q)

  -- `transitionState(STREAM_TAKEOVER_SEND)`
  unfoldable pub enter_takeover_send : Engine E → Active E → Option (Active E)
  unfolding store_state next_checkpoint_item is_takeover_send
  enter_takeover_send ops p =
      let stored = store_state takeover_send p in
      if is_takeover_send p.state then some p else (do
        q ← stored
        some (next_checkpoint_item ops (record q { takeover_start = ops.current_time q.engine })).0)

  -- `transitionState(STREAM_TAKEOVER_WAIT)` from the phase that sends.
  unfoldable pub enter_takeover_wait : Active E → Option (Active E)
  unfolding store_state
  enter_takeover_wait p = store_state takeover_wait p

  -- The end of `scheduleBackfill_UNLOCKED`: a backfill, or the state after it.
  unfoldable pub run_backfill :
      Engine E → Bool → (backfill_start backfill_end : ℕ) → Active E → Option (Active E)
  unfolding end_stream enter_takeover_send enter_in_memory
  run_backfill ops wanted start stop p =
      let after =
        if p.disk_only
        then end_stream ops ok p
        else (if p.takeover then enter_takeover_send ops p else enter_in_memory ops p) in
      if leb start stop && wanted
      then some (record p {
        engine = ops.schedule_backfill_manager start stop p.engine;
        backfill_running = true;
      })
      else (do q ← after; some (record q { ready = record q.ready { items_ready = true } }))

  -- `scheduleBackfill_UNLOCKED`
  unfoldable pub schedule_backfill : Engine E → Bool → Active E → Option (Active E)
  unfolding run_backfill cursor_end
  schedule_backfill ops reschedule p =
      let start = (p.last_read_seqno + 1) % 2 ^ 64 in
      let stop = if reschedule then ops.persisted_seqno p.engine else p.end_seqno in
      let on_disk = run_backfill ops true start stop p in
      let (e, cursor, try_backfill) = ops.register_cursor p.last_read_seqno p.engine in
      let q = record p { engine = e; cur_chk_seqno = cursor } in
      let from_cursor =
        run_backfill ops try_backfill start (cursor_end start cursor q.end_seqno) q in
      if p.backfill_running || not (ops.has_vbucket p.engine)
      then some p
      else (if p.disk_only || reschedule
          then (if ltb (ops.high_seqno p.engine) p.last_read_seqno then none else on_disk)
          else (if ltb cursor p.last_read_seqno then none else from_cursor))

  -- `transitionState(STREAM_BACKFILLING)`
  unfoldable pub enter_backfilling : Engine E → Active E → Option (Active E)
  unfolding store_state schedule_backfill is_backfilling is_in_memory
  enter_backfilling ops p =
      let stored = store_state backfilling p in
      if is_backfilling p.state
      then some p
      else (do q ← stored; schedule_backfill ops (is_in_memory p.state) q)
