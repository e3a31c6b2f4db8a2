-- ===== src/Stream/Active/Events.antt =====
-- src/dcp/stream.cc: what happens to a producer's stream between its constructor and its end: the
-- backfill, the acknowledgements, a slow consumer.
use ep_engine.Base.{
  ℕ, ◌+◌, ◌-◌, ◌%◌, ◌^◌, Bool, true, false, ◌&&◌, [], Option, none, some, ltb, leb, ◌==◌, ◌>>=◌,
  if◌then◌else◌,
}
use ep_engine.Stream.{
  State, pending, backfilling, in_memory, takeover_send, takeover_wait, reading, dead, EndStatus,
  ok, key_value, key_only, empty_queue,
}
use ep_engine.Stream.Active.{Engine, Active, is_dead, is_pending, is_disconnected}
use ep_engine.Stream.Active.Transitions.{
  end_stream, tell, enter_backfilling, enter_takeover_send, schedule_backfill,
}

unfoldable pub is_takeover_wait : State → Bool
is_takeover_wait takeover_wait = true
is_takeover_wait _ = false

module _ {E : Type 0} where
  -- `setActive`
  unfoldable pub set_active : Engine E → Active E → Option (Active E)
  unfolding enter_backfilling is_pending
  set_active ops p =
      let entered = enter_backfilling ops p in if is_pending p.state then entered else some p

  -- `setDead`
  unfoldable pub set_dead : Engine E → EndStatus → Active E → Option (Active E)
  unfolding end_stream tell is_disconnected
  set_dead ops status p = do
    q ← end_stream ops status p
    some (if is_disconnected status then q else tell q)

  -- `notifySeqnoAvailable`
  unfoldable pub notify_seqno_available : Active E → Active E
  unfolding tell is_dead
  notify_seqno_available p = if is_dead p.state then p else tell p

  -- `snapshotMarkerAckReceived`; the counter is an `int` of 32 bits.
  unfoldable pub snapshot_marker_ack : Active E → Active E
  unfolding tell
  snapshot_marker_ack p =
      let left = (p.wait_for_snapshot + 2 ^ 32 - 1) % 2 ^ 32 in
      let q = record p { wait_for_snapshot = left } in if left == 0 then tell q else q

  -- The constructor.
  unfoldable pub waiting :
      (takeover disk_only key_only : Bool)
      → (stream_opaque start_seqno end_seqno snap_start max_time : ℕ) → E
      → Active E
  unfolding empty_queue
  waiting takes disk only o start stop snap_start max_time e = record {
    state = pending;
    ready = empty_queue;
    stream_opaque = o;
    takeover = takes;
    disk_only = disk;
    payload = if only then key_only else key_value;
    end_seqno = stop;
    snap_start_seqno = snap_start;
    last_read_unsnapshotted = start;
    last_read_seqno = start;
    last_sent_seqno = start;
    cur_chk_seqno = start;
    takeover_active = false;
    backfill_remaining = 0;
    items_from_memory = 0;
    first_marker_sent = false;
    wait_for_snapshot = 0;
    backfill_running = false;
    pending_backfill = false;
    last_sent_snap_end = 0;
    extraction_in_progress = false;
    takeover_start = 0;
    takeover_max_time = max_time;
    backfill_from_memory = 0;
    backfill_from_disk = 0;
    backfill_sent = 0;
    buffered_bytes = 0;
    buffered_items = 0;
    engine = e;
    sent = [];
  }

  -- The end of a replica's stream covers its snapshot.
  unfoldable pub last_seqno_of : Engine E → Bool → ℕ → E → ℕ
  last_seqno_of ops takes stop e =
      let stop' = if takes then 2 ^ 64 - 1 else stop in
      if ops.has_vbucket e && ops.is_replica e && ltb stop (ops.snapshot_end e)
      then ops.snapshot_end e
      else stop'

  unfoldable pub new_active :
      Engine E
      → (takeover disk_only key_only : Bool)
      → (stream_opaque start_seqno end_seqno snap_start max_time : ℕ) → E
      → Option (Active E)
  unfolding waiting last_seqno_of end_stream
  new_active ops takes disk only o start stop snap_start max_time e =
      let p =
        waiting takes disk only o start (last_seqno_of ops takes stop e) snap_start max_time e in
      let ended = end_stream ops ok p in
      if leb p.end_seqno start
      then (do q ← ended; some (record q { ready = record q.ready { items_ready = true } }))
      else some p

  -- `incrBackfillRemaining`
  unfoldable pub incr_backfill_remaining : ℕ → Active E → Active E
  incr_backfill_remaining by p = record p {
    backfill_remaining = (p.backfill_remaining + by) % 2 ^ 64;
  }

  -- `setVBucketStateAckRecieved`
  unfoldable pub set_vbucket_state_ack : Engine E → Active E → Option (Active E)
  unfolding enter_takeover_send end_stream tell is_takeover_wait
  set_vbucket_state_ack ops p =
      let sending = enter_takeover_send ops (record p { takeover_active = true }) in
      let ended = end_stream ops ok p in
      if is_takeover_wait p.state
      then (if p.takeover_active
          then (do q ← ended; some (tell q))
          else (do q ← sending; some (tell (record q { engine = ops.set_vbucket_dead q.engine }))))
      else some p

  -- `dropCheckpointCursor_UNLOCKED`, which uses the vbucket also when there is none.
  unfoldable pub drop_checkpoint_cursor : Engine E → Active E → Option (Active E)
  drop_checkpoint_cursor ops p =
      if ops.has_vbucket p.engine
      then some (record p { engine = ops.remove_cursor p.engine })
      else none

  unfoldable pub drop_and_wait : Engine E → Active E → Option (Active E)
  unfolding drop_checkpoint_cursor
  drop_and_wait ops p = do
    q ← drop_checkpoint_cursor ops p
    some (record q { pending_backfill = true })

  -- `handleSlowStream`
  unfoldable pub slow_in : Engine E → State → Active E → Option (Active E)
  unfolding drop_and_wait schedule_backfill
  slow_in ops backfilling p =
      if p.backfill_running then drop_and_wait ops p else schedule_backfill ops true p
  slow_in ops in_memory p = drop_and_wait ops p
  slow_in ops takeover_send p = some p
  slow_in ops takeover_wait p = some p
  slow_in ops dead p = some p
  slow_in ops pending p = none
  slow_in ops reading p = none

  unfoldable pub handle_slow_stream : Engine E → Active E → Option (Active E)
  unfolding slow_in
  handle_slow_stream ops p = slow_in ops p.state p
