-- ===== src/Stream/Active/Backfill.antt =====
-- src/dcp/stream.cc: what a backfill hands to a producer's stream.
use ep_engine.Base.{
  ℕ, ◌+◌, ◌%◌, ◌^◌, min, Bool, true, false, ◌&&◌, Option, none, some, ltb, ◌>>=◌, if◌then◌else◌,
}
use ep_engine.Stream.{state_changed, Mutation, snapshot_marker, mutation_response, push}
use ep_engine.Stream.Active.{Engine, Active, is_backfilling}
use ep_engine.Stream.Active.Transitions.{end_stream, tell, schedule_backfill}

module _ {E : Type 0} where
  -- The end of the disk snapshot: a replica may have more of it in memory.
  unfoldable pub disk_snapshot_end : Engine E → ℕ → Active E → ℕ
  disk_snapshot_end ops stop p =
      if ops.has_vbucket p.engine && ops.is_replica p.engine && ltb stop p.end_seqno
      then ops.snapshot_end p.engine
      else stop

  unfoldable pub push_disk_marker : Engine E → (start_seqno end_seqno : ℕ) → Active E → Active E
  unfolding disk_snapshot_end
  push_disk_marker ops start stop p =
      let stop' = disk_snapshot_end ops stop p in
      record p {
        first_marker_sent = true;
        ready =
            push (snapshot_marker p.stream_opaque (min p.snap_start_seqno start) stop' 2) p.ready;
        last_sent_snap_end = stop';
      }

  unfoldable pub move_cursor : Engine E → ℕ → Active E → Active E
  move_cursor ops seqno p =
      let (e, cursor, _) = ops.register_cursor seqno p.engine in
      if p.disk_only then p else record p { engine = e; cur_chk_seqno = cursor }

  -- `markDiskSnapshot`
  unfoldable pub mark_disk_snapshot :
      Engine E → (start_seqno end_seqno : ℕ) → Active E → Option (Active E)
  unfolding push_disk_marker move_cursor end_stream tell is_backfilling
  mark_disk_snapshot ops start stop p =
      let q = push_disk_marker ops start stop p in
      let ended = end_stream ops state_changed q in
      if is_backfilling p.state
      then (if ops.has_vbucket p.engine
          then some (tell (move_cursor ops stop q))
          else (do r ← ended; some (tell r)))
      else some p

  unfoldable pub buffer_item : Engine E → Mutation → Bool → Active E → Active E
  unfolding tell
  buffer_item ops m from_memory p = tell (record p {
    buffered_bytes = (p.buffered_bytes + ops.item_size m) % 2 ^ 32;
    buffered_items = (p.buffered_items + 1) % 2 ^ 32;
    ready = push (mutation_response m) p.ready;
    last_read_seqno = m.by_seqno;
    backfill_from_memory =
        if from_memory then (p.backfill_from_memory + 1) % 2 ^ 64 else p.backfill_from_memory;
    backfill_from_disk =
        if from_memory then p.backfill_from_disk else (p.backfill_from_disk + 1) % 2 ^ 64;
  })

  -- `backfillReceived`; the item may be null. The answer tells whether the item was taken.
  unfoldable pub backfill_received : Engine E → Option Mutation → Bool → Active E → Active E × Bool
  unfolding buffer_item is_backfilling
  backfill_received ops none from_memory p = (p, false)
  backfill_received ops (some m) from_memory p =
      let (e, room) = ops.bytes_read (ops.item_size m) p.engine in
      let q = record p { engine = e } in
      if is_backfilling p.state
      then (if room then (buffer_item ops m from_memory q, true) else (q, false))
      else (p, true)

  -- `completeBackfill`
  unfoldable pub finish_backfill : Engine E → Active E → Option (Active E)
  unfolding schedule_backfill is_backfilling
  finish_backfill ops p =
      let q = record p { backfill_running = false } in
      let scheduled = schedule_backfill ops true q in
      if is_backfilling p.state
      then (if p.pending_backfill
          then (do r ← scheduled; some (record r { pending_backfill = false }))
          else some q)
      else some p

  unfoldable pub complete_backfill : Engine E → Active E → Option (Active E)
  unfolding finish_backfill tell
  complete_backfill ops p = do
    q ← finish_backfill ops p
    some (tell (record q { backfill_running = false }))
