-- ===== src/Stream/Active/EventLaws.antt =====
-- The events of a producer's stream that take and send no document are quiet (src/dcp/stream.cc).

use ep_engine.Base.{
  ℕ, ◌+◌, ◌≡◌, refl, Bool, true, false, ◌%◌, ◌^◌, arith, ◌==◌, min, ◌-◌, if-both, if-cases, Ensures,
  Ensures-pure, Ensures-none, Ensures-map,
}
use ep_engine.Stream.{
  State, pending, backfilling, in_memory, takeover_send, takeover_wait, reading, dead, EndStatus,
  ok, state_changed, Response, snapshot_marker, push,
}
use ep_engine.Stream.Order.{control}
use ep_engine.Stream.Active.{Engine, Active, is_dead, is_backfilling, is_disconnected, is_pending}
use ep_engine.Stream.Active.Transitions.{end_stream, enter_takeover_send, schedule_backfill}
use ep_engine.Stream.Active.Events.{
  is_takeover_wait, set_active, set_dead, notify_seqno_available, snapshot_marker_ack,
  set_vbucket_state_ack, drop_checkpoint_cursor, drop_and_wait, slow_in, handle_slow_stream,
}
use ep_engine.Stream.Active.Backfill.{
  push_disk_marker, disk_snapshot_end, move_cursor, mark_disk_snapshot, finish_backfill,
  complete_backfill,
}
use ep_engine.Stream.Active.Diagram.{stay, is_end, mark, no_end-append}
use ep_engine.Stream.Active.Frame.{
  Quiet, Quiet-trans, Quiet-Still, Quiet-refl, then-Quiet, Quiet-engine, Quiet-pending, Quiet-tell,
}
use ep_engine.Stream.Active.End.{Quiet-end_stream, order-push_end}
use ep_engine.Stream.Active.Moves.{
  Quiet-enter_backfilling, Quiet-enter_takeover_send, Quiet-schedule_backfill,
}

pub live_backfilling : (s : State) → is_backfilling s ≡ true → is_dead s ≡ false
unfolding is_backfilling is_dead
live_backfilling s h = ground arith

module _ {E : Type 0} where
  Quiet-push :
      (r : Response) (p : Active E)
      → mark r ≡ control
      → is_end r ≡ false
      → is_dead p.state ≡ false
      → Quiet p (record p { ready = push r p.ready })
  unfolding push
  Quiet-push r p c e n = record {
    same_read = refl;
    same_last = refl;
    same_sent = refl;
    same_order = λ lo hi w. order-push_end p.ready r lo hi c w;
    route = stay;
    closed = λ k. record {
      open_end = λ h. no_end-append p.ready.queue r (k.open_end h) e;
      closed_end = λ h. absurd (ground (arith, n, h));
    };
  }

  pub Quiet-set_active : (ops : Engine E) (p : Active E) → Ensures (Quiet p) (set_active ops p)
  unfolding set_active
  Quiet-set_active ops p =
      if-both (Ensures (Quiet p)) (is_pending p.state) (Quiet-enter_backfilling ops p)
        (Ensures-pure (Quiet p) (Quiet-refl p))

  pub Quiet-set_dead :
      (ops : Engine E) (status : EndStatus) (p : Active E)
      → Ensures (Quiet p) (set_dead ops status p)
  unfolding set_dead
  Quiet-set_dead ops status p =
      then-Quiet p (end_stream ops status p) _ (Quiet-end_stream ops status p) (λ q.
        Ensures-pure (Quiet q)
          (if-both (Quiet q) (is_disconnected status) (Quiet-refl q) (Quiet-tell q)))

  pub Quiet-notify_seqno_available : (p : Active E) → Quiet p (notify_seqno_available p)
  unfolding notify_seqno_available
  Quiet-notify_seqno_available p = if-both (Quiet p) (is_dead p.state) (Quiet-refl p) (Quiet-tell p)

  pub Quiet-snapshot_marker_ack : (p : Active E) → Quiet p (snapshot_marker_ack p)
  unfolding snapshot_marker_ack
  Quiet-snapshot_marker_ack p =
      let left = (p.wait_for_snapshot + 2 ^ 32 - 1) % 2 ^ 32 in
      let q = record p { wait_for_snapshot = left } in
      let same : Quiet p q = Quiet-Still (record {
        still_read = refl;
        still_last = refl;
        still_sent = refl;
        still_queue = refl;
        still_state = refl;
      }) in
      if-both (Quiet p) (left == 0) (Quiet-trans same (Quiet-tell q)) same

  Quiet-push_disk_marker :
      (ops : Engine E) (start stop : ℕ) (p : Active E)
      → is_dead p.state ≡ false
      → Quiet p (push_disk_marker ops start stop p)
  unfolding push_disk_marker mark is_end
  Quiet-push_disk_marker ops start stop p n =
      let stop' = disk_snapshot_end ops stop p in
      let q = record p { first_marker_sent = true; last_sent_snap_end = stop' } in
      let same : Quiet p q = Quiet-Still (record {
        still_read = refl;
        still_last = refl;
        still_sent = refl;
        still_queue = refl;
        still_state = refl;
      }) in
      Quiet-trans same (
        Quiet-push (snapshot_marker p.stream_opaque (min p.snap_start_seqno start) stop' 2) q refl
          refl n)

  Quiet-move_cursor :
      (ops : Engine E) (seqno : ℕ) (p : Active E) → Quiet p (move_cursor ops seqno p)
  unfolding move_cursor
  Quiet-move_cursor ops seqno p = if-both (Quiet p) p.disk_only (Quiet-refl p) (
      Quiet-Still (record {
        still_read = refl;
        still_last = refl;
        still_sent = refl;
        still_queue = refl;
        still_state = refl;
      }))

  pub Quiet-mark_disk_snapshot :
      (ops : Engine E) (start stop : ℕ) (p : Active E)
      → Ensures (Quiet p) (mark_disk_snapshot ops start stop p)
  unfolding mark_disk_snapshot
  Quiet-mark_disk_snapshot ops start stop p =
      let q = push_disk_marker ops start stop p in
      if-cases (Ensures (Quiet p)) (is_backfilling p.state)
        (λ b.
          let marked = Quiet-push_disk_marker ops start stop p (live_backfilling p.state b) in
          if-both (Ensures (Quiet p)) (ops.has_vbucket p.engine)
            (Ensures-pure (Quiet p)
              (Quiet-trans (Quiet-trans marked (Quiet-move_cursor ops stop q)) (Quiet-tell _)))
            (Ensures-map (Quiet q) (Quiet p) _ (λ r w. Quiet-trans marked w)
              (then-Quiet q (end_stream ops state_changed q) _
                (Quiet-end_stream ops state_changed q)
                (λ r. Ensures-pure (Quiet r) (Quiet-tell r)))))
        (λ _. Ensures-pure (Quiet p) (Quiet-refl p))

  Quiet-running : (b : Bool) (p : Active E) → Quiet p (record p { backfill_running = b })
  Quiet-running b p = Quiet-Still (record {
    still_read = refl;
    still_last = refl;
    still_sent = refl;
    still_queue = refl;
    still_state = refl;
  })

  Quiet-finish_backfill :
      (ops : Engine E) (p : Active E) → Ensures (Quiet p) (finish_backfill ops p)
  unfolding finish_backfill
  Quiet-finish_backfill ops p =
      let q = record p { backfill_running = false } in
      if-both (Ensures (Quiet p)) (is_backfilling p.state)
        (if-both (Ensures (Quiet p)) p.pending_backfill
          (Ensures-map (Quiet q) (Quiet p) _ (λ r w. Quiet-trans (Quiet-running false p) w)
            (then-Quiet q (schedule_backfill ops true q) _ (Quiet-schedule_backfill ops true q)
              (λ r. Ensures-pure (Quiet r) (Quiet-pending false r))))
          (Ensures-pure (Quiet p) (Quiet-running false p)))
        (Ensures-pure (Quiet p) (Quiet-refl p))

  pub Quiet-complete_backfill :
      (ops : Engine E) (p : Active E) → Ensures (Quiet p) (complete_backfill ops p)
  unfolding complete_backfill
  Quiet-complete_backfill ops p =
      then-Quiet p (finish_backfill ops p) _ (Quiet-finish_backfill ops p)
        (λ q. Ensures-pure (Quiet q) (Quiet-trans (Quiet-running false q) (Quiet-tell _)))

  pub Quiet-set_vbucket_state_ack :
      (ops : Engine E) (p : Active E) → Ensures (Quiet p) (set_vbucket_state_ack ops p)
  unfolding set_vbucket_state_ack
  Quiet-set_vbucket_state_ack ops p =
      let q = record p { takeover_active = true } in
      let same : Quiet p q = Quiet-Still (record {
        still_read = refl;
        still_last = refl;
        still_sent = refl;
        still_queue = refl;
        still_state = refl;
      }) in
      if-both (Ensures (Quiet p)) (is_takeover_wait p.state)
        (if-both (Ensures (Quiet p)) p.takeover_active
          (then-Quiet p (end_stream ops ok p) _ (Quiet-end_stream ops ok p)
            (λ r. Ensures-pure (Quiet r) (Quiet-tell r)))
          (Ensures-map (Quiet q) (Quiet p) _ (λ r w. Quiet-trans same w)
            (then-Quiet q (enter_takeover_send ops q) _ (Quiet-enter_takeover_send ops q) (λ r.
              Ensures-pure (Quiet r)
                (Quiet-trans (Quiet-engine (ops.set_vbucket_dead r.engine) r) (Quiet-tell _))))))
        (Ensures-pure (Quiet p) (Quiet-refl p))

  Quiet-drop_and_wait : (ops : Engine E) (p : Active E) → Ensures (Quiet p) (drop_and_wait ops p)
  unfolding drop_and_wait drop_checkpoint_cursor
  Quiet-drop_and_wait ops p =
      then-Quiet p (drop_checkpoint_cursor ops p) _
        (if-both (Ensures (Quiet p)) (ops.has_vbucket p.engine)
          (Ensures-pure (Quiet p) (Quiet-engine (ops.remove_cursor p.engine) p))
          (Ensures-none (Quiet p)))
        (λ q. Ensures-pure (Quiet q) (Quiet-pending true q))

  Quiet-slow_in : (ops : Engine E) (s : State) (p : Active E) → Ensures (Quiet p) (slow_in ops s p)
  unfolding slow_in
  Quiet-slow_in ops backfilling p =
      if-both (Ensures (Quiet p)) p.backfill_running (Quiet-drop_and_wait ops p)
        (Quiet-schedule_backfill ops true p)
  Quiet-slow_in ops in_memory p = Quiet-drop_and_wait ops p
  Quiet-slow_in ops takeover_send p = Ensures-pure (Quiet p) (Quiet-refl p)
  Quiet-slow_in ops takeover_wait p = Ensures-pure (Quiet p) (Quiet-refl p)
  Quiet-slow_in ops dead p = Ensures-pure (Quiet p) (Quiet-refl p)
  Quiet-slow_in ops pending p = Ensures-none (Quiet p)
  Quiet-slow_in ops reading p = Ensures-none (Quiet p)

  pub Quiet-handle_slow_stream :
      (ops : Engine E) (p : Active E) → Ensures (Quiet p) (handle_slow_stream ops p)
  unfolding handle_slow_stream
  Quiet-handle_slow_stream ops p = Quiet-slow_in ops p.state p
