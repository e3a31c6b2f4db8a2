-- ===== src/Stream/Active/Moves.antt =====
-- The transitions of a producer's stream are quiet and follow the diagram (src/dcp/stream.cc).

use ep_engine.Base.{
  ℕ, ◌+◌, refl, Bool, true, not, ◌&&◌, ◌||◌, ◌%◌, ◌^◌, leb, ltb, if◌then◌else◌, if-both, Ensures,
  Ensures-pure, Ensures-none, Ensures-map,
}
use ep_engine.Stream.{backfilling, in_memory, takeover_send, takeover_wait, ok}
use ep_engine.Stream.Active.{Engine, Active, cursor_end}
use ep_engine.Stream.Active.Transitions.{
  store_state, end_stream, settle_in_memory, enter_in_memory, enter_takeover_send,
  enter_takeover_wait, run_backfill, schedule_backfill, enter_backfilling,
}
use ep_engine.Stream.Active.Frame.{
  Quiet, Quiet-trans, Quiet-Still, Quiet-refl, Quiet-store_state, then-Quiet, Quiet-tell,
  Quiet-next_checkpoint_item,
}
use ep_engine.Stream.Active.End.{Quiet-end_stream}

module _ {E : Type 0} where
  Quiet-settle_in_memory :
      (ops : Engine E) (p : Active E) → Ensures (Quiet p) (settle_in_memory ops p)
  unfolding settle_in_memory
  Quiet-settle_in_memory ops p =
      if-both (Ensures (Quiet p)) (leb p.end_seqno p.last_sent_seqno)
        (then-Quiet p (end_stream ops ok p) _ (Quiet-end_stream ops ok p)
          (λ q. Ensures-pure (Quiet q) (Quiet-tell q)))
        (Ensures-pure (Quiet p) (Quiet-next_checkpoint_item ops p))

  pub Quiet-enter_in_memory :
      (ops : Engine E) (p : Active E) → Ensures (Quiet p) (enter_in_memory ops p)
  unfolding enter_in_memory
  Quiet-enter_in_memory ops p =
      if-both (Ensures (Quiet p)) _ (Ensures-pure (Quiet p) (Quiet-refl p)) (
        then-Quiet p (store_state in_memory p) (settle_in_memory ops)
          (Quiet-store_state in_memory p) (Quiet-settle_in_memory ops))

  pub Quiet-enter_takeover_send :
      (ops : Engine E) (p : Active E) → Ensures (Quiet p) (enter_takeover_send ops p)
  unfolding enter_takeover_send
  Quiet-enter_takeover_send ops p =
      if-both (Ensures (Quiet p)) _ (Ensures-pure (Quiet p) (Quiet-refl p)) (
        then-Quiet p (store_state takeover_send p) _ (Quiet-store_state takeover_send p) (λ q.
          let timed = record q { takeover_start = ops.current_time q.engine } in
          Ensures-pure (Quiet q) (
            Quiet-trans
              (Quiet-Still {p = q} {q = timed} (record {
                still_read = refl;
                still_last = refl;
                still_sent = refl;
                still_queue = refl;
                still_state = refl;
              }))
              (Quiet-next_checkpoint_item ops timed))))

  pub Quiet-enter_takeover_wait : (p : Active E) → Ensures (Quiet p) (enter_takeover_wait p)
  unfolding enter_takeover_wait
  Quiet-enter_takeover_wait p = Quiet-store_state takeover_wait p

  Quiet-run_backfill :
      (ops : Engine E) (wanted : Bool) (start stop : ℕ) (p : Active E)
      → Ensures (Quiet p) (run_backfill ops wanted start stop p)
  unfolding run_backfill
  Quiet-run_backfill ops wanted start stop p =
      if-both (Ensures (Quiet p)) (leb start stop && wanted)
        (Ensures-pure (Quiet p) (
          Quiet-Still (record {
            still_read = refl;
            still_last = refl;
            still_sent = refl;
            still_queue = refl;
            still_state = refl;
          })))
        (then-Quiet p _ _
          (if-both (Ensures (Quiet p)) p.disk_only (Quiet-end_stream ops ok p) (
            if-both (Ensures (Quiet p)) p.takeover (Quiet-enter_takeover_send ops p)
              (Quiet-enter_in_memory ops p)))
          (λ q. Ensures-pure (Quiet q) (
            Quiet-Still (record {
              still_read = refl;
              still_last = refl;
              still_sent = refl;
              still_queue = refl;
              still_state = refl;
            }))))

  pub Quiet-schedule_backfill :
      (ops : Engine E) (reschedule : Bool) (p : Active E)
      → Ensures (Quiet p) (schedule_backfill ops reschedule p)
  unfolding schedule_backfill
  Quiet-schedule_backfill ops reschedule p =
      let registered = ops.register_cursor p.last_read_seqno p.engine in
      let q = record p { engine = registered.0; cur_chk_seqno = registered.1 } in
      let start = (p.last_read_seqno + 1) % 2 ^ 64 in
      let stop = if reschedule then ops.persisted_seqno p.engine else p.end_seqno in
      if-both (Ensures (Quiet p)) (p.backfill_running || not (ops.has_vbucket p.engine))
        (Ensures-pure (Quiet p) (Quiet-refl p))
        (if-both (Ensures (Quiet p)) (p.disk_only || reschedule)
          (if-both (Ensures (Quiet p)) (ltb (ops.high_seqno p.engine) p.last_read_seqno)
            (Ensures-none (Quiet p)) (Quiet-run_backfill ops true start stop p))
          (if-both (Ensures (Quiet p)) (ltb registered.1 p.last_read_seqno) (Ensures-none (Quiet p))
            (Ensures-map (Quiet q) (Quiet p) _
              (λ r w.
                Quiet-trans
                  (Quiet-Still {p = p} {q = q} (record {
                    still_read = refl;
                    still_last = refl;
                    still_sent = refl;
                    still_queue = refl;
                    still_state = refl;
                  }))
                  w)
              (Quiet-run_backfill ops registered.2 start (cursor_end start registered.1 q.end_seqno)
                q))))

  pub Quiet-enter_backfilling :
      (ops : Engine E) (p : Active E) → Ensures (Quiet p) (enter_backfilling ops p)
  unfolding enter_backfilling
  Quiet-enter_backfilling ops p =
      if-both (Ensures (Quiet p)) _ (Ensures-pure (Quiet p) (Quiet-refl p)) (
        then-Quiet p (store_state backfilling p) _ (Quiet-store_state backfilling p)
          (λ q. Quiet-schedule_backfill ops _ q))
