-- ===== src/Stream/Active/PhaseLaws.antt =====
-- Each phase of a producer's stream keeps what its messages and its quiet operations keep (src/dcp/stream.cc).

use ep_engine.Base.{
  refl, true, false, not, ◌&&◌, ◌||◌, Option, none, some, leb, ◌==◌, if-both, Ensures, Ensures-pure,
  Ensures-none, Ensures-map, Ensures-bind,
}
use ep_engine.Stream.{
  State, pending, backfilling, in_memory, takeover_send, takeover_wait, reading, dead, ok, Response,
  stream_request, add_stream_response, snapshot_marker_response, set_vbucket_state_response,
  set_vbucket_state, mutation_response, stream_end_response, snapshot_marker,
}
use ep_engine.Stream.Active.{Engine, Active}
use ep_engine.Stream.Active.Transitions.{
  end_stream, next_checkpoint_item, enter_takeover_wait, enter_backfilling,
}
use ep_engine.Stream.Active.Frame.{
  Quiet, Quiet-Still, Quiet-refl, Quiet-engine, Quiet-pending, Quiet-next_checkpoint_item,
}
use ep_engine.Stream.Active.End.{Quiet-end_stream}
use ep_engine.Stream.Active.Moves.{
  Quiet-enter_backfilling, Quiet-enter_takeover_send, Quiet-enter_in_memory,
  Quiet-enter_takeover_wait,
}
use ep_engine.Stream.Active.Phases.{
  is_empty, next_queued_item, release, after_backfill, or_next, backfill_phase, switch_to_backfill,
  end_in_memory, in_memory_phase, back_up, stop_clock, hand_over, takeover_send_phase, phase, next,
}

module _ {E : Type 0} where
  Quiet-release :
      (ops : Engine E) (resp : Option Response) (p : Active E) → Quiet p (release ops resp p)
  unfolding release
  Quiet-release ops none p = Quiet-refl p
  Quiet-release ops (some (mutation_response m)) p = Quiet-Still (record {
    still_read = refl;
    still_last = refl;
    still_sent = refl;
    still_queue = refl;
    still_state = refl;
  })
  Quiet-release ops (some (stream_request a b c d f g h)) p = Quiet-refl p
  Quiet-release ops (some (add_stream_response a b c)) p = Quiet-refl p
  Quiet-release ops (some (snapshot_marker_response a b)) p = Quiet-refl p
  Quiet-release ops (some (set_vbucket_state_response a b)) p = Quiet-refl p
  Quiet-release ops (some (stream_end_response a b)) p = Quiet-refl p
  Quiet-release ops (some (set_vbucket_state a b)) p = Quiet-refl p
  Quiet-release ops (some (snapshot_marker a b c d)) p = Quiet-refl p

  Quiet-after_backfill : (ops : Engine E) (p : Active E) → Ensures (Quiet p) (after_backfill ops p)
  unfolding after_backfill
  Quiet-after_backfill ops p =
      if-both (Ensures (Quiet p)) (leb p.end_seqno p.last_read_seqno) (Quiet-end_stream ops ok p) (
        if-both (Ensures (Quiet p)) p.takeover (Quiet-enter_takeover_send ops p) (
          if-both (Ensures (Quiet p)) p.disk_only (Quiet-end_stream ops ok p)
            (Quiet-enter_in_memory ops p)))

  Quiet-back_up : (ops : Engine E) (p : Active E) → Quiet p (back_up ops p)
  unfolding back_up
  Quiet-back_up ops p =
      if-both (Quiet p) _ (Quiet-engine (ops.set_takeover_backed_up true p.engine) p) (Quiet-refl p)

  Quiet-stop_clock : (ops : Engine E) (p : Active E) → Quiet p (stop_clock ops p)
  unfolding stop_clock
  Quiet-stop_clock ops p =
      if-both (Quiet p) (ops.has_vbucket p.engine)
        (Quiet-Still (record {
          still_read = refl;
          still_last = refl;
          still_sent = refl;
          still_queue = refl;
          still_state = refl;
        }))
        (Quiet-refl p)

module _ {E : Type 0} (P : Active E → Type 0) (keeps : (p q : Active E) → P p → Quiet p q → P q)
    (sends : (ops : Engine E) (p : Active E) → P p → P (next_queued_item ops p).0) where
  KeptOut : Active E × Option Response → Type 0
  KeptOut out = P out.0

  Kept-all : (p : Active E) (o : Option (Active E)) → P p → Ensures (Quiet p) o → Ensures P o
  Kept-all p o k w = Ensures-map (Quiet p) P o (λ q v. keeps _ _ k v) w

  Kept-or_next :
      (ops : Engine E) (resp : Option Response) (p : Active E) → P p → KeptOut (or_next ops resp p)
  unfolding or_next KeptOut
  Kept-or_next ops none p o = sends ops p o
  Kept-or_next ops (some r) p o = o

  Kept-backfill_phase :
      (ops : Engine E) (p : Active E) → P p → Ensures KeptOut (backfill_phase ops p)
  unfolding backfill_phase KeptOut
  Kept-backfill_phase ops p o =
      let first = next_queued_item ops p in
      let q = release ops first.1 first.0 in
      let released = keeps _ _ (sends ops p o) (Quiet-release ops first.1 first.0) in
      let start = record q { backfill_remaining = 0 } in
      let same : Quiet q start = Quiet-Still (record {
        still_read = refl;
        still_last = refl;
        still_sent = refl;
        still_queue = refl;
        still_state = refl;
      }) in
      if-both (Ensures KeptOut) (not q.backfill_running && is_empty q.ready.queue)
        (Ensures-bind P KeptOut (after_backfill ops start) _
          (Kept-all start _ (keeps _ _ released same) (Quiet-after_backfill ops start))
          (λ r k. Ensures-pure KeptOut (Kept-or_next ops first.1 r k)))
        (Ensures-pure KeptOut released)

  Kept-in_memory_phase :
      (ops : Engine E) (p : Active E) → P p → Ensures KeptOut (in_memory_phase ops p)
  unfolding in_memory_phase switch_to_backfill end_in_memory KeptOut
  Kept-in_memory_phase ops p o =
      let checked = next_checkpoint_item ops p in
      let k = keeps _ _ o (Quiet-next_checkpoint_item ops p) in
      if-both (Ensures KeptOut) (leb p.end_seqno p.last_sent_seqno)
        (Ensures-bind P KeptOut (end_stream ops ok p) _ (Kept-all p _ o (Quiet-end_stream ops ok p))
          (λ q w. Ensures-pure KeptOut (sends ops q w)))
        (if-both (Ensures KeptOut) (is_empty p.ready.queue)
          (if-both (Ensures KeptOut) p.pending_backfill
            (Ensures-bind P KeptOut (enter_backfilling ops p) _
              (Kept-all p _ o (Quiet-enter_backfilling ops p))
              (λ q w. Ensures-pure KeptOut (keeps _ _ w (Quiet-pending false q))))
            (if-both (Ensures KeptOut) checked.1 (Ensures-pure KeptOut k)
              (Ensures-pure KeptOut (sends ops checked.0 k))))
          (Ensures-pure KeptOut (sends ops p o)))

  Kept-hand_over : (ops : Engine E) (p : Active E) → P p → Ensures KeptOut (hand_over ops p)
  unfolding hand_over KeptOut
  Kept-hand_over ops p o =
      let q = stop_clock ops p in
      let inserted = ops.buffer_log_insert 25 q.engine in
      let r = record q { engine = inserted.0 } in
      let k = keeps _ _ (keeps _ _ o (Quiet-stop_clock ops p)) (Quiet-engine inserted.0 q) in
      if-both (Ensures KeptOut) inserted.1
        (Ensures-bind P KeptOut (enter_takeover_wait r) _
          (Kept-all r _ k (Quiet-enter_takeover_wait r)) (λ z w. Ensures-pure KeptOut w))
        (Ensures-pure KeptOut k)

  Kept-takeover_send_phase :
      (ops : Engine E) (p : Active E) → P p → Ensures KeptOut (takeover_send_phase ops p)
  unfolding takeover_send_phase KeptOut
  Kept-takeover_send_phase ops p o =
      let q = back_up ops p in
      let k = keeps _ _ o (Quiet-back_up ops p) in
      let checked = next_checkpoint_item ops q in
      let w = keeps _ _ k (Quiet-next_checkpoint_item ops q) in
      if-both (Ensures KeptOut) (is_empty q.ready.queue)
        (if-both (Ensures KeptOut) (checked.1 || not (checked.0.wait_for_snapshot == 0))
          (Ensures-pure KeptOut w) (Kept-hand_over ops checked.0 w))
        (Ensures-pure KeptOut (sends ops q k))

  Kept-phase : (ops : Engine E) (s : State) (p : Active E) → P p → Ensures KeptOut (phase ops s p)
  unfolding phase KeptOut
  Kept-phase ops pending p o = Ensures-pure KeptOut o
  Kept-phase ops backfilling p o = Kept-backfill_phase ops p o
  Kept-phase ops in_memory p o = Kept-in_memory_phase ops p o
  Kept-phase ops takeover_send p o = Kept-takeover_send_phase ops p o
  Kept-phase ops takeover_wait p o = Ensures-pure KeptOut (sends ops p o)
  Kept-phase ops reading p o = Ensures-none KeptOut
  Kept-phase ops dead p o = Ensures-pure KeptOut (sends ops p o)

  pub Kept-next : (ops : Engine E) (p : Active E) → P p → Ensures (λ out. P out.0) (next ops p)
  unfolding next KeptOut
  Kept-next ops p o =
      Ensures-bind KeptOut KeptOut (phase ops p.state p) _ (Kept-phase ops p.state p o) (λ out k.
        Ensures-pure KeptOut (
          keeps _ _ k (
            Quiet-Still (record {
              still_read = refl;
              still_last = refl;
              still_sent = refl;
              still_queue = refl;
              still_state = refl;
            }))))
