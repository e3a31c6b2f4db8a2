-- ===== src/Stream/Active/End.antt =====
-- The end of a producer's stream (src/dcp/stream.cc).
use mathlib.Core.Path.{subst}
use ep_engine.Base.{
  ℕ, ◌≡◌, refl, sym, ap, ◌∙◌, true, false, List, [], ◌∷◌, ◌++◌, arith, if◌then◌else◌, if-both,
  if-cases, Ensures, Ensures-bind,
}
use ep_engine.Stream.{
  State, dead, EndStatus, Response, stream_end_response, ReadyQueue, push, clear, clear_list,
  pop_front,
}
use ep_engine.Stream.Order.{control, floor, rises, Between, Between-append, Between-le}
use ep_engine.Stream.Active.{
  Engine, Active, is_valid_transition, is_dead, is_backfilling, is_disconnected,
}
use ep_engine.Stream.Active.Transitions.{
  store_state, enter_dead, clear_backfill, push_end, end_stream,
}
use ep_engine.Stream.Active.Diagram.{
  Route, stay, move, mark, no_end, ends_last, ends_last-append, ends_last-no_end,
}
use ep_engine.Stream.Active.Frame.{Quiet, Quiet-trans, Quiet-refl, Quiet-pending}

queue-clear_list :
    (rs : List Response) (q : ReadyQueue) → q.queue ≡ rs → (clear_list rs q).queue ≡ []
unfolding clear_list pop_front
queue-clear_list [] q e = e
queue-clear_list (r ∷ rs) q e = queue-clear_list rs (pop_front r rs q) refl

queue-clear : (q : ReadyQueue) → (clear q).queue ≡ []
unfolding clear
queue-clear q = queue-clear_list q.queue q refl

pub order-push_end :
    (q : ReadyQueue) (r : Response) (lo hi : ℕ)
    → mark r ≡ control
    → Between mark lo q.queue hi
    → Between mark lo (push r q).queue hi
unfolding push floor rises
order-push_end q r lo hi c w =
    subst (λ z. Between mark lo (q.queue ++ r ∷ []) (floor hi z)) c
      (Between-append mark lo hi q.queue r w (ap (rises hi) c))

module _ {E : Type 0} where
  Quiet-clear_backfill : (ops : Engine E) (p : Active E) → Quiet p (clear_backfill ops p)
  unfolding clear_backfill Between no_end ends_last
  Quiet-clear_backfill ops p =
      if-both (Quiet p) (is_backfilling p.state)
        (record {
          same_read = refl;
          same_last = refl;
          same_sent = refl;
          same_order = λ lo hi w.
              subst (λ l. Between mark lo l hi) (sym (queue-clear p.ready))
                (Between-le mark lo hi p.ready.queue w);
          route = stay;
          closed = λ c. record {
            open_end = λ h. ap no_end (queue-clear p.ready);
            closed_end = λ h. ap ends_last (queue-clear p.ready);
          };
        })
        (Quiet-refl p)

  state-clear_backfill : (ops : Engine E) (p : Active E) → (clear_backfill ops p).state ≡ p.state
  unfolding clear_backfill
  state-clear_backfill ops p = ground arith

  -- A live stream dies with the queue that it has.
  record Died (p q : Active E) : Type 0 where
    died_read : q.last_read_seqno ≡ p.last_read_seqno
    died_last : q.last_sent_seqno ≡ p.last_sent_seqno
    died_sent : q.sent ≡ p.sent
    died_queue : q.ready.queue ≡ p.ready.queue
    died_state : q.state ≡ dead
    died_route : Route p.state dead

  Died-remove :
      (ops : Engine E) (p : Active E)
      → is_valid_transition p.state dead ≡ true
      → (e : E) → Died p (record p { state = dead; engine = e })
  Died-remove ops p h e = record {
    died_read = refl;
    died_last = refl;
    died_sent = refl;
    died_queue = refl;
    died_state = refl;
    died_route = move h stay;
  }

  Stored : State → Active E → Active E → Type 0
  Stored new p q = (q ≡ record p { state = new }) × (is_valid_transition p.state new ≡ true)

  Stored-store_state : (new : State) (p : Active E) → Ensures (Stored new p) (store_state new p)
  unfolding store_state Ensures Stored
  Stored-store_state new p =
      if-cases (Ensures (Stored new p)) (is_valid_transition p.state new) (λ h. (refl, h)) (λ _. tt)

  -- What follows the stored state.
  uncursored : Engine E → Active E → Active E
  uncursored ops q =
      if ops.has_vbucket q.engine then record q { engine = ops.remove_cursor q.engine } else q

  Died-enter_dead :
      (ops : Engine E) (p : Active E)
      → is_dead p.state ≡ false
      → Ensures (Died p) (enter_dead ops p)
  unfolding enter_dead Ensures Stored uncursored
  Died-enter_dead ops p n =
      if-cases (Ensures (Died p)) (is_dead p.state) (λ y. absurd (ground (arith, n, y)))
        (λ _.
          Ensures-bind (Stored dead p) (Died p) (store_state dead p) _ (Stored-store_state dead p)
            (λ q w.
              subst (λ z. Died p (uncursored ops z)) (sym w.0)
                (if-both (Died p) (ops.has_vbucket p.engine)
                  (Died-remove ops p w.1 (ops.remove_cursor p.engine))
                  (Died-remove ops p w.1 p.engine))))

  Quiet-Died : (p q : Active E) → is_dead p.state ≡ false → Died p q → Quiet p q
  unfolding is_dead
  Quiet-Died p q n d = record {
    same_read = d.died_read;
    same_last = d.died_last;
    same_sent = d.died_sent;
    same_order = λ lo hi w. subst (λ l. Between mark lo l hi) (sym d.died_queue) w;
    route = subst (λ z. Route p.state z) (sym d.died_state) d.died_route;
    closed = λ c. record {
      open_end = λ h. ap no_end d.died_queue ∙ c.open_end n;
      closed_end = λ h. ap ends_last d.died_queue ∙ ends_last-no_end p.ready.queue (c.open_end n);
    };
  }

  Quiet-push_end :
      (reason : EndStatus) (p q : Active E)
      → is_dead p.state ≡ false
      → Died p q
      → Quiet p (push_end reason q)
  unfolding push_end mark is_dead push
  Quiet-push_end reason p q n d =
      let r = stream_end_response q.stream_opaque reason in
      if-both (Quiet p) (is_disconnected reason) (Quiet-Died p q n d) (record {
        same_read = d.died_read;
        same_last = d.died_last;
        same_sent = d.died_sent;
        same_order = λ lo hi w.
            order-push_end q.ready r lo hi refl
              (subst (λ l. Between mark lo l hi) (sym d.died_queue) w);
        route = subst (λ z. Route p.state z) (sym d.died_state) d.died_route;
        closed = λ c. record {
          open_end = λ h. absurd (ground (arith, h, d.died_state));
          closed_end =
              λ _. ends_last-append q.ready.queue r (ap no_end d.died_queue ∙ c.open_end n);
        };
      })

  pub Quiet-end_stream :
      (ops : Engine E) (reason : EndStatus) (p : Active E)
      → Ensures (Quiet p) (end_stream ops reason p)
  unfolding end_stream Ensures
  Quiet-end_stream ops reason p =
      if-cases (Ensures (Quiet p)) (is_dead p.state) (λ _. Quiet-refl p)
        (λ n.
          let start = record p { pending_backfill = false } in
          let cleared = clear_backfill ops start in
          let quiet : Quiet start cleared = Quiet-clear_backfill ops start in
          let alive = ap is_dead (state-clear_backfill ops start) ∙ n in
          Ensures-bind (Died cleared) (Quiet p) (enter_dead ops cleared) _
            (Died-enter_dead ops cleared alive)
            (λ q d.
              Quiet-trans (Quiet-trans (Quiet-pending false p) quiet)
                (Quiet-push_end reason cleared q alive d)))
