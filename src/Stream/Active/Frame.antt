-- ===== src/Stream/Active/Frame.antt =====
-- What the operations of a producer's stream that take no document and send none keep
-- (src/dcp/stream.cc).
use mathlib.Core.Path.{subst}
use ep_engine.Base.{
  ℕ, ◌≡◌, refl, sym, ap, ◌∙◌, Bool, true, false, ◌&&◌, Option, arith, ltb, ◌>>=◌, if-both, if-cases,
  Ensures, Ensures-map, Ensures-bind,
}
use ep_engine.Stream.{State, dead, notify}
use ep_engine.Stream.Order.{Between}
use ep_engine.Stream.Active.{Engine, Active, is_valid_transition, is_dead}
use ep_engine.Stream.Active.Transitions.{store_state, enter_dead, next_checkpoint_item, tell}
use ep_engine.Stream.Active.Diagram.{
  Route, stay, move, Route-trans, mark, no_end, ends_last, ends_last-no_end,
}

pub not_dead : (s t : State) → is_valid_transition s t ≡ true → is_dead s ≡ false
unfolding is_valid_transition is_dead
not_dead s t h = ground arith

module _ {E : Type 0} where
  -- A stream that has not ended has no end in its queue, and nothing follows the end of one that has.
  pub record Closed (p : Active E) : Type 0 where
    pub open_end : is_dead p.state ≡ false → no_end p.ready.queue ≡ true
    pub closed_end : is_dead p.state ≡ true → ends_last p.ready.queue ≡ true

  pub record Quiet (p q : Active E) : Type 0 where
    pub same_read : q.last_read_seqno ≡ p.last_read_seqno
    pub same_last : q.last_sent_seqno ≡ p.last_sent_seqno
    pub same_sent : q.sent ≡ p.sent
    pub same_order :
        (lo hi : ℕ) → Between mark lo p.ready.queue hi → Between mark lo q.ready.queue hi
    pub route : Route p.state q.state
    pub closed : Closed p → Closed q

  pub Quiet-trans : {p q r : Active E} → Quiet p q → Quiet q r → Quiet p r
  Quiet-trans a b = record {
    same_read = b.same_read ∙ a.same_read;
    same_last = b.same_last ∙ a.same_last;
    same_sent = b.same_sent ∙ a.same_sent;
    same_order = λ lo hi w. b.same_order lo hi (a.same_order lo hi w);
    route = Route-trans a.route b.route;
    closed = λ c. b.closed (a.closed c);
  }

  -- The stream and its queue keep what the properties are about.
  pub record Still (p q : Active E) : Type 0 where
    pub still_read : q.last_read_seqno ≡ p.last_read_seqno
    pub still_last : q.last_sent_seqno ≡ p.last_sent_seqno
    pub still_sent : q.sent ≡ p.sent
    pub still_queue : q.ready.queue ≡ p.ready.queue
    pub still_state : q.state ≡ p.state

  pub Quiet-Still : {p q : Active E} → Still p q → Quiet p q
  Quiet-Still {p = p} {q = q} s = record {
    same_read = s.still_read;
    same_last = s.still_last;
    same_sent = s.still_sent;
    same_order = λ lo hi w. subst (λ l. Between mark lo l hi) (sym s.still_queue) w;
    route = subst (λ z. Route p.state z) (sym s.still_state) stay;
    closed = λ c. record {
      open_end = λ h. ap no_end s.still_queue ∙ c.open_end (ap is_dead (sym s.still_state) ∙ h);
      closed_end =
          λ h. ap ends_last s.still_queue ∙ c.closed_end (ap is_dead (sym s.still_state) ∙ h);
    };
  }

  pub Quiet-refl : (p : Active E) → Quiet p p
  Quiet-refl p = Quiet-Still (record {
    still_read = refl;
    still_last = refl;
    still_sent = refl;
    still_queue = refl;
    still_state = refl;
  })

  Quiet-state :
      (new : State) (p : Active E)
      → is_valid_transition p.state new ≡ true
      → Quiet p (record p { state = new })
  Quiet-state new p h = record {
    same_read = refl;
    same_last = refl;
    same_sent = refl;
    same_order = λ lo hi w. w;
    route = move h stay;
    closed = λ c.
        let open_queue = c.open_end (not_dead p.state new h) in
        record {
          open_end = λ _. open_queue;
          closed_end = λ _. ends_last-no_end p.ready.queue open_queue;
        };
  }

  pub Quiet-store_state : (new : State) (p : Active E) → Ensures (Quiet p) (store_state new p)
  unfolding store_state Ensures
  Quiet-store_state new p =
      if-cases (Ensures (Quiet p)) (is_valid_transition p.state new) (Quiet-state new p) (λ _. tt)

  -- An operation on a stream that is reached quietly.
  pub then-Quiet :
      (p : Active E) (o : Option (Active E)) (f : Active E → Option (Active E))
      → Ensures (Quiet p) o
      → ((q : Active E) → Ensures (Quiet q) (f q))
      → Ensures (Quiet p) (o >>= f)
  then-Quiet p o f h k =
      Ensures-bind (Quiet p) (Quiet p) o f h
        (λ q w. Ensures-map (Quiet q) (Quiet p) (f q) (λ r v. Quiet-trans w v) (k q))

  -- What only touches the engine, the notifications and the counters.
  pub Quiet-engine : (e : E) (p : Active E) → Quiet p (record p { engine = e })
  Quiet-engine e p = Quiet-Still (record {
    still_read = refl;
    still_last = refl;
    still_sent = refl;
    still_queue = refl;
    still_state = refl;
  })

  pub Quiet-pending : (b : Bool) (p : Active E) → Quiet p (record p { pending_backfill = b })
  Quiet-pending b p = Quiet-Still (record {
    still_read = refl;
    still_last = refl;
    still_sent = refl;
    still_queue = refl;
    still_state = refl;
  })

  pub Quiet-tell : (p : Active E) → Quiet p (tell p)
  unfolding tell notify
  Quiet-tell p = Quiet-Still (record {
    still_read = refl;
    still_last = refl;
    still_sent = refl;
    still_queue = ground arith;
    still_state = refl;
  })

  pub Quiet-enter_dead : (ops : Engine E) (p : Active E) → Ensures (Quiet p) (enter_dead ops p)
  unfolding enter_dead Ensures
  Quiet-enter_dead ops p = if-both (Ensures (Quiet p)) (is_dead p.state) (Quiet-refl p) (
      then-Quiet p (store_state dead p) _ (Quiet-store_state dead p) (λ q.
        if-both (Quiet q) (ops.has_vbucket q.engine) (Quiet-engine (ops.remove_cursor q.engine) q)
          (Quiet-refl q)))

  pub Quiet-next_checkpoint_item :
      (ops : Engine E) (p : Active E) → Quiet p (next_checkpoint_item ops p).0
  unfolding next_checkpoint_item
  Quiet-next_checkpoint_item ops p =
      if-both (λ (z : Active E × Bool). Quiet p z.0)
        (ops.has_vbucket p.engine && ltb 0 (ops.items_for_cursor p.engine))
        (Quiet-engine (ops.schedule_checkpoint_task p.engine) p) (Quiet-refl p)
