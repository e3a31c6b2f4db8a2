-- ===== src/Stream/Active/Takes.antt =====
-- The documents of the backfill and of the checkpoints join the queue of a producer's stream in order
-- (src/dcp/stream.cc).
use mathlib.Core.Path.{subst}
use ep_engine.Base.{
  ℕ, ◌+◌, ◌≤◌, ◌≡◌, refl, sym, ap, ◌∙◌, Bool, true, false, List, ◌∷◌, arith, if◌then◌else◌,
}
use ep_engine.Stream.{Mutation, ReadyQueue, push}
use ep_engine.Stream.Order.{Between, Descends}
use ep_engine.Stream.Active.{Engine, Active, is_dead}
use ep_engine.Stream.Active.Diagram.{is_end, mark, no_end, no_end-append, is_reading}
use ep_engine.Stream.Active.End.{order-push_end}
use ep_engine.Stream.Active.Sends.{Ordered}
use ep_engine.Stream.Active.Snapshots.{QueuedItem, last_of, push_all, push_marker}
use ep_engine.Stream.Active.Batches.{
  Ascends, last_item, last_item-le, Between-push_all, no_end-push_all,
}

pub later_end :
    (n : ℕ) (items : List QueuedItem) (lo hi : ℕ)
    → lo ≤ hi
    → n ≤ last_item lo items
    → n ≤ last_item hi items
later_end n items lo hi h k = omega (arith, last_item-le lo hi items h)

module _ {E : Type 0} where
  -- The documents have been pushed after what is in `r`.
  pub record Pushed (p q : Active E) (m : Mutation) (ms : List Mutation) (r : ReadyQueue)
      : Type 0 where
    pub kept_state : q.state ≡ p.state
    pub kept_sent : q.sent ≡ p.sent
    pub kept_last : q.last_sent_seqno ≡ p.last_sent_seqno
    pub now_read : q.last_read_seqno ≡ last_of m.by_seqno ms
    pub now_queue : q.ready.queue ≡ (push_all (m ∷ ms) r).queue
    pub before : Between mark p.last_sent_seqno r.queue p.last_read_seqno
    pub open_before : no_end r.queue ≡ true

  pub Ordered-Pushed :
      (p q : Active E) (m : Mutation) (ms : List Mutation) (r : ReadyQueue)
      → is_dead p.state ≡ false
      → Ascends p.last_read_seqno (m ∷ ms)
      → Ordered p
      → Pushed p q m ms r
      → Ordered q
  unfolding last_of
  Ordered-Pushed p q m ms r n a o d =
      let ordered = Between-push_all p.last_sent_seqno p.last_read_seqno (m ∷ ms) r d.before a in
      record {
        sent_order =
            subst (λ z. Descends (z + 1) q.sent) (sym d.kept_last)
              (subst (Descends (p.last_sent_seqno + 1)) (sym d.kept_sent) o.sent_order);
        queue_order =
            subst (λ z. Between mark z q.ready.queue q.last_read_seqno) (sym d.kept_last)
              (subst (λ z. Between mark p.last_sent_seqno q.ready.queue z) (sym d.now_read)
                (subst (λ l. Between mark p.last_sent_seqno l (last_of m.by_seqno ms))
                  (sym d.now_queue) ordered));
        closed_order = record {
          open_end = λ _. ap no_end d.now_queue ∙ no_end-push_all (m ∷ ms) r d.open_before;
          closed_end = λ h. absurd (ground (arith, n, h, d.kept_state));
        };
        not_reading = ap is_reading d.kept_state ∙ o.not_reading;
      }

  pub Pushed-marked :
      (ops : Engine E) (m : Mutation) (ms : List Mutation) (mark_it : Bool) (p : Active E)
      → is_dead p.state ≡ false
      → Ordered p
      → p.last_read_unsnapshotted ≡ last_of m.by_seqno ms
      → (b : Bool)
      → let read = record p { last_read_seqno = p.last_read_unsnapshotted } in
        let marked =
          if b then push_marker m.by_seqno (last_of m.by_seqno ms) mark_it read else read in
        Pushed p (record marked { ready = push_all (m ∷ ms) marked.ready }) m ms marked.ready
  unfolding push_marker push mark is_end
  Pushed-marked ops m ms mark_it p n o u false = record {
    kept_state = refl;
    kept_sent = refl;
    kept_last = refl;
    now_read = u;
    now_queue = refl;
    before = o.queue_order;
    open_before = o.closed_order.open_end n;
  }
  Pushed-marked ops m ms mark_it p n o u true = record {
    kept_state = refl;
    kept_sent = refl;
    kept_last = refl;
    now_read = u;
    now_queue = refl;
    before = order-push_end p.ready _ p.last_sent_seqno p.last_read_seqno refl o.queue_order;
    open_before = no_end-append p.ready.queue _ (o.closed_order.open_end n) refl;
  }
