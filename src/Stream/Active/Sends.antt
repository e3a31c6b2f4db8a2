-- ===== src/Stream/Active/Sends.antt =====
-- What a producer's stream sends keeps its order (src/dcp/stream.cc).
use mathlib.Core.Path.{subst}
use ep_engine.Base.{
  ◌+◌, ◌<◌, ◌≡◌, refl, sym, ap, ◌∙◌, inl, inr, true, false, List, ◌∷◌, Option, none, some, arith,
  if◌then◌else◌, if-both, List-cases, Ensures, Ensures-map,
}
use ep_engine.Stream.{
  Response, stream_request, add_stream_response, snapshot_marker_response,
  set_vbucket_state_response, set_vbucket_state, mutation_response, stream_end_response,
  snapshot_marker, pop, message_size, ReadyQueue, pop_front,
}
use ep_engine.Stream.Order.{control, floor, rises, Between, Descends, Descends-le}
use ep_engine.Stream.Active.{Engine, Active}
use ep_engine.Stream.Active.Diagram.{
  mark, no_end, ends_last, ends_last-tail, Route-reading, is_reading,
}
use ep_engine.Stream.Active.Frame.{Closed, Quiet, Quiet-engine}
use ep_engine.Stream.Active.Phases.{note_sent, next_queued_item}

queue-pop :
    (q : ReadyQueue) (r : Response) (rest : List Response)
    → q.queue ≡ r ∷ rest
    → (pop q).queue ≡ rest
unfolding pop pop_front
queue-pop q r rest e = ground (arith, e)

module _ {E : Type 0} where
  -- What was sent, what is queued and what was read are in the order of their sequence numbers, nothing
  -- follows the end of the stream, and the state is one of a producer's.
  pub record Ordered (p : Active E) : Type 0 where
    pub sent_order : Descends (p.last_sent_seqno + 1) p.sent
    pub queue_order : Between mark p.last_sent_seqno p.ready.queue p.last_read_seqno
    pub closed_order : Closed p
    pub not_reading : is_reading p.state ≡ false

  pub Ordered-Quiet : {p q : Active E} → Ordered p → Quiet p q → Ordered q
  Ordered-Quiet {p = p} {q = q} o w = record {
    sent_order =
        subst (λ z. Descends (z + 1) q.sent) (sym w.same_last)
          (subst (Descends (p.last_sent_seqno + 1)) (sym w.same_sent) o.sent_order);
    queue_order =
        subst (λ z. Between mark z q.ready.queue q.last_read_seqno) (sym w.same_last)
          (subst (λ z. Between mark p.last_sent_seqno q.ready.queue z) (sym w.same_read)
            (w.same_order p.last_sent_seqno p.last_read_seqno o.queue_order));
    closed_order = w.closed o.closed_order;
    not_reading = Route-reading w.route o.not_reading;
  }

  pub Ordered-all :
      (p : Active E) (o : Option (Active E)) → Ordered p → Ensures (Quiet p) o → Ensures Ordered o
  Ordered-all p o k w = Ensures-map (Quiet p) Ordered o (λ q v. Ordered-Quiet k v) w

  unfoldable pub OrderedOut : Active E × Option Response → Type 0
  OrderedOut out = Ordered out.0

  Closed-tail :
      (r : Response) (rest : List Response) (p : Active E) (q : ReadyQueue)
      → p.ready.queue ≡ r ∷ rest
      → q.queue ≡ rest
      → Closed p
      → Closed (record p { ready = q })
  unfolding no_end
  Closed-tail r rest p q e w c = record {
    open_end =
        λ h. let all = subst (λ l. no_end l ≡ true) e (c.open_end h) in ap no_end w ∙ ground arith;
    closed_end = λ h.
        ap ends_last w ∙ ends_last-tail r rest (subst (λ l. ends_last l ≡ true) e (c.closed_end h));
  }

  Ordered-control :
      (r : Response) (rest : List Response) (p : Active E) (q : ReadyQueue)
      → p.ready.queue ≡ r ∷ rest
      → q.queue ≡ rest
      → mark r ≡ control
      → Ordered p
      → Ordered (record p { ready = q })
  unfolding Between floor
  Ordered-control r rest p q e w c o =
      let all = subst (λ l. Between mark p.last_sent_seqno l p.last_read_seqno) e o.queue_order in
      record {
        sent_order = o.sent_order;
        queue_order =
            subst (λ l. Between mark p.last_sent_seqno l p.last_read_seqno) (sym w)
              (subst (λ z. Between mark (floor p.last_sent_seqno z) rest p.last_read_seqno) c
                all.1);
        closed_order = Closed-tail r rest p q e w o.closed_order;
        not_reading = o.not_reading;
      }

  Ordered-note_sent :
      (r : Response) (rest : List Response) (p : Active E) (q : ReadyQueue)
      → p.ready.queue ≡ r ∷ rest
      → q.queue ≡ rest
      → Ordered p
      → Ordered (record (note_sent r p) { ready = q })
  unfolding note_sent mark Between Descends floor rises
  Ordered-note_sent (mutation_response m) rest p q e w o =
      let all = subst (λ l. Between mark p.last_sent_seqno l p.last_read_seqno) e o.queue_order in
      let rise : p.last_sent_seqno < m.by_seqno = ground (arith, all.0) in
      record {
        sent_order = (omega arith, Descends-le p.sent (omega arith) o.sent_order);
        queue_order = subst (λ l. Between mark m.by_seqno l p.last_read_seqno) (sym w) all.1;
        closed_order =
            let c = Closed-tail (mutation_response m) rest p q e w o.closed_order in
            record { open_end = c.open_end; closed_end = c.closed_end };
        not_reading = o.not_reading;
      }
  Ordered-note_sent (stream_request a b c d f g h) rest p q e w o =
      Ordered-control (stream_request a b c d f g h) rest p q e w refl o
  Ordered-note_sent (add_stream_response a b c) rest p q e w o =
      Ordered-control (add_stream_response a b c) rest p q e w refl o
  Ordered-note_sent (snapshot_marker_response a b) rest p q e w o =
      Ordered-control (snapshot_marker_response a b) rest p q e w refl o
  Ordered-note_sent (set_vbucket_state_response a b) rest p q e w o =
      Ordered-control (set_vbucket_state_response a b) rest p q e w refl o
  Ordered-note_sent (stream_end_response a b) rest p q e w o =
      Ordered-control (stream_end_response a b) rest p q e w refl o
  Ordered-note_sent (set_vbucket_state a b) rest p q e w o =
      Ordered-control (set_vbucket_state a b) rest p q e w refl o
  Ordered-note_sent (snapshot_marker a b c d) rest p q e w o =
      Ordered-control (snapshot_marker a b c d) rest p q e w refl o

  queue-note_sent : (r : Response) (p : Active E) → (note_sent r p).ready ≡ p.ready
  unfolding note_sent
  queue-note_sent r p = ground arith

  -- What `nextQueuedItem` does with a queue that is not empty.
  sent_or_kept : Engine E → Response → Active E → Active E × Option Response
  sent_or_kept ops r p =
      let (e, room) = ops.buffer_log_insert (message_size r) p.engine in
      let q = record p { engine = e } in
      if room
      then (let noted = note_sent r q in (record noted { ready = pop noted.ready }, some r))
      else (q, none)

  Ordered-sent_or_kept :
      (ops : Engine E) (r : Response) (rest : List Response) (p : Active E)
      → p.ready.queue ≡ r ∷ rest
      → Ordered p
      → OrderedOut (sent_or_kept ops r p)
  unfolding sent_or_kept OrderedOut
  Ordered-sent_or_kept ops r rest p e o =
      let inserted = ops.buffer_log_insert (message_size r) p.engine in
      let q = record p { engine = inserted.0 } in
      let k = Ordered-Quiet o (Quiet-engine inserted.0 p) in
      let left =
        ap (λ (z : ReadyQueue). (pop z).queue) (queue-note_sent r q) ∙ queue-pop p.ready r rest e in
      if-both OrderedOut inserted.1
        (Ordered-note_sent r rest q (pop (note_sent r q).ready) e left k) k

  pub Ordered-next_queued_item :
      (ops : Engine E) (p : Active E) → Ordered p → OrderedOut (next_queued_item ops p)
  unfolding next_queued_item OrderedOut sent_or_kept
  Ordered-next_queued_item ops p o = elim (List-cases p.ready.queue) [
    | inl e ↦
        (let same : (p, none) ≡ next_queued_item ops p = ground (arith, e) in
          subst OrderedOut same o)
    | inr (r, rest, e) ↦
        let same : sent_or_kept ops r p ≡ next_queued_item ops p = ground (arith, e) in
        subst OrderedOut same (Ordered-sent_or_kept ops r rest p e o)
  ]
