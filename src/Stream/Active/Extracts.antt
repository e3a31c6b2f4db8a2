-- ===== src/Stream/Active/Extracts.antt =====
-- The order of what a producer's stream takes from its checkpoints and from a backfill (src/dcp/stream.cc).
use mathlib.Core.Path.{subst}
use ep_engine.Base.{
  ℕ, ◌<◌, ◌≤◌, ◌≡◌, refl, sym, ◌∙◌, Bool, true, false, ◌||◌, List, [], ◌∷◌, ◌++◌, some, arith,
  if◌then◌else◌, if-both, if-cases,
}
use ep_engine.Stream.{Mutation, mutation_response, push}
use ep_engine.Stream.Active.{Engine, Active, is_dead, is_backfilling}
use ep_engine.Stream.Active.Backfill.{buffer_item, backfill_received}
use ep_engine.Stream.Active.Diagram.{is_end, no_end-append}
use ep_engine.Stream.Active.Frame.{Quiet, Quiet-Still, Quiet-engine, Quiet-tell}
use ep_engine.Stream.Active.Sends.{Ordered, Ordered-Quiet}
use ep_engine.Stream.Active.EventLaws.{live_backfilling}
use ep_engine.Stream.Active.Snapshots.{
  QueuedItem, item, checkpoint_start, other_meta, last_of, is_current_snapshot_completed, snapshot,
  collect, process_items, next_checkpoint_item_task, extracted, starts_checkpoint,
  is_empty as is_empty_documents,
}
use ep_engine.Stream.Active.Batches.{
  Ascends, Rising, RisingAll, last_item, Ascends-append, last_of-append, last_of-le, Rising-le,
  RisingAll-le, Between-push,
}
use ep_engine.Stream.Active.Takes.{later_end, Ordered-Pushed, Pushed-marked}

module _ {E : Type 0} where
  -- What a snapshot leaves: an ordered stream that has read no more than the documents.
  Read : ℕ → Active E → Type 0
  Read n p = Ordered p × (p.last_read_seqno ≤ n)

  -- The last document collected is what the stream has read last.
  unfoldable Known : List Mutation → Active E → Type 0
  Known [] p = 0 ≤ p.last_read_seqno
  Known (m ∷ ms) p = p.last_read_unsnapshotted ≡ last_of m.by_seqno ms

  Read-snapshot :
      (ops : Engine E) (ms : List Mutation) (mark_it : Bool) (p : Active E)
      → Ordered p
      → Ascends p.last_read_seqno ms
      → Known ms p
      → Read (last_of p.last_read_seqno ms) (snapshot ops ms mark_it p)
  unfolding snapshot Read Known last_of
  Read-snapshot ops [] mark_it p o a u = (o, omega arith)
  Read-snapshot ops (m ∷ ms) mark_it p o a u =
      let read = record p { last_read_seqno = p.last_read_unsnapshotted } in
      if-cases (Read (last_of m.by_seqno ms)) (is_dead p.state || is_backfilling p.state)
        (λ _. (o, omega (arith, last_of-le p.last_read_seqno (m ∷ ms) a)))
        (λ h.
          let n : is_dead p.state ≡ false = ground (arith, h) in
          let pushed =
            Pushed-marked ops m ms mark_it p n o u (is_current_snapshot_completed ops read) in
          (Ordered-Pushed p _ m ms _ n a o pushed, omega (arith, pushed.now_read)))

  Known-append :
      (m : Mutation) (ms : List Mutation) (p : Active E)
      → p.last_read_unsnapshotted ≡ m.by_seqno
      → Known (ms ++ m ∷ []) p
  unfolding Known last_of
  Known-append m [] p h = h
  Known-append m (x ∷ ms) p h = h ∙ sym (last_of-append x.by_seqno ms m)

  pub record Collected (p : Active E) (ms : List Mutation) : Type 0 where
    in_order : Ordered p
    ascending : Ascends p.last_read_seqno ms
    known : Known ms p

  Collected-item :
      (m : Mutation) (ms : List Mutation) (p : Active E)
      → Collected p ms
      → last_of p.last_read_seqno ms < m.by_seqno
      → Collected
          (record p { cur_chk_seqno = m.by_seqno; last_read_unsnapshotted = m.by_seqno })
          (ms ++ record m { payload = p.payload } ∷ [])
  Collected-item m ms p c h =
      let o = c.in_order in
      let m' = record m { payload = p.payload } in
      let q = record p { cur_chk_seqno = m.by_seqno; last_read_unsnapshotted = m.by_seqno } in
      record {
        in_order = Ordered-Quiet o (
            Quiet-Still (record {
              still_read = refl;
              still_last = refl;
              still_sent = refl;
              still_queue = refl;
              still_state = refl;
            }));
        ascending = Ascends-append p.last_read_seqno ms m' c.ascending h;
        known = Known-append m' ms q refl;
      }

  Collected-start : (p : Active E) → Ordered p → Collected p []
  unfolding Ascends Known
  Collected-start p o = record { in_order = o; ascending = omega arith; known = omega arith }

  read_end :
      {n : ℕ} (ms : List Mutation) (p : Active E)
      → Collected p ms
      → last_of p.last_read_seqno ms ≤ n
      → p.last_read_seqno ≤ n
  read_end ms p c h = omega (arith, last_of-le p.last_read_seqno ms c.ascending)

  -- What the loop leaves: what it has collected, which ends no later than the items.
  CollectedOut : ℕ → Active E × List Mutation × Bool → Type 0
  CollectedOut n out = Collected out.0 out.1 × (last_of out.0.last_read_seqno out.1 ≤ n)

  Collected-collect :
      (ops : Engine E) (items : List QueuedItem) (ms : List Mutation) (mark_it : Bool)
      (p : Active E)
      → Collected p ms
      → Rising (last_of p.last_read_seqno ms) items
      → CollectedOut
          (last_item (last_of p.last_read_seqno ms) items)
          (collect ops items ms mark_it p)
  unfolding collect Rising last_item CollectedOut Read last_of
  Collected-collect ops [] ms mark_it p c r = (c, omega arith)
  Collected-collect ops (item m ∷ items) ms mark_it p c r =
      let q = record p { cur_chk_seqno = m.by_seqno; last_read_unsnapshotted = m.by_seqno } in
      let ms' = ms ++ record m { payload = p.payload } ∷ [] in
      let last = last_of-append p.last_read_seqno ms (record m { payload = p.payload }) in
      subst (λ n. CollectedOut (last_item n items) (collect ops items ms' mark_it q)) last
        (Collected-collect ops items ms' mark_it q (Collected-item m ms p c r.0)
          (subst (λ n. Rising n items) (sym last) r.1))
  Collected-collect ops (checkpoint_start ∷ items) ms mark_it p c r =
      let q = snapshot ops ms mark_it p in
      let s = Read-snapshot ops ms mark_it p c.in_order c.ascending c.known in
      let low = s.1 in
      let rest =
        Collected-collect ops items [] true q (Collected-start q s.0)
          (Rising-le q.last_read_seqno (last_of p.last_read_seqno ms) items low r) in
      (rest.0, later_end _ items q.last_read_seqno (last_of p.last_read_seqno ms) low rest.1)
  Collected-collect ops (other_meta ∷ items) ms mark_it p c r =
      Collected-collect ops items ms mark_it p c r

  Quiet-extracted : (p : Active E) → Quiet p (extracted p)
  unfolding extracted
  Quiet-extracted p = Quiet-Still (record {
    still_read = refl;
    still_last = refl;
    still_sent = refl;
    still_queue = refl;
    still_state = refl;
  })

  Quiet-extraction : (b : Bool) (p : Active E) → Quiet p (record p { extraction_in_progress = b })
  Quiet-extraction b p = Quiet-Still (record {
    still_read = refl;
    still_last = refl;
    still_sent = refl;
    still_queue = refl;
    still_state = refl;
  })

  -- The end of `processItems`, by what the next call does.
  pub settled : Engine E → Active E × List Mutation × Bool → Active E → Active E
  settled ops out again = extracted (
      if is_empty_documents out.1
      then (if ops.has_vbucket out.0.engine then again else out.0)
      else snapshot ops out.1 out.2 out.0)

  Ordered-settled :
      (ops : Engine E) (out : Active E × List Mutation × Bool) (again : Active E)
      → Collected out.0 out.1
      → Ordered again
      → Ordered (settled ops out again)
  unfolding settled Read
  Ordered-settled ops out again c o =
      Ordered-Quiet
        (if-both Ordered (is_empty_documents out.1)
          (if-both Ordered (ops.has_vbucket out.0.engine) o c.in_order)
          (Read-snapshot ops out.1 out.2 out.0 c.in_order c.ascending c.known).0)
        (Quiet-extracted _)

  pub Ordered-process_items :
      (ops : Engine E) (items : List QueuedItem) (later : List (List QueuedItem)) (p : Active E)
      → Ordered p
      → RisingAll p.last_read_seqno (items ∷ later)
      → Ordered (process_items ops items later p)
  unfolding process_items RisingAll CollectedOut settled last_of
  Ordered-process_items ops [] later p o r = Ordered-Quiet o (Quiet-extracted p)
  Ordered-process_items ops (i ∷ items) [] p o r =
      let out = collect ops (i ∷ items) [] (starts_checkpoint (i ∷ items)) p in
      let c =
        Collected-collect ops (i ∷ items) [] (starts_checkpoint (i ∷ items)) p (Collected-start p o)
          r.0 in
      Ordered-settled ops out (extracted (record out.0 { extraction_in_progress = true })) c.0 (
        Ordered-Quiet (Ordered-Quiet c.0.in_order (Quiet-extraction true out.0))
          (Quiet-extracted _))
  Ordered-process_items ops (i ∷ items) (batch ∷ later) p o r =
      let out = collect ops (i ∷ items) [] (starts_checkpoint (i ∷ items)) p in
      let c =
        Collected-collect ops (i ∷ items) [] (starts_checkpoint (i ∷ items)) p (Collected-start p o)
          r.0 in
      let low = read_end out.1 out.0 c.0 c.1 in
      Ordered-settled ops out _ c.0 (
        Ordered-process_items ops batch later (record out.0 { extraction_in_progress = true })
          (Ordered-Quiet c.0.in_order (Quiet-extraction true out.0))
          (RisingAll-le out.0.last_read_seqno (last_item p.last_read_seqno (i ∷ items))
            (batch ∷ later) low r.1))

  pub Ordered-next_checkpoint_item_task :
      (ops : Engine E) (items : List QueuedItem) (later : List (List QueuedItem)) (p : Active E)
      → Ordered p
      → RisingAll p.last_read_seqno (items ∷ later)
      → Ordered (next_checkpoint_item_task ops items later p)
  unfolding next_checkpoint_item_task
  Ordered-next_checkpoint_item_task ops items later p o r =
      if-both Ordered (ops.has_vbucket p.engine)
        (Ordered-process_items ops items later _ (Ordered-Quiet o (Quiet-extraction true p)) r) o

  ReceivedOut : Active E × Bool → Type 0
  ReceivedOut out = Ordered out.0

  Ordered-buffer_item :
      (ops : Engine E) (m : Mutation) (from_memory : Bool) (p : Active E)
      → is_dead p.state ≡ false
      → p.last_read_seqno < m.by_seqno
      → Ordered p
      → Ordered (buffer_item ops m from_memory p)
  unfolding buffer_item push is_end
  Ordered-buffer_item ops m from_memory p n h o =
      Ordered-Quiet
        (record {
          sent_order = o.sent_order;
          queue_order = Between-push p.last_sent_seqno p.last_read_seqno m p.ready o.queue_order h;
          closed_order = record {
            open_end = λ _.
                no_end-append p.ready.queue (mutation_response m) (o.closed_order.open_end n) refl;
            closed_end = λ d. absurd (ground (arith, n, d));
          };
          not_reading = o.not_reading;
        })
        (Quiet-tell _)

  pub Ordered-backfill_received :
      (ops : Engine E) (m : Mutation) (from_memory : Bool) (p : Active E)
      → p.last_read_seqno < m.by_seqno
      → Ordered p
      → Ordered (backfill_received ops (some m) from_memory p).0
  unfolding backfill_received ReceivedOut
  Ordered-backfill_received ops m from_memory p h o =
      let read = ops.bytes_read (ops.item_size m) p.engine in
      let q = record p { engine = read.0 } in
      let k = Ordered-Quiet o (Quiet-engine read.0 p) in
      if-cases ReceivedOut (is_backfilling p.state)
        (λ b.
          if-both ReceivedOut read.1
            (Ordered-buffer_item ops m from_memory q (live_backfilling p.state b) h k) k)
        (λ _. o)
