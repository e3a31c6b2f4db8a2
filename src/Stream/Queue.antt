-- ===== src/Stream/Queue.antt =====
-- The counters of the queue of the messages to send (src/dcp/stream.cc).
use mathlib.Core.Path.{subst}
use ep_engine.Base.{
  ℕ, ◌+◌, ◌^◌, ◌<◌, ◌≡◌, refl, List, [], ◌∷◌, ◌++◌, arith, if◌then◌else◌, Bool-cases, List-cases,
  inl, inr,
}
use ep_engine.Stream.{
  Response, ReadyQueue, message_size, is_meta_event, empty_queue, push, pop, pop_front, clear,
  clear_list, notify,
}

-- The messages' bytes, and how many carry a document.
unfoldable pub total_size : List Response → ℕ
total_size [] = 0
total_size (r ∷ rs) = message_size r + total_size rs

unfoldable pub documents : List Response → ℕ
documents [] = 0
documents (r ∷ rs) = (if is_meta_event r then 0 else 1) + documents rs

-- The queues that the operations reach while the sizes fit in their 64 bits.
pub data Reached : ReadyQueue → Type 0 where
  start : Reached empty_queue
  pushed :
      {q : ReadyQueue} (r : Response)
      → Reached q
      → total_size (q.queue ++ r ∷ []) < 2 ^ 64
      → documents (q.queue ++ r ∷ []) < 2 ^ 64
      → Reached (push r q)
  popped : {q : ReadyQueue} → Reached q → Reached (pop q)
  cleared : {q : ReadyQueue} → Reached q → Reached (clear q)
  notifying : {q : ReadyQueue} → Reached q → Reached (notify q)

-- The two counters are right.
pub record Counted (q : ReadyQueue) : Type 0 where
  pub non_meta_counted : q.non_meta_items ≡ documents q.queue
  pub memory_counted : q.memory ≡ total_size q.queue
  pub documents_fit : documents q.queue < 2 ^ 64

total_size-append :
    (rs : List Response) (r : Response) → total_size (rs ++ r ∷ []) ≡ total_size rs + message_size r
unfolding total_size
total_size-append [] r = omega arith
total_size-append (x ∷ rs) r = omega (arith, total_size-append rs r)

documents-append :
    (rs : List Response) (r : Response)
    → documents (rs ++ r ∷ []) ≡ documents rs + (if is_meta_event r then 0 else 1)
unfolding documents
documents-append [] r = omega arith
documents-append (x ∷ rs) r = omega (arith, documents-append rs r)

push-Counted :
    (r : Response) (q : ReadyQueue)
    → Counted q
    → total_size (q.queue ++ r ∷ []) < 2 ^ 64
    → documents (q.queue ++ r ∷ []) < 2 ^ 64
    → Counted (push r q)
unfolding push
push-Counted r q c t d =
    let ts = total_size-append q.queue r in
    let ds = documents-append q.queue r in
    let m = c.memory_counted in
    let n = c.non_meta_counted in
    record { non_meta_counted = ground arith; memory_counted = omega arith; documents_fit = d }

pop_front-Counted :
    (r : Response) (rest : List Response) (q : ReadyQueue)
    → q.queue ≡ r ∷ rest
    → Counted q
    → Counted (pop_front r rest q)
unfolding pop_front documents total_size
pop_front-Counted r rest q e c =
    let m = subst (λ l. q.memory ≡ total_size l) e c.memory_counted in
    let n = subst (λ l. q.non_meta_items ≡ documents l) e c.non_meta_counted in
    let f = subst (λ l. documents l < 2 ^ 64) e c.documents_fit in
    record {
      non_meta_counted = ground arith;
      memory_counted = ground arith;
      documents_fit = ground arith;
    }

pop-Counted : (q : ReadyQueue) → Counted q → Counted (pop q)
unfolding pop
pop-Counted q c = elim (List-cases q.queue) [
  | inl e ↦ (let same : q ≡ pop q = ground arith in subst Counted same c)
  | inr (r, rest, e) ↦
      (let same : pop_front r rest q ≡ pop q = ground arith in
        subst Counted same (pop_front-Counted r rest q e c))
]

notify-Counted : (q : ReadyQueue) → Counted q → Counted (notify q)
unfolding notify
notify-Counted q c = elim (Bool-cases q.items_ready) [
  | inl e ↦ (let same : q ≡ notify q = ground arith in subst Counted same c)
  | inr e ↦ record {
    non_meta_counted = ground (arith, c.non_meta_counted);
    memory_counted = ground (arith, c.memory_counted);
    documents_fit = ground (arith, c.documents_fit);
  }
]

clear_list-Counted :
    (rs : List Response) (q : ReadyQueue) → q.queue ≡ rs → Counted q → Counted (clear_list rs q)
unfolding clear_list pop_front
clear_list-Counted [] q e c = c
clear_list-Counted (r ∷ rs) q e c =
    clear_list-Counted rs (pop_front r rs q) refl (pop_front-Counted r rs q e c)

-- In every queue that pushes, pops, clears and notifications reach, while the sizes of what is queued
-- fit in 64 bits: `readyQueueMemory` is the sum of the sizes of the queued messages, and
-- `readyQ_non_meta_items` the number of those that carry a document.
pub reached-Counted : {q : ReadyQueue} → Reached q → Counted q
unfolding total_size documents empty_queue clear clear_list
reached-Counted start = record {
  non_meta_counted = refl;
  memory_counted = refl;
  documents_fit = omega arith;
}
reached-Counted (pushed r k t d) = push-Counted r _ (reached-Counted k) t d
reached-Counted (popped k) = pop-Counted _ (reached-Counted k)
reached-Counted (cleared {q = q} k) = clear_list-Counted q.queue q refl (reached-Counted k)
reached-Counted (notifying {q = q} k) = notify-Counted q (reached-Counted k)
