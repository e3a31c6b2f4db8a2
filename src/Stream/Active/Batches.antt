-- ===== src/Stream/Active/Batches.antt =====
-- The documents that a producer's stream takes keep its order (src/dcp/stream.cc).

use ep_engine.Base.{ℕ, ◌<◌, ◌≤◌, ◌≡◌, refl, true, List, [], ◌∷◌, ◌++◌, arith}
use ep_engine.Stream.{Mutation, mutation_response, ReadyQueue, push}
use ep_engine.Stream.Order.{floor, rises, Between, Between-append}
use ep_engine.Stream.Active.Diagram.{is_end, mark, no_end, no_end-append}
use ep_engine.Stream.Active.Snapshots.{
  QueuedItem, item, checkpoint_start, other_meta, last_of, push_all,
}

-- The documents come in the order of their sequence numbers, all above `lo`.
unfoldable pub Ascends : ℕ → List Mutation → Type 0
Ascends lo [] = 0 ≤ lo
Ascends lo (m ∷ ms) = (lo < m.by_seqno) × Ascends m.by_seqno ms

-- The same of queued items; and the last sequence number that they have.
unfoldable pub Rising : ℕ → List QueuedItem → Type 0
Rising lo [] = 0 ≤ lo
Rising lo (item m ∷ items) = (lo < m.by_seqno) × Rising m.by_seqno items
Rising lo (checkpoint_start ∷ items) = Rising lo items
Rising lo (other_meta ∷ items) = Rising lo items

unfoldable pub last_item : ℕ → List QueuedItem → ℕ
last_item lo [] = lo
last_item lo (item m ∷ items) = last_item m.by_seqno items
last_item lo (checkpoint_start ∷ items) = last_item lo items
last_item lo (other_meta ∷ items) = last_item lo items

unfoldable pub RisingAll : ℕ → List (List QueuedItem) → Type 0
RisingAll lo [] = 0 ≤ lo
RisingAll lo (items ∷ later) = Rising lo items × RisingAll (last_item lo items) later

pub Ascends-append :
    (lo : ℕ) (ms : List Mutation) (m : Mutation)
    → Ascends lo ms
    → last_of lo ms < m.by_seqno
    → Ascends lo (ms ++ m ∷ [])
unfolding Ascends last_of
Ascends-append lo [] m a h = (h, omega arith)
Ascends-append lo (x ∷ ms) m a h = (a.0, Ascends-append x.by_seqno ms m a.1 h)

pub last_of-append :
    (lo : ℕ) (ms : List Mutation) (m : Mutation) → last_of lo (ms ++ m ∷ []) ≡ m.by_seqno
unfolding last_of
last_of-append lo [] m = refl
last_of-append lo (x ∷ ms) m = last_of-append x.by_seqno ms m

pub last_of-le : (lo : ℕ) (ms : List Mutation) → Ascends lo ms → lo ≤ last_of lo ms
unfolding Ascends last_of
last_of-le lo [] a = omega arith
last_of-le lo (m ∷ ms) a = let first = a.0 in omega (arith, last_of-le m.by_seqno ms a.1)

pub Rising-le : (lo hi : ℕ) (items : List QueuedItem) → lo ≤ hi → Rising hi items → Rising lo items
unfolding Rising
Rising-le lo hi [] h r = omega arith
Rising-le lo hi (item m ∷ items) h r = let first = r.0 in (omega arith, r.1)
Rising-le lo hi (checkpoint_start ∷ items) h r = Rising-le lo hi items h r
Rising-le lo hi (other_meta ∷ items) h r = Rising-le lo hi items h r

pub last_item-le :
    (lo hi : ℕ) (items : List QueuedItem) → lo ≤ hi → last_item lo items ≤ last_item hi items
unfolding last_item
last_item-le lo hi [] h = h
last_item-le lo hi (item m ∷ items) h = omega arith
last_item-le lo hi (checkpoint_start ∷ items) h = last_item-le lo hi items h
last_item-le lo hi (other_meta ∷ items) h = last_item-le lo hi items h

pub RisingAll-le :
    (lo hi : ℕ) (later : List (List QueuedItem)) → lo ≤ hi → RisingAll hi later → RisingAll lo later
unfolding RisingAll
RisingAll-le lo hi [] h r = omega arith
RisingAll-le lo hi (items ∷ later) h r = (
  Rising-le lo hi items h r.0,
  RisingAll-le (last_item lo items) (last_item hi items) later (last_item-le lo hi items h) r.1,
)

pub Between-push :
    (lo hi : ℕ) (m : Mutation) (q : ReadyQueue)
    → Between mark lo q.queue hi
    → hi < m.by_seqno
    → Between mark lo (push (mutation_response m) q).queue m.by_seqno
unfolding push floor rises mark
Between-push lo hi m q b h =
    Between-append mark lo hi q.queue (mutation_response m) b (ground (arith, h))

pub Between-push_all :
    (lo hi : ℕ) (ms : List Mutation) (q : ReadyQueue)
    → Between mark lo q.queue hi
    → Ascends hi ms
    → Between mark lo (push_all ms q).queue (last_of hi ms)
unfolding push_all Ascends last_of
Between-push_all lo hi [] q b a = b
Between-push_all lo hi (m ∷ ms) q b a =
    Between-push_all lo m.by_seqno ms (push (mutation_response m) q) (Between-push lo hi m q b a.0)
      a.1

pub no_end-push_all :
    (ms : List Mutation) (q : ReadyQueue)
    → no_end q.queue ≡ true
    → no_end (push_all ms q).queue ≡ true
unfolding push_all push is_end
no_end-push_all [] q h = h
no_end-push_all (m ∷ ms) q h =
    no_end-push_all ms (push (mutation_response m) q)
      (no_end-append q.queue (mutation_response m) h refl)
