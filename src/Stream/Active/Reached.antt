-- ===== src/Stream/Active/Reached.antt =====
-- The producer's streams that the operations reach, and what holds of them (src/dcp/stream.cc).

use ep_engine.Base.{ℕ, ◌<◌, ◌≡◌, Bool, List, ◌∷◌, Option, some}
use ep_engine.Stream.{EndStatus, Mutation, Response}
use ep_engine.Stream.Active.{Engine, Active}
use ep_engine.Stream.Active.Events.{
  new_active, set_active, set_dead, notify_seqno_available, snapshot_marker_ack,
  set_vbucket_state_ack, handle_slow_stream,
}
use ep_engine.Stream.Active.Backfill.{mark_disk_snapshot, complete_backfill, backfill_received}
use ep_engine.Stream.Active.Phases.{next}
use ep_engine.Stream.Active.Snapshots.{QueuedItem, next_checkpoint_item_task}
use ep_engine.Stream.Active.Batches.{RisingAll}

module _ {E : Type 0} where
  -- One operation of the stream. The backfill reads, and the cursor of the checkpoint manager returns,
  -- documents in the order of their sequence numbers, after those that were read.
  pub data Step (ops : Engine E) : Active E → Active E → Type 0 where
    sets_active : (p q : Active E) → set_active ops p ≡ some q → Step ops p q
    sets_dead :
        (status : EndStatus) (p q : Active E) → set_dead ops status p ≡ some q → Step ops p q
    notified : (p : Active E) → Step ops p (notify_seqno_available p)
    marker_ack : (p : Active E) → Step ops p (snapshot_marker_ack p)
    vbucket_ack : (p q : Active E) → set_vbucket_state_ack ops p ≡ some q → Step ops p q
    marks_disk :
        (start stop : ℕ) (p q : Active E)
        → mark_disk_snapshot ops start stop p ≡ some q
        → Step ops p q
    backfills :
        (m : Mutation) (from_memory : Bool) (p : Active E)
        → p.last_read_seqno < m.by_seqno
        → Step ops p (backfill_received ops (some m) from_memory p).0
    completes : (p q : Active E) → complete_backfill ops p ≡ some q → Step ops p q
    slowed : (p q : Active E) → handle_slow_stream ops p ≡ some q → Step ops p q
    extracts :
        (items : List QueuedItem) (later : List (List QueuedItem)) (p : Active E)
        → RisingAll p.last_read_seqno (items ∷ later)
        → Step ops p (next_checkpoint_item_task ops items later p)
    sends :
        (p : Active E) (out : Active E × Option Response) → next ops p ≡ some out → Step ops p out.0

  pub data Reached (ops : Engine E) : Active E → Type 0 where
    created :
        (takeover disk_only key_only : Bool) (o start stop snap_start max_time : ℕ) (e : E)
        (q : Active E)
        → new_active ops takeover disk_only key_only o start stop snap_start max_time e ≡ some q
        → Reached ops q
    step : {p q : Active E} → Reached ops p → Step ops p q → Reached ops q
