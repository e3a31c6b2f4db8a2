-- ===== src/Stream/Active/Snapshots.antt =====
-- src/dcp/stream.cc: how the items of the checkpoints become snapshots of a producer's stream.
use ep_engine.Base.{
  ℕ, ◌+◌, ◌%◌, ◌^◌, min, Bool, true, false, not, ◌&&◌, ◌||◌, List, [], ◌∷◌, ◌++◌, leb,
  if◌then◌else◌,
}
use ep_engine.Stream.{Mutation, snapshot_marker, mutation_response, ReadyQueue, push}
use ep_engine.Stream.Active.{Engine, Active, is_dead, is_backfilling, is_takeover_send}

-- A queued item: a document, which is set or deleted, the start of a checkpoint, or another meta item.
pub data QueuedItem : Type 0 where
  item : Mutation → QueuedItem
  checkpoint_start other_meta : QueuedItem

unfoldable pub last_of : ℕ → List Mutation → ℕ
last_of n [] = n
last_of n (m ∷ ms) = last_of m.by_seqno ms

unfoldable pub starts_checkpoint : List QueuedItem → Bool
starts_checkpoint (checkpoint_start ∷ items) = true
starts_checkpoint _ = false

unfoldable pub push_all : List Mutation → ReadyQueue → ReadyQueue
push_all [] q = q
push_all (m ∷ ms) q = push_all ms (push (mutation_response m) q)

unfoldable pub is_empty : List Mutation → Bool
is_empty [] = true
is_empty (m ∷ ms) = false

module _ {E : Type 0} where
  -- `isCurrentSnapshotCompleted`
  unfoldable pub is_current_snapshot_completed : Engine E → Active E → Bool
  is_current_snapshot_completed ops p = not (
      ops.has_vbucket p.engine
      && ops.is_replica p.engine
      && leb p.last_read_seqno p.last_sent_snap_end)

  -- The marker of a snapshot from memory.
  unfoldable pub push_marker : ℕ → ℕ → Bool → Active E → Active E
  unfolding is_takeover_send
  push_marker first last mark p =
      let takes = is_takeover_send p.state in
      let start = if p.first_marker_sent then first else min p.snap_start_seqno first in
      let flags = 1 + (if mark then 4 else 0) + (if takes then 8 else 0) in
      record p {
        wait_for_snapshot =
            if takes then (p.wait_for_snapshot + 1) % 2 ^ 32 else p.wait_for_snapshot;
        first_marker_sent = true;
        ready = push (snapshot_marker p.stream_opaque start last flags) p.ready;
        last_sent_snap_end = last;
      }

  -- `snapshot`
  unfoldable pub snapshot : Engine E → List Mutation → Bool → Active E → Active E
  unfolding is_current_snapshot_completed push_marker is_dead is_backfilling
  snapshot ops [] mark p = p
  snapshot ops (m ∷ ms) mark p =
      let read = record p { last_read_seqno = p.last_read_unsnapshotted } in
      let marked =
        if is_current_snapshot_completed ops read
        then push_marker m.by_seqno (last_of m.by_seqno ms) mark read
        else read in
      if is_dead p.state || is_backfilling p.state
      then p
      else record marked { ready = push_all (m ∷ ms) marked.ready }

  -- The loop of `processItems`, with the documents collected so far: the stream, the documents that are
  -- left, and the mark.
  unfoldable pub collect :
      Engine E → List QueuedItem → List Mutation → Bool → Active E → Active E × List Mutation × Bool
  unfolding snapshot
  collect ops [] ms mark p = (p, ms, mark)
  collect ops (item m ∷ items) ms mark p =
      collect ops items (ms ++ record m { payload = p.payload } ∷ []) mark
        (record p { cur_chk_seqno = m.by_seqno; last_read_unsnapshotted = m.by_seqno })
  collect ops (checkpoint_start ∷ items) ms mark p =
      collect ops items [] true (snapshot ops ms mark p)
  collect ops (other_meta ∷ items) ms mark p = collect ops items ms mark p

  unfoldable pub extracted : Active E → Active E
  extracted p = record p {
    extraction_in_progress = false;
    ready = record p.ready { notified = p.ready.notified + 1 };
  }

  -- `processItems`, where `later` holds the answers of the checkpoint manager to the calls that follow, an
  -- empty one after the last; and `nextCheckpointItemTask` for such a list of answers.
  unfoldable pub process_items :
      Engine E → List QueuedItem → List (List QueuedItem) → Active E → Active E
  unfolding collect snapshot starts_checkpoint is_empty extracted
  process_items ops [] later p = extracted p
  process_items ops (i ∷ items) [] p =
      let (q, ms, mark) = collect ops (i ∷ items) [] (starts_checkpoint (i ∷ items)) p in
      let again = extracted (record q { extraction_in_progress = true }) in
      extracted (
        if is_empty ms
        then (if ops.has_vbucket q.engine then again else q)
        else snapshot ops ms mark q)
  process_items ops (i ∷ items) (next ∷ later) p =
      let (q, ms, mark) = collect ops (i ∷ items) [] (starts_checkpoint (i ∷ items)) p in
      let again = process_items ops next later (record q { extraction_in_progress = true }) in
      extracted (
        if is_empty ms
        then (if ops.has_vbucket q.engine then again else q)
        else snapshot ops ms mark q)

  unfoldable pub next_checkpoint_item_task :
      Engine E → List QueuedItem → List (List QueuedItem) → Active E → Active E
  unfolding process_items
  next_checkpoint_item_task ops items later p =
      if ops.has_vbucket p.engine
      then process_items ops items later (record p { extraction_in_progress = true })
      else p
