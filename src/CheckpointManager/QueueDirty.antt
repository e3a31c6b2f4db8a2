-- ===== src/CheckpointManager/QueueDirty.antt =====
-- `CheckpointManager::queueDirty` of src/checkpoint.cc on its branches: the sequence number that an
-- item gets, the snapshot range, the queue that it joins, and the exceptions.
use ep_engine.Base.{
  ℕ, ◌+◌, ◌≤◌, ◌≡◌, refl, sym, ◌∙◌, ap, inl, inr, Bool, true, false, some, arith, if◌then◌else◌,
  Option-cases,
}
use ep_engine.Checkpoint.Nodes.{Item}
use ep_engine.Checkpoint.{Checkpoint, queue_open}
use ep_engine.Checkpoint.Expected.{IsSound, expected, queue_open-expected}
use ep_engine.CheckpointManager.{Manager}
use ep_engine.CheckpointManager.Open.{
  Config, last_checkpoint, set_last, Reply, queued, make_room, enqueue, assign_and_enqueue,
  queue_dirty, is_existing,
}
use ep_engine.CheckpointManager.OpenLaws.{
  last_checkpoint-set_last, frame-queue_open, last_by_seqno-make_room,
}

-- The checkpoint that `enqueue` leaves at the end of the list.
enqueued : Item → Checkpoint → Manager → Checkpoint
enqueued qi k m =
    let (k', cs, rv) = queue_open m.next_address qi k m.conn_cursors in
    if is_existing rv
    then k'
    else record k' { effective_mem_usage = k'.effective_mem_usage + qi.size }

checkpoints-enqueue :
    (qi : Item) (k : Checkpoint) (m : Manager)
    → ((enqueue qi k m).0.checkpoints ≡ set_last (enqueued qi k m) m.checkpoints)
      × ((enqueue qi k m).0.last_by_seqno ≡ m.last_by_seqno)
unfolding enqueue enqueued
checkpoints-enqueue qi k m = (ground arith, ground arith)

frame-enqueued :
    (qi : Item) (k : Checkpoint) (m : Manager)
    → ((enqueued qi k m).snap_start ≡ k.snap_start)
      × ((enqueued qi k m).snap_end ≡ k.snap_end)
      × ((enqueued qi k m).state ≡ k.state)
      × ((enqueued qi k m).to_write ≡ (queue_open m.next_address qi k m.conn_cursors).0.to_write)
unfolding enqueued
frame-enqueued qi k m =
    let f = frame-queue_open m.next_address qi k m.conn_cursors in
    (ground arith, ground arith, ground arith, ground arith)

-- The item as it is queued, and the open checkpoint just before.
abbrev pub numbered : Item → Bool → Manager → Item
numbered qi gen m = record qi { by_seqno = if gen then m.last_by_seqno + 1 else qi.by_seqno }

abbrev pub extended : Item → Bool → Manager → Checkpoint → Checkpoint
extended qi gen m k = if gen then record k { snap_end = (numbered qi gen m).by_seqno } else k

abbrev advanced : Item → Bool → Manager → Checkpoint → Manager
advanced qi gen m k = record m {
  last_by_seqno = (numbered qi gen m).by_seqno;
  checkpoints = set_last (extended qi gen m k) m.checkpoints;
}

assign-enqueue :
    (qi : Item) (gen : Bool) (m : Manager) (k : Checkpoint) (m' : Manager) (b : Bool)
    → last_checkpoint m.checkpoints ≡ some k
    → assign_and_enqueue qi gen m ≡ (m', queued b)
    → (enqueue (numbered qi gen m) (extended qi gen m k) (advanced qi gen m k) ≡ (m', queued b))
      × ((extended qi gen m k).snap_start ≤ (numbered qi gen m).by_seqno)
      × ((numbered qi gen m).by_seqno ≤ (extended qi gen m k).snap_end)
unfolding assign_and_enqueue
assign-enqueue qi true m k m' b h e = (ground arith, ground arith, ground arith)
assign-enqueue qi false m k m' b h e = (ground arith, ground arith, ground arith)

-- What a successful call leaves: `k'` is the open checkpoint.
assign-result :
    (qi : Item) (gen : Bool) (m : Manager) (k : Checkpoint) (m' : Manager) (b : Bool)
    → last_checkpoint m.checkpoints ≡ some k
    → assign_and_enqueue qi gen m ≡ (m', queued b)
    → (last_checkpoint m'.checkpoints
        ≡ some (enqueued (numbered qi gen m) (extended qi gen m k) (advanced qi gen m k)))
      × (m'.last_by_seqno ≡ (numbered qi gen m).by_seqno)
assign-result qi gen m k m' b h e =
    let (q, lo, hi) = assign-enqueue qi gen m k m' b h e in
    let qi' = numbered qi gen m in
    let k' = extended qi gen m k in
    let m1 = advanced qi gen m k in
    let (c, l) = checkpoints-enqueue qi' k' m1 in
    let same : (enqueue qi' k' m1).0 ≡ m' = ap (λ (z : Manager × Reply). z.0) q in
    (
      ap (λ z. last_checkpoint z.checkpoints) (sym same)
          ∙ ap last_checkpoint c
          ∙ last_checkpoint-set_last (enqueued qi' k' m1) k' (set_last k' m.checkpoints)
              (last_checkpoint-set_last k' k m.checkpoints h),
      ap (λ z. z.last_by_seqno) (sym same) ∙ l,
    )

split_queue_dirty :
    (cfg : Config) (now : ℕ) (active gen : Bool) (qi : Item) (m m' : Manager) (b : Bool)
    → queue_dirty cfg now active qi gen m ≡ (m', queued b)
    → assign_and_enqueue qi gen (make_room cfg now active m).0 ≡ (m', queued b)
unfolding queue_dirty
split_queue_dirty cfg now active gen qi m m' b h = ground arith

assign-last :
    (qi : Item) (gen : Bool) (m m' : Manager) (b : Bool)
    → assign_and_enqueue qi gen m ≡ (m', queued b)
    → (k : Checkpoint) × (last_checkpoint m.checkpoints ≡ some k)
unfolding assign_and_enqueue
assign-last qi gen m m' b h = elim (Option-cases (last_checkpoint m.checkpoints)) [
  | inl e ↦ absurd (ground arith)
  | inr w ↦ w
]

-- When `queueDirty` accepts an item, its sequence number becomes the manager's highest: the next one
-- if the number is generated, and the item's own if not. It lies in the snapshot range of the last
-- checkpoint, whatever checkpoints were closed and created on the way.
pub queue_dirty-in_range :
    (cfg : Config) (now : ℕ) (active gen : Bool) (qi : Item) (m m' : Manager) (b : Bool)
    → queue_dirty cfg now active qi gen m ≡ (m', queued b)
    → (m'.last_by_seqno ≡ (if gen then m.last_by_seqno + 1 else qi.by_seqno))
      × ((k : Checkpoint) × (last_checkpoint m'.checkpoints ≡ some k)
          × (k.snap_start ≤ m'.last_by_seqno)
          × (m'.last_by_seqno ≤ k.snap_end))
queue_dirty-in_range cfg now active gen qi m m' b h =
    let m1 = (make_room cfg now active m).0 in
    let a = split_queue_dirty cfg now active gen qi m m' b h in
    let (k, l) = assign-last qi gen m1 m' b a in
    let (q, lo, hi) = assign-enqueue qi gen m1 k m' b l a in
    let (r, s) = assign-result qi gen m1 k m' b l a in
    let f = frame-enqueued (numbered qi gen m1) (extended qi gen m1 k) (advanced qi gen m1 k) in
    (
      ground (arith, s, last_by_seqno-make_room cfg now active m),
      (
        enqueued (numbered qi gen m1) (extended qi gen m1 k) (advanced qi gen m1 k),
        r,
        ground (arith, f, lo, s),
        ground (arith, f, hi, s),
      ),
    )

IsSound-extended :
    (qi : Item) (gen : Bool) (m : Manager) (k : Checkpoint)
    → IsSound k
    → IsSound (extended qi gen m k)
IsSound-extended qi true m k s = record {
  head = s.head;
  rest = s.rest;
  shape = s.shape;
  dummy = s.dummy;
  distinct = s.distinct;
  indexed = s.indexed;
}
IsSound-extended qi false m k s = s

queue-extended :
    (qi : Item) (gen : Bool) (m : Manager) (k : Checkpoint)
    → (extended qi gen m k).to_write ≡ k.to_write
queue-extended qi true m k = refl
queue-extended qi false m k = refl

-- When the open checkpoint is not replaced, an accepted item ends its queue, with its sequence number
-- and the next free address; of the rest of the queue only an older mutation of the item's key goes,
-- and that only if the item is a mutation.
pub queue_dirty-expected :
    (cfg : Config) (now : ℕ) (active gen : Bool) (qi : Item) (m m' : Manager) (b : Bool)
    (k : Checkpoint)
    → last_checkpoint m.checkpoints ≡ some k
    → IsSound k
    → make_room cfg now active m ≡ (m, true)
    → queue_dirty cfg now active qi gen m ≡ (m', queued b)
    → (k' : Checkpoint) × (last_checkpoint m'.checkpoints ≡ some k')
      × (k'.to_write ≡ expected (numbered qi gen m) m.next_address k.to_write)
queue_dirty-expected cfg now active gen qi m m' b k l sound ready h =
    let a =
      ap (λ (z : Manager × Bool). assign_and_enqueue qi gen z.0) (sym ready)
      ∙ split_queue_dirty cfg now active gen qi m m' b h in
    let (r, s) = assign-result qi gen m k m' b l a in
    let qi' = numbered qi gen m in
    let k' = extended qi gen m k in
    let m1 = advanced qi gen m k in
    (
      enqueued qi' k' m1,
      r,
      (frame-enqueued qi' k' m1).3
          ∙ queue_open-expected m.next_address qi' k' (IsSound-extended qi gen m k sound)
              m.conn_cursors
          ∙ ap (expected qi' m.next_address) (queue-extended qi gen m k),
    )
