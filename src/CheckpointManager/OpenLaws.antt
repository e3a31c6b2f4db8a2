-- ===== src/CheckpointManager/OpenLaws.antt =====
-- `CheckpointManager::queueDirty` of src/checkpoint.cc: sequence numbers, the snapshot range and the
-- queue of the open checkpoint.

use ep_engine.Base.{
  ℕ, ◌+◌, ◌%◌, ◌^◌, ◌≡◌, refl, inl, inr, Bool, true, false, ◌&&◌, Option, none, some, List, [], ◌∷◌,
  arith, if◌then◌else◌, Option-cases,
}
use ep_engine.Checkpoint.Nodes.{Item}
use ep_engine.Checkpoint.{Checkpoint, Cursor, find_entry, index_item, queue_open}
use ep_engine.CheckpointManager.{Manager}
use ep_engine.CheckpointManager.Open.{
  Config, last_checkpoint, set_last, queue_meta, close_open_checkpoint, append_checkpoint,
  add_new_checkpoint, through_int, check_open_checkpoint, can_create, make_room,
}

pub last_checkpoint-set_last :
    (k l : Checkpoint) (ks : List Checkpoint)
    → last_checkpoint ks ≡ some l
    → last_checkpoint (set_last k ks) ≡ some k
unfolding last_checkpoint set_last
last_checkpoint-set_last k l [] h = cc
last_checkpoint-set_last k l (x ∷ []) h = refl
last_checkpoint-set_last k l (x ∷ y ∷ []) h = refl
last_checkpoint-set_last k l (x ∷ y ∷ z ∷ ks) h = last_checkpoint-set_last k l (y ∷ z ∷ ks) h

-- `Checkpoint::queueDirty` leaves the snapshot and the state alone.
pub frame-queue_open :
    (addr : ℕ) (qi : Item) (k : Checkpoint) (cs : List Cursor)
    → ((queue_open addr qi k cs).0.snap_start ≡ k.snap_start)
      × ((queue_open addr qi k cs).0.snap_end ≡ k.snap_end)
      × ((queue_open addr qi k cs).0.state ≡ k.state)
unfolding queue_open index_item
frame-queue_open addr qi k cs = elim (Option-cases (find_entry qi.key k.key_index)) [
  | inl h ↦ (ground arith, ground arith, ground arith)
  | inr (e, h) ↦ (ground arith, ground arith, ground arith)
]

last_by_seqno-queue_meta :
    (o : Option Item) (k : Checkpoint) (m : Manager)
    → ((queue_meta o k m).1.last_by_seqno ≡ m.last_by_seqno)
unfolding queue_meta
last_by_seqno-queue_meta none k m = refl
last_by_seqno-queue_meta (some qi) k m = refl

last_by_seqno-append_checkpoint :
    (cfg : Config) (now id s e : ℕ) (m : Manager)
    → (append_checkpoint cfg now id s e m).last_by_seqno ≡ m.last_by_seqno
unfolding append_checkpoint
last_by_seqno-append_checkpoint cfg now id s e m = ground arith

last_by_seqno-close :
    (cfg : Config) (m : Manager) → (close_open_checkpoint cfg m).0.last_by_seqno ≡ m.last_by_seqno
unfolding close_open_checkpoint
last_by_seqno-close cfg m = ground arith

last_by_seqno-add :
    (cfg : Config) (now id s e : ℕ) (m : Manager)
    → (add_new_checkpoint cfg now id s e m).last_by_seqno ≡ m.last_by_seqno
unfolding add_new_checkpoint
last_by_seqno-add cfg now id s e m = elim (Option-cases (last_checkpoint m.checkpoints)) [
  | inl h ↦ ground (arith, last_by_seqno-append_checkpoint cfg now id s e m)
  | inr (k, h) ↦ ground (
    arith,
    last_by_seqno-append_checkpoint cfg now id s e m,
    last_by_seqno-append_checkpoint cfg now id s e (close_open_checkpoint cfg m).0,
    last_by_seqno-close cfg m,
  )
]

last_by_seqno-check_open :
    (cfg : Config) (now : ℕ) (force late : Bool) (m : Manager)
    → (check_open_checkpoint cfg now force late m).0.last_by_seqno ≡ m.last_by_seqno
unfolding check_open_checkpoint
last_by_seqno-check_open cfg now force late m =
    elim (Option-cases (last_checkpoint m.checkpoints)) [
      | inl h ↦ ground arith
      | inr (k, h) ↦ ground (
        arith,
        last_by_seqno-add cfg now ((through_int k.id + 1) % 2 ^ 64) m.last_by_seqno m.last_by_seqno
            m,
      )
    ]

-- The manager after the first test of `queueDirty`.
abbrev pub opened_first : Config → ℕ → Bool → Manager → Manager
opened_first cfg now active m =
    if active && can_create cfg m.checkpoints
    then (check_open_checkpoint cfg now false true m).0
    else m

pub last_by_seqno-make_room :
    (cfg : Config) (now : ℕ) (active : Bool) (m : Manager)
    → (make_room cfg now active m).0.last_by_seqno ≡ m.last_by_seqno
unfolding make_room
last_by_seqno-make_room cfg now active m =
    go (opened_first cfg now active m) refl
      (ground (arith, last_by_seqno-check_open cfg now false true m))
  where
    go :
        (m1 : Manager)
        → opened_first cfg now active m ≡ m1
        → (opened_first cfg now active m).last_by_seqno ≡ m.last_by_seqno
        → (make_room cfg now active m).0.last_by_seqno ≡ m.last_by_seqno
    go m1 e l = elim (Option-cases (last_checkpoint (opened_first cfg now active m).checkpoints)) [
      | inl h ↦ ground arith
      | inr (k, h) ↦ ground (
        arith,
        last_by_seqno-add cfg now (k.id + 1) (opened_first cfg now active m).last_by_seqno
            (opened_first cfg now active m).last_by_seqno (opened_first cfg now active m),
      )
    ]
