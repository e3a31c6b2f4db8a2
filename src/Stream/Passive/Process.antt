-- ===== src/Stream/Passive/Process.antt =====
-- src/dcp/stream.cc, class PassiveStream: what a message does to the stream and to its store.
use ep_engine.Base.{
  ℕ, ◌+◌, Bool, true, false, ◌&&◌, ◌||◌, ◌∷◌, Option, none, some, ltb, ◌==◌, ◌>>=◌, if◌then◌else◌,
}
use ep_engine.Stream.{dead, Mutation, snapshot_marker_response, set_vbucket_state_response}
use ep_engine.Stream.Passive.{
  Code, success, erange, not_my_vbucket, no_snapshot, disk, memory, Message, mutation, marker,
  set_vbucket, stream_end, unknown, Store, Passive, is_disk, is_success, has_flag, is_valid_cas,
  found, enter, send,
}

module _ {S : Type 0} where
  -- `handleSnapshotEnd`
  unfoldable pub add_new : Store S → Passive S → Passive S
  add_new ops p = record p {
    store = ops.add_checkpoint (ops.open_checkpoint_id p.store + 1) p.store;
  }

  unfoldable pub acknowledge_snapshot : Passive S → Passive S
  unfolding send
  acknowledge_snapshot p =
      if p.cur_snapshot_ack
      then record (send (snapshot_marker_response p.stream_opaque 0) p) { cur_snapshot_ack = false }
      else p

  unfoldable pub new_checkpoint : Store S → Passive S → Passive S
  unfolding add_new is_disk
  new_checkpoint ops p =
      if is_disk p.cur_snapshot_type && ops.is_backfill_phase p.store
      then add_new ops (record p { store = ops.set_backfill_phase false p.store })
      else (if ops.over_high_watermark p.store then add_new ops p else p)

  unfoldable pub handle_snapshot_end : Store S → ℕ → Passive S → Passive S
  unfolding new_checkpoint acknowledge_snapshot
  handle_snapshot_end ops by_seqno p =
      if by_seqno == p.cur_snapshot_end
      then record (acknowledge_snapshot (new_checkpoint ops p)) { cur_snapshot_type = no_snapshot }
      else p

  -- What follows the store's answer.
  unfoldable pub finish : Store S → ℕ → Bool → Passive S → Passive S
  unfolding handle_snapshot_end
  finish ops by_seqno took p =
      if took
      then handle_snapshot_end ops by_seqno (record p { applied = by_seqno ∷ p.applied })
      else p

  unfoldable pub out_of_snapshot : Mutation → Passive S → Bool
  out_of_snapshot m p = ltb m.by_seqno p.cur_snapshot_start || ltb p.cur_snapshot_end m.by_seqno

  -- `processMutation`: the stream after it, the answer, and the message, which may have a new CAS.
  unfoldable pub renew_cas : Store S → Mutation → S → S × Mutation
  unfolding is_valid_cas
  renew_cas ops m s =
      if is_valid_cas m.cas
      then (s, m)
      else (let fresh = ops.next_cas s in (fresh.0, record m { cas = fresh.1 }))

  unfoldable pub give_mutation : Store S → Mutation → S → S × Code
  give_mutation ops m s =
      if ops.is_backfill_phase s then ops.add_backfill_item m s else ops.set_with_meta m s

  unfoldable pub store_mutation : Store S → Mutation → Passive S → Passive S × Code × Mutation
  unfolding renew_cas give_mutation finish is_success
  store_mutation ops m p =
      let renewed = renew_cas ops m p.store in
      let answer = give_mutation ops renewed.1 renewed.0 in
      (
        finish ops m.by_seqno (is_success answer.1) (record p { store = answer.0 }),
        answer.1,
        renewed.1,
      )

  unfoldable pub process_mutation : Store S → Mutation → Passive S → Passive S × Code × Mutation
  unfolding store_mutation out_of_snapshot
  process_mutation ops m p =
      if ops.has_vbucket p.store
      then (if out_of_snapshot m p then (p, erange, m) else store_mutation ops m p)
      else (p, not_my_vbucket, m)

  -- `processDeletion`; the CAS of the message stays.
  unfoldable pub store_deletion : Store S → Mutation → Passive S → Passive S × Code × Mutation
  unfolding renew_cas found finish is_success
  store_deletion ops m p =
      let renewed = renew_cas ops m p.store in
      let answer = ops.delete_with_meta renewed.1 (ops.is_backfill_phase renewed.0) renewed.0 in
      let ret = found answer.1 in
      (finish ops m.by_seqno (is_success ret) (record p { store = answer.0 }), ret, m)

  unfoldable pub process_deletion : Store S → Mutation → Passive S → Passive S × Code × Mutation
  unfolding store_deletion out_of_snapshot
  process_deletion ops m p =
      if ops.has_vbucket p.store
      then (if out_of_snapshot m p then (p, erange, m) else store_deletion ops m p)
      else (p, not_my_vbucket, m)

  -- `processMarker`
  unfoldable pub marker_snapshot : Store S → (start_seqno end_seqno flags : ℕ) → S → S
  unfolding has_flag
  marker_snapshot ops start stop flags s =
      if has_flag 2 flags && (ops.high_seqno s == 0)
      then ops.backfill_snapshot start stop (ops.set_backfill_phase true s)
      else ops.set_backfill_phase false (
          if has_flag 4 flags || (ops.open_checkpoint_id s == 0)
          then ops.create_snapshot start stop s
          else ops.update_snapshot_end stop s)

  unfoldable pub process_marker :
      Store S → (start_seqno end_seqno flags : ℕ) → Passive S → Passive S
  unfolding has_flag marker_snapshot
  process_marker ops start stop flags p =
      let here = ops.has_vbucket p.store in
      record p {
        cur_snapshot_start = start;
        cur_snapshot_end = stop;
        cur_snapshot_type = if has_flag 2 flags then disk else memory;
        store = if here then marker_snapshot ops start stop flags p.store else p.store;
        cur_snapshot_ack = (here && has_flag 8 flags) || p.cur_snapshot_ack;
      }

  -- `processSetVBucketState`
  unfoldable pub process_set_vbucket : Store S → ℕ → Passive S → Passive S
  unfolding send
  process_set_vbucket ops new p =
      send (set_vbucket_state_response p.stream_opaque 0)
        (record p { store = ops.set_vbucket_state new p.store })

  -- The `switch` on the event, which `messageReceived` and `processBufferedMessages` have both: the
  -- stream after it, the answer, and the message.
  unfoldable pub process : Store S → Message → Passive S → Option (Passive S × Code × Message)
  unfolding process_mutation process_deletion process_marker process_set_vbucket enter
  process ops (mutation m) p =
      let out = if m.is_deleted then process_deletion ops m p else process_mutation ops m p in
      some (out.0, out.1, mutation out.2)
  process ops (marker start stop flags) p =
      some (process_marker ops start stop flags p, success, marker start stop flags)
  process ops (set_vbucket new) p = some (process_set_vbucket ops new p, success, set_vbucket new)
  process ops stream_end p = do q ← enter dead p; some (q, success, stream_end)
  process ops (unknown n) p = none
