-- ===== src/Consumer/Handlers.antt =====
-- src/dcp/consumer.cc: the handlers of the messages of a connection.
use ep_engine.Base.{
  ℕ, ◌+◌, ◌-◌, ◌%◌, ◌^◌, Bool, true, false, not, ◌&&◌, ◌||◌, List, [], ◌∷◌, ◌++◌, Option, none,
  some, ltb, ◌==◌, ◌>>=◌, if◌then◌else◌, length,
}
use ep_engine.ExtMeta.{Parsed, Outcome, parsed, overrun, out_of_fuel, decode_meta}
use ep_engine.ExtMeta as ExtMeta
use ep_engine.Stream.{Mutation, key_value}
use ep_engine.Stream.Passive.{
  Store, Passive, mutation, marker, set_vbucket, stream_end, Code, success, key_enoent,
  not_my_vbucket, einval, disconnect, other, is_dead, new_passive,
}
use ep_engine.Stream.Passive.Receive.{set_dead}
use ep_engine.Consumer.{Consumer, find_stream, put_stream, erase_stream, heard, free_bytes, receive}

-- Whether the status of the meta data is `ENGINE_EINVAL`.
unfoldable status_is_einval : Outcome → Option Bool
status_is_einval (parsed p) = elim p.ret [
  | ExtMeta.success ↦ some false
  | ExtMeta.einval ↦ some true
]
status_is_einval overrun = none
status_is_einval out_of_fuel = none

unfoldable pub has_bad_meta : List ℕ → Option Bool
unfolding status_is_einval decode_meta
has_bad_meta [] = some false
has_bad_meta (b ∷ bs) = status_is_einval (decode_meta (b ∷ bs))

unfoldable pub meta_of : List ℕ → Option (List ℕ)
meta_of [] = none
meta_of (b ∷ bs) = some (b ∷ bs)

-- What a document of the protocol brings; a deletion has no value.
unfoldable pub document :
    (is_deleted : Bool) (key value : List ℕ) (by_seqno cas : ℕ) (meta : List ℕ) → Mutation
unfolding meta_of
document deleted key value by_seqno cas meta = record {
  key = key;
  value = value;
  by_seqno = by_seqno;
  cas = cas;
  is_deleted = deleted;
  payload = key_value;
  ext_meta = meta_of meta;
}

-- The number of bytes that a handler of documents counts.
unfoldable pub bytes_of : (is_deleted : Bool) (key value meta : List ℕ) → ℕ
bytes_of true key value meta = (42 + length key + length meta) % 2 ^ 32
bytes_of false key value meta = (55 + length key + length meta + length value) % 2 ^ 32

-- The map of the opaques.
unfoldable pub erase_opaque : ℕ → List (ℕ × ℕ × ℕ) → List (ℕ × ℕ × ℕ)
erase_opaque o [] = []
erase_opaque o (entry ∷ rest) = if entry.0 == o then rest else entry ∷ erase_opaque o rest

module _ {S : Type 0} where
  unfoldable pub with_meta :
      Option Bool → Consumer S → Option (Consumer S × Code) → Option (Consumer S × Code)
  with_meta none c rest = none
  with_meta (some true) c rest = some (c, einval)
  with_meta (some false) c rest = rest

  unfoldable pub matches : (stream_opaque : ℕ) → Option (Passive S) → Bool
  unfolding is_dead
  matches o none = false
  matches o (some p) = (p.stream_opaque == o) && not (is_dead p.state)

  -- `mutation`, and `deletion` and `expiration` with no value: the extended meta data is read only for a
  -- stream that takes the document.
  unfoldable pub document_received :
      Store S
      → (now stream_opaque vb : ℕ)
      → (is_deleted : Bool) (key value : List ℕ) (by_seqno cas : ℕ) (meta : List ℕ) → Consumer S
      → Option (Consumer S × Code)
  unfolding heard document bytes_of has_bad_meta with_meta matches receive find_stream
  document_received ops now o vb deleted key value by_seqno cas meta c =
      let h = heard now c in
      let m = mutation (document deleted key value by_seqno cas meta) in
      let received = receive ops (bytes_of deleted key value meta) o vb m h in
      let checked = with_meta (has_bad_meta meta) h received in
      if h.disconnecting
      then some (h, disconnect)
      else (if by_seqno == 0
          then some (h, einval)
          else (if matches o (find_stream vb h.streams) then checked else received))

  -- `streamEnd`
  unfoldable pub stream_end_received :
      Store S → (now stream_opaque vb : ℕ) → Consumer S → Option (Consumer S × Code)
  unfolding heard receive
  stream_end_received ops now o vb c =
      let received = receive ops 28 o vb stream_end (heard now c) in
      if c.disconnecting then some (heard now c, disconnect) else received

  -- `snapshotMarker`
  unfoldable pub snapshot_marker :
      Store S
      → (now stream_opaque vb start_seqno end_seqno flags : ℕ) → Consumer S
      → Option (Consumer S × Code)
  unfolding heard receive
  snapshot_marker ops now o vb start stop flags c =
      let received = receive ops 44 o vb (marker start stop flags) (heard now c) in
      if c.disconnecting
      then some (heard now c, disconnect)
      else (if ltb stop start then some (heard now c, einval) else received)

  -- `setVBucketState`
  unfoldable pub set_vbucket_state :
      Store S → (now stream_opaque vb state : ℕ) → Consumer S → Option (Consumer S × Code)
  unfolding heard receive
  set_vbucket_state ops now o vb state c =
      let received = receive ops 25 o vb (set_vbucket state) (heard now c) in
      if c.disconnecting then some (heard now c, disconnect) else received

  -- `addStream`. Of the vbucket: whether it is active, its snapshot, the uuid of its latest failover entry,
  -- its high sequence number, and the store of the new stream. `other 2` is `ENGINE_KEY_EEXISTS`.
  unfoldable pub has_live_stream : Option (Passive S) → Bool
  unfolding is_dead
  has_live_stream none = false
  has_live_stream (some p) = not (is_dead p.state)

  unfoldable pub insert_stream :
      (add_opaque vb flags start range_start range_end vb_uuid high_seqno : ℕ)
      → S
      → Consumer S
      → Consumer S
  unfolding new_passive put_stream erase_stream erase_opaque
  insert_stream o vb flags start range_start range_end uuid high s c =
      let counter = (c.opaque_counter + 1) % 2 ^ 64 in
      let new_opaque = counter % 2 ^ 32 in
      let snap_start = if range_end == start then start else range_start in
      let p = new_passive new_opaque flags start (2 ^ 64 - 1) uuid snap_start range_end high s in
      record c {
        opaque_counter = counter;
        streams = put_stream vb p (erase_stream vb c.streams);
        ready = c.ready ++ vb ∷ [];
        opaque_map = (new_opaque, o, vb) ∷ erase_opaque new_opaque c.opaque_map;
      }

  unfoldable pub add_stream :
      Store S
      → (now add_opaque vb flags : ℕ) (is_active : Bool)
        (start range_start range_end vb_uuid high_seqno : ℕ)
      → S
      → Consumer S
      → Consumer S × Code
  unfolding heard insert_stream has_live_stream find_stream
  add_stream ops now o vb flags is_active start range_start range_end uuid high s c =
      let h = heard now c in
      let counted = record h { opaque_counter = (h.opaque_counter + 1) % 2 ^ 64 } in
      if h.disconnecting
      then (h, disconnect)
      else (if not (ops.has_vbucket s) || is_active
          then (h, not_my_vbucket)
          else (if has_live_stream (find_stream vb h.streams)
              then (counted, other 2)
              else (insert_stream o vb flags start range_start range_end uuid high s h, success)))

  -- The stream is killed, and the bytes of its buffer are done with.
  unfoldable pub retire : ℕ → Passive S → Consumer S → Option (Consumer S)
  unfolding set_dead erase_stream free_bytes
  retire vb p c = do
    out ← set_dead p
    some (free_bytes out.1 (record c { streams = erase_stream vb c.streams }))

  unfoldable pub retire_found : ℕ → Consumer S → Option (Consumer S) → Option (Consumer S)
  unfolding retire find_stream
  retire_found vb c missing = elim (find_stream vb c.streams) [
    | none ↦ missing
    | some p ↦ retire vb p c
  ]

  -- `closeStream`
  unfoldable pub close_stream : (now stream_opaque vb : ℕ) → Consumer S → Option (Consumer S × Code)
  unfolding heard retire erase_opaque erase_stream find_stream
  close_stream now o vb c =
      let h = heard now c in
      let closed = record h { opaque_map = erase_opaque o h.opaque_map } in
      if h.disconnecting
      then some (record h { streams = erase_stream vb h.streams }, disconnect)
      else elim (find_stream vb closed.streams) [
        | none ↦ some (closed, key_enoent)
        | some p ↦ do d ← retire vb p closed; some (d, success)
      ]

  -- `vbucketStateChanged`
  unfoldable pub vbucket_state_changed : ℕ → Consumer S → Option (Consumer S)
  unfolding retire_found
  vbucket_state_changed vb c = retire_found vb c (some c)

  -- `closeAllStreams`
  unfoldable pub kill_all : List (ℕ × Passive S) → Option (List (ℕ × Passive S))
  unfolding set_dead
  kill_all [] = some []
  kill_all ((v, p) ∷ rest) = let later = kill_all rest in (do out ← set_dead p; later)

  unfoldable pub close_all_streams : Consumer S → Option (Consumer S)
  unfolding kill_all
  close_all_streams c = do none_left ← kill_all c.streams; some (record c { streams = none_left })
