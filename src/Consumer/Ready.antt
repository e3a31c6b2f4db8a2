-- ===== src/Consumer/Ready.antt =====
-- src/dcp/consumer.cc: the processing of the buffers of the streams, and what the connection sends.
use ep_engine.Base.{
  ℕ, zero, suc, ◌+◌, Bool, true, false, not, ◌&&◌, List, [], ◌∷◌, ◌++◌, Option, none, some, ltb,
  ◌==◌, ◌>>=◌, if◌then◌else◌,
}
use ep_engine.Stream.{
  Response, stream_request, add_stream_response, snapshot_marker_response,
  set_vbucket_state_response, stream_end_response, set_vbucket_state, snapshot_marker,
  mutation_response,
}
use ep_engine.Stream.Passive.{
  Store, Passive, Outcome, all_processed, more_to_process, cannot_process, is_pending,
}
use ep_engine.Stream.Passive.Receive.{process_buffered, accept_stream, next}
use ep_engine.Stream.Passive.Invariant.{total}
use ep_engine.Consumer.{Consumer, find_stream, put_stream, exists, push_unique, free_bytes}
use ep_engine.Consumer.Handlers.{erase_opaque}

-- How the inner loop ends: the throttle stops it, or it has an answer of the stream.
pub data Pause : Type 0 where
  throttled : Pause
  answered : Outcome → Pause

unfoldable pub is_cannot : Outcome → Bool
is_cannot cannot_process = true
is_cannot _ = false

unfoldable is_empty : List ℕ → Bool
is_empty [] = true
is_empty (v ∷ vs) = false

-- `getNextItem` may only send these.
unfoldable pub may_send : Response → Bool
may_send (stream_request _ _ _ _ _ _ _) = true
may_send (add_stream_response _ _ _) = true
may_send (snapshot_marker_response _ _) = true
may_send (set_vbucket_state_response _ _) = true
may_send (stream_end_response _ _) = false
may_send (set_vbucket_state _ _) = true
may_send (snapshot_marker _ _ _ _) = true
may_send (mutation_response _) = false

unfoldable pub find_opaque : ℕ → List (ℕ × ℕ × ℕ) → Option (ℕ × ℕ)
find_opaque o [] = none
find_opaque o ((k, add, vb) ∷ rest) = if k == o then some (add, vb) else find_opaque o rest

module _ {S : Type 0} where
  -- The inner loop of `processBufferedItems`; `none` also stands for too little fuel.
  unfoldable pub drain :
      Store S → (fuel : ℕ) → Passive S → Consumer S → Option (Passive S × Consumer S × Pause)
  unfolding process_buffered free_bytes is_cannot
  drain ops zero p c = none
  drain ops (suc fuel) p c =
      let processed = process_buffered ops p in
      elim (ops.should_process p.store) [
        | false ↦ some (p, record c { backoffs = c.backoffs + 1 }, throttled)
        | true ↦ elim processed [
          | none ↦ none
          | some (q, ret, bytes) ↦ elim (ltb 0 bytes && not (is_cannot ret)) [
            | true ↦ drain ops fuel q (free_bytes bytes c)
            | false ↦ some (q, free_bytes bytes c, answered ret)
          ]
        ]
      ]

  unfoldable again : ℕ → Consumer S → Consumer S
  unfolding push_unique
  again vb c = record c { vb_ready = push_unique vb c.vb_ready }

  unfoldable pub conclude : ℕ → Pause → Consumer S → Consumer S × Outcome
  unfolding again is_empty
  conclude vb throttled c = (again vb c, cannot_process)
  conclude vb (answered all_processed) c = (c, more_to_process)
  conclude vb (answered more_to_process) c = (c, more_to_process)
  conclude vb (answered cannot_process) c =
      (again vb c, if is_empty c.vb_ready then cannot_process else more_to_process)

  -- `processBufferedItems`: the first vbucket of the queue that has a stream. The bytes of its buffer are
  -- the fuel of the inner loop.
  unfoldable pub process_stream :
      Store S → (vb : ℕ) → Passive S → Consumer S → Option (Consumer S × Outcome)
  unfolding drain conclude put_stream total
  process_stream ops vb p c = do
    out ← drain ops (suc (total p.messages)) p c
    some (conclude vb out.2 (record out.1 { streams = put_stream vb out.0 out.1.streams }))

  unfoldable pub process_ready : Store S → List ℕ → Consumer S → Option (Consumer S × Outcome)
  unfolding process_stream find_stream
  process_ready ops [] c = some (record c { vb_ready = [] }, all_processed)
  process_ready ops (vb ∷ rest) c =
      let later = process_ready ops rest c in
      elim (find_stream vb c.streams) [
        | none ↦ later
        | some p ↦ process_stream ops vb p (record c { vb_ready = rest })
      ]

  unfoldable pub process_buffered_items : Store S → Consumer S → Option (Consumer S × Outcome)
  unfolding process_ready
  process_buffered_items ops c = process_ready ops c.vb_ready c

  -- `getNextItem`
  unfoldable pub next_of :
      ℕ → List ℕ → Passive S → Consumer S → Option (Consumer S × Option Response)
  unfolding next put_stream may_send
  next_of vb rest p c =
      let out = next p in
      let c' = record c { ready = rest; streams = put_stream vb out.0 c.streams } in
      elim out.1 [
        | none ↦ some (c', none)
        | some r ↦ if may_send r then some (record c' { ready = rest ++ vb ∷ [] }, some r) else none
      ]

  unfoldable pub next_ready : Store S → List ℕ → Consumer S → Option (Consumer S × Option Response)
  unfolding next_of find_stream
  next_ready ops [] c = some (record c { ready = []; paused = true }, none)
  next_ready ops (vb ∷ rest) c = elim (find_stream vb c.streams) [
    | none ↦ next_ready ops rest c
    | some p ↦ elim (next_of vb rest p c) [
      | none ↦ none
      | some (c', some r) ↦ some (c', some r)
      | some (c', none) ↦ next_ready ops rest c'
    ]
  ]

  unfoldable pub get_next_item : Store S → Consumer S → Option (Consumer S × Option Response)
  unfolding next_ready
  get_next_item ops c = next_ready ops c.ready (record c { paused = false })

  -- `notifyStreamReady`
  unfoldable pub notify_stream_ready : ℕ → Consumer S → Consumer S
  unfolding exists
  notify_stream_ready vb c =
      if exists vb c.ready
      then c
      else record c { ready = c.ready ++ vb ∷ []; notified = c.notified + 1 }

  -- `streamAccepted`; `replace_log` is the effect on the vbucket of a success, which a vbucket that is gone
  -- does not survive.
  unfoldable pub accept_for :
      Store S
      → (S → S)
      → (status stream_opaque add_opaque vb : ℕ) → Passive S
      → Consumer S
      → Option (Consumer S)
  unfolding accept_stream put_stream is_pending
  accept_for ops replace_log status o add vb p c =
      let logged = if status == 0 then record p { store = replace_log p.store } else p in
      let accepted = accept_stream status add logged in
      if (p.stream_opaque == o) && is_pending p.state
      then (if (status == 0) && not (ops.has_vbucket p.store)
          then none
          else (do q ← accepted; some (record c { streams = put_stream vb q c.streams })))
      else some c

  unfoldable pub accept_found :
      Store S
      → (S → S)
      → (status stream_opaque add_opaque vb : ℕ) → Consumer S
      → Option (Consumer S)
  unfolding accept_for find_stream
  accept_found ops replace_log status o add vb c = elim (find_stream vb c.streams) [
    | none ↦ some c
    | some p ↦ accept_for ops replace_log status o add vb p c
  ]

  unfoldable pub stream_accepted :
      Store S → (S → S) → (stream_opaque status : ℕ) → Consumer S → Option (Consumer S)
  unfolding accept_found find_opaque erase_opaque
  stream_accepted ops replace_log o status c = elim (find_opaque o c.opaque_map) [
    | none ↦ some c
    | some (add, vb) ↦ do
      d ← accept_found ops replace_log status o add vb c
      some (record d { opaque_map = erase_opaque o d.opaque_map })
  ]
