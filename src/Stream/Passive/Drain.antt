-- ===== src/Stream/Passive/Drain.antt =====
-- The buffer of a consumer's stream is emptied in batches (src/dcp/stream.cc).
use mathlib.Core.Path.{subst}
use ep_engine.Base.{
  ℕ, zero, suc, ◌+◌, ◌-◌, ◌*◌, ◌%◌, ◌^◌, ◌≤◌, ◌≡◌, refl, ap, Bool, false, List, [], ◌∷◌, Option,
  some, arith, ◌>>=◌, if◌then◌else◌, length, inl, inr, Bool-cases, Option-cases, if-both,
  eq_of_some,
}
use ep_engine.Stream.{dead, Mutation}
use ep_engine.Stream.Passive.{
  Store, Passive, Message, mutation, marker, set_vbucket, stream_end, unknown, Code, erange,
  not_my_vbucket, Outcome, size, found, enter, is_dead, is_retry, is_erange, batch_size,
}
use ep_engine.Stream.Passive.Process.{
  process, process_mutation, process_deletion, store_mutation, store_deletion, give_mutation,
  renew_cas, out_of_snapshot,
}
use ep_engine.Stream.Passive.Receive.{process_loop, process_buffered, clear_buffer, drop_front}
use ep_engine.Stream.Passive.Invariant.{Sound, empty_of_length}
use ep_engine.Stream.Passive.Steps.{messages-drop_front, Sound-process_loop}
use ep_engine.Stream.Passive.Total.{process_loop-total}

retry-found : (c : Code) → is_retry c ≡ false → is_retry (found c) ≡ false
unfolding is_retry found
retry-found c h = ground arith

module _ {S : Type 0} where
  -- The store has room and does not ask to try again.
  pub record Takes (ops : Store S) : Type 0 where
    pub takes_backfill : (m : Mutation) (s : S) → is_retry (ops.add_backfill_item m s).1 ≡ false
    pub takes_mutation : (m : Mutation) (s : S) → is_retry (ops.set_with_meta m s).1 ≡ false
    pub takes_deletion :
        (m : Mutation) (b : Bool) (s : S) → is_retry (ops.delete_with_meta m b s).1 ≡ false

  Settled : Passive S × Code × Mutation → Type 0
  Settled out = is_retry out.1 ≡ false

  GivenOut : S × Code → Type 0
  GivenOut out = is_retry out.1 ≡ false

  Given-give_mutation :
      (ops : Store S) (m : Mutation) (s : S)
      → Takes ops
      → is_retry (give_mutation ops m s).1 ≡ false
  unfolding give_mutation GivenOut
  Given-give_mutation ops m s t =
      if-both GivenOut (ops.is_backfill_phase s) {x = ops.add_backfill_item m s}
        {y = ops.set_with_meta m s} (t.takes_backfill m s) (t.takes_mutation m s)

  Settled-process_mutation :
      (ops : Store S) (m : Mutation) (p : Passive S)
      → Takes ops
      → Settled (process_mutation ops m p)
  unfolding process_mutation store_mutation Settled is_retry
  Settled-process_mutation ops m p t =
      let renewed = renew_cas ops m p.store in
      let given = Given-give_mutation ops renewed.1 renewed.0 t in
      if-both Settled (ops.has_vbucket p.store) {y = (p, not_my_vbucket, m)}
        (if-both Settled (out_of_snapshot m p) {x = (p, erange, m)} {y = store_mutation ops m p}
          refl given)
        refl

  Settled-process_deletion :
      (ops : Store S) (m : Mutation) (p : Passive S)
      → Takes ops
      → Settled (process_deletion ops m p)
  unfolding process_deletion store_deletion Settled is_retry
  Settled-process_deletion ops m p t =
      let renewed = renew_cas ops m p.store in
      let given =
        retry-found _ (t.takes_deletion renewed.1 (ops.is_backfill_phase renewed.0) renewed.0) in
      if-both Settled (ops.has_vbucket p.store) {y = (p, not_my_vbucket, m)}
        (if-both Settled (out_of_snapshot m p) {x = (p, erange, m)} {y = store_deletion ops m p}
          refl given)
        refl

  SettledOut : Passive S × Code × Message → Type 0
  SettledOut out = is_retry out.1 ≡ false

  Settled-process :
      (ops : Store S) (m : Message) (p : Passive S) (out : Passive S × Code × Message)
      → Takes ops
      → process ops m p ≡ some out
      → is_retry out.1 ≡ false
  unfolding process SettledOut Settled is_retry
  Settled-process ops (mutation m) p out t e = subst SettledOut (eq_of_some e) (
      if-both Settled m.is_deleted {x = process_deletion ops m p} {y = process_mutation ops m p}
        (Settled-process_deletion ops m p t) (Settled-process_mutation ops m p t))
  Settled-process ops (marker _ _ _) p out t e = ground (arith, e)
  Settled-process ops (set_vbucket _) p out t e = ground (arith, e)
  Settled-process ops stream_end p out t e = elim (Option-cases (enter dead p)) [
    | inl n ↦ absurd (ground (arith, e, n))
    | inr (q, n) ↦ ground (arith, e, n)
  ]
  Settled-process ops (unknown n) p out t e = absurd (ground (arith, e))

  process_loop-shrinks :
      (ops : Store S) (left acked : ℕ) (ms : List Message) (p : Passive S)
      (out : Passive S × Outcome × ℕ)
      → p.messages ≡ ms
      → Takes ops
      → process_loop ops left acked ms p ≡ some out
      → length out.0.messages ≤ length ms - left
  unfolding process_loop clear_buffer
  process_loop-shrinks ops zero acked ms p out h t e =
      let o = ap (λ z. length z.0.messages) (eq_of_some e) in let l = ap length h in omega arith
  process_loop-shrinks ops (suc left) acked [] p out h t e =
      let o = ap (λ z. length z.0.messages) (eq_of_some e) in let l = ap length h in omega arith
  process_loop-shrinks ops (suc left) acked (m ∷ rest) p out h t e =
      elim (Bool-cases (is_dead p.state)) [
        | inl d ↦
            let o : [] ≡ out.0.messages = ground (arith, e, d) in let l = ap length o in omega arith
        | inr d ↦ elim (Option-cases (process ops m p)) [
          | inl n ↦ absurd (ground (arith, e, d, n))
          | inr ((q, ret, m'), n) ↦
              let r = Settled-process ops m p (q, ret, m') t n in
              let later =
                process_loop-shrinks ops left
                  (if is_erange ret then acked else (acked + size m) % 2 ^ 32) rest
                  (drop_front m rest q) out (messages-drop_front m rest q) t
                  (ground (arith, e, d, n, r)) in
              omega arith
        ]
      ]

  -- The task that processes the buffer, run `k` times.
  unfoldable pub process_times : Store S → ℕ → Passive S → Option (Passive S)
  process_times ops zero p = some p
  process_times ops (suc k) p = do out ← process_buffered ops p; process_times ops k out.0

  -- From a sound stream, while the store does not ask to try again, as many runs of
  -- `processBufferedMessages` as there are batches of ten messages in the buffer end without an exception,
  -- with the buffer empty.
  pub process_times-drains :
      (ops : Store S) (k : ℕ) (p : Passive S)
      → Takes ops
      → Sound p
      → length p.messages ≤ k * batch_size
      → (q : Passive S) × (process_times ops k p ≡ some q) × (q.messages ≡ [])
  unfolding process_times process_buffered
  process_times-drains ops zero p t s l = (p, refl, empty_of_length p.messages (omega arith))
  process_times-drains ops (suc k) p t s l = elim (Option-cases (process_buffered ops p)) [
    | inl n ↦ absurd (process_loop-total ops batch_size 0 p.messages p refl s n)
    | inr (out, n) ↦
        let shrinks = process_loop-shrinks ops batch_size 0 p.messages p out refl t n in
        let rest =
          process_times-drains ops k out.0 t
            (Sound-process_loop ops batch_size 0 p.messages p out refl s n) (omega arith) in
        (rest.0, ground (arith, n, rest.1), rest.2)
  ]
