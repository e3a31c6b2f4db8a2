-- ===== src/Consumer/Drains.antt =====
-- The bytes of a consumer when a stream ends or its buffer is processed (src/dcp/consumer.cc).
use mathlib.Core.Path.{subst}
use ep_engine.Base.{
  ℕ, zero, suc, ◌+◌, ◌^◌, ◌<◌, ◌≡◌, ◌≢◌, refl, sym, ap, ◌∙◌, inl, inr, Bool, true, false, not, ◌&&◌,
  none, some, arith, ltb, ltb→lt, Bool-cases, Option-cases,
}
use ep_engine.Stream.{dead}
use ep_engine.Stream.Passive.{Store, Passive, Outcome, batch_size, enter}
use ep_engine.Stream.Passive.Receive.{set_dead, clear_buffer, process_buffered}
use ep_engine.Stream.Passive.Invariant.{total, Sound}
use ep_engine.Stream.Passive.Steps.{Sound-process_loop}
use ep_engine.Stream.Passive.Total.{process_loop-total}
use ep_engine.Stream.Passive.Account.{refused, process_buffered-account}
use ep_engine.Consumer.{Consumer, find_stream, erase_stream, free_bytes}
use ep_engine.Consumer.Handlers.{retire}
use ep_engine.Consumer.Ready.{Pause, throttled, answered, is_cannot, drain}
use ep_engine.Consumer.Streams.{held, AllSound, Sound-find, AllSound-erase, held-erase}
use ep_engine.Consumer.Bytes.{known, Gains, streams-free_bytes, freed-free_bytes}

and_left : (a b : Bool) → (a && b) ≡ true → a ≡ true
and_left a b h = ground (arith, h)

module _ {S : Type 0} where
  -- The end of a stream.
  Gains-erase :
      (vb : ℕ) (p : Passive S) (c : Consumer S)
      → AllSound c.streams
      → find_stream vb c.streams ≡ some p
      → total p.messages < 2 ^ 32
      → known c < 2 ^ 64
      → Gains c 0
          (free_bytes ((clear_buffer p).1) (record c { streams = erase_stream vb c.streams }))
  unfolding known clear_buffer
  Gains-erase vb p c s found small fits =
      let d = record c { streams = erase_stream vb c.streams } in
      let n = (clear_buffer p).1 in
      let same = streams-free_bytes n d in
      let held_same = ap held same in
      let freed = freed-free_bytes n d in
      let erased = held-erase vb p c.streams found in
      let bytes = (Sound-find vb c.streams p s found).bytes in
      record {
        sound = subst AllSound (sym same) (AllSound-erase vb c.streams s);
        gained = omega arith;
      }

  pub Gains-retire :
      (vb : ℕ) (p : Passive S) (c d : Consumer S)
      → AllSound c.streams
      → find_stream vb c.streams ≡ some p
      → total p.messages < 2 ^ 32
      → known c < 2 ^ 64
      → retire vb p c ≡ some d
      → Gains c 0 d
  unfolding retire set_dead
  Gains-retire vb p c d s found small fits e = elim (Option-cases (enter dead (clear_buffer p).0)) [
    | inl n ↦ absurd (ground (arith, e, n))
    | inr (q, n) ↦
        let same : free_bytes ((clear_buffer p).1)
              (record c { streams = erase_stream vb c.streams })
            ≡ d =
          ground (arith, e, n) in
        subst (Gains c 0) same (Gains-erase vb p c s found small fits)
  ]

  -- The bytes of the messages that the processing answers with `ENGINE_ERANGE`, which are not reported.
  unfoldable pub lost : Store S → (fuel : ℕ) → Passive S → ℕ
  unfolding process_buffered is_cannot refused
  lost ops zero p = 0
  lost ops (suc fuel) p = elim (ops.should_process p.store) [
    | false ↦ 0
    | true ↦ elim (process_buffered ops p) [
      | none ↦ 0
      | some (q, ret, bytes) ↦
          refused ops batch_size p.messages p
          + elim (ltb 0 bytes && not (is_cannot ret)) [ true ↦ lost ops fuel q | false ↦ 0 ]
    ]
  ]

  -- What the inner loop leaves of a stream that it began with `n` freed and `t` buffered bytes.
  unfoldable pub Drained : Consumer S → (n gone : ℕ) → Passive S × Consumer S × Pause → Type 0
  Drained c n gone out =
      Sound out.0
      × (out.1.streams ≡ c.streams)
      × (out.1.flow.freed_bytes + total out.0.messages + gone ≡ n)

  Sound-process_buffered :
      (ops : Store S) (p : Passive S) (out : Passive S × Outcome × ℕ)
      → Sound p
      → process_buffered ops p ≡ some out
      → Sound out.0
  unfolding process_buffered
  Sound-process_buffered ops p out s e =
      Sound-process_loop ops batch_size 0 p.messages p out refl s e

  pub drain-account :
      (ops : Store S) (fuel : ℕ) (p : Passive S) (c : Consumer S)
      (out : Passive S × Consumer S × Pause)
      → Sound p
      → total p.messages < 2 ^ 32
      → c.flow.freed_bytes + total p.messages < 2 ^ 64
      → drain ops fuel p c ≡ some out
      → Drained c (c.flow.freed_bytes + total p.messages) (lost ops fuel p) out
  unfolding drain lost Drained
  drain-account ops zero p c out s small fits e = absurd (ground (arith, e))
  drain-account ops (suc fuel) p c out s small fits e =
      elim (Bool-cases (ops.should_process p.store)) [
        | inr w ↦
            let same : (p, record c { backoffs = c.backoffs + 1 }, throttled) ≡ out =
              ground (arith, e, w) in
            let z : lost ops (suc fuel) p ≡ 0 = ground (arith, w) in
            let n = c.flow.freed_bytes + total p.messages in
            subst (λ x. Drained c n x out) (sym z)
              (subst (Drained c n 0) same (s, refl, omega arith))
        | inl w ↦ elim (Option-cases (process_buffered ops p)) [
          | inl n ↦ absurd (ground (arith, e, w, n))
          | inr ((q, ret, bytes), n) ↦
              let account = process_buffered-account ops p (q, ret, bytes) s small n in
              let sq = Sound-process_buffered ops p (q, ret, bytes) s n in
              let freed = freed-free_bytes bytes c in
              let streams = streams-free_bytes bytes c in
              let r = refused ops batch_size p.messages p in
              let t = c.flow.freed_bytes + total p.messages in
              elim (Bool-cases (ltb 0 bytes && not (is_cannot ret))) [
                | inr b ↦
                    let same : (q, free_bytes bytes c, answered ret) ≡ out =
                      ground (arith, e, w, n, b) in
                    let z : lost ops (suc fuel) p ≡ r + 0 = ground (arith, w, n, b) in
                    subst (λ x. Drained c t x out) (sym z)
                      (subst (Drained c t (r + 0)) same (sq, streams, omega arith))
                | inl b ↦
                    let z : lost ops (suc fuel) p ≡ r + lost ops fuel q = ground (arith, w, n, b) in
                    let later =
                      drain-account ops fuel q (free_bytes bytes c) out sq (omega arith)
                        (omega arith) (ground (arith, e, w, n, b)) in
                    let sum = later.2 in
                    subst (λ x. Drained c t x out) (sym z) (later.0, later.1 ∙ streams, omega arith)
              ]
        ]
      ]

  process_buffered-total : (ops : Store S) (p : Passive S) → Sound p → process_buffered ops p ≢ none
  unfolding process_buffered
  process_buffered-total ops p s = process_loop-total ops batch_size 0 p.messages p refl s

  -- Each round reports bytes that leave the buffer, so that its bytes are fuel enough.
  pub drain-total :
      (ops : Store S) (fuel : ℕ) (p : Passive S) (c : Consumer S)
      → Sound p
      → total p.messages < 2 ^ 32
      → total p.messages < fuel
      → drain ops fuel p c ≢ none
  unfolding drain
  drain-total ops zero p c s small enough e = absurd (omega arith)
  drain-total ops (suc fuel) p c s small enough e = elim (Bool-cases (ops.should_process p.store)) [
    | inr w ↦ ground (arith, e, w)
    | inl w ↦ elim (Option-cases (process_buffered ops p)) [
      | inl n ↦ process_buffered-total ops p s n
      | inr ((q, ret, bytes), n) ↦
          let account = process_buffered-account ops p (q, ret, bytes) s small n in
          let sq = Sound-process_buffered ops p (q, ret, bytes) s n in
          elim (Bool-cases (ltb 0 bytes && not (is_cannot ret))) [
            | inr b ↦ ground (arith, e, w, n, b)
            | inl b ↦
                let some_left = ltb→lt 0 bytes (and_left (ltb 0 bytes) (not (is_cannot ret)) b) in
                drain-total ops fuel q (free_bytes bytes c) sq (omega arith) (omega arith)
                  (ground (arith, e, w, n, b))
          ]
    ]
  ]
