-- ===== src/Stream/Passive/Account.antt =====
-- The bytes that the processing of a consumer's buffer reports (src/dcp/stream.cc).
use mathlib.Core.Path.{subst}
use ep_engine.Base.{
  ℕ, zero, suc, ◌+◌, ◌%◌, ◌^◌, ◌<◌, ◌≡◌, refl, sym, ap, ◌∙◌, Bool, true, false, List, [], ◌∷◌, none,
  some, arith, if◌then◌else◌, inl, inr, Bool-cases, Option-cases, eq_of_some,
}
use ep_engine.Stream.Passive.{
  Store, Passive, Message, Outcome, all_processed, cannot_process, size, is_dead, is_retry,
  is_erange, batch_size,
}
use ep_engine.Stream.Passive.Process.{process}
use ep_engine.Stream.Passive.Receive.{process_loop, process_buffered, clear_buffer, drop_front}
use ep_engine.Stream.Passive.Effect.{Effect-process}
use ep_engine.Stream.Passive.Invariant.{total, Sound, Sound-drop_front}
use ep_engine.Stream.Passive.Steps.{messages-drop_front}

-- One message of the loop.
next_fits :
    (b : Bool) (acked n t : ℕ)
    → acked + (n + t) < 2 ^ 32
    → (if b then acked else (acked + n) % 2 ^ 32) + t < 2 ^ 32
next_fits true acked n t h = omega arith
next_fits false acked n t h = omega arith

next_account :
    (b : Bool) (acked n t rest : ℕ)
    → acked + (n + t) < 2 ^ 32
    → rest ≡ (if b then acked else (acked + n) % 2 ^ 32) + t
    → rest + (if b then n else 0) ≡ acked + (n + t)
next_account true acked n t rest h e = omega arith
next_account false acked n t rest h e = omega arith

module _ {S : Type 0} where
  -- The bytes of the messages that leave the buffer with the answer `ENGINE_ERANGE`.
  unfoldable pub refused : Store S → ℕ → List Message → Passive S → ℕ
  refused ops zero ms p = 0
  refused ops (suc left) [] p = 0
  refused ops (suc left) (m ∷ rest) p = elim (is_dead p.state) [
    | true ↦ 0
    | false ↦ elim (process ops m p) [
      | none ↦ 0
      | some (q, ret, m') ↦ elim (is_retry ret) [
        | true ↦ 0
        | false ↦
            (if is_erange ret then size m else 0) + refused ops left rest (drop_front m rest q)
      ]
    ]
  ]

  -- What a run has reported, lost and kept.
  Accounted : ℕ → ℕ → ℕ → Passive S × Outcome × ℕ → Type 0
  Accounted acked lost kept out = out.2 + lost + total out.0.messages ≡ acked + kept

  process_loop-account :
      (ops : Store S) (left acked : ℕ) (ms : List Message) (p : Passive S)
      (out : Passive S × Outcome × ℕ)
      → p.messages ≡ ms
      → Sound p
      → acked + total ms < 2 ^ 32
      → process_loop ops left acked ms p ≡ some out
      → Accounted acked (refused ops left ms p) (total ms) out
  unfolding process_loop refused total Accounted
  process_loop-account ops zero acked ms p out h s fits e =
      subst (Accounted acked 0 (total ms)) (eq_of_some e)
        (ap (λ l. acked + 0 + total l) h ∙ omega arith)
  process_loop-account ops (suc left) acked [] p out h s fits e =
      subst (Accounted acked 0 0) (eq_of_some e) (ap (λ l. acked + 0 + total l) h ∙ omega arith)
  process_loop-account ops (suc left) acked (m ∷ rest) p out h s fits e =
      elim (Bool-cases (is_dead p.state)) [
        | inl d ↦
            let o : ((clear_buffer p).0, all_processed, (acked + (clear_buffer p).1) % 2 ^ 32)
                ≡ out =
              ground (arith, e, d) in
            let z : refused ops (suc left) (m ∷ rest) p ≡ 0 = ground (arith, d) in
            let b = subst (λ l. p.buffer_bytes ≡ total l % 2 ^ 64) h s.bytes in
            subst (λ x. Accounted acked x (size m + total rest) out) (sym z)
              (subst (Accounted acked 0 (size m + total rest)) o (omega arith))
        | inr d ↦ elim (Option-cases (process ops m p)) [
          | inl n ↦ absurd (ground (arith, e, d, n))
          | inr ((q, ret, m'), n) ↦
              let f = Effect-process ops m p (q, ret, m') n in
              elim (Bool-cases (is_retry ret)) [
                | inl r ↦
                    let o : (record q { messages = m' ∷ rest }, cannot_process, acked) ≡ out =
                      ground (arith, e, d, n, r) in
                    let z : refused ops (suc left) (m ∷ rest) p ≡ 0 = ground (arith, d, n, r) in
                    let same = f.same_size in
                    subst (λ x. Accounted acked x (size m + total rest) out) (sym z)
                      (subst (Accounted acked 0 (size m + total rest)) o (omega arith))
                | inr r ↦
                    let z : refused ops (suc left) (m ∷ rest) p
                        ≡ (if is_erange ret then size m else 0)
                          + refused ops left rest (drop_front m rest q) =
                      ground (arith, d, n, r) in
                    let acked' = if is_erange ret then acked else (acked + size m) % 2 ^ 32 in
                    let later =
                      process_loop-account ops left acked' rest (drop_front m rest q) out
                        (messages-drop_front m rest q) (Sound-drop_front m m' rest ret p q h f s)
                        (next_fits (is_erange ret) acked (size m) (total rest) fits)
                        (ground (arith, e, d, n, r)) in
                    subst (λ x. Accounted acked x (size m + total rest) out) (sym z)
                      (omega (
                        arith,
                        next_account (is_erange ret) acked (size m) (total rest) _ fits later,
                      ))
              ]
        ]
      ]

  -- For a sound stream whose buffered messages have fewer than 2^32 bytes, `processBufferedMessages`
  -- reports exactly the bytes that have left the buffer, but for those of the messages that it has
  -- answered `ENGINE_ERANGE`: what it reports, those, and what is still buffered add up to what was.
  pub process_buffered-account :
      (ops : Store S) (p : Passive S) (out : Passive S × Outcome × ℕ)
      → Sound p
      → total p.messages < 2 ^ 32
      → process_buffered ops p ≡ some out
      → out.2 + refused ops batch_size p.messages p + total out.0.messages ≡ total p.messages
  unfolding process_buffered Accounted
  process_buffered-account ops p out s fits e =
      let account = process_loop-account ops batch_size 0 p.messages p out refl s (omega arith) e in
      omega arith
