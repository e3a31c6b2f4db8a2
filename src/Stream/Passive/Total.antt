-- ===== src/Stream/Passive/Total.antt =====
-- A consumer's stream neither throws nor aborts, and its buffer is emptied (src/dcp/stream.cc).
use mathlib.Core.Path.{subst}
use ep_engine.Base.{
  ℕ, zero, suc, ◌+◌, ◌%◌, ◌^◌, ◌≡◌, ◌≢◌, refl, ◌⊎◌, inl, inr, true, List, [], ◌∷◌, none, arith,
  if◌then◌else◌, Bool-cases, Option-cases,
}
use ep_engine.Stream.{State, pending, reading, dead}
use ep_engine.Stream.Passive.{
  Store, Passive, Message, mutation, marker, set_vbucket, stream_end, unknown, size, enter,
  transition, is_dead, is_retry, is_erange,
}
use ep_engine.Stream.Passive.Process.{process}
use ep_engine.Stream.Passive.Receive.{process_loop, drop_front}
use ep_engine.Stream.Passive.Frame.{is_live}
use ep_engine.Stream.Passive.Effect.{mark, Effect-process}
use ep_engine.Stream.Order.{rises, Between}
use ep_engine.Stream.Passive.Invariant.{Sound, Sound-drop_front}
use ep_engine.Stream.Passive.Steps.{messages-drop_front}
use ep_engine.Stream.Passive.Reached.{Reached}

module _ {S : Type 0} where
  enter-total :
      (new : State) (p : Passive S)
      → is_live p.state ≡ true
      → (new ≡ dead) ⊎ (p.state ≡ pending)
      → (new ≡ reading) ⊎ (new ≡ dead)
      → enter new p ≢ none
  unfolding enter transition is_live
  enter-total new p h w n = ground arith

  process-total :
      (ops : Store S) (m : Message) (p : Passive S) (lo : ℕ)
      → is_live p.state ≡ true
      → rises lo (mark m) ≡ true
      → process ops m p ≢ none
  unfolding process mark rises
  process-total ops (mutation m) p lo l r e = ground (arith, e)
  process-total ops (marker _ _ _) p lo l r e = ground (arith, e)
  process-total ops (set_vbucket _) p lo l r e = ground (arith, e)
  process-total ops stream_end p lo l r e =
      enter-total dead p l (inl refl) (inr refl) (ground (arith, e))
  process-total ops (unknown n) p lo l r e = ground (arith, r)

  pub process_loop-total :
      (ops : Store S) (left acked : ℕ) (ms : List Message) (p : Passive S)
      → p.messages ≡ ms
      → Sound p
      → process_loop ops left acked ms p ≢ none
  unfolding process_loop Between
  process_loop-total ops zero acked ms p h s e = ground (arith, e)
  process_loop-total ops (suc left) acked [] p h s e = ground (arith, e)
  process_loop-total ops (suc left) acked (m ∷ rest) p h s e = elim (Bool-cases (is_dead p.state)) [
    | inl d ↦ ground (arith, e, d)
    | inr d ↦ elim (Option-cases (process ops m p)) [
      | inl n ↦
          process-total ops m p s.handled s.live
            (subst (λ l. Between mark s.handled l p.last_seqno) h s.waiting).0 n
      | inr ((q, ret, m'), n) ↦ elim (Bool-cases (is_retry ret)) [
        | inl r ↦ ground (arith, e, d, n, r)
        | inr r ↦
            process_loop-total ops left (if is_erange ret then acked else (acked + size m) % 2 ^ 32)
              rest (drop_front m rest q) (messages-drop_front m rest q)
              (Sound-drop_front m m' rest ret p q h (Effect-process ops m p (q, ret, m') n) s)
              (ground (arith, e, d, n, r))
      ]
    ]
  ]
