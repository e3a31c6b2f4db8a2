-- ===== src/Stream/Passive/Receipt.antt =====
-- The bytes of the buffer when a message is received (src/dcp/stream.cc).
use mathlib.Core.Path.{subst}
use ep_engine.Base.{
  ℕ, ◌+◌, ◌≡◌, refl, sym, ap, inl, inr, false, some, arith, ◌&&◌, ◌==◌, if◌then◌else◌, Bool-cases,
  Option-cases,
}
use ep_engine.Stream.Passive.{
  Store, Passive, Message, mutation, marker, set_vbucket, stream_end, unknown, Code, tmpfail,
  key_enoent, size, is_dead, is_retry, is_success, is_tmpfail,
}
use ep_engine.Stream.Passive.Process.{process}
use ep_engine.Stream.Passive.Receive.{buffer_message, check, admit, kept_or_done, message_received}
use ep_engine.Stream.Passive.Effect.{Effect, Effect-process}
use ep_engine.Stream.Passive.Invariant.{total, total-append}

not_retry : (c : Code) → is_retry c ≡ false → is_tmpfail c ≡ false
unfolding is_retry is_tmpfail
not_retry c h = ground arith

module _ {S : Type 0} where
  -- The answer says whether the message of `n` bytes is in the buffer, which held `before`.
  Received : (n before : ℕ) → Passive S × Code → Type 0
  Received n before out = total out.0.messages ≡ before + (if is_tmpfail out.1 then n else 0)

  Received-buffer :
      (m : Message) (p : Passive S)
      → Received (size m) (total p.messages) (buffer_message m p, tmpfail)
  unfolding Received buffer_message is_tmpfail
  Received-buffer m p = total-append p.messages m

  Received-refused :
      (n : ℕ) (p : Passive S) (c : Code)
      → is_tmpfail c ≡ false
      → Received n (total p.messages) (p, c)
  unfolding Received
  Received-refused n p c h =
      subst (λ b. total p.messages ≡ total p.messages + (if b then n else 0)) (sym h) (omega arith)

  messages-check : (m : Message) (p : Passive S) → (check m p).1.messages ≡ p.messages
  unfolding check
  messages-check (mutation m) p = ground arith
  messages-check (marker start stop flags) p = ground arith
  messages-check (set_vbucket n) p = refl
  messages-check stream_end p = refl
  messages-check (unknown n) p = refl

  check-not_kept : (m : Message) (p : Passive S) → is_tmpfail (check m p).0 ≡ false
  unfolding check is_tmpfail
  check-not_kept (mutation m) p = ground arith
  check-not_kept (marker start stop flags) p = ground arith
  check-not_kept (set_vbucket n) p = refl
  check-not_kept stream_end p = refl
  check-not_kept (unknown n) p = refl

  Received-kept_or_done :
      (m : Message) (p : Passive S) (out : Passive S × Code × Message)
      → Effect m out.2 out.1 p out.0
      → Received (size m) (total p.messages) (kept_or_done out)
  unfolding kept_or_done
  Received-kept_or_done m p out f =
      let same = ap total f.same.same_messages in
      let fits = f.same_size in
      subst (λ t. Received (size m) t (kept_or_done out)) same
        (subst (λ n. Received n (total out.0.messages) (kept_or_done out)) fits
          (elim (Bool-cases (is_retry out.1)) [
            | inl r ↦
                subst
                  (λ b.
                    Received (size out.2) (total out.0.messages)
                      (if b then (buffer_message out.2 out.0, tmpfail) else (out.0, out.1)))
                  (sym r) (Received-buffer out.2 out.0)
            | inr r ↦
                subst
                  (λ b.
                    Received (size out.2) (total out.0.messages)
                      (if b then (buffer_message out.2 out.0, tmpfail) else (out.0, out.1)))
                  (sym r) (Received-refused (size out.2) out.0 out.1 (not_retry out.1 r))
          ]))

  Received-admit :
      (ops : Store S) (m : Message) (p : Passive S) (out : Passive S × Code)
      → admit ops m p ≡ some out
      → Received (size m) (total p.messages) out
  unfolding admit
  Received-admit ops m p out e =
      elim (Bool-cases (ops.should_process p.store && (p.buffer_items == 0))) [
        | inr w ↦
            let same : (buffer_message m p, tmpfail) ≡ out = ground (arith, e, w) in
            subst (Received (size m) (total p.messages)) same (Received-buffer m p)
        | inl w ↦ elim (Option-cases (process ops m p)) [
          | inl n ↦ absurd (ground (arith, e, w, n))
          | inr (o, n) ↦
              let same : kept_or_done o ≡ out = ground (arith, e, w, n) in
              subst (Received (size m) (total p.messages)) same
                (Received-kept_or_done m p o (Effect-process ops m p o n))
        ]
      ]

  -- The buffer grows by the size of the message if the answer is `ENGINE_TMPFAIL`, and stays as it is
  -- otherwise.
  pub message_received-bytes :
      (ops : Store S) (m : Message) (p : Passive S) (out : Passive S × Code)
      → message_received ops (some m) p ≡ some out
      → total out.0.messages ≡ total p.messages + (if is_tmpfail out.1 then size m else 0)
  unfolding message_received Received is_tmpfail
  message_received-bytes ops m p out e = elim (Bool-cases (is_dead p.state)) [
    | inl d ↦
        (let same : (p, key_enoent) ≡ out = ground (arith, e, d) in
          subst (Received (size m) (total p.messages)) same
            (Received-refused (size m) p key_enoent refl))
    | inr d ↦ elim (Bool-cases (is_success (check m p).0)) [
      | inr c ↦
          (let same : (p, (check m p).0) ≡ out = ground (arith, e, d, c) in
            subst (Received (size m) (total p.messages)) same
              (Received-refused (size m) p (check m p).0 (check-not_kept m p)))
      | inl c ↦
          subst (λ l. Received (size m) (total l) out) (messages-check m p)
            (Received-admit ops m (check m p).1 out (ground (arith, e, d, c)))
    ]
  ]
