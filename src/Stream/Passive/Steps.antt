-- ===== src/Stream/Passive/Steps.antt =====
-- The operations of a consumer's stream keep its invariant (src/dcp/stream.cc).
use mathlib.Core.Path.{subst}
use ep_engine.Base.{
  ℕ, zero, suc, ◌+◌, ◌%◌, ◌^◌, ◌<◌, ◌≡◌, refl, sym, ap, ◌∙◌, inl, inr, true, List, [], ◌∷◌, Option,
  none, some, arith, ◌&&◌, ◌==◌, if◌then◌else◌, length, Bool-cases, Option-cases, eq_of_some,
}
use ep_engine.Stream.Passive.{
  Store, Passive, Message, mutation, marker, set_vbucket, stream_end, unknown, Code, success,
  tmpfail, key_enoent, Outcome, all_processed, cannot_process, size, is_dead, is_retry, is_success,
  is_erange,
}
use ep_engine.Stream.Passive.Process.{process}
use ep_engine.Stream.Passive.Receive.{
  buffer_message, drop_front, check, admit, kept_or_done, message_received, process_loop,
  clear_buffer,
}
use ep_engine.Stream.Passive.Frame.{Awake}
use ep_engine.Stream.Passive.Effect.{mark, Effect, Effect-process}
use ep_engine.Stream.Order.{floor, rises, Between, Descends, Between-le}
use ep_engine.Stream.Passive.Invariant.{
  total, not_both, empty_of_length, Sound, Sound-drop_front, Sound-retry, Sound-buffer_message,
  Sound-direct,
}

module _ {S : Type 0} where
  -- What `messageReceived` goes on with.
  record Checked (m : Message) (p q : Passive S) : Type 0 where
    after : q ≡ record p { last_seqno = floor p.last_seqno (mark m) }
    rising : rises p.last_seqno (mark m) ≡ true

  check_lem : (m : Message) (p q : Passive S) → check m p ≡ (success, q) → Checked m p q
  unfolding check mark floor rises
  check_lem (mutation m) p q e = record { after = ground (arith, e); rising = ground (arith, e) }
  check_lem (marker start stop flags) p q e = record { after = ground (arith, e); rising = refl }
  check_lem (set_vbucket n) p q e = record { after = ground (arith, e); rising = refl }
  check_lem stream_end p q e = record { after = ground (arith, e); rising = refl }
  check_lem (unknown n) p q e = absurd (ground (arith, e))

  success_lem : (c : Code × Passive S) → is_success c.0 ≡ true → c ≡ (success, c.1)
  unfolding is_success
  success_lem (c, q) h = ground (arith, h)

  pub messages-drop_front :
      (m : Message) (rest : List Message) (q : Passive S) → (drop_front m rest q).messages ≡ rest
  unfolding drop_front
  messages-drop_front m rest q = refl

  -- A message that found the buffer empty and is to be tried again joins it.
  Sound-kept :
      (m m' : Message) (ret : Code) (p q : Passive S)
      → rises p.last_seqno (mark m) ≡ true
      → Effect m m' ret (record p { last_seqno = floor p.last_seqno (mark m) }) q
      → is_retry ret ≡ true
      → Sound p
      → Sound (buffer_message m' q)
  unfolding Awake
  Sound-kept m m' ret p q h f r s =
      let same = f.same in
      let before : Sound (record q { last_seqno = p.last_seqno }) = record {
        handled = s.handled;
        taken = elim f.took [
          | inl u ↦ subst (Descends (s.handled + 1)) (sym u) s.taken
          | inr (_, _, _, u) ↦ absurd (not_both ret r u)
        ];
        waiting =
            subst (λ l. Between mark s.handled l p.last_seqno) (sym same.same_messages) s.waiting;
        bytes = same.same_bytes ∙ s.bytes ∙ ap (λ l. total l % 2 ^ 64) (sym same.same_messages);
        items = same.same_items ∙ s.items ∙ ap (λ l. length l % 2 ^ 64) (sym same.same_messages);
        live = f.stays_live s.live;
        awake = same.awake s.awake;
      } in
      let last = ap (floor p.last_seqno) f.same_mark ∙ sym same.same_last in
      subst (λ z. Sound (buffer_message m' (record q { last_seqno = z }))) last
        (Sound-buffer_message m' (record q { last_seqno = p.last_seqno })
          (ap (rises p.last_seqno) f.same_mark ∙ h) before)

  no_messages :
      (p : Passive S)
      → Sound p
      → length p.messages < 2 ^ 64
      → (p.buffer_items == 0) ≡ true
      → p.messages ≡ []
  no_messages p s fits h =
      let i = s.items in
      let z : length p.messages ≡ 0 = ground arith in empty_of_length p.messages z

  SoundOut : Passive S × Code → Type 0
  SoundOut out = Sound out.0

  Sound-kept_or_done :
      (m : Message) (p : Passive S) (out : Passive S × Code × Message)
      → rises p.last_seqno (mark m) ≡ true
      → p.messages ≡ []
      → Effect m out.2 out.1 (record p { last_seqno = floor p.last_seqno (mark m) }) out.0
      → Sound p
      → SoundOut (kept_or_done out)
  unfolding kept_or_done SoundOut
  Sound-kept_or_done m p out h e f s = elim (Bool-cases (is_retry out.1)) [
    | inl r ↦
        subst (λ b. SoundOut (if b then (buffer_message out.2 out.0, tmpfail) else (out.0, out.1)))
          (sym r) (Sound-kept m out.2 out.1 p out.0 h f r s)
    | inr r ↦
        subst (λ b. SoundOut (if b then (buffer_message out.2 out.0, tmpfail) else (out.0, out.1)))
          (sym r) (Sound-direct m out.2 out.1 p out.0 e h f s)
  ]

  Sound-admit :
      (ops : Store S) (m : Message) (p q : Passive S) (out : Passive S × Code)
      → Checked m p q
      → length p.messages < 2 ^ 64
      → Sound p
      → admit ops m q ≡ some out
      → Sound out.0
  unfolding admit SoundOut
  Sound-admit ops m p q out c fits s e =
      elim (Bool-cases (ops.should_process q.store && (q.buffer_items == 0))) [
        | inr w ↦
            let same : (buffer_message m q, tmpfail) ≡ out = ground (arith, e, w) in
            subst SoundOut same (
              subst (λ z. Sound (buffer_message m z)) (sym c.after)
                (Sound-buffer_message m p c.rising s))
        | inl w ↦ elim (Option-cases (process ops m q)) [
          | inl n ↦ absurd (ground (arith, e, w, n))
          | inr (o, n) ↦
              let same : kept_or_done o ≡ out = ground (arith, e, w, n) in
              let a = c.after in
              let none_left : p.messages ≡ [] = no_messages p s fits (ground arith) in
              subst SoundOut same (
                Sound-kept_or_done m p o c.rising none_left
                  (subst (λ z. Effect m o.2 o.1 z o.0) a (Effect-process ops m q o n)) s)
        ]
      ]

  pub Sound-message_received :
      (ops : Store S) (m : Option Message) (p : Passive S) (out : Passive S × Code)
      → length p.messages < 2 ^ 64
      → Sound p
      → message_received ops m p ≡ some out
      → Sound out.0
  unfolding message_received SoundOut
  Sound-message_received ops none p out fits s e = subst SoundOut (eq_of_some e) s
  Sound-message_received ops (some m) p out fits s e = elim (Bool-cases (is_dead p.state)) [
    | inl d ↦ (let same : (p, key_enoent) ≡ out = ground (arith, e, d) in subst SoundOut same s)
    | inr d ↦ elim (Bool-cases (is_success (check m p).0)) [
      | inr c ↦
          (let same : (p, (check m p).0) ≡ out = ground (arith, e, d, c) in subst SoundOut same s)
      | inl c ↦
          let checked : check m p ≡ (success, (check m p).1) = success_lem (check m p) c in
          Sound-admit ops m p (check m p).1 out (check_lem m p (check m p).1 checked) fits s
            (ground (arith, e, d, c))
    ]
  ]

  pub Sound-clear_buffer : (p : Passive S) → Sound p → Sound (clear_buffer p).0
  unfolding clear_buffer Between total Awake
  Sound-clear_buffer p s = record {
    handled = s.handled;
    taken = s.taken;
    waiting = Between-le mark s.handled p.last_seqno p.messages s.waiting;
    bytes = refl;
    items = refl;
    live = s.live;
    awake = s.awake;
  }

  LoopOut : Passive S × Outcome × ℕ → Type 0
  LoopOut out = Sound out.0

  pub Sound-process_loop :
      (ops : Store S) (left acked : ℕ) (ms : List Message) (p : Passive S)
      (out : Passive S × Outcome × ℕ)
      → p.messages ≡ ms
      → Sound p
      → process_loop ops left acked ms p ≡ some out
      → Sound out.0
  unfolding process_loop LoopOut
  Sound-process_loop ops zero acked ms p out h s e = subst LoopOut (eq_of_some e) s
  Sound-process_loop ops (suc left) acked [] p out h s e = subst LoopOut (eq_of_some e) s
  Sound-process_loop ops (suc left) acked (m ∷ rest) p out h s e =
      elim (Bool-cases (is_dead p.state)) [
        | inl d ↦
            let same : ((clear_buffer p).0, all_processed, (acked + (clear_buffer p).1) % 2 ^ 32)
                ≡ out =
              ground (arith, e, d) in
            subst LoopOut same (Sound-clear_buffer p s)
        | inr d ↦ elim (Option-cases (process ops m p)) [
          | inl n ↦ absurd (ground (arith, e, d, n))
          | inr ((q, ret, m'), n) ↦
              let f = Effect-process ops m p (q, ret, m') n in
              elim (Bool-cases (is_retry ret)) [
                | inl r ↦
                    let same : (record q { messages = m' ∷ rest }, cannot_process, acked) ≡ out =
                      ground (arith, e, d, n, r) in
                    subst LoopOut same (Sound-retry m m' rest ret p q h f r s)
                | inr r ↦
                    Sound-process_loop ops left
                      (if is_erange ret then acked else (acked + size m) % 2 ^ 32) rest
                      (drop_front m rest q) out (messages-drop_front m rest q)
                      (Sound-drop_front m m' rest ret p q h f s) (ground (arith, e, d, n, r))
              ]
        ]
      ]
