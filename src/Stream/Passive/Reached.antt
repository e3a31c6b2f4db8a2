-- ===== src/Stream/Passive/Reached.antt =====
-- The consumer's streams that the operations reach, and what holds of them (src/dcp/stream.cc).
use mathlib.Core.Path.{subst}
use ep_engine.Base.{
  ℕ, ◌^◌, ◌<◌, ◌≡◌, refl, sym, inl, inr, true, false, [], Option, some, arith, ◌==◌, if◌then◌else◌,
  length, Bool-cases, List-cases, Option-cases, if-both,
}
use ep_engine.Stream.{
  State, reading, dead, Response, add_stream_response, ReadyQueue, pop, pop_front,
}
use ep_engine.Stream.Passive.{
  Store, Passive, Message, Code, Outcome, enter, is_pending, new_passive, batch_size, send,
}
use ep_engine.Stream.Passive.Receive.{
  message_received, process_buffered, clear_buffer, set_dead, accept_stream, next,
}
use ep_engine.Stream.Passive.Frame.{is_live, Awake, Same-send}
use ep_engine.Stream.Passive.Effect.{enter_lem}
use ep_engine.Stream.Order.{Between, Descends}
use ep_engine.Stream.Passive.Invariant.{total, Sound}
use ep_engine.Stream.Passive.Steps.{Sound-message_received, Sound-process_loop, Sound-clear_buffer}

module _ {S : Type 0} where
  -- What the operations but `reconnectStream`, which goes back to an earlier sequence number, reach.
  pub data Reached (ops : Store S) : Passive S → Type 0 where
    created :
        (o flags start stop uuid snap_start snap_end high : ℕ) (s : S)
        → Reached ops (new_passive o flags start stop uuid snap_start snap_end high s)
    received :
        {p : Passive S}
        → Reached ops p
        → (m : Option Message) (out : Passive S × Code) → length p.messages < 2 ^ 64
        → message_received ops m p ≡ some out
        → Reached ops out.0
    processed :
        {p : Passive S}
        → Reached ops p
        → (out : Passive S × Outcome × ℕ) → process_buffered ops p ≡ some out
        → Reached ops out.0
    killed :
        {p : Passive S}
        → Reached ops p
        → (out : Passive S × ℕ) → set_dead p ≡ some out
        → Reached ops out.0
    accepted :
        {p : Passive S}
        → Reached ops p
        → (status add_opaque : ℕ) (q : Passive S) → accept_stream status add_opaque p ≡ some q
        → Reached ops q
    sent : {p : Passive S} → Reached ops p → Reached ops (next p).0

  pub Sound-new_passive :
      (o flags start stop uuid snap_start snap_end high : ℕ) (s : S)
      → Sound (new_passive o flags start stop uuid snap_start snap_end high s)
  unfolding new_passive Between Descends total is_live Awake
  Sound-new_passive o flags start stop uuid snap_start snap_end high s = record {
    handled = 0;
    taken = omega arith;
    waiting = omega arith;
    bytes = refl;
    items = refl;
    live = refl;
    awake = λ h. absurd (ground (arith, h));
  }

  Sound-enter :
      (new : State) (p q : Passive S)
      → is_live new ≡ true
      → enter new p ≡ some q
      → Sound p
      → Sound q
  unfolding Awake
  Sound-enter new p q h e s = subst Sound (sym (enter_lem new p q e)) (record {
    handled = s.handled;
    taken = s.taken;
    waiting = s.waiting;
    bytes = s.bytes;
    items = s.items;
    live = h;
    awake = s.awake;
  })

  Sound-set_dead :
      (p : Passive S) (out : Passive S × ℕ) → set_dead p ≡ some out → Sound p → Sound out.0
  unfolding set_dead is_live
  Sound-set_dead p out e s = elim (Option-cases (enter dead (clear_buffer p).0)) [
    | inl n ↦ absurd (ground (arith, e, n))
    | inr (q, n) ↦
        let same : q ≡ out.0 = ground (arith, e, n) in
        subst Sound same (Sound-enter dead (clear_buffer p).0 q refl n (Sound-clear_buffer p s))
  ]

  Sound-send : (r : Response) (p : Passive S) → Sound p → Sound (send r p)
  unfolding send Awake
  Sound-send r p s = record {
    handled = s.handled;
    taken = s.taken;
    waiting = s.waiting;
    bytes = s.bytes;
    items = s.items;
    live = s.live;
    awake = (Same-send r p).awake s.awake;
  }

  pub Sound-accept_stream :
      (status add_opaque : ℕ) (p q : Passive S)
      → accept_stream status add_opaque p ≡ some q
      → Sound p
      → Sound q
  unfolding accept_stream is_live
  Sound-accept_stream status o p q e s = elim (Bool-cases (is_pending p.state)) [
    | inr w ↦ (let same : p ≡ q = ground (arith, e, w) in subst Sound same s)
    | inl w ↦ elim (Option-cases (enter (if status == 0 then reading else dead) p)) [
      | inl n ↦ absurd (ground (arith, e, w, n))
      | inr (r, n) ↦
          let same : send (add_stream_response o p.stream_opaque status) r ≡ q =
            ground (arith, e, w, n) in
          subst Sound same (
            Sound-send _ r (
              Sound-enter _ p r (if-both (λ (z : State). is_live z ≡ true) (status == 0) refl refl)
                n s))
    ]
  ]

  Sound-ready :
      (r : ReadyQueue) (p : Passive S)
      → (r.items_ready ≡ false → r.queue ≡ [])
      → Sound p
      → Sound (record p { ready = r })
  unfolding Awake
  Sound-ready r p a s = record {
    handled = s.handled;
    taken = s.taken;
    waiting = s.waiting;
    bytes = s.bytes;
    items = s.items;
    live = s.live;
    awake = a;
  }

  pub Sound-next : (p : Passive S) → Sound p → Sound (next p).0
  unfolding next pop pop_front Awake
  Sound-next p s = elim (List-cases p.ready.queue) [
    | inl e ↦
        let r = record p.ready { items_ready = false } in
        let same : record p { ready = r } ≡ (next p).0 = ground (arith, e) in
        subst Sound same (Sound-ready r p (λ _. e) s)
    | inr (r, rest, e) ↦
        let same : record p { ready = pop p.ready } ≡ (next p).0 = ground (arith, e) in
        subst Sound same (
          Sound-ready (pop p.ready) p
            (λ h. absurd (
              let told : p.ready.queue ≡ [] = s.awake (ground (arith, e, h)) in
              ground (arith, e, told)))
            s)
  ]

  -- Whatever the vbucket and the store answer, every stream that the constructor and the operations
  -- other than a reconnection reach, with fewer than 2^64 messages in its buffer, is sound: the store has
  -- taken documents in the strictly increasing order of their sequence numbers; the buffer holds the later
  -- ones, in their order and up to the last one received; `buffer.bytes` and `buffer.items` are the size and
  -- the number of the buffered messages; the state is pending, reading or dead; and a message waits
  -- to be sent only if the connection has been told.
  pub reached-Sound : {ops : Store S} {p : Passive S} → Reached ops p → Sound p
  unfolding process_buffered
  reached-Sound {ops = ops} (created o flags start stop uuid snap_start snap_end high s) =
      Sound-new_passive o flags start stop uuid snap_start snap_end high s
  reached-Sound {ops = ops} (received {p = p} r m out fits e) =
      Sound-message_received ops m p out fits (reached-Sound r) e
  reached-Sound {ops = ops} (processed {p = p} r out e) =
      Sound-process_loop ops batch_size 0 p.messages p out refl (reached-Sound r) e
  reached-Sound (killed {p = p} r out e) = Sound-set_dead p out e (reached-Sound r)
  reached-Sound (accepted {p = p} r status o q e) =
      Sound-accept_stream status o p q e (reached-Sound r)
  reached-Sound (sent {p = p} r) = Sound-next p (reached-Sound r)
