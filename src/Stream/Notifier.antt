-- ===== src/Stream/Notifier.antt =====
-- src/dcp/stream.cc, class NotifierStream: the stream that only says that there is something new.
use mathlib.Core.Path.{subst}
use ep_engine.Base.{
  ℕ, ◌≡◌, ◌≢◌, refl, ◌⊎◌, inl, inr, Bool-cases, List-cases, Bool, true, false, not, ◌&&◌, List, [],
  ◌∷◌, Option, none, some, arith, ltb, ◌>>=◌, if◌then◌else◌,
}
use ep_engine.Stream.{
  State, pending, dead, EndStatus, ok, disconnected, Response, stream_end_response, message_size,
  ReadyQueue, empty_queue, push, pop, pop_front, notify,
}

pub record Notifier : Type 0 where
  pub state : State
  pub ready : ReadyQueue
  pub stream_opaque : ℕ
  pub start_seqno : ℕ

unfoldable is_dead : State → Bool
is_dead dead = true
is_dead _ = false

unfoldable is_disconnected : EndStatus → Bool
is_disconnected disconnected = true
is_disconnected _ = false

-- `transitionState(STREAM_DEAD)`
unfoldable enter_dead : Notifier → Option Notifier
enter_dead n = elim n.state [
  | pending ↦ some (record n { state = dead })
  | dead ↦ some n
  | _ ↦ none
]

unfoldable push_end : EndStatus → Notifier → Notifier
push_end status n = record n { ready = push (stream_end_response n.stream_opaque status) n.ready }

unfoldable tell : Notifier → Notifier
tell n = record n { ready = notify n.ready }

unfoldable is_behind : ℕ → Option ℕ → Bool
is_behind start none = false
is_behind start (some high) = ltb start high

-- The constructor, with the vbucket's high sequence number if there is a vbucket.
unfoldable pub new_notifier : (stream_opaque start_seqno : ℕ) → Option ℕ → Option Notifier
unfolding enter_dead push_end empty_queue is_behind
new_notifier o start high =
    let n : Notifier = record {
      state = pending;
      ready = empty_queue;
      stream_opaque = o;
      start_seqno = start;
    } in
    let entered = enter_dead (push_end ok n) in
    let behind = is_behind start high in
    if behind
    then (do d ← entered; some (record d { ready = record d.ready { items_ready = true } }))
    else some n

-- `setDead`
unfoldable pub set_dead : EndStatus → Notifier → Option Notifier
unfolding enter_dead push_end tell is_dead is_disconnected
set_dead status n =
    let entered = enter_dead n in
    if is_dead n.state
    then some n
    else (do d ← entered; some (if is_disconnected status then d else tell (push_end status d)))

-- `notifySeqnoAvailable`
unfoldable pub notify_seqno_available : ℕ → Notifier → Option Notifier
unfolding enter_dead push_end tell is_dead
notify_seqno_available seqno n =
    let entered = enter_dead (push_end ok n) in
    if not (is_dead n.state) && ltb n.start_seqno seqno
    then (do d ← entered; some (tell d))
    else some n

-- `next`, by whether the log of the connection has room for the message.
unfoldable pub next : (ℕ → Bool) → Notifier → Notifier × Option Response
next insert n = elim n.ready.queue [
  | [] ↦ (record n { ready = record n.ready { items_ready = false } }, none)
  | r ∷ rest ↦
      if insert (message_size r) then (record n { ready = pop n.ready }, some r) else (n, none)
]

pub data Reached : Notifier → Type 0 where
  created :
      (o start : ℕ) (high : Option ℕ) (n : Notifier)
      → new_notifier o start high ≡ some n
      → Reached n
  killed :
      (status : EndStatus) (n m : Notifier) → Reached n → set_dead status n ≡ some m → Reached m
  told :
      (seqno : ℕ) (n m : Notifier) → Reached n → notify_seqno_available seqno n ≡ some m → Reached m
  sent : (insert : ℕ → Bool) (n : Notifier) → Reached n → Reached (next insert n).0

unfoldable is_short : List Response → Bool
is_short [] = true
is_short (r ∷ []) = true
is_short (r ∷ s ∷ rest) = false

short-tail :
    (r : Response) (rest : List Response) → is_short (r ∷ rest) ≡ true → is_short rest ≡ true
unfolding is_short
short-tail r [] h = refl
short-tail r (s ∷ rest) h = absurd (ground arith)

-- The stream waits with an empty queue, or is dead with one message at most.
unfoldable pub Sound : Notifier → Type 0
unfolding is_short
Sound n =
    ((n.state ≡ pending) × (n.ready.queue ≡ []))
    ⊎ ((n.state ≡ dead) × (is_short n.ready.queue ≡ true))

Sound-new_notifier :
    (o start : ℕ) (high : Option ℕ) (n : Notifier) → new_notifier o start high ≡ some n → Sound n
unfolding new_notifier enter_dead push_end empty_queue is_behind push is_short Sound
Sound-new_notifier o start none n e = inl (ground (arith, e), ground (arith, e))
Sound-new_notifier o start (some h) n e = elim (Bool-cases (ltb start h)) [
  | inl b ↦ inr (ground (arith, e, b), ground (arith, e, b))
  | inr b ↦ inl (ground (arith, e, b), ground (arith, e, b))
]

Sound-set_dead :
    (status : EndStatus) (n m : Notifier) → Sound n → set_dead status n ≡ some m → Sound m
unfolding set_dead enter_dead push_end tell is_dead push notify is_short Sound
Sound-set_dead status n m (inl (s, q)) e = elim (Bool-cases (is_disconnected status)) [
  | inl b ↦ inr (ground (arith, e, s, q, b), ground (arith, e, s, q, b))
  | inr b ↦ inr (ground (arith, e, s, q, b), ground (arith, e, s, q, b))
]
Sound-set_dead status n m (inr (s, q)) e = inr (ground (arith, e, s, q), ground (arith, e, s, q))

Sound-notify_seqno_available :
    (seqno : ℕ) (n m : Notifier) → Sound n → notify_seqno_available seqno n ≡ some m → Sound m
unfolding notify_seqno_available enter_dead push_end tell is_dead push notify is_short Sound
Sound-notify_seqno_available seqno n m (inl (s, q)) e =
    elim (Bool-cases (ltb n.start_seqno seqno)) [
      | inl b ↦ inr (ground (arith, e, s, q, b), ground (arith, e, s, q, b))
      | inr b ↦ inl (ground (arith, e, s, q, b), ground (arith, e, s, q, b))
    ]
Sound-notify_seqno_available seqno n m (inr (s, q)) e =
    inr (ground (arith, e, s, q), ground (arith, e, s, q))

Sound-next : (insert : ℕ → Bool) (n : Notifier) → Sound n → Sound (next insert n).0
unfolding next pop pop_front is_short Sound
Sound-next insert n (inl (s, q)) = inl (ground (arith, s, q), ground (arith, s, q))
Sound-next insert n (inr (s, q)) = elim (List-cases n.ready.queue) [
  | inl c ↦ inr (ground (arith, s, q, c), ground (arith, s, q, c))
  | inr (r, rest, c) ↦
      let shorter = short-tail r rest (subst (λ l. is_short l ≡ true) c q) in
      inr (ground (arith, s, q, c), ground (arith, s, q, c, shorter))
]

Sound-total :
    (n : Notifier)
    → Sound n
    → (status : EndStatus) (seqno : ℕ)
    → (set_dead status n ≢ none) × (notify_seqno_available seqno n ≢ none)
unfolding set_dead notify_seqno_available enter_dead push_end is_dead Sound
Sound-total n (inl (s, q)) status seqno = (λ e. ground (arith, e, s), λ e. ground (arith, e, s))
Sound-total n (inr (s, q)) status seqno = (λ e. ground (arith, e, s), λ e. ground (arith, e, s))

reached-notifier : {n : Notifier} → Reached n → Sound n
reached-notifier (created o start high n e) = Sound-new_notifier o start high n e
reached-notifier (killed status n m r e) = Sound-set_dead status n m (reached-notifier r) e
reached-notifier (told seqno n m r e) =
    Sound-notify_seqno_available seqno n m (reached-notifier r) e
reached-notifier (sent insert n r) = Sound-next insert n (reached-notifier r)

-- A notifier stream that its constructor and its operations reach either waits with nothing to send, or is
-- dead with one message to send at most; and neither its end nor a new sequence number makes it throw.
pub reached-notifies :
    {n : Notifier}
    → Reached n
    → Sound n
      × ((status : EndStatus) (seqno : ℕ)
          → (set_dead status n ≢ none) × (notify_seqno_available seqno n ≢ none))
reached-notifies {n = n} r = (reached-notifier r, Sound-total n (reached-notifier r))
