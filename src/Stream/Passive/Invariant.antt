-- ===== src/Stream/Passive/Invariant.antt =====
-- What every operation of a consumer's stream keeps (src/dcp/stream.cc).
use mathlib.Core.Path.{subst}
use ep_engine.Base.{
  ℕ, suc, ◌+◌, ◌-◌, ◌%◌, ◌^◌, ◌<◌, ◌≡◌, ◌≢◌, refl, sym, ap, ◌∙◌, inl, inr, true, List, [], ◌∷◌,
  ◌++◌, arith, length, length-append,
}
use ep_engine.Stream.{mutation_size}
use ep_engine.Stream.Passive.{
  Passive, Message, mutation, marker, set_vbucket, stream_end, unknown, Code, size, is_retry,
  is_success,
}
use ep_engine.Stream.Passive.Receive.{buffer_message, drop_front}
use ep_engine.Stream.Passive.Frame.{is_live, Awake}
use ep_engine.Stream.Passive.Effect.{mark, Effect}
use ep_engine.Stream.Order.{
  floor, rises, Between, Descends, Between-append, Descends-took, Descends-le,
}

-- The bytes of the messages.
unfoldable pub total : List Message → ℕ
total [] = 0
total (m ∷ ms) = size m + total ms

pub total-append : (ms : List Message) (m : Message) → total (ms ++ m ∷ []) ≡ total ms + size m
unfolding total
total-append [] m = omega arith
total-append (x ∷ ms) m = omega (arith, total-append ms m)

pub size-lt : (m : Message) → size m < 2 ^ 32
unfolding size mutation_size
size-lt (mutation m) = omega arith
size-lt (marker _ _ _) = omega arith
size-lt (set_vbucket _) = omega arith
size-lt stream_end = omega arith
size-lt (unknown n) = omega arith

pub not_both : (c : Code) → is_retry c ≡ true → is_success c ≢ true
unfolding is_retry is_success
not_both c h = ground arith

pub empty_of_length : (ms : List Message) → length ms ≡ 0 → ms ≡ []
empty_of_length [] h = refl
empty_of_length (m ∷ ms) h = absurd (omega arith)

-- The two counters when a message of `n` bytes leaves.
left_bytes :
    (b c n t : ℕ)
    → c ≡ b
    → b ≡ (n + t) % 2 ^ 64
    → n < 2 ^ 32
    → (c + 2 ^ 64 - n) % 2 ^ 64 ≡ t % 2 ^ 64
left_bytes b c n t e h l = omega arith

left_items : (b c t : ℕ) → c ≡ b → b ≡ suc t % 2 ^ 64 → (c + 2 ^ 64 - 1) % 2 ^ 64 ≡ t % 2 ^ 64
left_items b c t e h = omega arith

module _ {S : Type 0} where
  -- `handled` is the last sequence number that has left the buffer: the store has taken only such, each
  -- one greater than the one before; the buffer holds greater ones, in their order, up to the last
  -- received; its counters are right, modulo their 64 bits; the state is one of a consumer's stream;
  -- and the connection knows of what waits to be sent.
  pub record Sound (p : Passive S) : Type 0 where
    pub handled : ℕ
    pub taken : Descends (handled + 1) p.applied
    pub waiting : Between mark handled p.messages p.last_seqno
    pub bytes : p.buffer_bytes ≡ total p.messages % 2 ^ 64
    pub items : p.buffer_items ≡ length p.messages % 2 ^ 64
    pub live : is_live p.state ≡ true
    pub awake : Awake p

  Descends-took_of :
      {m m' : Message} {ret : Code} {p q : Passive S} (lo : ℕ)
      → Effect m m' ret p q
      → Descends (lo + 1) p.applied
      → rises lo (mark m) ≡ true
      → Descends (floor lo (mark m) + 1) q.applied
  Descends-took_of {m = m} {p = p} {q = q} lo f d h =
      Descends-took lo (mark m) p.applied q.applied d h
        (elim f.took [ inl e ↦ inl e | inr (n, e, w, _) ↦ inr (n, e, w) ])

  -- The front of the buffer has been processed and leaves.
  pub Sound-drop_front :
      (m m' : Message) (rest : List Message) (ret : Code) (p q : Passive S)
      → p.messages ≡ m ∷ rest
      → Effect m m' ret p q
      → Sound p
      → Sound (drop_front m rest q)
  unfolding drop_front Between total Awake
  Sound-drop_front m m' rest ret p q e f s =
      let w = subst (λ l. Between mark s.handled l p.last_seqno) e s.waiting in
      let b = subst (λ l. p.buffer_bytes ≡ total l % 2 ^ 64) e s.bytes in
      let i = subst (λ l. p.buffer_items ≡ length l % 2 ^ 64) e s.items in
      let same = f.same in
      record {
        handled = floor s.handled (mark m);
        taken = Descends-took_of s.handled f s.taken w.0;
        waiting = subst (Between mark (floor s.handled (mark m)) rest) (sym same.same_last) w.1;
        bytes =
            left_bytes p.buffer_bytes q.buffer_bytes (size m) (total rest) same.same_bytes b
              (size-lt m);
        items = left_items p.buffer_items q.buffer_items (length rest) same.same_items i;
        live = f.stays_live s.live;
        awake = same.awake s.awake;
      }

  -- The front of the buffer is to be tried again.
  pub Sound-retry :
      (m m' : Message) (rest : List Message) (ret : Code) (p q : Passive S)
      → p.messages ≡ m ∷ rest
      → Effect m m' ret p q
      → is_retry ret ≡ true
      → Sound p
      → Sound (record q { messages = m' ∷ rest })
  unfolding Between total Awake is_retry is_success
  Sound-retry m m' rest ret p q e f h s =
      let w = subst (λ l. Between mark s.handled l p.last_seqno) e s.waiting in
      let b = subst (λ l. p.buffer_bytes ≡ total l % 2 ^ 64) e s.bytes in
      let i = subst (λ l. p.buffer_items ≡ length l % 2 ^ 64) e s.items in
      let same = f.same in
      let size_kept = f.same_size in
      let bytes_kept = same.same_bytes in
      record {
        handled = s.handled;
        taken = elim f.took [
          | inl u ↦ subst (Descends (s.handled + 1)) (sym u) s.taken
          | inr (_, _, _, u) ↦ absurd (not_both ret h u)
        ];
        waiting =
            subst
              (λ z. (rises s.handled z ≡ true) × Between mark (floor s.handled z) rest q.last_seqno)
              (sym f.same_mark)
              (w.0, subst (Between mark (floor s.handled (mark m)) rest) (sym same.same_last) w.1);
        bytes = omega arith;
        items = same.same_items ∙ i;
        live = f.stays_live s.live;
        awake = same.awake s.awake;
      }

  -- A message joins the buffer.
  pub Sound-buffer_message :
      (m : Message) (p : Passive S)
      → rises p.last_seqno (mark m) ≡ true
      → Sound p
      → Sound (buffer_message m (record p { last_seqno = floor p.last_seqno (mark m) }))
  unfolding buffer_message Awake
  Sound-buffer_message m p h s =
      let b = s.bytes in
      let i = s.items in
      record {
        handled = s.handled;
        taken = s.taken;
        waiting = Between-append mark s.handled p.last_seqno p.messages m s.waiting h;
        bytes = omega (arith, total-append p.messages m);
        items = omega (arith, length-append p.messages (m ∷ []));
        live = s.live;
        awake = s.awake;
      }

  -- A message that finds the buffer empty is processed without it.
  pub Sound-direct :
      (m m' : Message) (ret : Code) (p q : Passive S)
      → p.messages ≡ []
      → rises p.last_seqno (mark m) ≡ true
      → Effect m m' ret (record p { last_seqno = floor p.last_seqno (mark m) }) q
      → Sound p
      → Sound q
  unfolding Between total Awake
  Sound-direct m m' ret p q e h f s =
      let b = s.bytes in
      let i = s.items in
      let same = f.same in
      let w = subst (λ l. Between mark s.handled l p.last_seqno) e s.waiting in
      let none_left = same.same_messages ∙ e in
      record {
        handled = floor p.last_seqno (mark m);
        taken = Descends-took_of p.last_seqno f (Descends-le p.applied (omega arith) s.taken) h;
        waiting =
            subst (λ l. Between mark (floor p.last_seqno (mark m)) l q.last_seqno) (sym none_left)
              (omega (arith, same.same_last));
        bytes = same.same_bytes ∙ b ∙ ap (λ l. total l % 2 ^ 64) (sym same.same_messages);
        items = same.same_items ∙ i ∙ ap (λ l. length l % 2 ^ 64) (sym same.same_messages);
        live = f.stays_live s.live;
        awake = same.awake s.awake;
      }
