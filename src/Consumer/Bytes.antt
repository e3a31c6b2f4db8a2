-- ===== src/Consumer/Bytes.antt =====
-- The bytes of a consumer (src/dcp/consumer.cc): what it has received is buffered or done with.
use mathlib.Core.Path.{subst}
use ep_engine.Base.{
  ℕ, ◌+◌, ◌%◌, ◌^◌, ◌<◌, ◌≡◌, sym, ap, inl, inr, not, ◌&&◌, List, some, arith, ◌==◌, if◌then◌else◌,
  length, Bool-cases, Option-cases,
}
use ep_engine.FlowControl.{incr_freed_bytes}
use ep_engine.Stream.Passive.{
  Store, Passive, Message, Code, success, key_enoent, size, is_dead, is_tmpfail,
}
use ep_engine.Stream.Passive.Receive.{message_received}
use ep_engine.Stream.Passive.Steps.{Sound-message_received}
use ep_engine.Stream.Passive.Receipt.{message_received-bytes}
use ep_engine.Consumer.{
  Consumer, find_stream, put_stream, notify_vbucket_ready, notify_consumer, free_bytes, note_ready,
  deliver_to, deliver, settle, receive,
}
use ep_engine.Consumer.Streams.{held, AllSound, Sound-find, AllSound-put, held-put}

module _ {S : Type 0} where
  streams-note_ready :
      (vb : ℕ) (err : Code) (c : Consumer S) → (note_ready vb err c).streams ≡ c.streams
  unfolding note_ready notify_vbucket_ready
  streams-note_ready vb err c = ground arith

  flow-note_ready : (vb : ℕ) (err : Code) (c : Consumer S) → (note_ready vb err c).flow ≡ c.flow
  unfolding note_ready notify_vbucket_ready
  flow-note_ready vb err c = ground arith

  pub streams-free_bytes : (n : ℕ) (c : Consumer S) → (free_bytes n c).streams ≡ c.streams
  unfolding free_bytes notify_consumer
  streams-free_bytes n c = ground arith

  pub freed-free_bytes :
      (n : ℕ) (c : Consumer S)
      → (free_bytes n c).flow.freed_bytes ≡ (c.flow.freed_bytes + n) % 2 ^ 64
  unfolding free_bytes notify_consumer incr_freed_bytes
  freed-free_bytes n c = ground arith

  -- What the consumer accounts for.
  unfoldable pub known : Consumer S → ℕ
  known c = c.flow.freed_bytes + held c.streams

  -- Sound streams, and `n` bytes more than `c`.
  pub record Gains (c : Consumer S) (n : ℕ) (d : Consumer S) : Type 0 where
    pub sound : AllSound d.streams
    pub gained : known d ≡ known c + n

  Gains-free_bytes :
      (n : ℕ) (c d : Consumer S) → Gains c 0 d → known c + n < 2 ^ 64 → Gains c n (free_bytes n d)
  unfolding known
  Gains-free_bytes n c d g fits =
      let same = streams-free_bytes n d in
      let freed = freed-free_bytes n d in
      let held_same = ap held same in
      let before = g.gained in
      record { sound = subst AllSound (sym same) g.sound; gained = omega arith }

  -- What the delivery leaves to settle.
  DeliveredOut : Consumer S → ℕ → Consumer S × Code → Type 0
  DeliveredOut c n out = Gains c (if is_tmpfail out.1 then n else 0) out.0

  Delivered-refused :
      (n : ℕ) (c : Consumer S) → AllSound c.streams → DeliveredOut c n (c, key_enoent)
  unfolding DeliveredOut is_tmpfail
  Delivered-refused n c s = record { sound = s; gained = omega arith }

  Delivered-stream :
      (ops : Store S) (vb : ℕ) (m : Message) (p : Passive S) (c : Consumer S)
      (out : Passive S × Code)
      → AllSound c.streams
      → find_stream vb c.streams ≡ some p
      → length p.messages < 2 ^ 64
      → message_received ops (some m) p ≡ some out
      → DeliveredOut c
          (size m)
          (note_ready vb out.1 (record c { streams = put_stream vb out.0 c.streams }), out.1)
  unfolding DeliveredOut known
  Delivered-stream ops vb m p c out s found fits e =
      let d = record c { streams = put_stream vb out.0 c.streams } in
      let same = streams-note_ready vb out.1 d in
      let flow_same = ap (λ f. f.freed_bytes) (flow-note_ready vb out.1 d) in
      let held_same = ap held same in
      let put = held-put vb p out.0 c.streams found in
      let bytes = message_received-bytes ops m p out e in
      let q =
        Sound-message_received ops (some m) p out fits (Sound-find vb c.streams p s found) e in
      record {
        sound = subst AllSound (sym same) (AllSound-put vb out.0 c.streams s q);
        gained = omega arith;
      }

  Delivered-deliver_to :
      (ops : Store S) (o vb : ℕ) (m : Message) (p : Passive S) (c : Consumer S)
      (out : Consumer S × Code)
      → AllSound c.streams
      → find_stream vb c.streams ≡ some p
      → length p.messages < 2 ^ 64
      → deliver_to ops o vb m p c ≡ some out
      → DeliveredOut c (size m) out
  unfolding deliver_to
  Delivered-deliver_to ops o vb m p c out s found fits e =
      elim (Bool-cases ((p.stream_opaque == o) && not (is_dead p.state))) [
        | inr w ↦
            let same : (c, key_enoent) ≡ out = ground (arith, e, w) in
            subst (DeliveredOut c (size m)) same (Delivered-refused (size m) c s)
        | inl w ↦ elim (Option-cases (message_received ops (some m) p)) [
          | inl n ↦ absurd (ground (arith, e, w, n))
          | inr (r, n) ↦
              let same : (
                note_ready vb r.1 (record c { streams = put_stream vb r.0 c.streams }),
                r.1,
              )
                  ≡ out =
                ground (arith, e, w, n) in
              subst (DeliveredOut c (size m)) same (Delivered-stream ops vb m p c r s found fits n)
        ]
      ]

  -- No stream has more messages than its counter can count.
  unfoldable pub AllFit : List (ℕ × Passive S) → Type 0
  AllFit l = (vb : ℕ) (p : Passive S) → find_stream vb l ≡ some p → length p.messages < 2 ^ 64

  Delivered-deliver :
      (ops : Store S) (o vb : ℕ) (m : Message) (c : Consumer S) (out : Consumer S × Code)
      → AllSound c.streams
      → AllFit c.streams
      → deliver ops o vb m c ≡ some out
      → DeliveredOut c (size m) out
  unfolding deliver AllFit
  Delivered-deliver ops o vb m c out s fits e = elim (Option-cases (find_stream vb c.streams)) [
    | inl n ↦
        let same : (c, key_enoent) ≡ out = ground (arith, e, n) in
        subst (DeliveredOut c (size m)) same (Delivered-refused (size m) c s)
    | inr (p, n) ↦ Delivered-deliver_to ops o vb m p c out s n (fits vb p n) (ground (arith, e, n))
  ]

  GainsOut : Consumer S → ℕ → Consumer S × Code → Type 0
  GainsOut c n out = Gains c n out.0

  Gains-settle :
      (n : ℕ) (c : Consumer S) (out : Consumer S × Code)
      → known c + n < 2 ^ 64
      → DeliveredOut c n out
      → GainsOut c n (settle n out)
  unfolding settle DeliveredOut GainsOut
  Gains-settle n c out fits g = elim (Bool-cases (is_tmpfail out.1)) [
    | inl t ↦
        subst (λ b. GainsOut c n (if b then (out.0, success) else (free_bytes n out.0, out.1)))
          (sym t) (subst (λ b. Gains c (if b then n else 0) out.0) t g)
    | inr t ↦
        subst (λ b. GainsOut c n (if b then (out.0, success) else (free_bytes n out.0, out.1)))
          (sym t)
          (Gains-free_bytes n c out.0 (subst (λ b. Gains c (if b then n else 0) out.0) t g) fits)
  ]

  pub Gains-receive :
      (ops : Store S) (o vb : ℕ) (m : Message) (c : Consumer S) (out : Consumer S × Code)
      → AllSound c.streams
      → AllFit c.streams
      → known c + size m < 2 ^ 64
      → receive ops (size m) o vb m c ≡ some out
      → Gains c (size m) out.0
  unfolding receive GainsOut
  Gains-receive ops o vb m c out s all_fit fits e = elim (Option-cases (deliver ops o vb m c)) [
    | inl n ↦ absurd (ground (arith, e, n))
    | inr (r, n) ↦
        let same : settle (size m) r ≡ out = ground (arith, e, n) in
        subst (GainsOut c (size m)) same
          (Gains-settle (size m) c r fits (Delivered-deliver ops o vb m c r s all_fit n))
  ]
