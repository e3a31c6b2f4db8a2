-- ===== src/Consumer/Buffers.antt =====
-- The bytes of a consumer when its buffers are processed or a stream ends (src/dcp/consumer.cc).
use mathlib.Core.Path.{subst}
use ep_engine.Base.{
  ℕ, suc, ◌+◌, ◌^◌, ◌<◌, ◌≡◌, refl, ◌⊎◌, inl, inr, List, [], ◌∷◌, some, arith, Option-cases,
}
use ep_engine.Stream.Passive.{Store, Passive, Outcome, all_processed}
use ep_engine.Stream.Passive.Invariant.{total}
use ep_engine.Consumer.{Consumer, find_stream}
use ep_engine.Consumer.Handlers.{retire_found, vbucket_state_changed}
use ep_engine.Consumer.Ready.{process_ready, process_buffered_items}
use ep_engine.Consumer.Streams.{AllSound, held-erase}
use ep_engine.Consumer.Bytes.{known, Gains}
use ep_engine.Consumer.Drains.{Gains-retire, lost}
use ep_engine.Consumer.Processing.{process_stream-known}

module _ {S : Type 0} where
  unfoldable pub AllSmall : List (ℕ × Passive S) → Type 0
  AllSmall l = (vb : ℕ) (p : Passive S) → find_stream vb l ≡ some p → total p.messages < 2 ^ 32

  -- What the processing keeps of the bytes.
  unfoldable pub Kept : Store S → Consumer S → Consumer S → Type 0
  Kept ops c d =
      (known d ≡ known c)
      ⊎ ((vb : ℕ) × (p : Passive S) × (find_stream vb c.streams ≡ some p)
          × (known d + lost ops (suc (total p.messages)) p ≡ known c))

  process_ready-known :
      (ops : Store S) (vbs : List ℕ) (c : Consumer S)
      → AllSound c.streams
      → AllSmall c.streams
      → known c < 2 ^ 64
      → (out : Consumer S × Outcome) × (process_ready ops vbs c ≡ some out)
        × AllSound out.0.streams
        × Kept ops c out.0
  unfolding process_ready AllSmall Kept known
  process_ready-known ops [] c s small fits =
      ((record c { vb_ready = [] }, all_processed), refl, s, inl refl)
  process_ready-known ops (vb ∷ vbs) c s small fits =
      elim (Option-cases (find_stream vb c.streams)) [
        | inl n ↦
            let later = process_ready-known ops vbs c s small fits in
            let found = later.1 in (later.0, ground (arith, n, found), later.2, later.3)
        | inr (p, n) ↦
            let rest = record c { vb_ready = vbs } in
            let done =
              process_stream-known ops vb p rest s n (small vb p n)
                (omega (arith, held-erase vb p c.streams n)) in
            let found = done.1 in (done.0, ground (arith, n, found), done.2, inr (vb, p, n, done.3))
      ]

  -- For a consumer of sound streams that have fewer than 2^32 bytes in their buffers each: if a change of
  -- the state of a vbucket does not throw, the bytes that the stream buffers are freed in the flow control,
  -- so that the consumer knows of the same number of bytes as before. The streams are sound after it.
  pub vbucket_state_changed-Gains :
      (vb : ℕ) (c d : Consumer S)
      → AllSound c.streams
      → AllSmall c.streams
      → known c < 2 ^ 64
      → vbucket_state_changed vb c ≡ some d
      → Gains c 0 d
  unfolding vbucket_state_changed retire_found AllSmall known
  vbucket_state_changed-Gains vb c d s small fits e =
      elim (Option-cases (find_stream vb c.streams)) [
        | inl n ↦
            let same : c ≡ d = ground (arith, e, n) in
            subst (Gains c 0) same (record { sound = s; gained = omega arith })
        | inr (p, n) ↦ Gains-retire vb p c d s n (small vb p n) fits (ground (arith, e, n))
      ]

  pub process_buffered_items-known :
      (ops : Store S) (c : Consumer S)
      → AllSound c.streams
      → AllSmall c.streams
      → known c < 2 ^ 64
      → (out : Consumer S × Outcome) × (process_buffered_items ops c ≡ some out)
        × AllSound out.0.streams
        × Kept ops c out.0
  unfolding process_buffered_items
  process_buffered_items-known ops c s small fits =
      process_ready-known ops c.vb_ready c s small fits
