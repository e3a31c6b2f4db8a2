-- ===== src/Consumer/Processing.antt =====
-- The bytes of a consumer when one stream's buffer is processed (src/dcp/consumer.cc).
use mathlib.Core.Path.{subst}
use ep_engine.Base.{ℕ, suc, ◌+◌, ◌^◌, ◌<◌, ◌≡◌, sym, ap, inl, inr, some, arith, Option-cases}
use ep_engine.Stream.Passive.{
  Store, Passive, Outcome, all_processed, more_to_process, cannot_process,
}
use ep_engine.Stream.Passive.Invariant.{total}
use ep_engine.Consumer.{Consumer, find_stream, put_stream}
use ep_engine.Consumer.Ready.{Pause, throttled, answered, drain, conclude, process_stream}
use ep_engine.Consumer.Streams.{held, AllSound, Sound-find, AllSound-put, held-put}
use ep_engine.Consumer.Bytes.{known}
use ep_engine.Consumer.Drains.{lost, Drained, drain-account, drain-total}

module _ {S : Type 0} where
  -- What the processing of a stream leaves of a consumer that knew `n` bytes.
  unfoldable pub Processed : (n gone : ℕ) → Consumer S × Outcome → Type 0
  Processed n gone out = AllSound out.0.streams × (known out.0 + gone ≡ n)

  Processed-conclude :
      (vb : ℕ) (e : Pause) (c : Consumer S) (n gone : ℕ)
      → AllSound c.streams
      → known c + gone ≡ n
      → Processed n gone (conclude vb e c)
  unfolding Processed conclude known
  Processed-conclude vb throttled c n gone s h = (s, h)
  Processed-conclude vb (answered all_processed) c n gone s h = (s, h)
  Processed-conclude vb (answered more_to_process) c n gone s h = (s, h)
  Processed-conclude vb (answered cannot_process) c n gone s h = (s, h)

  Processed-put :
      (vb : ℕ) (p : Passive S) (c : Consumer S) (gone : ℕ) (out : Passive S × Consumer S × Pause)
      → AllSound c.streams
      → find_stream vb c.streams ≡ some p
      → Drained c (c.flow.freed_bytes + total p.messages) gone out
      → Processed
          (known c)
          gone
          (conclude vb out.2 (record out.1 { streams = put_stream vb out.0 out.1.streams }))
  unfolding Drained known
  Processed-put vb p c gone out s found (sq, streams, sum) =
      let put = held-put vb p out.0 c.streams found in
      let same : held (put_stream vb out.0 out.1.streams) ≡ held (put_stream vb out.0 c.streams) =
        ap (λ l. held (put_stream vb out.0 l)) streams in
      let d = record out.1 { streams = put_stream vb out.0 out.1.streams } in
      Processed-conclude vb out.2 d (known c) gone
        (subst (λ l. AllSound (put_stream vb out.0 l)) (sym streams)
          (AllSound-put vb out.0 c.streams s sq))
        (omega arith)

  -- For a consumer of sound streams whose buffers hold fewer than 2^32 bytes, the processing of a stream's
  -- buffer ends, whatever the store answers, and every byte that it takes from the buffer is freed in the
  -- flow control, but for those of the messages that the stream answers `ENGINE_ERANGE`. The streams are
  -- sound after it.
  pub process_stream-known :
      (ops : Store S) (vb : ℕ) (p : Passive S) (c : Consumer S)
      → AllSound c.streams
      → find_stream vb c.streams ≡ some p
      → total p.messages < 2 ^ 32
      → c.flow.freed_bytes + total p.messages < 2 ^ 64
      → (out : Consumer S × Outcome) × (process_stream ops vb p c ≡ some out)
        × AllSound out.0.streams
        × (known out.0 + lost ops (suc (total p.messages)) p ≡ known c)
  unfolding process_stream Processed
  process_stream-known ops vb p c s found small fits =
      let sp = Sound-find vb c.streams p s found in
      elim (Option-cases (drain ops (suc (total p.messages)) p c)) [
        | inl n ↦ absurd (drain-total ops (suc (total p.messages)) p c sp small (omega arith) n)
        | inr (out, n) ↦
            let drained = drain-account ops (suc (total p.messages)) p c out sp small fits n in
            let processed =
              Processed-put vb p c (lost ops (suc (total p.messages)) p) out s found drained in
            (
              conclude vb out.2 (record out.1 { streams = put_stream vb out.0 out.1.streams }),
              ground (arith, n),
              processed.0,
              processed.1,
            )
      ]
