-- ===== src/Consumer/Keeps.antt =====
-- The operations of a consumer keep its streams sound (src/dcp/consumer.cc).
use mathlib.Core.Path.{subst}
use ep_engine.Base.{
  ℕ, ◌+◌, ◌%◌, ◌^◌, ◌≡◌, sym, inl, inr, Bool, false, not, ◌&&◌, ◌||◌, List, [], ◌∷◌, ◌++◌, Option,
  none, some, arith, ◌==◌, if◌then◌else◌, Bool-cases, Option-cases, eq_of_some, if-both,
}
use ep_engine.Stream.{Response}
use ep_engine.Stream.Passive.{
  Store, Passive, Code, success, key_enoent, disconnect, not_my_vbucket, other, is_pending,
}
use ep_engine.Stream.Passive.Receive.{set_dead, accept_stream, next}
use ep_engine.Stream.Passive.Frame.{Awake}
use ep_engine.Stream.Passive.Invariant.{Sound}
use ep_engine.Stream.Passive.Reached.{Sound-new_passive, Sound-accept_stream, Sound-next}
use ep_engine.Consumer.{Consumer, find_stream, put_stream, erase_stream, heard, free_bytes}
use ep_engine.Consumer.Handlers.{
  erase_opaque, has_live_stream, insert_stream, add_stream, retire, close_stream,
}
use ep_engine.Consumer.Ready.{
  may_send, next_of, next_ready, get_next_item, accept_for, accept_found, find_opaque,
  stream_accepted,
}
use ep_engine.Consumer.Streams.{AllSound, Sound-find, AllSound-put, AllSound-erase}
use ep_engine.Consumer.Bytes.{streams-free_bytes}

module _ {S : Type 0} where
  unfoldable pub Streamed : Consumer S × Code → Type 0
  Streamed out = AllSound out.0.streams

  Streamed-of : (c : Consumer S) (code : Code) → AllSound c.streams → Streamed (c, code)
  unfolding Streamed
  Streamed-of c code h = h

  AllSound-insert :
      (o vb flags start range_start range_end uuid high : ℕ) (s : S) (c : Consumer S)
      → AllSound c.streams
      → AllSound (insert_stream o vb flags start range_start range_end uuid high s c).streams
  unfolding insert_stream
  AllSound-insert o vb flags start range_start range_end uuid high s c h =
      AllSound-put vb _ (erase_stream vb c.streams) (AllSound-erase vb c.streams h)
        (Sound-new_passive _ flags start _ uuid _ range_end high s)

  pub Streamed-add :
      (ops : Store S) (now o vb flags : ℕ) (active : Bool)
      (start range_start range_end uuid high : ℕ) (s : S) (c : Consumer S)
      → AllSound c.streams
      → Streamed (add_stream ops now o vb flags active start range_start range_end uuid high s c)
  unfolding add_stream heard
  Streamed-add ops now o vb flags active start range_start range_end uuid high s c h =
      if-both Streamed c.disconnecting (Streamed-of (heard now c) disconnect h) (
        if-both Streamed (not (ops.has_vbucket s) || active)
          (Streamed-of (heard now c) not_my_vbucket h)
          (if-both Streamed (has_live_stream (find_stream vb c.streams))
            (Streamed-of (record (heard now c) { opaque_counter = (c.opaque_counter + 1) % 2 ^ 64 })
              (other 2) h)
            (Streamed-of _ success (
              AllSound-insert o vb flags start range_start range_end uuid high s (heard now c) h))))

  pub AllSound-retire :
      (vb : ℕ) (p : Passive S) (c d : Consumer S)
      → AllSound c.streams
      → retire vb p c ≡ some d
      → AllSound d.streams
  unfolding retire
  AllSound-retire vb p c d h e = elim (Option-cases (set_dead p)) [
    | inl n ↦ absurd (ground (arith, e, n))
    | inr (r, n) ↦
        let erased = record c { streams = erase_stream vb c.streams } in
        let same : free_bytes r.1 erased ≡ d = ground (arith, e, n) in
        subst (λ (z : Consumer S). AllSound z.streams) same
          (subst AllSound (sym (streams-free_bytes r.1 erased)) (AllSound-erase vb c.streams h))
  ]

  Sound-store : (s : S) (p : Passive S) → Sound p → Sound (record p { store = s })
  unfolding Awake
  Sound-store s p h = record {
    handled = h.handled;
    taken = h.taken;
    waiting = h.waiting;
    bytes = h.bytes;
    items = h.items;
    live = h.live;
    awake = h.awake;
  }

  pub Streamed-close :
      (now o vb : ℕ) (c : Consumer S) (out : Consumer S × Code)
      → AllSound c.streams
      → close_stream now o vb c ≡ some out
      → AllSound out.0.streams
  unfolding close_stream heard Streamed
  Streamed-close now o vb c out h e = elim (Bool-cases c.disconnecting) [
    | inl b ↦
        let d = record (heard now c) { streams = erase_stream vb c.streams } in
        let same : (d, disconnect) ≡ out = ground (arith, e, b) in
        subst Streamed same (AllSound-erase vb c.streams h)
    | inr b ↦ elim (Option-cases (find_stream vb c.streams)) [
      | inl n ↦
          let d = record (heard now c) { opaque_map = erase_opaque o c.opaque_map } in
          let same : (d, key_enoent) ≡ out = ground (arith, e, b, n) in subst Streamed same h
      | inr (p, n) ↦
          let d = record (heard now c) { opaque_map = erase_opaque o c.opaque_map } in
          elim (Option-cases (retire vb p d)) [
            | inl r ↦ absurd (ground (arith, e, b, n, r))
            | inr (g, r) ↦
                let same : (g, success) ≡ out = ground (arith, e, b, n, r) in
                subst Streamed same (AllSound-retire vb p d g h r)
          ]
    ]
  ]

  AllSound-accept_for :
      (ops : Store S) (replace_log : S → S) (status o add vb : ℕ) (p : Passive S) (c d : Consumer S)
      → AllSound c.streams
      → Sound p
      → accept_for ops replace_log status o add vb p c ≡ some d
      → AllSound d.streams
  unfolding accept_for
  AllSound-accept_for ops replace_log status o add vb p c d h s e =
      let logged = if status == 0 then record p { store = replace_log p.store } else p in
      let sl : Sound logged =
        if-both Sound (status == 0) (Sound-store (replace_log p.store) p s) s in
      elim (Bool-cases ((p.stream_opaque == o) && is_pending p.state)) [
        | inr w ↦
            let same : c ≡ d = ground (arith, e, w) in
            subst (λ (z : Consumer S). AllSound z.streams) same h
        | inl w ↦ elim (Bool-cases ((status == 0) && not (ops.has_vbucket p.store))) [
          | inl g ↦ absurd (ground (arith, e, w, g))
          | inr g ↦ elim (Option-cases (accept_stream status add logged)) [
            | inl n ↦ absurd (ground (arith, e, w, g, n))
            | inr (q, n) ↦
                let same : record c { streams = put_stream vb q c.streams } ≡ d =
                  ground (arith, e, w, g, n) in
                subst (λ (z : Consumer S). AllSound z.streams) same
                  (AllSound-put vb q c.streams h (Sound-accept_stream status add logged q n sl))
          ]
        ]
      ]

  AllSound-accept_found :
      (ops : Store S) (replace_log : S → S) (status o add vb : ℕ) (c d : Consumer S)
      → AllSound c.streams
      → accept_found ops replace_log status o add vb c ≡ some d
      → AllSound d.streams
  unfolding accept_found
  AllSound-accept_found ops replace_log status o add vb c d h e =
      elim (Option-cases (find_stream vb c.streams)) [
        | inl n ↦
            let same : c ≡ d = ground (arith, e, n) in
            subst (λ (z : Consumer S). AllSound z.streams) same h
        | inr (p, n) ↦
            AllSound-accept_for ops replace_log status o add vb p c d h
              (Sound-find vb c.streams p h n) (ground (arith, e, n))
      ]

  pub AllSound-stream_accepted :
      (ops : Store S) (replace_log : S → S) (o status : ℕ) (c d : Consumer S)
      → AllSound c.streams
      → stream_accepted ops replace_log o status c ≡ some d
      → AllSound d.streams
  unfolding stream_accepted
  AllSound-stream_accepted ops replace_log o status c d h e =
      elim (Option-cases (find_opaque o c.opaque_map)) [
        | inl n ↦
            let same : c ≡ d = ground (arith, e, n) in
            subst (λ (z : Consumer S). AllSound z.streams) same h
        | inr ((add, vb), n) ↦
            elim (Option-cases (accept_found ops replace_log status o add vb c)) [
              | inl g ↦ absurd (ground (arith, e, n, g))
              | inr (r, g) ↦
                  let same : record r { opaque_map = erase_opaque o r.opaque_map } ≡ d =
                    ground (arith, e, n, g) in
                  subst (λ (z : Consumer S). AllSound z.streams) same
                    (AllSound-accept_found ops replace_log status o add vb c r h g)
            ]
      ]

  Sent : Consumer S × Option Response → Type 0
  Sent out = AllSound out.0.streams

  AllSound-next_of :
      (vb : ℕ) (rest : List ℕ) (p : Passive S) (c : Consumer S) (out : Consumer S × Option Response)
      → AllSound c.streams
      → Sound p
      → next_of vb rest p c ≡ some out
      → AllSound out.0.streams
  unfolding next_of Sent
  AllSound-next_of vb rest p c out h s e =
      let c' = record c { ready = rest; streams = put_stream vb (next p).0 c.streams } in
      let h' = AllSound-put vb (next p).0 c.streams h (Sound-next p s) in
      elim (Option-cases (next p).1) [
        | inl n ↦ let same : (c', none) ≡ out = ground (arith, e, n) in subst Sent same h'
        | inr (r, n) ↦ elim (Bool-cases (may_send r)) [
          | inr m ↦ absurd (ground (arith, e, n, m))
          | inl m ↦
              let same : (record c' { ready = rest ++ vb ∷ [] }, some r) ≡ out =
                ground (arith, e, n, m) in
              subst Sent same h'
        ]
      ]

  AllSound-next_ready :
      (ops : Store S) (vbs : List ℕ) (c : Consumer S) (out : Consumer S × Option Response)
      → AllSound c.streams
      → next_ready ops vbs c ≡ some out
      → AllSound out.0.streams
  unfolding next_ready Sent
  AllSound-next_ready ops [] c out h e = subst Sent (eq_of_some e) h
  AllSound-next_ready ops (vb ∷ rest) c out h e = elim (Option-cases (find_stream vb c.streams)) [
    | inl n ↦ AllSound-next_ready ops rest c out h (ground (arith, e, n))
    | inr (p, n) ↦ elim (Option-cases (next_of vb rest p c)) [
      | inl g ↦ absurd (ground (arith, e, n, g))
      | inr ((c', answer), g) ↦
          let h' = AllSound-next_of vb rest p c (c', answer) h (Sound-find vb c.streams p h n) g in
          elim (Option-cases answer) [
            | inl a ↦ AllSound-next_ready ops rest c' out h' (ground (arith, e, n, g, a))
            | inr (r, a) ↦
                let same : (c', some r) ≡ out = ground (arith, e, n, g, a) in subst Sent same h'
          ]
    ]
  ]

  pub AllSound-get_next_item :
      (ops : Store S) (c : Consumer S) (out : Consumer S × Option Response)
      → AllSound c.streams
      → get_next_item ops c ≡ some out
      → AllSound out.0.streams
  unfolding get_next_item
  AllSound-get_next_item ops c out h e =
      AllSound-next_ready ops c.ready (record c { paused = false }) out h e
