-- ===== src/Consumer/Accounts.antt =====
-- What the operations of a consumer do with the bytes that it knows of (src/dcp/consumer.cc).
use mathlib.Core.Path.{subst}
use ep_engine.Base.{
  ℕ, ◌+◌, ◌^◌, ◌<◌, ◌≡◌, refl, sym, ◌⊎◌, inl, inr, Bool, true, false, List, [], ◌∷◌, Option, none,
  some, arith, ltb, ◌==◌, if◌then◌else◌, eq_of_some, if-cases,
}
use ep_engine.Stream.{mutation_size}
use ep_engine.Stream.Passive.{
  Store, Message, mutation, marker, set_vbucket, stream_end, Code, einval, disconnect, size,
}
use ep_engine.Consumer.{Consumer, find_stream, heard, receive}
use ep_engine.Consumer.Handlers.{
  document, meta_of, has_bad_meta, bytes_of, document_received, stream_end_received,
  snapshot_marker, set_vbucket_state, with_meta, matches,
}
use ep_engine.Consumer.Streams.{AllSound}
use ep_engine.Consumer.Bytes.{known, AllFit, Gains, Gains-receive}

-- The messages of a connection for a vbucket.
pub data Packet : Type 0 where
  document_packet :
      (is_deleted : Bool) (key value : List ℕ) (by_seqno cas : ℕ) (meta : List ℕ) → Packet
  end_packet : Packet
  marker_packet : (start_seqno end_seqno flags : ℕ) → Packet
  state_packet : (state : ℕ) → Packet

-- The bytes of a message on the wire.
unfoldable pub packet_bytes : Packet → ℕ
unfolding bytes_of
packet_bytes (document_packet deleted key value by_seqno cas meta) = bytes_of deleted key value meta
packet_bytes end_packet = 28
packet_bytes (marker_packet _ _ _) = 44
packet_bytes (state_packet _) = 25

-- A deletion has no value.
unfoldable pub IsPacket : Packet → Type 0
IsPacket (document_packet true key value by_seqno cas meta) = value ≡ []
IsPacket _ = Unit {0}

size-document :
    (deleted : Bool) (key value : List ℕ) (by_seqno cas : ℕ) (meta : List ℕ)
    → IsPacket (document_packet deleted key value by_seqno cas meta)
    → size (mutation (document deleted key value by_seqno cas meta))
      ≡ bytes_of deleted key value meta
unfolding size mutation_size document meta_of bytes_of IsPacket
size-document true key value by_seqno cas [] h =
    subst (λ v. size (mutation (document true key v by_seqno cas [])) ≡ bytes_of true key v [])
      (sym h) (omega arith)
size-document true key value by_seqno cas (b ∷ meta) h =
    subst
      (λ v.
        size (mutation (document true key v by_seqno cas (b ∷ meta)))
        ≡ bytes_of true key v (b ∷ meta))
      (sym h) (omega arith)
size-document false key value by_seqno cas [] h = omega arith
size-document false key value by_seqno cas (b ∷ meta) h = omega arith

end_size : size stream_end ≡ 28
unfolding size
end_size = refl

marker_size : (start stop flags : ℕ) → size (marker start stop flags) ≡ 44
unfolding size
marker_size start stop flags = refl

state_size : (state : ℕ) → size (set_vbucket state) ≡ 25
unfolding size
state_size state = refl

module _ {S : Type 0} where
  unfoldable pub handle :
      Store S → (now stream_opaque vb : ℕ) → Packet → Consumer S → Option (Consumer S × Code)
  unfolding document_received stream_end_received snapshot_marker set_vbucket_state
  handle ops now o vb (document_packet deleted key value by_seqno cas meta) c =
      document_received ops now o vb deleted key value by_seqno cas meta c
  handle ops now o vb end_packet c = stream_end_received ops now o vb c
  handle ops now o vb (marker_packet start stop flags) c =
      snapshot_marker ops now o vb start stop flags c
  handle ops now o vb (state_packet state) c = set_vbucket_state ops now o vb state c

  -- A message is accounted for, or refused before it is looked at.
  unfoldable pub Handled : Consumer S → ℕ → Consumer S × Code → Type 0
  Handled c n out = Gains c n out.0 ⊎ (Gains c 0 out.0 × ((out.1 ≡ disconnect) ⊎ (out.1 ≡ einval)))

  Gains-heard : (now : ℕ) (c : Consumer S) → AllSound c.streams → Gains c 0 (heard now c)
  unfolding heard known
  Gains-heard now c s = record { sound = s; gained = omega arith }

  Gains-known : (now n : ℕ) (c d : Consumer S) → Gains (heard now c) n d → Gains c n d
  unfolding heard known
  Gains-known now n c d g = record { sound = g.sound; gained = g.gained }

  Handled-receive :
      (ops : Store S) (now o vb : ℕ) (m : Message) (n : ℕ) (c : Consumer S)
      (out : Consumer S × Code)
      → size m ≡ n
      → AllSound c.streams
      → AllFit c.streams
      → known c + n < 2 ^ 64
      → receive ops n o vb m (heard now c) ≡ some out
      → Handled c n out
  unfolding Handled heard known AllFit
  Handled-receive ops now o vb m n c out h s all_fit fits e =
      let e' = subst (λ k. receive ops k o vb m (heard now c) ≡ some out) (sym h) e in
      let g = Gains-receive ops o vb m (heard now c) out s all_fit (omega arith) e' in
      inl (subst (λ k. Gains c k out.0) h (Gains-known now (size m) c out.0 g))

  Handled-refused :
      (now n : ℕ) (c : Consumer S) (code : Code) (out : Consumer S × Code)
      → AllSound c.streams
      → ((code ≡ disconnect) ⊎ (code ≡ einval))
      → (heard now c, code) ≡ out
      → Handled c n out
  unfolding Handled
  Handled-refused now n c code out s h e = subst (Handled c n) e (inr (Gains-heard now c s, h))

  Handled-guarded :
      (b : Bool) (now n : ℕ) (c : Consumer S) (code : Code) (o : Option (Consumer S × Code))
      (out : Consumer S × Code)
      → AllSound c.streams
      → ((code ≡ disconnect) ⊎ (code ≡ einval))
      → (o ≡ some out → Handled c n out)
      → (if b then some (heard now c, code) else o) ≡ some out
      → Handled c n out
  Handled-guarded true now n c code o out s h k e =
      Handled-refused now n c code out s h (eq_of_some e)
  Handled-guarded false now n c code o out s h k e = k e

  Handled-with_meta :
      (b : Option Bool) (now n : ℕ) (c : Consumer S) (o : Option (Consumer S × Code))
      (out : Consumer S × Code)
      → AllSound c.streams
      → (o ≡ some out → Handled c n out)
      → with_meta b (heard now c) o ≡ some out
      → Handled c n out
  unfolding with_meta
  Handled-with_meta none now n c o out s k e = absurd (ground (arith, e))
  Handled-with_meta (some true) now n c o out s k e =
      Handled-refused now n c einval out s (inr refl) (eq_of_some e)
  Handled-with_meta (some false) now n c o out s k e = k e

  Handled-document :
      (ops : Store S) (now o vb : ℕ) (deleted : Bool) (key value : List ℕ) (by_seqno cas : ℕ)
      (meta : List ℕ) (c : Consumer S) (out : Consumer S × Code)
      → IsPacket (document_packet deleted key value by_seqno cas meta)
      → AllSound c.streams
      → AllFit c.streams
      → known c + bytes_of deleted key value meta < 2 ^ 64
      → document_received ops now o vb deleted key value by_seqno cas meta c ≡ some out
      → Handled c (bytes_of deleted key value meta) out
  unfolding document_received
  Handled-document ops now o vb deleted key value by_seqno cas meta c out h s all_fit fits e =
      let m = mutation (document deleted key value by_seqno cas meta) in
      let n = bytes_of deleted key value meta in
      let received = receive ops n o vb m (heard now c) in
      let checked = with_meta (has_bad_meta meta) (heard now c) received in
      let on_received : received ≡ some out → Handled c n out =
        Handled-receive ops now o vb m n c out (size-document deleted key value by_seqno cas meta h)
          s all_fit fits in
      let found = matches o (find_stream vb (heard now c).streams) in
      let on_found : (if found then checked else received) ≡ some out → Handled c n out = λ r.
        if-cases (λ (z : Option (Consumer S × Code)). z ≡ some out → Handled c n out) found
          (λ _. Handled-with_meta (has_bad_meta meta) now n c received out s on_received)
          (λ _. on_received) r in
      Handled-guarded (heard now c).disconnecting now n c disconnect _ out s (inl refl)
        (Handled-guarded (by_seqno == 0) now n c einval _ out s (inr refl) on_found) e

  pub handle-Handled :
      (ops : Store S) (now o vb : ℕ) (packet : Packet) (c : Consumer S) (out : Consumer S × Code)
      → IsPacket packet
      → AllSound c.streams
      → AllFit c.streams
      → known c + packet_bytes packet < 2 ^ 64
      → handle ops now o vb packet c ≡ some out
      → Handled c (packet_bytes packet) out
  unfolding handle packet_bytes stream_end_received snapshot_marker set_vbucket_state
  handle-Handled ops now o vb (document_packet deleted key value by_seqno cas meta) c out h s
        all_fit fits e =
      Handled-document ops now o vb deleted key value by_seqno cas meta c out h s all_fit fits e
  handle-Handled ops now o vb end_packet c out h s all_fit fits e =
      Handled-guarded c.disconnecting now 28 c disconnect _ out s (inl refl)
        (Handled-receive ops now o vb stream_end 28 c out end_size s all_fit fits) e
  handle-Handled ops now o vb (marker_packet start stop flags) c out h s all_fit fits e =
      Handled-guarded c.disconnecting now 44 c disconnect _ out s (inl refl)
        (Handled-guarded (ltb stop start) now 44 c einval _ out s (inr refl) (
          Handled-receive ops now o vb (marker start stop flags) 44 c out
            (marker_size start stop flags) s all_fit fits))
        e
  handle-Handled ops now o vb (state_packet state) c out h s all_fit fits e =
      Handled-guarded c.disconnecting now 25 c disconnect _ out s (inl refl)
        (Handled-receive ops now o vb (set_vbucket state) 25 c out (state_size state) s all_fit
          fits)
        e
