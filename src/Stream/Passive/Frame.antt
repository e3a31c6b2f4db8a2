-- ===== src/Stream/Passive/Frame.antt =====
-- What the processing of a message leaves alone, and what it does to the sequence numbers that the store
-- has taken (src/dcp/stream.cc).
use ep_engine.Base.{ℕ, ◌≡◌, refl, ◌⊎◌, inl, inr, Bool, true, false, [], ◌∷◌, arith, if-both}
use ep_engine.Stream.{State, pending, reading, dead, Mutation, Response, notify}
use ep_engine.Stream.Passive.{Store, Passive, Code, send, is_success}
use ep_engine.Stream.Passive.Process.{
  process_mutation, process_deletion, store_mutation, store_deletion, finish, handle_snapshot_end,
  new_checkpoint, add_new, acknowledge_snapshot, out_of_snapshot,
}

-- The states of a consumer's stream.
unfoldable pub is_live : State → Bool
is_live pending = true
is_live reading = true
is_live dead = true
is_live _ = false

module _ {S : Type 0} where
  -- The connection has been told of the messages that wait to be sent.
  unfoldable pub Awake : Passive S → Type 0
  Awake p = p.ready.items_ready ≡ false → p.ready.queue ≡ []

  -- The buffer and the last sequence number are as they were.
  pub record Same (p q : Passive S) : Type 0 where
    pub same_messages : q.messages ≡ p.messages
    pub same_bytes : q.buffer_bytes ≡ p.buffer_bytes
    pub same_items : q.buffer_items ≡ p.buffer_items
    pub same_last : q.last_seqno ≡ p.last_seqno
    pub awake : Awake p → Awake q

  -- The processing of a document's message.
  pub record Taken (by_seqno : ℕ) (ret : Code) (p q : Passive S) : Type 0 where
    pub same : Same p q
    pub same_state : q.state ≡ p.state
    pub taken :
        (q.applied ≡ p.applied) ⊎ ((q.applied ≡ by_seqno ∷ p.applied) × (is_success ret ≡ true))

  pub Same-send : (r : Response) (p : Passive S) → Same p (send r p)
  unfolding send notify Awake
  Same-send r p = record {
    same_messages = refl;
    same_bytes = refl;
    same_items = refl;
    same_last = refl;
    awake = λ _ h. ground arith;
  }

  Same-handle_snapshot_end :
      (ops : Store S) (n : ℕ) (p : Passive S) → Same p (handle_snapshot_end ops n p)
  unfolding handle_snapshot_end new_checkpoint add_new acknowledge_snapshot send notify Awake
  Same-handle_snapshot_end ops n p = record {
    same_messages = ground arith;
    same_bytes = ground arith;
    same_items = ground arith;
    same_last = ground arith;
    awake = λ a h. ground (arith, a, h);
  }

  state-handle_snapshot_end :
      (ops : Store S) (n : ℕ) (p : Passive S) → (handle_snapshot_end ops n p).state ≡ p.state
  unfolding handle_snapshot_end new_checkpoint add_new acknowledge_snapshot send
  state-handle_snapshot_end ops n p = ground arith

  applied-handle_snapshot_end :
      (ops : Store S) (n : ℕ) (p : Passive S) → (handle_snapshot_end ops n p).applied ≡ p.applied
  unfolding handle_snapshot_end new_checkpoint add_new acknowledge_snapshot send
  applied-handle_snapshot_end ops n p = ground arith

  Taken-self : (n : ℕ) (c : Code) (s : S) (p : Passive S) → Taken n c p (record p { store = s })
  unfolding Awake
  Taken-self n c s p = record {
    same = record {
      same_messages = refl;
      same_bytes = refl;
      same_items = refl;
      same_last = refl;
      awake = λ a. a;
    };
    same_state = refl;
    taken = inl refl;
  }

  Taken-finish :
      (ops : Store S) (n : ℕ) (c : Code) (took : Bool)
      → is_success c ≡ took
      → (s : S) (p : Passive S) → Taken n c p (finish ops n took (record p { store = s }))
  unfolding finish Awake
  Taken-finish ops n c false h s p = Taken-self n c s p
  Taken-finish ops n c true h s p =
      let start = record p { store = s; applied = n ∷ p.applied } in
      let kept = Same-handle_snapshot_end ops n start in
      record {
        same = record {
          same_messages = kept.same_messages;
          same_bytes = kept.same_bytes;
          same_items = kept.same_items;
          same_last = kept.same_last;
          awake = λ a. kept.awake a;
        };
        same_state = state-handle_snapshot_end ops n start;
        taken = inr (applied-handle_snapshot_end ops n start, h);
      }

  -- What is proved of the stream that an operation on a document returns.
  unfoldable pub TakenOut : ℕ → Passive S → Passive S × Code × Mutation → Type 0
  TakenOut n p out = Taken n out.1 p out.0

  pub Taken-process_mutation :
      (ops : Store S) (m : Mutation) (p : Passive S)
      → TakenOut m.by_seqno p (process_mutation ops m p)
  unfolding process_mutation store_mutation TakenOut
  Taken-process_mutation ops m p =
      if-both (TakenOut m.by_seqno p) (ops.has_vbucket p.store)
        (if-both (TakenOut m.by_seqno p) (out_of_snapshot m p) (Taken-self m.by_seqno _ p.store p)
          (Taken-finish ops m.by_seqno _ _ refl _ p))
        (Taken-self m.by_seqno _ p.store p)

  pub Taken-process_deletion :
      (ops : Store S) (m : Mutation) (p : Passive S)
      → TakenOut m.by_seqno p (process_deletion ops m p)
  unfolding process_deletion store_deletion TakenOut
  Taken-process_deletion ops m p =
      if-both (TakenOut m.by_seqno p) (ops.has_vbucket p.store)
        (if-both (TakenOut m.by_seqno p) (out_of_snapshot m p) (Taken-self m.by_seqno _ p.store p)
          (Taken-finish ops m.by_seqno _ _ refl _ p))
        (Taken-self m.by_seqno _ p.store p)
