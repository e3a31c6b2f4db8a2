-- ===== src/Stream/Passive/Effect.antt =====
-- The processing of any message of a consumer's stream (src/dcp/stream.cc).
use mathlib.Core.Path.{subst}
use ep_engine.Base.{
  ℕ, ◌≡◌, refl, sym, ap, ◌∙◌, ◌⊎◌, inl, inr, true, ◌∷◌, some, arith, Option-cases, if-both,
  eq_of_some,
}
use ep_engine.Stream.{State, dead, Mutation, mutation_size, set_vbucket_state_response}
use ep_engine.Stream.Order.{Mark, document, control, foreign}
use ep_engine.Stream.Passive.{
  Store, Passive, Message, mutation, marker, set_vbucket, stream_end, unknown, Code, success, size,
  send, enter, transition, is_dead, is_success,
}
use ep_engine.Stream.Passive.Process.{
  process, process_mutation, process_deletion, process_marker, process_set_vbucket, store_mutation,
  store_deletion, renew_cas,
}
use ep_engine.Stream.Passive.Frame.{
  is_live, Awake, Same, TakenOut, Same-send, Taken-process_mutation, Taken-process_deletion,
}

-- What the order of the messages reads.
unfoldable pub mark : Message → Mark
mark (mutation m) = document m.by_seqno
mark (marker _ _ _) = control
mark (set_vbucket _) = control
mark stream_end = control
mark (unknown _) = foreign

-- The message that an operation on a document returns.
Renewed : Mutation → Mutation → Type 0
Renewed m r = (mutation_size r ≡ mutation_size m) × (r.by_seqno ≡ m.by_seqno)

module _ {S : Type 0} where
  pub record Effect (m m' : Message) (ret : Code) (p q : Passive S) : Type 0 where
    pub same : Same p q
    pub stays_live : is_live p.state ≡ true → is_live q.state ≡ true
    pub stays_dead : is_dead p.state ≡ true → is_dead q.state ≡ true
    pub same_size : size m' ≡ size m
    pub same_mark : mark m' ≡ mark m
    pub took :
        (q.applied ≡ p.applied)
        ⊎ ((n : ℕ) × (mark m ≡ document n) × (q.applied ≡ n ∷ p.applied) × (is_success ret ≡ true))

  RenewedOut : Mutation → Passive S × Code × Mutation → Type 0
  RenewedOut m out = Renewed m out.2

  RenewedPair : Mutation → S × Mutation → Type 0
  RenewedPair m out = Renewed m out.1

  Renewed-process_mutation :
      (ops : Store S) (m : Mutation) (p : Passive S) → RenewedOut m (process_mutation ops m p)
  unfolding process_mutation store_mutation renew_cas RenewedOut RenewedPair Renewed mutation_size
  Renewed-process_mutation ops m p =
      if-both (RenewedOut m) (ops.has_vbucket p.store)
        (if-both (RenewedOut m) _ (refl, refl)
          (if-both (RenewedPair m) _ (refl, refl) (refl, refl)))
        (refl, refl)

  Renewed-process_deletion :
      (ops : Store S) (m : Mutation) (p : Passive S) → RenewedOut m (process_deletion ops m p)
  unfolding process_deletion store_deletion RenewedOut Renewed
  Renewed-process_deletion ops m p =
      if-both (RenewedOut m) (ops.has_vbucket p.store)
        (if-both (RenewedOut m) _ (refl, refl) (refl, refl)) (refl, refl)

  Effect-document :
      (m : Mutation) (p : Passive S) (out : Passive S × Code × Mutation)
      → TakenOut m.by_seqno p out
      → RenewedOut m out
      → Effect (mutation m) (mutation out.2) out.1 p out.0
  unfolding mark size TakenOut RenewedOut Renewed
  Effect-document m p out t r = record {
    same = t.same;
    stays_live = λ h. ap is_live t.same_state ∙ h;
    stays_dead = λ h. ap is_dead t.same_state ∙ h;
    same_size = r.0;
    same_mark = ap document r.1;
    took = elim t.taken [ inl e ↦ inl e | inr (e, h) ↦ inr (m.by_seqno, refl, e, h) ];
  }

  pub enter_lem :
      (new : State) (p q : Passive S) → enter new p ≡ some q → q ≡ record p { state = new }
  unfolding enter
  enter_lem new p q e = elim (Option-cases (transition p.state new)) [
    | inl h ↦ absurd (ground (arith, e, h))
    | inr (b, h) ↦ ground (arith, e, h)
  ]

  Effect-marker :
      (ops : Store S) (start stop flags : ℕ) (p : Passive S)
      → Effect
          (marker start stop flags)
          (marker start stop flags)
          success
          p
          (process_marker ops start stop flags p)
  unfolding process_marker Awake
  Effect-marker ops start stop flags p = record {
    same = record {
      same_messages = refl;
      same_bytes = refl;
      same_items = refl;
      same_last = refl;
      awake = λ a. a;
    };
    stays_live = λ h. h;
    stays_dead = λ h. h;
    same_size = refl;
    same_mark = refl;
    took = inl refl;
  }

  Effect-set_vbucket :
      (ops : Store S) (new : ℕ) (p : Passive S)
      → Effect (set_vbucket new) (set_vbucket new) success p (process_set_vbucket ops new p)
  unfolding process_set_vbucket send Awake
  Effect-set_vbucket ops new p =
      let start = record p { store = ops.set_vbucket_state new p.store } in
      let sent = Same-send (set_vbucket_state_response p.stream_opaque 0) start in
      record {
        same = record {
          same_messages = refl;
          same_bytes = refl;
          same_items = refl;
          same_last = refl;
          awake = λ a. sent.awake a;
        };
        stays_live = λ h. h;
        stays_dead = λ h. h;
        same_size = refl;
        same_mark = refl;
        took = inl refl;
      }

  Effect-end :
      (p q : Passive S) → q ≡ record p { state = dead } → Effect stream_end stream_end success p q
  unfolding Awake is_live is_dead
  Effect-end p q e = subst (Effect stream_end stream_end success p) (sym e) (record {
    same = record {
      same_messages = refl;
      same_bytes = refl;
      same_items = refl;
      same_last = refl;
      awake = λ a. a;
    };
    stays_live = λ _. refl;
    stays_dead = λ _. refl;
    same_size = refl;
    same_mark = refl;
    took = inl refl;
  })

  EffectOut : Message → Passive S → Passive S × Code × Message → Type 0
  EffectOut m p out = Effect m out.2 out.1 p out.0

  pub Effect-process :
      (ops : Store S) (m : Message) (p : Passive S) (out : Passive S × Code × Message)
      → process ops m p ≡ some out
      → Effect m out.2 out.1 p out.0
  unfolding process EffectOut TakenOut
  Effect-process ops (mutation m) p out e = subst (EffectOut (mutation m) p) (eq_of_some e) (
      Effect-document m p _
        (if-both (TakenOut m.by_seqno p) m.is_deleted (Taken-process_deletion ops m p)
          (Taken-process_mutation ops m p))
        (if-both (RenewedOut m) m.is_deleted (Renewed-process_deletion ops m p)
          (Renewed-process_mutation ops m p)))
  Effect-process ops (marker start stop flags) p out e =
      subst (EffectOut (marker start stop flags) p) (eq_of_some e)
        (Effect-marker ops start stop flags p)
  Effect-process ops (set_vbucket new) p out e =
      subst (EffectOut (set_vbucket new) p) (eq_of_some e) (Effect-set_vbucket ops new p)
  Effect-process ops stream_end p out e = elim (Option-cases (enter dead p)) [
    | inl h ↦ absurd (ground (arith, e, h))
    | inr (q, h) ↦
        let same : some (q, success, stream_end) ≡ some out = ground (arith, e, h) in
        subst (EffectOut stream_end p) (eq_of_some same) (Effect-end p q (enter_lem dead p q h))
  ]
  Effect-process ops (unknown n) p out e = absurd (ground (arith, e))
