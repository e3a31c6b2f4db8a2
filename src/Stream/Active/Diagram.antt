-- ===== src/Stream/Active/Diagram.antt =====
-- The diagram of the states of a producer's stream, and the ends of its queue (src/dcp/stream.cc).
use ep_engine.Base.{◌≡◌, refl, Bool, true, false, not, ◌&&◌, List, [], ◌∷◌, ◌++◌, arith}
use ep_engine.Stream.{State, reading, dead, Response, stream_end_response, mutation_response}
use ep_engine.Stream.Order.{Mark, document, control}
use ep_engine.Stream.Active.{is_valid_transition}

-- The valid transitions, one after another.
pub data Route : State → State → Type 0 where
  stay : {s : State} → Route s s
  move : {s t u : State} → is_valid_transition s t ≡ true → Route t u → Route s u

pub Route-trans : {s t u : State} → Route s t → Route t u → Route s u
Route-trans stay q = q
Route-trans (move h p) q = move h (Route-trans p q)

-- No route leads out of the dead state, and none into that of a consumer.
pub Route-dead : {s : State} → Route dead s → s ≡ dead
unfolding is_valid_transition
Route-dead stay = refl
Route-dead (move h p) = absurd (ground arith)

unfoldable pub is_reading : State → Bool
is_reading reading = true
is_reading _ = false

pub Route-reading : {s t : State} → Route s t → is_reading s ≡ false → is_reading t ≡ false
unfolding is_valid_transition is_reading
Route-reading stay r = r
Route-reading (move {s = s} {t = t} h p) r = Route-reading p (ground arith)

unfoldable pub is_end : Response → Bool
is_end (stream_end_response _ _) = true
is_end _ = false

unfoldable pub mark : Response → Mark
mark (mutation_response m) = document m.by_seqno
mark _ = control

-- No message ends the stream; none but the last one does.
unfoldable pub no_end : List Response → Bool
no_end [] = true
no_end (r ∷ rs) = not (is_end r) && no_end rs

unfoldable pub ends_last : List Response → Bool
ends_last [] = true
ends_last (r ∷ []) = true
ends_last (r ∷ s ∷ rs) = not (is_end r) && ends_last (s ∷ rs)

pub no_end-append :
    (rs : List Response) (r : Response)
    → no_end rs ≡ true
    → is_end r ≡ false
    → no_end (rs ++ r ∷ []) ≡ true
unfolding no_end
no_end-append [] r h e = ground arith
no_end-append (x ∷ rs) r h e = let rest = no_end-append rs r (ground arith) e in ground arith

pub ends_last-append :
    (rs : List Response) (r : Response) → no_end rs ≡ true → ends_last (rs ++ r ∷ []) ≡ true
unfolding no_end ends_last
ends_last-append [] r h = refl
ends_last-append (x ∷ []) r h = ground arith
ends_last-append (x ∷ y ∷ rs) r h =
    let rest = ends_last-append (y ∷ rs) r (ground arith) in ground arith

pub ends_last-no_end : (rs : List Response) → no_end rs ≡ true → ends_last rs ≡ true
unfolding no_end ends_last
ends_last-no_end [] h = refl
ends_last-no_end (x ∷ []) h = refl
ends_last-no_end (x ∷ y ∷ rs) h =
    let rest = ends_last-no_end (y ∷ rs) (ground arith) in ground arith

pub ends_last-tail :
    (r : Response) (rs : List Response) → ends_last (r ∷ rs) ≡ true → ends_last rs ≡ true
unfolding ends_last
ends_last-tail r [] h = refl
ends_last-tail r (x ∷ rs) h = ground arith
