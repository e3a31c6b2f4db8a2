-- ===== src/FlowControl/Shares.antt =====
-- The aggressive policy of src/dcp/flow-control-manager.cc: the consumers have equal shares.
use mathlib.Core.Path.{subst}
use ep_engine.Base.{
  ℕ, suc, ◌+◌, ◌%◌, ◌^◌, ◌≤◌, ◌<◌, ◌≡◌, refl, sym, ◌∙◌, ap, inl, inr, true, false, [], ◌∷◌, arith,
  ◌==◌, if◌then◌else◌, length, Bool-cases,
}
use ep_engine.FlowControl.{FlowControl, new_flow_control, set_buf_size}
use ep_engine.FlowControl.Managers.{
  Limits, within_bounds, Consumers, resize_buffers, put_consumer, erase_consumer, has_cookie,
  aggressive_connect, aggressive_disconnect,
}
use ep_engine.FlowControl.Dynamic.{within_bounds-range}

-- Every consumer has a buffer of `size`.
abbrev pub AllSized : ℕ → Consumers → Type 0
AllSized size [] = Unit {0}
AllSized size ((k, f) ∷ r) = (f.buffer_size ≡ size) × AllSized size r

AllSized-resize : (size : ℕ) (cs : Consumers) → AllSized size (resize_buffers size cs)
unfolding resize_buffers set_buf_size
AllSized-resize size [] = tt
AllSized-resize size ((k, f) ∷ r) = (ground arith, AllSized-resize size r)

AllSized-put :
    (size cookie : ℕ) (f : FlowControl) (cs : Consumers)
    → f.buffer_size ≡ size
    → AllSized size cs
    → AllSized size (put_consumer cookie f cs)
unfolding put_consumer
AllSized-put size cookie f [] e h = (e, tt)
AllSized-put size cookie f ((k, g) ∷ r) e h = elim (Bool-cases (k == cookie)) [
  | inl w ↦ rw w (e, h.1)
  | inr w ↦ rw w (h.0, AllSized-put size cookie f r e h.1)
]

length-resize : (size : ℕ) (cs : Consumers) → length (resize_buffers size cs) ≡ length cs
unfolding resize_buffers
length-resize size [] = refl
length-resize size ((k, f) ∷ r) = ap suc (length-resize size r)

has_cookie-resize :
    (size cookie : ℕ) (cs : Consumers)
    → has_cookie cookie (resize_buffers size cs) ≡ has_cookie cookie cs
unfolding resize_buffers has_cookie
has_cookie-resize size cookie [] = refl
has_cookie-resize size cookie ((k, f) ∷ r) = ground (arith, has_cookie-resize size cookie r)

length-put :
    (cookie : ℕ) (f : FlowControl) (cs : Consumers)
    → has_cookie cookie cs ≡ false
    → length (put_consumer cookie f cs) ≡ length cs + 1
unfolding put_consumer has_cookie
length-put cookie f [] h = omega arith
length-put cookie f ((k, g) ∷ r) h = ground (arith, length-put cookie f r)

-- All the consumers have the same buffer, the share of the quota by their number, within the bounds.
abbrev pub IsShared : Limits → (ℕ → ℕ) → Consumers → Type 0
IsShared c share cs = AllSized (within_bounds c (share (length cs))) cs

connect-IsShared :
    (c : Limits) (share : ℕ → ℕ) (now cookie : ℕ) (cs : Consumers)
    → c.conn_buffer_size ≤ c.conn_buffer_size_max
    → c.conn_buffer_size_max < 2 ^ 32
    → has_cookie cookie cs ≡ false
    → IsShared c share (aggressive_connect c share now cookie cs)
unfolding aggressive_connect new_flow_control
connect-IsShared c share now cookie cs h i fresh =
    let size = within_bounds c (share (length cs + 1)) in
    let small : size % 2 ^ 32 ≡ size =
      omega (arith, within_bounds-range c (share (length cs + 1)) h) in
    subst (λ n. AllSized (within_bounds c (share n)) (aggressive_connect c share now cookie cs))
      (sym (
        length-put cookie (new_flow_control true now size) (resize_buffers (size % 2 ^ 32) cs)
          (has_cookie-resize (size % 2 ^ 32) cookie cs ∙ fresh)
        ∙ ap (λ n. n + 1) (length-resize (size % 2 ^ 32) cs)))
      (AllSized-put size cookie (new_flow_control true now size) (resize_buffers (size % 2 ^ 32) cs)
        small
        (subst (λ z. AllSized z (resize_buffers (size % 2 ^ 32) cs)) small
          (AllSized-resize (size % 2 ^ 32) cs)))

AllSized-nothing : (size : ℕ) (cs : Consumers) → length cs ≡ 0 → AllSized size cs
AllSized-nothing size [] h = tt
AllSized-nothing size ((k, f) ∷ r) h = absurd (omega arith)

disconnect-left :
    (c : Limits) (share : ℕ → ℕ) (cookie : ℕ) (cs : Consumers)
    → has_cookie cookie cs ≡ true
    → 0 < within_bounds c (share (length (erase_consumer cookie cs)))
    → aggressive_disconnect c share cookie cs ≡ (
        if length (erase_consumer cookie cs) == 0
        then erase_consumer cookie cs
        else resize_buffers
            (within_bounds c (share (length (erase_consumer cookie cs))) % 2 ^ 32)
            (erase_consumer cookie cs))
unfolding aggressive_disconnect
disconnect-left c share cookie cs h p = ground arith

disconnect-unknown :
    (c : Limits) (share : ℕ → ℕ) (cookie : ℕ) (cs : Consumers)
    → has_cookie cookie cs ≡ false
    → aggressive_disconnect c share cookie cs ≡ cs
unfolding aggressive_disconnect
disconnect-unknown c share cookie cs h = ground arith

resize-IsShared :
    (c : Limits) (share : ℕ → ℕ) (left : Consumers)
    → within_bounds c (share (length left)) % 2 ^ 32 ≡ within_bounds c (share (length left))
    → IsShared c share (
        if length left == 0
        then left
        else resize_buffers (within_bounds c (share (length left)) % 2 ^ 32) left)
resize-IsShared c share left small = elim (Bool-cases (length left == 0)) [
  | inl e ↦ rw e (AllSized-nothing (within_bounds c (share (length left))) left (ground arith))
  | inr e ↦
      let size = within_bounds c (share (length left)) in
      rw e (
        subst (λ n. AllSized (within_bounds c (share n)) (resize_buffers (size % 2 ^ 32) left))
          (sym (length-resize (size % 2 ^ 32) left))
          (subst (λ z. AllSized z (resize_buffers (size % 2 ^ 32) left)) small
            (AllSized-resize (size % 2 ^ 32) left)))
]

disconnect-IsShared :
    (c : Limits) (share : ℕ → ℕ) (cookie : ℕ) (cs : Consumers)
    → 0 < c.conn_buffer_size
    → c.conn_buffer_size ≤ c.conn_buffer_size_max
    → c.conn_buffer_size_max < 2 ^ 32
    → IsShared c share cs
    → IsShared c share (aggressive_disconnect c share cookie cs)
disconnect-IsShared c share cookie cs p h i s = elim (Bool-cases (has_cookie cookie cs)) [
  | inl e ↦
      let left = erase_consumer cookie cs in
      let range = within_bounds-range c (share (length left)) h in
      subst (IsShared c share) (sym (disconnect-left c share cookie cs e (omega (arith, range))))
        (resize-IsShared c share left (omega (arith, range)))
  | inr e ↦ subst (IsShared c share) (sym (disconnect-unknown c share cookie cs e)) s
]

-- The consumers that the aggressive policy may have: each connection has a cookie of its own.
pub data Connected (c : Limits) (share : ℕ → ℕ) : Consumers → Type 0 where
  nobody : Connected c share []
  connects :
      {cs : Consumers} (now cookie : ℕ)
      → Connected c share cs
      → has_cookie cookie cs ≡ false
      → Connected c share (aggressive_connect c share now cookie cs)
  disconnects :
      {cs : Consumers} (cookie : ℕ)
      → Connected c share cs
      → Connected c share (aggressive_disconnect c share cookie cs)

-- Under the aggressive policy, after any consumers have come and gone, all that are connected have a
-- buffer of the same size: the share of the quota by their number, however it is rounded, brought
-- within the configured bounds, if these are in order, positive and of 32 bits.
pub Connected-IsShared :
    (c : Limits) (share : ℕ → ℕ) (cs : Consumers)
    → 0 < c.conn_buffer_size
    → c.conn_buffer_size ≤ c.conn_buffer_size_max
    → c.conn_buffer_size_max < 2 ^ 32
    → Connected c share cs
    → IsShared c share cs
Connected-IsShared c share cs p h i nobody = tt
Connected-IsShared c share cs p h i (connects {cs = ds} now cookie r fresh) =
    connect-IsShared c share now cookie ds h i fresh
Connected-IsShared c share cs p h i (disconnects {cs = ds} cookie r) =
    disconnect-IsShared c share cookie ds p h i (Connected-IsShared c share ds p h i r)
