-- ===== src/FlowControl/Tests.antt =====
-- Runs of the flow control, and the theorems at concrete connections.
use ep_engine.Base.{ℕ, ◌+◌, ◌/◌, ◌^◌, ◌<◌, ◌≡◌, refl, true, false, [], ◌∷◌, arith}
use ep_engine.FlowControl.{
  FlowControl, success, want_more, buffer_ack, handle_flow_ctl, incr_freed_bytes,
}
use ep_engine.FlowControl.Acks.{frees, handles, run, run-bytes}
use ep_engine.FlowControl.Managers.{Limits, has_cookie, aggressive_connect, aggressive_disconnect}
use ep_engine.FlowControl.Shares.{IsShared, nobody, connects, disconnects, Connected-IsShared}

abbrev connection : FlowControl
connection = record {
  enabled = true;
  pending_control = false;
  buffer_size = 1000;
  last_buffer_ack = 40;
  acked_bytes = 500;
  freed_bytes = 150;
}

ack_run : handle_flow_ctl success 42 (record connection { freed_bytes = 250 }) ≡ (
  record connection { freed_bytes = 0; acked_bytes = 750; last_buffer_ack = 42 },
  want_more,
  buffer_ack 250,
)
unfolding handle_flow_ctl
ack_run = refl

freed_small :
    connection.acked_bytes
      + connection.freed_bytes
      + (run (frees 100 ∷ handles success 42 ∷ frees 7 ∷ []) connection).1
    < 2 ^ 64
unfolding incr_freed_bytes handle_flow_ctl
freed_small = omega arith

run-bytes_example :
    let (g, freed, acked) = run (frees 100 ∷ handles success 42 ∷ frees 7 ∷ []) connection in
    (g.acked_bytes ≡ 500 + acked) × (g.acked_bytes + g.freed_bytes ≡ 500 + 150 + freed)
run-bytes_example = run-bytes (frees 100 ∷ handles success 42 ∷ frees 7 ∷ []) connection freed_small

abbrev limits : Limits
limits = record { conn_buffer_size = 100; conn_buffer_size_max = 500 }

abbrev shares : ℕ → ℕ
shares n = 900 / n

no_cookie : has_cookie 1 [] ≡ false
unfolding has_cookie
no_cookie = refl

other_cookie : has_cookie 2 (aggressive_connect limits shares 50 1 []) ≡ false
unfolding has_cookie aggressive_connect
other_cookie = refl

Connected-IsShared_example : IsShared limits shares (
    aggressive_disconnect limits shares 1
      (aggressive_connect limits shares 60 2 (aggressive_connect limits shares 50 1 [])))
Connected-IsShared_example =
    Connected-IsShared limits shares
      (aggressive_disconnect limits shares 1
        (aggressive_connect limits shares 60 2 (aggressive_connect limits shares 50 1 [])))
      (omega arith) (omega arith) (omega arith)
      (disconnects 1 (connects 60 2 (connects 50 1 nobody no_cookie) other_cookie))
