-- ===== src/FlowControl/Managers.antt =====
-- src/dcp/flow-control-manager.cc: the policies that give the consumers of DCP connections their
-- flow control buffers. The products of doubles are functions here: `part` of the memory quota for one
-- buffer, `share n` for the quota's part by `n` connections, and `exceeds`, whether a sum is above the
-- threshold.
use ep_engine.Base.{
  ℕ, ◌+◌, ◌-◌, ◌%◌, ◌^◌, Bool, true, false, List, [], ◌∷◌, ltb, ◌==◌, if◌then◌else◌, length,
}
use ep_engine.FlowControl.{FlowControl, new_flow_control, set_buf_size}

-- `dcp_conn_buffer_size` and `dcp_conn_buffer_size_max`
pub record Limits : Type 0 where
  pub conn_buffer_size : ℕ
  pub conn_buffer_size_max : ℕ

-- `setBufSizeWithinBounds`
unfoldable pub within_bounds : Limits → ℕ → ℕ
within_bounds c size =
    if ltb size c.conn_buffer_size
    then c.conn_buffer_size
    else (if ltb c.conn_buffer_size_max size then c.conn_buffer_size_max else size)

-- `DcpFlowControlManagerStatic::newConsumerConn`
unfoldable pub static_new_consumer : Limits → ℕ
static_new_consumer c = c.conn_buffer_size

-- `DcpFlowControlManagerDynamic::newConsumerConn`, on the sum of the buffers: the sum afterwards, and
-- the size.
unfoldable pub dynamic_new_consumer : Limits → ℕ → (ℕ → Bool) → ℕ → ℕ × ℕ
unfolding within_bounds
dynamic_new_consumer c part exceeds sum =
    let size = within_bounds c part in
    let granted = if exceeds ((sum + size) % 2 ^ 64) then c.conn_buffer_size else size in
    ((sum + granted) % 2 ^ 64, granted)

-- `DcpFlowControlManagerDynamic::handleDisconnect` for a consumer with a buffer of `size`.
unfoldable pub dynamic_disconnect : ℕ → ℕ → ℕ
dynamic_disconnect size sum = (sum + 2 ^ 64 - size) % 2 ^ 64

-- `dcpConsumersMap`, the cookies with the flow control of their consumers.
abbrev pub Consumers : Type 0
Consumers = List (ℕ × FlowControl)

-- `resizeBuffers_UNLOCKED`
unfoldable pub resize_buffers : ℕ → Consumers → Consumers
resize_buffers size [] = []
resize_buffers size ((k, f) ∷ r) = (k, set_buf_size size f) ∷ resize_buffers size r

-- `dcpConsumersMap[cookie] = consumer`
unfoldable pub put_consumer : ℕ → FlowControl → Consumers → Consumers
put_consumer cookie f [] = (cookie, f) ∷ []
put_consumer cookie f ((k, g) ∷ r) =
    let rest = put_consumer cookie f r in if k == cookie then (k, f) ∷ r else (k, g) ∷ rest

unfoldable pub erase_consumer : ℕ → Consumers → Consumers
erase_consumer cookie [] = []
erase_consumer cookie ((k, g) ∷ r) =
    let rest = erase_consumer cookie r in if k == cookie then r else (k, g) ∷ rest

unfoldable pub has_cookie : ℕ → Consumers → Bool
has_cookie cookie [] = false
has_cookie cookie ((k, g) ∷ r) =
    let rest = has_cookie cookie r in if k == cookie then true else rest

-- `DcpFlowControlManagerAggressive::newConsumerConn`, called by the constructor of the consumer's
-- flow control, which takes the size.
unfoldable pub aggressive_connect : Limits → (ℕ → ℕ) → ℕ → ℕ → Consumers → Consumers
unfolding within_bounds resize_buffers put_consumer
aggressive_connect c share now cookie consumers =
    let size = within_bounds c (share (length consumers + 1)) in
    put_consumer cookie (new_flow_control true now size) (resize_buffers (size % 2 ^ 32) consumers)

-- `DcpFlowControlManagerAggressive::handleDisconnect`
unfoldable pub aggressive_disconnect : Limits → (ℕ → ℕ) → ℕ → Consumers → Consumers
unfolding within_bounds resize_buffers erase_consumer has_cookie
aggressive_disconnect c share cookie consumers =
    let left = erase_consumer cookie consumers in
    let size = within_bounds c (share (length left)) in
    if has_cookie cookie consumers
    then (if length left == 0
        then left
        else (if size == 0 then left else resize_buffers (size % 2 ^ 32) left))
    else consumers
