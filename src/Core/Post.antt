-- ===== src/Core/Post.antt =====
-- iot_command_send, iot_put_device_work (src/iot_main.c) and iot_state_update (src/iot_api.c):
-- a command goes to the end of the work queue if memory and the queue's lock allow.
pub mod Frame
use st_device_sdk_c.Prelude.{
  ℕ, ◌*◌, Bool, true, false, ◌&&◌, not, ◌==◌, if◌then◌else◌, some, none, bit_and, bit_or,
}
use st_device_sdk_c.Errors.{IotError, error_none, mem_alloc, timeout}
use st_device_sdk_c.Core.Context.{
  IotState, prov_confirm, StateOpt, opt_need_interact, Command, state_update, notification_received,
  Context, status_need_interact, stat_stay, ovf_bit_button,
}
use st_device_sdk_c.Core.Monad.{
  Env, M, pure, ◌>>=◌, ◌>>◌, gets, modify, post, effect, ask, malloc, mutex_lock, call_status_cb,
}

-- Has the command a parameter, which is copied to memory of its own?
abbrev has_param : Command → Bool
has_param (state_update s o) = true
has_param (notification_received (some n)) = true
has_param _ = false

module _ (env : Env) where
  -- iot_util_queue_send on the work queue: the node, its item, the lock (`Util.Queue.Spec.send`).
  unfoldable pub put_device_work : Command → M IotError
  put_device_work cmd = do
    node ← ask env malloc
    if not node then pure mem_alloc else do
      item ← ask env malloc
      if not item then pure mem_alloc else do
        locked ← ask env mutex_lock
        if not locked then pure timeout else do post cmd; pure error_none

  unfoldable pub command_send : Command → M IotError
  command_send cmd = do
    cmd_data ← ask env malloc
    if not cmd_data
        then pure mem_alloc
        else if has_param cmd
        then (do param ← ask env malloc; if not param then pure mem_alloc else put_device_work cmd)
        else put_device_work cmd

  -- `ctx->status_cb(status, level, …)` and `ctx->reported_stat = status | level << 8`
  unfoldable pub report : ℕ → ℕ → M (Unit {0})
  report status level = do
    effect env (call_status_cb status level)
    modify (λ c. record c { reported_stat = bit_or status (level * 256) })

  -- `ctx->status_maps & status`
  abbrev pub is_mapped : ℕ → Context → Bool
  is_mapped status c = not (bit_and c.status_maps status == 0)

  abbrev pub asks_interact : IotState → StateOpt → Bool
  asks_interact prov_confirm opt_need_interact = true
  asks_interact _ _ = false

  unfoldable pub send_state_update : IotState → StateOpt → M IotError
  send_state_update new_state opt = do
    reports ← gets (λ c.
        asks_interact new_state opt
        && (is_mapped status_need_interact c && c.curr_otm_feature == ovf_bit_button))
    if reports then report status_need_interact stat_stay else pure tt
    command_send (state_update new_state opt)
