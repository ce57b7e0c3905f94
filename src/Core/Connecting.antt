-- ===== src/Core/Connecting.antt =====
-- IOT_COMMAND_CLOUD_CONNECTING in _do_iot_main_command (src/iot_main.c).
pub mod Retry
use st_device_sdk_c.Prelude.{
  ℕ, ◌+◌, ◌%◌, ◌^◌, Bool, true, false, not, ◌&&◌, ◌||◌, ◌==◌, if◌then◌else◌, some, none,
}
use st_device_sdk_c.Errors.{
  IotError, error_none, invalid_args, mqtt_reject_connect, mqtt_connect_fail, mqtt_connect_timeout,
  net_dns_fail, conn_dns_query_fail,
}
use st_device_sdk_c.Util.Backoff.{generator_backoff, asks_random}
use st_device_sdk_c.Core.Context.{
  Context, IotState, communication, wifi_station, cloud_disconnected, cloud_connected, opt_none,
  cloud_connecting, notification_received, dev_deleted,
}
use st_device_sdk_c.Core.Monad.{
  Env, M, pure, ◌>>=◌, ◌>>◌, gets, modify, call, effect, ask, timer_create, bsp_random, os_delay,
}
use st_device_sdk_c.Core.Post.{command_send, send_state_update}
use st_device_sdk_c.Core.Ecode.{
  set_st_ecode, ecode_none, ecode_ce01, ecode_ce20_1, ecode_ce20_2, ecode_ce20_3,
}
use st_device_sdk_c.Core.Easysetup.{Config, easysetup_deinit}
use st_device_sdk_c.Core.Wifi.{wifi_ctrl_request}
use st_device_sdk_c.Core.Connect.{connect, disconnect, client}
use st_device_sdk_c.Core.Registering.{con_timeout_check, set_network_status}

abbrev pub is_disconnected : IotState → Bool
is_disconnected cloud_disconnected = true
is_disconnected _ = false

-- The `maximum_backoff` of the retries, in seconds.
abbrev pub max_retry_s : ℕ
max_retry_s = 64

module _ (env : Env) where
  unfoldable pub arm_retry : M Bool
  arm_retry = do
    modify (λ c. record c { connection_retry_count = (c.connection_retry_count + 1) % 2 ^ 32 })
    count ← gets (λ c. c.connection_retry_count)
    random ← if asks_random count 1 max_retry_s then call env bsp_random else pure 0
    let wait = generator_backoff count max_retry_s random
    made ← ask env (timer_create wait)
    modify (λ c. record c { next_connection_retry_timer = if made then some wait else none })
    pure made

  unfoldable pub report_failure : IotError → M IotError
  report_failure err =
      if err == mqtt_connect_fail
      then set_st_ecode env ecode_ce20_1
      else if err == mqtt_connect_timeout
      then set_st_ecode env ecode_ce20_3
      else if err == net_dns_fail
      then (do set_network_status env conn_dns_query_fail; set_st_ecode env ecode_ce01)
      else set_st_ecode env ecode_ce20_2

  -- iot_es_connect failed, and the device is not to be deleted.
  unfoldable pub retry_connecting : IotError → M IotError
  retry_connecting err = do
    armed ← arm_retry
    if not armed then pure err else do set_network_status env err; _ ← report_failure err; pure err

  unfoldable pub connected : Config → M IotError
  connected cfg = do
    modify (λ c. record c { connection_retry_count = 0; next_connection_retry_timer = none })
    set_network_status env error_none
    _ ← set_st_ecode env ecode_none
    d2d ← gets (λ c. c.d2d_event_request)
    if cfg.easysetup_ble && d2d then easysetup_deinit env cfg else pure tt
    _ ← send_state_update env cloud_connected opt_none
    pure error_none

  -- What iot_es_connect answered.
  unfoldable pub after_connect : Config → IotError → M IotError
  after_connect cfg err =
      if err == mqtt_reject_connect || err == invalid_args
      then (do _ ← command_send env (notification_received (some dev_deleted)); pure err)
      else if not (err == error_none)
      then retry_connecting err
      else connected cfg

  unfoldable pub open_communication : Config → M IotError
  open_communication cfg = do
    previous ← gets (client communication)
    if previous then (do _ ← disconnect env communication; pure tt) else pure tt
    err ← connect env cfg communication
    after_connect cfg err

  -- `iot_command_send(ctx, IOT_COMMAND_CLOUD_CONNECTING, NULL, 0)`
  unfoldable pub again : M (Unit {0})
  again = do _ ← command_send env cloud_connecting; pure tt

  -- The state is CLOUD_DISCONNECTED.
  unfoldable pub try_connecting : Config → M IotError
  try_connecting cfg = do
    paused ← gets (λ c. c.cloud_connection_pause)
    if paused then (do again; effect env (os_delay 5000); pure error_none) else do
      station ← gets (λ c. c.is_wifi_station)
      err ← if station then pure error_none else wifi_ctrl_request env cfg wifi_station
      if not (err == error_none) then (do again; pure err) else open_communication cfg

  unfoldable pub handle_connecting : Config → M IotError
  handle_connecting cfg = do
    expired ← con_timeout_check env
    d2d ← gets (λ c. c.d2d_event_request)
    if expired && d2d then (do easysetup_deinit env cfg; again; pure error_none) else do
      state ← gets (λ c. c.curr_state)
      if not (is_disconnected state) then pure error_none else try_connecting cfg
