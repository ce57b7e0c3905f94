-- ===== src/Core/Update.antt =====
-- _do_state_updating (src/iot_main.c): the state machine of the core task.
pub mod Transition
pub mod Frame
pub mod Steps
use st_device_sdk_c.Prelude.{ℕ, Bool, true, false, not, ◌==◌, if◌then◌else◌, Option, none, some}
use st_device_sdk_c.Errors.{IotError, error_none, invalid_args}
use st_device_sdk_c.Core.Context.{
  IotState, initialized, prov_sleep, prov_enter, prov_confirm, prov_done, cloud_disconnected,
  cloud_connected, wifi_off, wifi_scan, wifi_softap, Context, Command, cloud_registering,
  cloud_connecting, status_idle, status_provisioning, status_connecting, stat_stay, stat_start,
  stat_done, easysetup_timeout_ms, registration_timeout_ms,
}
use st_device_sdk_c.Core.Monad.{
  Env, M, pure, ◌>>=◌, ◌>>◌, gets, modify, effect, ask, timer_create, publish_get_preferences,
  cap_call_init_cb,
}
use st_device_sdk_c.Core.Post.{command_send, report, is_mapped}
use st_device_sdk_c.Core.Easysetup.{Config}
use st_device_sdk_c.Core.Wifi.{wifi_ctrl_request, ble_ctrl_request}

-- How the `switch` on the current state is left: by a `return`, or by a `break` with `iot_err` and
-- `timeout_ms`.
pub data Outcome : Type 0 where
  returned : IotError → Outcome
  broke : IotError → ℕ → Outcome

module _ (env : Env) (cfg : Config) where
  -- The requests that both ways into PROV_ENTER make first.
  scan_and_softap : M Outcome → M Outcome
  scan_and_softap rest = do
    err ← wifi_ctrl_request env cfg wifi_scan
    if not (err == error_none)
        then pure (returned err)
        else if cfg.discovery_ssid
        then (do
          ap_err ← wifi_ctrl_request env cfg wifi_softap
          if not (ap_err == error_none) then pure (returned ap_err) else rest)
        else rest

  -- A failure of the BLE request leaves the `switch` by `break`.
  start_ble : M Outcome
  start_ble =
      if cfg.easysetup_ble
      then (do
        err ← ble_ctrl_request env cfg
        if not (err == error_none)
            then pure (broke err 0)
            else pure (broke error_none easysetup_timeout_ms))
      else pure (broke error_none easysetup_timeout_ms)

  send_and_break : Command → ℕ → M Outcome
  send_and_break cmd timeout_ms = do err ← command_send env cmd; pure (broke err timeout_ms)

  get_device_preference : M (Unit {0})
  get_device_preference = do
    connected ← gets (λ c. c.evt_mqttcli)
    if connected then effect env publish_get_preferences else pure tt

  leave : IotState → IotState → M Outcome
  unfolding scan_and_softap start_ble send_and_break get_device_preference
  leave initialized prov_enter = scan_and_softap start_ble
  leave initialized prov_done = send_and_break cloud_registering registration_timeout_ms
  leave initialized cloud_disconnected = send_and_break cloud_connecting 0
  leave prov_enter prov_confirm = pure (broke error_none 0)
  leave prov_enter prov_sleep = do err ← wifi_ctrl_request env cfg wifi_off; pure (broke err 0)
  leave prov_confirm prov_done = send_and_break cloud_registering registration_timeout_ms
  leave prov_done cloud_disconnected = send_and_break cloud_connecting 0
  leave prov_done prov_enter = scan_and_softap (pure (broke error_none easysetup_timeout_ms))
  leave prov_done prov_confirm = pure (broke error_none 0)
  leave cloud_disconnected cloud_connected = do get_device_preference; pure (broke error_none 0)
  leave cloud_disconnected prov_confirm = pure (broke error_none 0)
  leave cloud_connected cloud_disconnected = send_and_break cloud_connecting 0
  leave _ _ = pure (returned invalid_args)

  -- The old timer is deleted in either case; a new one may fail to be made.
  set_timer : ℕ → M (Unit {0})
  set_timer timeout_ms =
      if timeout_ms == 0 then modify (λ c. record c { state_timer = none }) else do
        made ← ask env (timer_create timeout_ms)
        modify (λ c. record c { state_timer = if made then some timeout_ms else none })

  report_if : ℕ → ℕ → M (Unit {0})
  report_if status level = do
    mapped ← gets (is_mapped env status)
    if mapped then report env status level else pure tt

  -- The user's callback is told the state entered; the code is what the handler returns.
  notify : IotState → IotError → M IotError
  unfolding report_if
  notify prov_sleep err = pure err
  notify prov_enter err = do report_if status_provisioning stat_start; pure err
  notify prov_confirm err = pure err
  notify prov_done err = do report_if status_provisioning stat_done; pure err
  notify cloud_disconnected err = do report_if status_idle stat_stay; pure err
  notify cloud_connected err = do
    effect env cap_call_init_cb
    report_if status_connecting stat_done
    pure err
  notify initialized err = pure invalid_args

  -- What follows the `switch`.
  enter : IotState → Outcome → M IotError
  unfolding set_timer notify
  enter new_state (returned err) = pure err
  enter new_state (broke err timeout_ms) = do
    set_timer timeout_ms
    modify (λ c. record c { curr_state = new_state })
    has_cb ← gets (λ c. c.status_cb)
    if has_cb then notify new_state err else pure err

  pub do_state_updating : IotState → M IotError
  do_state_updating new_state = do
    cur ← gets (λ c. c.curr_state)
    outcome ← leave cur new_state
    enter new_state outcome
