-- ===== src/Core/Update/Frame.antt =====
-- The fields of the context that the requests of a state update (src/iot_main.c, src/iot_api.c) touch.
use st_device_sdk_c.Prelude.{ℕ, Option}
use st_device_sdk_c.Errors.{IotError}
use st_device_sdk_c.Core.Context.{
  IotState, StateOpt, Context, WifiMode, wifi_off, wifi_scan, wifi_station, wifi_softap, wifi_p2p,
}
use st_device_sdk_c.Core.Monad.{Env}
use st_device_sdk_c.Core.Monad.Keeps.{Keeps, keeps_rules}
use st_device_sdk_c.Core.Easysetup.{Config, easysetup_init, easysetup_deinit}
use st_device_sdk_c.Core.Post.{report, send_state_update}
use st_device_sdk_c.Core.Post.Frame.{command_send-Keeps}
use st_device_sdk_c.Core.Ecode.{set_st_ecode, set_st_ecode_from_conn_error}
use st_device_sdk_c.Core.Wifi.{wifi_ctrl_request}

-- The state, its timer, and the timer of the next retry to connect.
abbrev pub machine : Context → IotState × Option ℕ × Option ℕ
machine c = (c.curr_state, c.state_timer, c.next_connection_retry_timer)

pub report-Keeps : (env : Env) (s l : ℕ) → Keeps machine (report env s l)
unfolding report
report-Keeps env s l = search keeps_rules depth 12

pub send_state_update-Keeps :
    (env : Env) (s : IotState) (o : StateOpt) → Keeps machine (send_state_update env s o)
unfolding send_state_update
send_state_update-Keeps env s o = search (keeps_rules, report-Keeps, command_send-Keeps) depth 12

pub ruleset frame_rules = (keeps_rules, report-Keeps, command_send-Keeps, send_state_update-Keeps)

pub easysetup_init-Keeps : (env : Env) (cfg : Config) → Keeps machine (easysetup_init env cfg)
unfolding easysetup_init
easysetup_init-Keeps env cfg = search frame_rules depth 16

pub easysetup_deinit-Keeps : (env : Env) (cfg : Config) → Keeps machine (easysetup_deinit env cfg)
unfolding easysetup_deinit
easysetup_deinit-Keeps env cfg = search frame_rules depth 24

pub set_st_ecode-Keeps : (env : Env) (n : ℕ) → Keeps machine (set_st_ecode env n)
unfolding set_st_ecode
set_st_ecode-Keeps env n = search keeps_rules depth 12

pub set_st_ecode_from_conn_error-Keeps :
    (env : Env) (e : IotError) → Keeps machine (set_st_ecode_from_conn_error env e)
unfolding set_st_ecode_from_conn_error
set_st_ecode_from_conn_error-Keeps env e = search (keeps_rules, set_st_ecode-Keeps) depth 24

pub ruleset wifi_rules =
    (frame_rules, easysetup_init-Keeps, easysetup_deinit-Keeps, set_st_ecode_from_conn_error-Keeps)

pub wifi_ctrl_request-Keeps :
    (env : Env) (cfg : Config) (mode : WifiMode) → Keeps machine (wifi_ctrl_request env cfg mode)
unfolding wifi_ctrl_request
wifi_ctrl_request-Keeps env cfg wifi_off = search wifi_rules depth 24
wifi_ctrl_request-Keeps env cfg wifi_station = search wifi_rules depth 24
wifi_ctrl_request-Keeps env cfg wifi_softap = search wifi_rules depth 24
wifi_ctrl_request-Keeps env cfg wifi_scan = search wifi_rules depth 24
wifi_ctrl_request-Keeps env cfg wifi_p2p = search wifi_rules depth 24
