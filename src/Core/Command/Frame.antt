-- ===== src/Core/Command/Frame.antt =====
-- The fields of the context that the command handlers of src/iot_main.c touch.
use st_device_sdk_c.Errors.{IotError}
use st_device_sdk_c.Core.Context.{ConnectType, registration, communication}
use st_device_sdk_c.Core.Monad.{Env}
use st_device_sdk_c.Core.Monad.Keeps.{Keeps, keeps_rules}
use st_device_sdk_c.Core.Easysetup.{Config}
use st_device_sdk_c.Core.Update.Frame.{
  machine, wifi_rules, set_st_ecode-Keeps, wifi_ctrl_request-Keeps,
}
use st_device_sdk_c.Core.Connect.{disconnect}
use st_device_sdk_c.Core.Registering.{con_timeout_check, set_network_status, handle_registered}
use st_device_sdk_c.Core.Connecting.{report_failure}
use st_device_sdk_c.Core.Connect.{device_cleanup, disconnect_if_set}

module _ (env : Env) where
  pub disconnect-Keeps : (t : ConnectType) → Keeps machine (disconnect env t)
  unfolding disconnect
  disconnect-Keeps registration = search keeps_rules depth 12
  disconnect-Keeps communication = search keeps_rules depth 12

  pub set_network_status-Keeps : (e : IotError) → Keeps machine (set_network_status env e)
  unfolding set_network_status
  set_network_status-Keeps e = search keeps_rules depth 12

  pub con_timeout_check-Keeps : Keeps machine (con_timeout_check env)
  unfolding con_timeout_check
  con_timeout_check-Keeps = search keeps_rules depth 12

pub ruleset handler_rules = (
  wifi_rules, set_st_ecode-Keeps, wifi_ctrl_request-Keeps, disconnect-Keeps,
  set_network_status-Keeps, con_timeout_check-Keeps,
)

module _ (env : Env) (cfg : Config) where
  pub handle_registered-Keeps : Keeps machine (handle_registered env)
  unfolding handle_registered
  handle_registered-Keeps = search handler_rules depth 40

  pub report_failure-Keeps : (e : IotError) → Keeps machine (report_failure env e)
  unfolding report_failure
  report_failure-Keeps e = search handler_rules depth 20

  pub device_cleanup-Keeps : Keeps machine (device_cleanup env)
  unfolding device_cleanup disconnect_if_set
  device_cleanup-Keeps = search handler_rules depth 20
