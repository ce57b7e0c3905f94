-- ===== src/Core/Update/Transition.antt =====
-- The transitions that the core task allows, and the timeout of the state entered.
use st_device_sdk_c.Prelude.{ℕ}
use st_device_sdk_c.Core.Context.{
  IotState, initialized, prov_sleep, prov_enter, prov_confirm, prov_done, cloud_disconnected,
  cloud_connected, easysetup_timeout_ms, registration_timeout_ms,
}

-- Nothing leaves PROV_SLEEP, and nothing enters INITIALIZED.
pub data Transition : IotState → IotState → Type 0 where
  start_setup : Transition initialized prov_enter
  start_registered : Transition initialized prov_done
  start_provisioned : Transition initialized cloud_disconnected
  confirm : Transition prov_enter prov_confirm
  fall_asleep : Transition prov_enter prov_sleep
  finish_setup : Transition prov_confirm prov_done
  registered : Transition prov_done cloud_disconnected
  retry_setup : Transition prov_done prov_enter
  confirm_again : Transition prov_done prov_confirm
  connected : Transition cloud_disconnected cloud_connected
  setup_again : Transition cloud_disconnected prov_confirm
  lost : Transition cloud_connected cloud_disconnected

-- 0 stands for no timeout.
abbrev pub state_timeout : IotState → ℕ
state_timeout prov_enter = easysetup_timeout_ms
state_timeout prov_done = registration_timeout_ms
state_timeout _ = 0
