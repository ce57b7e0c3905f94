-- ===== src/Core/Boot.antt =====
-- The first state of the device: _check_prov_data_validation, _unlikely_with_stored_dip,
-- _prepare_self_reged and _check_prov_status (src/iot_main.c). What the storage holds is an argument.
pub mod Status
use st_device_sdk_c.Prelude.{
  ℕ, ◌+◌, Bool, true, false, not, ◌&&◌, ◌||◌, ◌==◌, if◌then◌else◌, List, [], ◌∷◌, get_or, take,
  Option, none, some, all_below,
}
use st_device_sdk_c.Prelude.Int.{is_negative}
use st_device_sdk_c.Errors.{IotError, error_none, invalid_args, mem_alloc}
use st_device_sdk_c.Util.Uuid.{convert_uuid_str}
use st_device_sdk_c.Core.Context.{
  IotState, prov_enter, prov_done, cloud_disconnected, opt_none, WifiProv, CloudProv, Dip, Context,
  RegData,
}
use st_device_sdk_c.Core.Monad.{
  Env, M, pure, ◌>>=◌, ◌>>◌, gets, modify, effect, ask, malloc, nv_erase_device_id,
  bsp_ble_set_onboarding_completion,
}
use st_device_sdk_c.Core.Post.{send_state_update}
use st_device_sdk_c.Core.Easysetup.{Config}

-- What iot_nv_get_prov_data, iot_nv_get_device_id and iot_misc_info_load answer, with the data that
-- they leave, and the code of iot_get_random_id_str.
pub record Stored : Type 0 where
  pub prov : IotError × WifiProv × CloudProv
  pub device_id : IotError × List ℕ
  pub dip : IotError × Dip
  pub location : IotError × List ℕ
  pub random_id : IotError

abbrev pub check_prov_data_validation : WifiProv → CloudProv → IotError
check_prov_data_validation wifi cloud = elim wifi.ssid [
  | [] ↦ invalid_args
  | c ∷ cs ↦ elim cloud.broker_url [
    | none ↦ invalid_args
    | some url ↦ if is_negative cloud.broker_port then invalid_args else error_none
  ]
]

-- IOT_UUID_BYTES, IOT_REG_UUID_STR_LEN
abbrev pub uuid_bytes : ℕ
uuid_bytes = 16

abbrev pub uuid_str_len : ℕ
uuid_str_len = 36

abbrev pub same_bytes : List ℕ → List ℕ → Bool
same_bytes xs ys = all_below uuid_bytes (λ i. get_or xs i 0 == get_or ys i 0)

-- _unlikely_with_stored_dip, where the context has a profile; without one nothing differs.
abbrev pub is_diff_dip : Stored → Option Dip → Bool
is_diff_dip stored none = false
is_diff_dip stored (some chk) =
    let (err, old) = stored.dip in
    not (err == error_none)
    || (not (same_bytes chk.dip_id old.dip_id)
        || (not (chk.dip_major_version == old.dip_major_version)
            || not (chk.dip_minor_version == old.dip_minor_version)))

module _ (env : Env) (cfg : Config) (stored : Stored) where
  store_location : M IotError
  store_location = do
    room ← ask env malloc
    if not room then pure mem_alloc else do
      let (err, text) = convert_uuid_str (some stored.location.1) true (uuid_str_len + 1)
      if not (err == error_none) then pure err else do
        modify (λ c. record c { lookup_id = true; cloud = record c.cloud { location = true } })
        pure error_none

  unfoldable pub prepare_self_reged : M IotError
  unfolding store_location
  prepare_self_reged = do
    room ← ask env malloc
    if not room
        then pure mem_alloc
        else if not (stored.random_id == error_none)
        then pure stored.random_id
        else if not (stored.location.0 == error_none)
        then pure stored.location.0
        else store_location

  -- No registration is stored.
  unregistered : M IotState
  unregistered = do
    modify (λ c. record c {
      iot_reg_data = record c.iot_reg_data { new_reged = true };
      onboarding_complete = false;
    })
    pure prov_enter

  unprovisioned : M IotState
  unfolding unregistered
  unprovisioned = do effect env nv_erase_device_id; unregistered

  self_register : M Bool
  self_register = do
    dip ← gets (λ c. c.devconf_dip)
    if is_diff_dip stored dip
        then (do err ← prepare_self_reged; pure (err == error_none))
        else pure false

  -- All data are stored; self registration follows where the device's profile has changed.
  registered_state : M IotState
  unfolding self_register
  registered_state = do
    modify (λ c. record c {
      iot_reg_data = record c.iot_reg_data { device_id = take uuid_str_len stored.device_id.1 };
    })
    again ← self_register
    modify (λ c. record c {
      iot_reg_data =
          if again
          then record c.iot_reg_data { self_reged = true }
          else record c.iot_reg_data { updated = true };
      onboarding_complete = true;
    })
    if cfg.easysetup_ble then effect env (bsp_ble_set_onboarding_completion true) else pure tt
    pure (if again then prov_done else cloud_disconnected)

  unfoldable pub next_state : M IotState
  unfolding unprovisioned unregistered registered_state
  next_state = do
    modify (λ c. record c {
      iot_reg_data = record c.iot_reg_data { new_reged = false };
      wifi = stored.prov.1;
      cloud = stored.prov.2;
    })
    if not (stored.prov.0 == error_none)
        then unprovisioned
        else if not (check_prov_data_validation stored.prov.1 stored.prov.2 == error_none)
        then unprovisioned
        else if not (stored.device_id.0 == error_none)
        then unregistered
        else registered_state

  pub check_prov_status : Bool → M IotError
  check_prov_status cmd_only = do
    next ← next_state
    if cmd_only then pure error_none else send_state_update env next opt_none
