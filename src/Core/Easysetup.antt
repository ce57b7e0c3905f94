-- ===== src/Core/Easysetup.antt =====
-- iot_easysetup_init and iot_easysetup_deinit, in the variant that the build chooses: over HTTP
-- (src/easysetup/http/iot_easysetup_http.c) or over BLE (src/easysetup/ble/iot_easysetup_ble.c),
-- both without the log buffer of EASYSETUP_LOG_SUPPORT_NO_USE_LOGFILE.
use st_device_sdk_c.Prelude.{Bool, true, false, not, ◌==◌, if◌then◌else◌}
use st_device_sdk_c.Errors.{IotError, error_none}
use st_device_sdk_c.Core.Context.{prov_confirm, opt_none}
use st_device_sdk_c.Core.Monad.{
  Env, M, pure, ◌>>=◌, ◌>>◌, gets, modify, call, effect, ask, security_has_cipher_params,
  security_cipher_init, security_cipher_deinit, bsp_wifi_register_event_cb, bsp_wifi_clear_event_cb,
  es_http_init, es_http_deinit, bsp_ble_register_event_cb, es_ble_init, es_ble_deinit,
  bsp_ble_set_onboarding_completion, ble_setupcomplete_response, create_ble_advertise_packet,
  eventgroup_clear_resp, nv_set_wifi_prov_data,
}
use st_device_sdk_c.Core.Post.{send_state_update}

-- The build's choices: CONFIG_STDK_IOT_CORE_EASYSETUP_BLE and
-- CONFIG_STDK_IOT_CORE_EASYSETUP_DISCOVERY_SSID.
pub record Config : Type 0 where
  pub easysetup_ble : Bool
  pub discovery_ssid : Bool

-- IOT_ERROR_EASYSETUP_CIPHER_ERROR
abbrev pub easysetup_cipher_error : IotError
easysetup_cipher_error = 407

module _ (env : Env) where
  http_init : M IotError
  http_init = do
    err ← call env security_cipher_init
    if not (err == error_none)
        then pure easysetup_cipher_error
        else do effect env bsp_wifi_register_event_cb; effect env es_http_init; pure error_none

  ble_init : M IotError
  ble_init = do
    ready ← gets (λ c. c.es_ble_ready)
    if ready then pure error_none else do
      effect env bsp_ble_register_event_cb
      effect env es_ble_init
      modify (λ c. record c { es_ble_ready = true })
      pure error_none

  http_deinit : M (Unit {0})
  http_deinit = do
    effect env es_http_deinit
    effect env bsp_wifi_clear_event_cb
    effect env eventgroup_clear_resp
    effect env security_cipher_deinit

  -- What both ways through the BLE variant end with.
  ble_release : M (Unit {0})
  ble_release = do
    effect env eventgroup_clear_resp
    has_params ← ask env security_has_cipher_params
    if has_params then effect env security_cipher_deinit else pure tt

  set_onboarding : Bool → M (Unit {0})
  set_onboarding complete = do
    modify (λ c. record c { onboarding_complete = complete })
    effect env (bsp_ble_set_onboarding_completion complete)

  report_failure : M (Unit {0})
  report_failure = do _ ← send_state_update env prov_confirm opt_none; pure tt

  ble_deinit : M (Unit {0})
  unfolding ble_release set_onboarding report_failure
  ble_deinit = do
    ready ← gets (λ c. c.es_ble_ready)
    if not ready then (do effect env es_ble_deinit; set_onboarding false; ble_release) else do
      modify (λ c. record c { d2d_event_request = false })
      status ← gets (λ c. c.es_network_status)
      if status == error_none
          then (do set_onboarding true; effect env nv_set_wifi_prov_data)
          else pure tt
      effect env ble_setupcomplete_response
      later_status ← gets (λ c. c.es_network_status)
      if not (later_status == error_none) then report_failure else do
        complete ← gets (λ c. c.onboarding_complete)
        if complete then pure tt else effect env create_ble_advertise_packet
        ble_release

  unfoldable pub easysetup_init : Config → M IotError
  unfolding http_init ble_init
  easysetup_init cfg = if cfg.easysetup_ble then ble_init else http_init

  unfoldable pub easysetup_deinit : Config → M (Unit {0})
  unfolding http_deinit ble_deinit
  easysetup_deinit cfg = if cfg.easysetup_ble then ble_deinit else http_deinit
