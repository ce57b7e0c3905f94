-- ===== src/Server/Client.antt =====
-- The MQTT client of a connection: _iot_es_mqtt_connect and _iot_es_mqtt_registration
-- (src/easysetup/iot_easysetup_st_mqtt.c).
use st_device_sdk_c.Prelude.{
  ℕ, ◌+◌, ◌%◌, ◌^◌, Bool, true, false, not, ◌||◌, ltb, ◌==◌, if◌then◌else◌, Option, none, some,
}
use st_device_sdk_c.Prelude.Options.{is_none}
use st_device_sdk_c.Errors.{
  IotError, error_none, bad_req, invalid_args, mem_alloc, mqtt_connect_fail, mqtt_server_unavail,
  mqtt_reject_connect, mqtt_connect_timeout,
}
use st_device_sdk_c.Core.Context.{Dip}
use st_device_sdk_c.Core.Monad.{
  Env, M, pure, ◌>>=◌, ◌>>◌, gets, modify, call, ask, malloc, get_random_id_str, nv_get_root_cert,
  mqtt_connect, registration_payload, mqtt_publish_registration,
}
use st_device_sdk_c.Core.Easysetup.{Config}
use st_device_sdk_c.Core.Connect.{cleanup}
use st_device_sdk_c.Util.Uuid.{convert_uuid_str}

-- IOT_MQTT_CONNECT_CRITICAL_REJECT_MAX
abbrev pub critical_reject_max : ℕ
critical_reject_max = 3

-- What st_mqtt_connect returns, without the sign: the client's id, name or password is refused.
abbrev pub is_critical : ℕ → Bool
is_critical ret = ret == 6 || (ret == 7 || ret == 8)

module _ (env : Env) (cfg : Config) where
  abbrev set_rejects : ℕ → M (Unit {0})
  set_rejects n = modify (λ c. record c { mqtt_connect_critical_reject_count = n })

  -- A rejection of the device itself: after three, all its data goes, and it starts again.
  unfoldable pub rejected : M IotError
  rejected = do
    count ← gets (λ c. c.mqtt_connect_critical_reject_count)
    set_rejects ((count + 1) % 2 ^ 32)
    if ltb count critical_reject_max
        then pure mqtt_connect_fail
        else do _ ← cleanup env cfg true; pure mqtt_reject_connect

  -- The answer of st_mqtt_connect.
  unfoldable pub connect_result : ℕ → M IotError
  connect_result ret = if is_critical ret then rejected else do
    set_rejects 0
    pure (
        if ret == 0
        then error_none
        else if ret == 4 || ret == 5
        then mqtt_server_unavail
        else if ret == 10
        then mqtt_connect_timeout
        else mqtt_connect_fail)

  -- _iot_es_mqtt_connect
  unfoldable pub connect_client : M IotError
  connect_client = do
    err ← call env get_random_id_str
    if not (err == error_none) then pure err else do
      no_url ← gets (λ c. is_none c.cloud.broker_url)
      if no_url then pure invalid_args else do
        cert_err ← call env nv_get_root_cert
        if not (cert_err == error_none)
            then pure cert_err
            else do ret ← call env mqtt_connect; connect_result ret

  -- The id of the device integration profile as a text, if there is one.
  abbrev dip_text_ok : Option Dip → Bool
  dip_text_ok none = true
  dip_text_ok (some dip) = (convert_uuid_str (some dip.dip_id) true 40).0 == error_none

  unfoldable pub publish_registration : M IotError
  publish_registration = do
    made ← ask env registration_payload
    if not made then pure mem_alloc else do
      ret ← call env mqtt_publish_registration
      pure (if ret == 0 then error_none else bad_req)

  -- _iot_es_mqtt_registration
  unfoldable pub register : M IotError
  register = do
    modify (λ c. record c { iot_reg_data = record c.iot_reg_data { updated = false } })
    dip ← gets (λ c. c.devconf_dip)
    if is_none dip then publish_registration else do
      room ← ask env malloc
      if not room
          then pure mem_alloc
          else if not (dip_text_ok dip)
          then pure bad_req
          else publish_registration
