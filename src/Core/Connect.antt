-- ===== src/Core/Connect.antt =====
-- Connections to the server as the core task sees them. iot_es_disconnect is whole; of
-- iot_es_connect (src/easysetup/iot_easysetup_st_mqtt.c) the code beyond its first guard is a call:
-- it answers a code, and on IOT_ERROR_NONE whether the client handle was stored in the context
-- (Server.Login has the routine). What it does to the context on a rejection of the device, the
-- cleanup, is there.
-- Also iot_device_cleanup and iot_cleanup (src/iot_api.c).
use st_device_sdk_c.Prelude.{Bool, true, false, not, ◌==◌, if◌then◌else◌, [], none}
use st_device_sdk_c.Prelude.Int.{pos}
use st_device_sdk_c.Errors.{
  IotError, error_none, invalid_args, mqtt_connect_fail, mqtt_reject_connect,
}
use st_device_sdk_c.Core.Context.{
  ConnectType, registration, communication, Context, WifiProv, CloudProv, initialized,
}
use st_device_sdk_c.Core.Monad.{
  Env, M, pure, ◌>>=◌, ◌>>◌, gets, modify, call, effect, ask, es_connect, es_connect_client,
  mqtt_disconnect, mqtt_destroy, nv_erase_prov_data, nv_erase_device_id, reboot,
}
use st_device_sdk_c.Core.Easysetup.{Config, easysetup_deinit}

abbrev pub client : ConnectType → Context → Bool
client registration c = c.reg_mqttcli
client communication c = c.evt_mqttcli

abbrev pub set_client : ConnectType → Bool → Context → Context
set_client registration b c = record c { reg_mqttcli = b }
set_client communication b c = record c { evt_mqttcli = b }

-- The client, and with the one of the communication its topics, are taken out of the context.
abbrev pub forget : ConnectType → Context → Context
forget registration c = record c { reg_mqttcli = false }
forget communication c = record c {
  evt_mqttcli = false;
  mqtt_event_topic = false;
  mqtt_health_topic = false;
}

-- `memset(&(ctx->prov_data), 0, …)`
abbrev pub no_wifi : WifiProv
no_wifi = record { ssid = []; password = []; mac_str = []; bssid = []; security_type = 0 }

abbrev pub no_cloud : CloudProv
no_cloud = record { broker_url = none; broker_port = pos 0; location = false; room = false }

module _ (env : Env) where
  unfoldable pub disconnect : ConnectType → M IotError
  disconnect type = do
    target ← gets (client type)
    modify (forget type)
    if not target
        then pure invalid_args
        else do effect env (mqtt_disconnect type); effect env (mqtt_destroy type); pure error_none

  -- `if (client != NULL) iot_es_disconnect(…)`; the code stays what it was without a client.
  unfoldable pub disconnect_if_set : ConnectType → IotError → M IotError
  disconnect_if_set type err = do
    target ← gets (client type)
    if target then disconnect type else pure err

  unfoldable pub device_cleanup : M IotError
  device_cleanup = do
    modify (λ c. record c { wifi = no_wifi; cloud = no_cloud })
    _ ← call env nv_erase_prov_data
    err ← call env nv_erase_device_id
    evt_err ← disconnect_if_set communication err
    reg_err ← disconnect_if_set registration evt_err
    modify (λ c. record c { lookup_id = false })
    pure reg_err

  unfoldable pub cleanup : Config → Bool → M IotError
  cleanup cfg reboots = do
    http ← gets (λ c. c.es_http_ready)
    if http
        then (do modify (λ c. record c { es_http_ready = false }); easysetup_deinit env cfg)
        else pure tt
    ble ← gets (λ c. c.es_ble_ready)
    if ble
        then (do modify (λ c. record c { es_ble_ready = false }); easysetup_deinit env cfg)
        else pure tt
    _ ← device_cleanup
    modify (λ c. record c { curr_state = initialized })
    if reboots then effect env reboot else pure tt
    pure error_none

  -- iot_es_connect answers IOT_ERROR_MQTT_REJECT_CONNECT exactly where it has called iot_cleanup.
  unfoldable pub connect : Config → ConnectType → M IotError
  connect cfg type = do
    limited ← gets (λ c. c.rate_limit)
    if limited then pure mqtt_connect_fail else do
      err ← call env (es_connect type)
      if err == mqtt_reject_connect
          then (do _ ← cleanup cfg true; pure err)
          else if not (err == error_none)
          then pure err
          else do
            made ← ask env (es_connect_client type)
            if made then modify (set_client type true) else pure tt
            pure error_none
