-- ===== src/Core/Wifi.antt =====
-- iot_wifi_ctrl_request and iot_ble_ctrl_request (src/iot_api.c).
use st_device_sdk_c.Prelude.{ℕ, Bool, true, false, not, ◌==◌, if◌then◌else◌, List, [], ◌∷◌}
use st_device_sdk_c.Errors.{IotError, error_none, bad_req}
use st_device_sdk_c.Core.Context.{
  WifiMode, wifi_off, wifi_scan, wifi_station, wifi_softap, wifi_p2p, WifiConf, Context,
}
use st_device_sdk_c.Core.Monad.{
  Env, M, pure, ◌>>=◌, ◌>>◌, gets, modify, call, ask, read_ssid, malloc, bsp_wifi_set_mode,
  bsp_wifi_get_scan_result, easysetup_create_ssid,
}
use st_device_sdk_c.Core.Ecode.{set_st_ecode_from_conn_error}
use st_device_sdk_c.Core.Easysetup.{Config, easysetup_init, easysetup_deinit}

-- `memset(&wifi_conf, 0, …)` and the mode
abbrev pub empty_conf : WifiMode → WifiConf
empty_conf mode = record {
  mode = mode;
  ssid = [];
  pass = [];
  bssid = [];
  authmode = 0;
  wifi_candidate_frequency = 0;
}

-- The bssid is copied only if there is a MAC text.
abbrev pub station_conf : Context → WifiConf
station_conf c = record (empty_conf wifi_station) {
  ssid = c.wifi.ssid;
  pass = c.wifi.password;
  bssid = elim c.wifi.mac_str [ [] ↦ [] | x ∷ xs ↦ c.wifi.bssid ];
  authmode = c.wifi.security_type;
}

-- "1111122222", IOT_WIFI_AUTH_WPA_WPA2_PSK
abbrev pub softap_conf : List ℕ → WifiConf
softap_conf ssid = record (empty_conf wifi_softap) {
  ssid = ssid;
  pass = 49 ∷ 49 ∷ 49 ∷ 49 ∷ 49 ∷ 50 ∷ 50 ∷ 50 ∷ 50 ∷ 50 ∷ [];
  authmode = 4;
}

module _ (env : Env) (cfg : Config) where
  -- The last lines: the request succeeded.
  finish : Bool → M IotError
  finish is_station = do modify (λ c. record c { is_wifi_station = is_station }); pure error_none

  -- What the modes OFF and STATION begin with.
  release_scan : M (Unit {0})
  release_scan = do
    http ← gets (λ c. c.es_http_ready)
    if http
        then (do modify (λ c. record c { es_http_ready = false }); easysetup_deinit env cfg)
        else pure tt
    modify (λ c. record c { scan_result = false; scan_num = 0 })

  -- `iot_bsp_wifi_set_mode`, and what a failure leads to once `send_cmd` is set
  send_mode : WifiConf → M IotError → M IotError
  send_mode conf rest = do
    err ← call env (bsp_wifi_set_mode conf)
    if err == error_none then rest else do _ ← set_st_ecode_from_conn_error env err; pure err

  request_off : M IotError
  unfolding release_scan finish
  request_off = do
    release_scan
    err ← call env (bsp_wifi_set_mode (empty_conf wifi_off))
    if err == error_none then finish false else pure err

  request_station : M IotError
  unfolding release_scan send_mode finish
  request_station = do release_scan; conf ← gets station_conf; send_mode conf (finish true)

  request_softap : M IotError
  unfolding send_mode finish
  request_softap = do
    err ← call env easysetup_create_ssid
    if not (err == error_none) then pure err else do
      ssid ← read_ssid env
      send_mode (softap_conf ssid) (do
        init_err ← easysetup_init env cfg
        if not (init_err == error_none)
            then pure init_err
            else do modify (λ c. record c { es_http_ready = true }); finish false)

  -- Without memory for the result the scan is skipped, and the request succeeds all the same.
  request_scan : M IotError
  unfolding finish
  request_scan = do
    freq ← gets (λ c. c.wifi_candidate_frequency)
    err ←
        call env
          (bsp_wifi_set_mode (record (empty_conf wifi_scan) { wifi_candidate_frequency = freq }))
    if not (err == error_none) then pure err else do
      allocated ← gets (λ c. c.scan_result)
      room ← if allocated then pure true else ask env malloc
      if not room then finish false else do
        modify (λ c. record c { scan_result = true })
        n ← call env bsp_wifi_get_scan_result
        modify (λ c. record c { scan_num = n })
        finish false

  unfoldable pub wifi_ctrl_request : WifiMode → M IotError
  unfolding request_off request_station request_softap request_scan
  wifi_ctrl_request wifi_off = request_off
  wifi_ctrl_request wifi_station = request_station
  wifi_ctrl_request wifi_softap = if cfg.discovery_ssid then request_softap else pure bad_req
  wifi_ctrl_request wifi_scan = request_scan
  wifi_ctrl_request wifi_p2p = pure bad_req

  unfoldable pub ble_ctrl_request : M IotError
  ble_ctrl_request = easysetup_init env cfg
