-- ===== src/Core/Context.antt =====
-- struct iot_context and the messages of the work queue (src/include/iot_main.h).
-- A pointer that is only tested and freed is a Bool: is it set.
use st_device_sdk_c.Prelude.{ℕ, Bool, List, Option}
use st_device_sdk_c.Prelude.Int.{ℤ}
use st_device_sdk_c.Errors.{IotError}

-- iot_state_t
pub data IotState : Type 0 where
  initialized prov_sleep prov_enter prov_confirm prov_done cloud_disconnected cloud_connected :
      IotState

-- enum iot_state_opt
pub data StateOpt : Type 0 where
  opt_none opt_need_interact opt_cleanup : StateOpt

-- iot_wifi_mode_t
pub data WifiMode : Type 0 where
  wifi_off wifi_scan wifi_station wifi_softap wifi_p2p : WifiMode

-- enum iot_connect_type
pub data ConnectType : Type 0 where
  registration communication : ConnectType

-- iot_noti_type_t; a preference update carries how many preferences there are to free.
pub data Noti : Type 0 where
  dev_deleted rate_limited quota_reached send_failed jwt_expired : Noti
  preference_updated : ℕ → Noti
  other_noti : Noti

-- struct iot_command: the type with its parameter. `none` is a NULL parameter.
pub data Command : Type 0 where
  state_update : IotState → StateOpt → Command
  cloud_registering cloud_registered cloud_connecting : Command
  notification_received : Option Noti → Command
  unsupported : Command

-- iot_status_t, iot_stat_lv_t: bits and levels (src/include/st_dev.h).
abbrev pub status_idle : ℕ
status_idle = 1

abbrev pub status_provisioning : ℕ
status_provisioning = 2

abbrev pub status_need_interact : ℕ
status_need_interact = 4

abbrev pub status_connecting : ℕ
status_connecting = 8

abbrev pub stat_stay : ℕ
stat_stay = 0

abbrev pub stat_start : ℕ
stat_start = 1

abbrev pub stat_done : ℕ
stat_done = 2

abbrev pub easysetup_timeout_ms : ℕ
easysetup_timeout_ms = 300000

abbrev pub registration_timeout_ms : ℕ
registration_timeout_ms = 900000

-- OVF_BIT_BUTTON
abbrev pub ovf_bit_button : ℕ
ovf_bit_button = 2

-- struct iot_wifi_prov_data
pub record WifiProv : Type 0 where
  pub ssid : List ℕ
  pub password : List ℕ
  pub mac_str : List ℕ
  pub bssid : List ℕ
  pub security_type : ℕ

-- struct iot_cloud_prov_data
pub record CloudProv : Type 0 where
  pub broker_url : Option (List ℕ)
  pub broker_port : ℤ
  pub location : Bool
  pub room : Bool

-- iot_wifi_conf
pub record WifiConf : Type 0 where
  pub mode : WifiMode
  pub ssid : List ℕ
  pub pass : List ℕ
  pub bssid : List ℕ
  pub authmode : ℕ
  pub wifi_candidate_frequency : ℕ

-- struct iot_dip_data
pub record Dip : Type 0 where
  pub dip_id : List ℕ
  pub dip_major_version : ℕ
  pub dip_minor_version : ℕ

-- struct iot_registered_data
pub record RegData : Type 0 where
  pub dip : Bool
  pub location_id : Bool
  pub device_id : List ℕ
  pub updated : Bool
  pub new_reged : Bool
  pub self_reged : Bool

-- gg_connection_request_status
pub data RequestStatus : Type 0 where
  request_not_initialized request_waiting request_success request_fail : RequestStatus

-- struct iot_context. A timer is the timeout in ms that it was made with.
pub record Context : Type 0 where
  pub easysetup_resp_queue : Bool
  pub es_res_created : Bool
  pub es_http_ready : Bool
  pub es_ble_ready : Bool
  pub curr_state : IotState
  pub state_timer : Option ℕ
  pub evt_mqttcli : Bool
  pub reg_mqttcli : Bool
  pub registered_msg_requested : Bool
  pub wifi : WifiProv
  pub cloud : CloudProv
  pub ownership_validation_type : ℕ
  pub devconf_dip : Option Dip
  pub easysetup_security_context : Bool
  pub iot_reg_data : RegData
  pub scan_num : ℕ
  pub scan_result : Bool
  pub lookup_id : Bool
  pub noti_cb : Bool
  pub status_cb : Bool
  pub status_maps : ℕ
  pub reported_stat : ℕ
  pub curr_otm_feature : ℕ
  pub pin : Bool
  pub add_justworks : Bool
  pub usr_delete_req : Bool
  pub last_ecode_type : ℕ
  pub is_wifi_station : Bool
  pub es_network_status : IotError
  pub request_disconnect : Bool
  pub cloud_connection_pause : Bool
  pub wifi_candidate_frequency : ℕ
  pub d2d_event_request : Bool
  pub onboarding_complete : Bool
  pub connection_retry_count : ℕ
  pub next_connection_retry_timer : Option ℕ
  pub cloud_con_timer : Bool
  pub rate_limit : Bool
  pub event_sequence_num : ℕ
  pub rate_limit_timeout : Option ℕ
  pub sign_in_status : RequestStatus
  pub sign_up_status : RequestStatus
  pub mqtt_connect_critical_reject_count : ℕ
  pub mqtt_event_topic : Bool
  pub mqtt_health_topic : Bool
  pub mqtt_connection_success_count : ℕ
  pub mqtt_connection_try_count : ℕ
