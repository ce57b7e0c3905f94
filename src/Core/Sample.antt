-- ===== src/Core/Sample.antt =====
-- A sample device, for tests: its context, and what the code outside answers.
use st_device_sdk_c.Prelude.{ℕ, false, true, List, [], ◌∷◌, none}
use st_device_sdk_c.Errors.{error_none}
use st_device_sdk_c.Core.Context.{Context, IotState, Command, request_not_initialized}
use st_device_sdk_c.Core.Monad.{Env, Call, malloc, mutex_lock, timer_create, json_print, World}
use st_device_sdk_c.Core.Easysetup.{Config}
use st_device_sdk_c.Core.Connect.{no_wifi, no_cloud}

-- Memory, locks and timers are there; every driver succeeds; no other thread speaks.
abbrev good_answer : Call → ℕ
good_answer malloc = 1
good_answer mutex_lock = 1
good_answer (timer_create _) = 1
good_answer json_print = 1
good_answer _ = 0

abbrev pub good_env : Env
good_env = record { answer = λ h c. good_answer c; arrive = λ h c. []; created_ssid = λ h. 65 ∷ [] }

abbrev pub ble : Config
ble = record { easysetup_ble = true; discovery_ssid = false }

abbrev pub context_in : IotState → Context
context_in s = record {
  easysetup_resp_queue = true;
  es_res_created = true;
  es_http_ready = false;
  es_ble_ready = false;
  curr_state = s;
  state_timer = none;
  evt_mqttcli = false;
  reg_mqttcli = false;
  registered_msg_requested = false;
  wifi = no_wifi;
  cloud = no_cloud;
  ownership_validation_type = 1;
  devconf_dip = none;
  easysetup_security_context = false;
  iot_reg_data = record {
    dip = false;
    location_id = false;
    device_id = [];
    updated = false;
    new_reged = false;
    self_reged = false;
  };
  scan_num = 0;
  scan_result = false;
  lookup_id = false;
  noti_cb = false;
  status_cb = true;
  status_maps = 15;
  reported_stat = 0;
  curr_otm_feature = 0;
  pin = false;
  add_justworks = false;
  usr_delete_req = false;
  last_ecode_type = 0;
  is_wifi_station = true;
  es_network_status = error_none;
  request_disconnect = false;
  cloud_connection_pause = false;
  wifi_candidate_frequency = 0;
  d2d_event_request = false;
  onboarding_complete = false;
  connection_retry_count = 0;
  next_connection_retry_timer = none;
  cloud_con_timer = false;
  rate_limit = false;
  event_sequence_num = 0;
  rate_limit_timeout = none;
  sign_in_status = request_not_initialized;
  sign_up_status = request_not_initialized;
  mqtt_connect_critical_reject_count = 0;
  mqtt_event_topic = false;
  mqtt_health_topic = false;
  mqtt_connection_success_count = 0;
  mqtt_connection_try_count = 0;
}

abbrev pub world_in : IotState → List Command → World
world_in s q = record { ctx = context_in s; queue = q; trace = [] }
