-- ===== src/Core/Monad.antt =====
-- Handlers run against a world: the context, the work queue, and the calls made so far of code
-- outside the core task (drivers, timers, MQTT, storage, user callbacks). What such a call answers,
-- and which commands other threads put into the queue meanwhile, may depend on all calls before it.
pub mod Keeps
pub mod Yields
pub mod Ends
pub mod Maintains
use st_device_sdk_c.Prelude.{ℕ, Bool, List, [], ◌∷◌, ◌++◌, ◌==◌, not}
use st_device_sdk_c.Core.Event.{EventItem}
use st_device_sdk_c.Core.Context.{WifiConf, ConnectType, Noti, Command, Context}

pub data Call : Type 0 where
  malloc mutex_lock : Call
  bsp_wifi_set_mode : WifiConf → Call
  bsp_wifi_get_scan_result : Call
  easysetup_create_ssid : Call
  security_has_cipher_params security_cipher_init security_cipher_deinit : Call
  security_init security_deinit : Call
  bsp_wifi_register_event_cb bsp_wifi_clear_event_cb es_http_init es_http_deinit : Call
  bsp_ble_register_event_cb es_ble_init es_ble_deinit : Call
  bsp_ble_set_onboarding_completion : Bool → Call
  ble_setupcomplete_response create_ble_advertise_packet : Call
  eventgroup_clear_resp eventgroup_clear_cmd_done eventgroup_set_cmd_done : Call
  eventgroup_wait_cmd_done : Call
  timer_create : ℕ → Call
  timer_isexpired : Call
  call_status_cb : ℕ → ℕ → Call
  call_noti_cb : Noti → Call
  cap_call_init_cb : Call
  publish_get_preferences publish_delete : Call
  es_connect es_connect_client mqtt_disconnect : ConnectType → Call
  misc_info_store_dip misc_info_store_location misc_info_load_dip : Call
  misc_info_store_prev_err : ℕ → Call
  nv_get_prov_data nv_get_device_id nv_set_wifi_prov_data nv_erase_prov_data : Call
  nv_erase_device_id : Call
  nv_set_device_id : List ℕ → Call
  bsp_random : Call
  os_delay : ℕ → Call
  queue_create queue_delete : Call
  on_work_thread lock_conn unlock_conn : Call
  reboot : Call
  json_parse json_print system_set_time get_time_in_ms timer_start timer_delete : Call
  mqtt_publish_async : List EventItem → Call
  nv_get_serial_number strdup_mnid wt_create : Call
  get_random_id_str nv_get_root_cert mqtt_connect mqtt_subscribe : Call
  mqtt_create mqtt_destroy : ConnectType → Call
  mqtt_yield convert_dip_id registration_payload mqtt_publish_registration : Call
  cap_sub_cb cap_commands_cb : Call
  -- the free of a pointer that nothing was written to
  free_uninitialized : Call

-- An answer is a number: an error code, a count, or a pointer or truth value that is 0 or not.
pub record Env : Type 0 where
  pub answer : List Call → Call → ℕ
  pub arrive : List Call → Call → List Command
  -- the text that iot_easysetup_create_ssid writes
  pub created_ssid : List Call → List ℕ

pub record World : Type 0 where
  pub ctx : Context
  pub queue : List Command
  pub trace : List Call

abbrev pub M : Type 0 → Type 0
M A = World → A × World

unfoldable pub pure : {A : Type 0} → A → M A
pure a w = (a, w)

infixl 5 ◌>>=◌ ◌>>◌
unfoldable pub ◌>>=◌ : {A B : Type 0} → M A → (A → M B) → M B
◌>>=◌ m f w = let (a, w') = m w in f a w'

abbrev pub ◌>>◌ : {B : Type 0} → M (Unit {0}) → M B → M B
m >> k = m >>= λ _. k

unfoldable pub gets : {A : Type 0} → (Context → A) → M A
gets f w = (f w.ctx, w)

unfoldable pub modify : (Context → Context) → M (Unit {0})
modify f w = (tt, record w { ctx = f w.ctx })

unfoldable pub post : Command → M (Unit {0})
post c w = (tt, record w { queue = w.queue ++ c ∷ [] })

unfoldable pub call : Env → Call → M ℕ
call env c w = (
  env.answer w.trace c,
  record w { queue = w.queue ++ env.arrive w.trace c; trace = c ∷ w.trace },
)

unfoldable pub read_ssid : Env → M (List ℕ)
read_ssid env w = (env.created_ssid w.trace, w)

-- A call whose answer is not read.
unfoldable pub effect : Env → Call → M (Unit {0})
unfolding call
effect env c w = (tt, (call env c w).1)

-- A call that answers a pointer or a truth value.
unfoldable pub ask : Env → Call → M Bool
unfolding call
ask env c w = let (n, w') = call env c w in (not (n == 0), w')
