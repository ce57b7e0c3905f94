-- ===== src/Server/Tests.antt =====
-- A server that accepts the connection, and one call that fails.
use st_device_sdk_c.Prelude.{
  ℕ, ◌≡◌, ◌⊎◌, refl, true, false, ◌==◌, if◌then◌else◌, List, [], ◌∷◌, none, some,
}
use st_device_sdk_c.Prelude.Int.{pos}
use st_device_sdk_c.Prelude.Texts.{codes}
use st_device_sdk_c.Errors.{error_none}
use st_device_sdk_c.Core.Context.{prov_done, communication}
use st_device_sdk_c.Core.Monad.{
  Env, Call, World, ◌>>=◌, gets, modify, call, ask, effect, pure, malloc, timer_create, json_print,
  strdup_mnid, registration_payload, mqtt_create,
}
use st_device_sdk_c.Core.Sample.{context_in, ble}
use st_device_sdk_c.Core.Connect.{client}
use st_device_sdk_c.Capability.{starts_with}
use st_device_sdk_c.Capability.Noti.{Json}
use st_device_sdk_c.Server.{
  Reader, delivered, signin_callback, check_connection_response, read_response,
}
use st_device_sdk_c.Server.Login.{
  Net, es_connect, with_client, use_client, with_timer, session, keep_topics, subscribe, wait,
  handle_events, read_world,
}
use st_device_sdk_c.Util.Url.{after_prefix}
use st_device_sdk_c.Server.Client.{connect_client, connect_result}
use st_device_sdk_c.Server.Steady.{Balanced}
use st_device_sdk_c.Server.Owned.{connect_owns_client}

-- A text stands for an object whose one member is its event.
abbrev texts : Json
texts = record {
  Item = List ℕ;
  parse = λ payload. some payload;
  get_object_item = λ root name. if starts_with name (codes "event") then some root else none;
  get_string_value = λ item. some item;
  get_array_size = λ item. pos 0;
}

abbrev reader : Reader
reader = record {
  json = texts;
  valuestring = λ item. item;
  valueint = λ item. pos 0;
  printed = λ item. item;
  child = λ item. none;
}

abbrev answers : ℕ → Call → ℕ
answers no_client malloc = 1
answers no_client (timer_create _) = 1
answers no_client json_print = 1
answers no_client strdup_mnid = 1
answers no_client registration_payload = 1
answers no_client (mqtt_create _) = no_client
answers no_client _ = 0

-- What st_mqtt_create answers, 0 or not.
abbrev env_with : ℕ → Env
env_with no_client = record {
  answer = λ h c. answers no_client c;
  arrive = λ h c. [];
  created_ssid = λ h. [];
}

abbrev accepting : Net
accepting = record {
  events = λ h. delivered (codes "/v1/commands") (codes "connect.success") ∷ [];
  rounds = λ h. 50;
}

abbrev ready : World
ready = record {
  ctx = record (context_in prov_done) {
    cloud = record (context_in prov_done).cloud { broker_url = some (codes "mqtt.example.com") };
    iot_reg_data = record (context_in prov_done).iot_reg_data { updated = true };
  };
  queue = [];
  trace = [];
}

connect_owns_client_example :
    let (err, w') = es_connect reader (env_with 0) accepting ble communication ready in
    Balanced (env_with 0) 0 w'
    × (((err == error_none) ≡ true) ⊎ (client communication w'.ctx ≡ false))
connect_owns_client_example =
    connect_owns_client reader (env_with 0) accepting ble communication ready refl refl

logged_in :
    let (err, w') = es_connect reader (env_with 0) accepting ble communication ready in
    (err ≡ error_none) × (w'.ctx.evt_mqttcli ≡ true)
unfolding es_connect with_client use_client with_timer session keep_topics subscribe wait
    handle_events connect_client connect_result read_world signin_callback check_connection_response
    read_response ◌>>=◌ gets modify call ask effect pure after_prefix
logged_in = (refl, refl)
