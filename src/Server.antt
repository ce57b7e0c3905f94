-- ===== src/Server.antt =====
-- The connection to the server (src/easysetup/iot_easysetup_st_mqtt.c): the messages that come in.
-- Built without STDK_IOT_CORE_SERIALIZE_CBOR. The JSON library is an argument; the code passes the
-- text of an event on without a look at its type, so every event has a text here.
pub mod Client
pub mod Login
pub mod Steady
pub mod Handlers
pub mod Clients
pub mod Commits
pub mod Owned
mod Tests
use st_device_sdk_c.Prelude.{
  ℕ, Bool, true, false, not, ◌&&◌, ◌==◌, if◌then◌else◌, List, ◌++◌, take, drop, Option, none, some,
}
use st_device_sdk_c.Prelude.Int.{ℤ, pos, negsuc}
use st_device_sdk_c.Prelude.Texts.{codes}
use st_device_sdk_c.Core.Context.{
  IotState, prov_done, cloud_disconnected, opt_none, send_failed, cloud_registering,
  cloud_registered, notification_received, Context, RequestStatus, request_waiting, request_success,
  request_fail,
}
use st_device_sdk_c.Core.Monad.{
  Env, M, pure, ◌>>=◌, ◌>>◌, gets, modify, effect, ask, malloc, json_print, system_set_time,
  cap_sub_cb, cap_commands_cb,
}
use st_device_sdk_c.Core.Boot.{uuid_str_len}
use st_device_sdk_c.Core.Ecode.{set_st_ecode, ecode_ce32, ecode_ce33}
use st_device_sdk_c.Core.Post.{command_send, send_state_update}
use st_device_sdk_c.Capability.{starts_with}
use st_device_sdk_c.Capability.Noti.{Json, noti_sub_cb}
use st_device_sdk_c.Util.Uuid.{convert_str_uuid}

-- What the code reads of JSON besides: the text of an event, a number, the printed item, the first
-- child. A printed item has its quotes.
pub record Reader : Type 1 where
  pub json : Json
  pub valuestring : json.Item → List ℕ
  pub valueint : json.Item → ℤ
  pub printed : json.Item → List ℕ
  pub child : json.Item → Option json.Item

-- What the MQTT client tells of: ST_MQTT_EVENT_MSG_DELIVERED with topic and payload,
-- ST_MQTT_EVENT_PUBLISH_FAILED and ST_MQTT_EVENT_PUBLISH_TIMEOUT with the payload,
-- ST_MQTT_EVENT_DISCONNECTED with the reason.
pub data Event : Type 0 where
  delivered : List ℕ → List ℕ → Event
  publish_failed : List ℕ → Event
  disconnected : ℕ → Event
  other_event : Event

abbrev pub is_success : RequestStatus → Bool
is_success request_success = true
is_success _ = false

abbrev pub is_waiting : RequestStatus → Bool
is_waiting request_waiting = true
is_waiting _ = false

abbrev is_prov_done : IotState → Bool
is_prov_done prov_done = true
is_prov_done _ = false

module _ (r : Reader) (env : Env) where
  open r use {json, valuestring, valueint, printed, child}

  abbrev member : json.Item → List ℕ → Option json.Item
  member root name = json.get_object_item root name

  -- The time of the server, which comes with an expired token.
  unfoldable pub read_expired : json.Item → M RequestStatus
  read_expired root = elim (member root (codes "currentTime")) [
    | none ↦ pure request_fail
    | some time ↦ do effect env system_set_time; pure request_fail
  ]

  -- _check_connection_response, of a text that is JSON
  unfoldable pub read_response : json.Item → M RequestStatus
  read_response root = elim (member root (codes "event")) [
    | none ↦ pure request_waiting
    | some event ↦
        if starts_with (valuestring event) (codes "expired.jwt")
        then read_expired root
        else pure (
            if starts_with (valuestring event) (codes "connect.success")
            then request_success
            else request_waiting)
  ]

  -- _check_connection_response
  unfoldable pub check_connection_response : List ℕ → M RequestStatus
  check_connection_response payload = elim (json.parse payload) [
    | none ↦ pure request_fail
    | some root ↦ do effect env json_print; read_response root
  ]

  -- The device id of the server, which a device takes once. The copy takes 36 bytes behind the quote
  -- of the printed text, however long that is.
  unfoldable pub read_device_id : json.Item → M (Unit {0})
  read_device_id root = elim (member root (codes "deviceId")) [
    | none ↦ pure tt
    | some item ↦ do
      updated ← gets (λ c. c.iot_reg_data.updated)
      if updated then pure tt else do
        room ← ask env json_print
        if not room then pure tt else do
          modify (λ c. record c {
            iot_reg_data = record c.iot_reg_data {
              device_id = take uuid_str_len (drop 1 (printed item));
              updated = true;
              new_reged = false;
            };
          })
          _ ← command_send env cloud_registered
          pure tt
  ]

  abbrev is_uuid : json.Item → Bool
  is_uuid item = (convert_str_uuid (json.get_string_value item) true).0 == 0

  unfoldable pub read_location : json.Item → M (Unit {0})
  read_location root = elim (member root (codes "locationId")) [
    | none ↦ read_device_id root
    | some item ↦ do
      room ← ask env malloc
      if not room then pure tt else if not (is_uuid item) then pure tt else do
        modify (λ c. record c { iot_reg_data = record c.iot_reg_data { location_id = true } })
        read_device_id root
  ]

  -- The members that a profile key must have.
  abbrev is_dip_key : json.Item → Bool
  is_dip_key key = elim (member key (codes "id")) [
    | none ↦ false
    | some id ↦
        is_uuid id && elim (member key (codes "majorVersion")) [ none ↦ false | some v ↦ true ]
  ]

  unfoldable pub read_dip : json.Item → M (Unit {0})
  read_dip root = elim (member root (codes "deviceIntegrationProfileKey")) [
    | none ↦ read_location root
    | some key ↦ do
      room ← ask env malloc
      if not room then pure tt else if not (is_dip_key key) then pure tt else do
        modify (λ c. record c { iot_reg_data = record c.iot_reg_data { dip = true } })
        read_location root
  ]

  -- The same in a registration, which is asked for again.
  unfoldable pub register_again : json.Item → M (Unit {0})
  register_again root = elim (member root (codes "currentTime")) [
    | none ↦ pure tt
    | some time ↦ do
      effect env system_set_time
      _ ← command_send env cloud_registering
      read_dip root
  ]

  -- mqtt_reg_sub_cb, of a text that is JSON and could be printed
  unfoldable pub read_registered : json.Item → M (Unit {0})
  read_registered root = elim (member root (codes "event")) [
    | none ↦ read_dip root
    | some event ↦
        if starts_with (valuestring event) (codes "expired.jwt")
        then register_again root
        else pure tt
  ]

  -- mqtt_reg_sub_cb
  unfoldable pub reg_sub_cb : List ℕ → M (Unit {0})
  reg_sub_cb payload = elim (json.parse payload) [
    | none ↦ pure tt
    | some root ↦ do room ← ask env json_print; if room then read_registered root else pure tt
  ]

  -- _iot_mqtt_registration_client_callback
  unfoldable pub registration_callback : Event → M (Unit {0})
  registration_callback (delivered topic payload) = do
    status ← gets (λ c. c.sign_up_status)
    if not (is_success status)
        then (do
          new ← check_connection_response payload
          modify (λ c. record c { sign_up_status = new }))
        else if starts_with topic (codes "/v1/registrations/notification")
        then reg_sub_cb payload
        else pure tt
  registration_callback (publish_failed payload) = pure tt
  registration_callback (disconnected reason) = do
    again ← gets (λ c.
        is_prov_done c.curr_state && (not c.iot_reg_data.updated && c.registered_msg_requested))
    if again then (do _ ← command_send env cloud_registering; pure tt) else pure tt
  registration_callback other_event = pure tt

  abbrev then_item : Option json.Item → (json.Item → Option json.Item) → Option json.Item
  then_item none f = none
  then_item (some item) f = f item

  -- _iot_parse_sequence_num: 0 when there is no number
  abbrev pub parse_sequence_num : List ℕ → ℤ
  parse_sequence_num payload =
      let events = then_item (json.parse payload) (λ root. member root (codes "deviceEvents")) in
      let provider_data =
        then_item (then_item events child) (λ first. member first (codes "providerData")) in
      elim (then_item provider_data (λ data_. member data_ (codes "sequenceNumber"))) [
        | none ↦ pos 0
        | some number ↦ valueint number
      ]

  abbrev is_negative : ℤ → Bool
  is_negative (pos n) = false
  is_negative (negsuc n) = true

  -- The last error by the reason: MQTT_DISCONNECTED_PING_FAIL, MQTT_DISCONNECTED_PING_TIMEOUT.
  unfoldable pub note_reason : ℕ → M (Unit {0})
  note_reason reason =
      if reason == 1
      then (do _ ← set_st_ecode env ecode_ce32; pure tt)
      else if reason == 2
      then (do _ ← set_st_ecode env ecode_ce33; pure tt)
      else pure tt

  -- A message of a client that is logged in.
  unfoldable pub receive : List ℕ → List ℕ → M (Unit {0})
  receive topic payload =
      if starts_with topic (codes "/v1/commands")
      then (do effect env cap_sub_cb; effect env cap_commands_cb)
      else if starts_with topic (codes "/v1/notifications")
      then noti_sub_cb json env (some payload)
      else pure tt

  -- _iot_mqtt_signin_client_callback
  unfoldable pub signin_callback : Event → M (Unit {0})
  signin_callback (delivered topic payload) = do
    status ← gets (λ c. c.sign_in_status)
    if not (is_success status)
        then (do
          new ← check_connection_response payload
          modify (λ c. record c { sign_in_status = new }))
        else receive topic payload
  signin_callback (publish_failed payload) =
      if is_negative (parse_sequence_num payload)
      then pure tt
      else (do _ ← command_send env (notification_received (some send_failed)); pure tt)
  signin_callback (disconnected reason) = do
    note_reason reason
    _ ← send_state_update env cloud_disconnected opt_none
    pure tt
  signin_callback other_event = pure tt
