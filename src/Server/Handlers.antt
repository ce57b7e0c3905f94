-- ===== src/Server/Handlers.antt =====
-- What the server's messages start makes no client (src/easysetup/iot_easysetup_st_mqtt.c).
use st_device_sdk_c.Prelude.{ℕ, List, Option, none, some}
use st_device_sdk_c.Prelude.Texts.{codes}
use st_device_sdk_c.Core.Context.{Command, IotState, StateOpt, Noti}
use st_device_sdk_c.Core.Monad.{Env, pure}
use st_device_sdk_c.Core.Ecode.{set_st_ecode}
use st_device_sdk_c.Core.Post.{put_device_work, command_send, report, send_state_update}
use st_device_sdk_c.Capability.Noti.{
  positive, preferences, parse_type, parse_named, parse_root, event_name, parse_noti_data,
  start_break, accept, noti_sub_cb,
}
use st_device_sdk_c.Server.{
  Reader, Event, delivered, publish_failed, disconnected, other_event, read_response, read_expired,
  register_again, check_connection_response, read_device_id, read_location, read_dip,
  read_registered, reg_sub_cb, registration_callback, note_reason, receive, signin_callback,
}
use st_device_sdk_c.Server.Steady.{Steady, steady_rules, Steady-option, Steady-pure, Steady-bind}

module _ (env : Env) where
  put_device_work-Steady : (cmd : Command) → Steady env (put_device_work env cmd)
  unfolding put_device_work
  put_device_work-Steady cmd = search steady_rules depth 12

  pub command_send-Steady : (cmd : Command) → Steady env (command_send env cmd)
  unfolding command_send
  command_send-Steady cmd = search (steady_rules, put_device_work-Steady) depth 12

  report-Steady : (status level : ℕ) → Steady env (report env status level)
  unfolding report
  report-Steady status level = search steady_rules depth 12

  pub send_state_update-Steady :
      (s : IotState) (opt : StateOpt) → Steady env (send_state_update env s opt)
  unfolding send_state_update
  send_state_update-Steady s opt =
      search (steady_rules, report-Steady, command_send-Steady) depth 12

  set_st_ecode-Steady : (n : ℕ) → Steady env (set_st_ecode env n)
  unfolding set_st_ecode
  set_st_ecode-Steady n = search steady_rules depth 12

  accept-Steady : (noti : Option Noti) → Steady env (accept env noti)
  unfolding accept start_break
  accept-Steady none = search steady_rules depth 12
  accept-Steady (some noti) = search (steady_rules, command_send-Steady) depth 16

  ruleset message_rules = (
    steady_rules, command_send-Steady, send_state_update-Steady, set_st_ecode-Steady, accept-Steady,
  )

module _ (r : Reader) (env : Env) where
  open r use {json}

  preferences-Steady : (values : Option json.Item) → Steady env (preferences json env values)
  preferences-Steady none = search steady_rules depth 4
  preferences-Steady (some values) =
      Steady-option (positive (json.get_array_size values)) (pure none) _
        (search steady_rules depth 4) (λ n. search steady_rules depth 8)

  parse_type-Steady :
      (root : json.Item) (name : List ℕ) → Steady env (parse_type json env root name)
  unfolding parse_type
  parse_type-Steady root name = search (steady_rules, preferences-Steady) depth 20

  parse_named-Steady :
      (root : json.Item) (name : Option (List ℕ)) → Steady env (parse_named json env root name)
  parse_named-Steady root none = Steady-pure none
  parse_named-Steady root (some name) = parse_type-Steady root name

  parse_root-Steady : (root : Option json.Item) → Steady env (parse_root json env root)
  parse_root-Steady none = Steady-pure none
  parse_root-Steady (some root) = parse_named-Steady root (event_name json env root)

  noti_sub_cb-Steady : (payload : Option (List ℕ)) → Steady env (noti_sub_cb json env payload)
  unfolding noti_sub_cb parse_noti_data
  noti_sub_cb-Steady none = search steady_rules depth 4
  noti_sub_cb-Steady (some payload) =
      Steady-bind (parse_noti_data json env payload) _ (parse_root-Steady (json.parse payload))
        (λ noti. accept-Steady env noti)

  read_expired-Steady : (root : json.Item) → Steady env (read_expired r env root)
  unfolding read_expired
  read_expired-Steady root =
      Steady-option (json.get_object_item root (codes "currentTime")) _ _
        (search steady_rules depth 4) (λ time. search steady_rules depth 6)

  read_response-Steady : (root : json.Item) → Steady env (read_response r env root)
  unfolding read_response
  read_response-Steady root =
      Steady-option (json.get_object_item root (codes "event")) _ _ (search steady_rules depth 4)
        (λ event. search (steady_rules, read_expired-Steady) depth 8)

  check_connection_response-Steady :
      (payload : List ℕ) → Steady env (check_connection_response r env payload)
  unfolding check_connection_response
  check_connection_response-Steady payload =
      Steady-option (json.parse payload) _ _ (search steady_rules depth 4)
        (λ root. search (steady_rules, read_response-Steady) depth 6)

  read_device_id-Steady : (root : json.Item) → Steady env (read_device_id r env root)
  unfolding read_device_id
  read_device_id-Steady root =
      Steady-option (json.get_object_item root (codes "deviceId")) _ _ (search steady_rules depth 4)
        (λ item. search message_rules depth 20)

  read_location-Steady : (root : json.Item) → Steady env (read_location r env root)
  unfolding read_location
  read_location-Steady root =
      Steady-option (json.get_object_item root (codes "locationId")) _ _
        (read_device_id-Steady root)
        (λ item. search (message_rules, read_device_id-Steady) depth 20)

  read_dip-Steady : (root : json.Item) → Steady env (read_dip r env root)
  unfolding read_dip
  read_dip-Steady root =
      Steady-option (json.get_object_item root (codes "deviceIntegrationProfileKey")) _ _
        (read_location-Steady root) (λ key. search (message_rules, read_location-Steady) depth 20)

  register_again-Steady : (root : json.Item) → Steady env (register_again r env root)
  unfolding register_again
  register_again-Steady root =
      Steady-option (json.get_object_item root (codes "currentTime")) _ _
        (search steady_rules depth 4) (λ time. search (message_rules, read_dip-Steady) depth 12)

  read_registered-Steady : (root : json.Item) → Steady env (read_registered r env root)
  unfolding read_registered
  read_registered-Steady root =
      Steady-option (json.get_object_item root (codes "event")) _ _ (read_dip-Steady root)
        (λ event. search (steady_rules, register_again-Steady) depth 8)

  reg_sub_cb-Steady : (payload : List ℕ) → Steady env (reg_sub_cb r env payload)
  unfolding reg_sub_cb
  reg_sub_cb-Steady payload =
      Steady-option (json.parse payload) _ _ (search steady_rules depth 4)
        (λ root. search (steady_rules, read_registered-Steady) depth 8)

  pub registration_callback-Steady : (e : Event) → Steady env (registration_callback r env e)
  unfolding registration_callback
  registration_callback-Steady (delivered topic payload) =
      search (steady_rules, check_connection_response-Steady, reg_sub_cb-Steady) depth 16
  registration_callback-Steady (publish_failed payload) = Steady-pure tt
  registration_callback-Steady (disconnected reason) = search message_rules depth 16
  registration_callback-Steady other_event = Steady-pure tt

  note_reason-Steady : (reason : ℕ) → Steady env (note_reason r env reason)
  unfolding note_reason
  note_reason-Steady reason = search message_rules depth 16

  receive-Steady : (topic payload : List ℕ) → Steady env (receive r env topic payload)
  unfolding receive
  receive-Steady topic payload = search (steady_rules, noti_sub_cb-Steady) depth 16

  pub signin_callback-Steady : (e : Event) → Steady env (signin_callback r env e)
  unfolding signin_callback
  signin_callback-Steady (delivered topic payload) =
      search (steady_rules, check_connection_response-Steady, receive-Steady) depth 16
  signin_callback-Steady (publish_failed payload) = search message_rules depth 16
  signin_callback-Steady (disconnected reason) = search (message_rules, note_reason-Steady) depth 16
  signin_callback-Steady other_event = Steady-pure tt
