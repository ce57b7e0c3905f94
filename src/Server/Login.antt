-- ===== src/Server/Login.antt =====
-- iot_es_connect and what it calls (src/easysetup/iot_easysetup_st_mqtt.c).
use st_device_sdk_c.Prelude.{
  ℕ, zero, suc, ◌+◌, ◌%◌, ◌^◌, Bool, true, not, ◌==◌, if◌then◌else◌, List, [], ◌∷◌,
}
use st_device_sdk_c.Errors.{IotError, error_none, bad_req, mem_alloc, mqtt_connect_fail}
use st_device_sdk_c.Core.Context.{
  ConnectType, registration, communication, Context, RequestStatus, request_waiting,
}
use st_device_sdk_c.Core.Monad.{
  Call, Env, M, pure, ◌>>=◌, ◌>>◌, gets, modify, call, effect, ask, malloc, os_delay, timer_create,
  timer_start, timer_delete, nv_get_serial_number, strdup_mnid, wt_create, mqtt_create,
  mqtt_subscribe, mqtt_yield, mqtt_disconnect, mqtt_destroy, free_uninitialized,
}
use st_device_sdk_c.Core.Easysetup.{Config}
use st_device_sdk_c.Core.Connect.{set_client}
use st_device_sdk_c.Server.Client.{connect_client, register}
use st_device_sdk_c.Server.{
  Reader, Event, is_success, is_waiting, registration_callback, signin_callback,
}

-- The network: the events that a call of st_mqtt_yield tells of, and how often a timer is found
-- active before it ends.
pub record Net : Type 0 where
  pub events : List Call → List Event
  pub rounds : List Call → ℕ

-- GG_CONNECTION_RESPONSE_TIMEOUT_MS
abbrev pub response_timeout_ms : ℕ
response_timeout_ms = 5000

unfoldable pub read_world : {A : Type 0} → (List Call → A) → M A
read_world f w = (f w.trace, w)

module _ (r : Reader) (env : Env) (net : Net) (cfg : Config) where
  unfoldable pub handle_events : (Event → M (Unit {0})) → List Event → M (Unit {0})
  handle_events callback [] = pure tt
  handle_events callback (e ∷ es) = do callback e; handle_events callback es

  -- The loop that waits for the server's answer, for as many rounds as the timer is active.
  unfoldable pub wait : (Event → M (Unit {0})) → (Context → RequestStatus) → ℕ → M (Unit {0})
  wait callback status zero = pure tt
  wait callback status (suc n) = do
    effect env mqtt_yield
    es ← read_world net.events
    handle_events callback es
    effect env (os_delay 100)
    now ← gets status
    if is_waiting now then wait callback status n else pure tt

  abbrev pub callback_of : ConnectType → Event → M (Unit {0})
  callback_of registration = registration_callback r env
  callback_of communication = signin_callback r env

  abbrev pub status_of : ConnectType → Context → RequestStatus
  status_of registration c = c.sign_up_status
  status_of communication c = c.sign_in_status

  -- _iot_es_mqtt_disconnect and the code
  abbrev pub give_up : ConnectType → IotError → M IotError
  give_up type err = do effect env (mqtt_disconnect type); pure err

  -- The subscription, and the server's answer to the request.
  unfoldable pub subscribe : ConnectType → M IotError → M IotError
  subscribe type next = do
    ret ← call env mqtt_subscribe
    if not (ret == 0) then give_up type bad_req else do
      n ← read_world net.rounds
      wait (callback_of type) (status_of type) n
      status ← gets (status_of type)
      if not (is_success status) then give_up type mqtt_connect_fail else next

  -- The topics of the events and of the health, and the client.
  unfoldable pub keep_topics : M IotError
  keep_topics = do
    event ← ask env malloc
    modify (λ c. record c { mqtt_event_topic = event })
    if not event then give_up communication mem_alloc else do
      health ← ask env malloc
      modify (λ c. record c { mqtt_health_topic = health })
      if not health
          then give_up communication mem_alloc
          else do modify (set_client communication true); pure error_none

  unfoldable pub keep_registration : M IotError
  keep_registration = do
    err ← register env cfg
    if not (err == error_none)
        then give_up registration err
        else do modify (set_client registration true); pure error_none

  -- With the memory of the topics: two of the log-in, one of the registration, whose failure goes to
  -- the end of the other branch and frees what was never set there.
  unfoldable pub session : ConnectType → M IotError
  session communication = do
    first ← ask env malloc
    if not first then pure mem_alloc else do
      second ← ask env malloc
      if not second then pure mem_alloc else subscribe communication keep_topics
  session registration = do
    room ← ask env malloc
    if room
        then subscribe registration keep_registration
        else do effect env free_uninitialized; pure mem_alloc

  unfoldable pub with_timer : M IotError → M IotError
  with_timer body = do
    made ← ask env (timer_create response_timeout_ms)
    if not made
        then pure mqtt_connect_fail
        else do effect env timer_start; err ← body; effect env timer_delete; pure err

  abbrev pub start_request : ConnectType → Context → Context
  start_request registration c = record c { sign_up_status = request_waiting }
  start_request communication c = record c {
    sign_in_status = request_waiting;
    mqtt_connection_try_count = (c.mqtt_connection_try_count + 1) % 2 ^ 32;
  }

  abbrev pub count_success : ConnectType → Context → Context
  count_success registration c = c
  count_success communication c = record c {
    mqtt_connection_success_count = (c.mqtt_connection_success_count + 1) % 2 ^ 32;
  }

  -- What is done with a client.
  unfoldable pub use_client : ConnectType → M IotError
  use_client type = do
    modify (start_request type)
    err ← connect_client env cfg
    if not (err == error_none)
        then pure err
        else do modify (count_success type); with_timer (session type)

  -- st_mqtt_create, and st_mqtt_destroy at the end if there is an error. That no client could be made
  -- is none.
  unfoldable pub with_client : ConnectType → M IotError
  with_client type = do
    ret ← call env (mqtt_create type)
    if not (ret == 0) then pure error_none else do
      err ← use_client type
      if err == error_none then pure tt else effect env (mqtt_destroy type)
      pure err

  abbrev pub is_ready : ConnectType → Context → Bool
  is_ready registration c = true
  is_ready communication c = c.iot_reg_data.updated

  -- iot_es_connect. A name that cannot be copied and a device without its id are no errors either.
  unfoldable pub es_connect : ConnectType → M IotError
  es_connect type = do
    limited ← gets (λ c. c.rate_limit)
    if limited then pure mqtt_connect_fail else do
      sn_err ← call env nv_get_serial_number
      if not (sn_err == error_none) then pure sn_err else do
        mnid ← ask env strdup_mnid
        if not mnid then pure error_none else do
          wt_err ← call env wt_create
          if not (wt_err == error_none) then pure wt_err else do
            ready ← gets (is_ready type)
            if ready then with_client type else pure error_none
