-- ===== src/Server/Clients.antt =====
-- No client of the server is lost: what iot_es_connect does with the one it makes
-- (src/easysetup/iot_easysetup_st_mqtt.c).
use st_device_sdk_c.Prelude.{
  ℕ, zero, suc, ◌≡◌, refl, Bool, Bool-cases, false, List, [], ◌∷◌, inl, inr, arith, ap,
}
use st_device_sdk_c.Errors.{IotError}
use st_device_sdk_c.Core.Context.{ConnectType, registration, communication, Context, RequestStatus}
use st_device_sdk_c.Core.Monad.{
  Env, M, pure, ◌>>=◌, gets, modify, call, effect, mqtt_yield, os_delay,
}
use st_device_sdk_c.Core.Easysetup.{Config, easysetup_deinit}
use st_device_sdk_c.Core.Connect.{
  client, forget, disconnect, disconnect_if_set, device_cleanup, cleanup,
}
use st_device_sdk_c.Server.{Reader, Event, is_waiting}
use st_device_sdk_c.Server.Login.{Net, handle_events, wait, read_world, callback_of}
use st_device_sdk_c.Server.Client.{
  rejected, connect_result, connect_client, publish_registration, register,
}
use st_device_sdk_c.Server.Steady.{
  Steady, steady_rules, Steady-bind, Steady-if, Steady-pure, Steady-effect, Steady-gets,
  Steady-read_world, count,
}
use st_device_sdk_c.Server.Handlers.{
  command_send-Steady, send_state_update-Steady, registration_callback-Steady,
  signin_callback-Steady,
}

forget_free :
    (type other : ConnectType) (c : Context)
    → client other c ≡ false
    → client other (forget type c) ≡ false
forget_free registration registration c free = refl
forget_free registration communication c free = free
forget_free communication registration c free = free
forget_free communication communication c free = refl

module _ (env : Env) where
  -- A client that is taken out of the context is ended.
  disconnect-Steady : (type : ConnectType) → Steady env (disconnect env type)
  unfolding disconnect ◌>>=◌ gets modify pure effect call
  disconnect-Steady registration = record {
    at = λ held type w free b. elim (Bool-cases w.ctx.reg_mqttcli) [
      | inl there ↦
          let one : count w.ctx.reg_mqttcli ≡ 1 = ap count there in
          rw there (forget_free registration type w.ctx free, omega (arith, b, one))
      | inr missing ↦
          let zero_ : count w.ctx.reg_mqttcli ≡ 0 = ap count missing in
          rw missing (forget_free registration type w.ctx free, omega (arith, b, zero_))
    ];
  }
  disconnect-Steady communication = record {
    at = λ held type w free b. elim (Bool-cases w.ctx.evt_mqttcli) [
      | inl there ↦
          let one : count w.ctx.evt_mqttcli ≡ 1 = ap count there in
          rw there (forget_free communication type w.ctx free, omega (arith, b, one))
      | inr missing ↦
          let zero_ : count w.ctx.evt_mqttcli ≡ 0 = ap count missing in
          rw missing (forget_free communication type w.ctx free, omega (arith, b, zero_))
    ];
  }

  disconnect_if_set-Steady :
      (type : ConnectType) (err : IotError) → Steady env (disconnect_if_set env type err)
  unfolding disconnect_if_set
  disconnect_if_set-Steady type err = search (steady_rules, disconnect-Steady) depth 8

  device_cleanup-Steady : Steady env (device_cleanup env)
  unfolding device_cleanup
  device_cleanup-Steady = search (steady_rules, disconnect_if_set-Steady) depth 16

  easysetup_deinit-Steady : (cfg : Config) → Steady env (easysetup_deinit env cfg)
  unfolding easysetup_deinit
  easysetup_deinit-Steady cfg =
      search (steady_rules, command_send-Steady, send_state_update-Steady) depth 24

  cleanup-Steady : (cfg : Config) (reboots : Bool) → Steady env (cleanup env cfg reboots)
  unfolding cleanup
  cleanup-Steady cfg reboots =
      search (steady_rules, easysetup_deinit-Steady, device_cleanup-Steady) depth 24

module _ (env : Env) (cfg : Config) where
  rejected-Steady : Steady env (rejected env cfg)
  unfolding rejected
  rejected-Steady = search (steady_rules, cleanup-Steady) depth 16

  pub connect_client-Steady : Steady env (connect_client env cfg)
  unfolding connect_client connect_result
  connect_client-Steady = search (steady_rules, rejected-Steady) depth 24

  pub register-Steady : Steady env (register env cfg)
  unfolding register publish_registration
  register-Steady = search steady_rules depth 24

module _ (r : Reader) (env : Env) (net : Net) (cfg : Config) where
  pub callback-Steady :
      (type : ConnectType) (e : Event) → Steady env (callback_of r env net cfg type e)
  callback-Steady registration e = registration_callback-Steady r env e
  callback-Steady communication e = signin_callback-Steady r env e

  handle_events-Steady :
      (callback : Event → M (Unit {0})) (es : List Event)
      → ((e : Event) → Steady env (callback e))
      → Steady env (handle_events r env net cfg callback es)
  unfolding handle_events
  handle_events-Steady callback [] steady = Steady-pure tt
  handle_events-Steady callback (e ∷ es) steady =
      Steady-bind (callback e) _ (steady e) (λ u. handle_events-Steady callback es steady)

  pub wait-Steady :
      (callback : Event → M (Unit {0})) (status : Context → RequestStatus) (n : ℕ)
      → ((e : Event) → Steady env (callback e))
      → Steady env (wait r env net cfg callback status n)
  unfolding wait
  wait-Steady callback status zero steady = Steady-pure tt
  wait-Steady callback status (suc n) steady =
      Steady-bind (effect env mqtt_yield) _ (Steady-effect mqtt_yield refl refl) (λ u.
        Steady-bind (read_world net.events) _ (Steady-read_world net.events) (λ es.
          Steady-bind (handle_events r env net cfg callback es) _
            (handle_events-Steady callback es steady)
            (λ u'.
              Steady-bind (effect env (os_delay 100)) _ (Steady-effect (os_delay 100) refl refl)
                (λ u''. Steady-bind (gets status) _ (Steady-gets status) (λ now.
                  Steady-if (is_waiting now) _ _ (wait-Steady callback status n steady)
                    (Steady-pure tt))))))
