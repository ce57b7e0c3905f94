-- ===== src/Server/Owned.antt =====
-- The client that iot_es_connect makes is kept in the context or ended
-- (src/easysetup/iot_easysetup_st_mqtt.c).
use st_device_sdk_c.Prelude.{
  ◌≡◌, ◌⊎◌, inl, inr, refl, Bool, Bool-cases, true, false, ◌==◌, if◌then◌else◌, arith,
}
use st_device_sdk_c.Errors.{IotError, error_none}
use st_device_sdk_c.Core.Context.{ConnectType, registration, communication}
use st_device_sdk_c.Core.Monad.{
  Env, World, M, pure, ◌>>=◌, ◌>>◌, modify, call, effect, mqtt_create, mqtt_destroy,
}
use st_device_sdk_c.Core.Easysetup.{Config}
use st_device_sdk_c.Core.Connect.{client}
use st_device_sdk_c.Server.{Reader}
use st_device_sdk_c.Server.Login.{
  Net, subscribe, keep_topics, keep_registration, session, with_timer, start_request, count_success,
  use_client, with_client, es_connect,
}
use st_device_sdk_c.Server.Steady.{Steady, steady_rules, Balanced}
use st_device_sdk_c.Server.Commits.{Commits, commits_rules}
use st_device_sdk_c.Server.Clients.{
  connect_client-Steady, register-Steady, wait-Steady, callback-Steady,
}

-- What iot_es_connect leaves: no client but the context's, and on an error none of the type.
abbrev Ended : Env → ConnectType → IotError × World → Type 0
Ended env type (err, w) =
    Balanced env 0 w × (((err == error_none) ≡ true) ⊎ (client type w.ctx ≡ false))

record EndsOwned (env : Env) (type : ConnectType) (m : M IotError) : Type 0 where
  at : (w : World) → client type w.ctx ≡ false → Balanced env 0 w → Ended env type (m w)

module _ {env : Env} {type : ConnectType} where
  EndsOwned-pure : (err : IotError) → EndsOwned env type (pure err)
  unfolding pure
  EndsOwned-pure err = record { at = λ w free b. (b, inr free) }

  EndsOwned-if :
      (b : Bool) (m n : M IotError)
      → EndsOwned env type m
      → EndsOwned env type n
      → EndsOwned env type (if b then m else n)
  EndsOwned-if true m n km kn = km
  EndsOwned-if false m n km kn = kn

  EndsOwned-bind :
      {A : Type 0} (m : M A) (k : A → M IotError)
      → Steady env m
      → ((a : A) → EndsOwned env type (k a))
      → EndsOwned env type (m >>= k)
  unfolding ◌>>=◌
  EndsOwned-bind m k km kk = record {
    at = λ w free b. let (free', b') = km.at 0 type w free b in (kk (m w).0).at (m w).1 free' b';
  }

module _ (r : Reader) (env : Env) (net : Net) (cfg : Config) where
  keep_topics-Commits : Commits env communication (keep_topics r env net cfg)
  unfolding keep_topics
  keep_topics-Commits = search commits_rules depth 30

  keep_registration-Commits : Commits env registration (keep_registration r env net cfg)
  unfolding keep_registration
  keep_registration-Commits = search (commits_rules, register-Steady) depth 30

  subscribe-Commits :
      (type : ConnectType) (next : M IotError)
      → Commits env type next
      → Commits env type (subscribe r env net cfg type next)
  unfolding subscribe
  subscribe-Commits type next keeps =
      search (commits_rules, keeps, wait-Steady r env net cfg, callback-Steady r env net cfg) depth
        40

  session-Commits : (type : ConnectType) → Commits env type (session r env net cfg type)
  unfolding session
  session-Commits registration =
      search (commits_rules, subscribe-Commits, keep_registration-Commits) depth 30
  session-Commits communication =
      search (commits_rules, subscribe-Commits, keep_topics-Commits) depth 30

  with_timer-Commits :
      (type : ConnectType) (body : M IotError)
      → Commits env type body
      → Commits env type (with_timer r env net cfg body)
  unfolding with_timer
  with_timer-Commits type body keeps = search (commits_rules, keeps) depth 30

  start_request-Steady :
      (type : ConnectType) → Steady env (modify (start_request r env net cfg type))
  start_request-Steady registration = search steady_rules depth 4
  start_request-Steady communication = search steady_rules depth 4

  count_success-Steady :
      (type : ConnectType) → Steady env (modify (count_success r env net cfg type))
  count_success-Steady registration = search steady_rules depth 4
  count_success-Steady communication = search steady_rules depth 4

  use_client-Commits : (type : ConnectType) → Commits env type (use_client r env net cfg type)
  unfolding use_client
  use_client-Commits type =
      search
        (
          commits_rules, start_request-Steady, count_success-Steady, connect_client-Steady,
          with_timer-Commits, session-Commits,
        )
        depth 30

  -- The end of with_client.
  client_end :
      (type : ConnectType) (err : IotError) (w : World)
      → ((((err == error_none) ≡ true) × (client type w.ctx ≡ true) × Balanced env 0 w)
          ⊎ (((err == error_none) ≡ false) × (client type w.ctx ≡ false) × Balanced env 1 w))
      → Ended env type
          (((if err == error_none then pure tt else effect env (mqtt_destroy type)) >> pure err) w)
  unfolding ◌>>=◌ effect call pure
  client_end type err w (inl (ok, kept, b)) = rw ok (b, inl refl)
  client_end type err w (inr (bad, free, b)) = rw bad (omega (arith, b), inr free)

  with_client-Ended :
      (type : ConnectType) (w : World)
      → client type w.ctx ≡ false
      → Balanced env 0 w
      → Ended env type (with_client r env net cfg type w)
  unfolding with_client ◌>>=◌ call pure
  with_client-Ended type w free b =
      let w1 : World = (call env (mqtt_create type) w).1 in
      elim (Bool-cases (env.answer w.trace (mqtt_create type) == 0)) [
        | inr bad ↦
            let none_ : Balanced env 0 w1 = rw bad (omega (arith, b)) in rw bad (none_, inl refl)
        | inl ok ↦
            let one : Balanced env 1 w1 = rw ok (omega (arith, b)) in
            rw ok (
              client_end type (use_client r env net cfg type w1).0
                (use_client r env net cfg type w1).1 ((use_client-Commits type).at 0 w1 free one))
      ]

  with_client-EndsOwned : (type : ConnectType) → EndsOwned env type (with_client r env net cfg type)
  with_client-EndsOwned type = record { at = with_client-Ended type }

  es_connect-EndsOwned : (type : ConnectType) → EndsOwned env type (es_connect r env net cfg type)
  unfolding es_connect
  es_connect-EndsOwned type =
      search (steady_rules, EndsOwned-pure, EndsOwned-if, EndsOwned-bind, with_client-EndsOwned)
        depth 30

  -- iot_es_connect, whatever the code around it answers, the network brings and the server sends. If
  -- the context has no client of the type, and the MQTT clients that exist are those of the context,
  -- the clients that exist afterwards are again those of the context: what st_mqtt_create made is
  -- kept there or ended by st_mqtt_destroy, once. If the code is not IOT_ERROR_NONE, the context has no
  -- client of the type.
  pub connect_owns_client :
      (type : ConnectType) (w : World)
      → client type w.ctx ≡ false
      → Balanced env 0 w
      → let (err, w') = es_connect r env net cfg type w in
        Balanced env 0 w' × (((err == error_none) ≡ true) ⊎ (client type w'.ctx ≡ false))
  connect_owns_client type w free b = (es_connect-EndsOwned type).at w free b
