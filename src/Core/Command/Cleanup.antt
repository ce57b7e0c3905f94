-- ===== src/Core/Command/Cleanup.antt =====
-- What iot_cleanup and the connections to the server, which may call it, maintain (src/iot_main.c).
use st_device_sdk_c.Prelude.{◌≡◌, Bool}
use st_device_sdk_c.Core.Context.{ConnectType, registration, communication, Context, initialized}
use st_device_sdk_c.Core.Monad.{Env, M, modify}
use st_device_sdk_c.Core.Monad.Keeps.{Keeps}
use st_device_sdk_c.Core.Monad.Maintains.{
  Maintains, Maintains-of_Keeps, Maintains-pure, Maintains-gets, Maintains-if, Maintains-call,
  Maintains-effect, Maintains-ask, Maintains-bind,
}
use st_device_sdk_c.Core.Easysetup.{Config}
use st_device_sdk_c.Core.Update.Frame.{machine}
use st_device_sdk_c.Core.Connect.{connect, cleanup}
use st_device_sdk_c.Core.Registering.{handle_registering}
use st_device_sdk_c.Core.Command.Frame.{handler_rules, device_cleanup-Keeps}

ruleset cleanup_rules = (
  Maintains-pure, Maintains-gets, Maintains-if, Maintains-call, Maintains-effect, Maintains-ask,
  Maintains-bind, handler_rules,
)

-- An invariant that depends on the state and the deadlines alone, and that INITIALIZED keeps.
module _ (env : Env) (cfg : Config) {P : Context → Type 0}
    (same : (c d : Context) → machine d ≡ machine c → P c → P d)
    (resets : Maintains P (modify (λ c. record c { curr_state = initialized }))) where
  keeps : {A : Type 0} (m : M A) → Keeps machine m → Maintains P m
  keeps m k = Maintains-of_Keeps machine m same k

  set_initialized : Maintains P (modify (λ c. record c { curr_state = initialized }))
  set_initialized = resets

  pub cleanup-Maintains : (reboots : Bool) → Maintains P (cleanup env cfg reboots)
  unfolding cleanup
  cleanup-Maintains reboots =
      search (cleanup_rules, keeps, set_initialized, device_cleanup-Keeps) depth 30

  pub connect-Maintains : (t : ConnectType) → Maintains P (connect env cfg t)
  unfolding connect
  connect-Maintains registration = search (cleanup_rules, keeps, cleanup-Maintains) depth 24
  connect-Maintains communication = search (cleanup_rules, keeps, cleanup-Maintains) depth 24

  pub handle_registering-Maintains : Maintains P (handle_registering env cfg)
  unfolding handle_registering
  handle_registering-Maintains =
      search (cleanup_rules, keeps, connect-Maintains) depth 40 fits 20000
