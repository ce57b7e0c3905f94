-- ===== src/Core/Command/Invariant.antt =====
-- The deadlines of the context (src/iot_main.c) under the commands that the task handles.
use st_device_sdk_c.Prelude.{
  ℕ, ◌≡◌, ◌≢◌, refl, sym, subst, ◌⊎◌, inl, inr, Bool, if◌then◌else◌, Option, none, some,
}
use st_device_sdk_c.Errors.{IotError}
use st_device_sdk_c.Util.Backoff.{generator_backoff}
use st_device_sdk_c.Core.Context.{
  ConnectType, IotState, initialized, Context, Noti, dev_deleted, rate_limited, quota_reached,
  send_failed, jwt_expired, preference_updated, other_noti, Command, state_update,
  cloud_registering, cloud_registered, cloud_connecting, notification_received, unsupported,
}
use st_device_sdk_c.Core.Connect.{connect, cleanup}
use st_device_sdk_c.Core.Update.{do_state_updating}
use st_device_sdk_c.Core.Update.Steps.{TimerFits, do_state_updating_step}
use st_device_sdk_c.Core.Command.{
  tell_user, handle_deleted, handle_notification, do_iot_main_command,
}
use st_device_sdk_c.Core.Monad.{Env, M, modify}
use st_device_sdk_c.Core.Monad.Keeps.{Keeps}
use st_device_sdk_c.Core.Monad.Maintains.{
  Maintains, Maintains-of_Keeps, Maintains-pure, Maintains-gets, Maintains-if, Maintains-modify,
  Maintains-call, Maintains-effect, Maintains-ask, Maintains-bind,
}
use st_device_sdk_c.Core.Easysetup.{Config}
use st_device_sdk_c.Core.Update.Transition.{state_timeout}
use st_device_sdk_c.Core.Update.Frame.{machine}
use st_device_sdk_c.Core.Connecting.{
  max_retry_s, arm_retry, retry_connecting, connected, after_connect, open_communication, again,
  try_connecting, handle_connecting,
}
use st_device_sdk_c.Core.Connecting.Retry.{RetryFits, backoff-RetryFits}
use st_device_sdk_c.Core.Command.Frame.{
  handler_rules, report_failure-Keeps, handle_registered-Keeps,
}
use st_device_sdk_c.Core.Command.Cleanup.{
  cleanup-Maintains, connect-Maintains, handle_registering-Maintains,
}

-- The state timer belongs to the state. iot_cleanup goes to INITIALIZED and lets it run.
abbrev pub StateTimerFits : IotState → Option ℕ → Type 0
StateTimerFits s none = Unit {0}
StateTimerFits s (some t) = (s ≡ initialized) ⊎ ((t ≡ state_timeout s) × (t ≢ 0))

pub record IsWellTimed (c : Context) : Type 0 where
  pub state_timer_fits : StateTimerFits c.curr_state c.state_timer
  pub retry_fits : RetryFits c.next_connection_retry_timer

same_machine : (c d : Context) → machine d ≡ machine c → IsWellTimed c → IsWellTimed d
same_machine c d e v = record {
  state_timer_fits =
      subst (λ (m : IotState × Option ℕ × Option ℕ). StateTimerFits m.0 m.1) (sym e)
        v.state_timer_fits;
  retry_fits = subst (λ (m : IotState × Option ℕ × Option ℕ). RetryFits m.2) (sym e) v.retry_fits;
}

modify_retry-IsWellTimed :
    (c : Context) (t : Option ℕ)
    → RetryFits t
    → IsWellTimed c
    → IsWellTimed (record c { next_connection_retry_timer = t })
modify_retry-IsWellTimed c t h v = record { state_timer_fits = v.state_timer_fits; retry_fits = h }

IsWellTimed-of_Keeps : {A : Type 0} (m : M A) → Keeps machine m → Maintains IsWellTimed m
IsWellTimed-of_Keeps m k = Maintains-of_Keeps machine m same_machine k

set_retry-IsWellTimed :
    (count random : ℕ) (made : Bool)
    → Maintains IsWellTimed (
        modify (λ c. record c {
          next_connection_retry_timer =
              if made then some (generator_backoff count max_retry_s random) else none;
        }))
set_retry-IsWellTimed count random made =
    Maintains-modify _ (λ c. modify_retry-IsWellTimed c _ (backoff-RetryFits count random made))

clear_retry-IsWellTimed :
    Maintains IsWellTimed
      (modify (λ c. record c { connection_retry_count = 0; next_connection_retry_timer = none }))
clear_retry-IsWellTimed =
    Maintains-modify _ (λ c v. record { state_timer_fits = v.state_timer_fits; retry_fits = tt })

ruleset connecting_rules = (
  Maintains-pure, Maintains-gets, Maintains-if, Maintains-call, Maintains-effect, Maintains-ask,
  Maintains-bind, set_retry-IsWellTimed, clear_retry-IsWellTimed, IsWellTimed-of_Keeps,
  handler_rules, report_failure-Keeps,
)

-- iot_cleanup goes to INITIALIZED.
initialized-fits : (t : Option ℕ) → StateTimerFits initialized t
initialized-fits none = tt
initialized-fits (some t) = inl refl

set_initialized-IsWellTimed :
    Maintains IsWellTimed (modify (λ c. record c { curr_state = initialized }))
set_initialized-IsWellTimed =
    Maintains-modify _ (λ c v. record {
      state_timer_fits = initialized-fits c.state_timer;
      retry_fits = v.retry_fits;
    })

module _ (env : Env) (cfg : Config) where
  cleanup-IsWellTimed : (reboots : Bool) → Maintains IsWellTimed (cleanup env cfg reboots)
  cleanup-IsWellTimed = cleanup-Maintains env cfg same_machine set_initialized-IsWellTimed

  connect-IsWellTimed : (t : ConnectType) → Maintains IsWellTimed (connect env cfg t)
  connect-IsWellTimed = connect-Maintains env cfg same_machine set_initialized-IsWellTimed

  arm_retry-IsWellTimed : Maintains IsWellTimed (arm_retry env)
  unfolding arm_retry
  arm_retry-IsWellTimed = search connecting_rules depth 14

  retry_connecting-IsWellTimed : (e : IotError) → Maintains IsWellTimed (retry_connecting env e)
  unfolding retry_connecting
  retry_connecting-IsWellTimed e = search (connecting_rules, arm_retry-IsWellTimed) depth 24

  connected-IsWellTimed : Maintains IsWellTimed (connected env cfg)
  unfolding connected
  connected-IsWellTimed = search connecting_rules depth 20

  after_connect-IsWellTimed : (e : IotError) → Maintains IsWellTimed (after_connect env cfg e)
  unfolding after_connect
  after_connect-IsWellTimed e =
      search (connecting_rules, retry_connecting-IsWellTimed, connected-IsWellTimed) depth 20

  open_communication-IsWellTimed : Maintains IsWellTimed (open_communication env cfg)
  unfolding open_communication
  open_communication-IsWellTimed =
      search (connecting_rules, after_connect-IsWellTimed, connect-IsWellTimed) depth 20

  try_connecting-IsWellTimed : Maintains IsWellTimed (try_connecting env cfg)
  unfolding try_connecting again
  try_connecting-IsWellTimed = search (connecting_rules, open_communication-IsWellTimed) depth 20

  handle_connecting-IsWellTimed : Maintains IsWellTimed (handle_connecting env cfg)
  unfolding handle_connecting again
  handle_connecting-IsWellTimed = search (connecting_rules, try_connecting-IsWellTimed) depth 20

  do_state_updating-IsWellTimed :
      (s : IotState) → Maintains IsWellTimed (do_state_updating env cfg s)
  do_state_updating-IsWellTimed s = record {
    at = λ w v. elim (do_state_updating_step env cfg s w) [
      | inl (_, kept) ↦ same_machine w.ctx (do_state_updating env cfg s w).1.ctx kept v
      | inr (_, state, timer, retry) ↦ record {
        state_timer_fits =
            subst (λ t. StateTimerFits t (do_state_updating env cfg s w).1.ctx.state_timer)
              (sym state) (of_TimerFits s (do_state_updating env cfg s w).1.ctx.state_timer timer);
        retry_fits = subst RetryFits (sym retry) v.retry_fits;
      }
    ];
  }
    where
      of_TimerFits : (s : IotState) (t : Option ℕ) → TimerFits env cfg s t → StateTimerFits s t
      of_TimerFits s none h = tt
      of_TimerFits s (some t) h = inr h

  tell_user-IsWellTimed : (n : Noti) → Maintains IsWellTimed (tell_user env cfg n)
  unfolding tell_user
  tell_user-IsWellTimed n = search connecting_rules depth 12

  handle_deleted-IsWellTimed : Maintains IsWellTimed (handle_deleted env cfg)
  unfolding handle_deleted
  handle_deleted-IsWellTimed =
      search (connecting_rules, tell_user-IsWellTimed, cleanup-IsWellTimed) depth 20

  handle_notification-IsWellTimed :
      (n : Noti) → Maintains IsWellTimed (handle_notification env cfg n)
  unfolding handle_notification
  handle_notification-IsWellTimed dev_deleted = handle_deleted-IsWellTimed
  handle_notification-IsWellTimed rate_limited =
      search (connecting_rules, tell_user-IsWellTimed) depth 12
  handle_notification-IsWellTimed quota_reached =
      search (connecting_rules, tell_user-IsWellTimed) depth 12
  handle_notification-IsWellTimed send_failed =
      search (connecting_rules, tell_user-IsWellTimed) depth 12
  handle_notification-IsWellTimed (preference_updated n) =
      search (connecting_rules, tell_user-IsWellTimed) depth 12
  handle_notification-IsWellTimed jwt_expired =
      search (connecting_rules, connect-IsWellTimed) depth 12
  handle_notification-IsWellTimed other_noti = search connecting_rules depth 12

  pub do_iot_main_command-IsWellTimed :
      (cmd : Command) → Maintains IsWellTimed (do_iot_main_command env cfg cmd)
  unfolding do_iot_main_command
  do_iot_main_command-IsWellTimed (state_update s o) =
      search (connecting_rules, do_state_updating-IsWellTimed) depth 12
  do_iot_main_command-IsWellTimed cloud_registering =
      handle_registering-Maintains env cfg same_machine set_initialized-IsWellTimed
  do_iot_main_command-IsWellTimed cloud_registered =
      IsWellTimed-of_Keeps _ (handle_registered-Keeps env cfg)
  do_iot_main_command-IsWellTimed cloud_connecting = handle_connecting-IsWellTimed
  do_iot_main_command-IsWellTimed (notification_received none) = Maintains-pure _
  do_iot_main_command-IsWellTimed (notification_received (some n)) =
      handle_notification-IsWellTimed n
  do_iot_main_command-IsWellTimed unsupported = Maintains-pure _
