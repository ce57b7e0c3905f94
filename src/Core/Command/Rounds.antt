-- ===== src/Core/Command/Rounds.antt =====
-- Lemmas on the loop of _device_work_queue_task (src/iot_main.c).
use st_device_sdk_c.Prelude.{
  ℕ, zero, suc, ◌≡◌, refl, ap, sym, subst, ◌∙◌, ◌⊎◌, inl, inr, Bool-cases, Bool, true, false, List,
  [], ◌∷◌, Option, none, some,
}
use st_device_sdk_c.Errors.{IotError, error_none}
use st_device_sdk_c.Core.Context.{
  IotState, initialized, communication, Context, Noti, dev_deleted, rate_limited, quota_reached,
  send_failed, jwt_expired, preference_updated, other_noti, Command, state_update,
  cloud_registering, cloud_registered, cloud_connecting, notification_received, unsupported,
}
use st_device_sdk_c.Core.Monad.{Env, World, M, ◌>>=◌, ◌>>◌, pure, gets, modify, effect}
use st_device_sdk_c.Core.Monad.Keeps.{Keeps, keeps_rules}
use st_device_sdk_c.Core.Monad.Maintains.{
  Maintains, Maintains-of_Keeps, Maintains-pure, Maintains-gets, Maintains-if, Maintains-modify,
  Maintains-call, Maintains-effect, Maintains-ask, Maintains-bind,
}
use st_device_sdk_c.Core.Easysetup.{Config}
use st_device_sdk_c.Core.Update.{do_state_updating}
use st_device_sdk_c.Core.Update.Transition.{Transition}
use st_device_sdk_c.Core.Update.Steps.{do_state_updating_step}
use st_device_sdk_c.Core.Update.Frame.{machine}
use st_device_sdk_c.Core.Connect.{connect, disconnect, cleanup}
use st_device_sdk_c.Core.Connecting.{
  arm_retry, retry_connecting, connected, after_connect, open_communication, again, try_connecting,
  handle_connecting,
}
use st_device_sdk_c.Core.Command.{
  tell_user, handle_deleted, handle_notification, do_iot_main_command, take_and_run, work_round,
  work_rounds,
}
use st_device_sdk_c.Core.Command.Frame.{
  handler_rules, set_network_status-Keeps, report_failure-Keeps, handle_registered-Keeps,
}
use st_device_sdk_c.Core.Command.Cleanup.{connect-Maintains, handle_registering-Maintains}
use st_device_sdk_c.Core.Command.Invariant.{IsWellTimed, do_iot_main_command-IsWellTimed}

abbrev state : Context → IotState
state c = c.curr_state

state-Keeps : {A : Type 0} (m : M A) → Keeps machine m → Keeps state m
state-Keeps m k = record { at = λ w. ap (λ (m : IotState × Option ℕ × Option ℕ). m.0) (k.at w) }

ruleset state_rules = (keeps_rules, state-Keeps, handler_rules)

-- The commands that connect to the server.
pub data Connects : Command → Type 0 where
  registers : Connects cloud_registering
  connects : Connects cloud_connecting
  renews : Connects (notification_received (some jwt_expired))

-- How one command may move the state of the context: not at all, by a transition, or to
-- INITIALIZED: for the notice that the cloud deleted the device, and where a server that the command
-- connects to rejects the device.
pub data Moves (w : World) (cmd : Command) : IotState → Type 0 where
  stays : Moves w cmd w.ctx.curr_state
  steps : {s : IotState} → Transition w.ctx.curr_state s → Moves w cmd s
  cleans :
      cmd ≡ notification_received (some dev_deleted)
      → w.ctx.usr_delete_req ≡ false
      → Moves w cmd initialized
  rejected : Connects cmd → Moves w cmd initialized

-- The state is a given one, or a cleanup has set it to INITIALIZED.
abbrev IsOrCleaned : IotState → Context → Type 0
IsOrCleaned s c = (c.curr_state ≡ s) ⊎ (c.curr_state ≡ initialized)

same_state : (s : IotState) (c d : Context) → state d ≡ state c → IsOrCleaned s c → IsOrCleaned s d
same_state s c d e (inl is) = inl (e ∙ is)
same_state s c d e (inr cleaned) = inr (e ∙ cleaned)

same_cleaned :
    (s : IotState) (c d : Context) → machine d ≡ machine c → IsOrCleaned s c → IsOrCleaned s d
same_cleaned s c d e = same_state s c d (ap (λ (m : IotState × Option ℕ × Option ℕ). m.0) e)

IsOrCleaned-of_Keeps :
    (s : IotState) {A : Type 0} (m : M A) → Keeps state m → Maintains (IsOrCleaned s) m
IsOrCleaned-of_Keeps s m k = Maintains-of_Keeps state m (same_state s) k

IsOrCleaned-of_machine :
    (s : IotState) {A : Type 0} (m : M A) → Keeps machine m → Maintains (IsOrCleaned s) m
IsOrCleaned-of_machine s m k = Maintains-of_Keeps machine m (same_cleaned s) k

ruleset cleaned_rules = (
  Maintains-pure, Maintains-gets, Maintains-if, Maintains-call, Maintains-effect, Maintains-ask,
  Maintains-bind, handler_rules,
)

-- The states that the task can get into from a state.
pub data Reach (s : IotState) : IotState → Type 0 where
  here : Reach s s
  then_step : {t u : IotState} → Reach s t → Transition t u → Reach s u
  then_cleanup : {t : IotState} → Reach s t → Reach s initialized

module _ (env : Env) (cfg : Config) where
  arm_retry-Keeps : Keeps state (arm_retry env)
  unfolding arm_retry
  arm_retry-Keeps = search keeps_rules depth 14

  retry_connecting-Keeps : (e : IotError) → Keeps state (retry_connecting env e)
  unfolding retry_connecting
  retry_connecting-Keeps e =
      search
        (keeps_rules, arm_retry-Keeps, set_network_status-Keeps, report_failure-Keeps, state-Keeps)
        depth 24

  connected-Keeps : Keeps state (connected env cfg)
  unfolding connected
  connected-Keeps = search state_rules depth 20

  after_connect-Keeps : (e : IotError) → Keeps state (after_connect env cfg e)
  unfolding after_connect
  after_connect-Keeps e = search (state_rules, retry_connecting-Keeps, connected-Keeps) depth 20

  module _ (s : IotState) where
    resets : Maintains (IsOrCleaned s) (modify (λ c. record c { curr_state = initialized }))
    resets = Maintains-modify _ (λ c h. inr refl)

    open_communication-IsOrCleaned : Maintains (IsOrCleaned s) (open_communication env cfg)
    unfolding open_communication
    open_communication-IsOrCleaned =
        search
          (
            cleaned_rules,
            IsOrCleaned-of_Keeps,
            IsOrCleaned-of_machine,
            after_connect-Keeps,
            connect-Maintains env cfg (same_cleaned s) resets,
          )
          depth 20

    try_connecting-IsOrCleaned : Maintains (IsOrCleaned s) (try_connecting env cfg)
    unfolding try_connecting again
    try_connecting-IsOrCleaned =
        search (cleaned_rules, IsOrCleaned-of_machine, open_communication-IsOrCleaned) depth 20

    handle_connecting-IsOrCleaned : Maintains (IsOrCleaned s) (handle_connecting env cfg)
    unfolding handle_connecting again
    handle_connecting-IsOrCleaned =
        search (cleaned_rules, IsOrCleaned-of_machine, try_connecting-IsOrCleaned) depth 20

  tell_user-Keeps : (n : Noti) → Keeps state (tell_user env cfg n)
  unfolding tell_user
  tell_user-Keeps n = search state_rules depth 12

  stays_of :
      {A : Type 0} (cmd : Command) (m : M A)
      → Keeps state m
      → (w : World) → Moves w cmd (m w).1.ctx.curr_state
  stays_of cmd m k w = subst (Moves w cmd) (sym (k.at w)) stays

  cleanup-state : (b : Bool) (w : World) → (cleanup env cfg b w).1.ctx.curr_state ≡ initialized
  unfolding cleanup ◌>>=◌ gets modify pure effect
  cleanup-state true w = refl
  cleanup-state false w = refl

  handle_deleted_by_user :
      (w : World)
      → w.ctx.usr_delete_req ≡ true
      → (handle_deleted env cfg w).1.ctx.curr_state ≡ w.ctx.curr_state
  unfolding handle_deleted ◌>>=◌ gets modify pure effect
  handle_deleted_by_user w h = rw h refl

  handle_deleted_by_cloud :
      (w : World)
      → w.ctx.usr_delete_req ≡ false
      → (handle_deleted env cfg w).1.ctx.curr_state ≡ initialized
  unfolding handle_deleted ◌>>=◌ gets pure
  handle_deleted_by_cloud w h = simp (h, cleanup-state)

  handle_deleted-Moves :
      (w : World)
      → Moves w
          (notification_received (some dev_deleted))
          (handle_deleted env cfg w).1.ctx.curr_state
  handle_deleted-Moves w = elim (Bool-cases w.ctx.usr_delete_req) [
    | inl by_user ↦ subst (Moves w _) (sym (handle_deleted_by_user w by_user)) stays
    | inr by_cloud ↦
        subst (Moves w _) (sym (handle_deleted_by_cloud w by_cloud)) (cleans refl by_cloud)
  ]

  quiet-Moves :
      (cmd : Command) (n : Noti) (w : World)
      → Moves w cmd ((do tell_user env cfg n; pure error_none) w).1.ctx.curr_state
  quiet-Moves cmd n w =
      stays_of _ (do tell_user env cfg n; pure error_none)
        (search (keeps_rules, tell_user-Keeps) depth 12) w

  connecting-Moves :
      {A : Type 0} (cmd : Command) (m : M A)
      → Connects cmd
      → (w : World) → Maintains (IsOrCleaned w.ctx.curr_state) m
      → Moves w cmd (m w).1.ctx.curr_state
  connecting-Moves cmd m why w k = elim (k.at w (inl refl)) [
    | inl same ↦ subst (Moves w cmd) (sym same) stays
    | inr cleaned ↦ subst (Moves w cmd) (sym cleaned) (rejected why)
  ]

  expired-Moves :
      (w : World)
      → Moves w
          (notification_received (some jwt_expired))
          ((do _ ← disconnect env communication; _ ← connect env cfg communication; pure error_none)
            w).1.ctx.curr_state
  expired-Moves w =
      let s : IotState = w.ctx.curr_state in
      connecting-Moves _
        (do _ ← disconnect env communication; _ ← connect env cfg communication; pure error_none)
        renews w
        (search
          (
            cleaned_rules,
            IsOrCleaned-of_machine,
            connect-Maintains env cfg (same_cleaned s) (resets s),
          )
          depth 12)

  handle_notification-Moves :
      (n : Noti) (w : World)
      → Moves w (notification_received (some n)) (handle_notification env cfg n w).1.ctx.curr_state
  unfolding handle_notification pure
  handle_notification-Moves dev_deleted w = handle_deleted-Moves w
  handle_notification-Moves rate_limited w = quiet-Moves _ _ w
  handle_notification-Moves quota_reached w = quiet-Moves _ _ w
  handle_notification-Moves send_failed w = quiet-Moves _ _ w
  handle_notification-Moves (preference_updated n) w = quiet-Moves _ _ w
  handle_notification-Moves jwt_expired w = expired-Moves w
  handle_notification-Moves other_noti w = stays

  do_state_updating-Moves :
      (cmd : Command) (s : IotState) (w : World)
      → Moves w cmd (do_state_updating env cfg s w).1.ctx.curr_state
  do_state_updating-Moves cmd s w = elim (do_state_updating_step env cfg s w) [
    | inl (_, kept) ↦
        subst (Moves w cmd) (sym (ap (λ (m : IotState × Option ℕ × Option ℕ). m.0) kept)) stays
    | inr (t, entered, _, _) ↦ subst (Moves w cmd) (sym entered) (steps t)
  ]

  -- A command leaves the state of the context as it is, or makes a transition of `Transition`, or,
  -- where it is the notice that the device was deleted and the user did not ask for that, or where it
  -- connects to a server that may reject the device, leaves the context in INITIALIZED: for every build, and whatever the drivers and the other threads do.
  pub do_iot_main_command-Moves :
      (cmd : Command) (w : World) → Moves w cmd (do_iot_main_command env cfg cmd w).1.ctx.curr_state
  unfolding do_iot_main_command ◌>>=◌ pure
  do_iot_main_command-Moves (state_update s o) w = do_state_updating-Moves _ s w
  do_iot_main_command-Moves cloud_registering w = connecting-Moves _ _ registers w (
      handle_registering-Maintains env cfg (same_cleaned w.ctx.curr_state)
        (resets w.ctx.curr_state))
  do_iot_main_command-Moves cloud_registered w =
      stays_of _ _ (state-Keeps _ (handle_registered-Keeps env cfg)) w
  do_iot_main_command-Moves cloud_connecting w =
      connecting-Moves _ _ connects w (handle_connecting-IsOrCleaned w.ctx.curr_state)
  do_iot_main_command-Moves (notification_received none) w = stays
  do_iot_main_command-Moves (notification_received (some n)) w = handle_notification-Moves n w
  do_iot_main_command-Moves unsupported w = stays

  Reach-trans : {s t u : IotState} → Reach s t → Reach t u → Reach s u
  Reach-trans r here = r
  Reach-trans r (then_step r' t) = then_step (Reach-trans r r') t
  Reach-trans r (then_cleanup r') = then_cleanup (Reach-trans r r')

  Reach-of_Moves :
      {w : World} {cmd : Command} {s : IotState} → Moves w cmd s → Reach w.ctx.curr_state s
  Reach-of_Moves stays = here
  Reach-of_Moves (steps t) = then_step here t
  Reach-of_Moves (cleans _ _) = then_cleanup here
  Reach-of_Moves (rejected _) = then_cleanup here

  take_and_run-Reach :
      (w : World) (q : List Command)
      → Reach w.ctx.curr_state (take_and_run env cfg w q).ctx.curr_state
  unfolding take_and_run
  take_and_run-Reach w [] = here
  take_and_run-Reach w (cmd ∷ rest) =
      Reach-of_Moves (do_iot_main_command-Moves cmd (record w { queue = rest }))

  -- After any number of rounds of the task, the state is reached from the first one by transitions
  -- of `Transition` and cleanups alone.
  pub work_rounds-Reach :
      (n : ℕ) (w : World) → Reach w.ctx.curr_state (work_rounds env cfg n w).ctx.curr_state
  unfolding work_rounds work_round
  work_rounds-Reach zero w = here
  work_rounds-Reach (suc n) w =
      Reach-trans (take_and_run-Reach w w.queue) (work_rounds-Reach n (work_round env cfg w))

  take_and_run-IsWellTimed :
      (w : World) (q : List Command)
      → IsWellTimed w.ctx
      → IsWellTimed (take_and_run env cfg w q).ctx
  unfolding take_and_run
  take_and_run-IsWellTimed w [] v = v
  take_and_run-IsWellTimed w (cmd ∷ rest) v =
      (do_iot_main_command-IsWellTimed env cfg cmd).at (record w { queue = rest }) v

  -- From a context whose timers fit its state, any number of rounds of the task leaves one: a state
  -- timer that runs has the timeout of the current state, unless a cleanup left it running in
  -- INITIALIZED, and the timer of the next retry to connect is between 1 s and 64 s.
  pub work_rounds-IsWellTimed :
      (n : ℕ) (w : World) → IsWellTimed w.ctx → IsWellTimed (work_rounds env cfg n w).ctx
  unfolding work_rounds work_round
  work_rounds-IsWellTimed zero w v = v
  work_rounds-IsWellTimed (suc n) w v =
      work_rounds-IsWellTimed n (work_round env cfg w) (take_and_run-IsWellTimed w w.queue v)
