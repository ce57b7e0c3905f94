-- ===== src/Core/Command.antt =====
-- _do_iot_main_command and _device_work_queue_task (src/iot_main.c).
pub mod Frame
pub mod Cleanup
pub mod Invariant
pub mod Rounds
use st_device_sdk_c.Prelude.{
  ℕ, zero, suc, Bool, true, false, if◌then◌else◌, List, [], ◌∷◌, some, none,
}
use st_device_sdk_c.Errors.{IotError, error_none, bad_req}
use st_device_sdk_c.Core.Context.{
  Context, communication, Noti, dev_deleted, rate_limited, quota_reached, send_failed, jwt_expired,
  preference_updated, other_noti, Command, state_update, cloud_registering, cloud_registered,
  cloud_connecting, notification_received, unsupported,
}
use st_device_sdk_c.Core.Monad.{
  Env, World, M, pure, ◌>>=◌, ◌>>◌, gets, modify, effect, call_noti_cb, eventgroup_set_cmd_done,
}
use st_device_sdk_c.Core.Easysetup.{Config}
use st_device_sdk_c.Core.Connect.{connect, disconnect, cleanup}
use st_device_sdk_c.Core.Update.{do_state_updating}
use st_device_sdk_c.Core.Registering.{handle_registering, handle_registered}
use st_device_sdk_c.Core.Connecting.{handle_connecting}

module _ (env : Env) (cfg : Config) where
  tell_user : Noti → M (Unit {0})
  tell_user noti = do
    has_cb ← gets (λ c. c.noti_cb)
    if has_cb then effect env (call_noti_cb noti) else pure tt

  handle_deleted : M IotError
  unfolding tell_user
  handle_deleted = do
    by_user ← gets (λ c. c.usr_delete_req)
    if by_user
        then (do
          modify (λ c. record c { usr_delete_req = false })
          effect env eventgroup_set_cmd_done
          pure error_none)
        else (do tell_user dev_deleted; _ ← cleanup env cfg true; pure error_none)

  -- IOT_COMMAND_NOTIFICATION_RECEIVED
  handle_notification : Noti → M IotError
  unfolding tell_user handle_deleted
  handle_notification dev_deleted = handle_deleted
  handle_notification rate_limited = do tell_user rate_limited; pure error_none
  handle_notification quota_reached = do tell_user quota_reached; pure error_none
  handle_notification send_failed = do tell_user send_failed; pure error_none
  handle_notification (preference_updated n) = do tell_user (preference_updated n); pure error_none
  handle_notification jwt_expired = do
    _ ← disconnect env communication
    _ ← connect env cfg communication
    pure error_none
  handle_notification other_noti = pure error_none

  pub do_iot_main_command : Command → M IotError
  unfolding handle_notification
  do_iot_main_command (state_update s opt) = do _ ← do_state_updating env cfg s; pure error_none
  do_iot_main_command cloud_registering = handle_registering env cfg
  do_iot_main_command cloud_registered = handle_registered env
  do_iot_main_command cloud_connecting = handle_connecting env cfg
  do_iot_main_command (notification_received none) = pure error_none
  do_iot_main_command (notification_received (some noti)) = handle_notification noti
  do_iot_main_command unsupported = pure bad_req

  -- One round of the task: iot_util_queue_receive, and the handler of what it returned.
  take_and_run : World → List Command → World
  take_and_run w [] = w
  take_and_run w (cmd ∷ rest) = (do_iot_main_command cmd (record w { queue = rest })).1

  pub work_round : World → World
  unfolding take_and_run
  work_round w = take_and_run w w.queue

  -- The task after `n` rounds.
  pub work_rounds : ℕ → World → World
  unfolding work_round
  work_rounds zero w = w
  work_rounds (suc n) w = work_rounds n (work_round w)
