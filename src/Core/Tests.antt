-- ===== src/Core/Tests.antt =====
-- The theorems about the core task at a sample device.
use st_device_sdk_c.Prelude.{
  ◌++◌, if◌then◌else◌, inr, refl, ◌≡◌, ◌≢◌, ◌⊎◌, false, List, [], ◌∷◌, none, some, arith,
}
use st_device_sdk_c.Errors.{error_none, invalid_args}
use st_device_sdk_c.Core.Context.{
  IotState, initialized, prov_sleep, prov_enter, prov_confirm, prov_done, cloud_connected, opt_none,
  Command, state_update, notification_received, dev_deleted, cloud_connecting, cloud_registering,
}
use st_device_sdk_c.Core.Monad.{World}
use st_device_sdk_c.Core.Connect.{no_wifi, no_cloud}
use st_device_sdk_c.Core.Sample.{good_env, ble, context_in, world_in}
use st_device_sdk_c.Core.Update.{do_state_updating}
use st_device_sdk_c.Core.Update.Transition.{Transition, confirm}
use st_device_sdk_c.Core.Update.Frame.{machine}
use st_device_sdk_c.Core.Update.Steps.{
  TimerFits, do_state_updating_step, do_state_updating_refuses, do_state_updating_moves,
}
use st_device_sdk_c.Core.Command.{do_iot_main_command, work_rounds}
use st_device_sdk_c.Core.Command.Invariant.{IsWellTimed}
use st_device_sdk_c.Core.Command.Rounds.{Moves, do_iot_main_command-Moves, work_rounds-IsWellTimed}
use st_device_sdk_c.Core.Post.{send_state_update}
use st_device_sdk_c.Core.Registering.{retry_registering}
use st_device_sdk_c.Core.Registering.Retry.{IsCalm, retry_registering_posts}
use st_device_sdk_c.Core.Timeouts.{TimesOut, state_timeout_cb, state_timeout-Transition}
use st_device_sdk_c.Core.Boot.{Stored}
use st_device_sdk_c.Core.Start.{create_easysetup_resources}
use st_device_sdk_c.Core.Start.Resources.{Outcome, create_easysetup_resources-Outcome}

abbrev pub to_registered : List Command
to_registered = state_update prov_done opt_none ∷ cloud_connecting ∷ []

do_state_updating_step_example :
    let (err, w') = do_state_updating good_env ble prov_done (world_in initialized []) in
    ((err ≢ error_none) × (machine w'.ctx ≡ machine (context_in initialized)))
    ⊎ (Transition initialized prov_done
        × (w'.ctx.curr_state ≡ prov_done)
        × TimerFits good_env ble prov_done w'.ctx.state_timer
        × (w'.ctx.next_connection_retry_timer ≡ none))
do_state_updating_step_example =
    do_state_updating_step good_env ble prov_done (world_in initialized [])

no_wake : ¬ Transition prov_sleep prov_enter
no_wake t = elim t [ ]

do_state_updating_refuses_example :
    do_state_updating good_env ble prov_enter (world_in prov_sleep [])
    ≡ (invalid_args, world_in prov_sleep [])
do_state_updating_refuses_example =
    do_state_updating_refuses good_env ble prov_enter (world_in prov_sleep []) no_wake

confirm_ne_enter : prov_confirm ≢ prov_enter
confirm_ne_enter = ground arith

do_state_updating_moves_example :
    (do_state_updating good_env ble prov_confirm (world_in prov_enter [])).1.ctx.curr_state
    ≡ prov_confirm
do_state_updating_moves_example =
    do_state_updating_moves good_env ble prov_confirm (world_in prov_enter []) confirm
      confirm_ne_enter

do_iot_main_command-Moves_example :
    Moves
      (world_in cloud_connected [])
      (notification_received (some dev_deleted))
      (do_iot_main_command good_env ble
        (notification_received (some dev_deleted))
        (world_in cloud_connected [])).1.ctx.curr_state
do_iot_main_command-Moves_example =
    do_iot_main_command-Moves good_env ble (notification_received (some dev_deleted))
      (world_in cloud_connected [])

no_timers-IsWellTimed : IsWellTimed (context_in initialized)
no_timers-IsWellTimed = record { state_timer_fits = tt; retry_fits = tt }

work_rounds-IsWellTimed_example :
    IsWellTimed (work_rounds good_env ble 3 (world_in initialized to_registered)).ctx
work_rounds-IsWellTimed_example =
    work_rounds-IsWellTimed good_env ble 3 (world_in initialized to_registered)
      no_timers-IsWellTimed

-- The easy setup runs, with its timer.
abbrev waiting : World
waiting = record {
  ctx = record (context_in prov_enter) { state_timer = some 300000 };
  queue = [];
  trace = [];
}

waiting-IsWellTimed : IsWellTimed (record (context_in prov_enter) { state_timer = some 300000 })
waiting-IsWellTimed = record { state_timer_fits = inr (refl, omega arith); retry_fits = tt }

enter_ne_initialized : prov_enter ≢ initialized
enter_ne_initialized = ground arith

state_timeout-Transition_example :
    (next : IotState) × TimesOut prov_enter next
    × Transition prov_enter next
    × ((state_timeout_cb good_env waiting).1 ≡ (send_state_update good_env next opt_none waiting).1)
state_timeout-Transition_example =
    state_timeout-Transition good_env 300000 waiting waiting-IsWellTimed refl enter_ne_initialized

-- Wi-Fi, broker and device id are stored, and the profile is not.
abbrev all_stored : Stored
all_stored = record {
  prov = (
    error_none,
    record no_wifi { ssid = 65 ∷ [] },
    record no_cloud { broker_url = some (66 ∷ []) },
  );
  device_id = (error_none, 67 ∷ []);
  dip = (15, record { dip_id = []; dip_major_version = 0; dip_minor_version = 0 });
  location = (15, []);
  random_id = error_none;
}

create_easysetup_resources-Outcome_example :
    Outcome (create_easysetup_resources good_env false (world_in initialized []))
create_easysetup_resources-Outcome_example =
    create_easysetup_resources-Outcome good_env false (world_in initialized [])

good_env-IsCalm : IsCalm good_env
good_env-IsCalm = record { memory = λ h. refl; lock = λ h. refl; quiet = λ h c. refl }

retry_registering_posts_example :
    let (e, w') = retry_registering good_env 303 (world_in prov_done (cloud_connecting ∷ [])) in
    (e ≡ 303)
    × (w'.queue
        ≡ (cloud_connecting ∷ [])
          ++ (if false then cloud_registering ∷ [] else cloud_registering ∷ cloud_registering ∷ []))
retry_registering_posts_example =
    retry_registering_posts good_env 303 (world_in prov_done (cloud_connecting ∷ []))
      good_env-IsCalm
