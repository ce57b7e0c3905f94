-- ===== src/Core/Update/Steps.antt =====
-- Lemmas on the branches of _do_state_updating (src/iot_main.c), against the transition relation.
use st_device_sdk_c.Prelude.{
  ℕ, ◌≡◌, ◌≢◌, refl, sym, ap, ◌∙◌, subst, ◌⊎◌, inl, inr, Bool-cases, true, not, ◌==◌, if◌then◌else◌,
  Option, none, some, arith,
}
use st_device_sdk_c.Errors.{IotError, error_none, invalid_args}
use st_device_sdk_c.Core.Context.{
  IotState, initialized, prov_sleep, prov_enter, prov_confirm, prov_done, cloud_disconnected,
  cloud_connected,
}
use st_device_sdk_c.Core.Monad.{Env, World, M, ◌>>=◌, gets, pure, modify, ask}
use st_device_sdk_c.Core.Monad.Keeps.{Keeps, keeps_rules}
use st_device_sdk_c.Core.Monad.Yields.{Yields, yields_rules}
use st_device_sdk_c.Core.Post.Frame.{command_send-Keeps}
use st_device_sdk_c.Core.Easysetup.{Config}
use st_device_sdk_c.Core.Wifi.{ble_ctrl_request}
use st_device_sdk_c.Core.Update.{
  Outcome, returned, broke, leave, set_timer, notify, enter, do_state_updating,
}
use st_device_sdk_c.Core.Update.Transition.{
  Transition, start_setup, start_registered, start_provisioned, confirm, fall_asleep, finish_setup,
  registered, retry_setup, confirm_again, connected, setup_again, lost, state_timeout,
}
use st_device_sdk_c.Core.Update.Frame.{
  machine, report-Keeps, wifi_ctrl_request-Keeps, easysetup_init-Keeps,
}

ruleset leave_rules =
    (keeps_rules, command_send-Keeps, wifi_ctrl_request-Keeps, easysetup_init-Keeps)

-- How the `switch` may be left.
abbrev Fits : IotState → IotState → Outcome → Type 0
Fits cur new_state (returned e) = e ≢ error_none
Fits cur new_state (broke e t) =
    Transition cur new_state × ((t ≡ 0) ⊎ (t ≡ state_timeout new_state))

failed : (e : IotError) → not (e == error_none) ≡ true → e ≢ error_none
failed e h = ground arith

refused : invalid_args ≢ error_none
refused = omega arith

ruleset fits_rules = (yields_rules, failed, refused)

module _ (env : Env) (cfg : Config) where
  leave-Keeps : (cur new_state : IotState) → Keeps machine (leave env cfg cur new_state)
  unfolding leave ble_ctrl_request
  leave-Keeps initialized prov_enter = search leave_rules depth 20
  leave-Keeps initialized prov_done = search leave_rules depth 20
  leave-Keeps initialized cloud_disconnected = search leave_rules depth 20
  leave-Keeps prov_enter prov_confirm = search leave_rules depth 20
  leave-Keeps prov_enter prov_sleep = search leave_rules depth 20
  leave-Keeps prov_confirm prov_done = search leave_rules depth 20
  leave-Keeps prov_done cloud_disconnected = search leave_rules depth 20
  leave-Keeps prov_done prov_enter = search leave_rules depth 20
  leave-Keeps prov_done prov_confirm = search leave_rules depth 20
  leave-Keeps cloud_disconnected cloud_connected = search leave_rules depth 20
  leave-Keeps cloud_disconnected prov_confirm = search leave_rules depth 20
  leave-Keeps cloud_connected cloud_disconnected = search leave_rules depth 20
  leave-Keeps _ _ = search leave_rules depth 20

  leave-Fits :
      (cur new_state : IotState) → Yields (Fits cur new_state) (leave env cfg cur new_state)
  unfolding leave
  leave-Fits initialized prov_enter = search (fits_rules, start_setup, inl, inr) depth 20
  leave-Fits initialized prov_done = search (fits_rules, start_registered, inl, inr) depth 20
  leave-Fits initialized cloud_disconnected = search (fits_rules, start_provisioned, inl) depth 20
  leave-Fits prov_enter prov_confirm = search (fits_rules, confirm, inl) depth 20
  leave-Fits prov_enter prov_sleep = search (fits_rules, fall_asleep, inl) depth 20
  leave-Fits prov_confirm prov_done = search (fits_rules, finish_setup, inl, inr) depth 20
  leave-Fits prov_done cloud_disconnected = search (fits_rules, registered, inl) depth 20
  leave-Fits prov_done prov_enter = search (fits_rules, retry_setup, inl, inr) depth 20
  leave-Fits prov_done prov_confirm = search (fits_rules, confirm_again, inl) depth 20
  leave-Fits cloud_disconnected cloud_connected = search (fits_rules, connected, inl) depth 20
  leave-Fits cloud_disconnected prov_confirm = search (fits_rules, setup_again, inl) depth 20
  leave-Fits cloud_connected cloud_disconnected = search (fits_rules, lost, inl) depth 20
  leave-Fits _ _ = search fits_rules depth 20

  notify-Keeps : (s : IotState) (e : IotError) → Keeps machine (notify env cfg s e)
  unfolding notify
  notify-Keeps initialized e = search keeps_rules depth 20
  notify-Keeps prov_sleep e = search keeps_rules depth 20
  notify-Keeps prov_enter e = search (keeps_rules, report-Keeps) depth 20
  notify-Keeps prov_confirm e = search keeps_rules depth 20
  notify-Keeps prov_done e = search (keeps_rules, report-Keeps) depth 20
  notify-Keeps cloud_disconnected e = search (keeps_rules, report-Keeps) depth 20
  notify-Keeps cloud_connected e = search (keeps_rules, report-Keeps) depth 20

  -- The timer that runs after the state is entered, if any, has the timeout of that state.
  abbrev pub TimerFits : IotState → Option ℕ → Type 0
  TimerFits s none = Unit {0}
  TimerFits s (some t) = (t ≡ state_timeout s) × (t ≢ 0)

  set_timer-fits :
      (s : IotState) (t : ℕ) (w : World)
      → (t ≡ 0) ⊎ (t ≡ state_timeout s)
      → TimerFits s (set_timer env cfg t w).1.ctx.state_timer
  unfolding set_timer ◌>>=◌ ask modify
  set_timer-fits s t w h = elim (Bool-cases (t == 0)) [
    | inl none_asked ↦ rw none_asked tt
    | inr asked ↦ rw asked (ground arith)
  ]

  set_timer-Keeps : (t : ℕ) → Keeps (λ c. c.next_connection_retry_timer) (set_timer env cfg t)
  unfolding set_timer
  set_timer-Keeps t = search keeps_rules depth 12

  callback : IotState → IotError → M IotError
  callback s e = do has_cb ← gets (λ c. c.status_cb); if has_cb then notify env cfg s e else pure e

  callback-Keeps : (s : IotState) (e : IotError) → Keeps machine (callback s e)
  unfolding callback
  callback-Keeps s e = search (keeps_rules, notify-Keeps) depth 12

  enter-machine :
      (new_state : IotState) (e : IotError) (t : ℕ) (w : World)
      → (t ≡ 0) ⊎ (t ≡ state_timeout new_state)
      → let w' = (enter env cfg new_state (broke e t) w).1 in
        (w'.ctx.curr_state ≡ new_state)
        × TimerFits new_state w'.ctx.state_timer
        × (w'.ctx.next_connection_retry_timer ≡ w.ctx.next_connection_retry_timer)
  unfolding enter ◌>>=◌ modify callback
  enter-machine new_state e t w h =
      let w' = (set_timer env cfg t w).1 in
      let kept =
        (callback-Keeps new_state e).at
          (record w' { ctx = record w'.ctx { curr_state = new_state } }) in
      (
        ap (λ (m : IotState × Option ℕ × Option ℕ). m.0) kept,
        subst (TimerFits new_state) (sym (ap (λ (m : IotState × Option ℕ × Option ℕ). m.1) kept))
            (set_timer-fits new_state t w h),
        ap (λ (m : IotState × Option ℕ × Option ℕ). m.2) kept ∙ (set_timer-Keeps t).at w,
      )

  conclude :
      (cur new_state : IotState) (w : World) (left : Outcome × World)
      → machine left.1.ctx ≡ machine w.ctx
      → Fits cur new_state left.0
      → let (err, w') = enter env cfg new_state left.0 left.1 in
        ((err ≢ error_none) × (machine w'.ctx ≡ machine w.ctx))
        ⊎ (Transition cur new_state
            × (w'.ctx.curr_state ≡ new_state)
            × TimerFits new_state w'.ctx.state_timer
            × (w'.ctx.next_connection_retry_timer ≡ w.ctx.next_connection_retry_timer))
  conclude cur new_state w (returned e, w') kept fits = inl (unfold enter pure in (fits, kept))
  conclude cur new_state w (broke e t, w') kept fits =
      let (state, timer, retry) = enter-machine new_state e t w' fits.1 in
      inr (fits.0, state, timer, retry ∙ ap (λ (m : IotState × Option ℕ × Option ℕ). m.2) kept)

  -- A state update either returns an error and leaves the state, its timer and the retry timer as
  -- they were, or it makes one of the transitions of `Transition`: the context is then in the state
  -- asked for, the state timer that runs, if one does, has that state's timeout, and the retry timer
  -- is as it was. This holds for every build and
  -- whatever the drivers and the other threads do.
  pub do_state_updating_step :
      (new_state : IotState) (w : World)
      → let (err, w') = do_state_updating env cfg new_state w in
        ((err ≢ error_none) × (machine w'.ctx ≡ machine w.ctx))
        ⊎ (Transition w.ctx.curr_state new_state
            × (w'.ctx.curr_state ≡ new_state)
            × TimerFits new_state w'.ctx.state_timer
            × (w'.ctx.next_connection_retry_timer ≡ w.ctx.next_connection_retry_timer))
  unfolding do_state_updating ◌>>=◌ gets
  do_state_updating_step new_state w =
      conclude w.ctx.curr_state new_state w (leave env cfg w.ctx.curr_state new_state w)
        ((leave-Keeps w.ctx.curr_state new_state).at w)
        ((leave-Fits w.ctx.curr_state new_state).at w)

  leave_refuses :
      (cur new_state : IotState)
      → ¬ Transition cur new_state
      → leave env cfg cur new_state ≡ pure (returned invalid_args)
  unfolding leave
  leave_refuses initialized prov_enter h = absurd (h start_setup)
  leave_refuses initialized prov_done h = absurd (h start_registered)
  leave_refuses initialized cloud_disconnected h = absurd (h start_provisioned)
  leave_refuses prov_enter prov_confirm h = absurd (h confirm)
  leave_refuses prov_enter prov_sleep h = absurd (h fall_asleep)
  leave_refuses prov_confirm prov_done h = absurd (h finish_setup)
  leave_refuses prov_done cloud_disconnected h = absurd (h registered)
  leave_refuses prov_done prov_enter h = absurd (h retry_setup)
  leave_refuses prov_done prov_confirm h = absurd (h confirm_again)
  leave_refuses cloud_disconnected cloud_connected h = absurd (h connected)
  leave_refuses cloud_disconnected prov_confirm h = absurd (h setup_again)
  leave_refuses cloud_connected cloud_disconnected h = absurd (h lost)
  leave_refuses _ _ h = refl

  -- A state update that is no transition of `Transition` returns IOT_ERROR_INVALID_ARGS and does
  -- nothing: no field of the context changes, no call is made, nothing is put into the work queue.
  pub do_state_updating_refuses :
      (new_state : IotState) (w : World)
      → ¬ Transition w.ctx.curr_state new_state
      → do_state_updating env cfg new_state w ≡ (invalid_args, w)
  unfolding do_state_updating enter ◌>>=◌ gets pure
  do_state_updating_refuses new_state w h =
      rw (leave_refuses w.ctx.curr_state new_state h) (unfold pure in refl)

  abbrev Breaks : Outcome → Type 0
  Breaks (returned e) = ⊥
  Breaks (broke e t) = Unit {0}

  leave-Breaks :
      {cur new_state : IotState}
      → Transition cur new_state
      → new_state ≢ prov_enter
      → Yields Breaks (leave env cfg cur new_state)
  unfolding leave
  leave-Breaks start_setup h = absurd (h refl)
  leave-Breaks start_registered h = search yields_rules depth 8
  leave-Breaks start_provisioned h = search yields_rules depth 8
  leave-Breaks confirm h = search yields_rules depth 8
  leave-Breaks fall_asleep h = search yields_rules depth 8
  leave-Breaks finish_setup h = search yields_rules depth 8
  leave-Breaks registered h = search yields_rules depth 8
  leave-Breaks retry_setup h = absurd (h refl)
  leave-Breaks confirm_again h = search yields_rules depth 8
  leave-Breaks connected h = search yields_rules depth 8
  leave-Breaks setup_again h = search yields_rules depth 8
  leave-Breaks lost h = search yields_rules depth 8

  enters :
      (cur new_state : IotState) (left : Outcome × World)
      → Breaks left.0
      → Fits cur new_state left.0
      → (enter env cfg new_state left.0 left.1).1.ctx.curr_state ≡ new_state
  enters cur new_state (returned e, w') b fits = absurd b
  enters cur new_state (broke e t, w') b fits = (enter-machine new_state e t w' fits.1).0

  -- Every transition of `Transition` but those into PROV_ENTER, which need the Wi-Fi driver, is made
  -- whatever the drivers, the memory and the other threads do: afterwards the context is in the
  -- state asked for, also where the handler returns an error.
  pub do_state_updating_moves :
      (new_state : IotState) (w : World)
      → Transition w.ctx.curr_state new_state
      → new_state ≢ prov_enter
      → (do_state_updating env cfg new_state w).1.ctx.curr_state ≡ new_state
  unfolding do_state_updating ◌>>=◌ gets
  do_state_updating_moves new_state w t h =
      enters w.ctx.curr_state new_state (leave env cfg w.ctx.curr_state new_state w)
        ((leave-Breaks t h).at w) ((leave-Fits w.ctx.curr_state new_state).at w)
