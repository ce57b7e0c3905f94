-- ===== src/Core/Timeouts.antt =====
-- The callbacks of the two timers (_iot_state_timeout_cb and _next_connection_retry_timeout,
-- src/iot_main.c). They run on the timer's thread and only post commands.
use st_device_sdk_c.Prelude.{ℕ, ◌≡◌, ◌≢◌, refl, inl, inr, some, subst}
use st_device_sdk_c.Core.Context.{
  IotState, initialized, prov_sleep, prov_enter, prov_confirm, prov_done, cloud_disconnected,
  cloud_connected, opt_none, cloud_connecting,
}
use st_device_sdk_c.Core.Monad.{Env, World, M, pure, ◌>>=◌, gets}
use st_device_sdk_c.Core.Post.{command_send, send_state_update}
use st_device_sdk_c.Core.Update.Transition.{Transition, fall_asleep, retry_setup, state_timeout}
use st_device_sdk_c.Core.Command.Invariant.{StateTimerFits, IsWellTimed}

-- What the timeout of a state asks for: setup goes to sleep, and a setup that waits for the
-- registration starts again.
pub data TimesOut : IotState → IotState → Type 0 where
  to_sleep : TimesOut prov_enter prov_sleep
  to_setup : TimesOut prov_done prov_enter

module _ (env : Env) where
  request : IotState → M (Unit {0})
  request s = do _ ← send_state_update env s opt_none; pure tt

  timeout_in : IotState → M (Unit {0})
  unfolding request
  timeout_in prov_enter = request prov_sleep
  timeout_in prov_done = request prov_enter
  timeout_in _ = pure tt

  pub state_timeout_cb : M (Unit {0})
  unfolding timeout_in
  state_timeout_cb = do s ← gets (λ c. c.curr_state); timeout_in s

  pub next_connection_retry_timeout : M (Unit {0})
  next_connection_retry_timeout = do _ ← command_send env cloud_connecting; pure tt

  request-world :
      (s : IotState) (w : World) → (request s w).1 ≡ (send_state_update env s opt_none w).1
  unfolding request ◌>>=◌ pure
  request-world s w = refl

  timeout_in-Transition :
      (s : IotState) (t : ℕ) (w : World)
      → t ≡ state_timeout s
      → t ≢ 0
      → (next : IotState) × TimesOut s next
        × Transition s next
        × ((timeout_in s w).1 ≡ (send_state_update env next opt_none w).1)
  unfolding timeout_in
  timeout_in-Transition prov_enter t w e h =
      (prov_sleep, to_sleep, fall_asleep, request-world prov_sleep w)
  timeout_in-Transition prov_done t w e h =
      (prov_enter, to_setup, retry_setup, request-world prov_enter w)
  timeout_in-Transition initialized t w e h = absurd (h e)
  timeout_in-Transition prov_sleep t w e h = absurd (h e)
  timeout_in-Transition prov_confirm t w e h = absurd (h e)
  timeout_in-Transition cloud_disconnected t w e h = absurd (h e)
  timeout_in-Transition cloud_connected t w e h = absurd (h e)

  timeout_of_fits :
      (t : ℕ) (w : World)
      → StateTimerFits w.ctx.curr_state (some t)
      → w.ctx.curr_state ≢ initialized
      → (next : IotState) × TimesOut w.ctx.curr_state next
        × Transition w.ctx.curr_state next
        × ((state_timeout_cb w).1 ≡ (send_state_update env next opt_none w).1)
  unfolding state_timeout_cb ◌>>=◌ gets
  timeout_of_fits t w (inl e) h = absurd (h e)
  timeout_of_fits t w (inr (e, n)) h = timeout_in-Transition w.ctx.curr_state t w e n

  -- Where the timers fit the state and the state timer runs outside INITIALIZED, the state is
  -- PROV_ENTER or PROV_DONE, and the callback of the timer does exactly what iot_state_update does for
  -- PROV_SLEEP in the first and for PROV_ENTER in the second, a transition that the state machine
  -- allows.
  pub state_timeout-Transition :
      (t : ℕ) (w : World)
      → IsWellTimed w.ctx
      → w.ctx.state_timer ≡ some t
      → w.ctx.curr_state ≢ initialized
      → (next : IotState) × TimesOut w.ctx.curr_state next
        × Transition w.ctx.curr_state next
        × ((state_timeout_cb w).1 ≡ (send_state_update env next opt_none w).1)
  state_timeout-Transition t w v runs h =
      timeout_of_fits t w (subst (StateTimerFits w.ctx.curr_state) runs v.state_timer_fits) h
