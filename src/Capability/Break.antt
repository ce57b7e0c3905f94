-- ===== src/Capability/Break.antt =====
-- The break after a rate limit (src/iot_capability.c): iot_noti_sub_cb, st_cap_send_attr and the timer.
use st_device_sdk_c.Prelude.{
  ◌≡◌, refl, ap, ◌∙◌, true, false, Bool-cases, ◌==◌, inl, inr, List, Option, none, some, arith,
}
use st_device_sdk_c.Prelude.Options.{is_none}
use st_device_sdk_c.Prelude.Int.{negsuc}
use st_device_sdk_c.Core.Context.{Context, rate_limited, notification_received}
use st_device_sdk_c.Core.Monad.{
  Call, Env, World, pure, ◌>>=◌, gets, modify, effect, ask, call, timer_create, timer_start,
}
use st_device_sdk_c.Core.Post.{command_send}
use st_device_sdk_c.Core.Post.Frame.{command_send-Keeps}
use st_device_sdk_c.Capability.Events.{
  EvtData, CapRef, can_send, first_ref, send_attr, send_numbered,
}
use st_device_sdk_c.Capability.Noti.{rate_limit_break_time, start_break, accept, noti_rate_limit_cb}

-- The timers of the device can be made and started, always.
abbrev pub Timers : Env → Type 0
Timers env =
    ((t : List Call) → (env.answer t (timer_create rate_limit_break_time) == 0) ≡ false)
    × ((t : List Call) → (env.answer t timer_start == 0) ≡ true)

-- Whether a timer runs or not before.
start_break_blocks :
    (env : Env) (w : World)
    → Timers env
    → let c = (start_break env w).1.ctx in
      (c.rate_limit ≡ true) × (c.rate_limit_timeout ≡ some rate_limit_break_time)
unfolding start_break ◌>>=◌ gets modify effect ask call pure
start_break_blocks env w (made, started) = elim (Bool-cases (is_none w.ctx.rate_limit_timeout)) [
  | inl free ↦ rw (free, made _, started _) (refl, refl)
  | inr running ↦ rw (running, made _, started _) (refl, refl)
]

accept_blocks :
    (env : Env) (w : World)
    → Timers env
    → let c = (accept env (some rate_limited) w).1.ctx in
      (c.rate_limit ≡ true) × (c.rate_limit_timeout ≡ some rate_limit_break_time)
unfolding accept ◌>>=◌ pure
accept_blocks env w timers =
    let w' : World = (start_break env w).1 in
    let (blocked, timed) = start_break_blocks env w timers in
    let same : (command_send env (notification_received (some rate_limited)) w').1.ctx ≡ w'.ctx =
      (command_send-Keeps {f = λ c. c} env (notification_received (some rate_limited))).at w' in
    (
      ap (λ (c : Context). c.rate_limit) same ∙ blocked,
      ap (λ (c : Context). c.rate_limit_timeout) same ∙ timed,
    )

refused_in_break :
    (env : Env) (r : CapRef) (events : List (Option EvtData)) (w : World)
    → first_ref events ≡ some r
    → w.ctx.rate_limit ≡ true
    → send_attr env events w ≡ (negsuc 0, w)
unfolding send_attr send_numbered ◌>>=◌ gets pure
refused_in_break env r events w first blocked =
    let closed : can_send w.ctx ≡ false = ground (arith, blocked) in
    rw (first, send_attr, closed) refl

-- After a notification that the rate limit is reached, on a device that has timers: the break is
-- on, with a timer of its length; st_cap_send_attr with valid events then returns IOT_ERROR_BAD_REQ
-- and does nothing, until the timer's callback ends the break.
pub rate_limit_break :
    (env : Env) (r : CapRef) (events : List (Option EvtData)) (w : World)
    → Timers env
    → first_ref events ≡ some r
    → let w' = (accept env (some rate_limited) w).1 in
      (w'.ctx.rate_limit ≡ true)
      × (w'.ctx.rate_limit_timeout ≡ some rate_limit_break_time)
      × (send_attr env events w' ≡ (negsuc 0, w'))
      × ((noti_rate_limit_cb w').1.ctx.rate_limit ≡ false)
unfolding noti_rate_limit_cb modify
rate_limit_break env r events w timers first =
    let (blocked, timed) = accept_blocks env w timers in
    (
      blocked,
      timed,
      refused_in_break env r events (accept env (some rate_limited) w).1 first blocked,
      refl,
    )

-- A second such notification during the break, when no timer can be made: the timer of the break is
-- gone and the break stays on, so that nothing ends it.
pub break_stuck :
    (env : Env) (w : World)
    → ((t : List Call) → (env.answer t (timer_create rate_limit_break_time) == 0) ≡ true)
    → w.ctx.rate_limit ≡ true
    → let c = (accept env (some rate_limited) w).1.ctx in
      (c.rate_limit ≡ true) × (c.rate_limit_timeout ≡ none)
unfolding accept start_break ◌>>=◌ gets modify effect ask call pure
break_stuck env w none_made blocked =
    let w' : World = (start_break env w).1 in
    let same : (command_send env (notification_received (some rate_limited)) w').1.ctx ≡ w'.ctx =
      (command_send-Keeps {f = λ c. c} env (notification_received (some rate_limited))).at w' in
    let (on, untimed) = stuck in
    (
      ap (λ (c : Context). c.rate_limit) same ∙ on,
      ap (λ (c : Context). c.rate_limit_timeout) same ∙ untimed,
    )
  where
    stuck :
        let c = (start_break env w).1.ctx in (c.rate_limit ≡ true) × (c.rate_limit_timeout ≡ none)
    stuck = elim (Bool-cases (is_none w.ctx.rate_limit_timeout)) [
      | inl free ↦ rw (free, none_made _) (blocked, refl)
      | inr running ↦ rw (running, none_made _) (blocked, refl)
    ]
