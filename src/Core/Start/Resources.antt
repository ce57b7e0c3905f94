-- ===== src/Core/Start/Resources.antt =====
-- The resources of the easy setup, and what st_conn_start refuses.
use st_device_sdk_c.Prelude.{
  ℕ, ◌≡◌, ◌≢◌, refl, ◌⊎◌, inl, inr, Bool, true, false, Bool-cases, not, if◌then◌else◌, arith,
}
use st_device_sdk_c.Errors.{IotError, error_none, bad_req, invalid_args, mem_alloc}
use st_device_sdk_c.Core.Context.{IotState, initialized, Context}
use st_device_sdk_c.Core.Monad.{
  Env, World, pure, ◌>>=◌, gets, modify, effect, ask, call, malloc, security_init, queue_create,
  on_work_thread, lock_conn,
}
use st_device_sdk_c.Core.Easysetup.{Config}
use st_device_sdk_c.Core.Boot.{Stored}
use st_device_sdk_c.Core.Start.{
  is_initialized, has_type, ovf_type_pin, security_init_error, create_fail, create_queue,
  create_security, delete_easysetup_resources_all, create_easysetup_resources, start_locked,
  under_lock, st_conn_start,
}

module _ (env : Env) (cfg : Config) (stored : Stored) where
  working : (s : IotState) → s ≢ initialized → not (is_initialized s) ≡ true
  working s h = ground (arith, h)

  start_locked_refuses :
      (pin has_cb : Bool) (maps : ℕ) (w : World)
      → w.ctx.curr_state ≢ initialized
      → start_locked env cfg stored pin has_cb maps w ≡ (bad_req, w)
  unfolding start_locked ◌>>=◌ gets pure
  start_locked_refuses pin has_cb maps w h = rw (working w.ctx.curr_state h) refl

  under_lock_refuses :
      (pin has_cb : Bool) (maps : ℕ) (w : World)
      → w.ctx.curr_state ≢ initialized
      → let (err, w') = under_lock env cfg stored pin has_cb maps w in
        (err ≡ bad_req) × (w'.ctx ≡ w.ctx)
  unfolding under_lock ◌>>=◌ ask call pure effect
  under_lock_refuses pin has_cb maps w h = elim (Bool-cases (ask env lock_conn w).0) [
    | inl locked ↦
        rw (locked, start_locked_refuses pin has_cb maps (ask env lock_conn w).1 h) (refl, refl)
    | inr failed ↦ rw failed (refl, refl)
  ]

  -- In every state but INITIALIZED, st_conn_start returns IOT_ERROR_BAD_REQ and leaves the context as
  -- it was.
  pub st_conn_start_refuses :
      (pin has_cb : Bool) (maps : ℕ) (w : World)
      → w.ctx.curr_state ≢ initialized
      → let (err, w') = st_conn_start env cfg stored pin has_cb maps w in
        (err ≡ bad_req) × (w'.ctx ≡ w.ctx)
  unfolding st_conn_start ◌>>=◌ ask call pure
  st_conn_start_refuses pin has_cb maps w h = elim (Bool-cases (ask env on_work_thread w).0) [
    | inl same ↦ rw same (refl, refl)
    | inr apart ↦ rw apart (under_lock_refuses pin has_cb maps (ask env on_work_thread w).1 h)
  ]

abbrev AllThere : Context → Type 0
AllThere c =
    (c.es_res_created ≡ true)
    × (c.easysetup_security_context ≡ true)
    × (c.easysetup_resp_queue ≡ true)

abbrev AllGone : Context → Type 0
AllGone c =
    (c.es_res_created ≡ false)
    × (c.easysetup_security_context ≡ false)
    × (c.easysetup_resp_queue ≡ false)
    × (c.pin ≡ false)

abbrev pub Outcome : IotError × World → Type 0
Outcome (err, w) =
    ((err ≡ error_none) × AllThere w.ctx)
    ⊎ ((err ≢ error_none) × ((err ≡ mem_alloc) ⊎ AllGone w.ctx))

module _ (env : Env) where
  delete-gone : (w : World) → AllGone (delete_easysetup_resources_all env w).1.ctx
  unfolding delete_easysetup_resources_all ◌>>=◌ gets modify pure effect call
  delete-gone w = elim (Bool-cases w.ctx.easysetup_security_context) [
    | inl security ↦ elim (Bool-cases w.ctx.easysetup_resp_queue) [
      | inl queue ↦ rw (security, queue) (refl, refl, refl, refl)
      | inr no_queue ↦ rw (security, no_queue) (refl, refl, refl, refl)
    ]
    | inr no_security ↦ elim (Bool-cases w.ctx.easysetup_resp_queue) [
      | inl queue ↦ rw (no_security, queue) (refl, refl, refl, refl)
      | inr no_queue ↦ rw (no_security, no_queue) (refl, refl, refl, refl)
    ]
  ]

  create_fail-Outcome :
      (err : IotError) (w : World) → err ≢ error_none → Outcome (create_fail env err w)
  unfolding create_fail ◌>>=◌ pure
  create_fail-Outcome err w h = inr (h, inr (delete-gone w))

  create_queue-Outcome :
      (w : World) → w.ctx.easysetup_security_context ≡ true → Outcome (create_queue env w)
  unfolding create_queue ◌>>=◌ gets modify pure ask call
  create_queue-Outcome w security = elim (Bool-cases w.ctx.easysetup_resp_queue) [
    | inl queue ↦ rw queue (inl (refl, (refl, security, refl)))
    | inr no_queue ↦ elim (Bool-cases (ask env queue_create w).0) [
      | inl made ↦ rw (no_queue, made) (inl (refl, (refl, security, refl)))
      | inr failed ↦ rw (no_queue, failed) (create_fail-Outcome bad_req _ (omega arith))
    ]
  ]

  create_security-Outcome : (w : World) → Outcome (create_security env w)
  unfolding create_security ◌>>=◌ gets modify pure ask call
  create_security-Outcome w = elim (Bool-cases (ask env security_init w).0) [
    | inl made ↦ rw made (create_queue-Outcome _ refl)
    | inr failed ↦ rw failed (create_fail-Outcome security_init_error _ (omega arith))
  ]

  with_pin-Outcome :
      (pin : Bool) (w : World)
      → Outcome ((if pin then create_security env else create_fail env invalid_args) w)
  with_pin-Outcome true w = create_security-Outcome w
  with_pin-Outcome false w = create_fail-Outcome invalid_args w (omega arith)

  -- _create_easysetup_resources either succeeds, and the resources are marked as created, with the
  -- security context and the response queue there; or it fails, and everything is released, unless
  -- it was the memory for the PIN that was missing.
  pub create_easysetup_resources-Outcome :
      (pin : Bool) (w : World) → Outcome (create_easysetup_resources env pin w)
  unfolding create_easysetup_resources ◌>>=◌ gets modify pure ask call
  create_easysetup_resources-Outcome pin w = elim (Bool-cases (has_type ovf_type_pin w.ctx)) [
    | inr other ↦ rw other (create_security-Outcome w)
    | inl by_pin ↦ elim (Bool-cases w.ctx.pin) [
      | inl has_pin ↦ rw (by_pin, has_pin) (with_pin-Outcome pin _)
      | inr no_pin ↦ elim (Bool-cases (ask env malloc w).0) [
        | inl room ↦ rw (by_pin, no_pin, room) (with_pin-Outcome pin _)
        | inr full ↦ rw (by_pin, no_pin, full) (inr (omega arith, inl refl))
      ]
    ]
  ]
