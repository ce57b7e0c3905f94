-- ===== src/Core/Registering/Retry.antt =====
-- What a failed registration puts into the work queue.
use st_device_sdk_c.Prelude.{
  ◌≡◌, refl, ap, ◌∙◌, false, Bool-cases, inl, inr, ◌==◌, if◌then◌else◌, List, [], ◌∷◌, ◌++◌,
  append_nil, append_assoc,
}
use st_device_sdk_c.Errors.{IotError}
use st_device_sdk_c.Core.Context.{Command, cloud_registering}
use st_device_sdk_c.Core.Monad.{
  Call, Env, World, pure, ◌>>=◌, gets, modify, post, call, ask, malloc, mutex_lock,
}
use st_device_sdk_c.Core.Post.{put_device_work, command_send}
use st_device_sdk_c.Core.Registering.{set_network_status, retry_registering}

-- Memory and the queue's lock are there, and no other thread posts a command.
pub record IsCalm (env : Env) : Type 0 where
  pub memory : (h : List Call) → (env.answer h malloc == 0) ≡ false
  pub lock : (h : List Call) → (env.answer h mutex_lock == 0) ≡ false
  pub quiet : (h : List Call) (c : Call) → env.arrive h c ≡ []

module _ (env : Env) where
  send_registering :
      (w : World)
      → IsCalm env
      → ((command_send env cloud_registering w).1.queue ≡ w.queue ++ cloud_registering ∷ [])
        × ((command_send env cloud_registering w).1.ctx ≡ w.ctx)
  unfolding command_send put_device_work ◌>>=◌ ask call post pure
  send_registering w ok =
      (simp (ok.memory, ok.lock, ok.quiet, append_nil), simp (ok.memory, ok.lock, ok.quiet))

  -- Where memory and the lock are there and no other thread posts: after a connection for the
  -- registration failed, the handler returns the code and appends IOT_COMMAND_CLOUD_REGISTERING to
  -- the work queue twice, or once where a disconnect was requested.
  pub retry_registering_posts :
      (err : IotError) (w : World)
      → IsCalm env
      → let (e, w') = retry_registering env err w in
        (e ≡ err)
        × (w'.queue
            ≡ w.queue
              ++ (if w.ctx.request_disconnect
                  then cloud_registering ∷ []
                  else cloud_registering ∷ cloud_registering ∷ []))
  unfolding retry_registering set_network_status ◌>>=◌ gets modify pure
  retry_registering_posts err w ok = (
    refl,
    elim (Bool-cases w.ctx.request_disconnect) [
      | inl leaving ↦ rw leaving (send_registering _ ok).0
      | inr staying ↦ rw staying (
          (send_registering _ ok).0
          ∙ ap (λ (q : List Command). q ++ cloud_registering ∷ []) (send_registering _ ok).0
          ∙ append_assoc w.queue (cloud_registering ∷ []) (cloud_registering ∷ []))
    ],
  )
