-- ===== src/Core/Start.antt =====
-- st_conn_start and the resources of the easy setup (_create_easysetup_resources and
-- _delete_easysetup_resources_all), src/iot_main.c. The context is there, with its queue and events.
pub mod Resources
use st_device_sdk_c.Prelude.{ℕ, Bool, true, false, not, ◌&&◌, ◌==◌, if◌then◌else◌, bit_and}
use st_device_sdk_c.Errors.{IotError, error_none, bad_req, invalid_args, mem_alloc}
use st_device_sdk_c.Core.Context.{IotState, initialized, Context}
use st_device_sdk_c.Core.Monad.{
  Env, M, pure, ◌>>=◌, ◌>>◌, gets, modify, effect, ask, malloc, security_init, security_deinit,
  queue_create, queue_delete, on_work_thread, lock_conn, unlock_conn,
}
use st_device_sdk_c.Core.Easysetup.{Config}
use st_device_sdk_c.Core.Boot.{Stored, check_prov_status}

-- IOT_ERROR_SECURITY_INIT
abbrev pub security_init_error : IotError
security_init_error = 1001

-- IOT_OVF_TYPE_BUTTON and IOT_OVF_TYPE_PIN
abbrev pub ovf_type_button : ℕ
ovf_type_button = 4

abbrev pub ovf_type_pin : ℕ
ovf_type_pin = 8

abbrev pub has_type : ℕ → Context → Bool
has_type type c = not (bit_and c.ownership_validation_type type == 0)

abbrev pub is_initialized : IotState → Bool
is_initialized initialized = true
is_initialized _ = false

module _ (env : Env) where
  unfoldable pub delete_easysetup_resources_all : M (Unit {0})
  delete_easysetup_resources_all = do
    modify (λ c. record c { es_res_created = false; pin = false })
    security ← gets (λ c. c.easysetup_security_context)
    if security
        then (do
          effect env security_deinit
          modify (λ c. record c { easysetup_security_context = false }))
        else pure tt
    queue ← gets (λ c. c.easysetup_resp_queue)
    if queue
        then (do effect env queue_delete; modify (λ c. record c { easysetup_resp_queue = false }))
        else pure tt

  -- `goto create_fail`
  create_fail : IotError → M IotError
  create_fail err = do delete_easysetup_resources_all; pure err

  create_queue : M IotError
  unfolding create_fail
  create_queue = do
    queue ← gets (λ c. c.easysetup_resp_queue)
    made ← if queue then pure true else ask env queue_create
    if not made then create_fail bad_req else do
      modify (λ c. record c { easysetup_resp_queue = true; es_res_created = true })
      pure error_none

  create_security : M IotError
  unfolding create_fail create_queue
  create_security = do
    made ← ask env security_init
    modify (λ c. record c { easysetup_security_context = made })
    if not made then create_fail security_init_error else create_queue

  -- The argument tells whether there is a PIN.
  unfoldable pub create_easysetup_resources : Bool → M IotError
  unfolding create_fail create_security
  create_easysetup_resources pin_num = do
    by_pin ← gets (has_type ovf_type_pin)
    if not by_pin then create_security else do
      has_pin ← gets (λ c. c.pin)
      room ← if has_pin then pure true else ask env malloc
      if not room then pure mem_alloc else do
        modify (λ c. record c { pin = true })
        if pin_num then create_security else create_fail invalid_args

module _ (env : Env) (cfg : Config) (stored : Stored) where
  -- _check_prov_status failed.
  give_up : IotError → M IotError
  give_up err = do
    modify (λ c. record c {
      status_cb = false;
      status_maps = if c.status_cb then 0 else c.status_maps;
    })
    created ← gets (λ c. c.es_res_created)
    if created then delete_easysetup_resources_all env else pure tt
    pure err

  request_first : Bool → ℕ → M IotError
  unfolding give_up
  request_first has_cb maps = do
    modify (λ c. record c {
      add_justworks = false;
      status_cb = if has_cb then true else c.status_cb;
      status_maps = if has_cb then maps else c.status_maps;
    })
    err ← check_prov_status env cfg stored false
    if not (err == error_none) then give_up err else pure error_none

  start_locked : Bool → Bool → ℕ → M IotError
  unfolding request_first
  start_locked pin_num has_cb maps = do
    state ← gets (λ c. c.curr_state)
    if not (is_initialized state) then pure bad_req else do
      by_button ← gets (has_type ovf_type_button)
      if by_button && not has_cb then pure bad_req else do
        created ← gets (λ c. c.es_res_created)
        err ← if created then pure error_none else create_easysetup_resources env pin_num
        if not (err == error_none) then pure err else request_first has_cb maps

  under_lock : Bool → Bool → ℕ → M IotError
  unfolding start_locked
  under_lock pin_num has_cb maps = do
    locked ← ask env lock_conn
    if not locked
        then pure bad_req
        else do err ← start_locked pin_num has_cb maps; effect env unlock_conn; pure err

  -- The arguments tell whether a PIN and a status callback are given, and for which statuses.
  pub st_conn_start : Bool → Bool → ℕ → M IotError
  unfolding under_lock
  st_conn_start pin_num has_cb maps = do
    same ← ask env on_work_thread
    if same then pure bad_req else under_lock pin_num has_cb maps
