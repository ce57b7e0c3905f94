-- ===== src/Core/Registering.antt =====
-- The commands of a registration in _do_iot_main_command (src/iot_main.c).
pub mod Retry
use st_device_sdk_c.Prelude.{Bool, true, false, not, ◌==◌, if◌then◌else◌}
use st_device_sdk_c.Errors.{
  IotError, error_none, mqtt_reject_connect, net_dns_fail, conn_dns_query_fail,
  conn_sta_no_internet,
}
use st_device_sdk_c.Core.Context.{
  registration, wifi_station, prov_enter, cloud_disconnected, opt_none, cloud_registering,
}
use st_device_sdk_c.Core.Monad.{
  Env, M, pure, ◌>>=◌, ◌>>◌, gets, modify, call, effect, ask, timer_isexpired, misc_info_store_dip,
  misc_info_store_location, nv_set_device_id,
}
use st_device_sdk_c.Core.Post.{command_send, send_state_update}
use st_device_sdk_c.Core.Easysetup.{Config, easysetup_deinit}
use st_device_sdk_c.Core.Wifi.{wifi_ctrl_request}
use st_device_sdk_c.Core.Connect.{connect, disconnect, client}

module _ (env : Env) where
  -- _con_timeout_check
  unfoldable pub con_timeout_check : M Bool
  con_timeout_check = do
    timer ← gets (λ c. c.cloud_con_timer)
    if timer then ask env timer_isexpired else pure false

  unfoldable pub set_network_status : IotError → M (Unit {0})
  set_network_status err = modify (λ c. record c { es_network_status = err })

  -- A connection that is still there is closed first.
  unfoldable pub drop_registration : M (Unit {0})
  drop_registration = do
    active ← gets (client registration)
    if active then (do _ ← disconnect env registration; pure tt) else pure tt

  -- iot_es_connect failed, and not by a rejection.
  unfoldable pub retry_registering : IotError → M IotError
  unfolding set_network_status
  retry_registering err = do
    set_network_status (if err == net_dns_fail then conn_dns_query_fail else conn_sta_no_internet)
    leaving ← gets (λ c. c.request_disconnect)
    if not leaving then (do _ ← command_send env cloud_registering; pure tt) else pure tt
    _ ← command_send env cloud_registering
    pure err

  -- What iot_es_connect answered.
  unfoldable pub after_connect : Config → IotError → M IotError
  unfolding set_network_status retry_registering
  after_connect cfg err =
      if err == mqtt_reject_connect
      then (do
        set_network_status err
        easysetup_deinit env cfg
        _ ← send_state_update env prov_enter opt_none
        pure err)
      else if not (err == error_none)
      then retry_registering err
      else do
        set_network_status err
        modify (λ c. record c { registered_msg_requested = true })
        pure err

  unfoldable pub open_registration : Config → M IotError
  unfolding drop_registration after_connect
  open_registration cfg = do
    modify (λ c. record c { d2d_event_request = true })
    drop_registration
    modify (λ c. record c { registered_msg_requested = false })
    err ← connect env cfg registration
    after_connect cfg err

  -- The request for station mode failed.
  unfoldable pub no_station : Config → IotError → M IotError
  unfolding set_network_status
  no_station cfg err = do
    set_network_status err
    self_reged ← gets (λ c. c.iot_reg_data.self_reged)
    if self_reged
        then (do _ ← command_send env cloud_registering; pure err)
        else (do easysetup_deinit env cfg; pure err)

  -- IOT_COMMAND_CLOUD_REGISTERING
  unfoldable pub handle_registering : Config → M IotError
  unfolding con_timeout_check no_station open_registration
  handle_registering cfg = do
    expired ← con_timeout_check
    if expired then (do easysetup_deinit env cfg; pure error_none) else do
      station ← gets (λ c. c.is_wifi_station)
      err ← if station then pure error_none else wifi_ctrl_request env cfg wifi_station
      if not (err == error_none) then no_station cfg err else open_registration cfg

  -- The results of the registration are stored and freed.
  unfoldable pub store_registration : M (Unit {0})
  store_registration = do
    modify (λ c. record c { cloud = record c.cloud { location = false; room = false } })
    dip ← gets (λ c. c.iot_reg_data.dip)
    if dip
        then (do
          effect env misc_info_store_dip
          modify (λ c. record c { iot_reg_data = record c.iot_reg_data { dip = false } }))
        else pure tt
    location ← gets (λ c. c.iot_reg_data.location_id)
    if location
        then (do
          effect env misc_info_store_location
          modify (λ c. record c { iot_reg_data = record c.iot_reg_data { location_id = false } }))
        else pure tt

  -- IOT_COMMAND_CLOUD_REGISTERED
  unfoldable pub handle_registered : M IotError
  unfolding drop_registration store_registration set_network_status
  handle_registered = do
    _ ← disconnect env registration
    store_registration
    device_id ← gets (λ c. c.iot_reg_data.device_id)
    err ← call env (nv_set_device_id device_id)
    drop_registration
    set_network_status err
    _ ← send_state_update env cloud_disconnected opt_none
    modify (λ c. record c { iot_reg_data = record c.iot_reg_data { self_reged = false } })
    pure err
