-- ===== src/Core/Ecode.antt =====
-- The last error code, kept for the companion app (src/iot_api.c: iot_set_st_ecode,
-- iot_set_st_ecode_from_conn_error). A code is its number in iot_st_ecode_t (src/include/iot_main.h).
use st_device_sdk_c.Prelude.{ℕ, not, ◌||◌, ltb, ◌==◌, if◌then◌else◌}
use st_device_sdk_c.Errors.{
  IotError, error_none, invalid_args, conn_operate_fail, conn_softap_conf_fail,
  conn_softap_conn_fail, conn_softap_dhcp_fail, conn_softap_auth_fail, conn_sta_conf_fail,
  conn_sta_conn_fail, conn_sta_dhcp_fail, conn_sta_ap_not_found, conn_sta_assoc_fail,
  conn_sta_auth_fail, conn_sta_no_internet, conn_dns_query_fail,
}
use st_device_sdk_c.Core.Monad.{
  Env, M, pure, ◌>>=◌, ◌>>◌, gets, modify, call, misc_info_store_prev_err,
}

abbrev pub ecode_none : ℕ
ecode_none = 0

abbrev pub ecode_ne01 : ℕ
ecode_ne01 = 2

abbrev pub ecode_ne02 : ℕ
ecode_ne02 = 3

abbrev pub ecode_ne03 : ℕ
ecode_ne03 = 4

abbrev pub ecode_ne04 : ℕ
ecode_ne04 = 5

abbrev pub ecode_ne11_1 : ℕ
ecode_ne11_1 = 7

abbrev pub ecode_ne11_3 : ℕ
ecode_ne11_3 = 8

abbrev pub ecode_ne11_4 : ℕ
ecode_ne11_4 = 9

abbrev pub ecode_ne12 : ℕ
ecode_ne12 = 10

abbrev pub ecode_ne16 : ℕ
ecode_ne16 = 14

abbrev pub ecode_ne17 : ℕ
ecode_ne17 = 15

abbrev pub ecode_ce01 : ℕ
ecode_ce01 = 16

abbrev pub ecode_ce20_1 : ℕ
ecode_ce20_1 = 20

abbrev pub ecode_ce20_2 : ℕ
ecode_ce20_2 = 21

abbrev pub ecode_ce20_3 : ℕ
ecode_ce20_3 = 22

abbrev pub ecode_ce32 : ℕ
ecode_ce32 = 26

abbrev pub ecode_ce33 : ℕ
ecode_ce33 = 27

abbrev pub ecode_ds13_1 : ℕ
ecode_ds13_1 = 35

abbrev pub ecode_max : ℕ
ecode_max = ecode_ds13_1

module _ (env : Env) where
  unfoldable pub set_st_ecode : ℕ → M IotError
  set_st_ecode ecode_type = if ltb ecode_max ecode_type then pure invalid_args else do
    last ← gets (λ c. c.last_ecode_type)
    if not (ecode_type == last) || ecode_type == ecode_none
        then (do
          modify (λ c. record c { last_ecode_type = ecode_type })
          call env (misc_info_store_prev_err ecode_type))
        else pure error_none

  unfoldable pub set_st_ecode_from_conn_error : IotError → M IotError
  set_st_ecode_from_conn_error e =
      if e == conn_softap_conf_fail
      then set_st_ecode ecode_ne01
      else if e == conn_softap_conn_fail
      then set_st_ecode ecode_ne02
      else if e == conn_softap_dhcp_fail
      then set_st_ecode ecode_ne03
      else if e == conn_softap_auth_fail
      then set_st_ecode ecode_ne04
      else if e == conn_sta_conf_fail || e == conn_sta_conn_fail
      then set_st_ecode ecode_ne11_1
      else if e == conn_sta_ap_not_found
      then set_st_ecode ecode_ne11_1
      else if e == conn_sta_assoc_fail
      then set_st_ecode ecode_ne11_3
      else if e == conn_sta_auth_fail
      then set_st_ecode ecode_ne11_4
      else if e == conn_sta_dhcp_fail
      then set_st_ecode ecode_ne12
      else if e == conn_sta_no_internet
      then set_st_ecode ecode_ne16
      else if e == conn_dns_query_fail
      then set_st_ecode ecode_ne17
      else if e == conn_operate_fail
      then set_st_ecode ecode_ds13_1
      else pure invalid_args
