-- ===== src/Errors.antt =====
-- iot_error_t (src/include/iot_error.h). Every code is 0 or negative: the number n stands for -n.
use st_device_sdk_c.Prelude.{ℕ}

abbrev pub IotError : Type 0
IotError = ℕ

abbrev pub error_none : IotError
error_none = 0

abbrev pub bad_req : IotError
bad_req = 1

abbrev pub invalid_args : IotError
invalid_args = 2

abbrev pub mem_alloc : IotError
mem_alloc = 6

abbrev pub timeout : IotError
timeout = 7

abbrev pub nv_data_error : IotError
nv_data_error = 14

abbrev pub nv_data_not_exist : IotError
nv_data_not_exist = 15

abbrev pub uuid_fail : IotError
uuid_fail = 25

abbrev pub mqtt_connect_fail : IotError
mqtt_connect_fail = 201

abbrev pub mqtt_server_unavail : IotError
mqtt_server_unavail = 202

abbrev pub mqtt_reject_connect : IotError
mqtt_reject_connect = 204

abbrev pub mqtt_connect_timeout : IotError
mqtt_connect_timeout = 205

abbrev pub net_dns_fail : IotError
net_dns_fail = 303

abbrev pub conn_operate_fail : IotError
conn_operate_fail = 601

abbrev pub conn_softap_conf_fail : IotError
conn_softap_conf_fail = 610

abbrev pub conn_softap_conn_fail : IotError
conn_softap_conn_fail = 611

abbrev pub conn_softap_dhcp_fail : IotError
conn_softap_dhcp_fail = 612

abbrev pub conn_softap_auth_fail : IotError
conn_softap_auth_fail = 613

abbrev pub conn_sta_conf_fail : IotError
conn_sta_conf_fail = 620

abbrev pub conn_sta_conn_fail : IotError
conn_sta_conn_fail = 621

abbrev pub conn_sta_dhcp_fail : IotError
conn_sta_dhcp_fail = 622

abbrev pub conn_sta_ap_not_found : IotError
conn_sta_ap_not_found = 623

abbrev pub conn_sta_assoc_fail : IotError
conn_sta_assoc_fail = 624

abbrev pub conn_sta_auth_fail : IotError
conn_sta_auth_fail = 625

abbrev pub conn_sta_no_internet : IotError
conn_sta_no_internet = 626

abbrev pub conn_dns_query_fail : IotError
conn_dns_query_fail = 630

abbrev pub conn_ble_indication_fail : IotError
conn_ble_indication_fail = 631

abbrev pub mqtt_publish_fail : IotError
mqtt_publish_fail = 203

abbrev pub security_fs_buffer : IotError
security_fs_buffer = 1205

abbrev pub security_fs_not_found : IotError
security_fs_not_found = 1208

abbrev pub fs_no_file : IotError
fs_no_file = 21

abbrev pub security_context_null : IotError
security_context_null = 1003

abbrev pub security_be_context_null : IotError
security_be_context_null = 1004

abbrev pub security_be_external_null : IotError
security_be_external_null = 1007

abbrev pub security_storage_params_null : IotError
security_storage_params_null = 1125

abbrev pub security_storage_invalid_id : IotError
security_storage_invalid_id = 1126

abbrev pub security_fs_open : IotError
security_fs_open = 1200

abbrev pub security_fs_read : IotError
security_fs_read = 1201

abbrev pub security_fs_write : IotError
security_fs_write = 1202

abbrev pub security_fs_close : IotError
security_fs_close = 1203

abbrev pub security_fs_remove : IotError
security_fs_remove = 1204

abbrev pub security_fs_invalid_args : IotError
security_fs_invalid_args = 1209

abbrev pub security_fs_invalid_target : IotError
security_fs_invalid_target = 1210

abbrev pub security_fs_unknown_target : IotError
security_fs_unknown_target = 1211

abbrev pub fs_open_fail : IotError
fs_open_fail = 16

abbrev pub fs_read_fail : IotError
fs_read_fail = 17

abbrev pub fs_write_fail : IotError
fs_write_fail = 18

abbrev pub fs_remove_fail : IotError
fs_remove_fail = 19

abbrev pub fs_close_fail : IotError
fs_close_fail = 20
