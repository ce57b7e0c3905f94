-- ===== src/Lib.antt =====
-- A model of the core of the SmartThings device SDK for C (src/), with the theorems about it.
--
-- The program's parts, and the modules that model them.
--
-- Prelude, Errors: shared names; iot_error_t (src/include/iot_error.h), where the number n stands for
-- the code -n.
--
-- Core: the task that runs the device (src/iot_main.c) and what its handlers call.
--   Context    struct iot_context and the messages of the work queue (src/include/iot_main.h)
--   Monad      actions on the context, the work queue and the calls made so far; its children have one
--              rule for each way to build an action, for frames, results and invariants
--   Post       iot_command_send, iot_put_device_work (src/iot_main.c), iot_state_update (src/iot_api.c)
--   Ecode      iot_set_st_ecode, iot_set_st_ecode_from_conn_error (src/iot_api.c)
--   Easysetup  iot_easysetup_init, iot_easysetup_deinit (src/easysetup/http, src/easysetup/ble)
--   Wifi       iot_wifi_ctrl_request, iot_ble_ctrl_request (src/iot_api.c)
--   Update     _do_state_updating (src/iot_main.c): the state machine
--   Connect    iot_es_disconnect, the guard of iot_es_connect and what it does on a rejection
--              (src/easysetup/iot_easysetup_st_mqtt.c), iot_device_cleanup, iot_cleanup (src/iot_api.c)
--   Registering, Connecting, Command
--              _do_iot_main_command and _device_work_queue_task (src/iot_main.c)
--   Timeouts   _iot_state_timeout_cb, _next_connection_retry_timeout (src/iot_main.c)
--   Boot       _check_prov_status and the checks that it makes of the stored data (src/iot_main.c)
--   Start      st_conn_start, and the resources of the easy setup (src/iot_main.c)
--
-- Util: src/iot_util.c and src/iot_uuid.c.
--   Queue      iot_util_queue_send and iot_util_queue_receive on linked nodes; Delete has
--              iot_util_queue_create and iot_util_queue_delete, whose loop has fuel for each node
--   Backoff    iot_util_generator_backoff
--   Hex, Uuid, Mac, Channel
--              texts of UUIDs and MAC addresses; channels and frequencies
--   Url        iot_util_url_parse
--   Uuid.Random
--              the generators of src/iot_uuid.c
--
-- LogFile: the log in RAM (src/iot_log_file.c, built with CONFIG_STDK_IOT_CORE_LOG_FILE_RAM_ONLY). Ring has
-- the buffer that goes round, Read and Open the handles, Seek the cursor. The buffer's size is a parameter,
-- and size_t has 32 bits.
--
-- Ble: messages over BLE (src/easysetup/ble/iot_easysetup_ble_msg.c and iot_easysetup_ble_task.c).
--   Assemble     es_msg_assemble: packets are put together to a message, in buffers that have a size
--   Disassemble  es_msg_disassemble: a message is cut into packets; the loop has as much fuel as the
--                message has bytes
--   Task         es_msg_dispatch and the task that handles the message, which polls a flag: its look is
--                one step, and the writes of es_msg_dispatch are two, the flag and the rest
--
-- Capability: capabilities (src/iot_capability.c, src/include/st_caps.h).
--   Capability   st_cap_handle_init, st_cap_cmd_set_cb, _iot_process_cmd, iot_cap_call_init_cb, on the
--                list of the context's handles
--   Events       st_cap_send_attr, st_cap_send_attr_v2 and the events they make (Core/Event)
--   Noti         iot_noti_sub_cb and _iot_parse_noti_data, with the JSON library as an argument
--
-- Nv: the data that survives a restart (src/iot_nv_data.c), over a storage that is an argument.
--   Nv          _iot_nv_io_storage, iot_nv_erase, iot_nv_prov_data_exist, iot_nv_erase_prov_data
--   Text        texts in buffers, and what is used of printf and atoi
--   Wifi        iot_nv_set_wifi_prov_data, iot_nv_get_wifi_prov_data
--   Cloud       the setter and the getter of the cloud's part, and of both parts
--   Items       the device id and the misc info
--   Keeps has the rules of the storage (IsStorage) and what each routine leaves; Commit and Interrupt
--   have the status around the items, TextLaws, Stored and RoundTrip what is stored
--   and read back.
--
-- Security: the storage under Nv, kept in files (src/security).
--   Backend     src/security/backend/software/iot_security_be_bsp.c, over a board (Bsp): its files
--               (src/include/bsp/iot_bsp_fs.h), its memory and its device information
--   Storage     src/security/iot_security_storage.c, iot_security_common.c and the storage functions of
--               backend/software/iot_security_be_software.c; `software` is the storage of Nv
--   Rules has what a board has to do, Files, Items and Stores what each call leaves, Refines puts them
--   together to IsStorage
--   Posix       the board of src/port/bsp/posix, over the calls of the operating system; PosixRules has
--               what these do, PosixFiles the rules that the board obeys, PosixOverwrite the one it breaks.
--   Working has a board in memory on which the storage works as Nv's round trips need it
--
-- Server: the connection to the server (src/easysetup/iot_easysetup_st_mqtt.c), on the world of Core.
--   Server      the messages that come in: _check_connection_response, mqtt_reg_sub_cb and the callbacks of
--               the clients for the registration and the log-in
--   Client      _iot_es_mqtt_connect, _iot_es_mqtt_registration
--   Login       iot_es_connect. Net says what st_mqtt_yield tells of and for how many rounds the timer is
--               active, so that the loop is structural
--   Steady has the balance of the clients made and ended and one rule for each way to build an action,
--   Handlers and Clients apply them, Commits and Owned follow the client of iot_es_connect
--
-- DumpLog is the dump of the log (src/iot_dump_log.c) as base64
--   DumpLog     _iot_dump_copy_memory and st_create_log_dump. The encoder, the reads of the log and what an
--               overlapping memcpy gives are parameters; the header and the state are given as their
--               bytes. The loop over the log has the length of the log
--               as fuel, which is enough since each round takes one byte at least
--   Encode and Whole follow the pieces through the writes, Create has the whole dump
--
-- Core/Sample holds the device that the examples run on.
--
-- How the model is built. A handler is an action on a world: the context, the work queue, and the list
-- of the calls made so far of code that is not modelled (drivers, timers, MQTT, storage, user
-- callbacks). Env answers such a call, and says which commands other threads put into the queue
-- meanwhile; both may depend on every call made before, so a theorem for all Env holds whatever those
-- parts do. The build's configuration is a Config. Pointers that are only tested and freed are truth
-- values; timers are the timeout they were made with. The loop of the task is work_rounds: the number
-- of rounds is an argument of the theorems, which hold for every number. Numbers of the C types
-- `unsigned int`, `uint8_t` and `uint16_t` wrap where the code can make them wrap. The recursions are
-- structural, except where fuel is named above.
--
-- Not modelled: in Core, iot_es_connect beyond its first guard is a call that answers a code and whether
-- a client was stored (Server has the routine itself), but for the cleanup where the server rejects the
-- device; what the registration payload says; writes to
-- the context from other threads, as in the callback of the BLE driver; what
-- iot_nv_get_prov_data, iot_nv_get_device_id, iot_misc_info_load and iot_get_random_id_str
-- read, which is an argument of Boot; work items that are not commands; the log buffer of
-- CONFIG_STDK_IOT_CORE_EASYSETUP_LOG_SUPPORT_NO_USE_LOGFILE; the freeing of preference data; logging; the build
-- of the log in flash. Of src/iot_capability.c: making and freeing values of attributes, iot_cap_sub_cb,
-- iot_cap_commands_cb and the parsing of commands, the counts in a notification and the contents of a
-- preference update, the build that sends CBOR. Of src/iot_nv_data.c: iot_nv_init,
-- iot_nv_deinit, and the certificates and numbers in the device info. Of src/iot_dump_log.c: what the
-- header and the state say, the plain mode, iot_dump_log. Of src/security: keys, ciphers and
-- the manager, which call mbedtls and libsodium. The MQTT client (src/mqtt, derived from Eclipse Paho),
-- the ports (src/port) but for the files of the POSIX one, and vendored code (src/deps) are outside this
-- library.
pub mod Prelude
pub mod Errors
pub mod Util
pub mod Core
pub mod LogFile
pub mod Ble
pub mod Capability
pub mod Nv
pub mod Security
pub mod Server
pub mod DumpLog
