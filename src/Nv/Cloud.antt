-- ===== src/Nv/Cloud.antt =====
-- The stored server (src/iot_nv_data.c): iot_nv_set_cloud_prov_data and
-- iot_nv_get_cloud_prov_data, and both parts: iot_nv_set_prov_data and iot_nv_get_prov_data.
use st_device_sdk_c.Prelude.{ℕ, ◌==◌, if◌then◌else◌, Bool, true, false, List, Option, none, some}
use st_device_sdk_c.Prelude.Int.{ℤ, negsuc}
use st_device_sdk_c.Errors.{IotError, nv_data_error}
use st_device_sdk_c.Nv.{
  Storage, Result, done, failed, fault, check_status, Act, ◌>>◌, ◌>>=◌, give, as_nv_error, put,
  erase, cloud_prov_status, server_url, server_port, nv_label, status_done, status_none,
}
use st_device_sdk_c.Nv.Text.{print_int, atoi, copied, buffer, has_nul, c_text}
use st_device_sdk_c.Nv.Wifi.{WifiProvData, set_wifi_prov_data, get_wifi_prov_data, read_item}

-- struct iot_cloud_prov_data, as far as it is stored; NULL is `none`.
pub record CloudProvData : Type 0 where
  pub broker_url : Option (List ℕ)
  pub broker_port : ℤ
  pub label : Option (List ℕ)

-- DATA_SIZE
abbrev pub cloud_data_size : ℕ
cloud_data_size = 1025

-- A text that may be missing; else it is copied.
abbrev pub text_of : Bool → Option (List ℕ) → Result (Option (List ℕ))
text_of memory none = done none
text_of memory (some bytes) = elim (copied memory (buffer cloud_data_size bytes)) [
  | done text ↦ done (some text)
  | failed e ↦ failed e
  | fault ↦ fault
]

abbrev pub port_of : Option (List ℕ) → Result ℤ
port_of none = done (negsuc 0)
port_of (some bytes) =
    let stored = buffer cloud_data_size bytes in
    if has_nul stored then done (atoi (c_text stored)) else fault

-- The result of a part, with any error as IOT_ERROR_NV_DATA_ERROR.
abbrev pub of_part : Option (IotError × WifiProvData) → Result WifiProvData
of_part none = fault
of_part (some (err, w)) = if err == 0 then done w else failed nv_data_error

module _ (st : Storage) where
  open st use {S}

  unfoldable pub set_text : ℕ → Option (List ℕ) → Act S (Unit {0})
  set_text nv_id none = erase st nv_id
  set_text nv_id (some text) = put st nv_id text

  -- The writes between the two of the status.
  unfoldable pub set_cloud_items : CloudProvData → Act S (Unit {0})
  set_cloud_items c = do
    set_text server_url c.broker_url
    put st server_port (print_int c.broker_port)
    set_text nv_label c.label

  -- iot_nv_set_cloud_prov_data; `memory`: could the buffer be allocated.
  unfoldable pub set_cloud_prov_data : Bool → CloudProvData → Act S (Unit {0})
  set_cloud_prov_data false c = give (failed nv_data_error)
  set_cloud_prov_data true c = do
    put st cloud_prov_status status_none
    set_cloud_items c
    put st cloud_prov_status status_done

  -- iot_nv_set_prov_data, with the memory of the two parts.
  unfoldable pub set_prov_data : Bool × Bool → WifiProvData → CloudProvData → Act S (Unit {0})
  set_prov_data (wifi_memory, cloud_memory) w c = do
    as_nv_error (set_wifi_prov_data st wifi_memory w)
    as_nv_error (set_cloud_prov_data cloud_memory c)

  -- iot_nv_get_cloud_prov_data, with the memory of the buffer and of the two copies. What the
  -- structure holds after an error is not modelled.
  unfoldable pub get_cloud_prov_data : Bool → Bool × Bool → Act S CloudProvData
  get_cloud_prov_data false copies = give (failed nv_data_error)
  get_cloud_prov_data true (url_memory, label_memory) = do
    check_status st cloud_prov_status cloud_data_size
    url ← read_item st server_url cloud_data_size
    broker_url ← give (text_of url_memory url)
    port ← read_item st server_port cloud_data_size
    broker_port ← give (port_of port)
    stored ← read_item st nv_label cloud_data_size
    label ← give (text_of label_memory stored)
    give (done (record { broker_url = broker_url; broker_port = broker_port; label = label }))

  unfoldable pub wifi_part : Bool → WifiProvData → Act S WifiProvData
  wifi_part memory old s = let (r, s') = get_wifi_prov_data st memory old s in (of_part r, s')

  -- iot_nv_get_prov_data
  unfoldable pub get_prov_data :
      Bool → Bool → Bool × Bool → WifiProvData → Act S (WifiProvData × CloudProvData)
  get_prov_data wifi_memory cloud_memory copies old = do
    w ← wifi_part wifi_memory old
    c ← as_nv_error (get_cloud_prov_data cloud_memory copies)
    give (done (w, c))
