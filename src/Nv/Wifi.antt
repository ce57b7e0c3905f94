-- ===== src/Nv/Wifi.antt =====
-- The stored access point (src/iot_nv_data.c): iot_nv_set_wifi_prov_data, iot_nv_get_wifi_prov_data.
use st_device_sdk_c.Prelude.{
  ℕ, ◌+◌, ltb, leb, Bool, true, false, not, ◌==◌, if◌then◌else◌, List, [], ◌∷◌, ◌++◌, length,
  get_or, take, replicate, Option, none, some,
}
use st_device_sdk_c.Prelude.Int.{ℤ, pos, negsuc}
use st_device_sdk_c.Errors.{IotError, error_none, nv_data_error, nv_data_not_exist}
use st_device_sdk_c.Util.Mac.{convert_str_mac, convert_mac_str}
use st_device_sdk_c.Nv.{
  Storage, Result, done, failed, fault, Act, ◌>>=◌, ◌>>◌, give, read_data, check_status, put, erase,
  wifi_prov_status, ap_ssid, ap_pass, ap_bssid, ap_auth_type, status_done, status_none,
}
use st_device_sdk_c.Nv.Text.{c_text, has_nul, buffer, put_text, print_int, atoi}

-- struct iot_wifi_prov_data: three arrays of characters, the bytes of the address, and a number.
pub record WifiProvData : Type 0 where
  pub ssid : List ℕ
  pub password : List ℕ
  pub mac_str : List ℕ
  pub bssid : List ℕ
  pub security_type : ℤ

-- IOT_WIFI_PROV_SSID_STR_LEN, IOT_WIFI_PROV_PASSWORD_STR_LEN, IOT_WIFI_PROV_MAC_STR_LEN
abbrev pub ssid_str_len : ℕ
ssid_str_len = 32

abbrev pub password_str_len : ℕ
password_str_len = 64

abbrev pub mac_str_len : ℕ
mac_str_len = 17

-- IOT_NVD_MAX_BSSID_LEN
abbrev pub max_bssid_len : ℕ
max_bssid_len = 6

-- IOT_WIFI_AUTH_MAX
abbrev pub wifi_auth_max : ℕ
wifi_auth_max = 8

-- DATA_SIZE
abbrev pub wifi_data_size : ℕ
wifi_data_size = password_str_len + 1

-- After `memset`
abbrev pub no_wifi_prov : WifiProvData
no_wifi_prov = record {
  ssid = replicate 33 0;
  password = replicate 65 0;
  mac_str = replicate 18 0;
  bssid = replicate 6 0;
  security_type = pos 0;
}

abbrev pub is_auth_mode : ℤ → Bool
is_auth_mode (pos n) = leb n wifi_auth_max
is_auth_mode (negsuc n) = false

-- A read where a missing item is no error.
abbrev pub present : Result (List ℕ) → Result (Option (List ℕ))
present (done bytes) = done (some bytes)
present (failed e) = if e == nv_data_not_exist then done none else failed nv_data_error
present fault = fault

-- `strlen` and what follows for an array that has room for `len` characters and the NUL.
abbrev pub put_cut : ℕ → List ℕ → List ℕ → List ℕ
put_cut len text array =
    if ltb (length text) len then put_text text array else put_text (take len text) array

abbrev pub array_of : ℕ → Option (List ℕ) → List ℕ → Result (List ℕ)
array_of len none array = done (put_text [] array)
array_of len (some bytes) array =
    let stored = buffer wifi_data_size bytes in
    if has_nul stored then done (put_cut len (c_text stored) array) else fault

abbrev pub no_mac : List ℕ × List ℕ
no_mac = (no_wifi_prov.mac_str, no_wifi_prov.bssid)

-- A conversion that failed leaves both empty.
abbrev pub if_converted : IotError → List ℕ × List ℕ → List ℕ × List ℕ
if_converted err both = if err == 0 then both else no_mac

-- The two forms of an address: 17 characters, or 6 bytes.
abbrev pub mac_of : Option (List ℕ) → List ℕ × List ℕ
mac_of none = no_mac
mac_of (some bytes) =
    if leb mac_str_len (length bytes)
    then (let mac_str = take mac_str_len bytes ++ 0 ∷ [] in
        let (err, addr) = convert_str_mac (some (c_text mac_str)) true in
        if_converted err (mac_str, addr))
    else if leb max_bssid_len (length bytes)
    then (let addr = take max_bssid_len bytes in
        let (err, text) = convert_mac_str (some addr) true 18 in
        if_converted err (text ++ 0 ∷ [], addr))
    else no_mac

abbrev pub auth_of : Option (List ℕ) → Result ℤ
auth_of none = done (negsuc 0)
auth_of (some bytes) =
    let stored = buffer wifi_data_size bytes in
    if has_nul stored then done (atoi (c_text stored)) else fault

-- The code and the structure; `none` is a read behind the buffer.
abbrev pub or_cleared : Result WifiProvData → Option (IotError × WifiProvData)
or_cleared (done w) = some (error_none, w)
or_cleared (failed e) = some (e, no_wifi_prov)
or_cleared fault = none

module _ (st : Storage) where
  open st use {S}

  -- One array: an empty text is erased; else its first `len` bytes are written.
  unfoldable pub set_array : ℕ → ℕ → List ℕ → Act S (Unit {0})
  set_array nv_id len array =
      if get_or array 0 0 == 0 then erase st nv_id else put st nv_id (take len array)

  unfoldable pub set_auth_type : ℤ → Act S (Unit {0})
  set_auth_type security_type =
      if not (is_auth_mode security_type)
      then erase st ap_auth_type
      else put st ap_auth_type (print_int security_type)

  -- The writes between the two of the status.
  unfoldable pub set_wifi_items : WifiProvData → Act S (Unit {0})
  set_wifi_items w = do
    set_array ap_ssid ssid_str_len w.ssid
    set_array ap_pass password_str_len w.password
    set_array ap_bssid mac_str_len w.mac_str
    set_auth_type w.security_type

  -- iot_nv_set_wifi_prov_data; `memory`: could the buffer be allocated.
  unfoldable pub set_wifi_prov_data : Bool → WifiProvData → Act S (Unit {0})
  set_wifi_prov_data false w = give (failed nv_data_error)
  set_wifi_prov_data true w = do
    put st wifi_prov_status status_none
    set_wifi_items w
    put st wifi_prov_status status_done

  unfoldable pub read_item : ℕ → ℕ → Act S (Option (List ℕ))
  read_item nv_id data_len s = let (r, s') = read_data st nv_id data_len s in (present r, s')

  unfoldable pub get_array : ℕ → ℕ → List ℕ → Act S (List ℕ)
  get_array nv_id len array = do
    item ← read_item nv_id wifi_data_size
    give (array_of len item array)

  unfoldable pub get_wifi_items : WifiProvData → Act S WifiProvData
  get_wifi_items w = do
    check_status st wifi_prov_status wifi_data_size
    ssid ← get_array ap_ssid ssid_str_len w.ssid
    password ← get_array ap_pass password_str_len w.password
    stored ← read_item ap_bssid wifi_data_size
    auth ← read_item ap_auth_type wifi_data_size
    security_type ← give (auth_of auth)
    give (
        done (record {
          ssid = ssid;
          password = password;
          mac_str = (mac_of stored).0;
          bssid = (mac_of stored).1;
          security_type = security_type;
        }))

  -- iot_nv_get_wifi_prov_data, into the structure `w`
  unfoldable pub get_wifi_prov_data : Bool → WifiProvData → S → Option (IotError × WifiProvData) × S
  get_wifi_prov_data false w s = (some (nv_data_error, w), s)
  get_wifi_prov_data true w s = let (r, s') = get_wifi_items w s in (or_cleared r, s')
