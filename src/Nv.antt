-- ===== src/Nv.antt =====
-- Data that survives a restart (src/iot_nv_data.c), over the storage of
-- src/security/iot_security_storage.c, which is an argument. The arguments that only a caller of
-- this file can make NULL are never NULL here.
pub mod Text
pub mod TextLaws
pub mod Wifi
pub mod Cloud
pub mod Keeps
pub mod Commit
pub mod Interrupt
pub mod Stored
pub mod RoundTrip
pub mod Items
pub mod Tests
use st_device_sdk_c.Prelude.{
  ℕ, Bool, true, false, ltb, ◌==◌, not, if◌then◌else◌, List, [], ◌∷◌, length, Option, none, some,
}
use st_device_sdk_c.Errors.{
  IotError, error_none, invalid_args, nv_data_error, nv_data_not_exist, security_fs_buffer,
  security_fs_not_found,
}
use st_device_sdk_c.Prelude.Options.{is_none}
use st_device_sdk_c.Util.Url.{after_prefix}

-- iot_nvd_t: the numbers of the enumeration
abbrev pub wifi_prov_status : ℕ
wifi_prov_status = 1

abbrev pub ap_ssid : ℕ
ap_ssid = 2

abbrev pub ap_pass : ℕ
ap_pass = 3

abbrev pub ap_bssid : ℕ
ap_bssid = 4

abbrev pub ap_auth_type : ℕ
ap_auth_type = 5

abbrev pub cloud_prov_status : ℕ
cloud_prov_status = 6

abbrev pub server_url : ℕ
server_url = 7

abbrev pub server_port : ℕ
server_port = 8

abbrev pub nv_label : ℕ
nv_label = 9

abbrev pub device_id_key : ℕ
device_id_key = 10

abbrev pub nvd_max : ℕ
nvd_max = 18

-- "DONE" and "NONE"
abbrev pub status_done : List ℕ
status_done = 68 ∷ 79 ∷ 78 ∷ 69 ∷ []

abbrev pub status_none : List ℕ
status_none = 78 ∷ 79 ∷ 78 ∷ 69 ∷ []

-- The secure storage, and the state that it works on. `read` answers a code and the bytes.
pub record Storage : Type 1 where
  pub S : Type 0
  -- iot_security_init and iot_security_storage_init, and their counterparts
  pub init : S → Bool × S
  pub deinit : S → S
  pub storage_read : ℕ → S → (IotError × List ℕ) × S
  pub storage_write : ℕ → List ℕ → S → IotError × S
  pub storage_remove : ℕ → S → IotError × S

-- What a routine comes to: a value, an error code, or a read behind the end of a buffer.
pub data Result {ℓ} (A : Type ℓ) : Type ℓ where
  done : A → Result A
  failed : IotError → Result A
  fault : Result A

-- An action on the storage's state.
abbrev pub Act : Type 0 → Type 0 → Type 0
Act S A = S → Result A × S

abbrev pub then_act : {S A B : Type 0} → Result A × S → (A → Act S B) → Result B × S
then_act (done a, s) f = f a s
then_act (failed e, s) f = (failed e, s)
then_act (fault, s) f = (fault, s)

infixl 5 ◌>>=◌ ◌>>◌
unfoldable pub ◌>>=◌ : {S A B : Type 0} → Act S A → (A → Act S B) → Act S B
◌>>=◌ m f s = then_act (m s) f

abbrev pub ◌>>◌ : {S B : Type 0} → Act S (Unit {0}) → Act S B → Act S B
m >> k = m >>= λ _. k

abbrev pub give : {S A : Type 0} → Result A → Act S A
give r s = (r, s)

-- `if (err) return / goto exit` with another code
abbrev pub recode : {A : Type 0} → (IotError → IotError) → Result A → Result A
recode f (done a) = done a
recode f (failed e) = failed (f e)
recode f fault = fault

-- Every error as IOT_ERROR_NV_DATA_ERROR.
abbrev pub as_nv_error : {S A : Type 0} → Act S A → Act S A
as_nv_error m s = let (r, s') = m s in (recode (λ e. nv_data_error) r, s')

abbrev pub is_done : {A : Type 0} → Result A → Bool
is_done (done a) = true
is_done (failed e) = false
is_done fault = false

-- IOT_ERROR_SECURITY_FS_NOT_FOUND becomes IOT_ERROR_NV_DATA_NOT_EXIST.
abbrev pub nv_code : IotError → IotError
nv_code e = if e == security_fs_not_found then nv_data_not_exist else nv_data_error

abbrev pub strncmp_done : List ℕ → Bool
strncmp_done bytes = not (is_none (after_prefix status_done bytes))

-- `data_len < data_buf.len`
abbrev pub fits : ℕ → List ℕ → Result (List ℕ)
fits data_len bytes = if ltb data_len (length bytes) then failed security_fs_buffer else done bytes

module _ (st : Storage) where
  open st use {S, init, deinit, storage_read, storage_write, storage_remove}

  abbrev pub then_deinit : {A : Type 0} → Result A × S → Result A × S
  then_deinit (r, s) = (r, deinit s)

  -- _iot_nv_io_storage_init, the switch, and _iot_nv_io_storage_deinit, whose code is not read
  unfoldable pub with_storage : {A : Type 0} → Act S A → Act S A
  with_storage m s =
      let (opened, s') = init s in
      elim opened [ true ↦ then_deinit (m s') | false ↦ (failed nv_data_error, s') ]

  unfoldable pub read_mode : ℕ → ℕ → Act S (List ℕ)
  read_mode nv_id data_len s =
      let ((err, bytes), s') = storage_read nv_id s in
      (if err == 0 then fits data_len bytes else failed (nv_code err), s')

  unfoldable pub write_mode : ℕ → List ℕ → Act S (Unit {0})
  write_mode nv_id bytes s =
      let (err, s') = storage_write nv_id bytes s in
      (if err == 0 then done tt else failed nv_data_error, s')

  unfoldable pub remove_mode : ℕ → Act S (Unit {0})
  remove_mode nv_id s =
      let (err, s') = storage_remove nv_id s in
      (if err == 0 then done tt else failed (nv_code err), s')

  -- _iot_nv_read_data: the bytes that it puts into a buffer of `data_len` bytes. Behind them it puts
  -- a NUL, if there is room.
  unfoldable pub read_data : ℕ → ℕ → Act S (List ℕ)
  read_data nv_id data_len =
      if not (ltb nv_id nvd_max)
      then give (failed invalid_args)
      else if data_len == 0
      then give (failed invalid_args)
      else with_storage (read_mode nv_id data_len)

  -- _iot_nv_write_data
  unfoldable pub write_data : ℕ → List ℕ → Act S (Unit {0})
  write_data nv_id bytes =
      if not (ltb nv_id nvd_max)
      then give (failed invalid_args)
      else if length bytes == 0
      then give (failed invalid_args)
      else with_storage (write_mode nv_id bytes)

  -- _iot_nv_remove_data
  unfoldable pub remove_data : ℕ → Act S (Unit {0})
  remove_data nv_id =
      if not (ltb nv_id nvd_max)
      then give (failed invalid_args)
      else with_storage (remove_mode nv_id)

  -- iot_nv_erase, where its code is not read
  unfoldable pub erase : ℕ → Act S (Unit {0})
  erase nv_id s = let (r, s') = remove_data nv_id s in (done tt, s')

  -- A write whose failure ends the caller.
  unfoldable pub put : ℕ → List ℕ → Act S (Unit {0})
  put nv_id bytes = as_nv_error (write_data nv_id bytes)

  -- A status that has to be "DONE": its first four bytes are compared.
  unfoldable pub check_status : ℕ → ℕ → Act S (Unit {0})
  check_status nv_id data_len = do
    bytes ← as_nv_error (read_data nv_id data_len)
    give (if strncmp_done bytes then done tt else failed nv_data_error)

  -- iot_nv_prov_data_exist: 4 of the 5 bytes of the buffer can be read.
  unfoldable pub prov_data_exist : S → Bool × S
  prov_data_exist s =
      let (r, s') = (check_status wifi_prov_status 4 >> check_status cloud_prov_status 4) s in
      (is_done r, s')

  -- iot_nv_erase_prov_data
  unfoldable pub erase_prov_data : Act S (Unit {0})
  erase_prov_data = put wifi_prov_status status_none >> put cloud_prov_status status_none

  -- iot_nv_set_device_id
  unfoldable pub set_device_id : List ℕ → Act S (Unit {0})
  set_device_id device_id = put device_id_key device_id
