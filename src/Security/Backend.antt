-- ===== src/Security/Backend.antt =====
-- The items as files (src/security/backend/software/iot_security_be_bsp.c).
use st_device_sdk_c.Prelude.{
  ℕ, ◌+◌, ◌-◌, true, false, ltb, ◌==◌, if◌then◌else◌, List, [], ◌∷◌, ◌++◌, length, take, none, some,
}
use st_device_sdk_c.Errors.{
  IotError, error_none, mem_alloc, fs_no_file, security_be_external_null,
  security_storage_invalid_id, security_fs_open, security_fs_read, security_fs_write,
  security_fs_close, security_fs_remove, security_fs_buffer, security_fs_not_found,
  security_fs_invalid_args, security_fs_invalid_target, security_fs_unknown_target,
}
use st_device_sdk_c.Nv.{Result, done, failed, fault, Act, nvd_max}
use st_device_sdk_c.Nv.Keeps.{storage_max}
use st_device_sdk_c.Security.{Bsp, nvd_factory, filename_max}

-- iot_security_storage_target_t, without the targets that no number has
pub data Target : Type 0 where
  target_unknown target_nv target_di : Target

-- _iot_security_be_bsp_fs_storage_id2target
abbrev pub storage_id2target : ℕ → Target
storage_id2target storage_id =
    if storage_id == 0
    then target_unknown
    else if ltb storage_id nvd_factory
    then target_nv
    else if ltb storage_id nvd_max
    then target_di
    else target_unknown

-- `if (err) return the code`
abbrev pub ok_or : {A : Type 0} → IotError → A → IotError → Result A
ok_or err a code = if err == 0 then done a else failed code

-- IOT_ERROR_FS_NO_FILE as IOT_ERROR_SECURITY_FS_NOT_FOUND, any other error as the given one
abbrev pub missing_or : IotError → IotError → IotError
missing_or code err = if err == fs_no_file then security_fs_not_found else code

-- The code of a result. No routine of the storage comes to a fault.
abbrev pub code_of : {A : Type 0} → Result A → IotError
code_of (done a) = error_none
code_of (failed err) = err
code_of fault = mem_alloc

abbrev pub bytes_of : Result (List ℕ) → List ℕ
bytes_of (done bytes) = bytes
bytes_of (failed err) = []
bytes_of fault = []

module _ (b : Bsp) where
  open b use {F, H, memory, fs_open, fs_read, fs_write, fs_close, fs_remove, data_path}

  -- snprintf of "%s/"
  abbrev pub prefix : List ℕ
  prefix = elim b.extra_path [ none ↦ [] | some path ↦ path ++ 47 ∷ [] ]

  -- _iot_security_be_bsp_fs_storage_id2filename. The test counts no NUL: snprintf cuts the last
  -- character of a name that fills the buffer.
  abbrev pub storage_id2filename : ℕ → ℕ → Result (List ℕ)
  storage_id2filename storage_id filename_len = elim (data_path storage_id) [
    | none ↦ failed security_storage_invalid_id
    | some file ↦
        let c : ℕ = length prefix in
        if ltb filename_len (length file + c)
        then failed security_fs_buffer
        else done (prefix ++ take (filename_len - c - 1) file)
  ]

  -- The bytes are shortened to their own memory, and the file is closed.
  unfoldable pub load_sized : H → List ℕ → Act F (List ℕ)
  load_sized handle bytes f =
      let (room, f1) = memory f in
      let (closed, f2) = fs_close handle f1 in
      (if room then ok_or closed bytes security_fs_close else failed mem_alloc, f2)

  unfoldable pub load_buffer : H → Act F (List ℕ)
  load_buffer handle f =
      let ((err, bytes), f1) = fs_read handle storage_max f in
      if err == 0
      then load_sized handle bytes f1
      else (failed (missing_or security_fs_read err), (fs_close handle f1).1)

  -- The read of an open file. Without memory for the buffer the file stays open.
  unfoldable pub load_open : H → Act F (List ℕ)
  load_open handle f =
      let (room, f1) = memory f in if room then load_buffer handle f1 else (failed mem_alloc, f1)

  unfoldable pub load_file : List ℕ → Act F (List ℕ)
  load_file filename f =
      let ((err, handle), f1) = fs_open filename false f in
      if err == 0 then load_open handle f1 else (failed (missing_or security_fs_open err), f1)

  -- _iot_security_be_bsp_fs_load_from_nv
  unfoldable pub load_from_nv : ℕ → Act F (List ℕ)
  load_from_nv storage_id f = elim (storage_id2filename storage_id filename_max) [
    | fault ↦ (fault, f)
    | failed err ↦ (failed err, f)
    | done filename ↦
        if ltb storage_id nvd_factory then load_file filename f else (failed security_fs_open, f)
  ]

  -- external_device_info_cb
  abbrev pub load_from_device_info : ℕ → Act F (List ℕ)
  load_from_device_info storage_id f = elim b.device_info [
    | none ↦ (failed security_be_external_null, f)
    | some callback ↦ let ((err, bytes), f1) = callback storage_id f in (ok_or err bytes err, f1)
  ]

  -- _iot_security_be_bsp_fs_load
  unfoldable pub fs_load : ℕ → Act F (List ℕ)
  fs_load storage_id f = elim (storage_id2target storage_id) [
    | target_nv ↦ load_from_nv storage_id f
    | target_di ↦ load_from_device_info storage_id f
    | target_unknown ↦ (failed security_fs_unknown_target, f)
  ]

  -- The write of an open file, and its end.
  unfoldable pub store_open : H → List ℕ → Act F (Unit {0})
  store_open handle bytes f =
      let (err, f1) = fs_write handle bytes f in
      let (closed, f2) = fs_close handle f1 in
      (if err == 0 then ok_or closed tt security_fs_close else failed security_fs_write, f2)

  unfoldable pub store_file : List ℕ → List ℕ → Act F (Unit {0})
  store_file filename bytes f =
      let ((err, handle), f1) = fs_open filename true f in
      if err == 0 then store_open handle bytes f1 else (failed security_fs_open, f1)

  -- _iot_security_be_bsp_fs_store_to_nv
  unfoldable pub store_to_nv : ℕ → List ℕ → Act F (Unit {0})
  store_to_nv storage_id bytes f = elim (storage_id2filename storage_id filename_max) [
    | fault ↦ (fault, f)
    | failed err ↦ (failed err, f)
    | done filename ↦ store_file filename bytes f
  ]

  -- _iot_security_be_bsp_fs_store
  unfoldable pub fs_store : ℕ → List ℕ → Act F (Unit {0})
  fs_store storage_id bytes f =
      if length bytes == 0
      then (failed security_fs_invalid_args, f)
      else elim (storage_id2target storage_id) [
        | target_nv ↦ store_to_nv storage_id bytes f
        | target_di ↦ (failed security_fs_invalid_target, f)
        | target_unknown ↦ (failed security_fs_unknown_target, f)
      ]

  -- _iot_security_be_bsp_fs_remove_from_nv
  unfoldable pub remove_from_nv : ℕ → Act F (Unit {0})
  remove_from_nv storage_id f = elim (storage_id2filename storage_id filename_max) [
    | fault ↦ (fault, f)
    | failed err ↦ (failed err, f)
    | done filename ↦
        let (err, f1) = fs_remove filename f in
        (ok_or err tt (missing_or security_fs_remove err), f1)
  ]

  -- _iot_security_be_bsp_fs_remove
  unfoldable pub remove_item : ℕ → Act F (Unit {0})
  remove_item storage_id f = elim (storage_id2target storage_id) [
    | target_nv ↦ remove_from_nv storage_id f
    | target_di ↦ (failed security_fs_invalid_target, f)
    | target_unknown ↦ (failed security_fs_unknown_target, f)
  ]
