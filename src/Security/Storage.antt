-- ===== src/Security/Storage.antt =====
-- The secure storage over the software backend: src/security/iot_security_storage.c,
-- iot_security_common.c and the storage functions of backend/software/iot_security_be_software.c, as
-- src/iot_nv_data.c uses them. A context always has the software backend with its functions.
use st_device_sdk_c.Prelude.{
  ℕ, Bool, true, false, not, ◌||◌, ltb, ◌==◌, if◌then◌else◌, List, length, Option, none, some,
}
use st_device_sdk_c.Errors.{
  mem_alloc, invalid_args, security_context_null, security_storage_params_null,
  security_storage_invalid_id,
}
use st_device_sdk_c.Nv.{Storage, Result, done, failed, fault, Act, ◌>>=◌, ◌>>◌, give, nvd_max}
use st_device_sdk_c.Security.{Bsp}
use st_device_sdk_c.Security.Backend.{fs_load, fs_store, remove_item, code_of, bytes_of}

-- iot_security_context_t: `storage_params` with its number, and the bit of the storage in sub_system
pub record SecurityContext : Type 0 where
  pub storage_params : Option ℕ
  pub sub_storage : Bool

abbrev pub no_params : SecurityContext
no_params = record { storage_params = none; sub_storage = false }

-- iot_security_storage_deinit: storage_deinit of the software backend is NULL.
abbrev pub storage_deinit : SecurityContext → SecurityContext
storage_deinit context = no_params

-- _iot_security_be_check_context_and_params_is_valid for IOT_SECURITY_SUB_STORAGE, and the number
abbrev pub check_params : Option SecurityContext → Result ℕ
check_params none = failed security_context_null
check_params (some context) = elim context.storage_params [
  | none ↦ failed security_storage_params_null
  | some storage_id ↦ done storage_id
]

-- _iot_security_storage_set_storage_id
abbrev pub set_id : ℕ → Option SecurityContext → Result SecurityContext
set_id storage_id none = failed security_context_null
set_id storage_id (some context) = elim context.storage_params [
  | none ↦ failed security_storage_params_null
  | some old ↦
      if storage_id == 0 || not (ltb storage_id nvd_max)
      then failed security_storage_invalid_id
      else done (record context { storage_params = some storage_id })
]

module _ (b : Bsp) where
  open b use {F, memory}

  -- The board, and the context that iot_nv_data.c holds.
  pub record System : Type 0 where
    pub board : F
    pub context : Option SecurityContext

  -- iot_security_init, which makes the context and iot_security_be_init's
  unfoldable pub security_init : F → Option SecurityContext × F
  security_init f =
      let (room, f1) = memory f in
      let (room', f2) = memory f1 in
      if room then (if room' then some no_params else none, f2) else (none, f1)

  -- iot_security_storage_init: storage_init of the software backend is NULL.
  unfoldable pub storage_init : SecurityContext → Act F SecurityContext
  storage_init context f =
      let (room, f1) = memory f in
      (
        if room
            then done (record { storage_params = some 0; sub_storage = true })
            else failed mem_alloc,
        f1,
      )

  abbrev pub nv_opened : Result SecurityContext × F → Bool × System
  nv_opened (done context, f) = (true, record { board = f; context = some context })
  nv_opened (failed err, f) = (false, record { board = f; context = none })
  nv_opened (fault, f) = (false, record { board = f; context = none })

  -- _iot_nv_io_storage_init: the context is freed when the storage cannot be initialized.
  abbrev pub nv_storage_init : Option SecurityContext × F → Bool × System
  nv_storage_init (none, f) = (false, record { board = f; context = none })
  nv_storage_init (some context, f) = nv_opened (storage_init context f)

  -- _iot_nv_io_storage_deinit, with iot_security_deinit, which frees the context
  abbrev pub nv_storage_deinit : System → System
  nv_storage_deinit s = record s { context = none }

  abbrev pub put_context : Result SecurityContext → Act System (Unit {0})
  put_context (done context) s = (done tt, record s { context = some context })
  put_context (failed err) s = (failed err, s)
  put_context fault s = (fault, s)

  unfoldable pub set_storage_id : ℕ → Act System (Unit {0})
  set_storage_id storage_id s = put_context (set_id storage_id s.context) s

  -- A call of the backend's functions on the board.
  abbrev pub on_board : {A : Type 0} → Act F A → Act System A
  on_board m s = let (r, f) = m s.board in (r, record s { board = f })

  -- The number of the context's parameters, which the backend's functions read.
  unfoldable pub context_id : Act System ℕ
  context_id s = (check_params s.context, s)

  -- iot_security_storage_read with _iot_security_be_software_storage_read
  unfoldable pub storage_read : ℕ → Act System (List ℕ)
  storage_read storage_id = do set_storage_id storage_id; id ← context_id; on_board (fs_load b id)

  -- iot_security_storage_write with _iot_security_be_software_storage_write
  unfoldable pub storage_write : ℕ → List ℕ → Act System (Unit {0})
  storage_write storage_id bytes = do
    set_storage_id storage_id
    if length bytes == 0 then give (failed invalid_args) else give (done tt)
    id ← context_id
    on_board (fs_store b id bytes)

  -- iot_security_storage_remove with _iot_security_be_software_storage_remove
  unfoldable pub storage_remove : ℕ → Act System (Unit {0})
  storage_remove storage_id = do
    set_storage_id storage_id
    id ← context_id
    on_board (remove_item b id)

  -- The storage that iot_nv_data.c works on.
  abbrev pub software : Storage
  software = record {
    S = System;
    init = λ s. nv_storage_init (security_init s.board);
    deinit = nv_storage_deinit;
    storage_read = λ n s. let (r, s') = storage_read n s in ((code_of r, bytes_of r), s');
    storage_write = λ n bytes s. let (r, s') = storage_write n bytes s in (code_of r, s');
    storage_remove = λ n s. let (r, s') = storage_remove n s in (code_of r, s');
  }
