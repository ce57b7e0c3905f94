-- ===== src/Security/Posix.antt =====
-- The files of a POSIX board (src/port/bsp/posix/iot_bsp_fs_posix.c and iot_bsp_nv_data_posix.c).
-- The operating system's calls are arguments.
use st_device_sdk_c.Prelude.{
  ℕ, Bool, not, ◌&&◌, ◌==◌, if◌then◌else◌, List, [], ◌∷◌, length, take, get_elem?, zero, suc,
  Option, none, some,
}
use st_device_sdk_c.Prelude.Texts.{codes}
use st_device_sdk_c.Errors.{
  IotError, error_none, fs_no_file, fs_open_fail, fs_read_fail, fs_write_fail, fs_close_fail,
  fs_remove_fail,
}
use st_device_sdk_c.Security.{Bsp}

-- The calls; -1 is `none` or false.
pub record Posix : Type 1 where
  pub D : Type 0
  pub malloc : D → Bool × D
  -- access of F_OK
  pub access : List ℕ → D → Bool
  -- open with O_RDONLY, or with O_RDWR and O_CREAT
  pub open_ : List ℕ → Bool → D → Option ℕ × D
  pub read : ℕ → ℕ → D → Option (List ℕ) × D
  pub write : ℕ → List ℕ → D → Option ℕ × D
  pub close : ℕ → D → Bool × D
  -- remove, and whether errno is ENOENT
  pub remove : List ℕ → D → (Bool × Bool) × D

-- iot_bsp_fs_handle_t
pub record FsHandle : Type 0 where
  pub fd : ℕ
  pub filename : List ℕ

abbrev pub no_handle : FsHandle
no_handle = record { fd = 0; filename = [] }

-- The test of `fd > 0`, and the handle.
abbrev pub opened : {D : Type 0} → List ℕ → Option ℕ × D → (IotError × FsHandle) × D
opened filename (none, d) = ((fs_open_fail, no_handle), d)
opened filename (some fd, d) =
    if fd == 0
    then ((fs_open_fail, no_handle), d)
    else ((error_none, record { fd = fd; filename = take 127 filename }), d)

-- `size != length`
abbrev pub written : {D : Type 0} → ℕ → Option ℕ × D → IotError × D
written len (none, d) = (fs_write_fail, d)
written len (some size, d) = (if size == len then error_none else fs_write_fail, d)

abbrev pub read_result : {D : Type 0} → Option (List ℕ) × D → (IotError × List ℕ) × D
read_result (none, d) = ((fs_read_fail, []), d)
read_result (some data_, d) = ((error_none, data_), d)

module _ (p : Posix) where
  open p use {D, malloc, access, open_, read, write, close, remove}

  -- iot_bsp_fs_open
  unfoldable pub fs_open : List ℕ → Bool → D → (IotError × FsHandle) × D
  fs_open filename mode d =
      if not mode && not (access filename d)
      then ((fs_no_file, no_handle), d)
      else opened filename (open_ filename mode d)

  -- iot_bsp_fs_read
  unfoldable pub fs_read : FsHandle → ℕ → D → (IotError × List ℕ) × D
  fs_read handle len d =
      if not (access handle.filename d)
      then ((fs_no_file, []), d)
      else let (room, d') = malloc d in
        if room then read_result (read handle.fd len d') else ((fs_open_fail, []), d')

  -- iot_bsp_fs_write
  unfoldable pub fs_write : FsHandle → List ℕ → D → IotError × D
  fs_write handle data_ d = written (length data_) (write handle.fd data_ d)

  -- iot_bsp_fs_close
  unfoldable pub fs_close : FsHandle → D → IotError × D
  fs_close handle d =
      let (ok, d') = close handle.fd d in (if ok then error_none else fs_close_fail, d')

  -- iot_bsp_fs_remove
  unfoldable pub fs_remove : List ℕ → D → IotError × D
  fs_remove filename d =
      let ((ok, missing), d') = remove filename d in
      (if ok then error_none else if missing then fs_no_file else fs_remove_fail, d')

  -- The board, whose extra path is ".".
  abbrev pub posix_board : (ℕ → Option (List ℕ)) → Option (ℕ → D → (IotError × List ℕ) × D) → Bsp
  posix_board data_path device_info = record {
    F = D;
    H = FsHandle;
    memory = malloc;
    fs_open = fs_open;
    fs_read = fs_read;
    fs_write = fs_write;
    fs_close = fs_close;
    fs_remove = fs_remove;
    data_path = data_path;
    extra_path = some (46 ∷ []);
    device_info = device_info;
  }

-- The names that iot_bsp_nv_get_data_path gives to the numbers from 1 on.
abbrev pub nv_names : List (List ℕ)
nv_names =
    codes "WifiProvStatus"
    ∷ codes "IotAPSSID"
    ∷ codes "IotAPPASS"
    ∷ codes "IotAPBSSID"
    ∷ codes "IotAPAuthType"
    ∷ codes "CloudProvStatus"
    ∷ codes "ServerURL"
    ∷ codes "ServerPort"
    ∷ codes "Label"
    ∷ codes "DeviceID"
    ∷ codes "MiscInfo"
    ∷ codes "PrivateKey"
    ∷ codes "PublicKey"
    ∷ codes "RootCert"
    ∷ codes "SubCert"
    ∷ codes "DeviceCert"
    ∷ codes "SerialNum"
    ∷ []

-- iot_bsp_nv_get_data_path
abbrev pub nv_get_data_path : ℕ → Option (List ℕ)
nv_get_data_path zero = none
nv_get_data_path (suc n) = get_elem? nv_names n
