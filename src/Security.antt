-- ===== src/Security.antt =====
-- The secure storage: src/security/iot_security_storage.c and iot_security_common.c over the software
-- backend, src/security/backend/software/iot_security_be_software.c and iot_security_be_bsp.c, which
-- keeps an item in a file. The files of a board (include/bsp/iot_bsp_fs.h), its memory and the reader
-- of the device information are arguments. Built without CONFIG_STDK_IOT_CORE_SUPPORT_STNV_PARTITION.
pub mod Backend
pub mod Storage
pub mod Rules
pub mod Files
pub mod Items
pub mod Stores
pub mod Refines
pub mod Posix
pub mod PosixRules
pub mod Names
mod Tests
mod Working
mod PosixTests
pub mod PosixFiles
pub mod PosixOverwrite
use st_device_sdk_c.Prelude.{ℕ, Bool, List, Option}
use st_device_sdk_c.Errors.{IotError}

-- IOT_NVD_FACTORY
abbrev pub nvd_factory : ℕ
nvd_factory = 12

-- IOT_SECURITY_STORAGE_FILENAME_MAX_LEN
abbrev pub filename_max : ℕ
filename_max = 64

-- A board: its files, its memory, and what it names the items.
pub record Bsp : Type 1 where
  -- the state of the board
  pub F : Type 0
  -- iot_bsp_fs_handle_t
  pub H : Type 0
  -- iot_os_malloc and iot_os_realloc: whether there is memory
  pub memory : F → Bool × F
  -- iot_bsp_fs_open of a name; true for FS_READWRITE
  pub fs_open : List ℕ → Bool → F → (IotError × H) × F
  -- iot_bsp_fs_read into a buffer of the size
  pub fs_read : H → ℕ → F → (IotError × List ℕ) × F
  pub fs_write : H → List ℕ → F → IotError × F
  pub fs_close : H → F → IotError × F
  pub fs_remove : List ℕ → F → IotError × F
  -- iot_bsp_nv_get_data_path
  pub data_path : ℕ → Option (List ℕ)
  -- IOT_SECURITY_STORAGE_EXTRA_PATH
  pub extra_path : Option (List ℕ)
  -- external_device_info_cb, if there is one
  pub device_info : Option (ℕ → F → (IotError × List ℕ) × F)
