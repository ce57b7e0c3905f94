-- ===== src/Security/Rules.antt =====
-- What a board has to do for the secure storage: include/bsp/iot_bsp_fs.h and iot_bsp_nv_data.h.
use st_device_sdk_c.Prelude.{
  ℕ, ◌+◌, ◌<◌, ◌≡◌, ◌≢◌, ◌⊎◌, Bool, true, false, ltb, ◌==◌, not, ◌&&◌, List, [], length, take,
  Option, none, some,
}
use st_device_sdk_c.Errors.{IotError}
use st_device_sdk_c.Nv.Keeps.{Torn}
use st_device_sdk_c.Security.{Bsp, nvd_factory, filename_max}
use st_device_sdk_c.Security.Backend.{prefix}

-- A number whose item is a file.
abbrev pub is_file : ℕ → Bool
is_file n = not (n == 0) && ltb n nvd_factory

-- As much of a file as a buffer holds.
abbrev pub first_bytes : ℕ → Option (List ℕ) → Option (List ℕ)
first_bytes len none = none
first_bytes len (some bytes) = some (take len bytes)

-- `item f name` is what the file holds; `Opened f h name`: `h` is the file's, at its start.
pub record IsBsp (b : Bsp) (item : b.F → List ℕ → Option (List ℕ))
    (Opened : b.F → b.H → List ℕ → Type 0) (info : ℕ → Option (List ℕ)) : Type 0 where
  pub memory_keeps : (f : b.F) (name : List ℕ) → item (b.memory f).1 name ≡ item f name
  pub memory_Opened :
      (f : b.F) (h : b.H) (name : List ℕ) → Opened f h name → Opened (b.memory f).1 h name
  pub open_Opened :
      (name : List ℕ) (write : Bool) (f : b.F)
      → ((b.fs_open name write f).0.0 == 0) ≡ true
      → Opened (b.fs_open name write f).1 (b.fs_open name write f).0.1 name
  pub read_open_keeps :
      (name other : List ℕ) (f : b.F) → item (b.fs_open name false f).1 other ≡ item f other
  -- A file that is opened to be written may be made, or emptied.
  pub write_open :
      (name : List ℕ) (f : b.F)
      → let new = item (b.fs_open name true f).1 name in (new ≡ item f name) ⊎ (new ≡ some [])
  pub write_open_keeps :
      (name other : List ℕ) (f : b.F)
      → name ≢ other
      → item (b.fs_open name true f).1 other ≡ item f other
  pub read_keeps :
      (h : b.H) (len : ℕ) (f : b.F) (other : List ℕ)
      → item (b.fs_read h len f).1 other ≡ item f other
  -- A read gives the file, or as much of it as the buffer holds.
  pub read_gives :
      (h : b.H) (len : ℕ) (f : b.F) (name : List ℕ)
      → Opened f h name
      → ((b.fs_read h len f).0.0 == 0) ≡ true
      → first_bytes len (item f name) ≡ some (b.fs_read h len f).0.1
  pub write_keeps :
      (h : b.H) (bytes : List ℕ) (f : b.F) (name other : List ℕ)
      → Opened f h name
      → name ≢ other
      → item (b.fs_write h bytes f).1 other ≡ item f other
  pub close_keeps :
      (h : b.H) (f : b.F) (other : List ℕ) → item (b.fs_close h f).1 other ≡ item f other
  pub remove_keeps :
      (name other : List ℕ) (f : b.F)
      → name ≢ other
      → item (b.fs_remove name f).1 other ≡ item f other
  pub info_keeps :
      (callback : ℕ → b.F → (IotError × List ℕ) × b.F) (n : ℕ) (f : b.F) (other : List ℕ)
      → b.device_info ≡ some callback
      → item (callback n f).1 other ≡ item f other
  pub info_gives :
      (callback : ℕ → b.F → (IotError × List ℕ) × b.F) (n : ℕ) (f : b.F)
      → b.device_info ≡ some callback
      → ((callback n f).0.0 == 0) ≡ true
      → info n ≡ some (callback n f).0.1
  -- The names of the items differ, and fit the buffer.
  pub paths_differ :
      (m n : ℕ) (name : List ℕ) → b.data_path m ≡ some name → b.data_path n ≡ some name → m ≡ n
  pub paths_fit :
      (n : ℕ) (name : List ℕ)
      → b.data_path n ≡ some name
      → length name + length (prefix b) < filename_max

-- Of a board whose writes replace a file.
pub record Replaces (b : Bsp) (item : b.F → List ℕ → Option (List ℕ))
    (Opened : b.F → b.H → List ℕ → Type 0) : Type 0 where
  -- A write that succeeds leaves its bytes and nothing behind them.
  pub write_stores :
      (h : b.H) (bytes : List ℕ) (f : b.F) (name : List ℕ)
      → Opened f h name
      → ((b.fs_write h bytes f).0 == 0) ≡ true
      → item (b.fs_write h bytes f).1 name ≡ some bytes
  pub write_fails :
      (h : b.H) (bytes : List ℕ) (f : b.F) (name : List ℕ)
      → Opened f h name
      → ((b.fs_write h bytes f).0 == 0) ≡ false
      → Torn bytes (item f name) (item (b.fs_write h bytes f).1 name)
