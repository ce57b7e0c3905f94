-- ===== src/Security/PosixRules.antt =====
-- A POSIX board obeys the rules of the secure storage, but for what a write replaces
-- (src/port/bsp/posix/iot_bsp_fs_posix.c, iot_bsp_nv_data_posix.c).
use st_device_sdk_c.Prelude.{
  ℕ, ◌≡◌, ◌≢◌, ◌⊎◌, Bool, true, false, ◌==◌, List, [], ◌++◌, take, drop, Option, none, some,
}
use st_device_sdk_c.Errors.{IotError}
use st_device_sdk_c.Security.Rules.{first_bytes}
use st_device_sdk_c.Security.Posix.{Posix}

-- The system's calls as its manual has them. `At d fd name`: `fd` is open on the file, at its start.
pub record IsPosix (p : Posix) (file : p.D → List ℕ → Option (List ℕ))
    (At : p.D → ℕ → List ℕ → Type 0) : Type 0 where
  pub malloc_keeps : (d : p.D) (name : List ℕ) → file (p.malloc d).1 name ≡ file d name
  pub malloc_At : (d : p.D) (fd : ℕ) (name : List ℕ) → At d fd name → At (p.malloc d).1 fd name
  pub open_At :
      (name : List ℕ) (mode : Bool) (d : p.D) (fd : ℕ)
      → (p.open_ name mode d).0 ≡ some fd
      → At (p.open_ name mode d).1 fd name
  pub open_read_keeps :
      (name other : List ℕ) (d : p.D) → file (p.open_ name false d).1 other ≡ file d other
  pub open_write_keeps :
      (name other : List ℕ) (d : p.D)
      → name ≢ other
      → file (p.open_ name true d).1 other ≡ file d other
  -- O_CREAT makes a file that is not there. Nothing empties one that is.
  pub open_makes :
      (name : List ℕ) (d : p.D)
      → let new = file (p.open_ name true d).1 name in
        (new ≡ file d name) ⊎ ((file d name ≡ none) × (new ≡ some []))
  pub read_keeps :
      (fd len : ℕ) (d : p.D) (other : List ℕ) → file (p.read fd len d).1 other ≡ file d other
  pub read_gives :
      (fd len : ℕ) (d : p.D) (name bytes : List ℕ)
      → At d fd name
      → (p.read fd len d).0 ≡ some bytes
      → first_bytes len (file d name) ≡ some bytes
  pub write_keeps :
      (fd : ℕ) (bytes : List ℕ) (d : p.D) (name other : List ℕ)
      → At d fd name
      → name ≢ other
      → file (p.write fd bytes d).1 other ≡ file d other
  -- What is written takes the place of as many bytes; those behind it stay.
  pub write_over :
      (fd : ℕ) (bytes : List ℕ) (d : p.D) (name old : List ℕ) (size : ℕ)
      → At d fd name
      → file d name ≡ some old
      → (p.write fd bytes d).0 ≡ some size
      → file (p.write fd bytes d).1 name ≡ some (take size bytes ++ drop size old)
  pub close_keeps : (fd : ℕ) (d : p.D) (other : List ℕ) → file (p.close fd d).1 other ≡ file d other
  pub remove_keeps :
      (name other : List ℕ) (d : p.D) → name ≢ other → file (p.remove name d).1 other ≡ file d other

-- The device information as its callback gives it.
pub record IsInfo (p : Posix) (file : p.D → List ℕ → Option (List ℕ))
    (device_info : Option (ℕ → p.D → (IotError × List ℕ) × p.D)) (info : ℕ → Option (List ℕ))
    : Type 0 where
  pub info_keeps :
      (callback : ℕ → p.D → (IotError × List ℕ) × p.D) (n : ℕ) (d : p.D) (other : List ℕ)
      → device_info ≡ some callback
      → file (callback n d).1 other ≡ file d other
  pub info_gives :
      (callback : ℕ → p.D → (IotError × List ℕ) × p.D) (n : ℕ) (d : p.D)
      → device_info ≡ some callback
      → ((callback n d).0.0 == 0) ≡ true
      → info n ≡ some (callback n d).0.1
