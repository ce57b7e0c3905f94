-- ===== src/Security/PosixOverwrite.antt =====
-- An item that is stored over a longer one on a POSIX board
-- (src/port/bsp/posix/iot_bsp_fs_posix.c under src/security).
use st_device_sdk_c.Prelude.{
  ℕ, ◌≡◌, ◌⊎◌, inl, inr, sym, ap, ◌∙◌, Bool-cases, true, false, ◌==◌, List, ◌∷◌, ◌++◌, length, take,
  drop, Option, some, arith,
}
use st_device_sdk_c.Errors.{IotError}
use st_device_sdk_c.Nv.{failed}
use st_device_sdk_c.Nv.Keeps.{storage_max}
use st_device_sdk_c.Security.{Bsp}
use st_device_sdk_c.Security.Rules.{IsBsp, first_bytes}
use st_device_sdk_c.Security.Backend.{
  target_nv, storage_id2target, code_of, bytes_of, store_open, store_file, store_to_nv, fs_store,
}
use st_device_sdk_c.Security.Storage.{
  System, SecurityContext, on_board, storage_read, storage_write,
}
use st_device_sdk_c.Security.Items.{stored, filename-cases}
use st_device_sdk_c.Security.Refines.{storage_write-Called, contents, read_gives}
use st_device_sdk_c.Security.Posix.{
  Posix, FsHandle, posix_board, nv_get_data_path, fs_open, fs_write,
}
use st_device_sdk_c.Security.PosixRules.{IsPosix, IsInfo}
use st_device_sdk_c.Security.PosixFiles.{
  Opened, fs_write_over, open_there, open_Opened, posix-IsBsp,
}

module _ (p : Posix) (file : p.D → List ℕ → Option (List ℕ)) (At : p.D → ℕ → List ℕ → Type 0)
    (laws : IsPosix p file At) (device_info : Option (ℕ → p.D → (IotError × List ℕ) × p.D))
    (info : ℕ → Option (List ℕ)) (told : IsInfo p file device_info info) where
  open p use {D}

  abbrev board : Bsp
  board = posix_board p nv_get_data_path device_info

  rules : IsBsp board file (Opened p file At laws) info
  rules = posix-IsBsp p file At laws device_info info told

  -- The bytes, and behind them what the old item had there.
  abbrev overlaid : List ℕ → List ℕ → List ℕ
  overlaid bytes old = bytes ++ drop (length bytes) old

  store_open_over :
      (handle : FsHandle) (bytes : List ℕ) (d : D) (name old : List ℕ)
      → Opened p file At laws d handle name
      → file d name ≡ some old
      → (code_of (store_open board handle bytes d).0 == 0) ≡ true
      → file (store_open board handle bytes d).1 name ≡ some (overlaid bytes old)
  unfolding store_open
  store_open_over handle bytes d name old at there =
      let d' : D = (fs_write p handle bytes d).1 in
      elim (Bool-cases ((fs_write p handle bytes d).0 == 0)) [
        | inr bad ↦ rw bad (λ code. ground (arith, code))
        | inl ok ↦ rw ok (λ code.
            rules.close_keeps handle d' name
            ∙ fs_write_over p file At laws handle bytes d name old at there ok)
      ]

  store_file_over :
      (name bytes : List ℕ) (d : D) (old : List ℕ)
      → file d name ≡ some old
      → (code_of (store_file board name bytes d).0 == 0) ≡ true
      → file (store_file board name bytes d).1 name ≡ some (overlaid bytes old)
  unfolding store_file
  store_file_over name bytes d old there = elim (Bool-cases ((fs_open p name true d).0.0 == 0)) [
    | inr bad ↦ rw bad (λ code. ground (arith, code))
    | inl ok ↦ rw ok (
        store_open_over (fs_open p name true d).0.1 bytes (fs_open p name true d).1 name old
          (open_Opened p file At laws name true d ok) (open_there p file At laws name d old there))
  ]

  -- The full name of an item.
  abbrev path_of : List ℕ → List ℕ
  path_of path = 46 ∷ 47 ∷ path

  fs_store_over :
      (n : ℕ) (path bytes : List ℕ) (d : D) (old : List ℕ)
      → storage_id2target n ≡ target_nv
      → nv_get_data_path n ≡ some path
      → file d (path_of path) ≡ some old
      → (code_of (fs_store board n bytes d).0 == 0) ≡ true
      → stored board file (Opened p file At laws) info rules (fs_store board n bytes d).1 n
        ≡ some (take storage_max (overlaid bytes old))
  unfolding fs_store store_to_nv
  fs_store_over n path bytes d old target named there = elim (Bool-cases (length bytes == 0)) [
    | inl empty ↦ rw (fs_store, empty) (λ code. ground (arith, code))
    | inr filled ↦ elim (filename-cases board file (Opened p file At laws) info rules n) [
      | inr (err, failed_, wrong) ↦
          rw (filled, target, fs_store, store_to_nv, failed_) (λ code. ground (arith, code, wrong))
      | inl (path', here, is) ↦
          let same : path' ≡ path = ground (arith, here, named) in
          rw (filled, target, fs_store, store_to_nv, is)
            (λ code. ap (first_bytes storage_max) (
              store_file_over (path_of path') bytes d old
                (ap (λ (q : List ℕ). file d (path_of q)) same ∙ there) code))
    ]
  ]

  some_injective : {x y : List ℕ} → some x ≡ some y → x ≡ y
  some_injective e = ground (arith, e)

  -- On a POSIX board, where open makes a missing file but does not empty one and write puts its bytes
  -- over the first ones: if iot_security_storage_write returns IOT_ERROR_NONE for an item that is kept
  -- in a file and had the bytes `old`, and iot_security_storage_read then returns IOT_ERROR_NONE, it
  -- reads the new bytes and behind them those that `old` had from there on, of all these the first
  -- 2048. So the item is the new one only if the old was not longer.
  pub posix_overwrites :
      (n : ℕ) (path bytes old : List ℕ) (s : System board)
      → storage_id2target n ≡ target_nv
      → nv_get_data_path n ≡ some path
      → file s.board (path_of path) ≡ some old
      → (code_of (storage_write board n bytes s).0 == 0) ≡ true
      → (code_of (storage_read board n (storage_write board n bytes s).1).0 == 0) ≡ true
      → bytes_of (storage_read board n (storage_write board n bytes s).1).0
        ≡ take storage_max (bytes ++ drop (length bytes) old)
  posix_overwrites n path bytes old s target named there wrote read =
      let s' : System board = (storage_write board n bytes s).1 in
      some_injective (
        sym (read_gives board file (Opened p file At laws) info rules n s' read)
        ∙ stored_over (storage_write-Called board n bytes s) wrote)
    where
      stored_over :
          ((err : IotError) × (context : Option SecurityContext) × (storage_write board n bytes s
                ≡ (failed err, record s { context = context }))
              × ((err == 0) ≡ false))
            ⊎ ((context : Option SecurityContext) × (storage_write board n bytes s
                  ≡ on_board board (fs_store board n bytes) (record s { context = context })))
          → (code_of (storage_write board n bytes s).0 == 0) ≡ true
          → contents board file
              (Opened p file At laws)
              info
              rules
              (storage_write board n bytes s).1
              n
            ≡ some (take storage_max (overlaid bytes old))
      stored_over (inl (err, context, e, wrong)) = rw e (λ code. ground (arith, code, wrong))
      stored_over (inr (context, e)) =
          rw e (fs_store_over n path bytes s.board old target named there)
