-- ===== src/Security/Items.antt =====
-- What becomes of the items, which are files or come from the device information, under the calls of
-- src/security/backend/software/iot_security_be_bsp.c.
use st_device_sdk_c.Prelude.{
  ℕ, ◌+◌, ◌-◌, ◌≡◌, ◌≢◌, ◌⊎◌, inl, inr, refl, sym, ◌∙◌, Bool-cases, true, false, ltb, ◌==◌, List,
  ◌++◌, Option, none, some, arith, take, drop, ap, length, take_all, drop_all, drop-append,
}
use st_device_sdk_c.Errors.{IotError, security_storage_invalid_id}
use st_device_sdk_c.Nv.{Result, done, failed, fault}
use st_device_sdk_c.Nv.Keeps.{storage_max}
use st_device_sdk_c.Security.{Bsp, nvd_factory, filename_max}
use st_device_sdk_c.Security.Rules.{IsBsp, first_bytes}
use st_device_sdk_c.Security.Backend.{
  Target, target_unknown, target_nv, target_di, storage_id2target, storage_id2filename, prefix,
  code_of, bytes_of, load_from_nv, load_from_device_info, fs_load,
}
use st_device_sdk_c.Security.Files.{load_file_keeps, load_file_gives}

append_cancel : (xs ys zs : List ℕ) → xs ++ ys ≡ xs ++ zs → ys ≡ zs
append_cancel xs ys zs e = sym (dropped ys) ∙ ap (drop (length xs)) e ∙ dropped zs
  where
    dropped : (ws : List ℕ) → drop (length xs) (xs ++ ws) ≡ ws
    dropped ws =
        drop-append (length xs) xs ws (omega arith)
        ∙ ap (λ (vs : List ℕ). vs ++ ws) (drop_all (length xs) xs (omega arith))

module _ (b : Bsp) (item : b.F → List ℕ → Option (List ℕ)) (Opened : b.F → b.H → List ℕ → Type 0)
    (info : ℕ → Option (List ℕ)) (laws : IsBsp b item Opened info) where
  open b use {F, data_path}

  -- What is stored in the file of a name, as far as a read goes.
  abbrev pub in_file : F → Result (List ℕ) → Option (List ℕ)
  in_file f (done name) = first_bytes storage_max (item f name)
  in_file f (failed err) = none
  in_file f fault = none

  abbrev pub in_target : F → ℕ → Target → Option (List ℕ)
  in_target f n target_nv = in_file f (storage_id2filename b n filename_max)
  in_target f n target_di = info n
  in_target f n target_unknown = none

  -- What is stored under a number.
  abbrev pub stored : F → ℕ → Option (List ℕ)
  stored f n = in_target f n (storage_id2target n)

  -- The two ways that a number's name comes out.
  pub filename-cases :
      (n : ℕ)
      → ((file : List ℕ) × (data_path n ≡ some file)
          × (storage_id2filename b n filename_max ≡ done (prefix b ++ file)))
        ⊎ ((err : IotError) × (storage_id2filename b n filename_max ≡ failed err)
            × ((err == 0) ≡ false))
  filename-cases n = go (data_path n) refl
    where
      go :
          (path : Option (List ℕ))
          → data_path n ≡ path
          → ((file : List ℕ) × (data_path n ≡ some file)
              × (storage_id2filename b n filename_max ≡ done (prefix b ++ file)))
            ⊎ ((err : IotError) × (storage_id2filename b n filename_max ≡ failed err)
                × ((err == 0) ≡ false))
      go none e = inr (security_storage_invalid_id, rw (e, storage_id2filename) refl, refl)
      go (some file) e =
          let room = laws.paths_fit n file e in
          let fits : ltb filename_max (length file + length (prefix b)) ≡ false =
            ground (arith, room) in
          let whole : take (filename_max - length (prefix b) - 1) file ≡ file =
            take_all (filename_max - length (prefix b) - 1) file (omega (arith, room)) in
          inl (file, e, rw (e, storage_id2filename, fits, whole) refl)

  names_differ :
      (n m : ℕ) (file other : List ℕ)
      → (n == m) ≡ false
      → data_path n ≡ some file
      → data_path m ≡ some other
      → (prefix b ++ file) ≢ (prefix b ++ other)
  names_differ n m file other differ here there e =
      let same : n ≡ m =
        laws.paths_differ n m file here
          (there ∙ ap some (sym (append_cancel (prefix b) file other e))) in
      ground (arith, differ, same)

  pub stored-same :
      (f f' : F) (m : ℕ) → ((name : List ℕ) → item f' name ≡ item f name) → stored f' m ≡ stored f m
  stored-same f f' m same = go (storage_id2target m)
    where
      at_name : (r : Result (List ℕ)) → in_file f' r ≡ in_file f r
      at_name (done name) = ap (first_bytes storage_max) (same name)
      at_name (failed err) = refl
      at_name fault = refl

      go : (t : Target) → in_target f' m t ≡ in_target f m t
      go target_nv = at_name (storage_id2filename b m filename_max)
      go target_di = refl
      go target_unknown = refl

  -- A change of one file is not seen under another number.
  pub stored-other :
      (f f' : F) (n m : ℕ) (file : List ℕ)
      → (n == m) ≡ false
      → data_path n ≡ some file
      → ((other : List ℕ) → (prefix b ++ file) ≢ other → item f' other ≡ item f other)
      → stored f' m ≡ stored f m
  stored-other f f' n m file differ here same = go (storage_id2target m)
    where
      go : (t : Target) → in_target f' m t ≡ in_target f m t
      go target_nv = elim (filename-cases m) [
        | inr (err, failed_, code) ↦ rw failed_ refl
        | inl (other, there, named) ↦ rw named (
            ap (first_bytes storage_max)
              (same (prefix b ++ other) (names_differ n m file other differ here there)))
      ]
      go target_di = refl
      go target_unknown = refl

  load_from_nv_keeps :
      (n : ℕ) (f : F) (name : List ℕ) → item (load_from_nv b n f).1 name ≡ item f name
  unfolding load_from_nv
  load_from_nv_keeps n f name = elim (filename-cases n) [
    | inr (err, failed_, code) ↦ rw (failed_, load_from_nv) refl
    | inl (file, here, named) ↦ elim (Bool-cases (ltb n nvd_factory)) [
      | inl inside ↦
          rw (named, load_from_nv, inside)
            (load_file_keeps b item Opened info laws (prefix b ++ file) f name)
      | inr outside ↦ rw (named, load_from_nv, outside) refl
    ]
  ]

  info_file_keeps :
      (n : ℕ) (f : F) (name : List ℕ) → item (load_from_device_info b n f).1 name ≡ item f name
  info_file_keeps n f name = go b.device_info refl
    where
      go :
          (info_cb : Option (ℕ → F → (IotError × List ℕ) × F))
          → b.device_info ≡ info_cb
          → item (load_from_device_info b n f).1 name ≡ item f name
      go none e = rw e refl
      go (some callback) e = rw e (laws.info_keeps callback n f name e)

  pub fs_load_keeps : (n : ℕ) (f : F) (name : List ℕ) → item (fs_load b n f).1 name ≡ item f name
  unfolding fs_load
  fs_load_keeps n f name = go (storage_id2target n) refl
    where
      go : (t : Target) → storage_id2target n ≡ t → item (fs_load b n f).1 name ≡ item f name
      go target_nv e = rw (e, fs_load) (load_from_nv_keeps n f name)
      go target_di e = rw (e, fs_load) (info_file_keeps n f name)
      go target_unknown e = rw (e, fs_load) refl

  load_from_nv_gives :
      (n : ℕ) (f : F)
      → (code_of (load_from_nv b n f).0 == 0) ≡ true
      → in_file f (storage_id2filename b n filename_max) ≡ some (bytes_of (load_from_nv b n f).0)
  unfolding load_from_nv
  load_from_nv_gives n f = elim (filename-cases n) [
    | inr (err, failed_, wrong) ↦ rw (failed_, load_from_nv) (λ code. ground (arith, code, wrong))
    | inl (file, here, named) ↦ elim (Bool-cases (ltb n nvd_factory)) [
      | inl inside ↦
          rw (named, load_from_nv, inside)
            (load_file_gives b item Opened info laws (prefix b ++ file) f)
      | inr outside ↦ rw (named, load_from_nv, outside) (λ code. ground (arith, code))
    ]
  ]

  info_file_gives :
      (n : ℕ) (f : F)
      → (code_of (load_from_device_info b n f).0 == 0) ≡ true
      → info n ≡ some (bytes_of (load_from_device_info b n f).0)
  info_file_gives n f = go b.device_info refl
    where
      go :
          (info_cb : Option (ℕ → F → (IotError × List ℕ) × F))
          → b.device_info ≡ info_cb
          → (code_of (load_from_device_info b n f).0 == 0) ≡ true
          → info n ≡ some (bytes_of (load_from_device_info b n f).0)
      go none e = rw e (λ code. ground (arith, code))
      go (some callback) e = elim (Bool-cases ((callback n f).0.0 == 0)) [
        | inl ok ↦ rw (e, ok) (λ code. laws.info_gives callback n f e ok)
        | inr bad ↦ rw (e, bad) (λ code. ground (arith, bad, code))
      ]

  -- A number that is loaded gives what is stored under it.
  pub fs_load_gives :
      (n : ℕ) (f : F)
      → (code_of (fs_load b n f).0 == 0) ≡ true
      → stored f n ≡ some (bytes_of (fs_load b n f).0)
  unfolding fs_load
  fs_load_gives n f = go (storage_id2target n) refl
    where
      go :
          (t : Target)
          → storage_id2target n ≡ t
          → (code_of (fs_load b n f).0 == 0) ≡ true
          → stored f n ≡ some (bytes_of (fs_load b n f).0)
      go target_nv e = rw (e, fs_load) (load_from_nv_gives n f)
      go target_di e = rw (e, fs_load) (info_file_gives n f)
      go target_unknown e = rw (e, fs_load) (λ code. ground (arith, code))
