-- ===== src/Security/Stores.antt =====
-- What becomes of the items when one is stored or removed
-- (src/security/backend/software/iot_security_be_bsp.c).
use st_device_sdk_c.Prelude.{
  ℕ, ◌≤◌, ◌≡◌, ◌⊎◌, inl, inr, refl, ◌∙◌, Bool-cases, true, false, ltb, ◌==◌, List, ◌++◌, Option,
  some, arith, take, ap, length, take_all, length-take, ltb→lt, take-take,
}
use st_device_sdk_c.Errors.{IotError}
use st_device_sdk_c.Nv.Keeps.{storage_max, Torn}
use st_device_sdk_c.Security.{Bsp, filename_max}
use st_device_sdk_c.Security.Rules.{IsBsp, Replaces, first_bytes}
use st_device_sdk_c.Security.Backend.{
  Target, target_unknown, target_nv, target_di, storage_id2target, storage_id2filename, prefix,
  code_of, store_file, store_to_nv, fs_store, remove_from_nv, remove_item,
}
use st_device_sdk_c.Security.Files.{store_file_keeps, store_file-Stored}
use st_device_sdk_c.Security.Items.{in_file, stored, filename-cases, stored-other}

-- What a read finds of a part is a part.
take-part : (m k : ℕ) (xs : List ℕ) → (j : ℕ) × (take m (take k xs) ≡ take j xs)
take-part m k xs = elim (Bool-cases (ltb k m)) [
  | inl less ↦
      let small : length (take k xs) ≤ m = omega (arith, length-take k xs, ltb→lt k m less) in
      (k, take_all m (take k xs) small)
  | inr more ↦ (m, take-take m k xs (ground (arith, more)))
]

Torn-first_bytes :
    (m : ℕ) (bytes : List ℕ) {old new : Option (List ℕ)}
    → Torn bytes old new
    → Torn bytes (first_bytes m old) (first_bytes m new)
Torn-first_bytes m bytes (inl same) = inl (ap (first_bytes m) same)
Torn-first_bytes m bytes (inr (inl lost)) = inr (inl (ap (first_bytes m) lost))
Torn-first_bytes m bytes (inr (inr (k, part))) =
    let (j, cut) = take-part m k bytes in inr (inr (j, ap (first_bytes m) part ∙ ap some cut))

-- The end of a store, as a read finds it: the bytes are there as far as a read goes, or a part of them
-- may be.
abbrev pub Kept : List ℕ → IotError → Option (List ℕ) → Option (List ℕ) → Type 0
Kept bytes code old new =
    (((code == 0) ≡ true) × (new ≡ some (take storage_max bytes)))
    ⊎ (((code == 0) ≡ false) × Torn bytes old new)

module _ (b : Bsp) (item : b.F → List ℕ → Option (List ℕ)) (Opened : b.F → b.H → List ℕ → Type 0)
    (info : ℕ → Option (List ℕ)) (laws : IsBsp b item Opened info) where
  open b use {F, data_path}

  -- The items of a board.
  abbrev items : F → ℕ → Option (List ℕ)
  items = stored b item Opened info laws

  store_to_nv_keeps :
      (n m : ℕ) (bytes : List ℕ) (f : F)
      → (n == m) ≡ false
      → items (store_to_nv b n bytes f).1 m ≡ items f m
  unfolding store_to_nv
  store_to_nv_keeps n m bytes f differ = elim (filename-cases b item Opened info laws n) [
    | inr (err, failed_, wrong) ↦ rw (failed_, store_to_nv) refl
    | inl (file, here, named) ↦
        let name : List ℕ = prefix b ++ file in
        rw (named, store_to_nv)
          (stored-other b item Opened info laws f (store_file b name bytes f).1 n m file differ here
            (store_file_keeps b item Opened info laws name bytes f))
  ]

  -- A store leaves the other numbers.
  pub fs_store_keeps :
      (n m : ℕ) (bytes : List ℕ) (f : F)
      → (n == m) ≡ false
      → items (fs_store b n bytes f).1 m ≡ items f m
  unfolding fs_store
  fs_store_keeps n m bytes f differ = elim (Bool-cases (length bytes == 0)) [
    | inl empty ↦ rw (fs_store, empty) refl
    | inr filled ↦ go filled (storage_id2target n) refl
  ]
    where
      go :
          (length bytes == 0) ≡ false
          → (t : Target) → storage_id2target n ≡ t
          → items (fs_store b n bytes f).1 m ≡ items f m
      go filled target_nv e = rw (filled, e, fs_store) (store_to_nv_keeps n m bytes f differ)
      go filled target_di e = rw (filled, e, fs_store) refl
      go filled target_unknown e = rw (filled, e, fs_store) refl

  remove_from_nv_keeps :
      (n m : ℕ) (f : F) → (n == m) ≡ false → items (remove_from_nv b n f).1 m ≡ items f m
  unfolding remove_from_nv
  remove_from_nv_keeps n m f differ = elim (filename-cases b item Opened info laws n) [
    | inr (err, failed_, wrong) ↦ rw (failed_, remove_from_nv) refl
    | inl (file, here, named) ↦
        let name : List ℕ = prefix b ++ file in
        rw (named, remove_from_nv)
          (stored-other b item Opened info laws f (b.fs_remove name f).1 n m file differ here
            (λ other d. laws.remove_keeps name other f d))
  ]

  pub remove_item_keeps :
      (n m : ℕ) (f : F) → (n == m) ≡ false → items (remove_item b n f).1 m ≡ items f m
  unfolding remove_item
  remove_item_keeps n m f differ = go (storage_id2target n) refl
    where
      go : (t : Target) → storage_id2target n ≡ t → items (remove_item b n f).1 m ≡ items f m
      go target_nv e = rw (e, remove_item) (remove_from_nv_keeps n m f differ)
      go target_di e = rw (e, remove_item) refl
      go target_unknown e = rw (e, remove_item) refl

  abbrev named_item : F → ℕ → Option (List ℕ)
  named_item f n = in_file b item Opened info laws f (storage_id2filename b n filename_max)

  store_to_nv-Kept :
      (whole : Replaces b item Opened) (n : ℕ) (bytes : List ℕ) (f : F)
      → let (r, f') = store_to_nv b n bytes f in
        Kept bytes (code_of r) (named_item f n) (named_item f' n)
  unfolding store_to_nv
  store_to_nv-Kept whole n bytes f = elim (filename-cases b item Opened info laws n) [
    | inr (err, failed_, wrong) ↦ rw (failed_, store_to_nv) (inr (wrong, inl refl))
    | inl (file, here, named) ↦
        let name : List ℕ = prefix b ++ file in
        rw (named, store_to_nv)
          (elim (store_file-Stored b item Opened info laws whole name bytes f) [
            | inl (ok, new) ↦ inl (ok, ap (first_bytes storage_max) new)
            | inr (bad, torn) ↦ inr (bad, Torn-first_bytes storage_max bytes torn)
          ])
  ]

  -- A store under a number ends well with the bytes there, or fails and may leave a part of them.
  pub fs_store-Kept :
      (whole : Replaces b item Opened) (n : ℕ) (bytes : List ℕ) (f : F)
      → let (r, f') = fs_store b n bytes f in Kept bytes (code_of r) (items f n) (items f' n)
  unfolding fs_store
  fs_store-Kept whole n bytes f = elim (Bool-cases (length bytes == 0)) [
    | inl empty ↦ rw (fs_store, empty) (inr (refl, inl refl))
    | inr filled ↦ go filled (storage_id2target n) refl
  ]
    where
      go :
          (length bytes == 0) ≡ false
          → (t : Target) → storage_id2target n ≡ t
          → let (r, f') = fs_store b n bytes f in Kept bytes (code_of r) (items f n) (items f' n)
      go filled target_nv e = rw (filled, e, fs_store) (store_to_nv-Kept whole n bytes f)
      go filled target_di e = rw (filled, e, fs_store) (inr (refl, inl refl))
      go filled target_unknown e = rw (filled, e, fs_store) (inr (refl, inl refl))
