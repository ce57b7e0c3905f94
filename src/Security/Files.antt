-- ===== src/Security/Files.antt =====
-- What becomes of the files under the calls of
-- src/security/backend/software/iot_security_be_bsp.c.
use st_device_sdk_c.Prelude.{
  ℕ, ◌≡◌, ◌≢◌, ◌⊎◌, inl, inr, refl, sym, ◌∙◌, Bool-cases, true, false, ◌==◌, List, [], Option, some,
  arith, ap, length, take_all,
}
use st_device_sdk_c.Errors.{IotError}
use st_device_sdk_c.Nv.Keeps.{storage_max, Torn, Torn-moved}
use st_device_sdk_c.Security.{Bsp}
use st_device_sdk_c.Security.Rules.{IsBsp, Replaces, first_bytes}
use st_device_sdk_c.Security.Backend.{
  code_of, bytes_of, load_sized, load_buffer, load_open, load_file, store_open, store_file,
}

-- The end of a store: the code is 0 and the bytes are the file, or a part of them may be.
abbrev pub Stored : List ℕ → IotError → Option (List ℕ) → Option (List ℕ) → Type 0
Stored bytes code old new =
    (((code == 0) ≡ true) × (new ≡ some bytes)) ⊎ (((code == 0) ≡ false) × Torn bytes old new)

module _ (b : Bsp) (item : b.F → List ℕ → Option (List ℕ)) (Opened : b.F → b.H → List ℕ → Type 0)
    (info : ℕ → Option (List ℕ)) (laws : IsBsp b item Opened info) where
  open b use {F, H, memory, fs_open, fs_read, fs_write, fs_close}

  load_sized_keeps :
      (h : H) (bytes : List ℕ) (f : F) (other : List ℕ)
      → item (load_sized b h bytes f).1 other ≡ item f other
  unfolding load_sized
  load_sized_keeps h bytes f other =
      laws.close_keeps h (memory f).1 other ∙ laws.memory_keeps f other

  load_buffer_keeps :
      (h : H) (f : F) (other : List ℕ) → item (load_buffer b h f).1 other ≡ item f other
  unfolding load_buffer
  load_buffer_keeps h f other =
      let f1 : F = (fs_read h storage_max f).1 in
      elim (Bool-cases ((fs_read h storage_max f).0.0 == 0)) [
        | inl ok ↦ rw ok (
            load_sized_keeps h (fs_read h storage_max f).0.1 f1 other
            ∙ laws.read_keeps h storage_max f other)
        | inr bad ↦ rw bad (laws.close_keeps h f1 other ∙ laws.read_keeps h storage_max f other)
      ]

  load_open_keeps : (h : H) (f : F) (other : List ℕ) → item (load_open b h f).1 other ≡ item f other
  unfolding load_open
  load_open_keeps h f other = elim (Bool-cases (memory f).0) [
    | inl room ↦ rw room (load_buffer_keeps h (memory f).1 other ∙ laws.memory_keeps f other)
    | inr full ↦ rw full (laws.memory_keeps f other)
  ]

  pub load_file_keeps :
      (name : List ℕ) (f : F) (other : List ℕ) → item (load_file b name f).1 other ≡ item f other
  unfolding load_file
  load_file_keeps name f other = elim (Bool-cases ((fs_open name false f).0.0 == 0)) [
    | inl ok ↦ rw ok (
        load_open_keeps (fs_open name false f).0.1 (fs_open name false f).1 other
        ∙ laws.read_open_keeps name other f)
    | inr bad ↦ rw bad (laws.read_open_keeps name other f)
  ]

  load_sized_gives :
      (h : H) (bytes : List ℕ) (f : F)
      → (code_of (load_sized b h bytes f).0 == 0) ≡ true
      → bytes ≡ bytes_of (load_sized b h bytes f).0
  unfolding load_sized
  load_sized_gives h bytes f = elim (Bool-cases (memory f).0) [
    | inr full ↦ rw full (λ code. ground (arith, code))
    | inl room ↦ elim (Bool-cases ((fs_close h (memory f).1).0 == 0)) [
      | inl closed ↦ rw (room, closed) (λ code. refl)
      | inr open_ ↦ rw (room, open_) (λ code. ground (arith, code))
    ]
  ]

  load_buffer_gives :
      (h : H) (name : List ℕ) (f : F)
      → Opened f h name
      → (code_of (load_buffer b h f).0 == 0) ≡ true
      → first_bytes storage_max (item f name) ≡ some (bytes_of (load_buffer b h f).0)
  unfolding load_buffer
  load_buffer_gives h name f opened =
      let bytes : List ℕ = (fs_read h storage_max f).0.1 in
      elim (Bool-cases ((fs_read h storage_max f).0.0 == 0)) [
        | inl ok ↦ rw ok (λ code.
            laws.read_gives h storage_max f name opened ok
            ∙ ap some (load_sized_gives h bytes (fs_read h storage_max f).1 code))
        | inr bad ↦ elim (Bool-cases ((fs_read h storage_max f).0.0 == 21)) [
          | inl missing ↦ rw (bad, missing) (λ code. ground (arith, code))
          | inr other ↦ rw (bad, other) (λ code. ground (arith, code))
        ]
      ]

  load_open_gives :
      (h : H) (name : List ℕ) (f : F)
      → Opened f h name
      → (code_of (load_open b h f).0 == 0) ≡ true
      → first_bytes storage_max (item f name) ≡ some (bytes_of (load_open b h f).0)
  unfolding load_open
  load_open_gives h name f opened = elim (Bool-cases (memory f).0) [
    | inr full ↦ rw full (λ code. ground (arith, code))
    | inl room ↦ rw room (λ code.
        ap (first_bytes storage_max) (sym (laws.memory_keeps f name))
        ∙ load_buffer_gives h name (memory f).1 (laws.memory_Opened f h name opened) code)
  ]

  -- A file that is loaded is what was read of it.
  pub load_file_gives :
      (name : List ℕ) (f : F)
      → (code_of (load_file b name f).0 == 0) ≡ true
      → first_bytes storage_max (item f name) ≡ some (bytes_of (load_file b name f).0)
  unfolding load_file
  load_file_gives name f = elim (Bool-cases ((fs_open name false f).0.0 == 0)) [
    | inl ok ↦ rw ok (λ code.
        ap (first_bytes storage_max) (sym (laws.read_open_keeps name name f))
        ∙ load_open_gives (fs_open name false f).0.1 name (fs_open name false f).1
            (laws.open_Opened name false f ok) code)
    | inr bad ↦ elim (Bool-cases ((fs_open name false f).0.0 == 21)) [
      | inl missing ↦ rw (bad, missing) (λ code. ground (arith, code))
      | inr other ↦ rw (bad, other) (λ code. ground (arith, code))
    ]
  ]

  store_open_keeps :
      (h : H) (bytes : List ℕ) (f : F) (name other : List ℕ)
      → Opened f h name
      → name ≢ other
      → item (store_open b h bytes f).1 other ≡ item f other
  unfolding store_open
  store_open_keeps h bytes f name other opened differ =
      laws.close_keeps h (fs_write h bytes f).1 other
      ∙ laws.write_keeps h bytes f name other opened differ

  pub store_file_keeps :
      (name bytes : List ℕ) (f : F) (other : List ℕ)
      → name ≢ other
      → item (store_file b name bytes f).1 other ≡ item f other
  unfolding store_file
  store_file_keeps name bytes f other differ = elim (Bool-cases ((fs_open name true f).0.0 == 0)) [
    | inl ok ↦ rw ok (
        store_open_keeps (fs_open name true f).0.1 bytes (fs_open name true f).1 name other
          (laws.open_Opened name true f ok) differ
        ∙ laws.write_open_keeps name other f differ)
    | inr bad ↦ rw bad (laws.write_open_keeps name other f differ)
  ]

  store_open-Stored :
      (whole : Replaces b item Opened) (h : H) (bytes : List ℕ) (f : F) (name : List ℕ)
      → Opened f h name
      → let (r, f') = store_open b h bytes f in
        Stored bytes (code_of r) (item f name) (item f' name)
  unfolding store_open
  store_open-Stored whole h bytes f name opened =
      let f1 : F = (fs_write h bytes f).1 in
      let closed_keeps = laws.close_keeps h f1 name in
      elim (Bool-cases ((fs_write h bytes f).0 == 0)) [
        | inr bad ↦ rw bad (
            inr (
              refl,
              Torn-moved bytes refl closed_keeps (whole.write_fails h bytes f name opened bad),
            ))
        | inl ok ↦
            let stored = closed_keeps ∙ whole.write_stores h bytes f name opened ok in
            elim (Bool-cases ((fs_close h f1).0 == 0)) [
              | inl closed ↦ rw (ok, closed) (inl (refl, stored))
              | inr open_ ↦
                  rw (ok, open_)
                    (inr (
                      refl,
                      inr (
                          inr (
                            length bytes,
                            stored ∙ ap some (sym (take_all (length bytes) bytes (omega arith))),
                          )),
                    ))
            ]
      ]

  -- The bytes of a failed store, on a file that may have been emptied first.
  Torn-emptied :
      (bytes : List ℕ) {old mid new : Option (List ℕ)}
      → (mid ≡ old) ⊎ (mid ≡ some [])
      → Torn bytes mid new
      → Torn bytes old new
  Torn-emptied bytes (inl same) torn = Torn-moved bytes same refl torn
  Torn-emptied bytes (inr empty) (inl same) = inr (inr (0, same ∙ empty))
  Torn-emptied bytes (inr empty) (inr (inl lost)) = inr (inl lost)
  Torn-emptied bytes (inr empty) (inr (inr part)) = inr (inr part)

  pub store_file-Stored :
      (whole : Replaces b item Opened) (name bytes : List ℕ) (f : F)
      → let (r, f') = store_file b name bytes f in
        Stored bytes (code_of r) (item f name) (item f' name)
  unfolding store_file
  store_file-Stored whole name bytes f =
      let h : H = (fs_open name true f).0.1 in
      let f1 : F = (fs_open name true f).1 in
      let made = laws.write_open name f in
      elim (Bool-cases ((fs_open name true f).0.0 == 0)) [
        | inr bad ↦ rw bad (inr (refl, Torn-emptied bytes made (inl refl)))
        | inl ok ↦
            elim (store_open-Stored whole h bytes f1 name (laws.open_Opened name true f ok)) [
              | inl stored ↦ rw ok (inl stored)
              | inr (code, torn) ↦ rw ok (inr (code, Torn-emptied bytes made torn))
            ]
      ]
