-- ===== src/Security/PosixFiles.antt =====
-- The files of a POSIX board under the calls of src/port/bsp/posix/iot_bsp_fs_posix.c.
use st_device_sdk_c.Prelude.{
  ℕ, ◌≡◌, ◌≢◌, ◌⊎◌, inl, inr, refl, sym, ap, ◌∙◌, Bool, Bool-cases, true, false, not, ◌&&◌, ◌==◌,
  List, [], ◌++◌, length, take, drop, take_all, Option, none, some, arith,
}
use st_device_sdk_c.Errors.{IotError}
use st_device_sdk_c.Security.Rules.{IsBsp, first_bytes}
use st_device_sdk_c.Security.Posix.{
  Posix, FsHandle, no_handle, posix_board, nv_get_data_path, fs_open, fs_read, fs_write, fs_close,
  fs_remove,
}
use st_device_sdk_c.Security.PosixRules.{IsPosix, IsInfo}
use st_device_sdk_c.Security.Names.{paths_differ, paths_fit}

Option-cases : {A : Type 0} → (o : Option A) → (o ≡ none) ⊎ ((a : A) × (o ≡ some a))
Option-cases none = inl refl
Option-cases (some a) = inr (a, refl)

module _ (p : Posix) (file : p.D → List ℕ → Option (List ℕ)) (At : p.D → ℕ → List ℕ → Type 0)
    (laws : IsPosix p file At) where
  open p use {D, malloc, access, open_, read, write, close, remove}

  -- A handle whose descriptor is the file's, at its start.
  abbrev pub Opened : D → FsHandle → List ℕ → Type 0
  Opened d handle name = At d handle.fd name

  -- What an opening comes to: it fails, before the system's or behind it, or gives a handle.
  abbrev Opening : List ℕ → Bool → D → Type 0
  Opening name mode d =
      ((err : IotError) × (handle : FsHandle) × (fs_open p name mode d ≡ ((err, handle), d))
        × ((err == 0) ≡ false))
      ⊎ (((err : IotError) × (handle : FsHandle) × (fs_open p name mode d
              ≡ ((err, handle), (open_ name mode d).1))
            × ((err == 0) ≡ false))
          ⊎ ((fd : ℕ) × ((open_ name mode d).0 ≡ some fd)
              × (fs_open p name mode d
                  ≡ ((0, record { fd = fd; filename = take 127 name }), (open_ name mode d).1))))

  fs_open-cases : (name : List ℕ) (mode : Bool) (d : D) → Opening name mode d
  unfolding fs_open
  fs_open-cases name mode d = elim (Bool-cases (not mode && not (access name d))) [
    | inl missing ↦ inl (21, no_handle, rw missing refl, refl)
    | inr there ↦ go there (open_ name mode d).0 refl
  ]
    where
      go :
          (not mode && not (access name d)) ≡ false
          → (fd : Option ℕ) → (open_ name mode d).0 ≡ fd
          → Opening name mode d
      go there none e = inr (inl (16, no_handle, rw (there, e) refl, refl))
      go there (some fd) e = elim (Bool-cases (fd == 0)) [
        | inl zero_ ↦ inr (inl (16, no_handle, rw (there, e, zero_) refl, refl))
        | inr more ↦ inr (inr (fd, e, rw (there, e, more) refl))
      ]

  pub open_Opened :
      (name : List ℕ) (mode : Bool) (d : D)
      → ((fs_open p name mode d).0.0 == 0) ≡ true
      → Opened (fs_open p name mode d).1 (fs_open p name mode d).0.1 name
  open_Opened name mode d = elim (fs_open-cases name mode d) [
    | inl (err, handle, e, wrong) ↦ rw e (λ ok. ground (arith, ok, wrong))
    | inr (inl (err, handle, e, wrong)) ↦ rw e (λ ok. ground (arith, ok, wrong))
    | inr (inr (fd, got, e)) ↦ rw e (λ ok. laws.open_At name mode d fd got)
  ]

  -- An opening leaves what the system's leaves.
  open_keeps :
      (name : List ℕ) (mode : Bool) (d : D) (other : List ℕ)
      → file (open_ name mode d).1 other ≡ file d other
      → file (fs_open p name mode d).1 other ≡ file d other
  open_keeps name mode d other same = elim (fs_open-cases name mode d) [
    | inl (err, handle, e, wrong) ↦ rw e refl
    | inr (inl (err, handle, e, wrong)) ↦ rw e same
    | inr (inr (fd, got, e)) ↦ rw e same
  ]

  write_open :
      (name : List ℕ) (d : D)
      → let new = file (fs_open p name true d).1 name in (new ≡ file d name) ⊎ (new ≡ some [])
  write_open name d = elim (laws.open_makes name d) [
    | inl same ↦ inl (open_keeps name true d name same)
    | inr (missing, made) ↦ elim (fs_open-cases name true d) [
      | inl (err, handle, e, wrong) ↦ rw e (inl refl)
      | inr (inl (err, handle, e, wrong)) ↦ rw e (inr made)
      | inr (inr (fd, got, e)) ↦ rw e (inr made)
    ]
  ]

  read_keeps :
      (handle : FsHandle) (len : ℕ) (d : D) (other : List ℕ)
      → file (fs_read p handle len d).1 other ≡ file d other
  unfolding fs_read
  read_keeps handle len d other =
      let d' : D = (malloc d).1 in
      let same = laws.read_keeps handle.fd len d' other ∙ laws.malloc_keeps d other in
      elim (Bool-cases (not (access handle.filename d))) [
        | inl missing ↦ rw missing refl
        | inr there ↦ elim (Bool-cases (malloc d).0) [
          | inr full ↦ rw (there, full) (laws.malloc_keeps d other)
          | inl room ↦ elim (Option-cases (read handle.fd len d').0) [
            | inl failed_ ↦ rw (there, room, failed_) same
            | inr (bytes, got) ↦ rw (there, room, got) same
          ]
        ]
      ]

  read_gives :
      (handle : FsHandle) (len : ℕ) (d : D) (name : List ℕ)
      → Opened d handle name
      → ((fs_read p handle len d).0.0 == 0) ≡ true
      → first_bytes len (file d name) ≡ some (fs_read p handle len d).0.1
  unfolding fs_read
  read_gives handle len d name at =
      let d' : D = (malloc d).1 in
      elim (Bool-cases (not (access handle.filename d))) [
        | inl missing ↦ rw missing (λ ok. ground (arith, ok))
        | inr there ↦ elim (Bool-cases (malloc d).0) [
          | inr full ↦ rw (there, full) (λ ok. ground (arith, ok))
          | inl room ↦ elim (Option-cases (read handle.fd len d').0) [
            | inl failed_ ↦ rw (there, room, failed_) (λ ok. ground (arith, ok))
            | inr (bytes, got) ↦
                rw (there, room, got)
                  (λ ok.
                    ap (first_bytes len) (sym (laws.malloc_keeps d name))
                    ∙ laws.read_gives handle.fd len d' name bytes
                        (laws.malloc_At d handle.fd name at) got)
          ]
        ]
      ]

  write_keeps :
      (handle : FsHandle) (bytes : List ℕ) (d : D) (name other : List ℕ)
      → Opened d handle name
      → name ≢ other
      → file (fs_write p handle bytes d).1 other ≡ file d other
  unfolding fs_write
  write_keeps handle bytes d name other at differ =
      let same = laws.write_keeps handle.fd bytes d name other at differ in
      elim (Option-cases (write handle.fd bytes d).0) [
        | inl failed_ ↦ rw failed_ same
        | inr (size, got) ↦ rw got same
      ]

  -- A write that succeeds has written all of the bytes, over the first ones of the file.
  pub fs_write_over :
      (handle : FsHandle) (bytes : List ℕ) (d : D) (name old : List ℕ)
      → Opened d handle name
      → file d name ≡ some old
      → ((fs_write p handle bytes d).0 == 0) ≡ true
      → file (fs_write p handle bytes d).1 name ≡ some (bytes ++ drop (length bytes) old)
  unfolding fs_write
  fs_write_over handle bytes d name old at there = elim (Option-cases (write handle.fd bytes d).0) [
    | inl failed_ ↦ rw failed_ (λ ok. ground (arith, ok))
    | inr (size, got) ↦ elim (Bool-cases (size == length bytes)) [
      | inr short ↦ rw (got, short) (λ ok. ground (arith, ok))
      | inl all ↦
          let whole : size ≡ length bytes = ground (arith, all) in
          rw (got, all)
            (λ ok.
              laws.write_over handle.fd bytes d name old size at there got
              ∙ ap (λ (k : ℕ). some (take k bytes ++ drop k old)) whole
              ∙ ap (λ (front : List ℕ). some (front ++ drop (length bytes) old))
                  (take_all (length bytes) bytes (omega arith)))
    ]
  ]

  -- The rules of the secure storage, but for Replaces.
  pub posix-IsBsp :
      (device_info : Option (ℕ → D → (IotError × List ℕ) × D)) (info : ℕ → Option (List ℕ))
      → IsInfo p file device_info info
      → IsBsp (posix_board p nv_get_data_path device_info) file Opened info
  unfolding fs_close fs_remove
  posix-IsBsp device_info info told = record {
    memory_keeps = laws.malloc_keeps;
    memory_Opened = λ d handle name at. laws.malloc_At d handle.fd name at;
    open_Opened = open_Opened;
    read_open_keeps =
        λ name other d. open_keeps name false d other (laws.open_read_keeps name other d);
    write_open = write_open;
    write_open_keeps = λ name other d differ.
        open_keeps name true d other (laws.open_write_keeps name other d differ);
    read_keeps = read_keeps;
    read_gives = read_gives;
    write_keeps = write_keeps;
    close_keeps = λ handle d other. laws.close_keeps handle.fd d other;
    remove_keeps = laws.remove_keeps;
    info_keeps = told.info_keeps;
    info_gives = told.info_gives;
    paths_differ = paths_differ;
    paths_fit = paths_fit;
  }

  -- A file that is there is opened to be written as it is.
  pub open_there :
      (name : List ℕ) (d : D) (old : List ℕ)
      → file d name ≡ some old
      → file (fs_open p name true d).1 name ≡ some old
  open_there name d old there = elim (laws.open_makes name d) [
    | inl same ↦ open_keeps name true d name same ∙ there
    | inr (missing, made) ↦ ground (arith, missing, there)
  ]
