-- ===== src/Security/Refines.antt =====
-- The secure storage over the software backend is a storage as src/iot_nv_data.c needs it
-- (src/security/iot_security_storage.c, backend/software).
use st_device_sdk_c.Prelude.{
  ℕ, ◌≤◌, ◌≡◌, ◌⊎◌, inl, inr, refl, ◌∙◌, ap, Bool-cases, true, false, not, ◌||◌, ltb, ◌==◌, List,
  length, take_all, Option, none, some, arith,
}
use st_device_sdk_c.Errors.{IotError}
use st_device_sdk_c.Nv.{done, failed, Act, ◌>>=◌, nvd_max}
use st_device_sdk_c.Nv.Keeps.{IsStorage, storage_max, Torn}
use st_device_sdk_c.Security.{Bsp}
use st_device_sdk_c.Security.Rules.{IsBsp, Replaces}
use st_device_sdk_c.Security.Backend.{fs_load, fs_store, remove_item}
use st_device_sdk_c.Security.Storage.{
  System, SecurityContext, set_id, set_storage_id, context_id, storage_read, storage_write,
  storage_remove, security_init, storage_init, software, on_board,
}
use st_device_sdk_c.Security.Items.{stored, stored-same, fs_load_keeps, fs_load_gives}
use st_device_sdk_c.Security.Stores.{fs_store_keeps, fs_store-Kept, remove_item_keeps}

-- The number is refused, or it is the number of the context's parameters.
set_id-cases :
    (n : ℕ) (context : Option SecurityContext)
    → ((err : IotError) × (set_id n context ≡ failed err) × ((err == 0) ≡ false))
      ⊎ ((new : SecurityContext) × (set_id n context ≡ done new) × (new.storage_params ≡ some n))
set_id-cases n none = inl (_, refl, refl)
set_id-cases n (some context) = go context.storage_params refl
  where
    go :
        (params : Option ℕ)
        → context.storage_params ≡ params
        → ((err : IotError) × (set_id n (some context) ≡ failed err) × ((err == 0) ≡ false))
          ⊎ ((new : SecurityContext) × (set_id n (some context) ≡ done new)
              × (new.storage_params ≡ some n))
    go none e = inl (1125, rw e refl, refl)
    go (some old) e = elim (Bool-cases (n == 0 || not (ltb n nvd_max))) [
      | inl bad ↦ inl (1126, rw (e, bad) refl, refl)
      | inr good ↦ inr (record context { storage_params = some n }, rw (e, good) refl, refl)
    ]

module _ (b : Bsp) where
  -- A call of the backend for a number: refused, or made on the board.
  abbrev Called : {A : Type 0} → (ℕ → Act b.F A) → ℕ → Act (System b) A → Type 0
  Called call n act =
      (s : System b)
      → ((err : IotError) × (context : Option SecurityContext) × (act s
            ≡ (failed err, record s { context = context }))
          × ((err == 0) ≡ false))
        ⊎ ((context : Option SecurityContext) × (act s
              ≡ on_board b (call n) (record s { context = context })))

  storage_read-Called : (n : ℕ) → Called (fs_load b) n (storage_read b n)
  unfolding storage_read set_storage_id context_id ◌>>=◌
  storage_read-Called n s = elim (set_id-cases n s.context) [
    | inl (err, refused, wrong) ↦ inl (err, s.context, rw refused refl, wrong)
    | inr (new, set, params) ↦ inr (some new, rw (set, params) refl)
  ]

  storage_remove-Called : (n : ℕ) → Called (remove_item b) n (storage_remove b n)
  unfolding storage_remove set_storage_id context_id ◌>>=◌
  storage_remove-Called n s = elim (set_id-cases n s.context) [
    | inl (err, refused, wrong) ↦ inl (err, s.context, rw refused refl, wrong)
    | inr (new, set, params) ↦ inr (some new, rw (set, params) refl)
  ]

  pub storage_write-Called :
      (n : ℕ) (bytes : List ℕ) → Called (λ id. fs_store b id bytes) n (storage_write b n bytes)
  unfolding storage_write set_storage_id context_id ◌>>=◌
  storage_write-Called n bytes s = elim (set_id-cases n s.context) [
    | inl (err, refused, wrong) ↦ inl (err, s.context, rw refused refl, wrong)
    | inr (new, set, params) ↦ elim (Bool-cases (length bytes == 0)) [
      | inl empty ↦ inl (2, some new, rw (set, empty) refl, refl)
      | inr filled ↦ inr (some new, rw (set, filled, params) refl)
    ]
  ]

module _ (b : Bsp) (item : b.F → List ℕ → Option (List ℕ)) (Opened : b.F → b.H → List ℕ → Type 0)
    (info : ℕ → Option (List ℕ)) (laws : IsBsp b item Opened info) where
  open b use {F, memory}

  -- What is stored on the board of a system.
  abbrev pub contents : System b → ℕ → Option (List ℕ)
  contents s = stored b item Opened info laws s.board

  -- Memory that was asked for changes no file.
  memory_same :
      (f : F) (m : ℕ)
      → contents (record { board = (memory f).1; context = none }) m
        ≡ contents (record { board = f; context = none }) m
  memory_same f m = stored-same b item Opened info laws f (memory f).1 m (laws.memory_keeps f)

  init_keeps : (s : System b) (m : ℕ) → contents ((software b).init s).1 m ≡ contents s m
  unfolding security_init storage_init
  init_keeps s m =
      let f1 : F = (memory s.board).1 in
      let f2 : F = (memory f1).1 in
      elim (Bool-cases (memory s.board).0) [
        | inr full ↦ rw full (memory_same s.board m)
        | inl room ↦ elim (Bool-cases (memory f1).0) [
          | inr full ↦ rw (room, full) (memory_same f1 m ∙ memory_same s.board m)
          | inl room' ↦
              let all = memory_same f2 m ∙ memory_same f1 m ∙ memory_same s.board m in
              elim (Bool-cases (memory f2).0) [
                | inl last ↦ rw (room, room', last) all
                | inr full ↦ rw (room, room', full) all
              ]
        ]
      ]

  read_keeps :
      (n : ℕ) (s : System b) (m : ℕ) → contents ((software b).storage_read n s).1 m ≡ contents s m
  read_keeps n s m = elim (storage_read-Called b n s) [
    | inl (err, context, e, wrong) ↦ rw e refl
    | inr (context, e) ↦ rw e (
        stored-same b item Opened info laws s.board (fs_load b n s.board).1 m
          (fs_load_keeps b item Opened info laws n s.board))
  ]

  pub read_gives :
      (n : ℕ) (s : System b)
      → (((software b).storage_read n s).0.0 == 0) ≡ true
      → contents s n ≡ some ((software b).storage_read n s).0.1
  read_gives n s = elim (storage_read-Called b n s) [
    | inl (err, context, e, wrong) ↦ rw e (λ code. ground (arith, code, wrong))
    | inr (context, e) ↦ rw e (fs_load_gives b item Opened info laws n s.board)
  ]

  write_keeps :
      (n : ℕ) (bytes : List ℕ) (s : System b) (m : ℕ)
      → (n == m) ≡ false
      → contents ((software b).storage_write n bytes s).1 m ≡ contents s m
  write_keeps n bytes s m other = elim (storage_write-Called b n bytes s) [
    | inl (err, context, e, wrong) ↦ rw e refl
    | inr (context, e) ↦ rw e (fs_store_keeps b item Opened info laws n m bytes s.board other)
  ]

  write_stores :
      (whole : Replaces b item Opened) (n : ℕ) (bytes : List ℕ) (s : System b)
      → length bytes ≤ storage_max
      → (((software b).storage_write n bytes s).0 == 0) ≡ true
      → contents ((software b).storage_write n bytes s).1 n ≡ some bytes
  write_stores whole n bytes s fits = elim (storage_write-Called b n bytes s) [
    | inl (err, context, e, wrong) ↦ rw e (λ code. ground (arith, code, wrong))
    | inr (context, e) ↦ elim (fs_store-Kept b item Opened info laws whole n bytes s.board) [
      | inl (ok, new) ↦ rw e (λ code. new ∙ ap some (take_all storage_max bytes fits))
      | inr (bad, torn) ↦ rw e (λ code. ground (arith, code, bad))
    ]
  ]

  write_fails :
      (whole : Replaces b item Opened) (n : ℕ) (bytes : List ℕ) (s : System b)
      → (((software b).storage_write n bytes s).0 == 0) ≡ false
      → Torn bytes (contents s n) (contents ((software b).storage_write n bytes s).1 n)
  write_fails whole n bytes s = elim (storage_write-Called b n bytes s) [
    | inl (err, context, e, wrong) ↦ rw e (λ code. inl refl)
    | inr (context, e) ↦ elim (fs_store-Kept b item Opened info laws whole n bytes s.board) [
      | inl (ok, new) ↦ rw e (λ code. ground (arith, code, ok))
      | inr (bad, torn) ↦ rw e (λ code. torn)
    ]
  ]

  remove_keeps :
      (n : ℕ) (s : System b) (m : ℕ)
      → (n == m) ≡ false
      → contents ((software b).storage_remove n s).1 m ≡ contents s m
  remove_keeps n s m other = elim (storage_remove-Called b n s) [
    | inl (err, context, e, wrong) ↦ rw e refl
    | inr (context, e) ↦ rw e (remove_item_keeps b item Opened info laws n m s.board other)
  ]

  -- On a board that obeys the rules of iot_bsp_fs.h, where a write replaces a file, the secure storage with the software backend is a
  -- storage as iot_nv_data.c needs it: iot_security_init and iot_security_storage_init, the clean-up,
  -- and a read leave every item; a read that succeeds gives what is stored; a write changes only its
  -- own item, and stores all of up to 2048 bytes when it succeeds; when it fails, at any step, the item
  -- is the old one, gone, or a part of the new one; a removal leaves the other items.
  pub software-IsStorage : Replaces b item Opened → IsStorage (software b) contents
  software-IsStorage whole = record {
    init_keeps = init_keeps;
    deinit_keeps = λ s m. refl;
    read_keeps = read_keeps;
    read_gives = read_gives;
    write_keeps = write_keeps;
    write_stores = write_stores whole;
    write_fails = write_fails whole;
    remove_keeps = remove_keeps;
  }
