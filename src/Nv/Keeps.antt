-- ===== src/Nv/Keeps.antt =====
-- What the stored data becomes under the routines of src/iot_nv_data.c, for a storage that obeys the
-- rules of include/security/iot_security_storage.h.
use st_device_sdk_c.Prelude.{
  ℕ, ◌≡◌, ◌≤◌, take, refl, ◌∙◌, ◌⊎◌, inl, inr, Bool-cases, true, false, ltb, ◌==◌, List, length,
  Option, none, some,
}
use st_device_sdk_c.Errors.{nv_data_error}
use st_device_sdk_c.Nv.{
  Storage, Result, done, failed, fault, Act, ◌>>=◌, then_act, as_nv_error, with_storage, read_mode,
  write_mode, remove_mode, read_data, write_data, remove_data, erase, check_status, nvd_max,
}

-- IOT_SECURITY_STORAGE_BUF_MAX_LEN: a read gives no more.
abbrev pub storage_max : ℕ
storage_max = 2048

-- What a failed write leaves: the old item, none, or a part of the new one from its start.
abbrev pub Torn : List ℕ → Option (List ℕ) → Option (List ℕ) → Type 0
Torn bytes old new = (new ≡ old) ⊎ ((new ≡ none) ⊎ ((k : ℕ) × (new ≡ some (take k bytes))))

-- `contents s n` is what is stored under `n`. A read that succeeds gives it; a write that succeeds
-- changes it, and one that fails may leave a part of the new item; nothing else is touched.
pub record IsStorage (st : Storage) (contents : st.S → ℕ → Option (List ℕ)) : Type 0 where
  pub init_keeps : (s : st.S) (m : ℕ) → contents (st.init s).1 m ≡ contents s m
  pub deinit_keeps : (s : st.S) (m : ℕ) → contents (st.deinit s) m ≡ contents s m
  pub read_keeps : (n : ℕ) (s : st.S) (m : ℕ) → contents (st.storage_read n s).1 m ≡ contents s m
  pub read_gives :
      (n : ℕ) (s : st.S)
      → ((st.storage_read n s).0.0 == 0) ≡ true
      → contents s n ≡ some (st.storage_read n s).0.1
  pub write_keeps :
      (n : ℕ) (bytes : List ℕ) (s : st.S) (m : ℕ)
      → (n == m) ≡ false
      → contents (st.storage_write n bytes s).1 m ≡ contents s m
  pub write_stores :
      (n : ℕ) (bytes : List ℕ) (s : st.S)
      → length bytes ≤ storage_max
      → ((st.storage_write n bytes s).0 == 0) ≡ true
      → contents (st.storage_write n bytes s).1 n ≡ some bytes
  pub write_fails :
      (n : ℕ) (bytes : List ℕ) (s : st.S)
      → ((st.storage_write n bytes s).0 == 0) ≡ false
      → Torn bytes (contents s n) (contents (st.storage_write n bytes s).1 n)
  pub remove_keeps :
      (n : ℕ) (s : st.S) (m : ℕ)
      → (n == m) ≡ false
      → contents (st.storage_remove n s).1 m ≡ contents s m

pub Torn-moved :
    (bytes : List ℕ) {old old' new new' : Option (List ℕ)}
    → old ≡ old'
    → new' ≡ new
    → Torn bytes old new
    → Torn bytes old' new'
Torn-moved bytes e e' (inl same) = inl (e' ∙ same ∙ e)
Torn-moved bytes e e' (inr (inl lost)) = inr (inl (e' ∙ lost))
Torn-moved bytes e e' (inr (inr (k, part))) = inr (inr (k, e' ∙ part))

module _ (st : Storage) (contents : st.S → ℕ → Option (List ℕ)) (laws : IsStorage st contents) where
  open st use {S, init, storage_write}

  -- An action leaves what is stored under `m`.
  abbrev pub Keeps : {A : Type 0} → ℕ → Act S A → Type 0
  Keeps m act = (s : S) → contents (act s).1 m ≡ contents s m

  with_storage-Keeps :
      {A : Type 0} → (m : ℕ) (act : Act S A) → Keeps m act → Keeps m (with_storage st act)
  unfolding with_storage
  with_storage-Keeps m act keeps s = elim (Bool-cases (init s).0) [
    | inl opened ↦
        rw (opened, with_storage)
          (laws.deinit_keeps (act (init s).1).1 m ∙ keeps (init s).1 ∙ laws.init_keeps s m)
    | inr closed ↦ rw (closed, with_storage) (laws.init_keeps s m)
  ]

  pub read_data-Keeps : (m n data_len : ℕ) → Keeps m (read_data st n data_len)
  unfolding read_data read_mode
  read_data-Keeps m n data_len s = elim (Bool-cases (ltb n nvd_max)) [
    | inr outside ↦ rw outside refl
    | inl inside ↦ elim (Bool-cases (data_len == 0)) [
      | inl empty ↦ rw (inside, empty) refl
      | inr filled ↦
          rw (inside, filled)
            (with_storage-Keeps m (read_mode st n data_len) (λ v. laws.read_keeps n v m) s)
    ]
  ]

  pub write_data-Keeps :
      (m n : ℕ) (bytes : List ℕ) → (n == m) ≡ false → Keeps m (write_data st n bytes)
  unfolding write_data write_mode
  write_data-Keeps m n bytes other s = elim (Bool-cases (ltb n nvd_max)) [
    | inr outside ↦ rw outside refl
    | inl inside ↦ elim (Bool-cases (length bytes == 0)) [
      | inl empty ↦ rw (inside, empty) refl
      | inr filled ↦
          rw (inside, filled)
            (with_storage-Keeps m (write_mode st n bytes) (λ v. laws.write_keeps n bytes v m other)
              s)
    ]
  ]

  pub erase-Keeps : (m n : ℕ) → (n == m) ≡ false → Keeps m (erase st n)
  unfolding erase remove_data remove_mode
  erase-Keeps m n other s = elim (Bool-cases (ltb n nvd_max)) [
    | inr outside ↦ rw outside refl
    | inl inside ↦
        rw inside (with_storage-Keeps m (remove_mode st n) (λ v. laws.remove_keeps n v m other) s)
  ]

  after-Keeps :
      {A B : Type 0}
      → (m : ℕ) (r : Result A) (s : S) (f : A → Act S B) → ((a : A) → Keeps m (f a))
      → contents (then_act (r, s) f).1 m ≡ contents s m
  after-Keeps m (done a) s f keeps = keeps a s
  after-Keeps m (failed e) s f keeps = refl
  after-Keeps m fault s f keeps = refl

  pub bind-Keeps :
      {A B : Type 0}
      → (m : ℕ) (act : Act S A) (f : A → Act S B) → Keeps m act
      → ((a : A) → Keeps m (f a))
      → Keeps m (act >>= f)
  unfolding ◌>>=◌
  bind-Keeps m act f first keeps s = after-Keeps m (act s).0 (act s).1 f keeps ∙ first s

  pub check_status-Keeps : (m n data_len : ℕ) → Keeps m (check_status st n data_len)
  unfolding check_status
  check_status-Keeps m n data_len =
      bind-Keeps m (as_nv_error (read_data st n data_len)) _ (read_data-Keeps m n data_len)
        (λ bytes s. refl)

  -- A write ends in one of two ways.
  pub with_storage-ends :
      (n : ℕ) (bytes : List ℕ) (s : S)
      → let r = (with_storage st (write_mode st n bytes) s).0 in
        (r ≡ done tt) ⊎ (r ≡ failed nv_data_error)
  unfolding with_storage write_mode
  with_storage-ends n bytes s = elim (Bool-cases (init s).0) [
    | inr closed ↦ rw (closed, with_storage) (inr refl)
    | inl opened ↦ elim (Bool-cases ((storage_write n bytes (init s).1).0 == 0)) [
      | inl written ↦ rw (opened, with_storage, written) (inl refl)
      | inr refused ↦ rw (opened, with_storage, refused) (inr refl)
    ]
  ]

  -- What a write under a number of the list does: it stores the bytes, or fails.
  pub with_storage-write :
      (n : ℕ) (bytes : List ℕ) (s : S)
      → length bytes ≤ storage_max
      → let (r, s') = with_storage st (write_mode st n bytes) s in
        ((r ≡ done tt) × (contents s' n ≡ some bytes))
        ⊎ ((r ≡ failed nv_data_error) × Torn bytes (contents s n) (contents s' n))
  unfolding with_storage write_mode
  with_storage-write n bytes s fits = elim (Bool-cases (init s).0) [
    | inr closed ↦ rw (closed, with_storage) (inr (refl, inl (laws.init_keeps s n)))
    | inl opened ↦
        let v : S = (init s).1 in
        let v' : S = (storage_write n bytes v).1 in
        elim (Bool-cases ((storage_write n bytes v).0 == 0)) [
          | inl written ↦
              rw (opened, with_storage, written)
                (inl (refl, laws.deinit_keeps v' n ∙ laws.write_stores n bytes v fits written))
          | inr refused ↦
              rw (opened, with_storage, refused)
                (inr (
                  refl,
                  Torn-moved bytes (laws.init_keeps s n) (laws.deinit_keeps v' n)
                      (laws.write_fails n bytes v refused),
                ))
        ]
  ]
