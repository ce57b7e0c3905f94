-- ===== src/Nv/Commit.antt =====
-- The status of the stored data (src/iot_nv_data.c): it is set to "NONE" before the items are
-- written, and to "DONE" behind them.
use st_device_sdk_c.Prelude.{
  ℕ, ◌≡◌, refl, ◌∙◌, ◌⊎◌, inl, inr, Bool, Bool-cases, true, false, ltb, ◌==◌, List, length, get_or,
  take, subst, arith, Option, none, some, zero, suc, ◌≤◌, ap,
}
use st_device_sdk_c.Prelude.Int.{ℤ}
use st_device_sdk_c.Errors.{IotError, nv_data_error}
use st_device_sdk_c.Nv.{
  Storage, Result, strncmp_done, done, failed, Act, ◌>>=◌, ◌>>◌, write_data, erase, put, nvd_max,
  status_done, status_none, ap_ssid, ap_pass, ap_bssid, ap_auth_type, wifi_prov_status,
  cloud_prov_status, server_url, server_port, nv_label,
}
use st_device_sdk_c.Nv.Text.{print_int}
use st_device_sdk_c.Nv.Wifi.{
  WifiProvData, is_auth_mode, set_array, set_auth_type, set_wifi_items, set_wifi_prov_data,
}
use st_device_sdk_c.Nv.Cloud.{CloudProvData, set_text, set_cloud_items, set_cloud_prov_data}
use st_device_sdk_c.Util.Url.{after_prefix}
use st_device_sdk_c.Nv.Keeps.{
  IsStorage, Torn, storage_max, with_storage-ends, with_storage-write, write_data-Keeps,
  erase-Keeps,
}

pub bind_done :
    {S A B : Type 0}
    → (act : Act S A) (f : A → Act S B) (s : S) (a : A) → (act s).0 ≡ done a
    → (act >>= f) s ≡ f a (act s).1
unfolding ◌>>=◌
bind_done act f s a e = rw e refl

pub bind_failed :
    {S A B : Type 0}
    → (act : Act S A) (f : A → Act S B) (s : S) (e : IotError) → (act s).0 ≡ failed e
    → (act >>= f) s ≡ (failed e, (act s).1)
unfolding ◌>>=◌
bind_failed act f s e h = rw h refl

-- The status of unfinished data.
abbrev pub NotDone : Option (List ℕ) → Type 0
NotDone status =
    (status ≡ none) ⊎ ((bytes : List ℕ) × (status ≡ some bytes) × (strncmp_done bytes ≡ false))

none_open : strncmp_done status_none ≡ false
unfolding after_prefix
none_open = refl

-- No part of "NONE" is taken for "DONE", and of "DONE" only the whole.
take-status_none : (k : ℕ) → strncmp_done (take k status_none) ≡ false
unfolding after_prefix
take-status_none zero = refl
take-status_none (suc k) = refl

take-status_done :
    (k : ℕ) → (strncmp_done (take k status_done) ≡ false) ⊎ (take k status_done ≡ status_done)
unfolding after_prefix
take-status_done zero = inl refl
take-status_done (suc zero) = inl refl
take-status_done (suc (suc zero)) = inl refl
take-status_done (suc (suc (suc zero))) = inl refl
take-status_done (suc (suc (suc (suc zero)))) = inr refl
take-status_done (suc (suc (suc (suc (suc k))))) = inr refl

module _ (st : Storage) (contents : st.S → ℕ → Option (List ℕ)) (laws : IsStorage st contents) where
  open st use {S}

  -- A result that a writer can have.
  abbrev Ends : Result (Unit {0}) → Type 0
  Ends r = (r ≡ done tt) ⊎ (r ≡ failed nv_data_error)

  -- A writer that leaves what is stored under `m`.
  abbrev Item : ℕ → Act S (Unit {0}) → Type 0
  Item m act = (s : S) → Ends (act s).0 × (contents (act s).1 m ≡ contents s m)

  bind-Item :
      (m : ℕ) (act next : Act S (Unit {0})) → Item m act → Item m next → Item m (act >> next)
  bind-Item m act next first second s = elim (first s).0 [
    | inl ok ↦
        rw (bind_done act (λ u. next) s tt ok)
          ((second (act s).1).0, (second (act s).1).1 ∙ (first s).1)
    | inr bad ↦ rw (bind_failed act (λ u. next) s nv_data_error bad) (inr refl, (first s).1)
  ]

  put-Ends : (n : ℕ) (bytes : List ℕ) (s : S) → Ends (put st n bytes s).0
  unfolding put write_data
  put-Ends n bytes s = elim (Bool-cases (ltb n nvd_max)) [
    | inr outside ↦ rw outside (inr refl)
    | inl inside ↦ elim (Bool-cases (length bytes == 0)) [
      | inl empty ↦ rw (inside, empty) (inr refl)
      | inr filled ↦ elim (with_storage-ends st contents laws n bytes s) [
        | inl ok ↦ rw (inside, filled, ok) (inl refl)
        | inr bad ↦ rw (inside, filled, bad) (inr refl)
      ]
    ]
  ]

  put-Item : (m n : ℕ) (bytes : List ℕ) → (n == m) ≡ false → Item m (put st n bytes)
  unfolding put
  put-Item m n bytes other s =
      (put-Ends n bytes s, write_data-Keeps st contents laws m n bytes other s)

  erase-Item : (m n : ℕ) → (n == m) ≡ false → Item m (erase st n)
  unfolding erase
  erase-Item m n other s = (inl refl, erase-Keeps st contents laws m n other s)

  -- What becomes of the status and of the data.
  -- No write before the last reported an error.
  abbrev pub Written : ℕ → Act S (Unit {0}) → S → Type 0
  Written n items s = let (r, v) = put st n status_none s in (r ≡ done tt) × ((items v).0 ≡ done tt)

  abbrev pub Committed : ℕ → Act S (Unit {0}) → S → Result (Unit {0}) × S → Type 0
  Committed n items s (r, s') =
      ((r ≡ done tt) × (contents s' n ≡ some status_done))
      ⊎ ((r ≡ failed nv_data_error)
          × (((m : ℕ) → contents s' m ≡ contents s m)
              ⊎ (NotDone (contents s' n)
                  ⊎ ((contents s' n ≡ some status_done) × Written n items s))))

  -- The first write of the status.
  put_first :
      (n : ℕ) (bytes : List ℕ) (s : S)
      → ltb n nvd_max ≡ true
      → (length bytes == 0) ≡ false
      → length bytes ≤ storage_max
      → let (r, s') = put st n bytes s in
        ((r ≡ done tt) × (contents s' n ≡ some bytes))
        ⊎ ((r ≡ failed nv_data_error) × Torn bytes (contents s n) (contents s' n))
  unfolding put write_data
  put_first n bytes s inside filled fits =
      elim (with_storage-write st contents laws n bytes s fits) [
        | inl (ok, stored) ↦ rw (inside, filled, ok) (inl (refl, stored))
        | inr (bad, lost) ↦ rw (inside, filled, bad) (inr (refl, lost))
      ]

  put_unchanged :
      (n : ℕ) (bytes : List ℕ) (s : S)
      → contents (put st n bytes s).1 n ≡ contents s n
      → (m : ℕ) → contents (put st n bytes s).1 m ≡ contents s m
  unfolding put
  put_unchanged n bytes s same m = elim (Bool-cases (n == m)) [
    | inr other ↦ write_data-Keeps st contents laws m n bytes other s
    | inl equal ↦
        let is_n : n ≡ m = ground (arith, equal) in
        subst (λ k. contents (put st n bytes s).1 k ≡ contents s k) is_n same
  ]

  -- The last write of the status, on data that is not done.
  put_last :
      (n : ℕ) (items : Act S (Unit {0})) (s v : S)
      → ltb n nvd_max ≡ true
      → contents v n ≡ some status_none
      → Written n items s
      → Committed n items s (put st n status_done v)
  put_last n items s v inside open_ written =
      elim (put_first n status_done v inside refl (omega arith)) [
        | inl (ok, stored) ↦ inl (ok, stored)
        | inr (bad, inl same) ↦ inr (bad, inr (inl (inr (status_none, same ∙ open_, none_open))))
        | inr (bad, inr (inl lost)) ↦ inr (bad, inr (inl (inl lost)))
        | inr (bad, inr (inr (k, part))) ↦ elim (take-status_done k) [
          | inl short ↦ inr (bad, inr (inl (inr (take k status_done, part, short))))
          | inr whole ↦ inr (bad, inr (inr (part ∙ ap some whole, written)))
        ]
      ]

  commit :
      (n : ℕ) (items : Act S (Unit {0})) (s : S)
      → ltb n nvd_max ≡ true
      → Item n items
      → Committed n items s ((put st n status_none >> (items >> put st n status_done)) s)
  commit n items s inside item = elim (put_first n status_none s inside refl (omega arith)) [
    | inr (bad, inl same) ↦
        rw (bind_failed (put st n status_none) _ s nv_data_error bad)
          (inr (refl, inl (put_unchanged n status_none s same)))
    | inr (bad, inr (inl lost)) ↦
        rw (bind_failed (put st n status_none) _ s nv_data_error bad)
          (inr (refl, inr (inl (inl lost))))
    | inr (bad, inr (inr (k, part))) ↦
        rw (bind_failed (put st n status_none) _ s nv_data_error bad)
          (inr (refl, inr (inl (inr (take k status_none, part, take-status_none k)))))
    | inl (ok, stored) ↦
        let v : S = (put st n status_none s).1 in
        let (ends, kept) = item v in
        rw (bind_done (put st n status_none) (λ u. items >> put st n status_done) s tt ok)
          (elim ends [
            | inl done_ ↦
                rw (bind_done items (λ u. put st n status_done) v tt done_)
                  (put_last n items s (items v).1 inside (kept ∙ stored) (ok, done_))
            | inr bad ↦
                rw (bind_failed items (λ u. put st n status_done) v nv_data_error bad)
                  (inr (refl, inr (inl (inr (status_none, kept ∙ stored, none_open)))))
          ])
  ]

  set_array-Item :
      (m n len : ℕ) (array : List ℕ) → (n == m) ≡ false → Item m (set_array st n len array)
  unfolding set_array
  set_array-Item m n len array other = elim (Bool-cases (get_or array 0 0 == 0)) [
    | inl empty ↦ rw empty (erase-Item m n other)
    | inr filled ↦ rw filled (put-Item m n (take len array) other)
  ]

  set_auth_type-Item : (auth : ℤ) → Item wifi_prov_status (set_auth_type st auth)
  unfolding set_auth_type
  set_auth_type-Item auth = elim (Bool-cases (is_auth_mode auth)) [
    | inr other ↦ rw other (erase-Item wifi_prov_status ap_auth_type refl)
    | inl mode ↦ rw mode (put-Item wifi_prov_status ap_auth_type (print_int auth) refl)
  ]

  set_text-Item :
      (m n : ℕ) (text : Option (List ℕ)) → (n == m) ≡ false → Item m (set_text st n text)
  unfolding set_text
  set_text-Item m n none other = erase-Item m n other
  set_text-Item m n (some text) other = put-Item m n text other

  pub set_wifi-Committed :
      (memory : Bool) (w : WifiProvData) (s : S)
      → Committed wifi_prov_status (set_wifi_items st w) s (set_wifi_prov_data st memory w s)
  unfolding set_wifi_prov_data set_wifi_items
  set_wifi-Committed false w s = inr (refl, inl (λ m. refl))
  set_wifi-Committed true w s = commit wifi_prov_status (set_wifi_items st w) s refl (
      bind-Item _ _ _ (set_array-Item _ ap_ssid _ _ refl) (
        bind-Item _ _ _ (set_array-Item _ ap_pass _ _ refl) (
          bind-Item _ _ _ (set_array-Item _ ap_bssid _ _ refl)
            (set_auth_type-Item w.security_type))))

  pub set_cloud-Committed :
      (memory : Bool) (c : CloudProvData) (s : S)
      → Committed cloud_prov_status (set_cloud_items st c) s (set_cloud_prov_data st memory c s)
  unfolding set_cloud_prov_data set_cloud_items
  set_cloud-Committed false c s = inr (refl, inl (λ m. refl))
  set_cloud-Committed true c s = commit cloud_prov_status (set_cloud_items st c) s refl (
      bind-Item _ _ _ (set_text-Item _ server_url c.broker_url refl) (
        bind-Item _ _ _ (put-Item _ server_port (print_int c.broker_port) refl)
          (set_text-Item _ nv_label c.label refl)))
