-- ===== src/Nv/Interrupt.antt =====
-- Writing the provisioning data when the storage may fail at any write (src/iot_nv_data.c).
use st_device_sdk_c.Prelude.{
  ℕ, ◌≡◌, refl, sym, ◌∙◌, ◌⊎◌, inl, inr, Bool, Bool-cases, true, false, ltb, ◌==◌, subst, List,
  length, Option, some, arith,
}
use st_device_sdk_c.Errors.{IotError, nv_data_error}
use st_device_sdk_c.Util.Url.{after_prefix}
use st_device_sdk_c.Nv.{
  fault, is_done, then_act, Storage, Result, done, failed, Act, ◌>>=◌, with_storage, read_mode,
  read_data, check_status, prov_data_exist, nvd_max, status_done, wifi_prov_status,
  cloud_prov_status,
}
use st_device_sdk_c.Nv.Wifi.{
  WifiProvData, no_wifi_prov, wifi_data_size, set_wifi_prov_data, set_wifi_items, get_wifi_items,
  get_wifi_prov_data,
}
use st_device_sdk_c.Nv.Cloud.{
  CloudProvData, cloud_data_size, set_cloud_prov_data, set_cloud_items, get_cloud_prov_data,
}
use st_device_sdk_c.Nv.Keeps.{IsStorage, check_status-Keeps}
use st_device_sdk_c.Nv.Commit.{NotDone, Written, set_wifi-Committed, set_cloud-Committed}

module _ (st : Storage) (contents : st.S → ℕ → Option (List ℕ)) (laws : IsStorage st contents) where
  open st use {S, init, storage_read}

  -- A read gives what is stored, or fails.
  abbrev Reads : ℕ → S → Result (List ℕ) → Type 0
  Reads n s r =
      ((bytes : List ℕ) × (r ≡ done bytes) × (contents s n ≡ some bytes))
      ⊎ ((e : IotError) × (r ≡ failed e))

  with_storage-Reads :
      (n data_len : ℕ) (s : S) → Reads n s (with_storage st (read_mode st n data_len) s).0
  unfolding with_storage read_mode
  with_storage-Reads n data_len s = elim (Bool-cases (init s).0) [
    | inr closed ↦ rw (closed, with_storage) (inr (_, refl))
    | inl opened ↦
        let v : S = (init s).1 in
        let bytes : List ℕ = (storage_read n v).0.1 in
        elim (Bool-cases ((storage_read n v).0.0 == 0)) [
          | inr refused ↦ rw (opened, with_storage, refused) (inr (_, refl))
          | inl read ↦ elim (Bool-cases (ltb data_len (length bytes))) [
            | inl long ↦ rw (opened, with_storage, read, long) (inr (_, refl))
            | inr short ↦
                rw (opened, with_storage, read, short)
                  (inl (bytes, refl, sym (laws.init_keeps s n) ∙ laws.read_gives n v read))
          ]
        ]
  ]

  pub read_data-Reads : (n data_len : ℕ) (s : S) → Reads n s (read_data st n data_len s).0
  unfolding read_data
  read_data-Reads n data_len s = elim (Bool-cases (ltb n nvd_max)) [
    | inr outside ↦ rw outside (inr (_, refl))
    | inl inside ↦ elim (Bool-cases (data_len == 0)) [
      | inl empty ↦ rw (inside, empty) (inr (_, refl))
      | inr filled ↦ rw (inside, filled) (with_storage-Reads n data_len s)
    ]
  ]

  -- A status that is not done is refused.
  check_status_refuses :
      (n data_len : ℕ) (s : S)
      → NotDone (contents s n)
      → (check_status st n data_len s).0 ≡ failed nv_data_error
  unfolding check_status ◌>>=◌ after_prefix
  check_status_refuses n data_len s open_ = elim (read_data-Reads n data_len s) [
    | inr (e, bad) ↦ rw bad refl
    | inl (bytes, ok, stored) ↦ elim open_ [
      | inl missing ↦ ground (arith, stored, missing)
      | inr (bytes', is, not_done) ↦
          let same : bytes ≡ bytes' = ground (arith, stored, is) in rw (ok, same, not_done) refl
    ]
  ]

  stays_undone :
      (r : Result (Unit {0})) (s : S) (next : Act S (Unit {0}))
      → is_done (next s).0 ≡ false
      → is_done (then_act (r, s) (λ u. next)).0 ≡ false
  stays_undone (done u) s next e = e
  stays_undone (failed e) s next h = refl
  stays_undone fault s next h = refl

  -- Data of which one part is not done is not there.
  exist_refuses :
      (s : S)
      → NotDone (contents s wifi_prov_status) ⊎ NotDone (contents s cloud_prov_status)
      → (prov_data_exist st s).0 ≡ false
  unfolding prov_data_exist ◌>>=◌
  exist_refuses s (inl open_) = rw (check_status_refuses wifi_prov_status 4 s open_) refl
  exist_refuses s (inr open_) =
      let s' : S = (check_status st wifi_prov_status 4 s).1 in
      let kept = check_status-Keeps st contents laws cloud_prov_status wifi_prov_status 4 s in
      let same : NotDone (contents s' cloud_prov_status) = subst NotDone (sym kept) open_ in
      stays_undone (check_status st wifi_prov_status 4 s).0 s' (check_status st cloud_prov_status 4)
        (rw (check_status_refuses cloud_prov_status 4 s' same) refl)

  get_wifi_refuses :
      (old : WifiProvData) (s : S)
      → NotDone (contents s wifi_prov_status)
      → (get_wifi_prov_data st true old s).0 ≡ some (nv_data_error, no_wifi_prov)
  unfolding get_wifi_prov_data get_wifi_items ◌>>=◌
  get_wifi_refuses old s open_ =
      rw (check_status_refuses wifi_prov_status wifi_data_size s open_) refl

  get_cloud_refuses :
      (copies : Bool × Bool) (s : S)
      → NotDone (contents s cloud_prov_status)
      → (get_cloud_prov_data st true copies s).0 ≡ failed nv_data_error
  unfolding get_cloud_prov_data ◌>>=◌
  get_cloud_refuses copies s open_ =
      rw (check_status_refuses cloud_prov_status cloud_data_size s open_) refl

  -- iot_nv_set_wifi_prov_data and iot_nv_set_cloud_prov_data, on a storage in which any call may fail,
  -- where a write that fails leaves the item, loses it, or leaves a part of the new one from its start.
  -- If they return IOT_ERROR_NONE, the status of their part is "DONE". Else they return
  -- IOT_ERROR_NV_DATA_ERROR, and either nothing stored has changed, or iot_nv_prov_data_exist is false
  -- afterwards and the getter of the part returns IOT_ERROR_NV_DATA_ERROR
  -- (iot_nv_get_wifi_prov_data then also clears its structure), or "NONE" and then the items were
  -- written without an error, and only the last write, of the status, has failed, with the whole of
  -- "DONE" stored.
  pub set_prov_interrupted :
      (memory : Bool) (copies : Bool × Bool) (w old : WifiProvData) (c : CloudProvData) (s : S)
      → (let (r, s') = set_wifi_prov_data st memory w s in
          ((r ≡ done tt) × (contents s' wifi_prov_status ≡ some status_done))
          ⊎ ((r ≡ failed nv_data_error)
              × (((m : ℕ) → contents s' m ≡ contents s m)
                  ⊎ ((((prov_data_exist st s').0 ≡ false)
                        × ((get_wifi_prov_data st true old s').0
                            ≡ some (nv_data_error, no_wifi_prov)))
                      ⊎ ((contents s' wifi_prov_status ≡ some status_done)
                          × Written st contents laws wifi_prov_status (set_wifi_items st w) s)))))
        × (let (r, s') = set_cloud_prov_data st memory c s in
            ((r ≡ done tt) × (contents s' cloud_prov_status ≡ some status_done))
            ⊎ ((r ≡ failed nv_data_error)
                × (((m : ℕ) → contents s' m ≡ contents s m)
                    ⊎ ((((prov_data_exist st s').0 ≡ false)
                          × ((get_cloud_prov_data st true copies s').0 ≡ failed nv_data_error))
                        ⊎ ((contents s' cloud_prov_status ≡ some status_done)
                            × Written st contents laws cloud_prov_status
                                (set_cloud_items st c)
                                s)))))
  set_prov_interrupted memory copies w old c s = (
    elim (set_wifi-Committed st contents laws memory w s) [
      | inl ok ↦ inl ok
      | inr (bad, inl same) ↦ inr (bad, inl same)
      | inr (bad, inr (inr whole)) ↦ inr (bad, inr (inr whole))
      | inr (bad, inr (inl open_)) ↦ inr (
        bad,
        inr (
            inl (
              exist_refuses (set_wifi_prov_data st memory w s).1 (inl open_),
              get_wifi_refuses old (set_wifi_prov_data st memory w s).1 open_,
            )),
      )
    ],
    elim (set_cloud-Committed st contents laws memory c s) [
      | inl ok ↦ inl ok
      | inr (bad, inl same) ↦ inr (bad, inl same)
      | inr (bad, inr (inr whole)) ↦ inr (bad, inr (inr whole))
      | inr (bad, inr (inl open_)) ↦ inr (
        bad,
        inr (
            inl (
              exist_refuses (set_cloud_prov_data st memory c s).1 (inr open_),
              get_cloud_refuses copies (set_cloud_prov_data st memory c s).1 open_,
            )),
      )
    ],
  )
