-- ===== src/Nv/Stored.antt =====
-- What is stored after iot_nv_set_wifi_prov_data on a storage that works (src/iot_nv_data.c).
use st_device_sdk_c.Prelude.{
  ℕ, suc, ◌≡◌, refl, ◌∙◌, inl, inr, Bool-cases, true, false, ltb, ◌==◌, List, [], ◌∷◌, length, take,
  Option, none, some, arith, ◌≤◌,
}
use st_device_sdk_c.Prelude.{length-take}
use st_device_sdk_c.Prelude.Int.{ℤ, pos, negsuc}
use st_device_sdk_c.Errors.{IotError, error_none, security_fs_not_found}
use st_device_sdk_c.Nv.{
  Storage, done, Act, ◌>>◌, with_storage, write_mode, remove_mode, write_data, remove_data, erase,
  put, nvd_max, status_done, status_none, ap_ssid, ap_pass, ap_bssid, ap_auth_type,
  wifi_prov_status,
}
use st_device_sdk_c.Nv.Text.{print_int}
use st_device_sdk_c.Nv.TextLaws.{kept_array, kept_auth}
use st_device_sdk_c.Nv.Wifi.{
  WifiProvData, is_auth_mode, set_array, set_auth_type, set_wifi_items, set_wifi_prov_data,
}
use st_device_sdk_c.Nv.Keeps.{IsStorage, storage_max}
use st_device_sdk_c.Nv.Commit.{bind_done}
use st_device_sdk_c.Security.Rules.{is_file}

-- What a read of an item answers.
abbrev pub read_answer : Option (List ℕ) → IotError × List ℕ
read_answer none = (security_fs_not_found, [])
read_answer (some bytes) = (error_none, bytes)

-- A storage in which, once it is open, no call for an item that lies in a file fails, for bytes that
-- there are and that a read can give back.
pub record Works (st : Storage) (contents : st.S → ℕ → Option (List ℕ)) : Type 0 where
  pub opens : (s : st.S) → (st.init s).0 ≡ true
  pub reads :
      (n : ℕ) (s : st.S)
      → is_file n ≡ true
      → (st.storage_read n (st.init s).1).0 ≡ read_answer (contents (st.init s).1 n)
  pub writes :
      (n : ℕ) (bytes : List ℕ) (s : st.S)
      → is_file n ≡ true
      → (length bytes == 0) ≡ false
      → length bytes ≤ storage_max
      → ((st.storage_write n bytes (st.init s).1).0 == 0) ≡ true
  pub removes :
      (n : ℕ) (s : st.S)
      → is_file n ≡ true
      → contents (st.storage_remove n (st.init s).1).1 n ≡ none

-- The number of a file is in the list.
pub is_file-listed : (n : ℕ) → is_file n ≡ true → ltb n nvd_max ≡ true
is_file-listed n file = ground (arith, file)

module _ (st : Storage) (contents : st.S → ℕ → Option (List ℕ)) (laws : IsStorage st contents)
    (works : Works st contents) where
  open st use {S, init}

  -- A writer that succeeds, and leaves `item` under `n` and the rest as it was.
  abbrev Stores : ℕ → Option (List ℕ) → Act S (Unit {0}) → Type 0
  Stores n item act =
      (s : S)
      → ((act s).0 ≡ done tt)
        × (contents (act s).1 n ≡ item)
        × ((m : ℕ) → (n == m) ≡ false → contents (act s).1 m ≡ contents s m)

  pub put-Stores :
      (n : ℕ) (bytes : List ℕ)
      → is_file n ≡ true
      → (length bytes == 0) ≡ false
      → length bytes ≤ storage_max
      → Stores n (some bytes) (put st n bytes)
  unfolding put write_data with_storage write_mode
  put-Stores n bytes file filled fits s =
      let v : S = (init s).1 in
      let written = works.writes n bytes s file filled fits in
      rw (is_file-listed n file, filled, with_storage, works.opens s, written)
        (
          refl,
          laws.deinit_keeps _ n ∙ laws.write_stores n bytes v fits written,
          λ m other.
              laws.deinit_keeps _ m ∙ laws.write_keeps n bytes v m other ∙ laws.init_keeps s m,
        )

  erase-Stores : (n : ℕ) → is_file n ≡ true → Stores n none (erase st n)
  unfolding erase remove_data with_storage remove_mode
  erase-Stores n file s =
      let v : S = (init s).1 in
      rw (is_file-listed n file, with_storage, works.opens s)
        (
          refl,
          laws.deinit_keeps _ n ∙ works.removes n s file,
          λ m other. laws.deinit_keeps _ m ∙ laws.remove_keeps n v m other ∙ laws.init_keeps s m,
        )

  set_array-Stores :
      (n len : ℕ) (array : List ℕ)
      → is_file n ≡ true
      → suc len ≤ storage_max
      → Stores n (kept_array (suc len) array) (set_array st n (suc len) array)
  unfolding set_array
  set_array-Stores n len [] inside small = erase-Stores n inside
  set_array-Stores n len (c ∷ cs) inside small = elim (Bool-cases (c == 0)) [
    | inl empty ↦ rw empty (erase-Stores n inside)
    | inr filled ↦ rw filled (
        put-Stores n (take (suc len) (c ∷ cs)) inside (ground arith)
          (omega (arith, length-take (suc len) (c ∷ cs))))
  ]

  set_auth_type-Stores : (auth : ℤ) → Stores ap_auth_type (kept_auth auth) (set_auth_type st auth)
  unfolding set_auth_type
  set_auth_type-Stores (negsuc n) = erase-Stores ap_auth_type refl
  set_auth_type-Stores (pos n) = elim (Bool-cases (is_auth_mode (pos n))) [
    | inr other ↦ rw other (erase-Stores ap_auth_type refl)
    | inl mode ↦ rw mode (
        let small : ltb n 10 ≡ true = ground arith in
        put-Stores ap_auth_type (print_int (pos n)) refl (rw small refl) (rw small (omega arith)))
  ]

  -- The state after the writes, and what is stored in it.
  items_stored :
      (w : WifiProvData) (s : S)
      → let (r, s') = set_wifi_items st w s in
        (r ≡ done tt)
        × (contents s' ap_ssid ≡ kept_array 32 w.ssid)
        × (contents s' ap_pass ≡ kept_array 64 w.password)
        × (contents s' ap_bssid ≡ kept_array 17 w.mac_str)
        × (contents s' ap_auth_type ≡ kept_auth w.security_type)
  unfolding set_wifi_items
  items_stored w s =
      let ssid = set_array st ap_ssid 32 w.ssid in
      let pass = set_array st ap_pass 64 w.password in
      let mac = set_array st ap_bssid 17 w.mac_str in
      let auth = set_auth_type st w.security_type in
      let (ok1, at1, keep1) = set_array-Stores ap_ssid 31 w.ssid refl (omega arith) s in
      let s1 : S = (ssid s).1 in
      let (ok2, at2, keep2) = set_array-Stores ap_pass 63 w.password refl (omega arith) s1 in
      let s2 : S = (pass s1).1 in
      let (ok3, at3, keep3) = set_array-Stores ap_bssid 16 w.mac_str refl (omega arith) s2 in
      let s3 : S = (mac s2).1 in
      let (ok4, at4, keep4) = set_auth_type-Stores w.security_type s3 in
      let all : (ssid >> (pass >> (mac >> auth))) s ≡ auth s3 =
        bind_done ssid (λ u. pass >> (mac >> auth)) s tt ok1
        ∙ bind_done pass (λ u. mac >> auth) s1 tt ok2
        ∙ bind_done mac (λ u. auth) s2 tt ok3 in
      rw all (
        ok4,
        keep4 ap_ssid refl ∙ keep3 ap_ssid refl ∙ keep2 ap_ssid refl ∙ at1,
        keep4 ap_pass refl ∙ keep3 ap_pass refl ∙ at2,
        keep4 ap_bssid refl ∙ at3,
        at4,
      )

  -- The state after iot_nv_set_wifi_prov_data.
  abbrev pub IsStored : WifiProvData → S → Type 0
  IsStored w s' =
      (contents s' wifi_prov_status ≡ some status_done)
      × (contents s' ap_ssid ≡ kept_array 32 w.ssid)
      × (contents s' ap_pass ≡ kept_array 64 w.password)
      × (contents s' ap_bssid ≡ kept_array 17 w.mac_str)
      × (contents s' ap_auth_type ≡ kept_auth w.security_type)

  pub set_wifi-IsStored :
      (w : WifiProvData) (s : S)
      → let (r, s') = set_wifi_prov_data st true w s in (r ≡ done tt) × IsStored w s'
  unfolding set_wifi_prov_data
  set_wifi-IsStored w s =
      let start = put st wifi_prov_status status_none in
      let items = set_wifi_items st w in
      let finish = put st wifi_prov_status status_done in
      let (ok1, at1, keep1) = put-Stores wifi_prov_status status_none refl refl (omega arith) s in
      let s1 : S = (start s).1 in
      let (ok2, ssid, pass, mac, auth) = items_stored w s1 in
      let s2 : S = (items s1).1 in
      let (ok3, at3, keep3) = put-Stores wifi_prov_status status_done refl refl (omega arith) s2 in
      let all : (start >> (items >> finish)) s ≡ finish s2 =
        bind_done start (λ u. items >> finish) s tt ok1 ∙ bind_done items (λ u. finish) s1 tt ok2 in
      rw all (
        ok3,
        (
          at3,
          keep3 ap_ssid refl ∙ ssid,
          keep3 ap_pass refl ∙ pass,
          keep3 ap_bssid refl ∙ mac,
          keep3 ap_auth_type refl ∙ auth,
        ),
      )
