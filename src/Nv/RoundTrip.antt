-- ===== src/Nv/RoundTrip.antt =====
-- What is written to a storage that works is read back (src/iot_nv_data.c).
use st_device_sdk_c.Prelude.{
  ℕ, ◌+◌, ◌≡◌, refl, ap, ◌∙◌, inl, inr, Bool-cases, true, false, ltb, ◌==◌, List, [], ◌∷◌, ◌++◌,
  length, take, Option, none, some, arith,
}
use st_device_sdk_c.Prelude.Int.{ℤ, pos, negsuc}
use st_device_sdk_c.Errors.{error_none}
use st_device_sdk_c.Util.Url.{after_prefix}
use st_device_sdk_c.Util.Mac.{convert_str_mac}
use st_device_sdk_c.Nv.{
  Storage, done, ◌>>=◌, give, with_storage, read_mode, read_data, check_status, status_done,
  ap_ssid, ap_pass, ap_bssid, ap_auth_type, wifi_prov_status,
}
use st_device_sdk_c.Nv.Text.{c_text, has_nul}
use st_device_sdk_c.Nv.TextLaws.{
  kept_array, array_of-kept_array, kept_auth, length-take, c_text-put, mac_of-kept_array, read_auth,
  auth_of-kept_auth,
}
use st_device_sdk_c.Nv.Wifi.{
  WifiProvData, wifi_data_size, is_auth_mode, auth_of, or_cleared, set_wifi_prov_data, read_item,
  get_array, get_wifi_items, get_wifi_prov_data,
}
use st_device_sdk_c.Nv.Keeps.{IsStorage, check_status-Keeps, Keeps, read_data-Keeps, bind-Keeps}
use st_device_sdk_c.Nv.Commit.{bind_done}
use st_device_sdk_c.Security.Rules.{is_file}
use st_device_sdk_c.Nv.Stored.{Works, is_file-listed, read_answer, IsStored, set_wifi-IsStored}

module _ (st : Storage) (contents : st.S → ℕ → Option (List ℕ)) (laws : IsStorage st contents)
    (works : Works st contents) where
  open st use {S, init}

  -- An item that fits the buffer of 65 bytes.
  abbrev Short : Option (List ℕ) → Type 0
  Short none = Unit {0}
  Short (some bytes) = ltb wifi_data_size (length bytes) ≡ false

  read_item-done :
      (n : ℕ) (item : Option (List ℕ)) (v : S)
      → is_file n ≡ true
      → contents v n ≡ item
      → Short item
      → (read_item st n wifi_data_size v).0 ≡ done item
  unfolding read_item read_data with_storage read_mode
  read_item-done n none v file at short =
      let found : (st.storage_read n (init v).1).0 ≡ read_answer none =
        works.reads n v file ∙ ap read_answer (laws.init_keeps v n ∙ at) in
      rw (is_file-listed n file, with_storage, works.opens v, found) refl
  read_item-done n (some bytes) v file at short =
      let found : (st.storage_read n (init v).1).0 ≡ read_answer (some bytes) =
        works.reads n v file ∙ ap read_answer (laws.init_keeps v n ∙ at) in
      rw (is_file-listed n file, with_storage, works.opens v, found, short) refl

  read_item-Keeps : (m n : ℕ) → Keeps st contents laws m (read_item st n wifi_data_size)
  unfolding read_item
  read_item-Keeps m n v = read_data-Keeps st contents laws m n wifi_data_size v

  check_status-done :
      (v : S)
      → contents v wifi_prov_status ≡ some status_done
      → (check_status st wifi_prov_status wifi_data_size v).0 ≡ done tt
  unfolding check_status ◌>>=◌ read_data with_storage read_mode after_prefix
  check_status-done v at =
      let found : (st.storage_read wifi_prov_status (init v).1).0 ≡ read_answer (some status_done) =
        works.reads wifi_prov_status v refl
        ∙ ap read_answer (laws.init_keeps v wifi_prov_status ∙ at) in
      rw (with_storage, works.opens v, found) refl

  get_array-done :
      (n len : ℕ) (array old : List ℕ) (v : S)
      → is_file n ≡ true
      → contents v n ≡ kept_array len array
      → length array ≡ len + 1
      → has_nul array ≡ true
      → ltb len wifi_data_size ≡ true
      → (new : List ℕ) × ((get_array st n len old v).0 ≡ done new) × (c_text new ≡ c_text array)
  unfolding get_array
  get_array-done n len array old v file at size nul small =
      let (new, read, text) = array_of-kept_array len array old size nul small in
      let got = read_item-done n (kept_array len array) v file at (short array size) in
      (
        new,
        rw (bind_done (read_item st n wifi_data_size) _ v (kept_array len array) got) read,
        text,
      )
    where
      short : (array : List ℕ) → length array ≡ len + 1 → Short (kept_array len array)
      short [] size = tt
      short (c ∷ cs) size = elim (Bool-cases (c == 0)) [
        | inl empty ↦ rw empty tt
        | inr filled ↦
            let taken : length (take len (c ∷ cs)) ≡ len = length-take len (c ∷ cs) (omega arith) in
            rw (filled, taken) (ground arith)
      ]

  get_array-Keeps : (m n len : ℕ) (old : List ℕ) → Keeps st contents laws m (get_array st n len old)
  unfolding get_array
  get_array-Keeps m n len old =
      bind-Keeps st contents laws m (read_item st n wifi_data_size) _ (read_item-Keeps m n)
        (λ item v. refl)

  Short-kept_auth : (auth : ℤ) → Short (kept_auth auth)
  Short-kept_auth (negsuc n) = tt
  Short-kept_auth (pos n) = elim (Bool-cases (is_auth_mode (pos n))) [
    | inr other ↦ rw other tt
    | inl mode ↦ let small : ltb n 10 ≡ true = ground arith in rw (mode, small) refl
  ]

  -- What was stored is read, whatever the structure held before.
  stored_is_read :
      (w old : WifiProvData) (v0 : S)
      → length w.ssid ≡ 33
      → has_nul w.ssid ≡ true
      → length w.password ≡ 65
      → has_nul w.password ≡ true
      → length (c_text w.mac_str) ≡ 17
      → convert_str_mac (some (c_text w.mac_str)) true ≡ (error_none, w.bssid)
      → IsStored st contents laws works w v0
      → (ssid : List ℕ) × (password : List ℕ) × ((get_wifi_items st old v0).0
          ≡ done (record {
            ssid = ssid;
            password = password;
            mac_str = c_text w.mac_str ++ 0 ∷ [];
            bssid = w.bssid;
            security_type = read_auth w.security_type;
          }))
        × (c_text ssid ≡ c_text w.ssid)
        × (c_text password ≡ c_text w.password)
  unfolding get_wifi_items
  stored_is_read w old v0 ssid_size ssid_nul pass_size pass_nul mac_size mac_ok
        (status, ssid, pass, mac, auth) =
      let (kept, converted) = mac_of-kept_array w.mac_str w.bssid mac_size mac_ok in
      let check = check_status st wifi_prov_status wifi_data_size in
      let v1 : S = (check v0).1 in
      let keep1 =
        λ (m : ℕ). check_status-Keeps st contents laws m wifi_prov_status wifi_data_size v0 in
      let (new_ssid, ok2, same_ssid) =
        get_array-done ap_ssid 32 w.ssid old.ssid v1 refl (keep1 ap_ssid ∙ ssid) ssid_size ssid_nul
          refl in
      let v2 : S = (get_array st ap_ssid 32 old.ssid v1).1 in
      let keep2 = λ (m : ℕ). get_array-Keeps m ap_ssid 32 old.ssid v1 ∙ keep1 m in
      let (new_pass, ok3, same_pass) =
        get_array-done ap_pass 64 w.password old.password v2 refl (keep2 ap_pass ∙ pass) pass_size
          pass_nul refl in
      let v3 : S = (get_array st ap_pass 64 old.password v2).1 in
      let keep3 = λ (m : ℕ). get_array-Keeps m ap_pass 64 old.password v2 ∙ keep2 m in
      let ok4 =
        read_item-done ap_bssid (some (c_text w.mac_str)) v3 refl (keep3 ap_bssid ∙ mac ∙ kept)
          (rw mac_size refl) in
      let v4 : S = (read_item st ap_bssid wifi_data_size v3).1 in
      let ok5 =
        read_item-done ap_auth_type (kept_auth w.security_type) v4 refl
          (read_item-Keeps ap_auth_type ap_bssid v3 ∙ keep3 ap_auth_type ∙ auth)
          (Short-kept_auth w.security_type) in
      let v5 : S = (read_item st ap_auth_type wifi_data_size v4).1 in
      (
        new_ssid,
        new_pass,
        rw
            (
              bind_done check _ v0 tt (check_status-done v0 status),
              bind_done (get_array st ap_ssid 32 old.ssid) _ v1 new_ssid ok2,
              bind_done (get_array st ap_pass 64 old.password) _ v2 new_pass ok3,
              bind_done (read_item st ap_bssid wifi_data_size) _ v3 (some (c_text w.mac_str)) ok4,
              bind_done (read_item st ap_auth_type wifi_data_size) _ v4 (kept_auth w.security_type)
                  ok5,
              bind_done (give (auth_of (kept_auth w.security_type))) _ v5
                  (read_auth w.security_type) (auth_of-kept_auth w.security_type),
              converted,
            )
            refl,
        same_ssid,
        same_pass,
      )

  -- On a storage that works, iot_nv_set_wifi_prov_data returns IOT_ERROR_NONE, and after it
  -- iot_nv_get_wifi_prov_data returns IOT_ERROR_NONE and reads the same network name, password, text of
  -- the address and bytes of the address, and the security type, or -1 for one that is none; if the
  -- three arrays have their lengths and hold texts with a NUL, and the text of the address has 17
  -- characters, from which iot_util_convert_str_mac reads its bytes.
  pub wifi_prov_round_trip :
      (w old : WifiProvData) (s : S)
      → length w.ssid ≡ 33
      → has_nul w.ssid ≡ true
      → length w.password ≡ 65
      → has_nul w.password ≡ true
      → length (c_text w.mac_str) ≡ 17
      → convert_str_mac (some (c_text w.mac_str)) true ≡ (error_none, w.bssid)
      → let (r, s') = set_wifi_prov_data st true w s in
        (r ≡ done tt)
        × (new : WifiProvData) × ((get_wifi_prov_data st true old s').0 ≡ some (error_none, new))
        × (c_text new.ssid ≡ c_text w.ssid)
        × (c_text new.password ≡ c_text w.password)
        × (c_text new.mac_str ≡ c_text w.mac_str)
        × (new.bssid ≡ w.bssid)
        × (new.security_type ≡ read_auth w.security_type)
  unfolding get_wifi_prov_data
  wifi_prov_round_trip w old s ssid_size ssid_nul pass_size pass_nul mac_size mac_ok =
      let v0 : S = (set_wifi_prov_data st true w s).1 in
      let (set, stored) = set_wifi-IsStored st contents laws works w s in
      let (ssid, password, got, same_ssid, same_pass) =
        stored_is_read w old v0 ssid_size ssid_nul pass_size pass_nul mac_size mac_ok stored in
      (set, _, ap or_cleared got, same_ssid, same_pass, c_text-put w.mac_str [], refl, refl)
