-- ===== src/Nv/Tests.antt =====
-- A storage in memory, which stops writing after a number of writes, and the theorems on it.
use st_device_sdk_c.Prelude.{
  ℕ, zero, suc, ◌≡◌, refl, ◌⊎◌, inl, true, false, ◌==◌, if◌then◌else◌, List, [], ◌∷◌, ◌++◌,
  replicate, Option, none, some, arith,
}
use st_device_sdk_c.Prelude.Int.{pos}
use st_device_sdk_c.Prelude.Texts.{codes}
use st_device_sdk_c.Errors.{IotError, nv_data_error, error_none}
use st_device_sdk_c.Nv.{
  Storage, done, failed, prov_data_exist, status_done, wifi_prov_status, cloud_prov_status,
}
use st_device_sdk_c.Nv.Wifi.{
  WifiProvData, no_wifi_prov, set_wifi_items, set_wifi_prov_data, get_wifi_prov_data,
}
use st_device_sdk_c.Nv.Cloud.{
  CloudProvData, set_cloud_items, set_cloud_prov_data, get_cloud_prov_data,
}
use st_device_sdk_c.Nv.Keeps.{IsStorage}
use st_device_sdk_c.Nv.Commit.{Written}
use st_device_sdk_c.Nv.Interrupt.{set_prov_interrupted}
use st_device_sdk_c.Nv.Stored.{read_answer}
use st_device_sdk_c.Nv.Text.{c_text}
use st_device_sdk_c.Util.Mac.{convert_str_mac}
use st_device_sdk_c.Util.Hex.{put_digit}

record Flash : Type 0 where
  items : ℕ → Option (List ℕ)
  writes_left : ℕ

abbrev put_item : ℕ → Option (List ℕ) → (ℕ → Option (List ℕ)) → ℕ → Option (List ℕ)
put_item n item items m = if n == m then item else items m

abbrev write_flash : ℕ → List ℕ → ℕ → (ℕ → Option (List ℕ)) → IotError × Flash
write_flash n bytes zero items = (1, record { items = items; writes_left = 0 })
write_flash n bytes (suc left) items =
    (0, record { items = put_item n (some bytes) items; writes_left = left })

abbrev flash : Storage
flash = record {
  S = Flash;
  init = λ s. (true, s);
  deinit = λ s. s;
  storage_read = λ n s. (read_answer (s.items n), s);
  storage_write = λ n bytes s. write_flash n bytes s.writes_left s.items;
  storage_remove = λ n s. (0, record s { items = put_item n none s.items });
}

abbrev in_flash : Flash → ℕ → Option (List ℕ)
in_flash s n = s.items n

read_answer-gives :
    (item : Option (List ℕ)) → ((read_answer item).0 == 0) ≡ true → item ≡ some (read_answer item).1
read_answer-gives none h = ground (arith, h)
read_answer-gives (some bytes) h = refl

write_flash-other :
    (n m left : ℕ) (bytes : List ℕ) (items : ℕ → Option (List ℕ))
    → (n == m) ≡ false
    → (write_flash n bytes left items).1.items m ≡ items m
write_flash-other n m zero bytes items other = refl
write_flash-other n m (suc left) bytes items other = rw other refl

write_flash-stored :
    (n left : ℕ) (bytes : List ℕ) (items : ℕ → Option (List ℕ))
    → ((write_flash n bytes left items).0 == 0) ≡ true
    → (write_flash n bytes left items).1.items n ≡ some bytes
write_flash-stored n zero bytes items h = ground (arith, h)
write_flash-stored n (suc left) bytes items h =
    let same : (n == n) ≡ true = ground arith in rw same refl

write_flash-failed :
    (n left : ℕ) (bytes : List ℕ) (items : ℕ → Option (List ℕ))
    → ((write_flash n bytes left items).0 == 0) ≡ false
    → (write_flash n bytes left items).1.items n ≡ items n
write_flash-failed n zero bytes items h = refl
write_flash-failed n (suc left) bytes items h = ground (arith, h)

flash-IsStorage : IsStorage flash in_flash
flash-IsStorage = record {
  init_keeps = λ s m. refl;
  deinit_keeps = λ s m. refl;
  read_keeps = λ n s m. refl;
  read_gives = λ n s h. read_answer-gives (s.items n) h;
  write_keeps = λ n bytes s m other. write_flash-other n m s.writes_left bytes s.items other;
  write_stores = λ n bytes s fits h. write_flash-stored n s.writes_left bytes s.items h;
  write_fails = λ n bytes s h. inl (write_flash-failed n s.writes_left bytes s.items h);
  remove_keeps = λ n s m other. rw other refl;
}

abbrev pub home : WifiProvData
home = record {
  ssid = codes "home" ++ replicate 29 0;
  password = codes "secret" ++ replicate 59 0;
  mac_str = codes "a1:b2:c3:d4:e5:f6" ++ 0 ∷ [];
  bssid = 161 ∷ 178 ∷ 195 ∷ 212 ∷ 229 ∷ 246 ∷ [];
  security_type = pos 3;
}

abbrev broker : CloudProvData
broker = record {
  broker_url = some (codes "mqtt.example.com");
  broker_port = pos 8883;
  label = none;
}

-- Empty, with room for three writes.
abbrev small : Flash
small = record { items = λ n. none; writes_left = 3 }

set_prov_interrupted_example :
    (let (r, s') = set_wifi_prov_data flash true home small in
      ((r ≡ done tt) × (in_flash s' wifi_prov_status ≡ some status_done))
      ⊎ ((r ≡ failed nv_data_error)
          × (((m : ℕ) → in_flash s' m ≡ in_flash small m)
              ⊎ ((((prov_data_exist flash s').0 ≡ false)
                    × ((get_wifi_prov_data flash true no_wifi_prov s').0
                        ≡ some (nv_data_error, no_wifi_prov)))
                  ⊎ ((in_flash s' wifi_prov_status ≡ some status_done)
                      × Written flash in_flash flash-IsStorage wifi_prov_status
                          (set_wifi_items flash home)
                          small)))))
    × (let (r, s') = set_cloud_prov_data flash true broker small in
        ((r ≡ done tt) × (in_flash s' cloud_prov_status ≡ some status_done))
        ⊎ ((r ≡ failed nv_data_error)
            × (((m : ℕ) → in_flash s' m ≡ in_flash small m)
                ⊎ ((((prov_data_exist flash s').0 ≡ false)
                      × ((get_cloud_prov_data flash true (true, true) s').0 ≡ failed nv_data_error))
                    ⊎ ((in_flash s' cloud_prov_status ≡ some status_done)
                        × Written flash in_flash flash-IsStorage cloud_prov_status
                            (set_cloud_items flash broker)
                            small)))))
set_prov_interrupted_example =
    set_prov_interrupted flash in_flash flash-IsStorage true (true, true) home no_wifi_prov broker
      small

pub home_mac : convert_str_mac (some (c_text home.mac_str)) true ≡ (error_none, home.bssid)
unfolding convert_str_mac put_digit
home_mac = refl
