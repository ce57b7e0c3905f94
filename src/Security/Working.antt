-- ===== src/Security/Working.antt =====
-- The secure storage on a board in memory works, so that what src/iot_nv_data.c stores is read back.
use st_device_sdk_c.Prelude.{
  ℕ, zero, suc, ◌+◌, ◌-◌, ◌≡◌, ap, refl, Option-cases, inl, inr, true, false, ltb, ◌==◌, List,
  length, take, Option, none, some, arith,
}
use st_device_sdk_c.Errors.{IotError, error_none, security_fs_not_found}
use st_device_sdk_c.Nv.{Storage, Result, done, failed, ◌>>=◌}
use st_device_sdk_c.Nv.Keeps.{IsStorage, storage_max}
use st_device_sdk_c.Nv.{set_device_id}
use st_device_sdk_c.Nv.Wifi.{WifiProvData, no_wifi_prov, set_wifi_prov_data, get_wifi_prov_data}
use st_device_sdk_c.Nv.RoundTrip.{wifi_prov_round_trip}
use st_device_sdk_c.Nv.Items.{set_misc_info, get_device_id, get_misc_info, item_read_back}
use st_device_sdk_c.Nv.Text.{c_text}
use st_device_sdk_c.Nv.Tests.{home, home_mac}
use st_device_sdk_c.Prelude.Int.{pos}
use st_device_sdk_c.Prelude.Texts.{codes}
use st_device_sdk_c.Nv.Stored.{is_file-listed, Works, read_answer}
use st_device_sdk_c.Security.{nvd_factory, filename_max}
use st_device_sdk_c.Security.Rules.{is_file, first_bytes}
use st_device_sdk_c.Security.Backend.{
  storage_id2filename, code_of, bytes_of, fs_load, load_from_nv, load_file, load_open, load_buffer,
  load_sized, fs_store, store_to_nv, store_file, store_open, remove_item, remove_from_nv,
}
use st_device_sdk_c.Security.Storage.{
  System, software, security_init, storage_init, storage_read, storage_write, storage_remove,
  set_storage_id, context_id,
}
use st_device_sdk_c.Security.Refines.{contents, software-IsStorage}
use st_device_sdk_c.Security.Posix.{nv_get_data_path}
use st_device_sdk_c.Security.Tests.{
  Files, put_file, ram_board, in_board, RamOpened, no_info, ram-IsBsp, ram-Replaces, put_file-same,
}

abbrev in_software : System ram_board → ℕ → Option (List ℕ)
in_software = contents ram_board in_board RamOpened no_info ram-IsBsp

Named : ℕ → Type 0
Named n =
    (name : List ℕ) × (nv_get_data_path n ≡ some name)
    × (ltb filename_max (length name + 0) ≡ false)
    × (take (filename_max - 0 - 1) name ≡ name)

name_of : (n : ℕ) → is_file n ≡ true → Named n
unfolding Named
name_of zero file = ground (arith, file)
name_of (suc zero) file = (_, refl, refl, refl)
name_of (suc (suc zero)) file = (_, refl, refl, refl)
name_of (suc (suc (suc zero))) file = (_, refl, refl, refl)
name_of (suc (suc (suc (suc zero)))) file = (_, refl, refl, refl)
name_of (suc (suc (suc (suc (suc zero))))) file = (_, refl, refl, refl)
name_of (suc (suc (suc (suc (suc (suc zero)))))) file = (_, refl, refl, refl)
name_of (suc (suc (suc (suc (suc (suc (suc zero))))))) file = (_, refl, refl, refl)
name_of (suc (suc (suc (suc (suc (suc (suc (suc zero)))))))) file = (_, refl, refl, refl)
name_of (suc (suc (suc (suc (suc (suc (suc (suc (suc zero))))))))) file = (_, refl, refl, refl)
name_of (suc (suc (suc (suc (suc (suc (suc (suc (suc (suc zero)))))))))) file =
    (_, refl, refl, refl)
name_of (suc (suc (suc (suc (suc (suc (suc (suc (suc (suc (suc zero))))))))))) file =
    (_, refl, refl, refl)
name_of (suc (suc (suc (suc (suc (suc (suc (suc (suc (suc (suc (suc n)))))))))))) file =
    ground (arith, file)

not_zero : (n : ℕ) → is_file n ≡ true → (n == 0) ≡ false
not_zero n file = ground (arith, file)

below_factory : (n : ℕ) → is_file n ≡ true → ltb n nvd_factory ≡ true
below_factory n file = ground (arith, file)

abbrev storage : Storage
storage = software ram_board

-- The context after the call for a number.
abbrev on : ℕ → System ram_board → System ram_board
on n s = record s { context = some (record { storage_params = some n; sub_storage = true }) }

set_id-on :
    (n : ℕ) (s : System ram_board)
    → is_file n ≡ true
    → set_storage_id ram_board n (storage.init s).1 ≡ (done tt, on n s)
unfolding security_init storage_init set_storage_id
set_id-on n s file = rw (not_zero n file, is_file-listed n file) refl

abbrev load_answer : Option (List ℕ) → Result (List ℕ)
load_answer none = failed security_fs_not_found
load_answer (some bytes) = done (take storage_max bytes)

fs_load-file :
    (n : ℕ) (f : Files) (name : List ℕ)
    → is_file n ≡ true
    → storage_id2filename ram_board n filename_max ≡ done name
    → fs_load ram_board n f ≡ (load_answer (f name), f)
unfolding fs_load load_from_nv load_file load_open load_buffer load_sized
fs_load-file n f name file named = elim (Option-cases (f name)) [
  | inl missing ↦
      rw
        (
          fs_load,
          not_zero n file,
          below_factory n file,
          load_from_nv,
          named,
          below_factory n file,
          missing,
        )
        refl
  | inr (bytes, there) ↦
      rw
        (
          fs_load,
          not_zero n file,
          below_factory n file,
          load_from_nv,
          named,
          below_factory n file,
          there,
        )
        refl
]

file_name :
    (n : ℕ)
    → is_file n ≡ true
    → (name : List ℕ) × (storage_id2filename ram_board n filename_max ≡ done name)
unfolding Named
file_name n file =
    let (name, path, fits, whole) = name_of n file in
    (name, rw (storage_id2filename, path, fits, whole) refl)

answer-stored :
    (item : Option (List ℕ))
    → ◌≡◌ {A = IotError × List ℕ}
        (code_of (load_answer item), bytes_of (load_answer item))
        (read_answer (first_bytes storage_max item))
answer-stored none = refl
answer-stored (some bytes) = refl

software_reads :
    (n : ℕ) (s : System ram_board)
    → is_file n ≡ true
    → (storage.storage_read n (storage.init s).1).0 ≡ read_answer (in_software (storage.init s).1 n)
unfolding storage_read context_id ◌>>=◌ security_init storage_init
software_reads n s file =
    let (name, named) = file_name n file in
    rw
      (
        set_id-on n s file,
        fs_load-file n s.board name file named,
        not_zero n file,
        below_factory n file,
        named,
      )
      (answer-stored (s.board name))

fs_store-file :
    (n : ℕ) (bytes : List ℕ) (f : Files) (name : List ℕ)
    → is_file n ≡ true
    → (length bytes == 0) ≡ false
    → storage_id2filename ram_board n filename_max ≡ done name
    → fs_store ram_board n bytes f ≡ (done tt, put_file name (some bytes) f)
unfolding fs_store store_to_nv store_file store_open
fs_store-file n bytes f name file filled named =
    rw (filled, not_zero n file, below_factory n file, store_to_nv, named) refl

software_writes :
    (n : ℕ) (bytes : List ℕ) (s : System ram_board)
    → is_file n ≡ true
    → (length bytes == 0) ≡ false
    → ((storage.storage_write n bytes (storage.init s).1).0 == 0) ≡ true
unfolding storage_write context_id ◌>>=◌
software_writes n bytes s file filled =
    let (name, named) = file_name n file in
    let stores : fs_store ram_board n bytes s.board
        ≡ (done tt, put_file name (some bytes) s.board) =
      fs_store-file n bytes s.board name file filled named in
    rw (set_id-on n s file, filled, stores) refl

removed :
    (n : ℕ) (f : Files) (name : List ℕ)
    → is_file n ≡ true
    → storage_id2filename ram_board n filename_max ≡ done name
    → remove_item ram_board n f ≡ (done tt, put_file name none f)
unfolding remove_item remove_from_nv
removed n f name file named =
    rw (remove_item, not_zero n file, below_factory n file, remove_from_nv, named) refl

software_removes :
    (n : ℕ) (s : System ram_board)
    → is_file n ≡ true
    → in_software (storage.storage_remove n (storage.init s).1).1 n ≡ none
unfolding storage_remove context_id ◌>>=◌
software_removes n s file =
    let (name, named) = file_name n file in
    let removes : remove_item ram_board n s.board ≡ (done tt, put_file name none s.board) =
      removed n s.board name file named in
    rw (set_id-on n s file, removes, not_zero n file, below_factory n file, named)
      (ap (first_bytes storage_max) (put_file-same name none s.board))

software_opens : (s : System ram_board) → (storage.init s).0 ≡ true
unfolding security_init storage_init
software_opens s = refl

software-Works : Works storage in_software
software-Works = record {
  opens = software_opens;
  reads = software_reads;
  writes = λ n bytes s file filled fits. software_writes n bytes s file filled;
  removes = software_removes;
}

abbrev storage-IsStorage : IsStorage storage in_software
storage-IsStorage = software-IsStorage ram_board in_board RamOpened no_info ram-IsBsp ram-Replaces

-- Nothing is stored.
abbrev blank : System ram_board
blank = record { board = λ name. none; context = none }

wifi_prov_round_trip_example :
    let (r, s') = set_wifi_prov_data storage true home blank in
    (r ≡ done tt)
    × (new : WifiProvData) × ((get_wifi_prov_data storage true no_wifi_prov s').0
        ≡ some (error_none, new))
    × (c_text new.ssid ≡ c_text home.ssid)
    × (c_text new.password ≡ c_text home.password)
    × (c_text new.mac_str ≡ c_text home.mac_str)
    × (new.bssid ≡ home.bssid)
    × (new.security_type ≡ pos 3)
wifi_prov_round_trip_example =
    wifi_prov_round_trip storage in_software storage-IsStorage software-Works home no_wifi_prov
      blank refl refl refl refl refl home_mac

item_read_back_example :
    (let (r, s') = set_device_id storage (codes "0123") blank in
      (r ≡ done tt) × ((get_device_id storage (true, true) s').0 ≡ done (codes "0123")))
    × (let (r, s') = set_misc_info storage (codes "0123") blank in
        (r ≡ done tt) × ((get_misc_info storage (true, true) s').0 ≡ done (codes "0123")))
item_read_back_example =
    item_read_back storage in_software storage-IsStorage software-Works (codes "0123") blank refl
      refl (omega arith)
