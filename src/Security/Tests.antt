-- ===== src/Security/Tests.antt =====
-- A board in memory and a POSIX system in memory, and the theorems on them.
use st_device_sdk_c.Prelude.{
  ℕ, ◌≡◌, ◌≢◌, inl, inr, refl, sym, ap, ◌∙◌, subst, Bool-cases, true, ◌==◌, if◌then◌else◌, List, [],
  take, Option, none, some, arith,
}
use st_device_sdk_c.Errors.{IotError, fs_no_file, error_none}
use st_device_sdk_c.Nv.Keeps.{IsStorage}
use st_device_sdk_c.Security.{Bsp}
use st_device_sdk_c.Security.Rules.{IsBsp, Replaces, first_bytes}
use st_device_sdk_c.Security.Storage.{software}
use st_device_sdk_c.Security.Refines.{contents, software-IsStorage}
use st_device_sdk_c.Security.Posix.{nv_get_data_path}
use st_device_sdk_c.Security.Names.{
  same_text, same_text_refl, same_text-eq, paths_differ, paths_fit,
}

abbrev pub Files : Type 0
Files = List ℕ → Option (List ℕ)

abbrev pub put_file : List ℕ → Option (List ℕ) → Files → Files
put_file name bytes files other = if same_text name other then bytes else files other

pub put_file-same :
    (name : List ℕ) (bytes : Option (List ℕ)) (files : Files)
    → put_file name bytes files name ≡ bytes
put_file-same name bytes files = rw (same_text_refl name) refl

pub put_file-other :
    (name other : List ℕ) (bytes : Option (List ℕ)) (files : Files)
    → name ≢ other
    → put_file name bytes files other ≡ files other
put_file-other name other bytes files differ = elim (Bool-cases (same_text name other)) [
  | inl same ↦ absurd (differ (same_text-eq name other same))
  | inr other_ ↦ rw other_ refl
]

abbrev read_file : ℕ → Option (List ℕ) → IotError × List ℕ
read_file len none = (fs_no_file, [])
read_file len (some bytes) = (error_none, take len bytes)

-- A handle is the name of its file.
abbrev pub ram_board : Bsp
ram_board = record {
  F = Files;
  H = List ℕ;
  memory = λ f. (true, f);
  fs_open = λ name mode f. ((error_none, name), f);
  fs_read = λ h len f. (read_file len (f h), f);
  fs_write = λ h bytes f. (error_none, put_file h (some bytes) f);
  fs_close = λ h f. (error_none, f);
  fs_remove = λ name f. (error_none, put_file name none f);
  data_path = nv_get_data_path;
  extra_path = none;
  device_info = none;
}

abbrev pub in_board : Files → List ℕ → Option (List ℕ)
in_board f name = f name

abbrev pub RamOpened : Files → List ℕ → List ℕ → Type 0
RamOpened f h name = h ≡ name

abbrev pub no_info : ℕ → Option (List ℕ)
no_info n = none

read_file-gives :
    (len : ℕ) (bytes : Option (List ℕ))
    → ((read_file len bytes).0 == 0) ≡ true
    → first_bytes len bytes ≡ some (read_file len bytes).1
read_file-gives len none ok = ground (arith, ok)
read_file-gives len (some bytes) ok = refl

pub ram-IsBsp : IsBsp ram_board in_board RamOpened no_info
ram-IsBsp = record {
  memory_keeps = λ f name. refl;
  memory_Opened = λ f h name at. at;
  open_Opened = λ name mode f ok. refl;
  read_open_keeps = λ name other f. refl;
  write_open = λ name f. inl refl;
  write_open_keeps = λ name other f differ. refl;
  read_keeps = λ h len f other. refl;
  read_gives = λ h len f name at ok.
      ap (λ (k : List ℕ). first_bytes len (f k)) (sym at) ∙ read_file-gives len (f h) ok;
  write_keeps = λ h bytes f name other at differ.
      put_file-other h other (some bytes) f (λ e. differ (sym at ∙ e));
  close_keeps = λ h f other. refl;
  remove_keeps = λ name other f differ. put_file-other name other none f differ;
  info_keeps = λ callback n f other e. ground (arith, e);
  info_gives = λ callback n f e ok. ground (arith, e);
  paths_differ = paths_differ;
  paths_fit = λ n name e. omega (arith, paths_fit n name e);
}

pub ram-Replaces : Replaces ram_board in_board RamOpened
ram-Replaces = record {
  write_stores = λ h bytes f name at ok.
      subst (λ (k : List ℕ). put_file h (some bytes) f k ≡ some bytes) at
        (put_file-same h (some bytes) f);
  write_fails = λ h bytes f name at bad. ground (arith, bad);
}

software-IsStorage_example :
    IsStorage (software ram_board) (contents ram_board in_board RamOpened no_info ram-IsBsp)
software-IsStorage_example =
    software-IsStorage ram_board in_board RamOpened no_info ram-IsBsp ram-Replaces
