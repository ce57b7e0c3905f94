-- ===== src/Security/PosixTests.antt =====
-- A POSIX system in memory: "443" is stored over "8883".
use st_device_sdk_c.Prelude.{
  ℕ, ◌≡◌, ◌⊎◌, inl, inr, refl, sym, ap, ◌∙◌, subst, Bool, true, false, not, List, [], ◌++◌, length,
  take, drop, Option, none, some, arith,
}
use st_device_sdk_c.Prelude.Options.{is_none}
use st_device_sdk_c.Prelude.Texts.{codes}
use st_device_sdk_c.Nv.{◌>>=◌}
use st_device_sdk_c.Security.{Bsp}
use st_device_sdk_c.Security.Rules.{first_bytes}
use st_device_sdk_c.Security.Backend.{
  bytes_of, load_sized, load_buffer, load_open, load_file, load_from_nv, fs_load, store_open,
  store_file, store_to_nv, fs_store,
}
use st_device_sdk_c.Security.Storage.{
  System, storage_read, storage_write, set_storage_id, context_id,
}
use st_device_sdk_c.Security.Posix.{
  Posix, posix_board, nv_get_data_path, fs_open, fs_read, fs_write, fs_close,
}
use st_device_sdk_c.Security.PosixRules.{IsPosix, IsInfo}
use st_device_sdk_c.Security.PosixOverwrite.{posix_overwrites}
use st_device_sdk_c.Security.Tests.{Files, put_file, put_file-same, put_file-other, no_info}

-- The files, and the name of the one that is open.
record Disk : Type 0 where
  files : Files
  current : List ℕ

abbrev old_bytes : Option (List ℕ) → List ℕ
old_bytes none = []
old_bytes (some bytes) = bytes

abbrev disk_open : List ℕ → Bool → Option (List ℕ) → Disk → Option ℕ × Disk
disk_open name true item d =
    (some 3, record { files = put_file name (some (old_bytes item)) d.files; current = name })
disk_open name false none d = (none, d)
disk_open name false (some bytes) d = (some 3, record d { current = name })

abbrev disk : Posix
disk = record {
  D = Disk;
  malloc = λ d. (true, d);
  access = λ name d. not (is_none (d.files name));
  open_ = λ name mode d. disk_open name mode (d.files name) d;
  read = λ fd len d. (some (take len (old_bytes (d.files d.current))), d);
  write = λ fd bytes d. (
    some (length bytes),
    record d {
      files =
          put_file d.current
            (some
              (take (length bytes) bytes ++ drop (length bytes) (old_bytes (d.files d.current))))
            d.files;
    },
  );
  close = λ fd d. (true, d);
  remove = λ name d. ((true, false), record d { files = put_file name none d.files });
}

abbrev on_disk : Disk → List ℕ → Option (List ℕ)
on_disk d name = d.files name

-- The open file is there, and is the one of the name.
abbrev DiskAt : Disk → ℕ → List ℕ → Type 0
DiskAt d fd name = (d.current ≡ name) × ((bytes : List ℕ) × (d.files name ≡ some bytes))

disk_open-DiskAt :
    (name : List ℕ) (mode : Bool) (item : Option (List ℕ)) (d : Disk) (fd : ℕ)
    → d.files name ≡ item
    → (disk_open name mode item d).0 ≡ some fd
    → DiskAt (disk_open name mode item d).1 fd name
disk_open-DiskAt name true item d fd is e =
    (refl, (old_bytes item, put_file-same name (some (old_bytes item)) d.files))
disk_open-DiskAt name false none d fd is e = ground (arith, e)
disk_open-DiskAt name false (some bytes) d fd is e = (refl, (bytes, is))

disk_open_keeps :
    (name other : List ℕ) (item : Option (List ℕ)) (d : Disk)
    → on_disk (disk_open name false item d).1 other ≡ on_disk d other
disk_open_keeps name other none d = refl
disk_open_keeps name other (some bytes) d = refl

disk_open_makes :
    (name : List ℕ) (item : Option (List ℕ)) (d : Disk)
    → d.files name ≡ item
    → let new = on_disk (disk_open name true item d).1 name in
      (new ≡ on_disk d name) ⊎ ((on_disk d name ≡ none) × (new ≡ some []))
disk_open_makes name none d is = inr (is, put_file-same name (some []) d.files)
disk_open_makes name (some bytes) d is = inl (put_file-same name (some bytes) d.files ∙ sym is)

disk_read_gives :
    (len : ℕ) (d : Disk) (name bytes : List ℕ)
    → DiskAt d 3 name
    → some (take len (old_bytes (d.files d.current))) ≡ some bytes
    → first_bytes len (on_disk d name) ≡ some bytes
disk_read_gives len d name bytes (here, (old, there)) got =
    ap (first_bytes len) there
    ∙ ap (λ (item : Option (List ℕ)). some (take len (old_bytes item)))
        (sym there ∙ ap d.files (sym here))
    ∙ got

disk_write_over :
    (bytes : List ℕ) (d : Disk) (name old : List ℕ) (size : ℕ)
    → d.current ≡ name
    → on_disk d name ≡ some old
    → some (length bytes) ≡ some size
    → on_disk (disk.write 3 bytes d).1 name ≡ some (take size bytes ++ drop size old)
disk_write_over bytes d name old size here there wrote =
    let is : length bytes ≡ size = ground (arith, wrote) in
    subst
      (λ (k : List ℕ). on_disk (disk.write 3 bytes d).1 k ≡ some (take size bytes ++ drop size old))
      here
      (put_file-same d.current _ d.files
        ∙ ap
            (λ (item : Option (List ℕ)).
              some (take (length bytes) bytes ++ drop (length bytes) (old_bytes item)))
            (ap d.files here ∙ there)
        ∙ ap (λ (k : ℕ). some (take k bytes ++ drop k old)) is)

disk-IsPosix : IsPosix disk on_disk DiskAt
disk-IsPosix = record {
  malloc_keeps = λ d name. refl;
  malloc_At = λ d fd name at. at;
  open_At = λ name mode d fd e. disk_open-DiskAt name mode (d.files name) d fd refl e;
  open_read_keeps = λ name other d. disk_open_keeps name other (d.files name) d;
  open_write_keeps = λ name other d differ. put_file-other name other _ d.files differ;
  open_makes = λ name d. disk_open_makes name (d.files name) d refl;
  read_keeps = λ fd len d other. refl;
  read_gives = λ fd len d name bytes at got. disk_read_gives len d name bytes at got;
  write_keeps = λ fd bytes d name other at differ.
      put_file-other d.current other _ d.files (λ e. differ (sym at.0 ∙ e));
  write_over = λ fd bytes d name old size at there wrote.
      disk_write_over bytes d name old size at.0 there wrote;
  close_keeps = λ fd d other. refl;
  remove_keeps = λ name other d differ. put_file-other name other none d.files differ;
}

disk-IsInfo : IsInfo disk on_disk none no_info
disk-IsInfo = record {
  info_keeps = λ callback n d other e. ground (arith, e);
  info_gives = λ callback n d e ok. ground (arith, e);
}

abbrev disk_board : Bsp
disk_board = posix_board disk nv_get_data_path none

-- The port "8883" is stored.
abbrev with_port : System disk_board
with_port = record {
  board = record {
    files = put_file (codes "./ServerPort") (some (codes "8883")) (λ name. none);
    current = [];
  };
  context = some (record { storage_params = some 0; sub_storage = true });
}

-- The port is 4433 after "443" was stored.
posix_overwrites_example :
    bytes_of (storage_read disk_board 8 (storage_write disk_board 8 (codes "443") with_port).1).0
    ≡ codes "4433"
unfolding storage_read storage_write set_storage_id context_id ◌>>=◌ fs_store store_to_nv store_file
    store_open fs_open fs_write fs_close fs_load load_from_nv load_file load_open load_buffer
    load_sized fs_read
posix_overwrites_example =
    posix_overwrites disk on_disk DiskAt disk-IsPosix none no_info disk-IsInfo 8
      (codes "ServerPort") (codes "443") (codes "8883") with_port refl refl refl refl refl
