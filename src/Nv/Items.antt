-- ===== src/Nv/Items.antt =====
-- The device id and the other information (src/iot_nv_data.c): iot_nv_get_device_id,
-- iot_nv_get_misc_info and iot_nv_set_misc_info.
use st_device_sdk_c.Prelude.{
  ℕ, ◌≡◌, refl, ap, ◌∙◌, Bool, Bool-cases, inl, inr, true, false, ltb, ◌==◌, if◌then◌else◌, List,
  [], ◌∷◌, ◌≤◌, length, Option, some, arith,
}
use st_device_sdk_c.Errors.{nv_data_error}
use st_device_sdk_c.Nv.{
  Storage, Result, done, failed, fault, Act, ◌>>=◌, give, as_nv_error, with_storage, read_mode,
  read_data, put, device_id_key, set_device_id,
}
use st_device_sdk_c.Nv.Text.{c_text, has_nul, buffer, copied}
use st_device_sdk_c.Nv.TextLaws.{c_text-end, has_nul-end}
use st_device_sdk_c.Nv.Keeps.{IsStorage, storage_max}
use st_device_sdk_c.Security.Rules.{is_file}
use st_device_sdk_c.Nv.Stored.{Works, is_file-listed, read_answer, put-Stores}

-- IOT_NVD_MISC_INFO
abbrev pub misc_info_key : ℕ
misc_info_key = 11

-- DATA_SIZE of the two getters
abbrev pub device_id_size : ℕ
device_id_size = 129

abbrev pub misc_info_size : ℕ
misc_info_size = 2049

module _ (st : Storage) where
  open st use {S}

  -- The getters, with the memory of the buffer and of the copy.
  unfoldable pub get_text : ℕ → ℕ → Bool × Bool → Act S (List ℕ)
  get_text nv_id data_len (false, memory) = give (failed nv_data_error)
  get_text nv_id data_len (true, memory) = do
    bytes ← as_nv_error (read_data st nv_id data_len)
    give (copied memory (buffer data_len bytes))

  unfoldable pub get_device_id : Bool × Bool → Act S (List ℕ)
  get_device_id = get_text device_id_key device_id_size

  unfoldable pub get_misc_info : Bool × Bool → Act S (List ℕ)
  get_misc_info = get_text misc_info_key misc_info_size

  unfoldable pub set_misc_info : List ℕ → Act S (Unit {0})
  set_misc_info misc_info = put st misc_info_key misc_info

c_text_full : (xs : List ℕ) → has_nul xs ≡ false → c_text xs ≡ xs
c_text_full [] h = refl
c_text_full (c ∷ cs) h = elim (Bool-cases (c == 0)) [
  | inl nul ↦ ground (arith, nul, h)
  | inr other ↦
      let rest : has_nul cs ≡ false = ground (arith, other, h) in
      rw (other, c_text_full cs rest) refl
]

-- What is read of a text by the length of the buffer.
abbrev pub read_back : ℕ → List ℕ → Result (List ℕ)
read_back data_len text =
    if ltb (length text) data_len
    then done text
    else if ltb data_len (length text)
    then failed nv_data_error
    else fault

copied-buffer :
    (data_len : ℕ) (text : List ℕ)
    → has_nul text ≡ false
    → copied true (buffer data_len text) ≡ (if ltb (length text) data_len then done text else fault)
copied-buffer data_len text no_nul = elim (Bool-cases (ltb (length text) data_len)) [
  | inl room ↦ rw (room, has_nul-end text, c_text-end text, c_text_full text no_nul) refl
  | inr full ↦ rw (full, no_nul) refl
]

module _ (st : Storage) (contents : st.S → ℕ → Option (List ℕ)) (laws : IsStorage st contents)
    (works : Works st contents) where
  open st use {S, init}

  get_text-read_back :
      (n data_len : ℕ) (text : List ℕ) (s : S)
      → is_file n ≡ true
      → (data_len == 0) ≡ false
      → has_nul text ≡ false
      → contents s n ≡ some text
      → (get_text st n data_len (true, true) s).0 ≡ read_back data_len text
  unfolding get_text ◌>>=◌ read_data with_storage read_mode
  get_text-read_back n data_len text s file buffered no_nul at =
      let found : (st.storage_read n (init s).1).0 ≡ read_answer (some text) =
        works.reads n s file ∙ ap read_answer (laws.init_keeps s n ∙ at) in
      elim (Bool-cases (ltb data_len (length text))) [
        | inl long ↦
            let short : ltb (length text) data_len ≡ false = ground (arith, long) in
            rw (is_file-listed n file, buffered, with_storage, works.opens s, found, long, short)
              refl
        | inr fits ↦
            rw (is_file-listed n file, buffered, with_storage, works.opens s, found, fits)
              (copied-buffer data_len text no_nul)
      ]

  -- On a storage that works and with memory, a device id or an information of 1 to 2048
  -- characters is stored. The information is read back whole, and so is a device id of at most 128
  -- characters. A device id of 129 is read without a NUL behind it, so that strlen runs out of the
  -- buffer; a longer one cannot be read.
  pub item_read_back :
      (text : List ℕ) (s : S)
      → has_nul text ≡ false
      → (length text == 0) ≡ false
      → length text ≤ storage_max
      → (let (r, s') = set_device_id st text s in
          (r ≡ done tt)
          × ((get_device_id st (true, true) s').0 ≡ (
              if ltb (length text) 129
              then done text
              else if length text == 129
              then fault
              else failed nv_data_error)))
        × (let (r, s') = set_misc_info st text s in
            (r ≡ done tt) × ((get_misc_info st (true, true) s').0 ≡ done text))
  unfolding set_device_id set_misc_info get_device_id get_misc_info
  item_read_back text s no_nul filled fits =
      let (ok, at, kept) =
        put-Stores st contents laws works device_id_key text refl filled fits s in
      let (ok', at', kept') =
        put-Stores st contents laws works misc_info_key text refl filled fits s in
      (
        (
          ok,
          get_text-read_back device_id_key device_id_size text _ refl refl no_nul at
              ∙ by_length 129,
        ),
        (ok', get_text-read_back misc_info_key misc_info_size text _ refl refl no_nul at' ∙ whole),
      )
    where
      by_length :
          (size : ℕ)
          → read_back size text ≡ (
              if ltb (length text) size
              then done text
              else if length text == size
              then fault
              else failed nv_data_error)
      by_length size = ground arith

      whole : read_back 2049 text ≡ done text
      whole = ground (arith, fits)
