-- ===== src/Nv/TextLaws.antt =====
-- Lemmas on texts in arrays of characters (src/iot_nv_data.c).
use st_device_sdk_c.Prelude.{
  ℕ, zero, suc, ◌+◌, ◌≤◌, ◌<◌, ◌≡◌, refl, ap, ◌∙◌, inl, inr, Bool-cases, true, false, ltb, ◌==◌,
  if◌then◌else◌, List, [], ◌∷◌, ◌++◌, length, take, subst, get_or, Option, none, some, arith,
}
use st_device_sdk_c.Prelude.Int.{ℤ, pos, negsuc}
use st_device_sdk_c.Errors.{error_none}
use st_device_sdk_c.Util.Mac.{convert_str_mac}
use st_device_sdk_c.Nv.{done}
use st_device_sdk_c.Nv.Text.{c_text, has_nul, put_text, print_int}
use st_device_sdk_c.Nv.Wifi.{put_cut, mac_of, array_of, auth_of, is_auth_mode, wifi_data_size}

-- A text with its NUL, read up to that.
pub c_text-put : (xs rest : List ℕ) → c_text (c_text xs ++ 0 ∷ rest) ≡ c_text xs
c_text-put [] rest = refl
c_text-put (c ∷ cs) rest = elim (Bool-cases (c == 0)) [
  | inl nul ↦ rw nul refl
  | inr other ↦ rw (other, other, c_text-put cs rest) refl
]

pub c_text-end : (xs : List ℕ) → c_text (xs ++ 0 ∷ []) ≡ c_text xs
c_text-end [] = refl
c_text-end (c ∷ cs) = rw (c_text-end cs) refl

pub has_nul-end : (xs : List ℕ) → has_nul (xs ++ 0 ∷ []) ≡ true
has_nul-end [] = refl
has_nul-end (c ∷ cs) = ground (arith, has_nul-end cs)

pub c_text-take : (n : ℕ) (xs : List ℕ) → c_text (take n xs) ≡ take n (c_text xs)
c_text-take zero xs = refl
c_text-take (suc n) [] = refl
c_text-take (suc n) (c ∷ cs) = elim (Bool-cases (c == 0)) [
  | inl nul ↦ rw nul refl
  | inr other ↦ rw (other, c_text-take n cs) refl
]

pub length-c_text : (xs : List ℕ) → has_nul xs ≡ true → length (c_text xs) < length xs
length-c_text [] h = ground (arith, h)
length-c_text (c ∷ cs) h = ground (arith, length-c_text cs)

pub take_all : (n : ℕ) (xs : List ℕ) → length xs ≤ n → take n xs ≡ xs
take_all zero [] h = refl
take_all zero (x ∷ xs) h = absurd (omega arith)
take_all (suc n) [] h = refl
take_all (suc n) (x ∷ xs) h = ap (λ (l : List ℕ). x ∷ l) (take_all n xs (omega arith))

pub take-c_text : (xs : List ℕ) → take (length (c_text xs)) xs ≡ c_text xs
take-c_text [] = refl
take-c_text (c ∷ cs) = elim (Bool-cases (c == 0)) [
  | inl nul ↦ rw nul refl
  | inr other ↦ rw (other, take-c_text cs) refl
]

-- What is stored of an array: nothing for an empty text, else its first `len` characters.
abbrev pub kept_array : ℕ → List ℕ → Option (List ℕ)
kept_array len array = if get_or array 0 0 == 0 then none else some (take len array)

pub length-take : (n : ℕ) (xs : List ℕ) → n ≤ length xs → length (take n xs) ≡ n
length-take zero xs h = refl
length-take (suc n) [] h = absurd (omega arith)
length-take (suc n) (x ∷ xs) h = ap suc (length-take n xs (omega arith))

-- A text that fits an array keeps its characters there.
c_text-put_cut :
    (len : ℕ) (xs old : List ℕ)
    → length (c_text xs) ≤ len
    → c_text (put_cut len (c_text xs) old) ≡ c_text xs
c_text-put_cut len xs old fits = elim (Bool-cases (ltb (length (c_text xs)) len)) [
  | inl shorter ↦ rw shorter (c_text-put xs _)
  | inr full ↦ rw (full, take_all len (c_text xs) fits) (c_text-put xs _)
]

-- The array that is read from what was stored holds the same text.
pub array_of-kept_array :
    (len : ℕ) (array old : List ℕ)
    → length array ≡ len + 1
    → has_nul array ≡ true
    → ltb len wifi_data_size ≡ true
    → (new : List ℕ) × (array_of len (kept_array len array) old ≡ done new)
      × (c_text new ≡ c_text array)
array_of-kept_array len [] old size nul small = ground (arith, nul)
array_of-kept_array len (c ∷ cs) old size nul small = elim (Bool-cases (c == 0)) [
  | inl empty ↦ rw empty (put_text [] old, refl, refl)
  | inr filled ↦
      let array : List ℕ = c ∷ cs in
      let bytes : List ℕ = take len array in
      let room : ltb (length bytes) wifi_data_size ≡ true =
        ap (λ (n : ℕ). ltb n wifi_data_size) (length-take len array (omega arith)) ∙ small in
      let short : length (c_text array) ≤ len = ground (arith, length-c_text array nul) in
      let same : c_text (bytes ++ 0 ∷ []) ≡ c_text array =
        c_text-end bytes ∙ c_text-take len array ∙ take_all len (c_text array) short in
      subst
        (λ (item : Option (List ℕ)).
          (new : List ℕ) × (array_of len item old ≡ done new) × (c_text new ≡ c_text array))
        (kept filled)
        (
          put_cut len (c_text array) old,
          array_of_some len bytes array old room same,
          c_text-put_cut len array old short,
        )
]
  where
    kept : (c == 0) ≡ false → some (take len (c ∷ cs)) ≡ kept_array len (c ∷ cs)
    kept filled = rw filled refl

    array_of_some :
        (len : ℕ) (bytes array old : List ℕ)
        → ltb (length bytes) wifi_data_size ≡ true
        → c_text (bytes ++ 0 ∷ []) ≡ c_text array
        → array_of len (some bytes) old ≡ done (put_cut len (c_text array) old)
    array_of_some len bytes array old room same = rw (room, has_nul-end bytes, same) refl

-- The mode that is read from what was stored of one; -1 where nothing was.
abbrev pub kept_auth : ℤ → Option (List ℕ)
kept_auth auth = if is_auth_mode auth then some (print_int auth) else none

abbrev pub read_auth : ℤ → ℤ
read_auth auth = if is_auth_mode auth then auth else negsuc 0

pub auth_of-kept_auth : (auth : ℤ) → auth_of (kept_auth auth) ≡ done (read_auth auth)
auth_of-kept_auth (negsuc n) = refl
auth_of-kept_auth (pos zero) = refl
auth_of-kept_auth (pos (suc zero)) = refl
auth_of-kept_auth (pos (suc (suc zero))) = refl
auth_of-kept_auth (pos (suc (suc (suc zero)))) = refl
auth_of-kept_auth (pos (suc (suc (suc (suc zero))))) = refl
auth_of-kept_auth (pos (suc (suc (suc (suc (suc zero)))))) = refl
auth_of-kept_auth (pos (suc (suc (suc (suc (suc (suc zero))))))) = refl
auth_of-kept_auth (pos (suc (suc (suc (suc (suc (suc (suc zero)))))))) = refl
auth_of-kept_auth (pos (suc (suc (suc (suc (suc (suc (suc (suc zero))))))))) = refl
auth_of-kept_auth (pos (suc (suc (suc (suc (suc (suc (suc (suc (suc n)))))))))) =
    let out : is_auth_mode (pos (suc (suc (suc (suc (suc (suc (suc (suc (suc n)))))))))) ≡ false =
      ground arith in
    rw out refl

-- The address that is read from what was stored of its text.
pub mac_of-kept_array :
    (array addr : List ℕ)
    → length (c_text array) ≡ 17
    → convert_str_mac (some (c_text array)) true ≡ (error_none, addr)
    → (kept_array 17 array ≡ some (c_text array))
      × (mac_of (some (c_text array)) ≡ (c_text array ++ 0 ∷ [], addr))
mac_of-kept_array array addr size converted =
    (kept array size, rw (size, all, c_text-put array [], converted) refl)
  where
    all : take 17 (c_text array) ≡ c_text array
    all = take_all 17 (c_text array) (omega arith)

    kept : (array : List ℕ) → length (c_text array) ≡ 17 → kept_array 17 array ≡ some (c_text array)
    kept [] size = ground (arith, size)
    kept (c ∷ cs) size = elim (Bool-cases (c == 0)) [
      | inl empty ↦ ground (arith, empty, size)
      | inr filled ↦
          let at_17 : take 17 (c ∷ cs) ≡ c_text (c ∷ cs) =
            subst (λ (n : ℕ). take n (c ∷ cs) ≡ c_text (c ∷ cs)) size (take-c_text (c ∷ cs)) in
          let here : kept_array 17 (c ∷ cs) ≡ some (take 17 (c ∷ cs)) = rw filled refl in
          here ∙ ap some at_17
    ]
