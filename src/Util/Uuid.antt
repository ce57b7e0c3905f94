-- ===== src/Util/Uuid.antt =====
-- UUID texts (src/iot_util.c). A text is the list of its characters up to the NUL, so that a
-- position behind its end reads 0; a NULL pointer is `none`, or false where it is only written to.
pub mod RoundTrip
pub mod Random
pub mod Bounds
use st_device_sdk_c.Prelude.{
  ℕ, ◌+◌, ◌*◌, ◌%◌, Bool, true, false, not, ◌&&◌, ◌||◌, ltb, ◌==◌, if◌then◌else◌, List, [], ◌∷◌,
  get_or, Option, none, some, all_below,
}
use st_device_sdk_c.Errors.{IotError, error_none, invalid_args}
use st_device_sdk_c.Util.Hex.{dash, char_at, str_len, is_hex, put_digit, byte_text}

abbrev pub uuid_string_length : ℕ
uuid_string_length = 36

-- _ishex_len at the position `from`
abbrev pub is_hex_len : List ℕ → ℕ → ℕ → Bool
is_hex_len str from len = all_below len (λ i. is_hex (char_at str (from + i)))

unfoldable pub validate_uuid_format : Option (List ℕ) → ℕ → IotError
validate_uuid_format none len = invalid_args
validate_uuid_format (some str) len =
    if not (len == uuid_string_length)
    then invalid_args
    else if not (is_hex_len str 0 8)
    then invalid_args
    else if not (char_at str 8 == dash)
    then invalid_args
    else if not (is_hex_len str 9 4)
    then invalid_args
    else if not (char_at str 13 == dash)
    then invalid_args
    else if ltb (char_at str 14) 49 || ltb 53 (char_at str 14)
    then invalid_args
    else if not (is_hex_len str 15 3)
    then invalid_args
    else if not (char_at str 18 == dash)
    then invalid_args
    else if not (is_hex_len str 19 4)
    then invalid_args
    else if not (char_at str 23 == dash)
    then invalid_args
    else if not (is_hex_len str 24 12)
    then invalid_args
    else error_none

-- The byte `c` after the character `x`: a letter without a value leaves it.
abbrev pub with_digit : ℕ → ℕ → ℕ
with_digit c x = elim (put_digit c x) [ none ↦ c | some v ↦ v ]

-- The loop over the characters left: the bytes that it stores from `id[j]` on.
unfoldable pub read_uuid : List ℕ → ℕ → ℕ → ℕ → List ℕ
read_uuid [] j k c = []
read_uuid (x ∷ xs) j k c = elim (x == dash) [
  | true ↦ read_uuid xs j k c
  | false ↦ elim ((j + 1) * 2 == k) [
    | true ↦ with_digit c x ∷ read_uuid xs (j + 1) (k + 1) 0
    | false ↦ read_uuid xs j (k + 1) (with_digit c x * 16 % 256)
  ]
]

-- The code, and the bytes stored through `uuid`.
pub convert_str_uuid : Option (List ℕ) → Bool → IotError × List ℕ
unfolding validate_uuid_format read_uuid
convert_str_uuid none uuid = (invalid_args, [])
convert_str_uuid (some str) false = (invalid_args, [])
convert_str_uuid (some str) true =
    if not (validate_uuid_format (some str) (str_len str) == error_none)
    then (invalid_args, [])
    else (error_none, read_uuid str 0 1 0)

-- "42365732-c6db-4bc9-8945-2a7ca10d6f23"
abbrev pub ref_id : List ℕ
ref_id =
    52 ∷ 50 ∷ 51 ∷ 54 ∷ 53 ∷ 55 ∷ 51 ∷ 50 ∷ 45 ∷ 99 ∷ 54 ∷ 100 ∷ 98 ∷ 45 ∷ 52 ∷ 98 ∷ 99 ∷ 57 ∷ 45
    ∷ 56 ∷ 57 ∷ 52 ∷ 53 ∷ 45 ∷ 50 ∷ 97 ∷ 55 ∷ 99 ∷ 97 ∷ 49 ∷ 48 ∷ 100 ∷ 54 ∷ 102 ∷ 50 ∷ 51 ∷ []

-- The loop over the bytes left, with `written` characters written: what it writes on.
-- `%02x` of a byte always writes two characters, so that the test of `wrt` never fails.
unfoldable pub write_uuid : List ℕ → ℕ → List ℕ
write_uuid [] written = []
write_uuid (b ∷ bs) written = byte_text b (elim (char_at ref_id (written + 2) == dash) [
  | true ↦ dash ∷ write_uuid bs (written + 3)
  | false ↦ write_uuid bs (written + 2)
])

-- The code, and the text written to `str`.
pub convert_uuid_str : Option (List ℕ) → Bool → ℕ → IotError × List ℕ
unfolding write_uuid
convert_uuid_str none str max_sz = (invalid_args, [])
convert_uuid_str (some id) false max_sz = (invalid_args, [])
convert_uuid_str (some id) true max_sz =
    if ltb max_sz (str_len ref_id + 1) then (invalid_args, []) else (error_none, write_uuid id 0)
