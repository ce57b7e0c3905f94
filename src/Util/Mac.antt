-- ===== src/Util/Mac.antt =====
-- MAC address texts (iot_util_convert_str_mac and iot_util_convert_mac_str, src/iot_util.c).
use st_device_sdk_c.Prelude.{
  ℕ, ◌+◌, ◌*◌, ◌/◌, ◌%◌, ◌<◌, ◌≤◌, ◌≡◌, refl, sym, subst, ap, ◌∙◌, Bool, true, false, not, ltb,
  ◌==◌, if◌then◌else◌, List, [], ◌∷◌, length, get_or, Option, none, some, arith,
}
use st_device_sdk_c.Errors.{IotError, error_none, invalid_args}
use st_device_sdk_c.Util.Hex.{
  IsBytes, tabulate, tabulate-get, get-byte, char_at, str_len, colon, hex_digit, put_digit,
  byte_text, put_digit-first, put_digit-second,
}

-- "a1:b2:c3:d4:e5:f6"
abbrev pub ref_addr : List ℕ
ref_addr =
    97 ∷ 49 ∷ 58 ∷ 98 ∷ 50 ∷ 58 ∷ 99 ∷ 51 ∷ 58 ∷ 100 ∷ 52 ∷ 58 ∷ 101 ∷ 53 ∷ 58 ∷ 102 ∷ 54 ∷ []

-- The loop over the characters left, from `str[i]` on: the code, and the bytes that it stores from
-- `addr[j]` on, also before an error.
unfoldable pub read_mac : List ℕ → ℕ → ℕ → ℕ → ℕ → IotError × List ℕ
read_mac [] i j k c = (error_none, [])
read_mac (x ∷ xs) i j k c = elim (i % 3 == 2) [
  | true ↦ elim (x == colon) [ true ↦ read_mac xs (i + 1) j k c | false ↦ (invalid_args, []) ]
  | false ↦ elim (put_digit c x) [
    | none ↦ (invalid_args, [])
    | some v ↦ elim ((j + 1) * 2 == k) [
      | true ↦ let (err, bs) = read_mac xs (i + 1) (j + 1) (k + 1) 0 in (err, v ∷ bs)
      | false ↦ read_mac xs (i + 1) j (k + 1) (v * 16 % 256)
    ]
  ]
]

unfoldable pub convert_str_mac : Option (List ℕ) → Bool → IotError × List ℕ
unfolding read_mac
convert_str_mac none mac = (invalid_args, [])
convert_str_mac (some str) false = (invalid_args, [])
convert_str_mac (some str) true =
    if not (str_len str == str_len ref_addr) then (invalid_args, []) else read_mac str 0 0 1 0

-- The loop over the bytes left, with `written` characters written: what it writes on.
-- `%02x` of a byte always writes two characters, so that the test of `wrt` never fails.
unfoldable pub write_mac : List ℕ → ℕ → List ℕ
write_mac [] written = []
write_mac (b ∷ bs) written = byte_text b (elim (char_at ref_addr (written + 2) == colon) [
  | true ↦ colon ∷ write_mac bs (written + 3)
  | false ↦ write_mac bs (written + 2)
])

-- `max_sz` is an `int`; below 0 it is below 18 as well, and is not modelled.
unfoldable pub convert_mac_str : Option (List ℕ) → Bool → ℕ → IotError × List ℕ
unfolding write_mac
convert_mac_str none str max_sz = (invalid_args, [])
convert_mac_str (some addr) false max_sz = (invalid_args, [])
convert_mac_str (some addr) true max_sz =
    if ltb max_sz (str_len ref_addr + 1) then (invalid_args, []) else (error_none, write_mac addr 0)

read_mac-first :
    (x : ℕ) (xs : List ℕ) (i j k c v : ℕ)
    → (i % 3 == 2) ≡ false
    → ((j + 1) * 2 == k) ≡ false
    → put_digit c x ≡ some v
    → read_mac (x ∷ xs) i j k c ≡ read_mac xs (i + 1) j (k + 1) (v * 16 % 256)
unfolding read_mac
read_mac-first x xs i j k c v h h2 h3 = ground (arith, h, h2, h3)

read_mac-second :
    (x : ℕ) (xs bs : List ℕ) (i j k c v : ℕ)
    → (i % 3 == 2) ≡ false
    → ((j + 1) * 2 == k) ≡ true
    → put_digit c x ≡ some v
    → read_mac xs (i + 1) (j + 1) (k + 1) 0 ≡ (error_none, bs)
    → read_mac (x ∷ xs) i j k c ≡ (error_none, v ∷ bs)
unfolding read_mac
read_mac-second x xs bs i j k c v h h2 h3 rest = ground (arith, h, h2, h3, rest)

-- The two digits of a byte, at a position that is a multiple of 3.
read_mac-byte :
    (b : ℕ) (rest bs : List ℕ) (i j k : ℕ)
    → b < 256
    → i % 3 ≡ 0
    → k ≡ j * 2 + 1
    → read_mac rest (i + 1 + 1) (j + 1) (k + 1 + 1) 0 ≡ (error_none, bs)
    → read_mac (byte_text b rest) i j k 0 ≡ (error_none, b ∷ bs)
read_mac-byte b rest bs i j k h at odd read =
    read_mac-first (hex_digit (b / 16)) (hex_digit (b % 16) ∷ rest) i j k 0 (b / 16) (ground arith)
      (ground arith) (put_digit-first b h)
    ∙ read_mac-second (hex_digit (b % 16)) rest bs (i + 1) j (k + 1) (b / 16 * 16 % 256) b
        (ground arith) (ground arith) (put_digit-second b h) read

text_round_trip :
    (f : ℕ → ℕ)
    → ((i : ℕ) → f i < 256)
    → convert_str_mac (some (write_mac (tabulate 6 f) 0)) true ≡ (error_none, tabulate 6 f)
unfolding convert_str_mac read_mac write_mac
text_round_trip f h =
    let t5 = colon ∷ byte_text (f 5) [] in
    let t4 = colon ∷ byte_text (f 4) t5 in
    let t3 = colon ∷ byte_text (f 3) t4 in
    let t2 = colon ∷ byte_text (f 2) t3 in
    let t1 = colon ∷ byte_text (f 1) t2 in
    read_mac-byte (f 0) t1 _ 0 0 1 (h 0) refl refl (
      read_mac-byte (f 1) t2 _ 3 1 3 (h 1) refl refl (
        read_mac-byte (f 2) t3 _ 6 2 5 (h 2) refl refl (
          read_mac-byte (f 3) t4 _ 9 3 7 (h 3) refl refl (
            read_mac-byte (f 4) t5 _ 12 4 9 (h 4) refl refl
              (read_mac-byte (f 5) [] [] 15 5 11 (h 5) refl refl refl)))))

-- For 6 bytes and room for 18 characters: iot_util_convert_mac_str succeeds, and
-- iot_util_convert_str_mac accepts the text it wrote and reads the same 6 bytes from it.
pub mac_round_trip :
    (addr : List ℕ) (max_sz : ℕ)
    → length addr ≡ 6
    → IsBytes addr
    → 18 ≤ max_sz
    → let (err, str) = convert_mac_str (some addr) true max_sz in
      (err ≡ error_none) × (convert_str_mac (some str) true ≡ (error_none, addr))
unfolding convert_mac_str
mac_round_trip addr max_sz len bytes room = rw enough (
  refl,
  subst (λ l. convert_str_mac (some (write_mac l 0)) true ≡ (error_none, l)) same
      (text_round_trip (λ i. get_or addr i 0) (λ i. get-byte addr i bytes)),
)
  where
    same : tabulate 6 (λ i. get_or addr i 0) ≡ addr
    same = ap (λ (n : ℕ). tabulate n (λ i. get_or addr i 0)) (sym len) ∙ tabulate-get addr

    enough : ltb max_sz 18 ≡ false
    enough = ground arith
