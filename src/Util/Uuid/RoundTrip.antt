-- ===== src/Util/Uuid/RoundTrip.antt =====
-- A UUID that is written and read again.
use st_device_sdk_c.Prelude.{
  ℕ, ◌+◌, ◌*◌, ◌/◌, ◌%◌, ◌<◌, ◌≤◌, ◌≡◌, refl, ap, sym, subst, ◌∙◌, true, false, ltb, ◌||◌, ◌==◌,
  List, [], ◌∷◌, length, get_or, some, arith,
}
use st_device_sdk_c.Errors.{error_none}
use st_device_sdk_c.Util.Hex.{
  IsBytes, tabulate, tabulate-get, get-byte, dash, char_at, str_len, hex_digit, is_hex, byte_text,
  put_digit, put_digit-first, put_digit-second, hex_digit-is_hex, hex_digit-ne_dash,
}
use st_device_sdk_c.Util.Uuid.{
  validate_uuid_format, read_uuid, convert_str_uuid, ref_id, write_uuid, convert_uuid_str,
}

read_uuid-first :
    (x : ℕ) (xs : List ℕ) (j k c v : ℕ)
    → (x == dash) ≡ false
    → ((j + 1) * 2 == k) ≡ false
    → put_digit c x ≡ some v
    → read_uuid (x ∷ xs) j k c ≡ read_uuid xs j (k + 1) (v * 16 % 256)
unfolding read_uuid
read_uuid-first x xs j k c v h h2 h3 = ground (arith, h, h2, h3)

read_uuid-second :
    (x : ℕ) (xs : List ℕ) (j k c v : ℕ)
    → (x == dash) ≡ false
    → ((j + 1) * 2 == k) ≡ true
    → put_digit c x ≡ some v
    → read_uuid (x ∷ xs) j k c ≡ v ∷ read_uuid xs (j + 1) (k + 1) 0
unfolding read_uuid
read_uuid-second x xs j k c v h h2 h3 = ground (arith, h, h2, h3)

read_uuid-byte :
    (b : ℕ) (rest : List ℕ) (j : ℕ)
    → b < 256
    → read_uuid (byte_text b rest) j (j * 2 + 1) 0 ≡ b ∷ read_uuid rest (j + 1) ((j + 1) * 2 + 1) 0
read_uuid-byte b rest j h =
    read_uuid-first (hex_digit (b / 16)) (hex_digit (b % 16) ∷ rest) j (j * 2 + 1) 0 (b / 16)
      (hex_digit-ne_dash (b / 16) (omega arith)) (ground arith) (put_digit-first b h)
    ∙ read_uuid-second (hex_digit (b % 16)) rest j (j * 2 + 1 + 1) (b / 16 * 16 % 256) b
        (hex_digit-ne_dash (b % 16) (omega arith)) (ground arith) (put_digit-second b h)
    ∙ ap (λ (k : ℕ). b ∷ read_uuid rest (j + 1) k 0) (omega arith)

read_uuid-dash : (rest : List ℕ) (j k c : ℕ) → read_uuid (dash ∷ rest) j k c ≡ read_uuid rest j k c
unfolding read_uuid
read_uuid-dash rest j k c = refl

-- The text written for some bytes is read back, wherever its dashes stand.
read_uuid-write_uuid :
    (bs : List ℕ) (written j : ℕ)
    → IsBytes bs
    → read_uuid (write_uuid bs written) j (j * 2 + 1) 0 ≡ bs
unfolding write_uuid read_uuid
read_uuid-write_uuid [] written j h = refl
read_uuid-write_uuid (b ∷ bs) written j h =
    elim (char_at ref_id (written + 2) == dash)
      as (λ t.
        read_uuid
          (byte_text b (elim t [
            | true ↦ dash ∷ write_uuid bs (written + 3)
            | false ↦ write_uuid bs (written + 2)
          ]))
          j (j * 2 + 1) 0
        ≡ b ∷ bs) [
          | true ↦
              read_uuid-byte b (dash ∷ write_uuid bs (written + 3)) j h.0
              ∙ ap (◌∷◌ b) (read_uuid-write_uuid bs (written + 3) (j + 1) h.1)
          | false ↦
              read_uuid-byte b (write_uuid bs (written + 2)) j h.0
              ∙ ap (◌∷◌ b) (read_uuid-write_uuid bs (written + 2) (j + 1) h.1)
        ]

high : (f : ℕ → ℕ) → ((i : ℕ) → f i < 256) → (i : ℕ) → is_hex (hex_digit (f i / 16)) ≡ true
high f h i = hex_digit-is_hex (f i / 16) (omega (arith, h i))

low : (f : ℕ → ℕ) → ((i : ℕ) → f i < 256) → (i : ℕ) → is_hex (hex_digit (f i % 16)) ≡ true
low f h i = hex_digit-is_hex (f i % 16) (omega (arith, h i))

version_digit :
    (b : ℕ)
    → 1 ≤ b / 16
    → b / 16 ≤ 5
    → (ltb (hex_digit (b / 16)) 49 || ltb 53 (hex_digit (b / 16))) ≡ false
version_digit b h h2 = ground arith

text-valid :
    (f : ℕ → ℕ)
    → ((i : ℕ) → f i < 256)
    → 1 ≤ f 6 / 16
    → f 6 / 16 ≤ 5
    → validate_uuid_format (some (write_uuid (tabulate 16 f) 0)) 36 ≡ error_none
unfolding validate_uuid_format write_uuid
text-valid f h h1 h5 = simp (high f h, low f h, version_digit (f 6) h1 h5)

text_length : (f : ℕ → ℕ) → str_len (write_uuid (tabulate 16 f) 0) ≡ 36
unfolding write_uuid
text_length f = refl

text_round_trip :
    (f : ℕ → ℕ)
    → ((i : ℕ) → f i < 256)
    → 1 ≤ f 6 / 16
    → f 6 / 16 ≤ 5
    → convert_str_uuid (some (write_uuid (tabulate 16 f) 0)) true
      ≡ (error_none, read_uuid (write_uuid (tabulate 16 f) 0) 0 1 0)
unfolding convert_str_uuid
text_round_trip f h h1 h5 = simp (text_length f, text-valid f h h1 h5)

-- For 16 bytes whose version, the upper half of byte 6, is 1 to 5, and room for 37 characters:
-- iot_util_convert_uuid_str succeeds, and iot_util_convert_str_uuid accepts the text it wrote and
-- reads the same 16 bytes from it.
pub uuid_round_trip :
    (id : List ℕ) (max_sz : ℕ)
    → length id ≡ 16
    → IsBytes id
    → 1 ≤ get_or id 6 0 / 16
    → get_or id 6 0 / 16 ≤ 5
    → 37 ≤ max_sz
    → let (err, str) = convert_uuid_str (some id) true max_sz in
      (err ≡ error_none) × (convert_str_uuid (some str) true ≡ (error_none, id))
unfolding convert_uuid_str
uuid_round_trip id max_sz len bytes h1 h5 room = rw (enough) (
  refl,
  subst (λ l. convert_str_uuid (some (write_uuid l 0)) true ≡ (error_none, id)) same
      (text_round_trip (λ i. get_or id i 0) (λ i. get-byte id i bytes) h1 h5
        ∙ ap (λ l. (error_none, l))
            (ap (λ l. read_uuid (write_uuid l 0) 0 1 0) same ∙ read_uuid-write_uuid id 0 0 bytes)),
)
  where
    same : tabulate 16 (λ i. get_or id i 0) ≡ id
    same = ap (λ (n : ℕ). tabulate n (λ i. get_or id i 0)) (sym len) ∙ tabulate-get id

    enough : ltb max_sz 37 ≡ false
    enough = ground arith
