-- ===== src/Util/Hex.antt =====
-- Hexadecimal digits in src/iot_util.c: the tests _isalpha and _ishex, the digits that `%02x`
-- writes, and the `switch` that reads a letter. A `char` is a number below 256.
use st_device_sdk_c.Prelude.{
  ℕ, ◌+◌, ◌*◌, ◌/◌, ◌%◌, ◌<◌, ◌≡◌, Bool, true, false, ◌&&◌, ◌||◌, ltb, leb, ◌==◌, if◌then◌else◌,
  List, [], ◌∷◌, get_or, length, All, zero, suc, Option, none, some, bit_or, all_below,
  all_below_sound, refl, ◌∙◌, ap, arith,
}

-- A text is the list of its characters up to the NUL, so that a position behind its end reads 0.
abbrev pub char_at : List ℕ → ℕ → ℕ
char_at str i = get_or str i 0

-- strlen
abbrev pub str_len : List ℕ → ℕ
str_len [] = 0
str_len (c ∷ cs) = 1 + str_len cs

-- '-' and ':'
abbrev pub dash : ℕ
dash = 45

abbrev pub colon : ℕ
colon = 58

abbrev pub is_alpha : ℕ → Bool
is_alpha c = leb 65 c && leb c 90 || leb 97 c && leb c 122

-- The letters go up to 'Z', as in the source.
abbrev pub is_hex : ℕ → Bool
is_hex c = leb 48 c && leb c 57 || leb 97 c && leb c 102 || leb 65 c && leb c 90

-- What the `switch` on a letter adds to the byte, if anything.
abbrev pub letter_value : ℕ → Option ℕ
letter_value c =
    if c == 65 || c == 97
    then some 10
    else if c == 66 || c == 98
    then some 11
    else if c == 67 || c == 99
    then some 12
    else if c == 68 || c == 100
    then some 13
    else if c == 69 || c == 101
    then some 14
    else if c == 70 || c == 102
    then some 15
    else none

-- `str[i] - 48`, as the byte that it is when it is added to one.
abbrev pub digit_value : ℕ → ℕ
digit_value c = (c + 208) % 256

-- One digit of `%x`.
abbrev pub hex_digit : ℕ → ℕ
hex_digit n = if ltb n 10 then 48 + n else 87 + n

-- `%02x` of a byte.
abbrev pub byte_text : ℕ → List ℕ → List ℕ
byte_text b rest = hex_digit (b / 16) ∷ hex_digit (b % 16) ∷ rest

-- The byte `c` with the digit `x` put in, where the digit has a value.
unfoldable pub put_digit : ℕ → ℕ → Option ℕ
put_digit c x =
    if is_alpha x
    then elim (letter_value x) [ none ↦ none | some v ↦ some (bit_or c v) ]
    else some (bit_or c (digit_value x))

abbrev holds : Option ℕ → ℕ → Bool
holds none r = false
holds (some v) r = v == r

holds_sound : (o : Option ℕ) (r : ℕ) → holds o r ≡ true → o ≡ some r
holds_sound none r h = ground arith
holds_sound (some v) r h = ground arith

put_digit-high : (n : ℕ) → n < 16 → put_digit 0 (hex_digit n) ≡ some n
unfolding put_digit
put_digit-high n h =
    holds_sound _ n (all_below_sound 16 (λ n. holds (put_digit 0 (hex_digit n)) n) n refl h)

put_digit-low :
    (m n : ℕ) → m < 16 → n < 16 → put_digit (m * 16 % 256) (hex_digit n) ≡ some (m * 16 + n)
unfolding put_digit
put_digit-low m n hm hn = holds_sound _ _ (
    all_below_sound 16 (λ n. holds (put_digit (m * 16 % 256) (hex_digit n)) (m * 16 + n)) n
      (all_below_sound 16
        (λ m. all_below 16 (λ n. holds (put_digit (m * 16 % 256) (hex_digit n)) (m * 16 + n))) m
        refl hm)
      hn)

-- The two digits of a byte, read back.
pub put_digit-first : (b : ℕ) → b < 256 → put_digit 0 (hex_digit (b / 16)) ≡ some (b / 16)
put_digit-first b h = put_digit-high (b / 16) (omega arith)

pub put_digit-second :
    (b : ℕ) → b < 256 → put_digit (b / 16 * 16 % 256) (hex_digit (b % 16)) ≡ some b
put_digit-second b h =
    put_digit-low (b / 16) (b % 16) (omega arith) (omega arith) ∙ ap some (omega arith)

pub hex_digit-is_hex : (n : ℕ) → n < 16 → is_hex (hex_digit n) ≡ true
hex_digit-is_hex n h = all_below_sound 16 (λ n. is_hex (hex_digit n)) n refl h

-- A separator is no digit.
pub hex_digit-ne_dash : (n : ℕ) → n < 16 → (hex_digit n == dash) ≡ false
hex_digit-ne_dash n h = ground arith

abbrev pub IsBytes : List ℕ → Type 0
IsBytes bs = All (λ b. b < 256) bs

abbrev pub tabulate {ℓ} : {A : Type ℓ} → ℕ → (ℕ → A) → List A
tabulate zero f = []
tabulate (suc n) f = f 0 ∷ tabulate n (λ i. f (suc i))

pub tabulate-get : (bs : List ℕ) → tabulate (length bs) (λ i. get_or bs i 0) ≡ bs
tabulate-get [] = refl
tabulate-get (b ∷ bs) = ap (◌∷◌ b) (tabulate-get bs)

pub get-byte : (bs : List ℕ) (i : ℕ) → IsBytes bs → get_or bs i 0 < 256
get-byte [] i h = omega arith
get-byte (b ∷ bs) zero h = h.0
get-byte (b ∷ bs) (suc i) h = get-byte bs i h.1
