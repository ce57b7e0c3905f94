-- ===== src/DumpLog/Tests.antt =====
-- A dump with an encoder of RFC 4648.
use st_device_sdk_c.Prelude.{
  ℕ, ◌+◌, ◌-◌, ◌*◌, ◌/◌, ◌%◌, ◌≤◌, ◌<◌, ◌≡◌, refl, ap, false, ltb, ◌==◌, if◌then◌else◌, List, [],
  ◌∷◌, ◌++◌, length, drop, length-drop, Option, none, some, arith,
}
use st_device_sdk_c.DumpLog.{
  b64_encode_len, padding, copy_groups, copy_from, copy_memory, copy_log, finish, write_parts,
  create_log_dump,
}
use st_device_sdk_c.DumpLog.Encode.{IsBase64}
use st_device_sdk_c.DumpLog.Create.{dump_encodes}

letter : ℕ → ℕ
letter n =
    if ltb n 26
    then 65 + n
    else if ltb n 52
    then 71 + n
    else if ltb n 62
    then n - 4
    else if n == 62
    then 43
    else 47

abbrev text : List ℕ → List ℕ
text [] = []
text (a ∷ []) = letter (a / 4) ∷ letter (a % 4 * 16) ∷ 61 ∷ 61 ∷ []
text (a ∷ b ∷ []) = letter (a / 4) ∷ letter (a % 4 * 16 + b / 16) ∷ letter (b % 16 * 4) ∷ 61 ∷ []
text (a ∷ b ∷ c ∷ rest) =
    letter (a / 4)
    ∷ letter (a % 4 * 16 + b / 16)
    ∷ letter (b % 16 * 4 + c / 64)
    ∷ letter (c % 64)
    ∷ text rest

unfoldable encode : List ℕ → ℕ → Option (List ℕ)
encode bytes room = if ltb room (b64_encode_len (length bytes)) then none else some (text bytes)

length-text : (bytes : List ℕ) → length (text bytes) ≡ (length bytes + 2) / 3 * 4
length-text [] = refl
length-text (a ∷ []) = refl
length-text (a ∷ b ∷ []) = refl
length-text (a ∷ b ∷ c ∷ rest) = omega (arith, length-text rest)

text-append : (xs ys : List ℕ) → length xs % 3 ≡ 0 → text (xs ++ ys) ≡ text xs ++ text ys
text-append [] ys whole = refl
text-append (a ∷ []) ys whole = absurd (omega (arith, whole))
text-append (a ∷ b ∷ []) ys whole = absurd (omega (arith, whole))
text-append (a ∷ b ∷ c ∷ rest) ys whole =
    ap
      (λ (s : List ℕ).
        letter (a / 4)
        ∷ letter (a % 4 * 16 + b / 16)
        ∷ letter (b % 16 * 4 + c / 64)
        ∷ letter (c % 64)
        ∷ s)
      (text-append rest ys (omega (arith, whole)))

encode_gives :
    (bytes : List ℕ) (room : ℕ)
    → b64_encode_len (length bytes) ≤ room
    → encode bytes room ≡ some (text bytes)
unfolding encode
encode_gives bytes room fits =
    let enough : ltb room (b64_encode_len (length bytes)) ≡ false = ground (arith, fits) in
    rw enough refl

abbrev encode-IsBase64 : IsBase64 encode text
encode-IsBase64 = record {
  gives = encode_gives;
  length-text = length-text;
  joins = text-append;
  empty = refl;
}

-- Four bytes of a header and a line of the log: two bytes are left.
abbrev header : List ℕ
header = 1 ∷ 2 ∷ 3 ∷ 4 ∷ []

abbrev line : List ℕ
line = 20 ∷ 21 ∷ 22 ∷ 23 ∷ 24 ∷ 25 ∷ 26 ∷ 27 ∷ 28 ∷ 29 ∷ 30 ∷ 31 ∷ 32 ∷ 33 ∷ 34 ∷ 35 ∷ []

-- What a copy as of memmove gives.
abbrev moved : ℕ → ℕ × ℕ
moved c = (c, 0)

-- The last bytes of the line.
abbrev read_line : ℕ → List ℕ
read_line n = drop (16 - n) line

length-read_line : (n : ℕ) → n ≤ 16 → length (read_line n) ≡ n
length-read_line n h = omega (arith, length-drop (16 - n) line)

dump_of_line :
    create_log_dump encode moved 40 header none 16 read_line
    ≡ some (text (header ++ (line ++ 34 ∷ [])))
unfolding create_log_dump write_parts copy_memory copy_from copy_groups encode copy_log finish
dump_of_line = refl

dump_encodes_example :
    (body : List ℕ) × (left : List ℕ) × (header ++ line ≡ body ++ left)
    × (length body % 3 ≡ 0)
    × (length left < 3)
    × (create_log_dump encode moved 40 header none 16 read_line
        ≡ some (text ((header ++ line) ++ padding encode moved left)))
    × (length (text ((header ++ line) ++ padding encode moved left)) + 1 ≤ 40)
dump_encodes_example =
    dump_encodes encode text encode-IsBase64 moved 40 header none 16 read_line length-read_line
      (omega arith) tt (omega arith)
