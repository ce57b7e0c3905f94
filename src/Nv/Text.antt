-- ===== src/Nv/Text.antt =====
-- Texts in buffers, and numbers as texts: what src/iot_nv_data.c uses of the C library.
use st_device_sdk_c.Prelude.{
  ℕ, zero, suc, ◌+◌, ◌*◌, ◌-◌, ◌/◌, ◌%◌, ltb, leb, Bool, false, not, ◌&&◌, ◌||◌, ◌==◌,
  if◌then◌else◌, List, [], ◌∷◌, ◌++◌, length, drop,
}
use st_device_sdk_c.Errors.{nv_data_error}
use st_device_sdk_c.Nv.{Result, done, failed, fault}
use st_device_sdk_c.Prelude.Int.{ℤ, pos, negsuc}

-- The characters up to the NUL.
abbrev pub c_text : List ℕ → List ℕ
c_text [] = []
c_text (c ∷ cs) = if c == 0 then [] else c ∷ c_text cs

-- Is there a NUL?
abbrev pub has_nul : List ℕ → Bool
has_nul [] = false
has_nul (c ∷ cs) = c == 0 || has_nul cs

-- The buffer of `data_len` bytes after a read, as far as it is known: a NUL follows the bytes if
-- there is room.
abbrev pub buffer : ℕ → List ℕ → List ℕ
buffer data_len bytes = if ltb (length bytes) data_len then bytes ++ 0 ∷ [] else bytes

-- `strlen` of the buffer, and the copy in new memory, if there is some.
abbrev pub copied : Bool → List ℕ → Result (List ℕ)
copied memory stored =
    if not (has_nul stored)
    then fault
    else if memory
    then done (c_text stored)
    else failed nv_data_error

-- A text and its NUL at the start of an array.
abbrev pub put_text : List ℕ → List ℕ → List ℕ
put_text text array = text ++ 0 ∷ drop (suc (length text)) array

-- The digits of a number of at most `fuel` digits, before `rest`.
abbrev pub digits_before : ℕ → ℕ → List ℕ → List ℕ
digits_before zero n rest = rest
digits_before (suc fuel) n rest =
    let more = digits_before fuel (n / 10) ((48 + n % 10) ∷ rest) in
    if ltb n 10 then (48 + n) ∷ rest else more

-- "%d" of an `int`, which has at most 10 digits.
abbrev pub print_int : ℤ → List ℕ
print_int (pos n) = digits_before 10 n []
print_int (negsuc n) = 45 ∷ digits_before 10 (suc n) []

abbrev pub is_digit : ℕ → Bool
is_digit c = leb 48 c && leb c 57

-- The number that the digits at the start of a text go on with.
abbrev pub read_digits : ℕ → List ℕ → ℕ
read_digits n [] = n
read_digits n (c ∷ cs) =
    let more = read_digits (n * 10 + (c - 48)) cs in if is_digit c then more else n

abbrev pub minus : ℕ → ℤ
minus zero = pos zero
minus (suc n) = negsuc n

abbrev pub is_space : ℕ → Bool
is_space c = c == 32 || leb 9 c && leb c 13

-- atoi, for numbers that an `int` can hold
abbrev pub atoi : List ℕ → ℤ
atoi [] = pos 0
atoi (c ∷ cs) =
    let skipped = atoi cs in
    if is_space c
    then skipped
    else if c == 45
    then minus (read_digits 0 cs)
    else if c == 43
    then pos (read_digits 0 cs)
    else pos (read_digits 0 (c ∷ cs))
