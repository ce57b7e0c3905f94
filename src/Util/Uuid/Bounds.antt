-- ===== src/Util/Uuid/Bounds.antt =====
-- Where iot_util_convert_str_uuid (src/iot_util.c) writes.
use st_device_sdk_c.Prelude.{
  ℕ, zero, suc, ◌+◌, ◌*◌, ◌/◌, ◌%◌, ◌<◌, ◌≤◌, ◌≡◌, ◌≢◌, refl, ap, sym, subst, ◌∙◌, ◌⊎◌, inl, inr,
  Bool, true, false, Bool-cases, not, ltb, ◌||◌, ◌==◌, if◌then◌else◌, List, [], ◌∷◌, All, ◌++◌,
  length, some, all_below, all_below_sound, arith,
}
use st_device_sdk_c.Errors.{IotError, error_none, invalid_args}
use st_device_sdk_c.Util.Hex.{tabulate, tabulate-get, dash, char_at, str_len, is_hex}
use st_device_sdk_c.Util.Uuid.{
  is_hex_len, validate_uuid_format, with_digit, read_uuid, convert_str_uuid,
}

-- The characters that are no dash.
abbrev digits : List ℕ → ℕ
digits [] = 0
digits (x ∷ xs) = (if x == dash then 0 else 1) + digits xs

digits-append : (xs ys : List ℕ) → digits (xs ++ ys) ≡ digits xs + digits ys
digits-append [] ys = omega arith
digits-append (x ∷ xs) ys = omega (arith, digits-append xs ys)

step_dash :
    (x : ℕ) (xs : List ℕ) (j k c : ℕ)
    → (x == dash) ≡ true
    → read_uuid (x ∷ xs) j k c ≡ read_uuid xs j k c
unfolding read_uuid
step_dash x xs j k c h = ground (arith, h)

step_full :
    (x : ℕ) (xs : List ℕ) (j k c : ℕ)
    → (x == dash) ≡ false
    → ((j + 1) * 2 == k) ≡ true
    → read_uuid (x ∷ xs) j k c ≡ with_digit c x ∷ read_uuid xs (j + 1) (k + 1) 0
unfolding read_uuid
step_full x xs j k c h h2 = ground (arith, h, h2)

step_half :
    (x : ℕ) (xs : List ℕ) (j k c : ℕ)
    → (x == dash) ≡ false
    → ((j + 1) * 2 == k) ≡ false
    → read_uuid (x ∷ xs) j k c ≡ read_uuid xs j (k + 1) (with_digit c x * 16 % 256)
unfolding read_uuid
step_half x xs j k c h h2 = ground (arith, h, h2)

length-read_uuid :
    (xs : List ℕ) (j k c r : ℕ)
    → k ≡ j * 2 + 1 + r
    → r ≤ 1
    → length (read_uuid xs j k c) ≡ (digits xs + r) / 2
unfolding read_uuid
length-read_uuid [] j k c r e h = omega arith
length-read_uuid (x ∷ xs) j k c r e h = elim (Bool-cases (x == dash)) [
  | inl is_dash ↦
      rw (step_dash x xs j k c is_dash) (ground (arith, is_dash, length-read_uuid xs j k c r e h))
  | inr digit ↦ elim (Bool-cases ((j + 1) * 2 == k)) [
    | inl full ↦ rw (step_full x xs j k c digit full) (
        ground (
          arith,
          digit,
          full,
          length-read_uuid xs (j + 1) (k + 1) 0 0 (ground arith) (omega arith),
        ))
    | inr half ↦ rw (step_half x xs j k c digit half) (
        ground (
          arith,
          digit,
          half,
          length-read_uuid xs j (k + 1) (with_digit c x * 16 % 256) 1 (ground arith) (omega arith),
        ))
  ]
]

hex-ne_dash : (x : ℕ) → is_hex x ≡ true → (x == dash) ≡ false
hex-ne_dash x h = ground arith

digits_run :
    (n : ℕ) (f : ℕ → ℕ) → ((i : ℕ) → i < n → (f i == dash) ≡ false) → digits (tabulate n f) ≡ n
digits_run zero f h = refl
digits_run (suc n) f h =
    rw (h 0 (omega arith))
      (omega (arith, digits_run n (λ i. f (suc i)) (λ i lt. h (suc i) (omega arith))))

digits_hex :
    (n : ℕ) (f : ℕ → ℕ) → all_below n (λ i. is_hex (f i)) ≡ true → digits (tabulate n f) ≡ n
digits_hex n f h =
    digits_run n f (λ i lt. hex-ne_dash (f i) (all_below_sound n (λ i. is_hex (f i)) i h lt))

-- A chain of tests, each of which may refuse.
abbrev checks : List Bool → IotError
checks [] = error_none
checks (b ∷ bs) = if b then invalid_args else checks bs

checks-All : (bs : List Bool) → checks bs ≡ error_none → All (λ (b : Bool). b ≡ false) bs
checks-All [] h = tt
checks-All (true ∷ bs) h = ground arith
checks-All (false ∷ bs) h = (refl, checks-All bs h)

is_true : (b : Bool) → not b ≡ false → b ≡ true
is_true true h = refl
is_true false h = ground arith

version_ne_dash : (x : ℕ) → (ltb x 49 || ltb 53 x) ≡ false → (x == dash) ≡ false
version_ne_dash x h = ground arith

segment :
    (n : ℕ) (f : ℕ → ℕ) (rest : List ℕ)
    → not (all_below n (λ i. is_hex (f i))) ≡ false
    → digits (tabulate n f ++ rest) ≡ n + digits rest
segment n f rest h =
    digits-append (tabulate n f) rest
    ∙ ap (λ (d : ℕ). d + digits rest) (digits_hex n f (is_true (all_below n (λ i. is_hex (f i))) h))

skip_dash : (x : ℕ) (rest : List ℕ) → not (x == dash) ≡ false → digits (x ∷ rest) ≡ digits rest
skip_dash x rest h = ground (arith, h)

count_version :
    (x : ℕ) (rest : List ℕ) → (ltb x 49 || ltb 53 x) ≡ false → digits (x ∷ rest) ≡ 1 + digits rest
count_version x rest h = rw (version_ne_dash x h) refl

-- A text that validate_uuid_format accepts has four dashes, and 32 digits.
valid-digits :
    (f : ℕ → ℕ)
    → validate_uuid_format (some (tabulate 36 f)) 36 ≡ error_none
    → digits (tabulate 36 f) ≡ 32
unfolding validate_uuid_format
valid-digits f h =
    let s = tabulate 36 f in
    let ok =
      checks-All
        (not (is_hex_len s 0 8)
          ∷ not (char_at s 8 == dash)
          ∷ not (is_hex_len s 9 4)
          ∷ not (char_at s 13 == dash)
          ∷ (ltb (char_at s 14) 49 || ltb 53 (char_at s 14))
          ∷ not (is_hex_len s 15 3)
          ∷ not (char_at s 18 == dash)
          ∷ not (is_hex_len s 19 4)
          ∷ not (char_at s 23 == dash)
          ∷ not (is_hex_len s 24 12)
          ∷ [])
        h in
    let ok5 = ok.1.1.1.1.1 in
    let node = tabulate 12 (λ i. f (24 + i)) ++ [] in
    let seq = tabulate 4 (λ i. f (19 + i)) ++ (f 23 ∷ node) in
    let hi = tabulate 3 (λ i. f (15 + i)) ++ (f 18 ∷ seq) in
    let mid = tabulate 4 (λ i. f (9 + i)) ++ (f 13 ∷ f 14 ∷ hi) in
    omega (
      arith,
      segment 8 f (f 8 ∷ mid) ok.0,
      skip_dash (f 8) mid ok.1.0,
      segment 4 (λ i. f (9 + i)) (f 13 ∷ f 14 ∷ hi) ok.1.1.0,
      skip_dash (f 13) (f 14 ∷ hi) ok.1.1.1.0,
      count_version (f 14) hi ok.1.1.1.1.0,
      segment 3 (λ i. f (15 + i)) (f 18 ∷ seq) ok5.0,
      skip_dash (f 18) seq ok5.1.0,
      segment 4 (λ i. f (19 + i)) (f 23 ∷ node) ok5.1.1.0,
      skip_dash (f 23) node ok5.1.1.1.0,
      segment 12 (λ i. f (24 + i)) [] ok5.1.1.1.1.0,
    )

length-str_len : (s : List ℕ) → str_len s ≡ length s
length-str_len [] = refl
length-str_len (c ∷ cs) = omega (arith, length-str_len cs)

other_length :
    (s : List ℕ) (n : ℕ) → (n == 36) ≡ false → validate_uuid_format (some s) n ≡ invalid_args
unfolding validate_uuid_format
other_length s n h = rw h refl

no_error : (e : IotError) → e ≡ invalid_args → e ≢ error_none
no_error e h = omega arith

valid-length : (s : List ℕ) (n : ℕ) → validate_uuid_format (some s) n ≡ error_none → n ≡ 36
valid-length s n h = elim (Bool-cases (n == 36)) [
  | inl same ↦ ground (arith, same)
  | inr other ↦ absurd (no_error (validate_uuid_format (some s) n) (other_length s n other) h)
]

as_tabulate : (s : List ℕ) → length s ≡ 36 → tabulate 36 (char_at s) ≡ s
as_tabulate s e = ap (λ (n : ℕ). tabulate n (char_at s)) (sym e) ∙ tabulate-get s

stored-length :
    (s : List ℕ)
    → validate_uuid_format (some s) (str_len s) ≡ error_none
    → length (read_uuid s 0 1 0) ≡ 16
stored-length s h =
    let size = valid-length s (str_len s) h in
    let same = as_tabulate s (omega (arith, size, length-str_len s)) in
    let valid =
      subst (λ t. validate_uuid_format (some t) 36 ≡ error_none) (sym same)
        (subst (λ (n : ℕ). validate_uuid_format (some s) n ≡ error_none) size h) in
    omega (
      arith,
      length-read_uuid s 0 1 0 0 refl (omega arith),
      valid-digits (char_at s) valid,
      ap digits same,
    )

-- On every text, iot_util_convert_str_uuid either refuses and stores nothing, or succeeds and stores
-- exactly 16 bytes, the size of struct iot_uuid.
pub convert_str_uuid_bounds :
    (s : List ℕ)
    → (convert_str_uuid (some s) true ≡ (invalid_args, []))
      ⊎ ((id : List ℕ) × (convert_str_uuid (some s) true ≡ (error_none, id)) × (length id ≡ 16))
unfolding convert_str_uuid
convert_str_uuid_bounds s =
    elim (Bool-cases (validate_uuid_format (some s) (str_len s) == error_none)) [
      | inl valid ↦ inr (read_uuid s 0 1 0, rw valid refl, stored-length s (ground (arith, valid)))
      | inr refused ↦ inl (rw refused refl)
    ]
