-- ===== src/Util/Url.antt =====
-- iot_util_url_parse (src/iot_util.c). A text is the list of its characters up to the NUL; a NULL
-- pointer is `none`. atoi, of the C library, is an argument, and so is whether there is memory.
use st_device_sdk_c.Prelude.{
  Option-cases, ℕ, ◌≡◌, ◌≢◌, refl, sym, ap, ◌∙◌, Bool, Bool-cases, inl, inr, true, false, ◌==◌,
  if◌then◌else◌, List, [], ◌∷◌, ◌++◌, All, Option, none, some, arith,
}
use st_device_sdk_c.Prelude.Int.{ℤ}
use st_device_sdk_c.Errors.{IotError, error_none, invalid_args, mem_alloc}
use st_device_sdk_c.Util.Hex.{colon}

-- url_parse_t
pub record Url : Type 0 where
  pub protocol : Option (List ℕ)
  pub domain : Option (List ℕ)
  pub port : ℤ

-- "://"
abbrev pub separator : List ℕ
separator = colon ∷ 47 ∷ 47 ∷ []

-- What follows `pat` in a text that starts with it.
unfoldable pub after_prefix : List ℕ → List ℕ → Option (List ℕ)
after_prefix [] text = some text
after_prefix (p ∷ ps) [] = none
after_prefix (p ∷ ps) (c ∷ cs) = let rest = after_prefix ps cs in if p == c then rest else none

-- One more character before the place found.
abbrev pub one_before : ℕ → Option (List ℕ × List ℕ) → Option (List ℕ × List ℕ)
one_before c none = none
one_before c (some (before, after)) = some (c ∷ before, after)

-- strstr: the text before the first occurrence of `pat`, and the text after that occurrence.
unfoldable pub strstr : List ℕ → List ℕ → Option (List ℕ × List ℕ)
unfolding after_prefix
strstr pat [] = elim (after_prefix pat []) [ none ↦ none | some after ↦ some ([], after) ]
strstr pat (c ∷ cs) = elim (after_prefix pat (c ∷ cs)) [
  | none ↦ one_before c (strstr pat cs)
  | some after ↦ some ([], after)
]

-- The part from the first allocation on. `memory` says which of the two allocations succeed.
unfoldable pub fill_url :
    (List ℕ → ℤ) → Bool × Bool → List ℕ → List ℕ → List ℕ → Url → IotError × Url
fill_url atoi (false, second) protocol domain port output =
    (mem_alloc, record output { protocol = none })
fill_url atoi (true, false) protocol domain port output =
    (mem_alloc, record output { protocol = none; domain = none })
fill_url atoi (true, true) protocol domain port output =
    (error_none, record { protocol = some protocol; domain = some domain; port = atoi port })

-- The code, and the struct behind `output`.
unfoldable pub url_parse :
    (List ℕ → ℤ) → Bool × Bool → Option (List ℕ) → Option Url → IotError × Option Url
unfolding strstr fill_url
url_parse atoi memory none output = (invalid_args, output)
url_parse atoi memory (some url) none = (invalid_args, none)
url_parse atoi memory (some url) (some output) = elim (strstr separator url) [
  | none ↦ (invalid_args, some output)
  | some (protocol, rest) ↦ elim (strstr (colon ∷ []) rest) [
    | none ↦ (invalid_args, some output)
    | some (domain, port) ↦
        (let (err, filled) = fill_url atoi memory protocol domain port output in (err, some filled))
  ]
]

-- No ':' in a text
abbrev pub NoColon : List ℕ → Type 0
NoColon text = All (λ c. c ≢ colon) text

pub after_prefix-append : (pat after : List ℕ) → after_prefix pat (pat ++ after) ≡ some after
unfolding after_prefix
after_prefix-append [] after = refl
after_prefix-append (p ∷ ps) after =
    let same : (p == p) ≡ true = ground arith in rw same (after_prefix-append ps after)

strstr-colon :
    (pat before after : List ℕ)
    → NoColon before
    → strstr (colon ∷ pat) (before ++ (colon ∷ pat ++ after)) ≡ some (before, after)
unfolding strstr after_prefix
strstr-colon pat [] after h = rw (after_prefix-append pat after) refl
strstr-colon pat (c ∷ before) after (other, h) =
    let differs : (colon == c) ≡ false = ground (arith, other) in
    rw (strstr, after_prefix, differs, strstr-colon pat before after h) refl

-- A URL of a protocol and a domain without ':', joined by "://", and of a port after one more ':' is
-- taken apart into these three, if there is memory for both copies.
pub url_round_trip :
    (atoi : List ℕ → ℤ) (protocol domain port : List ℕ) (output : Url)
    → NoColon protocol
    → NoColon domain
    → url_parse atoi
        (true, true)
        (some (protocol ++ (separator ++ (domain ++ (colon ∷ port)))))
        (some output)
      ≡ (
        error_none,
        some (record { protocol = some protocol; domain = some domain; port = atoi port }),
      )
unfolding url_parse fill_url
url_round_trip atoi protocol domain port output p d =
    rw
      (
        url_parse,
        strstr-colon (47 ∷ 47 ∷ []) protocol (domain ++ (colon ∷ port)) p,
        strstr-colon [] domain port d,
      )
      refl

after_prefix_sound :
    (pat text after : List ℕ) → after_prefix pat text ≡ some after → text ≡ pat ++ after
unfolding after_prefix
after_prefix_sound [] text after h = ground (arith, h)
after_prefix_sound (p ∷ ps) [] after h = ground (arith, h)
after_prefix_sound (p ∷ ps) (c ∷ cs) after h = elim (Bool-cases (p == c)) [
  | inl same ↦
      let rest : after_prefix ps cs ≡ some after = ground (arith, h, same) in
      let tail : cs ≡ ps ++ after = after_prefix_sound ps cs after rest in
      let head : c ≡ p = ground (arith, same) in rw (head, tail) refl
  | inr other ↦ ground (arith, h, other)
]

strstr_sound :
    (pat text before after : List ℕ)
    → strstr pat text ≡ some (before, after)
    → text ≡ before ++ (pat ++ after)
unfolding strstr
strstr_sound pat [] before after h = elim (Option-cases (after_prefix pat [])) [
  | inl missing ↦ ground (arith, h, missing)
  | inr (found, there) ↦
      let b : [] ≡ before = ground (arith, h, there) in
      let a : found ≡ after = ground (arith, h, there) in
      after_prefix_sound pat [] found there ∙ rw (sym b, a) refl
]
strstr_sound pat (c ∷ cs) before after h = elim (Option-cases (after_prefix pat (c ∷ cs))) [
  | inl missing ↦ elim (Option-cases (strstr pat cs)) [
    | inl nowhere ↦ ground (arith, h, missing, nowhere)
    | inr ((before', found), there) ↦
        let b : c ∷ before' ≡ before = ground (arith, h, missing, there) in
        let a : found ≡ after = ground (arith, h, missing, there) in
        ap (◌∷◌ c) (strstr_sound pat cs before' found there) ∙ rw (sym b, a) refl
  ]
  | inr (found, there) ↦
      let b : [] ≡ before = ground (arith, h, there) in
      let a : found ≡ after = ground (arith, h, there) in
      after_prefix_sound pat (c ∷ cs) found there ∙ rw (sym b, a) refl
]

filled_sound :
    (atoi : List ℕ → ℤ) (memory : Bool × Bool) (protocol domain port : List ℕ) (output filled : Url)
    → ◌≡◌ {A = IotError × Option Url}
        (let (err, result) = fill_url atoi memory protocol domain port output in (err, some result))
        (error_none, some filled)
    → filled ≡ record { protocol = some protocol; domain = some domain; port = atoi port }
unfolding fill_url
filled_sound atoi (false, second) protocol domain port output filled h = ground (arith, h)
filled_sound atoi (true, false) protocol domain port output filled h = ground (arith, h)
filled_sound atoi (true, true) protocol domain port output filled h = ground (arith, h)

url_parse_found :
    (atoi : List ℕ → ℤ) (memory : Bool × Bool) (url protocol rest domain port : List ℕ)
    (output : Url)
    → strstr separator url ≡ some (protocol, rest)
    → strstr (colon ∷ []) rest ≡ some (domain, port)
    → url_parse atoi memory (some url) (some output)
      ≡ (let (err, result) = fill_url atoi memory protocol domain port output in (err, some result))
unfolding url_parse
url_parse_found atoi memory url protocol rest domain port output first second =
    rw (url_parse, first, second) refl

-- Where iot_util_url_parse returns no error, the URL is a protocol, "://", a domain, ':' and a port
-- text, and the struct holds copies of the first two and what atoi reads in the third.
pub url_parse_sound :
    (atoi : List ℕ → ℤ) (memory : Bool × Bool) (url : List ℕ) (output filled : Url)
    → url_parse atoi memory (some url) (some output) ≡ (error_none, some filled)
    → (protocol : List ℕ) × (domain : List ℕ) × (port : List ℕ) × (url
        ≡ protocol ++ (separator ++ (domain ++ (colon ∷ port))))
      × (filled ≡ record { protocol = some protocol; domain = some domain; port = atoi port })
unfolding url_parse
url_parse_sound atoi memory url output filled h = elim (Option-cases (strstr separator url)) [
  | inl missing ↦ ground (arith, h, missing)
  | inr ((protocol, rest), first) ↦ elim (Option-cases (strstr (colon ∷ []) rest)) [
    | inl missing ↦ ground (arith, h, first, missing)
    | inr ((domain, port), second) ↦ (
      protocol,
      domain,
      port,
      strstr_sound separator url protocol rest first
          ∙ ap (λ t. protocol ++ (separator ++ t))
              (strstr_sound (colon ∷ []) rest domain port second),
      filled_sound atoi memory protocol domain port output filled
          (sym (url_parse_found atoi memory url protocol rest domain port output first second) ∙ h),
    )
  ]
]
