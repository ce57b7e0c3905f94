-- ===== src/Security/Names.antt =====
-- The names of the items (src/port/bsp/posix/iot_bsp_nv_data_posix.c).
use st_device_sdk_c.Prelude.{
  ℕ, zero, suc, ◌<◌, ◌+◌, ◌≡◌, refl, ap, ◌∙◌, Bool, true, false, not, ◌&&◌, ltb, ltb→lt, ◌==◌,
  subst, List, [], ◌∷◌, length, get_elem?, some, arith,
}
use st_device_sdk_c.Security.{filename_max}
use st_device_sdk_c.Security.Posix.{nv_get_data_path, nv_names}

-- Texts that all differ: a text stands at one place.
abbrev pub same_text : List ℕ → List ℕ → Bool
same_text [] [] = true
same_text [] (d ∷ ds) = false
same_text (c ∷ cs) [] = false
same_text (c ∷ cs) (d ∷ ds) = c == d && same_text cs ds

pub same_text_refl : (xs : List ℕ) → same_text xs xs ≡ true
same_text_refl [] = refl
same_text_refl (c ∷ cs) =
    let same : (c == c) ≡ true = ground arith in rw (same, same_text_refl cs) refl

pub same_text-eq : (xs ys : List ℕ) → same_text xs ys ≡ true → xs ≡ ys
same_text-eq [] [] h = refl
same_text-eq [] (d ∷ ds) h = ground (arith, h)
same_text-eq (c ∷ cs) [] h = ground (arith, h)
same_text-eq (c ∷ cs) (d ∷ ds) h =
    let first : c ≡ d = ground (arith, h) in
    let rest : same_text cs ds ≡ true = ground (arith, h) in
    ap (λ (x : ℕ). x ∷ cs) first ∙ ap (λ (xs : List ℕ). d ∷ xs) (same_text-eq cs ds rest)

abbrev absent : List ℕ → List (List ℕ) → Bool
absent name [] = true
absent name (x ∷ xs) = not (same_text x name) && absent name xs

abbrev all_differ : List (List ℕ) → Bool
all_differ [] = true
all_differ (x ∷ xs) = absent x xs && all_differ xs

absent_lem :
    (xs : List (List ℕ)) (n : ℕ) (name : List ℕ)
    → get_elem? xs n ≡ some name
    → absent name xs ≡ true
    → ⊥
absent_lem [] n name at h = ground (arith, at)
absent_lem (x ∷ xs) zero name at h =
    let e : x ≡ name = ground (arith, at) in
    let same : same_text x name ≡ true =
      subst (λ (y : List ℕ). same_text x y ≡ true) e (same_text_refl x) in
    ground (arith, same, h)
absent_lem (x ∷ xs) (suc n) name at h = absent_lem xs n name at (ground (arith, h))

-- A name stands at one place of texts that all differ.
get_elem?-unique :
    (xs : List (List ℕ)) (m n : ℕ) (name : List ℕ)
    → all_differ xs ≡ true
    → get_elem? xs m ≡ some name
    → get_elem? xs n ≡ some name
    → m ≡ n
get_elem?-unique [] m n name h at at' = ground (arith, at)
get_elem?-unique (x ∷ xs) zero zero name h at at' = refl
get_elem?-unique (x ∷ xs) zero (suc n) name h at at' =
    let e : x ≡ name = ground (arith, at) in
    let fresh : absent x xs ≡ true = ground (arith, h) in
    absurd (absent_lem xs n name at' (subst (λ (y : List ℕ). absent y xs ≡ true) e fresh))
get_elem?-unique (x ∷ xs) (suc m) zero name h at at' =
    let e : x ≡ name = ground (arith, at') in
    let fresh : absent x xs ≡ true = ground (arith, h) in
    absurd (absent_lem xs m name at (subst (λ (y : List ℕ). absent y xs ≡ true) e fresh))
get_elem?-unique (x ∷ xs) (suc m) (suc n) name h at at' =
    let rest : all_differ xs ≡ true = ground (arith, h) in
    ap suc (get_elem?-unique xs m n name rest at at')

pub paths_differ :
    (m n : ℕ) (name : List ℕ)
    → nv_get_data_path m ≡ some name
    → nv_get_data_path n ≡ some name
    → m ≡ n
paths_differ zero n name at at' = ground (arith, at)
paths_differ (suc m) zero name at at' = ground (arith, at')
paths_differ (suc m) (suc n) name at at' = ap suc (get_elem?-unique nv_names m n name refl at at')

abbrev all_fit : List (List ℕ) → Bool
all_fit [] = true
all_fit (x ∷ xs) = ltb (length x) 62 && all_fit xs

get_elem?-fits :
    (xs : List (List ℕ)) (n : ℕ) (name : List ℕ)
    → all_fit xs ≡ true
    → get_elem? xs n ≡ some name
    → ltb (length name) 62 ≡ true
get_elem?-fits [] n name h at = ground (arith, at)
get_elem?-fits (x ∷ xs) zero name h at = ground (arith, h, at)
get_elem?-fits (x ∷ xs) (suc n) name h at = get_elem?-fits xs n name (ground (arith, h)) at

pub paths_fit :
    (n : ℕ) (name : List ℕ) → nv_get_data_path n ≡ some name → length name + 2 < filename_max
paths_fit zero name at = ground (arith, at)
paths_fit (suc n) name at =
    omega (arith, ltb→lt (length name) 62 (get_elem?-fits nv_names n name refl at))
