-- ===== src/Prelude/Lists.antt =====
-- Lists measured and indexed by native numbers, under the library's names.
use Prim.Native.Nat.{ℕ, zero, suc, ◌+◌, ◌-◌, ◌≤◌, ◌<◌, min}
use mathlib.Core.Path.{◌≡◌, refl, sym, ap, ◌∙◌}
use mathlib.Core.Option.{Option, none, some}
use mathlib.Core.List.{List, [], ◌∷◌, ◌++◌}
use native.Mathlib.Omega.{arith}

module _ {ℓ} {A : Type ℓ} where
  abbrev pub length : List A → ℕ
  length [] = 0
  length (x ∷ xs) = suc (length xs)

  abbrev pub get_or : List A → ℕ → A → A
  get_or [] i d = d
  get_or (x ∷ xs) zero d = x
  get_or (x ∷ xs) (suc i) d = get_or xs i d

  abbrev pub get_elem? : List A → ℕ → Option A
  get_elem? [] i = none
  get_elem? (x ∷ xs) zero = some x
  get_elem? (x ∷ xs) (suc i) = get_elem? xs i

  abbrev pub take : ℕ → List A → List A
  take zero xs = []
  take (suc n) [] = []
  take (suc n) (x ∷ xs) = x ∷ take n xs

  abbrev pub drop : ℕ → List A → List A
  drop zero xs = xs
  drop (suc n) [] = []
  drop (suc n) (x ∷ xs) = drop n xs

  abbrev pub replicate : ℕ → A → List A
  replicate zero a = []
  replicate (suc n) a = a ∷ replicate n a

  abbrev pub All {κ} : (A → Type κ) → List A → Type κ
  All P [] = Unit {κ}
  All P (x ∷ xs) = P x × All P xs

  pub length-append : (xs ys : List A) → length (xs ++ ys) ≡ length xs + length ys
  length-append [] ys = omega arith
  length-append (x ∷ xs) ys = omega (arith, length-append xs ys)

  pub length-take : (n : ℕ) (xs : List A) → length (take n xs) ≡ min n (length xs)
  length-take zero xs = omega arith
  length-take (suc n) [] = omega arith
  length-take (suc n) (x ∷ xs) = omega (arith, length-take n xs)

  pub length-drop : (n : ℕ) (xs : List A) → length (drop n xs) ≡ length xs - n
  length-drop zero xs = omega arith
  length-drop (suc n) [] = omega arith
  length-drop (suc n) (x ∷ xs) = omega (arith, length-drop n xs)

  pub take-append-drop : (n : ℕ) (xs : List A) → take n xs ++ drop n xs ≡ xs
  take-append-drop zero xs = refl
  take-append-drop (suc n) [] = refl
  take-append-drop (suc n) (x ∷ xs) = rw (take-append-drop n xs)

module _ {ℓ κ} {A : Type ℓ} (P : A → Type κ) where
  pub All-take : (n : ℕ) (xs : List A) → All P xs → All P (take n xs)
  All-take zero xs h = tt
  All-take (suc n) [] h = tt
  All-take (suc n) (x ∷ xs) h = (h.0, All-take n xs h.1)

  pub All-append : (xs ys : List A) → All P xs → All P ys → All P (xs ++ ys)
  All-append [] ys h k = k
  All-append (x ∷ xs) ys h k = (h.0, All-append xs ys h.1 k)

module _ {ℓ} {A : Type ℓ} where
  -- `xs[i] = a`; nothing behind the end
  abbrev pub set_at : List A → ℕ → A → List A
  set_at [] i a = []
  set_at (x ∷ xs) zero a = a ∷ xs
  set_at (x ∷ xs) (suc i) a = x ∷ set_at xs i a

  pub length-set_at : (xs : List A) (i : ℕ) (a : A) → length (set_at xs i a) ≡ length xs
  length-set_at [] i a = refl
  length-set_at (x ∷ xs) zero a = refl
  length-set_at (x ∷ xs) (suc i) a = ap suc (length-set_at xs i a)

  pub take-set_at :
      (xs : List A) (i : ℕ) (a : A)
      → i < length xs
      → take (suc i) (set_at xs i a) ≡ take i xs ++ a ∷ []
  take-set_at [] i a h = elim h [ ]
  take-set_at (x ∷ xs) zero a h = refl
  take-set_at (x ∷ xs) (suc i) a h = ap (◌∷◌ x) (take-set_at xs i a (omega arith))

  pub drop-set_at : (xs : List A) (i : ℕ) (a : A) → drop (suc i) (set_at xs i a) ≡ drop (suc i) xs
  drop-set_at [] i a = refl
  drop-set_at (x ∷ xs) zero a = refl
  drop-set_at (x ∷ xs) (suc i) a = drop-set_at xs i a

  pub take_all : (n : ℕ) (xs : List A) → length xs ≤ n → take n xs ≡ xs
  take_all zero [] h = refl
  take_all zero (x ∷ xs) h = elim h [ ]
  take_all (suc n) [] h = refl
  take_all (suc n) (x ∷ xs) h = ap (◌∷◌ x) (take_all n xs (omega arith))

  pub drop_all : (n : ℕ) (xs : List A) → length xs ≤ n → drop n xs ≡ []
  drop_all zero [] h = refl
  drop_all zero (x ∷ xs) h = elim h [ ]
  drop_all (suc n) [] h = refl
  drop_all (suc n) (x ∷ xs) h = drop_all n xs (omega arith)

  pub drop_eq : (m n : ℕ) (xs : List A) → m ≡ n → drop m xs ≡ drop n xs
  drop_eq m n xs e = ap (λ (k : ℕ). drop k xs) e

  pub take_eq : (m n : ℕ) (xs : List A) → m ≡ n → take m xs ≡ take n xs
  take_eq m n xs e = ap (λ (k : ℕ). take k xs) e

  pub drop-drop : (m n : ℕ) (xs : List A) → drop m (drop n xs) ≡ drop (n + m) xs
  drop-drop m zero xs = drop_eq m (0 + m) xs (omega arith)
  drop-drop m (suc n) [] = drop_all m [] (omega arith) ∙ sym (drop_all (suc n + m) [] (omega arith))
  drop-drop m (suc n) (x ∷ xs) =
      drop-drop m n xs ∙ drop_eq (suc (n + m)) (suc n + m) (x ∷ xs) (omega arith)

  pub drop-append : (n : ℕ) (xs ys : List A) → n ≤ length xs → drop n (xs ++ ys) ≡ drop n xs ++ ys
  drop-append zero xs ys h = refl
  drop-append (suc n) [] ys h = elim h [ ]
  drop-append (suc n) (x ∷ xs) ys h = drop-append n xs ys (omega arith)

  pub take-append : (n : ℕ) (xs ys : List A) → n ≤ length xs → take n (xs ++ ys) ≡ take n xs
  take-append zero xs ys h = refl
  take-append (suc n) [] ys h = elim h [ ]
  take-append (suc n) (x ∷ xs) ys h = ap (◌∷◌ x) (take-append n xs ys (omega arith))

  pub take-append_over :
      (n : ℕ) (xs ys : List A) → length xs ≤ n → take n (xs ++ ys) ≡ xs ++ take (n - length xs) ys
  take-append_over n [] ys h = ap (λ (k : ℕ). take k ys) (omega arith)
  take-append_over zero (x ∷ xs) ys h = elim h [ ]
  take-append_over (suc n) (x ∷ xs) ys h =
      ap (◌∷◌ x)
        (take-append_over n xs ys (omega arith) ∙ ap (λ (k : ℕ). xs ++ take k ys) (omega arith))

  pub drop-take : (n m : ℕ) (xs : List A) → drop n (take m xs) ≡ take (m - n) (drop n xs)
  drop-take zero m xs = ap (λ (k : ℕ). take k xs) (omega arith)
  drop-take (suc n) zero xs = ap (λ (k : ℕ). take k (drop (suc n) xs)) (none_left n)
    where
      none_left : (n : ℕ) → 0 ≡ 0 - suc n
      none_left n = omega arith
  drop-take (suc n) (suc m) [] = sym (take_all (suc m - suc n) [] (omega arith))
  drop-take (suc n) (suc m) (x ∷ xs) =
      drop-take n m xs ∙ ap (λ (k : ℕ). take k (drop n xs)) (omega arith)

  pub take-take : (n m : ℕ) (xs : List A) → n ≤ m → take n (take m xs) ≡ take n xs
  take-take zero m xs h = refl
  take-take (suc n) zero xs h = elim h [ ]
  take-take (suc n) (suc m) [] h = refl
  take-take (suc n) (suc m) (x ∷ xs) h = ap (◌∷◌ x) (take-take n m xs (omega arith))

  pub take-take-min : (n m : ℕ) (xs : List A) → take n (take m xs) ≡ take (min n m) xs
  take-take-min zero m xs = take_eq zero (min zero m) xs (omega arith)
  take-take-min (suc n) zero xs = take_eq zero (min (suc n) zero) xs (omega arith)
  take-take-min (suc n) (suc m) [] = sym (take_all (min (suc n) (suc m)) [] (omega arith))
  take-take-min (suc n) (suc m) (x ∷ xs) =
      ap (◌∷◌ x) (take-take-min n m xs)
      ∙ take_eq (suc (min n m)) (min (suc n) (suc m)) (x ∷ xs) (omega arith)

  pub append_assoc : (xs ys zs : List A) → (xs ++ ys) ++ zs ≡ xs ++ (ys ++ zs)
  append_assoc [] ys zs = refl
  append_assoc (x ∷ xs) ys zs = ap (◌∷◌ x) (append_assoc xs ys zs)

  pub append_nil : (xs : List A) → xs ++ [] ≡ xs
  append_nil [] = refl
  append_nil (x ∷ xs) = ap (◌∷◌ x) (append_nil xs)

  pub length-replicate : (n : ℕ) (a : A) → length (replicate n a) ≡ n
  length-replicate zero a = refl
  length-replicate (suc n) a = ap suc (length-replicate n a)
