-- ===== src/DumpLog/Encode.antt =====
-- The dump is the base64 text of what it holds, in pieces as it comes (src/iot_dump_log.c).
use st_device_sdk_c.Prelude.{
  ℕ, ◌+◌, ◌-◌, ◌*◌, ◌/◌, ◌%◌, ◌≤◌, ◌<◌, ◌≡◌, refl, sym, ap, ◌∙◌, Bool-cases, inl, inr, false, ◌==◌,
  List, [], ◌∷◌, ◌++◌, length, take, drop, take_all, take-append-drop, length-take, length-drop,
  length-append, Option, some, arith,
}
use st_device_sdk_c.DumpLog.{b64_encode_len, Copied, copy_groups, copy_from, copy_memory, continue}

-- The encoder as RFC 4648 has it: four characters for each group of three bytes, a group by itself,
-- and a NUL behind them for which there has to be room.
pub record IsBase64 (encode : List ℕ → ℕ → Option (List ℕ)) (text : List ℕ → List ℕ) : Type 0 where
  pub gives :
      (bytes : List ℕ) (room : ℕ)
      → b64_encode_len (length bytes) ≤ room
      → encode bytes room ≡ some (text bytes)
  pub length-text : (bytes : List ℕ) → length (text bytes) ≡ (length bytes + 2) / 3 * 4
  pub joins : (xs ys : List ℕ) → length xs % 3 ≡ 0 → text (xs ++ ys) ≡ text xs ++ text ys
  pub empty : text [] ≡ []

pub append_assoc : (xs ys zs : List ℕ) → (xs ++ ys) ++ zs ≡ xs ++ (ys ++ zs)
append_assoc [] ys zs = refl
append_assoc (x ∷ xs) ys zs = ap (◌∷◌ x) (append_assoc xs ys zs)

module _ (encode : List ℕ → ℕ → Option (List ℕ)) (text : List ℕ → List ℕ)
    (base64 : IsBase64 encode text) where
  -- What became of the bytes `src`: the text of whole groups, and fewer than three bytes left.
  abbrev pub Fed : List ℕ → Option Copied → Type 0
  Fed src result =
      (body : List ℕ) × (left : List ℕ) × (result ≡ some (text body, left))
      × (src ≡ body ++ left)
      × (length body % 3 ≡ 0)
      × (length left < 3)

  copy_groups-Fed :
      (room : ℕ) (src : List ℕ)
      → b64_encode_len (length src) ≤ room
      → Fed src (copy_groups encode room src)
  unfolding copy_groups
  copy_groups-Fed room src fits = elim (Bool-cases (length src / 3 * 3 == 0)) [
    | inl short ↦ ([], src, rw (short, base64.empty) refl, refl, refl, ground (arith, short))
    | inr some_ ↦
        let m : ℕ = length src / 3 * 3 in
        let taken : length (take m src) ≡ m = omega (arith, length-take m src) in
        let got : encode (take m src) room ≡ some (text (take m src)) =
          base64.gives (take m src) room (omega (arith, taken, fits)) in
        (
          take m src,
          drop m src,
          rw (some_, got) refl,
          sym (take-append-drop m src),
          omega (arith, taken),
          omega (arith, length-drop m src),
        )
  ]

  copy_from-Fed :
      (room : ℕ) (src remain : List ℕ)
      → length remain < 3
      → 3 ≤ length remain + length src
      → b64_encode_len (length remain + length src) ≤ room
      → Fed (remain ++ src) (copy_from encode room src remain)
  unfolding copy_from
  copy_from-Fed room src [] few enough fits = copy_groups-Fed room src (omega (arith, fits))
  copy_from-Fed room src (c ∷ cs) few enough fits =
      let pre : ℕ = 3 - length (c ∷ cs) in
      let first : List ℕ = (c ∷ cs) ++ take pre src in
      let three : length first ≡ 3 =
        omega (arith, length-append (c ∷ cs) (take pre src), length-take pre src, few, enough) in
      let got : encode first room ≡ some (text first) =
        base64.gives first room (omega (arith, three, fits, enough)) in
      let four : length (text first) ≡ 4 = omega (arith, base64.length-text first, three) in
      let rest_fits : b64_encode_len (length (drop pre src)) ≤ room - length (text first) =
        omega (arith, four, length-drop pre src, fits, few, enough) in
      let (body, left, groups, split, whole, short) =
        copy_groups-Fed (room - length (text first)) (drop pre src) rest_fits in
      (
        first ++ body,
        left,
        rw (got, groups)
            (ap (λ (t : List ℕ). some (t, left))
              (sym (base64.joins first body (omega (arith, three))))),
        ap (λ (s : List ℕ). (c ∷ cs) ++ s) (sym (take-append-drop pre src))
            ∙ sym (append_assoc (c ∷ cs) (take pre src) (drop pre src))
            ∙ ap (λ (s : List ℕ). first ++ s) split
            ∙ sym (append_assoc first body left),
        omega (arith, length-append first body, three, whole),
        short,
      )

  pub copy_memory-Fed :
      (room : ℕ) (src remain : List ℕ)
      → length remain < 3
      → 3 ≤ length remain + length src
      → 1 ≤ length src
      → b64_encode_len (length remain + length src) ≤ room
      → Fed (remain ++ src) (copy_memory encode room src remain)
  unfolding copy_memory
  copy_memory-Fed room src remain few enough some_ fits =
      let roomy : (room == 0) ≡ false = ground (arith, fits) in
      let filled : (length src == 0) ≡ false = ground (arith, some_) in
      let whole : take room src ≡ src = take_all room src (omega (arith, fits)) in
      rw (roomy, filled, whole) (copy_from-Fed room src remain few enough fits)

  -- With nothing left before, a piece may be of any length.
  pub copy_memory-Fed_first :
      (room : ℕ) (src : List ℕ)
      → 1 ≤ length src
      → b64_encode_len (length src) ≤ room
      → Fed src (copy_memory encode room src [])
  unfolding copy_memory copy_from
  copy_memory-Fed_first room src some_ fits =
      let roomy : (room == 0) ≡ false = ground (arith, fits) in
      let filled : (length src == 0) ≡ false = ground (arith, some_) in
      let whole : take room src ≡ src = take_all room src (omega (arith, fits)) in
      rw (roomy, filled, whole) (copy_groups-Fed room src fits)

  -- Two writes that follow each other.
  pub continue-Fed :
      (room : ℕ) (src rest : List ℕ) (first : Option Copied) (next : ℕ → List ℕ → Option Copied)
      → b64_encode_len (length src + length rest) ≤ room
      → Fed src first
      → ((r : ℕ) (left : List ℕ)
          → length left < 3
          → b64_encode_len (length left + length rest) ≤ r
          → Fed (left ++ rest) (next r left))
      → Fed (src ++ rest) (continue encode room first next)
  continue-Fed room src rest first next fits (body, left, e, split, whole, short) then_ =
      let size : length src ≡ length body + length left =
        ap length split ∙ length-append body left in
      let text_size = base64.length-text body in
      let rest_fits : b64_encode_len (length left + length rest) ≤ room - length (text body) =
        omega (arith, size, text_size, fits, whole) in
      let (body', left', e', split', whole', short') =
        then_ (room - length (text body)) left short rest_fits in
      (
        body ++ body',
        left',
        rw (e, e') (ap (λ (t : List ℕ). some (t, left')) (sym (base64.joins body body' whole))),
        ap (λ (s : List ℕ). s ++ rest) split
            ∙ append_assoc body left rest
            ∙ ap (λ (s : List ℕ). body ++ s) split'
            ∙ sym (append_assoc body body' left'),
        omega (arith, length-append body body', whole, whole'),
        short',
      )
