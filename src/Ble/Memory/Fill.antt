-- ===== src/Ble/Memory/Fill.antt =====
-- A buffer that is filled from its start (memcpy in src/easysetup/ble/iot_easysetup_ble_msg.c).
use st_device_sdk_c.Prelude.{
  ℕ, zero, suc, ◌+◌, ◌≡◌, refl, sym, ap, ◌∙◌, true, leb, List, [], ◌∷◌, ◌++◌, length, take, drop,
  replicate, length-append, length-replicate, append_assoc, take_all, none, some, arith,
}
use st_device_sdk_c.Ble.{stored, Cell, Buffer}
use st_device_sdk_c.Ble.Memory.{read_in, write_in, copy_in}

-- A buffer of which the first bytes are written and `left` are not.
abbrev pub written : List ℕ → ℕ → List Cell
written bytes left = stored bytes ++ replicate left none

abbrev pub holding : List ℕ → ℕ → Buffer
holding bytes left = record { len = length bytes + left; p = some (written bytes left) }

pub length-stored : (xs : List ℕ) → length (stored xs) ≡ length xs
length-stored [] = refl
length-stored (x ∷ xs) = ap suc (length-stored xs)

stored-append : (xs ys : List ℕ) → stored (xs ++ ys) ≡ stored xs ++ stored ys
stored-append [] ys = refl
stored-append (x ∷ xs) ys = ap (◌∷◌ (some x)) (stored-append xs ys)

pub take-stored : (xs : List ℕ) (ys : List Cell) → take (length xs) (stored xs ++ ys) ≡ stored xs
take-stored [] ys = refl
take-stored (x ∷ xs) ys = ap (◌∷◌ (some x)) (take-stored xs ys)

drop-stored :
    (xs : List ℕ) (n : ℕ) (ys : List Cell) → drop (length xs + n) (stored xs ++ ys) ≡ drop n ys
drop-stored [] n ys = ap (λ (k : ℕ). drop k ys) (omega arith)
drop-stored (x ∷ xs) n ys =
    ap (λ (k : ℕ). drop k (some x ∷ (stored xs ++ ys)))
      (let same : suc (length xs) + n ≡ suc (length xs + n) = omega arith in same)
    ∙ drop-stored xs n ys

drop-replicate : (n k : ℕ) (c : Cell) → drop n (replicate (n + k) c) ≡ replicate k c
drop-replicate zero k c = ap (λ (i : ℕ). replicate i c) (omega arith)
drop-replicate (suc n) k c =
    ap (λ (i : ℕ). drop (suc n) (replicate i c))
      (let same : suc n + k ≡ suc (n + k) = omega arith in same)
    ∙ drop-replicate n k c

write_in-written :
    (front seg : List ℕ) (left : ℕ)
    → write_in (written front (length seg + left)) (length front) seg
      ≡ some (written (front ++ seg) left)
unfolding write_in
write_in-written front seg left =
    let fits : leb (length front + length seg) (length (written front (length seg + left))) ≡ true =
      ground (
        arith,
        length-append (stored front) (replicate (length seg + left) none),
        length-stored front,
        length-replicate {A = Cell} (length seg + left) none,
      ) in
    rw
      (
        fits,
        take-stored front (replicate (length seg + left) none),
        drop-stored front (length seg) (replicate (length seg + left) none),
        drop-replicate (length seg) left none,
        stored-append front seg,
      )
      (ap (λ (t : List Cell). some t)
        (sym (append_assoc (stored front) (stored seg) (replicate left none))))

read_in_all : (seg : List ℕ) → read_in seg (length seg) ≡ some seg
unfolding read_in
read_in_all seg = ground (arith, take_all (length seg) seg)

-- One more segment in the buffer.
pub copy_in-holding :
    (front seg : List ℕ) (left : ℕ)
    → copy_in (holding front (length seg + left)) (length front) seg (length seg)
      ≡ some (holding (front ++ seg) left)
unfolding copy_in
copy_in-holding front seg left =
    rw (read_in_all seg, write_in-written front seg left)
      (ap (λ (n : ℕ). some (record { len = n; p = some (written (front ++ seg) left) }))
        (omega (arith, length-append front seg)))
