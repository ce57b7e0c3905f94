-- ===== src/DumpLog/Whole.antt =====
-- The whole dump: header, state and log (src/iot_dump_log.c: st_create_log_dump).
use st_device_sdk_c.Prelude.{
  ℕ, zero, suc, ◌+◌, ◌-◌, ◌≤◌, ◌<◌, ◌≡◌, refl, sym, ap, ◌∙◌, subst, min, List, [], ◌∷◌, ◌++◌,
  length, take, drop, take-append-drop, length-take, length-drop, length-append, Option, none, some,
  arith,
}
use st_device_sdk_c.DumpLog.{
  dump_buffer_size, b64_encode_len, Copied, copy_memory, copy_log, padding, finish, copy_state,
  state_bytes, write_parts, continue,
}
use st_device_sdk_c.DumpLog.Encode.{
  IsBase64, Fed, append_assoc, copy_memory-Fed, copy_memory-Fed_first, continue-Fed,
}

pub append_nil : (xs : List ℕ) → xs ++ [] ≡ xs
append_nil [] = refl
append_nil (x ∷ xs) = ap (◌∷◌ x) (append_nil xs)

module _ (encode : List ℕ → ℕ → Option (List ℕ)) (text : List ℕ → List ℕ)
    (base64 : IsBase64 encode text) where
  abbrev Feeds : List ℕ → Option Copied → Type 0
  Feeds = Fed encode text base64

  -- Nothing is written, and what was left stays.
  nothing-Fed : (remain : List ℕ) → length remain < 3 → Feeds (remain ++ []) (some ([], remain))
  nothing-Fed remain few = ([], remain, rw base64.empty refl, append_nil remain, refl, few)

  copy_log-Fed :
      (n room : ℕ) (log remain : List ℕ)
      → length log ≤ n
      → length remain < 3
      → b64_encode_len (length remain + length log) ≤ room
      → Feeds (remain ++ log) (copy_log encode n room log remain)
  unfolding copy_log
  copy_log-Fed zero room [] remain all few fits = nothing-Fed remain few
  copy_log-Fed zero room (x ∷ xs) remain all few fits = absurd (omega (arith, all))
  copy_log-Fed (suc n) room [] remain all few fits = nothing-Fed remain few
  copy_log-Fed (suc n) room (x ∷ xs) remain all few fits =
      let size : ℕ = min (dump_buffer_size - length remain) (length (x ∷ xs)) in
      let chunk : List ℕ = remain ++ take size (x ∷ xs) in
      let chunk_len : length chunk ≡ length remain + size =
        omega (arith, length-append remain (take size (x ∷ xs)), length-take size (x ∷ xs)) in
      let rest_len : length (drop size (x ∷ xs)) ≡ length (x ∷ xs) - size =
        length-drop size (x ∷ xs) in
      let same : chunk ++ drop size (x ∷ xs) ≡ remain ++ (x ∷ xs) =
        append_assoc remain (take size (x ∷ xs)) (drop size (x ∷ xs))
        ∙ ap (λ (s : List ℕ). remain ++ s) (take-append-drop size (x ∷ xs)) in
      subst (λ (s : List ℕ). Feeds s (copy_log encode (suc n) room (x ∷ xs) remain)) same
        (continue-Fed encode text base64 room chunk (drop size (x ∷ xs))
          (copy_memory encode room chunk [])
          (λ r left. copy_log encode n r (drop size (x ∷ xs)) left)
          (omega (arith, chunk_len, rest_len, fits))
          (copy_memory-Fed_first encode text base64 room chunk (omega (arith, chunk_len, few))
            (omega (arith, chunk_len, rest_len, fits)))
          (λ r left short room_left.
            copy_log-Fed n r (drop size (x ∷ xs)) left (omega (arith, rest_len, all, few)) short
              room_left))

  -- A state that is there has at least the bytes of a group.
  abbrev pub IsLong : Option (List ℕ) → Type 0
  IsLong none = Unit {0}
  IsLong (some state) = 3 ≤ length state

  copy_state-Fed :
      (room : ℕ) (state : Option (List ℕ)) (remain : List ℕ)
      → IsLong state
      → length remain < 3
      → b64_encode_len (length remain + length (state_bytes encode state)) ≤ room
      → Feeds (remain ++ state_bytes encode state) (copy_state encode room state remain)
  copy_state-Fed room none remain long few fits = nothing-Fed remain few
  copy_state-Fed room (some state) remain long few fits =
      copy_memory-Fed encode text base64 room state remain few (omega (arith, long))
        (omega (arith, long)) fits

  pub write_parts-Fed :
      (room : ℕ) (header : List ℕ) (state : Option (List ℕ)) (log : List ℕ)
      → 1 ≤ length header
      → IsLong state
      → b64_encode_len (length header + (length (state_bytes encode state) + length log)) ≤ room
      → Feeds
          (header ++ (state_bytes encode state ++ log))
          (write_parts encode room header state log)
  unfolding write_parts
  write_parts-Fed room header state log some_ long fits =
      let both : length (state_bytes encode state ++ log)
          ≡ length (state_bytes encode state) + length log =
        length-append (state_bytes encode state) log in
      continue-Fed encode text base64 room header (state_bytes encode state ++ log)
        (copy_memory encode room header []) _ (omega (arith, both, fits))
        (copy_memory-Fed_first encode text base64 room header some_ (omega (arith, fits)))
        (λ r1 left1 short1 fits1.
          subst
            (λ (s : List ℕ). Feeds s (
              continue encode r1 (copy_state encode r1 state left1)
                (λ r2 left2. copy_log encode (length log) r2 log left2)))
            (append_assoc left1 (state_bytes encode state) log)
            (continue-Fed encode text base64 r1 (left1 ++ state_bytes encode state) log
              (copy_state encode r1 state left1)
              (λ r2 left2. copy_log encode (length log) r2 log left2)
              (omega (arith, both, fits1, length-append left1 (state_bytes encode state)))
              (copy_state-Fed r1 state left1 long short1 (omega (arith, both, fits1)))
              (λ r2 left2 short2 fits2.
                copy_log-Fed (length log) r2 log left2 (omega arith) short2 fits2)))

  no_bytes : (rest : List ℕ) → length rest ≡ 0 → rest ≡ []
  no_bytes [] h = refl
  no_bytes (x ∷ xs) h = absurd (omega (arith, h))

  -- Of one group nothing is left.
  group_end :
      (src : List ℕ) (result : Option Copied)
      → length src ≡ 3
      → Feeds src result
      → result ≡ some (text src, [])
  group_end src result three (body, rest, e, split, whole, short) =
      let sizes : 3 ≡ length body + length rest =
        sym three ∙ ap length split ∙ length-append body rest in
      let none_left : rest ≡ [] = no_bytes rest (omega (arith, sizes, whole, short)) in
      let all : src ≡ body = split ∙ ap (λ (r : List ℕ). body ++ r) none_left ∙ append_nil body in
      e
      ∙ ap (λ (r : List ℕ). some (text body, r)) none_left
      ∙ ap (λ (s : List ℕ). some (text s, [])) (sym all)

  pub length-filler :
      (overlap : ℕ → ℕ × ℕ) (c : ℕ) (cs : List ℕ)
      → length (padding encode overlap (c ∷ cs)) ≡ 3 - length (c ∷ cs)
  length-filler overlap c [] = refl
  length-filler overlap c (d ∷ cs) = omega (arith, length-take (3 - length (c ∷ d ∷ cs)) (c ∷ []))

  -- The end of the dump.
  pub finish_lem :
      (overlap : ℕ → ℕ × ℕ) (room : ℕ) (left : List ℕ)
      → length left < 3
      → b64_encode_len (length left) ≤ room
      → finish encode overlap room left ≡ some (text (left ++ padding encode overlap left), [])
  unfolding finish
  finish_lem overlap room [] few fits = rw base64.empty refl
  finish_lem overlap room (c ∷ cs) few fits =
      let pad : List ℕ = padding encode overlap (c ∷ cs) in
      let pad_len : length pad ≡ 3 - length (c ∷ cs) = length-filler overlap c cs in
      group_end ((c ∷ cs) ++ pad) (copy_memory encode room pad (c ∷ cs))
        (omega (arith, length-append (c ∷ cs) pad, pad_len, few))
        (copy_memory-Fed encode text base64 room pad (c ∷ cs) few (omega (arith, pad_len))
          (omega (arith, pad_len, few)) (omega (arith, pad_len, fits, few)))
