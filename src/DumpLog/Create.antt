-- ===== src/DumpLog/Create.antt =====
-- st_create_log_dump (src/iot_dump_log.c).
use st_device_sdk_c.Prelude.{
  ℕ, ◌+◌, ◌-◌, ◌%◌, ◌≤◌, ◌<◌, ◌≡◌, refl, sym, ap, ◌∙◌, false, ltb, List, [], ◌∷◌, ◌++◌, length,
  length-append, Option, some, arith,
}
use st_device_sdk_c.DumpLog.{b64_encode_len, padding, state_bytes, max_msg_size, create_log_dump}
use st_device_sdk_c.DumpLog.Encode.{IsBase64, append_assoc}
use st_device_sdk_c.DumpLog.Whole.{IsLong, write_parts-Fed, finish_lem, length-filler}

module _ (encode : List ℕ → ℕ → Option (List ℕ)) (text : List ℕ → List ℕ)
    (base64 : IsBase64 encode text) where
  -- What a dump holds: the header, the state, and what is read of the log, as many bytes as there are
  -- whole lines for which there is room.
  abbrev pub dumped : ℕ → List ℕ → Option (List ℕ) → ℕ → (ℕ → List ℕ) → List ℕ
  dumped max_size header state stored_len read_log =
      let head_len : ℕ = length header + length (state_bytes encode state) in
      header
      ++ (state_bytes encode state ++ read_log (max_msg_size encode max_size head_len stored_len))

  length-padding :
      (overlap : ℕ → ℕ × ℕ) (left : List ℕ)
      → length left < 3
      → length (padding encode overlap left) ≡ (3 - length left) % 3
  length-padding overlap [] few = refl
  length-padding overlap (c ∷ cs) few =
      omega (arith, few, length-filler encode text base64 overlap c cs)

  -- st_create_log_dump in base64, with memory, for a size that has room for the header and the state:
  -- and for reads of the log that give as many bytes as asked for: it succeeds, with the base64 text of
  -- the header, the state and the bytes read, in one piece although it was encoded in many, in at most
  -- the size asked for with the NUL. If two bytes are left over behind the whole groups of three, they
  -- are followed by the first of them, not by a zero; if one is left over, by what the overlapping copy
  -- gives.
  pub dump_encodes :
      (overlap : ℕ → ℕ × ℕ) (max_size : ℕ) (header : List ℕ) (state : Option (List ℕ))
      (stored_len : ℕ) (read_log : ℕ → List ℕ)
      → ((n : ℕ) → n ≤ stored_len → length (read_log n) ≡ n)
      → 1 ≤ length header
      → IsLong encode text base64 state
      → b64_encode_len (length header + length (state_bytes encode state)) ≤ max_size
      → let all = dumped max_size header state stored_len read_log in
        (body : List ℕ) × (left : List ℕ) × (all ≡ body ++ left)
        × (length body % 3 ≡ 0)
        × (length left < 3)
        × (create_log_dump encode overlap max_size header state stored_len read_log
            ≡ some (text (all ++ padding encode overlap left)))
        × (length (text (all ++ padding encode overlap left)) + 1 ≤ max_size)
  unfolding create_log_dump
  dump_encodes overlap max_size header state stored_len read_log reads some_ long fits =
      let head_len : ℕ = length header + length (state_bytes encode state) in
      let n : ℕ = max_msg_size encode max_size head_len stored_len in
      let log : List ℕ = read_log n in
      let room : ℕ = b64_encode_len (length log + head_len) in
      let all : List ℕ = dumped max_size header state stored_len read_log in
      let log_len : length log ≡ n = reads n (omega arith) in
      let all_len : length all ≡ head_len + n = omega (
        arith,
        log_len,
        length-append header (state_bytes encode state ++ log),
        length-append (state_bytes encode state) log,
      ) in
      let enough : ltb max_size (b64_encode_len head_len) ≡ false = ground (arith, fits) in
      let (body, left, e, split, whole, short) =
        write_parts-Fed encode text base64 room header state log some_ long
          (omega (arith, log_len)) in
      let sizes : length all ≡ length body + length left =
        ap length split ∙ length-append body left in
      let end_ =
        finish_lem encode text base64 overlap (room - length (text body)) left short
          (omega (arith, base64.length-text body, sizes, all_len, log_len, whole, short)) in
      let joined : text body ++ text (left ++ padding encode overlap left)
          ≡ text (all ++ padding encode overlap left) =
        sym (base64.joins body (left ++ padding encode overlap left) whole)
        ∙ ap text (
            sym (append_assoc body left (padding encode overlap left))
            ∙ ap (λ (s : List ℕ). s ++ padding encode overlap left) (sym split)) in
      (
        body,
        left,
        split,
        whole,
        short,
        rw (enough, e, end_) (ap some joined),
        omega (
          arith,
          base64.length-text (all ++ padding encode overlap left),
          length-append all (padding encode overlap left),
          length-padding overlap left short,
          sizes,
          all_len,
          whole,
          short,
          fits,
        ),
      )
