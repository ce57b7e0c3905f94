-- ===== src/DumpLog.antt =====
-- The dump of the log (src/iot_dump_log.c), as base64. The header, the state and what is read of the
-- log are given as their bytes; the encoder is an argument.
pub mod Encode
pub mod Whole
pub mod Create
mod Tests
use st_device_sdk_c.Prelude.{
  ℕ, zero, suc, ◌+◌, ◌-◌, ◌*◌, ◌/◌, min, Bool, true, false, ◌||◌, ltb, ◌==◌, if◌then◌else◌, List,
  [], ◌∷◌, ◌++◌, length, take, drop, Option, none, some,
}
use st_device_sdk_c.Prelude.Options.{◌>>=◌}

-- IOT_DUMP_BUFFER_SIZE
abbrev pub dump_buffer_size : ℕ
dump_buffer_size = 48

-- IOT_SECURITY_B64_ENCODE_LEN
abbrev pub b64_encode_len : ℕ → ℕ
b64_encode_len n = (n + 2) / 3 * 4 + 1

-- What was written, and the bytes that are left for the next call, in front of the buffer.
abbrev pub Copied : Type 0
Copied = List ℕ × List ℕ

-- iot_security_base64_encode into a buffer of a size
module _ (encode : List ℕ → ℕ → Option (List ℕ)) where
  -- The whole groups of three bytes; the others are left.
  unfoldable pub copy_groups : ℕ → List ℕ → Option Copied
  copy_groups dest_size src =
      let main_len : ℕ = length src / 3 * 3 in
      if main_len == 0
      then some ([], src)
      else (do out ← encode (take main_len src) dest_size; some (out, drop main_len src))

  -- The bytes that were left, filled up to a group; then the others.
  unfoldable pub copy_from : ℕ → List ℕ → List ℕ → Option Copied
  copy_from dest_size src [] = copy_groups dest_size src
  copy_from dest_size src (c ∷ cs) = do
    let pre : ℕ = 3 - length (c ∷ cs)
    pre_out ← encode ((c ∷ cs) ++ take pre src) dest_size
    (out, left) ← copy_groups (dest_size - length pre_out) (drop pre src)
    some (pre_out ++ out, left)

  -- _iot_dump_copy_memory of base64; `none` for an error
  unfoldable pub copy_memory : ℕ → List ℕ → List ℕ → Option Copied
  copy_memory dest_size src remain =
      if dest_size == 0 || length src == 0
      then none
      else copy_from dest_size (take dest_size src) remain

  -- Two writes, one behind the other.
  abbrev pub continue : ℕ → Option Copied → (ℕ → List ℕ → Option Copied) → Option Copied
  continue room first next = do
    (out, left) ← first
    (out', left') ← next (room - length out) left
    some (out ++ out', left')

  -- The loop over the log, through a buffer that starts with the bytes that were left. Each round takes
  -- one byte at least, so the length of the log is fuel enough.
  unfoldable pub copy_log : ℕ → ℕ → List ℕ → List ℕ → Option Copied
  copy_log zero room log remain = some ([], remain)
  copy_log (suc n) room [] remain = some ([], remain)
  copy_log (suc n) room (x ∷ xs) remain =
      let size : ℕ = min (dump_buffer_size - length remain) (length (x ∷ xs)) in
      continue room (copy_memory room (remain ++ take size (x ∷ xs)) [])
        (λ room' left. copy_log n room' (drop size (x ∷ xs)) left)

  -- What fills up the last group: the buffer from its start, where the bytes that were left stand
  -- before the zeros. For one byte the two places of the copy overlap, which C leaves undefined: what
  -- it then gives is `overlap`.
  abbrev pub padding : (ℕ → ℕ × ℕ) → List ℕ → List ℕ
  padding overlap [] = []
  padding overlap (c ∷ []) = let (x, y) = overlap c in x ∷ y ∷ []
  padding overlap (c ∷ d ∷ cs) = take (3 - length (c ∷ d ∷ cs)) (c ∷ [])

  unfoldable pub finish : (ℕ → ℕ × ℕ) → ℕ → List ℕ → Option Copied
  finish overlap room [] = some ([], [])
  finish overlap room (c ∷ cs) = copy_memory room (padding overlap (c ∷ cs)) (c ∷ cs)

  -- With IOT_DUMP_MODE_NEED_DUMP_STATE, the state.
  abbrev pub copy_state : ℕ → Option (List ℕ) → List ℕ → Option Copied
  copy_state room none remain = some ([], remain)
  copy_state room (some state) remain = copy_memory room state remain

  abbrev pub state_bytes : Option (List ℕ) → List ℕ
  state_bytes none = []
  state_bytes (some state) = state

  -- How much of the log goes into a dump of a size: whole lines of 16 bytes.
  abbrev pub max_msg_size : ℕ → ℕ → ℕ → ℕ
  max_msg_size max_size head_len stored_len =
      min ((max_size - 1) / 4 * 3 - head_len) stored_len / 16 * 16

  -- The writes of st_create_log_dump into its output of `room` bytes.
  unfoldable pub write_parts : ℕ → List ℕ → Option (List ℕ) → List ℕ → Option Copied
  write_parts room header state log = continue room (copy_memory room header []) (λ r1 left1.
      continue r1 (copy_state r1 state left1) (λ r2 left2. copy_log (length log) r2 log left2))

  abbrev pub write_dump : (ℕ → ℕ × ℕ) → ℕ → List ℕ → Option (List ℕ) → List ℕ → Option Copied
  write_dump overlap room header state log =
      continue room (write_parts room header state log) (finish overlap)

  -- st_create_log_dump with IOT_DUMP_MODE_NEED_BASE64, with memory; `none` for an error. `stored_len`
  -- is the size that iot_log_file_open tells, and `read_log n` is what the reads give after
  -- iot_log_file_seek has gone `n` bytes back from the log's end.
  unfoldable pub create_log_dump :
      (ℕ → ℕ × ℕ) → ℕ → List ℕ → Option (List ℕ) → ℕ → (ℕ → List ℕ) → Option (List ℕ)
  create_log_dump overlap max_size header state stored_len read_log =
      let head_len : ℕ = length header + length (state_bytes state) in
      if ltb max_size (b64_encode_len head_len)
      then none
      else let log : List ℕ = read_log (max_msg_size max_size head_len stored_len) in
        do
          (out, left) ← write_dump overlap (b64_encode_len (length log + head_len)) header state log
          some out
