-- ===== src/LogFile/Tests.antt =====
-- The theorems about the log at sample buffers, and a search backwards from the start.
use st_device_sdk_c.Prelude.{
  ◌%◌, ◌≡◌, refl, min, true, false, if◌then◌else◌, [], ◌∷◌, ◌++◌, length, take, none, some, arith,
}
use st_device_sdk_c.Prelude.Int.{negsuc}
use st_device_sdk_c.Errors.{error_none}
use st_device_sdk_c.LogFile.{LogBuf, Handle, ram_only, log_init, store, open_log, read_log, seek}
use st_device_sdk_c.LogFile.Ring.{IsRing, log, keep, accepts, store_keeps_last}
use st_device_sdk_c.LogFile.Read.{IsHandle, around, read_log-around}
use st_device_sdk_c.LogFile.Open.{stored_then_read}
use st_device_sdk_c.LogFile.Seek.{distance, seek_lem}

-- Four characters, of which the two oldest were stored before the two newest went round.
abbrev filled : LogBuf
filled = record { enable = true; cnt = 2; buf = 53 ∷ 54 ∷ 51 ∷ 52 ∷ []; overridden = true }

filled-IsRing : IsRing 4 filled
filled-IsRing = record { size_pos = omega arith; buf_length = refl; cnt_le = omega arith }

store_keeps_last_example :
    (b' : LogBuf) × (store 4 (some filled) (55 ∷ 56 ∷ 57 ∷ [])
      ≡ (if accepts 4 filled (55 ∷ 56 ∷ 57 ∷ []) then some 3 else none, some b'))
    × IsRing 4 b'
    × (log b' ≡ (
        if accepts 4 filled (55 ∷ 56 ∷ 57 ∷ [])
        then keep 4 (log filled ++ 55 ∷ 56 ∷ 57 ∷ [])
        else log filled))
store_keeps_last_example = store_keeps_last 4 filled (55 ∷ 56 ∷ 57 ∷ []) filled-IsRing

abbrev handle : Handle
handle = record {
  start_addr = 0;
  tail_addr = 2;
  cur_addr = 2;
  log_size = 4;
  max_log_size = 4;
  file_type = ram_only;
}

handle-IsHandle : IsHandle filled handle
handle-IsHandle = record {
  start_zero = refl;
  is_ram = refl;
  cur_le = omega arith;
  size_le = omega arith;
  size_word = omega arith;
}

read_log-around_example :
    (h' : Handle) × (read_log filled handle 3
      ≡ some (error_none, take 3 (around filled handle), min 3 4, h'))
    × IsHandle filled h'
read_log-around_example = read_log-around filled handle 3 handle-IsHandle (omega arith)

stored_then_read_example :
    let kept = keep 4 (log filled ++ 55 ∷ []) in
    (b' : LogBuf) × (h : Handle) × (h' : Handle) × (b'' : LogBuf) × (store 4 (some filled) (55 ∷ [])
      ≡ (some 1, some b'))
    × (open_log 4 (some b') true ram_only ≡ (some h, some b''))
    × (read_log b'' h 10 ≡ some (error_none, kept, length kept, h'))
stored_then_read_example =
    stored_then_read 4 filled (55 ∷ []) 10 filled-IsRing refl (omega arith) (omega arith)

seek_lem_example :
    seek handle (negsuc 0) 0 ≡ (error_none, record handle { cur_addr = distance 0 (negsuc 0) % 4 })
seek_lem_example = seek_lem handle (negsuc 0) 0 refl (omega arith) (omega arith) (omega arith)

-- On a log of 10 characters, one step back from the start is 5, not 9.
back_from_start : distance 0 (negsuc 0) % 10 ≡ 5
back_from_start = refl

-- A new log is well-formed, and empty.
new_log :
    (b : LogBuf) × (log_init 4 true ram_only ≡ (error_none, some b)) × IsRing 4 b × (log b ≡ [])
unfolding log_init
new_log = (
  record { enable = true; cnt = 0; buf = 0 ∷ 0 ∷ 0 ∷ 0 ∷ []; overridden = false },
  refl,
  record { size_pos = omega arith; buf_length = refl; cnt_le = omega arith },
  refl,
)
