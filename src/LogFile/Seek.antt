-- ===== src/LogFile/Seek.antt =====
-- Lemmas on iot_log_file_seek (src/iot_log_file.c).
use st_device_sdk_c.Prelude.{
  ℕ, false, ◌+◌, ◌-◌, ◌%◌, ◌^◌, ◌≤◌, ◌<◌, ◌≡◌, ap, ◌∙◌, leb, ◌==◌, if◌then◌else◌, arith,
}
use native.Mathlib.Nat.{mod-lt}
use st_device_sdk_c.Prelude.Int.{ℤ, pos, negsuc, magnitude}
use st_device_sdk_c.Errors.{error_none}
use st_device_sdk_c.LogFile.{Handle, plus_offset, seek}

-- The distance from the start of the log before it is wrapped: for a target before the start, 2 ^ 32
-- is added, which is not a multiple of the log's size in general.
abbrev pub distance : ℕ → ℤ → ℕ
distance origin (pos n) = origin + n
distance origin (negsuc n) =
    if leb (n + 1) origin then origin - (n + 1) else 2 ^ 32 + origin - (n + 1)

plus_offset-distance :
    (origin : ℕ) (k : ℤ)
    → origin + magnitude k < 2 ^ 32
    → plus_offset ((origin + 2 ^ 32 - 0) % 2 ^ 32) k ≡ distance origin k
plus_offset-distance origin (pos n) h = omega arith
plus_offset-distance origin (negsuc n) h = ground arith

-- On a log that starts at 0 and has 1 to 2 ^ 31 characters, and for numbers whose sum stays below
-- 2 ^ 32: iot_log_file_seek succeeds and puts the cursor `distance` characters behind the start,
-- wrapped at the log's size.
pub seek_lem :
    (h : Handle) (k : ℤ) (origin : ℕ)
    → h.start_addr ≡ 0
    → 1 ≤ h.log_size
    → h.log_size ≤ 2 ^ 31
    → origin + magnitude k < 2 ^ 32
    → seek h k origin ≡ (error_none, record h { cur_addr = distance origin k % h.log_size })
unfolding seek
seek_lem h k origin z pos_size small fits =
    rw not_empty (ap (λ (n : ℕ). (error_none, record h { cur_addr = n })) cursor)
  where
    not_empty : (h.log_size == 0) ≡ false
    not_empty = ground arith

    start : plus_offset ((origin + 2 ^ 32 - h.start_addr) % 2 ^ 32) k ≡ distance origin k
    start =
        ap (λ (s : ℕ). plus_offset ((origin + 2 ^ 32 - s) % 2 ^ 32) k) z
        ∙ plus_offset-distance origin k fits

    wrapped :
        (s m : ℕ)
        → s ≡ 0
        → m < 2 ^ 31
        → (s + m + (if leb (2 ^ 31) m then h.log_size else 0)) % 2 ^ 32 ≡ m
    wrapped s m e lt = ground arith

    cursor :
        (h.start_addr
            + plus_offset ((origin + 2 ^ 32 - h.start_addr) % 2 ^ 32) k % h.log_size
            + (if leb
                  (2 ^ 31)
                  (plus_offset ((origin + 2 ^ 32 - h.start_addr) % 2 ^ 32) k % h.log_size)
                then h.log_size
                else 0))
          % 2 ^ 32
        ≡ distance origin k % h.log_size
    cursor =
        wrapped h.start_addr
          (plus_offset ((origin + 2 ^ 32 - h.start_addr) % 2 ^ 32) k % h.log_size) z
          (omega (
            arith,
            small,
            mod-lt (plus_offset ((origin + 2 ^ 32 - h.start_addr) % 2 ^ 32) k) pos_size,
          ))
        ∙ ap (λ (n : ℕ). n % h.log_size) start
