-- ===== src/LogFile.antt =====
-- The log in RAM (src/iot_log_file.c, with CONFIG_STDK_IOT_CORE_LOG_FILE_RAM_ONLY): a buffer that is
-- filled again from its start when it is full. `size` is IOT_LOG_FILE_RAM_BUF_SIZE. An operation on
-- bytes outside the buffer is a fault, `none`.
pub mod Ring
pub mod Read
pub mod Open
pub mod Seek
mod Tests
use st_device_sdk_c.Prelude.{
  ℕ, zero, suc, ◌+◌, ◌-◌, ◌%◌, ◌^◌, Bool, true, false, not, ltb, leb, ◌==◌, if◌then◌else◌, List, [],
  ◌∷◌, ◌++◌, length, take, drop, set_at, replicate, Option, none, some,
}
use st_device_sdk_c.Prelude.Int.{ℤ, pos, negsuc}
use st_device_sdk_c.Errors.{IotError, error_none, invalid_args, mem_alloc, bad_req}

-- iot_log_file_type_t; the type FLASH_WITH_RAM has no code in this build.
pub data FileType : Type 0 where
  ram_only flash_with_ram : FileType

-- struct iot_log_file_buf_tag
pub record LogBuf : Type 0 where
  pub enable : Bool
  pub cnt : ℕ
  pub buf : List ℕ
  pub overridden : Bool

-- iot_log_file_handle_t
pub record Handle : Type 0 where
  pub start_addr : ℕ
  pub tail_addr : ℕ
  pub cur_addr : ℕ
  pub log_size : ℕ
  pub max_log_size : ℕ
  pub file_type : FileType

-- IOT_LOG_FILE_MAX_STRING_SIZE
abbrev pub max_string_size : ℕ
max_string_size = 128

module _ (size : ℕ) where
  -- iot_log_file_init for RAM_ONLY; the argument tells whether the context was allocated.
  unfoldable pub log_init : Bool → FileType → IotError × Option LogBuf
  log_init false type = (mem_alloc, none)
  log_init true flash_with_ram = (invalid_args, none)
  log_init true ram_only = (
    error_none,
    some (record { enable = true; cnt = 0; buf = replicate size 0; overridden = false }),
  )

  unfoldable pub store_char : LogBuf → ℕ → LogBuf
  store_char b c =
      let at_start = record b { cnt = 0; overridden = true } in
      let b' = if leb size b.cnt then at_start else b in
      record b' { buf = set_at b'.buf b'.cnt c; cnt = b'.cnt + 1 }

  -- The loop of iot_log_file_store.
  unfoldable pub store_chars : LogBuf → List ℕ → LogBuf
  unfolding store_char
  store_chars b [] = b
  store_chars b (c ∷ cs) = store_chars (store_char b c) cs

  -- The number of characters stored; `none` is the result -1. `log_size` is the length of the data.
  unfoldable pub store : Option LogBuf → List ℕ → Option ℕ × Option LogBuf
  unfolding store_chars
  store none cs = (none, none)
  store (some b) cs =
      if not b.enable
      then (none, some b)
      else if leb max_string_size (length cs)
      then (none, some b)
      else (some (length cs), some (store_chars b cs))

  -- iot_log_file_open; the Boolean tells whether the handle was allocated. The handle carries what is
  -- written through `filesize`, as its `log_size`.
  unfoldable pub open_log : Option LogBuf → Bool → FileType → Option Handle × Option LogBuf
  open_log none room type = (none, none)
  open_log (some b) false type = (none, some b)
  open_log (some b) true flash_with_ram = (none, some b)
  open_log (some b) true ram_only = (
    some (record {
      start_addr = 0;
      tail_addr = b.cnt;
      cur_addr = if b.overridden then b.cnt else 0;
      log_size = if b.overridden then size else b.cnt;
      max_log_size = size;
      file_type = ram_only;
    }),
    some (record b { enable = false }),
  )

-- _iot_log_file_check_valid_range. Both sums are of size_t and wrap, here at 32 bits.
abbrev pub check_valid_range : Handle → ℕ → Bool
check_valid_range h n = not (ltb ((h.start_addr + h.log_size) % 2 ^ 32) ((h.cur_addr + n) % 2 ^ 32))

-- _iot_log_read_bytes from `addr`: the code, and the bytes copied.
unfoldable pub read_bytes : FileType → LogBuf → ℕ → ℕ → Option (IotError × List ℕ)
read_bytes flash_with_ram b addr n = some (bad_req, [])
read_bytes ram_only b addr n =
    if leb (addr + n) (length b.buf) then some (error_none, take n (drop addr b.buf)) else none

-- The second half of the read around the end: `done` was read first, `remain` is still wanted.
unfoldable pub read_rest : LogBuf → Handle → List ℕ → ℕ → Option (IotError × List ℕ × ℕ × Handle)
unfolding read_bytes
read_rest b h done remain = elim (read_bytes h.file_type b h.start_addr remain) [
  | none ↦ none
  | some (err, bytes) ↦
      if err == error_none
      then some
          (err, done ++ bytes, length done + remain, record h { cur_addr = h.start_addr + remain })
      else some (err, done, 0, h)
]

-- iot_log_file_read: the code, what is copied to the buffer, the size read, and the handle after it.
unfoldable pub read_log : LogBuf → Handle → ℕ → Option (IotError × List ℕ × ℕ × Handle)
unfolding read_bytes read_rest
read_log b h n =
    if check_valid_range h n
    then elim (read_bytes h.file_type b h.cur_addr n) [
      | none ↦ none
      | some (err, bytes) ↦
          if err == error_none
          then some (err, bytes, n, record h { cur_addr = h.cur_addr + n })
          else some (err, [], 0, h)
    ]
    else (let offset = h.cur_addr - h.start_addr in
        let first = h.log_size - offset in
        let remain = n - first in
        elim (read_bytes h.file_type b h.cur_addr first) [
          | none ↦ none
          | some (err, bytes) ↦
              if err == error_none
              then read_rest b h bytes (if ltb offset remain then offset else remain)
              else some (err, [], 0, h)
        ])

-- iot_log_file_close on RAM_ONLY, and iot_log_file_remove.
unfoldable pub close_log : Option Handle → LogBuf → IotError × LogBuf
close_log none b = (invalid_args, b)
close_log (some h) b = (error_none, record b { enable = true })

unfoldable pub remove_log : FileType → LogBuf → IotError × LogBuf
remove_log flash_with_ram b = (bad_req, b)
remove_log ram_only b = (error_none, record b { cnt = 0; overridden = false; enable = true })

-- `unsigned int` + `int`
abbrev pub plus_offset : ℕ → ℤ → ℕ
plus_offset a (pos n) = (a + n) % 2 ^ 32
plus_offset a (negsuc n) = (a + 2 ^ 32 - (n + 1)) % 2 ^ 32

-- iot_log_file_seek. The sum is unsigned; the remainder becomes negative as an `int` from 2 ^ 31 on.
unfoldable pub seek : Handle → ℤ → ℕ → IotError × Handle
seek h seek_offset origin =
    if h.log_size == 0
    then (invalid_args, h)
    else let m = plus_offset ((origin + 2 ^ 32 - h.start_addr) % 2 ^ 32) seek_offset % h.log_size in
      (
        error_none,
        record h {
          cur_addr = (h.start_addr + m + (if leb (2 ^ 31) m then h.log_size else 0)) % 2 ^ 32;
        },
      )
