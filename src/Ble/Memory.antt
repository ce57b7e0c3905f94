-- ===== src/Ble/Memory.antt =====
-- memcpy between packets and buffers. A copy that reads or writes outside either is `none`.
pub mod Fill
use st_device_sdk_c.Prelude.{
  ℕ, ◌+◌, leb, if◌then◌else◌, List, ◌++◌, map, length, take, drop, Option, none, some,
}
use st_device_sdk_c.Prelude.Options.{◌>>=◌}
use st_device_sdk_c.Ble.{stored, Cell, Buffer}

-- Read `n` bytes from the start of `bytes`.
unfoldable pub read_in : List ℕ → ℕ → Option (List ℕ)
read_in bytes n = if leb n (length bytes) then some (take n bytes) else none

-- Write `bytes` from `offset` on.
unfoldable pub write_in : List Cell → ℕ → List ℕ → Option (List Cell)
write_in cells offset bytes =
    if leb (offset + length bytes) (length cells)
    then some (take offset cells ++ (stored bytes ++ drop (offset + length bytes) cells))
    else none

-- memcpy(b.p + offset, bytes, n)
unfoldable pub copy_in : Buffer → ℕ → List ℕ → ℕ → Option Buffer
unfolding read_in write_in
copy_in b offset bytes n = do
  cells ← b.p
  segment ← read_in bytes n
  written ← write_in cells offset segment
  some (record b { p = some written })
