-- ===== src/Ble/Task.antt =====
-- The hand-over to the easy-setup task (src/easysetup/ble/iot_easysetup_ble_task.c): es_msg_dispatch
-- copies a message into a static buffer, and the task reads it there. `none` is an access outside
-- a buffer.
use st_device_sdk_c.Prelude.{
  ℕ, zero, suc, ◌+◌, ◌≤◌, ◌<◌, ◌≡◌, refl, ap, Bool, true, false, leb, if◌then◌else◌, List, [], ◌∷◌,
  ◌++◌, length, take, drop, set_at, get_elem?, length-append, drop-drop, drop-drop, length-drop,
  Option, none, some, arith, length-set_at,
}
use st_device_sdk_c.Prelude.Int.{ℤ, pos, negsuc}
use st_device_sdk_c.Prelude.Options.{◌>>=◌}
use st_device_sdk_c.Ble.{stored, Cell}
use st_device_sdk_c.Ble.Assemble.{Dispatch}
use st_device_sdk_c.Ble.Receive.{delivered}
use st_device_sdk_c.Ble.Memory.Fill.{written, length-stored, take-stored}

-- RX_BUFFER_MAX
abbrev pub rx_buffer_max : ℕ
rx_buffer_max = 512

-- The static variables.
pub record Rx : Type 0 where
  pub rx_buffer : List Cell
  pub check_process : Bool
  pub write_callback_len : ℕ
  pub write_cmd_num : ℕ

-- memcpy(rx_buffer, p, n); a NULL pointer is only good for no bytes.
unfoldable pub copy_to_rx : List Cell → Option (List Cell) → ℕ → Option (List Cell)
copy_to_rx rx none n = if leb n 0 then some rx else none
copy_to_rx rx (some p) n =
    if leb n (length p)
    then (if leb n (length rx) then some (take n p ++ drop n rx) else none)
    else none

-- es_msg_dispatch runs on the thread of the BLE stack, and the task polls `check_process` all the
-- while. The flag is the first that it writes.
abbrev pub raise_flag : Rx → Rx
raise_flag rx = record rx { check_process = true }

-- The writes behind the flag.
unfoldable pub fill_rx : Dispatch → Rx → Option Rx
fill_rx d rx = do
  first ← get_elem? d.buffers 0
  filled ← copy_to_rx rx.rx_buffer first.p first.len
  some (record rx { rx_buffer = filled; write_callback_len = first.len; write_cmd_num = d.cmd_num })

-- The whole call, without a look of the task in between.
unfoldable pub msg_dispatch : Dispatch → Rx → Option Rx
unfolding fill_rx
msg_dispatch d rx = fill_rx d (raise_flag rx)

-- The call of iot_easysetup_ble_msg_handler: the step, the buffer and the length.
abbrev pub Handled : Type 0
Handled = ℤ × List Cell × ℕ

-- `cmd = g_write_cmd_num - 1`
abbrev pub step_of : ℕ → ℤ
step_of cmd = elim cmd [ zero ↦ negsuc 0 | suc n ↦ pos n ]

-- _es_process_accepted_connection, once it sees `check_process`; `none` of the inner option while
-- it does not.
unfoldable pub process_accepted : Rx → Option (Option Handled × Rx)
process_accepted rx =
    if rx.check_process
    then (if leb (rx.write_callback_len + 1) (length rx.rx_buffer)
        then (let ended = set_at rx.rx_buffer rx.write_callback_len (some 0) in
            some (
              some (step_of rx.write_cmd_num, ended, rx.write_callback_len),
              record rx { check_process = false; rx_buffer = ended },
            ))
        else none)
    else some (none, rx)

copy_payload :
    (rx : List Cell) (payload : List ℕ)
    → length payload ≤ length rx
    → copy_to_rx rx (some (written payload 0)) (length payload + 0)
      ≡ some (stored payload ++ drop (length payload) rx)
unfolding copy_to_rx
copy_payload rx payload fits =
    let bare : length payload + 0 ≡ length payload = omega arith in
    let there : leb (length payload) (length (written payload 0)) ≡ true =
      ground (arith, length-append (stored payload) [], length-stored payload) in
    let in_rx : leb (length payload) (length rx) ≡ true = ground arith in
    rw (bare, there, in_rx, take-stored payload []) refl

set_at-stored :
    (xs : List ℕ) (c : Cell) (ys : List Cell)
    → 0 < length ys
    → set_at (stored xs ++ ys) (length xs) c ≡ stored xs ++ c ∷ drop 1 ys
set_at-stored [] c [] h = elim h [ ]
set_at-stored [] c (y ∷ ys) h = refl
set_at-stored (x ∷ xs) c ys h = ap (◌∷◌ (some x)) (set_at-stored xs c ys h)

-- The buffer and the variables after es_msg_dispatch of a message.
abbrev received : List ℕ → ℕ → Rx → Rx
received payload cmd rx = record rx {
  rx_buffer = stored payload ++ drop (length payload) rx.rx_buffer;
  write_callback_len = length payload;
  write_cmd_num = cmd;
}

fill_rx-received :
    (payload : List ℕ) (cmd : ℕ) (rx : Rx)
    → length payload ≤ length rx.rx_buffer
    → fill_rx (delivered payload cmd) rx ≡ some (received payload cmd rx)
unfolding fill_rx
fill_rx-received payload cmd rx fits = rw (copy_payload rx.rx_buffer payload fits) (
    ap
      (λ (n : ℕ). some (record rx {
        rx_buffer = stored payload ++ drop (length payload) rx.rx_buffer;
        write_callback_len = n;
        write_cmd_num = cmd;
      }))
      (omega arith))

-- A message of less than 512 bytes. If the task does not look before es_msg_dispatch has returned, it
-- calls the handler of the step before the command, with a buffer that starts with the message and
-- then a NUL. If it looks between the first write, of the flag, and the others, it calls the handler
-- for the command, the length and the bytes of the message before, and the new message is in the
-- buffer with the flag taken down, so that the next look finds nothing.
pub delivered_handled :
    (payload : List ℕ) (cmd : ℕ) (rx : Rx)
    → length rx.rx_buffer ≡ rx_buffer_max
    → length payload < rx_buffer_max
    → rx.write_callback_len < rx_buffer_max
    → ((rx' : Rx) × (rx'' : Rx) × (behind : List Cell) × (msg_dispatch (delivered payload cmd) rx
          ≡ some rx')
        × (process_accepted rx'
            ≡ some (some (step_of cmd, stored payload ++ some 0 ∷ behind, length payload), rx''))
        × (rx''.check_process ≡ false))
      × (let old : ℕ = rx.write_callback_len in
          let ended : List Cell = set_at rx.rx_buffer old (some 0) in
          (rx' : Rx) × (rx'' : Rx) × (process_accepted (raise_flag rx)
            ≡ some (some (step_of rx.write_cmd_num, ended, old), rx'))
          × (fill_rx (delivered payload cmd) rx' ≡ some rx'')
          × (process_accepted rx'' ≡ some (none, rx'')))
unfolding msg_dispatch process_accepted
delivered_handled payload cmd rx size short old_short =
    let text : List Cell = stored payload in
    let filled : List Cell = text ++ drop (length payload) rx.rx_buffer in
    let ended : List Cell = text ++ some 0 ∷ drop (length payload + 1) rx.rx_buffer in
    let room_for_nul : leb (length payload + 1) (length filled) ≡ true = ground (
      arith,
      size,
      length-append text (drop (length payload) rx.rx_buffer),
      length-stored payload,
      length-drop (length payload) rx.rx_buffer,
    ) in
    let old_room : leb (rx.write_callback_len + 1) (length rx.rx_buffer) ≡ true =
      ground (arith, size, old_short) in
    let old_ended : List Cell = set_at rx.rx_buffer rx.write_callback_len (some 0) in
    let early : Rx = record rx { check_process = false; rx_buffer = old_ended } in
    (
      (
        received payload cmd (raise_flag rx),
        record rx {
          rx_buffer = ended;
          check_process = false;
          write_callback_len = length payload;
          write_cmd_num = cmd;
        },
        drop (length payload + 1) rx.rx_buffer,
        fill_rx-received payload cmd (raise_flag rx) (omega (arith, size)),
        rw
            (
              room_for_nul,
              set_at-stored payload (some 0) (drop (length payload) rx.rx_buffer)
                  (omega (arith, size, length-drop (length payload) rx.rx_buffer)),
              drop-drop 1 (length payload) rx.rx_buffer,
            )
            refl,
        refl,
      ),
      (
        early,
        received payload cmd early,
        rw old_room refl,
        fill_rx-received payload cmd early
            (omega (arith, size, length-set_at rx.rx_buffer rx.write_callback_len (some 0))),
        refl,
      ),
    )
