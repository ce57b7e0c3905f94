-- ===== src/Ble/Tests.antt =====
-- The theorems about messages over BLE at sample messages.
use st_device_sdk_c.Prelude.{
  ℕ, set_at, ◌≡◌, refl, true, false, List, [], ◌∷◌, ◌++◌, length, replicate, length-replicate, none,
  some, arith,
}
use st_device_sdk_c.Errors.{IotError, error_none}
use st_device_sdk_c.Ble.{stored, idle, Cell, MsgState, parse_frame}
use st_device_sdk_c.Ble.Assemble.{Driver, assemble}
use st_device_sdk_c.Ble.Disassemble.{disassemble}
use st_device_sdk_c.Ble.Receive.{receive_all, rested, delivered, overlong_segment_overflows}
use st_device_sdk_c.Ble.Send.{disassemble_ends}
use st_device_sdk_c.Ble.RoundTrip.{message_delivered}
use st_device_sdk_c.Ble.Task.{
  raise_flag, fill_rx, Rx, step_of, msg_dispatch, process_accepted, delivered_handled,
}

-- 15 bytes to a packet, 3 of them data.
abbrev driver : Driver
driver = record { get_mtu = 15; array_allocated = true; buffer_allocated = true }

-- Seven bytes make three packets.
abbrev payload : List ℕ
payload = 10 ∷ 11 ∷ 12 ∷ 13 ∷ 14 ∷ 15 ∷ 16 ∷ []

message_delivered_example :
    (packets : List (List ℕ)) × (disassemble (λ ps. 0) 15 true (some payload) 0 2 (rested 2 5)
      ≡ some (error_none, packets, record (rested 2 5) { mtu = 3; state = idle; cmd_num = 0 }))
    × (receive_all driver packets (rested 0 4) ≡ some (delivered payload 2 ∷ [], rested 2 5))
message_delivered_example =
    message_delivered (λ ps. 0) (λ ps. refl) driver (rested 2 5) 10
      (11 ∷ 12 ∷ 13 ∷ 14 ∷ 15 ∷ 16 ∷ []) 0 4 refl (omega arith) (omega arith) (omega arith) refl
      refl refl refl

disassemble_ends_example :
    (r : IotError × List (List ℕ) × MsgState) × (disassemble
        (λ ps. length ps)
        15
        true
        (some payload)
        0
        2
        (rested 2 5)
      ≡ some r)
disassemble_ends_example =
    disassemble_ends (λ ps. length ps) 15 true (some payload) 0 2 (rested 2 5) (omega arith)
      (omega arith) (omega arith)

-- A packet that announces two bytes and carries three.
abbrev overlong : List ℕ
overlong = 2 ∷ 5 ∷ 2 ∷ 0 ∷ 0 ∷ 0 ∷ 3 ∷ 0 ∷ 65 ∷ 66 ∷ 67 ∷ []

overlong_parsed :
    parse_frame (0 ∷ overlong)
    ≡ some (record {
      op_code = 0;
      cmd_num = 2;
      transaction_id = 5;
      size = 2;
      continued = 0;
      segment_len = 3;
      segment_data = 65 ∷ 66 ∷ 67 ∷ [];
    })
unfolding parse_frame
overlong_parsed = refl

overlong_segment_overflows_example : assemble driver (some (0 ∷ overlong)) (rested 0 4) ≡ none
overlong_segment_overflows_example =
    overlong_segment_overflows driver (rested 0 4) 0 overlong 2 5 2 3 (65 ∷ 66 ∷ 67 ∷ [])
      overlong_parsed refl refl refl refl refl (omega arith)

abbrev empty_rx : Rx
empty_rx = record {
  rx_buffer = replicate 512 (some 0);
  check_process = false;
  write_callback_len = 0;
  write_cmd_num = 0;
}

delivered_handled_example :
    ((rx' : Rx) × (rx'' : Rx) × (behind : List Cell) × (msg_dispatch (delivered payload 2) empty_rx
        ≡ some rx')
      × (process_accepted rx'
          ≡ some (some (step_of 2, stored payload ++ some 0 ∷ behind, length payload), rx''))
      × (rx''.check_process ≡ false))
    × (let old : ℕ = empty_rx.write_callback_len in
        let ended : List Cell = set_at empty_rx.rx_buffer old (some 0) in
        (rx' : Rx) × (rx'' : Rx) × (process_accepted (raise_flag empty_rx)
          ≡ some (some (step_of empty_rx.write_cmd_num, ended, old), rx'))
        × (fill_rx (delivered payload 2) rx' ≡ some rx'')
        × (process_accepted rx'' ≡ some (none, rx'')))
delivered_handled_example =
    delivered_handled payload 2 empty_rx (length-replicate {A = Cell} 512 (some 0)) (omega arith)
      (omega arith)
