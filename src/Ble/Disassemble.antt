-- ===== src/Ble/Disassemble.antt =====
-- es_msg_disassemble (src/easysetup/ble/iot_easysetup_ble_msg.c): a message is sent in packets.
use st_device_sdk_c.Prelude.{
  ℕ, zero, suc, ◌+◌, ◌-◌, ◌/◌, ◌%◌, Bool, true, false, not, ◌&&◌, ltb, leb, ◌==◌, if◌then◌else◌,
  List, [], ◌∷◌, ◌++◌, length, drop, Option, none, some,
}
use st_device_sdk_c.Prelude.Options.{◌>>=◌}
use st_device_sdk_c.Errors.{IotError, error_none, bad_req, mem_alloc, conn_ble_indication_fail}
use st_device_sdk_c.Ble.{Phase, idle, MsgState, Frame, frame_bytes, u8_mod, u16_mod, u32_mod, room}
use st_device_sdk_c.Ble.Memory.{read_in}

abbrev pub is_idle : Phase → Bool
is_idle idle = true
is_idle _ = false

-- IOT_EASYSETUP_BLE_STEP_SETUPCOMPLETE_RESPONSE
abbrev pub setupcomplete_response : ℕ
setupcomplete_response = 12

-- What stays the same in the packets of a message; `len` bytes in `payload`.
pub record Message : Type 0 where
  pub cmd_num : ℕ
  pub transaction_id : ℕ
  pub data_continued : ℕ
  pub mtu : ℕ
  pub payload : List ℕ

-- sizeof(segment_len) is 2.
abbrev pub segment_len : Message → ℕ → ℕ
segment_len m sent =
    (if leb ((sent + m.mtu) % u32_mod) (length m.payload) then m.mtu else length m.payload - sent)
    % u16_mod

-- The packet that starts at the position `sent`, as number `op` of the message.
abbrev pub frame_at : Message → ℕ → ℕ → List ℕ → Frame
frame_at m sent op segment = record {
  op_code = op;
  cmd_num = m.cmd_num;
  transaction_id = m.transaction_id;
  size = if op == 0 then length m.payload else sent;
  continued =
      if op == 0 then m.data_continued else (length m.payload / m.mtu + u8_mod - op) % u8_mod;
  segment_len = segment_len m sent;
  segment_data = segment;
}

-- The loop, with `fuel` rounds at most: what the last iot_send_indication returned, and the packets
-- sent. `indicate` answers iot_send_indication, given all packets up to the one that is sent.
-- `none`: the fuel is used up, a division by 0, or a read outside the payload.
unfoldable pub send_loop :
    (List (List ℕ) → ℕ) → Message → ℕ → ℕ → ℕ → List (List ℕ) → Option (ℕ × List (List ℕ))
unfolding read_in frame_bytes
send_loop indicate m zero sent op packets =
    if ltb sent (length m.payload) then none else some (0, packets)
send_loop indicate m (suc fuel) sent op packets = elim (ltb sent (length m.payload)) [
  | false ↦ some (0, packets)
  | true ↦ elim (not (op == 0) && m.mtu == 0) [
    | true ↦ none
    | false ↦ elim (read_in (drop sent m.payload) (segment_len m sent)) [
      | none ↦ none
      | some segment ↦
          let packets' = packets ++ frame_bytes (frame_at m sent op segment) ∷ [] in
          elim (indicate packets' == 0) [
            | false ↦ some (indicate packets', packets')
            | true ↦
                send_loop indicate m fuel ((sent + segment_len m sent) % u32_mod)
                  ((op + 1) % u8_mod) packets'
          ]
    ]
  ]
]

abbrev pub send_result : ℕ → IotError
send_result ret = if ret == 0 then error_none else conn_ble_indication_fail

-- The value returned, the packets sent and the state left. `allocated`: is there memory for a packet.
unfoldable pub disassemble :
    (List (List ℕ) → ℕ)
    → ℕ
    → Bool
    → Option (List ℕ)
    → ℕ
    → ℕ
    → MsgState
    → Option (IotError × List (List ℕ) × MsgState)
disassemble indicate get_mtu allocated none continued cmd s = some (bad_req, [], s)
disassemble indicate get_mtu allocated (some []) continued cmd s = some (bad_req, [], s)
disassemble indicate get_mtu allocated (some (b ∷ bs)) continued cmd s =
    if not (cmd == setupcomplete_response + 1) && not (cmd == s.cmd_num)
    then some (error_none, [], s)
    else if not (is_idle s.state)
    then some (bad_req, [], s)
    else if not allocated
    then some (mem_alloc, [], record s { mtu = room get_mtu })
    else do
      let m : Message = record {
        cmd_num = s.cmd_num;
        transaction_id = s.transaction_id;
        data_continued = continued;
        mtu = room get_mtu;
        payload = b ∷ bs;
      }
      (ret, packets) ← send_loop indicate m (length (b ∷ bs)) 0 0 []
      some (send_result ret, packets, record s { mtu = room get_mtu; state = idle; cmd_num = 0 })
