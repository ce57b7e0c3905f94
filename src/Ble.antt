-- ===== src/Ble.antt =====
-- Messages over BLE (src/easysetup/ble/iot_easysetup_ble_msg.c): a message is cut into frames of
-- at most the size of a packet, and put together again on the other side. The shapes of the data.
pub mod Memory
pub mod Assemble
pub mod Disassemble
pub mod Chunk
pub mod Send
pub mod Receive
pub mod RoundTrip
pub mod Task
mod Tests
use st_device_sdk_c.Prelude.{
  ℕ, ◌+◌, ◌-◌, ◌*◌, ◌/◌, ◌%◌, ◌^◌, Bool, List, [], ◌∷◌, ◌++◌, map, Option, none, some,
}

-- enum msg_state_e
pub data Phase : Type 0 where
  idle assembling disassembling : Phase

-- A byte of a buffer from malloc, `none` before it is written.
abbrev pub Cell : Type 0
Cell = Option ℕ

-- The cells that hold some bytes.
abbrev pub stored : List ℕ → List Cell
stored bytes = map (λ (b : ℕ). some b) bytes

-- iot_security_buffer_t; NULL is `none`.
pub record Buffer : Type 0 where
  pub len : ℕ
  pub p : Option (List Cell)

-- struct msg_state_t
pub record MsgState : Type 0 where
  pub state : Phase
  pub msg_is_completed : Bool
  pub mtu : ℕ
  pub op_code : ℕ
  pub cmd_num : ℕ
  pub transaction_id : ℕ
  pub total_size : ℕ
  pub data_continued : ℕ
  pub data_count : ℕ
  pub buffers : Option (List Buffer)
  pub data_idx : ℕ

-- struct transfor_data. `size` is total_size in the first frame of a message and offset in the
-- others, and `continued` is chunk_data_continued and segmented_data_continued. `segment_data` is
-- all that follows the header in the packet.
pub record Frame : Type 0 where
  pub op_code : ℕ
  pub cmd_num : ℕ
  pub transaction_id : ℕ
  pub size : ℕ
  pub continued : ℕ
  pub segment_len : ℕ
  pub segment_data : List ℕ

-- The packed struct at the start of a packet, on a little-endian machine: `none` where the packet
-- ends before its header does.
unfoldable pub parse_frame : List ℕ → Option Frame
parse_frame (op ∷ cmd ∷ id ∷ s0 ∷ s1 ∷ s2 ∷ continued ∷ l0 ∷ l1 ∷ rest) = some (record {
  op_code = op;
  cmd_num = cmd;
  transaction_id = id;
  size = s0 + s1 * 2 ^ 8 + s2 * 2 ^ 16;
  continued = continued;
  segment_len = l0 + l1 * 2 ^ 8;
  segment_data = rest;
})
parse_frame _ = none

-- The bytes of a frame, as they are written to the same struct.
unfoldable pub frame_bytes : Frame → List ℕ
frame_bytes f =
    f.op_code
    ∷ f.cmd_num
    ∷ f.transaction_id
    ∷ f.size % 2 ^ 8
    ∷ f.size / 2 ^ 8 % 2 ^ 8
    ∷ f.size / 2 ^ 16 % 2 ^ 8
    ∷ f.continued
    ∷ f.segment_len % 2 ^ 8
    ∷ f.segment_len / 2 ^ 8 % 2 ^ 8
    ∷ f.segment_data

abbrev pub u8_mod : ℕ
u8_mod = 2 ^ 8

abbrev pub u16_mod : ℕ
u16_mod = 2 ^ 16

abbrev pub u32_mod : ℕ
u32_mod = 2 ^ 32

-- HEADER_LEN_IN_MTU
abbrev pub header_len_in_mtu : ℕ
header_len_in_mtu = 12

-- What a packet of the BLE driver has room for, `uint32_t`: iot_bsp_ble_get_mtu() less the header.
abbrev pub room : ℕ → ℕ
room mtu = (mtu + u32_mod - header_len_in_mtu) % u32_mod
