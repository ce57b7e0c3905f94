-- ===== src/Ble/Assemble.antt =====
-- es_msg_assemble (src/easysetup/ble/iot_easysetup_ble_msg.c): a packet that the driver received.
-- `none` is an access outside a packet or a buffer.
use st_device_sdk_c.Prelude.{
  ℕ, ◌+◌, ◌-◌, ◌*◌, ◌%◌, Bool, true, false, not, ◌&&◌, ◌||◌, leb, ◌==◌, if◌then◌else◌, List, [],
  ◌∷◌, replicate, get_elem?, set_at, Option, none, some,
}
use st_device_sdk_c.Prelude.Options.{◌>>=◌}
use st_device_sdk_c.Ble.{
  Phase, idle, assembling, disassembling, Buffer, MsgState, Frame, parse_frame, u8_mod, u32_mod,
  room,
}
use st_device_sdk_c.Ble.Memory.{copy_in}

-- What the code outside answers: iot_bsp_ble_get_mtu, and the two allocations.
pub record Driver : Type 0 where
  pub get_mtu : ℕ
  pub array_allocated : Bool
  pub buffer_allocated : Bool

-- The call of es_msg_dispatch.
pub record Dispatch : Type 0 where
  pub buffers : List Buffer
  pub data_count : ℕ
  pub cmd_num : ℕ

-- The value returned, the call of es_msg_dispatch if there was one, and the state left.
abbrev pub Outcome : Type 0
Outcome = Bool × Option Dispatch × MsgState

-- cmd_num and transaction_id stay.
unfoldable pub reset : MsgState → MsgState
reset s = record s {
  state = idle;
  msg_is_completed = false;
  mtu = 0;
  op_code = 0;
  total_size = 0;
  data_continued = 0;
  buffers = none;
  data_count = 0;
  data_idx = 0;
}

unfoldable pub reset_transferdata : MsgState → MsgState
unfolding reset
reset_transferdata s = reset (record s { transaction_id = 0 })

-- The part behind the `switch`.
unfoldable pub finish : Bool → MsgState → List Buffer → Outcome
unfolding reset
finish duplicated s buffers =
    if s.msg_is_completed
    then (if not (s.data_continued == 0)
        then (true, none, record s { state = idle; msg_is_completed = false })
        else if duplicated
        then (true, none, reset s)
        else (
          true,
          some (record { buffers = buffers; data_count = s.data_count; cmd_num = s.cmd_num }),
          reset s,
        ))
    else (true, none, s)

-- case MSG_STATE_ASSEMBLE
unfoldable pub assemble_next : Frame → MsgState → Option Outcome
unfolding finish reset
assemble_next f s =
    if f.op_code == s.op_code + 1 && f.cmd_num == s.cmd_num && f.transaction_id == s.transaction_id
    then (do
      buffers ← s.buffers
      b ← get_elem? buffers s.data_idx
      b' ← copy_in b f.size f.segment_data f.segment_len
      let buffers' = set_at buffers s.data_idx b'
      let completed = leb b.len (f.size + f.segment_len) || s.msg_is_completed
      some (
          finish false
            (record s {
              op_code = f.op_code;
              buffers = some buffers';
              msg_is_completed = completed;
            })
            buffers'))
    else some (finish false (reset s) [])

-- The message's first frame, with the array of buffers there: a buffer for it, and the first copy.
unfoldable pub start_chunk : Driver → Frame → MsgState → List Buffer → Option Outcome
unfolding finish reset
start_chunk d f s buffers = do
  let duplicated = not (s.cmd_num == 0) && s.cmd_num == f.cmd_num
  let idx = (s.data_count + 2 * u8_mod - f.continued - 1) % u8_mod
  let noted = record s {
    op_code = f.op_code;
    cmd_num = f.cmd_num;
    transaction_id = f.transaction_id;
    data_continued = f.continued;
    data_idx = idx;
  }
  old ← get_elem? buffers idx
  if not (f.size == 0) && not d.buffer_allocated then some (false, none, reset noted) else do
    let fresh : Buffer = record {
      len = f.size;
      p = if d.buffer_allocated then some (replicate f.size none) else none;
    }
    filled ← if d.buffer_allocated then copy_in fresh 0 f.segment_data f.segment_len else some fresh
    let buffers' = set_at buffers idx filled
    let whole = leb f.size s.mtu && f.size == f.segment_len
    some (
        finish duplicated
          (record noted {
            buffers = some buffers';
            total_size = (s.total_size + f.size) % u32_mod;
            msg_is_completed = whole || s.msg_is_completed;
            state = if whole then idle else assembling;
          })
          buffers')

-- case MSG_STATE_IDLE
unfoldable pub assemble_first : Driver → Frame → MsgState → Option Outcome
unfolding start_chunk reset
assemble_first d f s =
    if not (f.op_code == 0) || leb f.transaction_id s.transaction_id && not (s.transaction_id == 0)
    then some (false, none, reset s)
    else elim s.buffers [
      | some buffers ↦ start_chunk d f s buffers
      | none ↦
          let count = (f.continued + 1) % u8_mod in
          let buffers = replicate count (record { len = 0; p = none }) in
          if d.array_allocated
          then start_chunk d f
              (record s { mtu = room d.get_mtu; data_count = count; buffers = some buffers })
              buffers
          else some (false, none, reset s)
    ]

unfoldable pub assemble_frame : Driver → Frame → Phase → MsgState → Option Outcome
unfolding assemble_first assemble_next finish reset
assemble_frame d f idle s = assemble_first d f s
assemble_frame d f assembling s = assemble_next f s
assemble_frame d f disassembling s = some (finish false (reset s) [])

-- `buf` is the packet of the driver, with its length; NULL is `none`.
unfoldable pub assemble : Driver → Option (List ℕ) → MsgState → Option Outcome
unfolding parse_frame assemble_frame
assemble d none s = some (false, none, s)
assemble d (some []) s = some (false, none, s)
assemble d (some (b ∷ bs)) s = do f ← parse_frame (b ∷ bs); assemble_frame d f s.state s
