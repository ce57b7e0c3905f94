-- ===== src/Ble/Receive.antt =====
-- Lemmas on es_msg_assemble (src/easysetup/ble/iot_easysetup_ble_msg.c) for the packets of one chunk.
use st_device_sdk_c.Prelude.{
  ℕ, ◌+◌, ◌%◌, ◌^◌, ◌<◌, ◌≡◌, refl, ap, ◌∙◌, inl, inr, Bool, true, false, Bool-cases, not, ◌&&◌,
  ◌==◌, leb, if◌then◌else◌, List, [], ◌∷◌, ◌++◌, length, take, replicate, length-append,
  length-replicate, length-take, length-take, Option, none, some, arith,
}
use st_device_sdk_c.Prelude.Options.{◌>>=◌}
use st_device_sdk_c.Ble.{
  idle, assembling, Cell, MsgState, Frame, parse_frame, frame_bytes, u32_mod, room,
}
use st_device_sdk_c.Ble.Memory.{copy_in}
use st_device_sdk_c.Ble.Assemble.{
  Driver, Dispatch, reset, finish, assemble_next, start_chunk, assemble_first, assemble_frame,
  assemble,
}
use st_device_sdk_c.Ble.Disassemble.{Message}
use st_device_sdk_c.Ble.Memory.Fill.{holding, copy_in-holding}

-- The driver passes on one packet after the other.
abbrev pub receive_all : Driver → List (List ℕ) → MsgState → Option (List Dispatch × MsgState)
receive_all d [] s = some ([], s)
receive_all d (p ∷ ps) s = do
  (_, dispatched, s') ← assemble d (some p) s
  (later, s'') ← receive_all d ps s'
  some (elim dispatched [ none ↦ later | some one ↦ one ∷ later ], s'')

-- The state between two messages, after one with the command `cmd` and the transaction `id`.
abbrev pub rested : ℕ → ℕ → MsgState
rested cmd id = record {
  state = idle;
  msg_is_completed = false;
  mtu = 0;
  op_code = 0;
  cmd_num = cmd;
  transaction_id = id;
  total_size = 0;
  data_continued = 0;
  data_count = 0;
  buffers = none;
  data_idx = 0;
}

pub parse_frame-frame_bytes :
    (f : Frame) → f.size < 2 ^ 24 → f.segment_len < 2 ^ 16 → parse_frame (frame_bytes f) ≡ some f
unfolding parse_frame frame_bytes
parse_frame-frame_bytes f h k = ground arith

pub assemble-frame_bytes :
    (d : Driver) (f : Frame) (s : MsgState)
    → f.size < 2 ^ 24
    → f.segment_len < 2 ^ 16
    → assemble d (some (frame_bytes f)) s ≡ assemble_frame d f s.state s
unfolding assemble frame_bytes
assemble-frame_bytes d f s h k =
    ap (λ (o : Option Frame). o >>= λ g. assemble_frame d g s.state s)
      (parse_frame-frame_bytes f h k)

-- The receiver while it puts the message `m` together: the bytes `front` are there, `left` are not,
-- and the last packet was number `op`.
abbrev pub waiting : Message → List ℕ → ℕ → ℕ → MsgState
waiting m front left op = record {
  state = assembling;
  msg_is_completed = false;
  mtu = m.mtu;
  op_code = op;
  cmd_num = m.cmd_num;
  transaction_id = m.transaction_id;
  total_size = (length front + left) % u32_mod;
  data_continued = 0;
  data_count = 1;
  buffers = some (holding front left ∷ []);
  data_idx = 0;
}

-- What es_msg_dispatch is called with for a message of one chunk.
abbrev pub delivered : List ℕ → ℕ → Dispatch
delivered payload cmd = record { buffers = holding payload 0 ∷ []; data_count = 1; cmd_num = cmd }

pub same_number : (n : ℕ) → (n == n) ≡ true
same_number n = ground arith

covers : (a b c : ℕ) → leb (a + (b + c)) (a + b) ≡ (c == 0)
covers a b c = ground arith

-- A packet in the middle, or the last.
pub assemble_next-waiting :
    (m : Message) (front seg : List ℕ) (left op continued : ℕ)
    → assemble_next
        (record {
          op_code = op + 1;
          cmd_num = m.cmd_num;
          transaction_id = m.transaction_id;
          size = length front;
          continued = continued;
          segment_len = length seg;
          segment_data = seg;
        })
        (waiting m front (length seg + left) op)
      ≡ some (
          if left == 0
          then (true, some (delivered (front ++ seg) m.cmd_num), rested m.cmd_num m.transaction_id)
          else (true, none, waiting m (front ++ seg) left (op + 1)))
unfolding assemble_next finish reset
assemble_next-waiting m front seg left op continued =
    rw
      (
        copy_in-holding front seg left,
        same_number (op + 1),
        same_number m.cmd_num,
        same_number m.transaction_id,
        covers (length front) (length seg) left,
      )
      (elim (Bool-cases (left == 0)) [
        | inl last ↦
            let none_left : left ≡ 0 = ground (arith, last) in
            rw last (
              ap
                (λ (n : ℕ). some (
                  true,
                  some (record {
                    buffers = holding (front ++ seg) n ∷ [];
                    data_count = 1;
                    cmd_num = m.cmd_num;
                  }),
                  rested m.cmd_num m.transaction_id,
                ))
                none_left)
        | inr more ↦
            let total : length front + (length seg + left) ≡ length (front ++ seg) + left =
              omega (arith, length-append front seg) in
            rw (more, total) refl
      ])

pub and_false : (b : Bool) → (b && false) ≡ false
and_false true = refl
and_false false = refl

exactly : (a b : ℕ) → (a + b == a) ≡ (b == 0)
exactly a b = ground arith

copy_in-fresh :
    (seg : List ℕ) (left : ℕ)
    → copy_in
        (record { len = length seg + left; p = some (replicate (length seg + left) none) })
        0
        seg
        (length seg)
      ≡ some (holding seg left)
copy_in-fresh seg left =
    ap
      (λ (n : ℕ).
        copy_in (record { len = n; p = some (replicate (length seg + left) none) }) 0 seg
          (length seg))
      (let same : length seg + left ≡ 0 + (length seg + left) = omega arith in same)
    ∙ copy_in-holding [] seg left

-- The first packet of a message of one chunk, after another message.
pub assemble_first-rested :
    (d : Driver) (m : Message) (seg : List ℕ) (left cmd id : ℕ)
    → d.array_allocated ≡ true
    → d.buffer_allocated ≡ true
    → room d.get_mtu ≡ m.mtu
    → (leb m.transaction_id id && not (id == 0)) ≡ false
    → (not (cmd == 0) && cmd == m.cmd_num) ≡ false
    → leb (length seg + left) m.mtu ≡ (left == 0)
    → assemble_first d
        (record {
          op_code = 0;
          cmd_num = m.cmd_num;
          transaction_id = m.transaction_id;
          size = length seg + left;
          continued = 0;
          segment_len = length seg;
          segment_data = seg;
        })
        (rested cmd id)
      ≡ some (
          if left == 0
          then (true, some (delivered seg m.cmd_num), rested m.cmd_num m.transaction_id)
          else (true, none, waiting m seg left 0))
unfolding assemble_first finish reset
assemble_first-rested d m seg left cmd id array buffer mtu newer other whole =
    rw
      (
        newer,
        array,
        buffer,
        other,
        mtu,
        copy_in-fresh seg left,
        whole,
        and_false (not (length seg + left == 0)),
        exactly (length seg) left,
      )
      (elim (Bool-cases (left == 0)) [
        | inl last ↦
            let none_left : left ≡ 0 = ground (arith, last) in
            rw last (
              ap
                (λ (n : ℕ). some (
                  true,
                  some (record {
                    buffers = holding seg n ∷ [];
                    data_count = 1;
                    cmd_num = m.cmd_num;
                  }),
                  rested m.cmd_num m.transaction_id,
                ))
                none_left)
        | inr more ↦
            let total : 0 + (length seg + left) ≡ length seg + left = omega arith in
            rw (more, total) refl
      ])

copy_in_overflows :
    (size n : ℕ) (bytes : List ℕ)
    → size < n
    → copy_in (record { len = size; p = some (replicate size none) }) 0 bytes n ≡ none
unfolding copy_in
copy_in_overflows size n bytes longer = elim (Bool-cases (leb n (length bytes))) [
  | inl there ↦
      let full : leb (0 + length (take n bytes)) (length (replicate {A = Cell} size none)) ≡ false =
        ground (arith, there, length-take n bytes, length-replicate {A = Cell} size none) in
      rw (there, full) refl
  | inr missing ↦ rw missing refl
]

-- A first packet whose segment is longer than the message that it announces is written behind the
-- end of the buffer, which was allocated for the announced size: in the model the access fails.
pub overlong_segment_overflows :
    (d : Driver) (s : MsgState) (b : ℕ) (bs : List ℕ) (cmd id size n : ℕ) (segment : List ℕ)
    → parse_frame (b ∷ bs)
      ≡ some (record {
        op_code = 0;
        cmd_num = cmd;
        transaction_id = id;
        size = size;
        continued = 0;
        segment_len = n;
        segment_data = segment;
      })
    → s.state ≡ idle
    → s.buffers ≡ none
    → d.array_allocated ≡ true
    → d.buffer_allocated ≡ true
    → (leb id s.transaction_id && not (s.transaction_id == 0)) ≡ false
    → size < n
    → assemble d (some (b ∷ bs)) s ≡ none
unfolding assemble assemble_frame assemble_first start_chunk
overlong_segment_overflows d s b bs cmd id size n segment parsed at_idle empty array buffer newer
      longer =
    rw
      (
        assemble,
        parsed,
        at_idle,
        newer,
        empty,
        array,
        buffer,
        and_false (not (size == 0)),
        copy_in_overflows size n segment longer,
      )
      refl
