-- ===== src/Ble/Send.antt =====
-- The loop of es_msg_disassemble (src/easysetup/ble/iot_easysetup_ble_msg.c), round by round.
use st_device_sdk_c.Prelude.{
  ℕ, zero, suc, ◌+◌, ◌%◌, ◌^◌, ◌≤◌, ◌<◌, ◌≡◌, refl, ap, ◌∙◌, inl, inr, Bool, true, false,
  Bool-cases, Option-cases, not, ◌&&◌, ◌==◌, ltb, List, [], ◌∷◌, ◌++◌, length, take, length-append,
  Option, none, some, arith,
}
use st_device_sdk_c.Errors.{IotError}
use st_device_sdk_c.Ble.{MsgState, frame_bytes, u8_mod, u16_mod, room}
use st_device_sdk_c.Ble.Disassemble.{Message, frame_at, send_loop, disassemble}
use st_device_sdk_c.Ble.Chunk.{
  Fits, chunk_len, behind_chunk, read_chunk, after_chunk, split_payload, behind_chunk_shorter,
}

-- No bytes behind a NULL pointer.
abbrev pub or_empty : Option (List ℕ) → List ℕ
or_empty none = []
or_empty (some bytes) = bytes

pub send_done :
    (indicate : List (List ℕ) → ℕ) (m : Message) (fuel sent op : ℕ) (packets : List (List ℕ))
    → length m.payload ≤ sent
    → send_loop indicate m fuel sent op packets ≡ some (0, packets)
unfolding send_loop
send_done indicate m zero sent op packets h = ground arith
send_done indicate m (suc fuel) sent op packets h = ground arith

-- A round that finds something left to send.
send_round :
    (indicate : List (List ℕ) → ℕ) (m : Message) (fuel op : ℕ) (front rest : List ℕ)
    (packets : List (List ℕ))
    → Fits m
    → m.payload ≡ front ++ rest
    → 0 < length rest
    → let seg = take (chunk_len m rest) rest in
      let packets' = packets ++ frame_bytes (frame_at m (length front) op seg) ∷ [] in
      send_loop indicate m (suc fuel) (length front) op packets ≡ elim (indicate packets' == 0) [
        | false ↦ some (indicate packets', packets')
        | true ↦ send_loop indicate m fuel (length (front ++ seg)) ((op + 1) % u8_mod) packets'
      ]
unfolding send_loop
send_round indicate m fuel op front rest packets fits e some_left =
    let total : length m.payload ≡ length front + length rest =
      ap length e ∙ length-append front rest in
    let more : ltb (length front) (length m.payload) ≡ true = ground (arith, total) in
    let divides : (not (op == 0) && m.mtu == 0) ≡ false = ground (arith, fits.0) in
    let packets' : List (List ℕ) =
      packets ++ frame_bytes (frame_at m (length front) op (take (chunk_len m rest) rest)) ∷ [] in
    elim (Bool-cases (indicate packets' == 0)) [
      | inl confirmed ↦
          rw
            (
              send_loop,
              more,
              divides,
              read_chunk m front rest fits e,
              confirmed,
              after_chunk m front rest fits e,
            )
            refl
      | inr failed ↦ rw (send_loop, more, divides, read_chunk m front rest fits e, failed) refl
    ]

-- A round whose packet is confirmed.
pub send_step :
    (indicate : List (List ℕ) → ℕ)
    → ((ps : List (List ℕ)) → indicate ps ≡ 0)
    → (m : Message) (fuel op : ℕ) (front rest : List ℕ) (packets : List (List ℕ)) → Fits m
    → m.payload ≡ front ++ rest
    → 0 < length rest
    → let seg = take (chunk_len m rest) rest in
      send_loop indicate m (suc fuel) (length front) op packets
      ≡ send_loop indicate m fuel
          (length (front ++ seg))
          ((op + 1) % u8_mod)
          (packets ++ frame_bytes (frame_at m (length front) op seg) ∷ [])
send_step indicate sends m fuel op front rest packets fits e some_left =
    send_round indicate m fuel op front rest packets fits e some_left
    ∙ rw
        (sends (
          packets
          ++ frame_bytes (frame_at m (length front) op (take (chunk_len m rest) rest)) ∷ []))
        refl

send_loop_ends :
    (indicate : List (List ℕ) → ℕ) (m : Message) (fuel op : ℕ) (front rest : List ℕ)
    (packets : List (List ℕ))
    → Fits m
    → m.payload ≡ front ++ rest
    → length rest ≤ fuel
    → (r : ℕ × List (List ℕ)) × (send_loop indicate m fuel (length front) op packets ≡ some r)
send_loop_ends indicate m fuel op front [] packets fits e enough =
    let total : length m.payload ≡ length front + length {A = ℕ} [] =
      ap length e ∙ length-append front [] in
    ((0, packets), send_done indicate m fuel (length front) op packets (omega (arith, total)))
send_loop_ends indicate m zero op front (b ∷ bs) packets fits e enough = absurd (omega arith)
send_loop_ends indicate m (suc fuel) op front (b ∷ bs) packets fits e enough =
    let rest : List ℕ = b ∷ bs in
    let seg : List ℕ = take (chunk_len m rest) rest in
    let packets' : List (List ℕ) = packets ++ frame_bytes (frame_at m (length front) op seg) ∷ [] in
    let round = send_round indicate m fuel op front rest packets fits e (omega arith) in
    let (r, later) =
      send_loop_ends indicate m fuel ((op + 1) % u8_mod) (front ++ seg) (behind_chunk m rest)
        packets' fits (split_payload m front rest e)
        (omega (arith, behind_chunk_shorter m rest fits.0 (omega arith))) in
    elim (Bool-cases (indicate packets' == 0)) [
      | inl confirmed ↦ (r, round ∙ rw confirmed later)
      | inr failed ↦ ((indicate packets', packets'), round ∙ rw failed refl)
    ]

-- Where a packet has room for data, `segment_len` can count it and `total_size` the message, the
-- loop of es_msg_disassemble ends for every message, within as many rounds as it has bytes, divides
-- by no zero and reads only inside the message; the call returns, whatever iot_send_indication
-- answers.
pub disassemble_ends :
    (indicate : List (List ℕ) → ℕ) (get_mtu : ℕ) (allocated : Bool) (payload : Option (List ℕ))
    (continued cmd : ℕ) (s : MsgState)
    → 0 < room get_mtu
    → room get_mtu < u16_mod
    → length (or_empty payload) < 2 ^ 24
    → (r : IotError × List (List ℕ) × MsgState) × (disassemble indicate get_mtu allocated payload
          continued cmd s
        ≡ some r)
unfolding disassemble
disassemble_ends indicate get_mtu allocated none continued cmd s pos small short = (_, refl)
disassemble_ends indicate get_mtu allocated (some []) continued cmd s pos small short = (_, refl)
disassemble_ends indicate get_mtu allocated (some (b ∷ bs)) continued cmd s pos small short =
    let m : Message = record {
      cmd_num = s.cmd_num;
      transaction_id = s.transaction_id;
      data_continued = continued;
      mtu = room get_mtu;
      payload = b ∷ bs;
    } in
    let (r, ends) =
      send_loop_ends indicate m (suc (length bs)) 0 [] (b ∷ bs) [] (pos, small, short) refl
        (omega arith) in
    elim (Option-cases (disassemble indicate get_mtu allocated (some (b ∷ bs)) continued cmd s)) [
      | inl stuck ↦ ground (arith, stuck, ends)
      | inr returned ↦ returned
    ]
