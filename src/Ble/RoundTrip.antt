-- ===== src/Ble/RoundTrip.antt =====
-- A message that es_msg_disassemble sent, given to es_msg_assemble packet by packet.
use st_device_sdk_c.Prelude.{
  ℕ, zero, suc, ◌+◌, ◌-◌, ◌*◌, ◌/◌, ◌%◌, ◌^◌, ◌≤◌, ◌<◌, ◌≡◌, refl, sym, ap, subst, ◌∙◌, inl, inr,
  true, false, Bool-cases, not, ◌&&◌, ◌==◌, leb, if◌then◌else◌, List, [], ◌∷◌, ◌++◌, length, take,
  length-append, append_assoc, append_nil, none, some, arith,
}
use st_device_sdk_c.Errors.{error_none}
use st_device_sdk_c.Ble.{idle, MsgState, Frame, frame_bytes, u8_mod, u16_mod, room}
use st_device_sdk_c.Ble.Assemble.{Driver, assemble_first, assemble_frame, assemble}
use st_device_sdk_c.Ble.Disassemble.{Message, segment_len, frame_at, send_loop, disassemble}
use st_device_sdk_c.Ble.Receive.{
  same_number, and_false, receive_all, rested, waiting, delivered, assemble-frame_bytes,
  assemble_next-waiting, assemble_first-rested,
}
use st_device_sdk_c.Ble.Chunk.{
  Fits, chunk_len, behind_chunk, segment_len-chunk_len, length-chunk, split_rest, split_payload,
  behind_chunk_shorter, back_few, first_is_whole,
}
use st_device_sdk_c.Ble.Send.{send_done, send_step}

-- A packet behind the first, received.
receive_chunk :
    (m : Message) (d : Driver) (op : ℕ) (front rest : List ℕ)
    → Fits m
    → m.payload ≡ front ++ rest
    → assemble d
        (some (frame_bytes (frame_at m (length front) (op + 1) (take (chunk_len m rest) rest))))
        (waiting m front (length rest) op)
      ≡ some (
          if length (behind_chunk m rest) == 0
          then (
            true,
            some (delivered (front ++ take (chunk_len m rest) rest) m.cmd_num),
            rested m.cmd_num m.transaction_id,
          )
          else (
            true,
            none,
            waiting m
                (front ++ take (chunk_len m rest) rest)
                (length (behind_chunk m rest))
                (op + 1),
          ))
unfolding assemble_frame
receive_chunk m d op front rest fits e =
    let seg : List ℕ = take (chunk_len m rest) rest in
    let total : length m.payload ≡ length front + length rest =
      ap length e ∙ length-append front rest in
    let later : (op + 1 == 0) ≡ false = ground arith in
    let size : segment_len m (length front) ≡ length seg =
      segment_len-chunk_len m front rest fits e ∙ sym (length-chunk m rest) in
    let in_header : (if op + 1 == 0 then length m.payload else length front) < 2 ^ 24 =
      ground (arith, total, fits.2) in
    assemble-frame_bytes d (frame_at m (length front) (op + 1) seg)
      (waiting m front (length rest) op) in_header (omega arith)
    ∙ rw (later, size, split_rest m rest)
        (assemble_next-waiting m front seg (length (behind_chunk m rest)) op
          ((length m.payload / m.mtu + u8_mod - (op + 1)) % u8_mod))

receive_first :
    (m : Message) (d : Driver) (cmd id : ℕ)
    → Fits m
    → m.data_continued ≡ 0
    → d.array_allocated ≡ true
    → d.buffer_allocated ≡ true
    → room d.get_mtu ≡ m.mtu
    → (leb m.transaction_id id && not (id == 0)) ≡ false
    → (not (cmd == 0) && cmd == m.cmd_num) ≡ false
    → let seg = take (chunk_len m m.payload) m.payload in
      assemble d (some (frame_bytes (frame_at m 0 0 seg))) (rested cmd id)
      ≡ some (
          if length (behind_chunk m m.payload) == 0
          then (true, some (delivered seg m.cmd_num), rested m.cmd_num m.transaction_id)
          else (true, none, waiting m seg (length (behind_chunk m m.payload)) 0))
unfolding assemble_frame
receive_first m d cmd id fits one array buffer mtu newer other =
    let seg : List ℕ = take (chunk_len m m.payload) m.payload in
    let left : ℕ = length (behind_chunk m m.payload) in
    let size : segment_len m 0 ≡ length seg =
      segment_len-chunk_len m [] m.payload fits refl ∙ sym (length-chunk m m.payload) in
    let split : length m.payload ≡ length seg + left = split_rest m m.payload in
    let same : frame_at m 0 0 seg ≡ record {
      op_code = 0;
      cmd_num = m.cmd_num;
      transaction_id = m.transaction_id;
      size = length seg + left;
      continued = 0;
      segment_len = length seg;
      segment_data = seg;
    } =
      ground (arith, size, split, one) in
    assemble-frame_bytes d (frame_at m 0 0 seg) (rested cmd id) fits.2 (omega arith)
    ∙ ap (λ (f : Frame). assemble_first d f (rested cmd id)) same
    ∙ assemble_first-rested d m seg left cmd id array buffer mtu newer other
        (ap (λ (n : ℕ). leb n m.mtu) (sym split) ∙ first_is_whole m m.payload fits.0)

all_there : (front back : List ℕ) → length back ≡ 0 → front ++ back ≡ front
all_there front [] h = append_nil front
all_there front (b ∷ back) h = absurd (omega arith)

module _ (indicate : List (List ℕ) → ℕ) (sends : (ps : List (List ℕ)) → indicate ps ≡ 0) where
  -- What is left is sent by `fuel` rounds, and a receiver in the state `w` then has the payload.
  abbrev Delivers : Message → Driver → ℕ → ℕ → ℕ → List (List ℕ) → MsgState → Type 0
  Delivers m d fuel sent op packets w =
      (ps : List (List ℕ)) × (send_loop indicate m fuel sent op packets ≡ some (0, packets ++ ps))
      × (receive_all d ps w
          ≡ some (delivered m.payload m.cmd_num ∷ [], rested m.cmd_num m.transaction_id))

  deliver_from :
      (m : Message) (d : Driver) (fuel op : ℕ) (front rest : List ℕ) (packets : List (List ℕ))
      (w : MsgState)
      → Fits m
      → m.payload ≡ front ++ rest
      → 0 < length rest
      → let seg = take (chunk_len m rest) rest in
        let p = frame_bytes (frame_at m (length front) op seg) in
        assemble d (some p) w
          ≡ some (
              if length (behind_chunk m rest) == 0
              then (
                true,
                some (delivered (front ++ seg) m.cmd_num),
                rested m.cmd_num m.transaction_id,
              )
              else (true, none, waiting m (front ++ seg) (length (behind_chunk m rest)) op))
        → (0 < length (behind_chunk m rest)
            → Delivers m d fuel
                (length (front ++ seg))
                ((op + 1) % u8_mod)
                (packets ++ p ∷ [])
                (waiting m (front ++ seg) (length (behind_chunk m rest)) op))
        → Delivers m d (suc fuel) (length front) op packets w
  deliver_from m d fuel op front rest packets w fits e pos received later =
      let seg : List ℕ = take (chunk_len m rest) rest in
      let back : List ℕ = behind_chunk m rest in
      let p : List ℕ = frame_bytes (frame_at m (length front) op seg) in
      let e' : m.payload ≡ (front ++ seg) ++ back = split_payload m front rest e in
      let total : length m.payload ≡ length (front ++ seg) + length back =
        ap length e' ∙ length-append (front ++ seg) back in
      let sent = send_step indicate sends m fuel op front rest packets fits e pos in
      elim (Bool-cases (length back == 0)) [
        | inl done ↦
            let whole : front ++ seg ≡ m.payload =
              sym (e' ∙ all_there (front ++ seg) back (ground (arith, done))) in
            (
              p ∷ [],
              sent ∙ send_done indicate m fuel _ _ _ (ground (arith, done, total)),
              rw (received, done)
                  (ap
                    (λ (t : List ℕ).
                      some (delivered t m.cmd_num ∷ [], rested m.cmd_num m.transaction_id))
                    whole),
            )
        | inr more ↦
            let (ps, others, rest_received) = later (ground (arith, more)) in
            (
              p ∷ ps,
              sent
                  ∙ others
                  ∙ ap (λ (t : List (List ℕ)). some (0, t)) (append_assoc packets (p ∷ []) ps),
              rw (received, more, rest_received) refl,
            )
      ]

  -- The packets from number `op + 1` on.
  rest_delivered :
      (m : Message) (d : Driver) (k fuel op : ℕ) (front rest : List ℕ) (packets : List (List ℕ))
      → Fits m
      → m.payload ≡ front ++ rest
      → 0 < length rest
      → length rest ≤ k * m.mtu
      → k + op < u8_mod
      → length rest ≤ fuel
      → Delivers m d fuel (length front) (op + 1) packets (waiting m front (length rest) op)
  rest_delivered m d zero fuel op front rest packets fits e pos few last enough =
      absurd (omega arith)
  rest_delivered m d (suc k) zero op front rest packets fits e pos few last enough =
      absurd (omega arith)
  rest_delivered m d (suc k) (suc fuel) op front rest packets fits e pos few last enough =
      let sent : List (List ℕ) =
        packets
        ++ frame_bytes (frame_at m (length front) (op + 1) (take (chunk_len m rest) rest)) ∷ [] in
      deliver_from m d fuel (op + 1) front rest packets (waiting m front (length rest) op) fits e
        pos (receive_chunk m d op front rest fits e)
        (λ some_left.
          let (fewer, others) = back_few m k rest few some_left in
          let wraps : (op + 1 + 1) % u8_mod ≡ op + 1 + 1 = omega arith in
          subst
            (λ (n : ℕ). Delivers m d fuel (length (front ++ take (chunk_len m rest) rest)) n sent (
              waiting m (front ++ take (chunk_len m rest) rest) (length (behind_chunk m rest))
                (op + 1)))
            (sym wraps)
            (rest_delivered m d k fuel (op + 1) (front ++ take (chunk_len m rest) rest)
              (behind_chunk m rest) sent fits (split_payload m front rest e) some_left fewer
              (omega arith) (omega (arith, behind_chunk_shorter m rest fits.0 pos))))

  -- A message of one chunk that fits 256 packets, sent by es_msg_disassemble and passed packet by
  -- packet to es_msg_assemble of a receiver between two messages, which has not seen a later
  -- transaction or the same command just before: if every indication is confirmed and both sides
  -- have the memory they ask for, the sender returns no error, and es_msg_dispatch is called once,
  -- with the command and all the bytes of the message in order. No access is out of bounds.
  pub message_delivered :
      (d : Driver) (s : MsgState) (b : ℕ) (bs : List ℕ) (cmd id : ℕ)
      → s.state ≡ idle
      → 0 < room d.get_mtu
      → room d.get_mtu < u16_mod
      → length (b ∷ bs) ≤ u8_mod * room d.get_mtu
      → d.array_allocated ≡ true
      → d.buffer_allocated ≡ true
      → (leb s.transaction_id id && not (id == 0)) ≡ false
      → (not (cmd == 0) && cmd == s.cmd_num) ≡ false
      → (packets : List (List ℕ)) × (disassemble indicate d.get_mtu true
            (some (b ∷ bs))
            0
            s.cmd_num
            s
          ≡ some
              (error_none, packets, record s { mtu = room d.get_mtu; state = idle; cmd_num = 0 }))
        × (receive_all d packets (rested cmd id)
            ≡ some (delivered (b ∷ bs) s.cmd_num ∷ [], rested s.cmd_num s.transaction_id))
  unfolding disassemble
  message_delivered d s b bs cmd id is_idle pos small few array buffer newer other =
      let m : Message = record {
        cmd_num = s.cmd_num;
        transaction_id = s.transaction_id;
        data_continued = 0;
        mtu = room d.get_mtu;
        payload = b ∷ bs;
      } in
      let fits : Fits m = (pos, small, ground arith) in
      let (ps, sent, received) =
        deliver_from m d (length bs) 0 [] (b ∷ bs) [] (rested cmd id) fits refl (omega arith)
          (receive_first m d cmd id fits refl array buffer refl newer other)
          (λ some_left.
            let (fewer, others) = back_few m 255 (b ∷ bs) (omega arith) some_left in
            rest_delivered m d 255 (length bs) 0 (take (chunk_len m (b ∷ bs)) (b ∷ bs))
              (behind_chunk m (b ∷ bs))
              (frame_bytes (frame_at m 0 0 (take (chunk_len m (b ∷ bs)) (b ∷ bs))) ∷ []) fits
              (split_payload m [] (b ∷ bs) refl) some_left fewer (omega arith)
              (omega (arith, behind_chunk_shorter m (b ∷ bs) pos (omega arith)))) in
      (
        ps,
        rw (same_number s.cmd_num, and_false (not (s.cmd_num == 13)), is_idle, sent) refl,
        received,
      )
