-- ===== src/Ble/Chunk.antt =====
-- The chunks that the loop of es_msg_disassemble cuts a message into.
use st_device_sdk_c.Prelude.{
  ℕ, zero, suc, ◌+◌, ◌*◌, ◌%◌, ◌^◌, ◌≤◌, ◌<◌, ◌≡◌, refl, sym, ap, ◌∙◌, true, ◌==◌, leb,
  if◌then◌else◌, List, ◌++◌, length, take, drop, length-append, length-take, append_assoc,
  take-append-drop, length-drop, drop-append, drop_all, some, arith,
}
use st_device_sdk_c.Ble.{u16_mod, u32_mod}
use st_device_sdk_c.Ble.Memory.{read_in}
use st_device_sdk_c.Ble.Disassemble.{Message, segment_len}

-- The room for data in a packet is not 0 and fits `segment_len`, and the message's length fits the
-- three bytes of `total_size`.
abbrev pub Fits : Message → Type 0
Fits m = (0 < m.mtu) × (m.mtu < u16_mod) × (length m.payload < 2 ^ 24)

unfoldable pub chunk_len : Message → List ℕ → ℕ
chunk_len m rest = if leb m.mtu (length rest) then m.mtu else length rest

pub segment_len-chunk_len :
    (m : Message) (front rest : List ℕ)
    → Fits m
    → m.payload ≡ front ++ rest
    → segment_len m (length front) ≡ chunk_len m rest
unfolding chunk_len
segment_len-chunk_len m front rest (pos, small, few) e =
    let total : length m.payload ≡ length front + length rest =
      ap length e ∙ length-append front rest in
    ground (arith, total)

pub chunk_len-le : (m : Message) (rest : List ℕ) → chunk_len m rest ≤ length rest
unfolding chunk_len
chunk_len-le m rest = ground arith

pub length-chunk :
    (m : Message) (rest : List ℕ) → length (take (chunk_len m rest) rest) ≡ chunk_len m rest
length-chunk m rest = omega (arith, length-take (chunk_len m rest) rest, chunk_len-le m rest)

pub read_chunk :
    (m : Message) (front rest : List ℕ)
    → Fits m
    → m.payload ≡ front ++ rest
    → read_in (drop (length front) m.payload) (segment_len m (length front))
      ≡ some (take (chunk_len m rest) rest)
unfolding read_in
read_chunk m front rest fits e =
    let behind : drop (length front) m.payload ≡ rest =
      ap (drop (length front)) e
      ∙ drop-append (length front) front rest (omega arith)
      ∙ ap (λ (t : List ℕ). t ++ rest) (drop_all (length front) front (omega arith)) in
    let fits_in : leb (chunk_len m rest) (length rest) ≡ true =
      ground (arith, chunk_len-le m rest) in
    rw (behind, segment_len-chunk_len m front rest fits e, fits_in) refl

pub after_chunk :
    (m : Message) (front rest : List ℕ)
    → Fits m
    → m.payload ≡ front ++ rest
    → (length front + segment_len m (length front)) % u32_mod
      ≡ length (front ++ take (chunk_len m rest) rest)
after_chunk m front rest (pos, small, few) e =
    let total : length m.payload ≡ length front + length rest =
      ap length e ∙ length-append front rest in
    rw (segment_len-chunk_len m front rest (pos, small, few) e) (
      omega (
        arith,
        total,
        chunk_len-le m rest,
        length-chunk m rest,
        length-append front (take (chunk_len m rest) rest),
      ))

-- What is left of `rest` behind its first chunk.
abbrev pub behind_chunk : Message → List ℕ → List ℕ
behind_chunk m rest = drop (chunk_len m rest) rest

pub split_rest :
    (m : Message) (rest : List ℕ)
    → length rest ≡ length (take (chunk_len m rest) rest) + length (behind_chunk m rest)
split_rest m rest =
    omega (arith, length-chunk m rest, chunk_len-le m rest, length-drop (chunk_len m rest) rest)

pub split_payload :
    (m : Message) (front rest : List ℕ)
    → m.payload ≡ front ++ rest
    → m.payload ≡ (front ++ take (chunk_len m rest) rest) ++ behind_chunk m rest
split_payload m front rest e =
    e
    ∙ ap (λ (t : List ℕ). front ++ t) (sym (take-append-drop (chunk_len m rest) rest))
    ∙ sym (append_assoc front (take (chunk_len m rest) rest) (behind_chunk m rest))

pub behind_chunk_shorter :
    (m : Message) (rest : List ℕ)
    → 0 < m.mtu
    → 0 < length rest
    → length (behind_chunk m rest) < length rest
unfolding chunk_len
behind_chunk_shorter m rest pos some_left = ground (arith, length-drop (chunk_len m rest) rest)

pub back_few :
    (m : Message) (k : ℕ) (rest : List ℕ)
    → length rest ≤ suc k * m.mtu
    → 0 < length (behind_chunk m rest)
    → (length (behind_chunk m rest) ≤ k * m.mtu) × (0 < k)
unfolding chunk_len
back_few m zero rest few some_left = absurd (ground (arith, length-drop (chunk_len m rest) rest))
back_few m (suc k) rest few some_left = ground (arith, length-drop (chunk_len m rest) rest)

-- A first packet that is also the last.
pub first_is_whole :
    (m : Message) (rest : List ℕ)
    → 0 < m.mtu
    → leb (length rest) m.mtu ≡ (length (behind_chunk m rest) == 0)
unfolding chunk_len
first_is_whole m rest pos = ground (arith, length-drop (chunk_len m rest) rest)
