-- ===== src/LogFile/Read.antt =====
-- Lemmas on iot_log_file_read (src/iot_log_file.c).
use st_device_sdk_c.Prelude.{
  ℕ, ◌+◌, ◌-◌, ◌^◌, ◌≤◌, ◌<◌, ◌≡◌, refl, sym, ap, ◌∙◌, true, false, Bool-cases, inl, inr, min, List,
  ◌++◌, length, take, drop, length-take, length-drop, take_eq, take-append, take-append_over,
  drop-take, take-take, take-take-min, Option, some, arith,
}
use st_device_sdk_c.Errors.{IotError, error_none}
use st_device_sdk_c.LogFile.{
  LogBuf, Handle, ram_only, check_valid_range, read_bytes, read_rest, read_log,
}

-- A handle whose log is the first `log_size` characters of the buffer.
pub record IsHandle (b : LogBuf) (h : Handle) : Type 0 where
  pub start_zero : h.start_addr ≡ 0
  pub is_ram : h.file_type ≡ ram_only
  pub cur_le : h.cur_addr ≤ h.log_size
  pub size_le : h.log_size ≤ length b.buf
  pub size_word : h.log_size < 2 ^ 32

-- The log from the cursor on, once around.
abbrev pub around : LogBuf → Handle → List ℕ
around b h = drop h.cur_addr (take h.log_size b.buf) ++ take h.cur_addr b.buf

read_ok :
    (b : LogBuf) (h : Handle) (addr n : ℕ)
    → h.file_type ≡ ram_only
    → addr + n ≤ length b.buf
    → read_bytes h.file_type b addr n ≡ some (error_none, take n (drop addr b.buf))
unfolding read_bytes
read_ok b h addr n r e = rw r (ground arith)

read_inside :
    (b : LogBuf) (h : Handle) (n : ℕ)
    → IsHandle b h
    → h.cur_addr + n ≤ h.log_size
    → take n (drop h.cur_addr b.buf) ≡ take n (around b h)
read_inside b h n v e = sym (
    take-append n (drop h.cur_addr (take h.log_size b.buf)) (take h.cur_addr b.buf) (
      omega (
        arith,
        v.size_le,
        length-drop h.cur_addr (take h.log_size b.buf),
        length-take h.log_size b.buf,
      ))
    ∙ ap (take n) (drop-take h.cur_addr h.log_size b.buf)
    ∙ take-take n (h.log_size - h.cur_addr) (drop h.cur_addr b.buf) (omega arith))

read_around :
    (b : LogBuf) (h : Handle) (n : ℕ)
    → IsHandle b h
    → h.log_size < h.cur_addr + n
    → take (h.log_size - h.cur_addr) (drop h.cur_addr b.buf)
        ++ take (min (n - (h.log_size - h.cur_addr)) h.cur_addr) b.buf
      ≡ take n (around b h)
read_around b h n v e =
    rw
      (
        sym (drop-take h.cur_addr h.log_size b.buf),
        sym (take-take-min (n - (h.log_size - h.cur_addr)) h.cur_addr b.buf),
      )
      (sym (
        take-append_over n (drop h.cur_addr (take h.log_size b.buf)) (take h.cur_addr b.buf)
          (omega (arith, before))
        ∙ ap (λ (t : List ℕ). drop h.cur_addr (take h.log_size b.buf) ++ t)
            (take_eq _ (n - (h.log_size - h.cur_addr)) (take h.cur_addr b.buf)
              (omega (arith, before)))))
  where
    before : length (drop h.cur_addr (take h.log_size b.buf)) ≡ h.log_size - h.cur_addr
    before = omega (
      arith,
      v.size_le,
      length-drop h.cur_addr (take h.log_size b.buf),
      length-take h.log_size b.buf,
    )

abbrev Result : Type 0
Result = Option (IotError × List ℕ × ℕ × Handle)

abbrev success : Handle → List ℕ → ℕ → ℕ → Result
success h bytes n cur = some (error_none, bytes, n, record h { cur_addr = cur })

success_eq :
    (h : Handle) (bytes bytes' : List ℕ) (n n' cur cur' : ℕ)
    → bytes ≡ bytes'
    → n ≡ n'
    → cur ≡ cur'
    → success h bytes n cur ≡ success h bytes' n' cur'
success_eq h bytes bytes' n n' cur cur' p q r = rw (p, q, r) refl

rest_eq :
    (b : LogBuf) (h : Handle) (bytes bytes' : List ℕ) (n n' : ℕ)
    → bytes ≡ bytes'
    → n ≡ n'
    → read_rest b h bytes n ≡ read_rest b h bytes' n'
rest_eq b h bytes bytes' n n' p q = rw (p, q) refl

read_log_inside :
    (b : LogBuf) (h : Handle) (n : ℕ)
    → IsHandle b h
    → h.cur_addr + n < 2 ^ 32
    → check_valid_range h n ≡ true
    → read_log b h n
      ≡ some (error_none, take n (drop h.cur_addr b.buf), n, record h { cur_addr = h.cur_addr + n })
unfolding read_log
read_log_inside b h n v word inside =
    rw
      (
        inside,
        read_ok b h h.cur_addr n v.is_ram (ground (arith, v.start_zero, v.size_le, v.size_word)),
      )
      refl

read_rest-eq :
    (b : LogBuf) (h : Handle) (bytes : List ℕ) (n : ℕ)
    → h.file_type ≡ ram_only
    → h.start_addr ≡ 0
    → n ≤ length b.buf
    → read_rest b h bytes n
      ≡ some (error_none, bytes ++ take n b.buf, length bytes + n, record h { cur_addr = n })
unfolding read_rest
read_rest-eq b h bytes n r z e =
    rw (read_rest, read_ok b h h.start_addr n r (omega (arith, z, e)))
      (success_eq h _ (bytes ++ take n b.buf) _ (length bytes + n) _ n
        (ap (λ (s : ℕ). bytes ++ take n (drop s b.buf)) z) refl (omega (arith, z)))

read_log_over :
    (b : LogBuf) (h : Handle) (n : ℕ)
    → IsHandle b h
    → h.cur_addr + n < 2 ^ 32
    → check_valid_range h n ≡ false
    → read_log b h n
      ≡ read_rest b h
          (take (h.log_size - h.cur_addr) (drop h.cur_addr b.buf))
          (min (n - (h.log_size - h.cur_addr)) h.cur_addr)
unfolding read_log
read_log_over b h n v word over =
    rw
      (
        over,
        read_ok b h h.cur_addr (h.log_size - (h.cur_addr - h.start_addr)) v.is_ram
            (omega (arith, v.start_zero, v.cur_le, v.size_le)),
      )
      (rest_eq b h _ (take (h.log_size - h.cur_addr) (drop h.cur_addr b.buf)) _
        (min (n - (h.log_size - h.cur_addr)) h.cur_addr)
        (take_eq _ (h.log_size - h.cur_addr) (drop h.cur_addr b.buf) (omega (arith, v.start_zero)))
        (ground (arith, v.start_zero, v.size_word, word)))

-- On a handle of the log in RAM, and for a number `n` whose sum with the cursor fits size_t of 32
-- bits, iot_log_file_read of `n` characters never reads outside the buffer
-- and succeeds: it copies the first `n` characters of the log from the cursor on, once around at
-- most, and reports how many these are. The handle stays well-formed.
pub read_log-around :
    (b : LogBuf) (h : Handle) (n : ℕ)
    → IsHandle b h
    → h.cur_addr + n < 2 ^ 32
    → (h' : Handle) × (read_log b h n
        ≡ some (error_none, take n (around b h), min n h.log_size, h'))
      × IsHandle b h'
read_log-around b h n v word = elim (Bool-cases (check_valid_range h n)) [
  | inl inside ↦ (
    record h { cur_addr = h.cur_addr + n },
    read_log_inside b h n v word inside
        ∙ success_eq h _ (take n (around b h)) n (min n h.log_size) _ (h.cur_addr + n)
            (read_inside b h n v (in_range inside)) (omega (arith, in_range inside)) refl,
    record {
      start_zero = v.start_zero;
      is_ram = v.is_ram;
      cur_le = in_range inside;
      size_le = v.size_le;
      size_word = v.size_word;
    },
  )
  | inr over ↦ (
    record h { cur_addr = min (n - (h.log_size - h.cur_addr)) h.cur_addr },
    read_log_over b h n v word over
        ∙ read_rest-eq b h (take (h.log_size - h.cur_addr) (drop h.cur_addr b.buf))
            (min (n - (h.log_size - h.cur_addr)) h.cur_addr) v.is_ram v.start_zero
            (omega (arith, v.cur_le, v.size_le))
        ∙ success_eq h _ (take n (around b h)) _ (min n h.log_size) _
            (min (n - (h.log_size - h.cur_addr)) h.cur_addr) (read_around b h n v (past_end over))
            (omega (
              arith,
              past_end over,
              v.cur_le,
              v.size_le,
              length-take (h.log_size - h.cur_addr) (drop h.cur_addr b.buf),
              length-drop h.cur_addr b.buf,
            ))
            refl,
    record {
      start_zero = v.start_zero;
      is_ram = v.is_ram;
      cur_le = omega (arith, v.cur_le);
      size_le = v.size_le;
      size_word = v.size_word;
    },
  )
]
  where
    in_range : check_valid_range h n ≡ true → h.cur_addr + n ≤ h.log_size
    in_range inside = ground (arith, v.start_zero, v.size_word, word)

    past_end : check_valid_range h n ≡ false → h.log_size < h.cur_addr + n
    past_end over = ground (arith, v.start_zero, v.size_word, word)
