-- ===== src/LogFile/Open.antt =====
-- Lemmas on the log that iot_log_file_open gives to read (src/iot_log_file.c).
use st_device_sdk_c.Prelude.{
  ℕ, ◌+◌, ◌^◌, ◌<◌, ◌≤◌, ◌≡◌, refl, ap, ◌∙◌, Bool, true, false, Bool-cases, inl, inr, min,
  if◌then◌else◌, List, ◌++◌, length, take, drop, length-append, length-take, length-drop, take_all,
  append_nil, none, some, arith,
}
use st_device_sdk_c.Errors.{error_none}
use st_device_sdk_c.LogFile.{LogBuf, Handle, ram_only, read_log, open_log, store}
use st_device_sdk_c.LogFile.Ring.{IsRing, log, length-log, keep, accepts, store_keeps_last}
use st_device_sdk_c.LogFile.Read.{IsHandle, around, read_log-around}

pair_eq : (xs ys : List ℕ) (m n : ℕ) → xs ≡ ys → m ≡ n → ◌≡◌ {A = List ℕ × ℕ} (xs, m) (ys, n)
pair_eq xs ys m n p q = rw (p, q) refl

-- The handle of iot_log_file_open.
opened : ℕ → LogBuf → Handle
opened size b = record {
  start_addr = 0;
  tail_addr = b.cnt;
  cur_addr = if b.overridden then b.cnt else 0;
  log_size = if b.overridden then size else b.cnt;
  max_log_size = size;
  file_type = ram_only;
}

opened-IsHandle :
    (size : ℕ) (b : LogBuf)
    → IsRing size b
    → size < 2 ^ 32
    → IsHandle (record b { enable = false }) (opened size b)
unfolding opened
opened-IsHandle size b v word = record {
  start_zero = refl;
  is_ram = refl;
  cur_le = ground (arith, v.cnt_le);
  size_le = ground (arith, v.cnt_le, v.buf_length);
  size_word = ground (arith, v.cnt_le);
}

around-opened :
    (size : ℕ) (b : LogBuf)
    → IsRing size b
    → around (record b { enable = false }) (opened size b) ≡ log b
unfolding opened
around-opened size b v = elim (Bool-cases b.overridden) [
  | inl over ↦ rw (over, take_all size b.buf (omega (arith, v.buf_length))) refl
  | inr first ↦ rw first (append_nil (take b.cnt b.buf))
]

size_opened : (size : ℕ) (b : LogBuf) → IsRing size b → (opened size b).log_size ≡ length (log b)
unfolding opened
size_opened size b v = elim (Bool-cases b.overridden) [
  | inl over ↦ rw over (
      omega (
        arith,
        v.buf_length,
        v.cnt_le,
        length-append (drop b.cnt b.buf) (take b.cnt b.buf),
        length-drop b.cnt b.buf,
        length-take b.cnt b.buf,
      ))
  | inr first ↦ rw first (omega (arith, v.cnt_le, v.buf_length, length-take b.cnt b.buf))
]

-- On a well-formed buffer, where `size` and `n` together fit size_t of 32 bits: iot_log_file_open, given memory for the handle, disables storing, and the
-- first read of `n` characters succeeds and copies the first `n` characters of the log, the oldest
-- first, or the whole log where it is shorter.
pub open_reads_log :
    (size : ℕ) (b : LogBuf) (n : ℕ)
    → IsRing size b
    → size + n < 2 ^ 32
    → (h : Handle) × (h' : Handle) × (b' : LogBuf) × (open_log size (some b) true ram_only
        ≡ (some h, some b'))
      × (b'.enable ≡ false)
      × (read_log b' h n ≡ some (error_none, take n (log b), min n (length (log b)), h'))
unfolding open_log opened
open_reads_log size b n v word =
    let (h', read, _) =
      read_log-around (record b { enable = false }) (opened size b) n
        (opened-IsHandle size b v (omega arith)) (ground (arith, v.cnt_le)) in
    (
      opened size b,
      h',
      record b { enable = false },
      refl,
      refl,
      read
          ∙ ap (λ (t : List ℕ × ℕ). some (error_none, take n t.0, min n t.1, h'))
              (pair_eq _ (log b) _ (length (log b)) (around-opened size b v)
                (size_opened size b v)),
    )

-- On a well-formed buffer whose log is enabled, and for a text of less than 128 characters:
-- iot_log_file_store takes the text, and after iot_log_file_open a read of at least `size`
-- characters, in number below 2 ^ 32 with `size` added, returns the last `size` characters of the old log followed by the text.
pub stored_then_read :
    (size : ℕ) (b : LogBuf) (cs : List ℕ) (n : ℕ)
    → IsRing size b
    → accepts size b cs ≡ true
    → size ≤ n
    → size + n < 2 ^ 32
    → let kept = keep size (log b ++ cs) in
      (b' : LogBuf) × (h : Handle) × (h' : Handle) × (b'' : LogBuf) × (store size (some b) cs
        ≡ (some (length cs), some b'))
      × (open_log size (some b') true ram_only ≡ (some h, some b''))
      × (read_log b'' h n ≡ some (error_none, kept, length kept, h'))
stored_then_read size b cs n v ok enough word =
    let (b', stored, ring, kept) = store_keeps_last size b cs v in
    let (h, h', b'', opened, _, read) = open_reads_log size b' n ring word in
    let same = kept ∙ ap (λ (t : Bool). if t then keep size (log b ++ cs) else log b) ok in
    let fits = length-log size b' ring in
    (
      b',
      h,
      h',
      b'',
      stored ∙ ap (λ (t : Bool). (if t then some (length cs) else none, some b')) ok,
      opened,
      read
          ∙ ap (λ (t : List ℕ × ℕ). some (error_none, t.0, t.1, h'))
              (pair_eq _ (keep size (log b ++ cs)) _ (length (keep size (log b ++ cs)))
                (take_all n (log b') (omega (arith, fits)) ∙ same)
                (shorter (length (log b')) n (omega (arith, fits)) ∙ ap length same)),
    )
  where
    shorter : (m n : ℕ) → m ≤ n → min n m ≡ m
    shorter m n h = omega arith
