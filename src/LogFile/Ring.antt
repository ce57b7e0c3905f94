-- ===== src/LogFile/Ring.antt =====
-- The ring buffer of src/iot_log_file.c against the list of all the characters stored.
use st_device_sdk_c.Prelude.{
  ℕ, suc, ◌+◌, ◌-◌, ◌≤◌, ◌<◌, ◌≡◌, refl, sym, ap, ◌∙◌, Bool, true, Bool-cases, ◌&&◌, none, inl, inr,
  leb, ltb, if◌then◌else◌, List, [], ◌∷◌, ◌++◌, length, take, drop, set_at, length-append,
  length-take, length-drop, length-set_at, take-set_at, drop-set_at, take_all, drop_all, take_eq,
  drop_eq, drop-drop, drop-append, append_assoc, append_nil, some, arith,
}
use st_device_sdk_c.LogFile.{LogBuf, store_char, store_chars, store}

-- The end of a text that fits into `size` characters.
abbrev pub keep : ℕ → List ℕ → List ℕ
keep size xs = drop (length xs - size) xs

-- The characters in the buffer, the oldest first.
abbrev pub log : LogBuf → List ℕ
log b = if b.overridden then drop b.cnt b.buf ++ take b.cnt b.buf else take b.cnt b.buf

pub record IsRing (size : ℕ) (b : LogBuf) : Type 0 where
  pub size_pos : 1 ≤ size
  pub buf_length : length b.buf ≡ size
  pub cnt_le : b.cnt ≤ size

-- The buffer after a character is put at `cnt`, while there is room.
take_put :
    (buf : List ℕ) (cnt c : ℕ)
    → cnt < length buf
    → take (cnt + 1) (set_at buf cnt c) ≡ take cnt buf ++ c ∷ []
take_put buf cnt c h =
    take_eq (cnt + 1) (suc cnt) (set_at buf cnt c) (omega arith) ∙ take-set_at buf cnt c h

drop_put : (buf : List ℕ) (cnt c : ℕ) → drop (cnt + 1) (set_at buf cnt c) ≡ drop (cnt + 1) buf
drop_put buf cnt c =
    drop_eq (cnt + 1) (suc cnt) (set_at buf cnt c) (omega arith)
    ∙ drop-set_at buf cnt c
    ∙ drop_eq (suc cnt) (cnt + 1) buf (omega arith)

keep_small : (size : ℕ) (xs : List ℕ) → length xs ≤ size → keep size xs ≡ xs
keep_small size xs h = drop_eq (length xs - size) 0 xs (omega arith)

keep_one :
    (size : ℕ) (xs ys : List ℕ)
    → 1 ≤ size
    → length xs ≡ size
    → keep size (xs ++ ys) ≡ drop (length ys) (xs ++ ys)
keep_one size xs ys h e =
    drop_eq (length (xs ++ ys) - size) (length ys) (xs ++ ys) (omega (arith, length-append xs ys))

pub keep-keep_append :
    (size : ℕ) (xs ys : List ℕ) → keep size (keep size xs ++ ys) ≡ keep size (xs ++ ys)
keep-keep_append size xs ys =
    ap (keep size) (sym (drop-append (length xs - size) xs ys (omega arith)))
    ∙ drop-drop (length (drop (length xs - size) (xs ++ ys)) - size) (length xs - size) (xs ++ ys)
    ∙ drop_eq _ (length (xs ++ ys) - size) (xs ++ ys)
        (omega (arith, length-append xs ys, length-drop (length xs - size) (xs ++ ys)))

-- While the buffer has room and has not been filled yet.
log-put_first :
    (size : ℕ) (buf : List ℕ) (cnt c : ℕ)
    → length buf ≡ size
    → cnt < size
    → take (cnt + 1) (set_at buf cnt c) ≡ keep size (take cnt buf ++ c ∷ [])
log-put_first size buf cnt c e h =
    take_put buf cnt c (omega arith)
    ∙ sym (
        keep_small size (take cnt buf ++ c ∷ [])
          (omega (arith, length-append (take cnt buf) (c ∷ []), length-take cnt buf)))

-- Where the buffer has been filled, the oldest character makes room.
log-put_over :
    (size : ℕ) (buf : List ℕ) (cnt c : ℕ)
    → length buf ≡ size
    → cnt < size
    → drop (cnt + 1) (set_at buf cnt c) ++ take (cnt + 1) (set_at buf cnt c)
      ≡ keep size ((drop cnt buf ++ take cnt buf) ++ c ∷ [])
log-put_over size buf cnt c e h =
    rw (drop_put buf cnt c, take_put buf cnt c (omega arith)) (sym dropped)
  where
    whole : length (drop cnt buf ++ take cnt buf) ≡ size
    whole = omega (
      arith,
      length-append (drop cnt buf) (take cnt buf),
      length-drop cnt buf,
      length-take cnt buf,
    )

    dropped :
        keep size ((drop cnt buf ++ take cnt buf) ++ c ∷ [])
        ≡ drop (cnt + 1) buf ++ (take cnt buf ++ c ∷ [])
    dropped =
        keep_one size (drop cnt buf ++ take cnt buf) (c ∷ []) (omega arith) whole
        ∙ drop-append 1 (drop cnt buf ++ take cnt buf) (c ∷ []) (omega (arith, whole))
        ∙ ap (λ (t : List ℕ). t ++ c ∷ [])
            (drop-append 1 (drop cnt buf) (take cnt buf) (omega (arith, length-drop cnt buf))
              ∙ ap (λ (t : List ℕ). t ++ take cnt buf) (drop-drop 1 cnt buf))
        ∙ append_assoc (drop (cnt + 1) buf) (take cnt buf) (c ∷ [])

module _ (size : ℕ) where
  log_full : (b : LogBuf) → IsRing size b → size ≤ b.cnt → log b ≡ b.buf
  log_full b v h = elim (Bool-cases b.overridden) [
    | inl over ↦
        rw (over, drop_all b.cnt b.buf (omega (arith, v.buf_length)))
          (take_all b.cnt b.buf (omega (arith, v.buf_length)))
    | inr first ↦ rw first (take_all b.cnt b.buf (omega (arith, v.buf_length)))
  ]

  log-store_char :
      (b : LogBuf) (c : ℕ) → IsRing size b → log (store_char size b c) ≡ keep size (log b ++ c ∷ [])
  unfolding store_char
  log-store_char b c v = elim (Bool-cases (leb size b.cnt)) [
    | inl full ↦ rw full (
        log-put_over size b.buf 0 c v.buf_length (omega (arith, v.size_pos))
        ∙ ap (λ (t : List ℕ). keep size (t ++ c ∷ []))
            (append_nil b.buf ∙ sym (log_full b v (ground arith))))
    | inr room ↦ elim (Bool-cases b.overridden) [
      | inl over ↦ rw (room, over) (log-put_over size b.buf b.cnt c v.buf_length (ground arith))
      | inr first ↦ rw (room, first) (log-put_first size b.buf b.cnt c v.buf_length (ground arith))
    ]
  ]

  store_char-IsRing : (b : LogBuf) (c : ℕ) → IsRing size b → IsRing size (store_char size b c)
  unfolding store_char
  store_char-IsRing b c v = elim (Bool-cases (leb size b.cnt)) [
    | inl full ↦ record {
      size_pos = v.size_pos;
      buf_length = rw full (length-set_at b.buf 0 c ∙ v.buf_length);
      cnt_le = rw full (omega (arith, v.size_pos));
    }
    | inr room ↦ record {
      size_pos = v.size_pos;
      buf_length = rw room (length-set_at b.buf b.cnt c ∙ v.buf_length);
      cnt_le = rw room (ground arith);
    }
  ]

  pub length-log : (b : LogBuf) → IsRing size b → length (log b) ≤ size
  length-log b v = elim (Bool-cases b.overridden) [
    | inl over ↦ rw over (
        omega (
          arith,
          v.buf_length,
          length-append (drop b.cnt b.buf) (take b.cnt b.buf),
          length-drop b.cnt b.buf,
          length-take b.cnt b.buf,
        ))
    | inr first ↦ rw first (omega (arith, v.cnt_le, length-take b.cnt b.buf))
  ]

  store_chars-IsRing :
      (b : LogBuf) (cs : List ℕ)
      → IsRing size b
      → IsRing size (store_chars size b cs)
        × (log (store_chars size b cs) ≡ keep size (log b ++ cs))
  unfolding store_chars
  store_chars-IsRing b [] v =
      (v, sym (ap (keep size) (append_nil (log b)) ∙ keep_small size (log b) (length-log b v)))
  store_chars-IsRing b (c ∷ cs) v =
      let rest = store_chars-IsRing (store_char size b c) cs (store_char-IsRing b c v) in
      (
        rest.0,
        rest.1
            ∙ ap (λ (t : List ℕ). keep size (t ++ cs)) (log-store_char b c v)
            ∙ keep-keep_append size (log b ++ c ∷ []) cs
            ∙ ap (keep size) (append_assoc (log b) (c ∷ []) cs),
      )

  -- Is a text stored?
  abbrev pub accepts : LogBuf → List ℕ → Bool
  accepts b cs = b.enable && ltb (length cs) 128

  accepted :
      (b : LogBuf) (cs : List ℕ)
      → b.enable ≡ true
      → ltb (length cs) 128 ≡ true
      → accepts b cs ≡ true
  accepted b cs on short = rw (on, short) refl

  -- On a well-formed buffer of at least one character: iot_log_file_store accepts a text of less
  -- than 128 characters while the log is enabled, returns its length, and the log is then the last
  -- `size` characters of the old log followed by the text. It returns -1 otherwise and leaves the
  -- log as it was. The buffer stays well-formed.
  pub store_keeps_last :
      (b : LogBuf) (cs : List ℕ)
      → IsRing size b
      → (b' : LogBuf) × (store size (some b) cs
          ≡ (if accepts b cs then some (length cs) else none, some b'))
        × IsRing size b'
        × (log b' ≡ (if accepts b cs then keep size (log b ++ cs) else log b))
  unfolding store
  store_keeps_last b cs v = elim (Bool-cases b.enable) [
    | inr off ↦ (b, rw off refl, v, rw off refl)
    | inl on ↦ elim (Bool-cases (ltb (length cs) 128)) [
      | inr long ↦ (b, rw on (ground arith), v, rw (on, long) refl)
      | inl short ↦
          let (ring, kept) = store_chars-IsRing b cs v in
          (
            store_chars size b cs,
            rw on (ground arith),
            ring,
            kept
                ∙ ap (λ (t : Bool). if t then keep size (log b ++ cs) else log b)
                    (sym (accepted b cs on short)),
          )
    ]
  ]
