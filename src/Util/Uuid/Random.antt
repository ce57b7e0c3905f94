-- ===== src/Util/Uuid/Random.antt =====
-- The UUIDs that the device makes (src/iot_uuid.c): a hash of the Wi-Fi MAC address, with or without
-- the time, or random numbers, and the version and the variant of RFC 4122 put in.
use st_device_sdk_c.Prelude.{
  ℕ, zero, suc, ◌/◌, ◌<◌, ◌≡◌, ◌≢◌, ◌⊎◌, inl, inr, refl, ap, ◌∙◌, Bool-cases, Bool, true, false,
  not, ◌==◌, if◌then◌else◌, List, [], ◌∷◌, ◌++◌, length, length-take, length-append, get_or, take,
  All-take, All-append, bit_and, bit_or, all_below_sound, arith,
}
use st_device_sdk_c.Errors.{IotError, error_none, invalid_args, mem_alloc, uuid_fail}
use st_device_sdk_c.Util.Hex.{IsBytes, get-byte}

-- `p[i] = f(p[i])`
unfoldable pub update : List ℕ → ℕ → (ℕ → ℕ) → List ℕ
update [] i f = []
update (b ∷ bs) zero f = f b ∷ bs
update (b ∷ bs) (suc i) f = b ∷ update bs i f

-- The two octets set after RFC 4122.
unfoldable pub stamp : List ℕ → List ℕ
unfolding update
stamp id = update (update id 8 (λ b. bit_or (bit_and b 63) 128)) 6 (λ b. bit_or (bit_and b 15) 64)

length-update : (bs : List ℕ) (i : ℕ) (f : ℕ → ℕ) → length (update bs i f) ≡ length bs
unfolding update
length-update [] i f = refl
length-update (b ∷ bs) zero f = refl
length-update (b ∷ bs) (suc i) f = ap suc (length-update bs i f)

update-IsBytes :
    (bs : List ℕ) (i : ℕ) (f : ℕ → ℕ)
    → ((b : ℕ) → b < 256 → f b < 256)
    → IsBytes bs
    → IsBytes (update bs i f)
unfolding update
update-IsBytes [] i f h bytes = tt
update-IsBytes (b ∷ bs) zero f h bytes = (h b bytes.0, bytes.1)
update-IsBytes (b ∷ bs) (suc i) f h bytes = (bytes.0, update-IsBytes bs i f h bytes.1)

get-update :
    (bs : List ℕ) (i : ℕ) (f : ℕ → ℕ)
    → i < length bs
    → get_or (update bs i f) i 0 ≡ f (get_or bs i 0)
unfolding update
get-update [] i f lt = elim lt [ ]
get-update (b ∷ bs) zero f lt = refl
get-update (b ∷ bs) (suc i) f lt = get-update bs i f (omega arith)

get-update_other :
    (bs : List ℕ) (i j : ℕ) (f : ℕ → ℕ) → i ≢ j → get_or (update bs i f) j 0 ≡ get_or bs j 0
unfolding update
get-update_other [] i j f h = refl
get-update_other (b ∷ bs) zero zero f h = absurd (h refl)
get-update_other (b ∷ bs) zero (suc j) f h = refl
get-update_other (b ∷ bs) (suc i) zero f h = refl
get-update_other (b ∷ bs) (suc i) (suc j) f h = get-update_other bs i j f (λ e. h (ap suc e))

variant_bits : (b : ℕ) → b < 256 → (bit_or (bit_and b 63) 128 / 64) ≡ 2
variant_bits b h =
    ground (arith, all_below_sound 256 (λ b. bit_or (bit_and b 63) 128 / 64 == 2) b refl h)

version_bits : (b : ℕ) → b < 256 → (bit_or (bit_and b 15) 64 / 16) ≡ 4
version_bits b h =
    ground (arith, all_below_sound 256 (λ b. bit_or (bit_and b 15) 64 / 16 == 4) b refl h)

-- A UUID of RFC 4122 with the version 4.
pub record IsRfc4122 (id : List ℕ) : Type 0 where
  pub id_length : length id ≡ 16
  pub bytes : IsBytes id
  pub version : get_or id 6 0 / 16 ≡ 4
  pub variant : get_or id 8 0 / 64 ≡ 2

stamp-IsRfc4122 : (id : List ℕ) → length id ≡ 16 → IsBytes id → IsRfc4122 (stamp id)
unfolding stamp
stamp-IsRfc4122 id len bytes = record {
  id_length = length-update _ 6 _ ∙ length-update id 8 _ ∙ len;
  bytes =
      update-IsBytes _ 6 _ (λ b h. omega (arith, version_bits b h))
        (update-IsBytes id 8 _ (λ b h. omega (arith, variant_bits b h)) bytes);
  version =
      ap (λ (b : ℕ). b / 16)
        (get-update (update id 8 _) 6 _
          (omega (arith, length-update id 8 (λ b. bit_or (bit_and b 63) 128))))
      ∙ version_bits _ (
          get-byte (update id 8 _) 6
            (update-IsBytes id 8 _ (λ b h. omega (arith, variant_bits b h)) bytes));
  variant =
      ap (λ (b : ℕ). b / 64)
        (get-update_other (update id 8 _) 6 8 _ (omega arith) ∙ get-update id 8 _ (omega arith))
      ∙ variant_bits _ (get-byte id 8 bytes);
}

-- What the board support package, the system and the crypto library answer: codes, and bytes.
pub record Sources : Type 0 where
  pub wifi_mac : IotError × List ℕ
  -- gettimeofday, and the `struct timeval` in memory
  pub time_of_day : ℕ × List ℕ
  pub buffer : Bool
  pub sha256 : List ℕ → IotError × List ℕ
  -- what iot_bsp_random returns in its four calls, as the four bytes that each has in memory
  pub random : ℕ → List ℕ

module _ (src : Sources) where
  -- `hash` of the buffer, and the bytes stored through `uuid`.
  hash_uuid : List ℕ → IotError × List ℕ
  hash_uuid text =
      if not src.buffer
      then (mem_alloc, [])
      else let (err, hash) = src.sha256 text in
        if not (err == error_none) then (err, []) else (error_none, stamp (take 16 hash))

  pub get_random_uuid_from_mac : Bool → IotError × List ℕ
  unfolding hash_uuid
  get_random_uuid_from_mac false = (invalid_args, [])
  get_random_uuid_from_mac true =
      let (err, mac) = src.wifi_mac in
      if not (err == error_none)
      then (err, [])
      else let (ret, tv) = src.time_of_day in
        if not (ret == 0) then (uuid_fail, []) else hash_uuid (mac ++ tv)

  pub get_uuid_from_mac : Bool → IotError × List ℕ
  unfolding hash_uuid
  get_uuid_from_mac false = (invalid_args, [])
  get_uuid_from_mac true =
      let (err, mac) = src.wifi_mac in if not (err == error_none) then (err, []) else hash_uuid mac

  pub get_random_uuid : Bool → IotError × List ℕ
  get_random_uuid false = (invalid_args, [])
  get_random_uuid true =
      (error_none, stamp (src.random 0 ++ src.random 1 ++ src.random 2 ++ src.random 3))

  -- What the sources promise: a hash of 32 bytes, and random numbers of four.
  pub record IsSound : Type 0 where
    pub hash_length :
        (text : List ℕ) → (src.sha256 text).0 ≡ error_none → length (src.sha256 text).1 ≡ 32
    pub hash_bytes : (text : List ℕ) → IsBytes (src.sha256 text).1
    pub random_length : (i : ℕ) → length (src.random i) ≡ 4
    pub random_bytes : (i : ℕ) → IsBytes (src.random i)

  -- The function fails and stores nothing, or succeeds with such a UUID.
  abbrev pub Makes : IotError × List ℕ → Type 0
  Makes (err, id) = ((err ≢ error_none) × (id ≡ [])) ⊎ ((err ≡ error_none) × IsRfc4122 id)

  hash_uuid-Makes : IsSound → (text : List ℕ) → Makes (hash_uuid text)
  unfolding hash_uuid
  hash_uuid-Makes ok text = elim (Bool-cases src.buffer) [
    | inl buffer ↦ elim (Bool-cases ((src.sha256 text).0 == error_none)) [
      | inl hashed ↦
          rw (buffer, hashed)
            (inr (
              refl,
              stamp-IsRfc4122 _
                  (omega
                    (arith, length-take 16 (src.sha256 text).1, ok.hash_length text (ground arith)))
                  (All-take (λ b. b < 256) 16 (src.sha256 text).1 (ok.hash_bytes text)),
            ))
      | inr failed ↦ rw (buffer, failed) (inl (ground arith, refl))
    ]
    | inr none_left ↦ rw none_left (inl (omega arith, refl))
  ]

  get_random_uuid_from_mac-Makes : IsSound → Makes (get_random_uuid_from_mac true)
  unfolding get_random_uuid_from_mac
  get_random_uuid_from_mac-Makes ok = elim (Bool-cases (src.wifi_mac.0 == error_none)) [
    | inl mac ↦ elim (Bool-cases (src.time_of_day.0 == 0)) [
      | inl time ↦ rw (mac, time) (hash_uuid-Makes ok _)
      | inr no_time ↦ rw (mac, no_time) (inl (omega arith, refl))
    ]
    | inr no_mac ↦ rw no_mac (inl (ground arith, refl))
  ]

  get_uuid_from_mac-Makes : IsSound → Makes (get_uuid_from_mac true)
  unfolding get_uuid_from_mac
  get_uuid_from_mac-Makes ok = elim (Bool-cases (src.wifi_mac.0 == error_none)) [
    | inl mac ↦ rw mac (hash_uuid-Makes ok _)
    | inr no_mac ↦ rw no_mac (inl (ground arith, refl))
  ]

  randoms : List ℕ
  randoms = src.random 0 ++ src.random 1 ++ src.random 2 ++ src.random 3

  random_length-eq : IsSound → length randoms ≡ 16
  unfolding randoms
  random_length-eq ok = omega (
    arith,
    length-append (src.random 0 ++ src.random 1 ++ src.random 2) (src.random 3),
    length-append (src.random 0 ++ src.random 1) (src.random 2),
    length-append (src.random 0) (src.random 1),
    ok.random_length 0,
    ok.random_length 1,
    ok.random_length 2,
    ok.random_length 3,
  )

  randoms-IsBytes : IsSound → IsBytes randoms
  unfolding randoms
  randoms-IsBytes ok =
      let append = All-append (λ (b : ℕ). b < 256) in
      append _ (src.random 3)
        (append _ (src.random 2)
          (append (src.random 0) (src.random 1) (ok.random_bytes 0) (ok.random_bytes 1))
          (ok.random_bytes 2))
        (ok.random_bytes 3)

  -- With a hash of 32 bytes and random numbers of 4 bytes: both functions that start from the MAC
  -- address either fail and store nothing, or store 16 bytes with the version and the variant of a
  -- random UUID of RFC 4122; the one that takes random numbers always does the latter.
  pub uuids-IsRfc4122 :
      IsSound
      → Makes (get_random_uuid_from_mac true)
        × Makes (get_uuid_from_mac true)
        × ((get_random_uuid true).0 ≡ error_none)
        × IsRfc4122 (get_random_uuid true).1
  unfolding get_random_uuid randoms
  uuids-IsRfc4122 ok = (
    get_random_uuid_from_mac-Makes ok,
    get_uuid_from_mac-Makes ok,
    refl,
    stamp-IsRfc4122 randoms (random_length-eq ok) (randoms-IsBytes ok),
  )
