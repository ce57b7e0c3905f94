-- ===== src/Util/Tests.antt =====
-- The theorems about the utilities at sample inputs.
use st_device_sdk_c.Prelude.{
  ◌⊎◌, ℕ, ◌+◌, ◌-◌, ◌*◌, ◌^◌, ◌%◌, ◌≤◌, ◌≡◌, refl, leb, ◌==◌, not, ◌&&◌, if◌then◌else◌, Bool, true,
  ltb, replicate, drop, length, All, ◌++◌, List, [], ◌∷◌, none, some, arith, false,
}
use st_device_sdk_c.Util.Backoff.{generator_backoff, generator_backoff-eq, generator_backoff_bounds}
use st_device_sdk_c.Util.Queue.Delete.{Released, queue_delete, queue_delete_frees}
use st_device_sdk_c.Util.Queue.{Ptr, null, Queue, write, queue_send, queue_receive}
use st_device_sdk_c.Util.Queue.Spec.{send, receive}
use st_device_sdk_c.Util.Queue.Refine.{
  Cells, Fresh, items, IsQueue, queue_send_refines, queue_receive_refines,
}
use st_device_sdk_c.Errors.{invalid_args, error_none}
use st_device_sdk_c.Util.Hex.{IsBytes}
use st_device_sdk_c.Util.Uuid.Bounds.{convert_str_uuid_bounds}
use st_device_sdk_c.Util.Uuid.{ref_id, validate_uuid_format, convert_str_uuid, convert_uuid_str}
use st_device_sdk_c.Util.Uuid.RoundTrip.{uuid_round_trip}
use st_device_sdk_c.Util.Uuid.Random.{
  Sources, IsSound, Makes, IsRfc4122, get_random_uuid_from_mac, get_uuid_from_mac, get_random_uuid,
  uuids-IsRfc4122,
}
use st_device_sdk_c.Util.Mac.{convert_str_mac, convert_mac_str, mac_round_trip}
use st_device_sdk_c.Util.Channel.{convert_channel_freq, convert_freq_channel, channel_round_trip}
use st_device_sdk_c.Util.Url.{Url, NoColon, separator, url_parse, url_round_trip, url_parse_sound}
use st_device_sdk_c.Prelude.Int.{ℤ, pos}
use st_device_sdk_c.Util.Hex.{colon}

generator_backoff-eq_example :
    generator_backoff 5 64 1234
    ≡ (if not (5 == 0) && leb 64 (2 ^ 5) then 64 * 1000 else 2 ^ 5 * 1000 + 1234 % 1000)
generator_backoff-eq_example = generator_backoff-eq 5 64 1234 (omega arith)

generator_backoff_bounds_example :
    (1000 ≤ generator_backoff 40 64 7) × (generator_backoff 40 64 7 ≤ 64 * 1000)
generator_backoff_bounds_example = generator_backoff_bounds 40 64 7 (omega arith) (omega arith)

-- Two items, at the addresses 8 and 24.
abbrev two_items : Queue ℕ
two_items = record {
  head = 8;
  tail = 24;
  heap =
      write (write (λ p. none) 24 (some (record { item = 7; next = null }))) 8
        (some (record { item = 5; next = 24 }));
}

abbrev two_cells : Cells ℕ
two_cells = (8, 5) ∷ (24, 7) ∷ []

two_items-IsQueue : IsQueue two_items two_cells
two_items-IsQueue = record {
  head_first = refl;
  tail_last = refl;
  chain = (omega arith, (omega arith, tt), refl, (omega arith, tt, refl, tt));
}

queue_send_refines_example :
    let (code, xs) = send (items two_cells) 9 (not (40 == null)) (not (48 == null)) true in
    (q' : Queue ℕ) × (ds : Cells ℕ) × (queue_send (some two_items) (some 9) 40 48 true
      ≡ some (code, some q'))
    × IsQueue q' ds
    × (items ds ≡ xs)
queue_send_refines_example =
    queue_send_refines two_items two_cells 9 40 48 true two_items-IsQueue refl

queue_receive_refines_example :
    let (code, xs, out) = receive (items two_cells) true in
    (q' : Queue ℕ) × (ds : Cells ℕ) × (queue_receive (some two_items) true true
      ≡ some (code, some q', out))
    × IsQueue q' ds
    × (items ds ≡ xs)
queue_receive_refines_example = queue_receive_refines two_items two_cells true two_items-IsQueue

abbrev version_4 : List ℕ
version_4 =
    66 ∷ 54 ∷ 87 ∷ 50 ∷ 198 ∷ 219 ∷ 75 ∷ 201 ∷ 137 ∷ 69 ∷ 42 ∷ 124 ∷ 161 ∷ 13 ∷ 111 ∷ 35 ∷ []

abbrev all_byte : List ℕ → Bool
all_byte [] = true
all_byte (b ∷ bs) = ltb b 256 && all_byte bs

all-IsBytes : (bs : List ℕ) → all_byte bs ≡ true → IsBytes bs
all-IsBytes [] h = tt
all-IsBytes (b ∷ bs) h = (ground (arith, h), all-IsBytes bs (ground (arith, h)))

uuid_round_trip_example :
    let (err, str) = convert_uuid_str (some version_4) true 40 in
    (err ≡ error_none) × (convert_str_uuid (some str) true ≡ (error_none, version_4))
uuid_round_trip_example =
    uuid_round_trip version_4 40 refl (all-IsBytes version_4 refl) (omega arith) (omega arith)
      (omega arith)

mac_round_trip_example :
    let (err, str) = convert_mac_str (some (161 ∷ 178 ∷ 195 ∷ 212 ∷ 229 ∷ 246 ∷ [])) true 18 in
    (err ≡ error_none)
    × (convert_str_mac (some str) true ≡ (error_none, 161 ∷ 178 ∷ 195 ∷ 212 ∷ 229 ∷ 246 ∷ []))
mac_round_trip_example =
    mac_round_trip (161 ∷ 178 ∷ 195 ∷ 212 ∷ 229 ∷ 246 ∷ []) 18 refl
      (all-IsBytes (161 ∷ 178 ∷ 195 ∷ 212 ∷ 229 ∷ 246 ∷ []) refl) (omega arith)

channel_round_trip_example : convert_freq_channel (convert_channel_freq 36) ≡ 36
channel_round_trip_example = channel_round_trip 36 (omega arith)

abbrev sources : Sources
sources = record {
  wifi_mac = (error_none, 161 ∷ 178 ∷ 195 ∷ 212 ∷ 229 ∷ 246 ∷ []);
  time_of_day = (0, replicate 16 1);
  buffer = true;
  sha256 = λ text. (error_none, replicate 32 200);
  random = λ i. replicate 4 17;
}

sources-IsSound : IsSound sources
sources-IsSound = record {
  hash_length = λ text ok. refl;
  hash_bytes = λ text. all-IsBytes (replicate 32 200) refl;
  random_length = λ i. refl;
  random_bytes = λ i. all-IsBytes (replicate 4 17) refl;
}

uuids-IsRfc4122_example :
    Makes sources (get_random_uuid_from_mac sources true)
    × Makes sources (get_uuid_from_mac sources true)
    × ((get_random_uuid sources true).0 ≡ error_none)
    × IsRfc4122 (get_random_uuid sources true).1
uuids-IsRfc4122_example = uuids-IsRfc4122 sources sources-IsSound

convert_str_uuid_bounds_example :
    (convert_str_uuid (some ref_id) true ≡ (invalid_args, []))
    ⊎ ((id : List ℕ) × (convert_str_uuid (some ref_id) true ≡ (error_none, id)) × (length id ≡ 16))
convert_str_uuid_bounds_example = convert_str_uuid_bounds ref_id

-- "ZZZZZZZZ-c6db-4bc9-8945-2a7ca10d6f23" is accepted.
abbrev not_hex : List ℕ
not_hex = replicate 8 90 ++ drop 8 ref_id

accepts_not_hex : validate_uuid_format (some not_hex) 36 ≡ error_none
unfolding validate_uuid_format
accepts_not_hex = refl

-- atoi on a text of digits
abbrev digits : ℕ → List ℕ → ℕ
digits n [] = n
digits n (c ∷ cs) = digits (n * 10 + (c - 48)) cs

abbrev sample_atoi : List ℕ → ℤ
sample_atoi text = pos (digits 0 text)

abbrev no_url : Url
no_url = record { protocol = none; domain = none; port = pos 0 }

-- "ssl", "a.b" and "443"
abbrev ssl : List ℕ
ssl = 115 ∷ 115 ∷ 108 ∷ []

abbrev a_b : List ℕ
a_b = 97 ∷ 46 ∷ 98 ∷ []

abbrev port_text : List ℕ
port_text = 52 ∷ 52 ∷ 51 ∷ []

ssl-NoColon : NoColon ssl
ssl-NoColon = (omega arith, (omega arith, (omega arith, tt)))

a_b-NoColon : NoColon a_b
a_b-NoColon = (omega arith, (omega arith, (omega arith, tt)))

abbrev ssl_url : Url
ssl_url = record { protocol = some ssl; domain = some a_b; port = pos 443 }

url_round_trip_example :
    url_parse sample_atoi
      (true, true)
      (some (ssl ++ (separator ++ (a_b ++ (colon ∷ port_text)))))
      (some no_url)
    ≡ (error_none, some ssl_url)
url_round_trip_example = url_round_trip sample_atoi ssl a_b port_text no_url ssl-NoColon a_b-NoColon

url_parse_sound_example :
    (protocol : List ℕ) × (domain : List ℕ) × (port : List ℕ) × (ssl
        ++ (separator ++ (a_b ++ (colon ∷ port_text)))
      ≡ protocol ++ (separator ++ (domain ++ (colon ∷ port))))
    × (ssl_url ≡ record { protocol = some protocol; domain = some domain; port = sample_atoi port })
url_parse_sound_example =
    url_parse_sound sample_atoi (true, true) (ssl ++ (separator ++ (a_b ++ (colon ∷ port_text))))
      no_url ssl_url (url_round_trip sample_atoi ssl a_b port_text no_url ssl-NoColon a_b-NoColon)

queue_delete_frees_example :
    (r : Released ℕ) × (queue_delete 3 (false ∷ true ∷ []) two_items true ≡ some (some r))
    × (r.data_freed ≡ items two_cells)
    × (r.queue_freed ≡ true)
    × All (λ (c : Ptr × ℕ). r.heap c.0 ≡ none) two_cells
    × ((p : Ptr) → Fresh p two_cells → r.heap p ≡ two_items.heap p)
queue_delete_frees_example =
    queue_delete_frees two_items two_cells 3 (false ∷ true ∷ []) two_items-IsQueue (omega arith)
      refl
