-- ===== src/Util/Channel.antt =====
-- Wi-Fi channels and frequencies in MHz (iot_util_convert_channel_freq and
-- iot_util_convert_freq_channel, src/iot_util.c). A channel is a `uint8_t`, a frequency a `uint16_t`.
use st_device_sdk_c.Prelude.{
  ℕ, ◌+◌, ◌-◌, ◌*◌, ◌/◌, ◌%◌, ◌^◌, ◌<◌, ◌≡◌, refl, Bool, ◌&&◌, ◌||◌, ltb, leb, ◌==◌, if◌then◌else◌,
  all_below_sound, arith,
}

unfoldable pub convert_channel_freq : ℕ → ℕ
convert_channel_freq channel =
    if ltb channel 1
    then 0
    else if ltb channel 14
    then (2412 + 5 * (channel - 1)) % 2 ^ 16
    else if channel == 14
    then 2484
    else if ltb 31 channel && ltb channel 174
    then (5160 + 5 * (channel - 32)) % 2 ^ 16
    else 0

-- Below 2412 the difference is negative: the division rounds towards 0, and the conversion to
-- `uint8_t` wraps.
unfoldable pub convert_freq_channel : ℕ → ℕ
convert_freq_channel freq =
    if freq == 0
    then 0
    else if ltb freq 2484
    then (if ltb freq 2412
        then (2 ^ 10 + 1 - (2412 - freq) / 5) % 2 ^ 8
        else ((freq - 2412) / 5 + 1) % 2 ^ 8)
    else if freq == 2484
    then 14
    else if leb 5160 freq && leb freq 5865
    then ((freq - 5160) / 5 + 32) % 2 ^ 8
    else 0

-- The channels 1 to 14 of the 2.4 GHz band, and 32 to 173 of the 5 GHz band.
abbrev pub is_channel : ℕ → Bool
is_channel c = leb 1 c && leb c 14 || leb 32 c && leb c 173

-- A channel has a frequency, from which the channel is found again; what is no channel has the
-- frequency 0, which has the channel 0. Holds for every `uint8_t`.
pub channel_round_trip :
    (channel : ℕ)
    → channel < 2 ^ 8
    → convert_freq_channel (convert_channel_freq channel)
      ≡ (if is_channel channel then channel else 0)
unfolding convert_freq_channel convert_channel_freq
channel_round_trip channel h = ground (
  arith,
  all_below_sound 256
      (λ c. convert_freq_channel (convert_channel_freq c) == (if is_channel c then c else 0))
      channel refl h,
)
