-- ===== src/Util/Backoff.antt =====
-- iot_util_generator_backoff (src/iot_util.c). `unsigned int` is a number below 2 ^ 32.
-- The random number of the board support package is an argument.
use st_device_sdk_c.Prelude.{
  ℕ, Bool, true, false, zero, suc, ◌+◌, ◌*◌, ◌%◌, ◌^◌, ◌≤◌, ◌<◌, ◌≡◌, leb, ◌==◌, not, ◌&&◌,
  if◌then◌else◌, ap, arith,
}
use native.Mathlib.Nat.{pow-suc, mod-eq_of_lt}

abbrev u32_mod : ℕ
u32_mod = 2 ^ 32

-- The rounds that the `for` loop has left, and the code behind the loop.
backoff_loop : ℕ → ℕ → ℕ → ℕ → ℕ
backoff_loop zero backoff maximum random = (backoff * 1000 % u32_mod + random % 1000) % u32_mod
backoff_loop (suc rounds) backoff maximum random =
    let doubled = backoff * 2 % u32_mod in
    let rest = backoff_loop rounds doubled maximum random in
    if leb (maximum * 1000 % u32_mod) (doubled * 1000 % u32_mod)
    then maximum * 1000 % u32_mod
    else rest

pub generator_backoff : ℕ → ℕ → ℕ → ℕ
unfolding backoff_loop
generator_backoff try_count maximum random = backoff_loop try_count 1 maximum random

-- Does the loop end without returning the maximum, so that iot_bsp_random is called?
unfoldable pub asks_random : ℕ → ℕ → ℕ → Bool
asks_random zero backoff maximum = true
asks_random (suc rounds) backoff maximum =
    let doubled = backoff * 2 % u32_mod in
    let rest = asks_random rounds doubled maximum in
    if leb (maximum * 1000 % u32_mod) (doubled * 1000 % u32_mod) then false else rest

two_pow_pos : (n : ℕ) → 1 ≤ 2 ^ n
two_pow_pos zero = omega arith
two_pow_pos (suc n) = omega (arith, pow-suc 2 n, two_pow_pos n)

double_pow : (b n : ℕ) → b * 2 * 2 ^ suc n ≡ b * 2 ^ suc (suc n)
double_pow b n = omega (arith, ap (λ (t : ℕ). b * t) (pow-suc 2 (suc n)))

pow_grows : (b n : ℕ) → b * 2 ≤ b * 2 ^ suc n
pow_grows b n = grind (arith, pow-suc 2 n, two_pow_pos n)

-- One round of the loop on numbers that do not wrap.
backoff_loop_round :
    (n b m r : ℕ)
    → b * 1000 < 2 ^ 31
    → m * 1000 < 2 ^ 31
    → backoff_loop (suc n) b m r ≡ (if leb m (b * 2) then m * 1000 else backoff_loop n (b * 2) m r)
unfolding backoff_loop
backoff_loop_round n b m r hb hm = rw (mod-eq_of_lt doubled) (ground arith)
  where
    doubled : b * 2 < 2 ^ 32
    doubled = omega arith

backoff_loop-eq :
    (n b m r : ℕ)
    → b * 1000 < 2 ^ 31
    → m * 1000 < 2 ^ 31
    → backoff_loop (suc n) b m r
      ≡ (if leb m (b * 2 ^ suc n) then m * 1000 else b * 2 ^ suc n * 1000 + r % 1000)
backoff_loop-eq zero b m r hb hm =
    rw (backoff_loop_round zero b m r hb hm) (unfold backoff_loop in ground arith)
backoff_loop-eq (suc n) b m r hb hm =
    rw (backoff_loop_round (suc n) b m r hb hm)
      (ground (arith, double_pow b n, pow_grows b (suc n), backoff_loop-eq n (b * 2) m r))

-- The wait before retry `try_count`, in ms: `2 ^ try_count` seconds plus up to a second of jitter,
-- or `maximum` seconds from the first power of two that reaches it. The first try (`try_count` 0)
-- never looks at the maximum. Holds where `maximum * 1000` is below 2 ^ 31.
pub generator_backoff-eq :
    (try_count maximum random : ℕ)
    → maximum * 1000 < 2 ^ 31
    → generator_backoff try_count maximum random ≡ (
        if not (try_count == 0) && leb maximum (2 ^ try_count)
        then maximum * 1000
        else 2 ^ try_count * 1000 + random % 1000)
unfolding generator_backoff backoff_loop
generator_backoff-eq zero m r h = omega arith
generator_backoff-eq (suc n) m r h = ground (arith, backoff_loop-eq n 1 m r)

-- Where `maximum * 1000` is below 2 ^ 31 and the maximum is at least 2 s, the wait is at least one
-- second and at most the maximum, for every count of tries.
pub generator_backoff_bounds :
    (try_count maximum random : ℕ)
    → maximum * 1000 < 2 ^ 31
    → 2 ≤ maximum
    → (1000 ≤ generator_backoff try_count maximum random)
      × (generator_backoff try_count maximum random ≤ maximum * 1000)
generator_backoff_bounds n m r h h2 = ground (arith, generator_backoff-eq n m r, two_pow_pos n)
