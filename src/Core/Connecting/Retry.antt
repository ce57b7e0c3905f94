-- ===== src/Core/Connecting/Retry.antt =====
-- The timer of the next retry to connect.
use st_device_sdk_c.Prelude.{ℕ, ◌≤◌, Bool, true, false, if◌then◌else◌, Option, none, some, arith}
use st_device_sdk_c.Util.Backoff.{generator_backoff, generator_backoff_bounds}
use st_device_sdk_c.Core.Connecting.{max_retry_s}

-- A wait of 1 s to 64 s.
abbrev pub RetryFits : Option ℕ → Type 0
RetryFits none = Unit {0}
RetryFits (some t) = (1000 ≤ t) × (t ≤ 64000)

pub backoff-RetryFits :
    (count random : ℕ) (made : Bool)
    → RetryFits (if made then some (generator_backoff count max_retry_s random) else none)
backoff-RetryFits count random true =
    generator_backoff_bounds count max_retry_s random (omega arith) (omega arith)
backoff-RetryFits count random false = tt
