-- ===== src/Transport/Backoff.antt =====
-- src/lib/sync/transport.ts, `computeBackoffDelay`.
use concord_dev.Base.{ℕ, ◌+◌, ◌*◌, ◌-◌, ◌^◌, Bool, true, ◌&&◌, if◌then◌else◌, min, ◌==◌, ◌/◌}

pub record BackoffConfig : Type 0 where
  pub base_ms : ℕ
  pub max_ms : ℕ
  pub immediate_first_retry : Bool

abbrev pub default_backoff : BackoffConfig
default_backoff = record { base_ms = 250; max_ms = 15_000; immediate_first_retry = true }

-- `Math.random()` is this numerator over 2 ^ 53.
abbrev pub random_scale : ℕ
random_scale = 2 ^ 53

-- base * 2 ^ n, at most the cap. The attempt is a counter of the transport, never negative.
abbrev pub capped_delay : ℕ → BackoffConfig → ℕ
capped_delay attempt config =
    min (config.base_ms * 2 ^ (attempt - (if config.immediate_first_retry then 1 else 0)))
      config.max_ms

-- The products are exact here; in floating point they are rounded before the floor is taken.
unfoldable pub compute_backoff_delay : ℕ → BackoffConfig → ℕ → ℕ
compute_backoff_delay attempt config random =
    if config.immediate_first_retry && attempt == 0
    then 0
    else capped_delay attempt config + capped_delay attempt config * random / (4 * random_scale)
