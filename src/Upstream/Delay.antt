-- ===== src/Upstream/Delay.antt =====
-- The delays of internal/upstream/ratelimit.go. A number of a JSON body counts millionths and 0
-- stands for every number that is not positive; a duration is an int64 of nanoseconds in which 0
-- stands for every duration that is not positive. An instant that is not after 1970 is 1.
use freebuff_proxy_scaleway.Base.{ℕ, ◌-◌, ◌*◌, ◌/◌, ◌%◌, ◌^◌, ◌≤◌, ltb, leb, if◌then◌else◌, arith}
use freebuff_proxy_scaleway.Base.Time.{second, minute, hour}

abbrev pub load_shed_cooldown : ℕ
load_shed_cooldown = 90 * second

abbrev pub peak_hours_cooldown : ℕ
peak_hours_cooldown = 30 * minute

abbrev pub opaque_rate_limit_backoff : ℕ
opaque_rate_limit_backoff = 60 * second

abbrev pub max_cooldown : ℕ
max_cooldown = 7 * (24 * hour)

-- The int64 that a product wraps to, 0 for a negative one.
abbrev pub wrap_int64 : ℕ → ℕ
wrap_int64 n = let w = n % 2 ^ 64 in if ltb w (2 ^ 63) then w else 0

unfoldable pub clamp_cooldown : ℕ → ℕ
clamp_cooldown d = if ltb max_cooldown d then max_cooldown else d

unfoldable pub cooldown_from_millis : ℕ → ℕ
unfolding clamp_cooldown
cooldown_from_millis ms =
    if leb ms 0
    then 0
    else if ltb (2 ^ 63) ms
    then max_cooldown
    else clamp_cooldown (wrap_int64 (ms / 1_000_000 * 1_000_000))

unfoldable pub cooldown_from_seconds : ℕ → ℕ
unfolding clamp_cooldown
cooldown_from_seconds sec =
    if leb sec 0
    then 0
    else if ltb (2 ^ 63) (sec * 1000)
    then max_cooldown
    else clamp_cooldown (wrap_int64 (sec * 1000))

unfoldable pub until_reset_at : ℕ → ℕ → ℕ
unfolding clamp_cooldown
until_reset_at t now =
    let secs = t / second - now / second in
    if leb secs 0
    then 0
    else if ltb ((2 ^ 63 - 1) / second) secs
    then max_cooldown
    else clamp_cooldown (wrap_int64 (secs * second))

unfoldable pub after_epoch : ℕ → ℕ
after_epoch t = if leb t 0 then 1 else t

-- `unixFrom` on an int64 that is not negative: milliseconds from 10^11 on, and the product wraps.
unfoldable pub unix_from : ℕ → ℕ
unfolding after_epoch
unix_from secs =
    if leb 100_000_000_000 secs
    then after_epoch (wrap_int64 (secs * 1_000_000))
    else after_epoch (secs * second)

pub clamp_cooldown-le : (d : ℕ) → clamp_cooldown d ≤ max_cooldown
unfolding clamp_cooldown
clamp_cooldown-le d = ground arith

pub clamp_cooldown_pos : (d : ℕ) → 1 ≤ d → 1 ≤ clamp_cooldown d
unfolding clamp_cooldown
clamp_cooldown_pos d h = ground arith
