-- ===== src/Runs/Cooldown.antt =====
-- internal/runs/cooldown.go: the cooldown fields of `RunManager` and their operations. Each call
-- reads the clock once, `now`; `reset` is what `upstream.NextPacificMidnight` returns to it, and
-- `draw` is the uint64 that the jitter reads. A result of `none` is a panic.
pub mod Invariant
pub mod Lock
pub mod Budget
pub mod Panic
pub mod Refused
mod Tests
use freebuff_proxy_scaleway.Base.{
  ℕ, ◌+◌, ◌-◌, ◌*◌, ◌/◌, ◌%◌, Bool, true, false, ◌&&◌, ◌||◌, not, Option, none, some, ltb, leb,
  nat_eq, if◌then◌else◌,
}
use freebuff_proxy_scaleway.Base.Time.{minute, hour}
use freebuff_proxy_scaleway.Upstream.Errors.{
  RateLimitError, BanError, CountryBlockedError, IpCappedError,
}

abbrev pub country_block_cooldown : ℕ
country_block_cooldown = 15 * minute

abbrev pub cooldown_ceiling : ℕ
cooldown_ceiling = 7 * (24 * hour)

abbrev pub max_ip_capped_re_admits_per_day : ℕ
max_ip_capped_re_admits_per_day = 3

pub record Cooldowns : Type 0 where
  pub cooldown_until : ℕ
  pub rate_limit : Option RateLimitError
  pub ban_until : ℕ
  pub ban : Option BanError
  pub country_block : Option CountryBlockedError
  pub country_until : ℕ
  pub ip_capped : Option IpCappedError
  pub ip_capped_until : ℕ
  pub ip_capped_re_admits : ℕ
  pub ip_capped_day_reset : ℕ

-- `ClearCooldowns`, also the state of a new manager.
unfoldable pub cleared : Cooldowns
cleared = record {
  cooldown_until = 0;
  rate_limit = none;
  ban_until = 0;
  ban = none;
  country_block = none;
  country_until = 0;
  ip_capped = none;
  ip_capped_until = 0;
  ip_capped_re_admits = 0;
  ip_capped_day_reset = 0;
}

pub capped_after : ℕ → ℕ → ℕ
capped_after now d = now + (if ltb cooldown_ceiling d then cooldown_ceiling else d)

pub capped_deadline : ℕ → ℕ → ℕ
capped_deadline now t = let ceiling = now + cooldown_ceiling in if ltb ceiling t then ceiling else t

-- `Cooldown(d)`.
unfoldable pub cooldown : ℕ → ℕ → Cooldowns → Cooldowns
unfolding cleared
cooldown now d m = if leb d 0 then m else record cleared { cooldown_until = now + d }

unfoldable pub clear_cooldowns : Cooldowns → Cooldowns
clear_cooldowns m = cleared

pub rate_limit_deadline : ℕ → ℕ → RateLimitError → ℕ
unfolding capped_after capped_deadline
rate_limit_deadline now reset rle =
    if ltb 0 rle.retry_after
    then capped_after now rle.retry_after
    else if not (nat_eq rle.reset_at 0) && ltb now rle.reset_at
    then capped_deadline now rle.reset_at
    else reset

unfoldable pub cooldown_rate_limit : ℕ → ℕ → Option RateLimitError → Cooldowns → Cooldowns
unfolding rate_limit_deadline
cooldown_rate_limit now reset none m = m
cooldown_rate_limit now reset (some rle) m = record m {
  cooldown_until = rate_limit_deadline now reset rle;
  rate_limit = some rle;
  ban = none;
  country_block = none;
  ip_capped = none;
}

-- The modulus is `uint64(float64(base) * 0.2)`, a fifth of the base for every base below 2^53 ns;
-- below 5 ns it is 0 and the division panics.
pub ip_capped_jitter : ℕ → ℕ → Option ℕ
ip_capped_jitter draw base =
    if leb base 0 then some 0 else if nat_eq (base / 5) 0 then none else some (draw % (base / 5))

-- A new Pacific day starts with a fresh budget; then this refusal is counted.
pub count_refusal : ℕ → Cooldowns → Cooldowns
count_refusal reset m =
    let fresh = nat_eq m.ip_capped_day_reset 0 || not (nat_eq m.ip_capped_day_reset reset) in
    record m {
      ip_capped_re_admits = (if fresh then 0 else m.ip_capped_re_admits) + 1;
      ip_capped_day_reset = if fresh then reset else m.ip_capped_day_reset;
      rate_limit = none;
      ban = none;
      country_block = none;
    }

pub lock_until_reset : ℕ → ℕ → IpCappedError → Cooldowns → Cooldowns
lock_until_reset now reset ice m = record m {
  ip_capped = some (record ice { retry_after = reset - now });
  ip_capped_until = reset;
  cooldown_until = reset;
}

pub pause : ℕ → ℕ → IpCappedError → Cooldowns → Option Cooldowns
unfolding ip_capped_jitter capped_after
pause now draw ice m = elim (ip_capped_jitter draw ice.retry_after) [
  | none ↦ none
  | some jitter ↦
      let until = capped_after now (ice.retry_after + jitter) in
      some (record m { ip_capped = some ice; ip_capped_until = until; cooldown_until = until })
]

unfoldable pub cooldown_ip_capped : ℕ → ℕ → ℕ → Option IpCappedError → Cooldowns → Option Cooldowns
unfolding count_refusal lock_until_reset pause
cooldown_ip_capped now reset draw none m = some m
cooldown_ip_capped now reset draw (some ice) m =
    let m' = count_refusal reset m in
    if leb ice.retry_after 0
    then some m
    else if leb max_ip_capped_re_admits_per_day m'.ip_capped_re_admits
    then some (lock_until_reset now reset ice m')
    else pause now draw ice m'

unfoldable pub cooldown_ban : ℕ → Option BanError → Cooldowns → Cooldowns
cooldown_ban now none m = m
cooldown_ban now (some be) m =
    let until = if ltb now be.resumes_at then be.resumes_at else now + 24 * hour in
    record m {
      ban = some be;
      ban_until = until;
      cooldown_until = until;
      rate_limit = none;
      country_block = none;
      ip_capped = none;
    }

abbrev pub is_some {ℓ} : {A : Type ℓ} → Option A → Bool
is_some none = false
is_some (some a) = true

unfoldable pub cooldown_country_blocked : ℕ → Option CountryBlockedError → Cooldowns → Cooldowns
cooldown_country_blocked now none m = m
cooldown_country_blocked now (some cbe) m =
    let until = now + country_block_cooldown in
    if ltb now m.ban_until && is_some m.ban then m else record m {
      country_block = some cbe;
      country_until = until;
      cooldown_until = until;
      rate_limit = none;
      ban = none;
      ban_until = 0;
      ip_capped = none;
    }

-- The four readers: the remembered error while its window is open.
pub ip_capped_error : ℕ → Cooldowns → Option IpCappedError
ip_capped_error now m =
    if ltb now m.ip_capped_until && is_some m.ip_capped then m.ip_capped else none

pub rate_limit_error : ℕ → Cooldowns → Option RateLimitError
rate_limit_error now m =
    if ltb now m.cooldown_until && is_some m.rate_limit then m.rate_limit else none

pub ban_error : ℕ → Cooldowns → Option BanError
ban_error now m = if ltb now m.ban_until && is_some m.ban then m.ban else none

pub country_blocked_error : ℕ → Cooldowns → Option CountryBlockedError
country_blocked_error now m =
    if ltb now m.country_until && is_some m.country_block then m.country_block else none
