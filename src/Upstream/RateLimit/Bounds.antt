-- ===== src/Upstream/RateLimit/Bounds.antt =====
-- How long a rate limit of internal/upstream/ratelimit.go may keep a token out.
use freebuff_proxy_scaleway.Base.{
  ℕ, ◌≤◌, ◌<◌, ◌≡◌, ◌⊎◌, inl, inr, String, true, leb, if◌then◌else◌, arith, Option-cases,
}
use freebuff_proxy_scaleway.Base.Time.{minute}
use freebuff_proxy_scaleway.Upstream.Errors.{RateLimitError}
use freebuff_proxy_scaleway.Upstream.Delay.{
  clamp_cooldown, clamp_cooldown-le, clamp_cooldown_pos, opaque_rate_limit_backoff, max_cooldown,
}
use freebuff_proxy_scaleway.Upstream.Fields.{Decoder, target_of}
use freebuff_proxy_scaleway.Upstream.RateLimit.{
  is_daily_cap_reset, read_rate_limit, read_text, settle, finalize, parse_rate_limit,
  parse_ip_capped, delay_of,
}

-- A delay that is neither 0 nor above the ceiling.
abbrev pub IsBounded : ℕ → Type 0
IsBounded d = (1 ≤ d) × (d ≤ max_cooldown)

pub finalize-IsBounded :
    (lower : String) (r : RateLimitError) → IsBounded (finalize lower r).retry_after
unfolding finalize
finalize-IsBounded lower r =
    let d = if leb r.retry_after 0 then opaque_rate_limit_backoff else r.retry_after in
    (clamp_cooldown_pos d (ground arith), clamp_cooldown-le d)

-- What the fields and the text of a body say, before the fallbacks.
abbrev pub said : Decoder → String → ℕ → RateLimitError
said d body header = read_text d (d.to_lower body) (read_rate_limit d body header)

-- A refusal that was given the next Pacific midnight.
abbrev pub IsDailyCap : ℕ → RateLimitError → Type 0
IsDailyCap now r = (is_daily_cap_reset r ≡ true) × (r.retry_after ≡ 0) × (r.reset_at ≤ now)

settle-resets :
    (now reset : ℕ) (r : RateLimitError)
    → ((settle now reset r).reset_at ≡ r.reset_at)
      ⊎ (((settle now reset r).reset_at ≡ reset) × IsDailyCap now r)
unfolding settle
settle-resets now reset r = ground arith

-- A refusal that says how long it lasts: by a delay, a reset to come, or a quota that is used up.
abbrev pub SaysWhen : ℕ → RateLimitError → Type 0
SaysWhen now r = (1 ≤ r.retry_after) ⊎ (now < r.reset_at) ⊎ (is_daily_cap_reset r ≡ true)

settle-backs_off :
    (now reset : ℕ) (r : RateLimitError)
    → SaysWhen now r ⊎ ((settle now reset r).retry_after ≡ opaque_rate_limit_backoff)
unfolding settle
settle-backs_off now reset r = ground arith

finalize_backoff :
    (lower : String) (r : RateLimitError)
    → r.retry_after ≡ opaque_rate_limit_backoff
    → (finalize lower r).retry_after ≡ opaque_rate_limit_backoff
unfolding finalize clamp_cooldown
finalize_backoff lower r h = ground arith

-- For every body and header, the delay of a parsed rate limit is positive and at most seven days.
-- Its reset is the one that the body names, unless the body shows a daily quota that is used up and
-- names neither a delay nor a reset to come: only then it is the next Pacific midnight. A refusal
-- that shows none of the three waits 60 seconds.
pub parse_rate_limit_lem :
    (d : Decoder) (now reset : ℕ) (body : String) (header : ℕ)
    → IsBounded (parse_rate_limit d now reset body header).retry_after
      × (((parse_rate_limit d now reset body header).reset_at ≡ (said d body header).reset_at)
          ⊎ (((parse_rate_limit d now reset body header).reset_at ≡ reset)
              × IsDailyCap now (said d body header)))
      × (SaysWhen now (said d body header)
          ⊎ ((parse_rate_limit d now reset body header).retry_after ≡ opaque_rate_limit_backoff))
unfolding parse_rate_limit finalize
parse_rate_limit_lem d now reset body header =
    let r = said d body header in
    (
      finalize-IsBounded (d.to_lower body) (settle now reset r),
      settle-resets now reset r,
      elim (settle-backs_off now reset r) [
        | inl says ↦ inl says
        | inr waits ↦ inr (finalize_backoff (d.to_lower body) (settle now reset r) waits)
      ],
    )

pub parse_ip_capped-IsBounded :
    (d : Decoder) (body : String) (header : ℕ)
    → IsBounded (parse_ip_capped d body header).retry_after
unfolding parse_ip_capped
parse_ip_capped-IsBounded d body header = elim (Option-cases (d.json body)) [
  | inl e ↦ rw (parse_ip_capped, e) (clamped header)
  | inr (raw, e) ↦ rw (parse_ip_capped, e) (clamped (delay_of d (target_of raw) header))
]
  where
    clamped : (n : ℕ) → IsBounded (if leb (clamp_cooldown n) 0 then minute else clamp_cooldown n)
    clamped n = ground (arith, clamp_cooldown-le n)
