-- ===== src/Runs/Cooldown/Refused.antt =====
-- The lock of a token whose upstream answered with a rate limit: classifyError of
-- internal/upstream/ratelimit.go and CooldownRateLimit of internal/runs/cooldown.go together.
use freebuff_proxy_scaleway.Base.{ℕ, ◌+◌, ◌≤◌, ◌<◌, ◌≡◌, none, some, ltb, if◌then◌else◌, arith}
use mathlib.Core.Path.{subst}
use freebuff_proxy_scaleway.Upstream.Errors.{RateLimitError}
use freebuff_proxy_scaleway.Upstream.Failure.{rate_limited}
use freebuff_proxy_scaleway.Upstream.Fields.{Decoder}
use freebuff_proxy_scaleway.Upstream.RateLimit.Bounds.{IsBounded}
use freebuff_proxy_scaleway.Upstream.Classify.{Answer, classify_error}
use freebuff_proxy_scaleway.Upstream.Classify.Bounds.{own_delay, IsShort, classify_error-IsShort}
use freebuff_proxy_scaleway.Runs.Cooldown.{
  Cooldowns, cooldown_ceiling, cooldown_rate_limit, rate_limit_error, rate_limit_deadline,
  capped_after,
}

module _ (now reset : ℕ) (rle : RateLimitError) (m : Cooldowns)
    (b : IsBounded rle.retry_after) where
  cooled_by : (cooldown_rate_limit now reset (some rle) m).cooldown_until ≡ now + rle.retry_after
  unfolding cooldown_rate_limit rate_limit_deadline capped_after
  cooled_by = ground arith

  refused_by :
      (later : ℕ)
      → rate_limit_error later (cooldown_rate_limit now reset (some rle) m)
        ≡ (if ltb later (now + rle.retry_after) then some rle else none)
  unfolding cooldown_rate_limit rate_limit_error rate_limit_deadline capped_after
  refused_by later = ground arith

-- A token whose upstream answer is classified as a rate limit is locked for the delay of that
-- refusal, which is positive and at most seven days; it answers with that refusal at every instant
-- before the deadline and with none from then on.
pub classified_lock :
    (d : Decoder) (a : Answer) (m : Cooldowns) (rle : RateLimitError)
    → classify_error d a ≡ rate_limited rle
    → let m' = cooldown_rate_limit a.now a.reset (some rle) m in
      let until = a.now + rle.retry_after in
      (m'.cooldown_until ≡ until)
      × (a.now < until)
      × (until ≤ a.now + cooldown_ceiling)
      × ((later : ℕ) → rate_limit_error later m' ≡ (if ltb later until then some rle else none))
classified_lock d a m rle h =
    let b : IsBounded rle.retry_after =
      subst (λ f. IsShort (own_delay f)) h (classify_error-IsShort d a) in
    (
      cooled_by a.now a.reset rle m b,
      omega (arith, b.0),
      omega (arith, b.1),
      refused_by a.now a.reset rle m b,
    )
