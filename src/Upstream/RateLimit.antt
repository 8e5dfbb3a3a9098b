-- ===== src/Upstream/RateLimit.antt =====
-- The rate limits of internal/upstream/ratelimit.go: `parseRateLimit`, `parseIpCapped` and the window
-- of the ledger. A call reads the clock once, `now`; `reset` is its next Pacific midnight.
pub mod Bounds
use freebuff_proxy_scaleway.Base.{
  ℕ, ◌/◌, String, Bool, false, ◌&&◌, not, Option, none, some, [], ◌∷◌, ltb, leb, nat_eq,
  if◌then◌else◌,
}
use freebuff_proxy_scaleway.Base.Eq.{◌==◌, String_eq}
use freebuff_proxy_scaleway.Base.Time.{minute}
use freebuff_proxy_scaleway.Base.Text.{contains_text}
use freebuff_proxy_scaleway.Upstream.Errors.{RateLimitError, IpCappedError}
use freebuff_proxy_scaleway.Upstream.Delay.{
  clamp_cooldown, cooldown_from_millis, cooldown_from_seconds, until_reset_at,
  opaque_rate_limit_backoff,
}
use freebuff_proxy_scaleway.Upstream.Fields.{
  Decoder, Fields, target_of, get_number, get_time, get_text, truncate,
}
use freebuff_proxy_scaleway.Upstream.Text.{parse_retry_after_from_text, parse_reset_at_from_text}

abbrev positive : Option ℕ → Option ℕ
positive none = none
positive (some n) = if ltb 0 n then some n else none

-- The delay of the JSON fields, the header's if they name none.
pub delay_of : Decoder → Fields → ℕ → ℕ
delay_of d m header = elim (positive (get_number d ("retryAfterMs" ∷ "retry_after_ms" ∷ []) m)) [
  | some ms ↦ cooldown_from_millis ms
  | none ↦ elim (positive (get_number d ("retryAfter" ∷ "retry_after" ∷ []) m)) [
    | some sec ↦ cooldown_from_seconds sec
    | none ↦ header
  ]
]

abbrev or_zero : Option ℕ → ℕ
or_zero none = 0
or_zero (some n) = n

pub is_daily_cap_reset : RateLimitError → Bool
is_daily_cap_reset r =
    if not (r.period == "pacific_day") && not (r.period == "pacific_week")
    then false
    else ltb 0 r.limit && leb r.limit r.recent_count

unfoldable pub rate_limit_window : String → ℕ → ℕ → String
rate_limit_window lower reset_at retry_after =
    if contains_text lower "1 minute"
    then "1 minute"
    else if contains_text lower "30 minutes"
    then "30 minutes"
    else if not (nat_eq reset_at 0)
    then "reset"
    else if ltb 0 retry_after
    then "retry-after"
    else "none"

-- What the JSON fields say.
pub read_rate_limit : Decoder → String → ℕ → RateLimitError
unfolding delay_of
read_rate_limit d body header =
    let opaque : RateLimitError = record {
      status = "";
      model = "";
      retry_after = header;
      limit = 0;
      recent_count = 0;
      reset_at = 0;
      period = "";
      window = "";
      body = truncate body 200;
    } in
    elim (d.json body) [
      | none ↦ opaque
      | some raw ↦
          let m = target_of raw in
          record opaque {
            status = get_text "status" "" m;
            model = get_text "model" "" m;
            retry_after = delay_of d m header;
            limit = or_zero (get_number d ("limit" ∷ []) m);
            recent_count = or_zero (get_number d ("recentCount" ∷ "recent_count" ∷ []) m);
            reset_at =
                or_zero (
                  get_time d ("resetAt" ∷ "reset_at" ∷ "resets_at" ∷ "resumes_at" ∷ "reset" ∷ [])
                    m);
            period = get_text "period" "" m;
          }
    ]

-- The fallbacks on the text of the body.
pub read_text : Decoder → String → RateLimitError → RateLimitError
read_text d lower r = record r {
  retry_after = if leb r.retry_after 0 then parse_retry_after_from_text lower else r.retry_after;
  reset_at = if nat_eq r.reset_at 0 then parse_reset_at_from_text d lower else r.reset_at;
}

-- The delay of a refusal that has none so far.
pub settle : ℕ → ℕ → RateLimitError → RateLimitError
unfolding is_daily_cap_reset
settle now reset r =
    if not (nat_eq r.reset_at 0) && ltb now r.reset_at
    then (if leb r.retry_after 0
        then record r { retry_after = until_reset_at r.reset_at now }
        else r)
    else if leb r.retry_after 0
    then (if is_daily_cap_reset r
        then record r { reset_at = reset; retry_after = until_reset_at reset now }
        else record r { retry_after = opaque_rate_limit_backoff })
    else r

pub finalize : String → RateLimitError → RateLimitError
unfolding rate_limit_window
finalize lower r =
    let retry_after =
      clamp_cooldown (if leb r.retry_after 0 then opaque_rate_limit_backoff else r.retry_after) in
    record r { retry_after = retry_after; window = rate_limit_window lower r.reset_at retry_after }

unfoldable pub parse_rate_limit : Decoder → ℕ → ℕ → String → ℕ → RateLimitError
unfolding read_rate_limit read_text settle finalize
parse_rate_limit d now reset body header =
    let lower = d.to_lower body in
    finalize lower (settle now reset (read_text d lower (read_rate_limit d body header)))

unfoldable pub parse_ip_capped : Decoder → String → ℕ → IpCappedError
unfolding delay_of
parse_ip_capped d body header =
    let delay : ℕ → ℕ = λ (d : ℕ). let c = clamp_cooldown d in if leb c 0 then minute else c in
    elim (d.json body) [
      | none ↦ record {
        active_users_for_ip = 0;
        limit = 0;
        retry_after = delay header;
        body = truncate body 200;
      }
      | some raw ↦
          let m = target_of raw in
          record {
            active_users_for_ip =
                or_zero (get_number d ("activeUsersForIp" ∷ "active_users_for_ip" ∷ []) m)
                / 1_000_000;
            limit = or_zero (get_number d ("limit" ∷ []) m);
            retry_after = delay (delay_of d m header);
            body = truncate body 200;
          }
    ]
