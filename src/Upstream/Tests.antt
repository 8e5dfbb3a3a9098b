-- ===== src/Upstream/Tests.antt =====
-- Bodies of the upstream and what becomes of them.
use freebuff_proxy_scaleway.Base.{◌*◌, ◌≡◌, ◌⊎◌, refl}
use freebuff_proxy_scaleway.Base.Eq.{String_eq}
use freebuff_proxy_scaleway.Base.Time.{second, minute}
use freebuff_proxy_scaleway.Upstream.Fields.{get_number, get_time, get_text, target_of}
use freebuff_proxy_scaleway.Upstream.Text.{parse_retry_after_from_text, parse_reset_at_from_text}
use freebuff_proxy_scaleway.Upstream.RateLimit.{parse_rate_limit}
use freebuff_proxy_scaleway.Upstream.RateLimit.Bounds.{
  IsBounded, IsDailyCap, SaysWhen, said, parse_rate_limit_lem,
}
use freebuff_proxy_scaleway.Upstream.Delay.{
  opaque_rate_limit_backoff, until_reset_at, clamp_cooldown,
}
use freebuff_proxy_scaleway.Upstream.Samples.{decoder, capped_body}

-- The day's quota is used up: the token waits for the midnight that is 3000 seconds away.
used_up :
    (parse_rate_limit decoder (1000 * second) (4000 * second) capped_body 0).retry_after
    ≡ 3000 * second
unfolding parse_rate_limit parse_retry_after_from_text parse_reset_at_from_text until_reset_at
    get_number get_text get_time target_of
used_up = refl

minutes : parse_retry_after_from_text "over the 30 minutes limit" ≡ 30 * minute
unfolding parse_retry_after_from_text clamp_cooldown
minutes = refl

seconds : parse_retry_after_from_text "please retry after 12 s" ≡ 12 * second
unfolding parse_retry_after_from_text clamp_cooldown
seconds = refl

-- The product of the text's number wraps before it is clamped: 584 years become less than a second.
wrapped : parse_retry_after_from_text "retry after 18446744074s" ≡ 290_448_384
unfolding parse_retry_after_from_text clamp_cooldown
wrapped = refl

parse_rate_limit_lem_example :
    IsBounded (parse_rate_limit decoder (1000 * second) (4000 * second) capped_body 0).retry_after
    × (((parse_rate_limit decoder (1000 * second) (4000 * second) capped_body 0).reset_at
          ≡ (said decoder capped_body 0).reset_at)
        ⊎ (((parse_rate_limit decoder (1000 * second) (4000 * second) capped_body 0).reset_at
              ≡ 4000 * second)
            × IsDailyCap (1000 * second) (said decoder capped_body 0)))
    × (SaysWhen (1000 * second) (said decoder capped_body 0)
        ⊎ ((parse_rate_limit decoder (1000 * second) (4000 * second) capped_body 0).retry_after
            ≡ opaque_rate_limit_backoff))
parse_rate_limit_lem_example =
    parse_rate_limit_lem decoder (1000 * second) (4000 * second) capped_body 0
