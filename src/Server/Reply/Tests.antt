-- ===== src/Server/Reply/Tests.antt =====
-- The replies to two errors.
use freebuff_proxy_scaleway.Base.{◌*◌, ◌≡◌, ◌≢◌, ◌⊎◌, ◌∙◌, ap, refl, true, false, some}
use freebuff_proxy_scaleway.Base.Time.{second}
use freebuff_proxy_scaleway.Upstream.Samples.{decoder, capped_answer, capped_failure}
use freebuff_proxy_scaleway.Base.Text.{contains_text}
use freebuff_proxy_scaleway.Upstream.RateLimit.{parse_rate_limit}
use freebuff_proxy_scaleway.Upstream.Text.{parse_retry_after_from_text, parse_reset_at_from_text}
use freebuff_proxy_scaleway.Upstream.Fields.{get_number, get_time, get_text, target_of}
use freebuff_proxy_scaleway.Upstream.Delay.{until_reset_at}
use freebuff_proxy_scaleway.Upstream.Classify.{classify_error}
use freebuff_proxy_scaleway.Server.Error.{failure}
use freebuff_proxy_scaleway.Server.Reply.{Reply, plain, write_error, reply_to_failure, retry_header}
use freebuff_proxy_scaleway.Server.Reply.Retry.{
  is_error_status, HasHeader, classified_reply, says_overloaded, is_waiting_room, overloaded_waits,
}

abbrev limited_reply : Reply
limited_reply = record (plain 429 "rate_limited" (3000 * second)) {
  reset_at = 4000 * second;
  window = "reset";
}

-- One nanosecond is a second of the header.
superseded_waits : retry_header 1 ≡ some 1
unfolding retry_header
superseded_waits = refl

limited_replied :
    write_error (1000 * second) false (failure (classify_error decoder capped_answer))
    ≡ some limited_reply
unfolding write_error reply_to_failure parse_rate_limit parse_retry_after_from_text
    parse_reset_at_from_text until_reset_at get_number get_text get_time target_of contains_text
limited_replied = ap (λ f. write_error (1000 * second) false (failure f)) capped_failure ∙ refl

classified_reply_example :
    (is_error_status limited_reply.status ≡ true)
    × ((limited_reply.status ≢ 429) ⊎ HasHeader (3000 * second))
classified_reply_example =
    classified_reply decoder capped_answer (1000 * second) limited_reply limited_replied

overloaded_waits_example : says_overloaded limited_reply ≡ is_waiting_room "rate_limited"
overloaded_waits_example =
    overloaded_waits (1000 * second) (failure (classify_error decoder capped_answer)) limited_reply
      limited_replied
