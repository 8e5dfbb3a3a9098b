-- ===== src/Upstream/Samples.antt =====
-- A body of the upstream and a decoder for it, which the tests share.
use Prim.Native.Nat.{◌*◌}
use freebuff_proxy_scaleway.Base.{String, false, ◌≡◌, refl, none, some, if◌then◌else◌}
use freebuff_proxy_scaleway.Base.Eq.{◌==◌, String_eq}
use freebuff_proxy_scaleway.Base.Time.{second}
use freebuff_proxy_scaleway.Upstream.Fields.{Decoder, no_field, field, number, text, contains_any}
use freebuff_proxy_scaleway.Base.Text.{contains_text}
use freebuff_proxy_scaleway.Upstream.Classify.Quiet.{may_cool}
use freebuff_proxy_scaleway.Upstream.Classify.{
  Answer, classify_gate, classify_session, classify_rest, classify_error,
}
use freebuff_proxy_scaleway.Upstream.Failure.{rate_limited}
use freebuff_proxy_scaleway.Upstream.Errors.{RateLimitError}
use freebuff_proxy_scaleway.Upstream.RateLimit.{parse_rate_limit}

abbrev pub capped_body : String
capped_body =
    "{\"status\":\"rate_limited\",\"period\":\"pacific_day\",\"limit\":5,\"recentCount\":5}"

-- A decoder that knows one body.
abbrev pub decoder : Decoder
decoder = record {
  to_lower = λ s. s;
  json = λ s.
      if s == capped_body
      then some (
          field "status" (text "rate_limited") (
            field "period" (text "pacific_day")
              (field "limit" (number 5_000_000) (field "recentCount" (number 5_000_000) no_field))))
      else none;
  rfc3339 = λ s. none;
  http_time = λ s. none;
  float = λ s. none;
  int = λ s. if s == "30" then some 30 else none;
}

-- The answer 429 with that body, 3000 seconds before the Pacific midnight.
abbrev pub capped_answer : Answer
capped_answer = record {
  status = 429;
  body = capped_body;
  retry_header = "";
  signals = none;
  now = 1000 * second;
  reset = 4000 * second;
}

-- An expired session.
abbrev pub expired_answer : Answer
expired_answer = record {
  status = 409;
  body = "session_expired";
  retry_header = "30";
  signals = none;
  now = 1000 * second;
  reset = 4000 * second;
}

abbrev pub capped_error : RateLimitError
capped_error = parse_rate_limit decoder (1000 * second) (4000 * second) capped_body 0

pub capped_failure : classify_error decoder capped_answer ≡ rate_limited capped_error
unfolding classify_gate classify_session classify_rest classify_error contains_text contains_any
capped_failure = refl

pub expired_quiet : may_cool decoder expired_answer ≡ false
unfolding may_cool contains_text
expired_quiet = refl
