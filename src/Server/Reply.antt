-- ===== src/Server/Reply.antt =====
-- `writeError` of internal/server/errors.go: the answer to the client for each error, and the types
-- of internal/server/anthropic_errors.go. The message texts are left out. `now` is the clock.
pub mod Retry
pub mod Warn
mod Tests
use freebuff_proxy_scaleway.Base.{
  ℕ, ◌+◌, ◌-◌, ◌*◌, ◌/◌, String, Bool, true, false, ◌&&◌, ◌||◌, not, Option, none, some, ltb, leb,
  nat_eq, if◌then◌else◌,
}
use freebuff_proxy_scaleway.Base.Eq.{◌==◌, String_eq}
use freebuff_proxy_scaleway.Base.Time.{second}
use freebuff_proxy_scaleway.Base.Text.{contains_text}
use freebuff_proxy_scaleway.Upstream.Failure.{
  Failure, rate_limited, banned, country_blocked, ip_capped, limited_ip, credits, session_limit,
  superseded, deferred, waiting_room, waiting_room_required, upstream, auth_rejected,
  session_invalid, cli_required, cancelled, deadline,
}
use freebuff_proxy_scaleway.Server.Error.{
  ServerError, failure, session_waiting, scarce, model_not_found, unfit,
}

pub record Reply : Type 0 where
  pub status : ℕ
  pub code : String
  pub retry_after : ℕ
  pub reset_at : ℕ
  pub window : String

-- A reply without a reset time and a window.
abbrev pub plain : ℕ → String → ℕ → Reply
plain status code retry_after = record {
  status = status;
  code = code;
  retry_after = retry_after;
  reset_at = 0;
  window = "";
}

abbrev rate_limit_reply_code : String → String
rate_limit_reply_code status =
    if status == "load_shedding"
    then "load_shedding"
    else if status == "peak_hours"
    then "peak_hours"
    else "rate_limited"

abbrev passed_status : ℕ → ℕ
passed_status s = if nat_eq s 402 || nat_eq s 409 || nat_eq s 429 then s else 502

-- No reply to a request that the client has cancelled.
pub reply_to_failure : ℕ → Failure → Option Reply
reply_to_failure now cancelled = none
reply_to_failure now (banned e) =
    some (record (plain 403 "account_banned" (e.resumes_at - now)) { reset_at = e.resumes_at })
reply_to_failure now (rate_limited e) = some (record {
  status = 429;
  code = rate_limit_reply_code e.status;
  retry_after =
      if not (nat_eq e.reset_at 0) && ltb now e.reset_at then e.reset_at - now else e.retry_after;
  reset_at = e.reset_at;
  window = e.window;
})
reply_to_failure now (ip_capped e) = some (plain 429 "ip_capped" e.retry_after)
reply_to_failure now (session_limit e) = some (plain 409 "session_limit_reached" 0)
reply_to_failure now (limited_ip e) = some (plain 409 "model_ip_limited" e.retry_after)
reply_to_failure now (waiting_room e) = some (plain 503 "waiting_room_queued" e.retry_after)
reply_to_failure now (waiting_room_required e) =
    some (plain 503 "waiting_room_required" e.retry_after)
reply_to_failure now (superseded e) = some (plain 503 "session_superseded" 1)
reply_to_failure now (deferred e) = some (
    plain 429 "free_mode_capacity_deferred"
      (if leb e.retry_after 0 then 10 * second else e.retry_after))
reply_to_failure now (session_invalid s r) = some (
    plain 502
      (if contains_text s "free_mode_legacy_luna_agent"
        then "free_mode_legacy_luna_agent"
        else "session_invalid")
      second)
reply_to_failure now (upstream e) =
    if e.retryable
    then some (plain 503 "upstream_retryable" e.retry_after)
    else some (plain (passed_status e.status) "upstream_unavailable" e.retry_after)
reply_to_failure now (auth_rejected n s) = some (plain 502 "upstream_auth_rejected" 0)
reply_to_failure now (country_blocked e) = some (plain 403 "country_blocked" 0)
reply_to_failure now (cli_required n s) = some (plain 403 "free_mode_cli_required" 0)
reply_to_failure now (credits e) = some (plain 402 "out_of_credits" 0)
reply_to_failure now deadline = some (plain 504 "upstream_timeout" 0)
reply_to_failure now f = some (plain 502 "upstream_unavailable" 0)

-- `client_gone`: the request's own context has ended.
pub write_error : ℕ → Bool → ServerError → Option Reply
unfolding reply_to_failure
write_error now true e = none
write_error now false (failure f) = reply_to_failure now f
write_error now false (session_waiting e) = some (plain 503 "waiting_room_queued" e.retry_after)
write_error now false (scarce e) =
    some
      (record (plain 503 "scarce_session_in_use" (e.expires_at - now)) { reset_at = e.expires_at })
write_error now false (model_not_found s) = some (plain 400 "model_not_found" 0)
write_error now false unfit = some (plain 409 "model_ip_limited" 0)

-- The seconds of the Retry-After header, rounded up, which is set for a positive delay.
pub retry_header : ℕ → Option ℕ
retry_header retry_after =
    if ltb 0 retry_after then some ((retry_after + (second - 1)) / second) else none

pub anthropic_error_type : ℕ → String → String
anthropic_error_type status code =
    if nat_eq status 401
    then "authentication_error"
    else if nat_eq status 403
    then "permission_error"
    else if nat_eq status 404
    then "not_found_error"
    else if nat_eq status 429
    then "rate_limit_error"
    else if nat_eq status 503
        && (code == "waiting_room_queued"
            || code == "waiting_room_required"
            || code == "capacity_deferred")
    then "overloaded_error"
    else if leb 500 status
    then "api_error"
    else "invalid_request_error"
