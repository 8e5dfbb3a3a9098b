-- ===== src/Session/Answer.antt =====
-- What the upstream answers to a session request, and statusError and tableReason of
-- internal/session/session_poll.go. `lower` is strings.ToLower.
use freebuff_proxy_scaleway.Base.{
  ℕ, ◌+◌, ◌*◌, String, Bool, Option, none, some, List, leb, nat_eq, ltb, if◌then◌else◌,
}
use freebuff_proxy_scaleway.Base.Text.{contains_text}
use freebuff_proxy_scaleway.Base.Time.{second, minute}
use freebuff_proxy_scaleway.Upstream.Failure.{
  Failure, rate_limited, banned, country_blocked, ip_capped, limited_ip,
}
use freebuff_proxy_scaleway.Upstream.Delay.{cooldown_from_millis}
use freebuff_proxy_scaleway.Session.Manager.{
  Status, superseded, Reason, reason_ended, reason_superseded, Quotas, SessionError, failed,
  unknown_status,
}
use freebuff_proxy_scaleway.Session.Manager

-- An availability window: AvailableAt and NextStart.
pub record AvailabilityWindow : Type 0 where
  pub available_at : ℕ → Bool
  pub next_start : ℕ → ℕ

pub record SessionState : Type 0 where
  pub status : Status
  pub instance_id : String
  pub model : String
  pub current_model : String
  pub expires_at : ℕ
  pub grace_period_ends_at : ℕ
  pub position : ℕ
  pub queue_depth : ℕ
  pub estimated_wait_ms : ℕ
  pub poll_at : ℕ
  pub country_code : String
  pub country_block_reason : String
  pub ip_privacy_signals : List String
  pub active_users_for_ip : ℕ
  pub limit : ℕ
  pub recent_count : ℕ
  pub reset_at : ℕ
  pub resumes_at : ℕ
  pub retry_after_ms : ℕ
  pub message : String
  pub unavailable_window : Option AvailabilityWindow
  pub available_hours : String
  pub glm_promo : String
  pub rate_limits_by_model : Option Quotas

abbrev pub table_reason : Status → Reason
table_reason superseded = reason_superseded
table_reason s = reason_ended

-- `retry_after_ms` is an int64 of milliseconds.
abbrev pub or_minute : ℕ → ℕ
or_minute d = if leb d 0 then minute else d

abbrev pub delay_of_state : SessionState → ℕ
delay_of_state st = cooldown_from_millis (st.retry_after_ms * 1_000_000)

abbrev limited_state : String → SessionState → Failure
limited_state status st = rate_limited (record {
  status = status;
  model = st.model;
  retry_after = or_minute (delay_of_state st);
  limit = st.limit;
  recent_count = st.recent_count;
  reset_at = st.reset_at;
  period = "";
  window = "";
  body = st.message;
})

abbrev mismatch : (String → String) → Status → SessionState → SessionError
mismatch lower status st =
    if contains_text (lower st.message) "limited"
    then failed
        (limited_ip (record { model = ""; retry_after = delay_of_state st; body = st.message }))
    else unknown_status status

unfoldable pub status_error : (String → String) → Status → SessionState → Option SessionError
status_error lower Manager.banned st =
    some (failed (banned (record { resumes_at = st.resumes_at; body = st.message })))
status_error lower Manager.country_blocked st = some (
    failed (
      country_blocked (record {
        country_code = st.country_code;
        country_block_reason = st.country_block_reason;
        ip_privacy_signals = st.ip_privacy_signals;
      })))
status_error lower Manager.rate_limited st = some (failed (limited_state "rate_limited" st))
status_error lower Manager.spend_limited st = some (failed (limited_state "spend_limited" st))
status_error lower Manager.ip_capped st = some (
    failed (
      ip_capped (record {
        active_users_for_ip = st.active_users_for_ip;
        limit = st.limit;
        retry_after = or_minute (delay_of_state st);
        body = st.message;
      })))
status_error lower Manager.session_model_mismatch st =
    some (mismatch lower Manager.session_model_mismatch st)
status_error lower Manager.limited_ip st = some (mismatch lower Manager.limited_ip st)
status_error lower status st = none

-- The wait before a queued session is polled again: one to five seconds without a time.
unfoldable pub poll_time : ℕ → SessionState → ℕ
poll_time now st =
    if nat_eq st.poll_at 0
    then now
      + (let wait = st.estimated_wait_ms * 1_000_000 in
          let least = if ltb wait second then second else wait in
          if ltb (5 * second) least then 5 * second else least)
    else st.poll_at
