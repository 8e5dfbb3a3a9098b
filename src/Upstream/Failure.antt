-- ===== src/Upstream/Failure.antt =====
-- The error values of internal/upstream/errors.go beside those of `Errors`, and what one call of the
-- upstream client may return. A sentinel that `fmt.Errorf` wraps keeps what its text carries.
use freebuff_proxy_scaleway.Base.{ℕ, String, Bool, true, Option, none, some}
use freebuff_proxy_scaleway.Upstream.Errors.{
  RateLimitError, BanError, CountryBlockedError, IpCappedError, LimitedIpError,
}

pub record WaitingRoomError : Type 0 where
  pub retry_after : ℕ
  pub detail : String

pub record WaitingRoomRequiredError : Type 0 where
  pub retry_after : ℕ
  pub detail : String

pub record SessionSupersededError : Type 0 where
  pub status : ℕ
  pub body : String

pub record UpstreamError : Type 0 where
  pub status : ℕ
  pub body : String
  pub retry_after : ℕ
  pub retryable : Bool

pub record CreditsError : Type 0 where
  pub status : ℕ
  pub body : String

pub record CapacityDeferredError : Type 0 where
  pub status : ℕ
  pub retry_after : ℕ
  pub body : String

pub record SessionLimitError : Type 0 where
  pub status : ℕ
  pub body : String

pub data Failure : Type 0 where
  rate_limited : RateLimitError → Failure
  banned : BanError → Failure
  country_blocked : CountryBlockedError → Failure
  ip_capped : IpCappedError → Failure
  limited_ip : LimitedIpError → Failure
  credits : CreditsError → Failure
  session_limit : SessionLimitError → Failure
  superseded : SessionSupersededError → Failure
  deferred : CapacityDeferredError → Failure
  waiting_room : WaitingRoomError → Failure
  waiting_room_required : WaitingRoomRequiredError → Failure
  upstream : UpstreamError → Failure
  auth_rejected : ℕ → String → Failure
  session_invalid : String → ℕ → Failure
  run_invalid : String → Failure
  cli_required : ℕ → String → Failure
  cancelled : Failure
  deadline : Failure
  transport : String → Failure

-- `errors.As(err, &ue)` with an `*UpstreamError`; a deferred request unwraps to a retryable one.
unfoldable pub as_upstream : Failure → Option UpstreamError
as_upstream (upstream e) = some e
as_upstream (deferred e) =
    some
      (record { status = e.status; body = e.body; retry_after = e.retry_after; retryable = true })
as_upstream f = none
