-- ===== src/Upstream/Errors.antt =====
-- The refusals of internal/upstream/errors.go. An instant is a count of nanoseconds with 0 for the
-- zero `time.Time`; a duration is a count of nanoseconds in which 0 stands for every duration that
-- is not positive; a float64 quota is a number of a fixed small unit, 0 if it is not positive.
use freebuff_proxy_scaleway.Base.{ℕ, String, List}

pub record RateLimitError : Type 0 where
  pub status : String
  pub model : String
  pub retry_after : ℕ
  pub limit : ℕ
  pub recent_count : ℕ
  pub reset_at : ℕ
  pub period : String
  pub window : String
  pub body : String

pub record BanError : Type 0 where
  pub resumes_at : ℕ
  pub body : String

pub record CountryBlockedError : Type 0 where
  pub country_code : String
  pub country_block_reason : String
  pub ip_privacy_signals : List String

pub record IpCappedError : Type 0 where
  pub active_users_for_ip : ℕ
  pub limit : ℕ
  pub retry_after : ℕ
  pub body : String

pub record LimitedIpError : Type 0 where
  pub model : String
  pub retry_after : ℕ
  pub body : String
