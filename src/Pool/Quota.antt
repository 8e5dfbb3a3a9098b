-- ===== src/Pool/Quota.antt =====
-- internal/pool/quota.go, and the classification of quota refusals in internal/pool/scarce.go.
pub mod Verdict
use freebuff_proxy_scaleway.Base.{
  ℕ, ◌-◌, String, Bool, true, false, ◌&&◌, ◌||◌, not, Option, none, some, ltb, leb, nat_eq,
  if◌then◌else◌,
}
use freebuff_proxy_scaleway.Base.Text.{contains_text}
use freebuff_proxy_scaleway.Base.Eq.{◌==◌, String_eq}
use freebuff_proxy_scaleway.Base.Map.{lookup}
use freebuff_proxy_scaleway.Upstream.Errors.{RateLimitError}
use freebuff_proxy_scaleway.Session.Snapshot.{
  SessionSnapshot, QuotaSnapshot, has_glm_entitlement, one_session,
}
use Prim.Native.String.{◌++◌ as concat}

abbrev pub referral_gated_model : String
referral_gated_model = "z-ai/glm-5.2"

pub is_referral_gated_model : String → Bool
is_referral_gated_model model = model == referral_gated_model

-- The three results of `quotaRemaining`.
pub record Quota : Type 0 where
  pub known : Bool
  pub remaining : ℕ
  pub capped : Bool

abbrev pub reset_future : ℕ → QuotaSnapshot → Bool
reset_future now q = not (nat_eq q.reset_at 0) && ltb now q.reset_at

-- The reading of one quota; `otherwise` is the result if neither test decides.
pub read_quota : ℕ → QuotaSnapshot → Quota → Quota
read_quota now q otherwise =
    if reset_future now q && leb q.limit q.recent_count
    then record { known = false; remaining = 0; capped = true }
    else if ltb q.recent_count q.limit
    then record { known = true; remaining = q.limit - q.recent_count; capped = false }
    else otherwise

abbrev pub unknown_quota : Quota
unknown_quota = record { known = false; remaining = 0; capped = false }

abbrev pub one_left : Quota
one_left = record { known = true; remaining = one_session; capped = false }

pub quota_of : ℕ → Option QuotaSnapshot → Quota → Quota
unfolding read_quota
quota_of now none otherwise = otherwise
quota_of now (some q) otherwise = if leb q.limit 0 then otherwise else read_quota now q otherwise

unfoldable pub quota_remaining : ℕ → SessionSnapshot → String → Quota
unfolding is_referral_gated_model quota_of
quota_remaining now snap model =
    let q = lookup model snap.quota_by_model in
    if is_referral_gated_model model
    then (if not (has_glm_entitlement now snap)
        then record { known = false; remaining = 0; capped = true }
        else quota_of now q one_left)
    else quota_of now q unknown_quota

abbrev pub no_quota : QuotaSnapshot
no_quota = record { limit = 0; recent_count = 0; reset_at = 0; period = "" }

-- `quotaLimitError`; a missing quota reads as the zero value.
pub quota_limit_error : ℕ → SessionSnapshot → String → RateLimitError
unfolding is_referral_gated_model
quota_limit_error now snap model =
    let q : QuotaSnapshot = elim (lookup model snap.quota_by_model) [
      | none ↦ no_quota
      | some q ↦ q
    ] in
    record {
      status = "rate_limited";
      model = model;
      retry_after = if reset_future now q then q.reset_at - now else 0;
      limit = q.limit;
      recent_count = q.recent_count;
      reset_at = q.reset_at;
      period = "";
      window = "";
      body =
          if is_referral_gated_model model && not (has_glm_entitlement now snap)
          then concat "referral entitlement required for " model
          else "session quota exhausted for model";
    }

pub is_daily_cap_reset : RateLimitError → Bool
is_daily_cap_reset rle =
    if not (rle.period == "pacific_day") && not (rle.period == "pacific_week")
    then false
    else ltb 0 rle.limit && leb rle.limit rle.recent_count

-- `isQuotaExhaustedError` of an error that is not nil.
unfoldable pub is_quota_exhausted_error : RateLimitError → Bool
unfolding is_daily_cap_reset
is_quota_exhausted_error rle =
    (not (nat_eq rle.reset_at 0)
      || rle.period == "pacific_day"
      || rle.period == "pacific_week"
      || is_daily_cap_reset rle)
    || (ltb 0 rle.limit && leb rle.limit rle.recent_count)
    || (rle.body == "session quota exhausted for model"
        || contains_text rle.body "referral entitlement required"
        || contains_text rle.body "no referral quota")
