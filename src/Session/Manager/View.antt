-- ===== src/Session/Manager/View.antt =====
-- What the manager of internal/session/session.go shows: Snapshot and hasGlmEntitlementLocked.
-- `decode` is what json.Unmarshal and time.Parse make of the promo block.
use freebuff_proxy_scaleway.Base.{String, Bool, ◌||◌, Option, none, some, [], ℕ}
use freebuff_proxy_scaleway.Base.Map.{lookup}
use freebuff_proxy_scaleway.Base.Eq.{String_eq}
use freebuff_proxy_scaleway.Session.Snapshot.{
  SessionSnapshot, GlmPromo, quota_open, promo_open, referral_model,
}
use freebuff_proxy_scaleway.Session.Manager.{
  Manager, Quotas, Status, active, disabled, queued, ended, superseded, absent, banned,
  country_blocked, rate_limited, spend_limited, ip_capped, session_model_mismatch, limited_ip,
  model_locked, model_unavailable, other, quota_in, promo_in, or_option, or_text,
}

abbrev pub status_text : Status → String
status_text active = "active"
status_text disabled = "disabled"
status_text queued = "queued"
status_text ended = "ended"
status_text superseded = "superseded"
status_text absent = "none"
status_text banned = "banned"
status_text country_blocked = "country_blocked"
status_text rate_limited = "rate_limited"
status_text spend_limited = "spend_limited"
status_text ip_capped = "ip_capped"
status_text session_model_mismatch = "session_model_mismatch"
status_text limited_ip = "limited_ip"
status_text model_locked = "model_locked"
status_text model_unavailable = "model_unavailable"
status_text (other s) = s

abbrev pub quotas_of : Option Quotas → Quotas
quotas_of none = []
quotas_of (some q) = q

unfoldable pub snapshot : (String → Option GlmPromo) → Manager → SessionSnapshot
snapshot decode m = elim m.state [
  | none ↦ record {
    status = "";
    instance_id = "";
    model = "";
    refreshing = m.refreshing;
    expires_at = 0;
    grace_period_ends_at = 0;
    quota_by_model = quotas_of m.saved_quota;
    entitlement = [];
    glm_promo = decode m.saved_glm_promo;
  }
  | some s ↦ record {
    status = status_text s.status;
    instance_id = s.instance_id;
    model = s.model;
    refreshing = m.refreshing;
    expires_at = s.expires_at;
    grace_period_ends_at = s.grace_period_ends_at;
    quota_by_model = quotas_of s.quota_by_model;
    entitlement = [];
    glm_promo = decode s.glm_promo;
  }
]

-- The quotas and the promo block that the manager goes by.
abbrev pub quota_view : Manager → Option Quotas
quota_view m = or_option (quota_in m.state) m.saved_quota

abbrev pub promo_view : Manager → String
promo_view m = or_text (promo_in m.state) m.saved_glm_promo

-- `hasGlmEntitlementLocked`.
unfoldable pub entitled : (String → Option GlmPromo) → ℕ → Manager → Bool
entitled decode now m =
    quota_open now (lookup referral_model (quotas_of (quota_view m)))
    || promo_open now (decode (promo_view m))
