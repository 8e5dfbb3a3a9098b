-- ===== src/Session/Snapshot.antt =====
-- The view of a token's session that the pool decides on, `SessionSnapshot` of
-- internal/session/session.go. A quota counts millionths of a session. The JSON object `GlmPromo` is
-- held decoded, with `none` for an empty or unreadable one, and its `endsAt` parsed.
use freebuff_proxy_scaleway.Base.{
  ℕ, ◌+◌, ◌*◌, String, Bool, true, false, ◌&&◌, ◌||◌, not, Option, none, some, List, ltb, nat_eq,
}
use freebuff_proxy_scaleway.Base.Time.{second}
use freebuff_proxy_scaleway.Base.Eq.{◌==◌, String_eq}
use freebuff_proxy_scaleway.Base.Map.{lookup}

abbrev pub expiry_margin : ℕ
expiry_margin = 5 * second

abbrev pub one_session : ℕ
one_session = 1_000_000

pub record QuotaSnapshot : Type 0 where
  pub limit : ℕ
  pub recent_count : ℕ
  pub reset_at : ℕ
  pub period : String

pub data PromoEnd : Type 0 where
  open_ended : PromoEnd
  ends : ℕ → PromoEnd
  unreadable : PromoEnd

pub record GlmPromo : Type 0 where
  pub daily_sessions : ℕ
  pub ends_at : PromoEnd

pub record SessionSnapshot : Type 0 where
  pub status : String
  pub instance_id : String
  pub model : String
  pub refreshing : Bool
  pub expires_at : ℕ
  pub grace_period_ends_at : ℕ
  pub quota_by_model : List (String × QuotaSnapshot)
  pub entitlement : List (String × ℕ)
  pub glm_promo : Option GlmPromo

-- `Usable`: active until the margin before its expiry, or in its grace window.
unfoldable pub usable : ℕ → SessionSnapshot → Bool
usable now s =
    not (s.instance_id == "")
    && ((s.status == "active"
          && not (nat_eq s.expires_at 0)
          && ltb (now + expiry_margin) s.expires_at)
        || (not (nat_eq s.grace_period_ends_at 0) && ltb now s.grace_period_ends_at))

-- `MatchesModel`.
unfoldable pub matches_model : SessionSnapshot → String → Bool
matches_model s model = model == "" || s.model == "" || s.model == model

abbrev pub referral_model : String
referral_model = "z-ai/glm-5.2"

unfoldable pub quota_open : ℕ → Option QuotaSnapshot → Bool
quota_open now none = false
quota_open now (some q) =
    ltb 0 q.limit
    && (ltb q.recent_count q.limit || (not (nat_eq q.reset_at 0) && ltb q.reset_at now))

unfoldable pub promo_open : ℕ → Option GlmPromo → Bool
promo_open now none = false
promo_open now (some p) =
    ltb 0 p.daily_sessions
    && elim p.ends_at [ open_ended ↦ true | ends t ↦ ltb now t | unreadable ↦ true ]

abbrev pub units : Option ℕ → ℕ
units none = 0
units (some n) = n

-- `HasGlmEntitlement`.
unfoldable pub has_glm_entitlement : ℕ → SessionSnapshot → Bool
unfolding quota_open promo_open
has_glm_entitlement now s =
    quota_open now (lookup referral_model s.quota_by_model)
    || promo_open now s.glm_promo
    || ltb 0 (units (lookup "glm" s.entitlement))
    || ltb 0 (units (lookup referral_model s.entitlement))
