-- ===== src/Pool/Quota/Verdict.antt =====
-- What `quotaRemaining` of internal/pool/quota.go decides, and the refusal that goes with it.
use freebuff_proxy_scaleway.Base.{
  ℕ, ◌+◌, ◌≤◌, ◌<◌, ◌≡◌, ap, ◌∙◌, ◌↔◌, ◌⊎◌, inl, inr, String, true, false, some, arith,
  Option-cases,
}
use freebuff_proxy_scaleway.Base.Text.{contains_text, contains_prefix}
use freebuff_proxy_scaleway.Base.Eq.{String_eq}
use freebuff_proxy_scaleway.Base.Map.{lookup}
use freebuff_proxy_scaleway.Session.Snapshot.{SessionSnapshot, QuotaSnapshot, has_glm_entitlement}
use freebuff_proxy_scaleway.Pool.Quota.{
  quota_of, quota_remaining, quota_limit_error, is_quota_exhausted_error, is_referral_gated_model,
  referral_gated_model,
}
use text.Mathlib.Text.{starts_with}
use text.Mathlib.TextPositions.{starts_with-append}
use text.Mathlib.TextLemmas.{append_assoc}
use Prim.Native.String.{◌++◌ as concat}

-- The quota is used up and its window has not rolled over.
pub record IsSpent (now : ℕ) (q : QuotaSnapshot) : Type 0 where
  pub limited : 0 < q.limit
  pub used : q.limit ≤ q.recent_count
  pub closed : now < q.reset_at

abbrev pub IsCapped : ℕ → SessionSnapshot → String → Type 0
IsCapped now snap model =
    ((model ≡ referral_gated_model) × (has_glm_entitlement now snap ≡ false))
    ⊎ ((q : QuotaSnapshot) × (lookup model snap.quota_by_model ≡ some q) × IsSpent now q)

gated_body :
    (model : String)
    → contains_text
        (concat "referral entitlement required for " model)
        "referral entitlement required"
      ≡ true
gated_body model =
    contains_prefix (concat "referral entitlement required for " model)
      "referral entitlement required"
      (ap (λ s. starts_with s "referral entitlement required")
          (append_assoc "referral entitlement required" " for " model)
        ∙ starts_with-append "referral entitlement required" (concat " for " model))

-- The verdict on a token: it is capped exactly when the model's quota is used up in a window that is
-- still open, or the referral model lacks its entitlement; a known quota is not capped and leaves
-- something, and while less than the limit is used exactly the rest is left.
pub quota_remaining_lem :
    (now : ℕ) (snap : SessionSnapshot) (model : String)
    → let r = quota_remaining now snap model in
      ((r.capped ≡ true) ↔ IsCapped now snap model)
      × (r.known ≡ true → (r.capped ≡ false) × (0 < r.remaining))
      × ((q : QuotaSnapshot)
          → lookup model snap.quota_by_model ≡ some q
          → q.recent_count < q.limit
          → r.capped ≡ false
          → (r.known ≡ true) × (r.remaining + q.recent_count ≡ q.limit))
unfolding quota_remaining is_referral_gated_model quota_of
quota_remaining_lem now snap model = elim (Option-cases (lookup model snap.quota_by_model)) [
  | inl e ↦ ground (arith, e, String_eq.same_iff model referral_gated_model)
  | inr (q, e) ↦ ground (arith, e, String_eq.same_iff model referral_gated_model)
]

-- The refusal of a capped token counts as an exhausted quota, so that the fallback model may serve;
-- if the quota is used up it names the rest of the window.
quota_limit_error_lem :
    (now : ℕ) (snap : SessionSnapshot) (model : String)
    → (quota_remaining now snap model).capped ≡ true
    → let e = quota_limit_error now snap model in
      (is_quota_exhausted_error e ≡ true)
      × (e.model ≡ model)
      × ((q : QuotaSnapshot)
          → lookup model snap.quota_by_model ≡ some q
          → now < q.reset_at
          → now + e.retry_after ≡ q.reset_at)
unfolding quota_limit_error is_quota_exhausted_error is_referral_gated_model
quota_limit_error_lem now snap model capped =
    let verdict = (quota_remaining_lem now snap model).0.0 capped in
    elim (Option-cases (lookup model snap.quota_by_model)) [
      | inl e ↦
          ground
            (arith, e, verdict, String_eq.same_iff model referral_gated_model, gated_body model)
      | inr (q, e) ↦
          ground
            (arith, e, verdict, String_eq.same_iff model referral_gated_model, gated_body model)
    ]
