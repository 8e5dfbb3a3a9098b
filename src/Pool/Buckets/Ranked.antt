-- ===== src/Pool/Buckets/Ranked.antt =====
-- The refusals of a pass in internal/pool/acquire.go in one list, and which of them outrank which.
use freebuff_proxy_scaleway.Base.{
  ℕ, zero, suc, ◌≡◌, ◌≢◌, refl, ap, ◌⊎◌, inl, inr, String, Bool, true, false, some, List, [], ◌∷◌,
  ◌++◌, map, ltb, get_elem?, some_inj, arith, Bool-cases, not, ◌&&◌,
}
use freebuff_proxy_scaleway.Base.Lists.{All}
use freebuff_proxy_scaleway.Base.Eq.{◌==◌, String_eq}
use freebuff_proxy_scaleway.Upstream.Errors.{RateLimitError}
use freebuff_proxy_scaleway.Pool.Quota.{is_quota_exhausted_error}
use freebuff_proxy_scaleway.Pool.Buckets.{
  Buckets, Outcome, ban, country, model_ip, fallback, rate, capped, scarce, waiting_room, daily,
  unable, better_wait, all_quota_capped, fallback_model,
}

all_quota_capped-All :
    (es : List RateLimitError)
    → all_quota_capped es ≡ true
    → All (λ e. is_quota_exhausted_error e ≡ true) es
unfolding all_quota_capped
all_quota_capped-All [] h = tt
all_quota_capped-All (e ∷ es) h = elim (Bool-cases (is_quota_exhausted_error e)) [
  | inl k ↦ (k, all_quota_capped-All es (ground (arith, h, k)))
  | inr k ↦ absurd (ground (arith, h, k))
]

All-quota_capped :
    (es : List RateLimitError)
    → All (λ e. is_quota_exhausted_error e ≡ true) es
    → all_quota_capped es ≡ true
unfolding all_quota_capped
All-quota_capped [] h = refl
All-quota_capped (e ∷ es) h = ground (arith, h.0, All-quota_capped es h.1)

-- Every refusal of a pass, as it would be surfaced.
abbrev pub collected : String → List RateLimitError → Buckets → List Outcome
collected model limited b =
    map ban b.banned
    ++ (map country b.country_blocked
        ++ (map model_ip b.model_limited
            ++ (map rate (b.rate_limited ++ limited)
                ++ (map capped b.ip_capped
                    ++ (map (λ t. scarce (record { model = model; expires_at = t })) b.scarce_until
                        ++ (map waiting_room b.waiting ++ map daily b.daily_limited))))))

-- How grave a refusal is: the smaller, the graver.
abbrev pub rank : Outcome → ℕ
rank (ban e) = 0
rank (country e) = 1
rank (model_ip e) = 2
rank (fallback fb) = 3
rank (rate e) = 3
rank (capped e) = 4
rank (scarce e) = 5
rank (waiting_room w) = 6
rank (daily e) = 7
rank unable = 8

-- A refusal outranks a less grave one. Of two rate limits, daily caps or scarce sessions the one that
-- ends sooner outranks the other, of two waiting rooms the one with the better place.
abbrev pub outranks : Outcome → Outcome → Bool
outranks (rate e) (rate f) = ltb e.retry_after f.retry_after
outranks (daily e) (daily f) = ltb e.retry_after f.retry_after
outranks (scarce e) (scarce f) = ltb e.expires_at f.expires_at
outranks (waiting_room v) (waiting_room w) = better_wait v w
outranks o p = ltb (rank o) (rank p)

abbrev pub IsIn : Outcome → List Outcome → Type 0
IsIn a [] = ⊥
IsIn a (x ∷ xs) = (x ≡ a) ⊎ IsIn a xs

-- The rate limits of the pass are exhausted quotas, and the fallback model is configured and another.
abbrev pub Falls : List (String × String) → String → List RateLimitError → Type 0
Falls table model rates =
    All (λ e. is_quota_exhausted_error e ≡ true) rates
    × (fallback_model table model ≢ "")
    × (fallback_model table model ≢ model)

-- What an outcome needs: the configured fallback model serves exactly in place of a rate limit, the
-- combined error stands for no refusal, and any other outcome was collected.
abbrev pub IsGrounded :
    List (String × String) → String → List RateLimitError → List Outcome → Outcome → Type 0
IsGrounded table model rates all (fallback fb) =
    (rates ≢ []) × (fb ≡ fallback_model table model) × Falls table model rates
IsGrounded table model rates all (rate e) = IsIn (rate e) all × (¬ Falls table model rates)
IsGrounded table model rates all unable = all ≡ []
IsGrounded table model rates all o = IsIn o all

abbrev pub IsSurfaced :
    List (String × String) → String → List RateLimitError → List Outcome → Outcome → Type 0
IsSurfaced table model rates all o =
    All (λ x. outranks x o ≡ false) all × IsGrounded table model rates all o

pub left-IsIn : (a : Outcome) (xs ys : List Outcome) → IsIn a xs → IsIn a (xs ++ ys)
left-IsIn a [] ys h = absurd h
left-IsIn a (x ∷ xs) ys (inl e) = inl e
left-IsIn a (x ∷ xs) ys (inr h) = inr (left-IsIn a xs ys h)

pub right-IsIn : (a : Outcome) (xs ys : List Outcome) → IsIn a ys → IsIn a (xs ++ ys)
right-IsIn a [] ys h = h
right-IsIn a (x ∷ xs) ys h = inr (right-IsIn a xs ys h)

module _ {A : Type 0} (f : A → Outcome) where
  pub at-IsIn :
      (a : A) (xs : List A) → ((k : ℕ) × (get_elem? xs k ≡ some a)) → IsIn (f a) (map f xs)
  at-IsIn a [] (k, e) = cc
  at-IsIn a (x ∷ xs) (zero, e) = inl (ap f (some_inj e))
  at-IsIn a (x ∷ xs) (suc k, e) = inr (at-IsIn a xs (k, e))

  module _ (P : Outcome → Type 0) where
    pub all_of : (xs : List A) → All (λ a. P (f a)) xs → All P (map f xs)
    all_of [] a = tt
    all_of (x ∷ xs) a = (a.0, all_of xs a.1)

    pub all_any : ((a : A) → P (f a)) → (xs : List A) → All P (map f xs)
    all_any h [] = tt
    all_any h (x ∷ xs) = (h x, all_any h xs)

    pub all_none : (xs : List A) → xs ≡ [] → All P (map f xs)
    all_none xs e = rw e tt

-- The test of the source.
abbrev pub falls : List (String × String) → String → List RateLimitError → Bool
falls table model es =
    let fb = fallback_model table model in
    all_quota_capped es && not (fb == "") && not (fb == model)

pub falls-Falls :
    (table : List (String × String)) (model : String) (es : List RateLimitError)
    → falls table model es ≡ true
    → Falls table model es
falls-Falls table model es h = (
  all_quota_capped-All es (ground (arith, h)),
  λ k. ground (arith, h, k, String_eq.same_iff (fallback_model table model) ""),
  λ k. ground (arith, h, k, String_eq.same_iff (fallback_model table model) model),
)

pub Falls-falls :
    (table : List (String × String)) (model : String) (es : List RateLimitError)
    → Falls table model es
    → falls table model es ≡ true
Falls-falls table model es (all, named, other) = ground (
  arith,
  All-quota_capped es all,
  named,
  other,
  String_eq.same_iff (fallback_model table model) "",
  String_eq.same_iff (fallback_model table model) model,
)
