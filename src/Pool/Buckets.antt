-- ===== src/Pool/Buckets.antt =====
-- The refusals that a pass over the tokens collects, and the one that it returns, in
-- internal/pool/acquire.go and the end of internal/pool/pool.go. A position of a waiting room that
-- is not positive is 0. The texts of the errors are parameters: only their equality matters.
pub mod Best
pub mod Ranked
pub mod Surface
use freebuff_proxy_scaleway.Base.{
  ℕ, String, Bool, true, false, ◌&&◌, not, Option, none, some, List, [], ◌∷◌, ◌++◌, ltb, leb,
  nat_eq, if◌then◌else◌,
}
use freebuff_proxy_scaleway.Base.Eq.{◌==◌, String_eq}
use freebuff_proxy_scaleway.Base.Map.{lookup}
use freebuff_proxy_scaleway.Upstream.Errors.{
  RateLimitError, BanError, CountryBlockedError, IpCappedError, LimitedIpError,
}
use freebuff_proxy_scaleway.Runs.Cooldown.{
  Cooldowns, rate_limit_error, ban_error, country_blocked_error, ip_capped_error,
}
use freebuff_proxy_scaleway.Pool.Quota.{is_quota_exhausted_error}
use freebuff_proxy_scaleway.Pool.Scarce.{ScarceSessionError}

pub record WaitingRoomError : Type 0 where
  pub position : ℕ
  pub queue_depth : ℕ
  pub retry_after : ℕ

pub better_wait : WaitingRoomError → WaitingRoomError → Bool
better_wait a b =
    if leb a.position 0
    then false
    else if leb b.position 0
    then true
    else if not (nat_eq a.position b.position)
    then ltb a.position b.position
    else ltb a.queue_depth b.queue_depth

-- The loops of `bestWaitingRoom`, `bestRateLimit` and `bestDailyLimit`, from the first entry on.
pub best_waiting_room : WaitingRoomError → List WaitingRoomError → WaitingRoomError
unfolding better_wait
best_waiting_room best [] = best
best_waiting_room best (w ∷ ws) = best_waiting_room (if better_wait w best then w else best) ws

pub best_rate_limit : RateLimitError → List RateLimitError → RateLimitError
best_rate_limit best [] = best
best_rate_limit best (e ∷ es) =
    best_rate_limit (if ltb e.retry_after best.retry_after then e else best) es

pub best_daily_limit : RateLimitError → List RateLimitError → RateLimitError
best_daily_limit best [] = best
best_daily_limit best (e ∷ es) =
    best_daily_limit (if ltb e.retry_after best.retry_after then e else best) es

pub earliest_scarce : ℕ → List ℕ → ℕ
earliest_scarce best [] = best
earliest_scarce best (t ∷ ts) = earliest_scarce (if ltb t best then t else best) ts

pub record Buckets : Type 0 where
  pub waiting : List WaitingRoomError
  pub rate_limited : List RateLimitError
  pub ip_capped : List IpCappedError
  pub banned : List BanError
  pub country_blocked : List CountryBlockedError
  pub model_limited : List LimitedIpError
  pub daily_limited : List RateLimitError
  pub scarce_until : List ℕ

unfoldable pub no_refusals : Buckets
no_refusals = record {
  waiting = [];
  rate_limited = [];
  ip_capped = [];
  banned = [];
  country_blocked = [];
  model_limited = [];
  daily_limited = [];
  scarce_until = [];
}

-- How `Error()` renders the refusals that a pass keeps once each.
pub record Texts : Type 0 where
  pub rate_limit_text : RateLimitError → String
  pub ip_capped_text : IpCappedError → String
  pub ban_text : BanError → String
  pub country_blocked_text : CountryBlockedError → String

-- The loop over `existing`, and the append if none has the same text.
abbrev pub is_dup {ℓ} : {A : Type ℓ} → (A → String) → A → List A → Bool
is_dup text e [] = false
is_dup text e (x ∷ xs) = if text x == text e then true else is_dup text e xs

pub append_new {ℓ} : {A : Type ℓ} → (A → String) → A → List A → List A
append_new text e es = if is_dup text e es then es else es ++ e ∷ []

abbrev pub append_some {ℓ} : {A : Type ℓ} → (A → String) → Option A → List A → List A
append_some text none es = es
append_some text (some e) es = append_new text e es

-- The refusals that a token in its cooldown remembers.
pub remember : Texts → ℕ → Cooldowns → Buckets → Buckets
unfolding append_new
remember t now m b = record b {
  banned = append_some t.ban_text (ban_error now m) b.banned;
  country_blocked =
      append_some t.country_blocked_text (country_blocked_error now m) b.country_blocked;
  rate_limited = append_some t.rate_limit_text (rate_limit_error now m) b.rate_limited;
  ip_capped = append_some t.ip_capped_text (ip_capped_error now m) b.ip_capped;
}

-- What the end of a pass returns; `fallback` goes on with another model, `unable` is the combined
-- error.
pub data Outcome : Type 0 where
  ban : BanError → Outcome
  country : CountryBlockedError → Outcome
  model_ip : LimitedIpError → Outcome
  fallback : String → Outcome
  rate : RateLimitError → Outcome
  capped : IpCappedError → Outcome
  scarce : ScarceSessionError → Outcome
  waiting_room : WaitingRoomError → Outcome
  daily : RateLimitError → Outcome
  unable : Outcome

pub all_quota_capped : List RateLimitError → Bool
all_quota_capped [] = true
all_quota_capped (e ∷ es) =
    let rest = all_quota_capped es in if not (is_quota_exhausted_error e) then false else rest

pub fallback_model : List (String × String) → String → String
fallback_model table model = elim (lookup model table) [ none ↦ "" | some fb ↦ fb ]

pub surface_rate : List (String × String) → String → RateLimitError → List RateLimitError → Outcome
unfolding all_quota_capped fallback_model best_rate_limit
surface_rate table model e es =
    let fb = fallback_model table model in
    if all_quota_capped (e ∷ es) && not (fb == "") && not (fb == model)
    then fallback fb
    else rate (best_rate_limit e es)

-- The rest of the precedence, below the rate limits.
pub surface_rest : String → Buckets → Outcome
unfolding best_waiting_room best_daily_limit earliest_scarce
surface_rest model b = elim b.ip_capped [
  | ice ∷ more ↦ capped ice
  | [] ↦ elim b.scarce_until [
    | t ∷ ts ↦ scarce (record { model = model; expires_at = earliest_scarce t ts })
    | [] ↦ elim b.waiting [
      | w ∷ ws ↦ waiting_room (best_waiting_room w ws)
      | [] ↦ elim b.daily_limited [ e ∷ es ↦ daily (best_daily_limit e es) | [] ↦ unable ]
    ]
  ]
]

unfoldable pub surface : List (String × String) → String → List RateLimitError → Buckets → Outcome
unfolding surface_rate surface_rest
surface table model quota_limited b = elim b.banned [
  | be ∷ more ↦ ban be
  | [] ↦ elim b.country_blocked [
    | cbe ∷ more ↦ country cbe
    | [] ↦ elim b.model_limited [
      | lie ∷ more ↦ model_ip lie
      | [] ↦ elim (b.rate_limited ++ quota_limited) [
        | e ∷ es ↦ surface_rate table model e es
        | [] ↦ surface_rest model b
      ]
    ]
  ]
]
