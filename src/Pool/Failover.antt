-- ===== src/Pool/Failover.antt =====
-- The failover loop `leaseFromOrder` of internal/pool/acquire.go; the best-effort `Precreate` is left
-- out.
pub mod Safety
pub mod Served
pub mod Follow
pub mod Consistent
mod Tests
use freebuff_proxy_scaleway.Base.{
  ℕ, ◌+◌, ◌*◌, String, Bool, true, false, ◌&&◌, ◌||◌, not, Option, none, some, List, [], ◌∷◌, ◌++◌,
  ltb, leb, nat_eq, if◌then◌else◌, get_elem?, set, ◌⊎◌, inl, inr,
}
use freebuff_proxy_scaleway.Base.Time.{minute}
use freebuff_proxy_scaleway.Base.Eq.{◌==◌, String_eq}
use freebuff_proxy_scaleway.Base.Map.{lookup, insert, delete}
use freebuff_proxy_scaleway.Upstream.Errors.{
  RateLimitError, BanError, CountryBlockedError, IpCappedError, LimitedIpError,
}
use freebuff_proxy_scaleway.Session.Snapshot.{SessionSnapshot, one_session}
use freebuff_proxy_scaleway.Runs.Cooldown.{
  Cooldowns, cooldown, clear_cooldowns, cooldown_rate_limit, cooldown_ip_capped, cooldown_ban,
  cooldown_country_blocked, rate_limit_error,
}
use freebuff_proxy_scaleway.Pool.Quota.{
  quota_remaining, quota_limit_error, is_quota_exhausted_error,
}
use freebuff_proxy_scaleway.Pool.Scarce.{scarce_held}
use freebuff_proxy_scaleway.Pool.Usage.{usage_count, usage_reset_in}
use freebuff_proxy_scaleway.Pool.Unfit.{UnfitEntry, mark_model_unfit}
use freebuff_proxy_scaleway.Pool.Order.{TokenEntry}
use freebuff_proxy_scaleway.Pool.Buckets.{
  WaitingRoomError, Buckets, Texts, append_new, append_some, remember,
}
use freebuff_proxy_scaleway.Pool.Refusals.{
  Refusal, Attempt, Pass, Lease, Progress, going, leased, stopped, panicked, Request, set_runs,
  refuse_run, refuse_admission, forget_admission,
}

-- A token whose cooldown is another model's exhausted quota still serves this model.
pub serves_other : Request → Cooldowns → Bool
serves_other q m = elim (rate_limit_error q.now m) [
  | none ↦ false
  | some rle ↦ not (rle.model == "") && not (rle.model == q.model) && is_quota_exhausted_error rle
]

pub is_cooling : Request → TokenEntry → Bool
unfolding serves_other
is_cooling q tok = ltb q.now tok.runs.cooldown_until && not (serves_other q tok.runs)

pub at_daily_limit : Request → ℕ → List (List ℕ) → Bool
at_daily_limit q idx msgs =
    ltb 0 q.max_messages_per_day && leb q.max_messages_per_day (usage_count q.now idx msgs).1

pub daily_limit_error : Request → ℕ → List (List ℕ) → RateLimitError
daily_limit_error q idx msgs = record {
  status = "";
  model = "";
  retry_after = usage_reset_in q.now idx msgs;
  limit = q.max_messages_per_day * one_session;
  recent_count = (usage_count q.now idx msgs).1 * one_session;
  reset_at = 0;
  period = "";
  window = "";
  body = "daily message limit reached";
}

abbrev pub effective_model : String → SessionSnapshot → String
effective_model model ss =
    if not (ss.model == "") && not (ss.model == model) then ss.model else model

-- After a successful admission: the run, or its refusal.
pub start_run : Request → ℕ → TokenEntry → Attempt → Pass → Progress
unfolding refuse_run
start_run q idx tok a p =
    let ready = record tok { session = a.session; runs = clear_cooldowns tok.runs } in
    let cleared = record p { tokens = set p.tokens idx ready } in
    let model = effective_model q.model a.session in
    let outcome : Progress = elim a.run [
      | inl r ↦ refuse_run q idx ready a.draw r cleared
      | inr run ↦
          leased (record cleared { last_token_by_model = insert model idx p.last_token_by_model })
            (record { token = idx; model = model; run = run })
    ] in
    if not a.current then going cleared else outcome

-- The attempt on a token that no test skips.
pub attempt : Request → ℕ → TokenEntry → Attempt → Pass → Progress
unfolding refuse_admission forget_admission start_run
attempt q idx tok a p =
    let p₁ = record p {
      admissions = forget_admission q.model idx (insert q.model (some idx) p.admissions);
    } in
    let outcome : Progress = elim a.admission [
      | some r ↦
          let tok' = record tok { session = a.session } in
          refuse_admission q idx tok' a.draw r (record p₁ { tokens = set p₁.tokens idx tok' })
      | none ↦ start_run q idx tok a p₁
    ] in
    if a.gate_refused then stopped p₁ else outcome

-- The tests that skip a token, in their order.
pub try_token : Request → ℕ → TokenEntry → Attempt → Pass → Progress
unfolding is_cooling at_daily_limit daily_limit_error attempt
try_token q idx tok a p =
    let b = p.buckets in
    let counted : List (List ℕ) =
      if ltb 0 q.max_messages_per_day then (usage_count q.now idx p.msgs).0 else p.msgs in
    let p₁ = record p { msgs = counted } in
    if tok.locked
    then going p
    else if is_cooling q tok
    then going (record p { buckets = remember q.texts q.now tok.runs b })
    else if at_daily_limit q idx p.msgs
    then going (record p₁ {
      buckets = record b {
        daily_limited = b.daily_limited ++ daily_limit_error q idx p₁.msgs ∷ [];
      };
    })
    else if scarce_held q.now tok.session q.model q.scarce_models
    then going (record p₁ {
      buckets = record b { scarce_until = b.scarce_until ++ tok.session.expires_at ∷ [] };
    })
    else if (quota_remaining q.now tok.session q.model).capped
    then going (record p₁ {
      buckets = record b {
        rate_limited = b.rate_limited ++ quota_limit_error q.now tok.session q.model ∷ [];
      };
    })
    else attempt q idx tok a p₁

pub visit : Request → (ℕ → Attempt) → ℕ → Pass → Progress
unfolding try_token
visit q world idx p =
    let outcome : Progress = elim (get_elem? p.tokens idx) [
      | none ↦ going p
      | some tok ↦ try_token q idx tok (world idx) p
    ] in
    if (world idx).cancelled then stopped p else outcome

-- The loop over the order.
pub lease_from_order : Request → (ℕ → Attempt) → List ℕ → Pass → Progress
unfolding visit
lease_from_order q world [] p = going p
lease_from_order q world (idx ∷ order) p = elim (visit q world idx p) [
  | going p' ↦ lease_from_order q world order p'
  | leased p' l ↦ leased p' l
  | stopped p' ↦ stopped p'
  | panicked ↦ panicked
]

-- The follower branch of `Acquire`: the token that a follower reads once the leader's channel is
-- closed. A missing key of `map[string]int` reads as 0; the sentinel -1 sends it to the normal path.
pub leader_token : String → List (String × Option ℕ) → Option ℕ
leader_token model admissions = elim (lookup model admissions) [
  | none ↦ some 0
  | some target ↦ target
]

abbrev pub without : ℕ → List ℕ → List ℕ
without i [] = []
without i (j ∷ js) = let rest = without i js in if not (nat_eq j i) then j ∷ rest else rest

pub follower_order : String → List (String × Option ℕ) → List ℕ → List ℕ
unfolding leader_token
follower_order model admissions order = elim (leader_token model admissions) [
  | none ↦ order
  | some leader ↦ leader ∷ without leader order
]

-- The leader's registration.
pub lead : String → Pass → Pass
lead model p = record p { admissions = insert model none p.admissions }
