-- ===== src/Pool/Failover/Tests.antt =====
-- Runs of the failover loop of internal/pool/acquire.go, and instances of its theorems.
use freebuff_proxy_scaleway.Base.{
  ℕ, ◌≤◌, ◌≡◌, refl, inr, false, true, none, some, [], ◌∷◌, nat_eq, if◌then◌else◌, arith,
}
use freebuff_proxy_scaleway.Base.Eq.{String_eq}
use freebuff_proxy_scaleway.Base.Map.{lookup, insert, delete}
use freebuff_proxy_scaleway.Session.Snapshot.{
  SessionSnapshot, usable, matches_model, has_glm_entitlement,
}
use freebuff_proxy_scaleway.Runs.Cooldown.{
  cleared, clear_cooldowns, cooldown, cooldown_rate_limit, cooldown_ip_capped, cooldown_ban,
  cooldown_country_blocked,
}
use freebuff_proxy_scaleway.Runs.Cooldown.Invariant.{cleared-IsConsistent}
use freebuff_proxy_scaleway.Pool.Usage.{usage_count}
use freebuff_proxy_scaleway.Pool.Quota.{quota_remaining}
use freebuff_proxy_scaleway.Pool.Scarce.{scarce_held}
use freebuff_proxy_scaleway.Pool.Order.{TokenEntry}
use freebuff_proxy_scaleway.Base.Counts.{occurrences}
use freebuff_proxy_scaleway.Pool.Buckets.{no_refusals}
use freebuff_proxy_scaleway.Pool.Refusals.{
  Attempt, Pass, Lease, Progress, going, leased, stopped, panicked, Request,
}
use freebuff_proxy_scaleway.Pool.Failover.{lease_from_order, follower_order, without, lead}
use freebuff_proxy_scaleway.Pool.Failover.Safety.{After}
use freebuff_proxy_scaleway.Pool.Failover.Served.{IsServed, leased-IsServed, unleased_unserved}
use freebuff_proxy_scaleway.Pool.Failover.Follow.{followers_try_zero}
use freebuff_proxy_scaleway.Pool.Failover.Consistent.{AllConsistent, lease_from_order-AllConsistent}

abbrev idle : SessionSnapshot
idle = record {
  status = "";
  instance_id = "";
  model = "";
  refreshing = false;
  expires_at = 0;
  grace_period_ends_at = 0;
  quota_by_model = [];
  entitlement = [];
  glm_promo = none;
}

abbrev token : TokenEntry
token = record { session = idle; runs = cleared; locked = false }

-- Token 0 is locked, token 1 is free.
abbrev start : Pass
start = record {
  tokens = record token { locked = true } ∷ token ∷ [];
  msgs = [] ∷ [] ∷ [];
  spend_limited = 0 ∷ 0 ∷ [];
  unfit = [];
  admissions = [];
  last_token_by_model = [];
  buckets = no_refusals;
}

abbrev request : Request
request = record {
  texts = record {
    rate_limit_text = λ e. e.body;
    ip_capped_text = λ e. e.body;
    ban_text = λ e. e.body;
    country_blocked_text = λ e. e.country_code;
  };
  now = 10;
  reset = 90;
  model = "m";
  max_messages_per_day = 5;
  scarce_models = [];
}

-- Every token is answered but the one named.
abbrev world : ℕ → ℕ → Attempt
world refused i = record {
  cancelled = false;
  gate_refused = false;
  admission =
      if nat_eq i refused
      then some (record {
        auth_rejected = true;
        waiting = none;
        rate_limit = none;
        ip_capped = none;
        ban = none;
        country_blocked = none;
        limited_ip = none;
      })
      else none;
  session = record idle { model = "m" };
  current = true;
  run = inr 7;
  draw = 0;
}

abbrev pass_of : Progress → Pass
pass_of (going p) = p
pass_of (leased p l) = p
pass_of (stopped p) = p
pass_of panicked = start

abbrev won : Lease
won = record { token = 1; model = "m"; run = 7 }

led :
    lease_from_order request (world 5) (0 ∷ 1 ∷ []) (lead "m" start)
    ≡ leased (pass_of (lease_from_order request (world 5) (0 ∷ 1 ∷ []) (lead "m" start))) won
unfolding lease_from_order lead cleared clear_cooldowns usable matches_model has_glm_entitlement
    quota_remaining lookup insert delete usage_count scarce_held
led = refl

failed :
    lease_from_order request (world 1) (0 ∷ 1 ∷ []) start
    ≡ going (pass_of (lease_from_order request (world 1) (0 ∷ 1 ∷ []) start))
unfolding lease_from_order lead cleared clear_cooldowns usable matches_model has_glm_entitlement
    quota_remaining lookup insert delete usage_count scarce_held cooldown cooldown_rate_limit
    cooldown_ip_capped cooldown_ban cooldown_country_blocked
failed = refl

once : (i : ℕ) → occurrences i (0 ∷ 1 ∷ []) ≤ 1
once i = ground arith

leased-IsServed_example :
    (occurrences 1 (0 ∷ 1 ∷ []) ≡ 1) × IsServed request (world 5) (lead "m" start) won
leased-IsServed_example =
    leased-IsServed request (world 5) (0 ∷ 1 ∷ []) (lead "m" start)
      (pass_of (lease_from_order request (world 5) (0 ∷ 1 ∷ []) (lead "m" start))) won once led

unleased_unserved_example : ¬ IsServed request (world 1) start won
unleased_unserved_example =
    unleased_unserved request (world 1) (0 ∷ 1 ∷ []) start
      (pass_of (lease_from_order request (world 1) (0 ∷ 1 ∷ []) start)) won once (λ i. refl) failed
      (omega arith)

followers_try_zero_example :
    follower_order "m"
      (pass_of (lease_from_order request (world 5) (0 ∷ 1 ∷ []) (lead "m" start))).admissions
      (1 ∷ [])
    ≡ 0 ∷ without 0 (1 ∷ [])
followers_try_zero_example =
    followers_try_zero request (world 5) (0 ∷ 1 ∷ []) (1 ∷ []) (lead "m" start)
      (pass_of (lease_from_order request (world 5) (0 ∷ 1 ∷ []) (lead "m" start))) won led

lease_from_order-AllConsistent_example :
    After AllConsistent (lease_from_order request (world 1) (0 ∷ 1 ∷ []) start)
lease_from_order-AllConsistent_example =
    lease_from_order-AllConsistent request (world 1) (0 ∷ 1 ∷ []) start
      (cleared-IsConsistent, (cleared-IsConsistent, tt))
