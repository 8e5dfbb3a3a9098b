-- ===== src/Pool/Tests.antt =====
-- Runs of internal/pool, and instances of its theorems.
use freebuff_proxy_scaleway.Base.{
  ℕ, ◌+◌, ◌*◌, ◌≤◌, ◌<◌, ◌≡◌, refl, String, true, false, none, some, List, [], ◌∷◌, ◌++◌, ltb, leb,
  ◌||◌, if◌then◌else◌, length, arith,
}
use freebuff_proxy_scaleway.Base.Lists.{Pairwise}
use freebuff_proxy_scaleway.Base.Time.{hour}
use freebuff_proxy_scaleway.Base.Eq.{◌==◌, String_eq}
use freebuff_proxy_scaleway.Base.Map.{lookup}
use freebuff_proxy_scaleway.Upstream.Errors.{RateLimitError, LimitedIpError}
use freebuff_proxy_scaleway.Session.Snapshot.{
  SessionSnapshot, QuotaSnapshot, one_session, has_glm_entitlement, usable, matches_model,
}
use freebuff_proxy_scaleway.Pool.Quota.{quota_remaining, is_quota_exhausted_error}
use freebuff_proxy_scaleway.Pool.Usage.{usage_count, usage_reset_in}
use freebuff_proxy_scaleway.Pool.Usage.Window.{recent}
use freebuff_proxy_scaleway.Pool.Usage.History.{
  Call, sent, counted, perform, counts, sent_on, usage_count-counts, usage_reset_in-falls,
}
use freebuff_proxy_scaleway.Pool.Unfit.{clear_model_unfit_before, mark_model_unfit, model_unfit_ttl}
use freebuff_proxy_scaleway.Pool.Unfit.Marks.{answer, stamped, marked_until}
use freebuff_proxy_scaleway.Pool.Order.{TokenEntry, View, eligible, acquire_order}
use freebuff_proxy_scaleway.Base.Counts.{occurrences}
use freebuff_proxy_scaleway.Pool.Order.Members.{is_eligible, any_eligible, acquire_order_once}
use freebuff_proxy_scaleway.Pool.Order.Ranked.{MayPrecede, acquire_order_ranked}
use freebuff_proxy_scaleway.Pool.Buckets.{WaitingRoomError, Buckets, no_refusals, fallback, surface}
use freebuff_proxy_scaleway.Pool.Buckets.Ranked.{IsSurfaced, collected}
use freebuff_proxy_scaleway.Pool.Buckets.Surface.{surface-IsSurfaced}
use freebuff_proxy_scaleway.Runs.Cooldown.{cleared}

abbrev calls : List Call
calls = sent 0 9 ∷ counted 0 8 ∷ sent 1 7 ∷ sent 0 5 ∷ []

usage_count-counts_example :
    (usage_count 20 0 (counts 2 calls)).1 ≡ length (recent 20 (sent_on 0 calls))
usage_count-counts_example =
    usage_count-counts 2 0 calls 20 (omega arith) (omega arith) (omega arith)

usage_reset_in-falls_example :
    let (msgs, count) = usage_count 20 0 (counts 2 calls) in
    let reset = 20 + usage_reset_in 20 0 msgs in
    (21 ≤ reset → (usage_count 21 0 msgs).1 ≡ count)
    × (reset < 21 → (usage_count 21 0 msgs).1 < count)
unfolding usage_count perform
usage_reset_in-falls_example =
    usage_reset_in-falls 2 0 calls 20 21 (omega arith) (omega arith) (omega arith) (omega arith)
      (omega arith)

abbrev quota : QuotaSnapshot
quota = record {
  limit = one_session;
  recent_count = one_session;
  reset_at = 50;
  period = "pacific_day";
}

abbrev session : String → List (String × QuotaSnapshot) → SessionSnapshot
session model quotas = record {
  status = "active";
  instance_id = "i";
  model = model;
  refreshing = false;
  expires_at = 2 * hour;
  grace_period_ends_at = 0;
  quota_by_model = quotas;
  entitlement = [];
  glm_promo = none;
}

abbrev spent : SessionSnapshot
spent = session "luna" (("luna", quota) ∷ [])

abbrev lie : LimitedIpError
lie = record { model = ""; retry_after = 3; body = "no" }

marked_until_example :
    answer 20 "m" (clear_model_unfit_before "m" 4 (mark_model_unfit 5 "m" (some lie) [])) ≡ (
      if ◌==◌ {K = String} "m" "m"
      then (if leb 5 4 || leb (5 + model_unfit_ttl) 20
          then (0, none)
          else (5 + model_unfit_ttl, stamped "m" (some lie)))
      else answer 20 "m" [])
marked_until_example = marked_until 5 4 20 "m" "m" (some lie) []

-- Token 0 is cold, 1 and 2 hold a session of the model, 3 is spent, 4 is locked.
abbrev toks : List TokenEntry
toks =
    record { session = record (session "" []) { instance_id = "" }; runs = cleared; locked = false }
    ∷ record { session = session "luna" []; runs = cleared; locked = false }
    ∷ record { session = session "luna" []; runs = cleared; locked = false }
    ∷ record { session = spent; runs = cleared; locked = false }
    ∷ record { session = session "luna" []; runs = cleared; locked = true }
    ∷ []

abbrev view : View
view = record { now = 10; model = "luna"; admitting = none; last_used = some 2 }

order_run : (acquire_order view toks 3).0 ≡ 2 ∷ 1 ∷ 0 ∷ []
unfolding acquire_order eligible quota_remaining has_glm_entitlement usable matches_model lookup
order_run = refl

acquire_order_once_example : occurrences 1 (acquire_order view toks 3).0 ≡ (
    if any_eligible view toks
    then (if is_eligible view toks 1 then 1 else 0)
    else (if ltb 1 (length toks) then 1 else 0))
acquire_order_once_example = acquire_order_once view toks 3 1 (omega arith)

acquire_order_ranked_example : Pairwise (MayPrecede view toks) (acquire_order view toks 3).0
unfolding eligible quota_remaining has_glm_entitlement lookup
acquire_order_ranked_example = acquire_order_ranked view toks 3 (omega arith) refl

abbrev room : ℕ → ℕ → WaitingRoomError
room position depth = record { position = position; queue_depth = depth; retry_after = 1 }

abbrev limit : ℕ → RateLimitError
limit retry = record {
  status = "rate_limited";
  model = "luna";
  retry_after = retry;
  limit = 1;
  recent_count = 1;
  reset_at = 50;
  period = "";
  window = "";
  body = "";
}

abbrev table : List (String × String)
table = ("luna", "mimo") ∷ []

abbrev pass : Buckets
pass = record no_refusals { rate_limited = limit 9 ∷ [] }

surface-IsSurfaced_example :
    IsSurfaced table "luna"
      (pass.rate_limited ++ limit 3 ∷ [])
      (collected "luna" (limit 3 ∷ []) pass)
      (surface table "luna" (limit 3 ∷ []) pass)
surface-IsSurfaced_example = surface-IsSurfaced table "luna" (limit 3 ∷ []) pass

-- Both rate limits are exhausted quotas, so that the fallback model serves.
falls_back : surface table "luna" (limit 3 ∷ []) pass ≡ fallback "mimo"
unfolding surface is_quota_exhausted_error lookup no_refusals
falls_back = refl
