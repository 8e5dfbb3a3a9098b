-- ===== src/Session/Tests.antt =====
-- A session of internal/session over its life: admitted, re-admitted, polled, refused.
use freebuff_proxy_scaleway.Base.{
  ℕ, ◌+◌, ◌*◌, ◌≤◌, ◌≡◌, ◌⊎◌, refl, String, true, false, Option, none, some, List, [], ◌∷◌, ◌++◌,
  inr, if◌then◌else◌, arith, All, leb, ap, sym, some_inj, ◌-◌,
}
use freebuff_proxy_scaleway.Base.Int.{pos}
use freebuff_proxy_scaleway.Base.Map.{lookup}
use freebuff_proxy_scaleway.Base.Time.{second, minute, hour}
use freebuff_proxy_scaleway.Session.Snapshot.{
  quota_open, promo_open, referral_model, GlmPromo, has_glm_entitlement,
}
use freebuff_proxy_scaleway.Session.Manager.{
  update_quota_from_probe, Manager, CachedState, Status, active, ended, model_locked, Quotas,
  reason_superseded, reason_409, commit, session_usable, re_admit_due, sent_create, sent_probe,
  sent_delete,
}
use freebuff_proxy_scaleway.Session.Manager.View.{snapshot, entitled}
use freebuff_proxy_scaleway.Session.Manager.Quotas.{
  Report, committed, report_all, IsFresh, snapshot-last, entitled-snapshot,
}
use freebuff_proxy_scaleway.Session.Storm.{record_invalidation}
use freebuff_proxy_scaleway.Session.Storm.History.{
  Mark, invalidated, triggered, mark_all, all_events, all_triggers, IsQuiet, last_logged,
}
use freebuff_proxy_scaleway.Session.Storm.Logged.{
  IsStorm, storm_summary, record_invalidation-summary,
}
use freebuff_proxy_scaleway.Session.Answer.{SessionState}
use freebuff_proxy_scaleway.Session.Refresh.{
  Round, refresh, refresh_rounds, refresh_round, act, call, admitted,
}
use freebuff_proxy_scaleway.Session.Refresh.Outcome.{IsReady, refresh-IsReady}
use freebuff_proxy_scaleway.Session.Refresh.Ride.{IsRidden, replaces, refresh_ridden}
use freebuff_proxy_scaleway.Session.Unavailable.{
  model_unavailable_short_circuit, model_unavailable_until,
}
use freebuff_proxy_scaleway.Session.Admission.{
  World, adopt_or_create, adopt_owner, create_session_for_model, ensure_entitled, probe_account,
}
use freebuff_proxy_scaleway.Session.Admission.Guard.{Requests, adopt_or_create-Requests}
use freebuff_proxy_scaleway.Session.Poll.{poll, poll_target}
use freebuff_proxy_scaleway.Session.Poll.Answered.{PolledRow, ends_session, poll-PolledRow}
use freebuff_proxy_scaleway.Session.Ensure.{Turn, enter, enter_on, serve}
use freebuff_proxy_scaleway.Session.Ensure.Once.{Visit, IsSteady, count_re_admits, re_admit_once}

abbrev fresh : Manager
fresh = record {
  state = none;
  persists = true;
  stored = none;
  refreshing = false;
  refresh_err = none;
  re_admit_lead = minute;
  re_admit_expiry = 0;
  probe_ttl = 15 * second;
  last_admitted = 0;
  unavailable_ttl = hour;
  model_unavailable_map = [];
  saved_quota = none;
  saved_glm_promo = "";
  invalidation_events = [];
  re_admit_triggers = [];
  last_storm_at = 0;
  model_locks = [];
  summaries = [];
  sent = [];
}

abbrev model : String
model = "z-ai/glm-5.1"

abbrev quotas : Quotas
quotas = (model, record { limit = 5; recent_count = 2; reset_at = 0; period = "pacific_day" }) ∷ []

abbrev answer : Status → SessionState
answer status = record {
  status = status;
  instance_id = "i-1";
  model = model;
  current_model = "other";
  expires_at = 2 * hour;
  grace_period_ends_at = 0;
  position = 0;
  queue_depth = 0;
  estimated_wait_ms = 0;
  poll_at = 0;
  country_code = "";
  country_block_reason = "";
  ip_privacy_signals = [];
  active_users_for_ip = 0;
  limit = 0;
  recent_count = 0;
  reset_at = 0;
  resumes_at = 0;
  retry_after_ms = 0;
  message = "";
  unavailable_window = none;
  available_hours = "";
  glm_promo = "";
  rate_limits_by_model = some quotas;
}

abbrev round : Status → Round
round status = record {
  cancelled = none;
  now = hour;
  get = λ i. inr (answer status);
  create = λ m. inr (answer status);
  others = λ m. m;
}

-- The slot is locked to another model first, and then free.
abbrev locked_first : ℕ → Round
locked_first n = round (if leb 4 n then model_locked else active)

abbrev lower : String → String
lower s = s

released_and_admitted :
    (refresh lower false hour locked_first model fresh).0.sent
    ≡ sent_create model ∷ sent_delete ∷ sent_create model ∷ []
unfolding refresh refresh_rounds refresh_round act call model_unavailable_short_circuit
    model_unavailable_until commit lookup
released_and_admitted = refl

admits : (refresh lower false hour locked_first model fresh).1 ≡ none
unfolding refresh refresh_rounds refresh_round act call model_unavailable_short_circuit
    model_unavailable_until commit lookup
admits = refl

refresh-IsReady_example :
    IsReady locked_first model hour fresh (refresh lower false hour locked_first model fresh).0
refresh-IsReady_example = refresh-IsReady lower hour locked_first model fresh admits

abbrev cached : CachedState
cached = admitted model (answer active)

abbrev serving : Manager
serving = record fresh { state = some cached }

serving-IsRidden : IsRidden hour model serving cached
unfolding model_unavailable_until lookup
serving-IsRidden = record { cached = refl; not_queued = refl; available = refl }

refresh_ridden_example :
    ((refresh lower true hour (λ n. round ended) model serving).0.state ≡ some cached)
    ⊎ (replaces ((round ended).create model) ≡ true)
refresh_ridden_example =
    refresh_ridden lower hour (λ n. round ended) model serving cached serving-IsRidden (λ k. refl)
      refl

polled : poll_target hour serving ≡ some "i-1"
unfolding poll_target
polled = refl

poll-PolledRow_example :
    PolledRow hour "i-1"
      (ends_session hour (inr (answer ended)))
      (some cached)
      (poll lower hour (round ended) serving).0.state
poll-PolledRow_example = poll-PolledRow lower hour (round ended) serving "i-1" polled

abbrev turn : ℕ → Turn
turn n = record {
  over = none;
  now = hour;
  over_parked = none;
  woken = λ m. m;
  woken_at = hour;
  rounds = locked_first;
  refreshed_at = hour;
}

-- Two callers in the last minute of the session.
abbrev visits : List Visit
visits =
    record {
      now = 2 * hour - 30 * second;
      model = model;
      after = λ m. record m { state = some cached; refreshing = false };
    }
    ∷ record { now = 2 * hour - 20 * second; model = model; after = λ m. record m { state = none } }
    ∷ []

visits-IsSteady : All (IsSteady (2 * hour)) visits
visits-IsSteady = (
  record { guarded = λ m. refl; expires = λ m s e. ap CachedState.expires_at (sym (some_inj e)) },
  (record { guarded = λ m. refl; expires = λ m s e. cc }, tt),
)

re_admit_once_example : count_re_admits visits serving ≤ 1
re_admit_once_example =
    re_admit_once (2 * hour) visits serving visits-IsSteady
      (λ s e. ap CachedState.expires_at (sym (some_inj e)))

one_re_admit : count_re_admits visits serving ≡ 1
unfolding enter enter_on serve session_usable re_admit_due
one_re_admit = refl

abbrev no_promo : String → Option GlmPromo
no_promo s = none

fresh-IsFresh : IsFresh fresh
fresh-IsFresh = record { no_state = refl; no_quota = refl; no_promo = refl }

-- Admitted with quotas, dropped, and admitted again without.
abbrev reports : List Report
reports =
    committed (some (record cached { quota_by_model = none }))
    ∷ committed none
    ∷ committed (some cached)
    ∷ []

snapshot-last_example :
    ((snapshot no_promo (report_all reports fresh)).quota_by_model ≡ quotas)
    × ((snapshot no_promo (report_all reports fresh)).glm_promo ≡ none)
snapshot-last_example = snapshot-last no_promo fresh fresh-IsFresh reports

entitled-snapshot_example :
    entitled no_promo hour (report_all reports fresh)
    ≡ has_glm_entitlement hour (snapshot no_promo (report_all reports fresh))
entitled-snapshot_example = entitled-snapshot no_promo fresh fresh-IsFresh reports hour

abbrev burst : List Mark
burst =
    invalidated (hour + 2) reason_superseded
    ∷ triggered (hour + 1)
    ∷ invalidated (hour + 1) reason_superseded
    ∷ invalidated hour reason_409
    ∷ []

fresh-IsQuiet : IsQuiet fresh
fresh-IsQuiet = record { no_events = refl; no_triggers = refl; no_storm = refl; no_summary = refl }

record_invalidation-summary_example :
    let before = (mark_all burst fresh).summaries in
    let after = (record_invalidation (hour + 3) reason_409 (mark_all burst fresh)).summaries in
    let events = all_events burst ++ (hour + 3, reason_409) ∷ [] in
    (IsStorm (hour + 3) events (last_logged before)
      → after ≡ storm_summary (hour + 3) events (all_triggers burst) ∷ before)
    × (¬ IsStorm (hour + 3) events (last_logged before) → after ≡ before)
record_invalidation-summary_example =
    record_invalidation-summary fresh fresh-IsQuiet burst (hour + 3) reason_409 (omega arith)

-- The CLI has ended, and the referral-only model has an open quota.
abbrev world : World
world = record {
  now = hour;
  adopting = true;
  owner_file = some (record { instance_id = "i-cli"; pid = pos 4711 });
  initial = record { instance_id = ""; pid = pos 0 };
  alive = λ pid. false;
  get = λ i. inr (answer ended);
  create = λ m. inr (answer active);
  probe = some (
    "",
    (referral_model, record { limit = 5; recent_count = 2; reset_at = 0; period = "" }) ∷ [],
  );
  decode = no_promo;
}

adopt_or_create-Requests_example :
    Requests world referral_model fresh (adopt_or_create world referral_model fresh).0
adopt_or_create-Requests_example = adopt_or_create-Requests world referral_model fresh

posts :
    (adopt_or_create world referral_model fresh).0.sent
    ≡ sent_create referral_model ∷ sent_probe ∷ []
unfolding adopt_or_create adopt_owner create_session_for_model ensure_entitled entitled
    probe_account update_quota_from_probe lookup quota_open promo_open
posts = refl
