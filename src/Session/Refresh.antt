-- ===== src/Session/Refresh.antt =====
-- `refresh` of internal/session/session_admission.go and `pollPersisted` of session_poll.go: the
-- loop that asks the upstream for a session until the cache says what to do. A `Round` is what the
-- world does in one iteration: what the upstream answers, when, and what other goroutines do to the
-- manager while the calls run. An answer to a create is one of `adoptOrCreate`.
pub mod Ride
pub mod Outcome
use freebuff_proxy_scaleway.Base.{
  ℕ, ◌+◌, String, Bool, true, false, ◌&&◌, ◌||◌, not, Option, none, some, List, [], ◌∷◌, ◌++◌,
  nat_eq, ltb, if◌then◌else◌, zero, suc, ◌⊎◌, inl, inr,
}
use freebuff_proxy_scaleway.Base.Eq.{◌==◌, String_eq}
use freebuff_proxy_scaleway.Upstream.Failure.{Failure, waiting_room_required}
use freebuff_proxy_scaleway.Session.Snapshot.{expiry_margin}
use freebuff_proxy_scaleway.Session.Manager.{
  SessionError, failed, unknown_status, re_admit_refused, refresh_exhausted, Manager, CachedState,
  Status, active, disabled, queued, ended, superseded, absent, banned, country_blocked,
  rate_limited, spend_limited, ip_capped, session_model_mismatch, limited_ip, model_locked,
  model_unavailable, other, Reason, reason_poll, reason_model_lock, sent_get, sent_create,
  sent_delete, Sent, grace_window, is_active, is_queued, is_before_margin, instance_of, remove_if,
  commit, or_text,
}
use freebuff_proxy_scaleway.Session.Storm.{record_invalidation}
use freebuff_proxy_scaleway.Session.Answer.{SessionState, status_error, table_reason, poll_time}
use freebuff_proxy_scaleway.Session.Unavailable.{
  record_model_unavailable, model_unavailable_short_circuit, default_fallback_model,
}

abbrev pub Answer : Type 0
Answer = Failure ⊎ SessionState

pub record Round : Type 0 where
  pub cancelled : Option Failure
  pub now : ℕ
  pub get : String → Answer
  pub create : String → Answer
  pub others : Manager → Manager

abbrev pub send : Sent → Manager → Manager
send s m = record m { sent = s ∷ m.sent }

-- `Store.Load`: an entry whose grace window is closed is dropped.
abbrev is_dead : ℕ → CachedState → Bool
is_dead now cs = not (nat_eq cs.grace_period_ends_at 0) && ltb cs.grace_period_ends_at now

abbrev other_model : String → String → Bool
other_model model target = not (model == "") && not (target == "") && not (model == target)

abbrev forget : String → Manager → Manager
forget instance m = record m { stored = remove_if instance m.stored }

-- The answer to a poll of the persisted session: the session that is resumed, if any.
unfoldable pub resume : String → Answer → Manager → Manager × Option Answer
resume target (inl f) m = (m, some (inl f))
resume target (inr st) m = elim st.status [
  | active ↦
      if other_model st.model target then (forget st.instance_id m, none) else (m, some (inr st))
  | ended ↦ (forget st.instance_id m, none)
  | superseded ↦ (forget st.instance_id m, none)
  | absent ↦ (forget st.instance_id m, none)
  | banned ↦ (forget st.instance_id m, none)
  | country_blocked ↦ (forget st.instance_id m, none)
  | rate_limited ↦ (forget st.instance_id m, none)
  | ip_capped ↦ (forget st.instance_id m, none)
  | spend_limited ↦ (forget st.instance_id m, none)
  | _ ↦ (m, none)
]

-- `pollPersisted`.
unfoldable pub poll_persisted : Round → String → Manager → Manager × Option Answer
unfolding resume
poll_persisted r target m = if not m.persists then (m, none) else elim m.stored [
  | none ↦ (m, none)
  | some cs ↦
      if is_dead r.now cs
      then (record m { stored = none }, none)
      else if not (is_active cs.status) || cs.instance_id == ""
      then (m, none)
      else if not (is_before_margin r.now cs) || other_model cs.model target
      then (forget cs.instance_id m, none)
      else resume target (r.get cs.instance_id) (send (sent_get cs.instance_id) m)
]

abbrev create_session : Round → String → Manager → Manager × Answer
create_session r target m = (send (sent_create target) m, r.create target)

-- A session that is not resumed is created.
abbrev or_create : Round → String → Manager × Option Answer → Manager × Answer
or_create r target (m, some a) = (m, a)
or_create r target (m, none) = create_session r target m

-- The calls of a round.
unfoldable pub call : Round → String → Manager → Manager × Answer
unfolding poll_persisted
call r target m = elim m.state [
  | none ↦ or_create r target (poll_persisted r target m)
  | some s ↦
      if is_queued s.status && not (s.instance_id == "")
      then (send (sent_get s.instance_id) m, r.get s.instance_id)
      else create_session r target m
]

-- The calls, and what the others did meanwhile.
abbrev pub ask : Round → String → Manager → Manager × Answer
ask r target m = (r.others (call r target m).0, (call r target m).1)

-- What a round comes to: the end of the refresh, or another round for a model.
pub data Verdict : Type 0 where
  settled : Manager → Option SessionError → Verdict
  again : String → Manager → Verdict

-- The cached row is dropped if it still is the one that was polled, and the drop is recorded.
unfoldable pub drop_polled : ℕ → String → Reason → Manager → Manager
unfolding commit record_invalidation
drop_polled now instance reason m = elim m.state [
  | none ↦ m
  | some s ↦ if s.instance_id == instance then record_invalidation now reason (commit none m) else m
]

-- The failure of a call; `cached` is the row before it. Without one the source reads its instance id
-- only if another goroutine has set a row meanwhile, and none does.
unfoldable pub fail_round : ℕ → Option CachedState → Failure → Manager → Manager
unfolding drop_polled
fail_round now (some s) (waiting_room_required e) m = drop_polled now s.instance_id reason_poll m
fail_round now cached f m = m

abbrev pub admitted : String → SessionState → CachedState
admitted target st = record {
  status = active;
  instance_id = st.instance_id;
  model = or_text st.model target;
  expires_at = st.expires_at;
  grace_period_ends_at = st.expires_at + grace_window;
  position = 0;
  queue_depth = 0;
  poll_at = 0;
  quota_by_model = st.rate_limits_by_model;
  glm_promo = st.glm_promo;
}

abbrev pub bare : Status → CachedState
bare status = record {
  status = status;
  instance_id = "";
  model = "";
  expires_at = 0;
  grace_period_ends_at = 0;
  position = 0;
  queue_depth = 0;
  poll_at = 0;
  quota_by_model = none;
  glm_promo = "";
}

abbrev pub in_queue : ℕ → String → SessionState → CachedState
in_queue now target st = record (bare queued) {
  instance_id = st.instance_id;
  model = or_text st.model target;
  position = st.position;
  queue_depth = st.queue_depth;
  poll_at = poll_time now st;
  glm_promo = st.glm_promo;
}

abbrev renew : Bool → ℕ → String → SessionState → Manager → Verdict
renew true now target st m = settled m (some re_admit_refused)
renew false now target st m =
    again target (record_invalidation now (table_reason st.status) (commit none m))

-- The switch on the status; `lower` is strings.ToLower.
unfoldable pub act :
    (String → String) → Bool → ℕ → String → Status → SessionState → Manager → Verdict
unfolding commit record_invalidation status_error poll_time record_model_unavailable
act lower preemptive now target active st m =
    settled (record (commit (some (admitted target st)) m) { last_admitted = now }) none
act lower preemptive now target disabled st m = settled (commit (some (bare disabled)) m) none
act lower true now target queued st m = settled m none
act lower false now target queued st m = settled (commit (some (in_queue now target st)) m) none
act lower preemptive now target ended st m = renew preemptive now target st m
act lower preemptive now target superseded st m = renew preemptive now target st m
act lower preemptive now target absent st m = renew preemptive now target st m
act lower preemptive now target model_locked st m =
    let dropped = record_invalidation now reason_model_lock (commit none m) in
    again target (
      send sent_delete
        (record dropped { model_locks = (st.current_model, target) ∷ dropped.model_locks }))
act lower preemptive now target model_unavailable st m =
    again default_fallback_model
      (commit none (record_model_unavailable now target st.unavailable_window st.available_hours m))
act lower preemptive now target (other s) st m = settled m (some (unknown_status (other s)))
act lower preemptive now target status st m = settled m (status_error lower status st)

abbrev decide :
    (String → String) → Bool → Round → String → Option CachedState → Manager × Answer → Verdict
decide lower preemptive r target cached (m, inl f) =
    settled (fail_round r.now cached f m) (some (failed f))
decide lower preemptive r target cached (m, inr st) =
    act lower preemptive r.now target st.status st m

unfoldable pub refresh_round : (String → String) → Bool → Round → String → Manager → Verdict
unfolding call fail_round act
refresh_round lower preemptive r target m = elim r.cancelled [
  | some f ↦ settled m (some (failed f))
  | none ↦ decide lower preemptive r target m.state (ask r target m)
]

abbrev pub max_refresh_iterations : ℕ
max_refresh_iterations = 5

unfoldable pub refresh_rounds :
    ℕ → (String → String) → Bool → (ℕ → Round) → String → Manager → Manager × Option SessionError
unfolding refresh_round
refresh_rounds zero lower preemptive world target m = (m, some refresh_exhausted)
refresh_rounds (suc n) lower preemptive world target m =
    elim (refresh_round lower preemptive (world n) target m) [
      | settled m' e ↦ (m', e)
      | again target' m' ↦ refresh_rounds n lower preemptive world target' m'
    ]

-- The rounds are numbered downwards; `start` is when the refresh begins.
unfoldable pub refresh :
    (String → String) → Bool → ℕ → (ℕ → Round) → String → Manager → Manager × Option SessionError
unfolding model_unavailable_short_circuit refresh_rounds
refresh lower preemptive start world target m =
    let (m', target', reuse) = model_unavailable_short_circuit start target m in
    if reuse
    then (m', none)
    else refresh_rounds max_refresh_iterations lower preemptive world target' m'
