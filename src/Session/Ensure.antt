-- ===== src/Session/Ensure.antt =====
-- `EnsureSessionForModel` of internal/session/session.go. `enter` is its section under the mutex;
-- the loop takes from a `Turn` what the world does in one iteration. A caller that parks finds the
-- manager as the refresh of another caller, and whatever follows it, have left it.
pub mod Ready
pub mod Once
use freebuff_proxy_scaleway.Base.{
  ℕ, ◌+◌, ◌-◌, String, Bool, true, false, ◌&&◌, ◌||◌, not, Option, none, some, List, ◌∷◌, ltb,
  nat_eq, if◌then◌else◌, zero, suc,
}
use freebuff_proxy_scaleway.Base.Eq.{◌==◌, String_eq}
use freebuff_proxy_scaleway.Upstream.Failure.{Failure, cancelled, deadline}
use freebuff_proxy_scaleway.Pool.Buckets.{WaitingRoomError}
use freebuff_proxy_scaleway.Session.Manager.{
  Manager, CachedState, Status, active, disabled, queued, ended, SessionError, failed, not_ready,
  is_queued, session_usable, re_admit_due, or_option,
}
use freebuff_proxy_scaleway.Session.Storm.{record_re_admit_trigger}
use freebuff_proxy_scaleway.Session.Refresh.{Round, refresh}

abbrev pub serves_model : String → CachedState → Bool
serves_model model s = model == "" || s.model == "" || s.model == model

abbrev pub waiting_of : ℕ → CachedState → WaitingRoomError
waiting_of now s = record {
  position = s.position;
  queue_depth = s.queue_depth;
  retry_after = s.poll_at - now;
}

-- What the section decides: to serve an instance, with a re-admit in the background or without, to
-- go without a session, to wait, to park on the refresh of another caller, or to refresh.
pub data Entry : Type 0 where
  reuse : String → Entry
  re_admit : String → Manager → Entry
  no_session : Entry
  wait : WaitingRoomError → Entry
  park : Entry
  lead : Manager → Entry

abbrev take_lead : Manager → Entry
take_lead m =
    if m.refreshing then park else lead (record m { refreshing = true; refresh_err = none })

-- A pre-emptive re-admit is due and was not yet tried for this expiry.
abbrev pub triggers : ℕ → CachedState → Manager → Bool
triggers now s m =
    ltb 0 m.re_admit_lead
    && not (nat_eq m.re_admit_expiry s.expires_at)
    && re_admit_due s m.re_admit_lead now

unfoldable pub serve : ℕ → CachedState → Manager → Entry
unfolding record_re_admit_trigger
serve now s m =
    if triggers now s m
    then re_admit s.instance_id (
        record_re_admit_trigger now
          (record m { re_admit_expiry = s.expires_at; refreshing = true; refresh_err = none }))
    else reuse s.instance_id

abbrev ride : ℕ → String → CachedState → Manager → Entry
ride now model s m =
    if serves_model model s && session_usable now s then serve now s m else take_lead m

unfoldable pub enter_on : ℕ → String → Status → CachedState → Manager → Entry
unfolding serve
enter_on now model active s m = ride now model s m
enter_on now model ended s m = ride now model s m
enter_on now model disabled s m = no_session
enter_on now model queued s m = if ltb now s.poll_at then wait (waiting_of now s) else take_lead m
enter_on now model status s m = take_lead m

unfoldable pub enter : ℕ → String → Manager → Entry
unfolding enter_on
enter now model m = elim m.state [
  | none ↦ take_lead m
  | some s ↦ if m.refreshing then park else enter_on now model s.status s m
]

pub data Ensured : Type 0 where
  ready : String → Ensured
  no_instance : Ensured
  waiting : WaitingRoomError → Ensured
  ensure_failed : SessionError → Ensured

-- `over`: the caller's context has ended when the iteration begins; `over_parked`: it ends before the
-- awaited refresh. `woken` is what happens to the manager while the caller is parked.
pub record Turn : Type 0 where
  pub over : Option Failure
  pub now : ℕ
  pub over_parked : Option Failure
  pub woken : Manager → Manager
  pub woken_at : ℕ
  pub rounds : ℕ → Round
  pub refreshed_at : ℕ

pub data Progress : Type 0 where
  returned : Manager → Ensured → Progress
  looping : Manager → Progress

-- The leader's context was cancelled.
abbrev is_aborted : SessionError → Bool
is_aborted (failed cancelled) = true
is_aborted (failed deadline) = true
is_aborted e = false

abbrev recheck : ℕ → SessionError → Manager → Ensured
recheck now e m = elim m.state [
  | none ↦ ensure_failed e
  | some s ↦
      if is_queued s.status && ltb now s.poll_at
      then waiting (waiting_of now s)
      else if session_usable now s
      then ready s.instance_id
      else ensure_failed e
]

-- A parked caller that wakes: the error of the awaited refresh, after a look at the cache.
unfoldable pub wake : ℕ → Manager → Progress
wake now m = elim m.refresh_err [
  | none ↦ looping m
  | some e ↦ if is_aborted e then looping m else returned m (recheck now e m)
]

abbrev pub fresh_on : ℕ → Status → CachedState → Manager → Progress
fresh_on now active s m = returned m (ready s.instance_id)
fresh_on now disabled s m = returned m no_instance
fresh_on now queued s m =
    if ltb now s.poll_at then returned m (waiting (waiting_of now s)) else looping m
fresh_on now status s m = looping m

-- The end of the caller's own refresh.
unfoldable pub refreshed : ℕ → Manager → Option SessionError → Progress
refreshed now m (some e) =
    returned (record m { refreshing = false; refresh_err = some e }) (ensure_failed e)
refreshed now m none = elim m.state [
  | none ↦ looping (record m { refreshing = false })
  | some s ↦ fresh_on now s.status s (record m { refreshing = false })
]

abbrev parked : Turn → Manager → Progress
parked t m = elim t.over_parked [
  | some f ↦ returned m (ensure_failed (failed f))
  | none ↦ wake t.woken_at (t.woken m)
]

abbrev led : (String → String) → Turn → String → Manager → Progress
led lower t model m =
    refreshed t.refreshed_at (refresh lower false t.now t.rounds model m).0
      (refresh lower false t.now t.rounds model m).1

abbrev follow_entry : (String → String) → Turn → String → Manager → Entry → Progress
follow_entry lower t model m (reuse i) = returned m (ready i)
follow_entry lower t model m (re_admit i m') = returned m' (ready i)
follow_entry lower t model m no_session = returned m no_instance
follow_entry lower t model m (wait w) = returned m (waiting w)
follow_entry lower t model m park = parked t m
follow_entry lower t model m (lead m') = led lower t model m'

unfoldable pub ensure_turn : (String → String) → Turn → String → Manager → Progress
unfolding enter wake refreshed
ensure_turn lower t model m = elim t.over [
  | some f ↦ returned m (ensure_failed (failed f))
  | none ↦ follow_entry lower t model m (enter t.now model m)
]

abbrev pub max_outer_iterations : ℕ
max_outer_iterations = 10

unfoldable pub ensure_turns :
    ℕ → (String → String) → (ℕ → Turn) → String → Manager → Manager × Ensured
unfolding ensure_turn
ensure_turns zero lower world model m = (m, ensure_failed not_ready)
ensure_turns (suc n) lower world model m = elim (ensure_turn lower (world n) model m) [
  | returned m' e ↦ (m', e)
  | looping m' ↦ ensure_turns n lower world model m'
]

unfoldable pub ensure_session_for_model :
    (String → String) → (ℕ → Turn) → String → Manager → Manager × Ensured
unfolding ensure_turns
ensure_session_for_model lower world model m = ensure_turns max_outer_iterations lower world model m

-- The end of a background re-admit, `asyncReAdmit`, after its refresh.
unfoldable pub end_re_admit : Option SessionError → Manager → Manager
end_re_admit e m = record m { refreshing = false; refresh_err = or_option e m.refresh_err }
