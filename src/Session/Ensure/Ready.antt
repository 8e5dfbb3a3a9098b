-- ===== src/Session/Ensure/Ready.antt =====
-- The instance that a caller of internal/session/session.go gets.
use freebuff_proxy_scaleway.Base.{ℕ, ◌<◌, ◌≡◌, String, true, false, none, some}
use freebuff_proxy_scaleway.Session.Manager.{Manager, CachedState, active, session_usable}
use freebuff_proxy_scaleway.Session.Refresh.{refresh}
use freebuff_proxy_scaleway.Session.Ensure.{
  Entry, reuse, re_admit, serves_model, Ensured, ready, Turn, Progress, returned, looping,
}

-- Why a session serves the caller of a turn: at the instant of the caller's section it is usable and
-- serves the model; or the caller was parked and it is usable when the caller wakes; or it is active
-- in the cache as the caller's own refresh, which had no error, has left it.
pub data IsLive (lower : String → String) (t : Turn) (model : String) (m : Manager)
    (s : CachedState) : Type 0 where
  ridden : serves_model model s ≡ true → session_usable t.now s ≡ true → IsLive lower t model m s
  rechecked : t.over_parked ≡ none → session_usable t.woken_at s ≡ true → IsLive lower t model m s
  refreshed_by :
      (before : Manager)
      → (refresh lower false t.now t.rounds model before).1 ≡ none
      → m.state ≡ (refresh lower false t.now t.rounds model before).0.state
      → s.status ≡ active
      → IsLive lower t model m s

-- The cached session has the instance and serves the caller of the turn.
pub record IsServing (lower : String → String) (t : Turn) (model : String) (instance : String)
    (m : Manager) : Type 0 where
  pub session : CachedState
  pub cached : m.state ≡ some session
  pub named : session.instance_id ≡ instance
  pub live : IsLive lower t model m session

-- A caller that gets an instance is served in one of ten turns.
abbrev pub Serves : (String → String) → (ℕ → Turn) → String → Manager → Ensured → Type 0
Serves lower world model m (ready i) = (n : ℕ) × (n < 10) × IsServing lower (world n) model i m
Serves lower world model m e = Unit

module _ (lower : String → String) (t : Turn) (model : String) where
  abbrev TurnServes : Manager → Ensured → Type 0
  TurnServes m (ready i) = IsServing lower t model i m
  TurnServes m e = Unit

  abbrev EntryServes : Manager → Entry → Type 0
  EntryServes m (reuse i) = IsServing lower t model i m
  EntryServes m (re_admit i m') = IsServing lower t model i m'
  EntryServes m e = Unit

  abbrev ProgressServes : Progress → Type 0
  ProgressServes (returned m e) = TurnServes m e
  ProgressServes (looping m) = Unit

  -- A manager whose cache is the one that the caller's refresh left.
  abbrev IsRefreshed : Manager → Type 0
  IsRefreshed m =
      (before : Manager) × ((refresh lower false t.now t.rounds model before).1 ≡ none)
      × (m.state ≡ (refresh lower false t.now t.rounds model before).0.state)
