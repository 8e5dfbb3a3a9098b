-- ===== src/Session/Storm.antt =====
-- The storm detector of internal/session/session_admission.go: the rolling lists of ended sessions
-- and of re-admit triggers, and the summary that is logged.
pub mod History
pub mod Logged
use freebuff_proxy_scaleway.Base.{
  ℕ, ◌+◌, ◌-◌, ◌*◌, ◌/◌, Bool, true, false, ◌&&◌, ◌||◌, not, List, [], ◌∷◌, ◌++◌, ltb, leb, nat_eq,
  length, if◌then◌else◌,
}
use freebuff_proxy_scaleway.Base.Time.{second}
use freebuff_proxy_scaleway.Session.Manager.{Manager, Reason, reason_superseded, Summary}

abbrev pub storm_window : ℕ
storm_window = 60 * second

abbrev pub storm_threshold : ℕ
storm_threshold = 3

-- `t.After(now.Add(-stormWindow))`.
abbrev pub in_window : ℕ → ℕ → Bool
in_window now t = ltb now (t + storm_window)

unfoldable pub recent_events : ℕ → List (ℕ × Reason) → List (ℕ × Reason)
recent_events now [] = []
recent_events now (e ∷ es) =
    let rest = recent_events now es in if in_window now e.0 then e ∷ rest else rest

unfoldable pub recent_triggers : ℕ → List ℕ → List ℕ
recent_triggers now [] = []
recent_triggers now (t ∷ ts) =
    let rest = recent_triggers now ts in if in_window now t then t ∷ rest else rest

-- `recordReAdmitTrigger`.
unfoldable pub record_re_admit_trigger : ℕ → Manager → Manager
unfolding recent_triggers
record_re_admit_trigger now m = record m {
  re_admit_triggers = recent_triggers now (m.re_admit_triggers ++ now ∷ []);
}

abbrev pub is_superseded : Reason → Bool
is_superseded reason_superseded = true
is_superseded r = false

abbrev pub count_superseded : List (ℕ × Reason) → ℕ
count_superseded [] = 0
count_superseded (e ∷ es) = (if is_superseded e.1 then 1 else 0) + count_superseded es

abbrev pub last_at : ℕ → List (ℕ × Reason) → ℕ
last_at t [] = t
last_at t (e ∷ es) = last_at e.0 es

-- From the first event to the last one, in milliseconds.
abbrev pub duration_ms : List (ℕ × Reason) → ℕ
duration_ms [] = 0
duration_ms (e ∷ es) = (last_at e.0 es - e.0) / 1_000_000

abbrev pub summary_of : ℕ → List (ℕ × Reason) → List ℕ → Summary
summary_of now events triggers = record {
  logged_at = now;
  count = length events;
  duration_ms = duration_ms events;
  superseded_count = count_superseded events;
  burned_slots = length triggers;
}

-- No storm, or a summary in the last window.
abbrev pub is_silent : ℕ → List (ℕ × Reason) → ℕ → Bool
is_silent now events last_storm_at =
    leb (length events) storm_threshold
    || (not (nat_eq last_storm_at 0) && ltb now (last_storm_at + storm_window))

-- `recordInvalidation`.
unfoldable pub record_invalidation : ℕ → Reason → Manager → Manager
unfolding recent_events recent_triggers
record_invalidation now reason m =
    let events = recent_events now (m.invalidation_events ++ (now, reason) ∷ []) in
    let triggers = recent_triggers now m.re_admit_triggers in
    let kept : Manager = record m { invalidation_events = events; re_admit_triggers = triggers } in
    if is_silent now events m.last_storm_at then kept else record kept {
      last_storm_at = now;
      summaries = summary_of now events triggers ∷ m.summaries;
    }
