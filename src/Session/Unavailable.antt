-- ===== src/Session/Unavailable.antt =====
-- The models that the upstream refuses for a while: internal/session/model_unavailable.go. Each
-- function reads the clock once.
use freebuff_proxy_scaleway.Base.{
  ℕ, ◌+◌, String, Bool, true, false, ◌&&◌, ◌||◌, not, Option, none, some, List, [], ◌∷◌, ltb, leb,
  if◌then◌else◌,
}
use freebuff_proxy_scaleway.Base.Map.{lookup, insert}
use freebuff_proxy_scaleway.Base.Eq.{◌==◌, String_eq}
use freebuff_proxy_scaleway.Session.Manager.{
  Manager, CachedState, UnavailableEntry, session_usable, commit,
}
use freebuff_proxy_scaleway.Session.Answer.{AvailabilityWindow}

abbrev pub default_fallback_model : String
default_fallback_model = "deepseek/deepseek-v4-flash"

abbrev pub skip_end : ℕ → ℕ → Option AvailabilityWindow → ℕ
skip_end now ttl none = now + ttl
skip_end now ttl (some w) =
    let next = w.next_start now in
    if not (w.available_at now) && ltb now next && ltb next (now + ttl) then next else now + ttl

-- The pruning of the expired entries, all but the model's.
abbrev pub prune_entries :
    ℕ → String → List (String × UnavailableEntry) → List (String × UnavailableEntry)
prune_entries now model [] = []
prune_entries now model ((k, e) ∷ es) =
    let rest = prune_entries now model es in
    if not (ltb now e.until) && not (k == model) then rest else (k, e) ∷ rest

unfoldable pub record_model_unavailable :
    ℕ → String → Option AvailabilityWindow → String → Manager → Manager
record_model_unavailable now model w raw m =
    if leb m.unavailable_ttl 0 || model == "" then m else record m {
      model_unavailable_map = prune_entries now model (
          insert model (record { until = skip_end now m.unavailable_ttl w; window = raw })
            m.model_unavailable_map);
    }

abbrev open_until : ℕ → Option UnavailableEntry → Option ℕ
open_until now none = none
open_until now (some e) = if ltb now e.until then some e.until else none

unfoldable pub model_unavailable_until : ℕ → String → Manager → Option ℕ
model_unavailable_until now model m =
    if model == "" || model == default_fallback_model
    then none
    else open_until now (lookup model m.model_unavailable_map)

abbrev pub serves_fallback : ℕ → Option CachedState → Bool
serves_fallback now none = false
serves_fallback now (some s) = s.model == default_fallback_model && session_usable now s

-- The model to go on with, and whether the caller stops with the cached session.
unfoldable pub model_unavailable_short_circuit : ℕ → String → Manager → Manager × String × Bool
unfolding model_unavailable_until commit
model_unavailable_short_circuit now target m = elim (model_unavailable_until now target m) [
  | none ↦ (m, target, false)
  | some until ↦
      if serves_fallback now m.state
      then (m, default_fallback_model, true)
      else (commit none m, default_fallback_model, false)
]
