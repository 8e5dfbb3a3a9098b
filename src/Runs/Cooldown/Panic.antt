-- ===== src/Runs/Cooldown/Panic.antt =====
-- Which histories of internal/runs/cooldown.go end in a division by zero.
use freebuff_proxy_scaleway.Base.{
  ◌≡◌, ◌<◌, refl, Bool, true, false, not, ◌&&◌, ◌||◌, none, some, List, [], ◌∷◌, ltb, nat_eq,
  if◌then◌else◌, arith, inl, inr, Bool-cases,
}
use freebuff_proxy_scaleway.Upstream.Errors.{IpCappedError}
use freebuff_proxy_scaleway.Runs.Cooldown.{Cooldowns, cooldown_ip_capped, is_some}
use freebuff_proxy_scaleway.Runs.Cooldown.Invariant.{
  IsConsistent, Reading, Event, rejected, unlocked, rate_limited, ip_capped, banned,
  country_blocked, apply, apply-IsConsistent,
}
use freebuff_proxy_scaleway.Runs.Cooldown.Lock.{
  Lock, lock, lock_after, run, apply-lock, after_capped, after_capped-lock,
}

-- A refusal of 1 to 4 ns that is at most the second one of its day.
abbrev pub is_short : Reading → Event → Lock → Bool
is_short r (ip_capped (some e)) l =
    ltb 0 e.retry_after
    && ltb e.retry_after 5
    && ltb (if nat_eq l.day r.reset then l.spent else 0) 2
is_short r e l = false

-- The history meets such a refusal, by the locks that the specification computes.
abbrev pub meets_short : List (Reading × Event) → Lock → Bool
meets_short [] l = false
meets_short ((r, e) ∷ es) l = let rest = meets_short es (lock_after r e l) in is_short r e l || rest

-- Each call reads a Pacific midnight that is ahead.
abbrev pub IsAhead : List (Reading × Event) → Type 0
IsAhead [] = Unit
IsAhead ((r, e) ∷ es) = (r.now < r.reset) × IsAhead es

module _ (r : Reading) (m : Cooldowns) (c : IsConsistent m) (ahead : r.now < r.reset) where
  short_panics :
      (e : IpCappedError)
      → is_short r (ip_capped (some e)) (lock m) ≡ true
      → cooldown_ip_capped r.now r.reset r.draw (some e) m ≡ none
  unfolding cooldown_ip_capped
  short_panics e h = ground arith

  long_succeeds :
      (e : IpCappedError)
      → is_short r (ip_capped (some e)) (lock m) ≡ false
      → cooldown_ip_capped r.now r.reset r.draw (some e) m ≡ some (after_capped r e m)
  unfolding cooldown_ip_capped after_capped
  long_succeeds e h = ground arith

  event_panics : (e : Event) → is_short r e (lock m) ≡ true → apply r e m ≡ none
  unfolding apply
  event_panics (ip_capped (some e)) h = short_panics e h
  event_panics (ip_capped none) h = cc
  event_panics (rejected d) h = cc
  event_panics unlocked h = cc
  event_panics (rate_limited e) h = cc
  event_panics (banned e) h = cc
  event_panics (country_blocked e) h = cc

  event_succeeds :
      (e : Event)
      → is_short r e (lock m) ≡ false
      → (m' : Cooldowns) × (apply r e m ≡ some m') × (lock m' ≡ lock_after r e (lock m))
  unfolding apply
  event_succeeds (ip_capped (some e)) h =
      (after_capped r e m, long_succeeds e h, after_capped-lock r m c e ahead)
  event_succeeds (ip_capped none) h = apply-lock r (ip_capped none) m c ahead
  event_succeeds (rejected d) h = apply-lock r (rejected d) m c ahead
  event_succeeds unlocked h = apply-lock r unlocked m c ahead
  event_succeeds (rate_limited e) h = apply-lock r (rate_limited e) m c ahead
  event_succeeds (banned e) h = apply-lock r (banned e) m c ahead
  event_succeeds (country_blocked e) h = apply-lock r (country_blocked e) m c ahead

-- A history of a token panics exactly if it meets an ip_capped refusal of 1 to 4 ns that is the
-- first or second one of its Pacific day, by the specification's count of that day; every other
-- history runs to its end. The fields are consistent before it and each call reads a midnight ahead.
pub run-meets_short :
    (es : List (Reading × Event)) (m : Cooldowns)
    → IsConsistent m
    → IsAhead es
    → is_some (run es m) ≡ not (meets_short es (lock m))
unfolding run
run-meets_short [] m c a = refl
run-meets_short ((r, e) ∷ es) m c a = elim (Bool-cases (is_short r e (lock m))) [
  | inl short ↦ rw (short, event_panics r m c a.0 e short, run) refl
  | inr long ↦
      let (m', done, spec) = event_succeeds r m c a.0 e long in
      let rest = run-meets_short es m' (apply-IsConsistent r e m m' done c) a.1 in
      rw (long, done, run) (rw spec at rest)
]
