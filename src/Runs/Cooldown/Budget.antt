-- ===== src/Runs/Cooldown/Budget.antt =====
-- The daily budget of ip_capped refusals in internal/runs/cooldown.go, over whole histories.
use freebuff_proxy_scaleway.Base.{
  ℕ, ◌+◌, ◌-◌, ◌≤◌, ◌<◌, ◌≡◌, none, some, List, [], ◌∷◌, leb, nat_eq, if◌then◌else◌, arith, inr,
  some_inj,
}
use mathlib.Core.Path.{subst, sym, ap, ◌∙◌}
use freebuff_proxy_scaleway.Upstream.Errors.{IpCappedError}
use freebuff_proxy_scaleway.Runs.Cooldown.{Cooldowns, cleared, ip_capped_error}
use freebuff_proxy_scaleway.Runs.Cooldown.Invariant.{
  IsConsistent, Reading, Event, rejected, unlocked, rate_limited, ip_capped, banned,
  country_blocked, apply, apply-IsConsistent, cleared-IsConsistent,
}
use freebuff_proxy_scaleway.Runs.Cooldown.Lock.{
  Lock, lock, lock_after, run, run_lock, AllSound, run-lock, capped, apply-lock, readers-lock,
}

-- How often the history was refused ip_capped.
abbrev pub refusals : List (Reading × Event) → ℕ
refusals [] = 0
refusals ((r, ip_capped (some e)) ∷ es) = (if leb e.retry_after 0 then 0 else 1) + refusals es
refusals ((r, _) ∷ es) = refusals es

-- Every call falls on the Pacific day that ends at `day`, and nobody unlocks the token or rejects
-- its credentials: those two start the budget afresh.
abbrev pub IsOneDay : ℕ → List (Reading × Event) → Type 0
IsOneDay day [] = Unit
IsOneDay day ((r, rejected d) ∷ es) = (d ≡ 0) × IsOneDay day es
IsOneDay day ((r, unlocked) ∷ es) = ⊥
IsOneDay day ((r, _) ∷ es) = (r.reset ≡ day) × IsOneDay day es

-- The refusals that the lock has counted towards this day.
abbrev spent_on : ℕ → Lock → ℕ
spent_on day l = if nat_eq l.day day then l.spent else 0

run_lock-spent :
    (day : ℕ) (es : List (Reading × Event)) (l : Lock)
    → IsOneDay day es
    → spent_on day (run_lock es l) ≡ refusals es + spent_on day l
unfolding lock_after
run_lock-spent day [] l s = omega arith
run_lock-spent day ((r, rejected d) ∷ es) l s =
    ground (arith, run_lock-spent day es (lock_after r (rejected d) l) s.1)
run_lock-spent day ((r, unlocked) ∷ es) l s = absurd s
run_lock-spent day ((r, rate_limited none) ∷ es) l s = run_lock-spent day es l s.1
run_lock-spent day ((r, rate_limited (some e)) ∷ es) l s =
    run_lock-spent day es (lock_after r (rate_limited (some e)) l) s.1
run_lock-spent day ((r, ip_capped none) ∷ es) l s = run_lock-spent day es l s.1
run_lock-spent day ((r, ip_capped (some e)) ∷ es) l s =
    ground (arith, run_lock-spent day es (lock_after r (ip_capped (some e)) l) s.1)
run_lock-spent day ((r, banned none) ∷ es) l s = run_lock-spent day es l s.1
run_lock-spent day ((r, banned (some e)) ∷ es) l s =
    run_lock-spent day es (lock_after r (banned (some e)) l) s.1
run_lock-spent day ((r, country_blocked none) ∷ es) l s = run_lock-spent day es l s.1
run_lock-spent day ((r, country_blocked (some e)) ∷ es) l s =
    ground (arith, run_lock-spent day es (lock_after r (country_blocked (some e)) l) s.1)

refuse_locks :
    (r : Reading) (e : IpCappedError) (l : Lock)
    → 0 < e.retry_after
    → 2 ≤ spent_on r.reset l
    → (lock_after r (ip_capped (some e)) l).until ≡ r.reset
      × ((lock_after r (ip_capped (some e)) l).cause
          ≡ capped (record e { retry_after = r.reset - r.now }))
unfolding lock_after
refuse_locks r e l h k = ground arith

-- Once a token was refused ip_capped twice on a Pacific day, the next such refusal of the day locks
-- it until the Pacific midnight, and until then its reader gives that refusal with the time left,
-- whatever other refusals the day had. This holds for a token whose history began on that day, was
-- not unlocked and had no rejected credentials in it, since those two start the budget afresh, and
-- for refusals that carry at least 5 ns.
pub third_refusal_locks :
    (es : List (Reading × Event)) (r : Reading) (e : IpCappedError) (m : Cooldowns)
    → AllSound es
    → IsOneDay r.reset es
    → run es cleared ≡ some m
    → 2 ≤ refusals es
    → r.now < r.reset
    → 5 ≤ e.retry_after
    → (m' : Cooldowns) × (apply r (ip_capped (some e)) m ≡ some m')
      × (m'.cooldown_until ≡ r.reset)
      × ((now : ℕ)
          → now < r.reset
          → ip_capped_error now m' ≡ some (record e { retry_after = r.reset - r.now }))
unfolding cleared
third_refusal_locks es r e m sound day ran two early long =
    let (m₀, ran₀, c, spec) = run-lock es cleared cleared-IsConsistent sound in
    let same : m₀ ≡ m = some_inj (sym ran₀ ∙ ran) in
    let c' : IsConsistent m = subst IsConsistent same c in
    let (m', done, spec') = apply-lock r (ip_capped (some e)) m c' (early, inr long) in
    let spent : spent_on r.reset (lock m) ≡ refusals es + spent_on r.reset (lock cleared) =
      ap (λ x. spent_on r.reset (lock x)) (sym same)
      ∙ ap (spent_on r.reset) spec
      ∙ run_lock-spent r.reset es (lock cleared) day in
    let locks = refuse_locks r e (lock m) (omega arith) (omega arith) in
    let until : m'.cooldown_until ≡ r.reset = ap (λ l. l.until) spec' ∙ locks.0 in
    let cause = ap (λ l. l.cause) spec' ∙ locks.1 in
    (
      m',
      done,
      until,
      λ now h.
          let read = readers-lock now m' (apply-IsConsistent r _ m m' done c') in
          ground (arith, read.3, until, cause),
    )
