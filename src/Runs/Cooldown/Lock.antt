-- ===== src/Runs/Cooldown/Lock.antt =====
-- What the cooldown fields of internal/runs/cooldown.go stand for: one lock with a deadline and a
-- cause, and the budget of ip_capped refusals of the current Pacific day.
use freebuff_proxy_scaleway.Base.{
  ℕ, ◌+◌, ◌-◌, ◌*◌, ◌/◌, ◌%◌, ◌≤◌, ◌<◌, ◌≡◌, refl, Bool, false, Option, none, some, List, [], ◌∷◌,
  leb, ltb, nat_eq, if◌then◌else◌, arith, min, ◌⊎◌,
}
use freebuff_proxy_scaleway.Base.Time.{minute, hour}
use freebuff_proxy_scaleway.Upstream.Errors.{
  RateLimitError, BanError, CountryBlockedError, IpCappedError,
}
use freebuff_proxy_scaleway.Runs.Cooldown.{
  Cooldowns, cleared, cooldown, clear_cooldowns, cooldown_rate_limit, cooldown_ip_capped,
  cooldown_ban, cooldown_country_blocked, is_some, lock_until_reset, count_refusal,
  cooldown_ceiling, capped_after, ip_capped_error, rate_limit_error, ban_error,
  country_blocked_error,
}
use freebuff_proxy_scaleway.Runs.Cooldown.Invariant.{
  IsConsistent, Reading, Event, rejected, unlocked, rate_limited, ip_capped, banned,
  country_blocked, apply, apply-IsConsistent,
}

pub data Cause : Type 0 where
  plain : Cause
  limited : RateLimitError → Cause
  ban : BanError → Cause
  country : CountryBlockedError → Cause
  capped : IpCappedError → Cause

pub record Lock : Type 0 where
  pub until : ℕ
  pub cause : Cause
  pub spent : ℕ
  pub day : ℕ

abbrev pub cause_of :
    Option RateLimitError
    → Option BanError
    → Option CountryBlockedError
    → Option IpCappedError
    → Cause
cause_of (some e) b c i = limited e
cause_of none (some e) c i = ban e
cause_of none none (some e) i = country e
cause_of none none none (some e) = capped e
cause_of none none none none = plain

abbrev pub lock : Cooldowns → Lock
lock m = record {
  until = m.cooldown_until;
  cause = cause_of m.rate_limit m.ban m.country_block m.ip_capped;
  spent = m.ip_capped_re_admits;
  day = m.ip_capped_day_reset;
}

abbrev pub as_limited : Cause → Option RateLimitError
as_limited (limited e) = some e
as_limited _ = none

abbrev pub as_ban : Cause → Option BanError
as_ban (ban e) = some e
as_ban _ = none

abbrev pub as_country : Cause → Option CountryBlockedError
as_country (country e) = some e
as_country _ = none

abbrev pub as_capped : Cause → Option IpCappedError
as_capped (capped e) = some e
as_capped _ = none

-- While the lock holds the four readers give its cause and nothing else, and after its deadline
-- they all give nothing.
pub readers-lock :
    (now : ℕ) (m : Cooldowns)
    → IsConsistent m
    → let cause = if ltb now (lock m).until then (lock m).cause else plain in
      (rate_limit_error now m ≡ as_limited cause)
      × (ban_error now m ≡ as_ban cause)
      × (country_blocked_error now m ≡ as_country cause)
      × (ip_capped_error now m ≡ as_capped cause)
unfolding rate_limit_error ban_error country_blocked_error ip_capped_error
readers-lock now m c = ground arith

-- The specification of each event on the lock.
abbrev pub longer_ban : ℕ → Lock → Bool
longer_ban now l = if ltb now l.until then is_some (as_ban l.cause) else false

-- An upstream duration or instant, held to seven days.
abbrev pub capped_instant : ℕ → ℕ → ℕ
capped_instant now t = min t (now + cooldown_ceiling)

abbrev pub limit_instant : ℕ → ℕ → RateLimitError → ℕ
limit_instant now reset e =
    if ltb 0 e.retry_after
    then capped_instant now (now + e.retry_after)
    else if ltb now e.reset_at
    then capped_instant now e.reset_at
    else reset

abbrev pub refuse : Reading → IpCappedError → Lock → Lock
refuse r e l =
    let spent = (if nat_eq l.day r.reset then l.spent else 0) + 1 in
    if leb 3 spent
    then record {
      until = r.reset;
      cause = capped (record e { retry_after = r.reset - r.now });
      spent = spent;
      day = r.reset;
    }
    else record {
      until = capped_instant r.now (r.now + (e.retry_after + r.draw % (e.retry_after / 5)));
      cause = capped e;
      spent = spent;
      day = r.reset;
    }

unfoldable pub lock_after : Reading → Event → Lock → Lock
lock_after r (rejected d) l =
    if leb d 0 then l else record { until = r.now + d; cause = plain; spent = 0; day = 0 }
lock_after r unlocked l = record { until = 0; cause = plain; spent = 0; day = 0 }
lock_after r (rate_limited none) l = l
lock_after r (rate_limited (some e)) l = record l {
  until = limit_instant r.now r.reset e;
  cause = limited e;
}
lock_after r (ip_capped none) l = l
lock_after r (ip_capped (some e)) l = if leb e.retry_after 0 then l else refuse r e l
lock_after r (banned none) l = l
lock_after r (banned (some e)) l = record l {
  until = if ltb r.now e.resumes_at then e.resumes_at else r.now + 24 * hour;
  cause = ban e;
}
lock_after r (country_blocked none) l = l
lock_after r (country_blocked (some e)) l =
    if longer_ban r.now l then l else record l { until = r.now + 15 * minute; cause = country e }

-- A refusal that carries a duration carries at least 5 ns, and the next Pacific midnight is ahead.
abbrev pub IsSound : Reading → Event → Type 0
IsSound r (ip_capped (some e)) = (r.now < r.reset) × (e.retry_after ≡ 0 ⊎ 5 ≤ e.retry_after)
IsSound r _ = r.now < r.reset

unfoldable pub after_capped : Reading → IpCappedError → Cooldowns → Cooldowns
unfolding count_refusal lock_until_reset capped_after
after_capped r e m =
    let m' = count_refusal r.reset m in
    let until = capped_after r.now (e.retry_after + r.draw % (e.retry_after / 5)) in
    if leb e.retry_after 0
    then m
    else if leb 3 m'.ip_capped_re_admits
    then lock_until_reset r.now r.reset e m'
    else record m' { ip_capped = some e; ip_capped_until = until; cooldown_until = until }

module _ (r : Reading) (m : Cooldowns) (c : IsConsistent m) where
  ip_capped-after_capped :
      (e : IpCappedError)
      → IsSound r (ip_capped (some e))
      → cooldown_ip_capped r.now r.reset r.draw (some e) m ≡ some (after_capped r e m)
  unfolding cooldown_ip_capped after_capped
  ip_capped-after_capped e s = ground arith

  pub after_capped-lock :
      (e : IpCappedError)
      → r.now < r.reset
      → lock (after_capped r e m) ≡ lock_after r (ip_capped (some e)) (lock m)
  unfolding after_capped lock_after
  after_capped-lock e s = ground arith

  country_blocked-lock :
      (e : CountryBlockedError)
      → lock (cooldown_country_blocked r.now (some e) m)
        ≡ lock_after r (country_blocked (some e)) (lock m)
  unfolding cooldown_country_blocked lock_after
  country_blocked-lock e = ground arith

  rate_limited-lock :
      (e : RateLimitError)
      → lock (cooldown_rate_limit r.now r.reset (some e) m)
        ≡ lock_after r (rate_limited (some e)) (lock m)
  unfolding cooldown_rate_limit lock_after
  rate_limited-lock e = ground arith

  banned-lock :
      (e : BanError)
      → lock (cooldown_ban r.now (some e) m) ≡ lock_after r (banned (some e)) (lock m)
  unfolding cooldown_ban lock_after
  banned-lock e = ground arith

  rejected-lock : (d : ℕ) → lock (cooldown r.now d m) ≡ lock_after r (rejected d) (lock m)
  unfolding cooldown lock_after
  rejected-lock d = ground arith

-- Every event succeeds, and does to the lock what its specification says.
pub apply-lock :
    (r : Reading) (e : Event) (m : Cooldowns)
    → IsConsistent m
    → IsSound r e
    → (m' : Cooldowns) × (apply r e m ≡ some m') × (lock m' ≡ lock_after r e (lock m))
unfolding apply lock_after clear_cooldowns cleared cooldown_rate_limit cooldown_ip_capped
    cooldown_ban cooldown_country_blocked
apply-lock r (rejected d) m c s = (_, refl, rejected-lock r m c d)
apply-lock r unlocked m c s = (_, refl, refl)
apply-lock r (rate_limited none) m c s = (m, refl, refl)
apply-lock r (rate_limited (some e)) m c s = (_, refl, rate_limited-lock r m c e)
apply-lock r (ip_capped none) m c s = (m, refl, refl)
apply-lock r (ip_capped (some e)) m c s =
    (after_capped r e m, ip_capped-after_capped r m c e s, after_capped-lock r m c e s.0)
apply-lock r (banned none) m c s = (m, refl, refl)
apply-lock r (banned (some e)) m c s = (_, refl, banned-lock r m c e)
apply-lock r (country_blocked none) m c s = (m, refl, refl)
apply-lock r (country_blocked (some e)) m c s = (_, refl, country_blocked-lock r m c e)

unfoldable pub run : List (Reading × Event) → Cooldowns → Option Cooldowns
run [] m = some m
run ((r, e) ∷ es) m = elim (apply r e m) [ none ↦ none | some m' ↦ run es m' ]

abbrev pub run_lock : List (Reading × Event) → Lock → Lock
run_lock [] l = l
run_lock ((r, e) ∷ es) l = run_lock es (lock_after r e l)

abbrev pub AllSound : List (Reading × Event) → Type 0
AllSound [] = Unit
AllSound ((r, e) ∷ es) = IsSound r e × AllSound es

-- A history runs to its end, keeps the fields consistent, and leaves the lock that the specification
-- computes for it, if the fields were consistent before, each call reads a Pacific midnight that is
-- ahead, and each ip_capped refusal carries no duration or one of at least 5 ns.
pub run-lock :
    (es : List (Reading × Event)) (m : Cooldowns)
    → IsConsistent m
    → AllSound es
    → (m' : Cooldowns) × (run es m ≡ some m') × IsConsistent m' × (lock m' ≡ run_lock es (lock m))
unfolding run
run-lock [] m c s = (m, refl, c, refl)
run-lock ((r, e) ∷ es) m c s =
    let (m₁, done, spec) = apply-lock r e m c s.0 in
    let (m₂, rest, c₂, spec₂) = run-lock es m₁ (apply-IsConsistent r e m m₁ done c) s.1 in
    (m₂, rw (done, run) rest, c₂, rw (← spec) spec₂)
