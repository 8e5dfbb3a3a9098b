-- ===== src/Runs/Cooldown/Tests.antt =====
-- Runs of internal/runs/cooldown.go, and instances of its theorems.
use freebuff_proxy_scaleway.Base.{
  ℕ, ◌+◌, ◌-◌, ◌*◌, ◌≡◌, ◌<◌, ◌≤◌, refl, not, none, some, List, [], ◌∷◌, ltb, if◌then◌else◌, arith,
}
use freebuff_proxy_scaleway.Base.Time.{minute, hour}
use freebuff_proxy_scaleway.Upstream.Errors.{BanError, CountryBlockedError, IpCappedError}
use freebuff_proxy_scaleway.Runs.Cooldown.{
  Cooldowns, cleared, cooldown, clear_cooldowns, cooldown_rate_limit, cooldown_ip_capped,
  cooldown_ban, cooldown_country_blocked, ip_capped_error, rate_limit_error, ban_error,
  country_blocked_error, cooldown_ceiling, is_some,
}
use freebuff_proxy_scaleway.Runs.Cooldown.Invariant.{
  IsConsistent, Reading, Event, ip_capped, banned, country_blocked, apply, cleared-IsConsistent,
}
use freebuff_proxy_scaleway.Runs.Cooldown.Lock.{
  lock, run, run_lock, AllSound, run-lock, readers-lock, plain, as_limited, as_ban, as_country,
  as_capped,
}
use freebuff_proxy_scaleway.Upstream.Samples.{decoder, capped_answer, capped_error, capped_failure}
use freebuff_proxy_scaleway.Runs.Cooldown.Panic.{meets_short, run-meets_short}
use freebuff_proxy_scaleway.Runs.Cooldown.Refused.{classified_lock}
use freebuff_proxy_scaleway.Runs.Cooldown.Budget.{third_refusal_locks}

operations : Unit {0}
unfolding cleared cooldown clear_cooldowns cooldown_rate_limit cooldown_ip_capped cooldown_ban
    cooldown_country_blocked ip_capped_error rate_limit_error ban_error country_blocked_error apply
    run
operations = tt

abbrev at : ℕ → Reading
at t = record { now = t; reset = 90 * hour; draw = 7 }

abbrev ban : BanError
ban = record { resumes_at = 20 * hour; body = "" }

abbrev block : CountryBlockedError
block = record { country_code = "XX"; country_block_reason = ""; ip_privacy_signals = [] }

abbrev refusal : IpCappedError
refusal = record { active_users_for_ip = 4; limit = 3; retry_after = minute; body = "" }

abbrev glitch : IpCappedError
glitch = record refusal { retry_after = 3 }

abbrev bad_day : List (Reading × Event)
bad_day =
    (at hour, ip_capped (some refusal))
    ∷ (at (2 * hour), banned (some ban))
    ∷ (at (3 * hour), country_blocked (some block))
    ∷ (at (4 * hour), ip_capped (some refusal))
    ∷ []

abbrev paused : Cooldowns
paused = record {
  cooldown_until = 4 * hour + minute + 7;
  rate_limit = none;
  ban_until = 20 * hour;
  ban = none;
  country_block = none;
  country_until = 0;
  ip_capped = some refusal;
  ip_capped_until = 4 * hour + minute + 7;
  ip_capped_re_admits = 2;
  ip_capped_day_reset = 90 * hour;
}

-- A country block does not end a ban, an ip_capped refusal does.
bad_day_runs : run bad_day cleared ≡ some paused
unfolding operations
bad_day_runs = refl

bad_day-AllSound : AllSound bad_day
bad_day-AllSound = omega arith

run-lock_example :
    (m' : Cooldowns) × (run bad_day cleared ≡ some m')
    × IsConsistent m'
    × (lock m' ≡ run_lock bad_day (lock cleared))
run-lock_example = run-lock bad_day cleared cleared-IsConsistent bad_day-AllSound

paused-IsConsistent : IsConsistent paused
paused-IsConsistent = record {
  single = omega arith;
  ban_shared = λ h. absurd (ground arith);
  country_shared = λ h. absurd (ground arith);
  capped_shared = λ h. refl;
}

readers-lock_example :
    let now : ℕ = 4 * hour + 1 in
    let cause = if ltb now (lock paused).until then (lock paused).cause else plain in
    (rate_limit_error now paused ≡ as_limited cause)
    × (ban_error now paused ≡ as_ban cause)
    × (country_blocked_error now paused ≡ as_country cause)
    × (ip_capped_error now paused ≡ as_capped cause)
readers-lock_example = readers-lock (4 * hour + 1) paused paused-IsConsistent

third_refusal_locks_example :
    (m' : Cooldowns) × (apply (at (5 * hour)) (ip_capped (some refusal)) paused ≡ some m')
    × (m'.cooldown_until ≡ 90 * hour)
    × ((now : ℕ)
        → now < 90 * hour
        → ip_capped_error now m' ≡ some (record refusal { retry_after = 90 * hour - 5 * hour }))
third_refusal_locks_example =
    third_refusal_locks bad_day (at (5 * hour)) refusal paused bad_day-AllSound (omega arith)
      bad_day_runs (omega arith) (omega arith) (omega arith)

-- The glitch is the second refusal of the day.
abbrev short_day : List (Reading × Event)
short_day =
    (at hour, ip_capped (some refusal))
    ∷ (at (2 * hour), banned (some ban))
    ∷ (at (3 * hour), ip_capped (some glitch))
    ∷ []

run-meets_short_example :
    is_some (run short_day cleared) ≡ not (meets_short short_day (lock cleared))
run-meets_short_example = run-meets_short short_day cleared cleared-IsConsistent (omega arith)

short_day_panics : run short_day cleared ≡ none
unfolding operations
short_day_panics = refl

classified_lock_example :
    let m = cooldown_rate_limit capped_answer.now capped_answer.reset (some capped_error) cleared in
    let until = capped_answer.now + capped_error.retry_after in
    (m.cooldown_until ≡ until)
    × (capped_answer.now < until)
    × (until ≤ capped_answer.now + cooldown_ceiling)
    × ((later : ℕ)
        → rate_limit_error later m ≡ (if ltb later until then some capped_error else none))
classified_lock_example = classified_lock decoder capped_answer cleared capped_error capped_failure
