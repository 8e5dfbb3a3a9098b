-- ===== src/Pool/Spend.antt =====
-- The spend ledger of internal/pool/spend.go: per token, the amounts of the last 24 hours and the
-- totals of the running Pacific day, week and month. Instants are in nanoseconds, the starts of the
-- periods in seconds, as the source keeps them; an amount is an int64, whose wrap-around stands as a
-- remainder. The case modelled is the one in which the zone database is present.
pub mod Live
pub mod Calendar
pub mod Uses
pub mod History
pub mod Tokens
mod Tests
use freebuff_proxy_scaleway.Base.{
  ℕ, suc, zero, ◌+◌, ◌*◌, ◌-◌, ◌/◌, ◌%◌, ◌^◌, Bool, true, not, Option, none, some, List, [], ◌∷◌,
  ◌++◌, ltb, nat_eq, if◌then◌else◌, get_elem?, set,
}
use freebuff_proxy_scaleway.Base.Int.{ℤ, pos, negsuc}
use freebuff_proxy_scaleway.Base.Time.{second, hour}

pub record Civil : Type 0 where
  pub year : ℕ
  pub month : ℕ
  pub day : ℕ

-- What the source asks of the time package with the zone America/Los_Angeles: the date and the day
-- of the week of an instant, the midnight that begins a date, and an instant moved by months and
-- days of the calendar.
pub record Zone : Type 0 where
  pub date : ℕ → Civil
  pub weekday : ℕ → ℕ
  pub midnight : Civil → ℕ
  pub add_date : ℕ → ℕ → ℤ → ℕ

pub data Period : Type 0 where
  day_period week_period month_period : Period

abbrev pub minus : ℕ → ℤ
minus zero = pos zero
minus (suc n) = negsuc n

-- The two functions that give the midnight of an instant and the one after a midnight.
abbrev pub pacific_day_start : Zone → ℕ → ℕ
pacific_day_start z now = z.midnight (z.date now)

abbrev pub next_pacific_midnight : Zone → ℕ → ℕ
next_pacific_midnight z start = z.add_date start 0 (pos 1)

abbrev pub bucket_start : Zone → ℕ → Period → ℕ
bucket_start z now week_period =
    let days = (z.weekday now + 6) % 7 in
    z.add_date (z.midnight (z.date now)) 0 (minus days) / second
bucket_start z now month_period =
    let n = z.date now in z.midnight (record { year = n.year; month = n.month; day = 1 }) / second
bucket_start z now day_period = pacific_day_start z now / second

-- The end of the window that began at `start`.
abbrev pub window_end : Zone → ℕ → Period → ℕ
window_end z start week_period = z.add_date (start * second) 0 (pos 7)
window_end z start month_period = z.add_date (start * second) 1 (pos 0)
window_end z start day_period = z.add_date (start * second) 0 (pos 1)

unfoldable pub needs_rollover : Zone → ℕ → Period → ℕ → Bool
needs_rollover z start p now = if nat_eq start 0 then true else not (ltb now (window_end z start p))

-- The sum of two int64 values.
abbrev pub add_int64 : ℕ → ℕ → ℕ
add_int64 a b = (a + b) % 2 ^ 64

unfoldable pub roll_bucket : Zone → ℕ × ℕ → Period → ℕ → ℕ → ℕ × ℕ
roll_bucket z (used, start) p now tokens =
    if needs_rollover z start p now
    then (add_int64 0 tokens, bucket_start z now p)
    else (add_int64 used tokens, start)

-- Each bucket is the amount used and the start of its period.
pub record SpendLedger : Type 0 where
  pub rolling : List (ℕ × ℕ)
  pub day_bucket : ℕ × ℕ
  pub week_bucket : ℕ × ℕ
  pub month_bucket : ℕ × ℕ
  pub spend_limited : ℕ

abbrev pub new_spend_ledger : SpendLedger
new_spend_ledger = record {
  rolling = [];
  day_bucket = (0, 0);
  week_bucket = (0, 0);
  month_bucket = (0, 0);
  spend_limited = 0;
}

abbrev pub rolling_window : ℕ
rolling_window = 24 * hour

-- The loop over `first` in `add` and in `rolling24h`.
unfoldable pub prune_rolling : ℕ → List (ℕ × ℕ) → List (ℕ × ℕ)
prune_rolling now [] = []
prune_rolling now (e ∷ es) =
    let rest = prune_rolling now es in if ltb (e.0 + rolling_window) now then rest else e ∷ es

unfoldable pub add : Zone → ℤ → ℕ → SpendLedger → SpendLedger
add z (pos zero) now l = l
add z (negsuc n) now l = l
add z (pos (suc n)) now l = record l {
  rolling = prune_rolling now l.rolling ++ (now, suc n) ∷ [];
  day_bucket = roll_bucket z l.day_bucket day_period now (suc n);
  week_bucket = roll_bucket z l.week_bucket week_period now (suc n);
  month_bucket = roll_bucket z l.month_bucket month_period now (suc n);
}

abbrev pub total_from : ℕ → List (ℕ × ℕ) → ℕ
total_from total [] = total
total_from total (e ∷ es) = total_from (add_int64 total e.1) es

unfoldable pub rolling24h : ℕ → SpendLedger → SpendLedger × ℕ
rolling24h now l =
    let kept = prune_rolling now l.rolling in (record l { rolling = kept }, total_from 0 kept)

-- A start of zero is shown as the zero time.
abbrev pub unix_to_time : ℕ → Option ℕ
unix_to_time zero = none
unix_to_time (suc s) = some (suc s * second)

pub record SpendView : Type 0 where
  pub rolling : ℕ
  pub day : ℕ
  pub day_start : Option ℕ
  pub week : ℕ
  pub week_start : Option ℕ
  pub month : ℕ
  pub month_start : Option ℕ
  pub spend_limited : ℕ

-- The view of a missing token.
abbrev pub no_view : SpendView
no_view = record {
  rolling = 0;
  day = 0;
  day_start = none;
  week = 0;
  week_start = none;
  month = 0;
  month_start = none;
  spend_limited = 0;
}

-- A view prunes the ledger that it shows.
unfoldable pub ledger_view : ℕ → SpendLedger → SpendLedger × SpendView
ledger_view now l =
    let (kept, total) = rolling24h now l in
    (
      kept,
      record {
        rolling = total;
        day = l.day_bucket.0;
        day_start = unix_to_time l.day_bucket.1;
        week = l.week_bucket.0;
        week_start = unix_to_time l.week_bucket.1;
        month = l.month_bucket.0;
        month_start = unix_to_time l.month_bucket.1;
        spend_limited = l.spend_limited;
      },
    )

-- The pool keeps one ledger per token; a call on an index without one does nothing.
unfoldable pub record_spend : Zone → ℕ → ℤ → ℕ → List SpendLedger → List SpendLedger
record_spend z token tokens now ledgers = elim (get_elem? ledgers token) [
  | none ↦ ledgers
  | some l ↦ set ledgers token (add z tokens now l)
]

unfoldable pub mark_spend_limited : ℕ → List SpendLedger → List SpendLedger
mark_spend_limited token ledgers = elim (get_elem? ledgers token) [
  | none ↦ ledgers
  | some l ↦ set ledgers token (record l { spend_limited = l.spend_limited + 1 })
]

unfoldable pub spend_snapshot : ℕ → ℕ → List SpendLedger → List SpendLedger × SpendView
spend_snapshot token now ledgers = elim (get_elem? ledgers token) [
  | none ↦ (ledgers, no_view)
  | some l ↦ (set ledgers token (ledger_view now l).0, (ledger_view now l).1)
]
