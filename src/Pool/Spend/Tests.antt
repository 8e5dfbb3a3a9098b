-- ===== src/Pool/Spend/Tests.antt =====
-- The spend ledger of internal/pool/spend.go on concrete histories.
use freebuff_proxy_scaleway.Base.{
  ℕ, zero, suc, ◌+◌, ◌*◌, ◌-◌, ◌/◌, ◌%◌, ◌≡◌, refl, ap, ◌∙◌, some, List, [], ◌∷◌, arith,
}
use freebuff_proxy_scaleway.Base.Int.{ℤ, pos, negsuc}
use freebuff_proxy_scaleway.Base.Time.{second, hour}
use freebuff_proxy_scaleway.Pool.Spend.{
  Zone, Period, day_period, week_period, month_period, bucket_start, minus, spend_snapshot,
}
use freebuff_proxy_scaleway.Pool.Spend.Calendar.{IsCalendar}
use freebuff_proxy_scaleway.Pool.Spend.Uses.{Use, charged, refused, viewed}
use freebuff_proxy_scaleway.Pool.Spend.History.{true_view}
use freebuff_proxy_scaleway.Pool.Spend.Tokens.{ledgers, uses_of, spend_snapshot-ledgers}

abbrev day_length : ℕ
day_length = 24 * hour

-- A zone without offset, whose first day is a Monday and whose months have 28 days.
abbrev moved : ℕ → ℕ → ℤ → ℕ
moved t months (pos days) = t + (months * 28 + days) * day_length
moved t months (negsuc n) = t + months * 28 * day_length - suc n * day_length

abbrev plain_zone : Zone
plain_zone = record {
  date = λ t. record { year = 0; month = t / day_length / 28; day = t / day_length % 28 + 1 };
  weekday = λ t. (t / day_length + 1) % 7;
  midnight = λ c. (c.month * 28 + (c.day - 1)) * day_length;
  add_date = moved;
}

moved-minus : (t k : ℕ) → moved t 0 (minus k) ≡ t - k * day_length
moved-minus t zero = omega arith
moved-minus t (suc n) = omega arith

day_starts : (t : ℕ) → bucket_start plain_zone t day_period ≡ t / day_length * 86400
day_starts t = omega arith

week_starts : (t : ℕ) → bucket_start plain_zone t week_period ≡ t / (7 * day_length) * (7 * 86400)
week_starts t =
    ap (λ x. x / second)
      (moved-minus (plain_zone.midnight (plain_zone.date t)) ((plain_zone.weekday t + 6) % 7))
    ∙ omega arith

month_starts :
    (t : ℕ) → bucket_start plain_zone t month_period ≡ t / (28 * day_length) * (28 * 86400)
month_starts t = omega arith

-- Its days, weeks and months divide the time.
day-IsCalendar : IsCalendar plain_zone (28 * day_length) day_period
day-IsCalendar = record {
  begins = λ t h. omega (arith, day_starts t);
  ends = λ t h. omega (arith, day_starts t);
  unique = λ t u h k a b. omega (arith, day_starts t, day_starts u, a, b);
  after_epoch = λ t h. omega (arith, day_starts t, h);
}

week-IsCalendar : IsCalendar plain_zone (28 * day_length) week_period
week-IsCalendar = record {
  begins = λ t h. omega (arith, week_starts t);
  ends = λ t h. omega (arith, week_starts t);
  unique = λ t u h k a b. omega (arith, week_starts t, week_starts u, a, b);
  after_epoch = λ t h. omega (arith, week_starts t, h);
}

month-IsCalendar : IsCalendar plain_zone (28 * day_length) month_period
month-IsCalendar = record {
  begins = λ t h. omega (arith, month_starts t);
  ends = λ t h. omega (arith, month_starts t);
  unique = λ t u h k a b. omega (arith, month_starts t, month_starts u, a, b);
  after_epoch = λ t h. omega (arith, month_starts t, h);
}

calendar : (p : Period) → IsCalendar plain_zone (28 * day_length) p
calendar day_period = day-IsCalendar
calendar week_period = week-IsCalendar
calendar month_period = month-IsCalendar

abbrev at : ℕ → ℕ → ℕ
at day hours = day * day_length + hours * hour

-- Two tokens; the first spends on a Monday, late on Tuesday and on Wednesday, and is refused once.
abbrev spends : List (ℕ × Use)
spends =
    (0, charged (pos 40) (at 30 9))
    ∷ (1, charged (pos 7) (at 30 8))
    ∷ (0, refused (at 29 23))
    ∷ (0, charged (pos 30) (at 29 22))
    ∷ (0, viewed (at 29 1))
    ∷ (0, charged (negsuc 0) (at 28 12))
    ∷ (0, charged (pos 20) (at 28 10))
    ∷ []

spend_snapshot-ledgers_example :
    (spend_snapshot 0 (at 30 12) (ledgers plain_zone 2 spends)).1
    ≡ true_view plain_zone (at 30 12) (uses_of 0 spends)
spend_snapshot-ledgers_example =
    spend_snapshot-ledgers plain_zone (28 * day_length) 2 0 spends (at 30 12) calendar (omega arith)
      (
        omega arith,
        (
          omega arith,
          (omega arith, (omega arith, (omega arith, (omega arith, (omega arith, tt))))),
        ),
      )
      (omega arith)

shown : true_view plain_zone (at 30 12) (uses_of 0 spends) ≡ record {
  rolling = 70;
  day = 40;
  day_start = some (at 30 0);
  week = 90;
  week_start = some (at 28 0);
  month = 90;
  month_start = some (at 28 0);
  spend_limited = 1;
}
shown = refl
