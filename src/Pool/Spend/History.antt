-- ===== src/Pool/Spend/History.antt =====
-- The spend ledgers of internal/pool/spend.go after any history of amounts, refusals and views.
use freebuff_proxy_scaleway.Base.{
  ℕ, zero, suc, ◌+◌, ◌%◌, ◌^◌, ◌≤◌, ◌≡◌, refl, sym, ap, ◌∙◌, inl, inr, List, [], ◌∷◌, ◌++◌, arith,
  Option-cases,
}
use freebuff_proxy_scaleway.Base.Int.{pos, negsuc}
use freebuff_proxy_scaleway.Pool.Spend.{
  Zone, Period, day_period, week_period, month_period, bucket_start, needs_rollover, roll_bucket,
  SpendLedger, new_spend_ledger, prune_rolling, add, total_from, rolling24h, unix_to_time,
  SpendView, ledger_view,
}
use freebuff_proxy_scaleway.Pool.Spend.Live.{
  live, total, prune_rolling-live, live-live, live-append, live-IsOrdered, total_from-total,
}
use freebuff_proxy_scaleway.Pool.Spend.Calendar.{IsCalendar, spent_in, roll_bucket-spent_in}
use freebuff_proxy_scaleway.Pool.Spend.Uses.{
  Use, charged, refused, viewed, perform, ledger, charges, last_charge, refusals, latest,
  IsChronological, period_spent, no_charges, last_charge-bounds, charges-IsOrdered,
}

abbrev pub bucket : Period → SpendLedger → ℕ × ℕ
bucket day_period l = l.day_bucket
bucket week_period l = l.week_bucket
bucket month_period l = l.month_bucket

fresh_bucket : (p : Period) → bucket p new_spend_ledger ≡ (0, 0)
fresh_bucket day_period = refl
fresh_bucket week_period = refl
fresh_bucket month_period = refl

module _ (z : Zone) (now : ℕ) where
  refused_bucket :
      (l : SpendLedger) (p : Period) → bucket p (perform z (refused now) l) ≡ bucket p l
  unfolding perform
  refused_bucket l day_period = refl
  refused_bucket l week_period = refl
  refused_bucket l month_period = refl

  viewed_bucket : (l : SpendLedger) (p : Period) → bucket p (perform z (viewed now) l) ≡ bucket p l
  unfolding perform ledger_view rolling24h
  viewed_bucket l day_period = refl
  viewed_bucket l week_period = refl
  viewed_bucket l month_period = refl

  charged_bucket :
      (n : ℕ) (l : SpendLedger) (p : Period)
      → bucket p (perform z (charged (pos (suc n)) now) l)
        ≡ roll_bucket z (bucket p l) p now (suc n)
  unfolding perform add
  charged_bucket n l day_period = refl
  charged_bucket n l week_period = refl
  charged_bucket n l month_period = refl

module _ (z : Zone) (since : ℕ) (p : Period) (c : IsCalendar z since p) where
  first_charge :
      (now n : ℕ)
      → roll_bucket z (0, 0) p now n
        ≡ (let start = bucket_start z now p in (spent_in z p start ((now, n) ∷ []) % 2 ^ 64, start))
  unfolding roll_bucket needs_rollover
  first_charge now n =
      let own : spent_in z p (bucket_start z now p) ((now, n) ∷ []) ≡ 0 + n = ground arith in
      ap (λ x. (x % 2 ^ 64, bucket_start z now p)) (sym own)

  next_charge :
      (now n : ℕ) (ks : List Use)
      → IsChronological since (charged (pos (suc n)) now ∷ ks)
      → roll_bucket z (period_spent z p ks) p now (suc n)
        ≡ period_spent z p (charged (pos (suc n)) now ∷ ks)
  next_charge now n ks o = elim (Option-cases (last_charge ks)) [
    | inl e ↦ rw (e, no_charges ks e) (first_charge now (suc n))
    | inr (t, e) ↦
        let b = last_charge-bounds since ks t o.1 e in
        rw e (
          roll_bucket-spent_in z since p c (charges ks) t now (suc n) b.within b.starts
            (omega (arith, b.before, o.0)))
  ]

  -- Each bucket holds what was spent in the period of the latest amount.
  pub bucket-period_spent :
      (ks : List Use) → IsChronological since ks → bucket p (ledger z ks) ≡ period_spent z p ks
  unfolding perform add
  bucket-period_spent [] o = fresh_bucket p
  bucket-period_spent (charged (pos zero) now ∷ ks) o = bucket-period_spent ks o.1
  bucket-period_spent (charged (negsuc n) now ∷ ks) o = bucket-period_spent ks o.1
  bucket-period_spent (refused now ∷ ks) o =
      refused_bucket z now (ledger z ks) p ∙ bucket-period_spent ks o.1
  bucket-period_spent (viewed now ∷ ks) o =
      viewed_bucket z now (ledger z ks) p ∙ bucket-period_spent ks o.1
  bucket-period_spent (charged (pos (suc n)) now ∷ ks) o =
      charged_bucket z now n (ledger z ks) p
      ∙ ap (λ b. roll_bucket z b p now (suc n)) (bucket-period_spent ks o.1)
      ∙ next_charge now n ks o

-- What the rolling window keeps: the amounts whose 24 hours were open at some past use.
record Kept (z : Zone) (since : ℕ) (ks : List Use) : Type 0 where
  past : ℕ
  bound : past ≤ latest since ks
  kept : (ledger z ks).rolling ≡ live past (charges ks)

pruned :
    (z : Zone) (since now : ℕ) (ks : List Use)
    → IsChronological since ks
    → latest since ks ≤ now
    → Kept z since ks
    → prune_rolling now (ledger z ks).rolling ≡ live now (charges ks)
pruned z since now ks c h k =
    ap (prune_rolling now) k.kept
    ∙ prune_rolling-live now (live k.past (charges ks))
        (live-IsOrdered k.past (charges ks) (charges-IsOrdered since ks c))
    ∙ live-live now k.past (charges ks) (omega (arith, k.bound, h))

ledger-Kept : (z : Zone) (since : ℕ) (ks : List Use) → IsChronological since ks → Kept z since ks
unfolding perform add ledger_view rolling24h
ledger-Kept z since [] c = record { past = 0; bound = omega arith; kept = refl }
ledger-Kept z since (charged (pos zero) now ∷ ks) c =
    let k = ledger-Kept z since ks c.1 in
    record { past = k.past; bound = omega (arith, k.bound, c.0); kept = k.kept }
ledger-Kept z since (charged (negsuc n) now ∷ ks) c =
    let k = ledger-Kept z since ks c.1 in
    record { past = k.past; bound = omega (arith, k.bound, c.0); kept = k.kept }
ledger-Kept z since (refused now ∷ ks) c =
    let k = ledger-Kept z since ks c.1 in
    record { past = k.past; bound = omega (arith, k.bound, c.0); kept = k.kept }
ledger-Kept z since (viewed now ∷ ks) c = record {
  past = now;
  bound = omega arith;
  kept = pruned z since now ks c.1 c.0 (ledger-Kept z since ks c.1);
}
ledger-Kept z since (charged (pos (suc n)) now ∷ ks) c =
    let own : live now ((now, suc n) ∷ []) ≡ (now, suc n) ∷ [] = ground arith in
    record {
      past = now;
      bound = omega arith;
      kept =
          ap (λ es. es ++ (now, suc n) ∷ [])
            (pruned z since now ks c.1 c.0 (ledger-Kept z since ks c.1))
          ∙ ap (λ es. live now (charges ks) ++ es) (sym own)
          ∙ sym (live-append now (charges ks) ((now, suc n) ∷ []));
    }

refusals_counted : (z : Zone) (ks : List Use) → (ledger z ks).spend_limited ≡ refusals ks
unfolding perform add ledger_view rolling24h
refusals_counted z [] = refl
refusals_counted z (charged (pos zero) now ∷ ks) = refusals_counted z ks
refusals_counted z (charged (negsuc n) now ∷ ks) = refusals_counted z ks
refusals_counted z (charged (pos (suc n)) now ∷ ks) = refusals_counted z ks
refusals_counted z (refused now ∷ ks) = ap (λ x. x + 1) (refusals_counted z ks)
refusals_counted z (viewed now ∷ ks) = refusals_counted z ks

-- What a view after the history has to show.
abbrev pub true_view : Zone → ℕ → List Use → SpendView
true_view z now ks = record {
  rolling = total (live now (charges ks)) % 2 ^ 64;
  day = (period_spent z day_period ks).0;
  day_start = unix_to_time (period_spent z day_period ks).1;
  week = (period_spent z week_period ks).0;
  week_start = unix_to_time (period_spent z week_period ks).1;
  month = (period_spent z month_period ks).0;
  month_start = unix_to_time (period_spent z month_period ks).1;
  spend_limited = refusals ks;
}

-- After any history of one ledger a view shows the tokens of its last 24 hours, those of the day,
-- the week and the month of the latest amount with the starts of these periods, each sum as an
-- int64, and the number of refusals, if the clock does not run backwards and the calendar divides
-- the time into days, weeks and months.
pub ledger_view-ledger :
    (z : Zone) (since : ℕ) (ks : List Use) (now : ℕ)
    → ((p : Period) → IsCalendar z since p)
    → IsChronological since ks
    → latest since ks ≤ now
    → (ledger_view now (ledger z ks)).1 ≡ true_view z now ks
unfolding ledger_view rolling24h
ledger_view-ledger z since ks now c o h =
    let rolls : total_from 0 (prune_rolling now (ledger z ks).rolling)
        ≡ total (live now (charges ks)) % 2 ^ 64 =
      ap (total_from 0) (pruned z since now ks o h (ledger-Kept z since ks o))
      ∙ total_from-total 0 (live now (charges ks))
      ∙ ap (λ x. x % 2 ^ 64) (omega arith) in
    let day = bucket-period_spent z since day_period (c day_period) ks o in
    let week = bucket-period_spent z since week_period (c week_period) ks o in
    let month = bucket-period_spent z since month_period (c month_period) ks o in
    let refused = refusals_counted z ks in cc
