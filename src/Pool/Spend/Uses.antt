-- ===== src/Pool/Spend/Uses.antt =====
-- Histories of one spend ledger of internal/pool/spend.go: amounts, refusals and views.
use freebuff_proxy_scaleway.Base.{
  ℕ, zero, suc, ◌+◌, ◌%◌, ◌^◌, ◌≤◌, ◌≡◌, refl, Option, none, some, List, [], ◌∷◌, ◌++◌, arith,
  some_inj,
}
use mathlib.Core.Path.{subst}
use freebuff_proxy_scaleway.Base.Int.{ℤ, pos, negsuc}
use freebuff_proxy_scaleway.Base.Lists.{All, All-append, All-map}
use freebuff_proxy_scaleway.Pool.Spend.{
  Zone, Period, bucket_start, SpendLedger, new_spend_ledger, add, ledger_view,
}
use freebuff_proxy_scaleway.Pool.Spend.Live.{IsOrdered, append-IsOrdered}
use freebuff_proxy_scaleway.Pool.Spend.Calendar.{spent_in}

-- A use of one ledger at an instant: an amount, a spend_limited refusal, or a view.
pub data Use : Type 0 where
  charged : ℤ → ℕ → Use
  refused viewed : ℕ → Use

abbrev pub instant : Use → ℕ
instant (charged k now) = now
instant (refused now) = now
instant (viewed now) = now

unfoldable pub perform : Zone → Use → SpendLedger → SpendLedger
perform z (charged k now) l = add z k now l
perform z (refused now) l = record l { spend_limited = l.spend_limited + 1 }
perform z (viewed now) l = (ledger_view now l).0

-- The uses of a history, latest first, on a new ledger.
abbrev pub ledger : Zone → List Use → SpendLedger
ledger z [] = new_spend_ledger
ledger z (k ∷ ks) = perform z k (ledger z ks)

-- All amounts of the history, oldest first: those that are not positive count for nothing.
abbrev pub charges : List Use → List (ℕ × ℕ)
charges [] = []
charges (charged (pos zero) now ∷ ks) = charges ks
charges (charged (pos (suc n)) now ∷ ks) = charges ks ++ (now, suc n) ∷ []
charges (charged (negsuc n) now ∷ ks) = charges ks
charges (refused now ∷ ks) = charges ks
charges (viewed now ∷ ks) = charges ks

-- The instant of the latest amount.
abbrev pub last_charge : List Use → Option ℕ
last_charge [] = none
last_charge (charged (pos zero) now ∷ ks) = last_charge ks
last_charge (charged (pos (suc n)) now ∷ ks) = some now
last_charge (charged (negsuc n) now ∷ ks) = last_charge ks
last_charge (refused now ∷ ks) = last_charge ks
last_charge (viewed now ∷ ks) = last_charge ks

abbrev pub refusals : List Use → ℕ
refusals [] = 0
refusals (charged k now ∷ ks) = refusals ks
refusals (refused now ∷ ks) = refusals ks + 1
refusals (viewed now ∷ ks) = refusals ks

abbrev pub latest : ℕ → List Use → ℕ
latest since [] = since
latest since (k ∷ ks) = instant k

-- The clock starts at `since` and does not run backwards.
abbrev pub IsChronological : ℕ → List Use → Type 0
IsChronological since [] = Unit
IsChronological since (k ∷ ks) = (latest since ks ≤ instant k) × IsChronological since ks

-- The amounts of the period of an instant, and the start of that period.
abbrev pub spent_at : Zone → Period → List (ℕ × ℕ) → Option ℕ → ℕ × ℕ
spent_at z p es none = (0, 0)
spent_at z p es (some t) = let start = bucket_start z t p in (spent_in z p start es % 2 ^ 64, start)

-- The amounts of the period of the latest one.
abbrev pub period_spent : Zone → Period → List Use → ℕ × ℕ
period_spent z p ks = spent_at z p (charges ks) (last_charge ks)

pub no_charges : (ks : List Use) → last_charge ks ≡ none → charges ks ≡ []
no_charges [] e = refl
no_charges (charged (pos zero) now ∷ ks) e = no_charges ks e
no_charges (charged (pos (suc n)) now ∷ ks) e = cc
no_charges (charged (negsuc n) now ∷ ks) e = no_charges ks e
no_charges (refused now ∷ ks) e = no_charges ks e
no_charges (viewed now ∷ ks) e = no_charges ks e

abbrev pub Within : ℕ → ℕ → List (ℕ × ℕ) → Type 0
Within since t es = All (λ e. (since ≤ e.0) × (e.0 ≤ t)) es

later_Within : (since t u : ℕ) (es : List (ℕ × ℕ)) → t ≤ u → Within since t es → Within since u es
later_Within since t u es h w = All-map (λ e b. (b.0, omega (arith, b.1, h))) es w

pub latest-since : (since : ℕ) (ks : List Use) → IsChronological since ks → since ≤ latest since ks
latest-since since [] c = omega arith
latest-since since (k ∷ ks) c = omega (arith, latest-since since ks c.1, c.0)

pub charges-Within :
    (since : ℕ) (ks : List Use)
    → IsChronological since ks
    → Within since (latest since ks) (charges ks)
charges-Within since [] c = tt
charges-Within since (charged (pos zero) now ∷ ks) c =
    later_Within since (latest since ks) now (charges ks) c.0 (charges-Within since ks c.1)
charges-Within since (charged (negsuc n) now ∷ ks) c =
    later_Within since (latest since ks) now (charges ks) c.0 (charges-Within since ks c.1)
charges-Within since (refused now ∷ ks) c =
    later_Within since (latest since ks) now (charges ks) c.0 (charges-Within since ks c.1)
charges-Within since (viewed now ∷ ks) c =
    later_Within since (latest since ks) now (charges ks) c.0 (charges-Within since ks c.1)
charges-Within since (charged (pos (suc n)) now ∷ ks) c =
    All-append (λ e. (since ≤ e.0) × (e.0 ≤ now)) (charges ks) ((now, suc n) ∷ [])
      (later_Within since (latest since ks) now (charges ks) c.0 (charges-Within since ks c.1))
      ((omega (arith, c.0, latest-since since ks c.1), omega arith), tt)

pub record LastBounds (since : ℕ) (ks : List Use) (t : ℕ) : Type 0 where
  pub starts : since ≤ t
  pub before : t ≤ latest since ks
  pub within : Within since t (charges ks)

last_quiet :
    {since t now : ℕ} (ks : List Use)
    → latest since ks ≤ now
    → LastBounds since ks t
    → LastBounds since (viewed now ∷ ks) t
last_quiet ks h b = record {
  starts = b.starts;
  before = omega (arith, b.before, h);
  within = b.within;
}

pub last_charge-bounds :
    (since : ℕ) (ks : List Use) (t : ℕ)
    → IsChronological since ks
    → last_charge ks ≡ some t
    → LastBounds since ks t
last_charge-bounds since [] t c e = cc
last_charge-bounds since (charged (pos zero) now ∷ ks) t c e =
    let b = last_quiet {now = now} ks c.0 (last_charge-bounds since ks t c.1 e) in
    record { starts = b.starts; before = b.before; within = b.within }
last_charge-bounds since (charged (negsuc n) now ∷ ks) t c e =
    let b = last_quiet {now = now} ks c.0 (last_charge-bounds since ks t c.1 e) in
    record { starts = b.starts; before = b.before; within = b.within }
last_charge-bounds since (refused now ∷ ks) t c e =
    let b = last_quiet {now = now} ks c.0 (last_charge-bounds since ks t c.1 e) in
    record { starts = b.starts; before = b.before; within = b.within }
last_charge-bounds since (viewed now ∷ ks) t c e =
    last_quiet {now = now} ks c.0 (last_charge-bounds since ks t c.1 e)
last_charge-bounds since (charged (pos (suc n)) now ∷ ks) t c e =
    let same : now ≡ t = some_inj e in
    let w = charges-Within since (charged (pos (suc n)) now ∷ ks) c in
    record {
      starts = omega (arith, c.0, latest-since since ks c.1, same);
      before = omega (arith, same);
      within = subst (λ u. Within since u (charges ks ++ (now, suc n) ∷ [])) same w;
    }

pub charges-IsOrdered :
    (since : ℕ) (ks : List Use) → IsChronological since ks → IsOrdered (charges ks)
charges-IsOrdered since [] c = tt
charges-IsOrdered since (charged (pos zero) now ∷ ks) c = charges-IsOrdered since ks c.1
charges-IsOrdered since (charged (negsuc n) now ∷ ks) c = charges-IsOrdered since ks c.1
charges-IsOrdered since (refused now ∷ ks) c = charges-IsOrdered since ks c.1
charges-IsOrdered since (viewed now ∷ ks) c = charges-IsOrdered since ks c.1
charges-IsOrdered since (charged (pos (suc n)) now ∷ ks) c =
    append-IsOrdered (charges ks) (now, suc n) (charges-IsOrdered since ks c.1)
      (All-map (λ e b. omega (arith, b.1, c.0)) (charges ks) (charges-Within since ks c.1))
