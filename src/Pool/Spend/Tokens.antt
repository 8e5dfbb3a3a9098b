-- ===== src/Pool/Spend/Tokens.antt =====
-- The ledgers of all fixed tokens, internal/pool/spend.go, after any history of the pool's uses.
use freebuff_proxy_scaleway.Base.{
  ℕ, ◌≤◌, ◌<◌, ◌≡◌, refl, ap, ◌∙◌, inl, inr, some, List, [], ◌∷◌, nat_eq, if◌then◌else◌, get_elem?,
  arith, Bool-cases, Option-cases,
}
use freebuff_proxy_scaleway.Base.Lists.{replicate, get_elem?-replicate}
use freebuff_proxy_scaleway.Base.Change.{change, get_elem?-change}
use freebuff_proxy_scaleway.Pool.Spend.{
  Zone, Period, SpendLedger, new_spend_ledger, ledger_view, record_spend, mark_spend_limited,
  spend_snapshot,
}
use freebuff_proxy_scaleway.Pool.Spend.Calendar.{IsCalendar}
use freebuff_proxy_scaleway.Pool.Spend.Uses.{
  Use, charged, refused, viewed, instant, perform, ledger, latest, IsChronological,
}
use freebuff_proxy_scaleway.Pool.Spend.History.{true_view, ledger_view-ledger}

-- A use of the ledger of a token: `recordSpend`, `recordSpendLimited` or `spendSnapshot`.
abbrev pub perform_on : Zone → ℕ × Use → List SpendLedger → List SpendLedger
perform_on z (token, charged k now) ledgers = record_spend z token k now ledgers
perform_on z (token, refused now) ledgers = mark_spend_limited token ledgers
perform_on z (token, viewed now) ledgers = (spend_snapshot token now ledgers).0

-- The uses of a history, latest first, on the ledgers of `n` new tokens.
abbrev pub ledgers : Zone → ℕ → List (ℕ × Use) → List SpendLedger
ledgers z n [] = replicate n new_spend_ledger
ledgers z n (k ∷ ks) = perform_on z k (ledgers z n ks)

-- The uses of one token.
abbrev pub uses_of : ℕ → List (ℕ × Use) → List Use
uses_of i [] = []
uses_of i (k ∷ ks) = let rest = uses_of i ks in if nat_eq k.0 i then k.1 ∷ rest else rest

abbrev pub latest_use : ℕ → List (ℕ × Use) → ℕ
latest_use since [] = since
latest_use since (k ∷ ks) = instant k.1

-- The clock of the pool starts at `since` and does not run backwards.
abbrev pub IsTimed : ℕ → List (ℕ × Use) → Type 0
IsTimed since [] = Unit
IsTimed since (k ∷ ks) = (latest_use since ks ≤ instant k.1) × IsTimed since ks

uses_of-latest :
    (since i : ℕ) (ks : List (ℕ × Use))
    → IsTimed since ks
    → (since ≤ latest_use since ks) × (latest since (uses_of i ks) ≤ latest_use since ks)
uses_of-latest since i [] o = (omega arith, omega arith)
uses_of-latest since i (k ∷ ks) o =
    let before = uses_of-latest since i ks o.1 in
    elim (Bool-cases (nat_eq k.0 i)) [
      | inl e ↦ rw e (omega (arith, before.0, o.0), omega arith)
      | inr e ↦ rw e (omega (arith, before.0, o.0), omega (arith, before.1, o.0))
    ]

uses_of-IsChronological :
    (since i : ℕ) (ks : List (ℕ × Use)) → IsTimed since ks → IsChronological since (uses_of i ks)
uses_of-IsChronological since i [] o = tt
uses_of-IsChronological since i (k ∷ ks) o =
    let rest = uses_of-IsChronological since i ks o.1 in
    elim (Bool-cases (nat_eq k.0 i)) [
      | inl e ↦ rw e (omega (arith, (uses_of-latest since i ks o.1).1, o.0), rest)
      | inr e ↦ rw e rest
    ]

snapshot-change :
    (now t : ℕ) (ls : List SpendLedger)
    → (spend_snapshot t now ls).0 ≡ change (λ l. (ledger_view now l).0) t ls
unfolding spend_snapshot
snapshot-change now t ls = elim (Option-cases (get_elem? ls t)) [
  | inl e ↦ rw (spend_snapshot, change, e) refl
  | inr (l, e) ↦ rw (spend_snapshot, change, e) refl
]

-- A use rewrites the ledger of its token.
perform_on-change :
    (z : Zone) (k : ℕ × Use) (ls : List SpendLedger)
    → perform_on z k ls ≡ change (perform z k.1) k.0 ls
unfolding perform record_spend mark_spend_limited
perform_on-change z (token, charged k now) ls = refl
perform_on-change z (token, refused now) ls = refl
perform_on-change z (token, viewed now) ls = snapshot-change now token ls

-- The ledger of a token is the one that its own uses leave.
ledgers-ledger :
    (z : Zone) (n i : ℕ) (ks : List (ℕ × Use))
    → i < n
    → get_elem? (ledgers z n ks) i ≡ some (ledger z (uses_of i ks))
ledgers-ledger z n i [] h = get_elem?-replicate n new_spend_ledger i h
ledgers-ledger z n i (k ∷ ks) h =
    let old = ledgers-ledger z n i ks h in
    let new =
      get_elem?-change (perform z k.1) k.0 i (ledgers z n ks) (ledger z (uses_of i ks)) old in
    ap (λ ls. get_elem? ls i) (perform_on-change z k (ledgers z n ks))
    ∙ new
    ∙ elim (Bool-cases (nat_eq k.0 i)) [ inl e ↦ rw e refl | inr e ↦ rw e refl ]

-- After any history of the pool's uses the snapshot of a token shows the tokens of its last 24
-- hours, those of the day, the week and the month of its latest amount with the starts of these
-- periods, each sum as an int64, and the number of its refusals, if the clock does not run
-- backwards and the calendar of the zone divides the time into days, weeks and months.
pub spend_snapshot-ledgers :
    (z : Zone) (since n i : ℕ) (ks : List (ℕ × Use)) (now : ℕ)
    → ((p : Period) → IsCalendar z since p)
    → i < n
    → IsTimed since ks
    → latest_use since ks ≤ now
    → (spend_snapshot i now (ledgers z n ks)).1 ≡ true_view z now (uses_of i ks)
unfolding spend_snapshot
spend_snapshot-ledgers z since n i ks now c h o late =
    rw (spend_snapshot, ledgers-ledger z n i ks h)
      (ledger_view-ledger z since (uses_of i ks) now c (uses_of-IsChronological since i ks o)
        (omega (arith, (uses_of-latest since i ks o).1, late)))
