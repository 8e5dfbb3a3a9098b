-- ===== src/Server/Reply/Warn.antt =====
-- The ledger of internal/server/errors.go that thins out the warnings on rate limits.
use freebuff_proxy_scaleway.Base.{
  ℕ, ◌+◌, ◌/◌, ◌%◌, ◌≡◌, String, Bool, ◌&&◌, ◌||◌, Option, none, some, List, [], ◌∷◌, nat_eq, min,
  if◌then◌else◌, arith, Bool-cases, inl, inr, ap,
}
use freebuff_proxy_scaleway.Base.Counts.{times}
use freebuff_proxy_scaleway.Base.Eq.{◌==◌, String_eq}
use freebuff_proxy_scaleway.Base.Map.{lookup, insert, lookup-insert}

abbrev pub seen : Option ℕ → ℕ
seen none = 0
seen (some n) = n

pub rate_limit_warn_should_log : String → List (String × ℕ) → List (String × ℕ) × Bool
rate_limit_warn_should_log key m =
    let n = seen (lookup key m) + 1 in (insert key n m, nat_eq n 1 || nat_eq (n % 50) 0)

-- How many warnings of one key a sequence of refusals logs.
pub logged : String → List String → List (String × ℕ) → ℕ
unfolding rate_limit_warn_should_log
logged k [] m = 0
logged k (j ∷ js) m =
    let step = rate_limit_warn_should_log j m in
    let rest = logged k js step.0 in (if (j == k) && step.1 then 1 else 0) + rest

-- The first and every 50th of n.
abbrev pub first_and_50th : ℕ → ℕ
first_and_50th n = min 1 n + n / 50

tick :
    (n : ℕ)
    → (if nat_eq (n + 1) 1 || nat_eq ((n + 1) % 50) 0 then 1 else 0) + first_and_50th n
      ≡ first_and_50th (n + 1)
tick n = ground arith

logged-from :
    (k : String) (js : List String) (m : List (String × ℕ))
    → logged k js m + first_and_50th (seen (lookup k m))
      ≡ first_and_50th (seen (lookup k m) + times k js)
unfolding logged
logged-from k [] m = ground arith
logged-from k (j ∷ js) m =
    let n = seen (lookup j m) + 1 in
    let rest = logged-from k js (insert j n m) in
    let found = lookup-insert j k n m in
    elim (Bool-cases (j == k)) [
      | inl e ↦
          let same : seen (lookup j m) ≡ seen (lookup k m) =
            ap (λ i. seen (lookup i m)) ((String_eq.same_iff j k).0 e) in
          ground (arith, rest, found, same, tick (seen (lookup j m)))
      | inr e ↦ ground (arith, rest, found)
    ]

-- Of any number of refusals with one key, the first one and every 50th one is logged.
pub logged_lem : (k : String) (js : List String) → logged k js [] ≡ first_and_50th (times k js)
unfolding lookup
logged_lem k js = ground (arith, logged-from k js [])
