-- ===== src/Pool/Usage/Window.antt =====
-- The rolling window of internal/pool/quota.go on one history of instants.
use freebuff_proxy_scaleway.Base.{
  ℕ, ◌+◌, ◌≤◌, ◌<◌, ◌≡◌, refl, List, [], ◌∷◌, ◌++◌, ltb, if◌then◌else◌, length, arith,
}
use freebuff_proxy_scaleway.Base.Lists.{All, All-append}
use freebuff_proxy_scaleway.Pool.Usage.{usage_window, drop_expired}

-- The instants whose window is open at `now`.
abbrev pub recent : ℕ → List ℕ → List ℕ
recent now [] = []
recent now (t ∷ ts) =
    let rest = recent now ts in if ltb (t + usage_window) now then rest else t ∷ rest

abbrev pub IsSorted : List ℕ → Type 0
IsSorted [] = Unit
IsSorted (t ∷ ts) = All (λ s. t ≤ s) ts × IsSorted ts

recent_all :
    (now t : ℕ) (ts : List ℕ) → All (λ s. t ≤ s) ts → now ≤ t + usage_window → recent now ts ≡ ts
recent_all now t [] a h = refl
recent_all now t (s ∷ ts) a h = ground (arith, recent_all now t ts a.1 h, a.0)

pub drop_expired-recent :
    (now : ℕ) (ts : List ℕ) → IsSorted ts → drop_expired now ts ≡ recent now ts
unfolding drop_expired
drop_expired-recent now [] s = refl
drop_expired-recent now (t ∷ ts) s =
    ground (arith, drop_expired-recent now ts s.1, recent_all now t ts s.0)

pub recent-recent :
    (now past : ℕ) (ts : List ℕ) → past ≤ now → recent now (recent past ts) ≡ recent now ts
recent-recent now past [] h = refl
recent-recent now past (t ∷ ts) h = ground (arith, recent-recent now past ts h)

pub recent-append :
    (now : ℕ) (ts us : List ℕ) → recent now (ts ++ us) ≡ recent now ts ++ recent now us
recent-append now [] us = refl
recent-append now (t ∷ ts) us = ground (arith, recent-append now ts us)

recent-All {ℓ} : (P : ℕ → Type ℓ) (now : ℕ) (ts : List ℕ) → All P ts → All P (recent now ts)
recent-All P now [] a = tt
recent-All P now (t ∷ ts) a = ground (arith, recent-All P now ts a.1, a.0)

pub recent-IsSorted : (now : ℕ) (ts : List ℕ) → IsSorted ts → IsSorted (recent now ts)
recent-IsSorted now [] s = tt
recent-IsSorted now (t ∷ ts) s =
    ground (arith, recent-IsSorted now ts s.1, recent-All (λ u. t ≤ u) now ts s.0)

pub append-IsSorted :
    (ts : List ℕ) (u : ℕ) → IsSorted ts → All (λ t. t ≤ u) ts → IsSorted (ts ++ u ∷ [])
append-IsSorted [] u s a = (tt, tt)
append-IsSorted (t ∷ ts) u s a =
    (All-append (λ s. t ≤ s) ts (u ∷ []) s.0 (a.0, tt), append-IsSorted ts u s.1 a.1)

recent-length : (now : ℕ) (ts : List ℕ) → length (recent now ts) ≤ length ts
recent-length now [] = omega arith
recent-length now (t ∷ ts) = ground (arith, recent-length now ts)

-- The oldest open window decides when the count falls: not before it closes, and then at once.
pub recent_falls :
    (now later t : ℕ) (ts : List ℕ)
    → IsSorted (t ∷ ts)
    → now ≤ t + usage_window
    → (later ≤ t + usage_window → recent later (t ∷ ts) ≡ t ∷ ts)
      × (t + usage_window < later → length (recent later (t ∷ ts)) < length (t ∷ ts))
recent_falls now later t ts s h =
    (λ k. ground (arith, recent_all later t ts s.0 k), λ k. ground (arith, recent-length later ts))

pub recent-open : (now : ℕ) (ts : List ℕ) → All (λ t. now ≤ t + usage_window) (recent now ts)
recent-open now [] = tt
recent-open now (t ∷ ts) = ground (arith, recent-open now ts)
