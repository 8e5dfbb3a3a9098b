-- ===== src/Pool/Buckets/Best.antt =====
-- The refusals that internal/pool picks from a bucket of several.
use freebuff_proxy_scaleway.Base.{
  ℕ, zero, suc, ◌≤◌, ◌≡◌, refl, sym, inl, inr, true, false, some, List, [], ◌∷◌, ltb, if◌then◌else◌,
  get_elem?, arith, Bool-cases,
}
use freebuff_proxy_scaleway.Base.Lists.{All}
use mathlib.Core.Path.{subst}
use freebuff_proxy_scaleway.Upstream.Errors.{RateLimitError}
use freebuff_proxy_scaleway.Pool.Buckets.{
  WaitingRoomError, better_wait, best_waiting_room, best_rate_limit, best_daily_limit,
  earliest_scarce,
}

better_wait_asymm : (a b : WaitingRoomError) → better_wait a b ≡ true → better_wait b a ≡ false
unfolding better_wait
better_wait_asymm a b h = ground arith

better_wait_trans :
    (a b c : WaitingRoomError)
    → better_wait a b ≡ false
    → better_wait b c ≡ false
    → better_wait a c ≡ false
unfolding better_wait
better_wait_trans a b c h k = ground arith

better_wait_irrefl : (a : WaitingRoomError) → better_wait a a ≡ false
unfolding better_wait
better_wait_irrefl a = ground arith

skip_second {ℓ} :
    {A : Type ℓ} (x y b : A) (xs : List A) (k : ℕ)
    → get_elem? (x ∷ xs) k ≡ some b
    → (j : ℕ) × (get_elem? (x ∷ y ∷ xs) j ≡ some b)
skip_second x y b xs zero e = (0, e)
skip_second x y b xs (suc k) e = (suc (suc k), e)

abbrev pub IsBestWait : WaitingRoomError → List WaitingRoomError → Type 0
IsBestWait best ws =
    ((k : ℕ) × (get_elem? ws k ≡ some best)) × All (λ x. better_wait x best ≡ false) ws

-- The waiting room that is surfaced is one of those collected, and none of them outranks it: no
-- known position is lower, and at its position no queue is shorter.
pub best_waiting_room_lem :
    (w : WaitingRoomError) (ws : List WaitingRoomError)
    → IsBestWait (best_waiting_room w ws) (w ∷ ws)
unfolding best_waiting_room
best_waiting_room_lem w [] = ((0, refl), (better_wait_irrefl w, tt))
best_waiting_room_lem w (x ∷ ws) = elim (Bool-cases (better_wait x w)) [
  | inl e ↦
      let ((k, there), (first, more)) = best_waiting_room_lem x ws in
      let step : best_waiting_room w (x ∷ ws) ≡ best_waiting_room x ws =
        rw (e, best_waiting_room) refl in
      subst (λ b. IsBestWait b (w ∷ x ∷ ws)) (sym step)
        (
          (suc k, there),
          (
            better_wait_trans w x (best_waiting_room x ws) (better_wait_asymm x w e) first,
            (first, more),
          ),
        )
  | inr e ↦
      let ((k, there), (first, more)) = best_waiting_room_lem w ws in
      let step : best_waiting_room w (x ∷ ws) ≡ best_waiting_room w ws =
        rw (e, best_waiting_room) refl in
      subst (λ b. IsBestWait b (w ∷ x ∷ ws)) (sym step)
        (
          skip_second w x (best_waiting_room w ws) ws k there,
          (first, (better_wait_trans x w (best_waiting_room w ws) e first, more)),
        )
]

abbrev pub IsEarliest : RateLimitError → List RateLimitError → Type 0
IsEarliest best es =
    ((k : ℕ) × (get_elem? es k ≡ some best)) × All (λ e. best.retry_after ≤ e.retry_after) es

-- The rate limit that is surfaced is one of those collected, and none of them ends sooner.
pub best_rate_limit_lem :
    (e : RateLimitError) (es : List RateLimitError) → IsEarliest (best_rate_limit e es) (e ∷ es)
unfolding best_rate_limit
best_rate_limit_lem e [] = ((0, refl), (omega arith, tt))
best_rate_limit_lem e (x ∷ es) = elim (Bool-cases (ltb x.retry_after e.retry_after)) [
  | inl less ↦
      let ((k, there), (first, more)) = best_rate_limit_lem x es in
      let step : best_rate_limit e (x ∷ es) ≡ best_rate_limit x es =
        rw (less, best_rate_limit) refl in
      subst (λ b. IsEarliest b (e ∷ x ∷ es)) (sym step)
        ((suc k, there), (ground (arith, first, less), (first, more)))
  | inr more_or_same ↦
      let ((k, there), (first, more)) = best_rate_limit_lem e es in
      let step : best_rate_limit e (x ∷ es) ≡ best_rate_limit e es =
        rw (more_or_same, best_rate_limit) refl in
      subst (λ b. IsEarliest b (e ∷ x ∷ es)) (sym step)
        (
          skip_second e x (best_rate_limit e es) es k there,
          (first, (ground (arith, first, more_or_same), more)),
        )
]

pub best_daily_limit-rate :
    (e : RateLimitError) (es : List RateLimitError) → best_daily_limit e es ≡ best_rate_limit e es
unfolding best_daily_limit best_rate_limit
best_daily_limit-rate e [] = refl
best_daily_limit-rate e (x ∷ es) =
    best_daily_limit-rate (if ltb x.retry_after e.retry_after then x else e) es

abbrev pub IsLowest : ℕ → List ℕ → Type 0
IsLowest best ts = ((k : ℕ) × (get_elem? ts k ≡ some best)) × All (λ t. best ≤ t) ts

pub earliest_scarce_lem : (t : ℕ) (ts : List ℕ) → IsLowest (earliest_scarce t ts) (t ∷ ts)
unfolding earliest_scarce
earliest_scarce_lem t [] = ((0, refl), (omega arith, tt))
earliest_scarce_lem t (x ∷ ts) = elim (Bool-cases (ltb x t)) [
  | inl less ↦
      let ((k, there), (first, more)) = earliest_scarce_lem x ts in
      let step : earliest_scarce t (x ∷ ts) ≡ earliest_scarce x ts =
        rw (less, earliest_scarce) refl in
      subst (λ b. IsLowest b (t ∷ x ∷ ts)) (sym step)
        ((suc k, there), (ground (arith, first, less), (first, more)))
  | inr more_or_same ↦
      let ((k, there), (first, more)) = earliest_scarce_lem t ts in
      let step : earliest_scarce t (x ∷ ts) ≡ earliest_scarce t ts =
        rw (more_or_same, earliest_scarce) refl in
      subst (λ b. IsLowest b (t ∷ x ∷ ts)) (sym step)
        (
          skip_second t x (earliest_scarce t ts) ts k there,
          (first, (ground (arith, first, more_or_same), more)),
        )
]
