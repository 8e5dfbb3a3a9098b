-- ===== src/Pool/Spend/Calendar.antt =====
-- The periods of internal/pool/spend.go: what the calendar of the zone guarantees, and one bucket
-- under one more amount.
use freebuff_proxy_scaleway.Base.{
  ℕ, ◌+◌, ◌*◌, ◌%◌, ◌^◌, ◌≤◌, ◌<◌, ◌≡◌, ◌≢◌, refl, sym, ap, ◌∙◌, false, not, List, [], ◌∷◌, ◌++◌,
  ltb, nat_eq, nat_eq_iff, if◌then◌else◌, arith, Bool-cases, inl, inr, ltb→lt,
}
use freebuff_proxy_scaleway.Base.Lists.{All, All-map}
use freebuff_proxy_scaleway.Base.Time.{second}
use mathlib.Core.Path.{subst}
use native.Mathlib.Nat.{mod-add-mod}
use freebuff_proxy_scaleway.Pool.Spend.{
  Zone, Period, bucket_start, window_end, needs_rollover, roll_bucket,
}

-- From `since` on, each instant lies in the period that begins at its bucket start, and every
-- instant of that period has the same start.
pub record IsCalendar (z : Zone) (since : ℕ) (p : Period) : Type 0 where
  pub begins : (t : ℕ) → since ≤ t → bucket_start z t p * second ≤ t
  pub ends : (t : ℕ) → since ≤ t → t < window_end z (bucket_start z t p) p
  pub unique :
      (t u : ℕ)
      → since ≤ t
      → since ≤ u
      → bucket_start z t p * second ≤ u
      → u < window_end z (bucket_start z t p) p
      → bucket_start z u p ≡ bucket_start z t p
  pub after_epoch : (t : ℕ) → since ≤ t → 0 < bucket_start z t p

-- The amounts of the period that began at `start`.
abbrev pub spent_in : Zone → Period → ℕ → List (ℕ × ℕ) → ℕ
spent_in z p start [] = 0
spent_in z p start (e ∷ es) =
    (if nat_eq (bucket_start z e.0 p) start then e.1 else 0) + spent_in z p start es

pub spent_in-append :
    (z : Zone) (p : Period) (start : ℕ) (es fs : List (ℕ × ℕ))
    → spent_in z p start (es ++ fs) ≡ spent_in z p start es + spent_in z p start fs
spent_in-append z p start [] fs = omega arith
spent_in-append z p start (e ∷ es) fs =
    ap (λ x. (if nat_eq (bucket_start z e.0 p) start then e.1 else 0) + x)
      (spent_in-append z p start es fs)
    ∙ omega arith

spent_in-none :
    (z : Zone) (p : Period) (start : ℕ) (es : List (ℕ × ℕ))
    → All (λ e. bucket_start z e.0 p ≢ start) es
    → spent_in z p start es ≡ 0
spent_in-none z p start [] a = refl
spent_in-none z p start (e ∷ es) a = elim (Bool-cases (nat_eq (bucket_start z e.0 p) start)) [
  | inl same ↦ absurd (a.0 ((nat_eq_iff (bucket_start z e.0 p) start).0 same))
  | inr other ↦ rw other (omega (arith, spent_in-none z p start es a.1))
]

module _ (z : Zone) (since : ℕ) (p : Period) (c : IsCalendar z since p) where
  -- A period that has closed is not the one of any instant up to its last.
  closed_start :
      (s t u : ℕ)
      → since ≤ s
      → s ≤ t
      → t ≤ u
      → window_end z (bucket_start z t p) p ≤ u
      → bucket_start z s p ≢ bucket_start z u p
  closed_start s t u h st tu closed same =
      let open_at : u < window_end z (bucket_start z s p) p =
        subst (λ x. u < window_end z x p) (sym same) (c.ends u (omega arith)) in
      let mine : bucket_start z t p ≡ bucket_start z s p =
        c.unique s t h (omega arith) (omega (arith, c.begins s h)) (omega (arith, open_at)) in
      let shut : window_end z (bucket_start z s p) p ≤ u =
        subst (λ x. window_end z x p ≤ u) mine closed in
      omega (arith, open_at, shut)

  needs_rollover_lem :
      (t now : ℕ)
      → since ≤ t
      → needs_rollover z (bucket_start z t p) p now
        ≡ not (ltb now (window_end z (bucket_start z t p) p))
  unfolding needs_rollover
  needs_rollover_lem t now h =
      let some_start : nat_eq (bucket_start z t p) 0 ≡ false = ground (arith, c.after_epoch t h) in
      rw (needs_rollover, some_start) refl

  -- One more amount: the bucket holds the amounts of the period of the latest one.
  pub roll_bucket-spent_in :
      (es : List (ℕ × ℕ)) (t now n : ℕ)
      → All (λ e. (since ≤ e.0) × (e.0 ≤ t)) es
      → since ≤ t
      → t ≤ now
      → let old = bucket_start z t p in
        let new = bucket_start z now p in
        roll_bucket z (spent_in z p old es % 2 ^ 64, old) p now n
        ≡ (spent_in z p new (es ++ (now, n) ∷ []) % 2 ^ 64, new)
  unfolding roll_bucket
  roll_bucket-spent_in es t now n bound h late =
      let old = bucket_start z t p in
      let new = bucket_start z now p in
      let rolls = needs_rollover_lem t now h in
      let own : spent_in z p new ((now, n) ∷ []) ≡ n = ground arith in
      let grown : spent_in z p new (es ++ (now, n) ∷ []) ≡ spent_in z p new es + n =
        spent_in-append z p new es ((now, n) ∷ []) ∙ ap (λ x. spent_in z p new es + x) own in
      elim (Bool-cases (ltb now (window_end z old p))) [
        | inl running ↦
            let same : new ≡ old =
              c.unique t now h (omega arith) (omega (arith, c.begins t h))
                (ltb→lt now (window_end z old p) running) in
            rw (roll_bucket, rolls, running)
              (ap (λ x. (x, old))
                  (mod-add-mod (spent_in z p old es) (2 ^ 64) n
                    ∙ ap (λ s. (spent_in z p s es + n) % 2 ^ 64) (sym same)
                    ∙ ap (λ x. x % 2 ^ 64) (sym grown))
                ∙ ap (λ s. (spent_in z p new (es ++ (now, n) ∷ []) % 2 ^ 64, s)) (sym same))
        | inr shut ↦
            let closed : window_end z old p ≤ now = ground arith in
            let none_yet : spent_in z p new es ≡ 0 =
              spent_in-none z p new es
                (All-map (λ e b. closed_start e.0 t now b.0 b.1 late closed) es bound) in
            rw (roll_bucket, rolls, shut)
              (ap (λ x. (x % 2 ^ 64, new)) (sym (grown ∙ ap (λ x. x + n) none_yet)))
      ]
