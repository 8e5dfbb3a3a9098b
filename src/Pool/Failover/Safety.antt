-- ===== src/Pool/Failover/Safety.antt =====
-- What one step of the failover loop of internal/pool/acquire.go changes.
use freebuff_proxy_scaleway.Base.{
  ℕ, ◌≡◌, ◌≢◌, refl, sym, ap, ◌∙◌, ◌⊎◌, inl, inr, Bool, true, false, not, ◌&&◌, some, List, [], ◌∷◌,
  ◌++◌, ltb, if◌then◌else◌, get_elem?, set, Bool-cases, Option-cases, Sum-cases,
}
use freebuff_proxy_scaleway.Base.Lists.{get_elem?-set_ne}
use freebuff_proxy_scaleway.Base.Eq.{String_eq}
use freebuff_proxy_scaleway.Base.Map.{insert}
use freebuff_proxy_scaleway.Runs.Cooldown.{clear_cooldowns}
use freebuff_proxy_scaleway.Pool.Quota.{quota_remaining, quota_limit_error}
use freebuff_proxy_scaleway.Pool.Scarce.{scarce_held}
use freebuff_proxy_scaleway.Pool.Usage.{usage_count}
use freebuff_proxy_scaleway.Pool.Usage.History.{usage_count_other}
use freebuff_proxy_scaleway.Pool.Buckets.{Buckets, remember}
use mathlib.Core.Path.{subst}
use freebuff_proxy_scaleway.Pool.Order.{TokenEntry}
use freebuff_proxy_scaleway.Pool.Refusals.{
  Refusal, Attempt, Pass, Lease, Progress, going, leased, stopped, panicked, Request, refuse_run,
  refuse_admission, forget_admission, cool, note_admission,
}
use freebuff_proxy_scaleway.Pool.Failover.{
  is_cooling, at_daily_limit, daily_limit_error, start_run, attempt, try_token, visit,
}

-- A property of the pass that a step ends in.
abbrev pub After {κ} : (Pass → Type κ) → Progress → Type κ
After P (going p) = P p
After P (leased p l) = P p
After P (stopped p) = P p
After P panicked = Unit

After-if {κ} :
    (P : Pass → Type κ) (b : Bool) (x y : Progress)
    → After P x
    → After P y
    → After P (if b then x else y)
After-if P true x y hx hy = hx
After-if P false x y hx hy = hy

-- One token is as it was.
pub record IsKept (i : ℕ) (p p' : Pass) : Type 0 where
  pub token : get_elem? p'.tokens i ≡ get_elem? p.tokens i
  pub history : get_elem? p'.msgs i ≡ get_elem? p.msgs i

pub Progress-cases :
    (x : Progress)
    → ((p : Pass) × (x ≡ going p))
      ⊎ (((p : Pass) × (l : Lease) × (x ≡ leased p l))
          ⊎ (((p : Pass) × (x ≡ stopped p)) ⊎ (x ≡ panicked)))
Progress-cases (going p) = inl (p, refl)
Progress-cases (leased p l) = inr (inl (p, l, refl))
Progress-cases (stopped p) = inr (inr (inl (p, refl)))
Progress-cases panicked = inr (inr (inr refl))

-- No test skips the token.
abbrev pub is_servable : Request → ℕ → TokenEntry → List (List ℕ) → Bool
is_servable q idx tok msgs =
    not tok.locked
    && not (is_cooling q tok)
    && not (at_daily_limit q idx msgs)
    && not (scarce_held q.now tok.session q.model q.scarce_models)
    && not (quota_remaining q.now tok.session q.model).capped

-- The histories are as before, or the token's count was read.
abbrev IsRead : Request → ℕ → List (List ℕ) → List (List ℕ) → Type 0
IsRead q idx msgs msgs' = (msgs' ≡ msgs) ⊎ (msgs' ≡ (usage_count q.now idx msgs).0)

-- A token that some test skips changes the buckets only; any other is attempted.
pub try_token-cases :
    (q : Request) (idx : ℕ) (tok : TokenEntry) (a : Attempt) (p : Pass)
    → ((is_servable q idx tok p.msgs ≡ false)
        × ((msgs' : List (List ℕ)) × (b' : Buckets) × IsRead q idx p.msgs msgs'
            × (try_token q idx tok a p ≡ going (record p { msgs = msgs'; buckets = b' }))))
      ⊎ ((is_servable q idx tok p.msgs ≡ true)
          × ((msgs' : List (List ℕ)) × IsRead q idx p.msgs msgs'
              × (try_token q idx tok a p ≡ attempt q idx tok a (record p { msgs = msgs' }))))
unfolding try_token
try_token-cases q idx tok a p =
    let counted : List (List ℕ) =
      if ltb 0 q.max_messages_per_day then (usage_count q.now idx p.msgs).0 else p.msgs in
    let read : IsRead q idx p.msgs counted = elim (Bool-cases (ltb 0 q.max_messages_per_day)) [
      | inl e ↦ inr (rw e refl)
      | inr e ↦ inl (rw e refl)
    ] in
    let b = p.buckets in
    let daily : Buckets = record b {
      daily_limited = b.daily_limited ++ daily_limit_error q idx counted ∷ [];
    } in
    let scarce : Buckets = record b {
      scarce_until = b.scarce_until ++ tok.session.expires_at ∷ [];
    } in
    let quota : Buckets = record b {
      rate_limited = b.rate_limited ++ quota_limit_error q.now tok.session q.model ∷ [];
    } in
    elim (Bool-cases tok.locked) [
      | inl locked ↦ inl (rw locked refl, (p.msgs, b, inl refl, rw (try_token, locked) refl))
      | inr unlocked ↦ elim (Bool-cases (is_cooling q tok)) [
        | inl cooling ↦ inl (
          rw (unlocked, cooling) refl,
          (
            p.msgs,
            remember q.texts q.now tok.runs b,
            inl refl,
            rw (try_token, unlocked, cooling) refl,
          ),
        )
        | inr warm ↦ elim (Bool-cases (at_daily_limit q idx p.msgs)) [
          | inl spent ↦ inl (
            rw (unlocked, warm, spent) refl,
            (counted, daily, read, rw (try_token, unlocked, warm, spent) refl),
          )
          | inr under ↦ elim (Bool-cases (scarce_held q.now tok.session q.model q.scarce_models)) [
            | inl held ↦ inl (
              rw (unlocked, warm, under, held) refl,
              (counted, scarce, read, rw (try_token, unlocked, warm, under, held) refl),
            )
            | inr free ↦ elim (Bool-cases (quota_remaining q.now tok.session q.model).capped) [
              | inl capped ↦ inl (
                rw (unlocked, warm, under, free, capped) refl,
                (counted, quota, read, rw (try_token, unlocked, warm, under, free, capped) refl),
              )
              | inr left ↦ inr (
                rw (unlocked, warm, under, free, left) refl,
                (counted, read, rw (try_token, unlocked, warm, under, free, left) refl),
              )
            ]
          ]
        ]
      ]
    ]

module _ (q : Request) (i idx : ℕ) (other : idx ≢ i) where
  refuse_run-IsKept :
      (tok : TokenEntry) (draw : ℕ) (r : Refusal) (p₀ p : Pass)
      → IsKept i p₀ p
      → After (IsKept i p₀) (refuse_run q idx tok draw r p)
  unfolding refuse_run
  refuse_run-IsKept tok draw r p₀ p k = elim (Option-cases (cool q draw r tok.runs)) [
    | inl e ↦ rw (refuse_run, e) tt
    | inr (m, e) ↦
        rw (refuse_run, e)
          (record {
            token = get_elem?-set_ne p.tokens (record tok { runs = m }) other ∙ k.token;
            history = k.history;
          })
  ]

  note_admission-IsKept :
      (r : Refusal) (p₀ p : Pass) → IsKept i p₀ p → IsKept i p₀ (note_admission q r p)
  unfolding note_admission
  note_admission-IsKept r p₀ p k = elim (Option-cases r.limited_ip) [
    | inl e ↦ rw (note_admission, e) (record { token = k.token; history = k.history })
    | inr (lie, e) ↦ rw (note_admission, e) (record { token = k.token; history = k.history })
  ]

  start_run-IsKept :
      (tok : TokenEntry) (a : Attempt) (p₀ p : Pass)
      → IsKept i p₀ p
      → After (IsKept i p₀) (start_run q idx tok a p)
  unfolding start_run
  start_run-IsKept tok a p₀ p k =
      let ready = record tok { session = a.session; runs = clear_cooldowns tok.runs } in
      let cleared = record p { tokens = set p.tokens idx ready } in
      let kept : IsKept i p₀ cleared = record {
        token = get_elem?-set_ne p.tokens ready other ∙ k.token;
        history = k.history;
      } in
      elim (Bool-cases a.current) [
        | inr gone ↦ rw (start_run, gone) kept
        | inl stays ↦ elim (Sum-cases a.run) [
          | inl (r, e) ↦ rw (start_run, stays, e) (refuse_run-IsKept ready a.draw r p₀ cleared kept)
          | inr (run, e) ↦
              rw (start_run, stays, e) (record { token = kept.token; history = kept.history })
        ]
      ]

  attempt-IsKept :
      (tok : TokenEntry) (a : Attempt) (p₀ p : Pass)
      → IsKept i p₀ p
      → After (IsKept i p₀) (attempt q idx tok a p)
  unfolding attempt refuse_admission
  attempt-IsKept tok a p₀ p k =
      let p₁ = record p {
        admissions = forget_admission q.model idx (insert q.model (some idx) p.admissions);
      } in
      let k₁ : IsKept i p₀ p₁ = record { token = k.token; history = k.history } in
      let tok' = record tok { session = a.session } in
      let p₂ = record p₁ { tokens = set p₁.tokens idx tok' } in
      let k₂ : IsKept i p₀ p₂ = record {
        token = get_elem?-set_ne p.tokens tok' other ∙ k.token;
        history = k.history;
      } in
      elim (Bool-cases a.gate_refused) [
        | inl refused ↦ rw (attempt, refused) k₁
        | inr passed ↦ elim (Option-cases a.admission) [
          | inl e ↦ rw (attempt, passed, e) (start_run-IsKept tok a p₀ p₁ k₁)
          | inr (r, e) ↦
              rw (attempt, passed, e)
                (refuse_run-IsKept tok' a.draw r p₀ (note_admission q r p₂)
                  (note_admission-IsKept r p₀ p₂ k₂))
        ]
      ]

  try_token-IsKept :
      (tok : TokenEntry) (a : Attempt) (p : Pass) → After (IsKept i p) (try_token q idx tok a p)
  try_token-IsKept tok a p =
      let history = usage_count_other q.now idx i p.msgs other in
      elim (try_token-cases q idx tok a p) [
        | inl (shut, (msgs', b', from, e)) ↦ subst (After (IsKept i p)) (sym e) (record {
          token = refl;
          history = elim from [
            | inl same ↦ ap (λ m. get_elem? m i) same
            | inr counted ↦ ap (λ m. get_elem? m i) counted ∙ history
          ];
        })
        | inr (open_to, (msgs', from, e)) ↦ subst (After (IsKept i p)) (sym e) (
            attempt-IsKept tok a p (record p { msgs = msgs' })
              (record {
                token = refl;
                history = elim from [
                  | inl same ↦ ap (λ m. get_elem? m i) same
                  | inr counted ↦ ap (λ m. get_elem? m i) counted ∙ history
                ];
              }))
      ]

  pub visit-IsKept : (world : ℕ → Attempt) (p : Pass) → After (IsKept i p) (visit q world idx p)
  unfolding visit
  visit-IsKept world p =
      let same : IsKept i p p = record { token = refl; history = refl } in
      elim (Bool-cases (world idx).cancelled) [
        | inl ended ↦ rw (visit, ended) same
        | inr alive ↦ elim (Option-cases (get_elem? p.tokens idx)) [
          | inl e ↦ rw (visit, alive, e) same
          | inr (tok, e) ↦ rw (visit, alive, e) (try_token-IsKept tok (world idx) p)
        ]
      ]
