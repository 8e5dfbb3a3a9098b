-- ===== src/Pool/Failover/Consistent.antt =====
-- The cooldown fields of the tokens over a pass of internal/pool/acquire.go.
use freebuff_proxy_scaleway.Base.{
  ℕ, sym, inl, inr, some, List, [], ◌∷◌, set, get_elem?, Bool-cases, Option-cases, Sum-cases,
}
use freebuff_proxy_scaleway.Base.Eq.{String_eq}
use freebuff_proxy_scaleway.Base.Map.{insert}
use freebuff_proxy_scaleway.Base.Lists.{All, All-set, All-get_elem?}
use mathlib.Core.Path.{subst}
use freebuff_proxy_scaleway.Runs.Cooldown.{clear_cooldowns}
use freebuff_proxy_scaleway.Runs.Cooldown.Invariant.{IsConsistent}
use freebuff_proxy_scaleway.Pool.Order.{TokenEntry}
use freebuff_proxy_scaleway.Pool.Refusals.{
  Refusal, Attempt, Pass, Request, refuse_run, refuse_admission, forget_admission, cool,
  note_admission,
}
use freebuff_proxy_scaleway.Pool.Refusals.Cooled.{cool-IsConsistent, clear-IsConsistent}
use freebuff_proxy_scaleway.Pool.Failover.{start_run, attempt, visit, lease_from_order}
use freebuff_proxy_scaleway.Pool.Failover.Safety.{After, try_token-cases, Progress-cases}

abbrev pub AllConsistent : Pass → Type 0
AllConsistent p = All (λ tok. IsConsistent tok.runs) p.tokens

module _ (q : Request) (idx : ℕ) where
  refuse_run-AllConsistent :
      (tok : TokenEntry) (draw : ℕ) (r : Refusal) (p : Pass)
      → IsConsistent tok.runs
      → AllConsistent p
      → After AllConsistent (refuse_run q idx tok draw r p)
  unfolding refuse_run
  refuse_run-AllConsistent tok draw r p c all = elim (Option-cases (cool q draw r tok.runs)) [
    | inl e ↦ rw (refuse_run, e) tt
    | inr (m, e) ↦
        rw (refuse_run, e)
          (All-set (λ t. IsConsistent t.runs) p.tokens idx (record tok { runs = m }) all
            (cool-IsConsistent q draw r tok.runs m c e))
  ]

  start_run-AllConsistent :
      (tok : TokenEntry) (a : Attempt) (p : Pass)
      → IsConsistent tok.runs
      → AllConsistent p
      → After AllConsistent (start_run q idx tok a p)
  unfolding start_run
  start_run-AllConsistent tok a p c all =
      let ready = record tok { session = a.session; runs = clear_cooldowns tok.runs } in
      let cleared = record p { tokens = set p.tokens idx ready } in
      let c' = clear-IsConsistent tok.runs c in
      let all' : AllConsistent cleared =
        All-set (λ t. IsConsistent t.runs) p.tokens idx ready all c' in
      elim (Bool-cases a.current) [
        | inr gone ↦ rw (start_run, gone) all'
        | inl stays ↦ elim (Sum-cases a.run) [
          | inl (r, e) ↦
              rw (start_run, stays, e) (refuse_run-AllConsistent ready a.draw r cleared c' all')
          | inr (run, e) ↦ rw (start_run, stays, e) all'
        ]
      ]

  noted : (r : Refusal) (p : Pass) → AllConsistent p → AllConsistent (note_admission q r p)
  unfolding note_admission
  noted r p k = elim (Option-cases r.limited_ip) [
    | inl e ↦ rw (note_admission, e) k
    | inr (lie, e) ↦ rw (note_admission, e) k
  ]

  attempt-AllConsistent :
      (tok : TokenEntry) (a : Attempt) (p : Pass)
      → IsConsistent tok.runs
      → AllConsistent p
      → After AllConsistent (attempt q idx tok a p)
  unfolding attempt refuse_admission
  attempt-AllConsistent tok a p c all =
      let p₁ = record p {
        admissions = forget_admission q.model idx (insert q.model (some idx) p.admissions);
      } in
      let tok' = record tok { session = a.session } in
      let p₂ = record p₁ { tokens = set p₁.tokens idx tok' } in
      let all₂ : AllConsistent p₂ = All-set (λ t. IsConsistent t.runs) p.tokens idx tok' all c in
      elim (Bool-cases a.gate_refused) [
        | inl refused ↦ rw (attempt, refused) all
        | inr passed ↦ elim (Option-cases a.admission) [
          | inl e ↦ rw (attempt, passed, e) (start_run-AllConsistent tok a p₁ c all)
          | inr (r, e) ↦
              rw (attempt, passed, e)
                (refuse_run-AllConsistent tok' a.draw r (note_admission q r p₂) c (noted r p₂ all₂))
        ]
      ]

  visit-AllConsistent :
      (world : ℕ → Attempt) (p : Pass) → AllConsistent p → After AllConsistent (visit q world idx p)
  unfolding visit
  visit-AllConsistent world p all = elim (Bool-cases (world idx).cancelled) [
    | inl ended ↦ rw (visit, ended) all
    | inr alive ↦ elim (Option-cases (get_elem? p.tokens idx)) [
      | inl e ↦ rw (visit, alive, e) all
      | inr (tok, e) ↦
          let c = All-get_elem? (λ t. IsConsistent t.runs) p.tokens idx tok all e in
          rw (visit, alive, e)
            (elim (try_token-cases q idx tok (world idx) p) [
              | inl (shut, (msgs', b', from, skips)) ↦ subst (After AllConsistent) (sym skips) all
              | inr (open_to, (msgs', from, attempts)) ↦
                  subst (After AllConsistent) (sym attempts)
                    (attempt-AllConsistent tok (world idx) (record p { msgs = msgs' }) c all)
            ])
    ]
  ]

-- However the tokens answer, a pass leaves every token with at most one remembered refusal whose
-- window is its cooldown, if it found them so.
pub lease_from_order-AllConsistent :
    (q : Request) (world : ℕ → Attempt) (order : List ℕ) (p : Pass)
    → AllConsistent p
    → After AllConsistent (lease_from_order q world order p)
unfolding lease_from_order
lease_from_order-AllConsistent q world [] p all = all
lease_from_order-AllConsistent q world (idx ∷ order) p all =
    let after = visit-AllConsistent q idx world p all in
    elim (Progress-cases (visit q world idx p)) [
      | inl (p₁, e) ↦
          rw (lease_from_order, e)
            (lease_from_order-AllConsistent q world order p₁ (subst (After AllConsistent) e after))
      | inr (inl (p₁, l₁, e)) ↦ rw (lease_from_order, e) (subst (After AllConsistent) e after)
      | inr (inr (inl (p₁, e))) ↦ rw (lease_from_order, e) (subst (After AllConsistent) e after)
      | inr (inr (inr e)) ↦ rw (lease_from_order, e) tt
    ]
