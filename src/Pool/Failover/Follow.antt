-- ===== src/Pool/Failover/Follow.antt =====
-- What a follower of `Acquire` in internal/pool/acquire.go reads after its leader.
use freebuff_proxy_scaleway.Base.{
  ℕ, ◌≡◌, refl, sym, ◌∙◌, inl, inr, String, Option, none, some, List, [], ◌∷◌, set, get_elem?,
  arith, Bool-cases, Option-cases, Sum-cases,
}
use freebuff_proxy_scaleway.Base.Eq.{String_eq}
use freebuff_proxy_scaleway.Base.Map.{lookup, insert, lookup-insert, lookup-delete}
use mathlib.Core.Path.{subst}
use freebuff_proxy_scaleway.Runs.Cooldown.{clear_cooldowns}
use freebuff_proxy_scaleway.Pool.Order.{TokenEntry}
use freebuff_proxy_scaleway.Pool.Refusals.{
  Refusal, Attempt, Pass, Lease, leased, stopped, panicked, Request, refuse_run, refuse_admission,
  forget_admission, cool, note_admission,
}
use freebuff_proxy_scaleway.Pool.Failover.{
  start_run, attempt, try_token, visit, lease_from_order, follower_order, leader_token, without,
}
use freebuff_proxy_scaleway.Pool.Failover.Safety.{After, try_token-cases, Progress-cases}

abbrev pub IsForgotten : Request → Pass → Type 0
IsForgotten q p = lookup q.model p.admissions ≡ none

module _ (q : Request) (idx : ℕ) where
  forget-IsForgotten :
      (m : List (String × Option ℕ))
      → lookup q.model (forget_admission q.model idx (insert q.model (some idx) m)) ≡ none
  unfolding forget_admission
  forget-IsForgotten m = ground (
    arith,
    lookup-insert q.model q.model (some idx) m,
    lookup-delete q.model q.model (insert q.model (some idx) m),
    String_eq.same_iff q.model q.model,
  )

  refuse_run-IsForgotten :
      (tok : TokenEntry) (draw : ℕ) (r : Refusal) (p : Pass)
      → IsForgotten q p
      → After (IsForgotten q) (refuse_run q idx tok draw r p)
  unfolding refuse_run
  refuse_run-IsForgotten tok draw r p k = elim (Option-cases (cool q draw r tok.runs)) [
    | inl e ↦ rw (refuse_run, e) tt
    | inr (m, e) ↦ rw (refuse_run, e) k
  ]

  start_run-IsForgotten :
      (tok : TokenEntry) (a : Attempt) (p : Pass)
      → IsForgotten q p
      → After (IsForgotten q) (start_run q idx tok a p)
  unfolding start_run
  start_run-IsForgotten tok a p k =
      let ready = record tok { session = a.session; runs = clear_cooldowns tok.runs } in
      let cleared = record p { tokens = set p.tokens idx ready } in
      elim (Bool-cases a.current) [
        | inr gone ↦ rw (start_run, gone) k
        | inl stays ↦ elim (Sum-cases a.run) [
          | inl (r, e) ↦ rw (start_run, stays, e) (refuse_run-IsForgotten ready a.draw r cleared k)
          | inr (run, e) ↦ rw (start_run, stays, e) k
        ]
      ]

  attempt-IsForgotten :
      (tok : TokenEntry) (a : Attempt) (p : Pass) → After (IsForgotten q) (attempt q idx tok a p)
  unfolding attempt refuse_admission note_admission
  attempt-IsForgotten tok a p =
      let p₁ = record p {
        admissions = forget_admission q.model idx (insert q.model (some idx) p.admissions);
      } in
      let k : IsForgotten q p₁ = forget-IsForgotten p.admissions in
      let tok' = record tok { session = a.session } in
      let p₂ = record p₁ { tokens = set p₁.tokens idx tok' } in
      elim (Bool-cases a.gate_refused) [
        | inl refused ↦ rw (attempt, refused) k
        | inr passed ↦ elim (Option-cases a.admission) [
          | inl e ↦ rw (attempt, passed, e) (start_run-IsForgotten tok a p₁ k)
          | inr (r, e) ↦
              rw (attempt, passed, e)
                (refuse_run-IsForgotten tok' a.draw r (note_admission q r p₂) (noted r p₂ k))
        ]
      ]
    where
      noted : (r : Refusal) (p : Pass) → IsForgotten q p → IsForgotten q (note_admission q r p)
      noted r p k = elim (Option-cases r.limited_ip) [
        | inl e ↦ rw (note_admission, e) k
        | inr (lie, e) ↦ rw (note_admission, e) k
      ]

  visit-IsForgotten :
      (world : ℕ → Attempt) (p p' : Pass) (l : Lease)
      → visit q world idx p ≡ leased p' l
      → IsForgotten q p'
  unfolding visit
  visit-IsForgotten world p p' l h = elim (Bool-cases (world idx).cancelled) [
    | inl ended ↦ absurd (ground (arith, h, ended))
    | inr alive ↦ elim (Option-cases (get_elem? p.tokens idx)) [
      | inl e ↦ absurd (ground (arith, h, alive, e))
      | inr (tok, e) ↦
          let tries : visit q world idx p ≡ try_token q idx tok (world idx) p =
            rw (visit, alive, e) refl in
          elim (try_token-cases q idx tok (world idx) p) [
            | inl (shut, (msgs', b', from, skips)) ↦ absurd (ground (arith, sym h ∙ tries ∙ skips))
            | inr (open_to, (msgs', from, attempts)) ↦
                subst (After (IsForgotten q)) (sym attempts ∙ sym tries ∙ h)
                  (attempt-IsForgotten tok (world idx) (record p { msgs = msgs' }))
          ]
    ]
  ]

leased-IsForgotten :
    (q : Request) (world : ℕ → Attempt) (order : List ℕ) (p p' : Pass) (l : Lease)
    → lease_from_order q world order p ≡ leased p' l
    → IsForgotten q p'
unfolding lease_from_order
leased-IsForgotten q world [] p p' l h = absurd (ground (arith, h))
leased-IsForgotten q world (idx ∷ order) p p' l h = elim (Progress-cases (visit q world idx p)) [
  | inl (p₁, e) ↦
      let goes : lease_from_order q world (idx ∷ order) p ≡ lease_from_order q world order p₁ =
        rw (lease_from_order, e) refl in
      leased-IsForgotten q world order p₁ p' l (sym goes ∙ h)
  | inr (inl (p₁, l₁, e)) ↦
      let wins : lease_from_order q world (idx ∷ order) p ≡ leased p₁ l₁ =
        rw (lease_from_order, e) refl in
      visit-IsForgotten q idx world p p' l (e ∙ sym wins ∙ h)
  | inr (inr (inl (p₁, e))) ↦
      let ends : lease_from_order q world (idx ∷ order) p ≡ stopped p₁ =
        rw (lease_from_order, e) refl in
      absurd (ground (arith, sym ends ∙ h))
  | inr (inr (inr e)) ↦
      let ends : lease_from_order q world (idx ∷ order) p ≡ panicked =
        rw (lease_from_order, e) refl in
      absurd (ground (arith, sym ends ∙ h))
]

-- Whichever token the leader leased, the followers that were parked on it go to token 0 first: the
-- leader's entry is gone by then, and the missing key reads as 0.
pub followers_try_zero :
    (q : Request) (world : ℕ → Attempt) (order order' : List ℕ) (p p' : Pass) (l : Lease)
    → lease_from_order q world order p ≡ leased p' l
    → follower_order q.model p'.admissions order' ≡ 0 ∷ without 0 order'
unfolding follower_order leader_token
followers_try_zero q world order order' p p' l h =
    rw (follower_order, leader_token, leased-IsForgotten q world order p p' l h) refl
