-- ===== src/Pool/Failover/Served.antt =====
-- Which token the failover loop of internal/pool/acquire.go leases, and when it leases none.
use freebuff_proxy_scaleway.Base.{
  ℕ, ◌≤◌, ◌≡◌, ◌≢◌, refl, sym, ap, ◌∙◌, inl, inr, true, false, none, some, List, [], ◌∷◌, nat_eq,
  nat_eq_iff, get_elem?, set, arith, Bool-cases, Option-cases, Sum-cases,
}
use freebuff_proxy_scaleway.Base.Eq.{String_eq}
use freebuff_proxy_scaleway.Base.Map.{insert}
use mathlib.Core.Path.{subst}
use freebuff_proxy_scaleway.Runs.Cooldown.{clear_cooldowns}
use freebuff_proxy_scaleway.Pool.Usage.{usage_count}
use freebuff_proxy_scaleway.Pool.Order.{TokenEntry}
use freebuff_proxy_scaleway.Base.Counts.{occurrences}
use freebuff_proxy_scaleway.Pool.Refusals.{
  Refusal, Attempt, Pass, Lease, Progress, going, leased, stopped, panicked, Request, refuse_run,
  refuse_admission, forget_admission, cool, note_admission,
}
use freebuff_proxy_scaleway.Pool.Failover.{
  at_daily_limit, effective_model, start_run, attempt, try_token, visit, lease_from_order,
}
use freebuff_proxy_scaleway.Pool.Failover.Safety.{
  After, IsKept, is_servable, Progress-cases, try_token-cases, visit-IsKept,
}

-- The outside lets a token through: permit, admission, presence and run.
pub record IsAnswered (q : Request) (a : Attempt) (l : Lease) : Type 0 where
  pub permitted : a.gate_refused ≡ false
  pub admitted : a.admission ≡ none
  pub present : a.current ≡ true
  pub started : a.run ≡ inr l.run
  pub model : l.model ≡ effective_model q.model a.session

refuse_run-not_leased :
    (q : Request) (idx : ℕ) (tok : TokenEntry) (draw : ℕ) (r : Refusal) (p p' : Pass) (l : Lease)
    → refuse_run q idx tok draw r p ≢ leased p' l
unfolding refuse_run
refuse_run-not_leased q idx tok draw r p p' l h = elim (Option-cases (cool q draw r tok.runs)) [
  | inl e ↦ ground (arith, h, e)
  | inr (m, e) ↦ ground (arith, h, e)
]

abbrev lease_or : Lease → Progress → Lease
lease_or l (leased p l') = l'
lease_or l _ = l

module _ (q : Request) (idx : ℕ) (tok : TokenEntry) (a : Attempt) (p : Pass) (l : Lease) where
  abbrev ready : TokenEntry
  ready = record tok { session = a.session; runs = clear_cooldowns tok.runs }

  abbrev cleared : Pass
  cleared = record p { tokens = set p.tokens idx ready }

  abbrev won : ℕ → Lease
  won run = record { token = idx; model = effective_model q.model a.session; run = run }

  start_run-leased :
      (p' : Pass)
      → start_run q idx tok a p ≡ leased p' l
      → (a.current ≡ true)
        × (a.run ≡ inr l.run)
        × (l.model ≡ effective_model q.model a.session)
        × (l.token ≡ idx)
  unfolding start_run
  start_run-leased p' h = elim (Bool-cases a.current) [
    | inr gone ↦ absurd (ground (arith, h, gone))
    | inl stays ↦ elim (Sum-cases a.run) [
      | inl (r, e) ↦
          let fails : start_run q idx tok a p ≡ refuse_run q idx ready a.draw r cleared =
            rw (start_run, stays, e) refl in
          absurd (refuse_run-not_leased q idx ready a.draw r cleared p' l (sym fails ∙ h))
      | inr (run, e) ↦
          let wins : start_run q idx tok a p
              ≡ leased
                  (record cleared {
                    last_token_by_model =
                        insert (effective_model q.model a.session) idx p.last_token_by_model;
                  })
                  (won run) =
            rw (start_run, stays, e) refl in
          let same : won run ≡ l = ap (lease_or l) (sym wins ∙ h) in
          (
            stays,
            e ∙ ap (λ x. inr x.run) same,
            sym (ap (λ x. x.model) same),
            sym (ap (λ x. x.token) same),
          )
    ]
  ]

module _ (q : Request) (idx : ℕ) (tok : TokenEntry) (a : Attempt) (p : Pass) (l : Lease) where
  attempt-leased :
      (p' : Pass) → attempt q idx tok a p ≡ leased p' l → IsAnswered q a l × (l.token ≡ idx)
  unfolding attempt refuse_admission
  attempt-leased p' h =
      let p₁ = record p {
        admissions = forget_admission q.model idx (insert q.model (some idx) p.admissions);
      } in
      let tok' = record tok { session = a.session } in
      let p₂ = record p₁ { tokens = set p₁.tokens idx tok' } in
      elim (Bool-cases a.gate_refused) [
        | inl refused ↦ absurd (ground (arith, h, refused))
        | inr passed ↦ elim (Option-cases a.admission) [
          | inr (r, e) ↦
              let fails : attempt q idx tok a p
                  ≡ refuse_run q idx tok' a.draw r (note_admission q r p₂) =
                rw (attempt, passed, e) refl in
              absurd (
                refuse_run-not_leased q idx tok' a.draw r (note_admission q r p₂) p' l
                  (sym fails ∙ h))
          | inl e ↦
              let goes : attempt q idx tok a p ≡ start_run q idx tok a p₁ =
                rw (attempt, passed, e) refl in
              let (stays, ran, model, token) =
                start_run-leased q idx tok a p₁ l p' (sym goes ∙ h) in
              (
                record {
                  permitted = passed;
                  admitted = e;
                  present = stays;
                  started = ran;
                  model = model;
                },
                token,
              )
        ]
      ]

  attempt-answered :
      IsAnswered q a l → l.token ≡ idx → (p' : Pass) × (attempt q idx tok a p ≡ leased p' l)
  unfolding attempt start_run
  attempt-answered s e =
      let p₁ = record p {
        admissions = forget_admission q.model idx (insert q.model (some idx) p.admissions);
      } in
      let leased_pass = record (cleared q idx tok a p₁ l) {
        last_token_by_model = insert (effective_model q.model a.session) idx p.last_token_by_model;
      } in
      let same : won q idx tok a p l l.run ≡ l =
        λ i. record { token = sym e i; model = sym s.model i; run = l.run } in
      (
        leased_pass,
        rw (attempt, start_run, s.permitted, s.admitted, s.present, s.started)
            (ap (leased leased_pass) same),
      )

-- The token stands in the pool, no test skips it, and the outside lets it through.
pub record IsServed (q : Request) (world : ℕ → Attempt) (p : Pass) (l : Lease) : Type 0 where
  pub tok : TokenEntry
  pub stands : get_elem? p.tokens l.token ≡ some tok
  pub servable : is_servable q l.token tok p.msgs ≡ true
  pub answered : IsAnswered q (world l.token) l

at_daily_limit-kept :
    (q : Request) (i : ℕ) (msgs msgs' : List (List ℕ))
    → get_elem? msgs' i ≡ get_elem? msgs i
    → at_daily_limit q i msgs' ≡ at_daily_limit q i msgs
unfolding at_daily_limit usage_count
at_daily_limit-kept q i msgs msgs' h = elim (Option-cases (get_elem? msgs i)) [
  | inl e ↦ let e' = h ∙ e in ground (arith, e, e')
  | inr (x, e) ↦ let e' = h ∙ e in ground (arith, e, e')
]

servable-kept :
    (q : Request) (i : ℕ) (tok : TokenEntry) (msgs msgs' : List (List ℕ))
    → get_elem? msgs' i ≡ get_elem? msgs i
    → is_servable q i tok msgs' ≡ is_servable q i tok msgs
servable-kept q i tok msgs msgs' h = rw (at_daily_limit-kept q i msgs msgs' h) refl

IsServed-kept :
    (q : Request) (world : ℕ → Attempt) (p p' : Pass) (l : Lease)
    → IsKept l.token p p'
    → (IsServed q world p' l → IsServed q world p l)
      × (IsServed q world p l → IsServed q world p' l)
IsServed-kept q world p p' l k = (
  λ s. record {
    tok = s.tok;
    stands = sym k.token ∙ s.stands;
    servable = sym (servable-kept q l.token s.tok p.msgs p'.msgs k.history) ∙ s.servable;
    answered = s.answered;
  },
  λ s. record {
    tok = s.tok;
    stands = k.token ∙ s.stands;
    servable = servable-kept q l.token s.tok p.msgs p'.msgs k.history ∙ s.servable;
    answered = s.answered;
  },
)

-- A visit leases exactly the token that it visits, and only if that token is served.
visit-leased :
    (q : Request) (world : ℕ → Attempt) (idx : ℕ) (p p' : Pass) (l : Lease)
    → visit q world idx p ≡ leased p' l
    → (l.token ≡ idx) × IsServed q world p l
unfolding visit
visit-leased q world idx p p' l h = elim (Bool-cases (world idx).cancelled) [
  | inl ended ↦ absurd (ground (arith, h, ended))
  | inr alive ↦ elim (Option-cases (get_elem? p.tokens idx)) [
    | inl e ↦ absurd (ground (arith, h, alive, e))
    | inr (tok, e) ↦
        let tries : visit q world idx p ≡ try_token q idx tok (world idx) p =
          rw (visit, alive, e) refl in
        elim (try_token-cases q idx tok (world idx) p) [
          | inl (shut, (msgs', b', from, skips)) ↦ absurd (ground (arith, sym h ∙ tries ∙ skips))
          | inr (open_to, (msgs', from, attempts)) ↦
              let (answered, same) =
                attempt-leased q idx tok (world idx) (record p { msgs = msgs' }) l p'
                  (sym (tries ∙ attempts) ∙ h) in
              (
                same,
                record {
                  tok = tok;
                  stands = ap (get_elem? p.tokens) same ∙ e;
                  servable = ap (λ i. is_servable q i tok p.msgs) same ∙ open_to;
                  answered = subst (λ i. IsAnswered q (world i) l) (sym same) answered;
                },
              )
        ]
  ]
]

visit-served :
    (q : Request) (world : ℕ → Attempt) (p p' : Pass) (l : Lease)
    → visit q world l.token p ≡ going p'
    → (world l.token).cancelled ≡ false
    → IsServed q world p l
    → ⊥
unfolding visit
visit-served q world p p' l h alive s =
    let tries : visit q world l.token p ≡ try_token q l.token s.tok (world l.token) p =
      rw (visit, alive, s.stands) refl in
    elim (try_token-cases q l.token s.tok (world l.token) p) [
      | inl (shut, more) ↦ ground (arith, shut, s.servable)
      | inr (open_to, (msgs', from, attempts)) ↦
          let (p'', wins) =
            attempt-answered q l.token s.tok (world l.token) (record p { msgs = msgs' }) l
              s.answered refl in
          ground (arith, sym h ∙ tries ∙ attempts ∙ wins)
    ]

not_again :
    (i idx : ℕ) (order : List ℕ)
    → occurrences i (idx ∷ order) ≤ 1
    → 1 ≤ occurrences i order
    → idx ≢ i
not_again i idx order h k e = ground (arith, nat_eq_iff idx i)

-- A lease goes to a token of the order that no test skips and that the outside lets through, all as
-- it stood when the pass began.
pub leased-IsServed :
    (q : Request) (world : ℕ → Attempt) (order : List ℕ) (p p' : Pass) (l : Lease)
    → ((i : ℕ) → occurrences i order ≤ 1)
    → lease_from_order q world order p ≡ leased p' l
    → (occurrences l.token order ≡ 1) × IsServed q world p l
unfolding lease_from_order
leased-IsServed q world [] p p' l once h = absurd (ground (arith, h))
leased-IsServed q world (idx ∷ order) p p' l once h = elim (Progress-cases (visit q world idx p)) [
  | inl (p₁, e) ↦
      let goes : lease_from_order q world (idx ∷ order) p ≡ lease_from_order q world order p₁ =
        rw (lease_from_order, e) refl in
      let (c, s) =
        leased-IsServed q world order p₁ p' l (λ i. omega (arith, once i)) (sym goes ∙ h) in
      let ne = not_again l.token idx order (once l.token) (omega (arith, c)) in
      let kept : IsKept l.token p p₁ =
        subst (After (IsKept l.token p)) e (visit-IsKept q l.token idx ne world p) in
      (ground (arith, c, once l.token), (IsServed-kept q world p p₁ l kept).0 s)
  | inr (inl (p₁, l₁, e)) ↦
      let wins : lease_from_order q world (idx ∷ order) p ≡ leased p₁ l₁ =
        rw (lease_from_order, e) refl in
      let (same, s) = visit-leased q world idx p p' l (e ∙ sym wins ∙ h) in
      (ground (arith, same, once l.token, nat_eq_iff idx l.token), s)
  | inr (inr (inl (p₁, e))) ↦
      let ends : lease_from_order q world (idx ∷ order) p ≡ stopped p₁ =
        rw (lease_from_order, e) refl in
      absurd (ground (arith, sym ends ∙ h))
  | inr (inr (inr e)) ↦
      let ends : lease_from_order q world (idx ∷ order) p ≡ panicked =
        rw (lease_from_order, e) refl in
      absurd (ground (arith, sym ends ∙ h))
]

-- A pass that runs to its end without a lease passed over no token that it could have leased.
pub unleased_unserved :
    (q : Request) (world : ℕ → Attempt) (order : List ℕ) (p p' : Pass) (l : Lease)
    → ((i : ℕ) → occurrences i order ≤ 1)
    → ((i : ℕ) → (world i).cancelled ≡ false)
    → lease_from_order q world order p ≡ going p'
    → 1 ≤ occurrences l.token order
    → ¬ IsServed q world p l
unfolding lease_from_order
unleased_unserved q world [] p p' l once alive h there s = omega (arith, there)
unleased_unserved q world (idx ∷ order) p p' l once alive h there s =
    elim (Progress-cases (visit q world idx p)) [
      | inl (p₁, e) ↦
          let goes : lease_from_order q world (idx ∷ order) p ≡ lease_from_order q world order p₁ =
            rw (lease_from_order, e) refl in
          elim (Bool-cases (nat_eq idx l.token)) [
            | inl here ↦
                let same = (nat_eq_iff idx l.token).0 here in
                visit-served q world p p₁ l (subst (λ i. visit q world i p ≡ going p₁) same e)
                  (alive l.token) s
            | inr later ↦
                let ne : idx ≢ l.token = λ k. ground (arith, later, nat_eq_iff idx l.token) in
                let kept : IsKept l.token p p₁ =
                  subst (After (IsKept l.token p)) e (visit-IsKept q l.token idx ne world p) in
                unleased_unserved q world order p₁ p' l (λ i. omega (arith, once i)) alive
                  (sym goes ∙ h) (ground arith) ((IsServed-kept q world p p₁ l kept).1 s)
          ]
      | inr (inl (p₁, l₁, e)) ↦
          let wins : lease_from_order q world (idx ∷ order) p ≡ leased p₁ l₁ =
            rw (lease_from_order, e) refl in
          ground (arith, sym wins ∙ h)
      | inr (inr (inl (p₁, e))) ↦
          let ends : lease_from_order q world (idx ∷ order) p ≡ stopped p₁ =
            rw (lease_from_order, e) refl in
          ground (arith, sym ends ∙ h)
      | inr (inr (inr e)) ↦
          let ends : lease_from_order q world (idx ∷ order) p ≡ panicked =
            rw (lease_from_order, e) refl in
          ground (arith, sym ends ∙ h)
    ]
