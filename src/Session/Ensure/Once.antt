-- ===== src/Session/Ensure/Once.antt =====
-- The re-admits that callers of internal/session/session.go start in the background.
use freebuff_proxy_scaleway.Base.{
  ℕ, ◌+◌, ◌≤◌, ◌≡◌, ◌≢◌, refl, sym, ◌∙◌, String, true, ◌&&◌, some, List, [], ◌∷◌, inl, inr, ◌⊎◌,
  arith, Bool-cases, Option-cases, ltb, All,
}
use mathlib.Core.Path.{subst}
use freebuff_proxy_scaleway.Session.Manager.{
  Manager, CachedState, Status, active, disabled, queued, ended, session_usable,
}
use freebuff_proxy_scaleway.Session.Storm.{record_re_admit_trigger}
use freebuff_proxy_scaleway.Session.Ensure.{
  Entry, re_admit, lead, enter, enter_on, serve, serves_model, take_lead, triggers, ride,
}

-- A caller's section, and what happens to the manager until the next caller's.
pub record Visit : Type 0 where
  pub now : ℕ
  pub model : String
  pub after : Manager → Manager

abbrev pub leave : Manager → Entry → Manager
leave m (re_admit i m') = m'
leave m (lead m') = m'
leave m e = m

abbrev pub starts : Entry → ℕ
starts (re_admit i m) = 1
starts e = 0

-- The re-admits that the visits start.
abbrev pub count_re_admits : List Visit → Manager → ℕ
count_re_admits [] m = 0
count_re_admits (v ∷ vs) m =
    starts (enter v.now v.model m) + count_re_admits vs (v.after (leave m (enter v.now v.model m)))

abbrev pub Expires : ℕ → Manager → Type 0
Expires e m = (s : CachedState) → m.state ≡ some s → s.expires_at ≡ e

-- Between the visits the cache holds no session with another expiry, and the guard stays.
pub record IsSteady (e : ℕ) (v : Visit) : Type 0 where
  pub guarded : (m : Manager) → (v.after m).re_admit_expiry ≡ m.re_admit_expiry
  pub expires : (m : Manager) → Expires e (v.after m)

-- What a section does: it starts nothing and keeps the guard, or starts a re-admit for a session
-- whose expiry the guard does not name, and names it.
abbrev Guarded : Manager → Entry → Type 0
Guarded m x =
    ((starts x ≡ 0) × ((leave m x).re_admit_expiry ≡ m.re_admit_expiry))
    ⊎ ((s : CachedState) × (m.state ≡ some s)
        × (starts x ≡ 1)
        × (m.re_admit_expiry ≢ s.expires_at)
        × ((leave m x).re_admit_expiry ≡ s.expires_at))

take_lead-Guarded : (m : Manager) → Guarded m (take_lead m)
take_lead-Guarded m = elim (Bool-cases m.refreshing) [
  | inl e ↦ rw (take_lead, e) (inl (refl, refl))
  | inr e ↦ rw (take_lead, e) (inl (refl, refl))
]

triggers-unnamed :
    (now : ℕ) (s : CachedState) (m : Manager)
    → triggers now s m ≡ true
    → m.re_admit_expiry ≢ s.expires_at
triggers-unnamed now s m t e = absurd (ground (arith, t, e))

serve-Guarded :
    (now : ℕ) (s : CachedState) (m : Manager) → m.state ≡ some s → Guarded m (serve now s m)
unfolding serve record_re_admit_trigger
serve-Guarded now s m e = elim (Bool-cases (triggers now s m)) [
  | inl t ↦ simp (serve, t) (inr (s, e, refl, triggers-unnamed now s m t, refl))
  | inr t ↦ simp (serve, t) (inl (refl, refl))
]

ride-Guarded :
    (now : ℕ) (model : String) (s : CachedState) (m : Manager)
    → m.state ≡ some s
    → Guarded m (ride now model s m)
ride-Guarded now model s m e = elim (Bool-cases (serves_model model s && session_usable now s)) [
  | inl x ↦ simp (ride, x) (serve-Guarded now s m e)
  | inr x ↦ simp (ride, x) (take_lead-Guarded m)
]

enter_on-Guarded :
    (now : ℕ) (model : String) (status : Status) (s : CachedState) (m : Manager)
    → m.state ≡ some s
    → Guarded m (enter_on now model status s m)
unfolding enter_on
enter_on-Guarded now model active s m e = ride-Guarded now model s m e
enter_on-Guarded now model ended s m e = ride-Guarded now model s m e
enter_on-Guarded now model disabled s m e = inl (refl, refl)
enter_on-Guarded now model queued s m e = elim (Bool-cases (ltb now s.poll_at)) [
  | inl p ↦ simp (enter_on, p) (inl (refl, refl))
  | inr p ↦ simp (enter_on, p) (take_lead-Guarded m)
]
enter_on-Guarded now model status s m e = take_lead-Guarded m

enter-Guarded : (now : ℕ) (model : String) (m : Manager) → Guarded m (enter now model m)
unfolding enter
enter-Guarded now model m = elim (Option-cases m.state) [
  | inl e ↦ elim (Bool-cases m.refreshing) [
    | inl r ↦ simp (enter, e, r) (inl (refl, refl))
    | inr r ↦ simp (enter, e, r) (inl (refl, refl))
  ]
  | inr (s, e) ↦ elim (Bool-cases m.refreshing) [
    | inl r ↦ simp (enter, e, r) (inl (refl, refl))
    | inr r ↦
        let on : enter now model m ≡ enter_on now model s.status s m = simp (enter, e, r) refl in
        subst (Guarded m) (sym on) (enter_on-Guarded now model s.status s m e)
  ]
]

-- While the guard names the expiry, nothing starts.
none_started :
    (e : ℕ) (vs : List Visit) (m : Manager)
    → All (IsSteady e) vs
    → Expires e m
    → m.re_admit_expiry ≡ e
    → count_re_admits vs m ≡ 0
none_started e [] m a x g = refl
none_started e (v ∷ vs) m a x g = elim (enter-Guarded v.now v.model m) [
  | inl (zero_started, kept) ↦ omega (
    arith,
    zero_started,
    none_started e vs (v.after (leave m (enter v.now v.model m))) a.1
        (a.0.expires (leave m (enter v.now v.model m)))
        (a.0.guarded (leave m (enter v.now v.model m)) ∙ kept ∙ g),
  )
  | inr (s, there, one, fresh, named) ↦ absurd (fresh (g ∙ sym (x s there)))
]

-- While the cache holds sessions of one expiry only, the callers start at most one re-admit in the
-- background, however many they are and whatever becomes of it.
pub re_admit_once :
    (e : ℕ) (vs : List Visit) (m : Manager)
    → All (IsSteady e) vs
    → Expires e m
    → count_re_admits vs m ≤ 1
re_admit_once e [] m a x = omega arith
re_admit_once e (v ∷ vs) m a x =
    let m' = leave m (enter v.now v.model m) in
    elim (enter-Guarded v.now v.model m) [
      | inl (zero_started, kept) ↦
          omega (arith, zero_started, re_admit_once e vs (v.after m') a.1 (a.0.expires m'))
      | inr (s, there, one, fresh, named) ↦ omega (
        arith,
        one,
        none_started e vs (v.after m') a.1 (a.0.expires m') (a.0.guarded m' ∙ named ∙ x s there),
      )
    ]
