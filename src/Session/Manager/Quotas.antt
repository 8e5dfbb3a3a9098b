-- ===== src/Session/Manager/Quotas.antt =====
-- The quotas that a session manager of internal/session/session.go keeps over its sessions.
use freebuff_proxy_scaleway.Base.{
  ℕ, ◌≡◌, refl, ap, ◌∙◌, sym, String, Bool, false, ◌||◌, Option, none, some, List, [], ◌∷◌, arith,
  Option-cases, some_inj, Bool-cases, inl, inr,
}
use freebuff_proxy_scaleway.Base.Eq.{◌==◌, String_eq}
use freebuff_proxy_scaleway.Base.Map.{lookup}
use freebuff_proxy_scaleway.Session.Snapshot.{
  QuotaSnapshot, GlmPromo, has_glm_entitlement, quota_open, promo_open, referral_model,
}
use freebuff_proxy_scaleway.Session.Manager.{
  Manager, CachedState, Quotas, commit, drop_state, keep_state, stash, clear_queued,
  update_quota_from_probe, or_option, or_text, quota_in, promo_in, is_queued, with_promo,
  with_quota, update_promo, update_quota,
}
use freebuff_proxy_scaleway.Session.Manager.View.{
  snapshot, quota_view, promo_view, quotas_of, entitled,
}

-- What can happen to the quotas: a commit, a probe, and a call of `ClearQueued`.
pub data Report : Type 0 where
  committed : Option CachedState → Report
  probed : String → Quotas → Report
  cleared : Report

abbrev pub report : Report → Manager → Manager
report (committed cs) m = commit cs m
report (probed promo quotas) m = update_quota_from_probe promo quotas m
report cleared m = (clear_queued m).0

-- Reports, latest first.
abbrev pub report_all : List Report → Manager → Manager
report_all [] m = m
report_all (r ∷ rs) m = report r (report_all rs m)

-- The latest quotas that were reported.
abbrev pub last_quota : List Report → Option Quotas
last_quota [] = none
last_quota (committed none ∷ rs) = last_quota rs
last_quota (committed (some cs) ∷ rs) = or_option cs.quota_by_model (last_quota rs)
last_quota (probed promo [] ∷ rs) = last_quota rs
last_quota (probed promo (q ∷ qs) ∷ rs) = some (q ∷ qs)
last_quota (cleared ∷ rs) = last_quota rs

abbrev pub last_promo : List Report → String
last_promo [] = ""
last_promo (committed none ∷ rs) = last_promo rs
last_promo (committed (some cs) ∷ rs) = or_text cs.glm_promo (last_promo rs)
last_promo (probed promo quotas ∷ rs) = or_text promo (last_promo rs)
last_promo (cleared ∷ rs) = last_promo rs

-- The manager goes by `q` and `p`, and a cached state shows them.
record Shows (m : Manager) (q : Option Quotas) (p : String) : Type 0 where
  quota : quota_view m ≡ q
  promo : promo_view m ≡ p
  shown_quota : (s : CachedState) → m.state ≡ some s → s.quota_by_model ≡ q
  shown_promo : (s : CachedState) → m.state ≡ some s → s.glm_promo ≡ p

-- No session yet and no quota.
pub record IsFresh (m : Manager) : Type 0 where
  pub no_state : m.state ≡ none
  pub no_quota : m.saved_quota ≡ none
  pub no_promo : m.saved_glm_promo ≡ ""

or_option_twice {ℓ} : {A : Type ℓ} (a v : Option A) → or_option (or_option a v) v ≡ or_option a v
or_option_twice none none = refl
or_option_twice none (some v) = refl
or_option_twice (some a) v = refl

or_text_twice : (a v : String) → or_text (or_text a v) v ≡ or_text a v
or_text_twice a v = ground arith

drop-Shows : (m : Manager) (q : Option Quotas) (p : String) → Shows m q p → Shows (drop_state m) q p
unfolding drop_state stash
drop-Shows m q p h = record {
  quota = h.quota;
  promo = h.promo;
  shown_quota = λ s e. cc;
  shown_promo = λ s e. cc;
}

keep-Shows :
    (cs : CachedState) (m : Manager) (q : Option Quotas) (p : String)
    → Shows m q p
    → Shows (keep_state cs m) (or_option cs.quota_by_model q) (or_text cs.glm_promo p)
unfolding keep_state stash
keep-Shows cs m q p h = record {
  quota =
      or_option_twice cs.quota_by_model (quota_view m) ∙ ap (or_option cs.quota_by_model) h.quota;
  promo = or_text_twice cs.glm_promo (promo_view m) ∙ ap (or_text cs.glm_promo) h.promo;
  shown_quota = λ s e.
      ap CachedState.quota_by_model (sym (some_inj e)) ∙ ap (or_option cs.quota_by_model) h.quota;
  shown_promo =
      λ s e. ap CachedState.glm_promo (sym (some_inj e)) ∙ ap (or_text cs.glm_promo) h.promo;
}

clear-Shows :
    (m : Manager) (q : Option Quotas) (p : String) → Shows m q p → Shows (clear_queued m).0 q p
unfolding clear_queued commit
clear-Shows m q p h = elim (Option-cases m.state) [
  | inl e ↦ rw (clear_queued, e) h
  | inr (s, e) ↦ elim (Bool-cases (is_queued s.status)) [
    | inl queue ↦ rw (clear_queued, e, queue) (drop-Shows m q p h)
    | inr other ↦ rw (clear_queued, e, other) h
  ]
]

state_promo :
    (p : String) (o : Option CachedState) (s : CachedState)
    → with_promo p o ≡ some s
    → (s.glm_promo ≡ p) × ((t : CachedState) × (o ≡ some t) × (s.quota_by_model ≡ t.quota_by_model))
state_promo p none s e = cc
state_promo p (some t) s e = (
  ap CachedState.glm_promo (sym (some_inj e)),
  (t, refl, ap CachedState.quota_by_model (sym (some_inj e))),
)

state_quota :
    (q : Quotas) (o : Option CachedState) (s : CachedState)
    → with_quota q o ≡ some s
    → (s.quota_by_model ≡ some q) × ((t : CachedState) × (o ≡ some t) × (s.glm_promo ≡ t.glm_promo))
state_quota q none s e = cc
state_quota q (some t) s e = (
  ap CachedState.quota_by_model (sym (some_inj e)),
  (t, refl, ap CachedState.glm_promo (sym (some_inj e))),
)

quota_with_promo : (p : String) (o : Option CachedState) → quota_in (with_promo p o) ≡ quota_in o
quota_with_promo p none = refl
quota_with_promo p (some t) = refl

promo_with_quota : (q : Quotas) (o : Option CachedState) → promo_in (with_quota q o) ≡ promo_in o
promo_with_quota q none = refl
promo_with_quota q (some t) = refl

promo_with_promo : (p : String) (o : Option CachedState) → or_text (promo_in (with_promo p o)) p ≡ p
promo_with_promo p none = refl
promo_with_promo p (some t) = ground arith

quota_with_quota :
    (q : Quotas) (o : Option CachedState) → or_option (quota_in (with_quota q o)) (some q) ≡ some q
quota_with_quota q none = refl
quota_with_quota q (some t) = refl

promo-Shows :
    (promo : String) (m : Manager) (q : Option Quotas) (p : String)
    → Shows m q p
    → Shows (update_promo promo m) q (or_text promo p)
promo-Shows promo m q p h = elim (Bool-cases (promo == "")) [
  | inl e ↦ rw (update_promo, e) h
  | inr e ↦
      rw (update_promo, e)
        (record {
          quota = ap (λ o. or_option o m.saved_quota) (quota_with_promo promo m.state) ∙ h.quota;
          promo = promo_with_promo promo m.state;
          shown_quota = λ s k.
              let (there, (t, old, same)) = state_promo promo m.state s k in
              same ∙ h.shown_quota t old;
          shown_promo = λ s k. (state_promo promo m.state s k).0;
        })
]

quota-Shows :
    (x : String × QuotaSnapshot) (xs : Quotas) (m : Manager) (q : Option Quotas) (p : String)
    → Shows m q p
    → Shows (update_quota (x ∷ xs) m) (some (x ∷ xs)) p
quota-Shows x xs m q p h = record {
  quota = quota_with_quota (x ∷ xs) m.state;
  promo = ap (λ o. or_text o m.saved_glm_promo) (promo_with_quota (x ∷ xs) m.state) ∙ h.promo;
  shown_quota = λ s k. (state_quota (x ∷ xs) m.state s k).0;
  shown_promo = λ s k.
      let (there, (t, old, same)) = state_quota (x ∷ xs) m.state s k in same ∙ h.shown_promo t old;
}

probe-Shows :
    (promo : String) (quotas : Quotas) (m : Manager) (rs : List Report)
    → Shows m (last_quota rs) (last_promo rs)
    → Shows
        (update_quota_from_probe promo quotas m)
        (last_quota (probed promo quotas ∷ rs))
        (last_promo (probed promo quotas ∷ rs))
unfolding update_quota_from_probe
probe-Shows promo [] m rs h = promo-Shows promo m (last_quota rs) (last_promo rs) h
probe-Shows promo (q ∷ qs) m rs h =
    quota-Shows q qs (update_promo promo m) (last_quota rs) (last_promo (probed promo [] ∷ rs))
      (promo-Shows promo m (last_quota rs) (last_promo rs) h)

report-Shows :
    (m : Manager)
    → IsFresh m
    → (rs : List Report) → Shows (report_all rs m) (last_quota rs) (last_promo rs)
unfolding commit clear_queued
report-Shows m f [] = record {
  quota = rw f.no_state f.no_quota;
  promo = rw f.no_state f.no_promo;
  shown_quota = λ s e. cc;
  shown_promo = λ s e. cc;
}
report-Shows m f (committed none ∷ rs) =
    drop-Shows (report_all rs m) (last_quota rs) (last_promo rs) (report-Shows m f rs)
report-Shows m f (committed (some cs) ∷ rs) =
    keep-Shows cs (report_all rs m) (last_quota rs) (last_promo rs) (report-Shows m f rs)
report-Shows m f (probed promo quotas ∷ rs) =
    probe-Shows promo quotas (report_all rs m) rs (report-Shows m f rs)
report-Shows m f (cleared ∷ rs) =
    clear-Shows (report_all rs m) (last_quota rs) (last_promo rs) (report-Shows m f rs)

snapshot-Shows :
    (decode : String → Option GlmPromo) (m : Manager) (q : Option Quotas) (p : String)
    → Shows m q p
    → ((snapshot decode m).quota_by_model ≡ quotas_of q)
      × ((snapshot decode m).glm_promo ≡ decode p)
      × ((snapshot decode m).entitlement ≡ [])
unfolding snapshot
snapshot-Shows decode m q p h = elim (Option-cases m.state) [
  | inl e ↦ rw (snapshot, e) (ap quotas_of (rw e at h.quota), ap decode (rw e at h.promo), refl)
  | inr (s, e) ↦
      rw (snapshot, e) (ap quotas_of (h.shown_quota s e), ap decode (h.shown_promo s e), refl)
]

-- After any commits, probes and cleared queues on a fresh manager its snapshot shows the quotas and
-- the promo block that were reported last, although later answers and dropped sessions had none.
pub snapshot-last :
    (decode : String → Option GlmPromo) (m : Manager)
    → IsFresh m
    → (rs : List Report)
    → ((snapshot decode (report_all rs m)).quota_by_model ≡ quotas_of (last_quota rs))
      × ((snapshot decode (report_all rs m)).glm_promo ≡ decode (last_promo rs))
snapshot-last decode m f rs =
    let (quota, promo, none_left) =
      snapshot-Shows decode (report_all rs m) (last_quota rs) (last_promo rs)
        (report-Shows m f rs) in
    (quota, promo)

or_nothing : (a b : Bool) → (a || b || false || false) ≡ (a || b)
or_nothing a b = ground arith

-- The entitlement test of the manager and the one of its snapshot agree, after any such history.
pub entitled-snapshot :
    (decode : String → Option GlmPromo) (m : Manager)
    → IsFresh m
    → (rs : List Report) (now : ℕ)
    → entitled decode now (report_all rs m)
      ≡ has_glm_entitlement now (snapshot decode (report_all rs m))
unfolding entitled has_glm_entitlement lookup
entitled-snapshot decode m f rs now =
    let h = report-Shows m f rs in
    let (quota, promo, none_left) =
      snapshot-Shows decode (report_all rs m) (last_quota rs) (last_promo rs) h in
    rw (entitled, has_glm_entitlement, quota, promo, none_left, h.quota, h.promo)
      (sym (
        or_nothing (quota_open now (lookup referral_model (quotas_of (last_quota rs))))
          (promo_open now (decode (last_promo rs)))))
