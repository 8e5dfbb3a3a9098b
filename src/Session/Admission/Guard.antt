-- ===== src/Session/Admission/Guard.antt =====
-- When an admission of internal/session/session_admission.go posts a session.
use freebuff_proxy_scaleway.Base.{
  ◌≡◌, refl, ap, String, true, false, some, [], ◌∷◌, inl, inr, ◌⊎◌, arith, Bool-cases, Option-cases,
  none,
}
use freebuff_proxy_scaleway.Base.Eq.{◌==◌, String_eq}
use freebuff_proxy_scaleway.Session.Snapshot.{referral_model}
use freebuff_proxy_scaleway.Session.Manager.{
  Manager, sent_create, sent_get, sent_probe, update_quota_from_probe, Quotas,
}
use freebuff_proxy_scaleway.Session.Manager.View.{entitled}
use freebuff_proxy_scaleway.Session.Refresh.{send}
use freebuff_proxy_scaleway.Session.Admission.{
  World, CliOwner, adopt_owner, create_session_for_model, adopt_or_create, ensure_entitled,
  probe_account, is_running,
}

-- No CLI process of the account is known to run.
abbrev pub IsUncontested : World → Type 0
IsUncontested w =
    (w.adopting ≡ false) ⊎ ((o : CliOwner) × (adopt_owner w ≡ some o) × (is_running w o ≡ false))

-- A CLI process runs.
abbrev pub IsContested : World → CliOwner → Type 0
IsContested w o = (w.adopting ≡ true) × (adopt_owner w ≡ some o) × (is_running w o ≡ true)

-- The owner is unknown, or it runs and has recorded no session.
abbrev pub IsBlocked : World → Type 0
IsBlocked w =
    ((w.adopting ≡ true) × (adopt_owner w ≡ none))
    ⊎ ((o : CliOwner) × IsContested w o × ((o.instance_id == "") ≡ true))

-- The model needs an entitlement, and the manager knows of none.
abbrev pub IsUnentitled : World → String → Manager → Type 0
IsUnentitled w model m = ((model == referral_model) ≡ true) × (entitled w.decode w.now m ≡ false)

-- The requests of an admission that begins with the manager `before` and leaves `m`: none, a poll of
-- the CLI's session, or a post, which a probe of the account may precede, or a probe alone.
pub data Requests (w : World) (model : String) (before m : Manager) : Type 0 where
  nothing_sent : IsBlocked w → m.sent ≡ before.sent → Requests w model before m
  polled :
      (o : CliOwner)
      → IsContested w o
      → (o.instance_id == "") ≡ false
      → m.sent ≡ sent_get o.instance_id ∷ before.sent
      → Requests w model before m
  posted :
      IsUncontested w
      → ¬ IsUnentitled w model before
      → m.sent ≡ sent_create model ∷ before.sent
      → Requests w model before m
  probed :
      IsUncontested w
      → IsUnentitled w model before
      → IsUnentitled w model m
      → m.sent ≡ sent_probe ∷ before.sent
      → Requests w model before m
  probed_posted :
      IsUncontested w
      → IsUnentitled w model before
      → ¬ IsUnentitled w model m
      → m.sent ≡ sent_create model ∷ sent_probe ∷ before.sent
      → Requests w model before m

update-sent :
    (promo : String) (quotas : Quotas) (m : Manager)
    → (update_quota_from_probe promo quotas m).sent ≡ m.sent
unfolding update_quota_from_probe
update-sent promo [] m = ground arith
update-sent promo (q ∷ qs) m = ground arith

probe_account-sent : (w : World) (m : Manager) → (probe_account w m).sent ≡ sent_probe ∷ m.sent
unfolding probe_account
probe_account-sent w m = elim (Option-cases w.probe) [
  | inl p ↦ simp (probe_account, p) refl
  | inr (x, p) ↦ simp (probe_account, p) (update-sent x.0 x.1 (send sent_probe m))
]

create-Requests :
    (w : World) (model : String) (m : Manager)
    → IsUncontested w
    → Requests w model m (create_session_for_model w model m).0
unfolding create_session_for_model ensure_entitled entitled
create-Requests w model m free = elim (Bool-cases (model == referral_model)) [
  | inr other ↦ simp (create_session_for_model, other) (posted free (λ u. cc (u.0, other)) refl)
  | inl same ↦ elim (Bool-cases (entitled w.decode w.now m)) [
    | inl known ↦
        simp (create_session_for_model, same, ensure_entitled, known)
          (posted free (λ u. cc (u.1, known)) refl)
    | inr unknown ↦ elim (Bool-cases (entitled w.decode w.now (probe_account w m))) [
      | inl e ↦
          simp (create_session_for_model, same, ensure_entitled, unknown, e)
            (probed_posted free (same, unknown) (λ u. cc (u.1, e))
              (ap (λ l. sent_create model ∷ l) (probe_account-sent w m)))
      | inr e ↦
          simp (create_session_for_model, same, ensure_entitled, unknown, e)
            (probed free (same, unknown) (same, e) (probe_account-sent w m))
    ]
  ]
]

-- What an admission sends. If no CLI process of the account is known to run, it posts a session; but
-- for the referral-only model without a known entitlement it probes the account first and posts only
-- if the manager knows of one then. If a CLI process runs it polls the session that the process
-- recorded and nothing else. If the process recorded none, or the owner is unknown, it sends nothing.
pub adopt_or_create-Requests :
    (w : World) (model : String) (m : Manager) → Requests w model m (adopt_or_create w model m).0
unfolding adopt_or_create
adopt_or_create-Requests w model m = elim (Bool-cases w.adopting) [
  | inr off ↦ simp (adopt_or_create, off) (create-Requests w model m (inl off))
  | inl on ↦ elim (Option-cases (adopt_owner w)) [
    | inl unknown ↦ simp (adopt_or_create, on, unknown) (nothing_sent (inl (on, unknown)) refl)
    | inr (o, known) ↦ elim (Bool-cases (is_running w o)) [
      | inr idle ↦
          simp (adopt_or_create, on, known, idle) (create-Requests w model m (inr (o, known, idle)))
      | inl runs ↦ elim (Bool-cases (o.instance_id == "")) [
        | inl e ↦
            simp (adopt_or_create, on, known, runs, e)
              (nothing_sent (inr (o, (on, known, runs), e)) refl)
        | inr e ↦ simp (adopt_or_create, on, known, runs, e) (polled o (on, known, runs) e refl)
      ]
    ]
  ]
]
