-- ===== src/Session/Poll/Answered.antt =====
-- What a poll of internal/session/session_poll.go leaves in the cache.
use freebuff_proxy_scaleway.Base.{
  ℕ, ◌≡◌, ◌≢◌, refl, sym, ◌∙◌, String, Bool, true, false, not, Option, none, some, inl, inr, ◌⊎◌,
  arith, Bool-cases, Option-cases,
}
use mathlib.Core.Path.{subst}
use freebuff_proxy_scaleway.Base.Eq.{◌==◌, String_eq}
use freebuff_proxy_scaleway.Upstream.Failure.{Failure, waiting_room_required}
use freebuff_proxy_scaleway.Session.Manager.{
  Manager, CachedState, SessionError, Status, ended, superseded, absent, banned, Reason, commit,
  drop_state, keep_state, session_usable, grace_ends_at, is_ended, sent_get,
}
use freebuff_proxy_scaleway.Session.Storm.History.{record_invalidation_state}
use freebuff_proxy_scaleway.Session.Answer.{SessionState, status_error}
use freebuff_proxy_scaleway.Session.Refresh.{Round, Answer, drop_polled, send}
use freebuff_proxy_scaleway.Session.Poll.{
  poll, poll_target, poll_answer, poll_status, keep_draining, in_grace, drop_banned, fail_poll,
}

-- The answers that end the polled session.
abbrev pub ends_status : ℕ → Status → SessionState → Bool
ends_status now banned st = true
ends_status now superseded st = true
ends_status now absent st = true
ends_status now ended st = not (in_grace now st)
ends_status now status st = false

abbrev pub ends_session : ℕ → Answer → Bool
ends_session now (inl (waiting_room_required e)) = true
ends_session now (inl f) = false
ends_session now (inr st) = ends_status now st.status st

-- A row of the same model that drains in its grace window.
pub record IsDraining (now : ℕ) (model : String) (s : CachedState) : Type 0 where
  pub status : is_ended s.status ≡ true
  pub same_model : s.model ≡ model
  pub usable : session_usable now s ≡ true

-- What becomes of the cached row `s`.
abbrev pub Polled : ℕ → Bool → CachedState → Option CachedState → Type 0
Polled now ends s row =
    ((row ≡ some s) × (ends ≡ false))
    ⊎ ((row ≡ none) × (ends ≡ true))
    ⊎ ((t : CachedState) × (row ≡ some t) × IsDraining now s.model t × (ends ≡ false))

not_true : (b : Bool) → b ≢ true → b ≡ false
not_true true h = absurd (h refl)
not_true false h = refl

module _ (now : ℕ) (r : Reason) (m : Manager) (s : CachedState) (e : m.state ≡ some s) where
  drop_polled_same : (drop_polled now s.instance_id r m).state ≡ none
  unfolding drop_polled commit drop_state
  drop_polled_same =
      let same : (s.instance_id == s.instance_id) ≡ true =
        (String_eq.same_iff s.instance_id s.instance_id).1 refl in
      rw (drop_polled, e, same) (record_invalidation_state now r (commit none m))

  drop_polled_other :
      (instance : String) → s.instance_id ≢ instance → (drop_polled now instance r m).state ≡ some s
  unfolding drop_polled
  drop_polled_other instance h =
      let other : (s.instance_id == instance) ≡ false =
        not_true (s.instance_id == instance)
          (λ t. h ((String_eq.same_iff s.instance_id instance).0 t)) in
      rw (drop_polled, e, other) e

keep_draining_same :
    (now : ℕ) (st : SessionState) (m : Manager) (s : CachedState)
    → m.state ≡ some s
    → in_grace now st ≡ true
    → (t : CachedState) × ((keep_draining s.instance_id st m).state ≡ some t)
      × IsDraining now s.model t
unfolding keep_draining commit keep_state session_usable grace_ends_at
keep_draining_same now st m s e g =
    let same : (s.instance_id == s.instance_id) ≡ true =
      (String_eq.same_iff s.instance_id s.instance_id).1 refl in
    rw (keep_draining, e, same)
      (_, refl, record { status = refl; same_model = refl; usable = ground (arith, g) })

status-Polled :
    (now : ℕ) (status : Status) (st : SessionState) (m : Manager) (s : CachedState)
    → m.state ≡ some s
    → status ≢ banned
    → Polled now (ends_status now status st) s (poll_status now s.instance_id status st m).state
unfolding poll_status
status-Polled now superseded st m s e h = inr (inl (drop_polled_same now _ m s e, refl))
status-Polled now absent st m s e h = inr (inl (drop_polled_same now _ m s e, refl))
status-Polled now ended st m s e h = elim (Bool-cases (in_grace now st)) [
  | inl g ↦
      let (t, there, drains) = keep_draining_same now st m s e g in
      rw (poll_status, g) (inr (inr (t, there, drains, refl)))
  | inr g ↦ rw (poll_status, g) (inr (inl (drop_polled_same now _ m s e, refl)))
]
status-Polled now banned st m s e h = absurd (h refl)
status-Polled now status st m s e h = inl (e, refl)

error-banned :
    (lower : String → String) (status : Status) (st : SessionState)
    → status_error lower status st ≡ none
    → status ≢ banned
unfolding status_error
error-banned lower banned st h e = absurd cc
error-banned lower status st h e = absurd cc

-- The statuses with an error leave the row, but for a ban.
error-Polled :
    (lower : String → String) (now : ℕ) (status : Status) (st : SessionState) (x : SessionError)
    (m : Manager) (s : CachedState)
    → m.state ≡ some s
    → status_error lower status st ≡ some x
    → Polled now (ends_status now status st) s (drop_banned now s.instance_id status m).state
unfolding status_error
error-Polled lower now banned st x m s e h = inr (inl (drop_polled_same now _ m s e, refl))
error-Polled lower now superseded st x m s e h = cc
error-Polled lower now absent st x m s e h = cc
error-Polled lower now ended st x m s e h = cc
error-Polled lower now status st x m s e h = inl (e, refl)

fail-Polled :
    (now : ℕ) (f : Failure) (m : Manager) (s : CachedState)
    → m.state ≡ some s
    → Polled now (ends_session now (inl f)) s (fail_poll now s.instance_id f m).state
fail-Polled now (waiting_room_required x) m s e = inr (inl (drop_polled_same now _ m s e, refl))
fail-Polled now f m s e = inl (e, refl)

answer-Polled :
    (lower : String → String) (now : ℕ) (a : Answer) (m : Manager) (s : CachedState)
    → m.state ≡ some s
    → Polled now (ends_session now a) s (poll_answer lower now s.instance_id a m).0.state
unfolding poll_answer
answer-Polled lower now (inl f) m s e = fail-Polled now f m s e
answer-Polled lower now (inr st) m s e = elim (Option-cases (status_error lower st.status st)) [
  | inl h ↦
      rw (poll_answer, h)
        (status-Polled now st.status st (record m { last_admitted = now }) s e
          (error-banned lower st.status st h))
  | inr (x, h) ↦
      rw (poll_answer, h)
        (error-Polled lower now st.status st x (record m { last_admitted = now }) s e h)
]

-- What a poll of `instance` makes of the row that it finds when the answer is there.
abbrev pub PolledRow : ℕ → String → Bool → Option CachedState → Option CachedState → Type 0
PolledRow now instance ends none row = row ≡ none
PolledRow now instance ends (some s) row =
    ((s.instance_id ≢ instance) × (row ≡ some s))
    ⊎ ((s.instance_id ≡ instance) × Polled now ends s row)

abbrev Misses : String → Option CachedState → Type 0
Misses instance none = Unit
Misses instance (some s) = s.instance_id ≢ instance

module _ (now : ℕ) (instance : String) (m : Manager) (misses : Misses instance m.state) where
  drop-Misses : (r : Reason) → (drop_polled now instance r m).state ≡ m.state
  unfolding drop_polled
  drop-Misses r = elim (Option-cases m.state) [
    | inl e ↦ rw (drop_polled, e) e
    | inr (s, e) ↦ drop_polled_other now r m s e instance (subst (Misses instance) e misses) ∙ sym e
  ]

  keep-Misses : (st : SessionState) → (keep_draining instance st m).state ≡ m.state
  unfolding keep_draining
  keep-Misses st = elim (Option-cases m.state) [
    | inl e ↦ rw (keep_draining, e) e
    | inr (s, e) ↦
        let other : (s.instance_id == instance) ≡ false = not_true (s.instance_id == instance) (λ t.
          (subst (Misses instance) e misses) ((String_eq.same_iff s.instance_id instance).0 t)) in
        rw (keep_draining, e, other) e
  ]

  status-Misses :
      (status : Status) (st : SessionState) → (poll_status now instance status st m).state ≡ m.state
  unfolding poll_status
  status-Misses superseded st = drop-Misses _
  status-Misses absent st = drop-Misses _
  status-Misses ended st = elim (Bool-cases (in_grace now st)) [
    | inl g ↦ rw (poll_status, g) (keep-Misses st)
    | inr g ↦ rw (poll_status, g) (drop-Misses _)
  ]
  status-Misses status st = refl

  banned-Misses : (status : Status) → (drop_banned now instance status m).state ≡ m.state
  banned-Misses banned = drop-Misses _
  banned-Misses status = refl

  fail-Misses : (f : Failure) → (fail_poll now instance f m).state ≡ m.state
  fail-Misses (waiting_room_required x) = drop-Misses _
  fail-Misses f = refl

answer-Misses :
    (lower : String → String) (now : ℕ) (instance : String) (a : Answer) (m : Manager)
    → Misses instance m.state
    → (poll_answer lower now instance a m).0.state ≡ m.state
unfolding poll_answer
answer-Misses lower now instance (inl f) m h = fail-Misses now instance m h f
answer-Misses lower now instance (inr st) m h =
    elim (Option-cases (status_error lower st.status st)) [
      | inl e ↦
          rw (poll_answer, e)
            (status-Misses now instance (record m { last_admitted = now }) h st.status st)
      | inr (x, e) ↦
          rw (poll_answer, e)
            (banned-Misses now instance (record m { last_admitted = now }) h st.status)
    ]

answer-PolledRow :
    (lower : String → String) (now : ℕ) (instance : String) (a : Answer) (m : Manager)
    → PolledRow now instance
        (ends_session now a)
        m.state
        (poll_answer lower now instance a m).0.state
answer-PolledRow lower now instance a m = elim (Option-cases m.state) [
  | inl e ↦
      let row = answer-Misses lower now instance a m (subst (Misses instance) (sym e) tt) in
      subst
        (λ o.
          PolledRow now instance (ends_session now a) o
            (poll_answer lower now instance a m).0.state)
        (sym e) (row ∙ e)
  | inr (s, e) ↦
      subst
        (λ o.
          PolledRow now instance (ends_session now a) o
            (poll_answer lower now instance a m).0.state)
        (sym e)
        (elim (Bool-cases (s.instance_id == instance)) [
          | inl same ↦
              let eq : s.instance_id ≡ instance =
                (String_eq.same_iff s.instance_id instance).0 same in
              inr (
                eq,
                subst (λ i. Polled now (ends_session now a) s (poll_answer lower now i a m).0.state)
                    eq (answer-Polled lower now a m s e),
              )
          | inr other ↦
              let ne : s.instance_id ≢ instance =
                λ eq. cc (other, (String_eq.same_iff s.instance_id instance).1 eq) in
              inl
                (ne, answer-Misses lower now instance a m (subst (Misses instance) (sym e) ne) ∙ e)
        ])
]

-- A poll takes its answer on the cache as it is then. A row of another instance, which came in
-- meanwhile, stays. The polled row is dropped exactly if the upstream says that its session is gone:
-- banned, superseded, absent, ended without a grace window that is open, or waiting_room_required.
-- Otherwise it stays or becomes a row of the same model that is usable in its grace window.
pub poll-PolledRow :
    (lower : String → String) (start : ℕ) (r : Round) (m : Manager) (instance : String)
    → poll_target start m ≡ some instance
    → PolledRow r.now instance
        (ends_session r.now (r.get instance))
        (r.others (send (sent_get instance) m)).state
        (poll lower start r m).0.state
unfolding poll
poll-PolledRow lower start r m instance h =
    rw (poll, h)
      (answer-PolledRow lower r.now instance (r.get instance)
        (r.others (send (sent_get instance) m)))
