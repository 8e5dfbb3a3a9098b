-- ===== src/Session/Refresh/Ride.antt =====
-- What a pre-emptive refresh of internal/session/session_admission.go does to the session that is
-- ridden meanwhile.
use freebuff_proxy_scaleway.Base.{
  ℕ, ◌≡◌, refl, ap, ◌∙◌, String, Bool, true, false, ◌&&◌, not, Option, none, some, inl, inr, ◌⊎◌,
  Option-cases, some_inj, if◌then◌else◌,
}
use mathlib.Core.Path.{subst}
use freebuff_proxy_scaleway.Base.Eq.{◌==◌, String_eq}
use freebuff_proxy_scaleway.Upstream.Failure.{Failure, waiting_room_required}
use freebuff_proxy_scaleway.Session.Manager.{
  SessionError, Manager, CachedState, Status, active, disabled, model_locked, model_unavailable,
  commit, drop_state, is_queued, sent_get,
}
use freebuff_proxy_scaleway.Session.Answer.{SessionState}
use freebuff_proxy_scaleway.Session.Unavailable.{
  model_unavailable_short_circuit, model_unavailable_until, default_fallback_model,
}
use freebuff_proxy_scaleway.Session.Refresh.{
  Round, Answer, Verdict, settled, again, refresh_round, refresh_rounds, refresh, act, decide, ask,
  call, fail_round, create_session, or_create, poll_persisted, send, max_refresh_iterations,
}

-- The answers to a create that may drop the cached row.
abbrev pub may_drop_status : Status → Bool
may_drop_status model_locked = true
may_drop_status model_unavailable = true
may_drop_status s = false

abbrev pub may_drop : Answer → Bool
may_drop (inl (waiting_room_required e)) = true
may_drop (inl f) = false
may_drop (inr st) = may_drop_status st.status

-- The answers to a create that replace it.
abbrev pub replaces_status : Status → Bool
replaces_status active = true
replaces_status disabled = true
replaces_status s = false

abbrev pub replaces : Answer → Bool
replaces (inl f) = false
replaces (inr st) = replaces_status st.status

-- The verdict of a round that keeps a row or puts the answered session in its place.
abbrev Rides : Option CachedState → Bool → Verdict → Type 0
Rides row replaced (settled m e) = (m.state ≡ row) ⊎ (replaced ≡ true)
Rides row replaced (again target m) = ⊥

act-Rides :
    (lower : String → String) (now : ℕ) (target : String) (status : Status) (st : SessionState)
    (m : Manager)
    → may_drop_status status ≡ false
    → Rides m.state (replaces_status status) (act lower true now target status st m)
unfolding act
act-Rides lower now target active st m h = inr refl
act-Rides lower now target disabled st m h = inr refl
act-Rides lower now target model_locked st m h = cc
act-Rides lower now target model_unavailable st m h = cc
act-Rides lower now target status st m h = inl refl

fail_round_kept :
    (now : ℕ) (row : Option CachedState) (f : Failure) (m : Manager)
    → may_drop (inl f) ≡ false
    → (fail_round now row f m).state ≡ m.state
unfolding fail_round
fail_round_kept now (some s) (waiting_room_required e) m h = cc
fail_round_kept now none f m h = refl
fail_round_kept now (some s) f m h = refl

decide-Rides :
    (lower : String → String) (r : Round) (target : String) (row : Option CachedState) (m : Manager)
    (a : Answer)
    → may_drop a ≡ false
    → Rides m.state (replaces a) (decide lower true r target row (m, a))
decide-Rides lower r target row m (inl f) h = inl (fail_round_kept r.now row f m h)
decide-Rides lower r target row m (inr st) h = act-Rides lower r.now target st.status st m h

-- A request that rides a cached session.
pub record IsRidden (start : ℕ) (target : String) (m : Manager) (s : CachedState) : Type 0 where
  pub cached : m.state ≡ some s
  pub not_queued : is_queued s.status ≡ false
  pub available : model_unavailable_until start target m ≡ none

call_creates :
    (r : Round) (target : String) (m : Manager) (s : CachedState)
    → m.state ≡ some s
    → is_queued s.status ≡ false
    → call r target m ≡ create_session r target m
unfolding call
call_creates r target m s e q = go m.state e
  where
    go :
        (o : Option CachedState)
        → o ≡ some s
        → (elim o [
          | none ↦ or_create r target (poll_persisted r target m)
          | some t ↦
              if is_queued t.status && not (t.instance_id == "")
              then (send (sent_get t.instance_id) m, r.get t.instance_id)
              else create_session r target m
        ])
          ≡ create_session r target m
    go none h = cc
    go (some t) h = rw (ap (λ x. is_queued (CachedState.status x)) (some_inj h) ∙ q) refl

round-Rides :
    (lower : String → String) (r : Round) (target : String) (m : Manager) (s : CachedState)
    → m.state ≡ some s
    → is_queued s.status ≡ false
    → ((k : Manager) → (r.others k).state ≡ k.state)
    → may_drop (r.create target) ≡ false
    → Rides (some s) (replaces (r.create target)) (refresh_round lower true r target m)
unfolding refresh_round
round-Rides lower r target m s e q quiet h = elim (Option-cases r.cancelled) [
  | inr (f, c) ↦ rw (refresh_round, c) (inl e)
  | inl c ↦
      let asked : ask r target m ≡ (r.others (create_session r target m).0, r.create target) =
        ap (λ x. (r.others x.0, x.1)) (call_creates r target m s e q) in
      let row : (r.others (create_session r target m).0).state ≡ some s =
        quiet (create_session r target m).0 ∙ e in
      rw (refresh_round, c, asked)
        (subst
          (λ o. Rides o (replaces (r.create target)) (
            decide lower true r target m.state
              (r.others (create_session r target m).0, r.create target)))
          row
          (decide-Rides lower r target m.state (r.others (create_session r target m).0)
            (r.create target) h))
]

abbrev Kept : Option CachedState → Bool → Manager × Option SessionError → Type 0
Kept row replaced r = (r.0.state ≡ row) ⊎ (replaced ≡ true)

-- A pre-emptive refresh while a request rides the cached session leaves that session in the cache,
-- unless the upstream admits a new one or says that sessions are disabled: neither an error, nor a
-- place in the queue, nor a refusal drops it. This holds if the model was not cached as unavailable
-- and the answer is none of the two that make the refresh go on (model_locked, model_unavailable)
-- and not waiting_room_required, and other goroutines keep the cached row.
pub refresh_ridden :
    (lower : String → String) (start : ℕ) (world : ℕ → Round) (target : String) (m : Manager)
    (s : CachedState)
    → IsRidden start target m s
    → ((k : Manager) → ((world 4).others k).state ≡ k.state)
    → may_drop ((world 4).create target) ≡ false
    → ((refresh lower true start world target m).0.state ≡ some s)
      ⊎ (replaces ((world 4).create target) ≡ true)
unfolding refresh refresh_rounds model_unavailable_short_circuit
refresh_ridden lower start world target m s ridden quiet h =
    rw (refresh, model_unavailable_short_circuit, ridden.available)
      (after (refresh_round lower true (world 4) target m)
        (round-Rides lower (world 4) target m s ridden.cached ridden.not_queued quiet h))
  where
    after :
        (v : Verdict)
        → Rides (some s) (replaces ((world 4).create target)) v
        → Kept (some s) (replaces ((world 4).create target)) (elim v [
          | settled m' e ↦ (m', e)
          | again target' m' ↦ refresh_rounds 4 lower true world target' m'
        ])
    after (settled m' e) r = r
    after (again target' m') r = absurd r

act_unavailable :
    (lower : String → String) (now : ℕ) (target : String) (status : Status) (st : SessionState)
    (m : Manager)
    → status ≡ model_unavailable
    → (m' : Manager) × (act lower true now target status st m ≡ again default_fallback_model m')
      × (m'.state ≡ none)
unfolding act commit drop_state
act_unavailable lower now target model_unavailable st m h = (_, refl, refl)
act_unavailable lower now target status st m h = absurd cc

all_rounds :
    (lower : String → String) (start : ℕ) (world : ℕ → Round) (target : String) (m : Manager)
    → model_unavailable_until start target m ≡ none
    → refresh lower true start world target m
      ≡ refresh_rounds max_refresh_iterations lower true world target m
unfolding refresh model_unavailable_short_circuit
all_rounds lower start world target m e = rw (refresh, model_unavailable_short_circuit, e) refl

-- But an answer model_unavailable drops it, however long it is still usable: the refresh goes on for
-- the fallback model with an empty cache.
pub refresh_ridden_lost :
    (lower : String → String) (start : ℕ) (world : ℕ → Round) (target : String) (m : Manager)
    (s : CachedState) (st : SessionState)
    → IsRidden start target m s
    → (world 4).cancelled ≡ none
    → (world 4).create target ≡ inr st
    → st.status ≡ model_unavailable
    → (m' : Manager) × (refresh lower true start world target m
        ≡ refresh_rounds 4 lower true world default_fallback_model m')
      × (m'.state ≡ none)
unfolding refresh refresh_rounds model_unavailable_short_circuit refresh_round
refresh_ridden_lost lower start world target m s st ridden live answer status =
    let r = world 4 in
    let asked : ask r target m ≡ (r.others (create_session r target m).0, inr st) =
      ap (λ x. (r.others x.0, x.1)) (call_creates r target m s ridden.cached ridden.not_queued)
      ∙ ap (λ a. (r.others (create_session r target m).0, a)) answer in
    let (m', goes_on, lost) =
      act_unavailable lower r.now target st.status st (r.others (create_session r target m).0)
        status in
    let round : refresh_round lower true r target m ≡ again default_fallback_model m' =
      rw (refresh_round, live, asked) goes_on in
    (
      m',
      all_rounds lower start world target m ridden.available
          ∙ ap
              (λ v. elim v as (λ v. Manager × Option SessionError) [
                | settled k e ↦ (k, e)
                | again t k ↦ refresh_rounds 4 lower true world t k
              ])
              round,
      lost,
    )
