-- ===== src/Session/Refresh/Outcome.antt =====
-- How a refresh of internal/session/session_admission.go ends.
use freebuff_proxy_scaleway.Base.{
  ℕ, ◌+◌, ◌≤◌, ◌<◌, ◌≡◌, refl, sym, String, true, false, Option, none, some, inl, inr, ◌⊎◌, zero,
  suc, Bool-cases, Option-cases, arith,
}
use mathlib.Core.Path.{subst}
use freebuff_proxy_scaleway.Base.Eq.{String_eq}
use freebuff_proxy_scaleway.Session.Manager.{
  SessionError, Manager, CachedState, Status, active, disabled, queued, ended, superseded, absent,
  model_locked, model_unavailable, commit, keep_state, stash, or_text, grace_window,
}
use freebuff_proxy_scaleway.Session.Answer.{SessionState, status_error, poll_time}
use freebuff_proxy_scaleway.Session.Unavailable.{
  model_unavailable_short_circuit, model_unavailable_until, serves_fallback, default_fallback_model,
}
use freebuff_proxy_scaleway.Session.Refresh.{
  Round, Answer, Verdict, settled, again, refresh_round, refresh_rounds, refresh, act, decide, ask,
  call, max_refresh_iterations,
}

-- The row that an answer to a round at `now` for the model `target` leaves: an admitted session with
-- its instance, model and end, a place in the queue with its next poll, or sessions that are disabled.
abbrev pub IsRow : ℕ → String → Status → SessionState → CachedState → Type 0
IsRow now target active st s =
    (s.status ≡ active)
    × (s.instance_id ≡ st.instance_id)
    × (s.model ≡ or_text st.model target)
    × (s.expires_at ≡ st.expires_at)
    × (s.grace_period_ends_at ≡ st.expires_at + grace_window)
IsRow now target queued st s =
    (s.status ≡ queued)
    × (s.instance_id ≡ st.instance_id)
    × (s.model ≡ or_text st.model target)
    × (s.position ≡ st.position)
    × (s.poll_at ≡ poll_time now st)
IsRow now target disabled st s = (s.status ≡ disabled) × (s.instance_id ≡ "")
IsRow now target status st s = ⊥

-- A round asks for the model of the refresh or for the fallback model.
abbrev pub IsAsked : String → String → Type 0
IsAsked target asked = (asked ≡ target) ⊎ (asked ≡ default_fallback_model)

-- The cache holds the row of the answer to one of the five rounds.
pub record IsAnswered (world : ℕ → Round) (target : String) (m : Manager) : Type 0 where
  pub round : ℕ
  pub early : round < 5
  pub asked : String
  pub asks : IsAsked target asked
  pub before : Manager
  pub answer : SessionState
  pub got : (call (world round) asked before).1 ≡ inr answer
  pub session : CachedState
  pub cached : m.state ≡ some session
  pub row : IsRow (world round).now asked answer.status answer session

-- What the switch on an answer comes to.
abbrev ActSettles : ℕ → String → Status → SessionState → Verdict → Type 0
ActSettles now asked status st (settled m none) =
    (s : CachedState) × (m.state ≡ some s) × IsRow now asked status st s
ActSettles now asked status st (settled m (some e)) = Unit
ActSettles now asked status st (again target m) = IsAsked asked target

act-Settles :
    (lower : String → String) (now : ℕ) (asked : String) (status : Status) (st : SessionState)
    (m : Manager)
    → ActSettles now asked status st (act lower false now asked status st m)
unfolding act commit keep_state stash status_error
act-Settles lower now asked active st m = (_, refl, (refl, refl, refl, refl, refl))
act-Settles lower now asked disabled st m = (_, refl, (refl, refl))
act-Settles lower now asked queued st m = (_, refl, (refl, refl, refl, refl, refl))
act-Settles lower now asked ended st m = inl refl
act-Settles lower now asked superseded st m = inl refl
act-Settles lower now asked absent st m = inl refl
act-Settles lower now asked model_locked st m = inl refl
act-Settles lower now asked model_unavailable st m = inr refl
act-Settles lower now asked status st m = tt

module _ (lower : String → String) (world : ℕ → Round) (target : String) where
  abbrev Settles : Verdict → Type 0
  Settles (settled m none) = IsAnswered world target m
  Settles (settled m (some e)) = Unit
  Settles (again asked m) = IsAsked target asked

  then-IsAsked : (a b : String) → IsAsked target a → IsAsked a b → IsAsked target b
  then-IsAsked a b asks (inl e) = subst (IsAsked target) (sym e) asks
  then-IsAsked a b asks (inr e) = inr e

  settles :
      (n : ℕ)
      → n < 5
      → (asked : String) → IsAsked target asked
      → (before : Manager) (st : SessionState) → (call (world n) asked before).1 ≡ inr st
      → (v : Verdict) → ActSettles (world n).now asked st.status st v
      → Settles v
  settles n h asked asks before st e (settled m none) (s, cached, row) = record {
    round = n;
    early = h;
    asked = asked;
    asks = asks;
    before = before;
    answer = st;
    got = e;
    session = s;
    cached = cached;
    row = row;
  }
  settles n h asked asks before st e (settled m (some x)) a = tt
  settles n h asked asks before st e (again next m) a = then-IsAsked asked next asks a

  round-Settles :
      (n : ℕ)
      → n < 5
      → (asked : String) → IsAsked target asked
      → (m : Manager) → Settles (refresh_round lower false (world n) asked m)
  unfolding refresh_round
  round-Settles n h asked asks m = elim (Option-cases (world n).cancelled) [
    | inr (f, e) ↦ rw (refresh_round, e) tt
    | inl e ↦ rw (refresh_round, e) (answered (call (world n) asked m).1 refl)
  ]
    where
      answered :
          (a : Answer)
          → (call (world n) asked m).1 ≡ a
          → Settles (decide lower false (world n) asked m.state ((ask (world n) asked m).0, a))
      answered (inl f) e = tt
      answered (inr st) e =
          settles n h asked asks m st e _
            (act-Settles lower (world n).now asked st.status st (ask (world n) asked m).0)

  abbrev IsDone : Manager × Option SessionError → Type 0
  IsDone (m, none) = IsAnswered world target m
  IsDone (m, some e) = Unit

  rounds-IsDone :
      (n : ℕ)
      → n ≤ 5
      → (asked : String) → IsAsked target asked
      → (m : Manager) → IsDone (refresh_rounds n lower false world asked m)
  unfolding refresh_rounds
  rounds-IsDone zero h asked asks m = tt
  rounds-IsDone (suc n) h asked asks m =
      after (λ t a k. rounds-IsDone n (omega arith) t a k)
        (refresh_round lower false (world n) asked m) (round-Settles n (omega arith) asked asks m)
    where
      after :
          ((t : String)
            → IsAsked target t
            → (k : Manager) → IsDone (refresh_rounds n lower false world t k))
          → (v : Verdict) → Settles v
          → IsDone (elim v [
            | settled m' e ↦ (m', e)
            | again target' m' ↦ refresh_rounds n lower false world target' m'
          ])
      after rest (settled m' none) a = a
      after rest (settled m' (some e)) a = tt
      after rest (again target' m') a = rest target' a m'

  done-IsAnswered :
      (r : Manager × Option SessionError) → IsDone r → r.1 ≡ none → IsAnswered world target r.0
  done-IsAnswered (m, none) h e = h
  done-IsAnswered (m, some x) h e = cc

-- What a refresh has when it ends well: the row of an answer, or the usable session of the fallback
-- model that was cached.
abbrev pub IsReady : (ℕ → Round) → String → ℕ → Manager → Manager → Type 0
IsReady world target start before m =
    IsAnswered world target m
    ⊎ ((m.state ≡ before.state) × (serves_fallback start before.state ≡ true))

-- If a refresh that a request waits for ends without an error, then the cache holds exactly what the
-- upstream answered to one of its five rounds, which asked for the model or for the fallback model:
-- an admitted session, a place in the queue, or sessions disabled; or the cache was left alone and
-- holds the usable session of the fallback model. This is so whatever other goroutines do to the
-- manager meanwhile.
pub refresh-IsReady :
    (lower : String → String) (start : ℕ) (world : ℕ → Round) (target : String) (m : Manager)
    → (refresh lower false start world target m).1 ≡ none
    → IsReady world target start m (refresh lower false start world target m).0
unfolding refresh model_unavailable_short_circuit
refresh-IsReady lower start world target m h =
    let rounds = λ (t : String) (a : IsAsked target t) (k : Manager).
      done-IsAnswered lower world target
        (refresh_rounds max_refresh_iterations lower false world t k)
        (rounds-IsDone lower world target max_refresh_iterations (omega arith) t a k) in
    elim (Option-cases (model_unavailable_until start target m)) [
      | inl e ↦
          rw (refresh, model_unavailable_short_circuit, e)
            (inl
              (rounds target (inl refl) m (rw (refresh, model_unavailable_short_circuit, e) at h)))
      | inr (until, e) ↦ elim (Bool-cases (serves_fallback start m.state)) [
        | inl f ↦ rw (refresh, model_unavailable_short_circuit, e, f) (inr (refl, refl))
        | inr f ↦
            rw (refresh, model_unavailable_short_circuit, e, f)
              (inl (
                rounds default_fallback_model (inr refl) (commit none m)
                  (rw (refresh, model_unavailable_short_circuit, e, f) at h)))
      ]
    ]
