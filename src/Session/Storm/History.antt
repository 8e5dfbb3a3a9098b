-- ===== src/Session/Storm/History.antt =====
-- The storm detector of internal/session/session_admission.go after any history of ended sessions
-- and triggers.
use freebuff_proxy_scaleway.Base.{
  ℕ, ◌≤◌, ◌≡◌, refl, ap, ◌∙◌, sym, Bool, true, false, List, [], ◌∷◌, ◌++◌, if◌then◌else◌, arith,
  Bool-cases, inl, inr,
}
use freebuff_proxy_scaleway.Session.Manager.{Manager, Reason, Summary}
use freebuff_proxy_scaleway.Session.Storm.{
  recent_events, recent_triggers, record_re_admit_trigger, record_invalidation, is_silent,
  summary_of,
}

pub data Mark : Type 0 where
  invalidated : ℕ → Reason → Mark
  triggered : ℕ → Mark

abbrev pub instant : Mark → ℕ
instant (invalidated now r) = now
instant (triggered now) = now

abbrev pub mark : Mark → Manager → Manager
mark (invalidated now r) m = record_invalidation now r m
mark (triggered now) m = record_re_admit_trigger now m

-- Marks, latest first.
abbrev pub mark_all : List Mark → Manager → Manager
mark_all [] m = m
mark_all (k ∷ ks) m = mark k (mark_all ks m)

-- Every ended session of the history, and every trigger, oldest first.
abbrev pub all_events : List Mark → List (ℕ × Reason)
all_events [] = []
all_events (invalidated now r ∷ ks) = all_events ks ++ (now, r) ∷ []
all_events (triggered now ∷ ks) = all_events ks

abbrev pub all_triggers : List Mark → List ℕ
all_triggers [] = []
all_triggers (invalidated now r ∷ ks) = all_triggers ks
all_triggers (triggered now ∷ ks) = all_triggers ks ++ now ∷ []

abbrev pub latest : List Mark → ℕ
latest [] = 0
latest (k ∷ ks) = instant k

-- The clock does not run backwards.
abbrev pub IsChronological : List Mark → Type 0
IsChronological [] = Unit
IsChronological (k ∷ ks) = (latest ks ≤ instant k) × IsChronological ks

abbrev pub last_logged : List Summary → ℕ
last_logged [] = 0
last_logged (s ∷ ss) = s.logged_at

pub record IsQuiet (m : Manager) : Type 0 where
  pub no_events : m.invalidation_events ≡ []
  pub no_triggers : m.re_admit_triggers ≡ []
  pub no_storm : m.last_storm_at ≡ 0
  pub no_summary : m.summaries ≡ []

events_again :
    (now past : ℕ) (es : List (ℕ × Reason))
    → past ≤ now
    → recent_events now (recent_events past es) ≡ recent_events now es
unfolding recent_events
events_again now past [] h = refl
events_again now past (e ∷ es) h = ground (arith, events_again now past es h)

pub events-append :
    (now : ℕ) (es fs : List (ℕ × Reason))
    → recent_events now (es ++ fs) ≡ recent_events now es ++ recent_events now fs
unfolding recent_events
events-append now [] fs = refl
events-append now (e ∷ es) fs = ground (arith, events-append now es fs)

triggers_again :
    (now past : ℕ) (ts : List ℕ)
    → past ≤ now
    → recent_triggers now (recent_triggers past ts) ≡ recent_triggers now ts
unfolding recent_triggers
triggers_again now past [] h = refl
triggers_again now past (t ∷ ts) h = ground (arith, triggers_again now past ts h)

triggers-append :
    (now : ℕ) (ts us : List ℕ)
    → recent_triggers now (ts ++ us) ≡ recent_triggers now ts ++ recent_triggers now us
unfolding recent_triggers
triggers-append now [] us = refl
triggers-append now (t ∷ ts) us = ground (arith, triggers-append now ts us)

-- What the manager keeps: the marks whose window was open at some past mark.
record Kept (m : Manager) (ks : List Mark) : Type 0 where
  past_events : ℕ
  past_triggers : ℕ
  bound_events : past_events ≤ latest ks
  bound_triggers : past_triggers ≤ latest ks
  events : m.invalidation_events ≡ recent_events past_events (all_events ks)
  triggers : m.re_admit_triggers ≡ recent_triggers past_triggers (all_triggers ks)
  storm : m.last_storm_at ≡ last_logged m.summaries

events_next :
    (now past : ℕ) (kept all new : List (ℕ × Reason))
    → kept ≡ recent_events past all
    → past ≤ now
    → recent_events now (kept ++ new) ≡ recent_events now (all ++ new)
events_next now past kept all new e h =
    events-append now kept new
    ∙ ap (λ x. x ++ recent_events now new) (ap (recent_events now) e ∙ events_again now past all h)
    ∙ sym (events-append now all new)

triggers_next :
    (now past : ℕ) (kept all new : List ℕ)
    → kept ≡ recent_triggers past all
    → past ≤ now
    → recent_triggers now (kept ++ new) ≡ recent_triggers now (all ++ new)
triggers_next now past kept all new e h =
    triggers-append now kept new
    ∙ ap (λ x. x ++ recent_triggers now new)
        (ap (recent_triggers now) e ∙ triggers_again now past all h)
    ∙ sym (triggers-append now all new)

-- The manager after an ended session, in terms of the lists that it computes.
invalidation-parts :
    (now : ℕ) (r : Reason) (m : Manager)
    → let events = recent_events now (m.invalidation_events ++ (now, r) ∷ []) in
      let triggers = recent_triggers now m.re_admit_triggers in
      let m' = record_invalidation now r m in
      (m'.invalidation_events ≡ events)
      × (m'.re_admit_triggers ≡ triggers)
      × (m'.summaries ≡ (
          if is_silent now events m.last_storm_at
          then m.summaries
          else summary_of now events triggers ∷ m.summaries))
      × (m'.last_storm_at ≡ (if is_silent now events m.last_storm_at then m.last_storm_at else now))
unfolding record_invalidation
invalidation-parts now r m =
    let events = recent_events now (m.invalidation_events ++ (now, r) ∷ []) in
    elim (Bool-cases (is_silent now events m.last_storm_at)) [
      | inl e ↦ rw (record_invalidation, e) (refl, refl, refl, refl)
      | inr e ↦ rw (record_invalidation, e) (refl, refl, refl, refl)
    ]

mark_all-Kept :
    (m : Manager) → IsQuiet m → (ks : List Mark) → IsChronological ks → Kept (mark_all ks m) ks
unfolding record_re_admit_trigger recent_events recent_triggers
mark_all-Kept m q [] c = record {
  past_events = 0;
  past_triggers = 0;
  bound_events = omega arith;
  bound_triggers = omega arith;
  events = q.no_events;
  triggers = q.no_triggers;
  storm = q.no_storm ∙ sym (ap last_logged q.no_summary);
}
mark_all-Kept m q (triggered now ∷ ks) c =
    let k = mark_all-Kept m q ks c.1 in
    record {
      past_events = k.past_events;
      past_triggers = now;
      bound_events = omega (arith, k.bound_events, c.0);
      bound_triggers = omega arith;
      events = k.events;
      triggers =
          triggers_next now k.past_triggers (mark_all ks m).re_admit_triggers (all_triggers ks)
            (now ∷ []) k.triggers (omega (arith, k.bound_triggers, c.0));
      storm = k.storm;
    }
mark_all-Kept m q (invalidated now r ∷ ks) c =
    let k = mark_all-Kept m q ks c.1 in
    let before = mark_all ks m in
    let parts = invalidation-parts now r before in
    record {
      past_events = now;
      past_triggers = now;
      bound_events = omega arith;
      bound_triggers = omega arith;
      events =
          parts.0
          ∙ events_next now k.past_events before.invalidation_events (all_events ks) ((now, r) ∷ [])
              k.events (omega (arith, k.bound_events, c.0));
      triggers =
          parts.1
          ∙ ap (recent_triggers now) k.triggers
          ∙ triggers_again now k.past_triggers (all_triggers ks)
              (omega (arith, k.bound_triggers, c.0));
      storm = parts.3 ∙ logged-if _ now _ _ _ refl k.storm ∙ sym (ap last_logged parts.2);
    }
  where
    logged-if :
        (b : Bool) (now last : ℕ) (s : Summary) (ss : List Summary)
        → s.logged_at ≡ now
        → last ≡ last_logged ss
        → (if b then last else now) ≡ last_logged (if b then ss else s ∷ ss)
    logged-if true now last s ss e h = h
    logged-if false now last s ss e h = sym e

-- The rolling lists give the summary that the whole history would give.
pub summaries-all :
    (m : Manager)
    → IsQuiet m
    → (ks : List Mark) (now : ℕ) (r : Reason) → IsChronological (invalidated now r ∷ ks)
    → let before = mark_all ks m in
      let events = recent_events now (all_events (invalidated now r ∷ ks)) in
      let triggers = recent_triggers now (all_triggers ks) in
      (record_invalidation now r before).summaries ≡ (
        if is_silent now events (last_logged before.summaries)
        then before.summaries
        else summary_of now events triggers ∷ before.summaries)
summaries-all m q ks now r c =
    let k = mark_all-Kept m q ks c.1 in
    let before = mark_all ks m in
    let parts = invalidation-parts now r before in
    let events =
      events_next now k.past_events before.invalidation_events (all_events ks) ((now, r) ∷ [])
        k.events (omega (arith, k.bound_events, c.0)) in
    let triggers : recent_triggers now before.re_admit_triggers
        ≡ recent_triggers now (all_triggers ks) =
      ap (recent_triggers now) k.triggers
      ∙ triggers_again now k.past_triggers (all_triggers ks)
          (omega (arith, k.bound_triggers, c.0)) in
    rw (sym events, sym triggers, sym k.storm) parts.2

-- The detector leaves the cached session alone.
pub record_invalidation_state :
    (now : ℕ) (r : Reason) (m : Manager) → (record_invalidation now r m).state ≡ m.state
unfolding record_invalidation
record_invalidation_state now r m =
    let events = recent_events now (m.invalidation_events ++ (now, r) ∷ []) in
    elim (Bool-cases (is_silent now events m.last_storm_at)) [
      | inl e ↦ rw (record_invalidation, e) refl
      | inr e ↦ rw (record_invalidation, e) refl
    ]
