-- ===== src/Session/Storm/Logged.antt =====
-- When internal/session/session_admission.go logs a re-admit storm, and what it logs.
use freebuff_proxy_scaleway.Base.{
  ℕ, ◌+◌, ◌-◌, ◌/◌, ◌≤◌, ◌<◌, ◌≡◌, refl, ap, ◌∙◌, ◌⊎◌, Bool, true, false, List, [], ◌∷◌, ◌++◌, ltb,
  length, nat_eq, if◌then◌else◌, arith, inl, inr, Bool-cases,
}
use freebuff_proxy_scaleway.Session.Manager.{Manager, Reason, reason_superseded, Summary}
use freebuff_proxy_scaleway.Session.Storm.{
  recent_events, recent_triggers, record_invalidation, is_silent, count_superseded, last_at,
  duration_ms,
}
use freebuff_proxy_scaleway.Session.Storm.History.{
  Mark, invalidated, mark_all, all_events, all_triggers, IsChronological, IsQuiet, last_logged,
  events-append, summaries-all,
}

-- Whether an instant lies in the minute that ends now.
abbrev pub is_recent : ℕ → ℕ → Bool
is_recent now t = ltb now (t + 60_000_000_000)

abbrev pub count_recent : ℕ → List (ℕ × Reason) → ℕ
count_recent now [] = 0
count_recent now (e ∷ es) = (if is_recent now e.0 then 1 else 0) + count_recent now es

abbrev pub count_lost : ℕ → List (ℕ × Reason) → ℕ
count_lost now [] = 0
count_lost now ((t, reason_superseded) ∷ es) =
    (if is_recent now t then 1 else 0) + count_lost now es
count_lost now ((t, r) ∷ es) = count_lost now es

abbrev pub count_triggers : ℕ → List ℕ → ℕ
count_triggers now [] = 0
count_triggers now (t ∷ ts) = (if is_recent now t then 1 else 0) + count_triggers now ts

-- The first instant of the list in that minute.
abbrev pub oldest : ℕ → List (ℕ × Reason) → ℕ
oldest now [] = now
oldest now (e ∷ es) = let rest = oldest now es in if is_recent now e.0 then e.0 else rest

-- More than three ended sessions in the last minute, and no summary in it.
abbrev pub IsStorm : ℕ → List (ℕ × Reason) → ℕ → Type 0
IsStorm now events last = (3 < count_recent now events) × (last ≡ 0 ⊎ last + 60_000_000_000 ≤ now)

-- The summary of a storm.
abbrev pub storm_summary : ℕ → List (ℕ × Reason) → List ℕ → Summary
storm_summary now events triggers = record {
  logged_at = now;
  count = count_recent now events;
  duration_ms = (now - oldest now events) / 1_000_000;
  superseded_count = count_lost now events;
  burned_slots = count_triggers now triggers;
}

length-recent_events :
    (now : ℕ) (es : List (ℕ × Reason)) → length (recent_events now es) ≡ count_recent now es
unfolding recent_events
length-recent_events now [] = refl
length-recent_events now (e ∷ es) = ground (arith, length-recent_events now es)

count-recent_triggers :
    (now : ℕ) (ts : List ℕ) → length (recent_triggers now ts) ≡ count_triggers now ts
unfolding recent_triggers
count-recent_triggers now [] = refl
count-recent_triggers now (t ∷ ts) = ground (arith, count-recent_triggers now ts)

count_superseded-recent :
    (now : ℕ) (es : List (ℕ × Reason)) → count_superseded (recent_events now es) ≡ count_lost now es
unfolding recent_events
count_superseded-recent now [] = refl
count_superseded-recent now ((t, reason_superseded) ∷ es) =
    ground (arith, count_superseded-recent now es)
count_superseded-recent now ((t, r) ∷ es) = ground (arith, count_superseded-recent now es)

last_at-append :
    (t now : ℕ) (r : Reason) (es : List (ℕ × Reason)) → last_at t (es ++ (now, r) ∷ []) ≡ now
last_at-append t now r [] = refl
last_at-append t now r (e ∷ es) = last_at-append e.0 now r es

duration-recent :
    (now : ℕ) (r : Reason) (es : List (ℕ × Reason))
    → duration_ms (recent_events now (es ++ (now, r) ∷ []))
      ≡ (now - oldest now (es ++ (now, r) ∷ [])) / 1_000_000
unfolding recent_events
duration-recent now r [] = ground arith
duration-recent now r (e ∷ es) =
    let own : recent_events now ((now, r) ∷ []) ≡ (now, r) ∷ [] = ground arith in
    let last : last_at e.0 (recent_events now (es ++ (now, r) ∷ [])) ≡ now =
      ap (last_at e.0)
        (events-append now es ((now, r) ∷ []) ∙ ap (λ x. recent_events now es ++ x) own)
      ∙ last_at-append e.0 now r (recent_events now es) in
    elim (Bool-cases (is_recent now e.0)) [
      | inl y ↦ rw (y) (ap (λ x. (x - e.0) / 1_000_000) last)
      | inr n ↦ rw (n) (duration-recent now r es)
    ]

storm_speaks :
    (now : ℕ) (events : List (ℕ × Reason)) (last : ℕ)
    → IsStorm now events last
    → is_silent now (recent_events now events) last ≡ false
storm_speaks now events last (many, inl first) =
    ground (arith, length-recent_events now events, many, first)
storm_speaks now events last (many, inr quiet) =
    ground (arith, length-recent_events now events, many, quiet)

speaks-IsStorm :
    (now : ℕ) (events : List (ℕ × Reason)) (last : ℕ)
    → is_silent now (recent_events now events) last ≡ false
    → IsStorm now events last
speaks-IsStorm now events last h =
    let many : 3 < count_recent now events = ground (arith, length-recent_events now events, h) in
    elim (Bool-cases (nat_eq last 0)) [
      | inl first ↦ (many, inl (ground arith))
      | inr later ↦ (many, inr (ground (arith, h, later)))
    ]

no_storm_silent :
    (now : ℕ) (events : List (ℕ × Reason)) (last : ℕ)
    → ¬ IsStorm now events last
    → is_silent now (recent_events now events) last ≡ true
no_storm_silent now events last h =
    elim (Bool-cases (is_silent now (recent_events now events) last)) [
      | inl silent ↦ silent
      | inr speaks ↦ absurd (h (speaks-IsStorm now events last speaks))
    ]

-- After any history of ended sessions and re-admit triggers, the next ended session logs a summary
-- exactly if more than three of all ended sessions lie in the last minute and the last summary, if
-- any, is a minute old. The summary has the number of those sessions, the time since the first of
-- them, how many were superseded, and the number of triggers of that minute.
pub record_invalidation-summary :
    (m : Manager)
    → IsQuiet m
    → (ks : List Mark) (now : ℕ) (r : Reason) → IsChronological (invalidated now r ∷ ks)
    → let before = (mark_all ks m).summaries in
      let after = (record_invalidation now r (mark_all ks m)).summaries in
      let events = all_events ks ++ (now, r) ∷ [] in
      (IsStorm now events (last_logged before)
        → after ≡ storm_summary now events (all_triggers ks) ∷ before)
      × (¬ IsStorm now events (last_logged before) → after ≡ before)
record_invalidation-summary m q ks now r c =
    let events = all_events ks ++ (now, r) ∷ [] in
    let law = summaries-all m q ks now r c in
    let last = last_logged (mark_all ks m).summaries in
    let count = length-recent_events now events in
    let lost = count_superseded-recent now events in
    let span = duration-recent now r (all_events ks) in
    let burned = count-recent_triggers now (all_triggers ks) in
    (
      λ h. law ∙ rw (storm_speaks now events last h, count, lost, span, burned) refl,
      λ h. law ∙ rw (no_storm_silent now events last h) refl,
    )
