-- ===== src/Runs/Manager/Once.antt =====
-- FINISH calls over every interleaving of the run manager's sections.
use freebuff_proxy_scaleway.Base.{
  ℕ, ◌+◌, ◌≤◌, ◌≡◌, refl, ap, ◌∙◌, inl, inr, String, true, false, ◌||◌, not, none, List, [], ◌∷◌,
  ◌++◌, ltb, nat_eq, nat_eq_iff, arith, Bool-cases, Option-cases,
}
use freebuff_proxy_scaleway.Base.Counts.{occurrences}
use freebuff_proxy_scaleway.Base.Map.{lookup, delete, lookup-delete}
use freebuff_proxy_scaleway.Base.Eq.{String_eq}
use freebuff_proxy_scaleway.Runs.Manager.{
  Run, Manager, World, Step, leased, released, abandoned, invalidated, started, maintained,
  all_finished, enqueued, claimed, failed, done, Reach, initially, then_step, new_manager, is_run,
  is_current, member, release, claim, drop_current, set_run, release_one,
}
use freebuff_proxy_scaleway.Runs.Manager.Claims.{
  release-IsCalm, release_abandoned-IsCalm, invalidate-IsCalm, maintain-IsCalm,
  finish_all_runs-IsCalm, enqueue_finish-IsCalm,
}
use freebuff_proxy_scaleway.Runs.Manager.Sound.{
  IsSound, IsCalm-IsSound, lease-IsSound, claim-IsSound, failed-IsSound, done-IsSound,
  started-IsSound, new_manager-IsSound,
}

Step-IsSound : {v w : World} → Step v w → IsSound v → IsSound w
Step-IsSound (leased w agent) s = lease-IsSound w agent s
Step-IsSound (released w i b) s = IsCalm-IsSound w _ (release-IsCalm i w.manager) s
Step-IsSound (abandoned w now i b) s =
    IsCalm-IsSound w _ (release_abandoned-IsCalm now i w.manager) s
Step-IsSound (invalidated w agent) s = IsCalm-IsSound w _ (invalidate-IsCalm agent w.manager) s
Step-IsSound (started w now agent run_id) s = started-IsSound w now agent run_id s
Step-IsSound (maintained w now) s = IsCalm-IsSound w _ (maintain-IsCalm now w.manager) s
Step-IsSound (all_finished w now) s = IsCalm-IsSound w _ (finish_all_runs-IsCalm now w.manager) s
Step-IsSound (enqueued w i b) s = IsCalm-IsSound w _ (enqueue_finish-IsCalm i w.manager) s
Step-IsSound (claimed w i b) s = claim-IsSound w i b s
Step-IsSound (failed w now i h) s = failed-IsSound w now i h s
Step-IsSound (done w i h) s = done-IsSound w i h s

Reach-IsSound : {v w : World} → Reach v w → IsSound v → IsSound w
Reach-IsSound initially s = s
Reach-IsSound (then_step r t) s = Step-IsSound t (Reach-IsSound r s)

IsSound-apart :
    (w : World) (i : ℕ)
    → IsSound w
    → (w.manager.heap i).finishing ≡ true
    → is_current i w.manager ≡ false
IsSound-apart w i s f = elim (Option-cases (lookup (w.manager.heap i).agent_id w.manager.runs)) [
  | inl e ↦ rw e refl
  | inr (j, e) ↦
      let k = s.known (w.manager.heap i).agent_id j e in
      elim (Bool-cases (nat_eq j i)) [
        | inl q ↦
            absurd (
              ground (arith, f, k.2, ap (λ x. (w.manager.heap x).finishing) ((nat_eq_iff j i).0 q)))
        | inr q ↦ rw (e, q) refl
      ]
]

-- Whatever the interleaving of leases, releases, rotations, drains, jobs and failed calls that
-- starts from a manager without runs, a run has at most one FINISH call that is under way or that
-- succeeded. While there is one, the run has no lease and is not the current run of its agent.
pub finish_once :
    (heap : ℕ → Run) (queue ttl : ℕ) (w : World)
    → Reach (record { manager = new_manager heap queue ttl; calling = []; finished = [] }) w
    → (i : ℕ)
    → (occurrences i w.calling + occurrences i w.finished ≤ 1)
      × (1 ≤ occurrences i w.calling + occurrences i w.finished
          → ((w.manager.heap i).inflight ≡ 0) × (is_current i w.manager ≡ false))
finish_once heap queue ttl w r i =
    let s = Reach-IsSound r (new_manager-IsSound heap queue ttl) in
    (s.once i, λ h. let c = s.called i h in (s.idle i c.0 c.1, IsSound-apart w i s c.1))

drop_current-apart : (i : ℕ) (m : Manager) → is_current i (drop_current i m) ≡ false
drop_current-apart i m = elim (Bool-cases (is_current i m)) [
  | inl e ↦ rw (drop_current, e) (ap (is_run i) (gone (m.heap i).agent_id m.runs))
  | inr e ↦ rw (drop_current, e, e) refl
]
  where
    gone : (key : String) (runs : List (String × ℕ)) → lookup key (delete key runs) ≡ none
    gone key runs = ground (arith, lookup-delete key key runs, String_eq.same_iff key key)

heap-drop_current : (i : ℕ) (m : Manager) → (drop_current i m).heap ≡ m.heap
heap-drop_current i m = elim (Bool-cases (is_current i m)) [
  | inl e ↦ rw (drop_current, e) refl
  | inr e ↦ rw (drop_current, e) refl
]

claim_free :
    (i : ℕ) (m : Manager)
    → (m.heap i).inflight ≡ 0
    → (m.heap i).finishing ≡ false
    → is_current i m ≡ false
    → (claim i m).1 ≡ true
unfolding claim
claim_free i m n f c = rw (claim, n, f, c) refl

-- The return of the last lease of a draining run whose FINISH is not under way queues the run once
-- more, and the check before the FINISH call then passes.
release-claim :
    (i : ℕ) (m : Manager)
    → (m.heap i).inflight ≡ 1
    → (m.heap i).finishing ≡ false
    → member i m.draining ≡ true
    → ((release i m).wants ≡ m.wants ++ i ∷ []) × ((claim i (release i m)).1 ≡ true)
unfolding release claim
release-claim i m n f d =
    let m₁ = set_run i (record (m.heap i) { inflight = release_one (m.heap i).inflight }) m in
    let m₂ : Manager = record (drop_current i m₁) { wants = m.wants ++ i ∷ [] } in
    let last : (ltb 0 (release_one (m.heap i).inflight) || not (member i m.draining)) ≡ false =
      ground (arith, n, d) in
    let queued : release i m ≡ m₂ = rw (release, last) refl in
    let same : m₂.heap i ≡ m₁.heap i = ap (λ h. h i) (heap-drop_current i m₁) in
    let leases : (m₂.heap i).inflight ≡ 0 =
      ap (λ r. r.inflight) same ∙ ground (arith, n, nat_eq_iff i i) in
    let finishing : (m₂.heap i).finishing ≡ false =
      ap (λ r. r.finishing) same ∙ ground (arith, f, nat_eq_iff i i) in
    rw queued (refl, claim_free i m₂ leases finishing (drop_current-apart i m₁))
