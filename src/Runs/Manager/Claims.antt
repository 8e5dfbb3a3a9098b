-- ===== src/Runs/Manager/Claims.antt =====
-- The steps of internal/runs that neither lease, start nor claim a run.
use freebuff_proxy_scaleway.Base.{
  ℕ, ◌≤◌, ◌≡◌, refl, ap, ◌∙◌, inl, inr, String, true, false, ◌||◌, not, some, List, [], ◌∷◌, ◌++◌,
  ltb, nat_eq_iff, if◌then◌else◌, arith, Bool-cases,
}
use freebuff_proxy_scaleway.Base.Eq.{◌==◌, String_eq}
use freebuff_proxy_scaleway.Base.Map.{lookup, delete, lookup-delete}
use freebuff_proxy_scaleway.Runs.Manager.{
  Run, Manager, set_run, is_current, drop_current, prune_draining, append_draining, release, member,
  release_one, release_abandoned, invalidate, maintain, enqueue_finish, finish_done, drop_idle,
  pick, pointers, append_all, finish_all_runs, is_busy,
}

-- A change that makes no run current, leased or finishing that was not.
pub record IsCalm (m m' : Manager) : Type 0 where
  pub next : m'.next ≡ m.next
  pub runs : (agent : String) (i : ℕ) → lookup agent m'.runs ≡ some i → lookup agent m.runs ≡ some i
  pub agent : (i : ℕ) → (m'.heap i).agent_id ≡ (m.heap i).agent_id
  pub finishing : (i : ℕ) → (m'.heap i).finishing ≡ (m.heap i).finishing
  pub inflight : (i : ℕ) → (m'.heap i).inflight ≤ (m.heap i).inflight

pub IsCalm-trans : (a b c : Manager) → IsCalm a b → IsCalm b c → IsCalm a c
IsCalm-trans a b c f g = record {
  next = g.next ∙ f.next;
  runs = λ agent i h. f.runs agent i (g.runs agent i h);
  agent = λ i. g.agent i ∙ f.agent i;
  finishing = λ i. g.finishing i ∙ f.finishing i;
  inflight = λ i. omega (arith, f.inflight i, g.inflight i);
}

-- A run is rewritten with its agent and its finishing mark kept, and with no more leases.
pub set_run-IsCalm :
    (m : Manager) (i : ℕ) (r : Run)
    → r.agent_id ≡ (m.heap i).agent_id
    → r.finishing ≡ (m.heap i).finishing
    → r.inflight ≤ (m.heap i).inflight
    → IsCalm m (set_run i r m)
set_run-IsCalm m i r a f n = record {
  next = refl;
  runs = λ agent j h. h;
  agent = λ j. ground (arith, a, ap (λ k. (m.heap k).agent_id), nat_eq_iff i j);
  finishing = λ j. ground (arith, f, nat_eq_iff i j);
  inflight = λ j. ground (arith, n, nat_eq_iff i j);
}

-- Only the lists of the manager differ.
IsCalm-lists :
    (m : Manager) (draining wants jobs : List ℕ)
    → IsCalm m (record m { draining = draining; wants = wants; jobs = jobs })
IsCalm-lists m draining wants jobs = record {
  next = refl;
  runs = λ agent i h. h;
  agent = λ i. refl;
  finishing = λ i. refl;
  inflight = λ i. omega arith;
}

delete-IsCalm : (m : Manager) (key : String) → IsCalm m (record m { runs = delete key m.runs })
delete-IsCalm m key = record {
  next = refl;
  runs = λ agent i h. ground (arith, h, lookup-delete key agent m.runs);
  agent = λ i. refl;
  finishing = λ i. refl;
  inflight = λ i. omega arith;
}

pub prune_draining-IsCalm : (now : ℕ) (m : Manager) → IsCalm m (prune_draining now m)
unfolding prune_draining
prune_draining-IsCalm now m = IsCalm-lists m (prune_draining now m).draining m.wants m.jobs

pub append_draining-IsCalm : (now i : ℕ) (m : Manager) → IsCalm m (append_draining now i m)
unfolding append_draining
append_draining-IsCalm now i m =
    let m₁ = set_run i (record (m.heap i) { drained_at = now }) m in
    let m₂ = record m₁ { draining = m.draining ++ i ∷ [] } in
    elim (Bool-cases (member i m.draining)) [
      | inl e ↦ rw (append_draining, e) (IsCalm-lists m m.draining m.wants m.jobs)
      | inr e ↦
          rw (append_draining, e)
            (IsCalm-trans m m₁ (prune_draining now m₂)
              (set_run-IsCalm m i (record (m.heap i) { drained_at = now }) refl refl (omega arith))
              (IsCalm-trans m₁ m₂ (prune_draining now m₂)
                (IsCalm-lists m₁ (m.draining ++ i ∷ []) m.wants m.jobs)
                (prune_draining-IsCalm now m₂)))
    ]

pub release-IsCalm : (i : ℕ) (m : Manager) → IsCalm m (release i m)
unfolding release
release-IsCalm i m =
    let r = m.heap i in
    let left = release_one r.inflight in
    let m₁ = set_run i (record r { inflight = left }) m in
    let calm₁ = set_run-IsCalm m i (record r { inflight = left }) refl refl (ground arith) in
    let calm₂ : IsCalm m₁ (drop_current i m₁) = drop_current-IsCalm i m₁ in
    elim (Bool-cases (ltb 0 left || not (member i m.draining))) [
      | inl e ↦ rw (release, e) calm₁
      | inr e ↦
          rw (release, e)
            (IsCalm-trans m (drop_current i m₁)
              (record (drop_current i m₁) { wants = m.wants ++ i ∷ [] })
              (IsCalm-trans m m₁ (drop_current i m₁) calm₁ calm₂)
              (IsCalm-lists (drop_current i m₁) (drop_current i m₁).draining (m.wants ++ i ∷ [])
                (drop_current i m₁).jobs))
    ]
  where
    drop_current-IsCalm : (i : ℕ) (m : Manager) → IsCalm m (drop_current i m)
    drop_current-IsCalm i m = elim (Bool-cases (is_current i m)) [
      | inl e ↦ rw (drop_current, e) (delete-IsCalm m (m.heap i).agent_id)
      | inr e ↦ rw (drop_current, e) (IsCalm-lists m m.draining m.wants m.jobs)
    ]

pub release_abandoned-IsCalm : (now i : ℕ) (m : Manager) → IsCalm m (release_abandoned now i m)
unfolding release_abandoned
release_abandoned-IsCalm now i m =
    let r = m.heap i in
    let left = release_one r.inflight in
    let r₁ : Run = record r { inflight = left } in
    let r₂ : Run = record r {
      inflight = left;
      status = if r.status == "" then "cancelled" else r.status;
    } in
    let m₂ = set_run i r₂ m in
    let m₃ = record m₂ { runs = delete r.agent_id m₂.runs; wants = m.wants ++ i ∷ [] } in
    let calm₂ = set_run-IsCalm m i r₂ refl refl (ground arith) in
    let waits : IsCalm m (record m₂ { wants = m.wants ++ i ∷ [] }) =
      IsCalm-trans m m₂ _ calm₂ (IsCalm-lists m₂ m₂.draining (m.wants ++ i ∷ []) m₂.jobs) in
    let drops : IsCalm m m₃ =
      IsCalm-trans m _ m₃ waits
        (delete-IsCalm (record m₂ { wants = m.wants ++ i ∷ [] }) r.agent_id) in
    elim (Bool-cases (ltb 0 left)) [
      | inl e ↦ rw (release_abandoned, e) (set_run-IsCalm m i r₁ refl refl (ground arith))
      | inr e ↦ elim (Bool-cases (is_current i m₂)) [
        | inl c ↦
            rw (release_abandoned, e, c)
              (IsCalm-trans m m₃ (append_draining now i m₃) drops (append_draining-IsCalm now i m₃))
        | inr c ↦ rw (release_abandoned, e, c) waits
      ]
    ]

pub invalidate-IsCalm : (agent : String) (m : Manager) → IsCalm m (invalidate agent m)
unfolding invalidate
invalidate-IsCalm agent m = delete-IsCalm m agent

pub maintain-IsCalm : (now : ℕ) (m : Manager) → IsCalm m (maintain now m)
unfolding maintain
maintain-IsCalm now m =
    let m' = prune_draining now m in
    IsCalm-trans m m' (maintain now m) (prune_draining-IsCalm now m)
      (IsCalm-lists m' m'.draining (m'.wants ++ m'.draining) m'.jobs)

pub enqueue_finish-IsCalm : (i : ℕ) (m : Manager) → IsCalm m (enqueue_finish i m)
unfolding enqueue_finish
enqueue_finish-IsCalm i m =
    let m₁ = set_run i (record (m.heap i) { queued = true }) m in
    elim (Bool-cases (m.heap i).queued) [
      | inl e ↦ rw (enqueue_finish, e) (IsCalm-lists m m.draining m.wants m.jobs)
      | inr e ↦
          rw (enqueue_finish, e)
            (IsCalm-trans m m₁ _
              (set_run-IsCalm m i (record (m.heap i) { queued = true }) refl refl (omega arith))
              (IsCalm-lists m₁ m₁.draining m₁.wants (m.jobs ++ i ∷ [])))
    ]

pub finish_done-IsCalm : (i : ℕ) (m : Manager) → IsCalm m (finish_done i m)
unfolding finish_done
finish_done-IsCalm i m = IsCalm-lists m (finish_done i m).draining m.wants m.jobs

append_all-IsCalm : (now : ℕ) (is : List ℕ) (m : Manager) → IsCalm m (append_all now is m)
unfolding append_all
append_all-IsCalm now [] m = IsCalm-lists m m.draining m.wants m.jobs
append_all-IsCalm now (i ∷ is) m =
    IsCalm-trans m (append_draining now i m) (append_all now is (append_draining now i m))
      (append_draining-IsCalm now i m) (append_all-IsCalm now is (append_draining now i m))

lookup-drop_idle :
    (m : Manager) (entries runs : List (String × ℕ)) (agent : String) (i : ℕ)
    → lookup agent (drop_idle m entries runs) ≡ some i
    → lookup agent runs ≡ some i
unfolding drop_idle
lookup-drop_idle m [] runs agent i h = h
lookup-drop_idle m ((key, j) ∷ rest) runs agent i h =
    let kept = if is_busy j m then runs else delete key runs in
    ground (arith, lookup-delete key agent runs, lookup-drop_idle m rest kept agent i h)

pub finish_all_runs-IsCalm : (now : ℕ) (m : Manager) → IsCalm m (finish_all_runs now m)
unfolding finish_all_runs
finish_all_runs-IsCalm now m =
    let busy = drop_idle m m.runs m.runs in
    let m' : Manager = record m {
      runs = busy;
      draining = pick true m m.draining;
      jobs = m.jobs ++ (pick false m (pointers m.runs) ++ pick false m m.draining);
    } in
    let all = append_all now (pointers busy) m' in
    IsCalm-trans m m' (finish_all_runs now m)
      (record {
        next = refl;
        runs = lookup-drop_idle m m.runs m.runs;
        agent = λ i. refl;
        finishing = λ i. refl;
        inflight = λ i. omega arith;
      })
      (IsCalm-trans m' all (finish_all_runs now m) (append_all-IsCalm now (pointers busy) m')
        (prune_draining-IsCalm now all))
