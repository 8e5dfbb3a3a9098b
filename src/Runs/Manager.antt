-- ===== src/Runs/Manager.antt =====
-- The runs of one token in internal/runs/runs.go, steps.go and drain.go. A pointer to a `Run` is a
-- number, `heap` holds what it points to, and `next` is the pointer that the next run gets. Every
-- section under the manager's mutex is one function. A call of `enqueueFinish` that is still to come
-- stands in `wants`; a job that the worker or the inline fallback is still to run stands in `jobs`.
-- The trace id and the recorded steps of a run, its persistence in the session store and Shutdown
-- are left out; a cooldown, which stops Maintain and rotate early, only takes steps away.
pub mod Claims
pub mod Sound
pub mod Once
mod Tests
use freebuff_proxy_scaleway.Base.{
  ℕ, ◌+◌, ◌-◌, String, Bool, true, false, ◌&&◌, ◌||◌, not, Option, none, some, List, [], ◌∷◌, ◌++◌,
  ltb, leb, nat_eq, if◌then◌else◌, length, take, ◌≡◌, ◌<◌,
}
use freebuff_proxy_scaleway.Base.Eq.{◌==◌, String_eq}
use freebuff_proxy_scaleway.Base.Map.{lookup, insert, delete}

pub record Run : Type 0 where
  pub agent_id : String
  pub run_id : String
  pub started_at : ℕ
  pub requests : ℕ
  pub status : String
  pub inflight : ℕ
  pub finishing : Bool
  pub queued : Bool
  pub drained_at : ℕ

pub record Manager : Type 0 where
  pub heap : ℕ → Run
  pub next : ℕ
  pub runs : List (String × ℕ)
  pub draining : List ℕ
  pub wants : List ℕ
  pub jobs : List ℕ
  pub total_requests : ℕ
  pub drain_queue_cap : ℕ
  pub drain_ttl : ℕ

abbrev pub store : ℕ → Run → (ℕ → Run) → ℕ → Run
store i r heap j = if nat_eq j i then r else heap j

abbrev pub set_run : ℕ → Run → Manager → Manager
set_run i r m = record m { heap = store i r m.heap }

abbrev pub member : ℕ → List ℕ → Bool
member i [] = false
member i (j ∷ js) = nat_eq j i || member i js

abbrev pub remove : ℕ → List ℕ → List ℕ
remove i [] = []
remove i (j ∷ js) = let rest = remove i js in if nat_eq j i then rest else j ∷ rest

abbrev pub is_run : ℕ → Option ℕ → Bool
is_run i none = false
is_run i (some j) = nat_eq j i

-- `current, ok := m.runs[run.AgentID]; ok && current == run`.
abbrev pub is_current : ℕ → Manager → Bool
is_current i m = is_run i (lookup (m.heap i).agent_id m.runs)

abbrev pub drop_current : ℕ → Manager → Manager
drop_current i m =
    if is_current i m then record m { runs = delete (m.heap i).agent_id m.runs } else m

pub is_overdue : ℕ → Manager → ℕ → Bool
is_overdue now m i =
    not (nat_eq (m.heap i).drained_at 0) && ltb m.drain_ttl (now - (m.heap i).drained_at)

pub keep_fresh : ℕ → Manager → List ℕ → List ℕ
unfolding is_overdue
keep_fresh now m [] = []
keep_fresh now m (i ∷ is) =
    let rest = keep_fresh now m is in if is_overdue now m i then rest else i ∷ rest

pub prune_draining : ℕ → Manager → Manager
unfolding keep_fresh
prune_draining now m =
    let kept = keep_fresh now m m.draining in
    record m {
      draining = if ltb m.drain_queue_cap (length kept) then take m.drain_queue_cap kept else kept;
    }

pub append_draining : ℕ → ℕ → Manager → Manager
unfolding prune_draining
append_draining now i m =
    if member i m.draining
    then m
    else prune_draining now (record (set_run i (record (m.heap i) { drained_at = now }) m) {
      draining = m.draining ++ i ∷ [];
    })

-- The lease that `Acquire` takes on the current run of an agent.
pub lease : String → Manager → Manager × Option ℕ
lease agent m = elim (lookup agent m.runs) [
  | none ↦ (m, none)
  | some i ↦
      let r = m.heap i in
      (
        record (set_run i (record r { inflight = r.inflight + 1; requests = r.requests + 1 }) m) {
          total_requests = m.total_requests + 1;
        },
        some i,
      )
]

abbrev pub release_one : ℕ → ℕ
release_one n = if ltb 0 n then n - 1 else n

pub release : ℕ → Manager → Manager
release i m =
    let r = m.heap i in
    let left = release_one r.inflight in
    let m' = set_run i (record r { inflight = left }) m in
    if ltb 0 left || not (member i m.draining)
    then m'
    else record (drop_current i m') { wants = m.wants ++ i ∷ [] }

pub release_abandoned : ℕ → ℕ → Manager → Manager
unfolding append_draining
release_abandoned now i m =
    let r = m.heap i in
    let left = release_one r.inflight in
    let m₁ = set_run i (record r { inflight = left }) m in
    let m₂ =
      set_run i
        (record r { inflight = left; status = if r.status == "" then "cancelled" else r.status })
        m in
    let m₃ = record m₂ { runs = delete r.agent_id m₂.runs; wants = m.wants ++ i ∷ [] } in
    if ltb 0 left
    then m₁
    else if is_current i m₂
    then append_draining now i m₃
    else record m₂ { wants = m.wants ++ i ∷ [] }

pub invalidate : String → Manager → Manager
invalidate agent m = record m { runs = delete agent m.runs }

-- The end of `rotate`: the new run takes the place of the old one, which drains.
pub start_run : ℕ → String → String → Manager → Manager
unfolding append_draining
start_run now agent run_id m =
    let fresh : Run = record {
      agent_id = agent;
      run_id = run_id;
      started_at = now;
      requests = 0;
      status = "";
      inflight = 0;
      finishing = false;
      queued = false;
      drained_at = 0;
    } in
    let m' = record m {
      heap = store m.next fresh m.heap;
      next = m.next + 1;
      runs = insert agent m.next m.runs;
    } in
    elim (lookup agent m.runs) [
      | none ↦ m'
      | some old ↦ append_draining now old (record m' { wants = m.wants ++ old ∷ [] })
    ]

-- The pass of `Maintain` over the draining list.
pub maintain : ℕ → Manager → Manager
unfolding prune_draining
maintain now m = let m' = prune_draining now m in record m' { wants = m'.wants ++ m'.draining }

pub enqueue_finish : ℕ → Manager → Manager
enqueue_finish i m =
    if (m.heap i).queued
    then m
    else record (set_run i (record (m.heap i) { queued = true }) m) { jobs = m.jobs ++ i ∷ [] }

-- `finishIfReadyCtx` up to its FINISH call: whether it makes the call.
pub claim : ℕ → Manager → Manager × Bool
claim i m =
    let m' = set_run i (record (m.heap i) { queued = false }) m in
    if ltb 0 (m.heap i).inflight || (m.heap i).finishing || is_current i m
    then (m', false)
    else (set_run i (record (m.heap i) { queued = false; finishing = true }) m, true)

pub finish_failed : ℕ → ℕ → Manager → Manager
unfolding append_draining
finish_failed now i m =
    append_draining now i (set_run i (record (m.heap i) { finishing = false }) m)

pub finish_done : ℕ → Manager → Manager
finish_done i m = record m { draining = remove i m.draining }

abbrev pub is_busy : ℕ → Manager → Bool
is_busy i m = ltb 0 (m.heap i).inflight

-- The busy and the idle ones of a list of runs.
abbrev pub pick : Bool → Manager → List ℕ → List ℕ
pick busy m [] = []
pick busy m (i ∷ is) =
    let rest = pick busy m is in
    if (if busy then is_busy i m else not (is_busy i m)) then i ∷ rest else rest

-- The map without the agents whose run is idle.
pub drop_idle : Manager → List (String × ℕ) → List (String × ℕ) → List (String × ℕ)
drop_idle m [] runs = runs
drop_idle m ((agent, i) ∷ rest) runs =
    drop_idle m rest (if is_busy i m then runs else delete agent runs)

abbrev pub pointers : List (String × ℕ) → List ℕ
pointers [] = []
pointers ((agent, i) ∷ rest) = i ∷ pointers rest

pub append_all : ℕ → List ℕ → Manager → Manager
unfolding append_draining
append_all now [] m = m
append_all now (i ∷ is) m = append_all now is (append_draining now i m)

-- `FinishAllRuns`: the idle runs go to `finishIfReadyCtx`, the busy ones drain.
pub finish_all_runs : ℕ → Manager → Manager
unfolding append_all prune_draining drop_idle
finish_all_runs now m =
    let busy = drop_idle m m.runs m.runs in
    let m' = record m {
      runs = busy;
      draining = pick true m m.draining;
      jobs = m.jobs ++ (pick false m (pointers m.runs) ++ pick false m m.draining);
    } in
    prune_draining now (append_all now (pointers busy) m')

-- The manager, the FINISH calls under way, and the runs that the upstream has finished.
pub record World : Type 0 where
  pub manager : Manager
  pub calling : List ℕ
  pub finished : List ℕ

-- Every interleaving of the manager's sections and of the upstream's answers, a FINISH that fails
-- among them. A release, a call of `enqueueFinish` and a job may come for any run at any time.
pub data Step : World → World → Type 0 where
  leased : (w : World) (agent : String) → Step w (record w { manager = (lease agent w.manager).0 })
  released :
      (w : World) (i : ℕ) → i < w.manager.next → Step w (record w { manager = release i w.manager })
  abandoned :
      (w : World) (now i : ℕ)
      → i < w.manager.next
      → Step w (record w { manager = release_abandoned now i w.manager })
  invalidated :
      (w : World) (agent : String) → Step w (record w { manager = invalidate agent w.manager })
  started :
      (w : World) (now : ℕ) (agent run_id : String)
      → Step w (record w { manager = start_run now agent run_id w.manager })
  maintained : (w : World) (now : ℕ) → Step w (record w { manager = maintain now w.manager })
  all_finished :
      (w : World) (now : ℕ) → Step w (record w { manager = finish_all_runs now w.manager })
  enqueued :
      (w : World) (i : ℕ)
      → i < w.manager.next
      → Step w (record w { manager = enqueue_finish i w.manager })
  claimed :
      (w : World) (i : ℕ)
      → i < w.manager.next
      → Step w (record w {
        manager = (claim i w.manager).0;
        calling = if (claim i w.manager).1 then i ∷ w.calling else w.calling;
      })
  failed :
      (w : World) (now i : ℕ)
      → member i w.calling ≡ true
      → Step w (record w { manager = finish_failed now i w.manager; calling = remove i w.calling })
  done :
      (w : World) (i : ℕ)
      → member i w.calling ≡ true
      → Step w (record w {
        manager = finish_done i w.manager;
        calling = remove i w.calling;
        finished = i ∷ w.finished;
      })

pub data Reach (start : World) : World → Type 0 where
  initially : Reach start start
  then_step : {v w : World} → Reach start v → Step v w → Reach start w

-- A manager without runs.
pub new_manager : (ℕ → Run) → ℕ → ℕ → Manager
new_manager heap queue ttl = record {
  heap = heap;
  next = 0;
  runs = [];
  draining = [];
  wants = [];
  jobs = [];
  total_requests = 0;
  drain_queue_cap = if ltb queue 1 then 64 else queue;
  drain_ttl = if leb ttl 0 then 600_000_000_000 else ttl;
}
