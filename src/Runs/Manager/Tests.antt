-- ===== src/Runs/Manager/Tests.antt =====
-- A rotation of the run manager with a FINISH call, and the theorems there.
use freebuff_proxy_scaleway.Base.{ℕ, ◌+◌, ◌≤◌, ◌≡◌, false, [], ◌∷◌, arith}
use freebuff_proxy_scaleway.Base.Counts.{occurrences}
use freebuff_proxy_scaleway.Base.Map.{lookup, insert, delete}
use freebuff_proxy_scaleway.Runs.Manager.{
  Run, World, started, released, leased, claimed, Reach, initially, then_step, new_manager,
  is_current, release, claim, lease, start_run, append_draining, prune_draining, keep_fresh,
  is_overdue,
}
use freebuff_proxy_scaleway.Runs.Manager.Once.{finish_once}

abbrev blank : ℕ → Run
blank i = record {
  agent_id = "";
  run_id = "";
  started_at = 0;
  requests = 0;
  status = "";
  inflight = 0;
  finishing = false;
  queued = false;
  drained_at = 0;
}

abbrev empty : World
empty = record { manager = new_manager blank 0 0; calling = []; finished = [] }

-- One run with a lease, and the run that replaces it.
abbrev one_run : World
one_run = record empty { manager = start_run 5 "base" "r0" empty.manager }

abbrev leased_run : World
leased_run = record one_run { manager = (lease "base" one_run.manager).0 }

abbrev rotated : World
rotated = record leased_run { manager = start_run 9 "base" "r1" leased_run.manager }

abbrev given_back : World
given_back = record rotated { manager = release 0 rotated.manager }

abbrev finishing : World
finishing = record given_back { manager = (claim 0 given_back.manager).0; calling = 0 ∷ [] }

finishing_Reach : Reach empty finishing
unfolding new_manager start_run lease release claim append_draining prune_draining keep_fresh
    is_overdue lookup insert delete
finishing_Reach =
    then_step
      (then_step
        (then_step
          (then_step (then_step initially (started empty 5 "base" "r0")) (leased one_run "base"))
          (started leased_run 9 "base" "r1"))
        (released rotated 0 (omega arith)))
      (claimed given_back 0 (omega arith))

finish_once_example :
    (occurrences 0 finishing.calling + occurrences 0 finishing.finished ≤ 1)
    × (1 ≤ occurrences 0 finishing.calling + occurrences 0 finishing.finished
        → ((finishing.manager.heap 0).inflight ≡ 0) × (is_current 0 finishing.manager ≡ false))
finish_once_example = finish_once blank 0 0 finishing finishing_Reach 0
