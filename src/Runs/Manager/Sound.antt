-- ===== src/Runs/Manager/Sound.antt =====
-- The invariant of the worlds of the run manager, and every step's preservation of it.
use freebuff_proxy_scaleway.Base.{
  ℕ, ◌+◌, ◌≤◌, ◌<◌, ◌≡◌, refl, sym, ap, ◌∙◌, inl, inr, String, true, false, ◌||◌, some, List, [],
  ◌∷◌, ◌++◌, ltb, nat_eq, nat_eq_iff, if◌then◌else◌, arith, Bool-cases, Option-cases,
}
use freebuff_proxy_scaleway.Base.Counts.{occurrences}
use freebuff_proxy_scaleway.Base.Eq.{String_eq}
use freebuff_proxy_scaleway.Base.Map.{lookup, insert, lookup-insert}
use freebuff_proxy_scaleway.Runs.Manager.{
  Run, Manager, World, store, set_run, is_run, is_current, append_draining, lease, member, remove,
  claim, finish_failed, finish_done, start_run, new_manager,
}
use freebuff_proxy_scaleway.Runs.Manager.Claims.{
  IsCalm, set_run-IsCalm, append_draining-IsCalm, finish_done-IsCalm,
}

-- A current run is its agent's own and is not being finished, a run that is being finished has no
-- lease, and a FINISH call that was made is the only one of its run.
pub record IsSound (w : World) : Type 0 where
  pub known :
      (agent : String) (i : ℕ)
      → lookup agent w.manager.runs ≡ some i
      → (i < w.manager.next)
        × ((w.manager.heap i).agent_id ≡ agent)
        × ((w.manager.heap i).finishing ≡ false)
  pub idle :
      (i : ℕ)
      → i < w.manager.next
      → (w.manager.heap i).finishing ≡ true
      → (w.manager.heap i).inflight ≡ 0
  pub called :
      (i : ℕ)
      → 1 ≤ occurrences i w.calling + occurrences i w.finished
      → (i < w.manager.next) × ((w.manager.heap i).finishing ≡ true)
  pub once : (i : ℕ) → occurrences i w.calling + occurrences i w.finished ≤ 1

pub IsCalm-IsSound :
    (w : World) (m : Manager) → IsCalm w.manager m → IsSound w → IsSound (record w { manager = m })
IsCalm-IsSound w m c s = record {
  known = λ agent i h.
      let k = s.known agent i (c.runs agent i h) in
      (rw c.next (k.0), c.agent i ∙ k.1, c.finishing i ∙ k.2);
  idle = λ i b h.
      let z = s.idle i (omega (arith, b, c.next)) (sym (c.finishing i) ∙ h) in
      omega (arith, c.inflight i, z);
  called = λ i h. let k = s.called i h in (omega (arith, k.0, c.next), c.finishing i ∙ k.1);
  once = s.once;
}

pub lease-IsSound :
    (w : World) (agent : String)
    → IsSound w
    → IsSound (record w { manager = (lease agent w.manager).0 })
unfolding lease
lease-IsSound w agent s = elim (Option-cases (lookup agent w.manager.runs)) [
  | inl e ↦ rw (lease, e) s
  | inr (i, e) ↦
      let k = s.known agent i e in
      rw (lease, e)
        (record {
          known = λ key j h.
              let k' = s.known key j h in
              (k'.0, ground (arith, k'.1, nat_eq_iff i j), ground (arith, k'.2, nat_eq_iff i j));
          idle = λ j b f. ground (arith, k.2, s.idle j b, nat_eq_iff i j);
          called = λ j h. let c = s.called j h in (c.0, ground (arith, c.1, nat_eq_iff i j));
          once = s.once;
        })
]

pub claim-IsSound :
    (w : World) (i : ℕ)
    → i < w.manager.next
    → IsSound w
    → IsSound (record w {
      manager = (claim i w.manager).0;
      calling = if (claim i w.manager).1 then i ∷ w.calling else w.calling;
    })
unfolding claim
claim-IsSound w i b s =
    let m = w.manager in
    elim (Bool-cases (ltb 0 (m.heap i).inflight || (m.heap i).finishing || is_current i m)) [
      | inl e ↦
          rw (claim, e)
            (IsCalm-IsSound w _
              (set_run-IsCalm m i (record (m.heap i) { queued = false }) refl refl (omega arith)) s)
      | inr e ↦
          let free : (m.heap i).finishing ≡ false = ground (arith, e) in
          let leases : (m.heap i).inflight ≡ 0 = ground (arith, e) in
          let apart : is_current i m ≡ false = ground (arith, e) in
          rw (claim, e)
            (record {
              known = λ key j h.
                  let k = s.known key j h in
                  let other = not_current m i key j apart h k.1 in
                  (
                    k.0,
                    ground (arith, k.1, nat_eq_iff i j),
                    ground (arith, k.2, other, nat_eq_iff i j),
                  );
              idle = λ j c f. ground (arith, leases, s.idle j c, nat_eq_iff i j);
              called = λ j h. ground (arith, b, s.called j, nat_eq_iff i j);
              once = λ j. ground (arith, free, s.called j, s.once j, nat_eq_iff i j);
            })
    ]
  where
    not_current :
        (m : Manager) (i : ℕ) (key : String) (j : ℕ)
        → is_current i m ≡ false
        → lookup key m.runs ≡ some j
        → (m.heap j).agent_id ≡ key
        → nat_eq i j ≡ false
    not_current m i key j apart h k = elim (Bool-cases (nat_eq i j)) [
      | inl e ↦
          let same : i ≡ j = (nat_eq_iff i j).0 e in
          let found : lookup (m.heap i).agent_id m.runs ≡ some j =
            ap (λ x. lookup (m.heap x).agent_id m.runs) same ∙ ap (λ x. lookup x m.runs) k ∙ h in
          absurd (ground (arith, ap (is_run i) found, nat_eq_iff j i))
      | inr e ↦ e
    ]

occurrences-remove :
    (i j : ℕ) (js : List ℕ)
    → occurrences j (remove i js) ≡ (if nat_eq i j then 0 else occurrences j js)
occurrences-remove i j [] = ground arith
occurrences-remove i j (k ∷ js) =
    ground (arith, occurrences-remove i j js, nat_eq_iff k i, nat_eq_iff k j, nat_eq_iff i j)

occurrences-member : (i : ℕ) (js : List ℕ) → member i js ≡ true → 1 ≤ occurrences i js
occurrences-member i [] h = ground arith
occurrences-member i (j ∷ js) h = ground (arith, occurrences-member i js)

pub failed-IsSound :
    (w : World) (now i : ℕ)
    → member i w.calling ≡ true
    → IsSound w
    → IsSound (record w { manager = finish_failed now i w.manager; calling = remove i w.calling })
unfolding finish_failed
failed-IsSound w now i h s =
    let m = w.manager in
    let m' = set_run i (record (m.heap i) { finishing = false }) m in
    let w' : World = record w { manager = m'; calling = remove i w.calling } in
    let one = occurrences-member i w.calling h in
    IsCalm-IsSound w' (append_draining now i m') (append_draining-IsCalm now i m') (record {
      known = λ key j e.
          let k = s.known key j e in
          (k.0, ground (arith, k.1, nat_eq_iff i j), ground (arith, k.2, nat_eq_iff i j));
      idle = λ j b f. ground (arith, s.idle j b, nat_eq_iff i j);
      called = λ j c.
          ground
            (arith, c, one, s.once j, s.called j, nat_eq_iff i j, occurrences-remove i j w.calling);
      once = λ j. ground (arith, s.once j, occurrences-remove i j w.calling);
    })

pub done-IsSound :
    (w : World) (i : ℕ)
    → member i w.calling ≡ true
    → IsSound w
    → IsSound (record w {
      manager = finish_done i w.manager;
      calling = remove i w.calling;
      finished = i ∷ w.finished;
    })
done-IsSound w i h s =
    let one = occurrences-member i w.calling h in
    let w' : World = record w { calling = remove i w.calling; finished = i ∷ w.finished } in
    IsCalm-IsSound w' (finish_done i w.manager) (finish_done-IsCalm i w.manager) (record {
      known = s.known;
      idle = s.idle;
      called = λ j c.
          s.called j (ground (arith, c, one, nat_eq_iff i j, occurrences-remove i j w.calling));
      once = λ j. ground (arith, one, s.once j, nat_eq_iff i j, occurrences-remove i j w.calling);
    })

pub started-IsSound :
    (w : World) (now : ℕ) (agent run_id : String)
    → IsSound w
    → IsSound (record w { manager = start_run now agent run_id w.manager })
unfolding start_run
started-IsSound w now agent run_id s =
    let m = w.manager in
    let fresh : Run = record {
      agent_id = agent;
      run_id = run_id;
      started_at = now;
      requests = 0;
      status = "";
      inflight = 0;
      finishing = false;
      queued = false;
      drained_at = 0;
    } in
    let m' : Manager = record m {
      heap = store m.next fresh m.heap;
      next = m.next + 1;
      runs = insert agent m.next m.runs;
    } in
    let sound : IsSound (record w { manager = m' }) = record {
      known = λ key j h. ground (
        arith,
        h,
        String_eq.same_iff agent key,
        lookup-insert agent key m.next m.runs,
        s.known key j,
        nat_eq_iff m.next j,
      );
      idle = λ j b f. ground (arith, s.idle j, nat_eq_iff m.next j);
      called = λ j c.
          let k = s.called j c in
          (omega (arith, k.0), ground (arith, k.0, k.1, nat_eq_iff m.next j));
      once = s.once;
    } in
    elim (Option-cases (lookup agent m.runs)) [
      | inl e ↦ rw (start_run, e) sound
      | inr (old, e) ↦
          let m₁ : Manager = record m' { wants = m.wants ++ old ∷ [] } in
          rw (start_run, e)
            (IsCalm-IsSound (record w { manager = m₁ }) (append_draining now old m₁)
              (append_draining-IsCalm now old m₁)
              (record {
                known = sound.known;
                idle = sound.idle;
                called = sound.called;
                once = sound.once;
              }))
    ]

pub new_manager-IsSound :
    (heap : ℕ → Run) (queue ttl : ℕ)
    → IsSound (record { manager = new_manager heap queue ttl; calling = []; finished = [] })
unfolding new_manager lookup
new_manager-IsSound heap queue ttl = record {
  known = λ key j h. absurd (ground (arith, h));
  idle = λ j b f. absurd (omega (arith, b));
  called = λ j c. absurd (omega (arith, c));
  once = λ j. omega arith;
}
