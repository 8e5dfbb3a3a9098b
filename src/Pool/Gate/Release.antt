-- ===== src/Pool/Gate/Release.antt =====
-- Permits that come back in internal/pool/create_gate.go.
use freebuff_proxy_scaleway.Base.{
  ℕ, ◌+◌, ◌-◌, ◌%◌, ◌≤◌, ◌<◌, ◌≡◌, refl, inl, inr, String, none, some, ltb, if◌then◌else◌, arith,
  Option-cases, ◌^◌,
}
use freebuff_proxy_scaleway.Base.Int.{ℤ}
use freebuff_proxy_scaleway.Base.Map.{
  lookup, insert, delete, lookup-insert, lookup-delete, delete-insert, IsDistinct,
}
use freebuff_proxy_scaleway.Base.Eq.{String_eq, ℕ_eq}
use freebuff_proxy_scaleway.Pool.Gate.{
  CreateGate, CreatePermit, in_flight, reserve, release, new_create_gate, notify_locked,
  release_permit, release_model, Room, Step, arrive, attempt, wake, give_up, released, reloaded,
}
use freebuff_proxy_scaleway.Pool.Gate.Invariant.{
  Counted, acquire_once-Counted, release-Counted, set_limits-Counted, in_flight-release_model,
}

-- Every step of any interleaving keeps the counters equal to the permits that are out, as long as
-- the ids have not wrapped round.
pub Step-Counted :
    {r s : Room} → Step r s → r.gate.next_id + 1 < 2 ^ 64 → Counted r.gate → Counted s.gate
Step-Counted (arrive g cs model) h c = c
Step-Counted (attempt g pre post model) h c = acquire_once-Counted g model h c
Step-Counted (wake g pre post model seen ne) h c = c
Step-Counted (give_up g pre post model seen) h c = c
Step-Counted (released g cs id) h c = release-Counted id g c
Step-Counted (reloaded g cs m n) h c = set_limits-Counted m n g c

-- Whatever the configured caps, both are positive and a model's is at most the global one.
pub caps_ordered :
    (a b : ℤ)
    → (0 < (new_create_gate a b).max_per_model)
      × ((new_create_gate a b).max_per_model ≤ (new_create_gate a b).max_global)
unfolding new_create_gate
caps_ordered a b = ground arith

release_known :
    (id : ℕ) (n : String) (g : CreateGate)
    → lookup id g.pending ≡ some n
    → release id g ≡ record g {
      epoch = g.epoch + 1;
      pending = delete id g.pending;
      global = if ltb 0 g.global then g.global - 1 else g.global;
      by_model = release_model n g.by_model;
    }
unfolding release notify_locked
release_known id n g h = rw (h, release)

release_unknown : (id : ℕ) (g : CreateGate) → lookup id g.pending ≡ none → release id g ≡ g
unfolding release
release_unknown id g h = rw (h, release)

-- A permit that is released gives back exactly what its reservation took: the counters and the
-- table of permits are as before, and the waiters are woken.
reserve-release :
    (g : CreateGate) (model : String)
    → g.next_id + 1 < 2 ^ 64
    → Counted g
    → let h = (release_permit (reserve g model).1 (reserve g model).0).0 in
      (h.global ≡ g.global)
      × ((other : String) → in_flight other h.by_model ≡ in_flight other g.by_model)
      × (h.pending ≡ g.pending)
      × (h.epoch ≡ g.epoch + 1)
unfolding reserve release_permit
reserve-release g model fits c =
    let e : (g.next_id + 1) % 2 ^ 64 ≡ g.next_id + 1 = omega arith in
    let gone : lookup (g.next_id + 1) g.pending ≡ none = c.fresh (g.next_id + 1) (omega arith) in
    let found : lookup (g.next_id + 1) (insert (g.next_id + 1) model g.pending) ≡ some model =
      ground (
        arith,
        lookup-insert (g.next_id + 1) (g.next_id + 1) model g.pending,
        ℕ_eq.same_iff (g.next_id + 1) (g.next_id + 1),
      ) in
    let up = insert model (in_flight model g.by_model + 1) g.by_model in
    let g' : CreateGate = record g {
      next_id = g.next_id + 1;
      global = g.global + 1;
      by_model = up;
      pending = insert (g.next_id + 1) model g.pending;
    } in
    rw (e, release_known (g.next_id + 1) model g' found)
      (
        ground arith,
        λ other. ground (
          arith,
          in_flight-release_model model other up,
          lookup-insert model other (in_flight model g.by_model + 1) g.by_model,
          String_eq.same_iff model other,
        ),
        delete-insert (g.next_id + 1) model g.pending gone,
        refl,
      )

-- A permit that was released once changes nothing any more, nor does its id released again.
release-again :
    (p : CreatePermit) (g h : CreateGate)
    → IsDistinct g.pending
    → (release_permit (release_permit p g).1 h ≡ (h, (release_permit p g).1))
      × (release p.id (release p.id g) ≡ release p.id g)
unfolding release_permit
release-again p g h d = (ground arith, again)
  where
    again : release p.id (release p.id g) ≡ release p.id g
    again = elim (Option-cases (lookup p.id g.pending)) [
      | inl e ↦ rw (release_unknown p.id g e) (release_unknown p.id g e)
      | inr (n, e) ↦ release_unknown p.id (release p.id g) (
          rw (release_known p.id n g e)
            (ground (arith, lookup-delete p.id p.id g.pending, ℕ_eq.same_iff p.id p.id)))
    ]
