-- ===== src/Pool/Gate/Invariant.antt =====
-- The counters of internal/pool/create_gate.go agree with the permits that are out.
use freebuff_proxy_scaleway.Base.{
  ℕ, suc, ◌+◌, ◌-◌, ◌%◌, ◌<◌, ◌≡◌, refl, inl, inr, String, none, some, List, [], ◌∷◌, length,
  if◌then◌else◌, arith, Bool-cases, Option-cases, ◌^◌,
}
use freebuff_proxy_scaleway.Base.Int.{ℤ}
use freebuff_proxy_scaleway.Base.Map.{
  lookup, insert, delete, lookup-insert, lookup-delete, IsDistinct, insert-IsDistinct,
  delete-IsDistinct, delete_absent, length-delete,
}
use freebuff_proxy_scaleway.Base.Eq.{◌==◌, String_eq, ℕ_eq}
use freebuff_proxy_scaleway.Pool.Gate.{
  CreateGate, in_flight, can_acquire_locked, reserve, acquire_once, release, release_model,
  new_create_gate, set_limits, notify_locked,
}

-- How many permits are out for a model.
abbrev pub tally : String → List (ℕ × String) → ℕ
tally m [] = 0
tally m ((i, n) ∷ ps) = if n == m then suc (tally m ps) else tally m ps

pub record Counted (g : CreateGate) : Type 0 where
  pub distinct : IsDistinct g.pending
  pub fresh : (i : ℕ) → g.next_id < i → lookup i g.pending ≡ none
  pub total : g.global ≡ length g.pending
  pub per_model : (m : String) → in_flight m g.by_model ≡ tally m g.pending

tally-delete :
    (i : ℕ) (n m : String) (ps : List (ℕ × String))
    → IsDistinct ps
    → lookup i ps ≡ some n
    → tally m ps ≡ (if n == m then 1 else 0) + tally m (delete i ps)
unfolding lookup delete
tally-delete i n m [] d h = absurd (ground arith)
tally-delete i n m ((j, k) ∷ ps) d h =
    ground (arith, ℕ_eq.same_iff j i, delete_absent i ps, tally-delete i n m ps d.1)

pub in_flight-release_model :
    (n m : String) (c : List (String × ℕ))
    → in_flight m (release_model n c) ≡ (if n == m then in_flight m c - 1 else in_flight m c)
unfolding release_model
in_flight-release_model n m c =
    ground
      (arith, String_eq.same_iff n m, lookup-insert n m (in_flight n c - 1) c, lookup-delete n m c)

pub new_create_gate-Counted : (a b : ℤ) → Counted (new_create_gate a b)
unfolding new_create_gate lookup
new_create_gate-Counted a b = record {
  distinct = tt;
  fresh = λ i h. refl;
  total = refl;
  per_model = λ m. refl;
}

reserve-Counted :
    (g : CreateGate) (model : String)
    → g.next_id + 1 < 2 ^ 64
    → Counted g
    → Counted (reserve g model).0
unfolding reserve insert
reserve-Counted g model h c =
    let e : (g.next_id + 1) % 2 ^ 64 ≡ g.next_id + 1 = omega arith in
    let gone : lookup (g.next_id + 1) g.pending ≡ none = c.fresh (g.next_id + 1) (omega arith) in
    let same : delete (g.next_id + 1) g.pending ≡ g.pending = delete_absent _ g.pending gone in
    rw e (record {
      distinct = insert-IsDistinct _ model g.pending c.distinct;
      fresh = λ i lt. ground (
        arith,
        c.fresh i,
        lookup-insert (g.next_id + 1) i model g.pending,
        ℕ_eq.same_iff (g.next_id + 1) i,
      );
      total = ground (arith, same, c.total);
      per_model = λ m. ground (
        arith,
        same,
        c.per_model m,
        String_eq.same_iff model m,
        lookup-insert model m (in_flight model g.by_model + 1) g.by_model,
      );
    })

pub acquire_once-Counted :
    (g : CreateGate) (model : String)
    → g.next_id + 1 < 2 ^ 64
    → Counted g
    → Counted (acquire_once g model).0
unfolding acquire_once
acquire_once-Counted g model h c = elim (Bool-cases (can_acquire_locked g model)) [
  | inl yes' ↦ rw (yes', acquire_once) (reserve-Counted g model h c)
  | inr no' ↦ rw (no', acquire_once) c
]

pub release-Counted : (id : ℕ) (g : CreateGate) → Counted g → Counted (release id g)
unfolding release notify_locked
release-Counted id g c = elim (Option-cases (lookup id g.pending)) [
  | inl e ↦ rw (e, release) c
  | inr (n, e) ↦
      rw (e, release)
        (record {
          distinct = delete-IsDistinct id g.pending c.distinct;
          fresh = λ i lt. ground (arith, c.fresh i lt, lookup-delete id i g.pending);
          total = ground (arith, length-delete id n g.pending c.distinct e);
          per_model = λ m. ground (
            arith,
            c.per_model m,
            in_flight-release_model n m g.by_model,
            tally-delete id n m g.pending c.distinct e,
          );
        })
]

pub set_limits-Counted : (a b : ℤ) (g : CreateGate) → Counted g → Counted (set_limits a b g)
unfolding set_limits
set_limits-Counted a b g c = record {
  distinct = c.distinct;
  fresh = c.fresh;
  total = c.total;
  per_model = c.per_model;
}
