-- ===== src/Pool/Gate/Wakeup.antt =====
-- Admission against the caps of internal/pool/create_gate.go, and the wake-up of parked requests.
use freebuff_proxy_scaleway.Base.{
  ℕ, ◌+◌, ◌≤◌, ◌≡◌, refl, ◌⊎◌, inl, inr, String, true, false, none, some, List, [], ◌∷◌, ◌++◌,
  if◌then◌else◌, arith, Bool-cases, Option-cases,
}
use freebuff_proxy_scaleway.Base.Lists.{All, All-append, All-append_left, All-append_right, All-map}
use freebuff_proxy_scaleway.Base.Int.{ℤ}
use freebuff_proxy_scaleway.Base.Map.{lookup, lookup-insert}
use freebuff_proxy_scaleway.Base.Eq.{◌==◌, String_eq, ℕ_eq}
use freebuff_proxy_scaleway.Pool.Gate.{
  CreateGate, CreatePermit, in_flight, can_acquire_locked, reserve, acquire_once, release,
  new_create_gate, set_limits, notify_locked, Caller, checking, parked, Room, settled, Step, arrive,
  attempt, wake, give_up, released, reloaded, Reach, here, next,
}

abbrev pub IsFull : CreateGate → String → Type 0
IsFull g model = (g.max_global ≤ g.global) ⊎ (g.max_per_model ≤ in_flight model g.by_model)

can_acquire-IsFull :
    (g : CreateGate) (model : String) → can_acquire_locked g model ≡ false → IsFull g model
unfolding can_acquire_locked
can_acquire-IsFull g model h = ground arith

IsFull-can_acquire :
    (g : CreateGate) (model : String) → IsFull g model → can_acquire_locked g model ≡ false
unfolding can_acquire_locked
IsFull-can_acquire g model h = ground arith

-- One round of `acquire` gives a permit exactly when neither cap is reached. With a permit both
-- counters have grown by one, stay within their caps, and no other model's counter moves; without
-- one the gate is as it was.
acquire_once_lem :
    (g : CreateGate) (model : String)
    → (((acquire_once g model).1 ≡ none) × ((acquire_once g model).0 ≡ g) × IsFull g model)
      ⊎ ((p : CreatePermit) × ((acquire_once g model).1 ≡ some p)
          × ((acquire_once g model).0.global ≡ g.global + 1)
          × (g.global + 1 ≤ g.max_global)
          × (in_flight model g.by_model + 1 ≤ g.max_per_model)
          × ((other : String)
              → in_flight other (acquire_once g model).0.by_model
                ≡ in_flight other g.by_model + (if model == other then 1 else 0)))
unfolding acquire_once reserve can_acquire_locked
acquire_once_lem g model = elim (Bool-cases (can_acquire_locked g model)) [
  | inl free ↦ inr (
    (reserve g model).1,
    rw (free, acquire_once),
    rw (free, acquire_once),
    ground arith,
    ground arith,
    λ other.
        rw (free, acquire_once)
          (ground (
            arith,
            lookup-insert model other (in_flight model g.by_model + 1) g.by_model,
            String_eq.same_iff model other,
          )),
  )
  | inr full ↦
      inl (rw (full, acquire_once), rw (full, acquire_once), can_acquire-IsFull g model full)
]

-- A parked request's channel is the current one only while its model has no free slot.
abbrev pub Waits : CreateGate → Caller → Type 0
Waits g (checking model) = Unit
Waits g (parked model seen) =
    (seen ≤ g.epoch) × (seen ≡ g.epoch → can_acquire_locked g model ≡ false)

reserve-Waits :
    (g : CreateGate) (model : String) (c : Caller) → Waits g c → Waits (reserve g model).0 c
unfolding reserve can_acquire_locked
reserve-Waits g model (checking m) w = tt
reserve-Waits g model (parked m seen) w = (
  w.0,
  λ e. ground (
    arith,
    w.1 e,
    lookup-insert model m (in_flight model g.by_model + 1) g.by_model,
    String_eq.same_iff model m,
  ),
)

notify-Waits : (g h : CreateGate) (c : Caller) → h.epoch ≡ g.epoch + 1 → Waits g c → Waits h c
notify-Waits g h (checking m) e w = tt
notify-Waits g h (parked m seen) e w = (omega arith, λ k. absurd (omega arith))

release-Waits : (g : CreateGate) (id : ℕ) (c : Caller) → Waits g c → Waits (release id g) c
unfolding release notify_locked
release-Waits g id c w = elim (Option-cases (lookup id g.pending)) [
  | inl e ↦ rw (e, release) w
  | inr (n, e) ↦ notify-Waits g (release id g) c (rw (e, release)) w
]

set_limits-Waits : (g : CreateGate) (a b : ℤ) (c : Caller) → Waits g c → Waits (set_limits a b g) c
unfolding set_limits notify_locked
set_limits-Waits g a b c w = notify-Waits g (set_limits a b g) c refl w

abbrev pub AllWait : Room → Type 0
AllWait r = All (Waits r.gate) r.callers

attempt-AllWait :
    (g : CreateGate) (pre post : List Caller) (model : String)
    → All (Waits g) (pre ++ (checking model ∷ post))
    → All
        (Waits (acquire_once g model).0)
        (pre ++ (settled g model (acquire_once g model).1 ++ post))
unfolding acquire_once
attempt-AllWait g pre post model a =
    let before = All-append_left (Waits g) pre (checking model ∷ post) a in
    let after = (All-append_right (Waits g) pre (checking model ∷ post) a).1 in
    elim (Bool-cases (can_acquire_locked g model)) [
      | inl free ↦
          rw (free, acquire_once)
            (All-map (reserve-Waits g model) (pre ++ post)
              (All-append (Waits g) pre post before after))
      | inr full ↦
          rw (full, acquire_once)
            (All-append (Waits g) pre (parked model g.epoch ∷ post) before
              ((omega arith, λ _. full), after))
    ]

Step-AllWait : {r s : Room} → Step r s → AllWait r → AllWait s
Step-AllWait (arrive g cs model) a = (tt, a)
Step-AllWait (attempt g pre post model) a = attempt-AllWait g pre post model a
Step-AllWait (wake g pre post model seen ne) a =
    All-append (Waits g) pre (checking model ∷ post)
      (All-append_left (Waits g) pre (parked model seen ∷ post) a)
      (tt, (All-append_right (Waits g) pre (parked model seen ∷ post) a).1)
Step-AllWait (give_up g pre post model seen) a =
    All-append (Waits g) pre post (All-append_left (Waits g) pre (parked model seen ∷ post) a)
      (All-append_right (Waits g) pre (parked model seen ∷ post) a).1
Step-AllWait (released g cs id) a = All-map (release-Waits g id) cs a
Step-AllWait (reloaded g cs m n) a = All-map (set_limits-Waits g m n) cs a

pub Reach-AllWait : {r s : Room} → AllWait r → Reach r s → AllWait s
Reach-AllWait a here = a
Reach-AllWait a (next t st) = Step-AllWait st (Reach-AllWait a t)

-- No wake-up is lost: in every room that can be reached from an empty one, a parked request for
-- whose model a slot is free has its channel closed already, so that it can step back to its check.
pub Reach-wakes :
    (max_global max_per_model : ℤ) (g : CreateGate) (pre post : List Caller) (model : String)
    (seen : ℕ)
    → Reach
        (record { gate = new_create_gate max_global max_per_model; callers = [] })
        (record { gate = g; callers = pre ++ (parked model seen ∷ post) })
    → can_acquire_locked g model ≡ true
    → Step
        (record { gate = g; callers = pre ++ (parked model seen ∷ post) })
        (record { gate = g; callers = pre ++ (checking model ∷ post) })
Reach-wakes a b g pre post model seen r free =
    let w = (All-append_right (Waits g) pre (parked model seen ∷ post) (Reach-AllWait tt r)).0 in
    wake g pre post model seen (λ e. cc (w.1 e))
