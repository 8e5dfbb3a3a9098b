-- ===== src/Pool/Gate.antt =====
-- internal/pool/create_gate.go: the session-create admission gate. The broadcast channel `changed`
-- is an epoch: closing it and making a new one is `epoch + 1`, and a waiter keeps the epoch whose
-- channel it parked on. `nextID` is a uint64 and wraps.
pub mod Invariant
pub mod Wakeup
pub mod Release
mod Tests
use freebuff_proxy_scaleway.Base.{
  ℕ, ◌+◌, ◌-◌, ◌%◌, String, Bool, true, false, Option, none, some, List, [], ◌∷◌, ◌++◌, ◌≢◌, ltb,
  leb, if◌then◌else◌, ◌^◌,
}
use freebuff_proxy_scaleway.Base.Int.{ℤ, positive_or}
use freebuff_proxy_scaleway.Base.Map.{lookup, insert, delete}
use freebuff_proxy_scaleway.Base.Eq.{String_eq, ℕ_eq}

abbrev pub default_max_parallel_creates_global : ℕ
default_max_parallel_creates_global = 128

abbrev pub default_max_parallel_creates_per_model : ℕ
default_max_parallel_creates_per_model = 32

pub record CreateGate : Type 0 where
  pub epoch : ℕ
  pub max_global : ℕ
  pub max_per_model : ℕ
  pub next_id : ℕ
  pub global : ℕ
  pub by_model : List (String × ℕ)
  pub pending : List (ℕ × String)

pub record CreatePermit : Type 0 where
  pub id : ℕ
  pub once : Bool

-- A missing key of `map[string]int` reads as 0.
abbrev pub or_zero : Option ℕ → ℕ
or_zero none = 0
or_zero (some n) = n

abbrev pub in_flight : String → List (String × ℕ) → ℕ
in_flight model m = or_zero (lookup model m)

pub global_cap : ℤ → ℕ
global_cap max_global = positive_or max_global default_max_parallel_creates_global

pub model_cap : ℤ → ℤ → ℕ
unfolding global_cap
model_cap max_global max_per_model =
    let cap = positive_or max_per_model default_max_parallel_creates_per_model in
    if ltb (global_cap max_global) cap then global_cap max_global else cap

pub new_create_gate : ℤ → ℤ → CreateGate
unfolding model_cap
new_create_gate max_global max_per_model = record {
  epoch = 0;
  max_global = global_cap max_global;
  max_per_model = model_cap max_global max_per_model;
  next_id = 0;
  global = 0;
  by_model = [];
  pending = [];
}

pub notify_locked : CreateGate → CreateGate
notify_locked g = record g { epoch = g.epoch + 1 }

pub set_limits : ℤ → ℤ → CreateGate → CreateGate
unfolding model_cap notify_locked
set_limits max_global max_per_model g = notify_locked (record g {
  max_global = global_cap max_global;
  max_per_model = model_cap max_global max_per_model;
})

pub can_acquire_locked : CreateGate → String → Bool
can_acquire_locked g model =
    if leb g.max_global g.global
    then false
    else if leb g.max_per_model (in_flight model g.by_model)
    then false
    else true

-- The reservation that `acquire` makes under the lock.
pub reserve : CreateGate → String → CreateGate × CreatePermit
reserve g model =
    let id = (g.next_id + 1) % 2 ^ 64 in
    (
      record g {
        next_id = id;
        global = g.global + 1;
        by_model = insert model (in_flight model g.by_model + 1) g.by_model;
        pending = insert id model g.pending;
      },
      record { id = id; once = false },
    )

-- One round of the loop of `acquire`, up to its `select`: a permit, or `none` to park.
pub acquire_once : CreateGate → String → CreateGate × Option CreatePermit
unfolding can_acquire_locked
acquire_once g model =
    let (g', permit) = reserve g model in
    if can_acquire_locked g model then (g', some permit) else (g, none)

pub release_model : String → List (String × ℕ) → List (String × ℕ)
release_model model m =
    let n = in_flight model m in if ltb 1 n then insert model (n - 1) m else delete model m

-- `createGate.release`.
pub release : ℕ → CreateGate → CreateGate
unfolding notify_locked release_model
release id g = elim (lookup id g.pending) [
  | none ↦ g
  | some model ↦ notify_locked (record g {
    pending = delete id g.pending;
    global = if ltb 0 g.global then g.global - 1 else g.global;
    by_model = release_model model g.by_model;
  })
]

-- `createPermit.Release`: the second call of one permit does nothing.
pub release_permit : CreatePermit → CreateGate → CreateGate × CreatePermit
unfolding release
release_permit p g = if p.once then (g, p) else (release p.id g, record p { once = true })

-- One request in the loop of `acquire`.
pub data Caller : Type 0 where
  checking : String → Caller
  parked : String → ℕ → Caller

pub record Room : Type 0 where
  pub gate : CreateGate
  pub callers : List Caller

-- What becomes of a request after one round of the loop.
abbrev pub settled : CreateGate → String → Option CreatePermit → List Caller
settled g model none = parked model g.epoch ∷ []
settled g model (some permit) = []

-- The interleavings of the requests, the permits that come back and the reloads. A parked request
-- wakes only when its channel is closed, and may give up at any time.
pub data Step : Room → Room → Type 0 where
  arrive :
      (g : CreateGate) (cs : List Caller) (model : String)
      → Step
          (record { gate = g; callers = cs })
          (record { gate = g; callers = checking model ∷ cs })
  attempt :
      (g : CreateGate) (pre post : List Caller) (model : String)
      → Step
          (record { gate = g; callers = pre ++ (checking model ∷ post) })
          (record {
            gate = (acquire_once g model).0;
            callers = pre ++ (settled g model (acquire_once g model).1 ++ post);
          })
  wake :
      (g : CreateGate) (pre post : List Caller) (model : String) (seen : ℕ)
      → seen ≢ g.epoch
      → Step
          (record { gate = g; callers = pre ++ (parked model seen ∷ post) })
          (record { gate = g; callers = pre ++ (checking model ∷ post) })
  give_up :
      (g : CreateGate) (pre post : List Caller) (model : String) (seen : ℕ)
      → Step
          (record { gate = g; callers = pre ++ (parked model seen ∷ post) })
          (record { gate = g; callers = pre ++ post })
  released :
      (g : CreateGate) (cs : List Caller) (id : ℕ)
      → Step (record { gate = g; callers = cs }) (record { gate = release id g; callers = cs })
  reloaded :
      (g : CreateGate) (cs : List Caller) (max_global max_per_model : ℤ)
      → Step
          (record { gate = g; callers = cs })
          (record { gate = set_limits max_global max_per_model g; callers = cs })

pub data Reach (start : Room) : Room → Type 0 where
  here : Reach start start
  next : {r s : Room} → Reach start r → Step r s → Reach start s
