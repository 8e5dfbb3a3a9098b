-- ===== src/Pool/Gate/Tests.antt =====
-- Runs of the gate of internal/pool/create_gate.go, and instances of its theorems.
use freebuff_proxy_scaleway.Base.{◌≡◌, refl, false, none, [], ◌∷◌, ◌++◌, arith, ◌≤◌, ◌<◌}
use freebuff_proxy_scaleway.Base.Int.{pos, negsuc}
use freebuff_proxy_scaleway.Base.Eq.{String_eq, ℕ_eq}
use freebuff_proxy_scaleway.Base.Map.{lookup, insert, delete}
use freebuff_proxy_scaleway.Pool.Gate.{
  CreateGate, CreatePermit, reserve, acquire_once, release, new_create_gate, checking, parked, Step,
  arrive, attempt, released, Reach, here, next,
}
use freebuff_proxy_scaleway.Pool.Gate.Invariant.{
  Counted, new_create_gate-Counted, acquire_once-Counted,
}
use freebuff_proxy_scaleway.Pool.Gate.Wakeup.{Reach-wakes}
use freebuff_proxy_scaleway.Pool.Gate.Release.{Step-Counted, caps_ordered}

abbrev empty_gate : CreateGate
unfolding new_create_gate
empty_gate = new_create_gate (pos 1) (pos 5)

-- A model's cap is cut to the global cap, and a cap that is not positive is the default.
new_create_gate_caps :
    ((new_create_gate (pos 1) (pos 5)).max_per_model ≡ 1)
    × ((new_create_gate (negsuc 3) (pos 0)).max_global ≡ 128)
    × ((new_create_gate (negsuc 3) (pos 0)).max_per_model ≡ 32)
unfolding new_create_gate
new_create_gate_caps = (refl, refl, refl)

abbrev one_out : CreateGate
unfolding new_create_gate acquire_once reserve
one_out = (acquire_once (new_create_gate (pos 1) (pos 5)) "a").0

one_out_full : acquire_once one_out "b" ≡ (one_out, none)
unfolding new_create_gate acquire_once reserve lookup
one_out_full = refl

abbrev freed : CreateGate
unfolding new_create_gate acquire_once reserve release insert delete lookup
freed = release 1 (acquire_once (new_create_gate (pos 1) (pos 5)) "a").0

freed_pending : freed.pending ≡ []
unfolding new_create_gate acquire_once reserve release insert delete lookup
freed_pending = refl

waiting_Reach :
    Reach
      (record { gate = new_create_gate (pos 1) (pos 5); callers = [] })
      (record { gate = freed; callers = [] ++ (parked "b" 0 ∷ []) })
unfolding new_create_gate acquire_once reserve release insert delete lookup
waiting_Reach =
    next
      (next
        (next
          (next (next here (arrive (new_create_gate (pos 1) (pos 5)) [] "a"))
            (attempt (new_create_gate (pos 1) (pos 5)) [] [] "a"))
          (arrive one_out [] "b"))
        (attempt one_out [] [] "b"))
      (released one_out (parked "b" 0 ∷ []) 1)

Reach-wakes_example :
    Step
      (record { gate = freed; callers = [] ++ (parked "b" 0 ∷ []) })
      (record { gate = freed; callers = [] ++ (checking "b" ∷ []) })
unfolding new_create_gate acquire_once reserve release insert delete lookup
Reach-wakes_example = Reach-wakes (pos 1) (pos 5) freed [] [] "b" 0 waiting_Reach refl

one_out-Counted : Counted one_out
unfolding new_create_gate one_out acquire_once
one_out-Counted =
    acquire_once-Counted empty_gate "a" (omega arith) (new_create_gate-Counted (pos 1) (pos 5))

Step-Counted_example : Counted freed
unfolding new_create_gate acquire_once reserve release insert delete lookup
Step-Counted_example = Step-Counted (released one_out [] 1) (omega arith) one_out-Counted

caps_ordered_example :
    (0 < (new_create_gate (pos 3) (negsuc 0)).max_per_model)
    × ((new_create_gate (pos 3) (negsuc 0)).max_per_model
        ≤ (new_create_gate (pos 3) (negsuc 0)).max_global)
caps_ordered_example = caps_ordered (pos 3) (negsuc 0)

abbrev permit_one : CreatePermit
permit_one = record { id = 1; once = false }
