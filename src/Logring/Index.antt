-- ===== src/Logring/Index.antt =====
-- The ring indices of internal/logring/logring.go.
use freebuff_proxy_scaleway.Base.{
  ℕ, suc, ◌+◌, ◌-◌, ◌%◌, ◌<◌, ◌≡◌, ◌≢◌, ltb, if◌then◌else◌, arith, ◌∙◌, Bool-cases, inl, inr,
  ltb→lt,
}
use native.Mathlib.Nat.{mod-eq_of_lt}
use freebuff_proxy_scaleway.Base.Mod.{mod_once}

-- Where the entry that is `i` pushes old stands.
pub slot :
    (next cap i : ℕ)
    → next < cap
    → i < cap
    → (next + cap - 1 - i) % cap ≡ (if ltb i next then next - 1 - i else next + cap - 1 - i)
slot next cap i h k = elim (Bool-cases (ltb i next)) [
  | inl e ↦
      let lt : i < next = ltb→lt i next e in
      rw e (mod_once (next + cap - 1 - i) cap (omega arith) (omega arith) ∙ omega arith)
  | inr e ↦ rw e (mod-eq_of_lt (ground arith))
]

pub step :
    (next cap : ℕ) → next < cap → (next + 1) % cap ≡ (if ltb (next + 1) cap then next + 1 else 0)
step next cap h = elim (Bool-cases (ltb (next + 1) cap)) [
  | inl e ↦ rw e (mod-eq_of_lt (ltb→lt (next + 1) cap e))
  | inr e ↦ rw e (mod_once (next + 1) cap (ground arith) (omega arith) ∙ (ground arith))
]

pub step-lt : (next cap : ℕ) → next < cap → (next + 1) % cap < cap
step-lt next cap h = let e = step next cap h in ground (arith, e)

-- One push later the newest entry stands where the write was, and every other one push deeper.
pub slot-step_zero : (next cap : ℕ) → next < cap → ((next + 1) % cap + cap - 1 - 0) % cap ≡ next
slot-step_zero next cap h =
    let e = step next cap h in
    let s = slot ((next + 1) % cap) cap 0 (step-lt next cap h) (omega arith) in ground (arith, e, s)

pub slot-step_suc :
    (next cap i : ℕ)
    → next < cap
    → suc i < cap
    → (((next + 1) % cap + cap - 1 - suc i) % cap ≡ (next + cap - 1 - i) % cap)
      × (next ≢ (next + cap - 1 - i) % cap)
      × ((next + cap - 1 - i) % cap < cap)
slot-step_suc next cap i h k =
    let e = step next cap h in
    let s = slot ((next + 1) % cap) cap (suc i) (step-lt next cap h) k in
    let t = slot next cap i h (omega arith) in
    (ground (arith, e, s, t), ground (arith, t), ground (arith, t))
