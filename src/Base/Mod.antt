-- ===== src/Base/Mod.antt =====
-- Remainders of numbers below twice the modulus.
use Prim.Native.Nat.{ℕ, ◌+◌, ◌-◌, ◌%◌, ◌≤◌, ◌<◌}
use mathlib.Core.Path.{◌≡◌, ◌∙◌}
use mathlib.Core.Logic.{inl, inr}
use native.Mathlib.Nat.{mod-eq_of_lt, mod-eq-sub-mod}
use native.Mathlib.Omega.{arith}
use freebuff_proxy_scaleway.Base.Tests.{ltb, ltb→lt, if◌then◌else◌, Bool-cases}

pub mod_once : (n m : ℕ) → m ≤ n → n < m + m → n % m ≡ n - m
mod_once n m h k = mod-eq-sub-mod h ∙ mod-eq_of_lt (omega arith)

pub mod_wrap : (n m : ℕ) → n < m + m → n % m ≡ (if ltb n m then n else n - m)
mod_wrap n m h = elim (Bool-cases (ltb n m)) [
  | inl e ↦ rw e (mod-eq_of_lt (ltb→lt n m e))
  | inr e ↦ rw e (mod_once n m (ground arith) h)
]
