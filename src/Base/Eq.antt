-- ===== src/Base/Eq.antt =====
-- Keys that can be compared: the numbers and the texts that index the source's maps.
use Prim.Native.Nat.{ℕ}
use mathlib.Core.Bool.{Bool, true}
use mathlib.Core.Logic.{◌↔◌}
use mathlib.Core.Path.{◌≡◌}
use text.Mathlib.TextEquality.{eq_iff}
use text.Mathlib.Text.{◌==◌ as same_text}
use Prim.Native.String.{String}
use freebuff_proxy_scaleway.Base.Tests.{nat_eq, nat_eq_iff}

pub record Comparable {ℓ} (K : Type ℓ) : Type ℓ where
  pub same : K → K → Bool
  pub same_iff : (j k : K) → (same j k ≡ true) ↔ (j ≡ k)

instance abbrev pub ℕ_eq : Comparable ℕ
ℕ_eq = record { same = nat_eq; same_iff = nat_eq_iff }

instance abbrev pub String_eq : Comparable String
String_eq = record { same = same_text; same_iff = eq_iff }

infix 50 ◌==◌
abbrev pub ◌==◌ {ℓ} : {K : Type ℓ} ⦃c : Comparable K⦄ → K → K → Bool
◌==◌ ⦃c⦄ j k = c.same j k
