-- ===== src/Base/Counts.antt =====
-- How often a number or a text stands in a list.
use Prim.Native.Nat.{ℕ, ◌+◌}
use mathlib.Core.Path.{◌≡◌}
use mathlib.Core.List.{List, [], ◌∷◌, ◌++◌}
use native.Mathlib.Omega.{arith}
use Prim.Native.String.{String}
use freebuff_proxy_scaleway.Base.Eq.{◌==◌, String_eq}
use freebuff_proxy_scaleway.Base.Tests.{nat_eq, if◌then◌else◌}

abbrev pub occurrences : ℕ → List ℕ → ℕ
occurrences i [] = 0
occurrences i (j ∷ js) = (if nat_eq j i then 1 else 0) + occurrences i js

pub occurrences-append :
    (i : ℕ) (xs ys : List ℕ) → occurrences i (xs ++ ys) ≡ occurrences i xs + occurrences i ys
occurrences-append i [] ys = omega arith
occurrences-append i (x ∷ xs) ys = ground (arith, occurrences-append i xs ys)

abbrev pub times : String → List String → ℕ
times k [] = 0
times k (j ∷ js) = (if j == k then 1 else 0) + times k js

pub times-append : (k : String) (xs ys : List String) → times k (xs ++ ys) ≡ times k xs + times k ys
times-append k [] ys = omega arith
times-append k (x ∷ xs) ys = ground (arith, times-append k xs ys)
