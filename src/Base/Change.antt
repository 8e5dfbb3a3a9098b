-- ===== src/Base/Change.antt =====
-- A list in which one element is rewritten by a function.
use Prim.Native.Nat.{ℕ}
use mathlib.Core.Path.{◌≡◌, ap, ◌∙◌}
use mathlib.Core.Logic.{inl, inr}
use mathlib.Core.List.{List}
use mathlib.Core.Option.{none, some}
use native.Mathlib.Omega.{arith}
use freebuff_proxy_scaleway.Base.Tests.{nat_eq, nat_eq_iff, if◌then◌else◌, Bool-cases, Option-cases}
use freebuff_proxy_scaleway.Base.Lists.{
  get_elem?, set, get_elem?-set_self, get_elem?-set_ne, get_elem?-lt,
}

module _ {ℓ} {A : Type ℓ} where
  -- The element at an index, if there is one, is rewritten and no other.
  abbrev pub change : (A → A) → ℕ → List A → List A
  change f t xs = elim (get_elem? xs t) [ none ↦ xs | some x ↦ set xs t (f x) ]

  pub get_elem?-change :
      (f : A → A) (t i : ℕ) (xs : List A) (x : A)
      → get_elem? xs i ≡ some x
      → get_elem? (change f t xs) i ≡ some (if nat_eq t i then f x else x)
  get_elem?-change f t i xs x e = elim (Bool-cases (nat_eq t i)) [
    | inl same ↦
        let eq : t ≡ i = (nat_eq_iff t i).0 same in
        let there : get_elem? xs t ≡ some x = ap (get_elem? xs) eq ∙ e in
        rw (same, change, there)
          (ap (λ k. get_elem? (set xs k (f x)) i) eq
            ∙ get_elem?-set_self xs i (f x) (get_elem?-lt xs i x e))
    | inr other ↦ elim (Option-cases (get_elem? xs t)) [
      | inl absent ↦ rw (other, change, absent) e
      | inr (y, there) ↦
          rw (other, change, there) (get_elem?-set_ne xs (f y) (λ eq. ground arith) ∙ e)
    ]
  ]
