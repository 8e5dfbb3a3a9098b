-- ===== src/Base/Map.antt =====
-- Association lists that stand for the source's maps: a write replaces, a delete drops every entry.
use Prim.Native.Nat.{suc}
use mathlib.Core.Path.{◌≡◌, refl, ap}
use mathlib.Core.List.{List, [], ◌∷◌, ◌++◌}
use mathlib.Core.Option.{Option, none, some}
use native.Mathlib.Omega.{arith}
use freebuff_proxy_scaleway.Base.Tests.{if◌then◌else◌}
use freebuff_proxy_scaleway.Base.Eq.{Comparable, ◌==◌}
use freebuff_proxy_scaleway.Base.Lists.{length}

module _ {ℓ κ} {K : Type ℓ} {V : Type κ} ⦃e : Comparable K⦄ where
  unfoldable pub lookup : K → List (K × V) → Option V
  lookup k [] = none
  lookup k ((j, v) ∷ m) = if j == k then some v else lookup k m

  unfoldable pub delete : K → List (K × V) → List (K × V)
  delete k [] = []
  delete k ((j, v) ∷ m) = let rest = delete k m in if j == k then rest else (j, v) ∷ rest

  unfoldable pub insert : K → V → List (K × V) → List (K × V)
  insert k v m = (k, v) ∷ delete k m

  pub lookup-delete :
      (k j : K) (m : List (K × V)) → lookup j (delete k m) ≡ (if k == j then none else lookup j m)
  unfolding lookup delete
  lookup-delete k j [] = ground arith
  lookup-delete k j ((i, w) ∷ m) =
      ground (arith, e.same_iff k j, e.same_iff i k, e.same_iff i j, lookup-delete k j m)

  pub lookup-insert :
      (k j : K) (v : V) (m : List (K × V))
      → lookup j (insert k v m) ≡ (if k == j then some v else lookup j m)
  unfolding lookup insert
  lookup-insert k j v m = ground (arith, lookup-delete k j m)

  -- No key twice.
  abbrev pub IsDistinct : List (K × V) → Type κ
  IsDistinct [] = Unit
  IsDistinct ((k, v) ∷ m) = (lookup k m ≡ none) × IsDistinct m

  pub delete-IsDistinct : (k : K) (m : List (K × V)) → IsDistinct m → IsDistinct (delete k m)
  unfolding delete
  delete-IsDistinct k [] d = tt
  delete-IsDistinct k ((j, v) ∷ m) d =
      ground (arith, lookup-delete k j m, delete-IsDistinct k m d.1)

  pub insert-IsDistinct :
      (k : K) (v : V) (m : List (K × V)) → IsDistinct m → IsDistinct (insert k v m)
  unfolding insert
  insert-IsDistinct k v m d =
      ground (arith, lookup-delete k k m, e.same_iff k k, delete-IsDistinct k m d)

  pub delete_absent : (k : K) (m : List (K × V)) → lookup k m ≡ none → delete k m ≡ m
  unfolding lookup delete
  delete_absent k [] h = refl
  delete_absent k ((j, v) ∷ m) h = ground (arith, delete_absent k m)

  pub length-delete :
      (k : K) (v : V) (m : List (K × V))
      → IsDistinct m
      → lookup k m ≡ some v
      → suc (length (delete k m)) ≡ length m
  unfolding lookup delete
  length-delete k v [] d h = absurd (ground arith)
  length-delete k v ((j, w) ∷ m) d h =
      ground (arith, e.same_iff j k, delete_absent k m, length-delete k v m d.1)

  pub delete-insert :
      (k : K) (v : V) (m : List (K × V)) → lookup k m ≡ none → delete k (insert k v m) ≡ m
  unfolding delete insert
  delete-insert k v m h =
      let same : delete k m ≡ m = delete_absent k m h in
      ground (arith, e.same_iff k k, same, ap (delete k) same)

  pub lookup-append :
      (k : K) (m n : List (K × V))
      → lookup k (m ++ n) ≡ elim (lookup k m) [ none ↦ lookup k n | some v ↦ some v ]
  unfolding lookup
  lookup-append k [] n = refl
  lookup-append k ((j, v) ∷ m) n = ground (arith, lookup-append k m n)

  pub append-IsDistinct :
      (k : K) (v : V) (m : List (K × V))
      → IsDistinct m
      → lookup k m ≡ none
      → IsDistinct (m ++ (k, v) ∷ [])
  unfolding lookup
  append-IsDistinct k v [] d h = (refl, tt)
  append-IsDistinct k v ((j, w) ∷ m) d h = ground (
    arith,
    e.same_iff j k,
    e.same_iff k j,
    lookup-append j m ((k, v) ∷ []),
    append-IsDistinct k v m d.1,
  )

  pub lookup-head : (k : K) (v : V) (m : List (K × V)) → lookup k ((k, v) ∷ m) ≡ some v
  unfolding lookup
  lookup-head k v m = ground (arith, e.same_iff k k)

  pub delete-head :
      (k : K) (v : V) (m : List (K × V)) → lookup k m ≡ none → delete k ((k, v) ∷ m) ≡ m
  unfolding delete
  delete-head k v m h = ground (arith, e.same_iff k k, delete_absent k m h)
