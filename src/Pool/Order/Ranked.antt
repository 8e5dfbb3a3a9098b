-- ===== src/Pool/Order/Ranked.antt =====
-- How `acquireOrder` of internal/pool/acquire.go ranks the tokens that it gives.
use freebuff_proxy_scaleway.Base.{
  ℕ, ◌<◌, ◌≡◌, refl, sym, ◌⊎◌, inl, inr, true, false, none, some, List, [], ◌∷◌, ◌++◌, length,
  get_elem?, arith, Bool-cases, Option-cases,
}
use freebuff_proxy_scaleway.Base.Lists.{All, All-map, All-append, Pairwise, Pairwise-append}
use mathlib.Core.Path.{subst}
use freebuff_proxy_scaleway.Pool.Order.Members.{any_eligible, acquire_order-ranked_order}
use freebuff_proxy_scaleway.Pool.Order.{
  TokenEntry, View, Rank, rank_of, precedes, less, insert_sorted, same_group, acquire_order,
  sort_stable, Group, matching_hot, cold, mismatched_hot, collect, joins, group, ranked_order,
  rotation,
}

precedes_asymm : (a b : Rank) → precedes a b ≡ true → precedes b a ≡ false
unfolding precedes
precedes_asymm a b h = ground arith

precedes_trans : (a b c : Rank) → precedes b a ≡ false → precedes c b ≡ false → precedes c a ≡ false
unfolding precedes
precedes_trans a b c h k = ground arith

module _ (v : View) (toks : List TokenEntry) where
  abbrev Stands : ℕ → Type 0
  Stands i = (tok : TokenEntry) × (get_elem? toks i ≡ some tok)

  less_asymm : (a b : ℕ) → less v toks a b ≡ true → less v toks b a ≡ false
  less_asymm a b h = elim (Option-cases (get_elem? toks a)) [
    | inl e ↦ ground (arith, e)
    | inr (x, e) ↦ elim (Option-cases (get_elem? toks b)) [
      | inl e' ↦ ground (arith, e, e')
      | inr (y, e') ↦ ground (arith, e, e', precedes_asymm (rank_of v a x) (rank_of v b y))
    ]
  ]

  less_trans :
      (a b c : ℕ)
      → Stands b
      → less v toks b a ≡ false
      → less v toks c b ≡ false
      → less v toks c a ≡ false
  less_trans a b c (y, e) h k = elim (Option-cases (get_elem? toks a)) [
    | inl ea ↦ elim (Option-cases (get_elem? toks c)) [
      | inl ec ↦ ground (arith, ea, ec)
      | inr (z, ec) ↦ ground (arith, ea, ec)
    ]
    | inr (x, ea) ↦ elim (Option-cases (get_elem? toks c)) [
      | inl ec ↦ ground (arith, ea, ec)
      | inr (z, ec) ↦
          ground (arith, ea, ec, e, precedes_trans (rank_of v a x) (rank_of v b y) (rank_of v c z))
    ]
  ]

  abbrev NotAfter : ℕ → ℕ → Type 0
  NotAfter a b = less v toks b a ≡ false

  All-insert_sorted {κ} :
      (P : ℕ → Type κ) (a : ℕ) (xs : List ℕ) → P a → All P xs → All P (insert_sorted v toks a xs)
  unfolding insert_sorted
  All-insert_sorted P a [] p q = (p, tt)
  All-insert_sorted P a (b ∷ bs) p q = elim (Bool-cases (less v toks b a)) [
    | inl e ↦ rw (e, insert_sorted) (q.0, All-insert_sorted P a bs p q.1)
    | inr e ↦ rw (e, insert_sorted) (p, q)
  ]

  insert_sorted-Pairwise :
      (a : ℕ) (xs : List ℕ)
      → All Stands xs
      → Pairwise NotAfter xs
      → Pairwise NotAfter (insert_sorted v toks a xs)
  unfolding insert_sorted
  insert_sorted-Pairwise a [] s p = (tt, tt)
  insert_sorted-Pairwise a (b ∷ bs) s p = elim (Bool-cases (less v toks b a)) [
    | inl e ↦
        rw (e, insert_sorted)
          (
            All-insert_sorted (NotAfter b) a bs (less_asymm b a e) p.0,
            insert_sorted-Pairwise a bs s.1 p.1,
          )
    | inr e ↦ rw (e, insert_sorted) ((e, All-map (λ c h. less_trans a b c s.0 e h) bs p.0), p)
  ]

  All-sort_stable {κ} : (P : ℕ → Type κ) (xs : List ℕ) → All P xs → All P (sort_stable v toks xs)
  unfolding sort_stable
  All-sort_stable P [] p = tt
  All-sort_stable P (a ∷ xs) p =
      All-insert_sorted P a (sort_stable v toks xs) p.0 (All-sort_stable P xs p.1)

  sort_stable-Pairwise : (xs : List ℕ) → All Stands xs → Pairwise NotAfter (sort_stable v toks xs)
  unfolding sort_stable
  sort_stable-Pairwise [] s = tt
  sort_stable-Pairwise (a ∷ xs) s =
      insert_sorted-Pairwise a (sort_stable v toks xs) (All-sort_stable Stands xs s.1)
        (sort_stable-Pairwise xs s.1)

  abbrev InGroup : Group → ℕ → Type 0
  InGroup g i = joins v toks g i ≡ true

  All-collect : (g : Group) (xs : List ℕ) → All (InGroup g) (collect v toks g xs)
  unfolding collect
  All-collect g [] = tt
  All-collect g (x ∷ xs) = elim (Bool-cases (joins v toks g x)) [
    | inl e ↦ rw (collect, e) (e, All-collect g xs)
    | inr e ↦ rw (collect, e) (All-collect g xs)
  ]

  joins-Stands : (g : Group) (i : ℕ) → InGroup g i → Stands i
  joins-Stands g i h = elim (Option-cases (get_elem? toks i)) [
    | inl e ↦ absurd (ground (arith, e, h))
    | inr there ↦ there
  ]

  abbrev pub place_of : Group → ℕ
  place_of matching_hot = 0
  place_of cold = 1
  place_of mismatched_hot = 2

  -- The matching tokens come first, then the cold ones, then those that hold another model.
  abbrev pub place : ℕ → ℕ
  place i = elim (get_elem? toks i) [ none ↦ 3 | some tok ↦ place_of (group v i tok) ]

  same_group-place : (g h : Group) → same_group g h ≡ true → place_of g ≡ place_of h
  same_group-place matching_hot matching_hot e = refl
  same_group-place cold cold e = refl
  same_group-place mismatched_hot mismatched_hot e = refl
  same_group-place matching_hot cold e = cc
  same_group-place matching_hot mismatched_hot e = cc
  same_group-place cold matching_hot e = cc
  same_group-place cold mismatched_hot e = cc
  same_group-place mismatched_hot matching_hot e = cc
  same_group-place mismatched_hot cold e = cc

  joins-place : (g : Group) (i : ℕ) → InGroup g i → place i ≡ place_of g
  joins-place g i h = elim (Option-cases (get_elem? toks i)) [
    | inl e ↦ absurd (ground (arith, e, h))
    | inr (tok, e) ↦
        let same : same_group (group v i tok) g ≡ true = ground (arith, e, h) in
        rw (e, place) (same_group-place (group v i tok) g same)
  ]

  -- `i` may stand before `j`: it is of an earlier group, or of the same one and, among the matching
  -- tokens, `j` does not precede it.
  abbrev pub MayPrecede : ℕ → ℕ → Type 0
  MayPrecede i j =
      (place i < place j) ⊎ ((place i ≡ place j) × ((0 < place i) ⊎ (less v toks j i ≡ false)))

  collected : (g : Group) (xs : List ℕ) → All (λ i. place i ≡ place_of g) (collect v toks g xs)
  collected g xs = All-map (joins-place g) (collect v toks g xs) (All-collect g xs)

  -- Every element of one list may precede every element of another whose group comes later.
  across :
      (m n : ℕ) (xs ys : List ℕ)
      → m < n
      → All (λ i. place i ≡ m) xs
      → All (λ i. place i ≡ n) ys
      → All (λ i. All (MayPrecede i) ys) xs
  across m n xs ys h a b =
      All-map (λ i e. All-map (λ j e'. inl (omega (arith, h, e, e'))) ys b) xs a

  within_group : (m : ℕ) (xs : List ℕ) → 0 < m → All (λ i. place i ≡ m) xs → Pairwise MayPrecede xs
  within_group m [] h a = tt
  within_group m (x ∷ xs) h a = (
    All-map (λ j e. inr (omega (arith, a.0, e), inl (omega (arith, h, a.0)))) xs a.1,
    within_group m xs h a.1,
  )

  matching_from :
      (x : ℕ) (xs : List ℕ)
      → place x ≡ 0
      → All (λ i. place i ≡ 0) xs
      → All (NotAfter x) xs
      → All (MayPrecede x) xs
  matching_from x [] e a p = tt
  matching_from x (y ∷ ys) e a p =
      (inr (omega (arith, e, a.0), inr p.0), matching_from x ys e a.1 p.1)

  within_matching :
      (xs : List ℕ) → All (λ i. place i ≡ 0) xs → Pairwise NotAfter xs → Pairwise MayPrecede xs
  within_matching [] a p = tt
  within_matching (x ∷ xs) a p = (matching_from x xs a.0 a.1 p.0, within_matching xs a.1 p.1)

  All-both :
      (ys zs xs : List ℕ)
      → All (λ i. All (MayPrecede i) ys) xs
      → All (λ i. All (MayPrecede i) zs) xs
      → All (λ i. All (MayPrecede i) (ys ++ zs)) xs
  All-both ys zs [] a b = tt
  All-both ys zs (x ∷ xs) a b = (All-append (MayPrecede x) ys zs a.0 b.0, All-both ys zs xs a.1 b.1)

  ranked_order-Pairwise : (start : ℕ) → Pairwise MayPrecede (ranked_order v toks start)
  unfolding ranked_order
  ranked_order-Pairwise start =
      let all = rotation (length toks) start (length toks) 0 in
      let m = collect v toks matching_hot all in
      let c = collect v toks cold all in
      let x = collect v toks mismatched_hot all in
      let sorted = sort_stable v toks m in
      let am = All-sort_stable (λ i. place i ≡ 0) m (collected matching_hot all) in
      let ac = collected cold all in
      let ax = collected mismatched_hot all in
      let stands = All-map (joins-Stands matching_hot) m (All-collect matching_hot all) in
      Pairwise-append MayPrecede sorted (c ++ x)
        (within_matching sorted am (sort_stable-Pairwise m stands))
        (Pairwise-append MayPrecede c x (within_group 1 c (omega arith) ac)
          (within_group 2 x (omega arith) ax) (across 1 2 c x (omega arith) ac ax))
        (All-both c x sorted (across 0 1 sorted c (omega arith) am ac)
          (across 0 2 sorted x (omega arith) am ax))

-- Where a token is eligible the order is ranked: matching tokens before cold ones before those that
-- hold another model, and the matching ones by the comparison, so that none is after a later one.
pub acquire_order_ranked :
    (v : View) (toks : List TokenEntry) (start : ℕ)
    → start < length toks
    → any_eligible v toks ≡ true
    → Pairwise (MayPrecede v toks) (acquire_order v toks start).0
acquire_order_ranked v toks start s e =
    subst (λ o. Pairwise (MayPrecede v toks) o.0)
      (sym (acquire_order-ranked_order v toks start s e)) (ranked_order-Pairwise v toks start)
