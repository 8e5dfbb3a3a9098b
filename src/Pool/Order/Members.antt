-- ===== src/Pool/Order/Members.antt =====
-- Which tokens `acquireOrder` of internal/pool/acquire.go gives, and how often.
use freebuff_proxy_scaleway.Base.{
  ℕ, zero, suc, ◌+◌, ◌<◌, ◌≡◌, refl, sym, ap, ◌∙◌, ◌⊎◌, inl, inr, Bool, true, false, ◌&&◌, ◌||◌,
  none, some, List, [], ◌∷◌, ◌++◌, ltb, nat_eq, nat_eq_iff, if◌then◌else◌, length, get_elem?, arith,
  some_inj, Bool-cases, Option-cases,
}
use freebuff_proxy_scaleway.Base.Lists.{get_elem?-lt}
use freebuff_proxy_scaleway.Pool.Quota.{quota_remaining, quota_limit_error}
use freebuff_proxy_scaleway.Pool.Order.{
  TokenEntry, View, Group, matching_hot, cold, mismatched_hot, eligible, group, joins, collect,
  insert_sorted, sort_stable, rotation, ranked_order, acquire_order, occurs, quota_limited_from,
  same_group,
}
use freebuff_proxy_scaleway.Base.Counts.{occurrences, occurrences-append}
use freebuff_proxy_scaleway.Pool.Order.Rotation.{occurrences-rotation}

module _ (v : View) (toks : List TokenEntry) where
  abbrev pub is_eligible : ℕ → Bool
  is_eligible i = elim (get_elem? toks i) [ none ↦ false | some tok ↦ eligible v tok ]

  occurrences-insert_sorted :
      (i a : ℕ) (xs : List ℕ)
      → occurrences i (insert_sorted v toks a xs) ≡ (if nat_eq a i then 1 else 0) + occurrences i xs
  unfolding insert_sorted
  occurrences-insert_sorted i a [] = refl
  occurrences-insert_sorted i a (b ∷ bs) = ground (arith, occurrences-insert_sorted i a bs)

  pub occurrences-sort_stable :
      (i : ℕ) (xs : List ℕ) → occurrences i (sort_stable v toks xs) ≡ occurrences i xs
  unfolding sort_stable
  occurrences-sort_stable i [] = refl
  occurrences-sort_stable i (a ∷ xs) =
      occurrences-insert_sorted i a (sort_stable v toks xs)
      ∙ ap (λ k. (if nat_eq a i then 1 else 0) + k) (occurrences-sort_stable i xs)

  occurrences-collect :
      (g : Group) (i : ℕ) (xs : List ℕ)
      → occurrences i (collect v toks g xs) ≡ (if joins v toks g i then occurrences i xs else 0)
  unfolding collect
  occurrences-collect g i [] = ground arith
  occurrences-collect g i (x ∷ xs) =
      let same : nat_eq x i ≡ true → joins v toks g x ≡ joins v toks g i =
        λ e. ap (joins v toks g) ((nat_eq_iff x i).0 e) in
      ground (arith, occurrences-collect g i xs, same)

  one_group :
      (e : Bool) (g : Group) (c : ℕ)
      → (if e && same_group g matching_hot then c else 0)
          + ((if e && same_group g cold then c else 0)
              + (if e && same_group g mismatched_hot then c else 0))
        ≡ (if e then c else 0)
  one_group false g c = refl
  one_group true matching_hot c = omega arith
  one_group true cold c = omega arith
  one_group true mismatched_hot c = omega arith

  -- A token is in one group if it is eligible, and in none otherwise.
  joins_once :
      (i : ℕ) (c : ℕ)
      → (if joins v toks matching_hot i then c else 0)
          + ((if joins v toks cold i then c else 0)
              + (if joins v toks mismatched_hot i then c else 0))
        ≡ (if is_eligible i then c else 0)
  joins_once i c = elim (Option-cases (get_elem? toks i)) [
    | inl e ↦ ground (arith, e)
    | inr (tok, e) ↦ ground (arith, e, one_group (eligible v tok) (group v i tok) c)
  ]

  is_eligible-lt : (i : ℕ) → is_eligible i ≡ true → i < length toks
  is_eligible-lt i h = elim (Option-cases (get_elem? toks i)) [
    | inl e ↦ ground (arith, e)
    | inr (tok, e) ↦ get_elem?-lt toks i tok e
  ]

  pub occurrences-ranked_order :
      (start i : ℕ)
      → start < length toks
      → occurrences i (ranked_order v toks start) ≡ (if is_eligible i then 1 else 0)
  unfolding ranked_order
  occurrences-ranked_order start i s =
      let n = length toks in
      let all = rotation n start n 0 in
      let m = collect v toks matching_hot all in
      let c = collect v toks cold all in
      let x = collect v toks mismatched_hot all in
      let total = occurrences-rotation n start i s in
      let parts = joins_once i (occurrences i all) in
      let sum : occurrences i (sort_stable v toks m ++ (c ++ x))
          ≡ (if is_eligible i then occurrences i all else 0) =
        ground (
          arith,
          occurrences-append i (sort_stable v toks m) (c ++ x),
          occurrences-append i c x,
          occurrences-sort_stable i m,
          occurrences-collect matching_hot i all,
          occurrences-collect cold i all,
          occurrences-collect mismatched_hot i all,
          parts,
        ) in
      sum ∙ ground (arith, total, is_eligible-lt i)

abbrev pub any_eligible : View → List TokenEntry → Bool
any_eligible v [] = false
any_eligible v (tok ∷ toks) = eligible v tok || any_eligible v toks

any_eligible-witness :
    (v : View) (toks : List TokenEntry)
    → any_eligible v toks ≡ true
    → (i : ℕ) × (is_eligible v toks i ≡ true)
any_eligible-witness v [] h = cc
any_eligible-witness v (tok ∷ toks) h = elim (Bool-cases (eligible v tok)) [
  | inl e ↦ (0, e)
  | inr e ↦ let (i, k) = any_eligible-witness v toks (ground arith) in (suc i, k)
]

none_eligible :
    (v : View) (toks : List TokenEntry) (i : ℕ)
    → any_eligible v toks ≡ false
    → is_eligible v toks i ≡ false
none_eligible v [] i h = refl
none_eligible v (tok ∷ toks) zero h = ground arith
none_eligible v (tok ∷ toks) (suc i) h = none_eligible v toks i (ground arith)

-- A list in which no index occurs is empty.
empty_of_none : (xs : List ℕ) → ((i : ℕ) → occurrences i xs ≡ 0) → xs ≡ []
empty_of_none [] h = refl
empty_of_none (x ∷ xs) h = absurd (ground (arith, h x, nat_eq_iff x x))

nonempty : (k : ℕ) (xs : List ℕ) → occurrences k xs ≡ 1 → nat_eq (length xs) 0 ≡ false
nonempty k [] h = absurd (omega (arith, h))
nonempty k (x ∷ xs) h = ground arith

pub acquire_order-ranked_order :
    (v : View) (toks : List TokenEntry) (start : ℕ)
    → start < length toks
    → any_eligible v toks ≡ true
    → acquire_order v toks start
      ≡ (ranked_order v toks start, quota_limited_from v (ranked_order v toks start) 0 toks)
unfolding acquire_order
acquire_order-ranked_order v toks start s e =
    let (k, there) = any_eligible-witness v toks e in
    let some_order =
      nonempty k (ranked_order v toks start)
        (occurrences-ranked_order v toks start k s ∙ rw there refl) in
    rw (acquire_order, some_order) refl

-- Every eligible token stands in the order exactly once and no other does; if none is eligible
-- every token stands there exactly once, so that each still gives its reason.
pub acquire_order_once :
    (v : View) (toks : List TokenEntry) (start i : ℕ)
    → start < length toks
    → occurrences i (acquire_order v toks start).0 ≡ (
        if any_eligible v toks
        then (if is_eligible v toks i then 1 else 0)
        else (if ltb i (length toks) then 1 else 0))
unfolding acquire_order
acquire_order_once v toks start i s =
    let count = λ (j : ℕ). occurrences-ranked_order v toks start j s in
    elim (Bool-cases (any_eligible v toks)) [
      | inl e ↦
          ap (λ o. occurrences i o.0) (acquire_order-ranked_order v toks start s e) ∙ rw e (count i)
      | inr e ↦
          let empty =
            empty_of_none (ranked_order v toks start)
              (λ j. count j ∙ rw (none_eligible v toks j e) refl) in
          rw (e, acquire_order, empty) (occurrences-rotation (length toks) start i s)
    ]

not_occurs : (i : ℕ) (xs : List ℕ) → occurs i xs ≡ false → occurrences i xs ≡ 0
not_occurs i [] h = refl
not_occurs i (x ∷ xs) h = ground (arith, not_occurs i xs)

limited_from-capped :
    (v : View) (order : List ℕ) (toks : List TokenEntry) (from i j : ℕ) (tok : TokenEntry)
    → get_elem? toks i ≡ some tok
    → j ≡ from + i
    → occurs j order ≡ false
    → (quota_remaining v.now tok.session v.model).capped ≡ true
    → (k : ℕ) × (get_elem? (quota_limited_from v order from toks) k
        ≡ some (quota_limit_error v.now tok.session v.model))
unfolding quota_limited_from
limited_from-capped v order [] from i j tok e ej h c = cc
limited_from-capped v order (t ∷ toks) from zero j tok e ej h c =
    let same : t ≡ tok = some_inj e in
    let out : occurs from order ≡ false = ap (λ x. occurs x order) (omega (arith, ej)) ∙ h in
    let capped : (quota_remaining v.now t.session v.model).capped ≡ true =
      ap (λ x. (quota_remaining v.now x.session v.model).capped) same ∙ c in
    (
      0,
      rw (quota_limited_from, out, capped)
          (ap (λ x. some (quota_limit_error v.now x.session v.model)) same),
    )
limited_from-capped v order (t ∷ toks) from (suc i) j tok e ej h c =
    let (k, there) =
      limited_from-capped v order toks (from + 1) i j tok e (omega (arith, ej)) h c in
    elim (Bool-cases (occurs from order)) [
      | inl standing ↦ (k, rw (quota_limited_from, standing) there)
      | inr out ↦ elim (Bool-cases (quota_remaining v.now t.session v.model).capped) [
        | inl capped ↦ (suc k, rw (quota_limited_from, out, capped) there)
        | inr free ↦ (k, rw (quota_limited_from, out, free) there)
      ]
    ]

-- No unlocked token is passed over in silence: it stands in the order, or its quota refusal is
-- handed on beside it.
unlocked_accounted :
    (v : View) (toks : List TokenEntry) (start i : ℕ) (tok : TokenEntry)
    → start < length toks
    → get_elem? toks i ≡ some tok
    → tok.locked ≡ false
    → let (order, limited) = acquire_order v toks start in
      (occurs i order ≡ true)
      ⊎ ((k : ℕ) × (get_elem? limited k ≡ some (quota_limit_error v.now tok.session v.model)))
unfolding eligible
unlocked_accounted v toks start i tok s e unlocked =
    elim (Bool-cases (occurs i (acquire_order v toks start).0)) [
      | inl standing ↦ inl standing
      | inr out ↦
          let once = acquire_order_once v toks start i s in
          let never = not_occurs i (acquire_order v toks start).0 out in
          let there = get_elem?-lt toks i tok e in
          elim (Bool-cases (any_eligible v toks)) [
            | inl some_there ↦
                let plain = acquire_order-ranked_order v toks start s some_there in
                let capped : (quota_remaining v.now tok.session v.model).capped ≡ true =
                  ground (arith, once, never, some_there, e, unlocked) in
                let (k, found) =
                  limited_from-capped v (ranked_order v toks start) toks 0 i i tok e (omega arith)
                    (ap (λ o. occurs i o.0) (sym plain) ∙ out) capped in
                inr (k, ap (λ o. get_elem? o.1 k) plain ∙ found)
            | inr none_there ↦ absurd (ground (arith, once, never, none_there, there))
          ]
    ]
