-- ===== src/ReasoningCache/Invariant.antt =====
-- The two indices of internal/reasoningcache/cache.go against the list of entries: no index points
-- to an entry that was evicted, and every operation keeps it so.
use freebuff_proxy_scaleway.Base.{
  ℕ, ◌≤◌, ◌≡◌, ◌≢◌, refl, sym, ap, ◌∙◌, String, true, false, ◌&&◌, none, some, List, [], ◌∷◌,
  if◌then◌else◌, arith, nat_eq_iff, some_inj,
}
use freebuff_proxy_scaleway.Base.Int.{ℤ}
use freebuff_proxy_scaleway.Base.Eq.{◌==◌, String_eq, ℕ_eq}
use freebuff_proxy_scaleway.Base.Map.{
  lookup, insert, delete, lookup-insert, lookup-delete, IsDistinct, delete-IsDistinct,
}
use freebuff_proxy_scaleway.ReasoningCache.{
  Pointer, CacheNode, Cache, new_cache, points_to, drop_key, drop_keys, evict_node, contains,
  put_keys, Index, tool_id, hash, index,
}

-- A pointer that an index holds under `k` is live: its node is in the list and is indexed by `k`.
abbrev pub IsLive : Index → List (ℕ × CacheNode) → String → Pointer → Type 0
IsLive tool_id lru k p =
    (node : CacheNode) × (lookup p.id lru ≡ some node)
    × (node.entry ≡ p)
    × (contains k node.tool_call_ids ≡ true)
IsLive hash lru k p =
    (node : CacheNode) × (lookup p.id lru ≡ some node)
    × (node.entry ≡ p)
    × (node.hash_key ≡ k)
    × ((k == "") ≡ false)

pub record IsValid (c : Cache) : Type 0 where
  pub distinct : IsDistinct c.lru
  pub keyed : (i : ℕ) (node : CacheNode) → lookup i c.lru ≡ some node → node.entry.id ≡ i
  pub agree : (i : ℕ) → lookup i c.nodes ≡ lookup i c.lru
  pub fresh : (i : ℕ) → c.next_id ≤ i → lookup i c.lru ≡ none
  pub live :
      (x : Index) (k : String) (p : Pointer) → lookup k (index x c) ≡ some p → IsLive x c.lru k p

pub lookup-drop_keys :
    (i : ℕ) (ks : List String) (k : String) (m : List (String × Pointer))
    → lookup k (drop_keys i ks m)
      ≡ (if contains k ks && points_to i (lookup k m) then none else lookup k m)
unfolding drop_keys drop_key
lookup-drop_keys i [] k m = refl
lookup-drop_keys i (j ∷ ks) k m =
    ground
      (arith, String_eq.same_iff j k, lookup-delete j k m, lookup-drop_keys i ks k (drop_key i j m))

pub lookup-drop_key :
    (i : ℕ) (j k : String) (m : List (String × Pointer))
    → lookup k (drop_key i j m) ≡ (if j == k && points_to i (lookup k m) then none else lookup k m)
unfolding drop_key
lookup-drop_key i j k m = ground (arith, String_eq.same_iff j k, lookup-delete j k m)

pub lookup-put_keys :
    (p : Pointer) (ks : List String) (k : String) (m : List (String × Pointer))
    → lookup k (put_keys ks p m) ≡ (if contains k ks then some p else lookup k m)
unfolding put_keys
lookup-put_keys p [] k m = refl
lookup-put_keys p (j ∷ ks) k m =
    ground (arith, lookup-insert j k p m, lookup-put_keys p ks k (insert j p m))

pub new_cache-IsValid : (a b : ℤ) → IsValid (new_cache a b)
unfolding new_cache lookup
new_cache-IsValid a b = record {
  distinct = tt;
  keyed = λ i node h. absurd (ground arith);
  agree = λ i. refl;
  fresh = λ i h. refl;
  live = λ x k p h. none_live x k p h;
}
  where
    none_live :
        (x : Index) (k : String) (p : Pointer)
        → lookup k (index x (new_cache a b)) ≡ some p
        → IsLive x [] k p
    none_live tool_id k p h = absurd (ground arith)
    none_live hash k p h = absurd (ground arith)

module _ (i : ℕ) (node : CacheNode) (c : Cache) (v : IsValid c)
    (here : lookup i c.lru ≡ some node) where
  -- A pointer that is still indexed after the eviction is another one.
  other_live :
      (p : Pointer) (n : CacheNode)
      → lookup p.id c.lru ≡ some n
      → p.id ≢ node.entry.id
      → lookup p.id (delete node.entry.id c.lru) ≡ some n
  other_live p n at ne =
      ground (arith, lookup-delete node.entry.id p.id c.lru, nat_eq_iff node.entry.id p.id)

  same_node :
      (p : Pointer) (n : CacheNode) → lookup p.id c.lru ≡ some n → p.id ≡ node.entry.id → n ≡ node
  same_node p n at e = some_inj (sym at ∙ ap (λ j. lookup j c.lru) (e ∙ v.keyed i node here) ∙ here)

  evict_node-IsLive :
      (x : Index) (k : String) (p : Pointer)
      → lookup k (index x (evict_node node c)) ≡ some p
      → IsLive x (evict_node node c).lru k p
  unfolding evict_node
  evict_node-IsLive tool_id k p h =
      let law = lookup-drop_keys node.entry.id node.tool_call_ids k c.by_tool_id in
      let (n, at, same, has) = v.live tool_id k p (ground (arith, law)) in
      let ne : p.id ≢ node.entry.id = λ e.
        let has' = ap (λ m. contains k m.tool_call_ids) (same_node p n at e) in
        ground (arith, law, has, has') in
      (n, other_live p n at ne, same, has)
  evict_node-IsLive hash k p h =
      let law = lookup-drop_key node.entry.id node.hash_key k c.by_hash in
      let (n, at, same, has, full) = v.live hash k p (ground (arith, law)) in
      let ne : p.id ≢ node.entry.id = λ e.
        let has' = ap (λ m. m.hash_key) (same_node p n at e) in
        ground (
          arith,
          law,
          has,
          has',
          full,
          String_eq.same_iff node.hash_key "",
          String_eq.same_iff k "",
          String_eq.same_iff node.hash_key k,
        ) in
      (n, other_live p n at ne, same, has, full)

  pub evict_node-IsValid : IsValid (evict_node node c)
  unfolding evict_node
  evict_node-IsValid = record {
    distinct = delete-IsDistinct node.entry.id c.lru v.distinct;
    keyed = λ j n h. v.keyed j n (ground (arith, lookup-delete node.entry.id j c.lru));
    agree = λ j. ground (
      arith,
      v.agree j,
      lookup-delete node.entry.id j c.lru,
      lookup-delete node.entry.id j c.nodes,
    );
    fresh = λ j h. ground (arith, v.fresh j h, lookup-delete node.entry.id j c.lru);
    live = evict_node-IsLive;
  }
