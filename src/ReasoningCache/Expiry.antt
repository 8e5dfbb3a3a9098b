-- ===== src/ReasoningCache/Expiry.antt =====
-- What a look-up in internal/reasoningcache/cache.go gives and evicts.
use freebuff_proxy_scaleway.Base.{
  ℕ, ◌-◌, ◌<◌, ◌≤◌, ◌≡◌, ◌≢◌, refl, sym, ap, ◌∙◌, inl, inr, String, true, ◌&&◌, none, some, ltb,
  arith, Bool-cases, Option-cases, nat_eq_iff, some_inj,
}
use freebuff_proxy_scaleway.Base.Eq.{String_eq, ℕ_eq}
use freebuff_proxy_scaleway.Base.Map.{lookup, lookup-delete}
use freebuff_proxy_scaleway.ReasoningCache.{
  Pointer, CacheNode, Cache, is_expired, evict_node, evict_stale, Index, tool_id, hash, index,
  contains, get_entry,
}
use freebuff_proxy_scaleway.ReasoningCache.Invariant.{
  IsLive, IsValid, lookup-drop_keys, lookup-drop_key, evict_node-IsValid,
}
use freebuff_proxy_scaleway.ReasoningCache.Lookups.{live_node}

-- The cache without one entry: neither the list nor the key has it, and every other entry stays.
pub record IsEvicted (x : Index) (k : String) (p : Pointer) (c c' : Cache) : Type 0 where
  pub valid : IsValid c'
  pub unlisted : lookup p.id c'.lru ≡ none
  pub unindexed : lookup k (index x c') ≡ none
  pub others : (i : ℕ) → i ≢ p.id → lookup i c'.lru ≡ lookup i c.lru

-- No entry under the key, or the live one that is young enough, or an expired one that is evicted.
pub data LookUp (x : Index) (k : String) (now later : ℕ) (c : Cache) : Type 0 where
  missing :
      lookup k (index x c) ≡ none → get_entry x k now later c ≡ (c, none) → LookUp x k now later c
  hit :
      (p : Pointer)
      → lookup k (index x c) ≡ some p
      → IsLive x c.lru k p
      → now - p.target.created_at ≤ c.ttl
      → get_entry x k now later c ≡ (c, some p.target)
      → LookUp x k now later c
  expired :
      (p : Pointer)
      → lookup k (index x c) ≡ some p
      → c.ttl < now - p.target.created_at
      → (get_entry x k now later c).1 ≡ none
      → IsEvicted x k p c (get_entry x k now later c).0
      → LookUp x k now later c

module _ (k : String) (p : Pointer) (n : CacheNode) (c : Cache) (v : IsValid c) where
  unindexed_after :
      (x : Index)
      → lookup k (index x c) ≡ some p
      → lookup p.id c.lru ≡ some n
      → lookup k (index x (evict_node n c)) ≡ none
  unfolding evict_node
  unindexed_after tool_id e at =
      let (n', at', same, has) = v.live tool_id k p e in
      let node : n' ≡ n = some_inj (sym at' ∙ at) in
      let has' = sym (ap (λ m. contains k m.tool_call_ids) node) ∙ has in
      ground (
        arith,
        e,
        has',
        v.keyed p.id n at,
        lookup-drop_keys n.entry.id n.tool_call_ids k c.by_tool_id,
      )
  unindexed_after hash e at =
      let (n', at', same, has, full) = v.live hash k p e in
      let node : n' ≡ n = some_inj (sym at' ∙ at) in
      let has' = sym (ap (λ m. m.hash_key) node) ∙ has in
      ground (
        arith,
        e,
        has',
        full,
        v.keyed p.id n at,
        String_eq.same_iff n.hash_key "",
        String_eq.same_iff k "",
        String_eq.same_iff n.hash_key k,
        lookup-drop_key n.entry.id n.hash_key k c.by_hash,
      )

  evict_node-IsEvicted :
      (x : Index)
      → lookup k (index x c) ≡ some p
      → lookup p.id c.lru ≡ some n
      → IsEvicted x k p c (evict_node n c)
  unfolding evict_node
  evict_node-IsEvicted x e at = record {
    valid = evict_node-IsValid p.id n c v at;
    unlisted =
        ground (
          arith,
          v.keyed p.id n at,
          lookup-delete n.entry.id p.id c.lru,
          nat_eq_iff n.entry.id p.id,
        );
    unindexed = unindexed_after x e at;
    others = λ i ne.
        ground
          (arith, v.keyed p.id n at, lookup-delete n.entry.id i c.lru, nat_eq_iff n.entry.id i);
  }

evict_stale-IsEvicted :
    (x : Index) (k : String) (p : Pointer) (later : ℕ) (c : Cache)
    → IsValid c
    → lookup k (index x c) ≡ some p
    → (ltb 0 c.ttl && is_expired later c.ttl p.target) ≡ true
    → IsEvicted x k p c (evict_stale x k later c)
unfolding evict_stale
evict_stale-IsEvicted x k p later c v e old =
    let (n, at, same) = live_node x c.lru k p (v.live x k p e) in
    let known : lookup p.id c.nodes ≡ some n = v.agree p.id ∙ at in
    rw (e, evict_stale) (rw known (rw old (evict_node-IsEvicted k p n c v x e at)))

-- A look-up gives the live entry of its key if that is no older than the time to live, and leaves the
-- cache as it was. An older one it evicts: the entry leaves the list and the key, every other entry
-- stays, and the cache stays valid. With no entry under the key nothing changes. The second reading
-- of the clock is not before the first, and the time to live is positive.
pub get_entry-LookUp :
    (x : Index) (k : String) (now later : ℕ) (c : Cache)
    → 0 < c.ttl
    → now ≤ later
    → IsValid c
    → LookUp x k now later c
unfolding get_entry is_expired
get_entry-LookUp x k now later c pos order v = elim (Option-cases (lookup k (index x c))) [
  | inl e ↦ missing e (rw (e, get_entry) refl)
  | inr (p, e) ↦ elim (Bool-cases (ltb 0 c.ttl && is_expired now c.ttl p.target)) [
    | inl old ↦
        let older : (ltb 0 c.ttl && is_expired later c.ttl p.target) ≡ true = ground arith in
        expired p e (ground arith) (rw (e, get_entry) (rw old refl))
          (rw (e, get_entry) (rw old (evict_stale-IsEvicted x k p later c v e older)))
    | inr young ↦ hit p e (v.live x k p e) (ground arith) (rw (e, get_entry) (rw young refl))
  ]
]
