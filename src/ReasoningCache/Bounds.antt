-- ===== src/ReasoningCache/Bounds.antt =====
-- The bounds in size and in age of internal/reasoningcache/cache.go, and what its look-ups give.
use freebuff_proxy_scaleway.Base.{
  ℕ, ◌-◌, ◌<◌, ◌≤◌, ◌≡◌, refl, ◌∙◌, String, false, ◌&&◌, List, [], ◌∷◌, ltb, if◌then◌else◌, length,
  length-append, arith,
}
use freebuff_proxy_scaleway.Base.Eq.{◌==◌, String_eq, ℕ_eq}
use freebuff_proxy_scaleway.ReasoningCache.{
  Entry, CacheNode, Cache, evict_node, evict_expired, prune, evict_oldest, valid_ids, add_entry,
  hash_key, put,
}
use freebuff_proxy_scaleway.ReasoningCache.Invariant.{IsValid}
use freebuff_proxy_scaleway.ReasoningCache.Lookups.{
  evict_head, HasRoom, evict_oldest-HasRoom, add_entry-IsValid, prune-IsValid, prune-bounds,
}

-- The entries that are not expired.
abbrev pub unexpired : ℕ → ℕ → List (ℕ × CacheNode) → List (ℕ × CacheNode)
unexpired now ttl [] = []
unexpired now ttl ((i, node) ∷ rest) =
    if ltb ttl (now - node.entry.target.created_at)
    then unexpired now ttl rest
    else (i, node) ∷ unexpired now ttl rest

-- Every entry is at least as old as those behind it, and none is younger than `since`.
abbrev pub IsOrdered : ℕ → List (ℕ × CacheNode) → Type 0
IsOrdered since [] = Unit
IsOrdered since ((i, node) ∷ rest) =
    (since ≤ node.entry.target.created_at) × IsOrdered node.entry.target.created_at rest

unexpired_all :
    (now ttl since : ℕ) (l : List (ℕ × CacheNode))
    → IsOrdered since l
    → now - since ≤ ttl
    → unexpired now ttl l ≡ l
unexpired_all now ttl since [] o h = refl
unexpired_all now ttl since ((i, node) ∷ rest) o h =
    ground (arith, unexpired_all now ttl node.entry.target.created_at rest o.1)

evict_node-ttl : (node : CacheNode) (c : Cache) → (evict_node node c).ttl ≡ c.ttl
unfolding evict_node
evict_node-ttl node c = refl

evict_expired-unexpired :
    (now since : ℕ) (l : List (ℕ × CacheNode)) (c : Cache)
    → IsValid c
    → c.lru ≡ l
    → IsOrdered since l
    → (evict_expired now l c).lru ≡ unexpired now c.ttl l
unfolding evict_expired
evict_expired-unexpired now since [] c v e o = e
evict_expired-unexpired now since ((i, node) ∷ rest) c v e o =
    let (v', e') = evict_head i node rest c v e in
    let t = node.entry.target.created_at in
    let ih = evict_expired-unexpired now t rest (evict_node node c) v' e' o.1 in
    let kept = unexpired_all now c.ttl t rest o.1 in
    ground (arith, ih, evict_node-ttl node c, kept, e)

-- On entries in the order of their creation, stopping at the first one that is not expired loses
-- nothing: `Prune` removes exactly the expired entries, and the indices stay live.
prune-unexpired :
    (now : ℕ) (c : Cache)
    → IsValid c
    → 0 < c.ttl
    → IsOrdered 0 c.lru
    → ((prune now c).lru ≡ unexpired now c.ttl c.lru) × IsValid (prune now c)
unfolding prune
prune-unexpired now c v pos o =
    (ground (arith, evict_expired-unexpired now 0 c.lru c v refl o), prune-IsValid now c v)

module _ (sum_hex : String → String) where
  pub put_stored :
      (ids : List String) (content calls reasoning signature model : String) (now : ℕ) (c : Cache)
      → 0 < c.max_entries
      → IsValid c
      → (reasoning == "" && signature == "") ≡ false
      → (room : Cache) × HasRoom c room
        × (put sum_hex ids content calls reasoning signature model now c
            ≡ add_entry
                (record {
                  reasoning_content = reasoning;
                  signature = signature;
                  model = model;
                  created_at = now;
                })
                (valid_ids [] ids)
                (hash_key sum_hex content calls)
                room)
  unfolding put
  put_stored ids content calls reasoning signature model now c pos v e =
      let fresh = prune now c in
      let (max, ttl) = prune-bounds now c in
      let (v', room, max', ttl') =
        evict_oldest-HasRoom (length fresh.lru) fresh (omega arith) (omega arith)
          (prune-IsValid now c v) in
      (
        evict_oldest (length fresh.lru) fresh,
        (v', omega arith, max' ∙ max, ttl' ∙ ttl),
        rw (e, put),
      )

  -- A `Put` that stores something keeps the indices live, and never leaves more entries than the
  -- capacity, whatever was there before.
  pub put_bounded :
      (ids : List String) (content calls reasoning signature model : String) (now : ℕ) (c : Cache)
      → 0 < c.max_entries
      → IsValid c
      → (reasoning == "" && signature == "") ≡ false
      → let c' = put sum_hex ids content calls reasoning signature model now c in
        IsValid c' × (length c'.lru ≤ c.max_entries) × (c'.max_entries ≡ c.max_entries)
  unfolding add_entry
  put_bounded ids content calls reasoning signature model now c pos v e =
      let (room, (v', free, max, ttl), stored) =
        put_stored ids content calls reasoning signature model now c pos v e in
      let entry : Entry = record {
        reasoning_content = reasoning;
        signature = signature;
        model = model;
        created_at = now;
      } in
      rw stored (
        add_entry-IsValid entry (valid_ids [] ids) (hash_key sum_hex content calls) room v',
        omega (
          arith,
          length-append room.lru (
              (
                room.next_id,
                record {
                  entry = record { id = room.next_id; target = entry };
                  tool_call_ids = valid_ids [] ids;
                  hash_key = hash_key sum_hex content calls;
                },
              )
              ∷ []),
        ),
        max,
      )
