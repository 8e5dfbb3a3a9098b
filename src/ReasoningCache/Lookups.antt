-- ===== src/ReasoningCache/Lookups.antt =====
-- Every operation of internal/reasoningcache/cache.go keeps its indices live, and what a look-up
-- finds after a `Put`.
use freebuff_proxy_scaleway.Base.{
  ℕ, zero, suc, ◌<◌, ◌≤◌, ◌≡◌, refl, ap, ◌∙◌, ◌⊎◌, inl, inr, String, ◌&&◌, not, some, List, [], ◌∷◌,
  ◌++◌, ltb, leb, if◌then◌else◌, length, arith, Bool-cases, Option-cases, nat_eq_iff,
}
use mathlib.Core.Path.{subst}
use freebuff_proxy_scaleway.Base.Eq.{◌==◌, String_eq, ℕ_eq}
use freebuff_proxy_scaleway.Base.Map.{
  lookup, lookup-insert, lookup-append, IsDistinct, append-IsDistinct, lookup-head, delete-head,
}
use freebuff_proxy_scaleway.ReasoningCache.{
  Entry, Pointer, CacheNode, Cache, evict_node, is_expired, evict_expired, prune, evict_oldest,
  contains, add_entry, Index, tool_id, hash, index, evict_stale, put,
}
use freebuff_proxy_scaleway.ReasoningCache.Invariant.{
  IsLive, IsValid, lookup-put_keys, evict_node-IsValid,
}

pub evict_head :
    (i : ℕ) (node : CacheNode) (rest : List (ℕ × CacheNode)) (c : Cache)
    → IsValid c
    → c.lru ≡ (i, node) ∷ rest
    → IsValid (evict_node node c) × ((evict_node node c).lru ≡ rest)
unfolding evict_node
evict_head i node rest c v e =
    let here : lookup i c.lru ≡ some node = rw e (lookup-head i node rest) in
    let key = v.keyed i node here in
    let d : IsDistinct ((i, node) ∷ rest) = subst IsDistinct e v.distinct in
    (evict_node-IsValid i node c v here, rw (key, e) (delete-head i node rest d.0))

pub evict_expired-IsValid :
    (now : ℕ) (l : List (ℕ × CacheNode)) (c : Cache)
    → IsValid c
    → c.lru ≡ l
    → IsValid (evict_expired now l c)
unfolding evict_expired
evict_expired-IsValid now [] c v e = v
evict_expired-IsValid now ((i, node) ∷ rest) c v e =
    let (v', e') = evict_head i node rest c v e in
    let ih = evict_expired-IsValid now rest (evict_node node c) v' e' in
    elim (Bool-cases (is_expired now c.ttl node.entry.target)) [
      | inl old ↦ rw (old, evict_expired) ih
      | inr young ↦ rw (young, evict_expired) v
    ]

pub prune-IsValid : (now : ℕ) (c : Cache) → IsValid c → IsValid (prune now c)
unfolding prune
prune-IsValid now c v = elim (Bool-cases (leb c.ttl 0)) [
  | inl e ↦ rw (e, prune) v
  | inr e ↦ rw (e, prune) (evict_expired-IsValid now c.lru c v refl)
]

pub evict_expired-bounds :
    (now : ℕ) (l : List (ℕ × CacheNode)) (c : Cache)
    → ((evict_expired now l c).max_entries ≡ c.max_entries) × ((evict_expired now l c).ttl ≡ c.ttl)
unfolding evict_expired evict_node
evict_expired-bounds now [] c = (refl, refl)
evict_expired-bounds now ((i, node) ∷ rest) c =
    ground (arith, evict_expired-bounds now rest (evict_node node c))

pub prune-bounds :
    (now : ℕ) (c : Cache)
    → ((prune now c).max_entries ≡ c.max_entries) × ((prune now c).ttl ≡ c.ttl)
unfolding prune
prune-bounds now c = ground (arith, evict_expired-bounds now c.lru c)

pub live_node :
    (x : Index) (lru : List (ℕ × CacheNode)) (k : String) (p : Pointer)
    → IsLive x lru k p
    → (node : CacheNode) × (lookup p.id lru ≡ some node) × (node.entry ≡ p)
live_node tool_id lru k p (n, at, same, has) = (n, at, same)
live_node hash lru k p (n, at, same, has, full) = (n, at, same)

oldest_cases :
    (l : List (ℕ × CacheNode))
    → (l ≡ [])
      ⊎ ((i : ℕ) × (node : CacheNode) × (rest : List (ℕ × CacheNode)) × (l ≡ (i, node) ∷ rest))
oldest_cases [] = inl refl
oldest_cases ((i, node) ∷ rest) = inr (i, node, rest, refl)

evict_oldest_empty : (fuel : ℕ) (c : Cache) → c.lru ≡ [] → evict_oldest (suc fuel) c ≡ c
unfolding evict_oldest
evict_oldest_empty fuel c e = ground arith

evict_oldest_step :
    (fuel : ℕ) (c : Cache) (i : ℕ) (node : CacheNode) (rest : List (ℕ × CacheNode))
    → c.lru ≡ (i, node) ∷ rest
    → evict_oldest (suc fuel) c
      ≡ (if leb c.max_entries (length c.lru) then evict_oldest fuel (evict_node node c) else c)
unfolding evict_oldest
evict_oldest_step fuel c i node rest e = ground arith

evict_node-bounds :
    (node : CacheNode) (c : Cache)
    → ((evict_node node c).max_entries ≡ c.max_entries) × ((evict_node node c).ttl ≡ c.ttl)
unfolding evict_node
evict_node-bounds node c = (refl, refl)

-- What the loop leaves: a valid cache with room for one more entry.
abbrev pub HasRoom : Cache → Cache → Type 0
HasRoom c c' =
    IsValid c'
    × (length c'.lru < c.max_entries)
    × (c'.max_entries ≡ c.max_entries)
    × (c'.ttl ≡ c.ttl)

-- With as much fuel as there are entries the loop ends by its own test, below the capacity.
pub evict_oldest-HasRoom :
    (fuel : ℕ) (c : Cache)
    → length c.lru ≤ fuel
    → 0 < c.max_entries
    → IsValid c
    → HasRoom c (evict_oldest fuel c)
unfolding evict_oldest
evict_oldest-HasRoom zero c fits pos v = (v, omega arith, refl, refl)
evict_oldest-HasRoom (suc fuel) c fits pos v = elim (oldest_cases c.lru) [
  | inl e ↦
      let len : length c.lru ≡ 0 = ap length e in
      rw (evict_oldest_empty fuel c e) (v, omega arith, refl, refl)
  | inr (i, node, rest, e) ↦
      let (v', e') = evict_head i node rest c v e in
      let len : length c.lru ≡ suc (length rest) = ap length e in
      let len' : length (evict_node node c).lru ≡ length rest = ap length e' in
      let (max', next') = evict_node-bounds node c in
      let (v₂, room, max₂, next₂) =
        evict_oldest-HasRoom fuel (evict_node node c) (omega arith) (omega arith) v' in
      rw (evict_oldest_step fuel c i node rest e)
        (elim (Bool-cases (leb c.max_entries (length c.lru))) [
          | inl full ↦ rw full (v₂, omega arith, max₂ ∙ max', next₂ ∙ next')
          | inr free ↦ rw free (v, ground arith, refl, refl)
        ])
]

module _ (entry : Entry) (ids : List String) (key : String) (c : Cache) (v : IsValid c) where
  abbrev added : CacheNode
  added = record {
    entry = record { id = c.next_id; target = entry };
    tool_call_ids = ids;
    hash_key = key;
  }

  lookup-added :
      (j : ℕ)
      → lookup j (c.lru ++ (c.next_id, added) ∷ [])
        ≡ (if c.next_id == j then some added else lookup j c.lru)
  unfolding lookup
  lookup-added j =
      let gone = v.fresh c.next_id (omega arith) in
      ground (
        arith,
        lookup-append j c.lru ((c.next_id, added) ∷ []),
        nat_eq_iff c.next_id j,
        gone,
        ap (λ m. lookup m c.lru) {x = c.next_id} {y = j},
      )

  new_at :
      (p : Pointer) → added.entry ≡ p → lookup p.id (c.lru ++ (c.next_id, added) ∷ []) ≡ some added
  new_at p e =
      let at : c.next_id ≡ p.id = ap (λ q. q.id) e in
      ground (arith, lookup-added p.id, nat_eq_iff c.next_id p.id)

  old_at :
      (i : ℕ) (n : CacheNode)
      → lookup i c.lru ≡ some n
      → lookup i (c.lru ++ (c.next_id, added) ∷ []) ≡ some n
  old_at i n at =
      let known = v.fresh i in ground (arith, lookup-added i, nat_eq_iff c.next_id i, known)

  add_entry-IsLive :
      (x : Index) (k : String) (p : Pointer)
      → lookup k (index x (add_entry entry ids key c)) ≡ some p
      → IsLive x (add_entry entry ids key c).lru k p
  unfolding add_entry
  add_entry-IsLive tool_id k p h =
      let law = lookup-put_keys added.entry ids k c.by_tool_id in
      elim (Bool-cases (contains k ids)) [
        | inl new ↦ let e : added.entry ≡ p = ground (arith, law) in (added, new_at p e, e, new)
        | inr old ↦
            let (n, at, same, has) = v.live tool_id k p (ground (arith, law)) in
            (n, old_at p.id n at, same, has)
      ]
  add_entry-IsLive hash k p h =
      let law = lookup-insert key k added.entry c.by_hash in
      elim (Bool-cases (key == k && not (key == ""))) [
        | inl new ↦
            let e : added.entry ≡ p = ground (arith, law) in
            (
              added,
              new_at p e,
              e,
              ground (arith, String_eq.same_iff key k),
              ground (arith, String_eq.same_iff key k),
            )
        | inr old ↦
            let (n, at, same, has, full) = v.live hash k p (ground (arith, law)) in
            (n, old_at p.id n at, same, has, full)
      ]

  pub add_entry-IsValid : IsValid (add_entry entry ids key c)
  unfolding add_entry
  add_entry-IsValid = record {
    distinct = append-IsDistinct c.next_id added c.lru v.distinct (v.fresh c.next_id (omega arith));
    keyed = λ j n h. ground (arith, lookup-added j, nat_eq_iff c.next_id j, v.keyed j n);
    agree = λ j. ground (arith, lookup-added j, v.agree j, lookup-insert c.next_id j added c.nodes);
    fresh = λ j h. ground (arith, lookup-added j, v.fresh j);
    live = add_entry-IsLive;
  }

module _ (sum_hex : String → String) where
  -- `Put` leaves the indices live.
  pub put-IsValid :
      (ids : List String) (content calls reasoning signature model : String) (now : ℕ) (c : Cache)
      → 0 < c.max_entries
      → IsValid c
      → IsValid (put sum_hex ids content calls reasoning signature model now c)
  unfolding put
  put-IsValid ids content calls reasoning signature model now c pos v =
      let fresh = prune now c in
      let room =
        evict_oldest-HasRoom (length fresh.lru) fresh (omega arith)
          (omega (arith, prune-bounds now c)) (prune-IsValid now c v) in
      elim (Bool-cases (reasoning == "" && signature == "")) [
        | inl e ↦ rw (e, put) v
        | inr e ↦ rw (e, put) (add_entry-IsValid _ _ _ _ room.0)
      ]

pub evict_stale-IsValid :
    (x : Index) (k : String) (now : ℕ) (c : Cache) → IsValid c → IsValid (evict_stale x k now c)
unfolding evict_stale
evict_stale-IsValid x k now c v = elim (Option-cases (lookup k (index x c))) [
  | inl e ↦ rw (e, evict_stale) v
  | inr (p, e) ↦
      let (n, at, same) = live_node x c.lru k p (v.live x k p e) in
      let known : lookup p.id c.nodes ≡ some n = v.agree p.id ∙ at in
      rw (e, evict_stale)
        (rw known (elim (Bool-cases (ltb 0 c.ttl && is_expired now c.ttl p.target)) [
          | inl old ↦ rw old (evict_node-IsValid p.id n c v at)
          | inr young ↦ rw young v
        ]))
]
