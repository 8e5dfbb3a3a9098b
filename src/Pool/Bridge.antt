-- ===== src/Pool/Bridge.antt =====
-- The cache of bridge entries in internal/pool/bridge_cache.go. An entry stands for the pointer to
-- its upstream client, session manager and run manager: `id` is its identity. Whether its run
-- manager has leases and whether its session is an active scarce one are arguments of the calls
-- that ask. The FINISH and end-session calls on the entries that a call drops come after the lock
-- is released: the call returns those entries. A probe that fails creates no entry.
pub mod Coherent
pub mod Room
pub mod Sweep
pub mod Lifetime
mod Tests
use freebuff_proxy_scaleway.Base.{
  ℕ, ◌-◌, String, Bool, ◌&&◌, ◌||◌, not, Option, none, some, List, [], ◌∷◌, ◌++◌, ltb, nat_eq,
  if◌then◌else◌, length, zero, suc,
}
use freebuff_proxy_scaleway.Base.Eq.{◌==◌, String_eq}
use freebuff_proxy_scaleway.Base.Map.{lookup, insert, delete}

pub record BridgeEntry : Type 0 where
  pub id : ℕ
  pub last_used : ℕ

pub record Bridge : Type 0 where
  pub entries : List (String × BridgeEntry)
  pub order : List String

abbrev pub max_bridge_entries : ℕ
max_bridge_entries = 32

-- 24 hours in nanoseconds.
abbrev pub bridge_idle_evict : ℕ
bridge_idle_evict = 86_400_000_000_000

pub bridge_touch : String → List String → List String
bridge_touch key [] = key ∷ []
bridge_touch key (k ∷ ks) =
    let rest = bridge_touch key ks in if k == key then ks ++ key ∷ [] else k ∷ rest

pub remove_bridge_order : String → List String → List String
remove_bridge_order key [] = []
remove_bridge_order key (k ∷ ks) =
    let rest = remove_bridge_order key ks in if k == key then ks else k ∷ rest

-- `delete(p.bridge, key)` and `removeBridgeOrder`.
pub drop_entry : String → Bridge → Bridge
unfolding remove_bridge_order
drop_entry key b = record {
  entries = delete key b.entries;
  order = remove_bridge_order key b.order;
}

-- The fast path of `bridgeEntryFor`: a hit becomes the newest entry.
pub hit : ℕ → String → Bridge → Option (Bridge × BridgeEntry)
unfolding bridge_touch
hit now key b = elim (lookup key b.entries) [
  | none ↦ none
  | some e ↦
      let e' : BridgeEntry = record e { last_used = now } in
      some (record { entries = insert key e' b.entries; order = bridge_touch key b.order }, e')
]

-- One scan from the oldest key: a key without an entry leaves the order, and the first entry that
-- is not skipped is the victim.
pub scan :
    (BridgeEntry → Bool)
    → List (String × BridgeEntry)
    → List String
    → List String × Option (String × BridgeEntry)
scan skip entries [] = ([], none)
scan skip entries (k ∷ ks) =
    let rest = scan skip entries ks in
    elim (lookup k entries) [
      | none ↦ rest
      | some e ↦ if skip e then (k ∷ rest.0, rest.1) else (k ∷ ks, some (k, e))
    ]

abbrev pub is_kept : (ℕ → Bool) → BridgeEntry → BridgeEntry → Bool
is_kept busy keep e = nat_eq e.id keep.id || busy e.id

pub take_victim : Bridge → List String × Option (String × BridgeEntry) → Bridge × Option BridgeEntry
unfolding drop_entry
take_victim b (order, none) = (record b { order = order }, none)
take_victim b (order, some (k, e)) = (drop_entry k (record b { order = order }), some e)

-- One round of `bridgeEvictLocked`: the scan that spares scarce sessions, and the fallback.
pub evict_one : (ℕ → Bool) → (ℕ → Bool) → BridgeEntry → Bridge → Bridge × Option BridgeEntry
unfolding scan take_victim
evict_one busy scarce keep b =
    let first = take_victim b (scan (λ e. is_kept busy keep e || scarce e.id) b.entries b.order) in
    let second = take_victim first.0 (scan (is_kept busy keep) first.0.entries first.0.order) in
    elim first.1 [ some e ↦ first | none ↦ second ]

pub evict_rounds : ℕ → (ℕ → Bool) → (ℕ → Bool) → BridgeEntry → Bridge → Bridge × List BridgeEntry
unfolding evict_one
evict_rounds zero busy scarce keep b = (b, [])
evict_rounds (suc n) busy scarce keep b =
    let round = evict_one busy scarce keep b in
    let rest = evict_rounds n busy scarce keep round.0 in
    if not (ltb max_bridge_entries (length b.order))
    then (b, [])
    else elim round.1 [ none ↦ (round.0, []) | some e ↦ (rest.0, e ∷ rest.1) ]

-- `bridgeEvictLocked`: a round that evicts shortens the order.
pub bridge_evict_locked : (ℕ → Bool) → (ℕ → Bool) → BridgeEntry → Bridge → Bridge × List BridgeEntry
unfolding evict_rounds
bridge_evict_locked busy scarce keep b = evict_rounds (length b.order) busy scarce keep b

-- The end of `bridgeEntryFor`: the new entry is stored and the oldest idle ones make room, unless
-- another creator was faster.
pub add_bridge_entry :
    (ℕ → Bool) → (ℕ → Bool) → String → BridgeEntry → Bridge → Bridge × List BridgeEntry
unfolding bridge_evict_locked
add_bridge_entry busy scarce key e b = elim (lookup key b.entries) [
  | some old ↦ (b, [])
  | none ↦
      bridge_evict_locked busy scarce e
        (record { entries = insert key e b.entries; order = b.order ++ key ∷ [] })
]

abbrev pub is_stale : (ℕ → Bool) → (ℕ → Bool) → ℕ → BridgeEntry → Bool
is_stale busy scarce now e =
    not (busy e.id) && ltb bridge_idle_evict (now - e.last_used) && not (scarce e.id)

-- The sweep of `bridgeMaintain` over the entries of the map.
pub sweep : (ℕ → Bool) → (ℕ → Bool) → ℕ → List (String × BridgeEntry) → Bridge → Bridge
unfolding drop_entry
sweep busy scarce now [] b = b
sweep busy scarce now ((k, e) ∷ more) b =
    sweep busy scarce now more (if is_stale busy scarce now e then drop_entry k b else b)

pub bridge_maintain : (ℕ → Bool) → (ℕ → Bool) → ℕ → Bridge → Bridge
unfolding sweep
bridge_maintain busy scarce now b = sweep busy scarce now b.entries b

pub bridge_evict_token : (ℕ → Bool) → String → Bridge → Bridge
unfolding drop_entry
bridge_evict_token busy key b = elim (lookup key b.entries) [
  | none ↦ b
  | some e ↦ if busy e.id then b else drop_entry key b
]
