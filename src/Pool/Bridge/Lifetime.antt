-- ===== src/Pool/Bridge/Lifetime.antt =====
-- The bridge cache over a history of its operations.
use freebuff_proxy_scaleway.Base.{
  ℕ, ◌≡◌, refl, inl, inr, String, Bool, Option, none, some, List, [], ◌∷◌, Option-cases,
}
use freebuff_proxy_scaleway.Base.Eq.{String_eq}
use freebuff_proxy_scaleway.Base.Map.{lookup}
use freebuff_proxy_scaleway.Pool.Bridge.{
  BridgeEntry, Bridge, hit, add_bridge_entry, bridge_maintain, bridge_evict_token,
}
use freebuff_proxy_scaleway.Pool.Bridge.Coherent.{
  IsCoherent, hit-IsCoherent, bridge_maintain-IsCoherent, bridge_evict_token-IsCoherent,
}
use freebuff_proxy_scaleway.Pool.Bridge.Room.{add_bridge_entry-HasRoom}

-- An operation with what the run managers and the sessions of the entries answer to it.
pub data Operation : Type 0 where
  asked : ℕ → String → Operation
  added : (ℕ → Bool) → (ℕ → Bool) → String → BridgeEntry → Operation
  maintained : (ℕ → Bool) → (ℕ → Bool) → ℕ → Operation
  died : (ℕ → Bool) → String → Operation

abbrev bridge_after : Bridge → Option (Bridge × BridgeEntry) → Bridge
bridge_after b none = b
bridge_after b (some (b', e)) = b'

abbrev pub apply_operation : Operation → Bridge → Bridge
apply_operation (asked now key) b = bridge_after b (hit now key b)
apply_operation (added busy scarce key e) b = (add_bridge_entry busy scarce key e b).0
apply_operation (maintained busy scarce now) b = bridge_maintain busy scarce now b
apply_operation (died busy key) b = bridge_evict_token busy key b

abbrev pub apply_operations : List Operation → Bridge → Bridge
apply_operations [] b = b
apply_operations (o ∷ os) b = apply_operations os (apply_operation o b)

apply_operation-IsCoherent :
    (o : Operation) (b : Bridge) → IsCoherent b → IsCoherent (apply_operation o b)
unfolding add_bridge_entry
apply_operation-IsCoherent (asked now key) b c =
    after (hit now key b) (λ b' e q. hit-IsCoherent now key b b' e c q)
  where
    after :
        (o : Option (Bridge × BridgeEntry))
        → ((b' : Bridge) (e : BridgeEntry) → o ≡ some (b', e) → IsCoherent b')
        → IsCoherent (bridge_after b o)
    after none f = c
    after (some (b', e)) f = f b' e refl
apply_operation-IsCoherent (added busy scarce key e) b c =
    elim (Option-cases (lookup key b.entries)) [
      | inl q ↦ (add_bridge_entry-HasRoom busy scarce key e b c q).0.coherent
      | inr (x, q) ↦ cached x q
    ]
  where
    cached :
        (x : BridgeEntry)
        → lookup key b.entries ≡ some x
        → IsCoherent (add_bridge_entry busy scarce key e b).0
    cached x q = rw (add_bridge_entry, q) c
apply_operation-IsCoherent (maintained busy scarce now) b c =
    bridge_maintain-IsCoherent busy scarce now b c
apply_operation-IsCoherent (died busy key) b c = bridge_evict_token-IsCoherent busy key b c

IsCoherent-apply_operations :
    (os : List Operation) (b : Bridge) → IsCoherent b → IsCoherent (apply_operations os b)
IsCoherent-apply_operations [] b c = c
IsCoherent-apply_operations (o ∷ os) b c =
    IsCoherent-apply_operations os (apply_operation o b) (apply_operation-IsCoherent o b c)

-- After any history of hits, insertions, sweeps and evictions of dead tokens that starts from the
-- empty cache, the order lists each cached key exactly once and no other key.
pub apply_operations-IsCoherent :
    (os : List Operation) → IsCoherent (apply_operations os (record { entries = []; order = [] }))
unfolding lookup
apply_operations-IsCoherent os =
    IsCoherent-apply_operations os (record { entries = []; order = [] }) empty
  where
    empty : IsCoherent (record { entries = []; order = [] })
    empty k = refl
