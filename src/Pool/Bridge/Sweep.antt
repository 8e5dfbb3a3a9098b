-- ===== src/Pool/Bridge/Sweep.antt =====
-- Which entries the sweep of `bridgeMaintain` drops.
use freebuff_proxy_scaleway.Base.{
  ℕ, ◌≡◌, refl, sym, ap, ◌∙◌, inl, inr, String, Bool, true, false, Option, none, some, List, [],
  ◌∷◌, if◌then◌else◌, arith, Bool-cases,
}
use freebuff_proxy_scaleway.Base.Eq.{◌==◌, String_eq}
use freebuff_proxy_scaleway.Base.Map.{lookup, lookup-delete, IsDistinct}
use freebuff_proxy_scaleway.Pool.Bridge.{
  BridgeEntry, Bridge, drop_entry, is_stale, sweep, bridge_maintain,
}
use freebuff_proxy_scaleway.Pool.Bridge.Coherent.{IsCoherent, bridge_maintain-IsCoherent}

-- The entry of a key that is left after the sweep: none if the swept one is stale.
abbrev pub survivor :
    (BridgeEntry → Bool) → Option BridgeEntry → Option BridgeEntry → Option BridgeEntry
survivor stale none cached = cached
survivor stale (some e) cached = if stale e then none else cached

lookup-dropped :
    (stale : Bool) (j k : String) (b : Bridge)
    → lookup k (if stale then drop_entry j b else b).entries
      ≡ (if j == k then if stale then none else lookup k b.entries else lookup k b.entries)
unfolding drop_entry
lookup-dropped true j k b = lookup-delete j k b.entries
lookup-dropped false j k b = ground arith

lookup-sweep :
    (busy scarce : ℕ → Bool) (now : ℕ) (more : List (String × BridgeEntry)) (b : Bridge)
    (k : String)
    → IsDistinct more
    → lookup k (sweep busy scarce now more b).entries
      ≡ survivor (is_stale busy scarce now) (lookup k more) (lookup k b.entries)
unfolding sweep lookup drop_entry
lookup-sweep busy scarce now [] b k d = refl
lookup-sweep busy scarce now ((j, e) ∷ more) b k d =
    let b' = if is_stale busy scarce now e then drop_entry j b else b in
    let rest = lookup-sweep busy scarce now more b' k d.1 in
    let left = lookup-dropped (is_stale busy scarce now e) j k b in
    elim (Bool-cases (j == k)) [
      | inl same ↦
          let gone : lookup k more ≡ none =
            ap (λ i. lookup i more) (sym ((String_eq.same_iff j k).0 same)) ∙ d.0 in
          rw (sweep, same) (rest ∙ rw (gone, left, same) refl)
      | inr other ↦ rw (sweep, other) (rest ∙ rw (left, other) refl)
    ]

-- The sweep drops exactly the entries without leases that were unused for more than a day and hold
-- no active scarce session, it leaves every other entry as it is, and the order lists the rest.
bridge_maintain_lem :
    (busy scarce : ℕ → Bool) (now : ℕ) (b : Bridge)
    → IsDistinct b.entries
    → IsCoherent b
    → IsCoherent (bridge_maintain busy scarce now b)
      × ((k : String)
          → lookup k (bridge_maintain busy scarce now b).entries ≡ elim (lookup k b.entries) [
            | none ↦ none
            | some e ↦ if is_stale busy scarce now e then none else some e
          ])
unfolding bridge_maintain
bridge_maintain_lem busy scarce now b d c = (
  bridge_maintain-IsCoherent busy scarce now b c,
  λ k. lookup-sweep busy scarce now b.entries b k d ∙ same k (lookup k b.entries),
)
  where
    same :
        (k : String) (o : Option BridgeEntry)
        → survivor (is_stale busy scarce now) o o
          ≡ elim o [ none ↦ none | some e ↦ if is_stale busy scarce now e then none else some e ]
    same k none = refl
    same k (some e) = refl
