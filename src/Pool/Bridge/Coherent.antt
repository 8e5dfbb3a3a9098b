-- ===== src/Pool/Bridge/Coherent.antt =====
-- The order of the bridge cache lists exactly the keys of its map.
use freebuff_proxy_scaleway.Base.{
  ℕ, ◌-◌, ◌≤◌, ◌≡◌, refl, sym, ap, ◌∙◌, inl, inr, String, Bool, true, false, Option, none, some,
  List, [], ◌∷◌, if◌then◌else◌, arith, length, Bool-cases, Option-cases, some_inj, suc,
}
use freebuff_proxy_scaleway.Base.Counts.{times, times-append}
use freebuff_proxy_scaleway.Base.Eq.{◌==◌, String_eq}
use freebuff_proxy_scaleway.Base.Map.{lookup, insert, lookup-insert, lookup-delete}
use freebuff_proxy_scaleway.Pool.Bridge.{
  BridgeEntry, Bridge, bridge_touch, remove_bridge_order, drop_entry, hit, is_stale, sweep,
  bridge_maintain, bridge_evict_token,
}

abbrev pub presence : Option BridgeEntry → ℕ
presence none = 0
presence (some e) = 1

-- Every key with an entry stands in the order once, and no other key does.
abbrev pub IsCoherent : Bridge → Type 0
IsCoherent b = (k : String) → times k b.order ≡ presence (lookup k b.entries)

times-bridge_touch :
    (key k : String) (ks : List String)
    → 1 ≤ times key ks
    → times k (bridge_touch key ks) ≡ times k ks
unfolding bridge_touch
times-bridge_touch key k [] h = absurd (omega (arith, h))
times-bridge_touch key k (x ∷ xs) h = elim (Bool-cases (x == key)) [
  | inl e ↦
      rw (bridge_touch, e) (ground (arith, times-append k xs (key ∷ []), String_eq.same_iff x key))
  | inr e ↦
      rw (bridge_touch, e) (ground (arith, times-bridge_touch key k xs (ground (arith, h, e))))
]

times-remove_bridge_order :
    (key k : String) (ks : List String)
    → times k (remove_bridge_order key ks) ≡ (if key == k then times k ks - 1 else times k ks)
unfolding remove_bridge_order
times-remove_bridge_order key k [] = ground arith
times-remove_bridge_order key k (x ∷ xs) = ground (
  arith,
  times-remove_bridge_order key k xs,
  String_eq.same_iff x key,
  String_eq.same_iff x k,
  String_eq.same_iff key k,
)

pub length-remove_bridge_order :
    (key : String) (ks : List String)
    → 1 ≤ times key ks
    → suc (length (remove_bridge_order key ks)) ≡ length ks
unfolding remove_bridge_order
length-remove_bridge_order key [] h = absurd (omega (arith, h))
length-remove_bridge_order key (x ∷ xs) h = ground (arith, length-remove_bridge_order key xs)

pub drop_entry-IsCoherent :
    (key : String) (b : Bridge) → IsCoherent b → IsCoherent (drop_entry key b)
unfolding drop_entry
drop_entry-IsCoherent key b c k = elim (Bool-cases (key == k)) [
  | inl e ↦
      rw (lookup-delete key k b.entries, times-remove_bridge_order key k b.order, e, c k)
        (presence_pred (lookup k b.entries))
  | inr e ↦ rw (lookup-delete key k b.entries, times-remove_bridge_order key k b.order, e) (c k)
]
  where
    presence_pred : (o : Option BridgeEntry) → presence o - 1 ≡ 0
    presence_pred none = omega arith
    presence_pred (some e) = omega arith

pub insert-IsCoherent :
    (key : String) (e : BridgeEntry) (b : Bridge) (order : List String)
    → ((k : String) → times k order ≡ (if key == k then 1 else times k b.order))
    → IsCoherent b
    → IsCoherent (record { entries = insert key e b.entries; order = order })
insert-IsCoherent key e b order h c k = elim (Bool-cases (key == k)) [
  | inl q ↦ rw (lookup-insert key k e b.entries, q, h k, q) refl
  | inr q ↦ rw (lookup-insert key k e b.entries, q, h k, q) (c k)
]

pub hit-IsCoherent :
    (now : ℕ) (key : String) (b b' : Bridge) (e : BridgeEntry)
    → IsCoherent b
    → hit now key b ≡ some (b', e)
    → IsCoherent b'
unfolding hit
hit-IsCoherent now key b b' e c h = elim (Option-cases (lookup key b.entries)) [
  | inl q ↦ absurd (ground (arith, sym h ∙ none_hit q))
  | inr (x, q) ↦
      let x' : BridgeEntry = record x { last_used = now } in
      let b₁ : Bridge = record {
        entries = insert key x' b.entries;
        order = bridge_touch key b.order;
      } in
      let same : some (b₁, x') ≡ some (b', e) = sym (some_hit x q) ∙ h in
      rw (sym (ap (λ p. p.0) (some_inj same)))
        (insert-IsCoherent key x' b (bridge_touch key b.order) (λ k. touched k x q) c)
]
  where
    none_hit : lookup key b.entries ≡ none → hit now key b ≡ none
    none_hit q = rw (hit, q) refl

    some_hit :
        (x : BridgeEntry)
        → lookup key b.entries ≡ some x
        → hit now key b
          ≡ some (
            record {
              entries = insert key (record x { last_used = now }) b.entries;
              order = bridge_touch key b.order;
            },
            record x { last_used = now },
          )
    some_hit x q = rw (hit, q) refl

    touched :
        (k : String) (x : BridgeEntry)
        → lookup key b.entries ≡ some x
        → times k (bridge_touch key b.order) ≡ (if key == k then 1 else times k b.order)
    touched k x q =
        let one : times key b.order ≡ 1 = c key ∙ ap presence q in
        ground (
          arith,
          one,
          times-bridge_touch key k b.order,
          String_eq.same_iff key k,
          ap (λ j. times j b.order),
        )

sweep-IsCoherent :
    (busy scarce : ℕ → Bool) (now : ℕ) (entries : List (String × BridgeEntry)) (b : Bridge)
    → IsCoherent b
    → IsCoherent (sweep busy scarce now entries b)
unfolding sweep
sweep-IsCoherent busy scarce now [] b c = c
sweep-IsCoherent busy scarce now ((k, e) ∷ more) b c =
    sweep-IsCoherent busy scarce now more (if is_stale busy scarce now e then drop_entry k b else b)
      (either (is_stale busy scarce now e))
  where
    either : (t : Bool) → IsCoherent (if t then drop_entry k b else b)
    either true = drop_entry-IsCoherent k b c
    either false = c

pub bridge_maintain-IsCoherent :
    (busy scarce : ℕ → Bool) (now : ℕ) (b : Bridge)
    → IsCoherent b
    → IsCoherent (bridge_maintain busy scarce now b)
unfolding bridge_maintain
bridge_maintain-IsCoherent busy scarce now b c = sweep-IsCoherent busy scarce now b.entries b c

pub bridge_evict_token-IsCoherent :
    (busy : ℕ → Bool) (key : String) (b : Bridge)
    → IsCoherent b
    → IsCoherent (bridge_evict_token busy key b)
unfolding bridge_evict_token
bridge_evict_token-IsCoherent busy key b c = elim (Option-cases (lookup key b.entries)) [
  | inl e ↦ rw (bridge_evict_token, e) c
  | inr (x, e) ↦ elim (Bool-cases (busy x.id)) [
    | inl q ↦ rw (bridge_evict_token, e, q) c
    | inr q ↦ rw (bridge_evict_token, e, q) (drop_entry-IsCoherent key b c)
  ]
]
