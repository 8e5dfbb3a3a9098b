-- ===== src/Pool/Bridge/Room.antt =====
-- Which entries of the bridge cache make room for a new one.
use freebuff_proxy_scaleway.Base.{
  ℕ, ◌≤◌, ◌≡◌, ◌⊎◌, sym, ap, ◌∙◌, inl, inr, String, Bool, true, false, ◌||◌, Option, none, some,
  List, [], ◌∷◌, ◌++◌, nat_eq_iff, if◌then◌else◌, arith, length, Bool-cases, Option-cases, some_inj,
  zero, suc, ltb,
}
use freebuff_proxy_scaleway.Base.Eq.{◌==◌, String_eq}
use freebuff_proxy_scaleway.Base.Map.{lookup, insert, lookup-insert, lookup-delete}
use freebuff_proxy_scaleway.Pool.Bridge.{
  BridgeEntry, Bridge, max_bridge_entries, drop_entry, scan, is_kept, take_victim, evict_one,
  evict_rounds, bridge_evict_locked, add_bridge_entry,
}
use freebuff_proxy_scaleway.Base.Counts.{times, times-append}
use freebuff_proxy_scaleway.Pool.Bridge.Coherent.{
  presence, IsCoherent, drop_entry-IsCoherent, length-remove_bridge_order, insert-IsCoherent,
}

-- What a scan over an order whose keys are all in the map comes to.
data Scanned (skip : BridgeEntry → Bool) (entries : List (String × BridgeEntry))
    (keys : List String) : List String × Option (String × BridgeEntry) → Type 0 where
  all_skipped :
      ((k : String) (e : BridgeEntry)
        → 1 ≤ times k keys
        → lookup k entries ≡ some e
        → skip e ≡ true)
      → Scanned skip entries keys (keys, none)
  stopped :
      (k : String) (e : BridgeEntry)
      → lookup k entries ≡ some e
      → skip e ≡ false
      → 1 ≤ times k keys
      → Scanned skip entries keys (keys, some (k, e))

skipped-Scanned :
    (skip : BridgeEntry → Bool) (entries : List (String × BridgeEntry)) (k : String)
    (e : BridgeEntry) (keys : List String) (r : List String × Option (String × BridgeEntry))
    → lookup k entries ≡ some e
    → skip e ≡ true
    → Scanned skip entries keys r
    → Scanned skip entries (k ∷ keys) (k ∷ r.0, r.1)
skipped-Scanned skip entries k e keys _ l s (all_skipped h) = all_skipped (λ j x t q.
    elim (Bool-cases (k == j)) [
      | inl same ↦
          let found : some x ≡ some e =
            sym q ∙ ap (λ i. lookup i entries) (sym ((String_eq.same_iff k j).0 same)) ∙ l in
          rw (some_inj found) s
      | inr other ↦ h j x (ground (arith, t, other)) q
    ])
skipped-Scanned skip entries k e keys _ l s (stopped j x q f t) = stopped j x q f (omega (arith, t))

scan-Scanned :
    (skip : BridgeEntry → Bool) (entries : List (String × BridgeEntry)) (keys : List String)
    → ((k : String) → 1 ≤ times k keys → 1 ≤ presence (lookup k entries))
    → Scanned skip entries keys (scan skip entries keys)
unfolding scan
scan-Scanned skip entries [] c = all_skipped (λ k e h q. absurd (omega (arith, h)))
scan-Scanned skip entries (k ∷ ks) c =
    let here : 1 ≤ times k (k ∷ ks) = ground (arith, String_eq.same_iff k k) in
    let rest = scan-Scanned skip entries ks (λ j t. c j (omega (arith, t))) in
    elim (Option-cases (lookup k entries)) [
      | inl q ↦ absurd (omega (arith, c k here, ap presence q))
      | inr (e, q) ↦ elim (Bool-cases (skip e)) [
        | inl s ↦
            rw (scan, q, s) (skipped-Scanned skip entries k e ks (scan skip entries ks) q s rest)
        | inr s ↦ rw (scan, q, s) (stopped k e q s here)
      ]
    ]

-- What one round of the eviction comes to.
data Evicted (skip : BridgeEntry → Bool) (b : Bridge) : Bridge × Option BridgeEntry → Type 0 where
  none_left :
      ((k : String) (e : BridgeEntry) → lookup k b.entries ≡ some e → skip e ≡ true)
      → Evicted skip b (b, none)
  dropped :
      (k : String) (e : BridgeEntry)
      → lookup k b.entries ≡ some e
      → skip e ≡ false
      → 1 ≤ times k b.order
      → Evicted skip b (drop_entry k b, some e)

take_victim-Evicted :
    (skip : BridgeEntry → Bool) (b : Bridge) (r : List String × Option (String × BridgeEntry))
    → IsCoherent b
    → Scanned skip b.entries b.order r
    → Evicted skip b (take_victim b r)
unfolding take_victim
take_victim-Evicted skip b _ c (all_skipped h) =
    none_left (λ k e q. h k e (omega (arith, c k, ap presence q)) q)
take_victim-Evicted skip b _ c (stopped k e q s t) = dropped k e q s t

weaken :
    (skip skip' : BridgeEntry → Bool) (b : Bridge) (k : String) (e : BridgeEntry)
    → ((x : BridgeEntry) → skip x ≡ false → skip' x ≡ false)
    → lookup k b.entries ≡ some e
    → skip e ≡ false
    → 1 ≤ times k b.order
    → Evicted skip' b (drop_entry k b, some e)
weaken skip skip' b k e w q s t = dropped k e q (w e s) t

round :
    (busy scarce : ℕ → Bool) (keep : BridgeEntry) (b : Bridge) (r : Bridge × Option BridgeEntry)
    → IsCoherent b
    → Evicted (λ e. is_kept busy keep e || scarce e.id) b r
    → Evicted (is_kept busy keep) b (elim r.1 [
      | some e ↦ r
      | none ↦ take_victim r.0 (scan (is_kept busy keep) r.0.entries r.0.order)
    ])
round busy scarce keep b _ c (none_left h) =
    take_victim-Evicted (is_kept busy keep) b (scan (is_kept busy keep) b.entries b.order) c
      (scan-Scanned (is_kept busy keep) b.entries b.order (λ k t. omega (arith, t, c k)))
round busy scarce keep b _ c (dropped k e q s t) =
    weaken (λ x. is_kept busy keep x || scarce x.id) (is_kept busy keep) b k e
      (λ x f. ground (arith, f)) q s t

evict_one-Evicted :
    (busy scarce : ℕ → Bool) (keep : BridgeEntry) (b : Bridge)
    → IsCoherent b
    → Evicted (is_kept busy keep) b (evict_one busy scarce keep b)
unfolding evict_one
evict_one-Evicted busy scarce keep b c =
    let skip = λ (e : BridgeEntry). is_kept busy keep e || scarce e.id in
    round busy scarce keep b (take_victim b (scan skip b.entries b.order)) c (
      take_victim-Evicted skip b (scan skip b.entries b.order) c
        (scan-Scanned skip b.entries b.order (λ k t. omega (arith, t, c k))))

abbrev pub IsAmong : BridgeEntry → List BridgeEntry → Type 0
IsAmong e [] = ⊥
IsAmong e (x ∷ xs) = (x ≡ e) ⊎ IsAmong e xs

-- The order has at most `max_bridge_entries` keys or no entry could be dropped, no entry that is
-- kept or has leases was dropped, nothing was changed, and each dropped entry is returned.
pub record HasRoom (busy : ℕ → Bool) (keep : BridgeEntry) (b : Bridge)
    (r : Bridge × List BridgeEntry) : Type 0 where
  pub coherent : IsCoherent r.0
  pub room :
      (length r.0.order ≤ max_bridge_entries)
      ⊎ ((k : String) (e : BridgeEntry)
          → lookup k r.0.entries ≡ some e
          → is_kept busy keep e ≡ true)
  pub spared :
      (k : String) (e : BridgeEntry)
      → lookup k b.entries ≡ some e
      → is_kept busy keep e ≡ true
      → lookup k r.0.entries ≡ some e
  pub old :
      (k : String) (e : BridgeEntry) → lookup k r.0.entries ≡ some e → lookup k b.entries ≡ some e
  pub returned :
      (k : String) (e : BridgeEntry)
      → lookup k b.entries ≡ some e
      → (lookup k r.0.entries ≡ some e) ⊎ IsAmong e r.1

settled :
    (busy : ℕ → Bool) (keep : BridgeEntry) (b : Bridge)
    → IsCoherent b
    → (length b.order ≤ max_bridge_entries)
      ⊎ ((k : String) (e : BridgeEntry) → lookup k b.entries ≡ some e → is_kept busy keep e ≡ true)
    → HasRoom busy keep b (b, [])
settled busy keep b c h = record {
  coherent = c;
  room = h;
  spared = λ k e q s. q;
  old = λ k e q. q;
  returned = λ k e q. inl q;
}

dropped-HasRoom :
    (busy : ℕ → Bool) (keep : BridgeEntry) (b : Bridge) (k : String) (e : BridgeEntry)
    (r : Bridge × List BridgeEntry)
    → lookup k b.entries ≡ some e
    → is_kept busy keep e ≡ false
    → HasRoom busy keep (drop_entry k b) r
    → HasRoom busy keep b (r.0, e ∷ r.1)
unfolding drop_entry
dropped-HasRoom busy keep b k e r q s h = record {
  coherent = h.coherent;
  room = h.room;
  spared = λ j x l t. elim (Bool-cases (k == j)) [
    | inl same ↦ absurd (ground (arith, s, t, ap (is_kept busy keep) (found j x l same)))
    | inr other ↦ h.spared j x (lookup-delete k j b.entries ∙ rw other l) t
  ];
  old = λ j x l. ground (arith, lookup-delete k j b.entries, h.old j x l);
  returned = λ j x l. elim (Bool-cases (k == j)) [
    | inl same ↦ inr (inl (found j x l same))
    | inr other ↦ elim (h.returned j x (lookup-delete k j b.entries ∙ rw other l)) [
      | inl here ↦ inl here
      | inr there ↦ inr (inr there)
    ]
  ];
}
  where
    found : (j : String) (x : BridgeEntry) → lookup j b.entries ≡ some x → (k == j) ≡ true → e ≡ x
    found j x l same =
        some_inj (sym q ∙ ap (λ i. lookup i b.entries) ((String_eq.same_iff k j).0 same) ∙ l)

after_round :
    (busy scarce : ℕ → Bool) (keep : BridgeEntry) (b : Bridge) (n : ℕ)
    (r : Bridge × Option BridgeEntry)
    → IsCoherent b
    → length b.order ≤ suc n
    → ((b' : Bridge)
        → IsCoherent b'
        → length b'.order ≤ n
        → HasRoom busy keep b' (evict_rounds n busy scarce keep b'))
    → Evicted (is_kept busy keep) b r
    → HasRoom busy keep b (elim r.1 [
      | none ↦ (r.0, [])
      | some e ↦
          ((evict_rounds n busy scarce keep r.0).0, e ∷ (evict_rounds n busy scarce keep r.0).1)
    ])
unfolding drop_entry
after_round busy scarce keep b n _ c f next (none_left h) = settled busy keep b c (inr h)
after_round busy scarce keep b n _ c f next (dropped k e q s t) =
    dropped-HasRoom busy keep b k e (evict_rounds n busy scarce keep (drop_entry k b)) q s (
      next (drop_entry k b) (drop_entry-IsCoherent k b c)
        (omega (arith, f, length-remove_bridge_order k b.order t)))

evict_rounds-HasRoom :
    (n : ℕ) (busy scarce : ℕ → Bool) (keep : BridgeEntry) (b : Bridge)
    → IsCoherent b
    → length b.order ≤ n
    → HasRoom busy keep b (evict_rounds n busy scarce keep b)
unfolding evict_rounds
evict_rounds-HasRoom zero busy scarce keep b c f = settled busy keep b c (inl (omega (arith, f)))
evict_rounds-HasRoom (suc n) busy scarce keep b c f =
    elim (Bool-cases (ltb max_bridge_entries (length b.order))) [
      | inl over ↦
          rw (evict_rounds, over)
            (after_round busy scarce keep b n (evict_one busy scarce keep b) c f
              (evict_rounds-HasRoom n busy scarce keep) (evict_one-Evicted busy scarce keep b c))
      | inr fits ↦ rw (evict_rounds, fits) (settled busy keep b c (inl (ground (arith, fits))))
    ]

-- A new entry is in the cache when `bridgeEntryFor` returns it, and it makes room: the order lists
-- exactly the cached keys, at most 32 of them unless every other entry has leases; the new entry
-- and the entries with leases stay, and every entry that goes is returned to be FINISHed.
pub add_bridge_entry-HasRoom :
    (busy scarce : ℕ → Bool) (key : String) (e : BridgeEntry) (b : Bridge)
    → IsCoherent b
    → lookup key b.entries ≡ none
    → HasRoom busy e
        (record { entries = insert key e b.entries; order = b.order ++ key ∷ [] })
        (add_bridge_entry busy scarce key e b)
      × (lookup key (add_bridge_entry busy scarce key e b).0.entries ≡ some e)
unfolding add_bridge_entry bridge_evict_locked
add_bridge_entry-HasRoom busy scarce key e b c q = rw (add_bridge_entry, q) (made, there)
  where
    added : Bridge
    added = record { entries = insert key e b.entries; order = b.order ++ key ∷ [] }

    ordered :
        (k : String) → times k (b.order ++ key ∷ []) ≡ (if key == k then 1 else times k b.order)
    ordered k = ground (
      arith,
      times-append k b.order (key ∷ []),
      c key ∙ ap presence q,
      String_eq.same_iff key k,
      ap (λ j. times j b.order),
    )

    made : HasRoom busy e added (bridge_evict_locked busy scarce e added)
    made =
        evict_rounds-HasRoom (length added.order) busy scarce e added
          (insert-IsCoherent key e b added.order ordered c) (omega arith)

    there : lookup key (bridge_evict_locked busy scarce e added).0.entries ≡ some e
    there =
        made.spared key e
          (ground (arith, lookup-insert key key e b.entries, String_eq.same_iff key key))
          (ground (arith, nat_eq_iff e.id e.id))
