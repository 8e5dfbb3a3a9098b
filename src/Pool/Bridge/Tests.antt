-- ===== src/Pool/Bridge/Tests.antt =====
-- A full bridge cache, and the theorems there.
use freebuff_proxy_scaleway.Base.{
  ℕ, ◌+◌, ◌≡◌, refl, String, Bool, ◌||◌, none, some, List, [], ◌∷◌, ◌++◌, arith, nat_eq,
}
use freebuff_proxy_scaleway.Base.Eq.{String_eq}
use freebuff_proxy_scaleway.Base.Map.{lookup, insert, delete, IsDistinct}
use freebuff_proxy_scaleway.Pool.Bridge.{
  BridgeEntry, Bridge, bridge_idle_evict, add_bridge_entry, bridge_evict_locked, evict_rounds,
  evict_one, scan, take_victim, drop_entry, remove_bridge_order,
}
use freebuff_proxy_scaleway.Base.Counts.{times}
use freebuff_proxy_scaleway.Pool.Bridge.Coherent.{presence, IsCoherent}
use freebuff_proxy_scaleway.Pool.Bridge.Room.{HasRoom, add_bridge_entry-HasRoom}
use freebuff_proxy_scaleway.Pool.Bridge.Lifetime.{
  Operation, asked, added, maintained, died, apply_operations, apply_operations-IsCoherent,
}

abbrev keys : List String
keys =
    "t0" ∷ "t1" ∷ "t2" ∷ "t3" ∷ "t4" ∷ "t5" ∷ "t6" ∷ "t7" ∷ "t8" ∷ "t9" ∷ "t10" ∷ "t11" ∷ "t12"
    ∷ "t13" ∷ "t14" ∷ "t15" ∷ "t16" ∷ "t17" ∷ "t18" ∷ "t19" ∷ "t20" ∷ "t21" ∷ "t22" ∷ "t23" ∷ "t24"
    ∷ "t25" ∷ "t26" ∷ "t27" ∷ "t28" ∷ "t29" ∷ "t30" ∷ "t31" ∷ []

abbrev numbered : ℕ → List String → List (String × BridgeEntry)
numbered n [] = []
numbered n (k ∷ ks) = (k, record { id = n; last_used = n }) ∷ numbered (n + 1) ks

abbrev full : Bridge
full = record { entries = numbered 0 keys; order = keys }

numbered-IsCoherent :
    (n : ℕ) (ks : List String)
    → IsDistinct (numbered n ks)
    → (k : String) → times k ks ≡ presence (lookup k (numbered n ks))
unfolding lookup
numbered-IsCoherent n [] d k = refl
numbered-IsCoherent n (j ∷ js) d k = ground (
  arith,
  d.0,
  numbered-IsCoherent (n + 1) js d.1 j,
  numbered-IsCoherent (n + 1) js d.1 k,
  String_eq.same_iff j k,
)

full-IsDistinct : IsDistinct full.entries
unfolding lookup
full-IsDistinct = (
  refl,
  (
    refl,
    (
      refl,
      (
        refl,
        (
          refl,
          (
            refl,
            (
              refl,
              (
                refl,
                (
                  refl,
                  (
                    refl,
                    (
                      refl,
                      (
                        refl,
                        (
                          refl,
                          (
                            refl,
                            (
                              refl,
                              (
                                refl,
                                (
                                  refl,
                                  (
                                    refl,
                                    (
                                      refl,
                                      (
                                        refl,
                                        (
                                          refl,
                                          (
                                            refl,
                                            (
                                              refl,
                                              (
                                                refl,
                                                (
                                                  refl,
                                                  (
                                                    refl,
                                                    (
                                                      refl,
                                                      (refl, (refl, (refl, (refl, (refl, tt))))),
                                                    ),
                                                  ),
                                                ),
                                              ),
                                            ),
                                          ),
                                        ),
                                      ),
                                    ),
                                  ),
                                ),
                              ),
                            ),
                          ),
                        ),
                      ),
                    ),
                  ),
                ),
              ),
            ),
          ),
        ),
      ),
    ),
  ),
)

full-IsCoherent : IsCoherent full
full-IsCoherent = numbered-IsCoherent 0 keys full-IsDistinct

absent : lookup "new" full.entries ≡ none
unfolding lookup
absent = refl

-- The three oldest entries have leases, and the fourth has a scarce session.
abbrev busy : ℕ → Bool
busy n = nat_eq n 0 || nat_eq n 1 || nat_eq n 2

abbrev scarce : ℕ → Bool
scarce n = nat_eq n 3

abbrev fresh : BridgeEntry
fresh = record { id = 99; last_used = 99 }

abbrev ids : List BridgeEntry → List ℕ
ids [] = []
ids (e ∷ es) = e.id ∷ ids es

victim_test : ids (add_bridge_entry busy scarce "new" fresh full).1 ≡ 4 ∷ []
unfolding add_bridge_entry bridge_evict_locked evict_rounds evict_one scan take_victim drop_entry
    remove_bridge_order lookup insert delete
victim_test = refl

add_bridge_entry-HasRoom_example :
    HasRoom busy fresh
      (record { entries = insert "new" fresh full.entries; order = full.order ++ "new" ∷ [] })
      (add_bridge_entry busy scarce "new" fresh full)
    × (lookup "new" (add_bridge_entry busy scarce "new" fresh full).0.entries ≡ some fresh)
add_bridge_entry-HasRoom_example =
    add_bridge_entry-HasRoom busy scarce "new" fresh full full-IsCoherent absent

-- Two tokens, the death of the first one, and an idle sweep.
abbrev history : List Operation
history =
    added busy scarce "a" fresh
    ∷ added busy scarce "b" (record { id = 5; last_used = 8 })
    ∷ asked 20 "a"
    ∷ died busy "a"
    ∷ maintained busy scarce (bridge_idle_evict + 9)
    ∷ []

apply_operations-IsCoherent_example :
    IsCoherent (apply_operations history (record { entries = []; order = [] }))
apply_operations-IsCoherent_example = apply_operations-IsCoherent history
