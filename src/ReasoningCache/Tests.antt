-- ===== src/ReasoningCache/Tests.antt =====
-- Runs of internal/reasoningcache/cache.go, and instances of its theorems.
use freebuff_proxy_scaleway.Base.{◌≤◌, ◌≡◌, refl, String, none, some, [], ◌∷◌, length, arith}
use freebuff_proxy_scaleway.Base.Int.{pos}
use freebuff_proxy_scaleway.Base.Text.{trim_space}
use freebuff_proxy_scaleway.Base.Map.{lookup, insert, delete}
use freebuff_proxy_scaleway.Base.Eq.{String_eq, ℕ_eq}
use freebuff_proxy_scaleway.ReasoningCache.{
  Entry, Cache, new_cache, prune, put, get, get_by_tool_id, get_by_hash, get_entry, hash_key,
  tool_id, evict_node,
}
use freebuff_proxy_scaleway.ReasoningCache.Invariant.{IsValid, new_cache-IsValid}
use freebuff_proxy_scaleway.ReasoningCache.Bounds.{put_bounded}
use freebuff_proxy_scaleway.ReasoningCache.Expiry.{LookUp, get_entry-LookUp}
use freebuff_proxy_scaleway.ReasoningCache.Retrieval.{get_by_tool_id-put}

operations : Unit {0}
unfolding new_cache prune put get get_by_tool_id get_by_hash get_entry hash_key lookup insert delete
    trim_space
operations = tt

abbrev digest : String → String
digest s = "d"

abbrev small : Cache
unfolding operations
small = new_cache (pos 1) (pos 100)

abbrev first : Cache
unfolding operations
first = put digest (" a " ∷ "" ∷ "a" ∷ []) "hi" "" "why" "" "m" 5 small

abbrev second : Cache
unfolding operations
second = put digest ("b" ∷ []) "" "" "how" "" "m" 6 first

abbrev why : Entry
why = record { reasoning_content = "why"; signature = ""; model = "m"; created_at = 5 }

-- The ids are trimmed and kept once; the older entry goes when the room is needed, with its keys.
runs :
    (get digest "a" "" "" 7 7 first ≡ (first, some why))
    × (get digest "z" "hi" "" 7 7 first ≡ (first, some why))
    × (get digest "a" "hi" "" 7 7 second ≡ (second, none))
    × (length second.lru ≡ 1)
    × ((get_by_tool_id "a" 106 106 first).0 ≡ record small { next_id = 1 })
unfolding operations small first second evict_node
runs = (refl, refl, refl, refl, refl)

get_by_tool_id-put_example :
    get_by_tool_id " a" 9 9
      (put digest ("a " ∷ []) "hi" "" "why" "" "m" 5 (new_cache (pos 1) (pos 100)))
    ≡ (put digest ("a " ∷ []) "hi" "" "why" "" "m" 5 (new_cache (pos 1) (pos 100)), some why)
unfolding new_cache trim_space
get_by_tool_id-put_example =
    get_by_tool_id-put digest ("a " ∷ []) "hi" "" "why" "" "m" 5 (new_cache (pos 1) (pos 100))
      (omega arith) (new_cache-IsValid (pos 1) (pos 100)) refl " a" 9 9 refl refl (omega arith)

first-IsValid :
    IsValid (put digest ("a " ∷ []) "hi" "" "why" "" "m" 5 (new_cache (pos 1) (pos 100)))
unfolding new_cache
first-IsValid =
    (put_bounded digest ("a " ∷ []) "hi" "" "why" "" "m" 5 (new_cache (pos 1) (pos 100))
      (omega arith) (new_cache-IsValid (pos 1) (pos 100)) refl).0

abbrev stored : Cache
stored = put digest ("a " ∷ []) "hi" "" "why" "" "m" 5 (new_cache (pos 1) (pos 100))

-- The entry of instant 5 is expired at 106.
get_entry-LookUp_example : LookUp tool_id "a" 106 107 stored
unfolding operations
get_entry-LookUp_example =
    get_entry-LookUp tool_id "a" 106 107 stored (omega arith) (omega arith) first-IsValid

put_bounded_example :
    let c' = put digest ("b" ∷ []) "" "" "how" "" "m" 6 stored in
    IsValid c' × (length c'.lru ≤ stored.max_entries) × (c'.max_entries ≡ stored.max_entries)
unfolding operations
put_bounded_example =
    put_bounded digest ("b" ∷ []) "" "" "how" "" "m" 6 stored (omega arith) first-IsValid refl
