-- ===== src/ReasoningCache.antt =====
-- internal/reasoningcache/cache.go: the cache of reasoning content, bounded in size and in age. A
-- pointer to an `Entry` is its id, dealt out by the allocator, with the content that it points to,
-- which never changes. The list `lru` is kept oldest first, so its head is `lru.Back()`. A method
-- that looks an entry up under the read lock and evicts it under the write lock reads the clock
-- twice; `sum_hex` is the hexadecimal SHA-256 sum.
pub mod Invariant
pub mod Lookups
pub mod Bounds
pub mod Retrieval
pub mod Expiry
mod Tests
use freebuff_proxy_scaleway.Base.{
  ℕ, zero, suc, ◌+◌, ◌-◌, ◌*◌, String, Bool, true, false, ◌&&◌, ◌||◌, not, Option, none, some, List,
  [], ◌∷◌, ◌++◌, ltb, leb, nat_eq, if◌then◌else◌, length,
}
use freebuff_proxy_scaleway.Base.Int.{ℤ, positive_or}
use freebuff_proxy_scaleway.Base.Time.{hour}
use freebuff_proxy_scaleway.Base.Text.{trim_space}
use freebuff_proxy_scaleway.Base.Eq.{◌==◌, String_eq, ℕ_eq}
use freebuff_proxy_scaleway.Base.Map.{lookup, insert, delete}
use Prim.Native.String.{◌++◌ as concat}

abbrev pub default_max_entries : ℕ
default_max_entries = 10_000

abbrev pub default_ttl : ℕ
default_ttl = 2 * hour

pub record Entry : Type 0 where
  pub reasoning_content : String
  pub signature : String
  pub model : String
  pub created_at : ℕ

pub record Pointer : Type 0 where
  pub id : ℕ
  pub target : Entry

pub record CacheNode : Type 0 where
  pub entry : Pointer
  pub tool_call_ids : List String
  pub hash_key : String

pub record Cache : Type 0 where
  pub by_tool_id : List (String × Pointer)
  pub by_hash : List (String × Pointer)
  pub nodes : List (ℕ × CacheNode)
  pub lru : List (ℕ × CacheNode)
  pub max_entries : ℕ
  pub ttl : ℕ
  pub next_id : ℕ

pub new_cache : ℤ → ℤ → Cache
new_cache max_entries ttl = record {
  by_tool_id = [];
  by_hash = [];
  nodes = [];
  lru = [];
  max_entries = positive_or max_entries default_max_entries;
  ttl = positive_or ttl default_ttl;
  next_id = 0;
}

abbrev pub points_to : ℕ → Option Pointer → Bool
points_to i none = false
points_to i (some p) = nat_eq p.id i

-- `if m[k] == entry { delete(m, k) }`, for one key and for a list of keys.
pub drop_key : ℕ → String → List (String × Pointer) → List (String × Pointer)
drop_key i k m = if points_to i (lookup k m) then delete k m else m

pub drop_keys : ℕ → List String → List (String × Pointer) → List (String × Pointer)
drop_keys i [] m = m
drop_keys i (k ∷ ks) m = drop_keys i ks (drop_key i k m)

pub evict_node : CacheNode → Cache → Cache
unfolding drop_keys drop_key
evict_node node c = record c {
  lru = delete node.entry.id c.lru;
  by_tool_id = drop_keys node.entry.id node.tool_call_ids c.by_tool_id;
  by_hash =
      if node.hash_key == "" then c.by_hash else drop_key node.entry.id node.hash_key c.by_hash;
  nodes = delete node.entry.id c.nodes;
}

pub is_expired : ℕ → ℕ → Entry → Bool
is_expired now ttl e = ltb ttl (now - e.created_at)

-- The loop from the back of the list, up to the first entry that is not expired.
pub evict_expired : ℕ → List (ℕ × CacheNode) → Cache → Cache
unfolding is_expired
evict_expired now [] c = c
evict_expired now ((i, node) ∷ rest) c =
    let evicted = evict_expired now rest (evict_node node c) in
    if is_expired now c.ttl node.entry.target then evicted else c

pub prune : ℕ → Cache → Cache
unfolding evict_expired
prune now c = if leb c.ttl 0 then c else evict_expired now c.lru c

-- `for c.lru.Len() >= c.maxEntries && c.lru.Len() > 0`, with fuel.
pub evict_oldest : ℕ → Cache → Cache
evict_oldest zero c = c
evict_oldest (suc fuel) c = elim c.lru [
  | [] ↦ c
  | (i, node) ∷ rest ↦
      let evicted = evict_oldest fuel (evict_node node c) in
      if leb c.max_entries (length c.lru) then evicted else c
]

abbrev pub contains : String → List String → Bool
contains k [] = false
contains k (j ∷ js) = j == k || contains k js

-- The loop that keeps the trimmed ids, without empty ones and repetitions.
pub valid_ids : List String → List String → List String
valid_ids seen [] = []
valid_ids seen (x ∷ xs) =
    let id = trim_space x in
    let rest = valid_ids seen xs in
    let more = valid_ids (id ∷ seen) xs in if id == "" || contains id seen then rest else id ∷ more

pub put_keys : List String → Pointer → List (String × Pointer) → List (String × Pointer)
put_keys [] p m = m
put_keys (k ∷ ks) p m = put_keys ks p (insert k p m)

-- The insertion of a new entry, steps 3 to 5 of `Put`.
pub add_entry : Entry → List String → String → Cache → Cache
unfolding put_keys
add_entry entry ids key c =
    let p : Pointer = record { id = c.next_id; target = entry } in
    let node : CacheNode = record { entry = p; tool_call_ids = ids; hash_key = key } in
    record c {
      next_id = c.next_id + 1;
      lru = c.lru ++ (c.next_id, node) ∷ [];
      nodes = insert c.next_id node c.nodes;
      by_tool_id = put_keys ids p c.by_tool_id;
      by_hash = if key == "" then c.by_hash else insert key p c.by_hash;
    }

-- Which of the two indices, and the eviction of what a key of it points to.
pub data Index : Type 0 where
  tool_id hash : Index

abbrev pub index : Index → Cache → List (String × Pointer)
index tool_id c = c.by_tool_id
index hash c = c.by_hash

pub drop_from : Index → String → Cache → Cache
drop_from tool_id k c = record c { by_tool_id = delete k c.by_tool_id }
drop_from hash k c = record c { by_hash = delete k c.by_hash }

-- What happens under the write lock to a key whose entry was found expired.
pub evict_stale : Index → String → ℕ → Cache → Cache
unfolding drop_from is_expired
evict_stale x k now c = elim (lookup k (index x c)) [
  | none ↦ c
  | some p ↦
      let evicted : Cache = elim (lookup p.id c.nodes) [
        | some node ↦ evict_node node c
        | none ↦ drop_from x k c
      ] in
      if ltb 0 c.ttl && is_expired now c.ttl p.target then evicted else c
]

-- The look-up that `GetByToolID`, `GetByHash` and the two `GetEntryBy…` share: the entry, if it
-- is there and not expired at `now`. The second reading of the clock is `later`.
pub get_entry : Index → String → ℕ → ℕ → Cache → Cache × Option Entry
unfolding evict_stale is_expired
get_entry x k now later c = elim (lookup k (index x c)) [
  | none ↦ (c, none)
  | some p ↦
      if ltb 0 c.ttl && is_expired now c.ttl p.target
      then (evict_stale x k later c, none)
      else (c, some p.target)
]

pub get_by_tool_id : String → ℕ → ℕ → Cache → Cache × Option Entry
unfolding get_entry
get_by_tool_id x now later c =
    let id = trim_space x in if id == "" then (c, none) else get_entry tool_id id now later c

module _ (sum_hex : String → String) where
  pub hash_key : String → String → String
  hash_key content tool_calls_json =
      if content == "" && tool_calls_json == ""
      then ""
      else sum_hex (concat content tool_calls_json)

  pub get_by_hash : String → String → ℕ → ℕ → Cache → Cache × Option Entry
  unfolding hash_key get_entry
  get_by_hash content tool_calls_json now later c =
      let k = hash_key content tool_calls_json in
      if k == "" then (c, none) else get_entry hash k now later c

  -- `Get`, with a reading of the clock for each look-up.
  pub get : String → String → String → ℕ → ℕ → Cache → Cache × Option Entry
  unfolding get_by_tool_id get_by_hash
  get id content tool_calls_json now later c =
      let (c', found) = if trim_space id == "" then (c, none) else get_by_tool_id id now now c in
      let by_hash =
        if content == "" && tool_calls_json == ""
        then (c', none)
        else get_by_hash content tool_calls_json later later c' in
      elim found [ some e ↦ (c', some e) | none ↦ by_hash ]

  pub put : List String → String → String → String → String → String → ℕ → Cache → Cache
  unfolding prune evict_oldest valid_ids hash_key add_entry
  put ids content tool_calls_json reasoning signature model now c =
      let fresh = prune now c in
      let room = evict_oldest (length fresh.lru) fresh in
      let entry : Entry = record {
        reasoning_content = reasoning;
        signature = signature;
        model = model;
        created_at = now;
      } in
      if reasoning == "" && signature == ""
      then c
      else add_entry entry (valid_ids [] ids) (hash_key content tool_calls_json) room
