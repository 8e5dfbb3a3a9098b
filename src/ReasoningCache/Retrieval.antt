-- ===== src/ReasoningCache/Retrieval.antt =====
-- What a look-up in internal/reasoningcache/cache.go gives after a `Put`.
use freebuff_proxy_scaleway.Base.{
  ℕ, ◌-◌, ◌<◌, ◌≤◌, ◌≡◌, refl, ap, ◌∙◌, inl, inr, String, true, false, ◌&&◌, ◌||◌, some, List, [],
  ◌∷◌, map, if◌then◌else◌, arith, Bool-cases,
}
use freebuff_proxy_scaleway.Base.Text.{trim_space}
use freebuff_proxy_scaleway.Base.Eq.{◌==◌, String_eq, ℕ_eq}
use freebuff_proxy_scaleway.Base.Map.{lookup, insert, lookup-insert}
use freebuff_proxy_scaleway.ReasoningCache.{
  Entry, Pointer, Cache, is_expired, contains, valid_ids, add_entry, Index, tool_id, hash, index,
  get_entry, get_by_tool_id, hash_key, get_by_hash, put,
}
use freebuff_proxy_scaleway.ReasoningCache.Invariant.{IsValid, lookup-put_keys}
use freebuff_proxy_scaleway.ReasoningCache.Bounds.{put_stored}

contains-valid_ids :
    (k : String) (seen xs : List String)
    → (k == "") ≡ false
    → contains k seen ≡ false
    → contains k (map trim_space xs) ≡ true
    → contains k (valid_ids seen xs) ≡ true
unfolding valid_ids
contains-valid_ids k seen [] full new has = has
contains-valid_ids k seen (x ∷ xs) full new has =
    let id = trim_space x in
    elim (Bool-cases (id == k)) [
      | inl e ↦
          let same : id ≡ k = (String_eq.same_iff id k).0 e in
          let full' : (id == "") ≡ false = rw same full in
          let new' : contains id seen ≡ false = rw same new in rw (full', new') (rw e)
      | inr ne ↦
          let there : contains k (map trim_space xs) ≡ true = ground arith in
          let skip = contains-valid_ids k seen xs full new there in
          let keep = contains-valid_ids k (id ∷ seen) xs full (ground arith) there in
          elim (Bool-cases (id == "" || contains id seen)) [
            | inl drop ↦ rw drop skip
            | inr take ↦ rw take (ground arith)
          ]
    ]

get_entry-fresh :
    (x : Index) (k : String) (now later : ℕ) (c : Cache) (p : Pointer)
    → lookup k (index x c) ≡ some p
    → now - p.target.created_at ≤ c.ttl
    → get_entry x k now later c ≡ (c, some p.target)
unfolding get_entry is_expired
get_entry-fresh x k now later c p e young = rw (e, get_entry) (ground arith)

module _ (sum_hex : String → String) (ids : List String)
    (content calls reasoning signature model : String) (now : ℕ) (c : Cache)
    (pos : 0 < c.max_entries) (v : IsValid c)
    (says : (reasoning == "" && signature == "") ≡ false) where
  abbrev pub after : Cache
  after = put sum_hex ids content calls reasoning signature model now c

  abbrev pub stored : Entry
  stored = record {
    reasoning_content = reasoning;
    signature = signature;
    model = model;
    created_at = now;
  }

  -- Right after a `Put`, with no other `Put` or eviction between, what it stored is found under each
  -- of its tool call ids, up to surrounding space, as long as it is not expired. The look-up changes
  -- nothing, so this holds for any number of them.
  pub get_by_tool_id-put :
      (x : String) (read later : ℕ)
      → (trim_space x == "") ≡ false
      → contains (trim_space x) (map trim_space ids) ≡ true
      → read - now ≤ c.ttl
      → get_by_tool_id x read later after ≡ (after, some stored)
  unfolding get_by_tool_id add_entry
  get_by_tool_id-put x read later full has young =
      let (room, (v', free, max, ttl), eq) =
        put_stored sum_hex ids content calls reasoning signature model now c pos v says in
      let law =
        lookup-put_keys (record { id = room.next_id; target = stored }) (valid_ids [] ids)
          (trim_space x) room.by_tool_id in
      let in_ids = contains-valid_ids (trim_space x) [] ids full refl has in
      rw (full, get_by_tool_id)
        (get_entry-fresh tool_id (trim_space x) read later after
          (record { id = room.next_id; target = stored })
          (ap (λ d. lookup (trim_space x) d.by_tool_id) eq ∙ law ∙ rw in_ids)
          (omega (arith, ap (λ d. d.ttl) eq)))

  -- It is also found under the content and the tool calls that it was stored with.
  get_by_hash-put :
      (read later : ℕ)
      → (hash_key sum_hex content calls == "") ≡ false
      → read - now ≤ c.ttl
      → get_by_hash sum_hex content calls read later after ≡ (after, some stored)
  unfolding get_by_hash add_entry
  get_by_hash-put read later full young =
      let (room, (v', free, max, ttl), eq) =
        put_stored sum_hex ids content calls reasoning signature model now c pos v says in
      let key = hash_key sum_hex content calls in
      let p : Pointer = record { id = room.next_id; target = stored } in
      let law = lookup-insert key key p room.by_hash in
      let found : lookup key (if key == "" then room.by_hash else insert key p room.by_hash)
          ≡ some p =
        rw full (law ∙ rw ((String_eq.same_iff key key).1 refl)) in
      rw (full, get_by_hash)
        (get_entry-fresh hash key read later after p (ap (λ d. lookup key d.by_hash) eq ∙ found)
          (omega (arith, ap (λ d. d.ttl) eq)))
