-- ===== src/Logring.antt =====
-- internal/logring/logring.go: the bounded log buffer behind the dashboard. The slices are lists; a
-- result of `none` is an index out of range, which panics. `to_lower` is `strings.ToLower`.
pub mod Index
pub mod History
mod Tests
use freebuff_proxy_scaleway.Base.{
  ℕ, zero, suc, ◌+◌, ◌-◌, ◌%◌, String, Option, none, some, List, [], ◌∷◌, ltb, if◌then◌else◌,
  length, get_elem?, set,
}
use freebuff_proxy_scaleway.Base.Lists.{replicate}
use freebuff_proxy_scaleway.Base.Int.{ℤ, pos, negsuc, positive_or}
use freebuff_proxy_scaleway.Base.Eq.{◌==◌, String_eq}
use freebuff_proxy_scaleway.Base.Map.{lookup, insert}
use Prim.Native.String.{◌++◌ as concat}

pub record Entry : Type 0 where
  pub time : String
  pub level : String
  pub message : String
  pub fields : List String

pub record Ring : Type 0 where
  pub buf : List Entry
  pub next : ℕ
  pub filled : ℕ
  pub capacity : ℕ
  pub counts : List (String × ℕ)

abbrev pub empty_entry : Entry
empty_entry = record { time = ""; level = ""; message = ""; fields = [] }

-- The ring of `NewHandler`: a capacity below 1 becomes 1.
pub new_ring : ℤ → Ring
new_ring capacity =
    let n = positive_or capacity 1 in
    record { buf = replicate n empty_entry; next = 0; filled = 0; capacity = n; counts = [] }

-- A missing key of `map[string]int64` reads as 0.
abbrev pub count_of : String → List (String × ℕ) → ℕ
count_of k m = elim (lookup k m) [ none ↦ 0 | some n ↦ n ]

pub clamp_count : ℤ → ℕ → ℕ
clamp_count (negsuc n) filled = 0
clamp_count (pos n) filled = if ltb filled n then filled else n

-- The loop of `recent`: `k` rounds are left and `i` is its counter.
pub recent_from : Ring → ℕ → ℕ → Option (List Entry)
recent_from r zero i = some []
recent_from r (suc k) i =
    let rest = recent_from r k (i + 1) in
    elim (get_elem? r.buf ((r.next + r.capacity - 1 - i) % r.capacity)) [
      | none ↦ none
      | some e ↦ elim rest [ none ↦ none | some es ↦ some (e ∷ es) ]
    ]

pub recent : Ring → ℤ → Option (List Entry)
unfolding recent_from clamp_count
recent r n = recent_from r (clamp_count n r.filled) 0

module _ (to_lower : String → String) where
  pub count_key : String → String → String
  count_key level message =
      if level == "DEBUG"
      then concat "debug|" message
      else if level == "INFO"
      then concat "info|" message
      else if level == "WARN"
      then concat "warn|" message
      else if level == "ERROR"
      then concat "error|" message
      else concat (concat (to_lower level) "|") message

  pub push : Entry → Ring → Ring
  unfolding count_key
  push e r =
      let key = count_key e.level e.message in
      record r {
        buf = set r.buf r.next e;
        next = (r.next + 1) % r.capacity;
        filled = if ltb r.filled r.capacity then r.filled + 1 else r.filled;
        counts = insert key (count_of key r.counts + 1) r.counts;
      }

  -- A history of pushes, oldest first.
  pub push_all : List Entry → Ring → Ring
  push_all [] r = r
  push_all (e ∷ es) r = push_all es (push e r)
