-- ===== src/Pool/Usage.antt =====
-- The rolling message counts of internal/pool/quota.go: per token, the instants of its chats within
-- the window, oldest first. Each call reads the clock once.
pub mod Window
pub mod History
use freebuff_proxy_scaleway.Base.{
  ℕ, ◌+◌, ◌*◌, ◌-◌, none, some, List, [], ◌∷◌, ◌++◌, ltb, if◌then◌else◌, length, get_elem?, set,
}
use freebuff_proxy_scaleway.Base.Time.{hour}

abbrev pub usage_window : ℕ
usage_window = 24 * hour

-- The loop over `first`: the expired head of a history is dropped.
pub drop_expired : ℕ → List ℕ → List ℕ
drop_expired now [] = []
drop_expired now (t ∷ ts) =
    let rest = drop_expired now ts in if ltb (t + usage_window) now then rest else t ∷ ts

-- `recordChat` and `recordChatEntry`, once they have the index of the token.
pub record_chat : ℕ → ℕ → List (List ℕ) → List (List ℕ)
unfolding drop_expired
record_chat now token msgs = elim (get_elem? msgs token) [
  | none ↦ msgs
  | some history ↦ set msgs token (drop_expired now history ++ now ∷ [])
]

unfoldable pub usage_count : ℕ → ℕ → List (List ℕ) → List (List ℕ) × ℕ
unfolding drop_expired
usage_count now token msgs = elim (get_elem? msgs token) [
  | none ↦ (msgs, 0)
  | some history ↦ (set msgs token (drop_expired now history), length (drop_expired now history))
]

pub usage_reset_in : ℕ → ℕ → List (List ℕ) → ℕ
usage_reset_in now token msgs = elim (get_elem? msgs token) [
  | none ↦ 0
  | some history ↦ elim history [ [] ↦ 0 | t ∷ ts ↦ t + usage_window - now ]
]
