-- ===== src/Pool/Order.antt =====
-- The order in which an acquire tries the tokens, `acquireOrder` of internal/pool/acquire.go. All
-- snapshots of one pass are read at one instant. A value of the table of admissions is a token, or
-- `none` for the sentinel -1 of a leader whose token is not known.
pub mod Rotation
pub mod Members
pub mod Ranked
use freebuff_proxy_scaleway.Base.{
  ℕ, zero, suc, ◌+◌, ◌%◌, String, Bool, true, false, ◌&&◌, ◌||◌, not, Option, none, some, List, [],
  ◌∷◌, ◌++◌, ltb, nat_eq, if◌then◌else◌, length, get_elem?,
}
use freebuff_proxy_scaleway.Base.Eq.{◌==◌, ℕ_eq}
use freebuff_proxy_scaleway.Upstream.Errors.{RateLimitError}
use freebuff_proxy_scaleway.Session.Snapshot.{SessionSnapshot, usable, matches_model}
use freebuff_proxy_scaleway.Runs.Cooldown.{Cooldowns}
use freebuff_proxy_scaleway.Pool.Quota.{quota_remaining, quota_limit_error}

pub record TokenEntry : Type 0 where
  pub session : SessionSnapshot
  pub runs : Cooldowns
  pub locked : Bool

abbrev pub same_bool : Bool → Bool → Bool
same_bool true b = b
same_bool false b = not b

-- What a pass reads besides the tokens.
pub record View : Type 0 where
  pub now : ℕ
  pub model : String
  pub admitting : Option ℕ
  pub last_used : Option ℕ

abbrev pub is_token : ℕ → Option ℕ → Bool
is_token i none = false
is_token i (some k) = nat_eq i k

unfoldable pub eligible : View → TokenEntry → Bool
eligible v tok = not tok.locked && not (quota_remaining v.now tok.session v.model).capped

pub data Group : Type 0 where
  matching_hot cold mismatched_hot : Group

pub group : View → ℕ → TokenEntry → Group
group v i tok =
    let adm = is_token i v.admitting in
    if usable v.now tok.session || tok.session.refreshing || adm
    then (if matches_model tok.session v.model || adm then matching_hot else mismatched_hot)
    else cold

abbrev pub same_group : Group → Group → Bool
same_group matching_hot matching_hot = true
same_group cold cold = true
same_group mismatched_hot mismatched_hot = true
same_group _ _ = false

-- The indices `(start + offset) % n` for `k` offsets from `offset` on.
pub rotation : ℕ → ℕ → ℕ → ℕ → List ℕ
rotation n start zero offset = []
rotation n start (suc k) offset = (start + offset) % n ∷ rotation n start k (offset + 1)

-- The eligible tokens of one group, in the order of the loop.
abbrev pub joins : View → List TokenEntry → Group → ℕ → Bool
joins v toks g i = elim (get_elem? toks i) [
  | none ↦ false
  | some tok ↦ eligible v tok && same_group (group v i tok) g
]

pub collect : View → List TokenEntry → Group → List ℕ → List ℕ
unfolding eligible group
collect v toks g [] = []
collect v toks g (i ∷ is) =
    let rest = collect v toks g is in if joins v toks g i then i ∷ rest else rest

-- What the comparison of two matching tokens reads of each.
pub record Rank : Type 0 where
  pub admission : Bool
  pub known : Bool
  pub remaining : ℕ
  pub last : Bool
  pub index : ℕ

pub rank_of : View → ℕ → TokenEntry → Rank
rank_of v i tok =
    let q = quota_remaining v.now tok.session v.model in
    record {
      admission = tok.session.refreshing || is_token i v.admitting;
      known = q.known;
      remaining = q.remaining;
      last = is_token i v.last_used;
      index = i;
    }

-- The comparison function of the stable sort.
pub precedes : Rank → Rank → Bool
precedes a b =
    if not (same_bool a.admission b.admission)
    then a.admission
    else if not (same_bool a.known b.known)
    then a.known
    else if a.known && not (nat_eq a.remaining b.remaining)
    then ltb a.remaining b.remaining
    else if a.last && not b.last
    then true
    else if b.last && not a.last
    then false
    else ltb a.index b.index

abbrev pub less : View → List TokenEntry → ℕ → ℕ → Bool
less v toks a b = elim (get_elem? toks a) [
  | none ↦ false
  | some x ↦ elim (get_elem? toks b) [
    | none ↦ false
    | some y ↦ precedes (rank_of v a x) (rank_of v b y)
  ]
]

-- `sort.SliceStable`, as an insertion sort: an element goes before the first one that is not less.
pub insert_sorted : View → List TokenEntry → ℕ → List ℕ → List ℕ
unfolding precedes rank_of
insert_sorted v toks a [] = a ∷ []
insert_sorted v toks a (b ∷ bs) =
    let later = b ∷ insert_sorted v toks a bs in if less v toks b a then later else a ∷ b ∷ bs

pub sort_stable : View → List TokenEntry → List ℕ → List ℕ
unfolding insert_sorted
sort_stable v toks [] = []
sort_stable v toks (a ∷ more) = insert_sorted v toks a (sort_stable v toks more)

pub ranked_order : View → List TokenEntry → ℕ → List ℕ
unfolding rotation collect sort_stable
ranked_order v toks start =
    let all = rotation (length toks) start (length toks) 0 in
    sort_stable v toks (collect v toks matching_hot all)
    ++ (collect v toks cold all ++ collect v toks mismatched_hot all)

abbrev pub occurs : ℕ → List ℕ → Bool
occurs i [] = false
occurs i (j ∷ js) = nat_eq j i || occurs i js

-- The refusals of the capped tokens that the order leaves out; `toks` starts at index `i`.
pub quota_limited_from : View → List ℕ → ℕ → List TokenEntry → List RateLimitError
quota_limited_from v order i [] = []
quota_limited_from v order i (tok ∷ toks) =
    let rest = quota_limited_from v order (i + 1) toks in
    if occurs i order
    then rest
    else if (quota_remaining v.now tok.session v.model).capped
    then quota_limit_error v.now tok.session v.model ∷ rest
    else rest

unfoldable pub acquire_order : View → List TokenEntry → ℕ → List ℕ × List RateLimitError
unfolding ranked_order quota_limited_from
acquire_order v toks start =
    let n = length toks in
    let order = ranked_order v toks start in
    if nat_eq (length order) 0
    then (rotation n start n 0, [])
    else (order, quota_limited_from v order 0 toks)
