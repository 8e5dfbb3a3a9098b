-- ===== src/Session/Manager.antt =====
-- The manager of one token's session: internal/session/session.go and grace.go, with the entry of
-- store.go that belongs to the token. Each method is one section under the mutex and reads the clock
-- once. The diagnostic fields of the cached state and the account standing are left out.
pub mod Quotas
pub mod View
use freebuff_proxy_scaleway.Base.{
  ℕ, ◌+◌, ◌-◌, ◌*◌, String, Bool, true, false, ◌&&◌, ◌||◌, not, Option, none, some, List, [], ◌∷◌,
  ltb, leb, nat_eq, if◌then◌else◌,
}
use freebuff_proxy_scaleway.Base.Time.{second, minute}
use freebuff_proxy_scaleway.Base.Eq.{◌==◌, String_eq}
use freebuff_proxy_scaleway.Upstream.Failure.{Failure}
use freebuff_proxy_scaleway.Session.Snapshot.{expiry_margin, QuotaSnapshot}

abbrev pub grace_window : ℕ
grace_window = 30 * minute

-- The status of a session, in the cache and in an answer of the upstream.
pub data Status : Type 0 where
  active disabled queued ended superseded absent : Status
  banned country_blocked rate_limited spend_limited ip_capped : Status
  session_model_mismatch limited_ip model_locked model_unavailable : Status
  other : String → Status

abbrev pub Quotas : Type 0
Quotas = List (String × QuotaSnapshot)

-- `quota_by_model` is none for a nil map.
pub record CachedState : Type 0 where
  pub status : Status
  pub instance_id : String
  pub model : String
  pub expires_at : ℕ
  pub grace_period_ends_at : ℕ
  pub position : ℕ
  pub queue_depth : ℕ
  pub poll_at : ℕ
  pub quota_by_model : Option Quotas
  pub glm_promo : String

pub data Reason : Type 0 where
  reason_ended reason_superseded reason_model_lock reason_409 reason_poll : Reason
  reason_named : String → Reason

pub data SessionError : Type 0 where
  failed : Failure → SessionError
  unknown_status : Status → SessionError
  re_admit_refused : SessionError
  refresh_exhausted : SessionError
  not_ready : SessionError

-- The summary that the storm detector logs.
pub record Summary : Type 0 where
  pub logged_at : ℕ
  pub count : ℕ
  pub duration_ms : ℕ
  pub superseded_count : ℕ
  pub burned_slots : ℕ

pub record UnavailableEntry : Type 0 where
  pub until : ℕ
  pub window : String

-- The requests that the manager has sent to the upstream.
pub data Sent : Type 0 where
  sent_get : String → Sent
  sent_create : String → Sent
  sent_probe : Sent
  sent_delete : Sent

-- `persists` says whether there is a store, `stored` is its entry for this token. The lists are
-- oldest first, but `sent` and `summaries` newest first.
pub record Manager : Type 0 where
  pub state : Option CachedState
  pub persists : Bool
  pub stored : Option CachedState
  pub refreshing : Bool
  pub refresh_err : Option SessionError
  pub re_admit_lead : ℕ
  pub re_admit_expiry : ℕ
  pub probe_ttl : ℕ
  pub last_admitted : ℕ
  pub unavailable_ttl : ℕ
  pub model_unavailable_map : List (String × UnavailableEntry)
  pub saved_quota : Option Quotas
  pub saved_glm_promo : String
  pub invalidation_events : List (ℕ × Reason)
  pub re_admit_triggers : List ℕ
  pub last_storm_at : ℕ
  pub model_locks : List (String × String)
  pub summaries : List Summary
  pub sent : List Sent

abbrev pub is_active : Status → Bool
is_active active = true
is_active s = false

abbrev pub is_queued : Status → Bool
is_queued queued = true
is_queued s = false

abbrev pub is_ended : Status → Bool
is_ended ended = true
is_ended s = false

-- `graceEndsAt` of a cached state.
unfoldable pub grace_ends_at : CachedState → ℕ
grace_ends_at s =
    if nat_eq s.grace_period_ends_at 0 && not (nat_eq s.expires_at 0)
    then s.expires_at + grace_window
    else s.grace_period_ends_at

abbrev pub is_before_margin : ℕ → CachedState → Bool
is_before_margin now s = ltb (now + expiry_margin) s.expires_at

unfoldable pub session_usable : ℕ → CachedState → Bool
unfolding grace_ends_at
session_usable now s =
    if s.instance_id == ""
    then false
    else if is_active s.status && is_before_margin now s
    then true
    else not (nat_eq (grace_ends_at s) 0) && ltb now (grace_ends_at s)

unfoldable pub re_admit_due : CachedState → ℕ → ℕ → Bool
unfolding grace_ends_at
re_admit_due s lead now =
    if s.instance_id == ""
    then false
    else if is_active s.status
        && ltb 0 lead
        && is_before_margin now s
        && leb s.expires_at (now + expiry_margin + lead)
    then true
    else not (nat_eq (grace_ends_at s) 0)
      && not (is_before_margin now s)
      && ltb now (grace_ends_at s)

-- `Store.Save` and `Store.Remove` on the entry of the token.
unfoldable pub save : CachedState → Option CachedState
save cs = if cs.instance_id == "" && not (is_queued cs.status) then none else some cs

unfoldable pub remove_if : String → Option CachedState → Option CachedState
remove_if expected none = none
remove_if expected (some cs) =
    if not (expected == "") && not (cs.instance_id == expected) then some cs else none

abbrev pub instance_of : Option CachedState → String
instance_of none = ""
instance_of (some s) = s.instance_id

abbrev pub or_option {ℓ} : {A : Type ℓ} → Option A → Option A → Option A
or_option none o = o
or_option (some a) o = some a

abbrev pub or_text : String → String → String
or_text s t = if s == "" then t else s

-- The quota and the promo block of a state, nothing without one.
abbrev pub quota_in : Option CachedState → Option Quotas
quota_in none = none
quota_in (some s) = s.quota_by_model

abbrev pub promo_in : Option CachedState → String
promo_in none = ""
promo_in (some s) = s.glm_promo

-- What `commit` remembers of the state that it replaces.
unfoldable pub stash : Manager → Manager
stash m = record m {
  saved_quota = or_option (quota_in m.state) m.saved_quota;
  saved_glm_promo = or_text (promo_in m.state) m.saved_glm_promo;
}

unfoldable pub drop_state : Manager → Manager
unfolding stash remove_if
drop_state m = record (stash m) {
  state = none;
  stored = if m.persists then remove_if (instance_of m.state) m.stored else m.stored;
}

unfoldable pub keep_state : CachedState → Manager → Manager
unfolding stash save
keep_state cs m =
    let m' = stash m in
    let cs' : CachedState = record cs {
      quota_by_model = or_option cs.quota_by_model m'.saved_quota;
      glm_promo = or_text cs.glm_promo m'.saved_glm_promo;
    } in
    record m' { state = some cs'; stored = if m.persists then save cs' else m.stored }

-- `commit`, with none for nil.
unfoldable pub commit : Option CachedState → Manager → Manager
unfolding drop_state keep_state
commit none m = drop_state m
commit (some cs) m = keep_state cs m

-- `ClearQueued`.
unfoldable pub clear_queued : Manager → Manager × Bool
unfolding commit
clear_queued m = elim m.state [
  | none ↦ (m, false)
  | some s ↦ if is_queued s.status then (commit none m, true) else (m, false)
]

abbrev pub with_quota : Quotas → Option CachedState → Option CachedState
with_quota q none = none
with_quota q (some s) = some (record s { quota_by_model = some q })

abbrev pub with_promo : String → Option CachedState → Option CachedState
with_promo p none = none
with_promo p (some s) = some (record s { glm_promo = p })

abbrev update_promo : String → Manager → Manager
update_promo p m =
    if p == "" then m else record m { saved_glm_promo = p; state = with_promo p m.state }

abbrev update_quota : Quotas → Manager → Manager
update_quota [] m = m
update_quota (q ∷ qs) m = record m {
  saved_quota = some (q ∷ qs);
  state = with_quota (q ∷ qs) m.state;
}

-- `UpdateQuotaFromProbe`, with the promo block and the quotas of a probe.
unfoldable pub update_quota_from_probe : String → Quotas → Manager → Manager
update_quota_from_probe promo quotas m = update_quota quotas (update_promo promo m)
