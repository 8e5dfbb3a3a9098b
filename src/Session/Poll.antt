-- ===== src/Session/Poll.antt =====
-- The periodic poll of internal/session/session_poll.go. The first section decides whether to ask;
-- the second takes the answer, on the manager as other goroutines have left it.
pub mod Answered
use freebuff_proxy_scaleway.Base.{
  ℕ, ◌+◌, String, Bool, true, false, ◌&&◌, ◌||◌, not, Option, none, some, ltb, nat_eq,
  if◌then◌else◌, inl, inr, List, ◌∷◌,
}
use freebuff_proxy_scaleway.Base.Eq.{◌==◌, String_eq}
use freebuff_proxy_scaleway.Upstream.Failure.{Failure, waiting_room_required}
use freebuff_proxy_scaleway.Session.Manager.{
  Manager, CachedState, Status, ended, superseded, absent, banned, reason_poll, sent_get,
  SessionError, failed, grace_window, is_active, is_ended, commit,
}
use freebuff_proxy_scaleway.Session.Answer.{SessionState, status_error, table_reason}
use freebuff_proxy_scaleway.Session.Refresh.{Round, Answer, drop_polled, send, bare}

-- The probe cache: the last answer is young enough.
abbrev pub is_fresh : ℕ → Manager → Bool
is_fresh now m =
    ltb 0 m.probe_ttl && not (nat_eq m.last_admitted 0) && ltb now (m.last_admitted + m.probe_ttl)

-- The instance that a poll asks for, if any.
unfoldable pub poll_target : ℕ → Manager → Option String
poll_target now m = elim m.state [
  | none ↦ none
  | some s ↦
      if not (is_active s.status || is_ended s.status) || s.instance_id == "" || is_fresh now m
      then none
      else some s.instance_id
]

abbrev pub grace_end : SessionState → ℕ
grace_end st =
    if nat_eq st.grace_period_ends_at 0 && not (nat_eq st.expires_at 0)
    then st.expires_at + grace_window
    else st.grace_period_ends_at

abbrev pub in_grace : ℕ → SessionState → Bool
in_grace now st =
    not (st.instance_id == "") && not (nat_eq (grace_end st) 0) && ltb now (grace_end st)

abbrev pub draining : String → SessionState → CachedState
draining model st = record (bare ended) {
  instance_id = st.instance_id;
  model = model;
  expires_at = st.expires_at;
  grace_period_ends_at = grace_end st;
}

-- The polled row, if it still is cached, becomes a row in its grace window.
unfoldable pub keep_draining : String → SessionState → Manager → Manager
unfolding commit
keep_draining instance st m = elim m.state [
  | none ↦ m
  | some s ↦ if s.instance_id == instance then commit (some (draining s.model st)) m else m
]

-- The statuses that end the row without an error, or leave it.
unfoldable pub poll_status : ℕ → String → Status → SessionState → Manager → Manager
unfolding drop_polled keep_draining
poll_status now instance superseded st m = drop_polled now instance (table_reason superseded) m
poll_status now instance absent st m = drop_polled now instance (table_reason absent) m
poll_status now instance ended st m =
    if in_grace now st
    then keep_draining instance st m
    else drop_polled now instance (table_reason ended) m
poll_status now instance status st m = m

abbrev drop_banned : ℕ → String → Status → Manager → Manager
drop_banned now instance banned m = drop_polled now instance reason_poll m
drop_banned now instance status m = m

abbrev fail_poll : ℕ → String → Failure → Manager → Manager
fail_poll now instance (waiting_room_required e) m = drop_polled now instance reason_poll m
fail_poll now instance f m = m

-- The answer to a poll of an instance; `lower` is strings.ToLower.
unfoldable pub poll_answer :
    (String → String) → ℕ → String → Answer → Manager → Manager × Option SessionError
unfolding status_error poll_status
poll_answer lower now instance (inl f) m = (fail_poll now instance f m, some (failed f))
poll_answer lower now instance (inr st) m =
    let confirmed : Manager = record m { last_admitted = now } in
    elim (status_error lower st.status st) [
      | some e ↦ (drop_banned now instance st.status confirmed, some e)
      | none ↦ (poll_status now instance st.status st confirmed, none)
    ]

unfoldable pub poll : (String → String) → ℕ → Round → Manager → Manager × Option SessionError
unfolding poll_target poll_answer
poll lower start r m = elim (poll_target start m) [
  | none ↦ (m, none)
  | some instance ↦
      poll_answer lower r.now instance (r.get instance) (r.others (send (sent_get instance) m))
]
