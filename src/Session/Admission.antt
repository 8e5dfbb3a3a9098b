-- ===== src/Session/Admission.antt =====
-- The admission of a session: adoptOrCreate, adoptOwner and createSessionForModel of
-- internal/session/session_admission.go, and the ends of a session in session.go and there.
pub mod Guard
use freebuff_proxy_scaleway.Base.{
  ℕ, ◌+◌, String, Bool, true, false, ◌&&◌, ◌||◌, not, Option, none, some, List, ◌∷◌, leb, nat_eq,
  zero, suc, ltb, if◌then◌else◌, inl, inr,
}
use freebuff_proxy_scaleway.Base.Int.{ℤ, pos}
use freebuff_proxy_scaleway.Base.Eq.{◌==◌, String_eq}
use freebuff_proxy_scaleway.Upstream.Errors.{RateLimitError}
use freebuff_proxy_scaleway.Upstream.Failure.{
  Failure, rate_limited, transport, session_invalid, superseded,
}
use freebuff_proxy_scaleway.Session.Snapshot.{GlmPromo, referral_model}
use freebuff_proxy_scaleway.Session.Manager.{
  Manager, CachedState, Quotas, Status, active, queued, disabled, Reason, reason_409, sent_get,
  sent_create, sent_probe, sent_delete, is_active, instance_of, commit, save,
  update_quota_from_probe,
}
use freebuff_proxy_scaleway.Session.Manager.View.{entitled}
use freebuff_proxy_scaleway.Session.Storm.{record_invalidation}
use freebuff_proxy_scaleway.Session.Answer.{SessionState, poll_time}
use freebuff_proxy_scaleway.Session.Refresh.{Answer, send}

-- The record of the official CLI.
pub record CliOwner : Type 0 where
  pub instance_id : String
  pub pid : ℤ

-- `adopting`: CLI adoption is enabled, with the owner file as it is read now and the snapshot of the
-- start. `probe` is the promo block and the quotas that a probe of the account answers, none if it
-- fails.
pub record World : Type 0 where
  pub now : ℕ
  pub adopting : Bool
  pub owner_file : Option CliOwner
  pub initial : CliOwner
  pub alive : ℤ → Bool
  pub get : String → Answer
  pub create : String → Answer
  pub probe : Option (String × Quotas)
  pub decode : String → Option GlmPromo

abbrev is_zero : ℤ → Bool
is_zero (pos zero) = true
is_zero i = false

abbrev is_positive : ℤ → Bool
is_positive (pos (suc n)) = true
is_positive i = false

unfoldable pub adopt_owner : World → Option CliOwner
adopt_owner w = elim w.owner_file [
  | none ↦ none
  | some o ↦ if o.instance_id == "" && is_zero o.pid then some w.initial else some o
]

abbrev no_quota : String → RateLimitError
no_quota model = record {
  status = "rate_limited";
  model = model;
  retry_after = 0;
  limit = 0;
  recent_count = 0;
  reset_at = 0;
  period = "";
  window = "";
  body = "token has no referral quota";
}

-- A rate limit is tagged with the model that was asked for.
abbrev pub tag_model : String → Answer → Answer
tag_model model (inl (rate_limited e)) =
    inl (rate_limited (if e.model == "" then record e { model = model } else e))
tag_model model a = a

abbrev post : World → String → Manager → Manager × Answer
post w model m = (send (sent_create model) m, tag_model model (w.create model))

unfoldable pub probe_account : World → Manager → Manager
unfolding update_quota_from_probe
probe_account w m = elim w.probe [
  | none ↦ send sent_probe m
  | some (promo, quotas) ↦ update_quota_from_probe promo quotas (send sent_probe m)
]

-- The manager goes by what it knows, or asks with a probe.
unfoldable pub ensure_entitled : World → Manager → Manager
unfolding entitled probe_account
ensure_entitled w m = if entitled w.decode w.now m then m else probe_account w m

unfoldable pub create_session_for_model : World → String → Manager → Manager × Answer
unfolding ensure_entitled
create_session_for_model w model m =
    if model == referral_model
    then (let m' = ensure_entitled w m in
        if entitled w.decode w.now m'
        then post w model m'
        else (m', inl (rate_limited (no_quota model))))
    else post w model m

-- The answer to a poll of the CLI's own session.
abbrev adopted : ℕ → String → Status → SessionState → Answer
adopted now model active st =
    if not (model == "") && not (st.model == "") && not (st.model == model)
    then inl (transport "the CLI session is for another model")
    else inr st
adopted now model queued st = inr (record st { poll_at = poll_time now st })
adopted now model disabled st = inr st
adopted now model status st = inl (transport "the CLI session is not adoptable")

abbrev pub adopt : ℕ → String → Answer → Answer
adopt now model (inl f) = inl (transport "the CLI session could not be verified")
adopt now model (inr st) = adopted now model st.status st

abbrev pub is_running : World → CliOwner → Bool
is_running w o = is_positive o.pid && w.alive o.pid

unfoldable pub adopt_or_create : World → String → Manager → Manager × Answer
unfolding adopt_owner create_session_for_model poll_time
adopt_or_create w model m =
    if not w.adopting then create_session_for_model w model m else elim (adopt_owner w) [
      | none ↦ (m, inl (transport "the owner file is missing"))
      | some o ↦
          if not (is_running w o)
          then create_session_for_model w model m
          else if o.instance_id == ""
          then (m, inl (transport "no session instance was recorded"))
          else (send (sent_get o.instance_id) m, adopt w.now model (w.get o.instance_id))
    ]

-- `InvalidateWithReason`; `Invalidate` has the reason 409.
unfoldable pub invalidate_with_reason : ℕ → Reason → Manager → Manager
unfolding commit record_invalidation
invalidate_with_reason now reason m = record_invalidation now reason (commit none m)

-- `InvalidateInstanceWithReason`.
unfoldable pub invalidate_instance : ℕ → String → Reason → Manager → Manager
unfolding invalidate_with_reason
invalidate_instance now instance reason m = if instance == "" then m else elim m.state [
  | none ↦ m
  | some s ↦ if s.instance_id == instance then invalidate_with_reason now reason m else m
]

-- What is left of the error of a DELETE: a slot that is gone already is no error.
abbrev pub slot_error : Option Failure → Option Failure
slot_error none = none
slot_error (some (session_invalid s r)) = none
slot_error (some (superseded e)) = none
slot_error (some f) = some f

-- `EndSession`, with the answer to the DELETE.
unfoldable pub end_session : Option Failure → Manager → Manager × Option Failure
unfolding commit
end_session deleted m =
    if instance_of m.state == ""
    then (commit none m, none)
    else (send sent_delete (commit none m), slot_error deleted)

-- A scarce session with time left survives a shutdown.
abbrev pub keeps_scarce : ℕ → (String → Bool) → CachedState → Bool
keeps_scarce now scarce s =
    is_active s.status && scarce s.model && not (nat_eq s.expires_at 0) && ltb now s.expires_at

-- `Shutdown`; `scarce` tells the scarce models.
unfoldable pub shutdown : ℕ → (String → Bool) → Option Failure → Manager → Manager × Option Failure
unfolding end_session save
shutdown now scarce deleted m = if not m.persists then end_session deleted m else elim m.state [
  | none ↦ (m, none)
  | some s ↦
      if s.instance_id == ""
      then (m, none)
      else (let m' : Manager = record m { stored = save s } in
          if keeps_scarce now scarce s
          then (m', none)
          else (send sent_delete m', slot_error deleted))
]
