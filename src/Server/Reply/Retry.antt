-- ===== src/Server/Reply/Retry.antt =====
-- What the client learns about when to come back.
use freebuff_proxy_scaleway.Base.{
  ℕ, ◌+◌, ◌-◌, ◌/◌, ◌≤◌, ◌≡◌, ◌⊎◌, refl, sym, inl, inr, String, Bool, true, false, ◌&&◌, ◌||◌, not,
  Option, none, some, leb, nat_eq, if◌then◌else◌, arith, ◌≢◌,
}
use mathlib.Core.Path.{subst}
use native.Mathlib.Decide.{ℕ_discrete}
use freebuff_proxy_scaleway.Base.Time.{second}
use freebuff_proxy_scaleway.Base.Text.{contains_text}
use freebuff_proxy_scaleway.Base.Eq.{◌==◌, String_eq}
use freebuff_proxy_scaleway.Upstream.Failure.{
  Failure, rate_limited, banned, upstream, session_invalid, cancelled,
}
use freebuff_proxy_scaleway.Upstream.Fields.{Decoder}
use freebuff_proxy_scaleway.Upstream.Classify.{Answer, classify_error}
use freebuff_proxy_scaleway.Upstream.Classify.Paced.{IsPaced, classify_error-IsPaced}
use freebuff_proxy_scaleway.Server.Error.{ServerError, failure}
use freebuff_proxy_scaleway.Server.Reply.{
  Reply, plain, reply_to_failure, write_error, retry_header, anthropic_error_type,
}

-- The statuses that a failed request may answer with.
pub is_error_status : ℕ → Bool
is_error_status s =
    nat_eq s 400
    || nat_eq s 402
    || nat_eq s 403
    || nat_eq s 409
    || nat_eq s 429
    || nat_eq s 502
    || nat_eq s 503
    || nat_eq s 504

reply_status :
    (now : ℕ) (f : Failure) (r : Reply)
    → reply_to_failure now f ≡ some r
    → is_error_status r.status ≡ true
unfolding reply_to_failure is_error_status
reply_status now (banned e) r h = ground arith
reply_status now f r h = ground arith

-- A delay that reaches the client as at least one second.
abbrev pub HasHeader : ℕ → Type 0
HasHeader retry_after = (n : ℕ) × (retry_header retry_after ≡ some n) × (1 ≤ n)

retry_header_pos : (retry_after : ℕ) → 1 ≤ retry_after → HasHeader retry_after
unfolding retry_header
retry_header_pos t h = ((t + (second - 1)) / second, ground arith, omega arith)

reply_paced :
    (now : ℕ) (f : Failure) (r : Reply)
    → IsPaced f
    → reply_to_failure now f ≡ some r
    → r.status ≡ 429
    → 1 ≤ r.retry_after
unfolding reply_to_failure
reply_paced now (rate_limited e) r p h s = ground arith
reply_paced now f r p h s = ground arith

-- Whatever the upstream answers, the reply to the client has one of eight statuses, and with status
-- 429 it carries a Retry-After of at least one second.
pub classified_reply :
    (d : Decoder) (a : Answer) (now : ℕ) (r : Reply)
    → write_error now false (failure (classify_error d a)) ≡ some r
    → (is_error_status r.status ≡ true) × ((r.status ≢ 429) ⊎ HasHeader r.retry_after)
unfolding write_error
classified_reply d a now r h = (
  reply_status now (classify_error d a) r h,
  elim (ℕ_discrete r.status 429) [
    | no other ↦ inl other
    | yes same ↦ inr (
        retry_header_pos r.retry_after
          (reply_paced now (classify_error d a) r (classify_error-IsPaced d a) h same))
  ],
)

abbrev pub is_waiting_room : String → Bool
is_waiting_room code = code == "waiting_room_queued" || code == "waiting_room_required"

abbrev pub says_overloaded : Reply → Bool
says_overloaded r = anthropic_error_type r.status r.code == "overloaded_error"

abbrev Agrees : Option Reply → Type 0
Agrees none = Unit
Agrees (some r) = says_overloaded r ≡ is_waiting_room r.code

no_waiting_room_if :
    (b : Bool) (s t : String)
    → is_waiting_room s ≡ false
    → is_waiting_room t ≡ false
    → is_waiting_room (if b then s else t) ≡ false
no_waiting_room_if true s t p q = p
no_waiting_room_if false s t p q = q

abbrev is_calm : String → Bool
is_calm s = not (s == "overloaded_error")

calm_if :
    (b : Bool) (s t : String)
    → is_calm s ≡ true
    → is_calm t ≡ true
    → is_calm (if b then s else t) ≡ true
calm_if true s t p q = p
calm_if false s t p q = q

calm_if_never :
    (b : Bool) (s t : String) → is_calm t ≡ true → is_calm (if b && false then s else t) ≡ true
calm_if_never true s t q = q
calm_if_never false s t q = q

unavailable_calm : (n : ℕ) → is_calm (anthropic_error_type n "upstream_unavailable") ≡ true
unfolding anthropic_error_type
unavailable_calm n = calm_if (nat_eq n 401) "authentication_error" _ refl (
    calm_if (nat_eq n 403) "permission_error" _ refl (
      calm_if (nat_eq n 404) "not_found_error" _ refl (
        calm_if (nat_eq n 429) "rate_limit_error" _ refl (
          calm_if_never (nat_eq n 503) "overloaded_error" _
            (calm_if (leb 500 n) "api_error" "invalid_request_error" refl refl)))))

unavailable :
    (n : ℕ) → (anthropic_error_type n "upstream_unavailable" == "overloaded_error") ≡ false
unavailable n =
    not-true (anthropic_error_type n "upstream_unavailable" == "overloaded_error")
      (unavailable_calm n)
  where
    not-true : (b : Bool) → not b ≡ true → b ≡ false
    not-true true h = cc
    not-true false h = refl

retryable-Agrees :
    (b : Bool) (n t : ℕ)
    → Agrees (
        if b
        then some (plain 503 "upstream_retryable" t)
        else some (plain n "upstream_unavailable" t))
unfolding anthropic_error_type
retryable-Agrees true n t = refl
retryable-Agrees false n t = unavailable n

failure-Agrees : (now : ℕ) (f : Failure) → Agrees (reply_to_failure now f)
unfolding reply_to_failure anthropic_error_type
failure-Agrees now cancelled = tt
failure-Agrees now (rate_limited e) = sym (
    no_waiting_room_if (e.status == "load_shedding") "load_shedding"
      (if e.status == "peak_hours" then "peak_hours" else "rate_limited") refl
      (no_waiting_room_if (e.status == "peak_hours") "peak_hours" "rate_limited" refl refl))
failure-Agrees now (upstream e) = retryable-Agrees e.retryable _ e.retry_after
failure-Agrees now (session_invalid s t) = sym (
    no_waiting_room_if (contains_text s "free_mode_legacy_luna_agent") "free_mode_legacy_luna_agent"
      "session_invalid" refl refl)
failure-Agrees now f = refl

error-Agrees : (now : ℕ) (e : ServerError) → Agrees (write_error now false e)
unfolding write_error anthropic_error_type
error-Agrees now (failure f) = failure-Agrees now f
error-Agrees now e = refl

-- The Anthropic reply says `overloaded_error` exactly for the two waiting rooms. The third code of
-- its test, `capacity_deferred`, reaches no reply.
pub overloaded_waits :
    (now : ℕ) (e : ServerError) (r : Reply)
    → write_error now false e ≡ some r
    → says_overloaded r ≡ is_waiting_room r.code
overloaded_waits now e r h = subst Agrees h (error-Agrees now e)
