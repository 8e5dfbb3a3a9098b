-- ===== src/Upstream/Classify/Quiet.antt =====
-- Which answers of the upstream may cool a token down.
use freebuff_proxy_scaleway.Base.{
  ◌≡◌, ap, ◌∙◌, inl, inr, Bool, true, false, ◌||◌, Option, none, some, nat_eq, arith, Option-cases,
}
use freebuff_proxy_scaleway.Base.Text.{contains_text}
use freebuff_proxy_scaleway.Upstream.Failure.{
  Failure, rate_limited, banned, country_blocked, ip_capped, auth_rejected,
}
use freebuff_proxy_scaleway.Upstream.Fields.{Decoder, contains_any}
use freebuff_proxy_scaleway.Upstream.Classify.{
  Answer, classify_error, classify_gate, classify_session, classify_rest,
}

unfoldable pub cools : Failure → Bool
cools (rate_limited e) = true
cools (banned e) = true
cools (country_blocked e) = true
cools (ip_capped e) = true
cools (auth_rejected n s) = true
cools f = false

abbrev cools_maybe : Option Failure → Bool
cools_maybe none = false
cools_maybe (some f) = cools f

-- What an answer must show before it can cool a token.
unfoldable pub may_cool : Decoder → Answer → Bool
may_cool d a =
    nat_eq a.status 401
    || nat_eq a.status 403
    || nat_eq a.status 429
    || contains_text (d.to_lower a.body) "ip_capped"
    || contains_text (d.to_lower a.body) "rate_limited"
    || contains_text (d.to_lower a.body) "spend_limited"

gate_quiet :
    (d : Decoder) (a : Answer) → cools_maybe (classify_gate d a) ≡ true → may_cool d a ≡ true
unfolding classify_gate cools may_cool
gate_quiet d a h = ground arith

session_quiet :
    (d : Decoder) (a : Answer) → cools_maybe (classify_session d a) ≡ true → may_cool d a ≡ true
unfolding classify_session cools may_cool contains_any
session_quiet d a h = ground arith

rest_quiet : (d : Decoder) (a : Answer) → cools (classify_rest d a) ≡ true → may_cool d a ≡ true
unfolding classify_rest cools may_cool contains_any
rest_quiet d a h = ground arith

-- An upstream answer cools a token down only with status 401, 403 or 429 or with one of three
-- markers of a rate limit in its body.
pub classify_error-cools :
    (d : Decoder) (a : Answer) → cools (classify_error d a) ≡ true → may_cool d a ≡ true
unfolding classify_error
classify_error-cools d a h = elim (Option-cases (classify_gate d a)) [
  | inr (f, e) ↦ gate_quiet d a (ap cools_maybe e ∙ (rw (classify_error, e) at h))
  | inl e ↦ elim (Option-cases (classify_session d a)) [
    | inr (f, s) ↦ session_quiet d a (ap cools_maybe s ∙ (rw (classify_error, e, s) at h))
    | inl s ↦ rest_quiet d a (rw (classify_error, e, s) at h)
  ]
]
