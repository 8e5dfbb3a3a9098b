-- ===== src/Upstream/Classify/Paced.antt =====
-- Refusals that a client may have to wait out after status 429.
use freebuff_proxy_scaleway.Base.{◌≤◌, ◌≡◌, ◌⊎◌, true, false, Option, none, some, nat_eq, arith}
use freebuff_proxy_scaleway.Upstream.Failure.{Failure, rate_limited, ip_capped, upstream}
use freebuff_proxy_scaleway.Upstream.RateLimit.Bounds.{
  parse_rate_limit_lem, parse_ip_capped-IsBounded,
}
use freebuff_proxy_scaleway.Upstream.Fields.{Decoder}
use freebuff_proxy_scaleway.Upstream.Classify.{
  Answer, classify_error, classify_gate, classify_session, classify_rest, parse_retry_after,
  or_else,
}

-- A rate limit has a delay, and no other final refusal keeps status 429.
abbrev pub IsPaced : Failure → Type 0
IsPaced (rate_limited e) = 1 ≤ e.retry_after
IsPaced (ip_capped e) = 1 ≤ e.retry_after
IsPaced (upstream e) = (e.retryable ≡ true) ⊎ (nat_eq e.status 429 ≡ false)
IsPaced f = Unit

abbrev IsPacedIfAny : Option Failure → Type 0
IsPacedIfAny none = Unit
IsPacedIfAny (some f) = IsPaced f

gate-IsPaced : (d : Decoder) (a : Answer) → IsPacedIfAny (classify_gate d a)
unfolding classify_gate
gate-IsPaced d a = ground arith

session-IsPaced : (d : Decoder) (a : Answer) → IsPacedIfAny (classify_session d a)
unfolding classify_session
session-IsPaced d a =
    ground (arith, parse_ip_capped-IsBounded d a.body (parse_retry_after d a.now a.retry_header))

rest-IsPaced : (d : Decoder) (a : Answer) → IsPaced (classify_rest d a)
unfolding classify_rest
rest-IsPaced d a =
    let parsed =
      parse_rate_limit_lem d a.now a.reset a.body (parse_retry_after d a.now a.retry_header) in
    ground (arith, parsed.0)

pub classify_error-IsPaced : (d : Decoder) (a : Answer) → IsPaced (classify_error d a)
unfolding classify_error
classify_error-IsPaced d a =
    chosen (classify_gate d a) (classify_session d a) (classify_rest d a) (gate-IsPaced d a)
      (session-IsPaced d a) (rest-IsPaced d a)
  where
    chosen :
        (g s : Option Failure) (r : Failure)
        → IsPacedIfAny g
        → IsPacedIfAny s
        → IsPaced r
        → IsPaced (or_else g (or_else s r))
    chosen (some f) s r p q t = p
    chosen none (some f) r p q t = q
    chosen none none r p q t = t
