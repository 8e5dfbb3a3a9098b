-- ===== src/Upstream/Classify/Bounds.antt =====
-- The delay of every refusal that cools a token by its own delay.
use freebuff_proxy_scaleway.Base.{ℕ, Option, none, some, arith}
use freebuff_proxy_scaleway.Upstream.Failure.{Failure, rate_limited, ip_capped}
use freebuff_proxy_scaleway.Upstream.RateLimit.Bounds.{
  IsBounded, parse_rate_limit_lem, parse_ip_capped-IsBounded,
}
use freebuff_proxy_scaleway.Upstream.Fields.{Decoder}
use freebuff_proxy_scaleway.Upstream.Classify.{
  Answer, classify_error, classify_gate, classify_session, classify_rest, parse_retry_after,
  or_else,
}

-- The delay of a rate limit or of a capped egress.
abbrev pub own_delay : Failure → Option ℕ
own_delay (rate_limited e) = some e.retry_after
own_delay (ip_capped e) = some e.retry_after
own_delay f = none

abbrev pub IsShort : Option ℕ → Type 0
IsShort none = Unit
IsShort (some d) = IsBounded d

abbrev own_delay_maybe : Option Failure → Option ℕ
own_delay_maybe none = none
own_delay_maybe (some f) = own_delay f

gate-IsShort : (d : Decoder) (a : Answer) → IsShort (own_delay_maybe (classify_gate d a))
unfolding classify_gate
gate-IsShort d a = ground arith

session-IsShort : (d : Decoder) (a : Answer) → IsShort (own_delay_maybe (classify_session d a))
unfolding classify_session
session-IsShort d a =
    ground (arith, parse_ip_capped-IsBounded d a.body (parse_retry_after d a.now a.retry_header))

rest-IsShort : (d : Decoder) (a : Answer) → IsShort (own_delay (classify_rest d a))
unfolding classify_rest
rest-IsShort d a =
    let parsed =
      parse_rate_limit_lem d a.now a.reset a.body (parse_retry_after d a.now a.retry_header) in
    ground (arith, parsed.0)

pub classify_error-IsShort : (d : Decoder) (a : Answer) → IsShort (own_delay (classify_error d a))
unfolding classify_error
classify_error-IsShort d a =
    chosen (classify_gate d a) (classify_session d a) (classify_rest d a) (gate-IsShort d a)
      (session-IsShort d a) (rest-IsShort d a)
  where
    chosen :
        (g s : Option Failure) (r : Failure)
        → IsShort (own_delay_maybe g)
        → IsShort (own_delay_maybe s)
        → IsShort (own_delay r)
        → IsShort (own_delay (or_else g (or_else s r)))
    chosen (some f) s r p q t = p
    chosen none (some f) r p q t = q
    chosen none none r p q t = t
