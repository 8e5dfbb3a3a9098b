-- ===== src/Upstream/Classify.antt =====
-- `classifyError` of internal/upstream/ratelimit.go, and the ledger of rate-limit codes that
-- `Client.classify` keeps. The header is the text of Retry-After, empty if there is none.
pub mod Quiet
pub mod Bounds
pub mod Paced
use freebuff_proxy_scaleway.Base.{
  ℕ, ◌+◌, String, Bool, true, false, ◌&&◌, ◌||◌, not, Option, none, some, List, [], ◌∷◌, nat_eq,
  if◌then◌else◌, ◌*◌,
}
use freebuff_proxy_scaleway.Base.Eq.{◌==◌, String_eq}
use freebuff_proxy_scaleway.Base.Map.{lookup, insert}
use freebuff_proxy_scaleway.Base.Text.{contains_text}
use freebuff_proxy_scaleway.Upstream.Errors.{BanError, CountryBlockedError}
use freebuff_proxy_scaleway.Upstream.Failure.{
  Failure, rate_limited, banned, country_blocked, ip_capped, limited_ip, credits, session_limit,
  superseded, deferred, waiting_room, waiting_room_required, upstream, auth_rejected,
  session_invalid, run_invalid, cli_required,
}
use freebuff_proxy_scaleway.Upstream.Delay.{
  cooldown_from_seconds, until_reset_at, load_shed_cooldown, peak_hours_cooldown,
}
use freebuff_proxy_scaleway.Upstream.Fields.{
  Decoder, Json, other, number, object, get_field, get_text, parse_flex_time, contains_any,
  truncate,
}
use freebuff_proxy_scaleway.Upstream.RateLimit.{
  parse_rate_limit, parse_ip_capped, rate_limit_window,
}

pub parse_retry_after : Decoder → ℕ → String → ℕ
parse_retry_after d now header = if header == "" then 0 else elim (d.int header) [
  | some seconds ↦ cooldown_from_seconds (seconds * 1_000_000)
  | none ↦ elim (d.http_time header) [ some t ↦ until_reset_at t now | none ↦ 0 ]
]

-- The body is decoded into a struct, which fails where a field has another type. `status` is such a
-- field beside `resumes_at`.
abbrev is_text : Option Json → Bool
is_text (some (number n)) = false
is_text (some (object f)) = false
is_text (some other) = false
is_text v = true

pub parse_ban : Decoder → String → BanError
parse_ban d body = record {
  resumes_at = elim (d.json body) [
    | none ↦ 0
    | some m ↦
        if is_text (get_field "status" m)
        then elim (parse_flex_time d (get_field "resumes_at" m)) [ some t ↦ t | none ↦ 0 ]
        else 0
  ];
  body = truncate body 200;
}

-- `signals` is what the decoder reads as the list `ipPrivacySignals`, none if the struct's decoding
-- fails.
pub parse_country_block : Decoder → Option (List String) → String → CountryBlockedError
parse_country_block d none body = record {
  country_code = "";
  country_block_reason = "";
  ip_privacy_signals = [];
}
parse_country_block d (some signals) body = elim (d.json body) [
  | none ↦ record { country_code = ""; country_block_reason = ""; ip_privacy_signals = [] }
  | some m ↦ record {
    country_code = get_text "countryCode" "" m;
    country_block_reason = get_text "countryBlockReason" "" m;
    ip_privacy_signals = signals;
  }
]

-- An answer of the upstream with what a call reads beside it.
pub record Answer : Type 0 where
  pub status : ℕ
  pub body : String
  pub retry_header : String
  pub signals : Option (List String)
  pub now : ℕ
  pub reset : ℕ

-- A refusal with a bounded delay and no window of its own.
abbrev shed : String → ℕ → String → Failure
shed status delay body = rate_limited (record {
  status = status;
  model = "";
  retry_after = delay;
  limit = 0;
  recent_count = 0;
  reset_at = 0;
  period = "";
  window = "";
  body = truncate body 200;
})

-- The cases that the status or a marker of the body decides before the rate limits.
unfoldable pub classify_gate : Decoder → Answer → Option Failure
unfolding parse_retry_after parse_ban parse_country_block
classify_gate d a =
    let lower = d.to_lower a.body in
    let retry_after = parse_retry_after d a.now a.retry_header in
    let short = truncate a.body 200 in
    if nat_eq a.status 403 && contains_text lower "\"status\":\"banned\""
    then some (banned (parse_ban d a.body))
    else if nat_eq a.status 403 && contains_text lower "\"error\":\"account_suspended\""
    then some (banned (parse_ban d a.body))
    else if contains_text lower "deployment_outside_hours"
    then some (
        upstream (record {
          status = a.status;
          body = truncate a.body 500;
          retry_after = retry_after;
          retryable = true;
        }))
    else if contains_any lower ("free_mode_capacity_deferred" ∷ [])
    then some (
        deferred
          (record { status = a.status; retry_after = retry_after; body = truncate a.body 500 }))
    else if nat_eq a.status 401
    then some (auth_rejected a.status short)
    else if nat_eq a.status 503
    then some (waiting_room (record { retry_after = retry_after; detail = short }))
    else if nat_eq a.status 402
    then some (credits (record { status = a.status; body = short }))
    else if nat_eq a.status 409 && contains_any lower ("session_limit_reached" ∷ [])
    then some (session_limit (record { status = a.status; body = short }))
    else if nat_eq a.status 403 && contains_text lower "free_mode_cli_required"
    then some (cli_required a.status short)
    else if nat_eq a.status 403 && contains_text lower "country_blocked"
    then some (country_blocked (parse_country_block d a.signals a.body))
    else none

-- The cases of the session and of the run.
unfoldable pub classify_session : Decoder → Answer → Option Failure
classify_session d a =
    let lower = d.to_lower a.body in
    let retry_after = parse_retry_after d a.now a.retry_header in
    let short = truncate a.body 200 in
    if contains_any lower ("ip_capped" ∷ [])
    then some (ip_capped (parse_ip_capped d a.body retry_after))
    else if contains_any lower ("waiting_room_queued" ∷ [])
    then some (waiting_room (record { retry_after = retry_after; detail = short }))
    else if contains_any lower ("waiting_room_required" ∷ [])
    then some (waiting_room_required (record { retry_after = retry_after; detail = short }))
    else if contains_any lower ("session_model_mismatch" ∷ [])
        && contains_any lower ("limited" ∷ [])
    then some (limited_ip (record { model = ""; retry_after = retry_after; body = short }))
    else if contains_any lower ("session_superseded" ∷ [])
    then some (superseded (record { status = a.status; body = short }))
    else if contains_any lower (
        "freebuff_update_required" ∷ "session_expired" ∷ "session_model_mismatch" ∷ "model_locked"
        ∷ "free_mode_legacy_luna_agent" ∷ "free_mode_legacy_luna" ∷ [])
    then some (session_invalid short retry_after)
    else if nat_eq a.status 400 && contains_any lower ("runid not found" ∷ "runid not running" ∷ [])
    then some (run_invalid short)
    else none

-- The rate limits and what is left.
unfoldable pub classify_rest : Decoder → Answer → Failure
classify_rest d a =
    let lower = d.to_lower a.body in
    let retry_after = parse_retry_after d a.now a.retry_header in
    if nat_eq a.status 429 && contains_any lower ("insufficient_quota" ∷ "limit_burst_rate" ∷ [])
    then shed "load_shedding" load_shed_cooldown a.body
    else if nat_eq a.status 429 && contains_any lower ("peak hours" ∷ [])
    then shed "peak_hours" peak_hours_cooldown a.body
    else if nat_eq a.status 429 || contains_any lower ("rate_limited" ∷ "spend_limited" ∷ [])
    then rate_limited (parse_rate_limit d a.now a.reset a.body retry_after)
    else upstream (record {
      status = a.status;
      body = truncate a.body 500;
      retry_after = retry_after;
      retryable = false;
    })

abbrev pub or_else : Option Failure → Failure → Failure
or_else none f = f
or_else (some g) f = g

unfoldable pub classify_error : Decoder → Answer → Failure
unfolding classify_gate classify_session classify_rest
classify_error d a =
    or_else (classify_gate d a) (or_else (classify_session d a) (classify_rest d a))

-- The code of the ledger: the body's, or one for the kind of the refusal. `body_code` fails like
-- `parse_ban` where a field has another type.
pub body_code : Decoder → String → String
body_code d body = elim (d.json body) [
  | none ↦ ""
  | some m ↦
      if not (is_text (get_field "error" m)) || not (is_text (get_field "type" m))
      then ""
      else if not (get_text "error" "" m == "")
      then get_text "error" "" m
      else get_text "type" "" m
]

abbrev or_text : String → String → String
or_text s t = if not (s == "") then s else t

pub rate_limit_code : Decoder → String → Failure → String
unfolding body_code
rate_limit_code d body (rate_limited e) =
    or_text (body_code d body) (or_text e.status "rate_limited")
rate_limit_code d body (ip_capped e) = or_text (body_code d body) "ip_capped"
rate_limit_code d body (deferred e) = or_text (body_code d body) "free_mode_capacity_deferred"
rate_limit_code d body f = ""

pub failure_window : String → Failure → String
failure_window lower (rate_limited e) = rate_limit_window lower e.reset_at e.retry_after
failure_window lower (ip_capped e) = rate_limit_window lower 0 e.retry_after
failure_window lower (deferred e) = rate_limit_window lower 0 e.retry_after
failure_window lower f = rate_limit_window lower 0 0

-- `rateLimitInfo`: the code and the window, the empty texts outside the family.
pub rate_limit_info : Decoder → String → Failure → String × String
unfolding rate_limit_code failure_window
rate_limit_info d body f =
    let code = rate_limit_code d body f in
    if code == "" then ("", "") else (code, failure_window (d.to_lower body) f)

-- What `classify` records of a client: the flag of the ad chain and a counter for each code.
pub record Ledger : Type 0 where
  pub chain_required : Bool
  pub events : List (String × ℕ)

abbrev count_or_zero : Option ℕ → ℕ
count_or_zero none = 0
count_or_zero (some n) = n

pub count_rate_limit_event : String → List (String × ℕ) → List (String × ℕ)
count_rate_limit_event code events = insert code (count_or_zero (lookup code events) + 1) events

abbrev asks_chain : Failure → Bool
asks_chain (waiting_room_required e) = true
asks_chain f = false

pub record_failure : Decoder → String → Failure → Ledger → Ledger
unfolding rate_limit_info count_rate_limit_event
record_failure d body f l =
    let code = (rate_limit_info d body f).0 in
    record {
      chain_required = asks_chain f || l.chain_required;
      events = if not (code == "") then count_rate_limit_event code l.events else l.events;
    }

pub classify : Decoder → Answer → Ledger → Ledger × Failure
unfolding classify_error record_failure
classify d a l = let f = classify_error d a in (record_failure d a.body f l, f)
