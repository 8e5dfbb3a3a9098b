-- ===== src/Server/Chat.antt =====
-- `chatAttempt` of internal/server/engine.go: the loop that sends a chat through a lease and tries
-- once more. What the pool, the upstream and the context answer in a round is a `Turn`; what the
-- loop does to the pool is a list of events. `step` is what `NextStepNumber` of the lease's run
-- returns, and the log lines and the measured wait are left out.
pub mod Leases
pub mod Options
pub mod Uncooled
mod Tests
use freebuff_proxy_scaleway.Base.{
  ℕ, ◌+◌, String, Bool, true, false, ◌||◌, not, Option, none, some, List, [], ◌∷◌, ◌++◌, ltb,
  nat_eq, if◌then◌else◌, ◌⊎◌, inl, inr, zero, suc,
}
use freebuff_proxy_scaleway.Base.Eq.{◌==◌, String_eq}
use freebuff_proxy_scaleway.Upstream.Errors.{
  RateLimitError, BanError, CountryBlockedError, IpCappedError, LimitedIpError,
}
use freebuff_proxy_scaleway.Upstream.Failure.{
  Failure, rate_limited, banned, country_blocked, ip_capped, limited_ip, credits, session_limit,
  superseded, deferred, waiting_room_required, upstream, auth_rejected, session_invalid,
  run_invalid, as_upstream, UpstreamError,
}
use freebuff_proxy_scaleway.Server.Error.{ServerError, failure}

pub record Lease : Type 0 where
  pub id : ℕ
  pub model : String
  pub agent_id : String
  pub run_id : String
  pub trace_session_id : String
  pub step : ℕ
  pub session_instance_id : String
  pub acquired_at : ℕ

pub record ChatOptions : Type 0 where
  pub model : String
  pub run_id : String
  pub session_instance_id : String
  pub trace_session_id : String
  pub step_number : ℕ

pub data Event : Type 0 where
  acquired : Lease → Event
  chatted : Lease → ChatOptions → String → Event
  released : Lease → Event
  abandoned : Lease → Event
  session_dropped : Lease → Event
  session_superseded : Lease → Event
  run_dropped : Lease → String → Event
  cooled_auth : Lease → Event
  cooled_ban : Lease → BanError → Event
  cooled_rate : Lease → RateLimitError → Event
  cooled_ip : Lease → IpCappedError → Event
  cooled_country : Lease → CountryBlockedError → Event
  marked_unfit : String → Option LimitedIpError → Event
  cleared_unfit : String → ℕ → Event

-- The answer of a round's chat call, whether the context has ended at its release and at the test
-- after it, and what a new acquire gives.
pub record Turn : Type 0 where
  pub answer : Option Failure
  pub gone : Bool
  pub gone_after : Bool
  pub reacquired : ServerError ⊎ Lease

pub data Outcome : Type 0 where
  served : Lease → Outcome
  refused : ServerError → Outcome
  out_of_fuel : Outcome

-- `attempts` and `statuses` are the trace's.
pub record Attempt : Type 0 where
  pub outcome : Outcome
  pub events : List Event
  pub attempts : ℕ
  pub statuses : List ℕ
  pub retried : Bool

-- `attemptStatus`; `int` is `strconv.Atoi`.
pub attempt_status : (String → Option ℕ) → Failure → ℕ
attempt_status int (upstream e) = e.status
attempt_status int (credits e) = e.status
attempt_status int (deferred e) = e.status
attempt_status int (superseded e) = e.status
attempt_status int (session_limit e) = e.status
attempt_status int (waiting_room_required e) = 428
attempt_status int (rate_limited e) = elim (int e.status) [ some n ↦ n | none ↦ 429 ]
attempt_status int f = 0

-- The deferred `release` of a lease.
abbrev pub give_back : Bool → Lease → Event
give_back gone l = if gone then abandoned l else released l

-- What a round does about a failed chat, in the order of its branch.
pub react : Bool → Lease → String → Failure → List Event
react gone l model (limited_ip e) = marked_unfit model (some e) ∷ give_back gone l ∷ []
react gone l model (session_invalid s r) = give_back gone l ∷ session_dropped l ∷ []
react gone l model (waiting_room_required e) = give_back gone l ∷ session_dropped l ∷ []
react gone l model (superseded e) = give_back gone l ∷ session_superseded l ∷ []
react gone l model (run_invalid s) = give_back gone l ∷ run_dropped l l.agent_id ∷ []
react gone l model (auth_rejected n s) = cooled_auth l ∷ give_back gone l ∷ []
react gone l model (banned e) = cooled_ban l e ∷ give_back gone l ∷ []
react gone l model (rate_limited e) = cooled_rate l e ∷ give_back gone l ∷ []
react gone l model (ip_capped e) = cooled_ip l e ∷ give_back gone l ∷ []
react gone l model (country_blocked e) = cooled_country l e ∷ give_back gone l ∷ []
react gone l model f = give_back gone l ∷ []

abbrev is_retryable : Option UpstreamError → Bool
is_retryable none = false
is_retryable (some e) = e.retryable

-- Whether a round gives up after a failed chat.
pub gives_up : ℕ → Bool → Failure → Bool
gives_up attempts gone (limited_ip e) = ltb 1 attempts
gives_up attempts gone (session_invalid s r) = ltb 1 attempts
gives_up attempts gone (waiting_room_required e) = ltb 1 attempts
gives_up attempts gone (superseded e) = true
gives_up attempts gone (run_invalid s) = ltb 1 attempts
gives_up attempts gone (auth_rejected n s) = true
gives_up attempts gone (banned e) = true
gives_up attempts gone (rate_limited e) = true
gives_up attempts gone (ip_capped e) = true
gives_up attempts gone (country_blocked e) = true
gives_up attempts gone (credits e) = true
gives_up attempts gone f = is_retryable (as_upstream f) || ltb 1 attempts || gone

-- The model that a lease is bound to, the requested one if it names none.
abbrev pub effective : String → Lease → String
effective model l = if l.model == "" then model else l.model

-- The body for the model, rewritten unless it is the requested one.
abbrev pub renormalized : (String → String → Option String) → String → String → String → String
renormalized normalize model used body =
    if used == model then body else elim (normalize body used) [ some b ↦ b | none ↦ body ]

abbrev pub first_options : String → Lease → ChatOptions
first_options model l = record {
  model = effective model l;
  run_id = l.run_id;
  session_instance_id = l.session_instance_id;
  trace_session_id = l.trace_session_id;
  step_number = l.step;
}

-- The options of the round after a new acquire.
abbrev pub next_options : String → Lease → ChatOptions → ChatOptions
next_options model l o = record o {
  model = effective model l;
  step_number = if l.run_id == o.run_id then o.step_number else l.step;
  run_id = l.run_id;
  session_instance_id = l.session_instance_id;
}

abbrev pub clear_mark : Lease → String → List Event
clear_mark l used = if nat_eq l.acquired_at 0 then [] else cleared_unfit used l.acquired_at ∷ []

abbrev note_status : ℕ → List ℕ → List ℕ
note_status s statuses = if nat_eq s 0 then statuses else statuses ++ s ∷ []

-- A request: the requested model, `convert.NormalizeRequest` and `strconv.Atoi`.
pub record Request : Type 0 where
  pub model : String
  pub normalize : String → String → Option String
  pub int : String → Option ℕ

pub chat_rounds : ℕ → Request → (ℕ → Turn) → Lease → ChatOptions → String → Attempt → Attempt
unfolding attempt_status react gives_up
chat_rounds zero q turns l o body t = t
chat_rounds (suc n) q turns l o body t =
    let turn = turns t.attempts in
    let attempts = t.attempts + 1 in
    let chat = t.events ++ chatted l o body ∷ [] in
    elim turn.answer [
      | none ↦ record t {
        outcome = served l;
        events = chat ++ clear_mark l o.model;
        attempts = attempts;
        statuses = t.statuses ++ 200 ∷ [];
      }
      | some f ↦
          let failed : Attempt = record t {
            outcome = refused (failure f);
            events = chat ++ react turn.gone l o.model f;
            attempts = attempts;
            statuses = note_status (attempt_status q.int f) t.statuses;
          } in
          elim (gives_up attempts turn.gone_after f) [
            | true ↦ failed
            | false ↦ elim turn.reacquired [
              | inl e ↦ record failed { outcome = refused e }
              | inr l' ↦
                  let used = effective q.model l' in
                  chat_rounds n q turns l' (next_options q.model l' o)
                    (renormalized q.normalize q.model used body)
                    (record failed {
                      outcome = out_of_fuel;
                      events = failed.events ++ acquired l' ∷ [];
                      retried = true;
                    })
            ]
          ]
    ]

abbrev pub untried : Outcome → List Event → Attempt
untried outcome events = record {
  outcome = outcome;
  events = events;
  attempts = 0;
  statuses = [];
  retried = false;
}

-- Two rounds are enough.
pub chat_attempt : Request → (ServerError ⊎ Lease) → (ℕ → Turn) → String → Attempt
unfolding chat_rounds
chat_attempt q (inl e) turns body = untried (refused e) []
chat_attempt q (inr l) turns body =
    chat_rounds 2 q turns l (first_options q.model l)
      (renormalized q.normalize q.model (effective q.model l) body)
      (untried out_of_fuel (acquired l ∷ []))
