-- ===== src/Server/Chat/Tests.antt =====
-- A chat whose session has expired and that is served by another token.
use freebuff_proxy_scaleway.Base.{
  ℕ, ◌*◌, ◌≡◌, refl, Bool, true, false, String, Option, none, some, List, ◌∷◌, [], inr, zero, suc,
  All,
}
use freebuff_proxy_scaleway.Base.Time.{second}
use freebuff_proxy_scaleway.Upstream.Failure.{session_invalid}
use freebuff_proxy_scaleway.Upstream.Samples.{decoder, expired_answer, expired_quiet}
use freebuff_proxy_scaleway.Upstream.Classify.{Answer}
use freebuff_proxy_scaleway.Server.Chat.{
  Lease, Event, acquired, chatted, released, session_dropped, cleared_unfit, Turn, served, Request,
  Attempt, chat_attempt, chat_rounds, react, gives_up,
}
use freebuff_proxy_scaleway.Server.Chat.Leases.{IsBalanced, chat_attempt-IsBalanced}
use freebuff_proxy_scaleway.Server.Chat.Options.{
  IsNormalizer, IsAddressed, chat_attempt-IsAddressed,
}
use freebuff_proxy_scaleway.Server.Chat.Uncooled.{LeavesTokens, IsQuiet, classified, quiet_chat}

abbrev first_lease : Lease
first_lease = record {
  id = 1;
  model = "z-ai/glm-5.1";
  agent_id = "base2";
  run_id = "run-1";
  trace_session_id = "trace-1";
  step = 4;
  session_instance_id = "i-1";
  acquired_at = 9;
}

abbrev second_lease : Lease
second_lease = record first_lease {
  id = 2;
  run_id = "run-2";
  trace_session_id = "trace-2";
  step = 1;
  session_instance_id = "i-2";
}

abbrev request : Request
request = record {
  model = "z-ai/glm-5.1";
  normalize = λ body model. some "rewritten";
  int = λ s. none;
}

abbrev expired : Turn
expired = record {
  answer = some (session_invalid "session_expired" (30 * second));
  gone = false;
  gone_after = false;
  reacquired = inr second_lease;
}

abbrev streams : Turn
streams = record expired { answer = none }

abbrev turns : ℕ → Turn
turns zero = expired
turns (suc n) = streams

-- The upstream's answers in these turns.
abbrev answers : ℕ → Option Answer
answers zero = some expired_answer
answers (suc n) = none

abbrev answered : ℕ → Turn
answered n = record expired { answer = classified decoder (answers n) }

abbrev outcome : Attempt
outcome = chat_attempt request (inr first_lease) turns "{}"

served_by_the_second : outcome.outcome ≡ served second_lease
unfolding chat_attempt chat_rounds gives_up
served_by_the_second = refl

-- The retry keeps the trace of the first lease.
two_calls :
    outcome.events
    ≡ acquired first_lease
      ∷ chatted first_lease
          (record {
            model = "z-ai/glm-5.1";
            run_id = "run-1";
            session_instance_id = "i-1";
            trace_session_id = "trace-1";
            step_number = 4;
          })
          "{}"
      ∷ released first_lease
      ∷ session_dropped first_lease
      ∷ acquired second_lease
      ∷ chatted second_lease
          (record {
            model = "z-ai/glm-5.1";
            run_id = "run-2";
            session_instance_id = "i-2";
            trace_session_id = "trace-1";
            step_number = 1;
          })
          "{}"
      ∷ cleared_unfit "z-ai/glm-5.1" 9
      ∷ []
unfolding chat_attempt chat_rounds gives_up react
two_calls = refl

chat_attempt-IsBalanced_example : IsBalanced outcome
chat_attempt-IsBalanced_example = chat_attempt-IsBalanced request (inr first_lease) turns "{}"

-- A body is the name of its model here. The first lease is bound to the fallback of the requested
-- model, and the retry is back at the requested one.
abbrev renaming : Request
renaming = record request { normalize = λ body model. some model }

abbrev is_body : String → Bool
is_body body = true

abbrev model_of : String → String
model_of body = body

renaming-IsNormalizer : IsNormalizer is_body model_of renaming.normalize
renaming-IsNormalizer = record {
  rewritten = λ body used. used;
  works = λ body used b full. refl;
  stays = λ body used b. refl;
  names = λ body used b. refl;
}

abbrev fallback_lease : Lease
fallback_lease = record first_lease { model = "mimo" }

chat_attempt-IsAddressed_example :
    All
      (IsAddressed renaming is_body model_of renaming-IsNormalizer fallback_lease)
      (chat_attempt renaming (inr fallback_lease) turns "z-ai/glm-5.1").events
chat_attempt-IsAddressed_example =
    chat_attempt-IsAddressed renaming is_body model_of renaming-IsNormalizer fallback_lease turns
      "z-ai/glm-5.1" refl refl

-- The retry has the requested model in its options and the fallback in its body.
abbrev retried_bodies : List Event → List (String × String)
retried_bodies [] = []
retried_bodies (chatted l o body ∷ es) = (o.model, model_of body) ∷ retried_bodies es
retried_bodies (e ∷ es) = retried_bodies es

disagrees :
    retried_bodies (chat_attempt renaming (inr fallback_lease) turns "z-ai/glm-5.1").events
    ≡ ("mimo", "mimo") ∷ ("z-ai/glm-5.1", "mimo") ∷ []
unfolding chat_attempt chat_rounds gives_up react
disagrees = refl

answers-IsQuiet : (n : ℕ) → IsQuiet decoder (answers n)
answers-IsQuiet zero = expired_quiet
answers-IsQuiet (suc n) = tt

quiet_chat_example : All LeavesTokens (chat_attempt request (inr first_lease) answered "{}").events
quiet_chat_example =
    quiet_chat decoder request first_lease answered "{}" answers (λ n. refl) answers-IsQuiet
