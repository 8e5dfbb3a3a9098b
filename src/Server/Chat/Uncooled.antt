-- ===== src/Server/Chat/Uncooled.antt =====
-- The answers of the upstream that leave the tokens of a chat request as they are.
use freebuff_proxy_scaleway.Base.{
  ℕ, ◌≡◌, sym, ap, ◌∙◌, inl, inr, String, Bool, true, false, Option, none, some, arith, All,
  Bool-cases, some_inj,
}
use freebuff_proxy_scaleway.Upstream.Failure.{Failure, limited_ip}
use freebuff_proxy_scaleway.Upstream.Fields.{Decoder}
use freebuff_proxy_scaleway.Upstream.Classify.{Answer, classify_error}
use freebuff_proxy_scaleway.Upstream.Classify.Quiet.{cools, may_cool, classify_error-cools}
use freebuff_proxy_scaleway.Server.Chat.{
  Lease, Event, cooled_auth, cooled_ban, cooled_rate, cooled_ip, cooled_country, Turn, react,
  Request, chat_attempt,
}
use freebuff_proxy_scaleway.Server.Chat.Options.{chat_attempt-All}

abbrev pub LeavesTokens : Event → Type 0
LeavesTokens (cooled_auth l) = ⊥
LeavesTokens (cooled_ban l e) = ⊥
LeavesTokens (cooled_rate l e) = ⊥
LeavesTokens (cooled_ip l e) = ⊥
LeavesTokens (cooled_country l e) = ⊥
LeavesTokens e = Unit

-- What a call makes of an answer of the upstream, none for a stream.
abbrev pub classified : Decoder → Option Answer → Option Failure
classified d none = none
classified d (some a) = some (classify_error d a)

abbrev pub IsQuiet : Decoder → Option Answer → Type 0
IsQuiet d none = Unit
IsQuiet d (some a) = may_cool d a ≡ false

react-LeavesTokens :
    (gone : Bool) (l : Lease) (used : String) (f : Failure)
    → cools f ≡ false
    → All LeavesTokens (react gone l used f)
unfolding react cools
react-LeavesTokens true l used (limited_ip e) h = (tt, (tt, tt))
react-LeavesTokens false l used (limited_ip e) h = (tt, (tt, tt))
react-LeavesTokens true l used f h = ground arith
react-LeavesTokens false l used f h = ground arith

quiet-cools :
    (d : Decoder) (answer : Option Answer) (f : Failure)
    → IsQuiet d answer
    → classified d answer ≡ some f
    → cools f ≡ false
quiet-cools d none f s e = cc
quiet-cools d (some a) f s e = elim (Bool-cases (cools f)) [
  | inr no_cooling ↦ no_cooling
  | inl yes_cooling ↦ cc (s, classify_error-cools d a (ap cools (some_inj e) ∙ yes_cooling))
]

-- A chat request whose upstream answers carry neither status 401, 403 or 429 nor a marker of a rate
-- limit cools no token, whatever it retries and whatever the pool gives it.
pub quiet_chat :
    (d : Decoder) (q : Request) (l : Lease) (turns : ℕ → Turn) (body : String)
    (answers : ℕ → Option Answer)
    → ((n : ℕ) → (turns n).answer ≡ classified d (answers n))
    → ((n : ℕ) → IsQuiet d (answers n))
    → All LeavesTokens (chat_attempt q (inr l) turns body).events
quiet_chat d q l turns body answers same quiet =
    chat_attempt-All LeavesTokens (λ n k o b. Unit {0}) q turns (λ k. tt) (λ n k o b h. tt)
      (λ m n. tt) (λ n k k' o b h. tt)
      (λ n f e k m.
        react-LeavesTokens (turns n).gone k m f
          (quiet-cools d (answers n) f (quiet n) (sym (same n) ∙ e)))
      l body tt
