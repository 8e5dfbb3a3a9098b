-- ===== src/Server/Chat/Leases.antt =====
-- The leases of a chat request: who holds one, and when the loop ends.
use freebuff_proxy_scaleway.Base.{
  ℕ, ◌+◌, ◌≤◌, ◌<◌, ◌≡◌, refl, ap, ◌∙◌, String, Bool, true, false, Option, none, some, List, [],
  ◌∷◌, ◌++◌, nat_eq, nat_eq_iff, if◌then◌else◌, ◌⊎◌, inl, inr, zero, suc, arith, Bool-cases,
  Option-cases,
}
use freebuff_proxy_scaleway.Upstream.Failure.{
  Failure, rate_limited, banned, country_blocked, ip_capped, limited_ip, superseded,
  waiting_room_required, auth_rejected, session_invalid, run_invalid,
}
use freebuff_proxy_scaleway.Server.Error.{ServerError}
use freebuff_proxy_scaleway.Server.Chat.{
  Lease, ChatOptions, Event, acquired, chatted, released, abandoned, session_dropped,
  session_superseded, run_dropped, cooled_auth, cooled_ban, cooled_rate, cooled_ip, cooled_country,
  marked_unfit, cleared_unfit, Turn, Outcome, served, refused, out_of_fuel, Attempt, react,
  gives_up, give_back, Request, chat_rounds, chat_attempt, first_options, effective, renormalized,
  next_options, clear_mark,
}

-- The lease that a request holds.
pub data Holding : Type 0 where
  nothing : Holding
  lease : Lease → Holding

abbrev holds : Lease → Holding → Bool
holds l nothing = false
holds l (lease k) = nat_eq k.id l.id

abbrev only_if : Bool → Holding → Option Holding
only_if ok h = if ok then some h else none

abbrev is_free : Holding → Bool
is_free nothing = true
is_free (lease l) = false

-- A discipline for the events: a lease is taken with no other one held and given back once, a chat
-- and a cooldown use the lease that is held, and a session or a run is dropped after the release.
abbrev pub observe : Event → Holding → Option Holding
observe (acquired l) h = only_if (is_free h) (lease l)
observe (chatted l o b) h = only_if (holds l h) h
observe (released l) h = only_if (holds l h) nothing
observe (abandoned l) h = only_if (holds l h) nothing
observe (session_dropped l) h = only_if (is_free h) h
observe (session_superseded l) h = only_if (is_free h) h
observe (run_dropped l a) h = only_if (is_free h) h
observe (cooled_auth l) h = only_if (holds l h) h
observe (cooled_ban l e) h = only_if (holds l h) h
observe (cooled_rate l e) h = only_if (holds l h) h
observe (cooled_ip l e) h = only_if (holds l h) h
observe (cooled_country l e) h = only_if (holds l h) h
observe (marked_unfit m e) h = some h
observe (cleared_unfit m n) h = some h

abbrev observe_next : List Event → Option Holding → Option Holding
observe_next [] o = o
observe_next (e ∷ es) none = none
observe_next (e ∷ es) (some h) = observe_next es (observe e h)

-- What is held after the events, none if they break the discipline.
abbrev pub observe_all : List Event → Option Holding
observe_all es = observe_next es (some nothing)

observe_next-append :
    (xs ys : List Event) (o : Option Holding)
    → observe_next (xs ++ ys) o ≡ observe_next ys (observe_next xs o)
observe_next-append [] ys o = refl
observe_next-append (x ∷ xs) [] none = refl
observe_next-append (x ∷ xs) (y ∷ ys) none = refl
observe_next-append (x ∷ xs) ys (some h) = observe_next-append xs ys (observe x h)

abbrev pub held_by : Outcome → Holding
held_by (served l) = lease l
held_by (refused e) = nothing
held_by out_of_fuel = nothing

abbrev pub is_finished : Outcome → Bool
is_finished out_of_fuel = false
is_finished o = true

same_id : (l : Lease) → nat_eq l.id l.id ≡ true
same_id l = (nat_eq_iff l.id l.id).1 refl

observe-give_back : (gone : Bool) (l : Lease) → observe (give_back gone l) (lease l) ≡ some nothing
observe-give_back true l = rw (same_id l) refl
observe-give_back false l = rw (same_id l) refl

observe-react :
    (gone : Bool) (l : Lease) (model : String) (f : Failure)
    → observe_next (react gone l model f) (some (lease l)) ≡ some nothing
unfolding react
observe-react gone l model (limited_ip e) = observe-give_back gone l
observe-react gone l model (session_invalid s r) =
    ap (observe_next (session_dropped l ∷ [])) (observe-give_back gone l)
observe-react gone l model (waiting_room_required e) =
    ap (observe_next (session_dropped l ∷ [])) (observe-give_back gone l)
observe-react gone l model (superseded e) =
    ap (observe_next (session_superseded l ∷ [])) (observe-give_back gone l)
observe-react gone l model (run_invalid s) =
    ap (observe_next (run_dropped l l.agent_id ∷ [])) (observe-give_back gone l)
observe-react gone l model (auth_rejected n s) =
    rw (observe_next, same_id l) (observe-give_back gone l)
observe-react gone l model (banned e) = rw (observe_next, same_id l) (observe-give_back gone l)
observe-react gone l model (rate_limited e) =
    rw (observe_next, same_id l) (observe-give_back gone l)
observe-react gone l model (ip_capped e) = rw (observe_next, same_id l) (observe-give_back gone l)
observe-react gone l model (country_blocked e) =
    rw (observe_next, same_id l) (observe-give_back gone l)
observe-react gone l model f = observe-give_back gone l

observe-clear_mark :
    (l : Lease) (model : String)
    → observe_next (clear_mark l model) (some (lease l)) ≡ some (lease l)
observe-clear_mark l model = elim (Bool-cases (nat_eq l.acquired_at 0)) [
  | inl e ↦ rw (clear_mark, e) refl
  | inr e ↦ rw (clear_mark, e) refl
]

gives_up_second : (n : ℕ) (gone : Bool) (f : Failure) → 1 < n → gives_up n gone f ≡ true
unfolding gives_up
gives_up_second n gone (limited_ip e) h = ground arith
gives_up_second n gone f h = ground arith

-- What the events of a request come to.
pub record IsBalanced (a : Attempt) : Type 0 where
  pub held : observe_all a.events ≡ some (held_by a.outcome)
  pub finished : is_finished a.outcome ≡ true
  pub bounded : a.attempts ≤ 2

observe-chat :
    (l : Lease) (o : ChatOptions) (body : String) (es more : List Event)
    → observe_all es ≡ some (lease l)
    → observe_all ((es ++ chatted l o body ∷ []) ++ more) ≡ observe_next more (some (lease l))
observe-chat l o body es more h =
    observe_next-append (es ++ chatted l o body ∷ []) more (some nothing)
    ∙ ap (observe_next more) (
        observe_next-append es (chatted l o body ∷ []) (some nothing)
        ∙ ap (observe_next (chatted l o body ∷ [])) h
        ∙ rw (same_id l) refl)

observe-failed :
    (gone : Bool) (l : Lease) (o : ChatOptions) (body : String) (es : List Event) (f : Failure)
    → observe_all es ≡ some (lease l)
    → observe_all ((es ++ chatted l o body ∷ []) ++ react gone l o.model f) ≡ some nothing
observe-failed gone l o body es f h =
    observe-chat l o body es (react gone l o.model f) h ∙ observe-react gone l o.model f

pub reacquired-cases :
    (r : ServerError ⊎ Lease) → ((e : ServerError) × (r ≡ inl e)) ⊎ ((l : Lease) × (r ≡ inr l))
reacquired-cases (inl e) = inl (e, refl)
reacquired-cases (inr l) = inr (l, refl)

pub chat_rounds-IsBalanced :
    (n : ℕ) (q : Request) (turns : ℕ → Turn) (l : Lease) (o : ChatOptions) (body : String)
    (t : Attempt)
    → t.attempts + n ≡ 2
    → 1 ≤ n
    → observe_all t.events ≡ some (lease l)
    → IsBalanced (chat_rounds n q turns l o body t)
unfolding chat_rounds
chat_rounds-IsBalanced zero q turns l o body t a p h = absurd (omega arith)
chat_rounds-IsBalanced (suc n) q turns l o body t a p h =
    elim (Option-cases (turns t.attempts).answer) [
      | inl e ↦
          rw (chat_rounds, e)
            (record {
              held =
                  observe-chat l o body t.events (clear_mark l o.model) h
                  ∙ observe-clear_mark l o.model;
              finished = refl;
              bounded = omega arith;
            })
      | inr (f, e) ↦ elim (Bool-cases (gives_up (t.attempts + 1) (turns t.attempts).gone_after f)) [
        | inl g ↦
            rw (chat_rounds, e, g)
              (record {
                held = observe-failed (turns t.attempts).gone l o body t.events f h;
                finished = refl;
                bounded = omega arith;
              })
        | inr g ↦ elim (reacquired-cases (turns t.attempts).reacquired) [
          | inl (x, r) ↦
              rw (chat_rounds, e, g, r)
                (record {
                  held = observe-failed (turns t.attempts).gone l o body t.events f h;
                  finished = refl;
                  bounded = omega arith;
                })
          | inr (l', r) ↦
              let first : t.attempts ≡ 0 =
                ground
                  (arith, g, gives_up_second (t.attempts + 1) (turns t.attempts).gone_after f) in
              rw (chat_rounds, e, g, r)
                (chat_rounds-IsBalanced n q turns l' (next_options q.model l' o) _ _ (omega arith)
                  (omega arith)
                  (observe_next-append
                      ((t.events ++ chatted l o body ∷ [])
                        ++ react (turns t.attempts).gone l o.model f)
                      (acquired l' ∷ []) (some nothing)
                    ∙ ap (observe_next (acquired l' ∷ []))
                        (observe-failed (turns t.attempts).gone l o body t.events f h)))
        ]
      ]
    ]

-- Whatever the pool, the upstream and the context answer, a chat request ends after at most two chat
-- calls. It never holds two leases, gives every lease back exactly once but the one that it is
-- served with, chats and cools a token only through the lease that it holds, and drops a session or
-- a run only after it has given the lease back.
pub chat_attempt-IsBalanced :
    (q : Request) (first : ServerError ⊎ Lease) (turns : ℕ → Turn) (body : String)
    → IsBalanced (chat_attempt q first turns body)
unfolding chat_attempt
chat_attempt-IsBalanced q (inl e) turns body = record {
  held = refl;
  finished = refl;
  bounded = omega arith;
}
chat_attempt-IsBalanced q (inr l) turns body =
    chat_rounds-IsBalanced 2 q turns l (first_options q.model l)
      (renormalized q.normalize q.model (effective q.model l) body)
      (record {
        outcome = out_of_fuel;
        events = acquired l ∷ [];
        attempts = 0;
        statuses = [];
        retried = false;
      })
      (omega arith) (omega arith) refl
