-- ===== src/Server/Chat/Options.antt =====
-- What every chat call of a request in internal/server/engine.go carries: its options and its body.
use freebuff_proxy_scaleway.Base.{
  ℕ, ◌+◌, ◌≡◌, refl, sym, ◌∙◌, ◌⊎◌, String, Bool, true, false, Option, some, [], ◌∷◌, ◌++◌, nat_eq,
  inl, inr, zero, suc, arith, Bool-cases, Option-cases, All, All-append,
}
use freebuff_proxy_scaleway.Base.Eq.{◌==◌, String_eq}
use freebuff_proxy_scaleway.Upstream.Failure.{Failure, limited_ip}
use freebuff_proxy_scaleway.Server.Chat.{
  Lease, ChatOptions, Event, acquired, chatted, cleared_unfit, Turn, out_of_fuel, Attempt, react,
  gives_up, Request, chat_rounds, chat_attempt, first_options, effective, renormalized,
  next_options, clear_mark, untried,
}
use freebuff_proxy_scaleway.Server.Chat.Leases.{reacquired-cases}

-- A property of every event of a request, from one of its chat calls and of what it does about a
-- failed one. `Fits n` is what a call has when `n` rounds are left.
module _ {κ} (P : Event → Type κ) (Fits : ℕ → Lease → ChatOptions → String → Type κ) (q : Request)
    (turns : ℕ → Turn) (taken : (l : Lease) → P (acquired l))
    (called : (n : ℕ) (l : Lease) (o : ChatOptions) (body : String)
      → Fits (suc n) l o body
      → P (chatted l o body))
    (cleared : (model : String) (n : ℕ) → P (cleared_unfit model n))
    (next : (n : ℕ) (l l' : Lease) (o : ChatOptions) (body : String)
      → Fits (suc n) l o body
      → Fits n l'
          (next_options q.model l' o)
          (renormalized q.normalize q.model (effective q.model l') body))
    (reacted : (n : ℕ) (f : Failure)
      → (turns n).answer ≡ some f
      → (l : Lease) (model : String) → All P (react (turns n).gone l model f)) where
  pub chat_rounds-All :
      (n : ℕ) (l : Lease) (o : ChatOptions) (body : String) (t : Attempt)
      → All P t.events
      → Fits n l o body
      → All P (chat_rounds n q turns l o body t).events
  unfolding chat_rounds
  chat_rounds-All zero l o body t a fits = a
  chat_rounds-All (suc n) l o body t a fits =
      let chat = All-append P t.events (chatted l o body ∷ []) a (called n l o body fits, tt) in
      elim (Option-cases (turns t.attempts).answer) [
        | inl e ↦
            rw (chat_rounds, e)
              (All-append P (t.events ++ chatted l o body ∷ []) (clear_mark l o.model) chat
                (cleared_all l o.model))
        | inr (f, e) ↦
            let failed =
              All-append P (t.events ++ chatted l o body ∷ [])
                (react (turns t.attempts).gone l o.model f) chat
                (reacted t.attempts f e l o.model) in
            elim (Bool-cases (gives_up (t.attempts + 1) (turns t.attempts).gone_after f)) [
              | inl g ↦ rw (chat_rounds, e, g) failed
              | inr g ↦ elim (reacquired-cases (turns t.attempts).reacquired) [
                | inl (x, r) ↦ rw (chat_rounds, e, g, r) failed
                | inr (l', r) ↦
                    rw (chat_rounds, e, g, r)
                      (chat_rounds-All n l' (next_options q.model l' o) _ _
                        (All-append P
                          ((t.events ++ chatted l o body ∷ [])
                            ++ react (turns t.attempts).gone l o.model f)
                          (acquired l' ∷ []) failed (taken l', tt))
                        (next n l l' o body fits))
              ]
            ]
      ]
    where
      cleared_all : (l : Lease) (model : String) → All P (clear_mark l model)
      cleared_all l model = elim (Bool-cases (nat_eq l.acquired_at 0)) [
        | inl e ↦ rw (clear_mark, e) tt
        | inr e ↦ rw (clear_mark, e) (cleared model l.acquired_at, tt)
      ]

  pub chat_attempt-All :
      (l : Lease) (body : String)
      → Fits 2 l
          (first_options q.model l)
          (renormalized q.normalize q.model (effective q.model l) body)
      → All P (chat_attempt q (inr l) turns body).events
  unfolding chat_attempt
  chat_attempt-All l body fits =
      chat_rounds-All 2 l (first_options q.model l)
        (renormalized q.normalize q.model (effective q.model l) body)
        (untried out_of_fuel (acquired l ∷ [])) (taken l, tt) fits

-- A chat call names the model, the run and the session of its lease, and the trace of `trace`.
abbrev pub Names : String → String → Lease → ChatOptions → Type 0
Names model trace l o =
    (o.model ≡ effective model l)
    × (o.run_id ≡ l.run_id)
    × (o.session_instance_id ≡ l.session_instance_id)
    × (o.trace_session_id ≡ trace)

-- What the loop relies on of `convert.NormalizeRequest`: a body can be rewritten for any model, and
-- then names that model. `model_of` reads the model of a body.
pub record IsNormalizer (is_body : String → Bool) (model_of : String → String)
    (normalize : String → String → Option String) : Type 0 where
  pub rewritten : String → String → String
  pub works :
      (body used : String)
      → is_body body ≡ true
      → (used == "") ≡ false
      → normalize body used ≡ some (rewritten body used)
  pub stays : (body used : String) → is_body body ≡ true → is_body (rewritten body used) ≡ true
  pub names : (body used : String) → is_body body ≡ true → model_of (rewritten body used) ≡ used

effective-full :
    (model : String) (l : Lease)
    → (effective model l == model) ≡ false
    → (effective model l == "") ≡ false
effective-full model l h = elim (Bool-cases (l.model == "")) [
  | inl e ↦ absurd (ground (arith, h, e, String_eq.same_iff model model))
  | inr e ↦ rw e e
]

module _ (q : Request) (is_body : String → Bool) (model_of : String → String)
    (z : IsNormalizer is_body model_of q.normalize) (first : Lease) where
  -- The body is for the model of the options; or the options are back at the requested model while
  -- the body still is the one for the model of the first lease.
  abbrev pub Agrees : ChatOptions → String → Type 0
  Agrees o body =
      (model_of body ≡ o.model) ⊎ ((o.model ≡ q.model) × (model_of body ≡ effective q.model first))

  abbrev pub IsAddressed : Event → Type 0
  IsAddressed (chatted l o body) = Names q.model first.trace_session_id l o × Agrees o body
  IsAddressed e = Unit

  abbrev Carries : ℕ → ChatOptions → String → Type 0
  Carries zero o body = Unit
  Carries (suc zero) o body = Agrees o body
  Carries (suc (suc zero)) o body =
      (is_body body ≡ true) × (model_of body ≡ o.model) × (o.model ≡ effective q.model first)
  Carries (suc (suc (suc n))) o body = ⊥

  abbrev Fits : ℕ → Lease → ChatOptions → String → Type 0
  Fits n l o body = Names q.model first.trace_session_id l o × Carries n o body

  call-Fits :
      (n : ℕ) (l : Lease) (o : ChatOptions) (body : String)
      → Fits (suc n) l o body
      → IsAddressed (chatted l o body)
  call-Fits zero l o body h = h
  call-Fits (suc zero) l o body h = (h.0, inl h.1.1)
  call-Fits (suc (suc n)) l o body h = absurd h.1

  renormalized-Agrees :
      (l : Lease) (o : ChatOptions) (body : String)
      → is_body body ≡ true
      → model_of body ≡ effective q.model first
      → Agrees
          (next_options q.model l o)
          (renormalized q.normalize q.model (effective q.model l) body)
  renormalized-Agrees l o body b m = elim (Bool-cases (effective q.model l == q.model)) [
    | inl same ↦
        inr ((String_eq.same_iff (effective q.model l) q.model).0 same, rw (renormalized, same) m)
    | inr other ↦
        let full = effective-full q.model l other in
        inl (
          rw (renormalized, other, z.works body (effective q.model l) b full)
            (z.names body (effective q.model l) b))
  ]

  carry_on :
      (n : ℕ) (l l' : Lease) (o : ChatOptions) (body : String)
      → Fits (suc n) l o body
      → Fits n l'
          (next_options q.model l' o)
          (renormalized q.normalize q.model (effective q.model l') body)
  carry_on zero l l' o body h = ((refl, refl, refl, h.0.3), tt)
  carry_on (suc zero) l l' o body h =
      ((refl, refl, refl, h.0.3), renormalized-Agrees l' o body h.1.0 (h.1.1 ∙ h.1.2))
  carry_on (suc (suc n)) l l' o body h = absurd h.1

  first_body :
      (body : String)
      → is_body body ≡ true
      → model_of body ≡ q.model
      → let b = renormalized q.normalize q.model (effective q.model first) body in
        (is_body b ≡ true) × (model_of b ≡ effective q.model first)
  first_body body b m = elim (Bool-cases (effective q.model first == q.model)) [
    | inl same ↦
        rw (renormalized, same)
          (b, m ∙ sym ((String_eq.same_iff (effective q.model first) q.model).0 same))
    | inr other ↦
        let full = effective-full q.model first other in
        rw (renormalized, other, z.works body (effective q.model first) b full)
          (z.stays body (effective q.model first) b, z.names body (effective q.model first) b)
  ]

  react-IsAddressed :
      (gone : Bool) (l : Lease) (used : String) (f : Failure)
      → All IsAddressed (react gone l used f)
  unfolding react
  react-IsAddressed true l used (limited_ip e) = (tt, (tt, tt))
  react-IsAddressed false l used (limited_ip e) = (tt, (tt, tt))
  react-IsAddressed true l used f = ground arith
  react-IsAddressed false l used f = ground arith

  -- Every chat call of a request has in its options the model, the run and the session instance of the
  -- lease that it goes through, also after a new acquire; but all of them carry the trace session id
  -- of the request's first lease, a retry on another run too. The body of a call names the model of
  -- its options, with one exception: a retry whose lease is back at the requested model may carry the
  -- body that was rewritten for the first lease. The request's own body names the requested model.
  pub chat_attempt-IsAddressed :
      (turns : ℕ → Turn) (body : String)
      → is_body body ≡ true
      → model_of body ≡ q.model
      → All IsAddressed (chat_attempt q (inr first) turns body).events
  chat_attempt-IsAddressed turns body b m =
      let start = first_body body b m in
      chat_attempt-All IsAddressed Fits q turns (λ k. tt) call-Fits (λ model n. tt) carry_on
        (λ n f e k model. react-IsAddressed (turns n).gone k model f) first body
        ((refl, refl, refl, refl), (start.0, start.1, refl))
