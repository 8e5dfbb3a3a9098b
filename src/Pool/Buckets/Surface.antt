-- ===== src/Pool/Buckets/Surface.antt =====
-- Which refusal of a pass internal/pool/acquire.go surfaces, and when it goes on with the fallback
-- model.
use freebuff_proxy_scaleway.Base.{
  ℕ, ◌≡◌, refl, sym, ap, ◌∙◌, inl, inr, String, false, List, [], ◌∷◌, ◌++◌, map, get_elem?, arith,
  Bool-cases,
}
use freebuff_proxy_scaleway.Base.Lists.{All, All-append, All-map, List-cases}
use mathlib.Core.Path.{subst}
use freebuff_proxy_scaleway.Base.Eq.{String_eq}
use freebuff_proxy_scaleway.Upstream.Errors.{
  RateLimitError, BanError, CountryBlockedError, IpCappedError, LimitedIpError,
}
use freebuff_proxy_scaleway.Pool.Buckets.{
  Buckets, Outcome, ban, country, model_ip, fallback, rate, capped, scarce, waiting_room, daily,
  unable, WaitingRoomError, best_waiting_room, best_rate_limit, best_daily_limit, earliest_scarce,
  surface, surface_rate, surface_rest, fallback_model,
}
use freebuff_proxy_scaleway.Pool.Buckets.Best.{
  IsBestWait, best_waiting_room_lem, IsEarliest, best_rate_limit_lem, best_daily_limit-rate,
  IsLowest, earliest_scarce_lem,
}
use freebuff_proxy_scaleway.Pool.Buckets.Ranked.{
  collected, outranks, IsIn, Falls, IsSurfaced, left-IsIn, right-IsIn, at-IsIn, all_of, all_any,
  all_none, falls, falls-Falls, Falls-falls,
}

module _ (table : List (String × String)) (model : String) (limited : List RateLimitError)
    (b : Buckets) where
  abbrev bans : List Outcome
  bans = map ban b.banned

  abbrev countries : List Outcome
  countries = map country b.country_blocked

  abbrev model_ips : List Outcome
  model_ips = map model_ip b.model_limited

  abbrev rates : List RateLimitError
  rates = b.rate_limited ++ limited

  abbrev caps : List Outcome
  caps = map capped b.ip_capped

  abbrev scarce_at : ℕ → Outcome
  scarce_at t = scarce (record { model = model; expires_at = t })

  abbrev below_scarce : List Outcome
  below_scarce = map waiting_room b.waiting ++ map daily b.daily_limited

  abbrev below_capped : List Outcome
  below_capped = map scarce_at b.scarce_until ++ below_scarce

  abbrev below_rates : List Outcome
  below_rates = caps ++ below_capped

  abbrev below_models : List Outcome
  below_models = map rate rates ++ below_rates

  abbrev below_countries : List Outcome
  below_countries = model_ips ++ below_models

  abbrev below_bans : List Outcome
  below_bans = countries ++ below_countries

  abbrev everything : List Outcome
  everything = collected model limited b

  module _ (P : Outcome → Type 0) where
    all_rest :
        All P (map waiting_room b.waiting) → All P (map daily b.daily_limited) → All P below_scarce
    all_rest w d = All-append P (map waiting_room b.waiting) (map daily b.daily_limited) w d

    all_below :
        All P caps → All P (map scarce_at b.scarce_until) → All P below_scarce → All P below_rates
    all_below c s r =
        All-append P caps below_capped c
          (All-append P (map scarce_at b.scarce_until) below_scarce s r)

    all_everything :
        All P bans
        → All P countries
        → All P model_ips
        → All P (map rate rates)
        → All P below_rates
        → All P everything
    all_everything x c m r l = All-append P bans below_bans x (
        All-append P countries below_countries c
          (All-append P model_ips below_models m (All-append P (map rate rates) below_rates r l)))

  module _ (o : Outcome) where
    countries-IsIn : IsIn o countries → IsIn o everything
    countries-IsIn h = right-IsIn o bans below_bans (left-IsIn o countries below_countries h)

    model_ips-IsIn : IsIn o below_countries → IsIn o everything
    model_ips-IsIn h = right-IsIn o bans below_bans (right-IsIn o countries below_countries h)

    rates-IsIn : IsIn o below_models → IsIn o everything
    rates-IsIn h = model_ips-IsIn (right-IsIn o model_ips below_models h)

    below-IsIn : IsIn o below_rates → IsIn o everything
    below-IsIn h = rates-IsIn (right-IsIn o (map rate rates) below_rates h)

    rest-IsIn : IsIn o below_scarce → IsIn o everything
    rest-IsIn h = below-IsIn (
        right-IsIn o caps below_capped (right-IsIn o (map scarce_at b.scarce_until) below_scarce h))

  -- Nothing below the rate limits outranks what is above.
  below_all :
      (o : Outcome)
      → ((e : IpCappedError) → outranks (capped e) o ≡ false)
      → ((t : ℕ) → outranks (scarce_at t) o ≡ false)
      → ((w : WaitingRoomError) → outranks (waiting_room w) o ≡ false)
      → ((e : RateLimitError) → outranks (daily e) o ≡ false)
      → All (λ x. outranks x o ≡ false) below_rates
  below_all o c s w d =
      let P = λ (x : Outcome). outranks x o ≡ false in
      all_below P (all_any capped P c b.ip_capped) (all_any scarce_at P s b.scarce_until)
        (all_rest P (all_any waiting_room P w b.waiting) (all_any daily P d b.daily_limited))

  abbrev Surfaces : Outcome → Type 0
  Surfaces o = IsSurfaced table model rates everything o

  ban-Surfaces : (x : BanError) (xs : List BanError) → b.banned ≡ x ∷ xs → Surfaces (ban x)
  ban-Surfaces x xs e =
      let P = λ (y : Outcome). outranks y (ban x) ≡ false in
      (
        all_everything P (all_any ban P (λ a. refl) b.banned)
            (all_any country P (λ a. refl) b.country_blocked)
            (all_any model_ip P (λ a. refl) b.model_limited) (all_any rate P (λ a. refl) rates)
            (below_all (ban x) (λ a. refl) (λ a. refl) (λ a. refl) (λ a. refl)),
        left-IsIn (ban x) bans below_bans (at-IsIn ban x b.banned (0, ap (λ l. get_elem? l 0) e)),
      )

  module _ (no_ban : b.banned ≡ []) where
    country-Surfaces :
        (x : CountryBlockedError) (xs : List CountryBlockedError)
        → b.country_blocked ≡ x ∷ xs
        → Surfaces (country x)
    country-Surfaces x xs e =
        let P = λ (y : Outcome). outranks y (country x) ≡ false in
        (
          all_everything P (all_none ban P b.banned no_ban)
              (all_any country P (λ a. refl) b.country_blocked)
              (all_any model_ip P (λ a. refl) b.model_limited) (all_any rate P (λ a. refl) rates)
              (below_all (country x) (λ a. refl) (λ a. refl) (λ a. refl) (λ a. refl)),
          countries-IsIn (country x)
              (at-IsIn country x b.country_blocked (0, ap (λ l. get_elem? l 0) e)),
        )

    module _ (no_country : b.country_blocked ≡ []) where
      model_ip-Surfaces :
          (x : LimitedIpError) (xs : List LimitedIpError)
          → b.model_limited ≡ x ∷ xs
          → Surfaces (model_ip x)
      model_ip-Surfaces x xs e =
          let P = λ (y : Outcome). outranks y (model_ip x) ≡ false in
          (
            all_everything P (all_none ban P b.banned no_ban)
                (all_none country P b.country_blocked no_country)
                (all_any model_ip P (λ a. refl) b.model_limited) (all_any rate P (λ a. refl) rates)
                (below_all (model_ip x) (λ a. refl) (λ a. refl) (λ a. refl) (λ a. refl)),
            model_ips-IsIn (model_ip x) (
                left-IsIn (model_ip x) model_ips below_models
                  (at-IsIn model_ip x b.model_limited (0, ap (λ l. get_elem? l 0) e))),
          )

      module _ (no_model : b.model_limited ≡ []) where
        after_model :
            (o : Outcome)
            → All (λ x. outranks x o ≡ false) (map rate rates)
            → All (λ x. outranks x o ≡ false) below_rates
            → All (λ x. outranks x o ≡ false) everything
        after_model o r l =
            let P = λ (y : Outcome). outranks y o ≡ false in
            all_everything P (all_none ban P b.banned no_ban)
              (all_none country P b.country_blocked no_country)
              (all_none model_ip P b.model_limited no_model) r l

        surface_rate-Surfaces :
            (x : RateLimitError) (xs : List RateLimitError)
            → rates ≡ x ∷ xs
            → Surfaces (surface_rate table model x xs)
        unfolding surface_rate
        surface_rate-Surfaces x xs e =
            let best : IsEarliest (best_rate_limit x xs) rates =
              subst (IsEarliest (best_rate_limit x xs)) (sym e) (best_rate_limit_lem x xs) in
            elim (Bool-cases (falls table model (x ∷ xs))) [
              | inl met ↦
                  let fb = fallback_model table model in
                  let goes : surface_rate table model x xs ≡ fallback fb =
                    rw (surface_rate, met) refl in
                  subst Surfaces (sym goes) (
                    after_model (fallback fb)
                        (all_any rate (λ y. outranks y (fallback fb) ≡ false) (λ a. refl) rates)
                        (below_all (fallback fb) (λ a. refl) (λ a. refl) (λ a. refl) (λ a. refl)),
                    (
                      λ k. absurd (ground (arith, sym e ∙ k)),
                      refl,
                      subst (Falls table model) (sym e) (falls-Falls table model (x ∷ xs) met),
                    ),
                  )
              | inr unmet ↦
                  let goes : surface_rate table model x xs ≡ rate (best_rate_limit x xs) =
                    rw (surface_rate, unmet) refl in
                  let o = rate (best_rate_limit x xs) in
                  subst Surfaces (sym goes) (
                    after_model o
                        (all_of rate (λ y. outranks y o ≡ false) rates
                          (All-map (λ a h. ground (arith, h)) rates best.1))
                        (below_all o (λ a. refl) (λ a. refl) (λ a. refl) (λ a. refl)),
                    (
                      rates-IsIn o (
                          left-IsIn o (map rate rates) below_rates
                            (at-IsIn rate (best_rate_limit x xs) rates best.0)),
                      λ f.
                          let test =
                            Falls-falls table model (x ∷ xs) (subst (Falls table model) e f) in
                          cc (test, unmet),
                    ),
                  )
            ]

        module _ (no_rate : rates ≡ []) where
          after_rates :
              (o : Outcome)
              → All (λ x. outranks x o ≡ false) below_rates
              → All (λ x. outranks x o ≡ false) everything
          after_rates o l =
              after_model o (all_none rate (λ y. outranks y o ≡ false) rates no_rate) l

          capped-Surfaces :
              (x : IpCappedError) (xs : List IpCappedError)
              → b.ip_capped ≡ x ∷ xs
              → Surfaces (capped x)
          capped-Surfaces x xs e = (
            after_rates (capped x)
                (below_all (capped x) (λ a. refl) (λ a. refl) (λ a. refl) (λ a. refl)),
            below-IsIn (capped x) (
                left-IsIn (capped x) caps below_capped
                  (at-IsIn capped x b.ip_capped (0, ap (λ l. get_elem? l 0) e))),
          )

          module _ (no_cap : b.ip_capped ≡ []) where
            after_caps :
                (o : Outcome)
                → All (λ x. outranks x o ≡ false) (map scarce_at b.scarce_until)
                → All (λ x. outranks x o ≡ false) below_scarce
                → All (λ x. outranks x o ≡ false) everything
            after_caps o s r =
                let P = λ (y : Outcome). outranks y o ≡ false in
                after_rates o (all_below P (all_none capped P b.ip_capped no_cap) s r)

            scarce-Surfaces :
                (t : ℕ) (ts : List ℕ)
                → b.scarce_until ≡ t ∷ ts
                → Surfaces (scarce_at (earliest_scarce t ts))
            scarce-Surfaces t ts e =
                let best : IsLowest (earliest_scarce t ts) b.scarce_until =
                  subst (IsLowest (earliest_scarce t ts)) (sym e) (earliest_scarce_lem t ts) in
                let o = scarce_at (earliest_scarce t ts) in
                let P = λ (y : Outcome). outranks y o ≡ false in
                (
                  after_caps o
                      (all_of scarce_at P b.scarce_until
                        (All-map (λ a h. ground (arith, h)) b.scarce_until best.1))
                      (all_rest P (all_any waiting_room P (λ a. refl) b.waiting)
                        (all_any daily P (λ a. refl) b.daily_limited)),
                  below-IsIn o (
                      right-IsIn o caps below_capped (
                        left-IsIn o (map scarce_at b.scarce_until) below_scarce
                          (at-IsIn scarce_at (earliest_scarce t ts) b.scarce_until best.0))),
                )

            module _ (no_scarce : b.scarce_until ≡ []) where
              after_scarce :
                  (o : Outcome)
                  → All (λ x. outranks x o ≡ false) below_scarce
                  → All (λ x. outranks x o ≡ false) everything
              after_scarce o r =
                  after_caps o
                    (all_none scarce_at (λ y. outranks y o ≡ false) b.scarce_until no_scarce) r

              waiting-Surfaces :
                  (w : WaitingRoomError) (ws : List WaitingRoomError)
                  → b.waiting ≡ w ∷ ws
                  → Surfaces (waiting_room (best_waiting_room w ws))
              waiting-Surfaces w ws e =
                  let best : IsBestWait (best_waiting_room w ws) b.waiting =
                    subst (IsBestWait (best_waiting_room w ws)) (sym e)
                      (best_waiting_room_lem w ws) in
                  let o = waiting_room (best_waiting_room w ws) in
                  let P = λ (y : Outcome). outranks y o ≡ false in
                  (
                    after_scarce o (
                        all_rest P (all_of waiting_room P b.waiting best.1)
                          (all_any daily P (λ a. refl) b.daily_limited)),
                    rest-IsIn o (
                        left-IsIn o (map waiting_room b.waiting) (map daily b.daily_limited)
                          (at-IsIn waiting_room (best_waiting_room w ws) b.waiting best.0)),
                  )

              daily-Surfaces :
                  (x : RateLimitError) (xs : List RateLimitError)
                  → b.waiting ≡ []
                  → b.daily_limited ≡ x ∷ xs
                  → Surfaces (daily (best_daily_limit x xs))
              daily-Surfaces x xs no_wait e =
                  let best : IsEarliest (best_daily_limit x xs) b.daily_limited =
                    subst (IsEarliest (best_daily_limit x xs)) (sym e) (
                      subst (λ y. IsEarliest y (x ∷ xs)) (sym (best_daily_limit-rate x xs))
                        (best_rate_limit_lem x xs)) in
                  let o = daily (best_daily_limit x xs) in
                  let P = λ (y : Outcome). outranks y o ≡ false in
                  (
                    after_scarce o (
                        all_rest P (all_none waiting_room P b.waiting no_wait) (
                          all_of daily P b.daily_limited
                            (All-map (λ a h. ground (arith, h)) b.daily_limited best.1))),
                    rest-IsIn o (
                        right-IsIn o (map waiting_room b.waiting) (map daily b.daily_limited)
                          (at-IsIn daily (best_daily_limit x xs) b.daily_limited best.0)),
                  )

              unable-Surfaces : b.waiting ≡ [] → b.daily_limited ≡ [] → Surfaces unable
              unable-Surfaces no_wait no_daily =
                  let P = λ (y : Outcome). outranks y unable ≡ false in
                  (
                    after_scarce unable (
                        all_rest P (all_none waiting_room P b.waiting no_wait)
                          (all_none daily P b.daily_limited no_daily)),
                    nothing_collected no_wait no_daily,
                  )
                where
                  nothing_collected : b.waiting ≡ [] → b.daily_limited ≡ [] → everything ≡ []
                  nothing_collected no_wait no_daily =
                      simp
                        (
                          no_ban, no_country, no_model, no_rate, no_cap, no_scarce, no_wait,
                          no_daily,
                        )
                        refl

          surface_rest-Surfaces : Surfaces (surface_rest model b)
          unfolding surface_rest
          surface_rest-Surfaces = elim (List-cases b.ip_capped) [
            | inr (x, xs, e) ↦
                let goes : surface_rest model b ≡ capped x = rw (surface_rest, e) refl in
                subst Surfaces (sym goes) (capped-Surfaces x xs e)
            | inl e₁ ↦ elim (List-cases b.scarce_until) [
              | inr (t, ts, e) ↦
                  let goes : surface_rest model b ≡ scarce_at (earliest_scarce t ts) =
                    rw (surface_rest, e₁, e) refl in
                  subst Surfaces (sym goes) (scarce-Surfaces e₁ t ts e)
              | inl e₂ ↦ elim (List-cases b.waiting) [
                | inr (w, ws, e) ↦
                    let goes : surface_rest model b ≡ waiting_room (best_waiting_room w ws) =
                      rw (surface_rest, e₁, e₂, e) refl in
                    subst Surfaces (sym goes) (waiting-Surfaces e₁ e₂ w ws e)
                | inl e₃ ↦ elim (List-cases b.daily_limited) [
                  | inr (x, xs, e) ↦
                      let goes : surface_rest model b ≡ daily (best_daily_limit x xs) =
                        rw (surface_rest, e₁, e₂, e₃, e) refl in
                      subst Surfaces (sym goes) (daily-Surfaces e₁ e₂ x xs e₃ e)
                  | inl e₄ ↦
                      let goes : surface_rest model b ≡ unable =
                        rw (surface_rest, e₁, e₂, e₃, e₄) refl in
                      subst Surfaces (sym goes) (unable-Surfaces e₁ e₂ e₃ e₄)
                ]
              ]
            ]
          ]

  -- A pass that ends without a lease surfaces one of its refusals, and none of them outranks it: the
  -- graver kind goes first, among rate limits, daily caps and scarce sessions the one that ends first,
  -- among waiting rooms the best place. Only a pass without any refusal gives the combined error. In
  -- place of a rate limit the fallback model serves, exactly if every rate limit of the pass is an
  -- exhausted quota and the model is configured and differs from the requested one.
  pub surface-IsSurfaced : IsSurfaced table model rates everything (surface table model limited b)
  unfolding surface
  surface-IsSurfaced = elim (List-cases b.banned) [
    | inr (x, xs, e) ↦
        let goes : surface table model limited b ≡ ban x = rw (surface, e) refl in
        subst Surfaces (sym goes) (ban-Surfaces x xs e)
    | inl e₁ ↦ elim (List-cases b.country_blocked) [
      | inr (x, xs, e) ↦
          let goes : surface table model limited b ≡ country x = rw (surface, e₁, e) refl in
          subst Surfaces (sym goes) (country-Surfaces e₁ x xs e)
      | inl e₂ ↦ elim (List-cases b.model_limited) [
        | inr (x, xs, e) ↦
            let goes : surface table model limited b ≡ model_ip x = rw (surface, e₁, e₂, e) refl in
            subst Surfaces (sym goes) (model_ip-Surfaces e₁ e₂ x xs e)
        | inl e₃ ↦ elim (List-cases rates) [
          | inl e ↦
              let goes : surface table model limited b ≡ surface_rest model b =
                rw (surface, e₁, e₂, e₃, e) refl in
              subst Surfaces (sym goes) (surface_rest-Surfaces e₁ e₂ e₃ e)
          | inr (x, xs, e) ↦
              let goes : surface table model limited b ≡ surface_rate table model x xs =
                rw (surface, e₁, e₂, e₃, e) refl in
              subst Surfaces (sym goes) (surface_rate-Surfaces e₁ e₂ e₃ x xs e)
        ]
      ]
    ]
  ]
