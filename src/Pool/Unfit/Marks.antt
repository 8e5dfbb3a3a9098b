-- ===== src/Pool/Unfit/Marks.antt =====
-- The marks of internal/pool/unfit.go as a chat's success and the clock clear them.
use freebuff_proxy_scaleway.Base.{
  ℕ, ◌+◌, ◌≡◌, String, ◌||◌, Option, none, some, List, leb, if◌then◌else◌, arith,
}
use freebuff_proxy_scaleway.Base.Eq.{◌==◌, String_eq}
use freebuff_proxy_scaleway.Base.Map.{insert, lookup-insert, lookup-delete}
use freebuff_proxy_scaleway.Upstream.Errors.{LimitedIpError}
use freebuff_proxy_scaleway.Pool.Unfit.{
  UnfitEntry, model_unfit_ttl, mark_model_unfit, clear_model_unfit_before, model_unfit,
}

-- What the registry answers at `now`, without its update.
abbrev pub answer : ℕ → String → List (String × UnfitEntry) → ℕ × Option LimitedIpError
answer now model unfit = (model_unfit now model unfit).1

abbrev pub stamped : String → Option LimitedIpError → Option LimitedIpError
stamped model none = none
stamped model (some e) = some (record e { model = model })

-- A mark holds for its five minutes against the success of every chat admitted before it, and the
-- success of a chat admitted at or after it clears it. The surfaced refusal names the marked model,
-- and no other model's mark is touched.
pub marked_until :
    (marked before now : ℕ) (model other : String) (lie : Option LimitedIpError)
    (unfit : List (String × UnfitEntry))
    → answer now other
        (clear_model_unfit_before model before (mark_model_unfit marked model lie unfit))
      ≡ (if model == other
          then (if leb marked before || leb (marked + model_unfit_ttl) now
              then (0, none)
              else (marked + model_unfit_ttl, stamped model lie))
          else answer now other unfit)
unfolding model_unfit mark_model_unfit clear_model_unfit_before
marked_until marked before now model other lie unfit =
    let en : UnfitEntry = record {
      created = marked;
      until = marked + model_unfit_ttl;
      err = elim lie [ none ↦ none | some e ↦ some (record e { model = model }) ];
    } in
    ground (
      arith,
      lookup-insert model other en unfit,
      lookup-insert model model en unfit,
      lookup-delete model other (insert model en unfit),
      String_eq.same_iff model other,
      String_eq.same_iff model model,
    )
