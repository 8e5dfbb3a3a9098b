-- ===== src/Pool/Unfit.antt =====
-- internal/pool/unfit.go: the registry of models that the egress cannot serve. The one egress is the
-- direct connection, so the key is the model.
pub mod Marks
use freebuff_proxy_scaleway.Base.{
  ℕ, ◌+◌, ◌*◌, String, Option, none, some, List, ltb, leb, if◌then◌else◌,
}
use freebuff_proxy_scaleway.Base.Time.{minute}
use freebuff_proxy_scaleway.Base.Eq.{String_eq}
use freebuff_proxy_scaleway.Base.Map.{lookup, insert, delete}
use freebuff_proxy_scaleway.Upstream.Errors.{LimitedIpError}

abbrev pub model_unfit_ttl : ℕ
model_unfit_ttl = 5 * minute

pub record UnfitEntry : Type 0 where
  pub created : ℕ
  pub until : ℕ
  pub err : Option LimitedIpError

pub mark_model_unfit :
    ℕ → String → Option LimitedIpError → List (String × UnfitEntry) → List (String × UnfitEntry)
mark_model_unfit now model lie unfit =
    insert model
      (record {
        created = now;
        until = now + model_unfit_ttl;
        err = elim lie [ none ↦ none | some e ↦ some (record e { model = model }) ];
      })
      unfit

pub clear_model_unfit : String → List (String × UnfitEntry) → List (String × UnfitEntry)
clear_model_unfit model unfit = delete model unfit

pub clear_model_unfit_before : String → ℕ → List (String × UnfitEntry) → List (String × UnfitEntry)
clear_model_unfit_before model before unfit = elim (lookup model unfit) [
  | none ↦ unfit
  | some e ↦ if ltb before e.created then unfit else delete model unfit
]

-- `ModelUnfit`: the registry without an expired entry, and the deadline with its refusal.
pub model_unfit :
    ℕ
    → String
    → List (String × UnfitEntry)
    → List (String × UnfitEntry) × (ℕ × Option LimitedIpError)
model_unfit now model unfit = elim (lookup model unfit) [
  | none ↦ (unfit, (0, none))
  | some e ↦ if leb e.until now then (delete model unfit, (0, none)) else (unfit, (e.until, e.err))
]
