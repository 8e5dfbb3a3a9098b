-- ===== src/Pool/Scarce.antt =====
-- The protection of scarce sessions in internal/pool/scarce.go. A set of models is the list of them.
use freebuff_proxy_scaleway.Base.{
  ℕ, ◌+◌, String, Bool, false, ◌&&◌, ◌||◌, not, List, [], ◌∷◌, ltb, nat_eq, if◌then◌else◌,
}
use freebuff_proxy_scaleway.Base.Time.{minute}
use freebuff_proxy_scaleway.Base.Eq.{◌==◌, String_eq}
use freebuff_proxy_scaleway.Session.Snapshot.{SessionSnapshot, usable, matches_model}

abbrev pub scarce_switch_lead : ℕ
scarce_switch_lead = minute

pub record ScarceSessionError : Type 0 where
  pub model : String
  pub expires_at : ℕ

abbrev pub has_model : String → List String → Bool
has_model m [] = false
has_model m (x ∷ xs) = x == m || has_model m xs

pub scarce_model_set : List String → List String
scarce_model_set [] = []
scarce_model_set (m ∷ ms) =
    let rest = scarce_model_set ms in if not (m == "") then m ∷ rest else rest

unfoldable pub scarce_held : ℕ → SessionSnapshot → String → List String → Bool
scarce_held now snap requested scarce =
    if not (usable now snap) || snap.model == "" || matches_model snap requested
    then false
    else if not (has_model snap.model scarce)
    then false
    else not (nat_eq snap.expires_at 0) && ltb (now + scarce_switch_lead) snap.expires_at

pub scarce_active : ℕ → SessionSnapshot → List String → Bool
scarce_active now snap scarce =
    if not (usable now snap) || snap.model == ""
    then false
    else if not (has_model snap.model scarce)
    then false
    else not (nat_eq snap.expires_at 0) && ltb now snap.expires_at
