-- ===== src/Pool/Refusals/Cooled.antt =====
-- A pass of internal/pool/acquire.go keeps the cooldown fields of every token consistent.
use freebuff_proxy_scaleway.Base.{
  ℕ, ◌≡◌, refl, sym, ◌∙◌, inl, inr, Option, none, some, arith, if◌then◌else◌, Bool-cases,
  Option-cases,
}
use freebuff_proxy_scaleway.Runs.Cooldown.{
  Cooldowns, cooldown, cooldown_rate_limit, cooldown_ip_capped, cooldown_ban,
  cooldown_country_blocked, clear_cooldowns,
}
use freebuff_proxy_scaleway.Runs.Cooldown.Invariant.{
  IsConsistent, Reading, rejected, unlocked, rate_limited, ip_capped, banned, country_blocked,
  apply, apply-IsConsistent,
}
use freebuff_proxy_scaleway.Pool.Refusals.{Refusal, Request, cool, default_cooldown, tagged}
use freebuff_proxy_scaleway.Upstream.Errors.{RateLimitError}

pub cool-IsConsistent :
    (q : Request) (draw : ℕ) (r : Refusal) (m m' : Cooldowns)
    → IsConsistent m
    → cool q draw r m ≡ some m'
    → IsConsistent m'
unfolding cool apply
cool-IsConsistent q draw r m m' c h =
    let reading : Reading = record { now = q.now; reset = q.reset; draw = draw } in
    let rle : Option RateLimitError = elim r.rate_limit [
      | none ↦ none
      | some e ↦ some (tagged q.model e)
    ] in
    let m₁ = if r.auth_rejected then cooldown q.now default_cooldown m else m in
    let m₂ = cooldown_rate_limit q.now q.reset rle m₁ in
    let c₁ : IsConsistent m₁ = elim (Bool-cases r.auth_rejected) [
      | inl e ↦ rw e (apply-IsConsistent reading (rejected default_cooldown) m _ refl c)
      | inr e ↦ rw e c
    ] in
    let c₂ : IsConsistent m₂ = apply-IsConsistent reading (rate_limited rle) m₁ m₂ refl c₁ in
    elim (Option-cases (cooldown_ip_capped q.now q.reset draw r.ip_capped m₂)) [
      | inl e ↦ absurd (ground (arith, h, e))
      | inr (m₃, e) ↦
          let c₃ = apply-IsConsistent reading (ip_capped r.ip_capped) m₂ m₃ e c₂ in
          let m₄ = cooldown_ban q.now r.ban m₃ in
          let c₄ = apply-IsConsistent reading (banned r.ban) m₃ m₄ refl c₃ in
          let last : cool q draw r m ≡ some (cooldown_country_blocked q.now r.country_blocked m₄) =
            rw (cool, e) refl in
          apply-IsConsistent reading (country_blocked r.country_blocked) m₄ m' (sym last ∙ h) c₄
    ]

pub clear-IsConsistent : (m : Cooldowns) → IsConsistent m → IsConsistent (clear_cooldowns m)
unfolding apply
clear-IsConsistent m c =
    apply-IsConsistent (record { now = 0; reset = 0; draw = 0 }) unlocked m (clear_cooldowns m) refl
      c
