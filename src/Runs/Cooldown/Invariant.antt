-- ===== src/Runs/Cooldown/Invariant.antt =====
-- The cooldown fields of internal/runs/cooldown.go remember at most one refusal, and its own window
-- is the shared cooldown window.
use freebuff_proxy_scaleway.Base.{
  ℕ, ◌+◌, ◌≤◌, ◌≡◌, refl, Bool, true, false, Option, none, some, arith, some_inj,
}
use mathlib.Core.Path.{subst}
use freebuff_proxy_scaleway.Upstream.Errors.{
  RateLimitError, BanError, CountryBlockedError, IpCappedError,
}
use freebuff_proxy_scaleway.Runs.Cooldown.{
  Cooldowns, cleared, cooldown, clear_cooldowns, cooldown_rate_limit, cooldown_ip_capped,
  cooldown_ban, cooldown_country_blocked, is_some,
}

abbrev pub one_if : Bool → ℕ
one_if true = 1
one_if false = 0

pub record IsConsistent (m : Cooldowns) : Type 0 where
  pub single :
      one_if (is_some m.rate_limit)
        + one_if (is_some m.ban)
        + one_if (is_some m.country_block)
        + one_if (is_some m.ip_capped)
      ≤ 1
  pub ban_shared : is_some m.ban ≡ true → m.ban_until ≡ m.cooldown_until
  pub country_shared : is_some m.country_block ≡ true → m.country_until ≡ m.cooldown_until
  pub capped_shared : is_some m.ip_capped ≡ true → m.ip_capped_until ≡ m.cooldown_until

-- What happened to a token, with what the call reads: the clock, the next Pacific midnight, and the
-- random draw.
pub record Reading : Type 0 where
  pub now : ℕ
  pub reset : ℕ
  pub draw : ℕ

pub data Event : Type 0 where
  rejected : ℕ → Event
  unlocked : Event
  rate_limited : Option RateLimitError → Event
  ip_capped : Option IpCappedError → Event
  banned : Option BanError → Event
  country_blocked : Option CountryBlockedError → Event

unfoldable pub apply : Reading → Event → Cooldowns → Option Cooldowns
apply r (rejected d) m = some (cooldown r.now d m)
apply r unlocked m = some (clear_cooldowns m)
apply r (rate_limited e) m = some (cooldown_rate_limit r.now r.reset e m)
apply r (ip_capped e) m = cooldown_ip_capped r.now r.reset r.draw e m
apply r (banned e) m = some (cooldown_ban r.now e m)
apply r (country_blocked e) m = some (cooldown_country_blocked r.now e m)

pub cleared-IsConsistent : IsConsistent cleared
unfolding cleared
cleared-IsConsistent = record {
  single = omega arith;
  ban_shared = λ h. refl;
  country_shared = λ h. refl;
  capped_shared = λ h. refl;
}

module _ (now reset draw : ℕ) (m : Cooldowns) (c : IsConsistent m) where
  cooldown-IsConsistent : (d : ℕ) → IsConsistent (cooldown now d m)
  unfolding cooldown
  cooldown-IsConsistent d = ground arith

  cooldown_rate_limit-IsConsistent :
      (e : Option RateLimitError) → IsConsistent (cooldown_rate_limit now reset e m)
  unfolding cooldown_rate_limit
  cooldown_rate_limit-IsConsistent none = c
  cooldown_rate_limit-IsConsistent (some e) = ground arith

  cooldown_ban-IsConsistent : (e : Option BanError) → IsConsistent (cooldown_ban now e m)
  unfolding cooldown_ban
  cooldown_ban-IsConsistent none = c
  cooldown_ban-IsConsistent (some e) = ground arith

  cooldown_country_blocked-IsConsistent :
      (e : Option CountryBlockedError) → IsConsistent (cooldown_country_blocked now e m)
  unfolding cooldown_country_blocked
  cooldown_country_blocked-IsConsistent none = c
  cooldown_country_blocked-IsConsistent (some e) = ground arith

  cooldown_ip_capped-IsConsistent :
      (e : Option IpCappedError) (m' : Cooldowns)
      → cooldown_ip_capped now reset draw e m ≡ some m'
      → IsConsistent m'
  unfolding cooldown_ip_capped
  cooldown_ip_capped-IsConsistent none m' h = subst IsConsistent (some_inj h) c
  cooldown_ip_capped-IsConsistent (some ice) m' h = ground arith

-- Every event keeps the fields consistent: at most one refusal is remembered, and its own deadline
-- is the shared one.
pub apply-IsConsistent :
    (r : Reading) (e : Event) (m m' : Cooldowns)
    → apply r e m ≡ some m'
    → IsConsistent m
    → IsConsistent m'
unfolding apply clear_cooldowns
apply-IsConsistent r (rejected d) m m' h c =
    subst IsConsistent (some_inj h) (cooldown-IsConsistent r.now r.reset r.draw m c d)
apply-IsConsistent r unlocked m m' h c = subst IsConsistent (some_inj h) cleared-IsConsistent
apply-IsConsistent r (rate_limited e) m m' h c =
    subst IsConsistent (some_inj h) (cooldown_rate_limit-IsConsistent r.now r.reset r.draw m c e)
apply-IsConsistent r (ip_capped e) m m' h c =
    cooldown_ip_capped-IsConsistent r.now r.reset r.draw m c e m' h
apply-IsConsistent r (banned e) m m' h c =
    subst IsConsistent (some_inj h) (cooldown_ban-IsConsistent r.now r.reset r.draw m c e)
apply-IsConsistent r (country_blocked e) m m' h c =
    subst IsConsistent (some_inj h)
      (cooldown_country_blocked-IsConsistent r.now r.reset r.draw m c e)
