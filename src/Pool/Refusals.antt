-- ===== src/Pool/Refusals.antt =====
-- What a pass of internal/pool/acquire.go does with a token that was refused. A pass reads the clock
-- at one instant. What the session manager, the create gate and the run manager of a token answer to
-- the pass is an `Attempt`; log lines and alerts are left out.
pub mod Cooled
use freebuff_proxy_scaleway.Base.{
  ℕ, ◌+◌, ◌*◌, String, Bool, true, false, ◌&&◌, ◌||◌, not, Option, none, some, List, [], ◌∷◌, ◌++◌,
  ltb, leb, nat_eq, if◌then◌else◌, get_elem?, set, ◌⊎◌, inl, inr,
}
use freebuff_proxy_scaleway.Base.Time.{minute}
use freebuff_proxy_scaleway.Base.Eq.{◌==◌, String_eq}
use freebuff_proxy_scaleway.Base.Map.{lookup, insert, delete}
use freebuff_proxy_scaleway.Upstream.Errors.{
  RateLimitError, BanError, CountryBlockedError, IpCappedError, LimitedIpError,
}
use freebuff_proxy_scaleway.Session.Snapshot.{SessionSnapshot, one_session}
use freebuff_proxy_scaleway.Runs.Cooldown.{
  Cooldowns, cooldown, clear_cooldowns, cooldown_rate_limit, cooldown_ip_capped, cooldown_ban,
  cooldown_country_blocked, rate_limit_error,
}
use freebuff_proxy_scaleway.Pool.Quota.{
  quota_remaining, quota_limit_error, is_quota_exhausted_error,
}
use freebuff_proxy_scaleway.Pool.Scarce.{scarce_held}
use freebuff_proxy_scaleway.Pool.Usage.{usage_count, usage_reset_in}
use freebuff_proxy_scaleway.Pool.Unfit.{UnfitEntry, mark_model_unfit}
use freebuff_proxy_scaleway.Pool.Order.{TokenEntry}
use freebuff_proxy_scaleway.Pool.Buckets.{
  WaitingRoomError, Buckets, Texts, append_new, append_some, remember,
}

abbrev pub default_cooldown : ℕ
default_cooldown = 30 * minute

-- What `errors.Is` and `errors.As` find in one error.
pub record Refusal : Type 0 where
  pub auth_rejected : Bool
  pub waiting : Option WaitingRoomError
  pub rate_limit : Option RateLimitError
  pub ip_capped : Option IpCappedError
  pub ban : Option BanError
  pub country_blocked : Option CountryBlockedError
  pub limited_ip : Option LimitedIpError

-- The answers to a token's attempt: whether the context has ended, whether the gate gives a permit,
-- the admission's error, the session after it, whether the token is still in the pool, and the run.
pub record Attempt : Type 0 where
  pub cancelled : Bool
  pub gate_refused : Bool
  pub admission : Option Refusal
  pub session : SessionSnapshot
  pub current : Bool
  pub run : Refusal ⊎ ℕ
  pub draw : ℕ

pub record Pass : Type 0 where
  pub tokens : List TokenEntry
  pub msgs : List (List ℕ)
  pub spend_limited : List ℕ
  pub unfit : List (String × UnfitEntry)
  pub admissions : List (String × Option ℕ)
  pub last_token_by_model : List (String × ℕ)
  pub buckets : Buckets

pub record Lease : Type 0 where
  pub token : ℕ
  pub model : String
  pub run : ℕ

-- A pass goes on, leases, stops at the context's or the gate's error, or panics.
pub data Progress : Type 0 where
  going : Pass → Progress
  leased : Pass → Lease → Progress
  stopped : Pass → Progress
  panicked : Progress

-- What a pass is for, and its readings of the clock and of the configuration.
pub record Request : Type 0 where
  pub texts : Texts
  pub now : ℕ
  pub reset : ℕ
  pub model : String
  pub max_messages_per_day : ℕ
  pub scarce_models : List String

abbrev pub set_runs : ℕ → TokenEntry → Cooldowns → Pass → Pass
set_runs idx tok m p = record p { tokens = set p.tokens idx (record tok { runs = m }) }

abbrev pub tagged : String → RateLimitError → RateLimitError
tagged model rle = if rle.model == "" then record rle { model = model } else rle

pub record_spend_limited : ℕ → List ℕ → List ℕ
record_spend_limited token counts = elim (get_elem? counts token) [
  | none ↦ counts
  | some n ↦ set counts token (n + 1)
]

-- The cooldown state of a token after a refusal, in the order of the tests.
unfoldable pub cool : Request → ℕ → Refusal → Cooldowns → Option Cooldowns
cool q draw r m =
    let rle : Option RateLimitError = elim r.rate_limit [
      | none ↦ none
      | some e ↦ some (tagged q.model e)
    ] in
    let m₁ = if r.auth_rejected then cooldown q.now default_cooldown m else m in
    let m₂ = cooldown_rate_limit q.now q.reset rle m₁ in
    elim (cooldown_ip_capped q.now q.reset draw r.ip_capped m₂) [
      | none ↦ none
      | some m₃ ↦
          some (cooldown_country_blocked q.now r.country_blocked (cooldown_ban q.now r.ban m₃))
    ]

-- The buckets that both kinds of failure fill.
unfoldable pub file : Request → Refusal → Buckets → Buckets
file q r b =
    let rle : Option RateLimitError = elim r.rate_limit [
      | none ↦ none
      | some e ↦ some (tagged q.model e)
    ] in
    record b {
      rate_limited = append_some q.texts.rate_limit_text rle b.rate_limited;
      ip_capped = append_some q.texts.ip_capped_text r.ip_capped b.ip_capped;
      banned = append_some q.texts.ban_text r.ban b.banned;
      country_blocked =
          append_some q.texts.country_blocked_text r.country_blocked b.country_blocked;
    }

unfoldable pub count_spend : ℕ → Refusal → List ℕ → List ℕ
unfolding record_spend_limited
count_spend idx r counts = elim r.rate_limit [
  | none ↦ counts
  | some e ↦ if e.status == "spend_limited" then record_spend_limited idx counts else counts
]

-- A failed run start, and the part of a failed admission that is the same.
unfoldable pub refuse_run : Request → ℕ → TokenEntry → ℕ → Refusal → Pass → Progress
unfolding cool file count_spend
refuse_run q idx tok draw r p = elim (cool q draw r tok.runs) [
  | none ↦ panicked
  | some m ↦ going (record (set_runs idx tok m p) {
    spend_limited = count_spend idx r p.spend_limited;
    buckets = file q r p.buckets;
  })
]

-- The rest of a failed admission: a waiting room, and a model that the egress cannot serve.
unfoldable pub note_admission : Request → Refusal → Pass → Pass
note_admission q r p =
    let waiting : List WaitingRoomError = elim r.waiting [
      | none ↦ p.buckets.waiting
      | some w ↦ p.buckets.waiting ++ w ∷ []
    ] in
    elim r.limited_ip [
      | none ↦ record p { buckets = record p.buckets { waiting = waiting } }
      | some lie ↦
          let stamped : LimitedIpError = record lie { model = q.model } in
          record p {
            unfit = mark_model_unfit q.now q.model (some stamped) p.unfit;
            buckets = record p.buckets {
              waiting = waiting;
              model_limited = p.buckets.model_limited ++ stamped ∷ [];
            };
          }
    ]

unfoldable pub refuse_admission : Request → ℕ → TokenEntry → ℕ → Refusal → Pass → Progress
unfolding refuse_run note_admission
refuse_admission q idx tok draw r p = refuse_run q idx tok draw r (note_admission q r p)

-- The admission's entry is dropped if it is this token's or the sentinel.
abbrev pub is_own : ℕ → Option (Option ℕ) → Bool
is_own idx none = false
is_own idx (some none) = true
is_own idx (some (some k)) = nat_eq k idx

unfoldable pub forget_admission : String → ℕ → List (String × Option ℕ) → List (String × Option ℕ)
forget_admission model idx admissions =
    if is_own idx (lookup model admissions) then delete model admissions else admissions
