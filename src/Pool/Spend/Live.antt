-- ===== src/Pool/Spend/Live.antt =====
-- The rolling window of internal/pool/spend.go on one list of amounts.
use freebuff_proxy_scaleway.Base.{
  ℕ, ◌+◌, ◌≤◌, ◌%◌, ◌^◌, ◌≡◌, refl, ap, ◌∙◌, List, [], ◌∷◌, ◌++◌, ltb, if◌then◌else◌, arith,
}
use freebuff_proxy_scaleway.Base.Lists.{All, All-append}
use native.Mathlib.Nat.{mod-add-mod}
use freebuff_proxy_scaleway.Pool.Spend.{rolling_window, prune_rolling, total_from}

-- The amounts whose window is open at `now`.
abbrev pub live : ℕ → List (ℕ × ℕ) → List (ℕ × ℕ)
live now [] = []
live now (e ∷ es) =
    let rest = live now es in if ltb (e.0 + rolling_window) now then rest else e ∷ rest

abbrev pub total : List (ℕ × ℕ) → ℕ
total [] = 0
total (e ∷ es) = e.1 + total es

abbrev pub IsOrdered : List (ℕ × ℕ) → Type 0
IsOrdered [] = Unit
IsOrdered (e ∷ es) = All (λ f. e.0 ≤ f.0) es × IsOrdered es

live_all :
    (now t : ℕ) (es : List (ℕ × ℕ))
    → All (λ f. t ≤ f.0) es
    → now ≤ t + rolling_window
    → live now es ≡ es
live_all now t [] a h = refl
live_all now t (e ∷ es) a h = ground (arith, live_all now t es a.1 h, a.0)

pub prune_rolling-live :
    (now : ℕ) (es : List (ℕ × ℕ)) → IsOrdered es → prune_rolling now es ≡ live now es
unfolding prune_rolling
prune_rolling-live now [] s = refl
prune_rolling-live now (e ∷ es) s =
    ground (arith, prune_rolling-live now es s.1, live_all now e.0 es s.0)

pub live-live :
    (now past : ℕ) (es : List (ℕ × ℕ)) → past ≤ now → live now (live past es) ≡ live now es
live-live now past [] h = refl
live-live now past (e ∷ es) h = ground (arith, live-live now past es h)

pub live-append :
    (now : ℕ) (es fs : List (ℕ × ℕ)) → live now (es ++ fs) ≡ live now es ++ live now fs
live-append now [] fs = refl
live-append now (e ∷ es) fs = ground (arith, live-append now es fs)

live-All {ℓ} : (P : ℕ × ℕ → Type ℓ) (now : ℕ) (es : List (ℕ × ℕ)) → All P es → All P (live now es)
live-All P now [] a = tt
live-All P now (e ∷ es) a = ground (arith, live-All P now es a.1, a.0)

pub live-IsOrdered : (now : ℕ) (es : List (ℕ × ℕ)) → IsOrdered es → IsOrdered (live now es)
live-IsOrdered now [] s = tt
live-IsOrdered now (e ∷ es) s =
    ground (arith, live-IsOrdered now es s.1, live-All (λ f. e.0 ≤ f.0) now es s.0)

pub append-IsOrdered :
    (es : List (ℕ × ℕ)) (f : ℕ × ℕ)
    → IsOrdered es
    → All (λ e. e.0 ≤ f.0) es
    → IsOrdered (es ++ f ∷ [])
append-IsOrdered [] f s a = (tt, tt)
append-IsOrdered (e ∷ es) f s a =
    (All-append (λ g. e.0 ≤ g.0) es (f ∷ []) s.0 (a.0, tt), append-IsOrdered es f s.1 a.1)

-- The sum of the int64 values is the sum, wrapped once.
pub total_from-total :
    (a : ℕ) (es : List (ℕ × ℕ)) → total_from (a % 2 ^ 64) es ≡ (a + total es) % 2 ^ 64
total_from-total a [] = ap (λ x. x % 2 ^ 64) (omega arith)
total_from-total a (e ∷ es) =
    ap (λ x. total_from x es) (mod-add-mod a (2 ^ 64) e.1)
    ∙ total_from-total (a + e.1) es
    ∙ ap (λ x. x % 2 ^ 64) (omega arith)
