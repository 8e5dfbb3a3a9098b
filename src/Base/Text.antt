-- ===== src/Base/Text.antt =====
-- The parts of Go's `strings` and `unicode` that the program uses, over code points.
use Prim.Native.Nat.{ℕ}
use Prim.Native.String.{String}
use Prim.Native.Char.{code}
use mathlib.Core.Bool.{Bool, true, false, ◌&&◌, ◌||◌}
use mathlib.Core.Path.{◌≡◌, refl}
use text.Mathlib.Text.{starts_with}
use freebuff_proxy_scaleway.Base.Tests.{leb, nat_eq, if◌then◌else◌}

-- `unicode.IsSpace`.
pub is_space : ℕ → Bool
is_space c =
    (leb 9 c && leb c 13)
    || nat_eq c 0x20
    || nat_eq c 0x85
    || nat_eq c 0xa0
    || nat_eq c 0x1680
    || (leb 0x2000 c && leb c 0x200a)
    || nat_eq c 0x2028
    || nat_eq c 0x2029
    || nat_eq c 0x202f
    || nat_eq c 0x205f
    || nat_eq c 0x3000

pub is_empty : String → Bool
is_empty String.[] = true
is_empty (String.◌∷◌ c s) = false

pub trim_left : String → String
trim_left String.[] = String.[]
trim_left (String.◌∷◌ c s) =
    let rest = trim_left s in if is_space (code c) then rest else String.◌∷◌ c s

pub trim_right : String → String
trim_right String.[] = String.[]
trim_right (String.◌∷◌ c s) =
    let rest = trim_right s in
    if is_space (code c) && is_empty rest then String.[] else String.◌∷◌ c rest

-- `strings.TrimSpace`.
unfoldable pub trim_space : String → String
unfolding is_space is_empty trim_left trim_right
trim_space s = trim_right (trim_left s)

-- `strings.Contains(s, part)`.
unfoldable pub contains_text : String → String → Bool
contains_text String.[] part = starts_with String.[] part
contains_text (String.◌∷◌ c s) part = starts_with (String.◌∷◌ c s) part || contains_text s part

pub contains_prefix : (s part : String) → starts_with s part ≡ true → contains_text s part ≡ true
unfolding contains_text
contains_prefix String.[] part h = h
contains_prefix (String.◌∷◌ c s) part h = rw h refl
