-- ===== src/Upstream/Text.antt =====
-- The delays that internal/upstream/ratelimit.go finds in the text of a body, by four regular
-- expressions. In each the pieces that repeat are disjoint from what follows, so that a match from
-- the left takes each piece as far as it goes.
use Prim.Native.Char.{code}
use Prim.Native.String
use freebuff_proxy_scaleway.Base.{
  ℕ, ◌+◌, ◌-◌, ◌*◌, String, Bool, false, ◌&&◌, ◌||◌, Option, none, some, List, [], ◌∷◌, ltb, leb,
  nat_eq, if◌then◌else◌, ◌^◌, zero, suc,
}
use freebuff_proxy_scaleway.Base.Time.{second, minute, hour}
use freebuff_proxy_scaleway.Upstream.Delay.{clamp_cooldown, wrap_int64}
use freebuff_proxy_scaleway.Upstream.Fields.{Decoder}

-- `\s` and `\d` of Go's regexp.
abbrev is_blank : ℕ → Bool
is_blank c = nat_eq c 9 || nat_eq c 10 || nat_eq c 12 || nat_eq c 13 || nat_eq c 32

abbrev is_digit : ℕ → Bool
is_digit c = leb b'0' c && leb c b'9'

-- The pieces of a pattern: a text, `\s*`, `\s+`, one optional code point, and the captured `\d+`.
pub data Piece : Type 0 where
  literal : String → Piece
  blanks : Piece
  some_blanks : Piece
  maybe : ℕ → Piece
  digits : Piece

abbrev skip_prefix : String → String → Option String
skip_prefix String.[] s = some s
skip_prefix (String.◌∷◌ c p) String.[] = none
skip_prefix (String.◌∷◌ c p) (String.◌∷◌ e s) =
    let rest = skip_prefix p s in if nat_eq (code c) (code e) then rest else none

abbrev skip_blanks : String → String
skip_blanks String.[] = String.[]
skip_blanks (String.◌∷◌ c s) =
    let rest = skip_blanks s in if is_blank (code c) then rest else String.◌∷◌ c s

abbrev starts_blank : String → Bool
starts_blank String.[] = false
starts_blank (String.◌∷◌ c s) = is_blank (code c)

abbrev skip_one : ℕ → String → String
skip_one k String.[] = String.[]
skip_one k (String.◌∷◌ c s) = if nat_eq (code c) k then s else String.◌∷◌ c s

-- The value of the leading digits, with their number, and the rest.
abbrev read_digits : ℕ → ℕ → String → ℕ × ℕ × String
read_digits n v String.[] = (n, v, String.[])
read_digits n v (String.◌∷◌ c s) =
    let rest = read_digits (n + 1) (v * 10 + (code c - b'0')) s in
    if is_digit (code c) then rest else (n, v, String.◌∷◌ c s)

abbrev match_pieces : List Piece → ℕ → String → Option ℕ
match_pieces [] v s = some v
match_pieces (literal w ∷ ps) v s = elim (skip_prefix w s) [
  | none ↦ none
  | some rest ↦ match_pieces ps v rest
]
match_pieces (blanks ∷ ps) v s = match_pieces ps v (skip_blanks s)
match_pieces (some_blanks ∷ ps) v s =
    let rest = match_pieces ps v (skip_blanks s) in if starts_blank s then rest else none
match_pieces (maybe k ∷ ps) v s = match_pieces ps v (skip_one k s)
match_pieces (digits ∷ ps) v s =
    let read = read_digits 0 0 s in
    let rest = match_pieces ps read.1 read.2 in if leb read.0 0 then none else rest

-- `FindStringSubmatch`: the number that the leftmost match captures.
abbrev find_number : List Piece → String → Option ℕ
find_number ps String.[] = match_pieces ps 0 String.[]
find_number ps (String.◌∷◌ c s) =
    let later = find_number ps s in
    elim (match_pieces ps 0 (String.◌∷◌ c s)) [ some v ↦ some v | none ↦ later ]

abbrev pub re_retry_after_ns : List Piece
re_retry_after_ns =
    literal "retry"
    ∷ some_blanks
    ∷ literal "after"
    ∷ some_blanks
    ∷ digits
    ∷ blanks
    ∷ literal "s"
    ∷ []

abbrev pub re_minutes_limit : List Piece
re_minutes_limit =
    digits ∷ some_blanks ∷ literal "minute" ∷ maybe b's' ∷ some_blanks ∷ literal "limit" ∷ []

abbrev pub re_hours : List Piece
re_hours = digits ∷ some_blanks ∷ literal "hour" ∷ maybe b's' ∷ []

-- `strconv.Atoi` fails above the int64 range, and the product wraps before it is clamped.
abbrev pub text_delay : ℕ → Option ℕ → Option ℕ
text_delay unit none = none
text_delay unit (some n) =
    if ltb n (2 ^ 63) && ltb 0 n then some (clamp_cooldown (wrap_int64 (n * unit))) else none

unfoldable pub parse_retry_after_from_text : String → ℕ
parse_retry_after_from_text text = elim (text_delay second (find_number re_retry_after_ns text)) [
  | some d ↦ d
  | none ↦ elim (text_delay minute (find_number re_minutes_limit text)) [
    | some d ↦ d
    | none ↦ elim (text_delay hour (find_number re_hours text)) [ some d ↦ d | none ↦ 0 ]
  ]
]

-- The time stamp of `resets?\s+at\s+(\d{4}-\d{2}-\d{2}[tT][\d:.]+[zZ]?)`, upper-cased.
abbrev take_digits : ℕ → String → Option (String × String)
take_digits zero s = some (String.[], s)
take_digits (suc n) String.[] = none
take_digits (suc n) (String.◌∷◌ c s) =
    let rest = take_digits n s in
    if is_digit (code c)
    then elim rest [ none ↦ none | some (d, r) ↦ some (String.◌∷◌ c d, r) ]
    else none

abbrev take_either : ℕ → ℕ → String → String → Option (String × String)
take_either lower upper as_text String.[] = none
take_either lower upper as_text (String.◌∷◌ c s) =
    if nat_eq (code c) lower || nat_eq (code c) upper then some (as_text, s) else none

abbrev take_clock : String → String × String
take_clock String.[] = (String.[], String.[])
take_clock (String.◌∷◌ c s) =
    let rest = take_clock s in
    if is_digit (code c) || nat_eq (code c) b':' || nat_eq (code c) b'.'
    then (String.◌∷◌ c rest.0, rest.1)
    else (String.[], String.◌∷◌ c s)

infixl 5 ◌>>=◌
abbrev ◌>>=◌ : {A B : Type 0} → Option A → (A → Option B) → Option B
none >>= f = none
some a >>= f = f a

abbrev take_zone : String → String
take_zone s = elim (take_either b'z' b'Z' "Z" s) [ none ↦ String.[] | some (z, r) ↦ z ]

abbrev take_stamp : String → Option String
take_stamp s = do
  (year, s₁) ← take_digits 4 s
  (dash, s₂) ← take_either b'-' b'-' "-" s₁
  (month, s₃) ← take_digits 2 s₂
  (dash', s₄) ← take_either b'-' b'-' "-" s₃
  (day, s₅) ← take_digits 2 s₄
  (t, s₆) ← take_either b't' b'T' "T" s₅
  let clock = take_clock s₆
  if leb (String.len clock.0) 0
      then none
      else some (
          String.◌++◌ year (
            String.◌++◌ dash (
              String.◌++◌ month (
                String.◌++◌ dash'
                  (String.◌++◌ day (String.◌++◌ t (String.◌++◌ clock.0 (take_zone clock.1))))))))

abbrev match_reset : String → Option String
match_reset s = do
  s₁ ← skip_prefix "reset" s
  s₂ ← skip_prefix "at" (skip_blanks (skip_one b's' s₁))
  if starts_blank (skip_one b's' s₁) && starts_blank s₂ then take_stamp (skip_blanks s₂) else none

abbrev find_reset : String → Option String
find_reset String.[] = none
find_reset (String.◌∷◌ c s) =
    let later = find_reset s in
    elim (match_reset (String.◌∷◌ c s)) [ some v ↦ some v | none ↦ later ]

unfoldable pub parse_reset_at_from_text : Decoder → String → ℕ
parse_reset_at_from_text d text = elim (find_reset text) [
  | none ↦ 0
  | some iso ↦ elim (d.rfc3339 iso) [ none ↦ 0 | some t ↦ t ]
]
