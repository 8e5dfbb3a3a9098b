-- ===== src/Upstream/Fields.antt =====
-- The JSON bodies that internal/upstream/ratelimit.go reads, and the readers of client_session.go.
-- A number is as in `Delay`. What the standard library's parsers make of a text is a `Decoder`.
use freebuff_proxy_scaleway.Base.{
  ℕ, ◌*◌, ◌/◌, String, Bool, false, ◌||◌, Option, none, some, List, [], ◌∷◌, ltb, leb,
  if◌then◌else◌,
}
use freebuff_proxy_scaleway.Base.Time.{second}
use freebuff_proxy_scaleway.Base.Eq.{◌==◌, String_eq}
use freebuff_proxy_scaleway.Base.Text.{trim_space, contains_text}
use Prim.Native.String
use freebuff_proxy_scaleway.Upstream.Delay.{unix_from, after_epoch}

mutual
  -- `other` is a Boolean or an array.
  pub data Json : Type 0 where
    null : Json
    number : ℕ → Json
    text : String → Json
    object : Fields → Json
    other : Json

  pub data Fields : Type 0 where
    no_field : Fields
    field : String → Json → Fields → Fields

-- `strings.ToLower`, `json.Unmarshal` into a map, `time.Parse` of RFC 3339, `http.ParseTime`,
-- `strconv.ParseFloat` and `strconv.ParseInt`, which is 0 for a negative number.
pub record Decoder : Type 0 where
  pub to_lower : String → String
  pub json : String → Option Fields
  pub rfc3339 : String → Option ℕ
  pub http_time : String → Option ℕ
  pub float : String → Option ℕ
  pub int : String → Option ℕ

abbrev pub get_field : String → Fields → Option Json
get_field key no_field = none
get_field key (field k v rest) = if k == key then some v else get_field key rest

-- A nested "error" object replaces the body.
abbrev object_or : Fields → Option Json → Fields
object_or raw (some (object f)) = f
object_or raw v = raw

unfoldable pub target_of : Fields → Fields
target_of raw = object_or raw (get_field "error" raw)

abbrev number_of : Decoder → Option Json → Option ℕ
number_of d (some (number n)) = some n
number_of d (some (text s)) = d.float (trim_space s)
number_of d v = none

unfoldable pub get_number : Decoder → List String → Fields → Option ℕ
get_number d [] m = none
get_number d (k ∷ ks) m = elim (number_of d (get_field k m)) [
  | some n ↦ some n
  | none ↦ get_number d ks m
]

abbrev time_of : Decoder → Option Json → Option ℕ
time_of d (some (text s)) = d.rfc3339 (trim_space s)
time_of d (some (number n)) =
    if ltb (100_000_000_000 * 1_000_000) n
    then some (after_epoch (n / 1_000_000 * 1_000_000))
    else if ltb 0 n
    then some (after_epoch (n / 1_000_000 * second))
    else none
time_of d v = none

unfoldable pub get_time : Decoder → List String → Fields → Option ℕ
unfolding after_epoch
get_time d [] m = none
get_time d (k ∷ ks) m = elim (time_of d (get_field k m)) [
  | some t ↦ some t
  | none ↦ get_time d ks m
]

-- The text under a key, the empty one if it is missing or no text.
abbrev text_of : String → Option Json → String
text_of old (some (text s)) = s
text_of old v = old

unfoldable pub get_text : String → String → Fields → String
get_text key old m = text_of old (get_field key m)

unfoldable pub parse_flex_time : Decoder → Option Json → Option ℕ
parse_flex_time d (some (text s)) = if s == "" then none else elim (d.rfc3339 s) [
  | some t ↦ some t
  | none ↦ elim (d.int s) [ some n ↦ some (unix_from n) | none ↦ none ]
]
parse_flex_time d (some (number n)) = some (unix_from (n / 1_000_000))
parse_flex_time d v = none

unfoldable pub contains_any : String → List String → Bool
contains_any lower [] = false
contains_any lower (n ∷ ns) = contains_text lower n || contains_any lower ns

-- The first n bytes, less a code point that they cut, and an ellipsis.
unfoldable pub truncate : String → ℕ → String
truncate s n = if leb (String.len s) n then s else String.◌++◌ (String.slice s 0 n) "..."
