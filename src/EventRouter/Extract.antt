-- ===== src/EventRouter/Extract.antt =====
-- `extractStringValue_`, `extractMarketFast_` and `extractMarketSlow_` of app/EventRouter.cpp. What the
-- JSON library makes of a text is a parameter.
use Prim.Native.Char.{Char, code}
use coin_bot.Base.{
  ℕ, suc, String, Bool, true, false, not, ◌&&◌, ◌||◌, Option, none, some, ◌==◌, ltb, leb, str_eq,
  is_empty, value_or, if◌then◌else◌,
}

-- The text after `key`, if `key` stands at its start.
unfoldable pub strip_key : String → String → Option String
strip_key String.[] json = some json
strip_key (String.◌∷◌ k key) String.[] = none
strip_key (String.◌∷◌ k key) (String.◌∷◌ c json) =
    if code k == code c then strip_key key json else none

abbrev pub first_of : Option String → Option String → Option String
first_of none later = later
first_of (some rest) later = some rest

-- The text after the first `key`: `std::string_view::find`, and the step over what was found.
unfoldable pub after_key : String → String → Option String
unfolding strip_key
after_key String.[] key = strip_key key ""
after_key (String.◌∷◌ c json) key =
    first_of (strip_key key (String.◌∷◌ c json)) (after_key json key)

-- `std::isspace` in the C locale
unfoldable pub is_space : Char → Bool
is_space c = code c == 32 || (leb 9 (code c) && leb (code c) 13)

unfoldable pub skip_space : String → String
unfolding is_space
skip_space String.[] = String.[]
skip_space (String.◌∷◌ c s) = if is_space c then skip_space s else String.◌∷◌ c s

unfoldable pub expect : ℕ → String → Option String
expect mark String.[] = none
expect mark (String.◌∷◌ c s) = if code c == mark then some s else none

unfoldable pub put_first : Char → Option String → Option String
put_first c none = none
put_first c (some v) = some (String.◌∷◌ c v)

-- Up to the closing quote; `none` is an escape or the end of the text.
unfoldable pub scan_value : String → Option String
unfolding put_first
scan_value String.[] = none
scan_value (String.◌∷◌ c s) =
    if code c == b'\\'
    then none
    else if code c == b'"'
    then some String.[]
    else put_first c (scan_value s)

abbrev pub text_length : String → ℕ
text_length String.[] = 0
text_length (String.◌∷◌ c s) = suc (text_length s)

unfoldable pub check_length : Option String → Option String
check_length none = none
check_length (some v) = if text_length v == 0 || ltb 20 (text_length v) then none else some v

abbrev pub then_text : Option String → (String → Option String) → Option String
then_text none f = none
then_text (some s) f = f s

unfoldable pub extract_string_value : String → String → Option String
unfolding after_key skip_space expect scan_value check_length
extract_string_value json key = then_text (after_key json key) (λ s.
    then_text (expect b':' (skip_space s))
      (λ s'. then_text (expect b'"' (skip_space s')) (λ s''. check_length (scan_value s''))))

pub record FastResult : Type 0 where
  pub market : Option String
  pub had_conflict : Bool

unfoldable pub agree : Option String → Option String → FastResult
agree (some c) (some m) =
    if str_eq c m
    then record { market = some c; had_conflict = false }
    else record { market = none; had_conflict = true }
agree (some c) none = record { market = some c; had_conflict = false }
agree none m = record { market = m; had_conflict = false }

unfoldable pub extract_market_fast : String → FastResult
unfolding extract_string_value agree
extract_market_fast json =
    agree (extract_string_value json "\"code\"") (extract_string_value json "\"market\"")

-- The members "code" and "market" of a parsed text, where they are strings.
pub record Parsed : Type 0 where
  pub code_val : Option String
  pub market_val : Option String

unfoldable pub choose : Option Parsed → Option String
choose none = none
choose (some p) =
    let c = value_or p.code_val "" in
    let m = value_or p.market_val "" in
    if not (is_empty c) && not (is_empty m)
    then if str_eq c m then some c else none
    else if not (is_empty c)
    then some c
    else if not (is_empty m)
    then some m
    else none

-- `parse` is `nlohmann::json::parse` without exceptions, and `find`; `none` is a text it discards.
unfoldable pub extract_market_slow : (String → Option Parsed) → String → Option String
unfolding choose
extract_market_slow parse json = choose (parse json)
