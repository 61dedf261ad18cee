-- ===== src/EventRouter/Scan.antt =====
-- `extractStringValue_` on texts in which the first key is located.
use Prim.Native.Char.{Char, code}
use coin_bot.Base.{
  ℕ, String, Bool, true, false, not, ◌&&◌, none, some, ◌≡◌, refl, arith, ◌==◌, ltb, leb,
  if◌then◌else◌,
}
use coin_bot.EventRouter.Extract.{
  extract_string_value, after_key, skip_space, is_space, expect, scan_value, put_first,
  check_length, text_length,
}

abbrev pub text_append : String → String → String
text_append String.[] t = t
text_append (String.◌∷◌ c s) t = String.◌∷◌ c (text_append s t)

abbrev pub blank : String → Bool
blank String.[] = true
blank (String.◌∷◌ c s) = is_space c && blank s

-- Without a quote or an escape.
abbrev pub plain : String → Bool
plain String.[] = true
plain (String.◌∷◌ c s) = not (code c == b'\\') && not (code c == b'"') && plain s

expect-skip_space :
    (mark : ℕ) (spaces : String) (c : Char) (s : String)
    → blank spaces ≡ true
    → is_space c ≡ false
    → code c ≡ mark
    → expect mark (skip_space (text_append spaces (String.◌∷◌ c s))) ≡ some s
unfolding expect skip_space
expect-skip_space mark String.[] c s b n e = ground arith
expect-skip_space mark (String.◌∷◌ d spaces) c s b n e =
    ground (arith, expect-skip_space mark spaces c s)

scan_value-plain :
    (v s : String) → plain v ≡ true → scan_value (text_append v (String.◌∷◌ "\"" s)) ≡ some v
unfolding scan_value put_first
scan_value-plain String.[] s h = refl
scan_value-plain (String.◌∷◌ c v) s h = ground (arith, scan_value-plain v s)

-- The colon and the value in quotes, with spaces before each.
abbrev pub member : String → String → String → String → String
member before after v rest =
    text_append before
      (String.◌∷◌ ":" (text_append after (String.◌∷◌ "\"" (text_append v (String.◌∷◌ "\"" rest)))))

-- Where the first `key` of a text is followed by a colon and a value in quotes, with any white space
-- before each, `extract_string_value` gives the value, if it is without quotes and escapes and has
-- one to twenty bytes; a value without them that has none or more than twenty gives nothing.
pub extract_member :
    (json key before after v rest : String)
    → after_key json key ≡ some (member before after v rest)
    → blank before ≡ true
    → blank after ≡ true
    → plain v ≡ true
    → extract_string_value json key
      ≡ (if ltb 0 (text_length v) && leb (text_length v) 20 then some v else none)
unfolding extract_string_value check_length is_space
extract_member json key before after v rest found b a p =
    let s' = text_append after (String.◌∷◌ "\"" (text_append v (String.◌∷◌ "\"" rest))) in
    rw
      (
        found,
        expect-skip_space b':' before ":" s' b refl refl,
        expect-skip_space b'"' after "\"" (text_append v (String.◌∷◌ "\"" rest)) a refl refl,
        scan_value-plain v rest p,
      )
      (ground arith)
