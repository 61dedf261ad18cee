-- ===== src/Url.antt =====
-- util/UrlCodec.h: percent-encoding, on bytes.
pub mod Plain
use Prim.Native.Nat.{◌/◌, ◌%◌}
use coin_bot.Base.{
  ℕ, ◌+◌, ◌-◌, ◌*◌, Bool, true, false, not, ◌&&◌, ◌||◌, Option, none, some, List, [], ◌∷◌, ◌++◌,
  if◌then◌else◌, leb, ltb, ◌==◌,
}

-- `fromHex`; `none` is its -1.
unfoldable pub from_hex : ℕ → Option ℕ
from_hex c =
    if leb b'0' c && leb c b'9'
    then some (c - b'0')
    else if leb b'A' c && leb c b'F'
    then some (10 + (c - b'A'))
    else if leb b'a' c && leb c b'f'
    then some (10 + (c - b'a'))
    else none

unfoldable pub is_unreserved : ℕ → Bool
is_unreserved c =
    (leb b'A' c && leb c b'Z')
    || (leb b'a' c && leb c b'z')
    || (leb b'0' c && leb c b'9')
    || c == b'-'
    || c == b'_'
    || c == b'.'
    || c == b'~'

-- A digit as `std::uppercase << std::hex` prints it.
unfoldable pub hex_digit : ℕ → ℕ
hex_digit n = if ltb n 10 then b'0' + n else b'A' + (n - 10)

unfoldable pub encode_component : List ℕ → List ℕ
unfolding is_unreserved hex_digit
encode_component [] = []
encode_component (c ∷ s) =
    let rest = encode_component s in
    if is_unreserved c then c ∷ rest else b'%' ∷ hex_digit (c / 16) ∷ hex_digit (c % 16) ∷ rest

-- The byte that two digits give, if both are digits.
unfoldable pub byte_of : Option ℕ → Option ℕ → Option ℕ
byte_of none lo = none
byte_of (some hi) none = none
byte_of (some hi) (some lo) = some (hi * 16 + lo)

unfoldable pub decode_percent : List ℕ → List ℕ
unfolding byte_of from_hex
decode_percent [] = []
decode_percent (c ∷ []) = c ∷ []
decode_percent (c ∷ a ∷ []) = c ∷ a ∷ []
decode_percent (c ∷ a ∷ b ∷ s) =
    let after = decode_percent s in
    let next = decode_percent (a ∷ b ∷ s) in
    if c == b'%'
    then elim (byte_of (from_hex a) (from_hex b)) [ some byte ↦ byte ∷ after | none ↦ c ∷ next ]
    else c ∷ next
