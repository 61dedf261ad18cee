-- ===== src/Url/Plain.antt =====
-- `decodePercent` of an encoded text.
use Prim.Native.Nat.{◌/◌, ◌%◌}
use coin_bot.Base.{
  ℕ, ◌<◌, true, false, some, List, [], ◌∷◌, ◌++◌, ◌≡◌, refl, ap, ◌∙◌, inl, inr, arith, Bool-cases,
  ◌==◌,
}
use coin_bot.Base.{All}
use coin_bot.Url.{from_hex, is_unreserved, hex_digit, encode_component, byte_of, decode_percent}

from_hex-hex_digit : (n : ℕ) → n < 16 → from_hex (hex_digit n) ≡ some n
unfolding from_hex hex_digit
from_hex-hex_digit n h = ground arith

pub decode_other :
    (c : ℕ) (s : List ℕ) → (c == b'%') ≡ false → decode_percent (c ∷ s) ≡ c ∷ decode_percent s
unfolding decode_percent
decode_other c [] e = refl
decode_other c (a ∷ []) e = refl
decode_other c (a ∷ b ∷ s) e = rw e refl

decode_hex :
    (n : ℕ) (s : List ℕ)
    → n < 256
    → decode_percent (b'%' ∷ hex_digit (n / 16) ∷ hex_digit (n % 16) ∷ s) ≡ n ∷ decode_percent s
unfolding decode_percent byte_of
decode_hex n s h =
    rw (from_hex-hex_digit (n / 16) (ground arith), from_hex-hex_digit (n % 16) (ground arith))
      (ap (λ k. k ∷ decode_percent s) (omega arith))

not_percent : (c : ℕ) → is_unreserved c ≡ true → (c == b'%') ≡ false
unfolding is_unreserved
not_percent c e = ground arith

pub decode-encode :
    (s rest : List ℕ)
    → All (λ c. c < 256) s
    → decode_percent (encode_component s ++ rest) ≡ s ++ decode_percent rest
unfolding encode_component
decode-encode [] rest h = refl
decode-encode (c ∷ s) rest (b, h) = elim (Bool-cases (is_unreserved c)) [
  | inl e ↦ rw e (decode_other c _ (not_percent c e) ∙ ap (λ t. c ∷ t) (decode-encode s rest h))
  | inr e ↦ rw e (decode_hex c _ b ∙ ap (λ t. c ∷ t) (decode-encode s rest h))
]
