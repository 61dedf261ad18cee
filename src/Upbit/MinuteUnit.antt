-- ===== src/Upbit/MinuteUnit.antt =====
-- `parseMinuteCandleUnit` against the texts `candle.<n>m` of the exchange.
use Prim.Native.Nat.{◌/◌, ◌%◌}
use Prim.Native.Char.{Char, code}
use Prim.Native.String.append as Append
use coin_bot.Base.{
  ℕ, zero, suc, ◌+◌, ◌*◌, ◌^◌, ◌≤◌, ◌<◌, String, ◌<>◌, true, some, ◌≡◌, refl, ap, ◌∙◌, inl, inr,
  arith, Bool-cases, ◌==◌,
}
use coin_bot.Base.Text.{digit, show, show_before}
use coin_bot.EventRouter.Extract.{text_length}
use coin_bot.EventRouter.Prefix.{strip_key-append}
use coin_bot.Upbit.Messages.{
  is_digit, digits_value, positive_int, strip_last, parse_minute_candle_unit,
}

digit-is_digit : (n : ℕ) → n < 10 → (is_digit (code (digit n)) ≡ true) × (code (digit n) ≡ 48 + n)
unfolding digit is_digit
digit-is_digit zero h = (refl, refl)
digit-is_digit (suc zero) h = (refl, refl)
digit-is_digit (suc (suc zero)) h = (refl, refl)
digit-is_digit (suc (suc (suc zero))) h = (refl, refl)
digit-is_digit (suc (suc (suc (suc zero)))) h = (refl, refl)
digit-is_digit (suc (suc (suc (suc (suc zero))))) h = (refl, refl)
digit-is_digit (suc (suc (suc (suc (suc (suc zero)))))) h = (refl, refl)
digit-is_digit (suc (suc (suc (suc (suc (suc (suc zero))))))) h = (refl, refl)
digit-is_digit (suc (suc (suc (suc (suc (suc (suc (suc zero)))))))) h = (refl, refl)
digit-is_digit (suc (suc (suc (suc (suc (suc (suc (suc (suc zero))))))))) h = (refl, refl)
digit-is_digit (suc (suc (suc (suc (suc (suc (suc (suc (suc (suc n)))))))))) h =
    absurd (omega arith)

read_digit :
    (acc n : ℕ) (rest : String)
    → n < 10
    → digits_value acc (String.◌∷◌ (digit n) rest) ≡ digits_value (acc * 10 + n) rest
unfolding digits_value
read_digit acc n rest h =
    let (is, value) = digit-is_digit n h in
    rw (is, value) (ap (λ k. digits_value (acc * 10 + k) rest) (omega arith))

read_shown :
    (fuel n : ℕ) (rest : String)
    → n < fuel
    → digits_value 0 (show_before fuel n rest) ≡ digits_value n rest
unfolding show_before
read_shown zero n rest h = absurd (omega arith)
read_shown (suc fuel) n rest h = elim (Bool-cases (n / 10 == 0)) [
  | inl e ↦
      rw e (read_digit 0 (n % 10) rest (omega arith) ∙ ap (λ k. digits_value k rest) (ground arith))
  | inr e ↦ rw e (
      read_shown fuel (n / 10) _ (ground arith)
      ∙ read_digit (n / 10) (n % 10) rest (omega arith)
      ∙ ap (λ k. digits_value k rest) (omega arith))
]

strip_mark : (c : Char) (s : String) → strip_last (code c) (s <> String.◌∷◌ c String.[]) ≡ some s
unfolding strip_last
strip_mark c String.[] = rw (Append.nil (String.◌∷◌ c String.[])) (ground arith)
strip_mark c (String.◌∷◌ a String.[]) =
    rw (Append.cons a String.[] (String.◌∷◌ c String.[]), Append.nil (String.◌∷◌ c String.[]))
      (ground arith)
strip_mark c (String.◌∷◌ a (String.◌∷◌ b s)) =
    let t = String.◌∷◌ c String.[] in
    let e = strip_mark c (String.◌∷◌ b s) in
    rw (Append.cons a (String.◌∷◌ b s) t, Append.cons b s t) (ground (arith, e, Append.cons b s t))

marked_length :
    (c : Char) (s : String) → text_length (s <> String.◌∷◌ c String.[]) ≡ text_length s + 1
marked_length c String.[] = ap text_length (Append.nil _)
marked_length c (String.◌∷◌ a s) =
    ap text_length (Append.cons a s _) ∙ ap suc (marked_length c s) ∙ omega arith

shown_length :
    (fuel n : ℕ) (rest : String)
    → text_length rest + 1 ≤ text_length (show_before (suc fuel) n rest)
unfolding show_before
shown_length zero n rest = ground arith
shown_length (suc fuel) n rest =
    ground (arith, shown_length fuel (n / 10) (String.◌∷◌ (digit (n % 10)) rest))

-- A number of minutes that is more than 0 and fits into an `int` is read from its text, as the exchange
-- writes it, unchanged.
pub parse-show :
    (n : ℕ) → 0 < n → n < 2 ^ 31 → parse_minute_candle_unit ("candle." <> show n <> "m") ≡ some n
unfolding parse_minute_candle_unit positive_int show digits_value
parse-show n h h' =
    let read : digits_value 0 (show_before (n + 1) n "") ≡ some n =
      read_shown (n + 1) n "" (omega arith) in
    rw (strip_key-append "candle." (show n <> "m"), strip_mark "m" (show n), read)
      (ground (arith, marked_length "m" (show n), shown_length n n ""))
