-- ===== src/EventRouter/Prefix.antt =====
-- `strip_key` of EventRouter/Extract, by texts.
use Prim.Native.Char.{code}
use Prim.Native.String.append as Append
use text.Mathlib.TextEquality.{Char-path}
use coin_bot.Base.{String, Bool-cases, inl, inr, ◌<>◌, ◌==◌, some, ◌≡◌, refl, ap, arith}
use coin_bot.EventRouter.Extract.{strip_key}

pub strip_key-text : (prefix s rest : String) → strip_key prefix s ≡ some rest → s ≡ prefix <> rest
unfolding strip_key
strip_key-text String.[] s rest h = rw (Append.nil rest) cc
strip_key-text (String.◌∷◌ k prefix) String.[] rest h = absurd cc
strip_key-text (String.◌∷◌ k prefix) (String.◌∷◌ c s) rest h =
    elim (Bool-cases (code k == code c)) [
      | inr e ↦ absurd (ground arith)
      | inl e ↦
          let same : c ≡ k = Char-path c k (ground arith) in
          let after = strip_key-text prefix s rest (ground arith) in
          rw (same, after, Append.cons k prefix rest) refl
    ]

pub strip_key-append : (prefix rest : String) → strip_key prefix (prefix <> rest) ≡ some rest
unfolding strip_key
strip_key-append String.[] rest = ap some (Append.nil rest)
strip_key-append (String.◌∷◌ k prefix) rest =
    rw (Append.cons k prefix rest, strip_key-append prefix rest) (ground arith)
