-- ===== src/Startup/Own.antt =====
-- Which identifiers the recovery takes for the bot's own.
use coin_bot.Base.{
  String, true, inl, inr, Option-cases, ◌<>◌, Option, none, some, ◌≡◌, refl, ap, arith,
}
use coin_bot.EventRouter.Extract.{strip_key}
use coin_bot.EventRouter.Prefix.{strip_key-text, strip_key-append}
use coin_bot.Startup.{own_identifier}

-- There is an identifier, and it begins with the prefix.
abbrev pub Begins : String → Option String → Type 0
Begins prefix identifier = (rest : String) × (identifier ≡ some (prefix <> rest))

pub own-Begins :
    (prefix : String) (identifier : Option String)
    → own_identifier prefix identifier ≡ true
    → Begins prefix identifier
own-Begins prefix none h = absurd cc
own-Begins prefix (some i) h = elim (Option-cases (strip_key prefix i)) [
  | inl q ↦ absurd (ground arith)
  | inr (rest, q) ↦ (rest, ap some (strip_key-text prefix i rest q))
]

pub Begins-own :
    (prefix : String) (identifier : Option String)
    → Begins prefix identifier
    → own_identifier prefix identifier ≡ true
Begins-own prefix identifier (rest, q) = rw (q, strip_key-append prefix rest) refl
