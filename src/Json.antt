-- ===== src/Json.antt =====
-- The JSON library (nlohmann::json) as an interface: the library is not part of the repository, and a
-- message is read through these calls alone. An exception that a call throws is `none`.
use coin_bot.Base.{ℕ, String, Bool, Option, none, some, List, [], ◌∷◌, if◌then◌else◌}

pub record Json (J D : Type 0) : Type 0 where
  -- `json::parse(text, nullptr, false)`; `none` is a discarded value
  pub parse : String → Option J
  pub is_object : J → Bool
  -- the member of an object; `none` if it has none or is no object
  pub find : String → J → Option J
  pub is_null : J → Bool
  -- the elements of an array; `none` if it is no array
  pub items : J → Option (List J)
  -- `get<std::string>()` and so on
  pub get_text : J → Option String
  pub get_double : J → Option D
  -- counts and times, which are not negative here
  pub get_int : J → Option ℕ
  pub get_bool : J → Option Bool

-- A chain of reads stops at the first exception.
infixl 5 ◌>>=◌
abbrev pub ◌>>=◌ {ℓ κ} : {A : Type ℓ} {B : Type κ} → Option A → (A → Option B) → Option B
none >>= f = none
some a >>= f = f a

module _ {J D : Type 0} (json : Json J D) {A : Type 0} where
  -- `j.at(key).get_to(x)`
  abbrev pub member : (J → Option A) → String → J → Option A
  member get key j = do v ← json.find key j; get v

  abbrev read_unless_null : (J → Option A) → A → J → Option A
  read_unless_null get other v = if json.is_null v then some other else get v

  -- `if (j.contains(key) && !j.at(key).is_null()) x = j.at(key).get<A>(); else x = other;`
  abbrev pub member_or : (J → Option A) → A → String → J → Option A
  member_or get other key j = elim (json.find key j) [
    | none ↦ some other
    | some v ↦ read_unless_null get other v
  ]

  -- The same, into a `std::optional`.
  abbrev pub optional_member : (J → Option A) → String → J → Option (Option A)
  optional_member get key j = elim (json.find key j) [
    | none ↦ some none
    | some v ↦ if json.is_null v then some none else (do a ← get v; some (some a))
  ]

-- `get<std::vector<A>>()`: the first exception ends it.
unfoldable pub each {ℓ κ} : {J : Type ℓ} {A : Type κ} → (J → Option A) → List J → Option (List A)
each get [] = some []
each get (j ∷ js) = do a ← get j; rest ← each get js; some (a ∷ rest)
