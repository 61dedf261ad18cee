-- ===== src/Base/Dict.antt =====
-- `std::map` and `std::unordered_map` keyed by texts, as association lists. The order of the list
-- stands for the order in which the container is walked.
use Prim.Native.String.{String}
use mathlib.Core.Path.{◌≡◌, refl, subst}
use mathlib.Core.Logic.{◌≢◌, inl, inr}
use mathlib.Core.Bool.{false}
use mathlib.Core.Option.{Option, none, some}
use mathlib.Core.List.{List, [], ◌∷◌}
use native.Mathlib.Omega.{arith}
use text.Mathlib.Text.{◌==◌}
use text.Mathlib.TextEquality.{eq_iff}
use coin_bot.Base.Tests.{if◌then◌else◌, Bool-cases, is_some}

abbrev pub Dict {ℓ} : Type ℓ → Type ℓ
Dict V = List (String × V)

module _ {ℓ} {V : Type ℓ} where
  -- `operator[]` and an assignment: a missing key is added.
  unfoldable pub insert : String → V → Dict V → Dict V
  insert key new [] = (key, new) ∷ []
  insert key new ((at, old) ∷ rest) =
      if at == key then (at, new) ∷ rest else (at, old) ∷ insert key new rest

  -- `find`
  unfoldable pub lookup : String → Dict V → Option V
  lookup key [] = none
  lookup key ((at, value) ∷ rest) = if at == key then some value else lookup key rest

  -- An assignment through the iterator that `find` returned.
  unfoldable pub replace : String → V → Dict V → Dict V
  replace k v [] = []
  replace k v ((j, w) ∷ m) = if j == k then (j, v) ∷ m else (j, w) ∷ replace k v m

  -- `erase`
  unfoldable pub remove : String → Dict V → Dict V
  remove k [] = []
  remove k ((j, w) ∷ m) = if j == k then m else (j, w) ∷ remove k m

  -- `for (auto& [_, v] : m) v = f(v)`
  unfoldable pub update_all : (V → V) → Dict V → Dict V
  update_all f [] = []
  update_all f ((j, w) ∷ m) = (j, f w) ∷ update_all f m

  unfoldable pub values : Dict V → List V
  values [] = []
  values ((j, w) ∷ m) = w ∷ values m

  -- Each key stands once, which the containers guarantee.
  abbrev pub Fresh : String → Dict V → Type 0
  Fresh k [] = Unit
  Fresh k ((j, w) ∷ m) = ((j == k) ≡ false) × Fresh k m

  abbrev pub Distinct : Dict V → Type 0
  Distinct [] = Unit
  Distinct ((j, w) ∷ m) = Fresh j m × Distinct m

  pub lookup-insert :
      (key : String) (new : V) (m : Dict V) (other : String)
      → lookup other (insert key new m) ≡ (if key == other then some new else lookup other m)
  unfolding insert lookup
  lookup-insert key new [] other = refl
  lookup-insert key new ((at, old) ∷ rest) other =
      ground
        (arith, lookup-insert key new rest other, eq_iff at other, eq_iff key other, eq_iff at key)

  pub lookup-replace_self :
      (k : String) (v w : V) (m : Dict V) → lookup k m ≡ some w → lookup k (replace k v m) ≡ some v
  unfolding lookup replace
  lookup-replace_self k v w [] h = cc
  lookup-replace_self k v w ((i, u) ∷ m) h = ground (arith, lookup-replace_self k v w m)

  pub lookup-replace_ne :
      (k j : String) (v : V) (m : Dict V) → k ≢ j → lookup j (replace k v m) ≡ lookup j m
  unfolding lookup replace
  lookup-replace_ne k j v [] n = refl
  lookup-replace_ne k j v ((i, u) ∷ m) n =
      ground (arith, eq_iff i k, eq_iff i j, lookup-replace_ne k j v m n)

  -- What is not there is not assigned.
  pub replace_none : (k : String) (v : V) (m : Dict V) → lookup k m ≡ none → replace k v m ≡ m
  unfolding lookup replace
  replace_none k v [] h = refl
  replace_none k v ((i, u) ∷ m) h = ground (arith, replace_none k v m)

  -- Two assignments to one entry.
  pub replace-replace :
      (k : String) (v w : V) (m : Dict V) → replace k v (replace k w m) ≡ replace k v m
  unfolding replace
  replace-replace k v w [] = refl
  replace-replace k v w ((i, u) ∷ m) = ground (arith, replace-replace k v w m)

  pub replace_same : (k : String) (v : V) (m : Dict V) → lookup k m ≡ some v → replace k v m ≡ m
  unfolding lookup replace
  replace_same k v [] h = refl
  replace_same k v ((i, u) ∷ m) h = ground (arith, replace_same k v m)

  pub lookup-remove_ne : (k j : String) (m : Dict V) → k ≢ j → lookup j (remove k m) ≡ lookup j m
  unfolding lookup remove
  lookup-remove_ne k j [] n = refl
  lookup-remove_ne k j ((i, u) ∷ m) n =
      ground (arith, eq_iff i k, eq_iff i j, lookup-remove_ne k j m n)

  pub lookup-Fresh : (k : String) (m : Dict V) → Fresh k m → lookup k m ≡ none
  unfolding lookup
  lookup-Fresh k [] f = refl
  lookup-Fresh k ((i, u) ∷ m) f = ground (arith, lookup-Fresh k m f.1)

  pub lookup-remove_self : (k : String) (m : Dict V) → Distinct m → lookup k (remove k m) ≡ none
  unfolding lookup remove
  lookup-remove_self k [] d = refl
  lookup-remove_self k ((i, u) ∷ m) d =
      ground (arith, eq_iff i k, lookup-Fresh i m d.0, lookup-remove_self k m d.1)

  pub lookup-update_all-none :
      (f : V → V) (k : String) (m : Dict V) → lookup k m ≡ none → lookup k (update_all f m) ≡ none
  unfolding lookup update_all
  lookup-update_all-none f k [] h = refl
  lookup-update_all-none f k ((i, u) ∷ m) h = ground (arith, lookup-update_all-none f k m)

  pub lookup-update_all-some :
      (f : V → V) (k : String) (m : Dict V) (v : V)
      → lookup k m ≡ some v
      → lookup k (update_all f m) ≡ some (f v)
  unfolding lookup update_all
  lookup-update_all-some f k [] v h = cc
  lookup-update_all-some f k ((i, u) ∷ m) v h = ground (arith, lookup-update_all-some f k m v)

-- The effect of a write at any key.
module _ {ℓ} {V : Type ℓ} where
  pub lookup-replace :
      (k j : String) (v : V) (m : Dict V)
      → lookup j (replace k v m)
        ≡ (if k == j then (if is_some (lookup j m) then some v else none) else lookup j m)
  unfolding lookup replace
  lookup-replace k j v [] = ground arith
  lookup-replace k j v ((i, u) ∷ m) =
      ground (arith, eq_iff i k, eq_iff i j, eq_iff k j, lookup-replace k j v m)

  pub lookup-remove :
      (k j : String) (m : Dict V)
      → Distinct m
      → lookup j (remove k m) ≡ (if k == j then none else lookup j m)
  lookup-remove k j m h = elim (Bool-cases (k == j)) [
    | inl hit ↦ rw (hit, ← (eq_iff k j).0 hit) (lookup-remove_self k m h)
    | inr miss ↦ rw miss (lookup-remove_ne k j m (λ e. ground (arith, eq_iff k j)))
  ]

-- The keys stay distinct under every write.
module _ {ℓ} {V : Type ℓ} where
  Fresh-insert :
      (k j : String) (v : V) (m : Dict V) → (j == k) ≡ false → Fresh k m → Fresh k (insert j v m)
  unfolding insert
  Fresh-insert k j v [] n f = (n, tt)
  Fresh-insert k j v ((i, w) ∷ m) n f = elim (Bool-cases (i == j)) [
    | inl hit ↦ rw hit f
    | inr miss ↦ rw miss (f.0, Fresh-insert k j v m n f.1)
  ]

  pub Distinct-insert : (k : String) (v : V) (m : Dict V) → Distinct m → Distinct (insert k v m)
  unfolding insert
  Distinct-insert k v [] h = (tt, tt)
  Distinct-insert k v ((i, w) ∷ m) h = elim (Bool-cases (i == k)) [
    | inl hit ↦ rw hit h
    | inr miss ↦ rw miss (
      Fresh-insert i k v m (ground (arith, eq_iff i k, eq_iff k i)) h.0,
      Distinct-insert k v m h.1,
    )
  ]

  Fresh-replace : (k j : String) (v : V) (m : Dict V) → Fresh k m → Fresh k (replace j v m)
  unfolding replace
  Fresh-replace k j v [] f = tt
  Fresh-replace k j v ((i, w) ∷ m) f = elim (Bool-cases (i == j)) [
    | inl hit ↦ rw hit f
    | inr miss ↦ rw miss (f.0, Fresh-replace k j v m f.1)
  ]

  pub Distinct-replace : (k : String) (v : V) (m : Dict V) → Distinct m → Distinct (replace k v m)
  unfolding replace
  Distinct-replace k v [] h = tt
  Distinct-replace k v ((i, w) ∷ m) h = elim (Bool-cases (i == k)) [
    | inl hit ↦ rw hit h
    | inr miss ↦ rw miss (Fresh-replace i k v m h.0, Distinct-replace k v m h.1)
  ]

  Fresh-remove : (k j : String) (m : Dict V) → Fresh k m → Fresh k (remove j m)
  unfolding remove
  Fresh-remove k j [] f = tt
  Fresh-remove k j ((i, w) ∷ m) f = elim (Bool-cases (i == j)) [
    | inl hit ↦ rw hit f.1
    | inr miss ↦ rw miss (f.0, Fresh-remove k j m f.1)
  ]

  pub Distinct-remove : (k : String) (m : Dict V) → Distinct m → Distinct (remove k m)
  unfolding remove
  Distinct-remove k [] h = tt
  Distinct-remove k ((i, w) ∷ m) h = elim (Bool-cases (i == k)) [
    | inl hit ↦ rw hit h.1
    | inr miss ↦ rw miss (Fresh-remove i k m h.0, Distinct-remove k m h.1)
  ]

-- A predicate of every value.
module _ {ℓ κ} {V : Type ℓ} (P : V → Type κ) where
  abbrev pub Each : Dict V → Type κ
  Each [] = Unit
  Each ((j, w) ∷ m) = P w × Each m

  pub Each-lookup : (k : String) (m : Dict V) (v : V) → Each m → lookup k m ≡ some v → P v
  unfolding lookup
  Each-lookup k [] v e h = cc
  Each-lookup k ((j, w) ∷ m) v e h = elim (Bool-cases (j == k)) [
    | inl hit ↦ subst P (ground arith) e.0
    | inr miss ↦ Each-lookup k m v e.1 (ground arith)
  ]

  pub Each-replace : (k : String) (v : V) (m : Dict V) → Each m → P v → Each (replace k v m)
  unfolding replace
  Each-replace k v [] e p = tt
  Each-replace k v ((j, w) ∷ m) e p = elim (Bool-cases (j == k)) [
    | inl hit ↦ rw hit (p, e.1)
    | inr miss ↦ rw miss (e.0, Each-replace k v m e.1 p)
  ]

  pub Each-insert : (k : String) (v : V) (m : Dict V) → Each m → P v → Each (insert k v m)
  unfolding insert
  Each-insert k v [] e p = (p, tt)
  Each-insert k v ((j, w) ∷ m) e p = elim (Bool-cases (j == k)) [
    | inl hit ↦ rw hit (p, e.1)
    | inr miss ↦ rw miss (e.0, Each-insert k v m e.1 p)
  ]

  pub Each-remove : (k : String) (m : Dict V) → Each m → Each (remove k m)
  unfolding remove
  Each-remove k [] e = tt
  Each-remove k ((j, w) ∷ m) e = elim (Bool-cases (j == k)) [
    | inl hit ↦ rw hit e.1
    | inr miss ↦ rw miss (e.0, Each-remove k m e.1)
  ]

  pub Each-update_all :
      (f : V → V) (m : Dict V) → ((v : V) → P v → P (f v)) → Each m → Each (update_all f m)
  unfolding update_all
  Each-update_all f [] g e = tt
  Each-update_all f ((j, w) ∷ m) g e = (g w e.0, Each-update_all f m g e.1)
