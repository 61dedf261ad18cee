-- ===== src/Engine/Window.antt =====
-- The set and the queue of uuids of `markTradeOnce_`.
use coin_bot.Base.{
  ℕ, suc, ◌≤◌, String, true, false, not, ◌&&◌, ◌||◌, List, [], ◌∷◌, ◌++◌, ◌≡◌, ◌≢◌, refl, sym, ap,
  ◌∙◌, inl, inr, arith, Bool-cases, is_empty, str_eq, eq_iff, eq_refl, length, ltb,
}
use coin_bot.Engine.Dedupe.{Seen, contains, erase_key, evict, mark_trade_once}

abbrev pub IsDistinct : List String → Type 0
IsDistinct [] = Unit
IsDistinct (x ∷ s) = (contains x s ≡ false) × IsDistinct s

contains-append :
    (k : String) (xs ys : List String) → contains k (xs ++ ys) ≡ contains k xs || contains k ys
unfolding contains
contains-append k [] ys = refl
contains-append k (x ∷ xs) ys = ground (arith, contains-append k xs ys)

-- Erasing takes that key, and no other.
contains-erase_key :
    (k j : String) (s : List String)
    → IsDistinct s
    → contains k (erase_key j s) ≡ contains k s && not (str_eq j k)
unfolding contains erase_key
contains-erase_key k j [] h = refl
contains-erase_key k j (i ∷ s) (h, hs) =
    ground (arith, eq_iff i j, eq_iff i k, eq_iff j k, contains-erase_key k j s hs)

erase_key-IsDistinct : (j : String) (s : List String) → IsDistinct s → IsDistinct (erase_key j s)
unfolding erase_key
erase_key-IsDistinct j [] h = tt
erase_key-IsDistinct j (i ∷ s) (h, hs) = elim (Bool-cases (str_eq i j)) [
  | inl e ↦ rw e hs
  | inr e ↦ rw e (ground (arith, contains-erase_key i j s hs), erase_key-IsDistinct j s hs)
]

-- The set and the queue hold the same uuids, each once.
pub record IsWindow (uuids fifo : List String) : Type 0 where
  pub same : (k : String) → contains k uuids ≡ contains k fifo
  pub once : IsDistinct uuids
  pub in_turn : IsDistinct fifo

forget_oldest :
    (k oldest : String) (uuids rest : List String)
    → IsDistinct uuids
    → contains k uuids ≡ contains k (oldest ∷ rest)
    → contains oldest rest ≡ false
    → contains k (erase_key oldest uuids) ≡ contains k rest
unfolding contains
forget_oldest k oldest uuids rest once same new = elim (Bool-cases (str_eq oldest k)) [
  | inl e ↦ ground (
    arith,
    contains-erase_key k oldest uuids once,
    ap (λ j. contains j rest) ((eq_iff oldest k).0 e),
  )
  | inr e ↦ ground (arith, contains-erase_key k oldest uuids once)
]

evict-IsWindow :
    (max : ℕ) (uuids fifo : List String)
    → IsWindow uuids fifo
    → let s = evict max uuids fifo in IsWindow s.uuids s.fifo
unfolding evict
evict-IsWindow max uuids [] h = h
evict-IsWindow max uuids (oldest ∷ rest) h = elim (Bool-cases (ltb max (suc (length rest)))) [
  | inr e ↦ rw e h
  | inl e ↦ rw e (
      evict-IsWindow max (erase_key oldest uuids) rest (record {
        same = λ k. forget_oldest k oldest uuids rest h.once (h.same k) h.in_turn.0;
        once = erase_key-IsDistinct oldest uuids h.once;
        in_turn = h.in_turn.1;
      }))
]

evict-bounded : (max : ℕ) (uuids fifo : List String) → length (evict max uuids fifo).fifo ≤ max
unfolding evict
evict-bounded max uuids [] = omega arith
evict-bounded max uuids (oldest ∷ rest) =
    ground (arith, evict-bounded max (erase_key oldest uuids) rest)

-- The newest stays.
evict_newest :
    (max : ℕ) (k : String) (uuids fifo : List String)
    → max ≢ 0
    → contains k (evict max uuids (fifo ++ (k ∷ []))).fifo ≡ true
unfolding evict contains
evict_newest max k uuids [] pos = ground (arith, eq_refl k)
evict_newest max k uuids (oldest ∷ fifo) pos = ground (
  arith,
  evict_newest max k (erase_key oldest uuids) fifo pos,
  contains-append k fifo (k ∷ []),
  eq_refl k,
)

append-IsDistinct :
    (k : String) (s : List String)
    → IsDistinct s
    → contains k s ≡ false
    → IsDistinct (s ++ (k ∷ []))
unfolding contains
append-IsDistinct k [] h new = (refl, tt)
append-IsDistinct k (x ∷ s) (h, hs) new = (
  ground (arith, contains-append x s (k ∷ []), eq_iff k x, eq_iff x k),
  append-IsDistinct k s hs (ground arith),
)

-- A new uuid at the end of the queue and in the set.
add_new :
    (k : String) (uuids fifo : List String)
    → IsWindow uuids fifo
    → contains k uuids ≡ false
    → IsWindow (k ∷ uuids) (fifo ++ (k ∷ []))
unfolding contains
add_new k uuids fifo h new = record {
  same = λ j. ground (arith, h.same j, contains-append j fifo (k ∷ []));
  once = (new, h.once);
  in_turn = append-IsDistinct k fifo h.in_turn (sym (h.same k) ∙ new);
}

pub mark-IsWindow :
    (max : ℕ) (k : String) (s : Seen)
    → IsWindow s.uuids s.fifo
    → let s' = (mark_trade_once max k s).1 in IsWindow s'.uuids s'.fifo
unfolding mark_trade_once
mark-IsWindow max k s h = elim (Bool-cases (is_empty k)) [
  | inl e ↦ rw e h
  | inr e ↦ elim (Bool-cases (contains k s.uuids)) [
    | inl f ↦ rw (e, f) h
    | inr f ↦
        rw (e, f)
          (evict-IsWindow max (k ∷ s.uuids) (s.fifo ++ (k ∷ [])) (add_new k s.uuids s.fifo h f))
  ]
]

pub mark_again :
    (max : ℕ) (k : String) (s : Seen)
    → max ≢ 0
    → IsWindow s.uuids s.fifo
    → let s' = (mark_trade_once max k s).1 in mark_trade_once max k s' ≡ (false, s')
unfolding mark_trade_once
mark_again max k s pos h = elim (Bool-cases (is_empty k)) [
  | inl e ↦ rw e refl
  | inr e ↦ elim (Bool-cases (contains k s.uuids)) [
    | inl f ↦ rw (e, f, f) refl
    | inr f ↦
        let w =
          evict-IsWindow max (k ∷ s.uuids) (s.fifo ++ (k ∷ [])) (add_new k s.uuids s.fifo h f) in
        rw (e, f, w.same k ∙ evict_newest max k (k ∷ s.uuids) s.fifo pos) refl
  ]
]

pub mark_bounded :
    (max : ℕ) (k : String) (s : Seen)
    → length s.fifo ≤ max
    → length (mark_trade_once max k s).1.fifo ≤ max
unfolding mark_trade_once
mark_bounded max k s h = ground (arith, evict-bounded max (k ∷ s.uuids) (s.fifo ++ (k ∷ [])))
