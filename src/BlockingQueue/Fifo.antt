-- ===== src/BlockingQueue/Fifo.antt =====
-- What comes out of a queue, against what went in.
use coin_bot.Base.{
  ℕ, ◌-◌, true, false, Bool, some, List, [], ◌∷◌, ◌++◌, ◌≡◌, refl, sym, ap, ◌∙◌, subst, arith,
  length, leb, ◌==◌, if◌then◌else◌, ◌||◌, ◌+◌, append_assoc, length-append,
}
use coin_bot.BlockingQueue.{
  BlockingQueue, empty_queue, push, pop_front, try_pop, pop_for, take_front, clear,
}

-- `xs` is `ys` with some of its values left out.
pub data Within {A : Type 0} : List A → List A → Type 0 where
  done : Within [] []
  keep : {x : A} {xs ys : List A} → Within xs ys → Within (x ∷ xs) (x ∷ ys)
  skip : {x : A} {xs ys : List A} → Within xs ys → Within xs (x ∷ ys)

-- The calls that threads have made of a queue: `sent` was pushed, and `got` was popped.
pub data Calls {A : Type 0} (max_size : ℕ) : List A → List A → BlockingQueue A → Type 0 where
  start : Calls max_size [] [] (empty_queue max_size)
  pushes :
      {sent got : List A} {r : BlockingQueue A}
      → Calls max_size sent got r
      → (v : A) → Calls max_size (sent ++ (v ∷ [])) got (push r v)
  pops :
      {sent got : List A} {r r' : BlockingQueue A} {v : A}
      → Calls max_size sent got r
      → try_pop r ≡ (some v, r')
      → Calls max_size sent (got ++ (v ∷ [])) r'
  waits :
      {sent got : List A} {r r' : BlockingQueue A} {v : A}
      → Calls max_size sent got r
      → pop_for r ≡ (some v, r')
      → Calls max_size sent (got ++ (v ∷ [])) r'
  clears :
      {sent got : List A} {r : BlockingQueue A}
      → Calls max_size sent got r
      → Calls max_size sent got (clear r)

module _ {A : Type 0} where
  Within-snoc : {xs ys : List A} (v : A) → Within xs ys → Within (xs ++ (v ∷ [])) (ys ++ (v ∷ []))
  Within-snoc v done = keep done
  Within-snoc v (keep w) = keep (Within-snoc v w)
  Within-snoc v (skip w) = skip (Within-snoc v w)

  Within-refl : (xs : List A) → Within xs xs
  Within-refl [] = done
  Within-refl (x ∷ xs) = keep (Within-refl xs)

  Within-trans : {ys zs : List A} → Within ys zs → {xs : List A} → Within xs ys → Within xs zs
  Within-trans done a = a
  Within-trans (skip b) a = skip (Within-trans b a)
  Within-trans (keep b) (keep a) = keep (Within-trans b a)
  Within-trans (keep b) (skip a) = skip (Within-trans b a)

  nothing-Within : (xs : List A) → Within [] xs
  nothing-Within [] = done
  nothing-Within (x ∷ xs) = skip (nothing-Within xs)

  start-Within : (xs ys : List A) → Within (xs ++ []) (xs ++ ys)
  start-Within [] ys = nothing-Within ys
  start-Within (x ∷ xs) ys = keep (start-Within xs ys)

  pop_front-Within : (xs q : List A) → Within (xs ++ pop_front q) (xs ++ q)
  unfolding pop_front
  pop_front-Within [] [] = done
  pop_front-Within [] (x ∷ q) = skip (Within-refl q)
  pop_front-Within (x ∷ xs) q = keep (pop_front-Within xs q)

  pushed-Within :
      (xs q : List A) (b : Bool) (v : A) {ys : List A}
      → Within (xs ++ q) ys
      → Within (xs ++ ((if b then pop_front q else q) ++ (v ∷ []))) (ys ++ (v ∷ []))
  pushed-Within xs q true v {ys} w =
      subst (λ zs. Within zs (ys ++ (v ∷ []))) (append_assoc xs (pop_front q) (v ∷ []))
        (Within-snoc v (Within-trans w (pop_front-Within xs q)))
  pushed-Within xs q false v {ys} w =
      subst (λ zs. Within zs (ys ++ (v ∷ []))) (append_assoc xs q (v ∷ [])) (Within-snoc v w)

  -- Whether the queue is no longer than its bound, if it has one.
  abbrev pub fits : BlockingQueue A → Bool
  fits r = if r.max_size == 0 then true else leb (length r.q) r.max_size

  length-pop_front : (q : List A) → length (pop_front q) ≡ length q - 1
  unfolding pop_front
  length-pop_front [] = refl
  length-pop_front (x ∷ q) = omega arith

  push-fits : (r : BlockingQueue A) (v : A) → fits r ≡ true → fits (push r v) ≡ true
  unfolding push
  push-fits r v h = ground (
    arith,
    length-pop_front r.q,
    length-append r.q (v ∷ []),
    length-append (pop_front r.q) (v ∷ []),
  )

  -- What a pop that succeeds does to the values that are held.
  popped :
      (r r' : BlockingQueue A) (q : List A) (v : A)
      → take_front r q ≡ (some v, r')
      → (q ≡ v ∷ r'.q) × (r'.max_size ≡ r.max_size)
  unfolding take_front
  popped r r' [] v e = cc
  popped r r' (x ∷ q) v e =
      let rest : record r { q = q } ≡ r' = ap (λ p. p.1) e in
      let same : x ≡ v = cc in
      (rw (same, ap (λ s. s.q) (sym rest)) refl, ap (λ s. s.max_size) (sym rest))

  took :
      {max_size : ℕ} {sent : List A} (got : List A) (r r' : BlockingQueue A) (v : A)
      → take_front r r.q ≡ (some v, r')
      → Within (got ++ r.q) sent × (fits r ≡ true) × (r.max_size ≡ max_size)
      → Within ((got ++ (v ∷ [])) ++ r'.q) sent × (fits r' ≡ true) × (r'.max_size ≡ max_size)
  took {sent = sent} got r r' v e (w, f, m) =
      let (held, kept) = popped r r' r.q v e in
      let longer : length r.q ≡ length (v ∷ r'.q) = ap length held in
      (
        subst (λ xs. Within xs sent)
            (ap (λ xs. got ++ xs) held ∙ sym (append_assoc got (v ∷ []) r'.q)) w,
        ground arith,
        kept ∙ m,
      )

  -- Whatever calls are made by whatever threads: what was popped and then what is held is what was
  -- pushed, in that order, with some of it left out; a bounded queue holds at most its bound, which is
  -- the one it was made with.
  pub calls_in_order :
      (max_size : ℕ) (sent got : List A) (r : BlockingQueue A)
      → Calls max_size sent got r
      → Within (got ++ r.q) sent × (fits r ≡ true) × (r.max_size ≡ max_size)
  unfolding empty_queue try_pop pop_for clear push
  calls_in_order max_size _ _ _ start = (done, ground arith, refl)
  calls_in_order max_size _ got _ (pushes {r = r} c v) =
      let (w, f, m) = calls_in_order max_size _ got r c in
      (pushed-Within got r.q _ v w, push-fits r v f, m)
  calls_in_order max_size _ _ r' (pops {got = got} {r = r} {v = v} c e) =
      took got r r' v e (calls_in_order max_size _ got r c)
  calls_in_order max_size _ _ r' (waits {got = got} {r = r} {v = v} c e) =
      took got r r' v e (calls_in_order max_size _ got r c)
  calls_in_order max_size _ got _ (clears {r = r} c) =
      let (w, f, m) = calls_in_order max_size _ got r c in
      (Within-trans w (start-Within got r.q), ground arith, m)

  -- Whether `clear` was never called.
  unfoldable pub uncleared :
      {max_size : ℕ} {sent got : List A} {r : BlockingQueue A} → Calls max_size sent got r → Bool
  uncleared start = true
  uncleared (pushes c v) = uncleared c
  uncleared (pops c e) = uncleared c
  uncleared (waits c e) = uncleared c
  uncleared (clears c) = false

  abbrev pub has_room : ℕ → List A → Bool
  has_room max_size sent = max_size == 0 || leb (length sent) max_size

  push_room :
      (max_size : ℕ) (sent got : List A) (r : BlockingQueue A) (v : A)
      → has_room max_size (sent ++ (v ∷ [])) ≡ true
      → r.max_size ≡ max_size
      → got ++ r.q ≡ sent
      → got ++ (push r v).q ≡ sent ++ (v ∷ [])
  unfolding push
  push_room max_size sent got r v h m e =
      let fewer : length got + length r.q ≡ length sent =
        sym (length-append got r.q) ∙ ap length e in
      let kept : (push r v).q ≡ r.q ++ (v ∷ []) = ground (arith, length-append sent (v ∷ [])) in
      ap (λ xs. got ++ xs) kept ∙ sym (append_assoc got r.q (v ∷ [])) ∙ ap (λ xs. xs ++ (v ∷ [])) e

  room_before :
      (max_size : ℕ) (sent : List A) (v : A)
      → has_room max_size (sent ++ (v ∷ [])) ≡ true
      → has_room max_size sent ≡ true
  room_before max_size sent v h = ground (arith, length-append sent (v ∷ []))

  -- A queue without a bound, or one to which no more was pushed than its bound, loses nothing if it is
  -- never cleared: what was popped and then what is held is what was pushed.
  pub nothing_lost :
      (max_size : ℕ) (sent got : List A) (r : BlockingQueue A) (c : Calls max_size sent got r)
      → has_room max_size sent ≡ true
      → uncleared c ≡ true
      → got ++ r.q ≡ sent
  unfolding uncleared empty_queue try_pop pop_for
  nothing_lost max_size _ _ _ start h n = refl
  nothing_lost max_size _ got _ (pushes {sent = sent} {r = r} c v) h n =
      push_room max_size sent got r v h (calls_in_order max_size sent got r c).2
        (nothing_lost max_size sent got r c (room_before max_size sent v h) n)
  nothing_lost max_size sent _ r' (pops {got = got} {r = r} {v = v} c e) h n =
      append_assoc got (v ∷ []) r'.q
      ∙ ap (λ xs. got ++ xs) (sym (popped r r' r.q v e).0)
      ∙ nothing_lost max_size sent got r c h n
  nothing_lost max_size sent _ r' (waits {got = got} {r = r} {v = v} c e) h n =
      append_assoc got (v ∷ []) r'.q
      ∙ ap (λ xs. got ++ xs) (sym (popped r r' r.q v e).0)
      ∙ nothing_lost max_size sent got r c h n
  nothing_lost max_size sent got _ (clears c) h n = ground arith
