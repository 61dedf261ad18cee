-- ===== src/RingBuffer/Refine.antt =====
-- The ring buffer against a queue of at most `cap` values.
use coin_bot.Base.{
  ℕ, suc, ◌+◌, ◌-◌, ◌%◌, ◌<◌, ◌≤◌, Option, none, some, List, [], ◌∷◌, ◌++◌, ◌≡◌, refl, ◌∙◌, sym, ap,
  ◌⊎◌, inl, inr, ◌≢◌, arith, length, get_elem?, set, leb, ◌==◌, if◌then◌else◌, length-set,
  length-append, length-replicate, get_elem?-set_self, get_elem?-set_ne, get_elem?-append_lt,
  get_elem?-append_last, Bool-cases,
}
use native.Mathlib.Nat.{mod-add-mod, mod-eq_of_lt, mod-eq-sub-mod, mod-lt}
use native.Mathlib.Decide.{dec_lt}
use coin_bot.RingBuffer.{
  RingBuffer, reset, clear, full, at, value_from_back, push, physical_index_from_oldest,
  physical_index_from_newest,
}

-- One step round a ring of `c` places.
pub mod_cases : (c n : ℕ) → n < c + c → (n < c × (n % c ≡ n)) ⊎ (c ≤ n × (n % c ≡ n - c))
mod_cases c n h = elim (dec_lt n c) [
  | yes p ↦ inl (p, mod-eq_of_lt p)
  | no p ↦
      inr (omega arith, mod-eq-sub-mod {n = n} {m = c} (omega arith) ∙ mod-eq_of_lt (omega arith))
]

-- Two places of the ring that are less than a round apart are different.
pub place_ne : (c h i j : ℕ) → h < c → i < c → j < c → i ≢ j → (h + i) % c ≢ (h + j) % c
place_ne c h i j hh hi hj ne =
    ground (arith, mod_cases c (h + i) (omega arith), mod_cases c (h + j) (omega arith))

start_ne : (c h j : ℕ) → h < c → 0 < j → j < c → h ≢ (h + j) % c
start_ne c h j hh pos hj = ground (arith, mod_cases c (h + j) (omega arith))

round : (c h n : ℕ) → h < c → n ≡ c → (h + n) % c ≡ h
round c h n hh e = ground (arith, mod_cases c (h + n) (omega arith))

next_place : (h c i : ℕ) → ((h + 1) % c + i) % c ≡ (h + suc i) % c
next_place h c i = mod-add-mod (h + 1) c i ∙ ap (λ k. k % c) (omega arith)

newest_place :
    (c h n k : ℕ)
    → h < c
    → n ≤ c
    → k < n
    → ((h + n - 1) % c + c - k % c) % c ≡ (h + (n - 1 - k)) % c
newest_place c h n k hh hn hk =
    ap (λ j. ((h + n - 1) % c + c - j) % c) (mod-eq_of_lt (omega arith))
    ∙ ground (
      arith,
      mod_cases c (h + n - 1) (omega arith),
      mod_cases c (h + (n - 1 - k)) (omega arith),
      mod_cases c ((h + n - 1) % c + c - k)
          (omega (arith, mod-lt (h + n - 1) {m = c} (omega arith))),
    )

module _ {A : Type 0} where
  -- The specification: a queue, oldest first, that drops its oldest value when it is full.
  abbrev pub push_queue : ℕ → List A → A → Option A × List A
  push_queue cap [] v = if cap == 0 then (none, []) else (none, v ∷ [])
  push_queue cap (x ∷ q) v =
      if length (x ∷ q) == cap then (some x, q ++ (v ∷ [])) else (none, x ∷ (q ++ (v ∷ [])))

  pub record IsValid (r : RingBuffer A) : Type 0 where
    pub allocated : length r.buf ≡ r.cap
    pub in_range : r.cap ≢ 0 → r.head < r.cap
    pub bounded : r.size ≤ r.cap

  pub record Represents (r : RingBuffer A) (q : List A) : Type 0 where
    pub valid : IsValid r
    pub counted : length q ≡ r.size
    pub same : (i : ℕ) → i < length q → get_elem? r.buf ((r.head + i) % r.cap) ≡ get_elem? q i

  pub push_queue_room :
      (cap : ℕ) (q : List A) (v : A) → length q < cap → push_queue cap q v ≡ (none, q ++ (v ∷ []))
  push_queue_room cap [] v h = ground arith
  push_queue_room cap (x ∷ q) v h = ground arith

  -- Below its capacity, a buffer takes the value as its newest.
  same_room :
      (r : RingBuffer A) (q : List A) (v : A)
      → Represents r q
      → r.size < r.cap
      → (i : ℕ) → i < length q + 1
      → get_elem? (set r.buf ((r.head + r.size) % r.cap) v) ((r.head + i) % r.cap)
        ≡ get_elem? (q ++ (v ∷ [])) i
  same_room r q v h room i lt = elim (dec_lt i (length q)) [
    | yes old ↦
        get_elem?-set_ne r.buf ((r.head + r.size) % r.cap) ((r.head + i) % r.cap) v (
          place_ne r.cap r.head r.size i (h.valid.in_range (omega arith)) room (omega arith)
            (omega arith))
        ∙ h.same i old
        ∙ sym (get_elem?-append_lt q (v ∷ []) i old)
    | no new ↦
        let here : i ≡ r.size = omega (arith, h.counted) in
        ap (λ k. get_elem? (set r.buf ((r.head + r.size) % r.cap) v) ((r.head + k) % r.cap)) here
        ∙ get_elem?-set_self r.buf ((r.head + r.size) % r.cap) v
            (omega (arith, h.valid.allocated, mod-lt (r.head + r.size) {m = r.cap} (omega arith)))
        ∙ sym (get_elem?-append_last q v)
        ∙ ap (get_elem? (q ++ (v ∷ []))) (omega (arith, h.counted))
  ]

  push_room :
      (r : RingBuffer A) (q : List A) (v : A)
      → Represents r q
      → r.size < r.cap
      → Represents
          (record r { buf = set r.buf ((r.head + r.size) % r.cap) v; size = r.size + 1 })
          (q ++ (v ∷ []))
  push_room r q v h room = record {
    valid = record {
      allocated = length-set r.buf ((r.head + r.size) % r.cap) v ∙ h.valid.allocated;
      in_range = h.valid.in_range;
      bounded = omega arith;
    };
    counted = length-append q (v ∷ []) ∙ omega arith;
    same = λ i lt. same_room r q v h room i (omega (arith, length-append q (v ∷ [])));
  }

  same_full :
      (r : RingBuffer A) (x : A) (q : List A) (v : A)
      → Represents r (x ∷ q)
      → r.size ≡ r.cap
      → (i : ℕ) → i < length q + 1
      → get_elem? (set r.buf r.head v) (((r.head + 1) % r.cap + i) % r.cap)
        ≡ get_elem? (q ++ (v ∷ [])) i
  same_full r x q v h full i lt = elim (dec_lt i (length q)) [
    | yes old ↦
        ap (get_elem? (set r.buf r.head v)) (next_place r.head r.cap i)
        ∙ get_elem?-set_ne r.buf r.head ((r.head + suc i) % r.cap) v (
            start_ne r.cap r.head (suc i) (h.valid.in_range (omega arith)) (omega arith)
              (omega arith))
        ∙ h.same (suc i) (omega arith)
        ∙ sym (get_elem?-append_lt q (v ∷ []) i old)
    | no new ↦
        ap (get_elem? (set r.buf r.head v)) (
          next_place r.head r.cap i
          ∙ round r.cap r.head (suc i) (h.valid.in_range (omega arith)) (omega arith))
        ∙ get_elem?-set_self r.buf r.head v
            (omega (arith, h.valid.allocated, h.valid.in_range (omega arith)))
        ∙ sym (get_elem?-append_last q v)
        ∙ ap (get_elem? (q ++ (v ∷ []))) (omega arith)
  ]

  push_full :
      (r : RingBuffer A) (x : A) (q : List A) (v : A)
      → Represents r (x ∷ q)
      → r.size ≡ r.cap
      → Represents
          (record r { buf = set r.buf r.head v; head = (r.head + 1) % r.cap })
          (q ++ (v ∷ []))
  push_full r x q v h full = record {
    valid = record {
      allocated = length-set r.buf r.head v ∙ h.valid.allocated;
      in_range = λ pos. mod-lt (r.head + 1) (omega arith);
      bounded = h.valid.bounded;
    };
    counted = length-append q (v ∷ []) ∙ omega arith;
    same = λ i lt. same_full r x q v h full i (omega (arith, length-append q (v ∷ [])));
  }

  head_value :
      (r : RingBuffer A) (x : A) (q : List A)
      → Represents r (x ∷ q)
      → get_elem? r.buf r.head ≡ some x
  head_value r x q h =
      ap (get_elem? r.buf)
        (sym (mod-eq_of_lt (h.valid.in_range (omega arith))) ∙ ap (λ k. k % r.cap) (omega arith))
      ∙ h.same 0 (omega arith)

  -- A buffer behaves as the queue of its values, and gives the value that the queue drops.
  pub push_refines :
      (r : RingBuffer A) (q : List A) (v : A)
      → Represents r q
      → ((push r v).0 ≡ (push_queue r.cap q v).0) × Represents (push r v).1 (push_queue r.cap q v).1
  unfolding push
  push_refines r [] v h = elim (Bool-cases (r.cap == 0)) [
    | inl none_at_all ↦ rw none_at_all (refl, h)
    | inr some_room ↦ ground (arith, push_room r [] v h)
  ]
  push_refines r (x ∷ q) v h = elim (Bool-cases (r.size == r.cap)) [
    | inl e ↦ ground (arith, push_full r x q v h, head_value r x q h)
    | inr e ↦ ground (arith, push_room r (x ∷ q) v h)
  ]

  -- A new or cleared buffer is empty.
  pub reset-Represents : (blank : A) (capacity : ℕ) → Represents (reset blank capacity) []
  unfolding reset
  reset-Represents blank capacity = record {
    valid = record {
      allocated = length-replicate capacity blank;
      in_range = λ pos. omega arith;
      bounded = omega arith;
    };
    counted = refl;
    same = λ i lt. absurd (omega arith);
  }

  pub clear-Represents : (r : RingBuffer A) (q : List A) → Represents r q → Represents (clear r) []
  unfolding clear
  clear-Represents r q h = record {
    valid = record {
      allocated = h.valid.allocated;
      in_range = λ pos. omega arith;
      bounded = omega arith;
    };
    counted = refl;
    same = λ i lt. absurd (omega arith);
  }

  -- Counted from the newest value or from the oldest, a read finds the queue's value, and nothing past
  -- its ends.
  pub reads_refine :
      (r : RingBuffer A) (q : List A) (k : ℕ)
      → Represents r q
      → (value_from_back r k ≡ (if leb (length q) k then none else get_elem? q (length q - 1 - k)))
        × (at r k ≡ (if leb (length q) k then none else get_elem? q k))
  unfolding value_from_back at physical_index_from_oldest physical_index_from_newest
  reads_refine r q k h = elim (dec_lt k (length q)) [
    | no e ↦ ground arith
    | yes e ↦ ground (
      arith,
      h.same k (omega arith),
      h.same (length q - 1 - k) (omega arith),
      newest_place r.cap r.head r.size k (h.valid.in_range (omega arith)) h.valid.bounded
          (omega arith),
    )
  ]
