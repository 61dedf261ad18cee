-- ===== src/RingBuffer/Tests.antt =====
-- Runs of the ring buffer, and its theorems at buffers that have gone round.
use coin_bot.Base.{
  ℕ, ◌-◌, none, some, List, [], ◌∷◌, ◌≡◌, refl, length, get_elem?, leb, if◌then◌else◌,
}
use coin_bot.RingBuffer.{RingBuffer, reset, push, at, value_from_back}
use coin_bot.RingBuffer.Refine.{
  Represents, push_queue, push_refines, reset-Represents, reads_refine,
}

abbrev small : RingBuffer ℕ
small = reset 0 2

abbrev held : List ℕ
held = 5 ∷ 6 ∷ []

abbrev two : RingBuffer ℕ
two = (push (push small 5).1 6).1

two-Represents : Represents two held
unfolding reset push
two-Represents =
    (push_refines (push small 5).1 (5 ∷ []) 6 (push_refines small [] 5 (reset-Represents 0 2)).1).1

-- The third value overwrites the first.
overwrites : (push two 7).0 ≡ some 5
unfolding reset push
overwrites = refl

newest_first : value_from_back (push two 7).1 0 ≡ some 7
unfolding reset push value_from_back
newest_first = refl

push_refines_example :
    ((push two 7).0 ≡ (push_queue two.cap held 7).0)
    × Represents (push two 7).1 (push_queue two.cap held 7).1
push_refines_example = push_refines two held 7 two-Represents

reads_refine_example :
    (value_from_back two 1
      ≡ (if leb (length held) 1 then none else get_elem? held (length held - 1 - 1)))
    × (at two 1 ≡ (if leb (length held) 1 then none else get_elem? held 1))
reads_refine_example = reads_refine two held 1 two-Represents
