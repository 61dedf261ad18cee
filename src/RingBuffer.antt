-- ===== src/RingBuffer.antt =====
-- trading/indicators/RingBuffer.h: the fixed array with a moving head that the indicators keep their
-- windows in. A read outside the array, which is undefined in C++, gives `none`.
pub mod Refine
mod Tests
use coin_bot.Base.{
  ℕ, ◌+◌, ◌-◌, ◌%◌, Bool, true, false, not, ◌&&◌, Option, none, some, List, length, get_elem?, set,
  replicate, ltb, leb, ◌==◌, if◌then◌else◌,
}

pub record RingBuffer (A : Type 0) : Type 0 where
  pub buf : List A
  pub cap : ℕ
  -- where the oldest value is
  pub head : ℕ
  pub size : ℕ

module _ {A : Type 0} where
  -- The constructor with a capacity gives the same state: `blank` is `T{}`.
  unfoldable pub reset : A → ℕ → RingBuffer A
  reset blank capacity = record {
    buf = replicate capacity blank;
    cap = capacity;
    head = 0;
    size = 0;
  }

  unfoldable pub clear : RingBuffer A → RingBuffer A
  clear r = record r { head = 0; size = 0 }

  unfoldable pub full : RingBuffer A → Bool
  full r = not (r.cap == 0) && r.size == r.cap

  unfoldable pub has_enough : ℕ → RingBuffer A → Bool
  has_enough n r = leb n r.size

  unfoldable pub physical_index_from_oldest : RingBuffer A → ℕ → ℕ
  physical_index_from_oldest r i = if r.cap == 0 then 0 else (r.head + i) % r.cap

  -- `size_ - 1` is read only when there is a value.
  unfoldable pub physical_index_from_newest : RingBuffer A → ℕ → ℕ
  physical_index_from_newest r back_index =
      if r.cap == 0
      then 0
      else let newest = (r.head + r.size - 1) % r.cap in
        (newest + r.cap - back_index % r.cap) % r.cap

  -- `at`: `none` is the exception `std::out_of_range`.
  unfoldable pub at : RingBuffer A → ℕ → Option A
  unfolding physical_index_from_oldest
  at r index_from_oldest =
      if leb r.size index_from_oldest
      then none
      else get_elem? r.buf (physical_index_from_oldest r index_from_oldest)

  unfoldable pub value_from_back : RingBuffer A → ℕ → Option A
  unfolding physical_index_from_newest
  value_from_back r back_index =
      if leb r.size back_index
      then none
      else get_elem? r.buf (physical_index_from_newest r back_index)

  -- `newest` and `oldest`: `none` is the exception.
  pub newest : RingBuffer A → Option A
  unfolding physical_index_from_newest
  newest r = if r.size == 0 then none else get_elem? r.buf (physical_index_from_newest r 0)

  pub oldest : RingBuffer A → Option A
  unfolding physical_index_from_oldest
  oldest r = if r.size == 0 then none else get_elem? r.buf (physical_index_from_oldest r 0)

  -- `push`: the value that was overwritten, and the buffer.
  unfoldable pub push : RingBuffer A → A → Option A × RingBuffer A
  push r v =
      if r.cap == 0
      then (none, r)
      else if r.size == r.cap
      then (
        get_elem? r.buf r.head,
        record r { buf = set r.buf r.head v; head = (r.head + 1) % r.cap },
      )
      else (none, record r { buf = set r.buf ((r.head + r.size) % r.cap) v; size = r.size + 1 })
