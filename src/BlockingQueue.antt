-- ===== src/BlockingQueue.antt =====
-- core/BlockingQueue.h: the queue between the threads. Every method holds the mutex, so it is one step;
-- `pop_for` is what happens once its wait is over, by a push or by the timeout.
pub mod Fifo
mod Tests
use coin_bot.Base.{
  ℕ, Bool, not, ◌&&◌, Option, none, some, List, [], ◌∷◌, ◌++◌, length, ltb, leb, if◌then◌else◌,
}

pub record BlockingQueue (A : Type 0) : Type 0 where
  pub q : List A
  -- 0 is no bound
  pub max_size : ℕ

module _ {A : Type 0} where
  -- `std::deque::pop_front`, which `push` calls only when there is a value.
  unfoldable pub pop_front : List A → List A
  pop_front [] = []
  pop_front (x ∷ xs) = xs

  unfoldable pub empty_queue : ℕ → BlockingQueue A
  empty_queue max_size = record { q = []; max_size = max_size }

  unfoldable pub push : BlockingQueue A → A → BlockingQueue A
  unfolding pop_front
  push r v =
      let kept = if ltb 0 r.max_size && leb r.max_size (length r.q) then pop_front r.q else r.q in
      record r { q = kept ++ (v ∷ []) }

  unfoldable pub take_front : BlockingQueue A → List A → Option A × BlockingQueue A
  take_front r [] = (none, r)
  take_front r (x ∷ xs) = (some x, record r { q = xs })

  unfoldable pub try_pop : BlockingQueue A → Option A × BlockingQueue A
  unfolding take_front
  try_pop r = take_front r r.q

  -- `woken` is the queue at the end of the wait: `none` is the timeout.
  unfoldable pub pop_for : BlockingQueue A → Option A × BlockingQueue A
  unfolding take_front
  pop_for woken = take_front woken woken.q

  pub size : BlockingQueue A → ℕ
  size r = length r.q

  unfoldable pub clear : BlockingQueue A → BlockingQueue A
  clear r = record r { q = [] }
