-- ===== src/Locks.antt =====
-- The read-write locks (`opMu`, a `sync.RWMutex`) of the objects in cuda, as their callers use them: a method takes
-- the read locks of its objects one after the other, and a `Close` the write lock of its own.
pub mod Order
pub mod Pairs
mod Tests
use gocudrv.Base.{
  ℕ, Bool, true, false, ◌&&◌, ◌||◌, not, Option, none, some, List, [], ◌∷◌, ◌==◌, ltb,
  if◌then◌else◌,
}

-- A method with the read locks that it holds and the next one that it asks for, if any; and a `Close` with its
-- lock, and whether it has it.
pub data Caller : Type 0 where
  method : List ℕ → Option ℕ → Caller
  closer : ℕ → Bool → Caller

unfoldable pub is_in : ℕ → List ℕ → Bool
is_in m [] = false
is_in m (x ∷ xs) = let r = is_in m xs in if x == m then true else r

-- Whether a caller holds the read lock, has asked for the write lock, and has the write lock.
unfoldable pub reads : ℕ → Caller → Bool
unfolding is_in
reads m (method held next) = is_in m held
reads m (closer x has) = false

abbrev pub claims : ℕ → Caller → Bool
claims m (method held next) = false
claims m (closer x has) = x == m

abbrev pub writes : ℕ → Caller → Bool
writes m (method held next) = false
writes m (closer x has) = (x == m) && has

unfoldable pub is_read : ℕ → List Caller → Bool
unfolding reads
is_read m [] = false
is_read m (c ∷ cs) = reads m c || is_read m cs

unfoldable pub is_claimed : ℕ → List Caller → Bool
is_claimed m [] = false
is_claimed m (c ∷ cs) = claims m c || is_claimed m cs

unfoldable pub is_written : ℕ → List Caller → Bool
is_written m [] = false
is_written m (c ∷ cs) = writes m c || is_written m cs

-- Whether a caller has to wait: `RLock` while a `Lock` is asked for or held, and `Lock` while the lock is held.
unfoldable pub is_blocked : List Caller → Caller → Bool
unfolding is_read is_claimed is_written
is_blocked all (method held none) = false
is_blocked all (method held (some m)) = is_claimed m all
is_blocked all (closer m true) = false
is_blocked all (closer m false) = is_read m all || is_written m all

-- Whether all of some callers have to wait.
unfoldable pub all_blocked : List Caller → List Caller → Bool
unfolding is_blocked
all_blocked all [] = true
all_blocked all (c ∷ cs) = is_blocked all c && all_blocked all cs

-- A method takes its locks in increasing order.
unfoldable pub all_below : List ℕ → ℕ → Bool
all_below [] m = true
all_below (x ∷ xs) m = ltb x m && all_below xs m

unfoldable pub in_order : Caller → Bool
unfolding all_below
in_order (method held none) = true
in_order (method held (some m)) = all_below held m
in_order (closer m has) = true

unfoldable pub all_in_order : List Caller → Bool
unfolding in_order
all_in_order [] = true
all_in_order (c ∷ cs) = in_order c && all_in_order cs
