-- ===== src/Base/Memory.antt =====
-- Byte memory: a function from addresses to bytes, read and written in runs.
use Prim.Native.Nat.{ℕ, zero, suc, ◌+◌, ◌≤◌, ◌<◌}
use mathlib.Core.Path.{◌≡◌, refl, ap}
use mathlib.Core.Logic.{◌⊎◌, inl, inr}
use mathlib.Core.List.{List, [], ◌∷◌}
use native.Mathlib.Omega.{arith}
use gocudrv.Base.Tests.{◌==◌, if◌then◌else◌}
use gocudrv.Base.Lists.{length}

abbrev pub Bytes : Type 0
Bytes = List ℕ

abbrev pub Mem : Type 0
Mem = ℕ → ℕ

-- `f` with the value `v` at `a`.
abbrev pub update {ℓ} : {V : Type ℓ} → (ℕ → V) → ℕ → V → ℕ → V
update f a v b = if a == b then v else f b

-- `n` bytes from the address `a` on.
unfoldable pub load : Mem → ℕ → ℕ → Bytes
load m a zero = []
load m a (suc n) = m a ∷ load m (a + 1) n

-- The memory after `copy` of a run of bytes to the address `a`.
unfoldable pub store : Mem → ℕ → Bytes → Mem
store m a [] = m
store m a (x ∷ xs) = update (store m (a + 1) xs) a x

pub store_out :
    (m : Mem) (a : ℕ) (xs : Bytes) (b : ℕ) → (b < a) ⊎ (a + length xs ≤ b) → store m a xs b ≡ m b
unfolding store
store_out m a [] b h = refl
store_out m a (x ∷ xs) b h = ground (arith, store_out m (a + 1) xs b)

-- A read sees only the bytes of its range.
pub load_cong :
    (m m' : Mem) (a n : ℕ) → ((b : ℕ) → a ≤ b → b < a + n → m b ≡ m' b) → load m a n ≡ load m' a n
unfolding load
load_cong m m' a zero h = refl
load_cong m m' a (suc n) h = cc (
  h a (omega arith) (omega arith),
  load_cong m m' (a + 1) n λ b l u. h b (omega arith) (omega arith),
)

-- A read beside a write sees the old bytes.
pub load-store_ne :
    (m : Mem) (a : ℕ) (xs : Bytes) (b n : ℕ)
    → (b + n ≤ a) ⊎ (a + length xs ≤ b)
    → load (store m a xs) b n ≡ load m b n
load-store_ne m a xs b n h = load_cong _ _ b n λ c l u. store_out m a xs c (beside h l u)
  where
    beside :
        {c : ℕ}
        → (b + n ≤ a) ⊎ (a + length xs ≤ b)
        → b ≤ c
        → c < b + n
        → (c < a) ⊎ (a + length xs ≤ c)
    beside (inl p) l u = inl (omega arith)
    beside (inr p) l u = inr (omega arith)

-- A read of the range just written gives what was written.
pub load-store_self : (m : Mem) (a : ℕ) (xs : Bytes) → load (store m a xs) a (length xs) ≡ xs
unfolding load store
load-store_self m a [] = refl
load-store_self m a (x ∷ xs) =
    let first : store m a (x ∷ xs) a ≡ x = ground arith in
    cc (
      first,
      load_cong (store m a (x ∷ xs)) (store m (a + 1) xs) (a + 1) (length xs)
          (λ b l u. ground arith),
      load-store_self m (a + 1) xs,
    )

pub length-load : (m : Mem) (a n : ℕ) → length (load m a n) ≡ n
unfolding load
length-load m a zero = refl
length-load m a (suc n) = ap suc (length-load m (a + 1) n)
