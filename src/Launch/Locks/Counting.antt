-- ===== src/Launch/Locks/Counting.antt =====
-- The locks that an argument builder keeps, counted.
use gocudrv.Base.{
  ℕ, zero, suc, ◌+◌, ◌-◌, ◌≤◌, ◌<◌, ◌≡◌, ◌∙◌, ap, sym, refl, true, false, List, [], ◌∷◌, ◌++◌, ◌==◌,
  if◌then◌else◌, arith, length, length-append, get_or-append_left, get_or-append_end,
}
use Prim.Native.Nat.{min}
use gocudrv.Launch.Args.{
  ArgBuilder, Packing, inline_lock_count, r_lock, r_unlock, is_in, add_lock, holds_lock, lock_at,
  release_from, release,
}

-- How often a buffer is in a list, and among the first locks of a builder.
unfoldable pub count : ℕ → List ℕ → ℕ
count n [] = 0
count n (m ∷ ms) = let r = count n ms in if m == n then suc r else r

unfoldable pub held : ArgBuilder → ℕ → ℕ → ℕ
held b n zero = 0
held b n (suc k) = let r = held b n k in if lock_at b k == n then suc r else r

count-append :
    (n : ℕ) (xs : List ℕ) (m : ℕ) → count n (xs ++ m ∷ []) ≡ count n xs + count n (m ∷ [])
unfolding count
count-append n [] m = omega arith
count-append n (x ∷ xs) m = let e = count-append n xs m in ground arith

count-is_in : (n : ℕ) (xs : List ℕ) → (if is_in n xs then 1 else 0) ≤ count n xs
unfolding count is_in
count-is_in n [] = omega arith
count-is_in n (x ∷ xs) = let e = count-is_in n xs in ground arith

count-not_in : (n : ℕ) (xs : List ℕ) → is_in n xs ≡ false → count n xs ≡ 0
unfolding count is_in
count-not_in n [] h = refl
count-not_in n (x ∷ xs) h = let e = count-not_in n xs in ground arith

held_cong :
    (a b : ArgBuilder) (n k : ℕ)
    → ((i : ℕ) → i < k → lock_at a i ≡ lock_at b i)
    → held a n k ≡ held b n k
unfolding held
held_cong a b n zero h = refl
held_cong a b n (suc k) h = cc (held_cong a b n k (λ i p. h i (omega arith)), h k (omega arith))

readers-r_unlock :
    (m n : ℕ) (p : Packing)
    → (r_unlock m p).readers n ≡ (if m == n then p.readers n - 1 else p.readers n)
readers-r_unlock m n p = ground arith

held_suc :
    (b : ArgBuilder) (n k : ℕ)
    → held b n (suc k) ≡ (if lock_at b k == n then suc (held b n k) else held b n k)
unfolding held
held_suc b n k = refl

less_one : (m n x h : ℕ) → (if m == n then x - 1 else x) - h ≡ x - (if m == n then suc h else h)
less_one m n x h = ground arith

-- The loop of `release` gives back each lock that it passes.
release_from_lem :
    (k : ℕ) (p : Packing) (n : ℕ) → (release_from k p).readers n ≡ p.readers n - held p.builder n k
unfolding release_from held
release_from_lem zero p n = omega arith
release_from_lem (suc i) p n =
    release_from_lem i (r_unlock (lock_at p.builder i) p) n
    ∙ cc (readers-r_unlock (lock_at p.builder i) n p)
    ∙ less_one (lock_at p.builder i) n (p.readers n) (held p.builder n i)

-- The locks that a builder holds on a buffer.
abbrev pub taken : ArgBuilder → ℕ → ℕ
taken b n = count n b.inline_locks + count n b.overflow_locks

-- The locks of a builder are those held beyond `before`, at most one for each buffer.
pub record Kept (before : ℕ → ℕ) (p : Packing) : Type 0 where
  pub inline : length p.builder.inline_locks ≡ min p.builder.lock_count inline_lock_count
  pub overflow : length p.builder.overflow_locks ≡ p.builder.lock_count - inline_lock_count
  pub found : (n : ℕ) → held p.builder n p.builder.lock_count ≡ taken p.builder n
  pub locked : (n : ℕ) → p.readers n ≡ before n + taken p.builder n
  pub once : (n : ℕ) → taken p.builder n ≤ 1

pub release_lem :
    (before : ℕ → ℕ) (p : Packing) (n : ℕ) → Kept before p → (release p).readers n ≡ before n
unfolding release
release_lem before p n k =
    omega (arith, release_from_lem p.builder.lock_count p n, k.found n, k.locked n)

pub holds_lock-taken : (b : ArgBuilder) (n : ℕ) → holds_lock n b ≡ false → taken b n ≡ 0
unfolding holds_lock
holds_lock-taken b n h =
    let p = count-not_in n b.inline_locks in let q = count-not_in n b.overflow_locks in ground arith

pub holds_lock-taken_once :
    (before : ℕ → ℕ) (p : Packing) (n : ℕ)
    → Kept before p
    → holds_lock n p.builder ≡ true
    → taken p.builder n ≡ 1
unfolding holds_lock
holds_lock-taken_once before p n k h =
    let a = count-is_in n p.builder.inline_locks in
    let b = count-is_in n p.builder.overflow_locks in let c = k.once n in ground arith

lock_at-add_old :
    (n : ℕ) (p : Packing) (i : ℕ)
    → length p.builder.inline_locks ≡ min p.builder.lock_count inline_lock_count
    → length p.builder.overflow_locks ≡ p.builder.lock_count - inline_lock_count
    → i < p.builder.lock_count
    → lock_at (add_lock n p).builder i ≡ lock_at p.builder i
unfolding add_lock
lock_at-add_old n p i l o h = grind (arith, get_or-append_left)

lock_at-add_new :
    (n : ℕ) (p : Packing)
    → length p.builder.inline_locks ≡ min p.builder.lock_count inline_lock_count
    → length p.builder.overflow_locks ≡ p.builder.lock_count - inline_lock_count
    → lock_at (add_lock n p).builder p.builder.lock_count ≡ n
unfolding add_lock
lock_at-add_new n p l o = grind (arith, get_or-append_end)

pub taken-add_lock :
    (n m : ℕ) (p : Packing) → taken (add_lock n p).builder m ≡ taken p.builder m + count m (n ∷ [])
unfolding add_lock
taken-add_lock n m p =
    let a = count-append m p.builder.inline_locks n in
    let b = count-append m p.builder.overflow_locks n in ground arith

lock_count-add_lock :
    (n : ℕ) (p : Packing) → (add_lock n p).builder.lock_count ≡ suc p.builder.lock_count
unfolding add_lock
lock_count-add_lock n p = ground arith

held_step :
    (b : ArgBuilder) (m c n h : ℕ)
    → held b m c ≡ h
    → lock_at b c ≡ n
    → held b m (suc c) ≡ h + count m (n ∷ [])
unfolding held count
held_step b m c n h e f = ground arith

-- What `addLock` adds, whatever the locks on the buffers are.
held-add_lock :
    (n m : ℕ) (p : Packing)
    → length p.builder.inline_locks ≡ min p.builder.lock_count inline_lock_count
    → length p.builder.overflow_locks ≡ p.builder.lock_count - inline_lock_count
    → held (add_lock n p).builder m (suc p.builder.lock_count)
      ≡ held p.builder m p.builder.lock_count + count m (n ∷ [])
held-add_lock n m p l o =
    held_step (add_lock n p).builder m p.builder.lock_count n
      (held p.builder m p.builder.lock_count)
      (held_cong (add_lock n p).builder p.builder m p.builder.lock_count
        (λ i h. lock_at-add_old n p i l o h))
      (lock_at-add_new n p l o)

pub count_one : (m n : ℕ) → count m (n ∷ []) ≡ (if n == m then 1 else 0)
unfolding count
count_one m n = ground arith

readers-add_lock : (n : ℕ) (p : Packing) → (add_lock n p).readers ≡ p.readers
unfolding add_lock
readers-add_lock n p = refl

pub snapshot-add_lock : (n : ℕ) (p : Packing) → (add_lock n p).builder.snapshot ≡ p.builder.snapshot
unfolding add_lock
snapshot-add_lock n p = ground arith

module _ (before : ℕ → ℕ) where
  pub add_lock-Kept :
      (n : ℕ) (p : Packing)
      → Kept before p
      → taken p.builder n ≡ 0
      → Kept before (add_lock n (r_lock n p))
  add_lock-Kept n p k free = record {
    inline = unfold add_lock in grind (arith, length-append, k.inline);
    overflow = unfold add_lock in grind (arith, length-append, k.overflow);
    found = λ m.
        ap (held (add_lock n (r_lock n p)).builder m) (lock_count-add_lock n (r_lock n p))
        ∙ held-add_lock n m (r_lock n p) k.inline k.overflow
        ∙ ap (λ x. x + count m (n ∷ [])) (k.found m)
        ∙ sym (taken-add_lock n m (r_lock n p));
    locked = λ m.
        let c = taken-add_lock n m (r_lock n p) in
        let f = k.locked m in
        let o = count_one m n in
        let r = readers-add_lock n (r_lock n p) in rw (r, c, o) (ground arith);
    once = λ m.
        let c = taken-add_lock n m (r_lock n p) in
        let f = k.once m in let o = count_one m n in rw (c, o) (ground arith);
  }

  -- The invariant looks at the locks, and at the readers one by one.
  pub Kept-of_same :
      (p q : Packing)
      → p.builder.inline_locks ≡ q.builder.inline_locks
      → p.builder.lock_count ≡ q.builder.lock_count
      → p.builder.overflow_locks ≡ q.builder.overflow_locks
      → ((n : ℕ) → p.readers n ≡ q.readers n)
      → Kept before p
      → Kept before q
  unfolding held
  Kept-of_same p q i c o r k = record {
    inline = rw (sym i, sym c) k.inline;
    overflow = rw (sym o, sym c) k.overflow;
    found = λ n.
        held_cong q.builder p.builder n q.builder.lock_count (λ j _. rw (i, o) refl)
        ∙ rw (sym c, sym i, sym o) (k.found n);
    locked = λ n. sym (r n) ∙ rw (sym i, sym o) (k.locked n);
    once = λ n. rw (sym i, sym o) (k.once n);
  }
