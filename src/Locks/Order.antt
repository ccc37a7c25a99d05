-- ===== src/Locks/Order.antt =====
-- Callers that take their locks in increasing order cannot all wait for each other.
use gocudrv.Base.{
  ℕ, ◌≤◌, ◌≡◌, refl, true, false, ◌||◌, none, some, List, [], ◌∷◌, ◌==◌, ltb, if◌then◌else◌, arith,
  Bool-cases, inl, inr, ◌⊎◌, ap,
}
use gocudrv.Locks.{
  Caller, method, closer, is_in, reads, claims, writes, is_read, is_claimed, is_written, is_blocked,
  all_blocked, all_below, in_order, all_in_order,
}

-- The lock that a caller waits for, and the greatest of those of several callers.
abbrev wanted : Caller → ℕ
wanted (method held none) = 0
wanted (method held (some m)) = m
wanted (closer m has) = m

top : List Caller → ℕ
top [] = 0
top (c ∷ cs) = let r = top cs in if ltb r (wanted c) then wanted c else r

below-is_in : (xs : List ℕ) (m n : ℕ) → all_below xs m ≡ true → m ≤ n → is_in n xs ≡ false
unfolding all_below is_in
below-is_in [] m n e l = refl
below-is_in (x ∷ xs) m n e l = let ih = below-is_in xs m n in ground arith

-- A waiting method holds no lock that is as great as the one it waits for.
reads-top :
    (all : List Caller) (c : Caller) (m : ℕ)
    → is_blocked all c ≡ true
    → in_order c ≡ true
    → wanted c ≤ m
    → reads m c ≡ false
unfolding is_blocked in_order reads
reads-top all (method held none) m b o l = absurd cc
reads-top all (method held (some n)) m b o l = below-is_in held n m o l
reads-top all (closer n has) m b o l = refl

-- Nobody reads the greatest lock that is waited for.
unread :
    (all cs : List Caller) (m : ℕ)
    → all_blocked all cs ≡ true
    → all_in_order cs ≡ true
    → top cs ≤ m
    → is_read m cs ≡ false
unfolding all_blocked all_in_order top is_read
unread all [] m b o l = refl
unread all (c ∷ cs) m b o l = let ih = unread all cs m in let h = reads-top all c m in ground arith

-- Nobody has a write lock.
writes-none :
    (all : List Caller) (c : Caller) (m : ℕ) → is_blocked all c ≡ true → writes m c ≡ false
unfolding is_blocked
writes-none all (method held next) m b = refl
writes-none all (closer n true) m b = absurd cc
writes-none all (closer n false) m b = ground arith

unwritten : (all cs : List Caller) (m : ℕ) → all_blocked all cs ≡ true → is_written m cs ≡ false
unfolding all_blocked is_written
unwritten all [] m b = refl
unwritten all (c ∷ cs) m b =
    let ih = unwritten all cs m in let h = writes-none all c m in ground arith

-- So a `Close` that asks for that lock does not wait.
unclaimed :
    (all cs : List Caller) (m : ℕ)
    → all_blocked all cs ≡ true
    → is_read m all ≡ false
    → is_written m all ≡ false
    → is_claimed m cs ≡ false
unfolding all_blocked is_claimed is_blocked
unclaimed all [] m b r w = refl
unclaimed all (method held next ∷ cs) m b r w = let ih = unclaimed all cs m in ground arith
unclaimed all (closer n true ∷ cs) m b r w = absurd cc
unclaimed all (closer n false ∷ cs) m b r w =
    let ih = unclaimed all cs m in
    elim (Bool-cases (n == m)) [
      | inl h ↦
          let same : n ≡ m = ground arith in
          let x = ap (λ k. is_read k all) same in
          let y = ap (λ k. is_written k all) same in ground arith
      | inr h ↦ ground arith
    ]

-- A caller that waits claims the lock, or somebody does.
waits-claims :
    (all : List Caller) (c : Caller)
    → is_blocked all c ≡ true
    → (is_claimed (wanted c) all ≡ true) ⊎ (claims (wanted c) c ≡ true)
unfolding is_blocked
waits-claims all (method held none) b = absurd cc
waits-claims all (method held (some m)) b = inl b
waits-claims all (closer m true) b = absurd cc
waits-claims all (closer m false) b = inr (ground arith)

greater-claimed :
    (t m : ℕ) (all ds : List Caller) (c : Caller)
    → (is_claimed t all ≡ true) ⊎ (is_claimed t ds ≡ true)
    → (is_claimed m all ≡ true) ⊎ (claims m c ≡ true)
    → (is_claimed (if ltb t m then m else t) all ≡ true)
      ⊎ ((claims (if ltb t m then m else t) c || is_claimed (if ltb t m then m else t) ds) ≡ true)
greater-claimed t m all ds c p q = elim (Bool-cases (ltb t m)) [
  | inl e ↦ rw e (elim q [ inl x ↦ inl x | inr y ↦ inr (rw y refl) ])
  | inr e ↦ rw e (elim p [ inl x ↦ inl x | inr y ↦ inr (ground arith) ])
]

top-claimed :
    (all : List Caller) (c : Caller) (cs : List Caller)
    → all_blocked all (c ∷ cs) ≡ true
    → (is_claimed (top (c ∷ cs)) all ≡ true) ⊎ (is_claimed (top (c ∷ cs)) (c ∷ cs) ≡ true)
unfolding all_blocked top is_claimed
top-claimed all c [] b =
    let h = waits-claims all c (ground arith) in
    let same : top (c ∷ []) ≡ wanted c = ground arith in
    rw same (elim h [ inl x ↦ inl x | inr y ↦ inr (ground arith) ])
top-claimed all c (d ∷ cs) b =
    greater-claimed (top (d ∷ cs)) (wanted c) all (d ∷ cs) c (top-claimed all d cs (ground arith))
      (waits-claims all c (ground arith))

-- However many methods, each of which takes its read locks in increasing order, and calls of `Close` there are, on any
-- objects and each at any point, if there are some then not all of them have to wait.
pub ordered_never_stuck :
    (c : Caller) (cs : List Caller)
    → all_in_order (c ∷ cs) ≡ true
    → all_blocked (c ∷ cs) (c ∷ cs) ≡ false
ordered_never_stuck c cs o = elim (Bool-cases (all_blocked (c ∷ cs) (c ∷ cs))) [
  | inr b ↦ b
  | inl b ↦
      let r = unread (c ∷ cs) (c ∷ cs) (top (c ∷ cs)) b o (omega arith) in
      let w = unwritten (c ∷ cs) (c ∷ cs) (top (c ∷ cs)) b in
      let u = unclaimed (c ∷ cs) (c ∷ cs) (top (c ∷ cs)) b r w in
      elim (top-claimed (c ∷ cs) c cs b) [ inl x ↦ absurd cc | inr x ↦ absurd cc ]
]
