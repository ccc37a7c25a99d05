-- ===== src/Launch/Locks/Arguments.antt =====
-- The read lock that one argument takes, and what it leaves when it fails.
use gocudrv.Base.{
  ℕ, ◌+◌, ◌≡◌, ◌∙◌, ap, sym, refl, Bool, true, false, Bool-cases, inl, inr, Option, none, some,
  ◌==◌, if◌then◌else◌, arith, Bytes,
}
use gocudrv.Driver.Errors.{Err}
use gocudrv.Launch.Args.{
  KernelArg, Objects, Referent, buffer_lock, texture_lock, surface_lock, buffer_at, texture_at,
  surface_at, append_object, append_locked, buffer_arg, texture_arg, surface_arg, value_arg,
  device_ptr_arg, raw_arg, Packing, r_lock, r_unlock, add_lock, holds_lock, append_kernel_arg,
  add_packed,
}
use gocudrv.Launch.Locks.Counting.{
  taken, Kept, holds_lock-taken, holds_lock-taken_once, taken-add_lock, count_one,
  snapshot-add_lock, add_lock-Kept, Kept-of_same,
}

if_either {ℓ} :
    {A : Type 0} (P : A → Type ℓ) (b : Bool) {x y : A} → P x → P y → P (if b then x else y)
if_either P true p q = p
if_either P false p q = q

if_not {ℓ} :
    {A : Type 0} (P : A → Type ℓ) (b : Bool) (x : A) {y : A}
    → b ≡ false
    → P y
    → P (if b then x else y)
if_not P true x e q = absurd cc
if_not P false x e q = q

-- A value at `n` is the value at any number equal to it.
if_here : (f : ℕ → ℕ) (n m x : ℕ) → f n ≡ x → (if n == m then x else f m) ≡ f m
if_here f n m x e = elim (Bool-cases (n == m)) [
  | inl h ↦ let i : n ≡ m = ground arith in rw h (sym e ∙ ap f i)
  | inr h ↦ rw h refl
]

add_here :
    (f : ℕ → ℕ) (n m : ℕ) → f n ≡ 0 → f m + (if n == m then 1 else 0) ≡ (if n == m then 1 else f m)
add_here f n m e = elim (Bool-cases (n == m)) [
  | inl h ↦ let i : n ≡ m = ground arith in rw (h, sym i, e) refl
  | inr h ↦ rw h (omega arith)
]

readers-unlock_lock : (n m : ℕ) (p : Packing) → (r_unlock n (r_lock n p)).readers m ≡ p.readers m
readers-unlock_lock n m p = ground arith

-- Whether an argument is an object with the lock.
abbrev pub names : ℕ → KernelArg → Bool
names n (buffer_arg none) = false
names n (buffer_arg (some m)) = buffer_lock m == n
names n (texture_arg none) = false
names n (texture_arg (some m)) = texture_lock m == n
names n (surface_arg none) = false
names n (surface_arg (some m)) = surface_lock m == n
names n (value_arg t v) = false
names n (device_ptr_arg ptr) = false
names n (raw_arg m size) = false

-- What one argument does to the locks.
abbrev pub After : (ℕ → ℕ) → (ℕ → Bool) → Packing → Option Err × Packing → Type 0
After before named p r =
    Kept before r.1
    × (r.1.builder.snapshot ≡ false)
    × ((n : ℕ) → r.0 ≡ none → taken r.1.builder n ≡ (if named n then 1 else taken p.builder n))

module _ (before : ℕ → ℕ) (named : ℕ → Bool) (p : Packing) where
  pub failed :
      (e : Err) (q : Packing)
      → Kept before q
      → q.builder.snapshot ≡ false
      → After before named p (some e, q)
  failed e q k s = (k, s, λ n h. cc)

  passed :
      (xs : Bytes) (t : Option ℕ) (q : Packing)
      → Kept before q
      → q.builder.snapshot ≡ false
      → ((n : ℕ) → taken q.builder n ≡ (if named n then 1 else taken p.builder n))
      → After before named p (none, add_packed xs t q)
  passed xs t q k s f =
      (Kept-of_same before q (add_packed xs t q) refl refl refl (λ n. refl) k, s, λ n h. f n)

module _ (before : ℕ → ℕ) where
  append_object_held :
      (o : Referent) (p : Packing)
      → Kept before p
      → p.builder.snapshot ≡ false
      → holds_lock o.lock p.builder ≡ true
      → After before (λ m. o.lock == m) p (append_object o true p)
  unfolding append_object
  append_object_held o p k s h =
      if_either (After before (λ m. o.lock == m) p) o.closed
        (failed before (λ m. o.lock == m) p _ p k s)
        (if_either (After before (λ m. o.lock == m) p) _
          (failed before (λ m. o.lock == m) p _ p k s)
          (passed before (λ m. o.lock == m) p _ _ p k s
            λ m.
              sym
                (if_here (taken p.builder) o.lock m 1 (holds_lock-taken_once before p o.lock k h))))

  append_object_free :
      (o : Referent) (p : Packing)
      → Kept before p
      → p.builder.snapshot ≡ false
      → holds_lock o.lock p.builder ≡ false
      → After before (λ m. o.lock == m) p (append_object o false p)
  unfolding append_object
  append_object_free o p k s h =
      if_either (After before (λ m. o.lock == m) p) o.closed
        (failed before (λ m. o.lock == m) p _ (r_unlock o.lock (r_lock o.lock p)) unlocked s)
        (if_either (After before (λ m. o.lock == m) p) _
          (failed before (λ m. o.lock == m) p _ (r_unlock o.lock (r_lock o.lock p)) unlocked s)
          (if_not (After before (λ m. o.lock == m) p) p.builder.snapshot _ s (
            passed before (λ m. o.lock == m) p _ _ (add_lock o.lock (r_lock o.lock p))
              (add_lock-Kept before o.lock p k free)
              (snapshot-add_lock o.lock (r_lock o.lock p) ∙ s) fresh)))
    where
      unlocked : Kept before (r_unlock o.lock (r_lock o.lock p))
      unlocked =
          Kept-of_same before p (r_unlock o.lock (r_lock o.lock p)) refl refl refl
            (λ m. sym (readers-unlock_lock o.lock m p)) k

      free : taken p.builder o.lock ≡ 0
      free = holds_lock-taken p.builder o.lock h

      fresh :
          (m : ℕ)
          → taken (add_lock o.lock (r_lock o.lock p)).builder m
            ≡ (if o.lock == m then 1 else taken p.builder m)
      fresh m =
          taken-add_lock o.lock m (r_lock o.lock p)
          ∙ ap (λ x. taken p.builder m + x) (count_one m o.lock)
          ∙ add_here (taken p.builder) o.lock m free

  append_locked_locks :
      (o : Referent) (p : Packing)
      → Kept before p
      → p.builder.snapshot ≡ false
      → After before (λ m. o.lock == m) p (append_locked o p)
  unfolding append_locked
  append_locked_locks o p k s = elim (Bool-cases (holds_lock o.lock p.builder)) [
    | inl h ↦ rw h (append_object_held o p k s h)
    | inr h ↦ rw h (append_object_free o p k s h)
  ]

module _ (objects : Objects) (before : ℕ → ℕ) where
  pub append_kernel_arg_locks :
      (a : KernelArg) (p : Packing)
      → Kept before p
      → p.builder.snapshot ≡ false
      → After before (λ m. names m a) p (append_kernel_arg objects a p)
  unfolding append_kernel_arg
  append_kernel_arg_locks (buffer_arg none) p k s = failed before (λ m. false) p _ p k s
  append_kernel_arg_locks (buffer_arg (some n)) p k s =
      append_locked_locks before (buffer_at objects n) p k s
  append_kernel_arg_locks (texture_arg none) p k s = failed before (λ m. false) p _ p k s
  append_kernel_arg_locks (texture_arg (some n)) p k s =
      append_locked_locks before (texture_at objects n) p k s
  append_kernel_arg_locks (surface_arg none) p k s = failed before (λ m. false) p _ p k s
  append_kernel_arg_locks (surface_arg (some n)) p k s =
      append_locked_locks before (surface_at objects n) p k s
  append_kernel_arg_locks (value_arg t v) p k s = passed before (λ m. false) p _ _ p k s (λ m. refl)
  append_kernel_arg_locks (device_ptr_arg ptr) p k s =
      passed before (λ m. false) p _ _ p k s (λ m. refl)
  append_kernel_arg_locks (raw_arg none size) p k s = failed before (λ m. false) p _ p k s
  append_kernel_arg_locks (raw_arg (some m) size) p k s =
      if_either (After before (λ m. false) p) _ (failed before (λ m. false) p _ p k s)
        (passed before (λ m. false) p _ _ p k s (λ m. refl))
