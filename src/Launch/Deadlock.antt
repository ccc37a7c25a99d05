-- ===== src/Launch/Deadlock.antt =====
-- The locks that launches and `Close` calls wait for, while a launch packs its arguments.
use gocudrv.Base.{
  ℕ, ◌≡◌, ◌≢◌, refl, true, false, Option, none, some, List, [], ◌∷◌, ◌++◌, ◌==◌, if◌then◌else◌,
  arith, sym,
}
use gocudrv.Driver.Errors.{Err}
use gocudrv.Argpack.{Builder}
use gocudrv.Locks as L
use gocudrv.Locks.{
  Caller, method, closer, reads, is_read, is_claimed, is_written, is_blocked, all_blocked,
}
use gocudrv.Launch.{new_state}
use gocudrv.Launch.Args.{
  KernelArg, Objects, Packing, buffer_at, ArgBuilder, buffer_arg, texture_arg, surface_arg,
  value_arg, device_ptr_arg, raw_arg, buffer_lock, texture_lock, surface_lock, is_in, holds_lock,
  add_lock, append_object, append_locked, append_kernel_arg, append_all,
}

-- The lock that an argument asks for, unless the builder holds it.
abbrev asked : ℕ → ArgBuilder → Option ℕ
asked m b = if holds_lock m b then none else some m

unfoldable pub waits_for : KernelArg → ArgBuilder → Option ℕ
unfolding holds_lock
waits_for (buffer_arg none) b = none
waits_for (buffer_arg (some n)) b = asked (buffer_lock n) b
waits_for (texture_arg none) b = none
waits_for (texture_arg (some n)) b = asked (texture_lock n) b
waits_for (surface_arg none) b = none
waits_for (surface_arg (some n)) b = asked (surface_lock n) b
waits_for (value_arg t v) b = none
waits_for (device_ptr_arg p) b = none
waits_for (raw_arg m size) b = none

-- A launch on a Context that has packed some arguments, with a builder from the pool, and goes on with the next one.
unfoldable pub launch_caller :
    Objects → ℕ → Builder → (ℕ → ℕ) → List (Option KernelArg) → KernelArg → Caller
unfolding append_all waits_for
launch_caller objects c pooled readers packed next =
    let b = (append_all objects packed (new_state c pooled readers)).1.builder in
    method (b.inline_locks ++ b.overflow_locks) (waits_for next b)

-- Two methods that hold one lock each and ask for the other's, and a `Close` that asks for either.
abbrev pub crossed : Caller → Caller → ℕ → ℕ → List Caller
crossed first second x y = first ∷ second ∷ closer x false ∷ closer y false ∷ []

both_stuck :
    (x y : ℕ)
    → x ≢ y
    → all_blocked
        (crossed (method (x ∷ []) (some y)) (method (y ∷ []) (some x)) x y)
        (crossed (method (x ∷ []) (some y)) (method (y ∷ []) (some x)) x y)
      ≡ true
unfolding all_blocked is_blocked is_read is_claimed is_written reads L.is_in
both_stuck x y h = ground arith

module _ (objects : Objects) (c : ℕ) (pooled : Builder) (readers : ℕ → ℕ) where
  -- A launch that has packed one buffer and goes on with another one.
  abbrev pub between : ℕ → ℕ → Caller
  between a b =
      launch_caller objects c pooled readers (some (buffer_arg (some a)) ∷ []) (buffer_arg (some b))

  first_locks :
      (a : ℕ)
      → (objects.buffers a).closed ≡ false
      → (objects.buffers a).ctx ≡ c
      → ((append_object
            (buffer_at objects a)
            false
            (new_state c pooled readers)).1.builder.inline_locks
          ≡ buffer_lock a ∷ [])
        × ((append_object
              (buffer_at objects a)
              false
              (new_state c pooled readers)).1.builder.overflow_locks
            ≡ [])
  unfolding append_object add_lock
  first_locks a o k = let e : (c == c) ≡ true = ground arith in ground arith

  -- The packing after a last argument.
  abbrev ends : Option Err × Packing → Packing
  ends r =
      let x : Option Err × Packing = elim r.0 [ none ↦ (none, r.1) | some e ↦ (some e, r.1) ] in x.1

  append_one : (r : Option Err × Packing) → ends r ≡ r.1
  append_one (none, p) = refl
  append_one (some x, p) = refl

  caller_with :
      (a b : ℕ) (x : ArgBuilder)
      → x.inline_locks ≡ buffer_lock a ∷ []
      → x.overflow_locks ≡ []
      → a ≢ b
      → method (x.inline_locks ++ x.overflow_locks) (waits_for (buffer_arg (some b)) x)
        ≡ method (buffer_lock a ∷ []) (some (buffer_lock b))
  unfolding waits_for holds_lock is_in
  caller_with a b x e f h =
      let g : (buffer_lock a == buffer_lock b) ≡ false = ground arith in rw (e, f, g) refl

  one_packed :
      (a b : ℕ)
      → (objects.buffers a).closed ≡ false
      → (objects.buffers a).ctx ≡ c
      → a ≢ b
      → between a b ≡ method (buffer_lock a ∷ []) (some (buffer_lock b))
  unfolding launch_caller append_all append_kernel_arg append_locked holds_lock is_in
  one_packed a b o k h =
      let (e, f) = first_locks a o k in
      let r = append_object (buffer_at objects a) false (new_state c pooled readers) in
      rw (append_one r) (caller_with a b r.1.builder e f h)

  -- For two different open buffers of a Context, two launches on it that name them in opposite orders, each having packed
  -- its first argument, and a `Close` of either buffer all wait for each other: none of the four gets its lock.
  pub opposite_launches_stuck :
      (a b : ℕ)
      → (objects.buffers a).closed ≡ false
      → (objects.buffers b).closed ≡ false
      → (objects.buffers a).ctx ≡ c
      → (objects.buffers b).ctx ≡ c
      → a ≢ b
      → all_blocked
          (crossed (between a b) (between b a) (buffer_lock a) (buffer_lock b))
          (crossed (between a b) (between b a) (buffer_lock a) (buffer_lock b))
        ≡ true
  opposite_launches_stuck a b o p k l h =
      rw (one_packed a b o k h, one_packed b a p l (λ e. h (sym e)))
        (both_stuck (buffer_lock a) (buffer_lock b) (λ e. h (omega (arith, e))))
