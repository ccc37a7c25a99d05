-- ===== src/Launch/Locks.antt =====
-- The read locks of a launch: taken once for each object among the arguments, and given back on every way out.
mod Counting
mod Arguments
use gocudrv.Base.{
  ℕ, zero, suc, ◌+◌, ◌-◌, ◌≤◌, ◌<◌, ◌≡◌, ◌∙◌, ap, sym, subst, refl, Bool, true, false, ◌||◌,
  Bool-cases, ◌⊎◌, inl, inr, Option, none, some, List, [], ◌∷◌, ◌++◌, ◌==◌, ltb, if◌then◌else◌,
  arith, length, length-append, get_or, get_or-append_left, get_or-append_end, update, Bytes,
}
use Prim.Native.Nat.{min}
use gocudrv.Driver.Errors.{Err, Result, ok, err}
use gocudrv.Driver.{Driver}
use gocudrv.Argpack.{Builder}
use gocudrv.Context.Exec.{GoContext}
use gocudrv.Context.State.{Store}
use gocudrv.Buffer.{Buffer}
use gocudrv.Module.{Module, Function}
use gocudrv.Launch.{Target, new_state, check_launch, submit_launch, launch_checked, launch}
use gocudrv.Launch.Config.{LaunchConfig}
use gocudrv.Launch.Args.{
  KernelArg, Objects, Referent, buffer_lock, texture_lock, surface_lock, buffer_at, texture_at,
  surface_at, append_object, append_locked, buffer_arg, texture_arg, surface_arg, value_arg,
  device_ptr_arg, raw_arg, ArgBuilder, Packing, inline_lock_count, r_lock, r_unlock, is_in,
  add_lock, holds_lock, lock_at, release_from, release, append_kernel_arg, append_all, add_packed,
}
use gocudrv.Launch.Locks.Counting.{
  count, held, taken, Kept, release_lem, holds_lock-taken, holds_lock-taken_once, taken-add_lock,
  count_one, snapshot-add_lock, add_lock-Kept, Kept-of_same,
}
use gocudrv.Launch.Locks.Arguments.{names, After, failed, append_kernel_arg_locks}

if_or :
    (x y : Bool) (m : ℕ) {n : ℕ}
    → n ≡ (if x then 1 else m)
    → (if y then 1 else n) ≡ (if x || y then 1 else m)
if_or true true m e = refl
if_or true false m e = e
if_or false true m e = refl
if_or false false m e = e

-- Whether an object with the lock is among the arguments.
abbrev pub mentions : ℕ → List (Option KernelArg) → Bool
mentions n [] = false
mentions n (none ∷ rest) = mentions n rest
mentions n (some a ∷ rest) = names n a || mentions n rest

module _ (objects : Objects) (before : ℕ → ℕ) where
  append_step :
      (a : KernelArg) (rest : List (Option KernelArg)) (p : Packing) (r : Option Err × Packing)
      → After before (λ m. names m a) p r
      → ((q : Packing)
          → Kept before q
          → q.builder.snapshot ≡ false
          → After before (λ m. mentions m rest) q (append_all objects rest q))
      → After before
          (λ m. names m a || mentions m rest)
          p
          (elim r.0 [ none ↦ append_all objects rest r.1 | some x ↦ (some x, r.1) ])
  append_step a rest p (none, q) (l, t, f) h =
      let ih = h q l t in
      (
        ih.0,
        ih.1,
        λ n e. ih.2 n e ∙ if_or (names n a) (mentions n rest) (taken p.builder n) (f n refl),
      )
  append_step a rest p (some x, q) (l, t, f) h = (l, t, λ n e. cc)

  append_all_locks :
      (args : List (Option KernelArg)) (p : Packing)
      → Kept before p
      → p.builder.snapshot ≡ false
      → After before (λ m. mentions m args) p (append_all objects args p)
  unfolding append_all
  append_all_locks [] p k s = (k, s, λ n h. refl)
  append_all_locks (none ∷ rest) p k s = failed before (λ m. mentions m rest) p _ p k s
  append_all_locks (some a ∷ rest) p k s =
      append_step a rest p (append_kernel_arg objects a p)
        (append_kernel_arg_locks objects before a p k s) (λ q l t. append_all_locks rest q l t)

new_state-Kept : (readers : ℕ → ℕ) (c : ℕ) (b : Builder) → Kept readers (new_state c b readers)
unfolding held count
new_state-Kept readers c b = record {
  inline = omega arith;
  overflow = omega arith;
  found = λ n. refl;
  locked = λ n. omega arith;
  once = λ n. omega arith;
}

-- When the arguments of a launch are packed without an error, the launch holds exactly one more read lock than
-- before on every buffer, texture and surface among them, however often it is named, and none on any other.
pub launch_locks_once :
    (objects : Objects) (args : List (Option KernelArg)) (c : ℕ) (pooled : Builder)
    (readers : ℕ → ℕ) (p : Packing) (n : ℕ)
    → append_all objects args (new_state c pooled readers) ≡ (none, p)
    → p.readers n ≡ readers n + (if mentions n args then 1 else 0)
unfolding count
launch_locks_once objects args c pooled readers p n e =
    let a : After readers (λ m. mentions m args) (new_state c pooled readers) (none, p) =
      subst (After readers (λ m. mentions m args) (new_state c pooled readers)) e (
        append_all_locks objects readers args (new_state c pooled readers)
          (new_state-Kept readers c pooled) refl) in
    a.0.locked n ∙ ap (λ x. readers n + x) (a.2 n refl)

module _ {W : Type 0} (d : Driver W) (modules : ℕ → Module) (objects : Objects) where
  submit_launch_locks :
      (readers : ℕ → ℕ) (n : ℕ) (coop : Bool) (f : Function) (t : Target) (cfg : LaunchConfig)
      (g : GoContext) (c : ℕ) (r : Option Err × Packing) (s : Store W)
      → Kept readers r.1
      → (submit_launch modules d objects coop f t cfg g c r s).1 n ≡ readers n
  unfolding submit_launch
  submit_launch_locks readers n coop f t cfg g c (some e, p) s k = release_lem readers p n k
  submit_launch_locks readers n coop f t cfg g c (none, p) s k = release_lem readers p n k

  launch_checked_locks :
      (coop : Bool) (f : Function) (t : Target) (cfg : LaunchConfig)
      (args : List (Option KernelArg)) (g : GoContext) (pooled : Builder) (readers : ℕ → ℕ)
      (s : Store W) (n : ℕ) (r : Result Module)
      → (launch_checked modules d objects coop f t cfg args g pooled readers s r).1 n ≡ readers n
  launch_checked_locks coop f t cfg args g pooled readers s n (err e) = refl
  launch_checked_locks coop f t cfg args g pooled readers s n (ok m) =
      submit_launch_locks readers n coop f t cfg g m.ctx
        (append_all objects args (new_state m.ctx pooled readers)) s
        (append_all_locks objects readers args (new_state m.ctx pooled readers)
          (new_state-Kept readers m.ctx pooled) refl).0

  -- Every way out of a launch, be it an error in its arguments, a refusal of the Context, a cancelled wait
  -- or the driver's answer, leaves the read locks on each buffer, texture and surface as it found them.
  pub launch_gives_back :
      (coop : Bool) (f : Function) (t : Target) (cfg : LaunchConfig)
      (args : List (Option KernelArg)) (g : GoContext) (pooled : Builder) (readers : ℕ → ℕ)
      (s : Store W) (n : ℕ)
      → (launch modules d objects coop f t cfg args g pooled readers s).1 n ≡ readers n
  unfolding launch
  launch_gives_back coop f t cfg args g pooled readers s n =
      launch_checked_locks coop f t cfg args g pooled readers s n (check_launch modules f t cfg)
