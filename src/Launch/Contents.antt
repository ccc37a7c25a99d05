-- ===== src/Launch/Contents.antt =====
-- What a launch gives to the driver: the bytes of its arguments, in order.
use gocudrv.Base.{
  ℕ, zero, suc, ◌*◌, ◌≤◌, ◌<◌, ◌≡◌, ◌≢◌, ◌∙◌, ap, sym, subst, refl, Bool, true, false, Option, none,
  some, List, [], ◌∷◌, map, to_uint, arith, length, length-load, load, Bytes,
}
use gocudrv.Driver.Errors.{Err, ok}
use gocudrv.Driver.{Driver}
use gocudrv.Argpack.{Builder, Pointer, add, params, returned}
use gocudrv.Argpack.Params.{read_all}
use gocudrv.Argpack.Packing.{Args, add_all, contents, Small, demand, Reads, pack-Reads}
use gocudrv.Context.Exec.{GoContext}
use gocudrv.Context.State.{Store}
use gocudrv.Context.Run.{do_job}
use gocudrv.Buffer.{Elem, elem_size}
use gocudrv.Module.{Module, Function}
use gocudrv.Launch.{Target, new_state, check_launch, launch_call, submit_launch, launch}
use gocudrv.Launch.Config.{LaunchConfig}
use gocudrv.Launch.Args.{
  KernelArg, Objects, Referent, buffer_at, texture_at, surface_at, append_object, append_locked,
  buffer_arg, texture_arg, surface_arg, value_arg, device_ptr_arg, raw_arg, le_bytes, elem_type,
  device_ptr_type, Packing, r_lock, add_lock, holds_lock, append_kernel_arg, append_all,
}

-- The bytes that an object stands for, with their type.
abbrev object_bytes : Referent → Bytes × Option ℕ
object_bytes o = (le_bytes 8 o.handle, some o.typ)

module _ (objects : Objects) where
  -- The bytes that an argument stands for, with its type.
  abbrev pub bytes_of : KernelArg → Bytes × Option ℕ
  bytes_of (buffer_arg none) = ([], none)
  bytes_of (buffer_arg (some n)) = object_bytes (buffer_at objects n)
  bytes_of (texture_arg none) = ([], none)
  bytes_of (texture_arg (some n)) = object_bytes (texture_at objects n)
  bytes_of (surface_arg none) = ([], none)
  bytes_of (surface_arg (some n)) = object_bytes (surface_at objects n)
  bytes_of (value_arg t v) = (le_bytes (elem_size t) v, some (elem_type t))
  bytes_of (device_ptr_arg ptr) = (le_bytes 8 ptr, some device_ptr_type)
  bytes_of (raw_arg none size) = ([], none)
  bytes_of (raw_arg (some m) size) = (load m 0 (to_uint size), none)

  abbrev pub all_bytes : List (Option KernelArg) → Args
  all_bytes [] = []
  all_bytes (none ∷ rest) = all_bytes rest
  all_bytes (some a ∷ rest) = bytes_of a ∷ all_bytes rest

length-le_bytes : (w n : ℕ) → length (le_bytes w n) ≡ w
unfolding le_bytes
length-le_bytes zero n = refl
length-le_bytes (suc w) n = ap suc (length-le_bytes w _)

elem_size_pos : (t : Elem) → 0 < elem_size t
elem_size_pos t = ground arith

elem_size_small : (t : Elem) → elem_size t ≤ 8
elem_size_small t = ground arith

packed-add_lock : (n : ℕ) (p : Packing) → (add_lock n p).builder.packed ≡ p.builder.packed
unfolding add_lock
packed-add_lock n p = ground arith

-- An argument that is packed without an error adds its bytes, between 1 and 4096 of them.
abbrev Adds : Bytes × Option ℕ → Packing → Option Err × Packing → Type 0
Adds x p r =
    r.0 ≡ none
    → (r.1.builder.packed ≡ add p.builder.packed x.0 x.1) × (0 < length x.0) × (length x.0 ≤ 4096)

append_object-Adds :
    (o : Referent) (h : Bool) (p : Packing) → Adds (object_bytes o) p (append_object o h p)
unfolding append_object
append_object-Adds o true p e = let l = length-le_bytes 8 o.handle in ground arith
append_object-Adds o false p e =
    let l = length-le_bytes 8 o.handle in
    let q = packed-add_lock o.lock (r_lock o.lock p) in ground arith

append_locked-Adds : (o : Referent) (p : Packing) → Adds (object_bytes o) p (append_locked o p)
unfolding append_locked
append_locked-Adds o p = append_object-Adds o (holds_lock o.lock p.builder) p

module _ (objects : Objects) where
  append_kernel_arg-Adds :
      (a : KernelArg) (p : Packing) → Adds (bytes_of objects a) p (append_kernel_arg objects a p)
  unfolding append_kernel_arg
  append_kernel_arg-Adds (buffer_arg none) p e = cc
  append_kernel_arg-Adds (buffer_arg (some n)) p e = append_locked-Adds (buffer_at objects n) p e
  append_kernel_arg-Adds (texture_arg none) p e = cc
  append_kernel_arg-Adds (texture_arg (some n)) p e = append_locked-Adds (texture_at objects n) p e
  append_kernel_arg-Adds (surface_arg none) p e = cc
  append_kernel_arg-Adds (surface_arg (some n)) p e = append_locked-Adds (surface_at objects n) p e
  append_kernel_arg-Adds (value_arg t v) p e = (
    refl,
    omega (arith, length-le_bytes (elem_size t) v, elem_size_pos t),
    omega (arith, length-le_bytes (elem_size t) v, elem_size_small t),
  )
  append_kernel_arg-Adds (device_ptr_arg ptr) p e =
      (refl, omega (arith, length-le_bytes 8 ptr), omega (arith, length-le_bytes 8 ptr))
  append_kernel_arg-Adds (raw_arg none size) p e = cc
  append_kernel_arg-Adds (raw_arg (some m) size) p e =
      ground (arith, length-load m 0 (to_uint size))

  went_on :
      (r : Option Err × Packing) (rest : List (Option KernelArg)) (q : Packing)
      → (elim r.0 [ none ↦ append_all objects rest r.1 | some x ↦ (some x, r.1) ]) ≡ (none, q)
      → (r.0 ≡ none) × (append_all objects rest r.1 ≡ (none, q))
  went_on (none, p) rest q e = (refl, e)
  went_on (some x, p) rest q e = absurd cc

  append_all_packs :
      (args : List (Option KernelArg)) (p q : Packing)
      → append_all objects args p ≡ (none, q)
      → (q.builder.packed ≡ add_all p.builder.packed (all_bytes objects args))
        × Small (all_bytes objects args)
        × (length (all_bytes objects args) ≡ length args)
        × (demand (all_bytes objects args) ≤ 4103 * length args)
  unfolding append_all add_all
  append_all_packs [] p q e = (cc, tt, refl, omega arith)
  append_all_packs (none ∷ rest) p q e = cc
  append_all_packs (some a ∷ rest) p q e =
      let (none_yet, later) = went_on (append_kernel_arg objects a p) rest q e in
      let (added, some_byte, size) = append_kernel_arg-Adds a p none_yet in
      let (all, small, many, need) =
        append_all_packs rest (append_kernel_arg objects a p).1 q later in
      (
        all ∙ ap (λ b. add_all b (all_bytes objects rest)) added,
        (some_byte, omega (arith, size), small),
        ap suc many,
        omega (arith, size, need),
      )

cons_bytes : (xs : Args) → 0 < length xs → xs ≢ []
cons_bytes xs h e = absurd (omega (arith, ap length e))

module _ {W : Type 0} (d : Driver W) (modules : ℕ → Module) (objects : Objects) where
  submit_launch_packed :
      (coop : Bool) (f : Function) (t : Target) (cfg : LaunchConfig) (g : GoContext) (c : ℕ)
      (p : Packing) (s : Store W) (ps : List Pointer)
      → (params p.builder.packed).0 ≡ returned (some ps)
      → (submit_launch modules d objects coop f t cfg g c (none, p) s).0
        ≡ do_job d c g (launch_call modules d objects coop f cfg t (some ps)) s
  unfolding submit_launch
  submit_launch_packed coop f t cfg g c p s ps e = rw e refl

  launch_submits :
      (coop : Bool) (f : Function) (t : Target) (cfg : LaunchConfig)
      (args : List (Option KernelArg)) (g : GoContext) (pooled : Builder) (readers : ℕ → ℕ)
      (s : Store W) (m : Module) (p : Packing)
      → check_launch modules f t cfg ≡ ok m
      → append_all objects args (new_state m.ctx pooled readers) ≡ (none, p)
      → launch modules d objects coop f t cfg args g pooled readers s
        ≡ submit_launch modules d objects coop f t cfg g m.ctx (none, p) s
  unfolding launch
  launch_submits coop f t cfg args g pooled readers s m p e h = rw (e, h) refl

  -- A launch with between 1 and 500000 arguments, whose checks pass and whose arguments are packed without
  -- an error, hands one call of the driver to `doJob` of the module's Context, with one pointer for each
  -- argument, through which a reader of the arguments' sizes finds the arguments' bytes in order,
  -- whatever the builder from the pool held before.
  pub launch-contents :
      (coop : Bool) (f : Function) (t : Target) (cfg : LaunchConfig)
      (args : List (Option KernelArg)) (g : GoContext) (pooled : Builder) (readers : ℕ → ℕ)
      (s : Store W) (m : Module) (p : Packing)
      → check_launch modules f t cfg ≡ ok m
      → append_all objects args (new_state m.ctx pooled readers) ≡ (none, p)
      → 0 < length args
      → length args ≤ 500000
      → (ps : List Pointer) × ((launch modules d objects coop f t cfg args g pooled readers s).0
          ≡ do_job d m.ctx g (launch_call modules d objects coop f cfg t (some ps)) s)
        × (length ps ≡ length args)
        × (read_all (params p.builder.packed).1 ps (map length (contents (all_bytes objects args)))
            ≡ map some (contents (all_bytes objects args)))
  launch-contents coop f t cfg args g pooled readers s m p e h lo hi =
      let (all, small, many, need) =
        append_all_packs objects args (new_state m.ctx pooled readers) p h in
      let (ps, found, one_each, bytes) =
        subst (λ b. Reads b (all_bytes objects args)) (sym all)
          (pack-Reads pooled (all_bytes objects args)
            (cons_bytes (all_bytes objects args) (omega (arith, many, lo))) small
            (omega (arith, need, hi))) in
      (
        ps,
        ap (λ r. r.0) (launch_submits coop f t cfg args g pooled readers s m p e h)
            ∙ submit_launch_packed coop f t cfg g m.ctx p s ps found,
        one_each ∙ many,
        bytes,
      )
