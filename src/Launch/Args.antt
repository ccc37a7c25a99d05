-- ===== src/Launch/Args.antt =====
-- cuda/launch.go, cuda/texture.go and cuda/surface.go: the arguments of a launch, and the builder that packs them
-- and holds the read locks of the buffers, textures and surfaces among them. An object is known by a number
-- among those of its kind, and its lock by a number among all; `readers` counts the read locks.
use gocudrv.Base.{
  ℕ, zero, suc, ◌+◌, ◌*◌, ◌-◌, ◌/◌, ◌%◌, Bool, true, false, ◌||◌, not, Option, none, some, List, [],
  ◌∷◌, ◌++◌, ◌==◌, ltb, if◌then◌else◌, get_or, update, Bytes, Mem, load, ℤ, pos, leb_ℤ, ltb_ℤ,
  to_uint,
}
use gocudrv.Driver.Errors.{
  Err, Sentinel, sentinel, nil_buffer, buffer_closed, context_mismatch, nil_kernel_arg,
  invalid_arg_size, nil_texture, texture_closed, nil_surface, surface_closed,
}
use gocudrv.Argpack.{Builder, add}
use gocudrv.Buffer.{Buffer, Elem, elem_size}
use gocudrv.Texture.{Texture, Surface}

-- The bytes of a number in memory, the lowest first.
unfoldable pub le_bytes : ℕ → ℕ → Bytes
le_bytes zero n = []
le_bytes (suc w) n = n % 256 ∷ le_bytes w (n / 256)

-- `reflect.Type` as a number: a device pointer, a texture, a surface, and the element types.
abbrev pub device_ptr_type : ℕ
device_ptr_type = 0

abbrev pub texture_type : ℕ
texture_type = 11

abbrev pub surface_type : ℕ
surface_type = 12

abbrev pub elem_type : Elem → ℕ
elem_type Elem.int8 = 1
elem_type Elem.uint8 = 2
elem_type Elem.int16 = 3
elem_type Elem.uint16 = 4
elem_type Elem.int32 = 5
elem_type Elem.uint32 = 6
elem_type Elem.int64 = 7
elem_type Elem.uint64 = 8
elem_type Elem.float32 = 9
elem_type Elem.float64 = 10

-- `Arg`, `ArgTexture`, `ArgSurface`, `ArgValue` with the bits of its value, `ArgDevicePtr`, and `ArgRaw`
-- with the memory at its pointer.
pub data KernelArg : Type 0 where
  buffer_arg : Option ℕ → KernelArg
  texture_arg : Option ℕ → KernelArg
  surface_arg : Option ℕ → KernelArg
  value_arg : Elem → ℕ → KernelArg
  device_ptr_arg : ℕ → KernelArg
  raw_arg : Option Mem → ℤ → KernelArg

-- The objects that arguments name.
pub record Objects : Type 0 where
  pub buffers : ℕ → Buffer
  pub textures : ℕ → Texture
  pub surfaces : ℕ → Surface

-- The locks of a buffer, a texture and a surface: no two objects share one.
abbrev pub buffer_lock : ℕ → ℕ
buffer_lock n = 3 * n

abbrev pub texture_lock : ℕ → ℕ
texture_lock n = 3 * n + 1

abbrev pub surface_lock : ℕ → ℕ
surface_lock n = 3 * n + 2

-- What an argument takes from the object that it names: its lock, its state with the error for a closed
-- one, and the 8 bytes that the kernel gets, with their type.
pub record Referent : Type 0 where
  pub lock : ℕ
  pub ctx : ℕ
  pub closed : Bool
  pub closed_error : Sentinel
  pub handle : ℕ
  pub typ : ℕ

abbrev pub max_raw_arg_bytes : ℕ
max_raw_arg_bytes = 4096

abbrev pub inline_lock_count : ℕ
inline_lock_count = 16

-- `kernelArgBuilder`. The filled part of the array of locks is a list.
pub record ArgBuilder : Type 0 where
  pub ctx : Option ℕ
  pub packed : Builder
  pub inline_locks : List ℕ
  pub lock_count : ℕ
  pub overflow_locks : List ℕ
  pub snapshot : Bool

-- The builder with the read locks that are held on each object, by anybody.
pub record Packing : Type 0 where
  pub builder : ArgBuilder
  pub readers : ℕ → ℕ

abbrev pub r_lock : ℕ → Packing → Packing
r_lock n p = record p { readers = update p.readers n (suc (p.readers n)) }

abbrev pub r_unlock : ℕ → Packing → Packing
r_unlock n p = record p { readers = update p.readers n (p.readers n - 1) }

unfoldable pub is_in : ℕ → List ℕ → Bool
is_in n [] = false
is_in n (m ∷ ms) = let r = is_in n ms in if m == n then true else r

-- `addLock`
unfoldable pub add_lock : ℕ → Packing → Packing
add_lock n p =
    let b = p.builder in
    record p {
      builder =
          if ltb b.lock_count inline_lock_count
          then record b { inline_locks = b.inline_locks ++ n ∷ []; lock_count = suc b.lock_count }
          else record b {
            overflow_locks = b.overflow_locks ++ n ∷ [];
            lock_count = suc b.lock_count;
          };
    }

-- `holdsLock`
unfoldable pub holds_lock : ℕ → ArgBuilder → Bool
unfolding is_in
holds_lock n b = if is_in n b.inline_locks then true else is_in n b.overflow_locks

-- The loop of `release`, from the last lock to the first.
abbrev pub lock_at : ArgBuilder → ℕ → ℕ
lock_at b i =
    if ltb i inline_lock_count
    then get_or b.inline_locks i 0
    else get_or b.overflow_locks (i - inline_lock_count) 0

unfoldable pub release_from : ℕ → Packing → Packing
release_from zero p = p
release_from (suc i) p = release_from i (r_unlock (lock_at p.builder i) p)

-- `release`
unfoldable pub release : Packing → Packing
unfolding release_from
release p = release_from p.builder.lock_count p

-- `argpack.Add` and `argpack.AddBytes` on the builder's arguments.
abbrev pub add_packed : Bytes → Option ℕ → Packing → Packing
add_packed xs t p = record p { builder = record (p.builder) { packed = add p.builder.packed xs t } }

-- `addDevicePtr`
abbrev pub add_device_ptr : ℕ → Packing → Packing
add_device_ptr ptr = add_packed (le_bytes 8 ptr) (some device_ptr_type)

abbrev mismatched : Option ℕ → ℕ → Bool
mismatched none c = false
mismatched (some b) c = not (c == b)

-- The `appendKernelArg` of a buffer, a texture and a surface after their checks for nil, which differ in the
-- error and in what is packed, given whether the lock is already held.
unfoldable pub append_object : Referent → Bool → Packing → Option Err × Packing
unfolding add_lock
append_object o true p =
    if o.closed
    then (some (sentinel o.closed_error), p)
    else if mismatched p.builder.ctx o.ctx
    then (some (sentinel context_mismatch), p)
    else (none, add_packed (le_bytes 8 o.handle) (some o.typ) p)
append_object o false p =
    if o.closed
    then (some (sentinel o.closed_error), r_unlock o.lock (r_lock o.lock p))
    else if mismatched p.builder.ctx o.ctx
    then (some (sentinel context_mismatch), r_unlock o.lock (r_lock o.lock p))
    else if p.builder.snapshot
    then (none, add_packed (le_bytes 8 o.handle) (some o.typ) (r_unlock o.lock (r_lock o.lock p)))
    else (none, add_packed (le_bytes 8 o.handle) (some o.typ) (add_lock o.lock (r_lock o.lock p)))

unfoldable pub append_locked : Referent → Packing → Option Err × Packing
unfolding append_object holds_lock
append_locked o p = append_object o (holds_lock o.lock p.builder) p

module _ (objects : Objects) where
  abbrev pub buffer_at : ℕ → Referent
  buffer_at n =
      let b = objects.buffers n in
      record {
        lock = buffer_lock n;
        ctx = b.ctx;
        closed = b.closed;
        closed_error = buffer_closed;
        handle = b.ptr;
        typ = device_ptr_type;
      }

  abbrev pub texture_at : ℕ → Referent
  texture_at n =
      let t = objects.textures n in
      record {
        lock = texture_lock n;
        ctx = t.ctx;
        closed = t.closed;
        closed_error = texture_closed;
        handle = t.handle;
        typ = texture_type;
      }

  abbrev pub surface_at : ℕ → Referent
  surface_at n =
      let t = objects.surfaces n in
      record {
        lock = surface_lock n;
        ctx = t.ctx;
        closed = t.closed;
        closed_error = surface_closed;
        handle = t.handle;
        typ = surface_type;
      }

  -- `appendKernelArg`
  unfoldable pub append_kernel_arg : KernelArg → Packing → Option Err × Packing
  unfolding append_locked
  append_kernel_arg (buffer_arg none) p = (some (sentinel nil_buffer), p)
  append_kernel_arg (buffer_arg (some n)) p = append_locked (buffer_at n) p
  append_kernel_arg (texture_arg none) p = (some (sentinel nil_texture), p)
  append_kernel_arg (texture_arg (some n)) p = append_locked (texture_at n) p
  append_kernel_arg (surface_arg none) p = (some (sentinel nil_surface), p)
  append_kernel_arg (surface_arg (some n)) p = append_locked (surface_at n) p
  append_kernel_arg (value_arg t v) p =
      (none, add_packed (le_bytes (elem_size t) v) (some (elem_type t)) p)
  append_kernel_arg (device_ptr_arg ptr) p = (none, add_device_ptr ptr p)
  append_kernel_arg (raw_arg none size) p = (some (sentinel nil_kernel_arg), p)
  append_kernel_arg (raw_arg (some m) size) p =
      if leb_ℤ size (pos 0) || ltb_ℤ (pos max_raw_arg_bytes) size
      then (some (sentinel invalid_arg_size), p)
      else (none, add_packed (load m 0 (to_uint size)) none p)

  -- The loop of `launch` and `Pack` over the arguments, of which a nil one is an error.
  unfoldable pub append_all : List (Option KernelArg) → Packing → Option Err × Packing
  unfolding append_kernel_arg
  append_all [] p = (none, p)
  append_all (none ∷ rest) p = (some (sentinel nil_kernel_arg), p)
  append_all (some a ∷ rest) p =
      let (e, p') = append_kernel_arg a p in
      let r = append_all rest p' in elim e [ none ↦ r | some x ↦ (some x, p') ]
