-- ===== src/Launch/Updates.antt =====
-- cuda/launch.go: arguments that are packed once keep the types that they were packed with, over any number of
-- updates and launches.
pub mod Types
use gocudrv.Base.{
  ℕ, ◌≡◌, ◌∙◌, ap, refl, subst, Bool, true, false, ◌||◌, not, Option, none, some, List, [], ◌∷◌,
  map, ◌==◌, ltb, if◌then◌else◌, ℤ, pos, negsuc, leb_ℤ, ltb_ℤ, to_uint, Mem, load, length,
  length-load, Bytes, get_elem?, arith, Bool-cases, inl, inr, ◌⊎◌, ◌≤◌, zero, suc,
}
use gocudrv.Driver.Errors.{
  Err, sentinel, nil_kernel_arg, nil_buffer, buffer_closed, invalid_arg_size,
  arg_index_out_of_range, arg_type_mismatch, arg_size_mismatch,
}
use gocudrv.Argpack.{
  Builder, ArgMeta, PackError, index_out_of_range, meta, tabulate, params, set, set_bytes, write,
  same_type,
}
use gocudrv.Argpack.Params.{tabulate_cong, get_elem?-tabulate, length-tabulate}
use gocudrv.Buffer.{Elem}
use gocudrv.Launch.Args.{Objects, device_ptr_type, elem_type, max_raw_arg_bytes}
use gocudrv.Launch.Packed.{
  pack_error, update_result, set_packed, set_device_ptr, set_packed_buffer, set_raw,
}

-- The types and the sizes of the arguments, in order.
unfoldable pub signature : Builder → List (Option ℕ × ℕ)
unfolding meta tabulate
signature b = tabulate (λ i. ((meta b i).typ, (meta b i).size)) b.count

-- `SetPacked`, `SetDevicePtr`, `SetPackedBuffer`, `SetRaw`, and the `Params` of a launch
pub data Update : Type 0 where
  value_update : ℤ → Elem → ℕ → Update
  device_ptr_update : ℤ → ℕ → Update
  buffer_update : ℤ → Option ℕ → Update
  raw_update : ℤ → Option Mem → ℤ → Update
  launch_update : Update

-- What an update of argument `i` needs: a check of the argument's type and size.
abbrev pub checked : List (Option ℕ × ℕ) → ℤ → (Option ℕ × ℕ → Option Err) → Option Err
checked types (negsuc i) check = some (sentinel arg_index_out_of_range)
checked types (pos i) check = elim (get_elem? types i) [
  | none ↦ some (sentinel arg_index_out_of_range)
  | some x ↦ check x
]

abbrev pub typed : ℕ → Option ℕ × ℕ → Option Err
typed t x = if same_type x.0 t then none else some (sentinel arg_type_mismatch)

abbrev pub sized : ℕ → Option ℕ × ℕ → Option Err
sized n x = if n == x.1 then none else some (sentinel arg_size_mismatch)

module _ (objects : Objects) where
  -- The errors of an update, told by the types alone.
  unfoldable pub allowed : List (Option ℕ × ℕ) → Update → Option Err
  allowed types (value_update i t v) = checked types i (typed (elem_type t))
  allowed types (device_ptr_update i ptr) = checked types i (typed device_ptr_type)
  allowed types (buffer_update i none) = some (sentinel nil_buffer)
  allowed types (buffer_update i (some n)) =
      if (objects.buffers n).closed
      then some (sentinel buffer_closed)
      else checked types i (typed device_ptr_type)
  allowed types (raw_update i none size) = some (sentinel nil_kernel_arg)
  allowed types (raw_update i (some m) size) =
      if leb_ℤ size (pos 0) || ltb_ℤ (pos max_raw_arg_bytes) size
      then some (sentinel invalid_arg_size)
      else checked types i (sized (to_uint size))
  allowed types launch_update = none

  -- The methods on packed arguments that are not nil; a nil result stands for no arguments.
  unfoldable pub apply_update : Update → Builder → Option Err × Option Builder
  unfolding set_packed set_device_ptr set_packed_buffer set_raw params
  apply_update (value_update i t v) b = set_packed objects (some b) i t v
  apply_update (device_ptr_update i ptr) b = set_device_ptr objects (some b) i ptr
  apply_update (buffer_update i x) b = set_packed_buffer objects (some b) i x
  apply_update (raw_update i m size) b = set_raw objects (some b) i m size
  apply_update launch_update b = (none, some (params b).1)

  abbrev or_else : Builder → Option Builder → Builder
  or_else b none = b
  or_else b (some x) = x

  -- The errors of several updates, one after the other, and what is packed afterwards.
  unfoldable pub apply_updates : List Update → Builder → List (Option Err) × Builder
  unfolding apply_update
  apply_updates [] b = ([], b)
  apply_updates (u ∷ us) b =
      let (e, after) = apply_update u b in
      let (es, last) = apply_updates us (or_else b after) in (e ∷ es, last)
