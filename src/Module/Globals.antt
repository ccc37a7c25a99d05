-- ===== src/Module/Globals.antt =====
-- The memory that reads and writes of globals reach.
use gocudrv.Base.{ℕ, ◌<◌, ◌≤◌, ◌≡◌, ◌⊎◌, inl, inr, refl, false, some, arith, ltb, ◌==◌, Bool-cases}
use gocudrv.Driver.Errors.{sentinel, length_mismatch, err}
use gocudrv.Driver.{Driver, Call}
use gocudrv.Context.Exec.{GoContext}
use gocudrv.Context.State.{Store}
use gocudrv.Dispatch.{run}
use gocudrv.Buffer.{Elem, Slice}
use gocudrv.Module.{Module}
use gocudrv.Module.Global.{Global, slice_bytes, write_global, read_global}

-- A slice that is not empty and not larger than the global.
abbrev pub Fits : Elem → Global → Slice → Type 0
Fits t x v = (0 < v.len) × (slice_bytes t v ≤ x.bytes)

module _ {W : Type 0} (d : Driver W) (modules : ℕ → Module) where
  -- For a global of an open module, a slice that is empty or larger than the global is refused with
  -- `ErrLengthMismatch` by `WriteGlobal` and `ReadGlobal`, the store unchanged; any other slice is copied by one call,
  -- of exactly the bytes of the slice, between the slice and the start of the global.
  pub globals-Fits :
      (g : GoContext) (t : Elem) (x : Global) (i : ℕ) (v : Slice) (s : Store W)
      → x.owner ≡ some i
      → (modules i).closed ≡ false
      → (Fits t x v
          × (write_global d modules g t (some x) v s
              ≡ run d (modules i).ctx g (Call.memcpy_htod x.ptr v.addr (slice_bytes t v)) s)
          × (read_global d modules g t v (some x) s
              ≡ run d (modules i).ctx g (Call.memcpy_dtoh v.addr x.ptr (slice_bytes t v)) s))
        ⊎ ((¬ Fits t x v)
            × (write_global d modules g t (some x) v s ≡ (err (sentinel length_mismatch), s))
            × (read_global d modules g t v (some x) s ≡ (err (sentinel length_mismatch), s)))
  unfolding write_global read_global
  globals-Fits g t x i v s o c = elim (Bool-cases (v.len == 0)) [
    | inl e ↦ inr (λ f. ground arith, rw (o, c, e) refl, rw (o, c, e) refl)
    | inr e ↦ elim (Bool-cases (ltb x.bytes (slice_bytes t v))) [
      | inl h ↦ inr (λ f. ground arith, rw (o, c, e, h) refl, rw (o, c, e, h) refl)
      | inr h ↦ inl ((ground arith, ground arith), rw (o, c, e, h) refl, rw (o, c, e, h) refl)
    ]
  ]
