-- ===== src/Module/Global.antt =====
-- cuda/global.go: the global variables of a module.
use gocudrv.Base.{ℕ, ◌*◌, Option, some, [], ◌∷◌, ◌++◌, ◌==◌, ltb, Bytes}
use gocudrv.Driver.Errors.{
  nil_module, module_closed, nil_global, empty_global_name, invalid_global_name, length_mismatch,
}
use gocudrv.Driver.{Driver, Call}
use gocudrv.Driver.Queries.{module_get_global}
use gocudrv.Context.Exec.{GoContext, background}
use gocudrv.Context.State.{M, ◌>>=◌, ◌>>◌, pure}
use gocudrv.Context.Run.{do_waited}
use gocudrv.Dispatch.{run}
use gocudrv.Buffer.{Elem, elem_size, Slice, reject_if, deref}
use gocudrv.Module.{Module, is_empty, has_null}

-- `Global`
pub record Global : Type 0 where
  pub owner : Option ℕ
  pub ptr : ℕ
  pub bytes : ℕ
  pub name : Bytes

-- The size of a slice in bytes; it lies in memory, so that the product does not wrap.
abbrev pub slice_bytes : Elem → Slice → ℕ
slice_bytes t x = x.len * elem_size t

module _ {W : Type 0} (d : Driver W) (modules : ℕ → Module) where
  -- `Global` of a module
  unfoldable pub global : Option ℕ → Bytes → M W Global
  unfolding has_null
  global m name = do
    i ← deref m nil_module
    reject_if (is_empty name) empty_global_name
    reject_if (has_null name) invalid_global_name
    reject_if (modules i).closed module_closed
    p ←
        do_waited d (modules i).ctx background
          (module_get_global d (modules i).raw (name ++ 0 ∷ []))
    pure (record { owner = some i; ptr = p.0; bytes = p.1; name = name })

  -- `WriteGlobal`
  unfoldable pub write_global : GoContext → Elem → Option Global → Slice → M W (Unit {0})
  write_global g t variable vals = do
    x ← deref variable nil_global
    i ← deref x.owner nil_module
    reject_if (vals.len == 0) length_mismatch
    reject_if (modules i).closed module_closed
    reject_if (ltb x.bytes (slice_bytes t vals)) length_mismatch
    run d (modules i).ctx g (Call.memcpy_htod x.ptr vals.addr (slice_bytes t vals))

  -- `ReadGlobal`
  unfoldable pub read_global : GoContext → Elem → Slice → Option Global → M W (Unit {0})
  read_global g t dst variable = do
    x ← deref variable nil_global
    i ← deref x.owner nil_module
    reject_if (dst.len == 0) length_mismatch
    reject_if (modules i).closed module_closed
    reject_if (ltb x.bytes (slice_bytes t dst)) length_mismatch
    run d (modules i).ctx g (Call.memcpy_dtoh dst.addr x.ptr (slice_bytes t dst))
