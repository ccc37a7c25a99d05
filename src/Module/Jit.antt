-- ===== src/Module/Jit.antt =====
-- cuda/module.go: the options of a JIT compile, and `LoadModuleEx`.
use gocudrv.Base.{
  ℕ, false, ◌||◌, Option, none, some, List, [], ◌∷◌, ◌==◌, if◌then◌else◌, Bytes, ℤ, pos, ltb_ℤ,
  to_uint,
}
use gocudrv.Driver.Errors.{
  sentinel, nil_context, empty_image, invalid_length, invalid_value, Result, ok, err,
}
use gocudrv.Driver.{Driver}
use gocudrv.Driver.Queries.{module_load_data_ex}
use gocudrv.Context.Exec.{background}
use gocudrv.Context.State.{Store}
use gocudrv.Context.Run.{do_waited}
use gocudrv.Module.{Module, is_empty, module_image, trim_null}

-- `JITOptions`
pub record JitOptions : Type 0 where
  pub log_buffer_bytes : ℤ
  pub max_registers : ℤ

abbrev default_jit_log_bytes : ℕ
default_jit_log_bytes = 8192

abbrev pub max_jit_log_bytes : ℕ
max_jit_log_bytes = 16777216

-- The size of each log buffer, or the error of options that are out of range.
unfoldable pub log_size : JitOptions → Result ℕ
log_size opts =
    if ltb_ℤ opts.log_buffer_bytes (pos 0) || ltb_ℤ (pos max_jit_log_bytes) opts.log_buffer_bytes
    then err (sentinel invalid_length)
    else if ltb_ℤ (pos 4294967295) opts.max_registers
    then err invalid_value
    else ok (
        if to_uint opts.log_buffer_bytes == 0
        then default_jit_log_bytes
        else to_uint opts.log_buffer_bytes)

-- The options of the driver and their values, given the addresses of the two log buffers and their size.
unfoldable pub jit_options : JitOptions → List ℕ
jit_options opts = 3 ∷ 4 ∷ 5 ∷ 6 ∷ (if ltb_ℤ (pos 0) opts.max_registers then 0 ∷ [] else [])

unfoldable pub jit_values : JitOptions → ℕ → ℕ → ℕ → List ℕ
jit_values opts info errors size =
    info
    ∷ size
    ∷ errors
    ∷ size
    ∷ (if ltb_ℤ (pos 0) opts.max_registers then to_uint opts.max_registers ∷ [] else [])

-- `JITLog`
pub record JitLog : Type 0 where
  pub info : Bytes
  pub error : Bytes

abbrev pub no_log : JitLog
no_log = record { info = []; error = [] }

-- The log in two buffers, given what host memory holds.
abbrev pub log_in : (ℕ → Bytes) → ℕ → ℕ → JitLog
log_in memory info errors = record {
  info = trim_null (memory info);
  error = trim_null (memory errors);
}

module _ {W : Type 0} (d : Driver W) (memory : W → ℕ → Bytes) where
  abbrev with_log : ℕ → ℕ → ℕ → Result ℕ × Store W → (Result Module × JitLog) × Store W
  with_log c info errors (ok raw, s) =
      ((ok (record { ctx = c; raw = raw; closed = false }), log_in (memory s.world) info errors), s)
  with_log c info errors (err e, s) = ((err e, log_in (memory s.world) info errors), s)

  -- `LoadModuleEx` on a Context, with the addresses of the two log buffers that it makes; `memory` is what a
  -- buffer of the host holds.
  unfoldable pub load_module_ex :
      Option ℕ → Bytes → JitOptions → ℕ → ℕ → Store W → (Result Module × JitLog) × Store W
  unfolding log_size module_image jit_options jit_values
  load_module_ex none image opts info errors s = ((err (sentinel nil_context), no_log), s)
  load_module_ex (some c) image opts info errors s =
      if is_empty image then ((err (sentinel empty_image), no_log), s) else elim (log_size opts) [
        | err e ↦ ((err e, no_log), s)
        | ok size ↦ with_log c info errors (
            do_waited d c background
              (module_load_data_ex d (module_image image) (jit_options opts)
                (jit_values opts info errors size))
              s)
      ]
