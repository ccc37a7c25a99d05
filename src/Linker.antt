-- ===== src/Linker.antt =====
-- cuda/link.go: JIT link sessions. The log buffers and the option arrays, which the driver keeps, are four
-- objects that a session pins; their addresses are those that the Go runtime gives them.
pub mod Lifecycle
mod Tests
use gocudrv.Base.{
  ℕ, Bool, true, false, ◌&&◌, Option, none, some, List, [], ◌∷◌, ◌++◌, if◌then◌else◌, Bytes,
}
use gocudrv.Driver.Errors.{
  Err, sentinel, symbol_unavailable, nil_context, nil_linker, linker_closed, empty_image, Symbol,
  Result, ok, err,
}
use gocudrv.Driver.{Driver}
use gocudrv.Driver.Objects.{link_add_data, link_complete, link_destroy}
use gocudrv.Driver.Queries.{link_create}
use gocudrv.Context.Exec.{background}
use gocudrv.Context.State.{Store, M, ◌>>=◌, ◌>>◌, pure}
use gocudrv.Context.Run.{do_waited}
use gocudrv.Buffer.{reject_if, deref}
use gocudrv.Module.{is_empty, null_terminated}
use gocudrv.Module.Jit.{JitOptions, JitLog, no_log, log_in, log_size, jit_options, jit_values}
use gocudrv.Closing.{close_once}

-- `Linker`, with the addresses of its buffers and option arrays, and the objects that are pinned for it.
pub record Linker : Type 0 where
  pub ctx : ℕ
  pub raw : ℕ
  pub info_buf : ℕ
  pub err_buf : ℕ
  pub options : ℕ
  pub values : ℕ
  pub pins : List ℕ
  pub closed : Bool

-- The addresses of the four objects of a new session.
pub record Arrays : Type 0 where
  pub info_buf : ℕ
  pub err_buf : ℕ
  pub options : ℕ
  pub values : ℕ

abbrev pub pinned : Arrays → List ℕ
pinned a = a.info_buf ∷ a.err_buf ∷ a.options ∷ a.values ∷ []

-- `jitInputCubin` and `jitInputPTX`
pub data JitInput : Type 0 where
  cubin ptx : JitInput

abbrev pub input_type : JitInput → ℕ
input_type cubin = 0
input_type ptx = 1

-- The bytes that are passed for an input: a PTX image is null-terminated.
abbrev pub input_image : JitInput → Bytes → Bytes
input_image cubin image = image
input_image ptx image = null_terminated image

-- The label of an input, null-terminated, unless it is empty.
abbrev pub label : Bytes → Option Bytes
label [] = none
label (x ∷ xs) = some ((x ∷ xs) ++ 0 ∷ [])

module _ {W : Type 0} (d : Driver W) where
  -- All four symbols of the group are bound.
  abbrev pub has_link_group : Bool
  has_link_group =
      d.bound Symbol.link_create
      && (d.bound Symbol.link_add_data
          && (d.bound Symbol.link_complete && d.bound Symbol.link_destroy))

  -- The session, or its error and nothing pinned.
  abbrev after_create : ℕ → Arrays → Result ℕ × Store W → (Result Linker × List ℕ) × Store W
  after_create c a (ok raw, s) = (
    (
      ok (record {
        ctx = c;
        raw = raw;
        info_buf = a.info_buf;
        err_buf = a.err_buf;
        options = a.options;
        values = a.values;
        pins = pinned a;
        closed = false;
      }),
      pinned a,
    ),
    s,
  )
  after_create c a (err e, s) = ((err e, []), s)

  -- `NewLinker`, with what is pinned afterwards.
  unfoldable pub new_linker :
      Option ℕ → JitOptions → Arrays → Store W → (Result Linker × List ℕ) × Store W
  unfolding log_size jit_options jit_values
  new_linker none opts a s = ((err (sentinel nil_context), []), s)
  new_linker (some c) opts a s =
      if has_link_group
      then elim (log_size opts) [
        | err e ↦ ((err e, []), s)
        | ok size ↦ after_create c a (
            do_waited d c background
              (link_create d (jit_options opts) (jit_values opts a.info_buf a.err_buf size)) s)
      ]
      else ((err (sentinel symbol_unavailable), []), s)

  -- `addInput`, for `AddPTX` and `AddCubin`
  unfoldable pub add_input : Option Linker → Bytes → Bytes → JitInput → M W (Unit {0})
  add_input linker name image kind = do
    l ← deref linker nil_linker
    reject_if l.closed linker_closed
    reject_if (is_empty image) empty_image
    do_waited d l.ctx background
        (link_add_data d l.raw (input_type kind) (input_image kind image) (label name))

  unfoldable pub add_ptx : Option Linker → Bytes → Bytes → M W (Unit {0})
  unfolding add_input
  add_ptx linker name image = add_input linker name image ptx

  unfoldable pub add_cubin : Option Linker → Bytes → Bytes → M W (Unit {0})
  unfolding add_input
  add_cubin linker name image = add_input linker name image cubin

  -- `Complete`
  unfoldable pub complete : Option Linker → M W Bytes
  complete linker = do
    l ← deref linker nil_linker
    reject_if l.closed linker_closed
    do_waited d l.ctx background (link_complete d l.raw)

  -- `Log`, given what host memory holds
  abbrev pub log : Option Linker → (ℕ → Bytes) → JitLog
  log none memory = no_log
  log (some l) memory = log_in memory l.info_buf l.err_buf

  -- `Close`
  unfoldable pub close : Option Linker → Store W → Option Err × Option Linker × Store W
  unfolding close_once
  close none s = (some (sentinel nil_linker), none, s)
  close (some l) s =
      let (e, now, s') = close_once d l.closed l.ctx (link_destroy d l.raw) s in
      (e, some (record l { closed = now; pins = if now then [] else l.pins }), s')
