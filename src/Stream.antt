-- ===== src/Stream.antt =====
-- cuda/stream.go: streams. `Stream` itself is declared with Buffer, whose methods take it.
pub mod Lifecycle
pub mod HostFunc
mod Tests
use gocudrv.Base.{
  ℕ, Bool, false, ◌||◌, not, Option, none, some, List, [], ◌∷◌, ◌==◌, if◌then◌else◌, ltb, ℤ, pos,
  negsuc, ltb_ℤ,
}
use gocudrv.Driver.Errors.{
  Err, sentinel, nil_context, nil_stream, nil_event, stream_closed, event_closed, context_mismatch,
  invalid_stream_priority, Result, ok, err,
}
use gocudrv.Driver.{Driver, Cmd}
use gocudrv.Driver.Work.{
  stream_create, stream_create_with_priority, stream_destroy, stream_synchronize, stream_query,
  stream_wait_event,
}
use gocudrv.Context.Exec.{GoContext, background}
use gocudrv.Context.State.{Store, M, ◌>>=◌, ◌>>◌, pure, lift}
use gocudrv.Context.Run.{do_job, do_waited}
use gocudrv.Context.Sync.{do_job_ctx}
use gocudrv.Buffer.{Stream, reject_if, deref}
use gocudrv.Closing.{close_once}

-- `CU_STREAM_NON_BLOCKING`
abbrev pub stream_non_blocking : ℕ
stream_non_blocking = 1

abbrev pub min_int32 : ℤ
min_int32 = negsuc 2147483647

abbrev pub max_int32 : ℤ
max_int32 = pos 2147483647

-- `streamOptions`
pub record StreamOptions : Type 0 where
  pub priority : Option ℤ
  pub error : Option Err

-- `WithStreamPriority`, applied
unfoldable pub with_stream_priority : ℤ → StreamOptions → StreamOptions
with_stream_priority p o = elim o.error [
  | some _ ↦ o
  | none ↦
      if ltb_ℤ p min_int32 || ltb_ℤ max_int32 p
      then record o { error = some (sentinel invalid_stream_priority) }
      else record o { priority = some p }
]

-- The loop over the options, of which a nil one is skipped and the first error ends the call.
unfoldable pub stream_options : List (Option ℤ) → StreamOptions → Result StreamOptions
unfolding with_stream_priority
stream_options [] o = ok o
stream_options (none ∷ rest) o = stream_options rest o
stream_options (some p ∷ rest) o =
    let r = stream_options rest (with_stream_priority p o) in
    elim (with_stream_priority p o).error [ none ↦ r | some e ↦ err e ]

module _ {W : Type 0} where
  module _ (d : Driver W) where
    abbrev create : Option ℤ → Cmd W ℕ
    create none = stream_create d stream_non_blocking
    create (some p) = stream_create_with_priority d stream_non_blocking p

    -- `NewStream`
    unfoldable pub new_stream : Option ℕ → List (Option ℤ) → M W Stream
    unfolding stream_options
    new_stream ctx options = do
      c ← deref ctx nil_context
      opts ← lift (stream_options options (record { priority = none; error = none }))
      raw ← do_waited d c background (create opts.priority)
      pure (record { ctx = c; raw = raw; closed = false })

    -- `Synchronize`
    unfoldable pub synchronize : Option Stream → GoContext → M W (Unit {0})
    synchronize stream g = do
      st ← deref stream nil_stream
      reject_if st.closed stream_closed
      do_job_ctx d st.ctx g (stream_synchronize d st.raw)

    -- `Query`
    unfoldable pub query : Option Stream → M W (Unit {0})
    query stream = do
      st ← deref stream nil_stream
      reject_if st.closed stream_closed
      do_job d st.ctx background (stream_query d st.raw)

    -- `Close`
    unfoldable pub close : Option Stream → Store W → Option Err × Option Stream × Store W
    unfolding close_once
    close none s = (some (sentinel nil_stream), none, s)
    close (some st) s =
        let (e, now, s') = close_once d st.closed st.ctx (stream_destroy d st.raw) s in
        (e, some (record st { closed = now }), s')
