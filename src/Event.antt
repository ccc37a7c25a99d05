-- ===== src/Event.antt =====
-- cuda/event.go and cuda/event_dispatch.go: events, and `WaitEvent` of cuda/stream.go.
pub mod Locks
pub mod Lifecycle
mod Tests
use gocudrv.Base.{
  ℕ, ◌/◌, ◌%◌, ◌+◌, ◌*◌, Bool, true, false, ◌||◌, not, Option, none, some, List, [], ◌∷◌, ◌==◌,
  if◌then◌else◌,
}
use gocudrv.Driver.Errors.{
  Err, sentinel, nil_context, nil_stream, nil_event, stream_closed, event_closed, context_mismatch,
  event_timing_disabled, Result, ok, err,
}
use gocudrv.Driver.{Driver}
use gocudrv.Driver.Work.{
  event_create, event_destroy, event_record, event_query, event_synchronize, event_elapsed_time,
  stream_wait_event,
}
use gocudrv.Context.Exec.{GoContext, background}
use gocudrv.Context.State.{Store, M, ◌>>=◌, ◌>>◌, pure, lift}
use gocudrv.Context.Run.{do_job, do_waited}
use gocudrv.Context.Sync.{do_job_ctx}
use gocudrv.Buffer.{Stream, reject_if, deref}
use gocudrv.Closing.{close_once}

-- `Event`
pub record Event : Type 0 where
  pub ctx : ℕ
  pub raw : ℕ
  pub closed : Bool
  pub timing_disabled : Bool
  pub interprocess : Bool

-- The options: `WithEventBlockingSync`, `WithEventInterprocess` and `WithEventDisableTiming`.
pub data EventOption : Type 0 where
  blocking_sync interprocess_sharing disable_timing : EventOption

-- The flags as their bits: blocking synchronization (1), no timing (2) and interprocess (4).
pub record EventFlags : Type 0 where
  pub blocking : Bool
  pub no_timing : Bool
  pub shared : Bool

abbrev pub event_default : EventFlags
event_default = record { blocking = false; no_timing = false; shared = false }

unfoldable pub apply : EventOption → EventFlags → EventFlags
apply blocking_sync f = record f { blocking = true }
apply interprocess_sharing f = record f { shared = true; no_timing = true }
apply disable_timing f = record f { no_timing = true }

-- The loop over the options, of which a nil one is skipped; none of them fails.
unfoldable pub event_options : List (Option EventOption) → EventFlags → EventFlags
unfolding apply
event_options [] f = f
event_options (none ∷ rest) f = event_options rest f
event_options (some o ∷ rest) f = event_options rest (apply o f)

-- `waitOptions`
pub record WaitOptions : Type 0 where
  pub flags : ℕ
  pub error : Option Err

-- `waitOptionFunc`; the package exports none.
abbrev pub WaitOption : Type 0
WaitOption = WaitOptions → WaitOptions

-- The loop over the options of `WaitEvent`: a nil one is skipped and the first error ends the call.
unfoldable pub wait_options : List (Option WaitOption) → WaitOptions → Result WaitOptions
wait_options [] o = ok o
wait_options (none ∷ rest) o = wait_options rest o
wait_options (some f ∷ rest) o =
    let r = wait_options rest (f o) in elim (f o).error [ none ↦ r | some e ↦ err e ]

abbrev bit : Bool → ℕ → ℕ
bit true n = n
bit false n = 0

abbrev pub flag_bits : EventFlags → ℕ
flag_bits f = bit f.blocking 1 + (bit f.no_timing 2 + bit f.shared 4)

module _ {W : Type 0} (d : Driver W) where
  -- `NewEvent`
  unfoldable pub new_event : Option ℕ → List (Option EventOption) → M W Event
  unfolding event_options
  new_event ctx options = do
    c ← deref ctx nil_context
    raw ←
        do_waited d c background (event_create d (flag_bits (event_options options event_default)))
    pure (record {
      ctx = c;
      raw = raw;
      closed = false;
      timing_disabled = (event_options options event_default).no_timing;
      interprocess = (event_options options event_default).shared;
    })

  -- `Record`
  unfoldable pub record_on : Option Event → Option Stream → M W (Unit {0})
  record_on event stream = do
    e ← deref event nil_event
    st ← deref stream nil_stream
    reject_if st.closed stream_closed
    reject_if e.closed event_closed
    reject_if (not (st.ctx == e.ctx)) context_mismatch
    do_job d e.ctx background (event_record d e.raw st.raw)

  -- `WaitEvent` of a stream, from the flags `waitEventDefault`
  unfoldable pub wait_event :
      Option Stream → Option Event → List (Option WaitOption) → M W (Unit {0})
  unfolding wait_options
  wait_event stream event options = do
    st ← deref stream nil_stream
    e ← deref event nil_event
    opts ← lift (wait_options options (record { flags = 0; error = none }))
    reject_if st.closed stream_closed
    reject_if e.closed event_closed
    reject_if (not (st.ctx == e.ctx)) context_mismatch
    do_job d st.ctx background (stream_wait_event d st.raw e.raw opts.flags)

  -- `Synchronize`
  unfoldable pub synchronize : Option Event → GoContext → M W (Unit {0})
  synchronize event g = do
    e ← deref event nil_event
    reject_if e.closed event_closed
    do_job_ctx d e.ctx g (event_synchronize d e.raw)

  -- `Query`
  unfoldable pub query : Option Event → M W (Unit {0})
  query event = do
    e ← deref event nil_event
    reject_if e.closed event_closed
    do_job d e.ctx background (event_query d e.raw)

  -- `Elapsed`, as the number of milliseconds that the driver gives: a float, here its bits.
  unfoldable pub elapsed : Option Event → Option Event → M W ℕ
  elapsed start finish = do
    e ← deref start nil_event
    f ← deref finish nil_event
    reject_if (e.closed || f.closed) event_closed
    reject_if (e.timing_disabled || f.timing_disabled) event_timing_disabled
    reject_if (not (e.ctx == f.ctx)) context_mismatch
    do_job d e.ctx background (event_elapsed_time d e.raw f.raw)

  -- `Close`
  unfoldable pub close : Option Event → Store W → Option Err × Option Event × Store W
  unfolding close_once
  close none s = (some (sentinel nil_event), none, s)
  close (some e) s =
      let (x, now, s') = close_once d e.closed e.ctx (event_destroy d e.raw) s in
      (x, some (record e { closed = now }), s')
