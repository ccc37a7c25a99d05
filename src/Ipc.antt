-- ===== src/Ipc.antt =====
-- cuda/ipc.go: memory and events that processes share. A handle is its bytes, which another process may send.
pub mod Lifecycle
use gocudrv.Base.{
  ℕ, ◌*◌, ◌/◌, Bool, true, false, ◌||◌, not, Option, none, some, ◌==◌, Bytes, ℤ, pos, to_uint,
}
use gocudrv.Driver.Errors.{
  Err, sentinel, nil_context, nil_buffer, buffer_closed, invalid_length, length_mismatch, nil_event,
  event_closed, event_not_interprocess,
}
use gocudrv.Driver.{Driver, Call}
use gocudrv.Driver.Queries.{
  ipc_get_mem_handle, ipc_open_mem_handle, ipc_close_mem_handle, ipc_get_event_handle,
  ipc_open_event_handle,
}
use gocudrv.Context.Exec.{GoContext, background}
use gocudrv.Context.State.{Store, M, ◌>>=◌, ◌>>◌, pure}
use gocudrv.Context.Run.{do_plain, do_waited}
use gocudrv.Dispatch.{run}
use gocudrv.Buffer.{Buffer, Elem, Slice, bad_length, byte_size, reject_if, deref}
use gocudrv.Event.{Event}
use gocudrv.Closing.{close_once}

-- `IPCBuffer`, with its element type.
pub record IpcBuffer : Type 0 where
  pub ctx : ℕ
  pub elem : Elem
  pub ptr : ℕ
  pub length : ℕ
  pub bytes : ℕ
  pub closed : Bool

-- `IpcMemLazyEnablePeerAccess`
abbrev lazy_peer_access : ℕ
lazy_peer_access = 1

module _ {W : Type 0} (d : Driver W) where
  -- `IPCHandle` of a buffer
  unfoldable pub buffer_handle : Option Buffer → M W Bytes
  buffer_handle buffer = do
    b ← deref buffer nil_buffer
    reject_if b.closed buffer_closed
    do_waited d b.ctx background (ipc_get_mem_handle d b.ptr)

  -- `OpenIPCBuffer`
  unfoldable pub open_buffer : Elem → Option ℕ → Bytes → ℤ → M W IpcBuffer
  open_buffer t ctx h n = do
    c ← deref ctx nil_context
    reject_if (bad_length t n) invalid_length
    p ← do_plain d c background (ipc_open_mem_handle d h lazy_peer_access)
    pure (record {
      ctx = c;
      elem = t;
      ptr = p;
      length = to_uint n;
      bytes = byte_size t (to_uint n);
      closed = false;
    })

  -- `CopyFrom`
  unfoldable pub copy_from : GoContext → Option IpcBuffer → Slice → M W (Unit {0})
  copy_from g buffer src = do
    b ← deref buffer nil_buffer
    reject_if b.closed buffer_closed
    reject_if (src.len == 0 || not (src.len == b.length)) length_mismatch
    run d b.ctx g (Call.memcpy_htod b.ptr src.addr b.bytes)

  -- `CopyTo`
  unfoldable pub copy_to : GoContext → Option IpcBuffer → Slice → M W (Unit {0})
  copy_to g buffer dst = do
    b ← deref buffer nil_buffer
    reject_if b.closed buffer_closed
    reject_if (dst.len == 0 || not (dst.len == b.length)) length_mismatch
    run d b.ctx g (Call.memcpy_dtoh dst.addr b.ptr b.bytes)

  -- `Close`
  unfoldable pub close : Option IpcBuffer → Store W → Option Err × Option IpcBuffer × Store W
  unfolding close_once
  close none s = (some (sentinel nil_buffer), none, s)
  close (some b) s =
      let (e, now, s') = close_once d b.closed b.ctx (ipc_close_mem_handle d b.ptr) s in
      (e, some (record b { closed = now }), s')

  -- `IPCHandle` of an event
  unfoldable pub event_handle : Option Event → M W Bytes
  event_handle event = do
    e ← deref event nil_event
    reject_if e.closed event_closed
    reject_if (not e.interprocess) event_not_interprocess
    do_waited d e.ctx background (ipc_get_event_handle d e.raw)

  -- `OpenIPCEvent`
  unfoldable pub open_event : Option ℕ → Bytes → M W Event
  open_event ctx h = do
    c ← deref ctx nil_context
    raw ← do_plain d c background (ipc_open_event_handle d h)
    pure
        (record { ctx = c; raw = raw; closed = false; timing_disabled = true; interprocess = true })
