-- ===== src/Ipc/Lifecycle.antt =====
-- Memory and events from another process.
use gocudrv.Base.{ℕ, ◌≡◌, refl, true, false, ◌&&◌, not, Option, none, some, arith, Bytes}
use gocudrv.Driver.Errors.{
  Err, sentinel, buffer_closed, event_timing_disabled, event_not_interprocess, ok, err,
}
use gocudrv.Driver.{Driver}
use gocudrv.Driver.Queries.{ipc_close_mem_handle, ipc_get_event_handle}
use gocudrv.Context.Exec.{GoContext, background}
use gocudrv.Context.State.{Store}
use gocudrv.Context.Run.{do_waited}
use gocudrv.Buffer.{Slice}
use gocudrv.Event.{Event, elapsed}
use gocudrv.Ipc.{IpcBuffer, copy_from, copy_to, close, open_event, event_handle}
use gocudrv.Closing.{close_once, close_once_lem, is_nil}

module _ {W : Type 0} (d : Driver W) where
  -- An event that `OpenIPCEvent` imports has no timing: `Elapsed` from it or to it, with another open event, returns
  -- `ErrEventTimingDisabled` without a change of the store. It may be exported again: `IPCHandle` goes to the driver,
  -- as it does not for an open event that was not made for sharing, where it returns `ErrEventNotInterprocess`
  -- without a change of the store.
  pub imported_event_untimed :
      (ctx : Option ℕ) (h : Bytes) (e f : Event) (s s' t : Store W)
      → open_event d ctx h s ≡ (ok e, s')
      → f.closed ≡ false
      → f.interprocess ≡ false
      → (elapsed d (some e) (some f) t ≡ (err (sentinel event_timing_disabled), t))
        × (elapsed d (some f) (some e) t ≡ (err (sentinel event_timing_disabled), t))
        × (event_handle d (some e) t
            ≡ do_waited d e.ctx background (ipc_get_event_handle d e.raw) t)
        × (event_handle d (some f) t ≡ (err (sentinel event_not_interprocess), t))
  unfolding open_event elapsed event_handle
  imported_event_untimed none h e f s s' t o c i = ground arith
  imported_event_untimed (some x) h e f s s' t o c i =
      let (a, b, k) = made x in (rw (a, c, b) refl, ground arith, rw (a, k) refl, rw (c, i) refl)
    where
      made : ℕ → (e.closed ≡ false) × (e.timing_disabled ≡ true) × (e.interprocess ≡ true)
      made y = ground arith

  -- `Close` of a mapped buffer closes it exactly if it returns nil, and only an open one fails to close. A closed one
  -- refuses copies with `ErrBufferClosed`, and another `Close` returns nil, all without a change of the store.
  pub ipc-close_refuses :
      (b b' : IpcBuffer) (x : Option Err) (g : GoContext) (sl : Slice) (s s' : Store W)
      → close d (some b) s ≡ (x, some b', s')
      → (b' ≡ record b { closed = is_nil x })
        × ((b.closed && not (is_nil x)) ≡ false)
        × (copy_from d g (some (record b { closed = true })) sl s'
            ≡ (err (sentinel buffer_closed), s'))
        × (copy_to d g (some (record b { closed = true })) sl s'
            ≡ (err (sentinel buffer_closed), s'))
        × (close d (some (record b { closed = true })) s'
            ≡ (none, some (record b { closed = true }), s'))
  unfolding close copy_from copy_to
  ipc-close_refuses b b' x g sl s s' p =
      let (u, v) = close_once_lem d b.closed b.ctx (ipc_close_mem_handle d b.ptr) s in
      (ground arith, ground arith, refl, refl, unfold close_once in refl)
