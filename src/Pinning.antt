-- ===== src/Pinning.antt =====
-- cuda/hostbuffer.go and cuda/hostregister.go: page-locked host memory that a Context allocates, and
-- memory of the caller that is registered. `pins` counts the pins of `runtime.Pinner` on the memory at
-- each address. The contents of the memory are left out, and so is `Slice`.
pub mod Lifecycle
mod Tests
use gocudrv.Base.{
  ℕ, suc, ◌+◌, ◌*◌, ◌-◌, Bool, true, false, Option, none, some, ◌==◌, if◌then◌else◌, update, ℤ,
  to_uint,
}
use gocudrv.Driver.Errors.{Err, sentinel, nil_context, nil_buffer, invalid_length, Result, ok, err}
use gocudrv.Driver.{Driver}
use gocudrv.Driver.Calls.{mem_alloc_host, mem_free_host}
use gocudrv.Driver.Memory.{mem_host_register, mem_host_unregister}
use gocudrv.Context.Exec.{background}
use gocudrv.Context.State.{Store, M, ◌>>=◌, ◌>>◌, pure}
use gocudrv.Context.Run.{do_waited}
use gocudrv.Buffer.{Elem, elem_size, Pinned, reject_if, deref, bad_length, byte_size, u64}
use gocudrv.Closing.{close_once}

-- `HostBuffer`
pub record HostBuffer : Type 0 where
  pub ctx : ℕ
  pub ptr : ℕ
  pub length : ℕ
  pub bytes : ℕ
  pub closed : Bool

-- `RegisteredHost`, with the address and the length of its slice.
pub record RegisteredHost : Type 0 where
  pub ctx : ℕ
  pub ptr : ℕ
  pub length : ℕ
  pub bytes : ℕ
  pub closed : Bool

-- `pinnedHost` of the two kinds
unfoldable pub pinned_buffer : Option HostBuffer → Option Pinned
pinned_buffer none = none
pinned_buffer (some h) =
    some (record { ctx = h.ctx; ptr = h.ptr; length = h.length; closed = h.closed })

unfoldable pub pinned_registered : Option RegisteredHost → Option Pinned
pinned_registered none = none
pinned_registered (some h) =
    some (record { ctx = h.ctx; ptr = h.ptr; length = h.length; closed = h.closed })

abbrev pub pin : ℕ → (ℕ → ℕ) → ℕ → ℕ
pin p pins = update pins p (suc (pins p))

abbrev pub unpin : ℕ → (ℕ → ℕ) → ℕ → ℕ
unpin p pins = update pins p (pins p - 1)

module _ {W : Type 0} where
  -- The registration after the driver's answer: unpinned if it failed.
  abbrev pub after_register :
      RegisteredHost
      → (ℕ → ℕ)
      → Result (Unit {0}) × Store W
      → Result RegisteredHost × (ℕ → ℕ) × Store W
  after_register r pins (ok _, s) = (ok r, pins, s)
  after_register r pins (err e, s) = (err e, unpin r.ptr pins, s)

  -- The registration after `Close`, which unpins the memory when it closes it.
  abbrev pub after_unregister :
      RegisteredHost
      → (ℕ → ℕ)
      → Option Err × Bool × Store W
      → Option Err × RegisteredHost × (ℕ → ℕ) × Store W
  after_unregister r pins (none, now, s) = (none, record r { closed = now }, unpin r.ptr pins, s)
  after_unregister r pins (some e, now, s) = (some e, record r { closed = now }, pins, s)

  module _ (d : Driver W) where
    -- `AllocHost`
    unfoldable pub alloc_host : Elem → Option ℕ → ℤ → M W HostBuffer
    alloc_host t ctx n = do
      c ← deref ctx nil_context
      reject_if (bad_length t n) invalid_length
      p ← do_waited d c background (mem_alloc_host d (byte_size t (to_uint n)))
      pure (record {
        ctx = c;
        ptr = p;
        length = to_uint n;
        bytes = byte_size t (to_uint n);
        closed = false;
      })

    -- `Close` of a HostBuffer
    unfoldable pub close_host :
        Option HostBuffer → Store W → Option Err × Option HostBuffer × Store W
    unfolding close_once
    close_host none s = (some (sentinel nil_buffer), none, s)
    close_host (some h) s =
        let (e, now, s') = close_once d h.closed h.ctx (mem_free_host d h.ptr) s in
        (e, some (record h { closed = now }), s')

    abbrev register_live :
        RegisteredHost → (ℕ → ℕ) → Store W → Result RegisteredHost × (ℕ → ℕ) × Store W
    register_live r pins s =
        after_register r (pin r.ptr pins)
          (do_waited d r.ctx background (mem_host_register d r.ptr r.bytes 0) s)

    -- `RegisterHost` of the slice with so many elements at an address.
    unfoldable pub register_host :
        Elem → Option ℕ → ℕ → ℕ → (ℕ → ℕ) → Store W → Result RegisteredHost × (ℕ → ℕ) × Store W
    register_host t none p n pins s = (err (sentinel nil_context), pins, s)
    register_host t (some c) p n pins s =
        if n == 0
        then (err (sentinel invalid_length), pins, s)
        else register_live
            (record { ctx = c; ptr = p; length = n; bytes = u64 (n * elem_size t); closed = false })
            pins s

    -- `Close` of a RegisteredHost that is not nil
    unfoldable pub close_registered :
        RegisteredHost → (ℕ → ℕ) → Store W → Option Err × RegisteredHost × (ℕ → ℕ) × Store W
    unfolding close_once
    close_registered r pins s =
        if r.closed
        then (none, r, pins, s)
        else after_unregister r pins (close_once d false r.ctx (mem_host_unregister d r.ptr) s)
