-- ===== src/Pinning/Lifecycle.antt =====
-- Page-locked memory from its allocation or registration to its close.
use gocudrv.Base.{
  ℕ, zero, suc, ◌+◌, ◌*◌, ◌≡◌, refl, Bool, true, false, ◌&&◌, not, Bool-cases, inl, inr, Option,
  none, some, arith, ◌==◌, if◌then◌else◌,
}
use gocudrv.Driver.Errors.{Err, sentinel, buffer_closed, Result, ok, err}
use gocudrv.Driver.{Driver}
use gocudrv.Driver.Calls.{mem_free_host}
use gocudrv.Driver.Memory.{mem_host_unregister}
use gocudrv.Context.Exec.{GoContext}
use gocudrv.Context.State.{Store}
use gocudrv.Buffer.{
  Elem, elem_size, Buffer, Stream, u64, copy_from_host, copy_to_host, copy_from_host_async,
  copy_to_host_async,
}
use gocudrv.Closing.{close_once, close_once_lem, is_nil}
use gocudrv.Pinning.{
  HostBuffer, RegisteredHost, pinned_buffer, pin, after_register, after_unregister, close_host,
  register_host, close_registered,
}

-- The pins that a registration stands for.
abbrev pub live : Result RegisteredHost → ℕ → ℕ
live (err e) q = 0
live (ok r) q = if r.closed then 0 else (if r.ptr == q then 1 else 0)

-- What `RegisterHost` returned, with the pins and the store.
abbrev pub Registration : Type 0 → Type 0
Registration W = Result RegisteredHost × (ℕ → ℕ) × Store W

abbrev Follows : {W : Type 0} → (ℕ → ℕ) → ℕ → Registration W → Type 0
Follows before q x = x.1 q ≡ before q + live x.0 q

module _ {W : Type 0} where
  after_register-Follows :
      (r : RegisteredHost) (pins : ℕ → ℕ) (x : Result (Unit {0}) × Store W) (q : ℕ)
      → r.closed ≡ false
      → Follows pins q (after_register r (pin r.ptr pins) x)
  after_register-Follows r pins (ok _, s) q o = rw o (ground arith)
  after_register-Follows r pins (err e, s) q o = ground arith

  abbrev still : Option Err × RegisteredHost × (ℕ → ℕ) × Store W → Registration W
  still (e, r, pins, s) = (ok r, pins, s)

  after_unregister-Follows :
      (before : ℕ → ℕ) (r : RegisteredHost) (pins : ℕ → ℕ) (x : Option Err × Bool × Store W) (q : ℕ)
      → r.closed ≡ false
      → x.1 ≡ is_nil x.0
      → Follows before q (ok r, pins, x.2)
      → Follows before q (still (after_unregister r pins x))
  after_unregister-Follows before r pins (none, now, s) q o e h = ground arith
  after_unregister-Follows before r pins (some x, now, s) q o e h = ground arith

  module _ (d : Driver W) where
    -- So many calls of `Close` on what `RegisterHost` returned, each at any outcome.
    unfoldable pub closes : ℕ → Registration W → Registration W
    unfolding close_registered
    closes zero x = x
    closes (suc k) (err e, pins, s) = (err e, pins, s)
    closes (suc k) (ok r, pins, s) = closes k (still (close_registered d r pins s))

    close_registered-Follows :
        (before : ℕ → ℕ) (r : RegisteredHost) (pins : ℕ → ℕ) (s : Store W) (q : ℕ)
        → Follows before q (ok r, pins, s)
        → Follows before q (still (close_registered d r pins s))
    unfolding close_registered
    close_registered-Follows before r pins s q h = elim (Bool-cases r.closed) [
      | inl e ↦ rw e (rw e at h)
      | inr e ↦ rw e (
          after_unregister-Follows before r pins
            (close_once d false r.ctx (mem_host_unregister d r.ptr) s) q e
            (close_once_lem d false r.ctx (mem_host_unregister d r.ptr) s).0 h)
    ]

    closes-Follows :
        (before : ℕ → ℕ) (k : ℕ) (x : Registration W) (q : ℕ)
        → Follows before q x
        → Follows before q (closes k x)
    unfolding closes
    closes-Follows before zero x q h = h
    closes-Follows before (suc k) (err e, pins, s) q h = h
    closes-Follows before (suc k) (ok r, pins, s) q h =
        closes-Follows before k (still (close_registered d r pins s)) q
          (close_registered-Follows before r pins s q h)

    register_host-Follows :
        (t : Elem) (ctx : Option ℕ) (p n : ℕ) (pins : ℕ → ℕ) (s : Store W) (q : ℕ)
        → Follows pins q (register_host d t ctx p n pins s)
    unfolding register_host
    register_host-Follows t none p n pins s q = omega arith
    register_host-Follows t (some c) p n pins s q = elim (Bool-cases (n == 0)) [
      | inl e ↦ rw e (omega arith)
      | inr e ↦ rw e (
          after_register-Follows
            (record { ctx = c; ptr = p; length = n; bytes = u64 (n * elem_size t); closed = false })
            pins _ q refl)
    ]

    -- After `RegisterHost` and any number of calls of `Close`, whatever the driver answers to each of them,
    -- memory is pinned once more than before exactly if it is that of a registration that was
    -- returned and is still open: a failed registration and a close leave no pin behind, a failed close
    -- keeps the pin, and a second close unpins nothing.
    pub pins_follow_registration :
        (t : Elem) (ctx : Option ℕ) (p n : ℕ) (pins : ℕ → ℕ) (s : Store W) (k q : ℕ)
        → (closes k (register_host d t ctx p n pins s)).1 q
          ≡ pins q + live (closes k (register_host d t ctx p n pins s)).0 q
    pins_follow_registration t ctx p n pins s k q =
        closes-Follows pins k (register_host d t ctx p n pins s) q
          (register_host-Follows t ctx p n pins s q)

    -- If `Close` of a HostBuffer returns nil, the buffer is closed: another `Close` returns nil, and the copies
    -- between it and an open buffer, also those on an open stream, return `ErrBufferClosed`, all
    -- without a change of the store. If it returns an error, the buffer was open and is open still.
    pub close_host_refuses :
        (h : HostBuffer) (o : Option HostBuffer) (x : Option Err) (b : Buffer) (st : Stream)
        (g : GoContext) (s s' : Store W)
        → b.closed ≡ false
        → st.closed ≡ false
        → close_host d (some h) s ≡ (x, o, s')
        → (o ≡ some (record h { closed = is_nil x }))
          × ((h.closed && not (is_nil x)) ≡ false)
          × (close_host d (some (record h { closed = true })) s'
              ≡ (none, some (record h { closed = true }), s'))
          × (copy_from_host d g (some b) (pinned_buffer (some (record h { closed = true }))) s'
              ≡ (err (sentinel buffer_closed), s'))
          × (copy_to_host d g (some b) (pinned_buffer (some (record h { closed = true }))) s'
              ≡ (err (sentinel buffer_closed), s'))
          × (copy_from_host_async d g
                (some b)
                (some st)
                (pinned_buffer (some (record h { closed = true })))
                s'
              ≡ (err (sentinel buffer_closed), s'))
          × (copy_to_host_async d g
                (some b)
                (some st)
                (pinned_buffer (some (record h { closed = true })))
                s'
              ≡ (err (sentinel buffer_closed), s'))
    unfolding close_host copy_from_host copy_to_host copy_from_host_async copy_to_host_async
        pinned_buffer
    close_host_refuses h o x b st g s s' p q e =
        let (u, v) = close_once_lem d h.closed h.ctx (mem_free_host d h.ptr) s in
        (
          ground arith,
          ground arith,
          unfold close_once in refl,
          ground arith,
          ground arith,
          ground arith,
          ground arith,
        )
