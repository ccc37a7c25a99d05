-- ===== src/Buffer.antt =====
-- cuda/buffer.go: typed device buffers. A receiver or argument that may be nil is an `Option`; a Go
-- slice is its address and its length. The locks of the objects are left out: the methods that
-- change an object (`Close`, `FreeAsync`) exclude all others on it.
pub mod Transfer
pub mod Offset
pub mod View
pub mod Bounds
pub mod Windows
pub mod Lifecycle
mod Tests
use gocudrv.Base.{
  ℕ, ◌*◌, ◌/◌, ◌%◌, ◌+◌, ◌≡◌, Bool, true, false, ◌||◌, not, Option, none, some, ◌==◌, ltb,
  if◌then◌else◌, ℤ, pos, leb_ℤ, to_uint,
}
use gocudrv.Driver.Errors.{
  Err, Sentinel, sentinel, nil_context, nil_buffer, nil_stream, buffer_closed, stream_closed,
  length_mismatch, invalid_length, context_mismatch, unsupported_fill_type, Result, ok, err,
}
use gocudrv.Driver.{Driver, Call}
use gocudrv.Driver.Calls.{mem_alloc, mem_free, mem_alloc_async, mem_free_async}
use gocudrv.Context.Exec.{GoContext, background}
use gocudrv.Context.State.{Store, M, ◌>>=◌, ◌>>◌, pure, fail}
use gocudrv.Context.Run.{do_plain, do_waited, do_barrier}
use gocudrv.Dispatch.{run, memset_call, memset_async_call}

-- `Supported`
pub data Elem : Type 0 where
  int8 uint8 int16 uint16 int32 uint32 int64 uint64 float32 float64 : Elem

abbrev pub elem_size : Elem → ℕ
elem_size Elem.int8 = 1
elem_size Elem.uint8 = 1
elem_size Elem.int16 = 2
elem_size Elem.uint16 = 2
elem_size Elem.int32 = 4
elem_size Elem.uint32 = 4
elem_size Elem.float32 = 4
elem_size _ = 8

pub record Buffer : Type 0 where
  pub ctx : ℕ
  pub elem : Elem
  pub ptr : ℕ
  pub length : ℕ
  pub bytes : ℕ
  pub closed : Bool

pub record Stream : Type 0 where
  pub ctx : ℕ
  pub raw : ℕ
  pub closed : Bool

-- A Go slice in host memory, and pinned host memory (`pinnedHostRef`).
pub record Slice : Type 0 where
  pub addr : ℕ
  pub len : ℕ

pub record Pinned : Type 0 where
  pub ctx : ℕ
  pub ptr : ℕ
  pub length : ℕ
  pub closed : Bool

abbrev pub max_uint64 : ℕ
max_uint64 = 18446744073709551615

abbrev pub u64 : ℕ → ℕ
u64 n = n % 18446744073709551616

module _ {W : Type 0} where
  -- An early return with an error, if the test passes.
  abbrev pub reject_if : Bool → Sentinel → M W (Unit {0})
  reject_if true e = fail (sentinel e)
  reject_if false e = pure tt

  -- The object behind a pointer; nil is an error.
  abbrev pub deref : {A : Type 0} → Option A → Sentinel → M W A
  deref none e = fail (sentinel e)
  deref (some a) e = pure a

-- The size in bytes of `n` elements, if `n` is positive and the product fits 64 bits.
abbrev pub bad_length : Elem → ℤ → Bool
bad_length t n = leb_ℤ n (pos 0) || ltb (max_uint64 / elem_size t) (to_uint n)

abbrev pub byte_size : Elem → ℕ → ℕ
byte_size t n = u64 (n * elem_size t)

module _ {W : Type 0} (d : Driver W) where
  -- `Alloc`
  unfoldable pub alloc : Elem → Option ℕ → ℤ → M W Buffer
  alloc t ctx n = do
    c ← deref ctx nil_context
    reject_if (bad_length t n) invalid_length
    p ← do_plain d c background (mem_alloc d (byte_size t (to_uint n)))
    pure (record {
      ctx = c;
      elem = t;
      ptr = p;
      length = to_uint n;
      bytes = byte_size t (to_uint n);
      closed = false;
    })

  -- `AllocAsync`
  unfoldable pub alloc_async : Elem → Option ℕ → Option Stream → ℤ → M W Buffer
  alloc_async t ctx stream n = do
    c ← deref ctx nil_context
    st ← deref stream nil_stream
    reject_if (bad_length t n) invalid_length
    reject_if st.closed stream_closed
    reject_if (not (st.ctx == c)) context_mismatch
    p ← do_waited d c background (mem_alloc_async d (byte_size t (to_uint n)) st.raw)
    pure (record {
      ctx = c;
      elem = t;
      ptr = p;
      length = to_uint n;
      bytes = byte_size t (to_uint n);
      closed = false;
    })

  -- The buffer after a free: closed, unless the free failed.
  abbrev after_free : Buffer → Result (Unit {0}) × Store W → Option Err × Option Buffer × Store W
  after_free b (ok _, s) = (none, some (record b { closed = true }), s)
  after_free b (err e, s) = (some e, some b, s)

  -- `Close`
  unfoldable pub close : Option Buffer → Store W → Option Err × Option Buffer × Store W
  close none s = (some (sentinel nil_buffer), none, s)
  close (some b) s =
      if b.closed
      then (none, some b, s)
      else after_free b (do_barrier d b.ctx background (mem_free d b.ptr) s)

  -- `FreeAsync`
  unfoldable pub free_async :
      Option Buffer → Option Stream → Store W → Option Err × Option Buffer × Store W
  free_async none stream s = (some (sentinel nil_buffer), none, s)
  free_async (some b) none s = (some (sentinel nil_stream), some b, s)
  free_async (some b) (some st) s =
      if st.closed
      then (some (sentinel stream_closed), some b, s)
      else if b.closed
      then (none, some b, s)
      else if st.ctx == b.ctx
      then after_free b (do_barrier d b.ctx background (mem_free_async d b.ptr st.raw) s)
      else (some (sentinel context_mismatch), some b, s)

  -- `CopyFrom`
  unfoldable pub copy_from : GoContext → Option Buffer → Slice → M W (Unit {0})
  copy_from g buffer src = do
    b ← deref buffer nil_buffer
    reject_if b.closed buffer_closed
    reject_if (src.len == 0 || not (src.len == b.length)) length_mismatch
    run d b.ctx g (Call.memcpy_htod b.ptr src.addr b.bytes)

  -- `CopyTo`
  unfoldable pub copy_to : GoContext → Option Buffer → Slice → M W (Unit {0})
  copy_to g buffer dst = do
    b ← deref buffer nil_buffer
    reject_if b.closed buffer_closed
    reject_if (dst.len == 0 || not (dst.len == b.length)) length_mismatch
    run d b.ctx g (Call.memcpy_dtoh dst.addr b.ptr b.bytes)

  -- `CopyFromHost`, with the result of `pinnedHostRefOf`
  unfoldable pub copy_from_host : GoContext → Option Buffer → Option Pinned → M W (Unit {0})
  copy_from_host g buffer src = do
    b ← deref buffer nil_buffer
    host ← deref src nil_buffer
    reject_if b.closed buffer_closed
    reject_if host.closed buffer_closed
    reject_if (not (host.ctx == b.ctx)) context_mismatch
    reject_if (not (host.length == b.length)) length_mismatch
    run d b.ctx g (Call.memcpy_htod b.ptr host.ptr b.bytes)

  -- `CopyToHost`
  unfoldable pub copy_to_host : GoContext → Option Buffer → Option Pinned → M W (Unit {0})
  copy_to_host g buffer dst = do
    b ← deref buffer nil_buffer
    host ← deref dst nil_buffer
    reject_if b.closed buffer_closed
    reject_if host.closed buffer_closed
    reject_if (not (host.ctx == b.ctx)) context_mismatch
    reject_if (not (host.length == b.length)) length_mismatch
    run d b.ctx g (Call.memcpy_dtoh host.ptr b.ptr b.bytes)

  -- `CopyFromHostAsync`
  unfoldable pub copy_from_host_async :
      GoContext → Option Buffer → Option Stream → Option Pinned → M W (Unit {0})
  copy_from_host_async g buffer stream src = do
    b ← deref buffer nil_buffer
    host ← deref src nil_buffer
    st ← deref stream nil_stream
    reject_if st.closed stream_closed
    reject_if b.closed buffer_closed
    reject_if host.closed buffer_closed
    reject_if (not (st.ctx == b.ctx) || not (host.ctx == b.ctx)) context_mismatch
    reject_if (not (host.length == b.length)) length_mismatch
    run d b.ctx g (Call.memcpy_htod_async b.ptr host.ptr b.bytes st.raw)

  -- `CopyToHostAsync`
  unfoldable pub copy_to_host_async :
      GoContext → Option Buffer → Option Stream → Option Pinned → M W (Unit {0})
  copy_to_host_async g buffer stream dst = do
    b ← deref buffer nil_buffer
    host ← deref dst nil_buffer
    st ← deref stream nil_stream
    reject_if st.closed stream_closed
    reject_if b.closed buffer_closed
    reject_if host.closed buffer_closed
    reject_if (not (st.ctx == b.ctx) || not (host.ctx == b.ctx)) context_mismatch
    reject_if (not (host.length == b.length)) length_mismatch
    run d b.ctx g (Call.memcpy_dtoh_async host.ptr b.ptr b.bytes st.raw)
