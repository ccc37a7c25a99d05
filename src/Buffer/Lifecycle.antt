-- ===== src/Buffer/Lifecycle.antt =====
-- A buffer from its allocation to its close.
use gocudrv.Base.{
  ℕ, ◌*◌, ◌/◌, ◌<◌, ◌≤◌, ◌≡◌, true, false, Option, none, some, arith, ℤ, pos, negsuc, to_uint,
}
use gocudrv.Driver.Errors.{Err, ok, err, sentinel, buffer_closed}
use gocudrv.Driver.{Driver}
use gocudrv.Context.Exec.{GoContext}
use gocudrv.Context.State.{Store}
use gocudrv.Buffer.{
  Elem, elem_size, Buffer, Slice, bad_length, byte_size, alloc, close, copy_from, copy_to,
  max_uint64,
}
use gocudrv.Buffer.Transfer.{zero}
use gocudrv.Buffer.Offset.{copy_from_at, copy_to_at}
use native.Mathlib.Nat.{le-div_iff_mul-le}

elem_size_pos : (t : Elem) → 0 < elem_size t
elem_size_pos t = ground arith

-- A count that is accepted is positive, and its size in bytes fits 64 bits.
pub size_fits :
    (t : Elem) (n : ℤ)
    → bad_length t n ≡ false
    → (n ≡ pos (to_uint n)) × (0 < to_uint n) × (byte_size t (to_uint n) ≡ to_uint n * elem_size t)
size_fits t (negsuc n) e = ground arith
size_fits t (pos n) e =
    let p : 0 < elem_size t = elem_size_pos t in
    let (q, r) = le-div_iff_mul-le {k = elem_size t} {x = n} {y = max_uint64} p in
    let l : n ≤ max_uint64 / elem_size t = ground arith in
    let m : n * elem_size t ≤ max_uint64 = q l in ground arith

module _ {W : Type 0} (d : Driver W) where
  -- A buffer that `Alloc` returns holds the asked number of elements, which is positive, is open, and
  -- its size in bytes is that number times the element size, without wrap.
  alloc_size :
      (t : Elem) (c : Option ℕ) (n : ℤ) (b : Buffer) (s s' : Store W)
      → alloc d t c n s ≡ (ok b, s')
      → (n ≡ pos b.length)
        × (0 < b.length)
        × (b.bytes ≡ b.length * elem_size t)
        × (b.elem ≡ t)
        × (b.closed ≡ false)
        × (c ≡ some b.ctx)
  unfolding alloc
  alloc_size t none n b s s' e = ground arith
  alloc_size t (some c) n b s s' e = let f = size_fits t n in ground arith

  -- If `Close` of a buffer returns nil, the buffer is closed: another `Close` returns nil, and copies,
  -- memsets and partial copies return `ErrBufferClosed`, all without a change of the store.
  close_refuses :
      (b b' : Buffer) (g : GoContext) (x : Slice) (off : ℤ) (s s' : Store W)
      → close d (some b) s ≡ (none, some b', s')
      → (b'.closed ≡ true)
        × (close d (some b') s' ≡ (none, some b', s'))
        × (copy_from d g (some b') x s' ≡ (err (sentinel buffer_closed), s'))
        × (copy_to d g (some b') x s' ≡ (err (sentinel buffer_closed), s'))
        × (zero d g (some b') s' ≡ (err (sentinel buffer_closed), s'))
        × (copy_from_at d g (some b') off x s' ≡ (err (sentinel buffer_closed), s'))
        × (copy_to_at d g (some b') x off s' ≡ (err (sentinel buffer_closed), s'))
  unfolding close copy_from copy_to zero copy_from_at copy_to_at
  close_refuses b b' g x off s s' e =
      let c : b'.closed ≡ true = ground arith in
      (c, ground arith, ground arith, ground arith, ground arith, ground arith, ground arith)

  -- If `Close` of a buffer returns an error, the buffer is as it was, so that `Close` can be called again.
  close_retryable :
      (b : Buffer) (o : Option Buffer) (x : Err) (s s' : Store W)
      → close d (some b) s ≡ (some x, o, s')
      → (o ≡ some b) × (b.closed ≡ false)
  unfolding close
  close_retryable b o x s s' e = ground arith
