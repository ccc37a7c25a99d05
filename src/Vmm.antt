-- ===== src/Vmm.antt =====
-- cuda/vmm.go: device memory from the virtual memory management API. The commands run on the pinned
-- thread of the Context; the error of a step that is rolled back is kept, as in the source.
pub mod Rounding
pub mod Ledger
pub mod Rollback
pub mod Release
pub mod Acquisition
pub mod Teardown
mod Tests
use gocudrv.Base.{
  ℕ, ◌*◌, ◌/◌, ◌%◌, ◌+◌, ◌-◌, Bool, true, false, ◌&&◌, ◌||◌, not, Option, none, some, List, [], ◌∷◌,
  ◌++◌, map, ◌==◌, ltb, if◌then◌else◌, ℤ, pos, leb_ℤ, to_uint,
}
use gocudrv.Driver.Errors.{
  Err, Symbol, sentinel, nil_context, nil_buffer, buffer_closed, length_mismatch, invalid_length,
  symbol_unavailable, Result, ok, err, join,
}
use gocudrv.Driver.{Driver, Call, Cmd, pure, fail, ◌>>=◌, try}
use gocudrv.Driver.Calls.{
  mem_granularity, mem_create, mem_address_reserve, mem_map, mem_set_access, mem_unmap,
  mem_address_free, mem_release,
}
use gocudrv.Context.Exec.{GoContext, background}
use gocudrv.Context.State.{Store, M}
use gocudrv.Context.State
use gocudrv.Context.Run.{do_plain, do_barrier}
use gocudrv.Dispatch.{run}
use gocudrv.Buffer.{Elem, elem_size, Slice, reject_if, deref, max_uint64, byte_size, bad_length}

-- `VirtualBuffer`
pub record VirtualBuffer : Type 0 where
  pub ctx : ℕ
  pub elem : Elem
  pub ptr : ℕ
  pub handle : ℕ
  pub size : ℕ
  pub length : ℕ
  pub bytes : ℕ
  pub closed : Bool
  pub mapped : Bool
  pub reserved : Bool
  pub created : Bool

-- `roundUp`, for a `mult` that is not zero
unfoldable pub round_up : ℕ → ℕ → Option ℕ
round_up v mult =
    if v % mult == 0
    then some v
    else if ltb (max_uint64 - v) (mult - v % mult)
    then none
    else some (v + (mult - v % mult))

module _ {W : Type 0} (d : Driver W) where
  -- `vmmAvailable`
  unfoldable pub vmm_available : Bool
  vmm_available =
      d.bound Symbol.mem_granularity
      && (d.bound Symbol.mem_create
          && (d.bound Symbol.mem_address_reserve
              && (d.bound Symbol.mem_map
                  && (d.bound Symbol.mem_set_access
                      && (d.bound Symbol.mem_unmap
                          && (d.bound Symbol.mem_address_free && d.bound Symbol.mem_release))))))

  -- The failure `e` of a step, joined with the errors of what is undone after it.
  abbrev fail_with : {A : Type 0} → List (Option Err) → Cmd W A
  fail_with es = elim (join es) [ none ↦ fail (sentinel invalid_length) | some e ↦ fail e ]

  -- The rollback after `MemReserve` fails, after `MemMap` fails and after `MemSetAccess` fails; the
  -- last frees the range only if it could be unmapped.
  unfoldable pub undo_create : {A : Type 0} → Err → ℕ → Cmd W A
  undo_create e handle = do
    released ← try (mem_release d handle)
    fail_with (some e ∷ released ∷ [])

  unfoldable pub undo_reserve : {A : Type 0} → Err → ℕ → ℕ → ℕ → Cmd W A
  undo_reserve e handle ptr size = do
    freed ← try (mem_address_free d ptr size)
    released ← try (mem_release d handle)
    fail_with (some e ∷ freed ∷ released ∷ [])

  unfoldable free_unmapped : Option Err → ℕ → ℕ → Cmd W (List (Option Err))
  free_unmapped (some e) ptr size = pure (some e ∷ [])
  free_unmapped none ptr size = do
    freed ← try (mem_address_free d ptr size)
    pure (none ∷ freed ∷ [])

  unfoldable pub undo_map : {A : Type 0} → Err → ℕ → ℕ → ℕ → Cmd W A
  unfolding free_unmapped
  undo_map e handle ptr size = do
    unmapped ← try (mem_unmap d ptr size)
    errors ← free_unmapped unmapped ptr size
    released ← try (mem_release d handle)
    fail_with (some e ∷ (errors ++ (released ∷ [])))

  unfoldable grant : ℕ → ℕ → ℕ → ℕ → Option Err → Cmd W (ℕ × ℕ)
  unfolding undo_map
  grant device size handle ptr none = pure (ptr, handle)
  grant device size handle ptr (some e) = undo_map e handle ptr size

  unfoldable map_range : ℕ → ℕ → ℕ → ℕ → Option Err → Cmd W (ℕ × ℕ)
  unfolding grant undo_reserve
  map_range device size handle ptr none = do
    denied ← try (mem_set_access d ptr size device)
    grant device size handle ptr denied
  map_range device size handle ptr (some e) = undo_reserve e handle ptr size

  -- A command whose result is looked at, whether it failed or not.
  abbrev attempt : {A : Type 0} → Cmd W A → Cmd W (Result A)
  attempt m t w = let (r, w') = m t w in (ok r, w')

  unfoldable reserve_range : ℕ → ℕ → ℕ → Result ℕ → Cmd W (ℕ × ℕ)
  unfolding map_range undo_create
  reserve_range device size handle (ok ptr) = do
    unmapped ← try (mem_map d ptr size handle)
    map_range device size handle ptr unmapped
  reserve_range device size handle (err e) = undo_create e handle

  -- `acquireVirtual`: the pointer and the handle
  unfoldable pub acquire_virtual : ℕ → ℕ → ℕ → Cmd W (ℕ × ℕ)
  unfolding reserve_range
  acquire_virtual device size gran = do
    handle ← mem_create d size device
    reserved ← attempt (mem_address_reserve d size gran)
    reserve_range device size handle reserved

  unfoldable acquire_rounded : ℕ → ℕ → Option ℕ → Cmd W (ℕ × (ℕ × ℕ))
  unfolding acquire_virtual
  acquire_rounded device gran none = fail (sentinel invalid_length)
  acquire_rounded device gran (some size) = do p ← acquire_virtual device size gran; pure (size, p)

  -- The command of `AllocVirtual`: the mapped size with the pointer and the handle.
  unfoldable pub acquire : ℕ → ℕ → Cmd W (ℕ × (ℕ × ℕ))
  unfolding acquire_rounded round_up
  acquire device bytes = do
    gran ← mem_granularity d device 1
    acquire_rounded device gran (if gran == 0 then none else round_up bytes gran)

  abbrev virtual_buffer : ℕ → Elem → ℕ → ℕ × (ℕ × ℕ) → VirtualBuffer
  virtual_buffer c t n (size, (ptr, handle)) = record {
    ctx = c;
    elem = t;
    ptr = ptr;
    handle = handle;
    size = size;
    length = n;
    bytes = byte_size t n;
    closed = false;
    mapped = true;
    reserved = true;
    created = true;
  }

  -- `AllocVirtual`
  unfoldable pub alloc_virtual : Elem → Option ℕ → ℤ → M W VirtualBuffer
  unfolding acquire vmm_available
  alloc_virtual t ctx n = State.◌>>=◌ (deref ctx nil_context) λ c.
      State.◌>>◌ (reject_if (bad_length t n) invalid_length) (
        State.◌>>◌ (reject_if (not vmm_available) symbol_unavailable) λ s.
          State.◌>>=◌
            (do_plain d c background (acquire (s.contexts c).device (byte_size t (to_uint n))))
            (λ r. State.pure (virtual_buffer c t (to_uint n) r)) s)

  -- `tryFree`: whether the resource is still live, and the errors so far
  unfoldable pub try_free : Bool → List Err → Cmd W (Unit {0}) → Cmd W (Bool × List Err)
  try_free false errs op = pure (false, errs)
  try_free true errs op = do
    failed ← try op
    pure (elim failed [ none ↦ (false, errs) | some e ↦ (true, errs ++ (e ∷ [])) ])

  -- The command of `Close`: the live resources that are left, and the errors.
  unfoldable pub tear_down : VirtualBuffer → Cmd W (VirtualBuffer × List Err)
  unfolding try_free
  tear_down b = do
    (m, errs) ← try_free b.mapped [] (mem_unmap d b.ptr b.size)
    (c, errs') ← try_free b.created errs (mem_release d b.handle)
    (r, errs'') ←
        if m
        then pure (b.reserved, errs')
        else try_free b.reserved errs' (mem_address_free d b.ptr b.size)
    pure (record b { mapped = m; created = c; reserved = r }, errs'')

  unfoldable after_tear_down :
      VirtualBuffer
      → Result (VirtualBuffer × List Err) × Store W
      → Option Err × Option VirtualBuffer × Store W
  after_tear_down b (ok (b', []), s) = (none, some (record b' { closed = true }), s)
  after_tear_down b (ok (b', e ∷ es), s) = (join (map some (e ∷ es)), some b', s)
  after_tear_down b (err e, s) = (some e, some b, s)

  -- `Close`
  unfoldable pub close :
      Option VirtualBuffer → Store W → Option Err × Option VirtualBuffer × Store W
  unfolding tear_down after_tear_down join
  close none s = (some (sentinel nil_buffer), none, s)
  close (some b) s =
      if b.closed
      then (none, some b, s)
      else after_tear_down b (do_barrier d b.ctx background (tear_down b) s)

  -- `CopyFrom`
  unfoldable pub copy_from : GoContext → Option VirtualBuffer → Slice → M W (Unit {0})
  copy_from g buffer src = State.◌>>=◌ (deref buffer nil_buffer) λ b.
      State.◌>>◌ (reject_if (b.closed || not b.mapped) buffer_closed) (
        State.◌>>◌ (reject_if (src.len == 0 || not (src.len == b.length)) length_mismatch)
          (run d b.ctx g (Call.memcpy_htod b.ptr src.addr b.bytes)))

  -- `CopyTo`
  unfoldable pub copy_to : GoContext → Option VirtualBuffer → Slice → M W (Unit {0})
  copy_to g buffer dst = State.◌>>=◌ (deref buffer nil_buffer) λ b.
      State.◌>>◌ (reject_if (b.closed || not b.mapped) buffer_closed) (
        State.◌>>◌ (reject_if (dst.len == 0 || not (dst.len == b.length)) length_mismatch)
          (run d b.ctx g (Call.memcpy_dtoh dst.addr b.ptr b.bytes)))
