-- ===== src/Buffer/View.antt =====
-- cuda/view.go: windows into a buffer. A view refers to its owner, which may be closed later, so the
-- methods take the buffers as they are when they run, by their numbers.
use gocudrv.Base.{ℕ, ◌+◌, ◌||◌, not, Option, none, some, ◌==◌, ℤ, pos, leb_ℤ, ltb_ℤ, to_uint}
use gocudrv.Driver.Errors.{nil_buffer, buffer_closed, invalid_length, out_of_range, length_mismatch}
use gocudrv.Driver.{Driver}
use gocudrv.Context.Exec.{GoContext}
use gocudrv.Context.State.{M, ◌>>=◌, ◌>>◌, pure}
use gocudrv.Buffer.{Buffer, Slice, reject_if, deref}
use gocudrv.Buffer.Offset.{offset_ptr, past_end, copy_from_at, copy_to_at}

-- `View`
pub record View : Type 0 where
  pub owner : Option ℕ
  pub offset : ℕ
  pub length : ℕ

module _ (buffers : ℕ → Buffer) where
  -- `Len`, `Bytes` and `DevicePtr`
  unfoldable pub view_len : Option View → ℕ
  view_len none = 0
  view_len (some v) = v.length

  unfoldable pub view_device_ptr : Option View → ℕ
  view_device_ptr none = 0
  view_device_ptr (some v) = elim v.owner [ none ↦ 0 | some b ↦ offset_ptr (buffers b) v.offset ]

  module _ {W : Type 0} where
    -- `(*Buffer).View`
    unfoldable pub view : Option ℕ → ℤ → ℤ → M W View
    view buffer off n = do
      b ← deref buffer nil_buffer
      reject_if (buffers b).closed buffer_closed
      reject_if (ltb_ℤ off (pos 0) || leb_ℤ n (pos 0)) invalid_length
      reject_if (past_end (to_uint off) (to_uint n) (buffers b).length) out_of_range
      pure (record { owner = some b; offset = to_uint off; length = to_uint n })

    -- `(*View).View`
    unfoldable pub sub_view : Option View → ℤ → ℤ → M W View
    sub_view window off n = do
      v ← deref window nil_buffer
      b ← deref v.owner nil_buffer
      reject_if (buffers b).closed buffer_closed
      reject_if (ltb_ℤ off (pos 0) || leb_ℤ n (pos 0)) invalid_length
      reject_if (past_end (to_uint off) (to_uint n) v.length) out_of_range
      pure (record { owner = some b; offset = v.offset + to_uint off; length = to_uint n })

  module _ {W : Type 0} (d : Driver W) where
    -- `(*View).CopyFrom`
    unfoldable pub view_copy_from : GoContext → Option View → Slice → M W (Unit {0})
    unfolding copy_from_at
    view_copy_from g window src = do
      v ← deref window nil_buffer
      b ← deref v.owner nil_buffer
      reject_if (not (src.len == v.length)) length_mismatch
      copy_from_at d g (some (buffers b)) (pos v.offset) src

    -- `(*View).CopyTo`
    unfoldable pub view_copy_to : GoContext → Option View → Slice → M W (Unit {0})
    unfolding copy_to_at
    view_copy_to g window dst = do
      v ← deref window nil_buffer
      b ← deref v.owner nil_buffer
      reject_if (not (dst.len == v.length)) length_mismatch
      copy_to_at d g (some (buffers b)) dst (pos v.offset)
