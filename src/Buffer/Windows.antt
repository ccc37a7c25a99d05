-- ===== src/Buffer/Windows.antt =====
-- Views of views.
use gocudrv.Base.{ℕ, ◌+◌, ◌≤◌, ◌<◌, ◌≡◌, true, some, arith, if◌then◌else◌, ◌==◌, ℤ, pos, negsuc}
use gocudrv.Driver.Errors.{ok, err, sentinel, buffer_closed, length_mismatch}
use gocudrv.Driver.{Driver}
use gocudrv.Context.Exec.{GoContext}
use gocudrv.Context.State.{Store}
use gocudrv.Buffer.{Buffer, Slice}
use gocudrv.Buffer.Offset.{copy_from_at, copy_to_at}
use gocudrv.Buffer.View.{View, view, sub_view, view_copy_from, view_copy_to}

-- A window that lies in its owner and is not empty.
abbrev pub Within : (ℕ → Buffer) → ℕ → View → Type 0
Within buffers b v =
    (v.owner ≡ some b) × (0 < v.length) × (v.offset + v.length ≤ (buffers b).length)

module _ {W : Type 0} (buffers : ℕ → Buffer) (b : ℕ) where
  -- What `(*Buffer).View` returns is a window of the asked length at the asked place, not empty and
  -- inside its owner, and the store is unchanged.
  view-Within :
      (off n : ℤ) (v : View) (s s' : Store W)
      → view buffers (some b) off n s ≡ (ok v, s')
      → Within buffers b v × (off ≡ pos v.offset) × (n ≡ pos v.length) × (s' ≡ s)
  unfolding view
  view-Within (pos off) (pos n) v s s' e = ground arith
  view-Within (negsuc off) (pos n) v s s' e = ground arith
  view-Within (pos off) (negsuc n) v s s' e = ground arith
  view-Within (negsuc off) (negsuc n) v s s' e = ground arith

  -- A view of `n` elements at `off` of a window `v` inside an owner is the view of the owner at
  -- the sum of the offsets, as long as it stays inside the window.
  sub_view-view :
      (v : View) (off n : ℕ) (s : Store W)
      → Within buffers b v
      → off + n ≤ v.length
      → sub_view buffers (some v) (pos off) (pos n) s
        ≡ view buffers (some b) (pos (v.offset + off)) (pos n) s
  unfolding view sub_view
  sub_view-view v off n s w l = ground arith

  -- `(*View).View` on a window inside an owner returns only windows that are not
  -- empty and lie inside that window and inside the owner, and it leaves the store unchanged.
  pub sub_view-Within :
      (v u : View) (off n : ℤ) (s s' : Store W)
      → Within buffers b v
      → sub_view buffers (some v) off n s ≡ (ok u, s')
      → Within buffers b u
        × (v.offset ≤ u.offset)
        × (u.offset + u.length ≤ v.offset + v.length)
        × (s' ≡ s)
  unfolding sub_view
  sub_view-Within v u (pos off) (pos n) s s' w e = ground arith
  sub_view-Within v u (negsuc off) (pos n) s s' w e = ground arith
  sub_view-Within v u (pos off) (negsuc n) s s' w e = ground arith
  sub_view-Within v u (negsuc off) (negsuc n) s s' w e = ground arith

  -- Once the owner is closed, a copy through a window of it is refused with the store unchanged:
  -- with `ErrLengthMismatch` for a slice of another length, and with `ErrBufferClosed` otherwise.
  view_copy_closed :
      (d : Driver W) (g : GoContext) (v : View) (x : Slice) (s : Store W)
      → Within buffers b v
      → (buffers b).closed ≡ true
      → (view_copy_from buffers d g (some v) x s
          ≡ (err (sentinel (if x.len == v.length then buffer_closed else length_mismatch)), s))
        × (view_copy_to buffers d g (some v) x s
            ≡ (err (sentinel (if x.len == v.length then buffer_closed else length_mismatch)), s))
  unfolding view_copy_from view_copy_to copy_from_at copy_to_at
  view_copy_closed d g v x s w c = (ground arith, ground arith)
