-- ===== src/Peer.antt =====
-- cuda/peer.go: access between Contexts, and copies from a buffer of one to a buffer of another. The call of a
-- device is in Device.
use gocudrv.Base.{ℕ, not, Option, ◌==◌}
use gocudrv.Driver.Errors.{nil_context, context_closed, nil_buffer, buffer_closed, length_mismatch}
use gocudrv.Driver.{Driver}
use gocudrv.Driver.Queries.{
  ctx_enable_peer_access, ctx_disable_peer_access, memcpy_peer, pointer_get_attribute,
}
use gocudrv.Context.Exec.{GoContext, background}
use gocudrv.Context.State.{M, ◌>>=◌, ◌>>◌}
use gocudrv.Context.Run.{do_plain, do_copy}
use gocudrv.Buffer.{Buffer, reject_if, deref}

-- `CU_POINTER_ATTRIBUTE_MEMORY_TYPE`
abbrev pointer_attribute_memory_type : ℕ
pointer_attribute_memory_type = 2

module _ {W : Type 0} (d : Driver W) where
  -- `EnablePeerAccess`
  unfoldable pub enable_peer_access : Option ℕ → Option ℕ → M W (Unit {0})
  enable_peer_access ctx peer s =
      (do
        c ← deref ctx nil_context
        p ← deref peer nil_context
        reject_if (s.contexts p).closed context_closed
        do_plain d c background (ctx_enable_peer_access d (s.contexts p).raw))
        s

  -- `DisablePeerAccess`
  unfoldable pub disable_peer_access : Option ℕ → Option ℕ → M W (Unit {0})
  disable_peer_access ctx peer s =
      (do
        c ← deref ctx nil_context
        p ← deref peer nil_context
        reject_if (s.contexts p).closed context_closed
        do_plain d c background (ctx_disable_peer_access d (s.contexts p).raw))
        s

  -- `PointerMemoryType`
  unfoldable pub pointer_memory_type : Option ℕ → ℕ → M W ℕ
  pointer_memory_type ctx ptr = do
    c ← deref ctx nil_context
    do_plain d c background (pointer_get_attribute d pointer_attribute_memory_type ptr)

  -- `CopyToPeer`; the destination may be the source itself.
  unfoldable pub copy_to_peer : GoContext → Option Buffer → Option Buffer → M W (Unit {0})
  copy_to_peer g src dst s =
      (do
        a ← deref src nil_buffer
        b ← deref dst nil_buffer
        reject_if a.closed buffer_closed
        reject_if b.closed buffer_closed
        reject_if (not (b.length == a.length)) length_mismatch
        do_copy d a.ctx g
            (memcpy_peer d b.ptr (s.contexts b.ctx).raw a.ptr (s.contexts a.ctx).raw a.bytes))
        s
