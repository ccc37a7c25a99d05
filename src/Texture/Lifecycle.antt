-- ===== src/Texture/Lifecycle.antt =====
-- Arrays, textures and surfaces, from their creation to their close.
use gocudrv.Base.{◌≡◌, refl, true, false, ◌&&◌, not, Option, none, some, arith}
use gocudrv.Driver.Errors.{Err, sentinel, array_closed, err}
use gocudrv.Driver.{Driver}
use gocudrv.Driver.Objects.{array_destroy}
use gocudrv.Context.Exec.{GoContext}
use gocudrv.Context.State.{Store}
use gocudrv.Buffer.{Slice}
use gocudrv.Texture.{
  Array2d, TextureConfig, copy_from, copy_to, new_texture, new_surface, close_array,
}
use gocudrv.Closing.{close_once, close_once_lem, is_nil}

module _ {W : Type 0} (d : Driver W) where
  -- `Close` of an array closes it exactly if it returns nil, and only an open array fails to close. On a closed array
  -- copies, `NewTexture` and `NewSurface` return `ErrArrayClosed`, and another `Close` returns nil, all
  -- without a change of the store.
  pub array-close_refuses :
      (a a' : Array2d) (x : Option Err) (g : GoContext) (sl : Slice) (cfg : TextureConfig)
      (s s' : Store W)
      → close_array d (some a) s ≡ (x, some a', s')
      → (a' ≡ record a { closed = is_nil x })
        × ((a.closed && not (is_nil x)) ≡ false)
        × (copy_from d g (some (record a { closed = true })) sl s'
            ≡ (err (sentinel array_closed), s'))
        × (copy_to d g (some (record a { closed = true })) sl s'
            ≡ (err (sentinel array_closed), s'))
        × (new_texture d (some (record a { closed = true })) cfg s'
            ≡ (err (sentinel array_closed), s'))
        × (new_surface d (some (record a { closed = true })) s' ≡ (err (sentinel array_closed), s'))
        × (close_array d (some (record a { closed = true })) s'
            ≡ (none, some (record a { closed = true }), s'))
  unfolding close_array copy_from copy_to new_texture new_surface
  array-close_refuses a a' x g sl cfg s s' p =
      let (u, v) = close_once_lem d a.closed a.ctx (array_destroy d a.handle) s in
      (ground arith, ground arith, refl, refl, refl, refl, unfold close_once in refl)
