-- ===== src/Module.antt =====
-- cuda/module.go: modules and their functions. A module is known by a number, since its functions refer to
-- it and it may be closed behind their back. Reading a module from a file is left out, and so are the
-- options of `LoadModuleEx`.
pub mod Image
pub mod Jit
pub mod Global
pub mod Globals
mod Tests
use gocudrv.Base.{
  ℕ, Bool, true, false, ◌||◌, Option, none, some, List, [], ◌∷◌, ◌++◌, ◌==◌, if◌then◌else◌, Bytes,
}
use gocudrv.Driver.Errors.{
  Err, sentinel, nil_context, nil_module, module_closed, empty_image, empty_function_name,
  invalid_function_name,
}
use gocudrv.Driver.{Driver}
use gocudrv.Driver.Work.{module_load_data, module_unload, module_get_function}
use gocudrv.Context.Exec.{background}
use gocudrv.Context.State.{Store, M, ◌>>=◌, ◌>>◌, pure}
use gocudrv.Context.Run.{do_waited}
use gocudrv.Buffer.{reject_if, deref}
use gocudrv.Closing.{close_once}

-- `Module` and `Function`
pub record Module : Type 0 where
  pub ctx : ℕ
  pub raw : ℕ
  pub closed : Bool

pub record Function : Type 0 where
  pub owner : Option ℕ
  pub raw : ℕ
  pub name : Bytes

abbrev pub is_empty : Bytes → Bool
is_empty [] = true
is_empty (_ ∷ _) = false

-- Whether the last byte is zero.
unfoldable pub ends_in_null : Bytes → Bool
ends_in_null [] = false
ends_in_null (x ∷ []) = x == 0
ends_in_null (x ∷ y ∷ rest) = ends_in_null (y ∷ rest)

-- `nullTerminated`
unfoldable pub null_terminated : Bytes → Bytes
unfolding ends_in_null
null_terminated image = if ends_in_null image then image else image ++ 0 ∷ []

-- `bytes.HasPrefix`
unfoldable pub has_prefix : Bytes → Bytes → Bool
has_prefix s [] = true
has_prefix [] (p ∷ ps) = false
has_prefix (x ∷ xs) (p ∷ ps) = let r = has_prefix xs ps in if x == p then r else false

abbrev pub cubin_magic : Bytes
cubin_magic = 127 ∷ 69 ∷ 76 ∷ 70 ∷ []

abbrev pub fatbin_magic : Bytes
fatbin_magic = 80 ∷ 237 ∷ 85 ∷ 186 ∷ []

-- `moduleImage`
unfoldable pub module_image : Bytes → Bytes
unfolding has_prefix null_terminated
module_image image =
    if has_prefix image cubin_magic || has_prefix image fatbin_magic
    then image
    else null_terminated image

-- `trimNull`
unfoldable pub trim_null : Bytes → Bytes
trim_null [] = []
trim_null (x ∷ xs) = let r = trim_null xs in if x == 0 then [] else x ∷ r

-- Whether a name contains a null byte.
unfoldable pub has_null : Bytes → Bool
has_null [] = false
has_null (x ∷ xs) = let r = has_null xs in if x == 0 then true else r

module _ {W : Type 0} (d : Driver W) where
  -- `LoadModule`
  unfoldable pub load_module : Option ℕ → Bytes → M W Module
  unfolding module_image
  load_module ctx image = do
    c ← deref ctx nil_context
    reject_if (is_empty image) empty_image
    raw ← do_waited d c background (module_load_data d (module_image image))
    pure (record { ctx = c; raw = raw; closed = false })

  -- `Function`
  unfoldable pub function : (ℕ → Module) → Option ℕ → Bytes → M W Function
  unfolding has_null
  function modules m name = do
    i ← deref m nil_module
    reject_if (is_empty name) empty_function_name
    reject_if (has_null name) invalid_function_name
    reject_if (modules i).closed module_closed
    raw ←
        do_waited d (modules i).ctx background
          (module_get_function d (modules i).raw (name ++ 0 ∷ []))
    pure (record { owner = some i; raw = raw; name = name })

  -- `Close`
  unfoldable pub close : Option Module → Store W → Option Err × Option Module × Store W
  unfolding close_once
  close none s = (some (sentinel nil_module), none, s)
  close (some m) s =
      let (e, now, s') = close_once d m.closed m.ctx (module_unload d m.raw) s in
      (e, some (record m { closed = now }), s')
