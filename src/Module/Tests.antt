-- ===== src/Module/Tests.antt =====
-- Runs of the images and names, and the theorems at them.
use gocudrv.Base.{◌≡◌, ◌↔◌, ◌⊎◌, refl, false, some, ℕ, [], ◌∷◌, ◌++◌, Bytes}
use gocudrv.Module.{
  Module, ends_in_null, null_terminated, has_prefix, module_image, trim_null, has_null,
}
use gocudrv.Driver.Errors.{sentinel, length_mismatch, err}
use gocudrv.Driver.{Call}
use gocudrv.Context.Exec.{background}
use gocudrv.Context.Sample.{succeeding, open_store}
use gocudrv.Dispatch.{run}
use gocudrv.Buffer.{Elem, Slice}
use gocudrv.Module.Global.{Global, write_global, read_global}
use gocudrv.Module.Globals.{Fits, globals-Fits}
use gocudrv.Module.Image.{name_reads_back}

abbrev text : Bytes
text = 46 ∷ 118 ∷ []

text_terminated : module_image text ≡ 46 ∷ 118 ∷ 0 ∷ []
unfolding module_image has_prefix null_terminated ends_in_null
text_terminated = refl

name_reads_back_example : (trim_null (text ++ 0 ∷ []) ≡ text) ↔ (has_null text ≡ false)
name_reads_back_example = name_reads_back text

-- A global of 16 bytes, and three 4-byte numbers for it.
abbrev variable : Global
variable = record { owner = some 5; ptr = 4096; bytes = 16; name = text }

abbrev modules : ℕ → Module
modules i = record { ctx = 0; raw = 30; closed = false }

abbrev numbers : Slice
numbers = record { addr = 64; len = 3 }

globals-Fits_example :
    (Fits Elem.int32 variable numbers
      × (write_global succeeding modules background Elem.int32 (some variable) numbers open_store
          ≡ run succeeding 0 background (Call.memcpy_htod 4096 64 12) open_store)
      × (read_global succeeding modules background Elem.int32 numbers (some variable) open_store
          ≡ run succeeding 0 background (Call.memcpy_dtoh 64 4096 12) open_store))
    ⊎ ((¬ Fits Elem.int32 variable numbers)
        × (write_global succeeding modules background Elem.int32 (some variable) numbers open_store
            ≡ (err (sentinel length_mismatch), open_store))
        × (read_global succeeding modules background Elem.int32 numbers (some variable) open_store
            ≡ (err (sentinel length_mismatch), open_store)))
globals-Fits_example =
    globals-Fits succeeding modules background Elem.int32 variable 5 numbers open_store refl refl
