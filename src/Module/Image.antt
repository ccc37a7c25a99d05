-- ===== src/Module/Image.antt =====
-- The images and names that a module gives to the driver, which reads them up to the first null byte.
use gocudrv.Base.{
  ◌≡◌, ◌↔◌, ◌⊎◌, ◌∙◌, refl, sym, Bool, true, false, ◌||◌, Bool-cases, inl, inr, [], ◌∷◌, ◌++◌,
  arith, Bytes,
}
use gocudrv.Module.{
  ends_in_null, null_terminated, has_prefix, cubin_magic, fatbin_magic, module_image, trim_null,
  has_null,
}

trim_null-append : (xs : Bytes) → trim_null (xs ++ 0 ∷ []) ≡ trim_null xs
unfolding trim_null
trim_null-append [] = refl
trim_null-append (x ∷ xs) = let e = trim_null-append xs in cc

ends_in_null-append : (xs : Bytes) → ends_in_null (xs ++ 0 ∷ []) ≡ true
unfolding ends_in_null
ends_in_null-append [] = refl
ends_in_null-append (x ∷ []) = refl
ends_in_null-append (x ∷ y ∷ rest) = ends_in_null-append (y ∷ rest)

abbrev pub is_binary : Bytes → Bool
is_binary image = has_prefix image cubin_magic || has_prefix image fatbin_magic

null_terminated_lem :
    (xs : Bytes)
    → (ends_in_null (null_terminated xs) ≡ true) × (trim_null (null_terminated xs) ≡ trim_null xs)
unfolding null_terminated
null_terminated_lem xs = elim (Bool-cases (ends_in_null xs)) [
  | inl e ↦ rw e (e, refl)
  | inr e ↦ rw e (ends_in_null-append xs, trim_null-append xs)
]

-- A binary image, which starts with the magic number of a cubin or of a fatbin, is loaded as it is. Any
-- other image ends in a null byte when it is loaded, and its text up to the first null byte is the
-- text that was given.
module_image_lem :
    (image : Bytes)
    → ((is_binary image ≡ true) × (module_image image ≡ image))
      ⊎ ((is_binary image ≡ false)
          × (ends_in_null (module_image image) ≡ true)
          × (trim_null (module_image image) ≡ trim_null image))
unfolding module_image
module_image_lem image = elim (Bool-cases (is_binary image)) [
  | inl e ↦ rw e (inl (refl, refl))
  | inr e ↦ rw e (inr (refl, (null_terminated_lem image).0, (null_terminated_lem image).1))
]

trimmed_name : (name : Bytes) → has_null name ≡ false → trim_null name ≡ name
unfolding trim_null has_null
trimmed_name [] e = refl
trimmed_name (x ∷ xs) e = let f = trimmed_name xs in ground arith

whole_name : (name : Bytes) → trim_null name ≡ name → has_null name ≡ false
unfolding trim_null has_null
whole_name [] e = refl
whole_name (x ∷ xs) e = let f = whole_name xs in ground arith

-- The names that `Function` accepts are exactly those that come back when a reader takes the name that it
-- passes on, with its null byte, up to the first null byte.
pub name_reads_back : (name : Bytes) → (trim_null (name ++ 0 ∷ []) ≡ name) ↔ (has_null name ≡ false)
name_reads_back name = (
  (λ e. whole_name name (sym (trim_null-append name) ∙ e)),
  λ e. trim_null-append name ∙ trimmed_name name e,
)
