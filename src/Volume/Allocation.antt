-- ===== src/Volume/Allocation.antt =====
-- The size of a new volume.
use gocudrv.Base.{
  ℕ, ◌*◌, ◌/◌, ◌≤◌, ◌<◌, ◌≡◌, refl, sym, ap, ◌∙◌, false, ◌||◌, some, arith, ℤ, pos, negsuc, leb_ℤ,
  to_uint, ltb, if◌then◌else◌, ◌==◌, inl, inr,
}
use gocudrv.Driver.Errors.{Result, Result, ok}
use gocudrv.Driver.{Driver}
use gocudrv.Driver.Memory.{mem_alloc_pitch}
use gocudrv.Context.Exec.{background}
use gocudrv.Context.State.{Store}
use gocudrv.Context.Run.{do_plain}
use gocudrv.Buffer.{Elem, elem_size, max_uint64, u64}
use gocudrv.Pitched.{max_int}
use gocudrv.Volume.{Volume, too_many, elements, overflows, make_volume, alloc_volume}
use gocudrv.Volume.Bounds.{too_many_lem}
use native.Mathlib.Nat.{le-div_iff_mul-le, mul-le-mul_right, mul_assoc, mul-pos}

-- The numbers of a volume of the given dimensions: all positive, as many elements as an `int` counts, and a
-- row, the rows and the packed bytes without wrap in 64 bits.
abbrev pub Sized : ℤ → ℤ → ℤ → Volume → Type 0
Sized width height depth v =
    (width ≡ pos v.width)
    × (height ≡ pos v.height)
    × (depth ≡ pos v.depth)
    × (0 < v.width)
    × (0 < v.height)
    × (0 < v.depth)
    × (elements v ≤ max_int)
    × (v.width * elem_size v.elem * (v.height * v.depth) < 18446744073709551616)

elem_size_pos : (t : Elem) → (0 < elem_size t) × (elem_size t ≤ 8)
elem_size_pos t = ground arith

positive : (n : ℤ) → leb_ℤ n (pos 0) ≡ false → (n ≡ pos (to_uint n)) × (0 < to_uint n)
positive (pos n) e = ground arith
positive (negsuc n) e = ground arith

not_less : {a b : ℕ} → ltb a b ≡ false → b ≤ a
not_less e = ground arith

rows_fit : (w h d : ℕ) → 0 < w → h * d ≤ w * (h * d)
rows_fit w h d e =
    let p : 1 * (h * d) ≤ w * (h * d) = mul-le-mul_right (h * d) e in omega (arith, p)

-- The two checks of the bytes, of a row and of the rows.
bytes_fit :
    (t : Elem) (w h d : ℕ)
    → 0 < w
    → 0 < h
    → 0 < d
    → ltb (max_uint64 / elem_size t) w ≡ false
    → w * h * d ≤ max_int
    → overflows t w h d ≡ false
    → (u64 (w * elem_size t) ≡ w * elem_size t)
      × (u64 (h * d) ≡ h * d)
      × (w * elem_size t * (h * d) < 18446744073709551616)
bytes_fit t w h d a b c e m o =
    let (p, q) = le-div_iff_mul-le {k = elem_size t} {x = w} {y = max_uint64} (elem_size_pos t).0 in
    let row : w * elem_size t ≤ max_uint64 = p (omega (arith, not_less e)) in
    let rows : h * d ≤ max_int = omega (arith, rows_fit w h d a, mul_assoc w h d, m) in
    let same : u64 (w * elem_size t) ≡ w * elem_size t = omega (arith, row) in
    let same_rows : u64 (h * d) ≡ h * d = omega (arith, rows) in
    let (p2, q2) =
      le-div_iff_mul-le {k = h * d} {x = w * elem_size t} {y = max_uint64} (mul-pos b c) in
    let l : w * elem_size t ≤ max_uint64 / (h * d) = ground arith in
    (same, same_rows, omega (arith, p2 l))

-- The checks of `AllocVolume` on its dimensions.
accepted :
    (t : Elem) (width height depth : ℤ)
    → (leb_ℤ width (pos 0) || leb_ℤ height (pos 0) || leb_ℤ depth (pos 0)) ≡ false
    → ltb (max_uint64 / elem_size t) (to_uint width) ≡ false
    → too_many (to_uint width) (to_uint height) (to_uint depth) ≡ false
    → overflows t (to_uint width) (to_uint height) (to_uint depth) ≡ false
    → (width ≡ pos (to_uint width))
      × (height ≡ pos (to_uint height))
      × (depth ≡ pos (to_uint depth))
      × (0 < to_uint width)
      × (0 < to_uint height)
      × (0 < to_uint depth)
      × (to_uint width * to_uint height * to_uint depth ≤ max_int)
      × (to_uint width * elem_size t * (to_uint height * to_uint depth) < 18446744073709551616)
      × (u64 (to_uint width * elem_size t) ≡ to_uint width * elem_size t)
      × (u64 (to_uint height * to_uint depth) ≡ to_uint height * to_uint depth)
accepted t width height depth e f m o =
    let (w, a) = positive width (ground arith) in
    let (h, b) = positive height (ground arith) in
    let (k, c) = positive depth (ground arith) in
    let few : to_uint width * to_uint height * to_uint depth ≤ max_int =
      elim (too_many_lem (to_uint width) (to_uint height) (to_uint depth) b c) [
        | inl (x, _) ↦ absurd cc
        | inr (_, l) ↦ l
      ] in
    let (row, rows, bytes) =
      bytes_fit t (to_uint width) (to_uint height) (to_uint depth) a b c f few o in
    (w, h, k, a, b, c, few, bytes, row, rows)

module _ {W : Type 0} (d : Driver W) where
  make_volume_lem :
      (t : Elem) (c width height depth : ℕ) (v : Volume) (s s' : Store W)
      → make_volume d t c width height depth s ≡ (ok v, s')
      → (v.width ≡ width)
        × (v.height ≡ height)
        × (v.depth ≡ depth)
        × (v.elem ≡ t)
        × (v.closed ≡ false)
        × (do_plain d c background
              (mem_alloc_pitch d
                (u64 (width * elem_size t))
                (u64 (height * depth))
                (if elem_size t == 8 then 8 else 4))
              s
            ≡ (ok (v.ptr, v.pitch), s'))
  unfolding make_volume
  make_volume_lem t c width height depth v s s' e = ground arith

  alloc_volume_made :
      (t : Elem) (c : ℕ) (width height depth : ℤ) (v : Volume) (s s' : Store W)
      → alloc_volume d t (some c) width height depth s ≡ (ok v, s')
      → ((leb_ℤ width (pos 0) || leb_ℤ height (pos 0) || leb_ℤ depth (pos 0)) ≡ false)
        × (ltb (max_uint64 / elem_size t) (to_uint width) ≡ false)
        × (too_many (to_uint width) (to_uint height) (to_uint depth) ≡ false)
        × (overflows t (to_uint width) (to_uint height) (to_uint depth) ≡ false)
        × (make_volume d t c (to_uint width) (to_uint height) (to_uint depth) s ≡ (ok v, s'))
  unfolding alloc_volume
  alloc_volume_made t c width height depth v s s' e = ground arith

  same_asked :
      (c w w' r r' e : ℕ) (s : Store W) (x : Result (ℕ × ℕ) × Store W)
      → w ≡ w'
      → r ≡ r'
      → do_plain d c background (mem_alloc_pitch d w r e) s ≡ x
      → do_plain d c background (mem_alloc_pitch d w' r' e) s ≡ x
  same_asked c w w' r r' e s x f g h =
      sym (
        ap (λ z. do_plain d c background (mem_alloc_pitch d z r e) s) f
        ∙ ap (λ z. do_plain d c background (mem_alloc_pitch d w' z e) s) g)
      ∙ h

  -- A volume that `AllocVolume` returns has the asked dimensions, all positive, and no more elements than an `int`
  -- counts; the driver was asked, with arguments that did not wrap, for `height * depth` rows of exactly the bytes
  -- of a row, which together stay below 2^64.
  pub alloc_volume-Sized :
      (t : Elem) (c : ℕ) (width height depth : ℤ) (v : Volume) (s s' : Store W)
      → alloc_volume d t (some c) width height depth s ≡ (ok v, s')
      → Sized width height depth v
        × (v.elem ≡ t)
        × (v.closed ≡ false)
        × (do_plain d c background
              (mem_alloc_pitch d
                (v.width * elem_size t)
                (v.height * v.depth)
                (if elem_size t == 8 then 8 else 4))
              s
            ≡ (ok (v.ptr, v.pitch), s'))
  alloc_volume-Sized t c width height depth v s s' e =
      let (g1, g2, g3, g4, made) = alloc_volume_made t c width height depth v s s' e in
      let (w, h, k, el, cl, asked) =
        make_volume_lem t c (to_uint width) (to_uint height) (to_uint depth) v s s' made in
      let f = accepted t width height depth g1 g2 g3 g4 in
      (
        rw (w, h, k, el) (f.0, f.1, f.2, f.3, f.4, f.5, f.6, f.7),
        el,
        cl,
        same_asked c _ _ _ _ _ s _ (f.8 ∙ ap (λ x. x * elem_size t) (sym w)) (f.9 ∙ rw (h, k) refl)
            asked,
      )
