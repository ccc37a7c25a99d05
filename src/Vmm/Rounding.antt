-- ===== src/Vmm/Rounding.antt =====
-- The rounding of a size to the granularity of the driver.
use gocudrv.Base.{
  ℕ, ◌*◌, ◌/◌, ◌%◌, ◌+◌, ◌-◌, ◌≤◌, ◌<◌, ◌≡◌, ◌↔◌, ◌∙◌, sym, ap, some, arith, if◌then◌else◌, ◌==◌,
}
use gocudrv.Buffer.{max_uint64}
use gocudrv.Vmm.{round_up}
use native.Mathlib.Nat.{
  mod-lt, div-add-mod, add-mod_right, mul-mod_right, mod-eq-zero_of_dvd, dvd_of_mod-eq-zero,
  dvd-sub, mod-eq_of_lt,
}

abbrev rounded : ℕ → ℕ → ℕ
rounded v m = if v % m == 0 then v else v + (m - v % m)

next_multiple-mod : (v m : ℕ) → 0 < m → (v + (m - v % m)) % m ≡ 0
next_multiple-mod v m h =
    let l : v % m < m = mod-lt v h in
    let e : m * (v / m) + v % m ≡ v = div-add-mod v m in
    let f : v + (m - v % m) ≡ m * (v / m) + m = ground arith in
    ap (λ x. x % m) f ∙ add-mod_right (m * (v / m)) m ∙ mul-mod_right m (v / m)

rounded_lem : (v m : ℕ) → 0 < m → (rounded v m % m ≡ 0) × (v ≤ rounded v m) × (rounded v m < v + m)
rounded_lem v m h =
    let l : v % m < m = mod-lt v h in let e = next_multiple-mod v m h in ground arith

-- Two multiples less than `m` apart are equal.
close_multiples : (a b m : ℕ) → 0 < m → a % m ≡ 0 → b % m ≡ 0 → a ≤ b → b < a + m → a ≡ b
close_multiples a b m h e f l u =
    let z : (b - a) % m ≡ 0 =
      mod-eq-zero_of_dvd m (dvd-sub m (dvd_of_mod-eq-zero m f) (dvd_of_mod-eq-zero m e)) in
    let n : (b - a) % m ≡ b - a = mod-eq_of_lt (ground arith) in ground arith

rounded_unique : (v m r : ℕ) → 0 < m → r % m ≡ 0 → v ≤ r → r < v + m → rounded v m ≡ r
rounded_unique v m r h e l u =
    let (f, p, q) = rounded_lem v m h in
    let up : rounded v m ≤ r → rounded v m ≡ r =
      (λ k. close_multiples (rounded v m) r m h f e k (ground arith)) in
    let down : r ≤ rounded v m → rounded v m ≡ r =
      (λ k. sym (close_multiples r (rounded v m) m h e f k (ground arith))) in
    ground arith

round_up-rounded :
    (v m r : ℕ)
    → 0 < m
    → v ≤ max_uint64
    → (round_up v m ≡ some r) ↔ ((rounded v m ≡ r) × (rounded v m ≤ max_uint64))
unfolding round_up
round_up-rounded v m r h l = let k : v % m < m = mod-lt v h in ground arith

-- For a positive granularity and a 64-bit size, `roundUp` returns `r` exactly when `r` is a multiple
-- of the granularity that fits 64 bits and lies at or above the size by less than one granule; so it
-- reports an overflow exactly when that multiple does not fit.
pub round_up_least :
    (v m r : ℕ)
    → 0 < m
    → v ≤ max_uint64
    → (round_up v m ≡ some r) ↔ ((r % m ≡ 0) × (v ≤ r) × (r < v + m) × (r ≤ max_uint64))
round_up_least v m r h l =
    let e = round_up-rounded v m r h l in
    let (f, p, q) = rounded_lem v m h in
    let u : r % m ≡ 0 → v ≤ r → r < v + m → rounded v m ≡ r = rounded_unique v m r h in ground arith
