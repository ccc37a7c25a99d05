-- ===== src/Device/Ordinal.antt =====
-- The devices that `GetDevice` finds.
use gocudrv.Base.{
  ℕ, ◌<◌, ◌≡◌, refl, false, some, arith, ℤ, pos, negsuc, ltb_ℤ, leb_ℤ, Bool-cases, inl, inr,
}
use gocudrv.Driver.Errors.{Result, ok, err}
use gocudrv.Driver.{Driver}
use gocudrv.Driver.Queries.{device_count, get_device}
use gocudrv.Device.{Device, get, get_checked}

module _ {W : Type 0} (d : Driver W) where
  asked :
      (o : ℕ) (x : Device) (w' : W) (r : Result ℕ × W)
      → ◌≡◌ {A = Result Device × W}
          (elim r.0 [
            | ok h ↦ (ok (record { ordinal = pos o; handle = h }), r.1)
            | err e ↦ (err e, r.1)
          ])
          (ok x, w')
      → (x.ordinal ≡ pos o) × (r ≡ (ok x.handle, w'))
  asked o x w' (ok h, v) e = ground arith
  asked o x w' (err z, v) e = absurd cc

  counted :
      (ordinal : ℤ) (x : Device) (t : ℕ) (w' : W) (r : Result ℤ × W)
      → ◌≡◌ {A = Result Device × W}
          (elim r.0 [ ok n ↦ get_checked (some d) d ordinal n t r.1 | err e ↦ (err e, r.1) ])
          (ok x, w')
      → (k : ℕ) × (n : ℕ) × (v : W) × (ordinal ≡ pos k)
        × (k < n)
        × (r ≡ (ok (pos n), v))
        × (x.ordinal ≡ ordinal)
        × (get_device d k t v ≡ (ok x.handle, w'))
  counted (negsuc o) x t w' (ok n, v) e = absurd (ground arith)
  counted (pos o) x t w' (ok (negsuc n), v) e = absurd (ground arith)
  counted (pos o) x t w' (ok (pos n), v) e = elim (Bool-cases (leb_ℤ (pos n) (pos o))) [
    | inl h ↦ absurd (ground arith)
    | inr h ↦
        let low : ltb_ℤ (pos o) (pos 0) ≡ false = ground arith in
        let (same, found) = asked o x w' (get_device d o t v) (rw (low, h) at e) in
        (o, n, v, refl, ground arith, refl, same, found)
  ]
  counted ordinal x t w' (err z, v) e = absurd cc

  -- If `GetDevice` returns a device, the driver counted more devices than the ordinal, which is not negative, and
  -- then gave the handle of the device for it.
  pub get-Counted :
      (ordinal : ℤ) (x : Device) (t : ℕ) (w w' : W)
      → get (some d) ordinal t w ≡ (ok x, w')
      → (k : ℕ) × (n : ℕ) × (v : W) × (ordinal ≡ pos k)
        × (k < n)
        × (device_count d t w ≡ (ok (pos n), v))
        × (x.ordinal ≡ ordinal)
        × (get_device d k t v ≡ (ok x.handle, w'))
  unfolding get
  get-Counted ordinal x t w w' e = counted ordinal x t w' (device_count d t w) e
