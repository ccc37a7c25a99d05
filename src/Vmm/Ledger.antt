-- ===== src/Vmm/Ledger.antt =====
-- Which resources the virtual buffers hold in the driver, counted for one handle and one range of addresses.
use gocudrv.Base.{ℕ, ◌+◌, ◌-◌, ◌≡◌, refl, Bool, true, false, ◌&&◌, arith, ◌==◌, if◌then◌else◌}
use gocudrv.Driver.Errors.{Result, ok, err, check}
use gocudrv.Driver.{Driver, Call, Reply}
use gocudrv.Driver.Calls.{
  invoke, mem_create, mem_address_reserve, mem_map, mem_set_access, mem_unmap, mem_address_free,
  mem_release,
}

-- A handle and a range of addresses, on which an eye is kept: whichever they are, the driver's calls on them
-- are counted.
pub record Watch : Type 0 where
  pub handle : ℕ
  pub address : ℕ
  pub size : ℕ

-- The physical allocations with the handle, the reservations of the range and its mappings that exist.
pub record Tally : Type 0 where
  pub allocations : ℕ
  pub reservations : ℕ
  pub mappings : ℕ

unfoldable pub one_if : Bool → ℕ
one_if true = 1
one_if false = 0

abbrev pub is_handle : ℕ → Watch → ℕ
is_handle h v = one_if (h == v.handle)

abbrev pub is_range : ℕ → ℕ → Watch → ℕ
is_range p n v = one_if (p == v.address && n == v.size)

-- What a successful call does that answers with `x`.
abbrev pub effect : Watch → Call → ℕ → Tally → Tally
effect v (Call.mem_create _ _) x t = record t { allocations = t.allocations + is_handle x v }
effect v (Call.mem_release h) x t = record t { allocations = t.allocations - is_handle h v }
effect v (Call.mem_address_reserve n _) x t = record t {
  reservations = t.reservations + is_range x n v;
}
effect v (Call.mem_address_free p n) x t = record t {
  reservations = t.reservations - is_range p n v;
}
effect v (Call.mem_map p n _) x t = record t { mappings = t.mappings + is_range p n v }
effect v (Call.mem_unmap p n) x t = record t { mappings = t.mappings - is_range p n v }
effect v _ x t = t

-- The documented behaviour of the driver: a call that succeeds makes or removes the resource that it names,
-- and a call that fails changes none.
pub record Ledger {W : Type 0} (d : Driver W) : Type 0 where
  pub tally : Watch → W → Tally
  pub counts :
      (v : Watch) (t : ℕ) (c : Call) (w : W)
      → tally v (d.call t c w).1 ≡ (
          if (d.call t c w).0.code == 0
          then effect v c (d.call t c w).0.value (tally v w)
          else tally v w)

-- The tally after a command that makes one call, given what the call answered.
abbrev pub effect_of : {A : Type 0} → (A → ℕ) → Watch → Call → Result A → Tally → Tally
effect_of answer v c (ok a) t = effect v c (answer a) t
effect_of answer v c (err _) t = t

module _ {W : Type 0} (d : Driver W) (l : Ledger d) (v : Watch) where
  pub invoke-tally :
      {A : Type 0} (c : Call) (read : Reply → A) (answer : A → ℕ) (t : ℕ) (w : W)
      → effect v c (answer (read (d.call t c w).0)) (l.tally v w)
        ≡ effect v c (d.call t c w).0.value (l.tally v w)
      → l.tally v (invoke d c read t w).1
        ≡ effect_of answer v c (invoke d c read t w).0 (l.tally v w)
  unfolding invoke check
  invoke-tally c read answer t w same = let e = l.counts v t c w in ground arith

  pub mem_create-tally :
      (size device t : ℕ) (w : W)
      → l.tally v (mem_create d size device t w).1
        ≡ effect_of
            (λ h. h)
            v
            (Call.mem_create size device)
            (mem_create d size device t w).0
            (l.tally v w)
  unfolding mem_create
  mem_create-tally size device t w =
      invoke-tally (Call.mem_create size device) (λ r. r.value) (λ h. h) t w refl

  pub mem_address_reserve-tally :
      (size gran t : ℕ) (w : W)
      → l.tally v (mem_address_reserve d size gran t w).1
        ≡ effect_of
            (λ p. p)
            v
            (Call.mem_address_reserve size gran)
            (mem_address_reserve d size gran t w).0
            (l.tally v w)
  unfolding mem_address_reserve
  mem_address_reserve-tally size gran t w =
      invoke-tally (Call.mem_address_reserve size gran) (λ r. r.value) (λ p. p) t w refl

  pub mem_map-tally :
      (p size h t : ℕ) (w : W)
      → l.tally v (mem_map d p size h t w).1
        ≡ effect_of (λ _. 0) v (Call.mem_map p size h) (mem_map d p size h t w).0 (l.tally v w)
  unfolding mem_map
  mem_map-tally p size h t w = invoke-tally (Call.mem_map p size h) (λ _. tt) (λ _. 0) t w refl

  pub mem_set_access-tally :
      (p size device t : ℕ) (w : W)
      → l.tally v (mem_set_access d p size device t w).1
        ≡ effect_of
            (λ _. 0)
            v
            (Call.mem_set_access p size device)
            (mem_set_access d p size device t w).0
            (l.tally v w)
  unfolding mem_set_access
  mem_set_access-tally p size device t w =
      invoke-tally (Call.mem_set_access p size device) (λ _. tt) (λ _. 0) t w refl

  pub mem_unmap-tally :
      (p size t : ℕ) (w : W)
      → l.tally v (mem_unmap d p size t w).1
        ≡ effect_of (λ _. 0) v (Call.mem_unmap p size) (mem_unmap d p size t w).0 (l.tally v w)
  unfolding mem_unmap
  mem_unmap-tally p size t w = invoke-tally (Call.mem_unmap p size) (λ _. tt) (λ _. 0) t w refl

  pub mem_address_free-tally :
      (p size t : ℕ) (w : W)
      → l.tally v (mem_address_free d p size t w).1
        ≡ effect_of
            (λ _. 0)
            v
            (Call.mem_address_free p size)
            (mem_address_free d p size t w).0
            (l.tally v w)
  unfolding mem_address_free
  mem_address_free-tally p size t w =
      invoke-tally (Call.mem_address_free p size) (λ _. tt) (λ _. 0) t w refl

  pub mem_release-tally :
      (h t : ℕ) (w : W)
      → l.tally v (mem_release d h t w).1
        ≡ effect_of (λ _. 0) v (Call.mem_release h) (mem_release d h t w).0 (l.tally v w)
  unfolding mem_release
  mem_release-tally h t w = invoke-tally (Call.mem_release h) (λ _. tt) (λ _. 0) t w refl
