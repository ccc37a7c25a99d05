-- ===== src/Vmm/Acquisition.antt =====
-- What a successful acquisition holds.
use gocudrv.Base.{ℕ, ◌+◌, ◌≡◌, Option, none, some, arith}
use gocudrv.Driver.Errors.{Err, Result, ok, err, join, error_of}
use gocudrv.Driver.{Driver}
use gocudrv.Driver.Calls.{mem_create, mem_address_reserve, mem_map, mem_set_access}
use gocudrv.Vmm.{
  acquire_virtual, reserve_range, map_range, grant, free_unmapped, undo_create, undo_reserve,
  undo_map,
}
use gocudrv.Vmm.Ledger.{
  Watch, is_range, Ledger, mem_create-tally, mem_address_reserve-tally, mem_map-tally,
  mem_set_access-tally,
}
use gocudrv.Vmm.Rollback.{acquired, value_of}

module _ {W : Type 0} (d : Driver W) (t : ℕ) where
  undo_map-fails :
      {A : Type 0} (e : Err) (h p n : ℕ) (w : W) (a : A) (w' : W)
      → ¬ (undo_map d {A = A} e h p n t w ≡ (ok a, w'))
  unfolding undo_map free_unmapped join
  undo_map-fails e h p n w a w' q = ground arith

  undo_reserve-fails :
      {A : Type 0} (e : Err) (h p n : ℕ) (w : W) (a : A) (w' : W)
      → ¬ (undo_reserve d {A = A} e h p n t w ≡ (ok a, w'))
  unfolding undo_reserve join
  undo_reserve-fails e h p n w a w' q = ground arith

  undo_create-fails :
      {A : Type 0} (e : Err) (h : ℕ) (w : W) (a : A) (w' : W)
      → ¬ (undo_create d {A = A} e h t w ≡ (ok a, w'))
  unfolding undo_create join
  undo_create-fails e h w a w' q = ground arith

module _ {W : Type 0} (d : Driver W) (l : Ledger d) (v : Watch) (t : ℕ) where
  grant-ok :
      (dev n h p : ℕ) (o : Option Err) (x : ℕ × ℕ) (w w' : W)
      → grant d dev n h p o t w ≡ (ok x, w')
      → (w' ≡ w) × (x ≡ (p, h)) × (o ≡ none)
  unfolding grant
  grant-ok dev n h p none x w w' q = ground arith
  grant-ok dev n h p (some y) x w w' q = absurd (undo_map-fails d t y h p n w x w' q)

  map_range-ok :
      (dev n h p : ℕ) (o : Option Err) (x : ℕ × ℕ) (w w' : W)
      → map_range d dev n h p o t w ≡ (ok x, w')
      → (l.tally v w' ≡ l.tally v w) × (x ≡ (p, h)) × (o ≡ none)
  unfolding map_range
  map_range-ok dev n h p none x w w' q =
      let a = mem_set_access-tally d l v p n dev t w in
      let w1 = (mem_set_access d p n dev t w).1 in
      let b = grant-ok dev n h p (error_of (mem_set_access d p n dev t w).0) x w1 w' in ground arith
  map_range-ok dev n h p (some y) x w w' q = absurd (undo_reserve-fails d t y h p n w x w' q)

  reserve_range-ok :
      (dev n h : ℕ) (o : Result ℕ) (x : ℕ × ℕ) (w w' : W)
      → reserve_range d dev n h o t w ≡ (ok x, w')
      → (l.tally v w'
          ≡ record (l.tally v w) { mappings = (l.tally v w).mappings + is_range x.0 n v })
        × (o ≡ ok x.0)
        × (x.1 ≡ h)
  unfolding reserve_range
  reserve_range-ok dev n h (ok p) x w w' q =
      let a = mem_map-tally d l v p n h t w in
      let w1 = (mem_map d p n h t w).1 in
      let b = map_range-ok dev n h p (error_of (mem_map d p n h t w).0) x w1 w' in ground arith
  reserve_range-ok dev n h (err y) x w w' q = absurd (undo_create-fails d t y h w x w' q)

  -- If `acquireVirtual` succeeds, the driver holds exactly one more allocation, one more reservation and
  -- one more mapping than before, those of the handle and of the range that are returned, and no other; the
  -- driver is one whose successful calls make or remove the resource that they name.
  pub acquire_virtual-acquired :
      (device size gran : ℕ) (x : ℕ × ℕ) (w w' : W)
      → acquire_virtual d device size gran t w ≡ (ok x, w')
      → l.tally v w' ≡ acquired v size x.0 x.1 (l.tally v w)
  unfolding acquire_virtual
  acquire_virtual-acquired dev n g x w w' q =
      let a = mem_create-tally d l v n dev t w in
      let w1 = (mem_create d n dev t w).1 in
      let b = mem_address_reserve-tally d l v n g t w1 in
      let h = value_of (mem_create d n dev t w).0 in
      let w2 = (mem_address_reserve d n g t w1).1 in
      let c = reserve_range-ok dev n h (mem_address_reserve d n g t w1).0 x w2 w' in ground arith
