-- ===== src/Vmm/Rollback.antt =====
-- The acquisition transaction: all or nothing, as far as the driver lets it.
use gocudrv.Base.{ℕ, ◌+◌, ◌≡◌, Bool, true, false, Option, none, some, arith, if◌then◌else◌}
use gocudrv.Driver.Errors.{Err, joined, more, Result, ok, err, join, error_of}
use gocudrv.Driver.{Driver, Call}
use gocudrv.Driver.Calls.{
  mem_create, mem_address_reserve, mem_map, mem_set_access, mem_unmap, mem_address_free,
}
use gocudrv.Vmm.{
  acquire_virtual, reserve_range, map_range, grant, free_unmapped, undo_create, undo_reserve,
  undo_map,
}
use gocudrv.Vmm.Ledger.{
  Watch, Tally, Ledger, effect, is_handle, is_range, mem_create-tally, mem_address_reserve-tally,
  mem_map-tally, mem_set_access-tally, mem_unmap-tally, mem_address_free-tally, mem_release-tally,
}

-- The error of one failure, and not of several joined.
abbrev pub single : Err → Bool
single (joined (more _ _)) = false
single _ = true

abbrev pub is_none : Option Err → Bool
is_none none = true
is_none (some _) = false

abbrev pub value_of : Result ℕ → ℕ
value_of (ok n) = n
value_of (err _) = 0

-- What is held with one more virtual buffer: its size, its address and its handle.
abbrev pub acquired : Watch → ℕ → ℕ → ℕ → Tally → Tally
acquired v n p h t = record {
  allocations = t.allocations + is_handle h v;
  reservations = t.reservations + is_range p n v;
  mappings = t.mappings + is_range p n v;
}

module _ {W : Type 0} (d : Driver W) (l : Ledger d) (v : Watch) (t : ℕ) where
  undo_create-tally :
      {A : Type 0} (e x : Err) (h : ℕ) (w : W)
      → (undo_create d {A = A} e h t w).0 ≡ err x
      → single x ≡ true
      → l.tally v (undo_create d {A = A} e h t w).1 ≡ effect v (Call.mem_release h) 0 (l.tally v w)
  unfolding undo_create join
  undo_create-tally e x h w p q = let a = mem_release-tally d l v h t w in ground arith

  undo_reserve-tally :
      {A : Type 0} (e x : Err) (h p n : ℕ) (w : W)
      → (undo_reserve d {A = A} e h p n t w).0 ≡ err x
      → single x ≡ true
      → l.tally v (undo_reserve d {A = A} e h p n t w).1
        ≡ effect v (Call.mem_release h) 0 (effect v (Call.mem_address_free p n) 0 (l.tally v w))
  unfolding undo_reserve join
  undo_reserve-tally e x h p n w q r =
      let a = mem_address_free-tally d l v p n t w in
      let b = mem_release-tally d l v h t (mem_address_free d p n t w).1 in ground arith

  undo_map-tally :
      {A : Type 0} (e x : Err) (h p n : ℕ) (w : W)
      → (undo_map d {A = A} e h p n t w).0 ≡ err x
      → single x ≡ true
      → l.tally v (undo_map d {A = A} e h p n t w).1
        ≡ effect v
            (Call.mem_release h)
            0
            (effect v (Call.mem_address_free p n) 0 (effect v (Call.mem_unmap p n) 0 (l.tally v w)))
  unfolding undo_map free_unmapped join
  undo_map-tally e x h p n w q r =
      let w1 = (mem_unmap d p n t w).1 in
      let a = mem_unmap-tally d l v p n t w in
      let b = mem_address_free-tally d l v p n t w1 in
      let c = mem_release-tally d l v h t (mem_address_free d p n t w1).1 in
      let c' = mem_release-tally d l v h t w1 in ground arith

  grant-leak :
      (dev n h p : ℕ) (o : Option Err) (x : Err) (w w' : W) (t0 : Tally)
      → l.tally v w ≡ acquired v n p h t0
      → grant d dev n h p o t w ≡ (err x, w')
      → single x ≡ true
      → l.tally v w' ≡ t0
  unfolding grant
  grant-leak dev n h p none x w w' t0 e q r = ground arith
  grant-leak dev n h p (some y) x w w' t0 e q r =
      let a = undo_map-tally {A = ℕ × ℕ} y x h p n w in ground arith

  map_range-leak :
      (dev n h p : ℕ) (o : Option Err) (x : Err) (w w' : W) (t0 : Tally)
      → l.tally v w ≡ (
          if is_none o
          then acquired v n p h t0
          else record (acquired v n p h t0) { mappings = t0.mappings })
      → map_range d dev n h p o t w ≡ (err x, w')
      → single x ≡ true
      → l.tally v w' ≡ t0
  unfolding map_range
  map_range-leak dev n h p none x w w' t0 e q r =
      let a = mem_set_access-tally d l v p n dev t w in
      let w1 = (mem_set_access d p n dev t w).1 in
      let b = grant-leak dev n h p (error_of (mem_set_access d p n dev t w).0) x w1 w' t0 in
      ground arith
  map_range-leak dev n h p (some y) x w w' t0 e q r =
      let a = undo_reserve-tally {A = ℕ × ℕ} y x h p n w in ground arith

  reserve_range-leak :
      (dev n h : ℕ) (o : Result ℕ) (x : Err) (w w' : W) (t0 : Tally)
      → l.tally v w ≡ elim o [
        | ok p ↦ record (acquired v n p h t0) { mappings = t0.mappings }
        | err _ ↦ record t0 { allocations = t0.allocations + is_handle h v }
      ]
      → reserve_range d dev n h o t w ≡ (err x, w')
      → single x ≡ true
      → l.tally v w' ≡ t0
  unfolding reserve_range
  reserve_range-leak dev n h (ok p) x w w' t0 e q r =
      let a = mem_map-tally d l v p n h t w in
      let w1 = (mem_map d p n h t w).1 in
      let b = map_range-leak dev n h p (error_of (mem_map d p n h t w).0) x w1 w' t0 in ground arith
  reserve_range-leak dev n h (err y) x w w' t0 e q r =
      let a = undo_create-tally {A = ℕ × ℕ} y x h w in ground arith

  -- If `acquireVirtual` fails with one error, and not with several joined, so that no rollback step
  -- failed on top, the driver holds the same allocations, reservations and mappings as before, for
  -- every handle and every range of addresses; the driver is one whose successful calls make or remove the
  -- resource that they name.
  pub acquire_virtual_no_leak :
      (device size gran : ℕ) (x : Err) (w w' : W)
      → acquire_virtual d device size gran t w ≡ (err x, w')
      → single x ≡ true
      → l.tally v w' ≡ l.tally v w
  unfolding acquire_virtual
  acquire_virtual_no_leak dev n g x w w' q r =
      let a = mem_create-tally d l v n dev t w in
      let w1 = (mem_create d n dev t w).1 in
      let b = mem_address_reserve-tally d l v n g t w1 in
      let h = value_of (mem_create d n dev t w).0 in
      let w2 = (mem_address_reserve d n g t w1).1 in
      let c = reserve_range-leak dev n h (mem_address_reserve d n g t w1).0 x w2 w' (l.tally v w) in
      ground arith
