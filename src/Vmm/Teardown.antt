-- ===== src/Vmm/Teardown.antt =====
-- The close of a virtual buffer, which can be repeated until nothing is held.
use gocudrv.Base.{
  ℕ, ◌-◌, ◌≡◌, Bool, true, false, ◌&&◌, ◌||◌, not, List, [], ◌∷◌, arith, if◌then◌else◌,
}
use gocudrv.Driver.Errors.{Err, ok}
use gocudrv.Driver.{Driver}
use gocudrv.Driver.Calls.{mem_unmap, mem_release}
use gocudrv.Vmm.{VirtualBuffer, try_free, tear_down}
use gocudrv.Vmm.Ledger.{
  Watch, Tally, Ledger, is_handle, is_range, mem_unmap-tally, mem_address_free-tally,
  mem_release-tally,
}

abbrev pub is_empty : List Err → Bool
is_empty [] = true
is_empty (_ ∷ _) = false

-- So many less, if a resource that was live is live no more.
abbrev pub given_back : Bool → Bool → ℕ → ℕ → ℕ
given_back was is k n = if was && not is then n - k else n

-- The tally after the resources that `b` holds and `b'` does not hold any more were given back.
abbrev pub released : Watch → VirtualBuffer → VirtualBuffer → Tally → Tally
released v b b' t = record {
  allocations = given_back b.created b'.created (is_handle b.handle v) t.allocations;
  reservations = given_back b.reserved b'.reserved (is_range b.ptr b.size v) t.reservations;
  mappings = given_back b.mapped b'.mapped (is_range b.ptr b.size v) t.mappings;
}

module _ {W : Type 0} (d : Driver W) (l : Ledger d) (v : Watch) (t : ℕ) where
  -- The command of `Close` gives back exactly the resources whose live flags it clears, the allocation of the
  -- buffer's handle and the reservation and the mapping of its range, and no other; it sets no flag,
  -- and reports no error exactly if no flag is left. The driver is one whose successful calls
  -- make or remove the resource that they name.
  pub tear_down_tracks :
      (b b' : VirtualBuffer) (es : List Err) (w w' : W)
      → tear_down d b t w ≡ (ok (b', es), w')
      → (l.tally v w' ≡ released v b b' (l.tally v w))
        × (is_empty es ≡ not (b'.mapped || (b'.created || b'.reserved)))
        × ((b'.mapped && not b.mapped) ≡ false)
        × ((b'.created && not b.created) ≡ false)
        × ((b'.reserved && not b.reserved) ≡ false)
  unfolding tear_down try_free
  tear_down_tracks b b' es w w' q =
      let w1 = (mem_unmap d b.ptr b.size t w).1 in
      let r = (λ (x : W). mem_release-tally d l v b.handle t x) in
      let f = (λ (x : W). mem_address_free-tally d l v b.ptr b.size t x) in
      let u = mem_unmap-tally d l v b.ptr b.size t w in
      let r0 = r w in
      let r1 = r w1 in
      let f0 = f w in
      let f1 = f w1 in
      let f2 = f (mem_release d b.handle t w).1 in
      let f3 = f (mem_release d b.handle t w1).1 in ground arith
