-- ===== src/Context/State.antt =====
-- The objects behind Context pointers, and the running of methods on them. A Context is known by a
-- number. A method takes the store and returns it with its result; the locks of a Context
-- (`opMu`, `copyMu`, `syncMu`) make each method one step here, since `Close` excludes all others.
use gocudrv.Base.{ℕ, Bool, Option, List, update}
use gocudrv.Driver.Errors.{Err, Result, ok, err}
use gocudrv.Context.Exec.{Exec}
use gocudrv.Context.Lanes.{WaitLane}

-- `Context`, less its locks, its driver (a parameter) and the device object, of which only the
-- handle is used.
pub record Context : Type 0 where
  pub device : ℕ
  pub raw : ℕ
  pub exec : Option Exec
  pub copy_exec : Option Exec
  pub wait_lanes : List WaitLane
  pub sync_active : ℕ
  pub command_err : Option Err
  pub closed : Bool

-- The contexts, the number of the next pinned thread, the threads that ended unlocked and go back to
-- the Go scheduler, those that are parked for good, and the driver's world.
pub record Store (W : Type 0) : Type 0 where
  pub contexts : ℕ → Context
  pub next_thread : ℕ
  pub reusable : List ℕ
  pub quarantined : List ℕ
  pub world : W

abbrev pub M : Type 0 → Type 0 → Type 0
M W A = Store W → Result A × Store W

module _ {W : Type 0} where
  abbrev pub put_context : ℕ → Context → Store W → Store W
  put_context c x s = record s { contexts = update s.contexts c x }

  infixl 5 ◌>>=◌ ◌>>◌
  abbrev pub ◌>>=◌ : {A B : Type 0} → M W A → (A → M W B) → M W B
  ◌>>=◌ m f s = let (r, s') = m s in elim r [ ok a ↦ f a s' | err e ↦ (err e, s') ]

  abbrev pub ◌>>◌ : {A B : Type 0} → M W A → M W B → M W B
  m >> k = m >>= λ _. k

  abbrev pub pure : {A : Type 0} → A → M W A
  pure a s = (ok a, s)

  abbrev pub fail : {A : Type 0} → Err → M W A
  fail e s = (err e, s)

  -- A result that is already there, as a step of a method.
  abbrev pub lift : {A : Type 0} → Result A → M W A
  lift r s = (r, s)

  -- A function of the world alone, run in the store.
  abbrev pub in_world : {A : Type 0} → (W → Result A × W) → M W A
  in_world f s = let (r, w) = f s.world in (r, record s { world = w })
