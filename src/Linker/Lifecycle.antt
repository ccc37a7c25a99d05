-- ===== src/Linker/Lifecycle.antt =====
-- A link session from its creation to its close.
use gocudrv.Base.{
  ℕ, ◌≡◌, ◌≢◌, refl, Bool, true, false, Option, none, some, List, [], arith, Bytes, if◌then◌else◌,
}
use gocudrv.Driver.Errors.{
  check, Err, Symbol, sentinel, symbol_unavailable, linker_closed, Result, ok, err,
}
use gocudrv.Driver.{Driver, Call, Reply}
use gocudrv.Driver.Symbols.{symbol}
use gocudrv.Driver.Calls.{invoke}
use gocudrv.Driver.Objects.{link_add_data, link_complete, link_destroy}
use gocudrv.Context.State.{Store}
use gocudrv.Module.Jit.{JitOptions, log_size, jit_options, jit_values}
use gocudrv.Context.Exec.{background}
use gocudrv.Context.Run.{do_waited}
use gocudrv.Driver.Queries.{link_create}
use gocudrv.Linker.{
  Linker, Arrays, JitInput, pinned, input_type, input_image, label, has_link_group, after_create,
  new_linker, add_input, complete, close,
}
use gocudrv.Closing.{close_once, close_once_lem, is_nil}

-- The objects of a session are pinned exactly while it is open.
abbrev pub Pinned : Arrays → Linker → Type 0
Pinned a l = l.pins ≡ (if l.closed then [] else pinned a)

-- Both branches of a test, with what each knows.
if_case :
    {A : Type 0} (P : A → Type 0) (b : Bool) {x y : A}
    → (b ≡ true → P x)
    → (b ≡ false → P y)
    → P (if b then x else y)
if_case P true f g = f refl
if_case P false f g = g refl

module _ {W : Type 0} (d : Driver W) where
  -- A call whose symbol is bound is not refused for the lack of it.
  invoke_bound :
      {A : Type 0} (c : Call) (read : Reply → A) (t : ℕ) (w : W)
      → d.bound (symbol c) ≡ true
      → (invoke d c read t w).0 ≢ err (sentinel symbol_unavailable)
  unfolding invoke check
  invoke_bound c read t w e h = ground arith

  -- What `NewLinker` leaves, given what is pinned: an open session whose four objects are pinned, none of whose
  -- commands on a thread is refused by the wrapper of the driver for a missing symbol; or an error and nothing.
  abbrev pub Leaves : Arrays → JitInput → Bytes → Bytes → ℕ → W → List ℕ → Result Linker → Type 0
  Leaves a kind image name t w pins (ok l) =
      (l.closed ≡ false)
      × Pinned a l
      × (pins ≡ pinned a)
      × ((link_add_data d l.raw (input_type kind) (input_image kind image) (label name) t w).0
          ≢ err (sentinel symbol_unavailable))
      × ((link_complete d l.raw t w).0 ≢ err (sentinel symbol_unavailable))
      × ((link_destroy d l.raw t w).0 ≢ err (sentinel symbol_unavailable))
  Leaves a kind image name t w pins (err e) = pins ≡ []

  created :
      (c : ℕ) (a : Arrays) (kind : JitInput) (image name : Bytes) (t : ℕ) (w : W)
      (r : Result ℕ × Store W)
      → d.bound Symbol.link_add_data ≡ true
      → d.bound Symbol.link_complete ≡ true
      → d.bound Symbol.link_destroy ≡ true
      → Leaves a kind image name t w (after_create d c a r).0.1 (after_create d c a r).0.0
  unfolding link_add_data link_complete link_destroy
  created c a kind image name t w (ok raw, s) x y z = (
    refl,
    refl,
    refl,
    invoke_bound (Call.link_add_data raw (input_type kind) (input_image kind image) (label name))
        (λ _. tt) t w x,
    invoke_bound (Call.link_complete raw) (λ r. r.out) t w y,
    invoke_bound (Call.link_destroy raw) (λ _. tt) t w z,
  )
  created c a kind image name t w (err e, s) x y z = refl

  sized :
      (c : ℕ) (opts : JitOptions) (a : Arrays) (kind : JitInput) (image name : Bytes) (t : ℕ)
      (w : W) (s : Store W) (size : Result ℕ)
      → d.bound Symbol.link_add_data ≡ true
      → d.bound Symbol.link_complete ≡ true
      → d.bound Symbol.link_destroy ≡ true
      → (λ (z : (Result Linker × List ℕ) × Store W). Leaves a kind image name t w z.0.1 z.0.0)
          (elim size [
            | err e ↦ ((err e, []), s)
            | ok n ↦ after_create d c a (
                do_waited d c background
                  (link_create d (jit_options opts) (jit_values opts a.info_buf a.err_buf n))
                  s)
          ])
  sized c opts a kind image name t w s (ok n) x y z = created c a kind image name t w _ x y z
  sized c opts a kind image name t w s (err e) x y z = refl

  -- If `NewLinker` on a Context returns a session, it is open and its four objects are pinned, and no command of its
  -- methods is refused by the wrapper of the driver for a missing symbol, whatever the thread, the input
  -- and the state of the driver: it can be used and destroyed. If `NewLinker` fails, nothing is left pinned.
  pub new_linker-Leaves :
      (c : ℕ) (opts : JitOptions) (a : Arrays) (kind : JitInput) (image name : Bytes) (t : ℕ)
      (w : W) (s : Store W)
      → Leaves a kind image name t w
          (new_linker d (some c) opts a s).0.1
          (new_linker d (some c) opts a s).0.0
  unfolding new_linker
  new_linker-Leaves c opts a kind image name t w s =
      if_case (λ (z : (Result Linker × List ℕ) × Store W). Leaves a kind image name t w z.0.1 z.0.0)
        (has_link_group d)
        (λ e.
          sized c opts a kind image name t w s (log_size opts) (ground arith) (ground arith)
            (ground arith))
        (λ e. refl)

  -- If the objects of a session are pinned exactly while it is open, they are so after `Close`, which closes an open
  -- session exactly if it returns nil. A closed session, with nothing pinned, refuses inputs and `Complete` with
  -- `ErrLinkerClosed`, and another `Close` returns nil, without a change of the store.
  pub linker-close_unpins :
      (a : Arrays) (l l' : Linker) (x : Option Err) (name image : Bytes) (kind : JitInput)
      (s s' : Store W)
      → Pinned a l
      → close d (some l) s ≡ (x, some l', s')
      → Pinned a l'
        × (l'.closed ≡ is_nil x)
        × (add_input d (some (record l' { closed = true; pins = [] })) name image kind s'
            ≡ (err (sentinel linker_closed), s'))
        × (complete d (some (record l' { closed = true; pins = [] })) s'
            ≡ (err (sentinel linker_closed), s'))
        × (close d (some (record l' { closed = true; pins = [] })) s'
            ≡ (none, some (record l' { closed = true; pins = [] }), s'))
  unfolding close add_input complete
  linker-close_unpins a l l' x name image kind s s' p e =
      let (u, v) = close_once_lem d l.closed l.ctx (link_destroy d l.raw) s in
      (ground arith, ground arith, refl, refl, unfold close_once in refl)
