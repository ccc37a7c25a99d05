-- ===== src/Event/Lifecycle.antt =====
-- An event from its options to its close.
use gocudrv.Base.{ℕ, ◌≡◌, refl, true, false, ◌&&◌, not, Option, none, some, List, [], ◌∷◌, arith}
use gocudrv.Driver.Errors.{ok, err, sentinel, event_timing_disabled}
use gocudrv.Driver.{Driver}
use gocudrv.Context.State.{Store}
use gocudrv.Event.{
  Event, EventOption, EventFlags, blocking_sync, interprocess_sharing, disable_timing, apply,
  event_options, event_default, new_event, elapsed,
}

options_shared :
    (options : List (Option EventOption)) (f : EventFlags)
    → (f.shared && not f.no_timing) ≡ false
    → ((event_options options f).shared && not (event_options options f).no_timing) ≡ false
unfolding event_options apply
options_shared [] f h = h
options_shared (none ∷ rest) f h = options_shared rest f h
options_shared (some blocking_sync ∷ rest) f h = options_shared rest (apply blocking_sync f) h
options_shared (some interprocess_sharing ∷ rest) f h =
    options_shared rest (apply interprocess_sharing f) refl
options_shared (some disable_timing ∷ rest) f h =
    options_shared rest (apply disable_timing f) (ground arith)

module _ {W : Type 0} (d : Driver W) where
  -- An event that `NewEvent` made for sharing between processes has no timing, in whatever order the
  -- options are given: `Elapsed` from it or to it, with another open event, returns
  -- `ErrEventTimingDisabled` without a change of the store.
  interprocess_event_untimed :
      (ctx : Option ℕ) (options : List (Option EventOption)) (e f : Event) (s s' t : Store W)
      → new_event d ctx options s ≡ (ok e, s')
      → e.interprocess ≡ true
      → f.closed ≡ false
      → (elapsed d (some e) (some f) t ≡ (err (sentinel event_timing_disabled), t))
        × (elapsed d (some f) (some e) t ≡ (err (sentinel event_timing_disabled), t))
  unfolding new_event elapsed
  interprocess_event_untimed none options e f s s' t h i c = ground arith
  interprocess_event_untimed (some x) options e f s s' t h i c =
      let k = options_shared options event_default refl in (ground arith, ground arith)
