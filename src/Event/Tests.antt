-- ===== src/Event/Tests.antt =====
-- Runs of the events, and the theorems at them.
use gocudrv.Base.{◌≡◌, refl, true, false, Option, none, some, List, [], ◌∷◌, ℕ}
use gocudrv.Driver.Errors.{ok, check}
use gocudrv.Driver.Calls.{invoke}
use gocudrv.Driver.Work.{event_create}
use gocudrv.Context.Exec.{do_wait}
use gocudrv.Context.Run.{do_with, submit_with}
use gocudrv.Context.Sample.{succeeding, open_store}
use gocudrv.Event.{
  Event, EventOption, interprocess_sharing, disable_timing, event_options, apply, new_event,
}
use gocudrv.Event.Locks.{lock_events}

abbrev options : List (Option EventOption)
options = some disable_timing ∷ none ∷ some interprocess_sharing ∷ []

abbrev shared_event : Event
shared_event = record {
  ctx = 0;
  raw = 4096;
  closed = false;
  timing_disabled = true;
  interprocess = true;
}

abbrev timed_event : Event
timed_event = record {
  ctx = 0;
  raw = 8192;
  closed = false;
  timing_disabled = false;
  interprocess = false;
}

creation :
    new_event succeeding (some 0) options open_store
    ≡ (ok shared_event, (new_event succeeding (some 0) options open_store).1)
unfolding new_event event_options apply event_create do_with submit_with do_wait invoke check
creation = refl

-- Three calls on three events in a ring: taken in the order of the arguments, they would wait for each
-- other.
abbrev ring : List (ℕ × ℕ)
ring = (1, 2) ∷ (2, 3) ∷ (3, 1) ∷ []

ring_order : lock_events 3 1 ≡ (1, some 3)
unfolding lock_events
ring_order = refl
