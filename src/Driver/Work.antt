-- ===== src/Driver/Work.antt =====
-- The wrappers of cudaresult for streams, events, modules and launches. A priority is the
-- signed reading of the 32 bits that the driver writes. The codes of the queries go through `check` like
-- the others, since their shared error values have the code, the call and the text of what it makes.
use gocudrv.Base.{ℕ, ℤ, Bytes, List, Option}
use gocudrv.Argpack.{Pointer, int32}
use gocudrv.Launch.Config.{LaunchConfig}
use gocudrv.Driver.{Call, Driver, Cmd}
use gocudrv.Driver.Calls.{invoke}

module _ {W : Type 0} (d : Driver W) where
  unfoldable pub ctx_synchronize : Cmd W (Unit {0})
  unfolding invoke
  ctx_synchronize = invoke d Call.ctx_synchronize (λ _. tt)

  unfoldable pub ctx_stream_priority_range : Cmd W (ℤ × ℤ)
  unfolding invoke
  ctx_stream_priority_range =
      invoke d Call.ctx_stream_priority_range (λ r. (int32 r.value, int32 r.second))

  unfoldable pub stream_create : ℕ → Cmd W ℕ
  unfolding invoke
  stream_create flags = invoke d (Call.stream_create flags) (λ r. r.value)

  unfoldable pub stream_create_with_priority : ℕ → ℤ → Cmd W ℕ
  unfolding invoke
  stream_create_with_priority flags priority =
      invoke d (Call.stream_create_with_priority flags priority) (λ r. r.value)

  unfoldable pub stream_destroy : ℕ → Cmd W (Unit {0})
  unfolding invoke
  stream_destroy stream = invoke d (Call.stream_destroy stream) (λ _. tt)

  unfoldable pub stream_synchronize : ℕ → Cmd W (Unit {0})
  unfolding invoke
  stream_synchronize stream = invoke d (Call.stream_synchronize stream) (λ _. tt)

  unfoldable pub stream_query : ℕ → Cmd W (Unit {0})
  unfolding invoke
  stream_query stream = invoke d (Call.stream_query stream) (λ _. tt)

  unfoldable pub stream_wait_event : ℕ → ℕ → ℕ → Cmd W (Unit {0})
  unfolding invoke
  stream_wait_event stream event flags =
      invoke d (Call.stream_wait_event stream event flags) (λ _. tt)

  unfoldable pub event_create : ℕ → Cmd W ℕ
  unfolding invoke
  event_create flags = invoke d (Call.event_create flags) (λ r. r.value)

  unfoldable pub event_destroy : ℕ → Cmd W (Unit {0})
  unfolding invoke
  event_destroy event = invoke d (Call.event_destroy event) (λ _. tt)

  unfoldable pub event_record : ℕ → ℕ → Cmd W (Unit {0})
  unfolding invoke
  event_record event stream = invoke d (Call.event_record event stream) (λ _. tt)

  unfoldable pub event_query : ℕ → Cmd W (Unit {0})
  unfolding invoke
  event_query event = invoke d (Call.event_query event) (λ _. tt)

  unfoldable pub event_synchronize : ℕ → Cmd W (Unit {0})
  unfolding invoke
  event_synchronize event = invoke d (Call.event_synchronize event) (λ _. tt)

  unfoldable pub event_elapsed_time : ℕ → ℕ → Cmd W ℕ
  unfolding invoke
  event_elapsed_time start finish = invoke d (Call.event_elapsed_time start finish) (λ r. r.value)

  unfoldable pub module_load_data : Bytes → Cmd W ℕ
  unfolding invoke
  module_load_data image = invoke d (Call.module_load_data image) (λ r. r.value)

  unfoldable pub module_unload : ℕ → Cmd W (Unit {0})
  unfolding invoke
  module_unload m = invoke d (Call.module_unload m) (λ _. tt)

  unfoldable pub module_get_function : ℕ → Bytes → Cmd W ℕ
  unfolding invoke
  module_get_function m name = invoke d (Call.module_get_function m name) (λ r. r.value)

  unfoldable pub launch_kernel : ℕ → LaunchConfig → ℕ → Option (List Pointer) → Cmd W (Unit {0})
  unfolding invoke
  launch_kernel fn cfg stream params = invoke d (Call.launch_kernel fn cfg stream params) (λ _. tt)

  unfoldable pub launch_cooperative_kernel :
      ℕ → LaunchConfig → ℕ → Option (List Pointer) → Cmd W (Unit {0})
  unfolding invoke
  launch_cooperative_kernel fn cfg stream params =
      invoke d (Call.launch_cooperative_kernel fn cfg stream params) (λ _. tt)

  unfoldable pub launch_host_func : ℕ → ℕ → ℕ → Cmd W (Unit {0})
  unfolding invoke
  launch_host_func stream fn user_data =
      invoke d (Call.launch_host_func stream fn user_data) (λ _. tt)
