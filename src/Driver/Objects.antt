-- ===== src/Driver/Objects.antt =====
-- The wrappers of cudaresult for arrays, textures, surfaces, copies in three dimensions, stream capture,
-- graphs and link sessions (texture.go, surface.go, pitch.go, graph.go, link.go).
use gocudrv.Base.{ℕ, Bytes, Option, ◌==◌, if◌then◌else◌}
use gocudrv.Driver.Errors.{graph_exec_update_failure}
use gocudrv.Driver.{Call, Driver, Cmd, ◌>>=◌, pure, fail}
use gocudrv.Driver.Desc.{Memcpy3d}
use gocudrv.Driver.Calls.{invoke}

module _ {W : Type 0} (d : Driver W) where
  unfoldable pub array_create : ℕ → ℕ → ℕ → Cmd W ℕ
  unfolding invoke
  array_create width height format = invoke d (Call.array_create width height format) (λ r. r.value)

  unfoldable pub array_3d_create : ℕ → ℕ → ℕ → ℕ → Cmd W ℕ
  unfolding invoke
  array_3d_create width height format flags =
      invoke d (Call.array_3d_create width height format flags) (λ r. r.value)

  unfoldable pub array_destroy : ℕ → Cmd W (Unit {0})
  unfolding invoke
  array_destroy h = invoke d (Call.array_destroy h) (λ _. tt)

  -- The array, then the address mode, the filter mode and the flags of the texture's description.
  unfoldable pub tex_object_create : ℕ → ℕ → ℕ → ℕ → Cmd W ℕ
  unfolding invoke
  tex_object_create handle address filter flags =
      invoke d (Call.tex_object_create handle address filter flags) (λ r. r.value)

  unfoldable pub tex_object_destroy : ℕ → Cmd W (Unit {0})
  unfolding invoke
  tex_object_destroy h = invoke d (Call.tex_object_destroy h) (λ _. tt)

  unfoldable pub surf_object_create : ℕ → Cmd W ℕ
  unfolding invoke
  surf_object_create handle = invoke d (Call.surf_object_create handle) (λ r. r.value)

  unfoldable pub surf_object_destroy : ℕ → Cmd W (Unit {0})
  unfolding invoke
  surf_object_destroy h = invoke d (Call.surf_object_destroy h) (λ _. tt)

  unfoldable pub memcpy_3d : Memcpy3d → Cmd W (Unit {0})
  unfolding invoke
  memcpy_3d desc = invoke d (Call.memcpy_3d desc) (λ _. tt)

  unfoldable pub memcpy_3d_async : Memcpy3d → ℕ → Cmd W (Unit {0})
  unfolding invoke
  memcpy_3d_async desc stream = invoke d (Call.memcpy_3d_async desc stream) (λ _. tt)

  unfoldable pub stream_begin_capture : ℕ → ℕ → Cmd W (Unit {0})
  unfolding invoke
  stream_begin_capture stream mode = invoke d (Call.stream_begin_capture stream mode) (λ _. tt)

  unfoldable pub stream_end_capture : ℕ → Cmd W ℕ
  unfolding invoke
  stream_end_capture stream = invoke d (Call.stream_end_capture stream) (λ r. r.value)

  unfoldable pub graph_instantiate : ℕ → ℕ → Cmd W ℕ
  unfolding invoke
  graph_instantiate graph flags = invoke d (Call.graph_instantiate graph flags) (λ r. r.value)

  unfoldable pub graph_launch : ℕ → ℕ → Cmd W (Unit {0})
  unfolding invoke
  graph_launch exec stream = invoke d (Call.graph_launch exec stream) (λ _. tt)

  unfoldable pub graph_destroy : ℕ → Cmd W (Unit {0})
  unfolding invoke
  graph_destroy graph = invoke d (Call.graph_destroy graph) (λ _. tt)

  -- An update that the driver declines with a result of its own is an error as well.
  unfoldable pub graph_exec_update : ℕ → ℕ → Cmd W (Unit {0})
  unfolding invoke
  graph_exec_update exec graph =
      invoke d (Call.graph_exec_update exec graph) (λ r. r.value) >>= λ result.
      if result == 0 then pure tt else fail graph_exec_update_failure

  unfoldable pub graph_exec_destroy : ℕ → Cmd W (Unit {0})
  unfolding invoke
  graph_exec_destroy exec = invoke d (Call.graph_exec_destroy exec) (λ _. tt)

  unfoldable pub link_add_data : ℕ → ℕ → Bytes → Option Bytes → Cmd W (Unit {0})
  unfolding invoke
  link_add_data state kind image name =
      invoke d (Call.link_add_data state kind image name) (λ _. tt)

  -- The image that the pointer and the size stand for.
  unfoldable pub link_complete : ℕ → Cmd W Bytes
  unfolding invoke
  link_complete state = invoke d (Call.link_complete state) (λ r. r.out)

  unfoldable pub link_destroy : ℕ → Cmd W (Unit {0})
  unfolding invoke
  link_destroy state = invoke d (Call.link_destroy state) (λ _. tt)
