-- ===== src/Graph.antt =====
-- cuda/graph.go and its launch of cuda/dispatch.go: graphs that are captured from a stream, and their executables.
pub mod Lifecycle
use gocudrv.Base.{ℕ, ◌==◌, not, Bool, true, false, Option, none, some}
use gocudrv.Driver.Errors.{
  Err, sentinel, nil_stream, stream_closed, context_mismatch, nil_graph, graph_closed,
  nil_graph_exec, graph_exec_closed,
}
use gocudrv.Driver.{Driver}
use gocudrv.Driver.Objects.{
  stream_begin_capture, stream_end_capture, graph_instantiate, graph_launch, graph_destroy,
  graph_exec_update, graph_exec_destroy,
}
use gocudrv.Context.Exec.{GoContext, background}
use gocudrv.Context.State.{Store, M, ◌>>=◌, ◌>>◌, pure}
use gocudrv.Context.Run.{do_job, do_waited}
use gocudrv.Buffer.{Stream, reject_if, deref}
use gocudrv.Closing.{close_once}

-- `Graph` and `GraphExec`
pub record Graph : Type 0 where
  pub ctx : ℕ
  pub raw : ℕ
  pub closed : Bool

pub record GraphExec : Type 0 where
  pub ctx : ℕ
  pub raw : ℕ
  pub closed : Bool

module _ {W : Type 0} (d : Driver W) where
  -- `BeginCapture` of a stream
  unfoldable pub begin_capture : Option Stream → ℕ → M W (Unit {0})
  begin_capture stream mode = do
    st ← deref stream nil_stream
    reject_if st.closed stream_closed
    do_waited d st.ctx background (stream_begin_capture d st.raw mode)

  -- `EndCapture` of a stream
  unfoldable pub end_capture : Option Stream → M W Graph
  end_capture stream = do
    st ← deref stream nil_stream
    reject_if st.closed stream_closed
    raw ← do_waited d st.ctx background (stream_end_capture d st.raw)
    pure (record { ctx = st.ctx; raw = raw; closed = false })

  -- `Instantiate`
  unfoldable pub instantiate : Option Graph → M W GraphExec
  instantiate graph = do
    g ← deref graph nil_graph
    reject_if g.closed graph_closed
    raw ← do_waited d g.ctx background (graph_instantiate d g.raw 0)
    pure (record { ctx = g.ctx; raw = raw; closed = false })

  -- `Launch` of an executable graph
  unfoldable pub launch : GoContext → Option GraphExec → Option Stream → M W (Unit {0})
  launch g exec stream = do
    e ← deref exec nil_graph_exec
    st ← deref stream nil_stream
    reject_if st.closed stream_closed
    reject_if e.closed graph_exec_closed
    reject_if (not (st.ctx == e.ctx)) context_mismatch
    do_job d e.ctx g (graph_launch d e.raw st.raw)

  -- `Update`
  unfoldable pub update_exec : Option GraphExec → Option Graph → M W (Unit {0})
  update_exec exec graph = do
    e ← deref exec nil_graph_exec
    g ← deref graph nil_graph
    reject_if e.closed graph_exec_closed
    reject_if g.closed graph_closed
    reject_if (not (g.ctx == e.ctx)) context_mismatch
    do_waited d e.ctx background (graph_exec_update d e.raw g.raw)

  -- `Close` of a graph and of an executable graph
  unfoldable pub close_graph : Option Graph → Store W → Option Err × Option Graph × Store W
  unfolding close_once
  close_graph none s = (some (sentinel nil_graph), none, s)
  close_graph (some g) s =
      let (e, now, s') = close_once d g.closed g.ctx (graph_destroy d g.raw) s in
      (e, some (record g { closed = now }), s')

  unfoldable pub close_exec : Option GraphExec → Store W → Option Err × Option GraphExec × Store W
  unfolding close_once
  close_exec none s = (some (sentinel nil_graph_exec), none, s)
  close_exec (some x) s =
      let (e, now, s') = close_once d x.closed x.ctx (graph_exec_destroy d x.raw) s in
      (e, some (record x { closed = now }), s')
