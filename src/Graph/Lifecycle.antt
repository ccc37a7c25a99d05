-- ===== src/Graph/Lifecycle.antt =====
-- Graphs and their executables, from the capture to the close.
use gocudrv.Base.{◌≡◌, refl, true, false, ◌&&◌, not, Option, none, some, arith}
use gocudrv.Driver.Errors.{Err, sentinel, graph_closed, graph_exec_closed, err}
use gocudrv.Driver.{Driver}
use gocudrv.Driver.Objects.{graph_destroy, graph_exec_destroy}
use gocudrv.Context.Exec.{GoContext}
use gocudrv.Context.State.{Store}
use gocudrv.Buffer.{Stream}
use gocudrv.Graph.{Graph, GraphExec, instantiate, launch, update_exec, close_graph, close_exec}
use gocudrv.Closing.{close_once, close_once_lem, is_nil}

module _ {W : Type 0} (d : Driver W) where
  -- `Close` of a graph and of an executable graph closes it exactly if it returns nil, and only an open one fails. A
  -- closed graph refuses `Instantiate`, and `Update` of an open executable from it, with `ErrGraphClosed`; a closed
  -- executable refuses `Launch` on an open stream, and `Update`, with `ErrGraphExecClosed`; and another
  -- `Close` of either returns nil; all without a change of the store.
  pub graph-close_refuses :
      (g g' : Graph) (e e' : GraphExec) (x y : Option Err) (st : Stream) (c : GoContext)
      (s s' t t' : Store W)
      → close_graph d (some g) s ≡ (x, some g', s')
      → close_exec d (some e) t ≡ (y, some e', t')
      → st.closed ≡ false
      → e.closed ≡ false
      → (g' ≡ record g { closed = is_nil x })
        × (e' ≡ record e { closed = is_nil y })
        × ((g.closed && not (is_nil x)) ≡ false)
        × (instantiate d (some (record g { closed = true })) s' ≡ (err (sentinel graph_closed), s'))
        × (update_exec d (some e) (some (record g { closed = true })) s'
            ≡ (err (sentinel graph_closed), s'))
        × (close_graph d (some (record g { closed = true })) s'
            ≡ (none, some (record g { closed = true }), s'))
        × (launch d c (some (record e { closed = true })) (some st) t'
            ≡ (err (sentinel graph_exec_closed), t'))
        × (update_exec d (some (record e { closed = true })) (some g) t'
            ≡ (err (sentinel graph_exec_closed), t'))
        × (close_exec d (some (record e { closed = true })) t'
            ≡ (none, some (record e { closed = true }), t'))
  unfolding close_graph close_exec instantiate launch update_exec
  graph-close_refuses g g' e e' x y st c s s' t t' p q o h =
      let (u, v) = close_once_lem d g.closed g.ctx (graph_destroy d g.raw) s in
      let (u2, v2) = close_once_lem d e.closed e.ctx (graph_exec_destroy d e.raw) t in
      (
        ground arith,
        ground arith,
        ground arith,
        refl,
        rw h refl,
        unfold close_once in refl,
        rw o refl,
        refl,
        unfold close_once in refl,
      )
