-- ===== src/Executor/Completion/Tests.antt =====
-- Runs of the handshake, and the theorems at them.
use gocudrv.Base.{ℕ, refl, true, false, none, some}
use gocudrv.Executor.Completion.{
  waiting, Handshake, WorkerPc, CallerPc, start, worker_step, caller_step, Reach, here, work, call,
}
use gocudrv.Executor.Completion.Safety.{
  PooledOnce, Progress, completion-PooledOnce, completion_never_blocks,
}

-- The caller cancels first; the worker delivers, takes its result back and recycles.
abbrev abandoned_end : Handshake ℕ
abandoned_end = record {
  shared = record { result = none; state = waiting };
  worker = WorkerPc.done;
  caller = CallerPc.done none;
  pooled = 1;
}

abandoned_run : Reach (start 7) abandoned_end
unfolding start worker_step caller_step
abandoned_run = work (work (work (work (call true (call true here refl) refl) refl) refl) refl) refl

completion-PooledOnce_example : PooledOnce abandoned_end
completion-PooledOnce_example = completion-PooledOnce 7 abandoned_run

completion_never_blocks_example : Progress abandoned_end
completion_never_blocks_example = completion_never_blocks 7 abandoned_run

-- The worker delivers first; the caller receives and recycles.
abbrev received_end : Handshake ℕ
received_end = record {
  shared = record { result = none; state = waiting };
  worker = WorkerPc.done;
  caller = CallerPc.done (some 7);
  pooled = 1;
}

received_run : Reach (start 7) received_end
unfolding start worker_step caller_step
received_run = call false (call false (call false (work (work here refl) refl) refl) refl) refl

abbrev received_last : Handshake ℕ
received_last = record received_end { caller = CallerPc.recycling (some 7); pooled = 0 }
