-- ===== src/Lib.antt =====
-- Verification of gocudrv: a Go library that calls the CUDA driver without cgo. A Device gives a
-- Context; a Context owns executors, each a goroutine on a pinned OS thread; every driver call is a job
-- that runs on one of them. Buffers, views and virtual buffers belong to a Context and send it their
-- copies, memsets and releases. Kernel arguments are packed into a builder that hands out pointers.
--
-- Base        Go's integers, memory as a list of bytes and as a function of addresses, and the lemmas on
--             lists that the parts share.
-- Executor    internal/executor/executor.go: `run`, `drain`, `finishThread`, `submit` and `Close` as the
--             events of a step relation (`step`, `Reach`); a list of events is an interleaving of the
--             worker, the callers and `Close`.
-- Executor/Completion   the handshake of `delivered`, `received` and `abandon` between one worker and
--             one caller, as two step functions over a shared completion.
-- Argpack     internal/argpack/argpack.go: `Builder` with its inline slots, its arena and the cached
--             pointers; `Add`, `Set`, `SetBytes`, `Params`, which may panic, `Reset`. Argpack/Model has the list that it
--             stands for.
-- Driver      cudaresult: the error values and the wrappers of the driver's entry points (context.go,
--             memory.go, vmm.go), with Driver/Work (stream.go, launch.go, module.go) and Driver/Memory
--             (managed.go, mempool.go, pitch.go), Driver/Objects (texture.go, surface.go, graph.go, link.go,
--             pitch.go) and Driver/Queries (device.go, peer.go, ipc.go, occupancy.go, function.go). The driver is
--             a parameter: a function of the thread, the call and the world, with a table of the symbols
--             that were found.
-- Context     cuda/context.go: `Primary`, the executors, the routing of commands (`doWith`, `doJob`,
--             `doCopyJob`) and `Close`, as state passing over a store of Contexts. Exec is an executor as its
--             callers see it: one job at a time, refused after `Close`.
-- Context/Lanes   the wait lanes: their choice, and the pool under concurrent callers.
-- Context/Sync    `doJobCtx`, `Synchronize`, `MemInfo` and `StreamPriorityRange`. The worker recycles the job of
--             a canceled wait in a later step, `recycle`, until when its lane is busy; what its driver call does
--             to the world is placed before the return.
-- Dispatch    cuda/dispatch.go: copies and memsets; its other operations stand with their callers.
-- Buffer      cuda/buffer.go, with Buffer/Offset (cuda/buffer_offset.go) and Buffer/View (cuda/view.go).
-- Vmm         cuda/vmm.go: rounding, the acquisition with its rollback, the close and the copies. The
--             driver of the theorems on what is held is one that Vmm/Ledger can count, by handle and by range.
-- Closing     the `Close` that streams, events, modules and host memory share.
-- Stream      cuda/stream.go, with Stream/HostFunc (cuda/hostfunc.go), which uses Hostcb; which closures
--             the driver runs before `LaunchHostFunc` returns is a parameter.
-- Pinning     cuda/hostbuffer.go and cuda/hostregister.go.
-- Managed     cuda/managed.go and cuda/mempool.go.
-- Pitched     cuda/pitched.go, with its part of cuda/pinned_async.go; Driver/Desc has the descriptors of
--             the copies.
-- Volume      cuda/volume.go, with its part of cuda/pinned_async.go: memory in slices of padded rows.
-- Texture     cuda/texture.go and cuda/surface.go: arrays, textures and surfaces.
-- Graph       cuda/graph.go: capture, executables and their launch.
-- Linker      cuda/link.go: link sessions, with the objects that they keep pinned. Module/Jit has the options.
-- Ipc         cuda/ipc.go: memory and events from other processes.
-- Peer        cuda/peer.go: access and copies between Contexts.
-- Device      cuda/device.go and cuda/version.go, whose calls run on the calling thread; Device/Text is the
--             text of a UUID.
-- Locks       the read-write locks of the objects, and callers that wait for them: Locks/Pairs has the methods
--             that order two locks by address (`lockEvents`, `lockPitchedPair`), Launch/Deadlock the launches.
-- Event       cuda/event.go and cuda/event_dispatch.go, with the order of the locks in Event/Locks.
-- Module      cuda/module.go: images, functions and `LoadModuleEx` (Module/Jit), and cuda/global.go
--             (Module/Global).
-- Launch      cuda/launch.go and cuda/coop.go: Launch/Config is the shape of a launch, Launch/Args the
--             builder that packs the arguments into an Argpack builder and holds their read locks,
--             Launch/Packed the arguments that are packed once, with their updates in Launch/Updates, and
--             Launch/Occupancy cuda/occupancy.go and cuda/funcattr.go.
-- Hostcb      internal/hostcb/hostcb.go: the registry of closures; Hostcb/Refinement has the map that
--             it stands for.
--
-- Numbers: a size, an address or a count is a natural number, and where the source computes in
-- 64 bits the remainder by 2^64 is written out; an `int` that may be negative is an integer of Base/Ints.
-- No loop needs fuel: each is a recursion on a list, and an interleaving is given as a list of events.
-- The bound of eight wait lanes, of one task in the channel, of sixteen inline arguments and locks, and of
-- 8192 bytes for an arena that is kept are those of the source.
--
-- Locks: a method of an object is one step, since the locks make `Close` exclude the others; what
-- the locks do not order is an interleaving in Executor, Executor/Completion and Context/Lanes, and Locks is about
-- the waiting for locks. The read locks of arguments are counted in Launch. An error is a value; a canceled
-- Go context is what its observers see at each look.
--
-- Not modelled: the binding and loading of the driver (cudasys, internal/dynload, internal/platform, cuda/init.go),
-- which is system calls; the examples; the accessors of cuda/raw.go and the other methods that return a field of
-- an object; and `LoadModuleFromFile` of cuda/module.go, which reads a file.
mod Base
pub mod Executor
pub mod Argpack
pub mod Driver
pub mod Context
pub mod Dispatch
pub mod Buffer
pub mod Texture
pub mod Vmm
pub mod Volume
pub mod Launch
pub mod Graph
pub mod Linker
pub mod Ipc
pub mod Peer
pub mod Device
pub mod Locks
pub mod Hostcb
pub mod Closing
pub mod Stream
pub mod Event
pub mod Module
pub mod Pinning
pub mod Managed
pub mod Pitched
