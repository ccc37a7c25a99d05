-- ===== src/Stream/Lifecycle.antt =====
-- A stream from its options to its close.
use gocudrv.Base.{
  ◌≡◌, refl, Bool, true, false, ◌&&◌, ◌||◌, not, Option, none, some, List, [], ◌∷◌, arith,
  if◌then◌else◌, ℤ, ltb_ℤ,
}
use gocudrv.Driver.Errors.{Err, ok, err, sentinel, stream_closed, invalid_stream_priority}
use gocudrv.Driver.{Driver}
use gocudrv.Driver.Work.{stream_destroy}
use gocudrv.Context.Exec.{GoContext}
use gocudrv.Context.State.{Store}
use gocudrv.Closing.{close_once, close_once_lem, is_nil}
use gocudrv.Buffer.{Buffer, Stream}
use gocudrv.Buffer.Transfer.{zero_async, copy_to_device_async}
use gocudrv.Event.{Event, record_on, wait_event}
use gocudrv.Stream.{
  with_stream_priority, stream_options, min_int32, max_int32, synchronize, query, close,
}

-- Every given priority is a 32-bit number.
abbrev pub all_fit : List (Option ℤ) → Bool
all_fit [] = true
all_fit (none ∷ rest) = all_fit rest
all_fit (some p ∷ rest) = not (ltb_ℤ p min_int32 || ltb_ℤ max_int32 p) && all_fit rest

-- The priority that was given last, or the one of before.
abbrev pub last_priority : List (Option ℤ) → Option ℤ → Option ℤ
last_priority [] q = q
last_priority (none ∷ rest) q = last_priority rest q
last_priority (some p ∷ rest) q = last_priority rest (some p)

-- The options of a stream are accepted exactly if every given priority is a 32-bit number, the last one
-- is used, and nil options are skipped; otherwise the error is `ErrInvalidStreamPriority`.
stream_options_lem :
    (options : List (Option ℤ)) (q : Option ℤ)
    → stream_options options (record { priority = q; error = none }) ≡ (
        if all_fit options
        then ok (record { priority = last_priority options q; error = none })
        else err (sentinel invalid_stream_priority))
unfolding stream_options with_stream_priority
stream_options_lem [] q = refl
stream_options_lem (none ∷ rest) q = stream_options_lem rest q
stream_options_lem (some p ∷ rest) q = let ih = stream_options_lem rest (some p) in ground arith

module _ {W : Type 0} (d : Driver W) where
  -- If `Close` of a stream returns nil, the stream is closed: another `Close` returns nil, and waiting,
  -- queries, recording an event, waiting for one without options, and enqueueing a memset or a device copy return
  -- `ErrStreamClosed`, all without a change of the store. If it returns an error, the stream was open
  -- and is open still.
  pub stream-close_refuses :
      (st : Stream) (o : Option Stream) (x : Option Err) (e : Event) (b c : Buffer) (g : GoContext)
      (s s' : Store W)
      → close d (some st) s ≡ (x, o, s')
      → (o ≡ some (record st { closed = is_nil x }))
        × ((st.closed && not (is_nil x)) ≡ false)
        × (close d (some (record st { closed = true })) s'
            ≡ (none, some (record st { closed = true }), s'))
        × (synchronize d (some (record st { closed = true })) g s'
            ≡ (err (sentinel stream_closed), s'))
        × (query d (some (record st { closed = true })) s' ≡ (err (sentinel stream_closed), s'))
        × (record_on d (some e) (some (record st { closed = true })) s'
            ≡ (err (sentinel stream_closed), s'))
        × (wait_event d (some (record st { closed = true })) (some e) [] s'
            ≡ (err (sentinel stream_closed), s'))
        × (zero_async d g (some b) (some (record st { closed = true })) s'
            ≡ (err (sentinel stream_closed), s'))
        × (copy_to_device_async d g (some b) (some (record st { closed = true })) (some c) s'
            ≡ (err (sentinel stream_closed), s'))
  unfolding close synchronize query record_on wait_event zero_async copy_to_device_async
  stream-close_refuses st o x e b c g s s' h =
      let (p, q) = close_once_lem d st.closed st.ctx (stream_destroy d st.raw) s in
      (ground arith, ground arith, unfold close_once in refl, refl, refl, refl, refl, refl, refl)
