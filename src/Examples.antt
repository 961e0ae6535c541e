-- ===== src/Examples.antt =====
-- examples: programs whose client writes a line to a stream that a pool keeps open.
pub mod Returned
pub mod AsyncStart
pub mod ClientEnds
pub mod AsyncLoop
pub mod LoopRuns
pub mod AsyncRun
pub mod AsyncMains
pub mod SyncMain
pub mod SoleCell
pub mod SyncRun
use resource_pool.Prelude.{Bool, true, false, not, ◌&&◌, if◌then◌else◌, Option, none, some}
use resource_pool.Prelude.Int.{ℤ, ◌-ℤ◌, leb_ℤ}
use resource_pool.Outcome.{Outcome, ok, throws, undefined, Exception, ◌>>=◌}
use resource_pool.Error.{ErrorCode, failed, system, pool_errors, message}
use resource_pool.TimeTraits.{TimePoint, time_min, time_max}
use resource_pool.Handle.{PoolReturns, Handle, the_iterator, empty, get, reset, recycle, destroy}

-- What the programs use of `std::ofstream`: `good()`, and `<<` with a number and the end of the line.
pub record Streams {ℓ} (T : Type ℓ) : Type ℓ where
  pub good : T → Bool
  pub write : T → ℤ → T

-- `ec.message()`; the messages of other categories are those of Boost.
unfoldable pub described : ErrorCode → Outcome (Unit {0})
described ec = elim ec.category [ system ↦ ok tt | pool_errors ↦ (do _ ← message ec.value; ok tt) ]

-- `(time_point::min() - now()).count()` of numbers of 64 bits: overflow is undefined behaviour.
unfoldable pub count_from_min : TimePoint → Outcome ℤ
count_from_min now =
    let d = time_min -ℤ now in if leb_ℤ time_min d && leb_ℤ d time_max then ok d else undefined

module _ {ℓ} {T W : Type ℓ} (pools : PoolReturns T W) (streams : Streams T) where
  open pools use {load, store}
  open streams use {good, write}

  -- How the body of the client ends: its handle, the pools, and the exception if there is one.
  abbrev pub Ended : Type ℓ
  Ended = Handle × W × Option Exception

  -- A call that may throw, and what comes behind it.
  abbrev pub trying {κ} :
      {A : Type κ} → Outcome A → Handle → W → (A → Outcome Ended) → Outcome Ended
  trying (ok a) h w next = next a
  trying (throws e) h w next = ok (h, w, some e)
  trying undefined h w next = undefined

  -- `*(handle.get()) << (time_point::min() - now()).count() << std::endl` with the clock's `reading`: the
  -- stream changes, and the cell keeps it.
  unfoldable pub print : TimePoint → Handle → W → Outcome W
  unfolding count_from_min
  print reading h w = do
    file ← get pools h w
    stamp ← count_from_min reading
    it ← the_iterator h
    cell ← load it w
    store it (record cell { value = some (write file stamp) }) w

  unfoldable pub print_and_recycle : TimePoint → TimePoint → Handle → W → Outcome Ended
  unfolding print
  print_and_recycle later reading h w = trying (print reading h w) h w λ w.
      trying (get pools h w) h w λ file.
        if good file
        then trying (recycle pools later h w) h w (λ r. ok (r.0, r.1, none))
        else ok (h, w, none)

  -- The body of `on_get::operator ()`. `opened` is the stream that is opened if the cell is empty, and
  -- `reading` what the clock reads when the client prints.
  unfoldable pub use_handle :
      TimePoint → TimePoint → T → TimePoint → ErrorCode → Handle → W → Outcome Ended
  unfolding print_and_recycle described
  use_handle now later opened reading ec h w =
      if failed ec
      then trying (described ec) h w (λ _. ok (h, w, none))
      else trying (empty pools h w) h w (λ nothing.
        if nothing
        then (if good opened
            then trying (reset pools now opened h w) h w (λ w. print_and_recycle later reading h w)
            else ok (h, w, none))
        else print_and_recycle later reading h w)

  -- `on_get::operator ()`, which catches what the body throws; the handle ends with the call.
  unfoldable pub on_get : TimePoint → TimePoint → T → TimePoint → ErrorCode → Handle → W → Outcome W
  unfolding use_handle
  on_get now later opened reading ec h w = do
    (h, w, _) ← use_handle now later opened reading ec h w
    destroy pools later h w

  -- The `on_get::operator ()` of strand.cc, whose text is the same.
  unfoldable pub strand_on_get :
      TimePoint → TimePoint → T → TimePoint → ErrorCode → Handle → W → Outcome W
  unfolding use_handle
  strand_on_get now later opened reading ec h w = do
    (h, w, _) ← use_handle now later opened reading ec h w
    destroy pools later h w

  -- The coroutine, which does not catch it.
  unfoldable pub coroutine :
      TimePoint → TimePoint → T → TimePoint → ErrorCode → Handle → W → Outcome W
  unfolding use_handle
  coroutine now later opened reading ec h w = do
    (h, w, problem) ← use_handle now later opened reading ec h w
    w ← destroy pools later h w
    elim problem [ none ↦ ok w | some e ↦ throws e ]
