-- ===== src/Examples/Returned.antt =====
-- examples/async: the client gives the cell back once, and for further use only with a good stream.
use resource_pool.Prelude.{
  ℕ, ◌≡◌, ◌↔◌, arith, refl, sym, ◌∙◌, ◌⊎◌, inl, inr, Bool-cases, true, false, if◌then◌else◌, Option,
  none, some,
}
use resource_pool.Prelude.Int.{ℤ, ◌-ℤ◌, ◌≤ℤ◌, ◌<ℤ◌, -ℤ_parts}
use resource_pool.Outcome.{Outcome, ok, undefined, ◌>>=◌, >>=-ok}
use resource_pool.Error.{ErrorCode, failed}
use resource_pool.TimeTraits.{TimePoint, InRange, epoch, time_min}
use resource_pool.Idle.{Idle}
use resource_pool.Storage.{CellIterator}
use resource_pool.Handle.{
  PoolReturns, Strategy, Handle, make_handle, the_iterator, empty, get, reset, recycle, destroy,
}
use resource_pool.Handle.Lifecycle.{returns, spent, returned_once}
use resource_pool.Examples.{
  Streams, Ended, count_from_min, print, print_and_recycle, use_handle, on_get, strand_on_get,
  coroutine,
}

-- What the examples print is defined up to the clock's epoch, and overflows when the clock is past it.
count_from_min_lem :
    (now : TimePoint)
    → InRange now
    → ((now ≤ℤ epoch) ↔ (count_from_min now ≡ ok (time_min -ℤ now)))
      × ((epoch <ℤ now) ↔ (count_from_min now ≡ undefined))
unfolding count_from_min
count_from_min_lem now range = (
  (λ h. ground (arith, -ℤ_parts time_min now), λ h. ground (arith, -ℤ_parts time_min now)),
  (λ h. ground (arith, -ℤ_parts time_min now), λ h. ground (arith, -ℤ_parts time_min now)),
)

module _ {ℓ} {T W : Type ℓ} (pools : PoolReturns T W) (streams : Streams T) (p : ℕ)
    (strategy : Strategy) (it : CellIterator) (later : TimePoint) (reading : TimePoint) (stamp : ℤ)
    (early : count_from_min reading ≡ ok stamp) (Frame : W → Type ℓ)
    (kept : (x : Idle T) (w w' : W)
      → pools.Lent p it w
      → Frame w
      → pools.store it x w ≡ ok w'
      → Frame w') where
  open streams use {good, write}

  abbrev pub h : Handle
  h = make_handle p strategy it

  has_stream :
      (w : W) (x : Idle T) (file : T)
      → pools.load it w ≡ ok x
      → x.value ≡ some file
      → get pools h w ≡ ok file
  unfolding get empty make_handle
  has_stream w x file loaded has = rw (loaded, has) refl

  pub print_lem :
      (w : W) (x : Idle T) (file : T)
      → pools.Lent p it w
      → Frame w
      → pools.load it w ≡ ok x
      → x.value ≡ some file
      → (w' : W) × (print pools streams reading h w ≡ ok w')
        × pools.Lent p it w'
        × Frame w'
        × (pools.load it w' ≡ ok (record x { value = some (write file stamp) }))
        × (get pools h w' ≡ ok (write file stamp))
  unfolding print make_handle the_iterator
  print_lem w x file lent frame loaded has =
      let (w', stored, lent', again) =
        pools.store_lem p it (record x { value = some (write file stamp) }) w lent in
      (
        w',
        rw (has_stream w x file loaded has, early, loaded, stored) refl,
        lent',
        kept _ w w' lent frame stored,
        again,
        has_stream w' _ (write file stamp) again refl,
      )

  -- How the client gives back a cell with such a stream in it.
  abbrev given_back : T → W → Outcome W
  given_back file w =
      if good file then pools.recycle p later it w else returns pools strategy p later it w

  unfoldable pub GivenBack : T → Outcome W → Type ℓ
  GivenBack file o =
      (w : W) × pools.Lent p it w
      × Frame w
      × ((x : Idle T) × (pools.load it w ≡ ok x) × (x.value ≡ some file))
      × (o ≡ given_back file w)

  -- The stream that the client prints to.
  abbrev stream_in : Idle T → T → T
  stream_in x opened = elim x.value [ none ↦ opened | some file ↦ file ]

  -- Either the cell is empty and no good stream could be opened, and the cell goes back as it is, by
  -- the strategy of the handle; or there is a stream, which is printed to before the cell goes back.
  unfoldable pub Ending : Idle T → T → W → Outcome W → Type ℓ
  Ending x opened w o =
      ((x.value ≡ none) × (good opened ≡ false) × (o ≡ returns pools strategy p later it w))
      ⊎ GivenBack (write (stream_in x opened) stamp) o

  pub empty_handle :
      (w : W) (x : Idle T)
      → pools.load it w ≡ ok x
      → empty pools h w ≡ ok (elim x.value [ none ↦ true | some file ↦ false ])
  unfolding empty make_handle
  empty_handle w x loaded = rw loaded refl

  module _ (finish : Ended pools streams → Outcome W)
      (quiet : (h : Handle) (w : W) → finish (h, w, none) ≡ destroy pools later h w) where
    -- What is left when the program has ended.
    abbrev ended : Outcome (Ended pools streams) → Outcome W
    ended o = o >>= finish

    ended_open :
        (w : W) → pools.Lent p it w → ended (ok (h, w, none)) ≡ returns pools strategy p later it w
    ended_open w lent = quiet h w ∙ (returned_once pools later p strategy it w lent).3

    ended_recycled :
        (w : W)
        → pools.Lent p it w
        → (r : Handle × W) × (recycle pools later h w ≡ ok r)
          × (ended (ok (r.0, r.1, none)) ≡ pools.recycle p later it w)
    ended_recycled w lent =
        let all = returned_once pools later p strategy it w lent in
        let (w', given, back) = all.1 in
        ((spent pools p strategy, w'), back, quiet _ w' ∙ all.0.destroy_keeps later w' ∙ sym given)

    -- From a lent cell with a stream in it the client prints, and gives the cell back.
    printed :
        (w : W) (x : Idle T) (file : T)
        → pools.Lent p it w
        → Frame w
        → pools.load it w ≡ ok x
        → x.value ≡ some file
        → GivenBack (write file stamp) (ended (print_and_recycle pools streams later reading h w))
    unfolding GivenBack print_and_recycle
    printed w x file lent frame loaded has =
        let (w', prints, lent', frame', again, reads) = print_lem w x file lent frame loaded has in
        let (r, back, over) = ended_recycled w' lent' in
        (
          w',
          lent',
          frame',
          (_, again, refl),
          elim (Bool-cases (good (write file stamp))) [
            | inl fine ↦ rw (prints, reads, fine, back) over
            | inr broken ↦ rw (prints, reads, broken) (ended_open w' lent')
          ],
        )

    used :
        (now : TimePoint) (opened : T) (ec : ErrorCode) (w : W) (x : Idle T)
        → failed ec ≡ false
        → pools.Lent p it w
        → Frame w
        → pools.load it w ≡ ok x
        → Ending x opened w (ended (use_handle pools streams now later opened reading ec h w))
    unfolding use_handle Ending reset make_handle
    used now opened ec w x fine lent frame loaded = by_value x.value refl
      where
        by_value :
            (o : Option T)
            → x.value ≡ o
            → Ending x opened w (ended (use_handle pools streams now later opened reading ec h w))
        by_value (some file) has =
            inr (rw (fine, empty_handle w x loaded, has) (printed w x file lent frame loaded has))
        by_value none has = elim (Bool-cases (good opened)) [
          | inl opens ↦
              let (w', stored, lent', again) =
                pools.store_lem p it (record x { value = some opened; reset_time = now }) w lent in
              inr (
                rw (fine, empty_handle w x loaded, has, opens, loaded, stored)
                  (printed w' _ opened lent' (kept _ w w' lent frame stored) again refl))
          | inr broken ↦
              inl (has, broken, rw (fine, empty_handle w x loaded, has, broken) (ended_open w lent))
        ]

module _ {ℓ} {T W : Type ℓ} (pools : PoolReturns T W) (streams : Streams T) where
  -- Run without an error and with a handle of a lent cell, and if the smallest time less the clock's
  -- reading does not overflow, both handlers and the coroutine give the
  -- cell back once: as it is, by the strategy of the handle, if it is empty and the stream that is
  -- opened for it is not good; else with a line printed to the stream in it, by `recycle` if the stream
  -- is good then and by the strategy if not. Whatever else writes to the cell keep, holds when it is
  -- given back.
  pub clients_give_back :
      (p : ℕ) (strategy : Strategy) (it : CellIterator) (Frame : W → Type ℓ)
      (kept : (x : Idle T) (w w' : W)
        → pools.Lent p it w
        → Frame w
        → pools.store it x w ≡ ok w'
        → Frame w')
      (now later : TimePoint) (opened : T) (reading : TimePoint) (stamp : ℤ)
      (early : count_from_min reading ≡ ok stamp) (ec : ErrorCode) (w : W) (x : Idle T)
      → failed ec ≡ false
      → pools.Lent p it w
      → Frame w
      → pools.load it w ≡ ok x
      → Ending pools streams p strategy it later reading stamp early Frame kept x opened w
          (on_get pools streams now later opened reading ec (make_handle p strategy it) w)
        × Ending pools streams p strategy it later reading stamp early Frame kept x opened w
            (strand_on_get pools streams now later opened reading ec (make_handle p strategy it) w)
        × Ending pools streams p strategy it later reading stamp early Frame kept x opened w
            (coroutine pools streams now later opened reading ec (make_handle p strategy it) w)
  unfolding on_get strand_on_get coroutine
  clients_give_back p strategy it Frame kept now later opened reading stamp early ec w x fine lent
        frame loaded =
      let all = used pools streams p strategy it later reading stamp early Frame kept in
      (
        all _ (λ h w. refl) now opened ec w x fine lent frame loaded,
        all _ (λ h w. refl) now opened ec w x fine lent frame loaded,
        all _ (λ h w. >>=-ok (destroy pools later h w)) now opened ec w x fine lent frame loaded,
      )
