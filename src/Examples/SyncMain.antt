-- ===== src/Examples/SyncMain.antt =====
-- examples/sync/pool.cc: a program that writes a line to the stream of a pool of one cell.
use resource_pool.Prelude.{
  ℕ, ◌≡◌, ◌⊎◌, inl, inr, refl, ap, true, false, if◌then◌else◌, Option, none, some, [],
}
use resource_pool.Prelude.Int.{ℤ, pos, negsuc}
use resource_pool.Outcome.{Outcome, ok, ◌>>=◌}
use resource_pool.Error.{ErrorCode, failed}
use resource_pool.TimeTraits.{TimePoint, time_max}
use resource_pool.Idle.{Idle}
use resource_pool.Storage.{CellIterator}
use resource_pool.Handle.{PoolReturns, Handle, Strategy, make_handle, empty, reset, destroy}
use resource_pool.Handle.Lifecycle.{returns, returned_once}
use resource_pool.Sync.PoolImpl.{PoolImpl}
use resource_pool.Sync.Pool
use resource_pool.Sync.Pool.Handles.{sync_returns}
use resource_pool.Examples.{Streams, count_from_min, described, print}
use resource_pool.Examples.Returned.{print_lem, empty_handle}

module _ {ℓ} {T W : Type ℓ} (pools : PoolReturns T W) (streams : Streams T) where
  -- From the answer of `get_auto_recycle` to the end of the handle, with the number that `main` returns.
  -- `opened` is the stream, or `none` if an exception is thrown where it is made: a stream whose file could
  -- not be opened is made all the same. `reading` is what the clock reads at the end.
  unfoldable pub session :
      TimePoint → TimePoint → Option T → TimePoint → ErrorCode → Handle → W → Outcome (ℤ × W)
  unfolding print described
  session now later opened reading ec h w = do
    (code, w) ←
        (if failed ec then (do _ ← described ec; ok (negsuc 0, w)) else (do
          nothing ← empty pools h w
          (if nothing
              then elim opened [
                | none ↦ ok (negsuc 0, w)
                | some file ↦ (do
                  w ← reset pools now file h w
                  w ← print pools streams reading h w
                  ok (pos 0, w))
              ]
              else (do w ← print pools streams reading h w; ok (pos 0, w)))))
    w ← destroy pools later h w
    ok (code, w)

-- The stream that is printed to, if there is one.
abbrev pub stream_of {ℓ} : {T : Type ℓ} → Idle T → Option T → Option T
stream_of x opened = elim x.value [ none ↦ opened | some file ↦ some file ]

module _ {ℓ} {T W : Type ℓ} (pools : PoolReturns T W) (streams : Streams T) (p : ℕ)
    (strategy : Strategy) (it : CellIterator) (later : TimePoint) (reading : TimePoint) (stamp : ℤ)
    (early : count_from_min reading ≡ ok stamp) where
  open streams use {write}

  abbrev h : Handle
  h = make_handle p strategy it

  -- The cell goes back by the strategy of the handle, and `main` returns `code`.
  abbrev ends_with : ℤ → W → Outcome (ℤ × W)
  ends_with code w = do w ← returns pools strategy p later it w; ok (code, w)

  ended :
      (code : ℤ) (w : W)
      → pools.Lent p it w
      → (do w' ← destroy pools later h w; ok (code, w')) ≡ ends_with code w
  ended code w lent =
      ap (λ o. o >>= λ w'. ok (code, w')) (returned_once pools later p strategy it w lent).3

  -- The line is in the stream of the cell, which is still lent, when the handle ends.
  unfoldable pub Written : T → Outcome (ℤ × W) → Type ℓ
  Written file o =
      (w : W) × pools.Lent p it w
      × ((x : Idle T) × (pools.load it w ≡ ok x) × (x.value ≡ some (write file stamp)))
      × (o ≡ ends_with (pos 0) w)

  -- Run without an error and with a handle of a lent cell, the program gives the cell back once, by the
  -- strategy of the handle: with -1 and the cell as it was if the cell is empty and no stream could be
  -- made; else with 0 and the line printed to the stream in the cell.
  pub session_lem :
      (now : TimePoint) (opened : Option T) (ec : ErrorCode) (w : W) (x : Idle T)
      → failed ec ≡ false
      → pools.Lent p it w
      → pools.load it w ≡ ok x
      → ((stream_of x opened ≡ none)
          × (session pools streams now later opened reading ec h w ≡ ends_with (negsuc 0) w))
        ⊎ ((file : T) × (stream_of x opened ≡ some file)
            × Written file (session pools streams now later opened reading ec h w))
  unfolding session Written reset make_handle
  session_lem now opened ec w x fine lent loaded = by_value x.value refl opened
    where
      Result : Option T → Type ℓ
      Result opened =
          ((stream_of x opened ≡ none)
            × (session pools streams now later opened reading ec h w ≡ ends_with (negsuc 0) w))
          ⊎ ((file : T) × (stream_of x opened ≡ some file)
              × Written file (session pools streams now later opened reading ec h w))

      nothing_else : W → Type ℓ
      nothing_else w = Unit

      nothing : empty pools h w ≡ ok (elim x.value [ none ↦ true | some file ↦ false ])
      nothing =
          empty_handle pools streams p strategy it later reading stamp early nothing_else
            (λ x w w' _ u _. u) w x loaded

      by_value : (o : Option T) → x.value ≡ o → (opened : Option T) → Result opened
      by_value (some file) has opened =
          let (w', prints, lent', _, again, _) =
            print_lem pools streams p strategy it later reading stamp early nothing_else
              (λ x w w' _ u _. u) w x file lent tt loaded has in
          inr (
            file,
            rw has refl,
            (w', lent', (_, again, refl), rw (fine, nothing, has, prints) (ended (pos 0) w' lent')),
          )
      by_value none has none = inl (rw has refl, rw (fine, nothing, has) (ended (negsuc 0) w lent))
      by_value none has (some file) =
          let (w', stored, lent', again) =
            pools.store_lem p it (record x { value = some file; reset_time = now }) w lent in
          let (w'', prints, lent'', _, once_more, _) =
            print_lem pools streams p strategy it later reading stamp early nothing_else
              (λ x w w' _ u _. u) w' _ file lent' tt again refl in
          inr (
            file,
            rw has refl,
            (
              w'',
              lent'',
              (_, once_more, refl),
              rw (fine, nothing, has, loaded, stored, prints) (ended (pos 0) w'' lent''),
            ),
          )

-- No other thread uses the pool: `none` would be that `get` waits for ever.
unfoldable pub main {ℓ} :
    {T : Type ℓ}
    → Streams T
    → TimePoint
    → TimePoint
    → Option T
    → TimePoint
    → Outcome (Option (ℤ × PoolImpl T))
unfolding session
main streams now later opened reading = do
  (pool, p) ← Pool.make 1 time_max time_max
  (res, p) ← Pool.get_auto_recycle pool now [] p
  elim res [
    | none ↦ ok none
    | some (ec, h) ↦ (do
      (code, p) ← session sync_returns streams now later opened reading ec h p
      ok (some (code, Pool.destroy pool p)))
  ]
