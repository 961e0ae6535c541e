-- ===== src/Examples/AsyncRun.antt =====
-- examples/async: what holds all the time that a loop runs what is posted, in any order.
use resource_pool.Prelude.{
  ℕ, ◌+◌, ◌<◌, ◌≡◌, refl, sym, ap, subst, ◌∙◌, List, [], ◌∷◌, ◌++◌, length, map, some, count, Bool,
  arith,
}
use resource_pool.Prelude.Int.{ℤ}
use resource_pool.Examples.{count_from_min}
use resource_pool.Outcome.{Outcome, ok, ok-injective}
use resource_pool.Error.{success}
use resource_pool.TimeTraits.{TimePoint}
use resource_pool.Storage
use resource_pool.Storage.{at}
use resource_pool.Handle.{Strategy, make_handle}
use resource_pool.Async.Handlers.{Completion, run, Event}
use resource_pool.Async.Queue.{ExpiringRequest}
use resource_pool.Async.Queue.Invariant.{Consistent}
use resource_pool.Async.Queue.Conservation.{waiting}
use resource_pool.Async.Queue.Posts.{completions, cells_of}
use resource_pool.Async.Queue.Refinement.{view}
use resource_pool.Async.PoolImpl
use resource_pool.Async.PoolImpl.{PoolImpl}
use resource_pool.Async.PoolImpl.Cells.{Sound}
use resource_pool.Async.PoolImpl.Disable.{calls_of, turn_away, disable_lem}
use resource_pool.Async.Pool
use resource_pool.Async.Pool.{OnGetHandler}
use resource_pool.Async.Pool.Returns.{Logged}
use resource_pool.Examples.ClientEnds.{Backs}
use resource_pool.Examples.AsyncLoop.{
  Body, Posted, call_client, Loops, posts, runs, times, of_client, at-Brings, Running,
}
use resource_pool.Examples.LoopRuns.{turn, called_client, there_used}

module _ {ℓ} {C T : Type ℓ} (body : Body C T) where
  -- A client that is called with a handle of a cell in use gives it back.
  unfoldable pub GivesBack : Type ℓ
  GivesBack =
      (n : ℕ) (p : PoolImpl (OnGetHandler C) T) (a : Sound n p.storage) (k : Consistent p.callbacks)
      (c : ℕ) (used : 0 < count c p.storage.used) (i : ℕ) (strategy : Strategy)
      (now later : TimePoint) (opened : T) (reading : TimePoint) (stamp : ℤ)
      (early : count_from_min reading ≡ ok stamp)
      → Backs n p a k c used
          (body now later opened reading success (make_handle i strategy (at c)) (p, []))

  -- Every client of the program was called, is to be called, or waits, each as often as it asked; every
  -- call that is to be made is defined, whatever stream is opened, if what it would print does not overflow; and when
  -- no call is to be made every client has been called, no client waits, no cell is in use,
  -- and the destructor of the pool turns nobody away.
  unfoldable pub Settles : List C → PoolImpl (OnGetHandler C) T → Posted C → List C → Type ℓ
  Settles all p posted called =
      ((chosen : C → Bool)
        → times chosen called
            + calls_of (of_client chosen) posted
            + waiting (of_client chosen) (view p.callbacks)
          ≡ times chosen all)
      × ((before after : Posted C) (io : ℕ) (done : Completion (OnGetHandler C))
          → posted ≡ before ++ (io, done) ∷ after
          → (now later : TimePoint) (opened : T) (reading : TimePoint) (stamp : ℤ)
            (early : count_from_min reading ≡ ok stamp)
          → (r : Logged (OnGetHandler C) T) × (call_client body now later opened reading done p
              ≡ ok r))
      × (posted ≡ []
          → (view p.callbacks ≡ [])
            × (PoolImpl.used p ≡ 0)
            × ((chosen : C → Bool) → times chosen called ≡ times chosen all)
            × ((q : PoolImpl (OnGetHandler C) T) × (es : List (Event (OnGetHandler C)))
                × (Pool.destroy (record { impl = some 0 }) p ≡ some (q, es))
                × (completions es ≡ [])))

nobody_waits {ℓ} : {H : Type ℓ} (rs : List (ExpiringRequest H)) → (0 < length rs → ⊥) → rs ≡ []
nobody_waits [] h = refl
nobody_waits (r ∷ rs) h = absurd (h (omega arith))

module _ {ℓ} {C T : Type ℓ} (body : Body C T) (gives : GivesBack body) (n : ℕ) (some_cells : 0 < n)
    (all : List C) where
  one_call :
      (p : PoolImpl (OnGetHandler C) T) (before after : Posted C) (io : ℕ)
      (done : Completion (OnGetHandler C)) (called : List C)
      → Running n all p (before ++ (io, done) ∷ after) called
      → (now later : TimePoint) (opened : T) (reading : TimePoint) (stamp : ℤ)
        (early : count_from_min reading ≡ ok stamp)
      → (r : Logged (OnGetHandler C) T) × (call_client body now later opened reading done p ≡ ok r)
        × Running n all r.0
            ((before ++ after) ++ completions r.1)
            (called ++ (Pool.on_get (run done)).handler ∷ [])
  unfolding GivesBack
  one_call p before after io done called a now later opened reading stamp early =
      let ((c, h, brings), _) = at-Brings before io done after a.bring in
      let (r, e, b) =
        gives n p a.sound a.consistent c
          (there_used n all p before after io done called a c h brings) h.impl h.use_strategy now
          later opened reading stamp early in
      let who = called_client n all p before after io done called a c h brings in
      (
        r,
        ap (λ x. body now later opened reading x.error x.handle (p, [])) who ∙ e,
        turn n all p before after io done called a c h brings b.cells r b.sound b.consistent
            b.handback,
      )

  pub Loops-Running :
      (start : Outcome (Logged (OnGetHandler C) T)) (first : Logged (OnGetHandler C) T)
      → start ≡ ok first
      → Running n all first.0 (completions first.1) []
      → {p : PoolImpl (OnGetHandler C) T} {posted : Posted C} {called : List C}
      → Loops body start p posted called
      → Running n all p posted called
  Loops-Running start first e a (posts r e') =
      subst (λ x. Running n all x.0 (completions x.1) []) (ok-injective (sym e ∙ e')) a
  Loops-Running start first es a
        (runs now later opened reading stamp early before after io done {p} {q} {called} before_it
          e) =
      let (r, er, b) =
        one_call p before after io done called (Loops-Running start first es a before_it) now later
          opened reading stamp early in
      subst
        (λ x.
          Running n all x.0 ((before ++ after) ++ completions x.1)
            (called ++ (Pool.on_get (run done)).handler ∷ []))
        (ok-injective (sym er ∙ e)) b

  Running-over :
      (p : PoolImpl (OnGetHandler C) T) (posted : Posted C) (called : List C)
      → Running n all p posted called
      → posted ≡ []
      → (view p.callbacks ≡ [])
        × (PoolImpl.used p ≡ 0)
        × ((chosen : C → Bool) → times chosen called ≡ times chosen all)
        × ((q : PoolImpl (OnGetHandler C) T) × (es : List (Event (OnGetHandler C))) × (Pool.destroy
                (record { impl = some 0 })
                p
              ≡ some (q, es))
            × (completions es ≡ []))
  unfolding PoolImpl.used Storage.stats calls_of Pool.destroy
  Running-over p posted called a over =
      let unused : 0 ≡ length p.storage.used =
        subst (λ cs. length (cells_of cs) ≡ length p.storage.used) over a.holds.as_many in
      let nobody =
        nobody_waits (view p.callbacks) (λ more. omega (arith, a.busy more, some_cells)) in
      let (q, es, ends, _, _, _, away, _) = disable_lem p in
      (
        nobody,
        sym unused,
        λ chosen. omega (
          arith,
          a.once chosen,
          ap (calls_of (of_client chosen)) over,
          ap (waiting (of_client chosen)) nobody,
        ),
        (q, es, ends, away ∙ ap (map turn_away) nobody),
      )

  pub Running-Settles :
      (p : PoolImpl (OnGetHandler C) T) (posted : Posted C) (called : List C)
      → Running n all p posted called
      → Settles body all p posted called
  unfolding Settles
  Running-Settles p posted called a = (
    a.once,
    (λ before after io done e now later opened reading stamp early.
        let (r, er, _) =
          one_call p before after io done called (subst (λ cs. Running n all p cs called) e a) now
            later opened reading stamp early in
        (r, er)),
    Running-over p posted called a,
  )
