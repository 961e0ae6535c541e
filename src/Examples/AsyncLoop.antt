-- ===== src/Examples/AsyncLoop.antt =====
-- examples/async: the loop that runs what a program's calls of `get` have posted, in any order. A client's
-- call runs as a whole: the programs have one thread or one strand.
use resource_pool.Prelude.{ℕ, ◌+◌, ◌<◌, ◌≤◌, ◌≡◌, refl, Bool, List, [], ◌∷◌, ◌++◌, length, arith}
use resource_pool.Prelude.Int.{ℤ}
use resource_pool.Examples.{count_from_min}
use resource_pool.Outcome.{Outcome, ok}
use resource_pool.Error.{ErrorCode, success}
use resource_pool.TimeTraits.{TimePoint}
use resource_pool.Storage.{at}
use resource_pool.Storage.Held.{Held}
use resource_pool.Handle.{Handle}
use resource_pool.Async.Handlers.{Completion, run, call, Event}
use resource_pool.Async.Queue.Invariant.{Consistent}
use resource_pool.Async.Queue.Conservation.{tally_one, waiting}
use resource_pool.Async.Queue.Posts.{completions, cells_of}
use resource_pool.Async.Queue.Refinement.{view}
use resource_pool.Async.PoolImpl.{PoolImpl}
use resource_pool.Async.PoolImpl.Cells.{Sound}
use resource_pool.Async.PoolImpl.Disable.{calls_of}
use resource_pool.Async.Pool
use resource_pool.Async.Pool.{OnGetHandler}
use resource_pool.Async.Pool.Returns.{Logged}

-- A call of the client: two readings of the clock, the stream that it may open, the number that it prints,
-- and what the pool answers.
abbrev pub Body {ℓ} : Type ℓ → Type ℓ → Type ℓ
Body C T =
    TimePoint
    → TimePoint
    → T
    → TimePoint
    → ErrorCode
    → Handle
    → Logged (OnGetHandler C) T
    → Outcome (Logged (OnGetHandler C) T)

abbrev pub Posted {ℓ} : Type ℓ → Type ℓ
Posted C = List (ℕ × Completion (OnGetHandler C))

module _ {ℓ} {C T : Type ℓ} (body : Body C T) where
  abbrev pub call_client :
      TimePoint
      → TimePoint
      → T
      → TimePoint
      → Completion (OnGetHandler C)
      → PoolImpl (OnGetHandler C) T
      → Outcome (Logged (OnGetHandler C) T)
  call_client now later opened reading done p =
      let c = Pool.on_get (run done) in body now later opened reading c.error c.handle (p, [])

  -- What the calls of `get` have left runs: the pool, what is posted and has not run, and the clients that
  -- were called.
  pub data Loops (start : Outcome (Logged (OnGetHandler C) T))
      : PoolImpl (OnGetHandler C) T → Posted C → List C → Type ℓ where
    posts : (r : Logged (OnGetHandler C) T) → start ≡ ok r → Loops start r.0 (completions r.1) []
    runs :
        (now later : TimePoint) (opened : T) (reading : TimePoint) (stamp : ℤ)
        (early : count_from_min reading ≡ ok stamp) (before after : Posted C) (io : ℕ)
        (done : Completion (OnGetHandler C)) {p q : PoolImpl (OnGetHandler C) T} {called : List C}
        {es : List (Event (OnGetHandler C))}
        → Loops start p (before ++ (io, done) ∷ after) called
        → call_client now later opened reading done p ≡ ok (q, es)
        → Loops start q
            ((before ++ after) ++ completions es)
            (called ++ (Pool.on_get (run done)).handler ∷ [])

module _ {ℓ} {C : Type ℓ} (chosen : C → Bool) where
  abbrev pub times : List C → ℕ
  times [] = 0
  times (c ∷ cs) = tally_one chosen c + times cs

  abbrev pub of_client : OnGetHandler C → Bool
  of_client h = chosen h.handler

  pub times-append : (cs ds : List C) → times (cs ++ ds) ≡ times cs + times ds
  times-append [] ds = omega arith
  times-append (c ∷ cs) ds = omega (arith, times-append cs ds)

  pub calls_of-append :
      (cs ds : Posted C)
      → calls_of of_client (cs ++ ds) ≡ calls_of of_client cs + calls_of of_client ds
  unfolding calls_of
  calls_of-append [] ds = omega arith
  calls_of-append ((io, c) ∷ cs) ds = omega (arith, calls_of-append cs ds)

-- An answer with a cell.
abbrev pub Brings {ℓ} : {C : Type ℓ} → Completion (OnGetHandler C) → Type ℓ
Brings {C = C} done = (c : ℕ) × (h : OnGetHandler C) × (run done ≡ call h success (at c))

abbrev pub AllBring {ℓ} : {C : Type ℓ} → Posted C → Type ℓ
AllBring [] = Unit
AllBring ((io, done) ∷ cs) = Brings done × AllBring cs

module _ {ℓ} {C : Type ℓ} where
  pub AllBring-append : (cs ds : Posted C) → AllBring cs → AllBring ds → AllBring (cs ++ ds)
  AllBring-append [] ds a b = b
  AllBring-append ((io, done) ∷ cs) ds a b = (a.0, AllBring-append cs ds a.1 b)

  pub at-Brings :
      (before : Posted C) (io : ℕ) (done : Completion (OnGetHandler C)) (after : Posted C)
      → AllBring (before ++ (io, done) ∷ after)
      → Brings done × AllBring (before ++ after)
  at-Brings [] io done after a = a
  at-Brings ((io', done') ∷ before) io done after a =
      let (b, rest) = at-Brings before io done after a.1 in (b, (a.0, rest))

  pub no_cells : (cs : Posted C) → AllBring cs → cells_of cs ≡ [] → cs ≡ []
  no_cells [] a e = refl
  no_cells ((io, done) ∷ cs) ((c, h, r), a) e =
      let x : cells_of ((io, done) ∷ cs) ≡ c ∷ cells_of cs = rw r refl in absurd (cc)

-- Every client that was named by `all` was called, is to be called by what is posted, or waits; what is
-- posted brings the cells in use, each once; and somebody waits only while all cells are in use.
pub record Running {ℓ} {C T : Type ℓ} (n : ℕ) (all : List C) (p : PoolImpl (OnGetHandler C) T)
    (posted : Posted C) (called : List C) : Type ℓ where
  pub sound : Sound n p.storage
  pub consistent : Consistent p.callbacks
  pub holds : Held (cells_of posted) p.storage
  pub bring : AllBring posted
  pub busy : 0 < length (view p.callbacks) → n ≤ length p.storage.used
  pub once :
      (chosen : C → Bool)
      → times chosen called
          + calls_of (of_client chosen) posted
          + waiting (of_client chosen) (view p.callbacks)
        ≡ times chosen all
