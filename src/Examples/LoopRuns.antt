-- ===== src/Examples/LoopRuns.antt =====
-- examples/async: strand.cc and pool.cc run to their end, in whatever order the loop runs what is posted.
use resource_pool.Prelude.{
  ℕ, ◌+◌, ◌<◌, ◌≡◌, refl, ap, subst, ◌∙◌, Bool, List, [], ◌∷◌, ◌++◌, length, arith, count,
}
use mathlib.Core.List.{append-nil}
use resource_pool.Idle.{Idle}
use resource_pool.Error.{success, failed}
use resource_pool.Storage.{at}
use resource_pool.Storage.Held.{Held, held_in_use, back-Held, passed-Held}
use resource_pool.Handle.{make_handle}
use resource_pool.Async.Handlers.{Completion, run, call, on_serve_queued_handler}
use resource_pool.Async.Queue.{ExpiringRequest}
use resource_pool.Async.Queue.Invariant.{Consistent}
use resource_pool.Async.Queue.Conservation.{tally_one, waiting}
use resource_pool.Async.Queue.Posts.{completions, cells_of, cells_of-append}
use resource_pool.Async.Queue.Refinement.{view}
use resource_pool.Async.PoolImpl.{PoolImpl}
use resource_pool.Async.PoolImpl.Cells.{Sound}
use resource_pool.Async.PoolImpl.Disable.{calls_of}
use resource_pool.Async.PoolImpl.Handback.{Handback, passed, freed}
use resource_pool.Async.Pool
use resource_pool.Async.Pool.{OnGetHandler}
use resource_pool.Async.Pool.Returns.{Logged}
use resource_pool.Examples.ClientEnds.{with_cells}
use resource_pool.Examples.AsyncLoop.{
  Posted, times, of_client, times-append, calls_of-append, AllBring-append, at-Brings, Running,
}

module _ {ℓ} {C T : Type ℓ} (n : ℕ) (all : List C) (p : PoolImpl (OnGetHandler C) T)
    (before after : Posted C) (io : ℕ) (done : Completion (OnGetHandler C)) (called : List C)
    (a : Running n all p (before ++ (io, done) ∷ after) called) (c : ℕ) (h : OnGetHandler C)
    (brings : run done ≡ call h success (at c)) where
  there-Held : Held (cells_of before ++ c ∷ cells_of after) p.storage
  there-Held =
      let x : cells_of ((io, done) ∷ after) ≡ c ∷ cells_of after = rw brings refl in
      subst (λ cs. Held cs p.storage)
        (cells_of-append before ((io, done) ∷ after) ∙ ap (λ cs. cells_of before ++ cs) x) a.holds

  pub there_used : 0 < count c p.storage.used
  there_used = held_in_use p.storage c (cells_of before) (cells_of after) there-Held

  once_there :
      (chosen : C → Bool)
      → times chosen called
          + (calls_of (of_client chosen) before
              + (tally_one (of_client chosen) h + calls_of (of_client chosen) after))
          + waiting (of_client chosen) (view p.callbacks)
        ≡ times chosen all
  once_there chosen =
      let x : calls_of (of_client chosen) ((io, done) ∷ after)
          ≡ tally_one (of_client chosen) h + calls_of (of_client chosen) after =
        unfold calls_of in rw brings refl in
      omega (arith, a.once chosen, calls_of-append chosen before ((io, done) ∷ after), x)

  pub called_client : Pool.on_get (run done) ≡ record {
    handler = h.handler;
    error = success;
    handle = make_handle h.impl h.use_strategy (at c);
  }
  unfolding Pool.on_get failed
  called_client = rw brings refl

  -- The client has given its cell back.
  pub turn :
      (cells : ℕ → Idle T) (r : Logged (OnGetHandler C) T)
      → Sound n r.0.storage
      → Consistent r.0.callbacks
      → Handback (with_cells n p a.sound a.consistent c there_used cells) c r
      → Running n all r.0
          ((before ++ after) ++ completions r.1)
          (called ++ (Pool.on_get (run done)).handler ∷ [])
  unfolding run calls_of
  turn cells r sound consistent (passed s q es next v free same wasted e) =
      let goes : Posted C = (next.io_context, on_serve_queued_handler (at c) next.request) ∷ [] in
      rw (e, called_client)
        (record {
          sound = sound;
          consistent = consistent;
          holds =
              rw (cells_of-append (before ++ after) goes, cells_of-append before after)
                (passed-Held p.storage c (cells_of before) (cells_of after) there-Held s same);
          bring =
              AllBring-append (before ++ after) goes (at-Brings before io done after a.bring).1
                ((c, next.request, refl), tt);
          busy = λ more.
              let all_used = a.busy (omega (arith, ap (length {A = ExpiringRequest _}) v)) in
              omega (arith, all_used, ap (length {A = ℕ}) same);
          once = λ chosen. omega (
            arith,
            once_there chosen,
            times-append chosen called (h.handler ∷ []),
            calls_of-append chosen (before ++ after) goes,
            calls_of-append chosen before after,
            ap (waiting (of_client chosen)) v,
          );
        })
  turn cells r sound consistent (freed s q es v v' less e) =
      rw (e, called_client)
        (record {
          sound = sound;
          consistent = consistent;
          holds =
              rw (append-nil (before ++ after), cells_of-append before after)
                (back-Held p.storage c (cells_of before) (cells_of after) there-Held s less);
          bring = rw (append-nil (before ++ after)) (at-Brings before io done after a.bring).1;
          busy = λ more. absurd (omega (arith, more, ap (length {A = ExpiringRequest _}) v'));
          once = λ chosen. omega (
            arith,
            once_there chosen,
            times-append chosen called (h.handler ∷ []),
            calls_of-append chosen (before ++ after) [],
            calls_of-append chosen before after,
            ap (waiting (of_client chosen)) v,
            ap (waiting (of_client chosen)) v',
          );
        })
