-- ===== src/Async/Executors.antt =====
-- async/detail and async/pool.hpp: the executor on which a handler that is posted runs, and the handler
-- of unknown type that waits in the queue. Boost's `get_associated_executor` is a parameter for the
-- clients' handlers; for the classes of the library it is their `get_executor`.
use resource_pool.Prelude.{◌≡◌, refl, inl, inr, Bool-cases}
use resource_pool.Error.{failed}
use resource_pool.Async.Handlers.{
  Completion, expired_handler, on_list_iterator_handler, on_error_handler, on_serve_queued_handler,
  Call, run,
}
use resource_pool.Async.Pool.{OnGetHandler, on_get}

-- `list_iterator_handler`: it asks for the executor when it is made, and keeps the handler behind a
-- virtual call.
record ListIteratorHandler {ℓ} (H E : Type ℓ) : Type ℓ where
  executor : E
  impl : H

module _ {ℓ} {H E : Type ℓ} where
  -- `expired_handler::get_executor`
  abbrev expired_executor : (H → E) → H → E
  expired_executor associated_executor h = associated_executor h

  -- `get_executor` of the four function objects that are posted.
  unfoldable get_executor : (H → E) → Completion H → E
  get_executor associated_executor (expired_handler h) = expired_executor associated_executor h
  get_executor associated_executor (on_list_iterator_handler ec it h) = associated_executor h
  get_executor associated_executor (on_error_handler ec h) = associated_executor h
  get_executor associated_executor (on_serve_queued_handler it h) = associated_executor h

  -- The constructor from a handler, and the three call operators, which pass the call on.
  unfoldable list_iterator_handler : (H → E) → H → ListIteratorHandler H E
  list_iterator_handler associated_executor handler = record {
    executor = associated_executor handler;
    impl = handler;
  }

  unfoldable passed_to_impl : Call (ListIteratorHandler H E) → Call H
  passed_to_impl c = record { handler = c.handler.impl; error = c.error; cell = c.cell }

  -- The same function object around the handler of unknown type.
  abbrev erased : (H → E) → Completion H → Completion (ListIteratorHandler H E)
  erased ex (expired_handler h) = expired_handler (list_iterator_handler ex h)
  erased ex (on_list_iterator_handler ec it h) =
      on_list_iterator_handler ec it (list_iterator_handler ex h)
  erased ex (on_error_handler ec h) = on_error_handler ec (list_iterator_handler ex h)
  erased ex (on_serve_queued_handler it h) = on_serve_queued_handler it (list_iterator_handler ex h)

-- `on_get_handler::get_executor`
unfoldable on_get_executor {ℓ} : {C E : Type ℓ} → (C → E) → OnGetHandler C → E
on_get_executor associated_executor h = associated_executor h.handler

handler-on_get {ℓ} :
    {C : Type ℓ} (c : Call (OnGetHandler C)) → (on_get c).handler ≡ c.handler.handler
unfolding on_get
handler-on_get c = elim (Bool-cases (failed c.error)) [
  | inl failing ↦ rw failing refl
  | inr fine ↦ rw fine refl
]

module _ {ℓ} {C E : Type ℓ} (associated_executor : C → E) where
  -- Whether the handler of a client waited in the queue, behind a virtual call, or not, what is posted
  -- makes the same call of it, and runs on the executor that is associated with it.
  erased_lem :
      (c : Completion (OnGetHandler C))
      → (passed_to_impl (run (erased (on_get_executor associated_executor) c)) ≡ run c)
        × (get_executor (λ h. h.executor) (erased (on_get_executor associated_executor) c)
            ≡ associated_executor (on_get (run c)).handler)
        × (get_executor (on_get_executor associated_executor) c
            ≡ associated_executor (on_get (run c)).handler)
  unfolding get_executor on_get_executor list_iterator_handler passed_to_impl run
  erased_lem (expired_handler h) =
      let e = handler-on_get (run (expired_handler h)) in (refl, rw e refl, rw e refl)
  erased_lem (on_list_iterator_handler ec it h) =
      let e = handler-on_get (run (on_list_iterator_handler ec it h)) in
      (refl, rw e refl, rw e refl)
  erased_lem (on_error_handler ec h) =
      let e = handler-on_get (run (on_error_handler ec h)) in (refl, rw e refl, rw e refl)
  erased_lem (on_serve_queued_handler it h) =
      let e = handler-on_get (run (on_serve_queued_handler it h)) in (refl, rw e refl, rw e refl)
