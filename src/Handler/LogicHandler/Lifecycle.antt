-- ===== src/Handler/LogicHandler/Lifecycle.antt =====
-- The thread of LogicHandler.cpp after `stopAndWait` and in the destructor.
use mathlib.Core.Option
use mathlib.Core.Path.{subst}
use api_pack.Base.{some_injective, ℕ, ◌≤◌, ◌≡◌, refl, sym, ap, arith, some, []}
use api_pack.Handler.Messages.{
  LogicHandlerRequest, LogicHandlerResponse, BlockingConcurrentQueue, size, size-enqueue,
}
use api_pack.Handler.RequestMap.{RequestMap}
use api_pack.Handler.LogicHandler.{
  Thread, no_thread, running, finished, joined, deleted, start, start_in, stop, leave_loop,
  stop_and_wait, stop_and_wait_in, destruct, destruct_in, join_in, delete_thread, delete_members,
  Step, loop_round, loop_ends, request_arrives, response_arrives, start_called, stop_called, Steps,
  here, later,
}
use api_pack.Handler.LogicHandler.Rules.{Handler}

module _ (requests : BlockingConcurrentQueue LogicHandlerRequest)
    (responses : BlockingConcurrentQueue LogicHandlerResponse) where
  -- The thread was joined, the map is `m`, and at least `n` requests wait.
  abbrev Dead : RequestMap → ℕ → Handler requests responses → Type 0
  Dead m n h = (h.thread ≡ joined) × (h.request_map ≡ m) × (n ≤ size requests h.request_queue)

  Step-Dead :
      {m : RequestMap} {n : ℕ} {h h' : Handler requests responses}
      → Dead m n h
      → Step requests responses h h'
      → Dead m n h'
  unfolding stop leave_loop start start_in
  Step-Dead d (loop_round fuel timed_out t flag e) = absurd (cc (d.0))
  Step-Dead d (loop_ends t stopped) = absurd (cc (d.0))
  Step-Dead {h} d (request_arrives r) =
      (d.0, d.1, omega (arith, d.2, size-enqueue requests h.request_queue r))
  Step-Dead d (response_arrives r) = d
  Step-Dead {m} {n} {h} d start_called =
      subst (λ t. Dead m n (start_in requests responses t h)) (sym d.0) d
  Step-Dead d stop_called = d

  Steps-Dead :
      {m : RequestMap} {n : ℕ} {h h' : Handler requests responses}
      → Dead m n h
      → Steps requests responses h h'
      → Dead m n h'
  Steps-Dead d here = d
  Steps-Dead d (later before s) = Step-Dead (Steps-Dead d before) s

  stopped-Dead :
      (t : Thread) (h h' : Handler requests responses)
      → stop_and_wait_in requests responses t h ≡ some h'
      → Dead h.request_map (size requests h.request_queue) h'
  unfolding stop_and_wait_in stop leave_loop
  stopped-Dead no_thread h h' e = cc
  stopped-Dead running h h' e =
      subst (Dead h.request_map (size requests h.request_queue)) (some_injective e)
        (refl, refl, omega arith)
  stopped-Dead finished h h' e =
      subst (Dead h.request_map (size requests h.request_queue)) (some_injective e)
        (refl, refl, omega arith)
  stopped-Dead joined h h' e = cc
  stopped-Dead deleted h h' e = cc

  -- After `stopAndWait` has returned, the handler never works again, whatever else is called,
  -- `start` included: its thread stays joined, its map is as it was, and no request that waited is
  -- taken from the queue.
  pub stop_and_wait-Steps :
      (h h' h'' : Handler requests responses)
      → stop_and_wait requests responses h ≡ some h'
      → Steps requests responses h' h''
      → (h''.thread ≡ joined)
        × (h''.request_map ≡ h.request_map)
        × (size requests h.request_queue ≤ size requests h''.request_queue)
  unfolding stop_and_wait
  stop_and_wait-Steps h h' h'' e steps = Steps-Dead (stopped-Dead h.thread h h' e) steps

  -- The thread was joined and deleted, and the map is gone.
  abbrev pub IsDeleted : Handler requests responses → Type 0
  IsDeleted h = (h.thread ≡ deleted) × (h.request_map ≡ [])

  -- The destructor of a handler whose thread is in its loop returns.
  pub destruct-IsDeleted :
      (h : Handler requests responses)
      → h.thread ≡ running
      → (h' : Handler requests responses) × (destruct requests responses h ≡ some h') × IsDeleted h'
  unfolding destruct destruct_in join_in delete_thread delete_members stop leave_loop
  destruct-IsDeleted h runs = (
    _,
    ap (λ t. Option.map (delete_members requests responses) (destruct_in requests responses t h))
        runs,
    (refl, refl),
  )
