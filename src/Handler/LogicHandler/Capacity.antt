-- ===== src/Handler/LogicHandler/Capacity.antt =====
-- The bound on the map of requests of LogicHandler.cpp, and what happens when it is reached.
use api_pack.Base.{ℕ, ◌≤◌, ◌≡◌, ap, arith, Bool, true, some, length}
use api_pack.Handler.Messages.{
  LogicHandlerRequest, LogicHandlerResponse, BlockingConcurrentQueue, new_stage, size, size-enqueue,
}
use api_pack.Handler.RequestMap.{RequestMap}
use api_pack.Handler.RequestMap.Size.{length-insert, length-apply_response}
use api_pack.Handler.LogicHandler.{
  Thread, no_thread, running, finished, joined, deleted, start, start_in, stop, leave_loop,
  executor_round, Step, loop_round, loop_ends, request_arrives, response_arrives, start_called,
  stop_called, Steps, here, later,
}
use api_pack.Handler.LogicHandler.Rules.{Handler, accept_rule, round_rule}

module _ (requests : BlockingConcurrentQueue LogicHandlerRequest)
    (responses : BlockingConcurrentQueue LogicHandlerResponse) where
  -- The map has at most as many entries as the handler may hold.
  abbrev pub WithinCapacity : ℕ → Handler requests responses → Type 0
  WithinCapacity n h = (length h.request_map ≤ n) × (h.max_request ≡ n)

  pub start_lem :
      (P : Handler requests responses → Type 0) (h : Handler requests responses)
      → P h
      → P (record h { is_running = true; thread = running })
      → P (start requests responses h)
  unfolding start
  start_lem P h p q = started h.thread
    where
      started : (t : Thread) → P (start_in requests responses t h)
      started no_thread = unfold start_in in q
      started running = unfold start_in in p
      started finished = unfold start_in in p
      started joined = unfold start_in in p
      started deleted = unfold start_in in p

  pub round-WithinCapacity :
      (fuel n : ℕ) (timed_out : ℕ → Bool) (h h' : Handler requests responses)
      → WithinCapacity n h
      → executor_round requests responses fuel timed_out h ≡ some h'
      → WithinCapacity n h'
  round-WithinCapacity fuel n timed_out h h' w e =
      round_rule requests responses (WithinCapacity n) fuel timed_out h h'
        (λ room. accept_rule requests responses (WithinCapacity n) timed_out h w (λ r q _. (
          omega (arith, w.1, length-insert r.requester (new_stage r 100000 100) h.request_map),
          w.1,
        )))
        (λ room d r q _ v. (omega (arith, v.0, length-apply_response r d.request_map), v.1))
        (λ d calls v. v) (λ _. w) e

  Step-WithinCapacity :
      {n : ℕ} {h h' : Handler requests responses}
      → WithinCapacity n h
      → Step requests responses h h'
      → WithinCapacity n h'
  unfolding stop leave_loop
  Step-WithinCapacity {n} {h} {h'} w (loop_round fuel timed_out t flag e) =
      round-WithinCapacity fuel n timed_out h h' w e
  Step-WithinCapacity w (loop_ends t stopped) = w
  Step-WithinCapacity w (request_arrives r) = w
  Step-WithinCapacity w (response_arrives r) = w
  Step-WithinCapacity {n} {h} w start_called = start_lem (WithinCapacity n) h w w
  Step-WithinCapacity w stop_called = w

  -- Whatever the rounds of the loop, the arrivals, starts and stops, a handler that begins within
  -- its capacity never holds more requests than `mMaxRequest`, which does not change.
  pub Steps-WithinCapacity :
      (n : ℕ) (h h' : Handler requests responses)
      → WithinCapacity n h
      → Steps requests responses h h'
      → WithinCapacity n h'
  Steps-WithinCapacity n h h' w here = w
  Steps-WithinCapacity n h h' w (later before s) =
      Step-WithinCapacity (Steps-WithinCapacity n h _ w before) s

  -- The map is full, and at least `n` answers wait.
  abbrev pub Stuck : RequestMap → ℕ → Handler requests responses → Type 0
  Stuck m n h =
      (h.request_map ≡ m) × (h.max_request ≤ length m) × (n ≤ size responses h.response_queue)

  Step-Stuck :
      {n : ℕ} {m : RequestMap} {h h' : Handler requests responses}
      → Stuck m n h
      → Step requests responses h h'
      → Stuck m n h'
  unfolding stop leave_loop
  Step-Stuck {n} {m} {h} {h'} w (loop_round fuel timed_out t flag e) =
      round_rule requests responses (Stuck m n) fuel timed_out h h'
        (λ room. absurd (omega (arith, w.1, ap length w.0)))
        (λ room. absurd (omega (arith, w.1, ap length w.0))) (λ d calls v. v) (λ _. w) e
  Step-Stuck w (loop_ends t stopped) = w
  Step-Stuck w (request_arrives r) = w
  Step-Stuck {h} w (response_arrives r) =
      (w.0, w.1, omega (arith, w.2, size-enqueue responses h.response_queue r))
  Step-Stuck {n} {m} {h} w start_called = start_lem (Stuck m n) h w w
  Step-Stuck w stop_called = w

  -- A full handler stays as it is: whatever the rounds and the arrivals, its map does not change
  -- and stays full, and at least as many answers wait in the queue as before.
  pub Steps-Stuck :
      (n : ℕ) (h h' : Handler requests responses) (m : RequestMap)
      → Stuck m n h
      → Steps requests responses h h'
      → Stuck m n h'
  Steps-Stuck n h h' m w here = w
  Steps-Stuck n h h' m w (later before s) = Step-Stuck (Steps-Stuck n h _ m w before) s
