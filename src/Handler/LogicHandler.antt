-- ===== src/Handler/LogicHandler.antt =====
-- source/handler/LogicHandler.h and LogicHandler.cpp: the thread that takes requests from one queue
-- and answers of the IOHandlers from another. A round of its loop is one step; other threads act
-- between the rounds. `handleRequestLogic` has an empty body: the model lists its calls.
pub mod Rules
pub mod Capacity
pub mod Draining
pub mod Accepting
pub mod Lifecycle
use mathlib.Core.Option
use api_pack.Base.{
  ℕ, zero, suc, ◌*◌, ◌≡◌, Bool, true, false, not, Option, none, some, List, [], ◌∷◌, ltb, length,
  if◌then◌else◌,
}
use api_pack.Handler.Messages.{
  LogicHandlerResponse, LogicHandlerRequest, LogicHandlerRequestStage, new_stage,
  BlockingConcurrentQueue,
}
use api_pack.Handler.RequestMap.{RequestMap, insert_request, apply_response, served}

-- `mThread`: the null pointer, a thread in its loop, one that left it, one that was joined, and one
-- that the destructor joined and deleted.
pub data Thread : Type 0 where
  no_thread running finished joined deleted : Thread

module _ (requests : BlockingConcurrentQueue LogicHandlerRequest)
    (responses : BlockingConcurrentQueue LogicHandlerResponse) where
  pub record LogicHandler : Type 0 where
    pub thread : Thread
    pub is_running : Bool
    pub request_queue : requests.Queue
    pub response_queue : responses.Queue
    pub request_map : RequestMap
    pub max_request : ℕ
    pub wait_duration_busy : ℕ
    pub wait_duration_idle : ℕ
    pub calls : List LogicHandlerRequestStage

  -- `LogicHandler(queue)`.
  unfoldable pub construct : requests.Queue → LogicHandler
  construct q = record {
    thread = no_thread;
    is_running = false;
    request_queue = q;
    response_queue = responses.empty;
    request_map = [];
    max_request = 128;
    wait_duration_busy = 50;
    wait_duration_idle = 1000;
    calls = [];
  }

  start_in : Thread → LogicHandler → LogicHandler
  start_in no_thread h = record h { is_running = true; thread = running }
  start_in running h = h
  start_in finished h = h
  start_in joined h = h
  start_in deleted h = h

  -- `start()`: nothing unless `mThread` is null.
  unfoldable pub start : LogicHandler → LogicHandler
  unfolding start_in
  start h = start_in h.thread h

  unfoldable pub stop : LogicHandler → LogicHandler
  stop h = record h { is_running = false }

  -- The loop's test fails: `test_and_set` sets the flag again, and the thread ends.
  unfoldable pub leave_loop : LogicHandler → LogicHandler
  leave_loop h = record h { is_running = true; thread = finished }

  stop_and_wait_in : Thread → LogicHandler → Option LogicHandler
  unfolding stop leave_loop
  stop_and_wait_in no_thread h = none
  stop_and_wait_in running h = some (record (leave_loop (stop h)) { thread = joined })
  stop_and_wait_in finished h = some (record (stop h) { thread = joined })
  stop_and_wait_in joined h = none
  stop_and_wait_in deleted h = none

  -- `stopAndWait()`, over when the thread has left its loop. `none`: there is no thread to join.
  unfoldable pub stop_and_wait : LogicHandler → Option LogicHandler
  unfolding stop_and_wait_in
  stop_and_wait h = stop_and_wait_in h.thread h

  -- `mThread->join()` on a thread in its loop. `none`: the flag stays set, so the loop never ends.
  join_in : Bool → LogicHandler → Option LogicHandler
  unfolding leave_loop
  join_in true h = none
  join_in false h = some (leave_loop h)

  delete_thread : LogicHandler → LogicHandler
  delete_thread h = record h { thread = deleted }

  destruct_in : Thread → LogicHandler → Option LogicHandler
  unfolding stop join_in delete_thread
  destruct_in no_thread h = some h
  destruct_in running h = Option.map delete_thread (join_in (stop h).is_running (stop h))
  destruct_in finished h = some (delete_thread (stop h))
  destruct_in joined h = some h
  destruct_in deleted h = some h

  -- The members end with the object: its map, and the answers that wait.
  delete_members : LogicHandler → LogicHandler
  delete_members h = record h { request_map = []; response_queue = responses.empty }

  -- `~LogicHandler()` stops, joins and deletes a thread that can be joined: one that is not joined.
  -- `none` if it does not return.
  unfoldable pub destruct : LogicHandler → Option LogicHandler
  unfolding destruct_in delete_members
  destruct h = Option.map delete_members (destruct_in h.thread h)

  -- Milliseconds: `mWaitDurationBusy` if the map has an entry.
  unfoldable pub wait_duration : RequestMap → LogicHandler → ℕ
  wait_duration [] h = h.wait_duration_idle
  wait_duration (_ ∷ _) h = h.wait_duration_busy

  store_request : LogicHandler → Option (LogicHandlerRequest × requests.Queue) → LogicHandler
  unfolding insert_request
  store_request h none = h
  store_request h (some (r, q)) = record h {
    request_queue = q;
    request_map = insert_request r.requester (new_stage r 100000 100) h.request_map;
  }

  -- `wait_dequeue_timed`, which may time out, as `timed_out` decides of its microseconds.
  unfoldable pub accept_request : (ℕ → Bool) → LogicHandler → LogicHandler
  unfolding store_request wait_duration
  accept_request timed_out h =
      if timed_out (wait_duration h.request_map h * 1000)
      then h
      else store_request h (requests.wait_dequeue h.request_queue)

  -- One round of the loop over the answers, with the rounds that follow.
  drain_with :
      (LogicHandler → Option LogicHandler)
      → LogicHandler
      → Option (LogicHandlerResponse × responses.Queue)
      → Option LogicHandler
  unfolding apply_response
  drain_with loop h none = some h
  drain_with loop h (some (r, q)) =
      loop (record h { response_queue = q; request_map = apply_response r h.request_map })

  -- `while(mResponseQueue->try_dequeue(response))`; `none` when the fuel is used up.
  unfoldable pub drain_responses : ℕ → LogicHandler → Option LogicHandler
  unfolding drain_with
  drain_responses zero h = none
  drain_responses (suc fuel) h =
      drain_with (drain_responses fuel) h (responses.try_dequeue h.response_queue)

  unfoldable pub process_requests : LogicHandler → LogicHandler
  unfolding served
  process_requests h = record h { calls = served h.request_map }

  finish_round : Option LogicHandler → Option LogicHandler
  unfolding process_requests
  finish_round none = none
  finish_round (some h) = some (process_requests h)

  -- The body of the executor's loop.
  unfoldable pub executor_round : ℕ → (ℕ → Bool) → LogicHandler → Option LogicHandler
  unfolding accept_request drain_responses finish_round
  executor_round fuel timed_out h =
      if ltb (length h.request_map) h.max_request
      then finish_round (drain_responses fuel (accept_request timed_out h))
      else some (record h { calls = [] })

  -- What happens to a handler: a round of its loop, which runs while the flag is set, the end of
  -- the loop, and what other threads do.
  pub data Step (h : LogicHandler) : LogicHandler → Type 0 where
    loop_round :
        {h' : LogicHandler} (fuel : ℕ) (timed_out : ℕ → Bool)
        → h.thread ≡ running
        → h.is_running ≡ true
        → executor_round fuel timed_out h ≡ some h'
        → Step h h'
    loop_ends : h.thread ≡ running → h.is_running ≡ false → Step h (leave_loop h)
    request_arrives :
        (r : LogicHandlerRequest)
        → Step h (record h { request_queue = requests.enqueue h.request_queue r })
    response_arrives :
        (r : LogicHandlerResponse)
        → Step h (record h { response_queue = responses.enqueue h.response_queue r })
    start_called : Step h (start h)
    stop_called : Step h (stop h)

  pub data Steps (h : LogicHandler) : LogicHandler → Type 0 where
    here : Steps h h
    later : {h' h'' : LogicHandler} → Steps h h' → Step h' h'' → Steps h h''
