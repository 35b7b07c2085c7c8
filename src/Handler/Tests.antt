-- ===== src/Handler/Tests.antt =====
-- The handlers over queues in the order of arrival.
use api_pack.Base.{◌≤◌, ℕ, ◌≡◌, refl, arith, true, none, some, [], ◌∷◌, ◌==◌, if◌then◌else◌}
use api_pack.Handler.Messages.{
  ready, terminated, LogicHandlerRequest, LogicHandlerResponse, BlockingConcurrentQueue, new_stage,
  size,
}
use api_pack.Handler.ListQueue.{list_queue}
use api_pack.Handler.RequestMap.{RequestMap, find_request, apply_response}
use api_pack.Handler.RequestMap.Lookup.{Distinct, answered, find-apply_response}
use api_pack.Handler.LogicHandler.{
  LogicHandler, running, joined, executor_round, stop_and_wait, stop, start, leave_loop, loop_round,
  request_arrives, response_arrives, start_called, here, later,
}
use api_pack.Handler.LogicHandler.Capacity.{
  WithinCapacity, Steps-WithinCapacity, Stuck, Steps-Stuck,
}
use api_pack.Handler.LogicHandler.Draining.{Called, executor_round-total}
use api_pack.Handler.LogicHandler.Accepting.{never}
use api_pack.Handler.LogicHandler.Lifecycle.{stop_and_wait-Steps}
use api_pack.Handler.IoHandler.{IoHandler, set_response_queue}
use api_pack.Handler.IoHandler.Notices.{
  pauses, resumes, fails, status_after, handle_events, told, told_if_pending,
  handle_events-set_response_queue,
}

abbrev requests : BlockingConcurrentQueue LogicHandlerRequest
requests = list_queue LogicHandlerRequest

abbrev responses : BlockingConcurrentQueue LogicHandlerResponse
responses = list_queue LogicHandlerResponse

abbrev from_64 : LogicHandlerRequest
from_64 = record { request_timer = 5; requester = 64 }

abbrev ended : LogicHandlerResponse
ended = record { code = terminated; io_handler = 64 }

abbrev one_request : RequestMap
one_request = (64, new_stage from_64 100000 100) ∷ []

-- A handler that may hold one request, and holds one that has ended.
abbrev full : LogicHandler requests responses
full = record {
  thread = running;
  is_running = true;
  request_queue = [];
  response_queue = ended ∷ [];
  request_map = one_request;
  max_request = 1;
  wait_duration_busy = 50;
  wait_duration_idle = 1000;
  calls = [];
}

abbrev roomy : LogicHandler requests responses
roomy = record full { max_request = 128 }

Steps-WithinCapacity_example :
    WithinCapacity requests responses 1 (record full { request_queue = from_64 ∷ [] })
unfolding executor_round
Steps-WithinCapacity_example =
    Steps-WithinCapacity requests responses 1 full (record full { request_queue = from_64 ∷ [] })
      (omega arith, refl)
      (later (later here (loop_round 1 never refl refl refl)) (request_arrives from_64))

Steps-Stuck_example :
    Stuck requests responses one_request 1 (record full { response_queue = ended ∷ ended ∷ [] })
unfolding executor_round
Steps-Stuck_example =
    Steps-Stuck requests responses 1 full (record full { response_queue = ended ∷ ended ∷ [] })
      one_request (refl, omega arith, omega arith)
      (later (later here (loop_round 1 never refl refl refl)) (response_arrives ended))

find-apply_response_example : find_request 64 (apply_response ended one_request) ≡ (
    if 64 == 64
    then answered terminated (find_request 64 one_request)
    else find_request 64 one_request)
unfolding Distinct find_request
find-apply_response_example = find-apply_response ended 64 one_request (refl, tt)

executor_round-total_example :
    (h' : LogicHandler requests responses) × (executor_round requests responses 2 never roomy
      ≡ some h')
    × (size responses h'.response_queue ≤ size responses roomy.response_queue)
    × Called h'.request_map h'.calls
executor_round-total_example =
    executor_round-total requests responses 2 never roomy (omega arith) (omega arith)

-- After `stopAndWait` the handler is started again and a request arrives.
stop_and_wait-Steps_example : (joined ≡ joined) × (one_request ≡ one_request) × (0 ≤ 1)
unfolding stop_and_wait stop leave_loop start
stop_and_wait-Steps_example =
    let stopped : LogicHandler requests responses = record roomy { thread = joined } in
    stop_and_wait-Steps requests responses roomy stopped
      (record stopped { request_queue = from_64 ∷ [] }) refl
      (later (later here start_called) (request_arrives from_64))

abbrev fresh : IoHandler requests responses ℕ ℕ
fresh = record {
  address = 64;
  request_body = none;
  request_queue = some [];
  headers = none;
  response_queue = none;
  status = ready;
}

handle_events-set_response_queue_example :
    let s = status_after ready (pauses ∷ []) in
    let h' = handle_events requests responses ℕ ℕ (resumes ∷ fails ∷ []) (
      set_response_queue requests responses ℕ ℕ
        (handle_events requests responses ℕ ℕ (pauses ∷ []) fresh)
        []) in
    (h'.response_queue
      ≡ some (
          told requests responses ℕ ℕ 64
            (resumes ∷ fails ∷ [])
            (told_if_pending requests responses ℕ ℕ 64 s [])))
    × (h'.status ≡ status_after s (resumes ∷ fails ∷ []))
handle_events-set_response_queue_example =
    handle_events-set_response_queue requests responses ℕ ℕ (pauses ∷ []) (resumes ∷ fails ∷ [])
      fresh [] refl
