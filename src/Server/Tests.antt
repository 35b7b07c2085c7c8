-- ===== src/Server/Tests.antt =====
-- The server after one request, which the second of its logic handlers takes.
use api_pack.Base.{ℕ, ◌≤◌, ◌+◌, refl, arith, true, [], ◌∷◌, length}
use api_pack.Handler.Messages.{
  LogicHandlerRequest, LogicHandlerResponse, BlockingConcurrentQueue, new_stage, size,
}
use api_pack.Handler.ListQueue.{list_queue, take_first}
use api_pack.Handler.LogicHandler.{LogicHandler, running, deleted, executor_round}
use api_pack.Handler.LogicHandler.Accepting.{never}
use api_pack.Server.{
  Server, Reach, begin, later, receives, works, start_server, receive, after_round, delete_handler,
}
use api_pack.Server.Places.{Placed, Reach-Placed}
use api_pack.Server.Overload.{Reach-overload}
use api_pack.Server.Progress.{Served, Reach-Served}

abbrev requests : BlockingConcurrentQueue LogicHandlerRequest
requests = list_queue LogicHandlerRequest

abbrev responses : BlockingConcurrentQueue LogicHandlerResponse
responses = list_queue LogicHandlerResponse

abbrev asked : Server requests responses ℕ ℕ
asked = receive requests responses ℕ ℕ (start_server requests responses ℕ ℕ 1) 7 ((1 ∷ []) ∷ []) 5

abbrev first : LogicHandlerRequest
first = record { request_timer = 5; requester = 1 }

-- The second logic handler, with the request in its map.
abbrev busy : LogicHandler requests responses
busy = record {
  thread = running;
  is_running = true;
  request_queue = [];
  response_queue = [];
  request_map = (1, new_stage first 100000 100) ∷ [];
  max_request = 128;
  wait_duration_busy = 50;
  wait_duration_idle = 1000;
  calls = new_stage first 100000 100 ∷ [];
}

abbrev taken : Server requests responses ℕ ℕ
taken = after_round requests responses ℕ ℕ asked 1 busy

taken_reached : Reach requests responses ℕ ℕ 1 taken
unfolding start_server receive executor_round take_first
taken_reached =
    later (later begin (receives 7 ((1 ∷ []) ∷ []) 5)) (works 1 1 never _ busy refl refl refl refl)

Reach-Placed_example : Placed requests responses ℕ ℕ taken
Reach-Placed_example = Reach-Placed requests responses ℕ ℕ 1 taken taken_reached

Reach-overload_example : length taken.io_handlers ≤ size requests taken.queue + 512
Reach-overload_example = Reach-overload requests responses ℕ ℕ 1 taken taken_reached

asked_reached : Reach requests responses ℕ ℕ 1 asked
asked_reached = later begin (receives 7 ((1 ∷ []) ∷ []) 5)

Reach-Served_example : Served requests responses ℕ ℕ asked
unfolding receive start_server
Reach-Served_example = Reach-Served requests responses ℕ ℕ 1 asked asked_reached (omega arith)

-- A logic handler that had nothing to do.
abbrev unused : LogicHandler requests responses
unused = record busy { request_map = []; calls = [] }

-- The first logic handler was deleted, while the second has the request in its map.
abbrev one_left : Server requests responses ℕ ℕ
one_left = delete_handler requests responses ℕ ℕ taken 0 (record unused { thread = deleted })
