-- ===== src/Server.antt =====
-- source/server/main.cpp: the server's threads, which share one queue of requests. A thread of the
-- HTTP server makes a handler for each request and feeds it; four logic handlers take the requests.
-- Each handler's model has the queue of requests in a field: a step puts the shared queue there.
pub mod Family
pub mod Rounds
pub mod Places
pub mod Overload
pub mod Progress
pub mod Shutdown
mod Tests
use api_pack.Base.{
  ℕ, suc, ◌≡◌, Bool, true, false, Option, none, some, List, [], ◌∷◌, length, get_elem?, set,
}
use api_pack.Handler.Messages.{LogicHandlerRequest, LogicHandlerResponse, BlockingConcurrentQueue}
use api_pack.Handler.IoHandler.{IoHandler, on_request, on_eom}
use api_pack.Handler.IoHandler.Notices.{Event, handle_event, on_bodies}
use api_pack.Handler.IoHandlerFactory
use api_pack.Handler.IoHandlerFactory.{IoHandlerFactory, new_handler, on_server_start}
use api_pack.Handler.LogicHandler
use api_pack.Handler.LogicHandler.{LogicHandler, Thread, running, start, executor_round, destruct}

module _ (requests : BlockingConcurrentQueue LogicHandlerRequest)
    (responses : BlockingConcurrentQueue LogicHandlerResponse) (HttpMessage Buf : Type 0) where
  -- The handlers of requests are never deleted, so their addresses differ: the last one of `n` is
  -- at address `n`.
  pub record Server : Type 0 where
    pub queue : requests.Queue
    pub factory : IoHandlerFactory requests responses HttpMessage Buf
    pub io_handlers : List (IoHandler requests responses HttpMessage Buf)
    pub logic_handlers : List (LogicHandler requests responses)

  started : requests.Queue → LogicHandler requests responses
  unfolding start LogicHandler.construct
  started q = start requests responses (LogicHandler.construct requests responses q)

  -- `main` up to `server.start()`, which tells the factory of its event base.
  unfoldable pub start_server : ℕ → Server
  unfolding started on_server_start IoHandlerFactory.construct
  start_server base =
      let q = requests.empty in
      record {
        queue = q;
        factory =
            on_server_start requests responses HttpMessage Buf
              (IoHandlerFactory.construct requests responses HttpMessage Buf (some q)) base;
        io_handlers = [];
        logic_handlers = started q ∷ started q ∷ started q ∷ started q ∷ [];
      }

  queue_or : requests.Queue → Option requests.Queue → requests.Queue
  queue_or q none = q
  queue_or q (some q') = q'

  -- A request: the factory's handler gets the headers, the chunks of the body and their end, at
  -- which it puts itself into the queue.
  unfoldable pub receive : Server → HttpMessage → List (List Buf) → ℕ → Server
  unfolding queue_or new_handler on_request on_eom on_bodies
  receive s headers bodies now =
      let f = record (s.factory) { queue = some s.queue } in
      let io = new_handler requests responses HttpMessage Buf f (suc (length s.io_handlers)) in
      let fed =
        on_bodies requests responses HttpMessage Buf bodies
          (on_request requests responses HttpMessage Buf io headers) in
      let ended = on_eom requests responses HttpMessage Buf fed now in
      record s { queue = queue_or s.queue ended.request_queue; io_handlers = ended ∷ s.io_handlers }

  -- A round of a logic handler, on the shared queue.
  abbrev pub with_queue : Server → LogicHandler requests responses → LogicHandler requests responses
  with_queue s h = record h { request_queue = s.queue }

  unfoldable pub after_round : Server → ℕ → LogicHandler requests responses → Server
  after_round s i h = record s {
    queue = h.request_queue;
    logic_handlers = set s.logic_handlers i h;
  }

  -- What happens while the server runs.
  pub data Step (s : Server) : Server → Type 0 where
    receives :
        (headers : HttpMessage) (bodies : List (List Buf)) (now : ℕ)
        → Step s (receive s headers bodies now)
    notifies :
        (k : ℕ) (io : IoHandler requests responses HttpMessage Buf) (e : Event)
        → get_elem? s.io_handlers k ≡ some io
        → Step s (record s {
          io_handlers = set s.io_handlers k (handle_event requests responses HttpMessage Buf e io);
        })
    works :
        (i fuel : ℕ) (timed_out : ℕ → Bool) (h h' : LogicHandler requests responses)
        → get_elem? s.logic_handlers i ≡ some h
        → h.thread ≡ running
        → h.is_running ≡ true
        → executor_round requests responses fuel timed_out (with_queue s h) ≡ some h'
        → Step s (after_round s i h')

  -- The states that the server reaches.
  pub data Reach (base : ℕ) : Server → Type 0 where
    begin : Reach base (start_server base)
    later : {s t : Server} → Reach base s → Step s t → Reach base t

  -- Any number of steps, from the first state on.
  pub data Steps (s : Server) : Server → Type 0 where
    here : Steps s s
    then : {t u : Server} → Steps s t → Step t u → Steps s u

  unfoldable pub delete_handler : Server → ℕ → LogicHandler requests responses → Server
  delete_handler s n h = record s { logic_handlers = set s.logic_handlers n h }

  -- The end of `main`, when the HTTP server has stopped: the logic handlers are deleted one after
  -- the other, `n` of them so far, and those that are not deleted go on with their rounds.
  pub data Closing (base : ℕ) : ℕ → Server → Type 0 where
    stopped : {s : Server} → Reach base s → Closing base 0 s
    still_works :
        {n : ℕ} {s : Server} (i fuel : ℕ) (timed_out : ℕ → Bool)
        (h h' : LogicHandler requests responses)
        → Closing base n s
        → get_elem? s.logic_handlers i ≡ some h
        → h.thread ≡ running
        → h.is_running ≡ true
        → executor_round requests responses fuel timed_out (with_queue s h) ≡ some h'
        → Closing base n (after_round s i h')
    deletes :
        {n : ℕ} {s : Server} (h h' : LogicHandler requests responses)
        → Closing base n s
        → get_elem? s.logic_handlers n ≡ some h
        → destruct requests responses h ≡ some h'
        → Closing base (suc n) (delete_handler s n h')
