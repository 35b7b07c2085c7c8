-- ===== src/Handler/IoHandler.antt =====
-- source/handler/IOHandler.h and IOHandler.cpp: one request of a client. The server calls the
-- handler; the handler puts itself into the queue of requests and its state into the queue of
-- answers. Headers and the chunks of the body are values of the server's.
pub mod Notices
use api_pack.Base.{
  ℕ, Bool, true, false, Option, none, some, List, [], ◌∷◌, ◌++◌, ◌||◌, if◌then◌else◌,
}
use api_pack.Handler.Messages.{
  ResponseCode, ready, error, terminated, paused, LogicHandlerRequest, LogicHandlerResponse,
  BlockingConcurrentQueue,
}

module _ (requests : BlockingConcurrentQueue LogicHandlerRequest)
    (responses : BlockingConcurrentQueue LogicHandlerResponse) (HttpMessage Buf : Type 0) where
  -- `none` for a queue is the null pointer. A body is its chain of buffers.
  pub record IoHandler : Type 0 where
    pub address : ℕ
    pub request_body : Option (List Buf)
    pub request_queue : Option requests.Queue
    pub headers : Option HttpMessage
    pub response_queue : Option responses.Queue
    pub status : ResponseCode

  -- `IOHandler(queue)`.
  unfoldable pub construct : ℕ → Option requests.Queue → IoHandler
  construct address queue = record {
    address = address;
    request_body = none;
    request_queue = queue;
    headers = none;
    response_queue = none;
    status = ready;
  }

  unfoldable pub on_request : IoHandler → HttpMessage → IoHandler
  on_request h headers = record h { headers = some headers }

  chain : Option (List Buf) → List Buf → List Buf
  chain none body = body
  chain (some bufs) body = bufs ++ body

  -- `prependChain` on the head of a circular chain puts the new buffers at its end.
  unfoldable pub on_body : IoHandler → List Buf → IoHandler
  unfolding chain
  on_body h body = record h { request_body = some (chain h.request_body body) }

  enqueue_request : Option requests.Queue → LogicHandlerRequest → Option requests.Queue
  enqueue_request none r = none
  enqueue_request (some q) r = some (requests.enqueue q r)

  -- `now` is the reading of the clock.
  unfoldable pub on_eom : IoHandler → ℕ → IoHandler
  unfolding enqueue_request
  on_eom h now = record h {
    request_queue =
        enqueue_request h.request_queue (record { request_timer = now; requester = h.address });
  }

  enqueue_response : Option responses.Queue → LogicHandlerResponse → Option responses.Queue
  enqueue_response none r = none
  enqueue_response (some q) r = some (responses.enqueue q r)

  unfoldable pub handle_response_notification : IoHandler → ResponseCode → IoHandler
  unfolding enqueue_response
  handle_response_notification h status = record h {
    response_queue =
        enqueue_response h.response_queue (record { code = status; io_handler = h.address });
  }

  note_status : IoHandler → ResponseCode → IoHandler
  unfolding handle_response_notification
  note_status h s = handle_response_notification (record h { status = s }) s

  unfoldable pub request_complete : IoHandler → IoHandler
  unfolding note_status
  request_complete h = note_status h terminated

  unfoldable pub on_error : IoHandler → IoHandler
  unfolding note_status
  on_error h = note_status h error

  unfoldable pub on_egress_paused : IoHandler → IoHandler
  unfolding note_status
  on_egress_paused h = note_status h paused

  unfoldable pub on_egress_resumed : IoHandler → IoHandler
  unfolding note_status
  on_egress_resumed h = note_status h ready

  -- `mStatus==Paused || mStatus==Error || mStatus==Terminated`
  pub is_pending : ResponseCode → Bool
  is_pending ready = false
  is_pending error = true
  is_pending terminated = true
  is_pending paused = true

  unfoldable pub set_response_queue : IoHandler → responses.Queue → IoHandler
  unfolding is_pending handle_response_notification
  set_response_queue h queue =
      let h' = record h { response_queue = some queue } in
      if is_pending h'.status then handle_response_notification h' h'.status else h'
