-- ===== src/Handler/IoHandlerFactory.antt =====
-- source/handler/IOHandlerFactory.h and IOHandlerFactory.cpp: the handler of each request. An event
-- base is known by its address; the handler's own address is what `new` returns.
use api_pack.Base.{ℕ, Option, none, some}
use api_pack.Handler.Messages.{LogicHandlerRequest, LogicHandlerResponse, BlockingConcurrentQueue}
use api_pack.Handler.IoHandler
use api_pack.Handler.IoHandler.{IoHandler}

module _ (requests : BlockingConcurrentQueue LogicHandlerRequest)
    (responses : BlockingConcurrentQueue LogicHandlerResponse) (HttpMessage Buf : Type 0) where
  -- `none` for the queue is the null pointer; the event base is unset until the server starts.
  pub record IoHandlerFactory : Type 0 where
    pub event_base : Option ℕ
    pub queue : Option requests.Queue

  unfoldable pub construct : Option requests.Queue → IoHandlerFactory
  construct queue = record { event_base = none; queue = queue }

  unfoldable pub on_server_start : IoHandlerFactory → ℕ → IoHandlerFactory
  on_server_start f base = record f { event_base = some base }

  unfoldable pub on_server_stop : IoHandlerFactory → IoHandlerFactory
  on_server_stop f = f

  -- `onRequest(next, msg)`: the new handler, at `address`.
  unfoldable pub new_handler : IoHandlerFactory → ℕ → IoHandler requests responses HttpMessage Buf
  unfolding IoHandler.construct
  new_handler f address = IoHandler.construct requests responses HttpMessage Buf address f.queue
