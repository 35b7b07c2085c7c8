-- ===== src/Server/Overload.antt =====
-- How many requests the server of main.cpp can take.
use api_pack.Base.{ℕ, ◌+◌, ◌≤◌, arith, List, [], ◌∷◌, length, All}
use api_pack.Handler.Messages.{
  LogicHandlerRequest, LogicHandlerResponse, BlockingConcurrentQueue, size,
}
use api_pack.Handler.LogicHandler.{LogicHandler}
use api_pack.Handler.LogicHandler.Capacity.{WithinCapacity}
use api_pack.Server.{Server, Reach}
use api_pack.Server.Family.{total-le}
use api_pack.Server.Places.{entries, Reach-Placed}

module _ (requests : BlockingConcurrentQueue LogicHandlerRequest)
    (responses : BlockingConcurrentQueue LogicHandlerResponse) (HttpMessage Buf : Type 0) where
  entries-le :
      (hs : List (LogicHandler requests responses))
      → All (WithinCapacity requests responses 128) hs
      → All (λ h. entries requests responses HttpMessage Buf h ≤ 128) hs
  entries-le [] w = tt
  entries-le (h ∷ hs) w = (w.0.0, entries-le hs w.1)

  -- The server takes 512 requests in all: in every state that it reaches, of the requests that it
  -- has received all but 512 at most still wait in the queue.
  pub Reach-overload :
      (base : ℕ) (s : Server requests responses HttpMessage Buf)
      → Reach requests responses HttpMessage Buf base s
      → length s.io_handlers ≤ size requests s.queue + 512
  Reach-overload base s r =
      let p = Reach-Placed requests responses HttpMessage Buf base s r in
      omega (
        arith,
        p.filled,
        p.four,
        total-le (entries requests responses HttpMessage Buf) 128 s.logic_handlers
            (entries-le s.logic_handlers p.within),
      )
