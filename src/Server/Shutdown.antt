-- ===== src/Server/Shutdown.antt =====
-- The end of `main` of main.cpp, when the HTTP server has stopped.
use api_pack.Base.{ℕ, zero, suc, List, [], ◌∷◌, All}
use api_pack.Handler.Messages.{LogicHandlerRequest, LogicHandlerResponse, BlockingConcurrentQueue}
use api_pack.Handler.LogicHandler.{LogicHandler}
use api_pack.Handler.LogicHandler.Lifecycle.{IsDeleted}
use api_pack.Server.{Server}
use api_pack.Server.Progress.{InLoop}

module _ (requests : BlockingConcurrentQueue LogicHandlerRequest)
    (responses : BlockingConcurrentQueue LogicHandlerResponse) (HttpMessage Buf : Type 0) where
  -- The first `n` handlers are deleted, the others are in their loops.
  unfoldable pub Gone : ℕ → List (LogicHandler requests responses) → Type 0
  Gone zero hs = All (InLoop requests responses HttpMessage Buf) hs
  Gone (suc n) [] = Unit
  Gone (suc n) (h ∷ hs) = IsDeleted requests responses h × Gone n hs
