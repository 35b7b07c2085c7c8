-- ===== src/Handler/RequestMap.antt =====
-- source/handler/LogicHandler.h and LogicHandler.cpp: the map from the IOHandlers to the stages of
-- their requests, and what an answer does to it.
pub mod Size
pub mod Lookup
use api_pack.Base.{
  ℕ, Bool, true, false, not, Option, none, some, List, [], ◌∷◌, ◌==◌, if◌then◌else◌,
}
use api_pack.Handler.Messages.{
  ResponseCode, ready, error, terminated, paused, LogicHandlerResponse, LogicHandlerRequestStage,
}

-- `std::unordered_map<IOHandler*, LogicHandlerRequestStage>`.
abbrev pub RequestMap : Type 0
RequestMap = List (ℕ × LogicHandlerRequestStage)

unfoldable pub find_request : ℕ → RequestMap → Option LogicHandlerRequestStage
find_request k [] = none
find_request k ((j, s) ∷ m) = if j == k then some s else find_request k m

-- `insert` keeps an entry that is there.
insert_if : Option LogicHandlerRequestStage → ℕ → LogicHandlerRequestStage → RequestMap → RequestMap
insert_if none k s m = (k, s) ∷ m
insert_if (some old) k s m = m

unfoldable pub insert_request : ℕ → LogicHandlerRequestStage → RequestMap → RequestMap
unfolding insert_if find_request
insert_request k s m = insert_if (find_request k m) k s m

unfoldable pub erase_request : ℕ → RequestMap → RequestMap
erase_request k [] = []
erase_request k ((j, s) ∷ m) = if j == k then m else (j, s) ∷ erase_request k m

-- `found->second.ioCode=code`, if there is such an entry.
unfoldable pub set_io_code : ℕ → ResponseCode → RequestMap → RequestMap
set_io_code k code [] = []
set_io_code k code ((j, s) ∷ m) =
    if j == k then (j, record s { io_code = code }) ∷ m else (j, s) ∷ set_io_code k code m

-- The branches on the code of an answer.
apply_code : ResponseCode → ℕ → RequestMap → RequestMap
unfolding erase_request set_io_code
apply_code error k m = erase_request k m
apply_code terminated k m = erase_request k m
apply_code paused k m = set_io_code k paused m
apply_code ready k m = set_io_code k ready m

-- What one answer does to the map.
unfoldable pub apply_response : LogicHandlerResponse → RequestMap → RequestMap
unfolding apply_code
apply_response r m = apply_code r.code r.io_handler m

abbrev pub is_paused : ResponseCode → Bool
is_paused ready = false
is_paused error = false
is_paused terminated = false
is_paused paused = true

-- The stages on which a round calls `handleRequestLogic`.
unfoldable pub served : RequestMap → List LogicHandlerRequestStage
served [] = []
served ((j, s) ∷ m) = if not (is_paused s.io_code) then s ∷ served m else served m
