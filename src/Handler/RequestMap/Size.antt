-- ===== src/Handler/RequestMap/Size.antt =====
-- The map of requests of LogicHandler.cpp: its size and its keys.
use api_pack.Base.{ℕ, ◌≡◌, ◌≤◌, arith, [], ◌∷◌, length, none, some, suc, refl, Option}
use api_pack.Handler.Messages.{
  ResponseCode, ready, error, terminated, paused, LogicHandlerRequestStage, LogicHandlerResponse,
}
use api_pack.Handler.RequestMap.{
  RequestMap, find_request, insert_request, insert_if, erase_request, set_io_code, apply_response,
  apply_code,
}

length-erase : (k : ℕ) (m : RequestMap) → length (erase_request k m) ≤ length m
unfolding erase_request
length-erase k [] = omega arith
length-erase k ((j, s) ∷ m) = ground (arith, length-erase k m)

length-set_io_code :
    (k : ℕ) (c : ResponseCode) (m : RequestMap) → length (set_io_code k c m) ≡ length m
unfolding set_io_code
length-set_io_code k c [] = refl
length-set_io_code k c ((j, s) ∷ m) = ground (arith, length-set_io_code k c m)

pub length-insert :
    (k : ℕ) (s : LogicHandlerRequestStage) (m : RequestMap)
    → length (insert_request k s m) ≤ suc (length m)
unfolding insert_request insert_if
length-insert k s m = inserted (find_request k m)
  where
    inserted : (o : Option LogicHandlerRequestStage) → length (insert_if o k s m) ≤ suc (length m)
    inserted none = omega arith
    inserted (some old) = omega arith

length-apply_code :
    (c : ResponseCode) (k : ℕ) (m : RequestMap) → length (apply_code c k m) ≤ length m
unfolding apply_code
length-apply_code ready k m = omega (arith, length-set_io_code k ready m)
length-apply_code error k m = length-erase k m
length-apply_code terminated k m = length-erase k m
length-apply_code paused k m = omega (arith, length-set_io_code k paused m)

-- An answer never makes the map longer.
pub length-apply_response :
    (r : LogicHandlerResponse) (m : RequestMap) → length (apply_response r m) ≤ length m
unfolding apply_response
length-apply_response r m = length-apply_code r.code r.io_handler m
