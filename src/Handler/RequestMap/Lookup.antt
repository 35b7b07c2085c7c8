-- ===== src/Handler/RequestMap/Lookup.antt =====
-- What an answer does to the entries of the map of LogicHandler.cpp.
use api_pack.Base.{
  ℕ, ◌≡◌, refl, ap, ◌∙◌, arith, Option, none, some, [], ◌∷◌, if◌then◌else◌, ◌==◌, ◌+◌,
}
use api_pack.Handler.Messages.{
  ResponseCode, ready, error, terminated, paused, LogicHandlerResponse, LogicHandlerRequestStage,
}
use api_pack.Handler.RequestMap.{
  RequestMap, find_request, insert_request, insert_if, erase_request, set_io_code, apply_code,
  apply_response,
}

-- No address is a key twice.
unfoldable pub Distinct : RequestMap → Type 0
Distinct [] = Unit
Distinct ((j, s) ∷ m) = (find_request j m ≡ none) × Distinct m

-- What an answer makes of the entry of its handler.
pub answered : ResponseCode → Option LogicHandlerRequestStage → Option LogicHandlerRequestStage
answered c none = none
answered error (some s) = none
answered terminated (some s) = none
answered paused (some s) = some (record s { io_code = paused })
answered ready (some s) = some (record s { io_code = ready })

find-erase :
    (k j : ℕ) (m : RequestMap)
    → Distinct m
    → find_request j (erase_request k m) ≡ (if j == k then none else find_request j m)
unfolding find_request erase_request Distinct
find-erase k j [] d = ground arith
find-erase k j ((i, s) ∷ m) d = ground (arith, find-erase k j m d.1)

set_code : ResponseCode → Option LogicHandlerRequestStage → Option LogicHandlerRequestStage
set_code c none = none
set_code c (some s) = some (record s { io_code = c })

find-set_io_code :
    (k j : ℕ) (c : ResponseCode) (m : RequestMap)
    → find_request j (set_io_code k c m)
      ≡ (if j == k then set_code c (find_request j m) else find_request j m)
unfolding find_request set_io_code set_code
find-set_io_code k j c [] = ground arith
find-set_io_code k j c ((i, t) ∷ m) = ground (arith, find-set_io_code k j c m)

answered_set :
    (o : Option LogicHandlerRequestStage)
    → (set_code paused o ≡ answered paused o)
      × (set_code ready o ≡ answered ready o)
      × (none ≡ answered error o)
      × (none ≡ answered terminated o)
unfolding set_code answered
answered_set none = (refl, refl, refl, refl)
answered_set (some s) = (refl, refl, refl, refl)

find-apply_code :
    (k j : ℕ) (c : ResponseCode) (m : RequestMap)
    → Distinct m
    → find_request j (apply_code c k m)
      ≡ (if j == k then answered c (find_request j m) else find_request j m)
unfolding apply_code
find-apply_code k j paused m d =
    find-set_io_code k j paused m
    ∙ ap (λ o. if j == k then o else find_request j m) (answered_set (find_request j m)).0
find-apply_code k j ready m d =
    find-set_io_code k j ready m
    ∙ ap (λ o. if j == k then o else find_request j m) (answered_set (find_request j m)).1
find-apply_code k j error m d =
    find-erase k j m d
    ∙ ap (λ o. if j == k then o else find_request j m) (answered_set (find_request j m)).2
find-apply_code k j terminated m d =
    find-erase k j m d
    ∙ ap (λ o. if j == k then o else find_request j m) (answered_set (find_request j m)).3

-- In a map without double keys, an answer changes the entry of its own handler and no other: an
-- error or an end removes it, a pause or its end sets the code of an entry that is there.
pub find-apply_response :
    (r : LogicHandlerResponse) (j : ℕ) (m : RequestMap)
    → Distinct m
    → find_request j (apply_response r m)
      ≡ (if j == r.io_handler then answered r.code (find_request j m) else find_request j m)
unfolding apply_response
find-apply_response r j m d = find-apply_code r.io_handler j r.code m d

-- How often an address is a key.
unfoldable pub count_key : ℕ → RequestMap → ℕ
count_key k [] = 0
count_key k ((j, s) ∷ m) = count_key k m + (if j == k then 1 else 0)

find_none : (k : ℕ) (m : RequestMap) → count_key k m ≡ 0 → find_request k m ≡ none
unfolding count_key find_request
find_none k [] e = refl
find_none k ((j, s) ∷ m) e = ground (arith, find_none k m)

-- A request whose address is no key is put in front.
pub insert_new :
    (k : ℕ) (s : LogicHandlerRequestStage) (m : RequestMap)
    → count_key k m ≡ 0
    → insert_request k s m ≡ (k, s) ∷ m
unfolding insert_request insert_if
insert_new k s m e = rw (find_none k m e) refl
