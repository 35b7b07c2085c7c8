-- ===== src/Server/Rounds.antt =====
-- A round of a logic handler that has no answer to read, as all those of main.cpp.
use api_pack.Base.{ℕ, ◌≡◌, ◌⊎◌, inl, inr, refl, arith, Bool, some}
use api_pack.Handler.Messages.{
  LogicHandlerRequest, LogicHandlerResponse, BlockingConcurrentQueue, new_stage, size, size-some,
}
use api_pack.Handler.RequestMap.{insert_request}
use api_pack.Handler.LogicHandler.{LogicHandler, executor_round}
use api_pack.Handler.LogicHandler.Rules.{accept_rule, round_rule}

module _ (requests : BlockingConcurrentQueue LogicHandlerRequest)
    (responses : BlockingConcurrentQueue LogicHandlerResponse) where
  -- A round without answers takes at most one request, and puts it into the map.
  abbrev pub Kept : LogicHandler requests responses → LogicHandler requests responses → Type 0
  Kept h h' = (h'.request_queue ≡ h.request_queue) × (h'.request_map ≡ h.request_map)

  abbrev pub Taken : LogicHandler requests responses → LogicHandler requests responses → Type 0
  Taken h h' =
      (r : LogicHandlerRequest) × (requests.wait_dequeue h.request_queue
        ≡ some (r, h'.request_queue))
      × (h'.request_map ≡ insert_request r.requester (new_stage r 100000 100) h.request_map)

  abbrev pub IsQuiet : LogicHandler requests responses → Type 0
  IsQuiet h = size responses h.response_queue ≡ 0

  pub round-IsQuiet :
      (fuel : ℕ) (timed_out : ℕ → Bool) (h h' : LogicHandler requests responses)
      → IsQuiet h
      → executor_round requests responses fuel timed_out h ≡ some h'
      → IsQuiet h' × (Kept h h' ⊎ Taken h h')
  round-IsQuiet fuel timed_out h h' quiet e =
      round_rule requests responses (λ d. IsQuiet d × (Kept h d ⊎ Taken h d)) fuel timed_out h h'
        (λ room.
          accept_rule requests responses (λ d. IsQuiet d × (Kept h d ⊎ Taken h d)) timed_out h
            (quiet, inl (refl, refl)) (λ r q e'. (quiet, inr (r, e', refl))))
        (λ room d r q e' t.
          absurd (omega (arith, t.0, size-some responses d.response_queue q r e')))
        (λ d calls t. t) (λ full. (quiet, inl (refl, refl))) e
