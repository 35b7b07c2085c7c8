-- ===== src/Handler/LogicHandler/Accepting.antt =====
-- The requests that LogicHandler.cpp takes while it has room.
use api_pack.Base.{
  ℕ, suc, ◌-◌, ◌<◌, ◌≤◌, ◌≡◌, refl, arith, Bool, false, some, length, Option-cases, inl, inr,
}
use api_pack.Handler.Messages.{
  LogicHandlerRequest, LogicHandlerResponse, BlockingConcurrentQueue, new_stage, size,
  size-wait-none, size-wait,
}
use api_pack.Handler.RequestMap.Size.{length-insert, length-apply_response}
use api_pack.Handler.LogicHandler.{accept_request, store_request, executor_round}
use api_pack.Handler.LogicHandler.Rules.{Handler, round_rule}

-- The wait for a request that never times out.
abbrev pub never : ℕ → Bool
never w = false

module _ (requests : BlockingConcurrentQueue LogicHandlerRequest)
    (responses : BlockingConcurrentQueue LogicHandlerResponse) (fuel : ℕ) where
  -- One request less waits, if one did, and the map has at most one entry more.
  abbrev pub Took : Handler requests responses → Handler requests responses → Type 0
  Took h h' =
      (size requests h'.request_queue ≡ size requests h.request_queue - 1)
      × (length h'.request_map ≤ suc (length h.request_map))
      × (h'.max_request ≡ h.max_request)

  accept_request-Took :
      (h : Handler requests responses) → Took h (accept_request requests responses never h)
  unfolding accept_request store_request
  accept_request-Took h = elim (Option-cases (requests.wait_dequeue h.request_queue)) [
    | inl e ↦ rw e (omega (arith, size-wait-none requests h.request_queue e), omega arith, refl)
    | inr ((r, q), e) ↦ rw e (
      omega (arith, size-wait requests h.request_queue q r e),
      length-insert r.requester (new_stage r 100000 100) h.request_map,
      refl,
    )
  ]

  pub round-Took :
      (h h' : Handler requests responses)
      → length h.request_map < h.max_request
      → executor_round requests responses fuel never h ≡ some h'
      → Took h h'
  round-Took h h' room e =
      round_rule requests responses (Took h) fuel never h h' (λ _. accept_request-Took h)
        (λ _ d r q _ t. (t.0, omega (arith, t.1, length-apply_response r d.request_map), t.2))
        (λ d calls t. t) (λ full. absurd (omega (arith, room))) e
