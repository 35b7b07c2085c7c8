-- ===== src/Handler/LogicHandler/Rules.antt =====
-- Rules for what holds after the parts of a round of LogicHandler.cpp.
use api_pack.Base.{
  some_injective, ℕ, zero, suc, ◌<◌, ◌≤◌, ◌≡◌, refl, arith, Bool, Option, none, some, List, [],
  length, ltb, ltb→lt, if_intro,
}
use mathlib.Core.Path.{subst}
use api_pack.Handler.Messages.{
  LogicHandlerRequest, LogicHandlerResponse, LogicHandlerRequestStage, BlockingConcurrentQueue,
  new_stage,
}
use api_pack.Handler.RequestMap.{insert_request, apply_response}
use api_pack.Handler.LogicHandler.{
  LogicHandler, store_request, accept_request, drain_with, drain_responses, process_requests,
  finish_round, executor_round,
}

module _ (requests : BlockingConcurrentQueue LogicHandlerRequest)
    (responses : BlockingConcurrentQueue LogicHandlerResponse) where
  abbrev pub Handler : Type 0
  Handler = LogicHandler requests responses

  -- A request is taken out of the queue, and an answer.
  abbrev pub with_request : Handler → LogicHandlerRequest → requests.Queue → Handler
  with_request h r q = record h {
    request_queue = q;
    request_map = insert_request r.requester (new_stage r 100000 100) h.request_map;
  }

  abbrev pub with_response : Handler → LogicHandlerResponse → responses.Queue → Handler
  with_response h r q = record h {
    response_queue = q;
    request_map = apply_response r h.request_map;
  }

  module _ (P : Handler → Type 0) where
    pub accept_rule :
        (timed_out : ℕ → Bool) (h : Handler)
        → P h
        → ((r : LogicHandlerRequest) (q : requests.Queue)
            → requests.wait_dequeue h.request_queue ≡ some (r, q)
            → P (with_request h r q))
        → P (accept_request requests responses timed_out h)
    unfolding accept_request
    accept_rule timed_out h p stored =
        if_intro P _ h _ (λ _. p) (λ _. taken (requests.wait_dequeue h.request_queue) refl)
      where
        taken :
            (o : Option (LogicHandlerRequest × requests.Queue))
            → requests.wait_dequeue h.request_queue ≡ o
            → P (store_request requests responses h o)
        taken none e = unfold store_request in p
        taken (some (r, q)) e = unfold store_request in stored r q e

    pub drain_rule :
        ((d : Handler) (r : LogicHandlerResponse) (q : responses.Queue)
          → responses.try_dequeue d.response_queue ≡ some (r, q)
          → P d
          → P (with_response d r q))
        → (fuel : ℕ) (h h' : Handler) → P h
        → drain_responses requests responses fuel h ≡ some h'
        → P h'
    unfolding drain_responses
    drain_rule answer zero h h' p e = cc
    drain_rule answer (suc fuel) h h' p e =
        drained (responses.try_dequeue h.response_queue) refl e (λ d. drain_rule answer fuel d h')
      where
        drained :
            (o : Option (LogicHandlerResponse × responses.Queue))
            → responses.try_dequeue h.response_queue ≡ o
            → drain_with requests responses (drain_responses requests responses fuel) h o ≡ some h'
            → ((d : Handler) → P d → drain_responses requests responses fuel d ≡ some h' → P h')
            → P h'
        drained none is e rest = unfold drain_with in subst P (some_injective e) p
        drained (some (r, q)) is e rest =
            unfold drain_with in rest (with_response h r q) (answer h r q is p) e

    -- What a full round keeps, and one that finds room: the request, the answers and the calls.
    pub round_rule :
        (fuel : ℕ) (timed_out : ℕ → Bool) (h h' : Handler)
        → (length h.request_map < h.max_request → P (accept_request requests responses timed_out h))
        → (length h.request_map < h.max_request
            → (d : Handler) (r : LogicHandlerResponse) (q : responses.Queue)
            → responses.try_dequeue d.response_queue ≡ some (r, q)
            → P d
            → P (with_response d r q))
        → ((d : Handler) (calls : List LogicHandlerRequestStage)
            → P d
            → P (record d { calls = calls }))
        → (h.max_request ≤ length h.request_map → P h)
        → executor_round requests responses fuel timed_out h ≡ some h'
        → P h'
    unfolding executor_round
    round_rule fuel timed_out h h' accept answer called full e =
        if_intro (λ o. o ≡ some h' → P h') (ltb (length h.request_map) h.max_request)
          (finish_round requests responses (
            drain_responses requests responses fuel
              (accept_request requests responses timed_out h)))
          (some (record h { calls = [] }))
          (λ room e'.
            finished
              (drain_responses requests responses fuel
                (accept_request requests responses timed_out h))
              (λ d.
                drain_rule (answer (ltb→lt _ _ room)) fuel
                  (accept_request requests responses timed_out h) d (accept (ltb→lt _ _ room)))
              e')
          (λ none_left e'. subst P (some_injective e') (called h [] (full (ground arith)))) e
      where
        finished :
            (o : Option Handler)
            → ((d : Handler) → o ≡ some d → P d)
            → finish_round requests responses o ≡ some h'
            → P h'
        finished none p e' = unfold finish_round in cc
        finished (some d) p e' =
            unfold finish_round process_requests in
            subst P (some_injective e') (called d _ (p d refl))
