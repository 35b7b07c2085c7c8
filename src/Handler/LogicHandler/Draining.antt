-- ===== src/Handler/LogicHandler/Draining.antt =====
-- Rounds of the loop of LogicHandler.cpp that find room.
use mathlib.Core.Path.{subst}
use api_pack.Base.{
  ℕ, zero, suc, ◌<◌, ◌≤◌, ◌≡◌, ◌≢◌, refl, sym, arith, Bool, not, Option, some, List, [], ◌∷◌,
  length, lt→ltb, Option-cases, inl, inr, if◌then◌else◌,
}
use api_pack.Handler.Messages.{
  ResponseCode, ready, error, terminated, paused, LogicHandlerRequest, LogicHandlerRequestStage,
  LogicHandlerResponse, BlockingConcurrentQueue, size, size-some,
}
use api_pack.Handler.RequestMap.{RequestMap, served, is_paused}
use api_pack.Handler.LogicHandler.{
  LogicHandler, accept_request, drain_with, drain_responses, process_requests, finish_round,
  executor_round,
}
use api_pack.Handler.LogicHandler.Rules.{accept_rule}

-- The stages among the entries of a map that are not paused, each one once and in order.
pub data Called : RequestMap → List LogicHandlerRequestStage → Type 0 where
  no_entry : Called [] []
  passed_over :
      {k : ℕ} {s : LogicHandlerRequestStage} {m : RequestMap} {cs : List LogicHandlerRequestStage}
      → s.io_code ≡ paused
      → Called m cs
      → Called ((k, s) ∷ m) cs
  handled :
      {k : ℕ} {s : LogicHandlerRequestStage} {m : RequestMap} {cs : List LogicHandlerRequestStage}
      → s.io_code ≢ paused
      → Called m cs
      → Called ((k, s) ∷ m) (s ∷ cs)

served-Called : (m : RequestMap) → Called m (served m)
unfolding served
served-Called [] = no_entry
served-Called ((k, s) ∷ m) = by_code (served-Called m) s.io_code refl
  where
    by_code :
        Called m (served m)
        → (c : ResponseCode) → s.io_code ≡ c
        → Called ((k, s) ∷ m) (if not (is_paused c) then s ∷ served m else served m)
    by_code rest ready e = handled (λ e'. cc) rest
    by_code rest error e = handled (λ e'. cc) rest
    by_code rest terminated e = handled (λ e'. cc) rest
    by_code rest paused e = passed_over e rest

module _ (requests : BlockingConcurrentQueue LogicHandlerRequest)
    (responses : BlockingConcurrentQueue LogicHandlerResponse) where
  -- The loop over the answers ends, with no more of them than before.
  abbrev Drained : ℕ → Option (LogicHandler requests responses) → Type 0
  Drained n o =
      (h : LogicHandler requests responses) × (o ≡ some h) × (size responses h.response_queue ≤ n)

  drain_responses-Drained :
      (fuel n : ℕ) (h : LogicHandler requests responses)
      → size responses h.response_queue < fuel
      → size responses h.response_queue ≤ n
      → Drained n (drain_responses requests responses fuel h)
  unfolding drain_responses drain_with
  drain_responses-Drained zero n h l few = absurd (omega arith)
  drain_responses-Drained (suc fuel) n h l few =
      elim (Option-cases (responses.try_dequeue h.response_queue)) [
        | inl e ↦ rw e (h, refl, few)
        | inr (r, e) ↦ rw e (
            drain_responses-Drained fuel n _
              (omega (arith, size-some responses h.response_queue _ _ e))
              (omega (arith, size-some responses h.response_queue _ _ e)))
      ]

  accept_request-responses :
      (timed_out : ℕ → Bool) (h : LogicHandler requests responses)
      → (accept_request requests responses timed_out h).response_queue ≡ h.response_queue
  accept_request-responses timed_out h =
      accept_rule requests responses (λ d. d.response_queue ≡ h.response_queue) timed_out h refl
        (λ r q _. refl)

  -- A round that finds room, with more fuel than answers wait, ends: its loop over the answers ends
  -- however often `try_dequeue` fails, leaves no more of them than there were, and
  -- `handleRequestLogic` is then called once for each entry of the new map whose code is not
  -- `Paused`, in the order of the map, and for no other.
  pub executor_round-total :
      (fuel : ℕ) (timed_out : ℕ → Bool) (h : LogicHandler requests responses)
      → length h.request_map < h.max_request
      → size responses h.response_queue < fuel
      → (h' : LogicHandler requests responses) × (executor_round requests responses fuel timed_out h
          ≡ some h')
        × (size responses h'.response_queue ≤ size responses h.response_queue)
        × Called h'.request_map h'.calls
  unfolding executor_round finish_round process_requests
  executor_round-total fuel timed_out h room enough =
      let same = accept_request-responses timed_out h in
      let (d, e, fewer) =
        drain_responses-Drained fuel (size responses h.response_queue)
          (accept_request requests responses timed_out h)
          (subst (λ q. size responses q < fuel) (sym same) enough)
          (subst (λ q. size responses q ≤ size responses h.response_queue) (sym same)
            (omega arith)) in
      (
        process_requests requests responses d,
        rw (lt→ltb _ _ room, e) refl,
        fewer,
        served-Called d.request_map,
      )
