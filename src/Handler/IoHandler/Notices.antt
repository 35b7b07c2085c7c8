-- ===== src/Handler/IoHandler/Notices.antt =====
-- What an IOHandler tells the queue of answers.
use mathlib.Core.Path.{subst}
use api_pack.Base.{sym, ℕ, ◌≡◌, refl, ap, ◌∙◌, Option, none, some, List, [], ◌∷◌, ◌++◌}
use mathlib.Core.List.{append_assoc, append-nil}
use api_pack.Handler.Messages.{
  ResponseCode, ready, error, terminated, paused, LogicHandlerRequest, LogicHandlerResponse,
  BlockingConcurrentQueue,
}
use api_pack.Handler.IoHandler.{
  IoHandler, construct, on_body, chain, request_complete, on_error, on_egress_paused,
  on_egress_resumed, set_response_queue, handle_response_notification, enqueue_response,
  note_status, is_pending,
}

-- The calls of the server that change the status.
pub data Event : Type 0 where
  completes fails pauses resumes : Event

pub code_of : Event → ResponseCode
code_of completes = terminated
code_of fails = error
code_of pauses = paused
code_of resumes = ready

-- The status after some events.
pub status_after : ResponseCode → List Event → ResponseCode
status_after s [] = s
status_after s (e ∷ es) = status_after (code_of e) es

module _ (requests : BlockingConcurrentQueue LogicHandlerRequest)
    (responses : BlockingConcurrentQueue LogicHandlerResponse) (HttpMessage Buf : Type 0) where
  abbrev pub Io : Type 0
  Io = IoHandler requests responses HttpMessage Buf

  unfoldable pub handle_event : Event → Io → Io
  unfolding request_complete on_error on_egress_paused on_egress_resumed
  handle_event completes h = request_complete requests responses HttpMessage Buf h
  handle_event fails h = on_error requests responses HttpMessage Buf h
  handle_event pauses h = on_egress_paused requests responses HttpMessage Buf h
  handle_event resumes h = on_egress_resumed requests responses HttpMessage Buf h

  unfoldable pub handle_events : List Event → Io → Io
  unfolding handle_event
  handle_events [] h = h
  handle_events (e ∷ es) h = handle_events es (handle_event e h)

  -- The queue of answers that is told of each event.
  pub told : ℕ → List Event → responses.Queue → responses.Queue
  told k [] q = q
  told k (e ∷ es) q = told k es (responses.enqueue q (record { code = code_of e; io_handler = k }))

  handle_event-note :
      (e : Event) (h : Io)
      → handle_event e h ≡ note_status requests responses HttpMessage Buf h (code_of e)
  unfolding handle_event code_of request_complete on_error on_egress_paused on_egress_resumed
  handle_event-note completes h = refl
  handle_event-note fails h = refl
  handle_event-note pauses h = refl
  handle_event-note resumes h = refl

  -- With no queue the events leave the last status, with a queue they are put into it.
  record Unheard (k : ℕ) (s : ResponseCode) (h : Io) : Type 0 where
    address : h.address ≡ k
    queue : h.response_queue ≡ none
    status : h.status ≡ s

  record Heard (k : ℕ) (s : ResponseCode) (q : responses.Queue) (h : Io) : Type 0 where
    address : h.address ≡ k
    queue : h.response_queue ≡ some q
    status : h.status ≡ s

  handle_events-Unheard :
      (es : List Event) (k : ℕ) (s : ResponseCode) (h : Io)
      → Unheard k s h
      → Unheard k (status_after s es) (handle_events es h)
  unfolding handle_events note_status handle_response_notification enqueue_response status_after
  handle_events-Unheard [] k s h u = u
  handle_events-Unheard (e ∷ es) k s h u =
      handle_events-Unheard es k (code_of e) (handle_event e h) (
        rw (handle_event-note e h)
          (record { address = u.address; queue = rw (u.queue) refl; status = refl }))

  handle_events-Heard :
      (es : List Event) (k : ℕ) (s : ResponseCode) (q : responses.Queue) (h : Io)
      → Heard k s q h
      → Heard k (status_after s es) (told k es q) (handle_events es h)
  unfolding handle_events note_status handle_response_notification enqueue_response status_after
      told
  handle_events-Heard [] k s q h u = u
  handle_events-Heard (e ∷ es) k s q h u =
      handle_events-Heard es k (code_of e) _ (handle_event e h) (
        rw (handle_event-note e h)
          (record { address = u.address; queue = rw (u.queue, u.address) refl; status = refl }))

  -- The queue that a handler in a status has just been given: only `Ready` is not told.
  pub told_if_pending : ℕ → ResponseCode → responses.Queue → responses.Queue
  told_if_pending k ready q = q
  told_if_pending k error q = responses.enqueue q (record { code = error; io_handler = k })
  told_if_pending k terminated q =
      responses.enqueue q (record { code = terminated; io_handler = k })
  told_if_pending k paused q = responses.enqueue q (record { code = paused; io_handler = k })

  set_response_queue_in :
      (s : ResponseCode) (h : Io) (q : responses.Queue)
      → h.status ≡ s
      → Heard h.address s
          (told_if_pending h.address s q)
          (set_response_queue requests responses HttpMessage Buf h q)
  unfolding set_response_queue handle_response_notification enqueue_response is_pending
      told_if_pending
  set_response_queue_in ready h q e = rw e (record { address = refl; queue = refl; status = refl })
  set_response_queue_in error h q e = rw e (record { address = refl; queue = refl; status = refl })
  set_response_queue_in terminated h q e =
      rw e (record { address = refl; queue = refl; status = refl })
  set_response_queue_in paused h q e = rw e (record { address = refl; queue = refl; status = refl })

  set_response_queue-Heard :
      (k : ℕ) (s : ResponseCode) (h : Io) (q : responses.Queue)
      → Unheard k s h
      → Heard k s
          (told_if_pending k s q)
          (set_response_queue requests responses HttpMessage Buf h q)
  set_response_queue-Heard k s h q u =
      subst
        (λ j.
          Heard j s (told_if_pending j s q)
            (set_response_queue requests responses HttpMessage Buf h q))
        (u.address) (set_response_queue_in s h q (u.status))

  -- A handler without a queue of answers that sees some events, is given the queue and sees some
  -- more, puts the last status of the first events into the queue unless it is `Ready`, and then
  -- one answer for each later event, in order; its status is that of the last event.
  pub handle_events-set_response_queue :
      (before after : List Event) (h : Io) (q : responses.Queue)
      → h.response_queue ≡ none
      → let s = status_after h.status before in
        let h' =
          handle_events after
            (set_response_queue requests responses HttpMessage Buf (handle_events before h) q) in
        (h'.response_queue ≡ some (told h.address after (told_if_pending h.address s q)))
        × (h'.status ≡ status_after s after)
  handle_events-set_response_queue before after h q e =
      let heard = handle_events-Heard after h.address _ _ _ (
        set_response_queue-Heard h.address _ _ q (
          handle_events-Unheard before h.address h.status h
            (record { address = refl; queue = e; status = refl }))) in
      (heard.queue, heard.status)

  -- The body after several chunks.
  unfoldable pub on_bodies : List (List Buf) → Io → Io
  unfolding on_body
  on_bodies [] h = h
  on_bodies (b ∷ bs) h = on_bodies bs (on_body requests responses HttpMessage Buf h b)

  pub concat : List (List Buf) → List Buf
  concat [] = []
  concat (b ∷ bs) = b ++ concat bs

  on_bodies-chain :
      (bs : List (List Buf)) (h : Io) (seen : List Buf)
      → h.request_body ≡ some seen
      → (on_bodies bs h).request_body ≡ some (seen ++ concat bs)
  unfolding on_bodies on_body chain concat
  on_bodies-chain [] h seen e = e ∙ ap some (sym (append-nil seen))
  on_bodies-chain (b ∷ bs) h seen e =
      on_bodies-chain bs (on_body requests responses HttpMessage Buf h b) (seen ++ b) (rw e refl)
      ∙ ap some (append_assoc seen b (concat bs))

  -- The chunks of a body are kept in the order in which they came.
  pub on_body-concat :
      (address : ℕ) (queue : Option requests.Queue) (b : List Buf) (bs : List (List Buf))
      → (on_bodies
          (b ∷ bs)
          (construct requests responses HttpMessage Buf address queue)).request_body
        ≡ some (concat (b ∷ bs))
  unfolding on_bodies on_body chain concat construct
  on_body-concat address queue b bs =
      on_bodies-chain bs
        (on_body requests responses HttpMessage Buf
          (construct requests responses HttpMessage Buf address queue) b)
        b refl
