-- ===== src/Server/Places.antt =====
-- Where the requests of the server of main.cpp are.
use api_pack.Base.{
  ℕ, suc, ◌+◌, ◌≡◌, inl, inr, refl, ap, ◌∙◌, arith, Bool, true, ◌&&◌, some, List, [], ◌∷◌, ◌==◌,
  leb, length, get_elem?, All, if◌then◌else◌,
}
use api_pack.Handler.Messages.{
  LogicHandlerRequest, LogicHandlerResponse, BlockingConcurrentQueue, new_stage, size, size-enqueue,
  size-wait,
}
use api_pack.Handler.RequestMap.Lookup.{count_key, insert_new}
use api_pack.Handler.IoHandler.{IoHandler, on_body, on_request, on_eom}
use api_pack.Handler.IoHandlerFactory.{new_handler}
use api_pack.Handler.IoHandler.Notices.{on_bodies}
use api_pack.Handler.LogicHandler.{LogicHandler}
use api_pack.Handler.LogicHandler.Capacity.{WithinCapacity, round-WithinCapacity}
use api_pack.Server.{
  Server, Step, receives, notifies, works, Reach, begin, later, start_server, receive, after_round,
  with_queue, queue_or,
}
use api_pack.Server.Rounds.{Kept, Taken, IsQuiet, round-IsQuiet}
use api_pack.Server.Family.{total, total-set, get-le-total, length-set, All-set, All-get}

abbrev pub is_from : ℕ → LogicHandlerRequest → Bool
is_from k r = r.requester == k

module _ (requests : BlockingConcurrentQueue LogicHandlerRequest)
    (responses : BlockingConcurrentQueue LogicHandlerResponse) (HttpMessage Buf : Type 0) where
  on_bodies-request_queue :
      (bs : List (List Buf)) (h : IoHandler requests responses HttpMessage Buf)
      → ((on_bodies requests responses HttpMessage Buf bs h).request_queue ≡ h.request_queue)
        × ((on_bodies requests responses HttpMessage Buf bs h).address ≡ h.address)
  unfolding on_bodies
  on_bodies-request_queue [] h = (refl, refl)
  on_bodies-request_queue (b ∷ bs) h =
      on_bodies-request_queue bs (on_body requests responses HttpMessage Buf h b)

  abbrev Io : Type 0
  Io = IoHandler requests responses HttpMessage Buf

  on_eom-request_queue :
      (h : Io) (q : requests.Queue) (k now : ℕ)
      → h.request_queue ≡ some q
      → h.address ≡ k
      → (on_eom requests responses HttpMessage Buf h now).request_queue
        ≡ some (requests.enqueue q (record { request_timer = now; requester = k }))
  unfolding on_eom
  on_eom-request_queue h q k now e a = rw (e, a) refl

  pub receive_lem :
      (s : Server requests responses HttpMessage Buf) (headers : HttpMessage)
      (bodies : List (List Buf)) (now : ℕ)
      → (receive requests responses HttpMessage Buf s headers bodies now).queue
        ≡ requests.enqueue s.queue
            (record { request_timer = now; requester = suc (length s.io_handlers) })
  unfolding receive
  receive_lem s headers bodies now =
      let f = record (s.factory) { queue = some s.queue } in
      let io = new_handler requests responses HttpMessage Buf f (suc (length s.io_handlers)) in
      let asked : Io = on_request requests responses HttpMessage Buf io headers in
      let (q, a) = on_bodies-request_queue bodies asked in
      ap (queue_or requests responses HttpMessage Buf s.queue) (
        on_eom-request_queue (on_bodies requests responses HttpMessage Buf bodies asked) s.queue
          (suc (length s.io_handlers)) now q a)

  abbrev Logic : Type 0
  Logic = LogicHandler requests responses

  abbrev pub keys : ℕ → Logic → ℕ
  keys k h = count_key k h.request_map

  abbrev pub entries : Logic → ℕ
  entries h = length h.request_map

  -- The request at address `k` is in the queue or in one map, and in one place only; the handlers
  -- are within their capacity, and no answer waits.
  pub record Placed (s : Server requests responses HttpMessage Buf) : Type 0 where
    pub places :
        (k : ℕ)
        → requests.held (is_from k) s.queue + total (keys k) s.logic_handlers
          ≡ (if leb 1 k && leb k (length s.io_handlers) then 1 else 0)
    pub filled : size requests s.queue + total entries s.logic_handlers ≡ length s.io_handlers
    pub quiet : All (IsQuiet requests responses) s.logic_handlers
    pub within : All (WithinCapacity requests responses 128) s.logic_handlers
    pub four : length s.logic_handlers ≡ 4

  receive-Placed :
      (s : Server requests responses HttpMessage Buf) (headers : HttpMessage)
      (bodies : List (List Buf)) (now : ℕ)
      → Placed s
      → Placed (receive requests responses HttpMessage Buf s headers bodies now)
  unfolding receive
  receive-Placed s headers bodies now p =
      let r : LogicHandlerRequest = record {
        request_timer = now;
        requester = suc (length s.io_handlers);
      } in
      record {
        places = λ k.
            rw (receive_lem s headers bodies now)
              (ground (arith, requests.held-enqueue (is_from k) s.queue r, p.places k));
        filled =
            rw (receive_lem s headers bodies now)
              (omega (arith, size-enqueue requests s.queue r, p.filled));
        quiet = p.quiet;
        within = p.within;
        four = p.four;
      }

  -- What is known of the handler that works: it stands in the list, and its queue is the server's.
  module _ (s : Server requests responses HttpMessage Buf) (i : ℕ) (h h' : Logic)
      (at : get_elem? s.logic_handlers i ≡ some h) (p : Placed s) where
    -- The sums over the handlers, and the lists, after the write.
    Kept-Placed :
        IsQuiet requests responses h'
        → WithinCapacity requests responses 128 h'
        → Kept requests responses (with_queue requests responses HttpMessage Buf s h) h'
        → Placed (after_round requests responses HttpMessage Buf s i h')
    unfolding after_round
    Kept-Placed quiet within (q, m) = record {
      places = λ k. omega (
        arith,
        ap (requests.held (is_from k)) q,
        p.places k,
        total-set (keys k) s.logic_handlers i h h' at,
        ap (count_key k) m,
      );
      filled = omega (
        arith,
        ap (size requests) q,
        p.filled,
        total-set entries s.logic_handlers i h h' at,
        ap length m,
      );
      quiet = All-set (IsQuiet requests responses) s.logic_handlers i h' p.quiet quiet;
      within =
          All-set (WithinCapacity requests responses 128) s.logic_handlers i h' p.within within;
      four = omega (arith, p.four, length-set s.logic_handlers i h');
    }

    -- A request that is taken was in no map.
    taken_new :
        (r : LogicHandlerRequest) (q : requests.Queue)
        → requests.wait_dequeue s.queue ≡ some (r, q)
        → count_key r.requester h.request_map ≡ 0
    taken_new r q e = ground (
      arith,
      p.places r.requester,
      get-le-total (keys r.requester) s.logic_handlers i h at,
      requests.held-wait (is_from r.requester) s.queue q r e,
    )

    Taken-Placed :
        IsQuiet requests responses h'
        → WithinCapacity requests responses 128 h'
        → Taken requests responses (with_queue requests responses HttpMessage Buf s h) h'
        → Placed (after_round requests responses HttpMessage Buf s i h')
    unfolding after_round count_key
    Taken-Placed quiet within (r, e, m) =
        let m' =
          m
          ∙ insert_new r.requester (new_stage r 100000 100) h.request_map
              (taken_new r h'.request_queue e) in
        record {
          places = λ k. ground (
            arith,
            p.places k,
            total-set (keys k) s.logic_handlers i h h' at,
            ap (count_key k) m',
            requests.held-wait (is_from k) s.queue h'.request_queue r e,
          );
          filled = omega (
            arith,
            p.filled,
            total-set entries s.logic_handlers i h h' at,
            ap length m',
            size-wait requests s.queue h'.request_queue r e,
          );
          quiet = All-set (IsQuiet requests responses) s.logic_handlers i h' p.quiet quiet;
          within =
              All-set (WithinCapacity requests responses 128) s.logic_handlers i h' p.within within;
          four = omega (arith, p.four, length-set s.logic_handlers i h');
        }

  Step-Placed :
      {s t : Server requests responses HttpMessage Buf}
      → Placed s
      → Step requests responses HttpMessage Buf s t
      → Placed t
  Step-Placed {s} p (receives headers bodies now) = receive-Placed s headers bodies now p
  Step-Placed {s} p (notifies k io e at) = record {
    places = λ j. rw (length-set s.io_handlers k _) (p.places j);
    filled = rw (length-set s.io_handlers k _) (p.filled);
    quiet = p.quiet;
    within = p.within;
    four = p.four;
  }
  Step-Placed {s} p (works i fuel timed_out h h' at alive flag e) =
      let held = with_queue requests responses HttpMessage Buf s h in
      let quiet = All-get (IsQuiet requests responses) s.logic_handlers i h p.quiet at in
      let within =
        All-get (WithinCapacity requests responses 128) s.logic_handlers i h p.within at in
      let (quiet', took) = round-IsQuiet requests responses fuel timed_out held h' quiet e in
      let within' = round-WithinCapacity requests responses fuel 128 timed_out held h' within e in
      elim took [
        | inl kept ↦ Kept-Placed s i h h' at p quiet' within' kept
        | inr taken ↦ Taken-Placed s i h h' at p quiet' within' taken
      ]

  start_server-Placed : (base : ℕ) → Placed (start_server requests responses HttpMessage Buf base)
  unfolding start_server count_key
  start_server-Placed base = record {
    places = λ k. ground (arith, requests.held-empty (is_from k));
    filled = omega (arith, requests.held-empty (λ r. true));
    quiet = omega (arith, responses.held-empty (λ r. true));
    within = omega arith;
    four = refl;
  }

  -- In every state that the server reaches, each request that was received is in the queue or in
  -- the map of one of the four logic handlers, and in one place only; no other request is in any of
  -- them; no logic handler holds more than 128, and no answer waits for one.
  pub Reach-Placed :
      (base : ℕ) (s : Server requests responses HttpMessage Buf)
      → Reach requests responses HttpMessage Buf base s
      → Placed s
  Reach-Placed base s begin = start_server-Placed base
  Reach-Placed base s (later before t) = Step-Placed (Reach-Placed base _ before) t
