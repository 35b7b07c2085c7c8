-- ===== src/Server/Progress.antt =====
-- What the four logic handlers of main.cpp get done.
use api_pack.Base.{
  ℕ, zero, suc, ◌+◌, ◌-◌, ◌<◌, ◌≤◌, ◌≡◌, refl, ap, ◌∙◌, arith, Bool, true, some, length, All,
}
use api_pack.Handler.Messages.{
  LogicHandlerRequest, LogicHandlerResponse, BlockingConcurrentQueue, size,
}
use api_pack.Handler.LogicHandler.{LogicHandler, running, executor_round}
use api_pack.Handler.LogicHandler.Rules.{accept_rule, round_rule}
use api_pack.Handler.LogicHandler.Capacity.{WithinCapacity}
use api_pack.Handler.LogicHandler.Accepting.{never, Took, round-Took}
use api_pack.Handler.LogicHandler.Draining.{executor_round-total}
use api_pack.Server.{
  Server, Step, receives, notifies, works, Reach, begin, later, Steps, here, then, start_server,
  receive, after_round, with_queue,
}
use api_pack.Server.Rounds.{IsQuiet}
use api_pack.Server.Family.{total, some-below, All-set, All-get}
use api_pack.Server.Places.{entries, Reach-Placed}

module _ (requests : BlockingConcurrentQueue LogicHandlerRequest)
    (responses : BlockingConcurrentQueue LogicHandlerResponse) (HttpMessage Buf : Type 0) where
  -- The thread is in its loop.
  abbrev pub InLoop : LogicHandler requests responses → Type 0
  InLoop h = (h.thread ≡ running) × (h.is_running ≡ true)

  -- A round leaves the thread in its loop.
  pub round-InLoop :
      (fuel : ℕ) (timed_out : ℕ → Bool) (h h' : LogicHandler requests responses)
      → InLoop h
      → executor_round requests responses fuel timed_out h ≡ some h'
      → InLoop h'
  round-InLoop fuel timed_out h h' inside e =
      round_rule requests responses InLoop fuel timed_out h h'
        (λ room. accept_rule requests responses InLoop timed_out h inside (λ r q e'. inside))
        (λ room d r q e' v. v) (λ d calls v. v) (λ full. inside) e

  Step-InLoop :
      {s t : Server requests responses HttpMessage Buf}
      → All InLoop s.logic_handlers
      → Step requests responses HttpMessage Buf s t
      → All InLoop t.logic_handlers
  unfolding receive after_round
  Step-InLoop a (receives headers bodies now) = a
  Step-InLoop a (notifies k io e at) = a
  Step-InLoop {s} a (works i fuel timed_out h h' at alive flag e) =
      All-set InLoop s.logic_handlers i h' a (
        round-InLoop fuel timed_out (with_queue requests responses HttpMessage Buf s h) h'
          (alive, flag) e)

  -- In every state that the server reaches, all logic handlers are in their loops.
  pub Reach-InLoop :
      (base : ℕ) (s : Server requests responses HttpMessage Buf)
      → Reach requests responses HttpMessage Buf base s
      → All InLoop s.logic_handlers
  unfolding start_server
  Reach-InLoop base s begin = ((refl, refl), ((refl, refl), ((refl, refl), ((refl, refl), tt))))
  Reach-InLoop base s (later before t) = Step-InLoop (Reach-InLoop base _ before) t

  -- A step that leaves one request less in the queue, and the handlers of requests as they are.
  abbrev Takes : Server requests responses HttpMessage Buf → Type 0
  Takes s =
      (t : Server requests responses HttpMessage Buf) × Step requests responses HttpMessage Buf s t
      × (t.io_handlers ≡ s.io_handlers)
      × (size requests t.queue ≡ size requests s.queue - 1)

  reached-Takes :
      (base : ℕ) (s : Server requests responses HttpMessage Buf)
      → Reach requests responses HttpMessage Buf base s
      → length s.io_handlers < size requests s.queue + 512
      → Takes s
  unfolding after_round
  reached-Takes base s r few =
      let p = Reach-Placed requests responses HttpMessage Buf base s r in
      let (i, h, at, below) =
        some-below (entries requests responses HttpMessage Buf) 128 s.logic_handlers
          (omega (arith, p.filled, p.four, few)) in
      let (alive, flag) = All-get InLoop s.logic_handlers i h (Reach-InLoop base s r) at in
      let quiet = All-get (IsQuiet requests responses) s.logic_handlers i h p.quiet at in
      let within =
        All-get (WithinCapacity requests responses 128) s.logic_handlers i h p.within at in
      let held = with_queue requests responses HttpMessage Buf s h in
      let room : length held.request_map < held.max_request = omega (arith, below, within.1) in
      let (h', e, fewer, called) =
        executor_round-total requests responses 1 never held room (omega (arith, quiet)) in
      let took : Took requests responses 1 held h' =
        round-Took requests responses 1 held h' room e in
      (
        after_round requests responses HttpMessage Buf s i h',
        works i 1 never h h' at alive flag e,
        refl,
        took.0,
      )

  Step-Steps :
      {s t u : Server requests responses HttpMessage Buf}
      → Step requests responses HttpMessage Buf s t
      → Steps requests responses HttpMessage Buf t u
      → Steps requests responses HttpMessage Buf s u
  Step-Steps first here = then here first
  Step-Steps first (then before last) = then (Step-Steps first before) last

  abbrev pub Served : Server requests responses HttpMessage Buf → Type 0
  Served s =
      (t : Server requests responses HttpMessage Buf) × Steps requests responses HttpMessage Buf s t
      × (t.io_handlers ≡ s.io_handlers)
      × (size requests t.queue ≡ 0)
      × (total (entries requests responses HttpMessage Buf) t.logic_handlers ≡ length s.io_handlers)

  waiting-Served :
      (n base : ℕ) (s : Server requests responses HttpMessage Buf)
      → Reach requests responses HttpMessage Buf base s
      → size requests s.queue ≡ n
      → length s.io_handlers ≤ 512
      → Served s
  waiting-Served zero base s r none_left few =
      let p = Reach-Placed requests responses HttpMessage Buf base s r in
      (s, here, refl, none_left, omega (arith, p.filled))
  waiting-Served (suc n) base s r left few =
      let (t, step, same, less) = reached-Takes base s r (omega (arith, left, few)) in
      let (u, steps, same', empty, full) =
        waiting-Served n base t (later r step) (omega (arith, left, less)) (rw same few) in
      (u, Step-Steps step steps, same' ∙ same, empty, full ∙ ap length same)

  -- A server that has received at most 512 requests takes them all: from every state that it
  -- reaches, some of its steps, among them no new request, lead to a state in which no request
  -- waits in the queue and the four maps hold as many as were received.
  pub Reach-Served :
      (base : ℕ) (s : Server requests responses HttpMessage Buf)
      → Reach requests responses HttpMessage Buf base s
      → length s.io_handlers ≤ 512
      → Served s
  Reach-Served base s r few = waiting-Served (size requests s.queue) base s r refl few
