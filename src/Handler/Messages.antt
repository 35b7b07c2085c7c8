-- ===== src/Handler/Messages.antt =====
-- source/handler/LogicHandlerRequest.h and LogicHandlerResponse.h, and what the handlers use of
-- moodycamel's queues. A pointer to an IOHandler is its address, 0 for the null pointer.
use api_pack.Base.{ℕ, suc, ◌+◌, ◌≡◌, arith, Bool, true, Option, none, some, if◌then◌else◌}

pub data ResponseCode : Type 0 where
  ready error terminated paused : ResponseCode

pub data RequestStage : Type 0 where
  at_ready at_begin at_continue at_end : RequestStage

pub record LogicHandlerResponse : Type 0 where
  pub code : ResponseCode
  pub io_handler : ℕ

-- The timer is the reading of the clock with which it was started.
pub record LogicHandlerRequest : Type 0 where
  pub request_timer : ℕ
  pub requester : ℕ

pub record LogicHandlerRequestStage : Type 0 where
  pub stage : RequestStage
  pub io_code : ResponseCode
  pub num_lines : ℕ
  pub curr_line : ℕ
  pub batch : ℕ
  pub request : LogicHandlerRequest

-- `LogicHandlerRequestStage(r, l, b)`.
abbrev pub new_stage : LogicHandlerRequest → ℕ → ℕ → LogicHandlerRequestStage
new_stage r l b = record {
  stage = at_ready;
  io_code = ready;
  num_lines = l;
  curr_line = 0;
  batch = b;
  request = r;
}

-- `BlockingConcurrentQueue`: every item that was put in is taken out once; nothing is said of the
-- order. `held p q` counts the items that pass a test. `try_dequeue` may fail on a queue that has
-- items. `wait_dequeue` is what `wait_dequeue_timed` does when it does not time out: it gets an item
-- if there is one.
pub record BlockingConcurrentQueue (A : Type 0) : Type 1 where
  pub Queue : Type 0
  pub empty : Queue
  pub enqueue : Queue → A → Queue
  pub try_dequeue : Queue → Option (A × Queue)
  pub wait_dequeue : Queue → Option (A × Queue)
  pub held : (A → Bool) → Queue → ℕ
  pub held-empty : (p : A → Bool) → held p empty ≡ 0
  pub held-enqueue :
      (p : A → Bool) (q : Queue) (a : A) → held p (enqueue q a) ≡ held p q + (if p a then 1 else 0)
  pub held-wait-none : (p : A → Bool) (q : Queue) → wait_dequeue q ≡ none → held p q ≡ 0
  pub held-wait :
      (p : A → Bool) (q q' : Queue) (a : A)
      → wait_dequeue q ≡ some (a, q')
      → held p q ≡ held p q' + (if p a then 1 else 0)
  pub held-some :
      (p : A → Bool) (q q' : Queue) (a : A)
      → try_dequeue q ≡ some (a, q')
      → held p q ≡ held p q' + (if p a then 1 else 0)

module _ {A : Type 0} (queue : BlockingConcurrentQueue A) where
  open queue use {
    Queue, enqueue, try_dequeue, wait_dequeue, held, held-enqueue, held-wait-none, held-wait,
    held-some,
  }

  -- All the items.
  abbrev pub size : Queue → ℕ
  size q = held (λ a. true) q

  pub size-enqueue : (q : Queue) (a : A) → size (enqueue q a) ≡ suc (size q)
  size-enqueue q a = omega (arith, held-enqueue (λ a. true) q a)

  pub size-wait-none : (q : Queue) → wait_dequeue q ≡ none → size q ≡ 0
  size-wait-none q e = held-wait-none (λ a. true) q e

  pub size-wait : (q q' : Queue) (a : A) → wait_dequeue q ≡ some (a, q') → size q ≡ suc (size q')
  size-wait q q' a e = omega (arith, held-wait (λ a. true) q q' a e)

  pub size-some : (q q' : Queue) (a : A) → try_dequeue q ≡ some (a, q') → size q ≡ suc (size q')
  size-some q q' a e = omega (arith, held-some (λ a. true) q q' a e)
