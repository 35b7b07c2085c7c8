-- ===== src/Handler/ListQueue.antt =====
-- A queue in the order of arrival: an instance of `BlockingConcurrentQueue` for the concrete inputs.
use api_pack.Base.{
  ℕ, ◌+◌, ◌≡◌, refl, ap, arith, Bool, Option, none, some, List, [], ◌∷◌, ◌++◌, if◌then◌else◌,
}
use api_pack.Handler.Messages.{BlockingConcurrentQueue}

module _ {A : Type 0} (p : A → Bool) where
  abbrev pub count_of : List A → ℕ
  count_of [] = 0
  count_of (a ∷ q) = count_of q + (if p a then 1 else 0)

  pub count_of-append :
      (q : List A) (a : A) → count_of (q ++ (a ∷ [])) ≡ count_of q + (if p a then 1 else 0)
  count_of-append [] a = refl
  count_of-append (b ∷ q) a = ground (arith, count_of-append q a)

module _ {A : Type 0} where
  unfoldable pub take_first : List A → Option (A × List A)
  take_first [] = none
  take_first (a ∷ q) = some (a, q)

  pub count_of-empty : (p : A → Bool) (q : List A) → take_first q ≡ none → count_of p q ≡ 0
  unfolding take_first
  count_of-empty p [] e = refl
  count_of-empty p (a ∷ q) e = cc

  counted : (p : A → Bool) → Option (A × List A) → ℕ
  counted p none = 0
  counted p (some (a, q)) = count_of p q + (if p a then 1 else 0)

  pub count_of-first :
      (p : A → Bool) (q q' : List A) (a : A)
      → take_first q ≡ some (a, q')
      → count_of p q ≡ count_of p q' + (if p a then 1 else 0)
  unfolding take_first counted
  count_of-first p [] q' a e = cc
  count_of-first p (b ∷ q) q' a e = ap (counted p) e

abbrev pub list_queue : (A : Type 0) → BlockingConcurrentQueue A
list_queue A = record {
  Queue = List A;
  empty = [];
  enqueue = λ q a. q ++ (a ∷ []);
  try_dequeue = take_first;
  wait_dequeue = take_first;
  held = count_of;
  held-empty = λ p. refl;
  held-enqueue = count_of-append;
  held-wait-none = count_of-empty;
  held-wait = count_of-first;
  held-some = count_of-first;
}
