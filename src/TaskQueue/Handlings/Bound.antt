-- ===== src/TaskQueue/Handlings/Bound.antt =====
-- How often evoagent/task_queue.py hands a message to its handler at most.
use evo_review_agent.Base.{
  ℕ, ◌*◌, ◌≤◌, max, String, ◌≡◌, refl, Bool, Option, List, [], ◌∷◌, arith, All,
}
use evo_review_agent.Base.Key.{text_key}
use evo_review_agent.TaskQueue.{
  Envelope, Outcome, done, permanent, transient, TaskQueue, task_queue, Event, run,
}
use evo_review_agent.TaskQueue.Taken.{total}
use evo_review_agent.TaskQueue.Accounts.{
  of_message, succeeded, places, submissions, IsAccounted, run-IsAccounted,
}
use evo_review_agent.TaskQueue.Attempts.{Waits, Retries, Tried, IsLimited, run-IsLimited}
use native.Mathlib.Nat.{mul-add}
use evo_review_agent.TaskQueue.Handlings.{
  tries, tries_done, attempts, handlings, IsCarried, kept-IsCarried,
}

-- A sum whose terms are within a multiple of those of another.
total-within :
    {A : Type 0} (Q : A → Type 0) (w v : A → ℕ) (limit : ℕ) (l : List A)
    → ((x : A) → Q x → w x ≤ limit * v x)
    → All Q l
    → total w l ≤ limit * total v l
unfolding total
total-within Q w v limit [] f h = omega arith
total-within Q w v limit (x ∷ xs) f h =
    omega (arith, mul-add limit (v x) (total v xs), f x (h.0), total-within Q w v limit xs f (h.1))

module _ {P : Type 0} (id : String) (limit : ℕ) where
  tries-within :
      (e : Envelope P) → e.attempt ≤ max 1 limit → tries id e ≤ max 1 limit * of_message id e
  unfolding tries of_message
  tries-within e within = ground (arith, within)

  tries_done-within :
      (h : Envelope P × Outcome)
      → Tried limit (h.0)
      → tries_done id h ≤ max 1 limit * succeeded id h
  unfolding tries_done succeeded Tried tries of_message
  tries_done-within (e, done) h = tries-within e (h.1)
  tries_done-within (e, permanent error) h = omega arith
  tries_done-within (e, transient error) h = omega arith

  attempts-within :
      (q : TaskQueue P) → IsLimited limit q → attempts id q ≤ max 1 limit * places id q
  unfolding attempts places Waits Retries Tried
  attempts-within q h =
      let top = max 1 limit in
      let pool =
        total-within (Waits limit) (tries id) (of_message id) top q.pool
          (λ e w. tries-within e (omega (arith, w))) h.pool in
      let timers =
        total-within (Retries limit) (λ t. tries id (t.1)) (λ t. of_message id (t.1)) top q.timers
          (λ t w. tries-within (t.1) (omega (arith, w))) h.timers in
      let letters =
        total-within (λ l. Tried limit l.envelope) (λ l. tries id l.envelope)
          (λ l. of_message id l.envelope) top q.memory_dlq (λ l w. tries-within l.envelope (w.1))
          h.letters in
      let handled =
        total-within (λ x. Tried limit (x.0)) (tries_done id) (succeeded id) top q.log.handled
          tries_done-within h.handled in
      let dropped =
        total-within (Waits limit) (tries id) (of_message id) top q.log.dropped
          (λ e w. tries-within e (omega (arith, w))) h.dropped in
      omega (arith, pool, timers, letters, handled, dropped)

-- What is promised of the handlings of a message.
pub record IsBounded {P : Type 0} (limit : ℕ) (id : String) (q : TaskQueue P) : Type 0 where
  pub few : handlings id q ≤ max 1 limit * submissions id q
  pub limited : IsLimited limit q

-- Whatever happens to the queue, a message is handled at most `max_attempts` times, or once if that is
-- 0, for each of its submissions that were taken, replays included. Every handling and every dead
-- letter counts an attempt within that number, and what waits for a retry was tried, has an attempt
-- left, and waits 1, 2, 4, 8 or 10 seconds by the number of attempts made.
pub run-IsBounded :
    {P : Type 0} (task_id_of : P → Option String) (max_attempts : ℕ) (has_callback : Bool)
    (events : List (Event P)) (id : String)
    → IsBounded max_attempts id (run task_id_of (task_queue max_attempts has_callback) events)
unfolding IsCarried IsAccounted attempts handlings total task_queue
run-IsBounded task_id_of max_attempts has_callback events id =
    let q = run task_id_of (task_queue max_attempts has_callback) events in
    let limited = run-IsLimited task_id_of max_attempts has_callback events in
    let carried = kept-IsCarried id task_id_of events (task_queue max_attempts has_callback) refl in
    let accounted : submissions id q ≡ places id q =
      run-IsAccounted task_id_of max_attempts has_callback events id in
    let within : handlings id q ≤ max 1 max_attempts * places id q =
      rw carried (attempts-within id max_attempts q limited) in
    record { few = rw accounted within; limited = limited }
