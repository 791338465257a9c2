-- ===== src/TaskQueue.antt =====
-- evoagent/task_queue.py, the queue that is kept in memory. The outcome of a handler, the clock, the
-- random ids and the order in which the workers and the timers get on are given with each step. A text
-- that is cut off is a list of the codes of its characters.
pub mod Taken
pub mod Accounts
pub mod Attempts
pub mod Handlings
pub mod Examples
use evo_review_agent.Base.{
  ℕ, zero, suc, ◌+◌, ◌-◌, ◌^◌, min, String, Bool, true, false, Option, none, some, List, [], ◌∷◌,
  ◌++◌, leb, if◌then◌else◌, length,
}
use evo_review_agent.Base.Key.{◌==◌, text_key}
use evo_review_agent.Base.Result.{Result, err, ok}
use evo_review_agent.Base.Slices.{take, last_items}
use mathlib.Core.List.{reverse}

pub record Envelope (P : Type 0) : Type 0 where
  pub message_id : String
  pub attempt : ℕ
  pub payload : P
  pub submitted_at : ℕ

pub record DeadLetter (P : Type 0) : Type 0 where
  pub envelope : Envelope P
  pub error : List ℕ
  pub failed_at : ℕ

-- How a call of the handler ends: with PermanentTaskError, or with another exception.
pub data Outcome : Type 0 where
  done : Outcome
  permanent transient : List ℕ → Outcome

-- What was observed of the queue; the code keeps no such record.
pub record Log (P : Type 0) : Type 0 where
  pub submitted : List (Envelope P)
  pub handled : List (Envelope P × Outcome)
  pub dropped : List (Envelope P)

-- `pool` is the work that the executor was given and has not finished, `timers` the retries that wait,
-- with their delays; `notified` are the calls of `on_dead_letter`.
pub record TaskQueue (P : Type 0) : Type 0 where
  pub max_attempts : ℕ
  pub has_callback : Bool
  pub pool : List (Envelope P)
  pub timers : List (ℕ × Envelope P)
  pub memory_dlq : List (DeadLetter P)
  pub notified : List (P × List ℕ)
  pub closed : Bool
  pub log : Log P

-- `__init__`
pub task_queue : {P : Type 0} → ℕ → Bool → TaskQueue P
task_queue max_attempts has_callback = record {
  max_attempts = max_attempts;
  has_callback = has_callback;
  pool = [];
  timers = [];
  memory_dlq = [];
  notified = [];
  closed = false;
  log = record { submitted = []; handled = []; dropped = [] };
}

-- The RuntimeError of an executor that was shut down.
pub data QueueError : Type 0 where
  shut_down : QueueError

or_new : Option String → String → String
or_new none uuid = uuid
or_new (some id) uuid = id

-- `_executor.submit(self._deliver, envelope)` of a new envelope
enqueue : {P : Type 0} → TaskQueue P → Envelope P → TaskQueue P × Result QueueError String
enqueue q e = if q.closed then (q, err shut_down) else (
  record q {
    pool = q.pool ++ (e ∷ []);
    log = record (q.log) { submitted = q.log.submitted ++ (e ∷ []) };
  },
  ok e.message_id,
)

-- `submit`: the id is the one given, or that of the payload's task, or a new one.
pub submit :
    {P : Type 0}
    → (P → Option String)
    → TaskQueue P
    → P
    → String
    → String
    → ℕ
    → TaskQueue P × Result QueueError String
unfolding enqueue or_new
submit task_id_of q payload message_id uuid now = enqueue q (record {
  message_id = if message_id == "" then or_new (task_id_of payload) uuid else message_id;
  attempt = 0;
  payload = payload;
  submitted_at = now;
})

-- `_dead_letter`
dead_letter : {P : Type 0} → TaskQueue P → Envelope P → List ℕ → ℕ → TaskQueue P
unfolding take
dead_letter q e error now = record q {
  memory_dlq =
      q.memory_dlq ++ (record { envelope = e; error = take 2000 error; failed_at = now } ∷ []);
  notified =
      if q.has_callback then q.notified ++ ((e.payload, take 2000 error) ∷ []) else q.notified;
}

retry_later : {P : Type 0} → TaskQueue P → Envelope P → TaskQueue P
retry_later q e = record q { timers = q.timers ++ ((min (2 ^ (e.attempt - 1)) 10, e) ∷ []) }

-- The end of `_deliver`, behind the handler.
settle : {P : Type 0} → TaskQueue P → Envelope P → Outcome → ℕ → TaskQueue P × Bool
unfolding dead_letter retry_later
settle q e done now = (q, true)
settle q e (permanent error) now = (dead_letter q e error now, false)
settle q e (transient error) now =
    if leb q.max_attempts e.attempt
    then (dead_letter q e error now, false)
    else (retry_later q e, false)

-- `_deliver`
pub deliver : {P : Type 0} → TaskQueue P → Envelope P → Outcome → ℕ → TaskQueue P × Bool
unfolding settle
deliver q e outcome now =
    let tried = record e { attempt = e.attempt + 1 } in
    settle
      (record q { log = record (q.log) { handled = q.log.handled ++ ((tried, outcome) ∷ []) } })
      tried outcome now

-- `_submit_memory`, when a timer fires
pub submit_memory : {P : Type 0} → TaskQueue P → Envelope P → TaskQueue P
submit_memory q e =
    if q.closed
    then record q { log = record (q.log) { dropped = q.log.dropped ++ (e ∷ []) } }
    else record q { pool = q.pool ++ (e ∷ []) }

-- `dead_letters`; a limit of 0 slices the whole list.
pub dead_letters : {P : Type 0} → TaskQueue P → ℕ → List (DeadLetter P)
unfolding last_items
dead_letters q zero = reverse q.memory_dlq
dead_letters q (suc n) = reverse (last_items (suc n) q.memory_dlq)

pub dead_letter_count : {P : Type 0} → TaskQueue P → ℕ
dead_letter_count q = length (dead_letters q 500)

find_letter : {P : Type 0} → String → List (DeadLetter P) → Option (DeadLetter P)
find_letter id [] = none
find_letter id (l ∷ ls) =
    let rest = find_letter id ls in if l.envelope.message_id == id then some l else rest

replayed :
    {P : Type 0} → TaskQueue P × Result QueueError String → TaskQueue P × Result QueueError Bool
replayed (q, ok id) = (q, ok true)
replayed (q, err e) = (q, err e)

replay_found :
    {P : Type 0}
    → (P → Option String)
    → TaskQueue P
    → String
    → Option (DeadLetter P)
    → String
    → ℕ
    → TaskQueue P × Result QueueError Bool
unfolding submit replayed
replay_found task_id_of q id none uuid now = (q, ok false)
replay_found task_id_of q id (some l) uuid now =
    replayed (submit task_id_of q l.envelope.payload id uuid now)

pub replay_dead_letter :
    {P : Type 0}
    → (P → Option String)
    → TaskQueue P
    → String
    → String
    → ℕ
    → TaskQueue P × Result QueueError Bool
unfolding replay_found find_letter dead_letters
replay_dead_letter task_id_of q id uuid now =
    replay_found task_id_of q id (find_letter id (dead_letters q 500)) uuid now

pub close : {P : Type 0} → TaskQueue P → TaskQueue P
close q = record q { closed = true }

put_back : {A : Type 0} → A → Option (A × List A) → Option (A × List A)
put_back x none = none
put_back x (some (y, ys)) = some (y, x ∷ ys)

-- The item at an index, and the others.
pub take_at : {A : Type 0} → ℕ → List A → Option (A × List A)
unfolding put_back
take_at n [] = none
take_at zero (x ∷ xs) = some (x, xs)
take_at (suc n) (x ∷ xs) = put_back x (take_at n xs)

-- What may happen next: a call from outside, a worker that ends its work on some envelope, or a timer.
pub data Event (P : Type 0) : Type 0 where
  submits : P → String → String → ℕ → Event P
  replays : String → String → ℕ → Event P
  works : ℕ → Outcome → ℕ → Event P
  fires : ℕ → Event P
  closes : Event P

work_on :
    {P : Type 0} → TaskQueue P → Option (Envelope P × List (Envelope P)) → Outcome → ℕ → TaskQueue P
unfolding deliver
work_on q none outcome now = q
work_on q (some (e, others)) outcome now = (deliver (record q { pool = others }) e outcome now).0

fire : {P : Type 0} → TaskQueue P → Option ((ℕ × Envelope P) × List (ℕ × Envelope P)) → TaskQueue P
unfolding submit_memory
fire q none = q
fire q (some ((delay, e), others)) = submit_memory (record q { timers = others }) e

pub step : {P : Type 0} → (P → Option String) → TaskQueue P → Event P → TaskQueue P
unfolding submit replay_dead_letter take_at work_on fire close
step task_id_of q (submits payload id uuid now) = (submit task_id_of q payload id uuid now).0
step task_id_of q (replays id uuid now) = (replay_dead_letter task_id_of q id uuid now).0
step task_id_of q (works n outcome now) = work_on q (take_at n q.pool) outcome now
step task_id_of q (fires n) = fire q (take_at n q.timers)
step task_id_of q closes = close q

pub run : {P : Type 0} → (P → Option String) → TaskQueue P → List (Event P) → TaskQueue P
unfolding step
run task_id_of q [] = q
run task_id_of q (e ∷ es) = run task_id_of (step task_id_of q e) es
