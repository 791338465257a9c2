-- ===== src/TaskQueue/Accounts.antt =====
-- Where a message of evoagent/task_queue.py is, and how often it was tried.
use evo_review_agent.Base.{
  ℕ, ◌+◌, ◌-◌, ◌^◌, min, String, ◌≡◌, refl, ◌∙◌, Bool, Option, none, some, List, [], ◌∷◌, ◌++◌,
  arith, leb, if◌then◌else◌, if_rule,
}
use evo_review_agent.Base.Key.{◌==◌, text_key}
use evo_review_agent.Base.Result.{Result, err, ok}
use evo_review_agent.Base.Slices.{take}
use evo_review_agent.TaskQueue.{
  Envelope, DeadLetter, Outcome, done, permanent, transient, TaskQueue, task_queue, QueueError,
  enqueue, submit, dead_letter, retry_later, settle, deliver, submit_memory, dead_letters,
  find_letter, replayed, replay_found, replay_dead_letter, close, take_at, Event, submits, replays,
  works, fires, closes, work_on, fire, step, run,
}
use evo_review_agent.TaskQueue.Taken.{total, total-append, Taken, take_at-Taken}

module _ {P : Type 0} (id : String) where
  -- 1 for an envelope of the message, 0 for another.
  unfoldable pub of_message : Envelope P → ℕ
  of_message e = if e.message_id == id then 1 else 0

  unfoldable pub succeeded : Envelope P × Outcome → ℕ
  unfolding of_message
  succeeded (e, done) = of_message e
  succeeded (e, permanent error) = 0
  succeeded (e, transient error) = 0

  -- The places where an envelope of the message may be: at work or waiting for work, waiting for its
  -- retry, among the dead letters, handled with success, or dropped by a timer behind `close`.
  unfoldable pub places : TaskQueue P → ℕ
  places q =
      total of_message q.pool
      + total (λ t. of_message (t.1)) q.timers
      + total (λ l. of_message l.envelope) q.memory_dlq
      + total succeeded q.log.handled
      + total of_message q.log.dropped

  unfoldable pub submissions : TaskQueue P → ℕ
  submissions q = total of_message q.log.submitted

  -- So many envelopes of the message came to a place.
  record Gains (n : ℕ) (q r : TaskQueue P) : Type 0 where
    placed : places r ≡ places q + n
    same : submissions r ≡ submissions q

  Gains-after : (n : ℕ) (q r t : TaskQueue P) → Gains 0 q r → Gains n r t → Gains n q t
  Gains-after n q r t h k = record {
    placed = omega (arith, h.placed, k.placed);
    same = k.same ∙ h.same;
  }

  handled-Gains :
      (n : ℕ) (q : TaskQueue P) (h : Envelope P × Outcome)
      → succeeded h ≡ n
      → Gains n q (record q { log = record (q.log) { handled = q.log.handled ++ (h ∷ []) } })
  unfolding places submissions
  handled-Gains n q h one = record {
    placed = omega (arith, total-append succeeded q.log.handled h, one);
    same = refl;
  }

  dead_letter-Gains :
      (q : TaskQueue P) (e : Envelope P) (error : List ℕ) (now : ℕ)
      → Gains (of_message e) q (dead_letter q e error now)
  unfolding dead_letter places submissions
  dead_letter-Gains q e error now =
      let letter : DeadLetter P = record {
        envelope = e;
        error = take 2000 error;
        failed_at = now;
      } in
      record {
        placed =
            omega (
              arith,
              total-append (λ (l : DeadLetter P). of_message l.envelope) q.memory_dlq letter,
            );
        same = refl;
      }

  retry_later-Gains : (q : TaskQueue P) (e : Envelope P) → Gains (of_message e) q (retry_later q e)
  unfolding retry_later places submissions
  retry_later-Gains q e = record {
    placed = omega (
      arith,
      total-append (λ (t : ℕ × Envelope P). of_message (t.1)) q.timers
          (min (2 ^ (e.attempt - 1)) 10, e),
    );
    same = refl;
  }

  deliver-Gains :
      (q : TaskQueue P) (e : Envelope P) (o : Outcome) (now : ℕ)
      → Gains (of_message e) q ((deliver q e o now).0)
  unfolding deliver settle succeeded of_message
  deliver-Gains q e done now =
      handled-Gains (of_message e) q (record e { attempt = e.attempt + 1 }, done) refl
  deliver-Gains q e (permanent error) now =
      let tried : Envelope P = record e { attempt = e.attempt + 1 } in
      Gains-after (of_message e) q _ _ (handled-Gains 0 q (tried, permanent error) refl)
        (dead_letter-Gains _ tried error now)
  deliver-Gains q e (transient error) now =
      let tried : Envelope P = record e { attempt = e.attempt + 1 } in
      let seen = handled-Gains 0 q (tried, transient error) refl in
      if_rule (λ (x : TaskQueue P × Bool). Gains (of_message e) q (x.0))
        (leb q.max_attempts (e.attempt + 1)) _ _
        (λ last. Gains-after (of_message e) q _ _ seen (dead_letter-Gains _ tried error now))
        (λ again. Gains-after (of_message e) q _ _ seen (retry_later-Gains _ tried))

  submit_memory-Gains :
      (q : TaskQueue P) (e : Envelope P) → Gains (of_message e) q (submit_memory q e)
  unfolding submit_memory places submissions
  submit_memory-Gains q e =
      if_rule (Gains (of_message e) q) q.closed _ _
        (λ late. record {
          placed = omega (arith, total-append of_message q.log.dropped e);
          same = refl;
        })
        (λ alive. record { placed = omega (arith, total-append of_message q.pool e); same = refl })

  -- Every submission of the message is in exactly one place.
  unfoldable pub IsAccounted : TaskQueue P → Type 0
  IsAccounted q = submissions q ≡ places q

  enqueue-IsAccounted :
      (q : TaskQueue P) (e : Envelope P) → IsAccounted q → IsAccounted ((enqueue q e).0)
  unfolding enqueue IsAccounted places submissions
  enqueue-IsAccounted q e h =
      if_rule (λ (x : TaskQueue P × Result QueueError String). IsAccounted (x.0)) q.closed _ _
        (λ late. h)
        (λ alive.
          omega
            (arith, h, total-append of_message q.pool e, total-append of_message q.log.submitted e))

  replayed-IsAccounted :
      (x : TaskQueue P × Result QueueError String)
      → IsAccounted (x.0)
      → IsAccounted ((replayed x).0)
  unfolding replayed
  replayed-IsAccounted (q, ok message_id) h = h
  replayed-IsAccounted (q, err e) h = h

  replay_found-IsAccounted :
      (task_id_of : P → Option String) (q : TaskQueue P) (message_id : String)
      (o : Option (DeadLetter P)) (uuid : String) (now : ℕ)
      → IsAccounted q
      → IsAccounted ((replay_found task_id_of q message_id o uuid now).0)
  unfolding replay_found submit
  replay_found-IsAccounted task_id_of q message_id none uuid now h = h
  replay_found-IsAccounted task_id_of q message_id (some l) uuid now h =
      replayed-IsAccounted _ (enqueue-IsAccounted q _ h)

  work_on-IsAccounted :
      (q : TaskQueue P) (o : Option (Envelope P × List (Envelope P))) (outcome : Outcome) (now : ℕ)
      → Taken of_message q.pool o
      → IsAccounted q
      → IsAccounted (work_on q o outcome now)
  unfolding work_on Taken IsAccounted places submissions
  work_on-IsAccounted q none outcome now taken h = h
  work_on-IsAccounted q (some (e, others)) outcome now taken h =
      let gains = deliver-Gains (record q { pool = others }) e outcome now in
      omega (arith, taken, h, gains.placed, gains.same)

  fire-IsAccounted :
      (q : TaskQueue P) (o : Option ((ℕ × Envelope P) × List (ℕ × Envelope P)))
      → Taken (λ t. of_message (t.1)) q.timers o
      → IsAccounted q
      → IsAccounted (fire q o)
  unfolding fire Taken IsAccounted places submissions
  fire-IsAccounted q none taken h = h
  fire-IsAccounted q (some ((delay, e), others)) taken h =
      let gains = submit_memory-Gains (record q { timers = others }) e in
      omega (arith, taken, h, gains.placed, gains.same)

  step-IsAccounted :
      (task_id_of : P → Option String) (q : TaskQueue P) (e : Event P)
      → IsAccounted q
      → IsAccounted (step task_id_of q e)
  unfolding step submit replay_dead_letter close IsAccounted places submissions
  step-IsAccounted task_id_of q (submits payload message_id uuid now) h = enqueue-IsAccounted q _ h
  step-IsAccounted task_id_of q (replays message_id uuid now) h =
      replay_found-IsAccounted task_id_of q message_id (find_letter message_id (dead_letters q 500))
        uuid now h
  step-IsAccounted task_id_of q (works n outcome now) h =
      work_on-IsAccounted q (take_at n q.pool) outcome now (take_at-Taken of_message n q.pool) h
  step-IsAccounted task_id_of q (fires n) h =
      fire-IsAccounted q (take_at n q.timers)
        (take_at-Taken (λ (t : ℕ × Envelope P). of_message (t.1)) n q.timers) h
  step-IsAccounted task_id_of q closes h = h

  kept-IsAccounted :
      (task_id_of : P → Option String) (es : List (Event P)) (q : TaskQueue P)
      → IsAccounted q
      → IsAccounted (run task_id_of q es)
  unfolding run
  kept-IsAccounted task_id_of [] q h = h
  kept-IsAccounted task_id_of (e ∷ es) q h =
      kept-IsAccounted task_id_of es (step task_id_of q e) (step-IsAccounted task_id_of q e h)

-- In whatever order submissions, replays, workers, timers and the closing of the queue follow each
-- other: the submissions of a message that were taken, replays included, are as many as its envelopes
-- at work or waiting, among the dead letters, handled with success, and dropped by timers after the
-- closing. No message is lost or doubled.
pub run-IsAccounted :
    {P : Type 0} (task_id_of : P → Option String) (max_attempts : ℕ) (has_callback : Bool)
    (events : List (Event P)) (id : String)
    → IsAccounted id (run task_id_of (task_queue max_attempts has_callback) events)
unfolding IsAccounted places submissions task_queue total
run-IsAccounted task_id_of max_attempts has_callback events id =
    kept-IsAccounted id task_id_of events (task_queue max_attempts has_callback) refl
