-- ===== src/TaskQueue/Attempts.antt =====
-- How often evoagent/task_queue.py tries a message, and when.
use evo_review_agent.Base.{
  ℕ, ◌+◌, ◌-◌, ◌^◌, ◌≤◌, ◌<◌, min, max, String, ◌≡◌, refl, Bool, Option, none, some, List, [], ◌∷◌,
  ◌++◌, arith, leb, All, if_rule, leb-false→lt,
}
use evo_review_agent.Base.Key.{text_key}
use evo_review_agent.Base.Result.{Result, err, ok}
use evo_review_agent.TaskQueue.{
  Envelope, DeadLetter, Outcome, done, permanent, transient, TaskQueue, task_queue, QueueError,
  enqueue, submit, dead_letter, retry_later, settle, deliver, submit_memory, dead_letters,
  find_letter, replayed, replay_found, replay_dead_letter, close, take_at, Event, submits, replays,
  works, fires, closes, work_on, fire, step, run,
}
use evo_review_agent.TaskQueue.Taken.{All-append, Split, take_at-Split}

module _ {P : Type 0} (limit : ℕ) where
  -- An attempt is left.
  unfoldable pub Waits : Envelope P → Type 0
  Waits e = e.attempt < max 1 limit

  -- It was tried, and an attempt is left: it waits for one second, then for 2, 4 and 8, then for 10.
  unfoldable pub Retries : ℕ × Envelope P → Type 0
  Retries (delay, e) =
      (1 ≤ e.attempt) × (e.attempt < limit) × (delay ≡ min (2 ^ (e.attempt - 1)) 10)

  -- An attempt within the limit.
  unfoldable pub Tried : Envelope P → Type 0
  Tried e = (1 ≤ e.attempt) × (e.attempt ≤ max 1 limit)

  -- The attempts of all envelopes are within the limit, at least one being made.
  pub record IsLimited (q : TaskQueue P) : Type 0 where
    pub bound : q.max_attempts ≡ limit
    pub pool : All Waits q.pool
    pub timers : All Retries q.timers
    pub letters : All (λ l. Tried l.envelope) q.memory_dlq
    pub handled : All (λ h. Tried (h.0)) q.log.handled
    pub dropped : All Waits q.log.dropped

  handled-IsLimited :
      (q : TaskQueue P) (e : Envelope P) (o : Outcome)
      → IsLimited q
      → Tried e
      → IsLimited (record q { log = record (q.log) { handled = q.log.handled ++ ((e, o) ∷ []) } })
  handled-IsLimited q e o h tried = record {
    bound = h.bound;
    pool = h.pool;
    timers = h.timers;
    letters = h.letters;
    handled =
        All-append (λ (x : Envelope P × Outcome). Tried (x.0)) q.log.handled (e, o) h.handled tried;
    dropped = h.dropped;
  }

  dead_letter-IsLimited :
      (q : TaskQueue P) (e : Envelope P) (error : List ℕ) (now : ℕ)
      → IsLimited q
      → Tried e
      → IsLimited (dead_letter q e error now)
  unfolding dead_letter
  dead_letter-IsLimited q e error now h tried = record {
    bound = h.bound;
    pool = h.pool;
    timers = h.timers;
    letters = All-append (λ (l : DeadLetter P). Tried l.envelope) q.memory_dlq _ h.letters tried;
    handled = h.handled;
    dropped = h.dropped;
  }

  retry_later-IsLimited :
      (q : TaskQueue P) (e : Envelope P)
      → IsLimited q
      → Tried e
      → e.attempt < limit
      → IsLimited (retry_later q e)
  unfolding retry_later Retries Tried
  retry_later-IsLimited q e h tried left = record {
    bound = h.bound;
    pool = h.pool;
    timers = All-append Retries q.timers _ h.timers (tried.0, left, refl);
    letters = h.letters;
    handled = h.handled;
    dropped = h.dropped;
  }

  settle-IsLimited :
      (q : TaskQueue P) (e : Envelope P) (o : Outcome) (now : ℕ)
      → IsLimited q
      → Tried e
      → IsLimited ((settle q e o now).0)
  unfolding settle
  settle-IsLimited q e done now h tried = h
  settle-IsLimited q e (permanent error) now h tried = dead_letter-IsLimited q e error now h tried
  settle-IsLimited q e (transient error) now h tried =
      if_rule (λ (x : TaskQueue P × Bool). IsLimited (x.0)) (leb q.max_attempts e.attempt) _ _
        (λ last. dead_letter-IsLimited q e error now h tried)
        (λ again.
          retry_later-IsLimited q e h tried
            (omega (arith, leb-false→lt q.max_attempts e.attempt again, h.bound)))

  deliver-IsLimited :
      (q : TaskQueue P) (e : Envelope P) (o : Outcome) (now : ℕ)
      → IsLimited q
      → Waits e
      → IsLimited ((deliver q e o now).0)
  unfolding deliver Waits Tried
  deliver-IsLimited q e o now h waits =
      let tried : Envelope P = record e { attempt = e.attempt + 1 } in
      let within : (1 ≤ e.attempt + 1) × (e.attempt + 1 ≤ max 1 limit) =
        (omega arith, omega (arith, waits)) in
      settle-IsLimited _ tried o now (handled-IsLimited q tried o h within) within

  enqueue-IsLimited :
      (q : TaskQueue P) (e : Envelope P) → e.attempt ≡ 0 → IsLimited q → IsLimited ((enqueue q e).0)
  unfolding enqueue Waits
  enqueue-IsLimited q e new h =
      if_rule (λ (x : TaskQueue P × Result QueueError String). IsLimited (x.0)) q.closed _ _
        (λ late. h)
        (λ alive. record {
          bound = h.bound;
          pool = All-append Waits q.pool e h.pool (omega (arith, new));
          timers = h.timers;
          letters = h.letters;
          handled = h.handled;
          dropped = h.dropped;
        })

  submit_memory-IsLimited :
      (q : TaskQueue P) (e : Envelope P)
      → e.attempt < limit
      → IsLimited q
      → IsLimited (submit_memory q e)
  unfolding submit_memory Waits
  submit_memory-IsLimited q e left h =
      if_rule IsLimited q.closed _ _
        (λ late. record {
          bound = h.bound;
          pool = h.pool;
          timers = h.timers;
          letters = h.letters;
          handled = h.handled;
          dropped = All-append Waits q.log.dropped e h.dropped (omega (arith, left));
        })
        (λ alive. record {
          bound = h.bound;
          pool = All-append Waits q.pool e h.pool (omega (arith, left));
          timers = h.timers;
          letters = h.letters;
          handled = h.handled;
          dropped = h.dropped;
        })

  replayed-IsLimited :
      (x : TaskQueue P × Result QueueError String) → IsLimited (x.0) → IsLimited ((replayed x).0)
  unfolding replayed
  replayed-IsLimited (q, ok message_id) h = h
  replayed-IsLimited (q, err e) h = h

  replay_found-IsLimited :
      (task_id_of : P → Option String) (q : TaskQueue P) (message_id : String)
      (o : Option (DeadLetter P)) (uuid : String) (now : ℕ)
      → IsLimited q
      → IsLimited ((replay_found task_id_of q message_id o uuid now).0)
  unfolding replay_found submit
  replay_found-IsLimited task_id_of q message_id none uuid now h = h
  replay_found-IsLimited task_id_of q message_id (some l) uuid now h =
      replayed-IsLimited _ (enqueue-IsLimited q _ refl h)

  work_on-IsLimited :
      (q : TaskQueue P) (o : Option (Envelope P × List (Envelope P))) (outcome : Outcome) (now : ℕ)
      → Split Waits o
      → IsLimited q
      → IsLimited (work_on q o outcome now)
  unfolding work_on Split
  work_on-IsLimited q none outcome now split h = h
  work_on-IsLimited q (some (e, others)) outcome now split h =
      deliver-IsLimited (record q { pool = others }) e outcome now
        (record {
          bound = h.bound;
          pool = split.1;
          timers = h.timers;
          letters = h.letters;
          handled = h.handled;
          dropped = h.dropped;
        })
        split.0

  fire-IsLimited :
      (q : TaskQueue P) (o : Option ((ℕ × Envelope P) × List (ℕ × Envelope P)))
      → Split Retries o
      → IsLimited q
      → IsLimited (fire q o)
  unfolding fire Split Retries
  fire-IsLimited q none split h = h
  fire-IsLimited q (some ((delay, e), others)) split h =
      submit_memory-IsLimited (record q { timers = others }) e split.0.1
        (record {
          bound = h.bound;
          pool = h.pool;
          timers = split.1;
          letters = h.letters;
          handled = h.handled;
          dropped = h.dropped;
        })

  step-IsLimited :
      (task_id_of : P → Option String) (q : TaskQueue P) (e : Event P)
      → IsLimited q
      → IsLimited (step task_id_of q e)
  unfolding step submit replay_dead_letter close
  step-IsLimited task_id_of q (submits payload message_id uuid now) h = enqueue-IsLimited q _ refl h
  step-IsLimited task_id_of q (replays message_id uuid now) h =
      replay_found-IsLimited task_id_of q message_id (find_letter message_id (dead_letters q 500))
        uuid now h
  step-IsLimited task_id_of q (works n outcome now) h =
      work_on-IsLimited q (take_at n q.pool) outcome now (take_at-Split Waits n q.pool h.pool) h
  step-IsLimited task_id_of q (fires n) h =
      fire-IsLimited q (take_at n q.timers) (take_at-Split Retries n q.timers h.timers) h
  step-IsLimited task_id_of q closes h = record {
    bound = h.bound;
    pool = h.pool;
    timers = h.timers;
    letters = h.letters;
    handled = h.handled;
    dropped = h.dropped;
  }

  kept-IsLimited :
      (task_id_of : P → Option String) (es : List (Event P)) (q : TaskQueue P)
      → IsLimited q
      → IsLimited (run task_id_of q es)
  unfolding run
  kept-IsLimited task_id_of [] q h = h
  kept-IsLimited task_id_of (e ∷ es) q h =
      kept-IsLimited task_id_of es (step task_id_of q e) (step-IsLimited task_id_of q e h)

-- Every handling and every dead letter counts an attempt within `max_attempts`, or the first if that
-- is 0, and what waits for a retry was tried, has an attempt left, and waits 1, 2, 4, 8 or 10 seconds
-- by the number of attempts made.
pub run-IsLimited :
    {P : Type 0} (task_id_of : P → Option String) (max_attempts : ℕ) (has_callback : Bool)
    (events : List (Event P))
    → IsLimited max_attempts (run task_id_of (task_queue max_attempts has_callback) events)
unfolding task_queue
run-IsLimited task_id_of max_attempts has_callback events =
    kept-IsLimited max_attempts task_id_of events (task_queue max_attempts has_callback)
      (record { bound = refl; pool = tt; timers = tt; letters = tt; handled = tt; dropped = tt })
