-- ===== src/TaskQueue/Handlings.antt =====
-- How often evoagent/task_queue.py hands a message to its handler: the attempts that its envelopes
-- carry are the handlings made of them.
pub mod Bound
use evo_review_agent.Base.{
  ℕ, ◌+◌, ◌-◌, ◌^◌, min, String, ◌≡◌, refl, Bool, Option, none, some, List, [], ◌∷◌, ◌++◌, arith,
  leb, if◌then◌else◌, if_rule,
}
use evo_review_agent.Base.Key.{◌==◌, text_key}
use evo_review_agent.Base.Result.{Result, err, ok}
use evo_review_agent.Base.Slices.{take}
use evo_review_agent.TaskQueue.{
  Envelope, DeadLetter, Outcome, done, permanent, transient, TaskQueue, QueueError, enqueue, submit,
  dead_letter, retry_later, settle, deliver, submit_memory, dead_letters, find_letter, replayed,
  replay_found, replay_dead_letter, close, take_at, Event, submits, replays, works, fires, closes,
  work_on, fire, step, run,
}
use evo_review_agent.TaskQueue.Taken.{total, total-append, Taken, take_at-Taken}
use evo_review_agent.TaskQueue.Accounts.{of_message}

module _ {P : Type 0} (id : String) where
  -- The attempts made of an envelope of the message; 0 for another.
  tries : Envelope P → ℕ
  tries e = if e.message_id == id then e.attempt else 0

  tries_done : Envelope P × Outcome → ℕ
  unfolding tries
  tries_done (e, done) = tries e
  tries_done (e, permanent error) = 0
  tries_done (e, transient error) = 0

  -- The attempts that the envelopes of the message carry, wherever they are.
  attempts : TaskQueue P → ℕ
  attempts q =
      total tries q.pool
      + total (λ t. tries (t.1)) q.timers
      + total (λ l. tries l.envelope) q.memory_dlq
      + total tries_done q.log.handled
      + total tries q.log.dropped

  -- How often the message was given to the handler.
  unfoldable pub handlings : TaskQueue P → ℕ
  handlings q = total (λ h. of_message id (h.0)) q.log.handled

  tries-again :
      (e : Envelope P) → tries (record e { attempt = e.attempt + 1 }) ≡ tries e + of_message id e
  unfolding tries of_message
  tries-again e = ground arith

  tries-new : (e : Envelope P) → e.attempt ≡ 0 → tries e ≡ 0
  unfolding tries
  tries-new e new = ground (arith, new)

  -- So many attempts came with an envelope, and so many handlings were made.
  record Gains (n k : ℕ) (q r : TaskQueue P) : Type 0 where
    carried : attempts r ≡ attempts q + n
    made : handlings r ≡ handlings q + k

  Gains-after : (n k : ℕ) (q r t : TaskQueue P) → Gains 0 k q r → Gains n 0 r t → Gains n k q t
  Gains-after n k q r t g h = record {
    carried = omega (arith, g.carried, h.carried);
    made = omega (arith, g.made, h.made);
  }

  handled-Gains :
      (n : ℕ) (q : TaskQueue P) (h : Envelope P × Outcome)
      → tries_done h ≡ n
      → Gains n
          (of_message id (h.0))
          q
          (record q { log = record (q.log) { handled = q.log.handled ++ (h ∷ []) } })
  unfolding attempts handlings
  handled-Gains n q h one = record {
    carried = omega (arith, total-append tries_done q.log.handled h, one);
    made = total-append (λ (x : Envelope P × Outcome). of_message id (x.0)) q.log.handled h;
  }

  dead_letter-Gains :
      (q : TaskQueue P) (e : Envelope P) (error : List ℕ) (now : ℕ)
      → Gains (tries e) 0 q (dead_letter q e error now)
  unfolding dead_letter attempts handlings
  dead_letter-Gains q e error now =
      let letter : DeadLetter P = record {
        envelope = e;
        error = take 2000 error;
        failed_at = now;
      } in
      record {
        carried =
            omega
              (arith, total-append (λ (l : DeadLetter P). tries l.envelope) q.memory_dlq letter);
        made = omega arith;
      }

  retry_later-Gains : (q : TaskQueue P) (e : Envelope P) → Gains (tries e) 0 q (retry_later q e)
  unfolding retry_later attempts handlings
  retry_later-Gains q e = record {
    carried = omega (
      arith,
      total-append (λ (t : ℕ × Envelope P). tries (t.1)) q.timers (min (2 ^ (e.attempt - 1)) 10, e),
    );
    made = omega arith;
  }

  -- A delivery is one handling, and the envelope carries one attempt more.
  deliver-Gains :
      (q : TaskQueue P) (e : Envelope P) (o : Outcome) (now : ℕ)
      → Gains
          (tries (record e { attempt = e.attempt + 1 }))
          (of_message id e)
          q
          ((deliver q e o now).0)
  unfolding deliver settle tries_done of_message
  deliver-Gains q e done now = handled-Gains _ q (record e { attempt = e.attempt + 1 }, done) refl
  deliver-Gains q e (permanent error) now =
      let tried : Envelope P = record e { attempt = e.attempt + 1 } in
      Gains-after _ _ q _ _ (handled-Gains 0 q (tried, permanent error) refl)
        (dead_letter-Gains _ tried error now)
  deliver-Gains q e (transient error) now =
      let tried : Envelope P = record e { attempt = e.attempt + 1 } in
      let seen = handled-Gains 0 q (tried, transient error) refl in
      if_rule (λ (x : TaskQueue P × Bool). Gains (tries tried) (of_message id e) q (x.0))
        (leb q.max_attempts (e.attempt + 1)) _ _
        (λ last. Gains-after _ _ q _ _ seen (dead_letter-Gains _ tried error now))
        (λ again. Gains-after _ _ q _ _ seen (retry_later-Gains _ tried))

  submit_memory-Gains : (q : TaskQueue P) (e : Envelope P) → Gains (tries e) 0 q (submit_memory q e)
  unfolding submit_memory attempts handlings
  submit_memory-Gains q e =
      if_rule (Gains (tries e) 0 q) q.closed _ _
        (λ late. record {
          carried = omega (arith, total-append tries q.log.dropped e);
          made = omega arith;
        })
        (λ alive. record {
          carried = omega (arith, total-append tries q.pool e);
          made = omega arith;
        })

  -- Every handling is an attempt that some envelope carries.
  IsCarried : TaskQueue P → Type 0
  IsCarried q = handlings q ≡ attempts q

  enqueue-IsCarried :
      (q : TaskQueue P) (e : Envelope P) → e.attempt ≡ 0 → IsCarried q → IsCarried ((enqueue q e).0)
  unfolding enqueue IsCarried attempts handlings
  enqueue-IsCarried q e new h =
      if_rule (λ (x : TaskQueue P × Result QueueError String). IsCarried (x.0)) q.closed _ _
        (λ late. h) (λ alive. omega (arith, h, total-append tries q.pool e, tries-new e new))

  replayed-IsCarried :
      (x : TaskQueue P × Result QueueError String) → IsCarried (x.0) → IsCarried ((replayed x).0)
  unfolding replayed
  replayed-IsCarried (q, ok message_id) h = h
  replayed-IsCarried (q, err e) h = h

  replay_found-IsCarried :
      (task_id_of : P → Option String) (q : TaskQueue P) (message_id : String)
      (o : Option (DeadLetter P)) (uuid : String) (now : ℕ)
      → IsCarried q
      → IsCarried ((replay_found task_id_of q message_id o uuid now).0)
  unfolding replay_found submit
  replay_found-IsCarried task_id_of q message_id none uuid now h = h
  replay_found-IsCarried task_id_of q message_id (some l) uuid now h =
      replayed-IsCarried _ (enqueue-IsCarried q _ refl h)

  work_on-IsCarried :
      (q : TaskQueue P) (o : Option (Envelope P × List (Envelope P))) (outcome : Outcome) (now : ℕ)
      → Taken tries q.pool o
      → IsCarried q
      → IsCarried (work_on q o outcome now)
  unfolding work_on Taken IsCarried attempts handlings
  work_on-IsCarried q none outcome now taken h = h
  work_on-IsCarried q (some (e, others)) outcome now taken h =
      let gains = deliver-Gains (record q { pool = others }) e outcome now in
      omega (arith, taken, h, gains.carried, gains.made, tries-again e)

  fire-IsCarried :
      (q : TaskQueue P) (o : Option ((ℕ × Envelope P) × List (ℕ × Envelope P)))
      → Taken (λ t. tries (t.1)) q.timers o
      → IsCarried q
      → IsCarried (fire q o)
  unfolding fire Taken IsCarried attempts handlings
  fire-IsCarried q none taken h = h
  fire-IsCarried q (some ((delay, e), others)) taken h =
      let gains = submit_memory-Gains (record q { timers = others }) e in
      omega (arith, taken, h, gains.carried, gains.made)

  step-IsCarried :
      (task_id_of : P → Option String) (q : TaskQueue P) (e : Event P)
      → IsCarried q
      → IsCarried (step task_id_of q e)
  unfolding step submit replay_dead_letter close IsCarried attempts handlings
  step-IsCarried task_id_of q (submits payload message_id uuid now) h = enqueue-IsCarried q _ refl h
  step-IsCarried task_id_of q (replays message_id uuid now) h =
      replay_found-IsCarried task_id_of q message_id (find_letter message_id (dead_letters q 500))
        uuid now h
  step-IsCarried task_id_of q (works n outcome now) h =
      work_on-IsCarried q (take_at n q.pool) outcome now (take_at-Taken tries n q.pool) h
  step-IsCarried task_id_of q (fires n) h =
      fire-IsCarried q (take_at n q.timers)
        (take_at-Taken (λ (t : ℕ × Envelope P). tries (t.1)) n q.timers) h
  step-IsCarried task_id_of q closes h = h

  kept-IsCarried :
      (task_id_of : P → Option String) (es : List (Event P)) (q : TaskQueue P)
      → IsCarried q
      → IsCarried (run task_id_of q es)
  unfolding run
  kept-IsCarried task_id_of [] q h = h
  kept-IsCarried task_id_of (e ∷ es) q h =
      kept-IsCarried task_id_of es (step task_id_of q e) (step-IsCarried task_id_of q e h)
