-- ===== src/Jobs/Invariant.antt =====
-- What holds of every stored job, whatever the workers do and in whatever order
-- (app/services/jobs.py).
use fast_api_boiler_plate.Base.{
  ℕ, ◌+◌, ◌≤◌, ◌≡◌, Bool, true, false, ◌||◌, Option, none, List, [], ◌∷◌, Ident, Time, arith,
  is_some, All, All-append, any, inl, inr, Bool-cases, ltb, leb, ◌-◌, ◌*◌, ◌^◌,
}
use fast_api_boiler_plate.Store.Laws.{All-update_record, All-update_many}
use fast_api_boiler_plate.Jobs.Model.{
  running, done, dead, has_status, Job, Jobs, Settings, Handlers, Ending, finished, lookup_error,
  other_error, Message, new_job, enqueue, clashes, is_expired, to_queue, requeue_expired, is_queued,
  to_lost, to_running, claim, is_ours, finish, to_dead, to_retry, to_done, failed, end_job,
  call_handler, Pass, counted, due_jobs, run, run_due, run_once, is_dead, to_fresh, retry,
}

-- A stored job has had at most the allowed attempts; it has a lease and a worker and has been
-- attempted while it runs, no lease otherwise, and an end once it is done or dead.
pub record IsSound (cfg : Settings) (d : Job) : Type 0 where
  pub bounded : d.attempts ≤ cfg.max_attempts
  pub leased : is_some d.lease_until ≡ has_status d.status running
  pub ended : is_some d.finished_at ≡ has_status d.status done || has_status d.status dead
  pub owned : has_status d.status running ≡ true → is_some d.worker ≡ true
  pub attempted : has_status d.status running ≡ true → 1 ≤ d.attempts

abbrev pub AllSound : Settings → Jobs → Type 0
AllSound cfg = All (IsSound cfg)

module _ (cfg : Settings) where
  new_job-IsSound :
      (id name : Ident) (payload : Option ℕ) (run_at : Option Time) (key : Option Ident)
      (now : Time)
      → IsSound cfg (new_job id name payload run_at key now)
  unfolding new_job
  new_job-IsSound id name payload run_at key now = ground arith

  to_running-IsSound :
      (w : Ident) (n : ℕ) (now : Time) (d : Job)
      → n + 1 ≤ cfg.max_attempts
      → is_some d.finished_at ≡ false
      → IsSound cfg (to_running cfg w (n + 1) now d)
  to_running-IsSound w n now d h e = ground arith

  enqueue-AllSound :
      (job : Job) (jobs : Jobs)
      → IsSound cfg job
      → AllSound cfg jobs
      → AllSound cfg (enqueue job jobs).1
  unfolding enqueue
  enqueue-AllSound job jobs h hs = elim (Bool-cases (any (clashes job) jobs)) [
    | inl e ↦ rw e hs
    | inr e ↦ rw e (All-append (IsSound cfg) jobs (job ∷ []) hs (h, tt))
  ]

  requeue_expired-AllSound :
      (now : Time) (jobs : Jobs) → AllSound cfg jobs → AllSound cfg (requeue_expired now jobs)
  unfolding requeue_expired
  requeue_expired-AllSound now jobs h =
      All-update_many (IsSound cfg) (is_expired now) (to_queue now) jobs (λ d e s. ground arith) h

  claim-AllSound :
      (w : Ident) (now : Time) (job : Job) (jobs : Jobs)
      → AllSound cfg jobs
      → AllSound cfg (claim cfg w now job jobs).0
  unfolding claim
  claim-AllSound w now job jobs h = elim (Bool-cases (ltb cfg.max_attempts (job.attempts + 1))) [
    | inl e ↦ rw e (
        All-update_record (IsSound cfg) (is_queued job.id) (to_lost now) jobs
          (λ d q s. ground arith) h)
    | inr e ↦ rw e (
        All-update_record (IsSound cfg) (is_queued job.id) (to_running cfg w (job.attempts + 1) now)
          jobs (λ d q s. to_running-IsSound w job.attempts now d (ground arith) (ground arith)) h)
  ]

  finish-AllSound :
      (w : Ident) (now : Time) (id : Ident) (fields : Job → Job) (jobs : Jobs)
      → ((d : Job)
          → is_ours w id d ≡ true
          → IsSound cfg d
          → IsSound cfg (record (fields d) { lease_until = none; updated_at = now }))
      → AllSound cfg jobs
      → AllSound cfg (finish w now id fields jobs)
  unfolding finish
  finish-AllSound w now id fields jobs keep h =
      All-update_record (IsSound cfg) (is_ours w id)
        (λ d. record (fields d) { lease_until = none; updated_at = now }) jobs keep h

  failed-AllSound :
      (uniform : ℕ → Time) (w : Ident) (now written : Time) (job : Job) (m : Message)
      (permanent : Bool) (jobs : Jobs)
      → AllSound cfg jobs
      → AllSound cfg (failed cfg uniform w now written job m permanent jobs)
  unfolding failed
  failed-AllSound uniform w now written job m permanent jobs h =
      elim (Bool-cases (permanent || leb cfg.max_attempts job.attempts)) [
        | inl e ↦
            rw e (finish-AllSound w written job.id (to_dead now m) jobs (λ d q s. ground arith) h)
        | inr e ↦ rw e (
            finish-AllSound w written job.id
              (to_retry (now + uniform (cfg.backoff_base * 2 ^ (job.attempts - 1))) m) jobs
              (λ d q s. ground arith) h)
      ]

  end_job-AllSound :
      (uniform : ℕ → Time) (w : Ident) (now written : Time) (job : Job) (e : Ending) (jobs : Jobs)
      → AllSound cfg jobs
      → AllSound cfg (end_job cfg uniform w now written job e jobs)
  unfolding end_job
  end_job-AllSound uniform w now written job finished jobs h =
      finish-AllSound w written job.id (to_done now) jobs (λ d q s. ground arith) h
  end_job-AllSound uniform w now written job (lookup_error m) jobs h =
      failed-AllSound uniform w now written job m true jobs h
  end_job-AllSound uniform w now written job (other_error m) jobs h =
      failed-AllSound uniform w now written job m false jobs h

  retry-AllSound :
      (now : Time) (id : Ident) (jobs : Jobs)
      → AllSound cfg jobs
      → AllSound cfg (retry now id jobs).0
  unfolding retry
  retry-AllSound now id jobs h =
      All-update_record (IsSound cfg) (is_dead id) (to_fresh now) jobs (λ d q s. ground arith) h

  run_due-AllSound :
      (handlers : Handlers) (w : Ident) (pass : Pass) (due jobs : List Job)
      → AllSound cfg jobs
      → AllSound cfg (run_due cfg handlers w pass due jobs).1
  unfolding run_due
  run_due-AllSound handlers w pass [] jobs h = h
  run_due-AllSound handlers w pass (job ∷ due) jobs h =
      let now = pass.claimed_at job in
      let jobs' = (claim cfg w now job jobs).0 in
      let h' = claim-AllSound w now job jobs h in
      elim (Bool-cases (claim cfg w now job jobs).1) [
        | inl e ↦ rw e (
            run_due-AllSound handlers w pass due
              (run cfg pass.uniform handlers w (pass.ended_at job) (pass.written_at job)
                (counted job) jobs')
              (end_job-AllSound pass.uniform w (pass.ended_at job) (pass.written_at job)
                (counted job) (call_handler handlers (counted job)) jobs' h'))
        | inr e ↦ rw e (run_due-AllSound handlers w pass due jobs' h')
      ]

-- One atomic step of the job system: anyone enqueues or retries; a worker requeues expired leases,
-- claims with any copy of a job that it holds, however old, or records the end of a job it ran.
pub data Step (cfg : Settings) : Jobs → Jobs → Type 0 where
  enqueuing :
      (id name : Ident) (payload : Option ℕ) (run_at : Option Time) (key : Option Ident)
      (now : Time) (jobs : Jobs)
      → Step cfg jobs (enqueue (new_job id name payload run_at key now) jobs).1
  requeueing : (now : Time) (jobs : Jobs) → Step cfg jobs (requeue_expired now jobs)
  claiming :
      (w : Ident) (now : Time) (copy : Job) (jobs : Jobs)
      → Step cfg jobs (claim cfg w now copy jobs).0
  ending :
      (uniform : ℕ → Time) (w : Ident) (now written : Time) (copy : Job) (e : Ending) (jobs : Jobs)
      → Step cfg jobs (end_job cfg uniform w now written copy e jobs)
  retrying : (now : Time) (id : Ident) (jobs : Jobs) → Step cfg jobs (retry now id jobs).0

pub data Reach (cfg : Settings) : Jobs → Type 0 where
  empty : Reach cfg []
  next : {jobs jobs' : Jobs} → Reach cfg jobs → Step cfg jobs jobs' → Reach cfg jobs'

Step-AllSound :
    (cfg : Settings) {jobs jobs' : Jobs}
    → Step cfg jobs jobs'
    → AllSound cfg jobs
    → AllSound cfg jobs'
Step-AllSound cfg (enqueuing id name payload run_at key now jobs) h =
    enqueue-AllSound cfg (new_job id name payload run_at key now) jobs
      (new_job-IsSound cfg id name payload run_at key now) h
Step-AllSound cfg (requeueing now jobs) h = requeue_expired-AllSound cfg now jobs h
Step-AllSound cfg (claiming w now copy jobs) h = claim-AllSound cfg w now copy jobs h
Step-AllSound cfg (ending uniform w now written copy e jobs) h =
    end_job-AllSound cfg uniform w now written copy e jobs h
Step-AllSound cfg (retrying now id jobs) h = retry-AllSound cfg now id jobs h

-- Whatever the interleaving of producers, workers and administrators, and however stale the copies
-- with which workers claim, every stored job is sound: its attempts never exceed the limit, it
-- has a lease exactly while it is running, an end exactly when it is done or dead, and a worker
-- and at least one attempt while it runs.
pub Reach-AllSound : (cfg : Settings) {jobs : Jobs} → Reach cfg jobs → AllSound cfg jobs
Reach-AllSound cfg empty = tt
Reach-AllSound cfg (next r st) = Step-AllSound cfg st (Reach-AllSound cfg r)

-- A whole pass of a worker keeps every stored job sound.
pub run_once-AllSound :
    (cfg : Settings) (handlers : Handlers) (w : Ident) (pass : Pass) (jobs : Jobs)
    → AllSound cfg jobs
    → AllSound cfg (run_once cfg handlers w pass jobs).1
unfolding run_once
run_once-AllSound cfg handlers w pass jobs h =
    run_due-AllSound cfg handlers w pass (due_jobs cfg pass.now (requeue_expired pass.now jobs))
      (requeue_expired pass.now jobs) (requeue_expired-AllSound cfg pass.now jobs h)
