-- ===== src/Jobs/Model.antt =====
-- `JobService` (app/services/jobs.py), method by method.
use fast_api_boiler_plate.Base.{
  ℕ, ◌+◌, ◌-◌, ◌*◌, ◌^◌, Bool, true, false, ◌&&◌, ◌||◌, Option, none, some, List, [], ◌∷◌, ◌++◌,
  Ident, Time, ltb, leb, ◌==◌, if◌then◌else◌, opt_eq, is_some, any,
}
use fast_api_boiler_plate.Store.{get_record, update_record, update_many, find_many}

pub data Status : Type 0 where
  queued running done dead : Status

abbrev pub rank : Status → ℕ
rank queued = 0
rank running = 1
rank done = 2
rank dead = 3

abbrev pub has_status : Status → Status → Bool
has_status a b = rank a == rank b

-- What `last_error` holds: the two messages of the service itself, or the text formatted from what a
-- handler raised, cut at `MAX_ERROR_LENGTH`.
pub data Message : Type 0 where
  worker_stopped : Message
  no_handler : Ident → Message
  raised : ℕ → Message

-- `payload` is the number of a stored dict; 0 is the empty one.
pub record Job : Type 0 where
  pub id : Ident
  pub name : Ident
  pub payload : ℕ
  pub status : Status
  pub attempts : ℕ
  pub run_at : Time
  pub created_at : Time
  pub updated_at : Time
  pub lease_until : Option Time
  pub last_error : Option Message
  pub finished_at : Option Time
  pub worker : Option Ident
  pub idempotency_key : Option Ident

pub record Settings : Type 0 where
  pub max_attempts : ℕ
  pub timeout : Time
  pub batch : ℕ
  pub backoff_base : ℕ

-- `self.lease`
abbrev pub lease : Settings → Time
lease cfg = cfg.timeout * 2

-- How a handler ends: it returns, or raises a `LookupError` or another exception.
pub data Ending : Type 0 where
  finished : Ending
  lookup_error other_error : Message → Ending

abbrev pub Handlers : Type 0
Handlers = Ident → Option (ℕ → Ending)

abbrev pub Jobs : Type 0
Jobs = List Job

-- `JobService.handler`: a name is registered once.
unfoldable pub register : Ident → (ℕ → Ending) → Handlers → Option Handlers
register name fn handlers =
    if is_some (handlers name) then none else some (λ n. if n == name then some fn else handlers n)

-- ---- producing

-- The unique indexes of the collection: `id`, and `idempotency_key` where present.
abbrev pub key_taken : Option Ident → Job → Bool
key_taken none d = false
key_taken (some k) d = opt_eq d.idempotency_key (some k)

abbrev pub clashes : Job → Job → Bool
clashes job d = d.id == job.id || key_taken job.idempotency_key d

pub data Enqueued : Type 0 where
  enqueued : Ident → Enqueued
  duplicate_record : Enqueued

unfoldable pub new_job : Ident → Ident → Option ℕ → Option Time → Option Ident → Time → Job
new_job id name payload run_at key now = record {
  id = id;
  name = name;
  payload = elim payload [ none ↦ 0 | some p ↦ p ];
  status = queued;
  attempts = 0;
  run_at = elim run_at [ none ↦ now | some t ↦ t ];
  created_at = now;
  updated_at = now;
  lease_until = none;
  last_error = none;
  finished_at = none;
  worker = none;
  idempotency_key = key;
}

-- `insert`, and on `DuplicateRecordError` the record that has the key.
unfoldable pub enqueue : Job → Jobs → Enqueued × Jobs
enqueue job jobs =
    if any (clashes job) jobs
    then (
      elim (get_record (λ d. opt_eq d.idempotency_key job.idempotency_key) jobs) [
        | none ↦ duplicate_record
        | some existing ↦ enqueued existing.id
      ],
      jobs,
    )
    else (enqueued job.id, jobs ++ job ∷ [])

-- ---- consuming

abbrev pub before : Option Time → Time → Bool
before none now = false
before (some t) now = ltb t now

abbrev pub is_expired : Time → Job → Bool
is_expired now d = has_status d.status running && before d.lease_until now

abbrev pub to_queue : Time → Job → Job
to_queue now d = record d { status = queued; lease_until = none; updated_at = now }

-- The first statement of `run_once`.
unfoldable pub requeue_expired : Time → Jobs → Jobs
requeue_expired now = update_many (is_expired now) (to_queue now)

abbrev pub is_due : Time → Job → Bool
is_due now d = has_status d.status queued && leb d.run_at now

-- The second: the due jobs, earliest first, at most a batch of them.
unfoldable pub due_jobs : Settings → Time → Jobs → Jobs
due_jobs cfg now = find_many (is_due now) (λ d. d.run_at) 0 cfg.batch

-- The job with this id, if it is queued.
abbrev pub is_queued : Ident → Job → Bool
is_queued id d = d.id == id && has_status d.status queued

abbrev pub to_lost : Time → Job → Job
to_lost now d = record d {
  status = dead;
  finished_at = some now;
  updated_at = now;
  last_error = some worker_stopped;
}

abbrev pub to_running : Settings → Ident → ℕ → Time → Job → Job
to_running cfg w attempts now d = record d {
  status = running;
  attempts = attempts;
  lease_until = some (now + lease cfg);
  worker = some w;
  updated_at = now;
}

-- `_claim` by the worker `w`, on the copy of the job that `find_many` returned.
unfoldable pub claim : Settings → Ident → Time → Job → Jobs → Jobs × Bool
claim cfg w now job jobs =
    if ltb cfg.max_attempts (job.attempts + 1)
    then ((update_record (is_queued job.id) (to_lost now) jobs).0, false)
    else update_record (is_queued job.id) (to_running cfg w (job.attempts + 1) now) jobs

-- Our claim still stands.
abbrev pub is_ours : Ident → Ident → Job → Bool
is_ours w id d = d.id == id && (has_status d.status running && opt_eq d.worker (some w))

-- `_finish`
unfoldable pub finish : Ident → Time → Ident → (Job → Job) → Jobs → Jobs
finish w now id fields jobs =
    (update_record (is_ours w id) (λ d. record (fields d) { lease_until = none; updated_at = now })
      jobs).0

abbrev pub to_dead : Time → Message → Job → Job
to_dead now message d = record d {
  status = dead;
  finished_at = some now;
  last_error = some message;
}

abbrev pub to_retry : Time → Message → Job → Job
to_retry at message d = record d { status = queued; run_at = at; last_error = some message }

abbrev pub to_done : Time → Job → Job
to_done now d = record d { status = done; finished_at = some now; last_error = none }

-- `_failed`, on the claimed copy of the job (its `attempts` is the new count).
-- `_finish` reads the clock again.
unfoldable pub failed :
    Settings → (ℕ → Time) → Ident → Time → Time → Job → Message → Bool → Jobs → Jobs
unfolding finish
failed cfg uniform w now written job message permanent jobs =
    if permanent || leb cfg.max_attempts job.attempts
    then finish w written job.id (to_dead now message) jobs
    else finish w written job.id
        (to_retry (now + uniform (cfg.backoff_base * 2 ^ (job.attempts - 1))) message) jobs

-- A job without a handler raises a `LookupError`.
abbrev pub call_handler : Handlers → Job → Ending
call_handler handlers job = elim (handlers job.name) [
  | none ↦ lookup_error (no_handler job.name)
  | some fn ↦ fn job.payload
]

unfoldable pub end_job : Settings → (ℕ → Time) → Ident → Time → Time → Job → Ending → Jobs → Jobs
unfolding failed finish
end_job cfg uniform w now written job finished jobs = finish w written job.id (to_done now) jobs
end_job cfg uniform w now written job (lookup_error m) jobs =
    failed cfg uniform w now written job m true jobs
end_job cfg uniform w now written job (other_error m) jobs =
    failed cfg uniform w now written job m false jobs

-- `_run`
unfoldable pub run : Settings → (ℕ → Time) → Handlers → Ident → Time → Time → Job → Jobs → Jobs
unfolding end_job
run cfg uniform handlers w now written job jobs =
    end_job cfg uniform w now written job (call_handler handlers job) jobs

-- What a worker brings to a pass: the clock as it reads at each claim and at each end of a job
-- and as `_finish` writes it, and the draws of `random.uniform`.
pub record Pass : Type 0 where
  pub now : Time
  pub claimed_at : Job → Time
  pub ended_at : Job → Time
  pub written_at : Job → Time
  pub uniform : ℕ → Time

abbrev pub counted : Job → Job
counted job = record job { attempts = job.attempts + 1 }

-- The loop of `run_once` over the due jobs, with the number of jobs that ran.
unfoldable pub run_due : Settings → Handlers → Ident → Pass → List Job → Jobs → ℕ × Jobs
unfolding claim run
run_due cfg handlers w pass [] jobs = (0, jobs)
run_due cfg handlers w pass (job ∷ due) jobs =
    let (jobs', won) = claim cfg w (pass.claimed_at job) job jobs in
    let after =
      if won
      then run cfg pass.uniform handlers w (pass.ended_at job) (pass.written_at job) (counted job)
          jobs'
      else jobs' in
    let rest = run_due cfg handlers w pass due after in (if won then rest.0 + 1 else rest.0, rest.1)

unfoldable pub run_once : Settings → Handlers → Ident → Pass → Jobs → ℕ × Jobs
unfolding requeue_expired due_jobs run_due
run_once cfg handlers w pass jobs =
    let jobs' = requeue_expired pass.now jobs in
    run_due cfg handlers w pass (due_jobs cfg pass.now jobs') jobs'

-- ---- administration

abbrev pub is_dead : Ident → Job → Bool
is_dead id d = d.id == id && has_status d.status dead

abbrev pub to_fresh : Time → Job → Job
to_fresh now d = record d {
  status = queued;
  attempts = 0;
  run_at = now;
  finished_at = none;
  updated_at = now;
}

unfoldable pub retry : Time → Ident → Jobs → Jobs × Bool
retry now id jobs = update_record (is_dead id) (to_fresh now) jobs
