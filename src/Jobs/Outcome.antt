-- ===== src/Jobs/Outcome.antt =====
-- What one attempt at a job leaves behind (app/services/jobs.py, `_claim`, `_run`, `_failed`), and
-- the administrator's retry.
use fast_api_boiler_plate.Base.{
  [], ◌∷◌, ltb, ℕ, ◌+◌, ◌*◌, ◌^◌, ◌-◌, ◌≤◌, ◌<◌, ◌≡◌, ◌≢◌, refl, true, false, ◌&&◌, none, some,
  Ident, Time, arith, inl, inr, Bool-cases, leb, if◌then◌else◌, opt_eq, ◌∙◌,
}
use fast_api_boiler_plate.Store.{get_record, update_many}
use fast_api_boiler_plate.Store.Laws.{update_record-unmatched}
use fast_api_boiler_plate.Store.Keys.{any-keyed, get_record-update_record}
use fast_api_boiler_plate.Jobs.Model.{
  Status, queued, running, done, dead, has_status, is_expired, to_queue, requeue_expired, Job, Jobs,
  Settings, Handlers, Ending, finished, lookup_error, other_error, to_lost, to_running, claim,
  finish, to_dead, to_retry, to_done, end_job, call_handler, run, is_dead, to_fresh, retry,
}
use fast_api_boiler_plate.Jobs.Exclusion.{job_id, OneEach, find_job}

-- What a won claim makes of the stored job `d`.
abbrev pub claimed : Settings → Ident → Time → ℕ → Job → Job
claimed cfg w now attempts d = record d {
  status = running;
  attempts = attempts;
  lease_until = some (now + cfg.timeout * 2);
  worker = some w;
  updated_at = now;
}

claim-claimed :
    (cfg : Settings) (w : Ident) (now : Time) (copy : Job) (jobs : Jobs) {d : Job}
    → find_job copy.id jobs ≡ some d
    → d.status ≡ queued
    → copy.attempts < cfg.max_attempts
    → (find_job copy.id (claim cfg w now copy jobs).0
        ≡ some (claimed cfg w now (copy.attempts + 1) d))
      × ((claim cfg w now copy jobs).1 ≡ true)
unfolding claim
claim-claimed cfg w now copy jobs {d} found q more = ground (
  arith,
  get_record-update_record job_id copy.id (λ e. has_status e.status queued)
      (to_running cfg w (copy.attempts + 1) now) jobs {d = d} (λ e. refl) found,
)

find_job-requeue_expired :
    (later : Time) (id : Ident) (jobs : Jobs) {d : Job}
    → find_job id jobs ≡ some d
    → find_job id (requeue_expired later jobs)
      ≡ some (if is_expired later d then to_queue later d else d)
unfolding get_record requeue_expired update_many
find_job-requeue_expired later id [] found = cc
find_job-requeue_expired later id (e ∷ jobs) {d} found =
    ground (arith, find_job-requeue_expired later id jobs {d = d})

-- A claim of a queued job while attempts are left is won: the stored job is running, held by this
-- worker and leased to it for twice the time-out, with one attempt more than the copy which the
-- worker holds. No pass takes it back while that lease lasts: a requeue at a time `later` leaves
-- the stored job as it is up to the end of the lease, and after it queues the job again without a
-- lease.
pub claim-runs :
    (cfg : Settings) (w : Ident) (now later : Time) (copy : Job) (jobs : Jobs) {d : Job}
    → find_job copy.id jobs ≡ some d
    → d.status ≡ queued
    → copy.attempts < cfg.max_attempts
    → ((claim cfg w now copy jobs).1 ≡ true)
      × (find_job copy.id (claim cfg w now copy jobs).0
          ≡ some (record d {
            status = running;
            attempts = copy.attempts + 1;
            lease_until = some (now + cfg.timeout * 2);
            worker = some w;
            updated_at = now;
          }))
      × (find_job copy.id (requeue_expired later (claim cfg w now copy jobs).0)
          ≡ some (
              if ltb (now + cfg.timeout * 2) later
              then record d {
                status = queued;
                attempts = copy.attempts + 1;
                lease_until = none;
                worker = some w;
                updated_at = later;
              }
              else record d {
                status = running;
                attempts = copy.attempts + 1;
                lease_until = some (now + cfg.timeout * 2);
                worker = some w;
                updated_at = now;
              }))
claim-runs cfg w now later copy jobs {d} found q more =
    let (stored, won) = claim-claimed cfg w now copy jobs {d = d} found q more in
    (
      won,
      stored,
      find_job-requeue_expired later copy.id (claim cfg w now copy jobs).0
          {d = claimed cfg w now (copy.attempts + 1) d} stored,
    )

-- A claim of a queued job whose attempts are used up buries it instead: it is not won, and the
-- stored job is dead with the message that its worker stopped.
pub claim-exhausted :
    (cfg : Settings) (w : Ident) (now : Time) (copy : Job) (jobs : Jobs) {d : Job}
    → find_job copy.id jobs ≡ some d
    → d.status ≡ queued
    → cfg.max_attempts ≤ copy.attempts
    → (find_job copy.id (claim cfg w now copy jobs).0 ≡ some (to_lost now d))
      × ((claim cfg w now copy jobs).1 ≡ false)
unfolding claim
claim-exhausted cfg w now copy jobs {d} found q spent = ground (
  arith,
  get_record-update_record job_id copy.id (λ e. has_status e.status queued) (to_lost now) jobs
      {d = d} (λ e. refl) found,
)

-- What the ending of an attempt makes of the running job `d`: done; dead, if the error is a
-- `LookupError` or this was the last attempt; queued again otherwise, after a delay drawn below
-- `backoff_base * 2 ^ (attempts - 1)`.
abbrev pub settled : Settings → (ℕ → Time) → Time → Time → ℕ → Job → Ending → Job
settled cfg uniform now written n d finished = record d {
  status = done;
  finished_at = some now;
  last_error = none;
  lease_until = none;
  updated_at = written;
}
settled cfg uniform now written n d (lookup_error m) = record d {
  status = dead;
  finished_at = some now;
  last_error = some m;
  lease_until = none;
  updated_at = written;
}
settled cfg uniform now written n d (other_error m) =
    if leb cfg.max_attempts n
    then record d {
      status = dead;
      finished_at = some now;
      last_error = some m;
      lease_until = none;
      updated_at = written;
    }
    else record d {
      status = queued;
      run_at = now + uniform (cfg.backoff_base * 2 ^ (n - 1));
      last_error = some m;
      lease_until = none;
      updated_at = written;
    }

finish-found :
    (w : Ident) (now : Time) (id : Ident) (fields : Job → Job) (jobs : Jobs) {d : Job}
    → ((e : Job) → (fields e).id ≡ e.id)
    → find_job id jobs ≡ some d
    → d.status ≡ running
    → d.worker ≡ some w
    → find_job id (finish w now id fields jobs)
      ≡ some (record (fields d) { lease_until = none; updated_at = now })
unfolding finish
finish-found w now id fields jobs {d} same found r o =
    (get_record-update_record job_id id
      (λ e. has_status e.status running && opt_eq e.worker (some w))
      (λ e. record (fields e) { lease_until = none; updated_at = now }) jobs {d = d} same found
      (ground arith)).0

end_job-settles :
    (cfg : Settings) (uniform : ℕ → Time) (w : Ident) (now written : Time) (job : Job)
    (ending : Ending) (jobs : Jobs) {d : Job}
    → find_job job.id jobs ≡ some d
    → d.status ≡ running
    → d.worker ≡ some w
    → find_job job.id (end_job cfg uniform w now written job ending jobs)
      ≡ some (settled cfg uniform now written job.attempts d ending)
unfolding end_job
end_job-settles cfg uniform w now written job finished jobs {d} found r o =
    finish-found w written job.id (to_done now) jobs {d = d} (λ e. refl) found r o
end_job-settles cfg uniform w now written job (lookup_error m) jobs {d} found r o =
    finish-found w written job.id (to_dead now m) jobs {d = d} (λ e. refl) found r o
end_job-settles cfg uniform w now written job (other_error m) jobs {d} found r o =
    elim (Bool-cases (leb cfg.max_attempts job.attempts)) [
      | inl t ↦
          rw t (finish-found w written job.id (to_dead now m) jobs {d = d} (λ e. refl) found r o)
      | inr t ↦ rw t (
          finish-found w written job.id
            (to_retry (now + uniform (cfg.backoff_base * 2 ^ (job.attempts - 1))) m) jobs {d = d}
            (λ e. refl) found r o)
    ]

-- An attempt of the worker that holds the job settles it: its handler's ending decides what the
-- stored job becomes, on every branch; a job with no handler is dead at once.
pub run-settles :
    (cfg : Settings) (uniform : ℕ → Time) (handlers : Handlers) (w : Ident) (now written : Time)
    (job : Job) (jobs : Jobs) {d : Job}
    → find_job job.id jobs ≡ some d
    → d.status ≡ running
    → d.worker ≡ some w
    → find_job job.id (run cfg uniform handlers w now written job jobs)
      ≡ some (settled cfg uniform now written job.attempts d (call_handler handlers job))
unfolding run
run-settles cfg uniform handlers w now written job jobs {d} found r o =
    end_job-settles cfg uniform w now written job (call_handler handlers job) jobs found r o

-- The administrator's retry queues a dead job from scratch, due at once and with no attempts
-- counted, and reports it.
pub retry-dead :
    (now : Time) (id : Ident) (jobs : Jobs) {d : Job}
    → find_job id jobs ≡ some d
    → d.status ≡ dead
    → (find_job id (retry now id jobs).0 ≡ some (to_fresh now d)) × ((retry now id jobs).1 ≡ true)
unfolding retry
retry-dead now id jobs {d} found e =
    get_record-update_record job_id id (λ x. has_status x.status dead) (to_fresh now) jobs {d = d}
      (λ x. refl) found (ground arith)

-- Only dead jobs can be retried: for a job in any other state nothing changes, and the
-- administrator is told so.
pub retry-refused :
    (now : Time) (id : Ident) (jobs : Jobs) {d : Job}
    → OneEach jobs
    → find_job id jobs ≡ some d
    → d.status ≢ dead
    → retry now id jobs ≡ (jobs, false)
unfolding retry
retry-refused now id jobs {d} h found ne =
    update_record-unmatched (is_dead id) (to_fresh now) jobs
      (any-keyed job_id id (λ x. has_status x.status dead) jobs {d = d} h found ∙ alive d.status ne)
  where
    alive : (s : Status) → s ≢ dead → has_status s dead ≡ false
    alive s ne = ground arith
