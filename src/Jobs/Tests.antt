-- ===== src/Jobs/Tests.antt =====
-- Runs of the job service on small collections, and its theorems at concrete inputs.
use fast_api_boiler_plate.Base.{
  All, length, ◌≤◌, ◌⊎◌, ◌++◌, ◌&&◌, Bool, leb, ℕ, ◌≡◌, refl, true, false, none, some, [], ◌∷◌,
  Time, arith,
}
use fast_api_boiler_plate.Store.{count, get_record, update_record, update_many, find_many}
use fast_api_boiler_plate.Jobs.Model.{
  queued, running, dead, Job, Jobs, Settings, Handlers, finished, other_error, raised, new_job,
  enqueue, enqueued, has_status, due_jobs, claim, requeue_expired, to_lost, end_job, run, Pass,
  run_once, retry, to_fresh,
}
use fast_api_boiler_plate.Jobs.Invariant.{
  AllSound, Reach, empty, next, enqueuing, claiming, Reach-AllSound, run_once-AllSound,
}
use fast_api_boiler_plate.Jobs.Queue.{enqueue_idempotent, enqueue-OneEach, IsSorted, due_jobs_lem}
use fast_api_boiler_plate.Jobs.Exclusion.{OneEach, find_job, claim_exclusive, end_job-stale}
use fast_api_boiler_plate.Jobs.Outcome.{claim-runs, run-settles, retry-dead}

abbrev cfg : Settings
cfg = record { max_attempts = 2; timeout = 30; batch = 5; backoff_base = 4 }

abbrev uniform : ℕ → Time
uniform limit = limit

-- Handler 7 always raises.
abbrev handlers : Handlers
handlers n = some (λ p. other_error (raised p))

abbrev mail : Job
mail = record {
  id = 1;
  name = 7;
  payload = 0;
  status = queued;
  attempts = 0;
  run_at = 10;
  created_at = 10;
  updated_at = 10;
  lease_until = none;
  last_error = none;
  finished_at = none;
  worker = none;
  idempotency_key = none;
}

abbrev spent : Job
spent = record mail { id = 2; attempts = 2 }

abbrev buried : Job
buried = record mail { id = 3; attempts = 2; status = dead; finished_at = some 9 }

abbrev held : Job
held = record mail { status = running; attempts = 1; lease_until = some 80; worker = some 5 }

abbrev jobs : Jobs
jobs = mail ∷ spent ∷ buried ∷ []

abbrev pass : Pass
pass = record {
  now = 20;
  claimed_at = λ job. 21;
  ended_at = λ job. 22;
  written_at = λ job. 23;
  uniform = uniform;
}

-- One pass runs the first job, which fails and waits 4, and buries the second.
pass-result : run_once cfg handlers 5 pass (mail ∷ spent ∷ []) ≡ (
  1,
  record mail {
    attempts = 1;
    run_at = 26;
    updated_at = 23;
    last_error = some (raised 0);
    worker = some 5;
  }
      ∷ to_lost 21 spent
      ∷ [],
)
unfolding run_once find_many update_many update_record
pass-result = refl

reach-jobs : Reach cfg (claim cfg 5 20 mail (enqueue (new_job 1 7 none none none 10) []).1).0
reach-jobs =
    next (next empty (enqueuing 1 7 none none none 10 []))
      (claiming 5 20 mail (enqueue (new_job 1 7 none none none 10) []).1)

Reach-AllSound_example :
    AllSound cfg (claim cfg 5 20 mail (enqueue (new_job 1 7 none none none 10) []).1).0
Reach-AllSound_example = Reach-AllSound cfg reach-jobs

jobs-AllSound : AllSound cfg jobs
jobs-AllSound = ground arith

run_once-AllSound_example : AllSound cfg (run_once cfg handlers 5 pass jobs).1
run_once-AllSound_example = run_once-AllSound cfg handlers 5 pass jobs jobs-AllSound

won : (claim cfg 5 20 mail jobs).1 ≡ true
unfolding claim update_record
won = refl

claim_exclusive_example :
    claim cfg 6 21 mail (claim cfg 5 20 mail jobs).0 ≡ ((claim cfg 5 20 mail jobs).0, false)
claim_exclusive_example =
    claim_exclusive cfg 5 6 20 21 mail mail jobs (refl, (refl, (refl, tt))) refl won

end_job-stale_example :
    end_job cfg uniform 6 99 99 mail finished (claim cfg 5 20 mail jobs).0
    ≡ (claim cfg 5 20 mail jobs).0
end_job-stale_example =
    end_job-stale cfg 5 6 20 99 99 uniform mail mail finished jobs (refl, (refl, (refl, tt)))
      (omega arith) refl won

claim-runs_example :
    ((claim cfg 5 20 mail jobs).1 ≡ true)
    × (find_job 1 (claim cfg 5 20 mail jobs).0
        ≡ some (record mail {
          status = running;
          attempts = 1;
          lease_until = some 80;
          worker = some 5;
          updated_at = 20;
        }))
    × (find_job 1 (requeue_expired 81 (claim cfg 5 20 mail jobs).0)
        ≡ some (record mail { attempts = 1; worker = some 5; updated_at = 81 }))
unfolding get_record
claim-runs_example = claim-runs cfg 5 20 81 mail jobs {d = mail} refl refl (omega arith)

run-settles_example :
    find_job 1 (run cfg uniform handlers 5 40 41 held (held ∷ []))
    ≡ some (record mail {
      attempts = 1;
      run_at = 44;
      last_error = some (raised 0);
      worker = some 5;
      updated_at = 41;
    })
unfolding get_record
run-settles_example =
    run-settles cfg uniform handlers 5 40 41 held (held ∷ []) {d = held} refl refl refl

retry-dead_example :
    (find_job 3 (retry 50 3 jobs).0 ≡ some (to_fresh 50 buried)) × ((retry 50 3 jobs).1 ≡ true)
unfolding get_record
retry-dead_example = retry-dead 50 3 jobs {d = buried} refl refl

abbrev keyed : Job
keyed = record mail { id = 8; idempotency_key = some 77 }

keyed_new : (enqueue keyed jobs).0 ≡ enqueued 8
unfolding enqueue
keyed_new = refl

enqueue_idempotent_example :
    enqueue (record keyed { id = 9 }) (enqueue keyed jobs).1 ≡ (enqueued 8, (enqueue keyed jobs).1)
enqueue_idempotent_example =
    enqueue_idempotent 77 8 keyed (record keyed { id = 9 }) jobs refl refl keyed_new

enqueue-OneEach_example : OneEach (enqueue keyed jobs).1
enqueue-OneEach_example = enqueue-OneEach keyed jobs (refl, (refl, (refl, tt)))

due_jobs_lem_example :
    (rest : Jobs) × All (λ d. (d.status ≡ queued) × (d.run_at ≤ 20)) (due_jobs cfg 20 jobs)
    × IsSorted (due_jobs cfg 20 jobs ++ rest)
    × ((p : Job → Bool)
        → count p (due_jobs cfg 20 jobs ++ rest)
          ≡ count (λ d. p d && (has_status d.status queued && leb d.run_at 20)) jobs)
    × (length (due_jobs cfg 20 jobs) ≤ 5)
    × ((rest ≡ []) ⊎ (length (due_jobs cfg 20 jobs) ≡ 5))
due_jobs_lem_example = due_jobs_lem cfg 20 jobs (omega arith)
