-- ===== src/Jobs/Exclusion.antt =====
-- Who gets a job, and whose outcome counts (app/services/jobs.py, `_claim` and `_finish`).
use fast_api_boiler_plate.Base.{
  ℕ, ◌+◌, ◌*◌, ◌^◌, ◌-◌, ◌≡◌, ◌≢◌, refl, Bool, true, false, ◌&&◌, ◌||◌, Option, none, some, Ident,
  Time, arith, any, inl, inr, Bool-cases, ◌==◌, ltb, leb, opt_eq, ap, sym, subst,
}
use fast_api_boiler_plate.Store.{get_record}
use fast_api_boiler_plate.Store.Laws.{update_record-unmatched}
use fast_api_boiler_plate.Store.Keys.{Distinct, update_record-once}
use fast_api_boiler_plate.Jobs.Model.{
  queued, running, has_status, Job, Jobs, Settings, Ending, finished, lookup_error, other_error,
  Message, is_queued, to_lost, to_running, claim, is_ours, finish, to_dead, to_retry, to_done,
  failed, end_job,
}

abbrev pub job_id : Job → Ident
job_id d = d.id

abbrev pub OneEach : Jobs → Type 0
OneEach = Distinct job_id

abbrev pub find_job : Ident → Jobs → Option Job
find_job id = get_record (λ d. d.id == id)

-- A won claim leaves no queued record of the job.
claim-taken :
    (cfg : Settings) (w : Ident) (now : Time) (job : Job) (jobs : Jobs)
    → OneEach jobs
    → (claim cfg w now job jobs).1 ≡ true
    → any (is_queued job.id) (claim cfg w now job jobs).0 ≡ false
unfolding claim
claim-taken cfg w now job jobs h e = elim (Bool-cases (ltb cfg.max_attempts (job.attempts + 1))) [
  | inl t ↦ ground arith
  | inr t ↦ rw t (
      update_record-once job_id job.id (λ d. has_status d.status queued)
        (λ d. has_status d.status queued) (to_running cfg w (job.attempts + 1) now) jobs (λ d. refl)
        (λ d p. refl) h (rw t at e))
]

claim-unqueued :
    (cfg : Settings) (w : Ident) (now : Time) (job : Job) (jobs : Jobs)
    → any (is_queued job.id) jobs ≡ false
    → claim cfg w now job jobs ≡ (jobs, false)
unfolding claim
claim-unqueued cfg w now job jobs h = ground (
  arith,
  update_record-unmatched (is_queued job.id) (to_lost now) jobs h,
  update_record-unmatched (is_queued job.id) (to_running cfg w (job.attempts + 1) now) jobs h,
)

-- Of two claims of one job with nothing in between, by any two workers and with any two copies of
-- the job, at most one is won: after a won claim the other is lost and changes nothing.
pub claim_exclusive :
    (cfg : Settings) (w w' : Ident) (now now' : Time) (job copy : Job) (jobs : Jobs)
    → OneEach jobs
    → copy.id ≡ job.id
    → (claim cfg w now job jobs).1 ≡ true
    → claim cfg w' now' copy (claim cfg w now job jobs).0 ≡ ((claim cfg w now job jobs).0, false)
claim_exclusive cfg w w' now now' job copy jobs h same e =
    claim-unqueued cfg w' now' copy (claim cfg w now job jobs).0 (
      subst (λ k. any (is_queued k) (claim cfg w now job jobs).0 ≡ false) (sym same)
        (claim-taken cfg w now job jobs h e))

finish-not_ours :
    (w : Ident) (now : Time) (id : Ident) (fields : Job → Job) (jobs : Jobs)
    → any (is_ours w id) jobs ≡ false
    → finish w now id fields jobs ≡ jobs
unfolding finish
finish-not_ours w now id fields jobs h =
    ap (λ (r : Jobs × Bool). r.0)
      (update_record-unmatched (is_ours w id)
        (λ d. record (fields d) { lease_until = none; updated_at = now }) jobs h)

failed-not_ours :
    (cfg : Settings) (w : Ident) (now written : Time) (uniform : ℕ → Time) (copy : Job)
    (m : Message) (permanent : Bool) (jobs : Jobs)
    → any (is_ours w copy.id) jobs ≡ false
    → failed cfg uniform w now written copy m permanent jobs ≡ jobs
unfolding failed
failed-not_ours cfg w now written uniform copy m permanent jobs h =
    elim (Bool-cases (permanent || leb cfg.max_attempts copy.attempts)) [
      | inl t ↦ rw t (finish-not_ours w written copy.id (to_dead now m) jobs h)
      | inr t ↦ rw t (
          finish-not_ours w written copy.id
            (to_retry (now + uniform (cfg.backoff_base * 2 ^ (copy.attempts - 1))) m) jobs h)
    ]

end_job-not_ours :
    (cfg : Settings) (w : Ident) (now written : Time) (uniform : ℕ → Time) (copy : Job)
    (ending : Ending) (jobs : Jobs)
    → any (is_ours w copy.id) jobs ≡ false
    → end_job cfg uniform w now written copy ending jobs ≡ jobs
unfolding end_job
end_job-not_ours cfg w now written uniform copy finished jobs h =
    finish-not_ours w written copy.id (to_done now) jobs h
end_job-not_ours cfg w now written uniform copy (lookup_error m) jobs h =
    failed-not_ours cfg w now written uniform copy m true jobs h
end_job-not_ours cfg w now written uniform copy (other_error m) jobs h =
    failed-not_ours cfg w now written uniform copy m false jobs h

claim-not_ours :
    (cfg : Settings) (w w' : Ident) (now : Time) (job : Job) (jobs : Jobs)
    → OneEach jobs
    → w' ≢ w
    → (claim cfg w now job jobs).1 ≡ true
    → any (is_ours w' job.id) (claim cfg w now job jobs).0 ≡ false
unfolding claim
claim-not_ours cfg w w' now job jobs h ne e =
    elim (Bool-cases (ltb cfg.max_attempts (job.attempts + 1))) [
      | inl t ↦ ground arith
      | inr t ↦ rw t (
          update_record-once job_id job.id (λ d. has_status d.status queued)
            (λ d. has_status d.status running && opt_eq d.worker (some w'))
            (to_running cfg w (job.attempts + 1) now) jobs (λ d. refl) (λ d p. ground arith) h
            (rw t at e))
    ]

-- Once another worker has won the job (after the lease of the first expired), the first worker's
-- late outcome of it is dropped: whatever its handler ended with, nothing is written.
pub end_job-stale :
    (cfg : Settings) (w w' : Ident) (now now' written : Time) (uniform : ℕ → Time) (job copy : Job)
    (ending : Ending) (jobs : Jobs)
    → OneEach jobs
    → w' ≢ w
    → copy.id ≡ job.id
    → (claim cfg w now job jobs).1 ≡ true
    → end_job cfg uniform w' now' written copy ending (claim cfg w now job jobs).0
      ≡ (claim cfg w now job jobs).0
end_job-stale cfg w w' now now' written uniform job copy ending jobs h ne same e =
    end_job-not_ours cfg w' now' written uniform copy ending (claim cfg w now job jobs).0 (
      subst (λ k. any (is_ours w' k) (claim cfg w now job jobs).0 ≡ false) (sym same)
        (claim-not_ours cfg w w' now job jobs h ne e))
