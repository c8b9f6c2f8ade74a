-- ===== src/Jobs/Queue.antt =====
-- Putting jobs on the queue and choosing the due ones (app/services/jobs.py, `enqueue` and
-- `run_once`).
use fast_api_boiler_plate.Base.{
  ℕ, zero, suc, ◌≤◌, ◌≡◌, refl, Bool, true, false, Option, some, [], ◌∷◌, ◌++◌, Ident, Time, arith,
  any, All, inl, inr, Bool-cases, Option-cases, ap, ◌∙◌, ◌==◌, opt_eq, select, take, drop, length,
  length-take-le, ◌⊎◌, ◌&&◌, leb,
}
use fast_api_boiler_plate.Store.{get_record, count, find_many, sort_by, insert_sorted}
use fast_api_boiler_plate.Store.Laws.{All-find_many}
use fast_api_boiler_plate.Store.Keys.{Distinct-append}
use fast_api_boiler_plate.Paging.Following.{take-drop}
use fast_api_boiler_plate.Jobs.Model.{
  Status, queued, running, done, dead, has_status, Job, Jobs, Settings, Enqueued, enqueued,
  duplicate_record, enqueue, clashes, is_due, due_jobs,
}
use fast_api_boiler_plate.Jobs.Exclusion.{job_id, OneEach}

abbrev with_key : Option Ident → Jobs → Option Job
with_key key = get_record (λ d. opt_eq d.idempotency_key key)

with_key-append :
    (k : Ident) (job : Job) (jobs : Jobs)
    → any (clashes job) jobs ≡ false
    → job.idempotency_key ≡ some k
    → with_key (some k) (jobs ++ job ∷ []) ≡ some job
unfolding get_record
with_key-append k job [] fresh e = ground arith
with_key-append k job (d ∷ jobs) fresh e = ground (arith, with_key-append k job jobs)

with_key-clash :
    (k : Ident) (job : Job) (jobs : Jobs) {d : Job}
    → with_key (some k) jobs ≡ some d
    → job.idempotency_key ≡ some k
    → any (clashes job) jobs ≡ true
unfolding get_record
with_key-clash k job [] found e = cc
with_key-clash k job (d ∷ jobs) {d = x} found e = ground (arith, with_key-clash k job jobs {d = x})

enqueue-found :
    (k : Ident) (again : Job) (jobs : Jobs) {d : Job}
    → again.idempotency_key ≡ some k
    → with_key (some k) jobs ≡ some d
    → enqueue again jobs ≡ (enqueued d.id, jobs)
unfolding enqueue
enqueue-found k again jobs {d} e found = rw (with_key-clash k again jobs {d = d} found e, e, found)

enqueue-new :
    (job : Job) (jobs : Jobs)
    → any (clashes job) jobs ≡ false
    → enqueue job jobs ≡ (enqueued job.id, jobs ++ job ∷ [])
unfolding enqueue
enqueue-new job jobs fresh = rw fresh

enqueued_inj : {i j : Ident} → enqueued i ≡ enqueued j → i ≡ j
enqueued_inj h = cc

enqueue-taken :
    (k i : Ident) (job : Job) (jobs : Jobs)
    → job.idempotency_key ≡ some k
    → any (clashes job) jobs ≡ true
    → (enqueue job jobs).0 ≡ enqueued i
    → (d : Job) × (with_key (some k) jobs ≡ some d) × (d.id ≡ i) × ((enqueue job jobs).1 ≡ jobs)
unfolding enqueue
enqueue-taken k i job jobs e t ok = elim (Option-cases (with_key (some k) jobs)) [
  | inl missing ↦ let bad : duplicate_record ≡ enqueued i = rw (t, e, missing) at ok in absurd (cc)
  | inr (d, found) ↦
      let same : enqueued d.id ≡ enqueued i = rw (t, e, found) at ok in
      (d, found, enqueued_inj same, rw t)
]

-- Enqueuing with an idempotency key that an accepted call has used returns the first job's id and
-- adds nothing to the collection.
pub enqueue_idempotent :
    (k i : Ident) (job again : Job) (jobs : Jobs)
    → job.idempotency_key ≡ some k
    → again.idempotency_key ≡ some k
    → (enqueue job jobs).0 ≡ enqueued i
    → enqueue again (enqueue job jobs).1 ≡ (enqueued i, (enqueue job jobs).1)
enqueue_idempotent k i job again jobs e e' ok = elim (Bool-cases (any (clashes job) jobs)) [
  | inl t ↦
      let (d, found, same, kept) = enqueue-taken k i job jobs e t ok in
      rw (kept, ← same) (enqueue-found k again jobs {d = d} e' found)
  | inr t ↦
      let new = enqueue-new job jobs t in
      rw (ap (λ (r : Enqueued × Jobs). r.1) new) (
        enqueue-found k again (jobs ++ job ∷ []) {d = job} e' (with_key-append k job jobs t e)
        ∙ ap (λ (n : Ident). (enqueued n, jobs ++ job ∷ [])) (enqueued_inj (rw new at ok)))
]

-- The collection never holds two jobs with one id.
pub enqueue-OneEach : (job : Job) (jobs : Jobs) → OneEach jobs → OneEach (enqueue job jobs).1
unfolding enqueue
enqueue-OneEach job jobs h = elim (Bool-cases (any (clashes job) jobs)) [
  | inl t ↦ rw t h
  | inr t ↦ rw t (Distinct-append job_id jobs job (no_id jobs t) h)
]
  where
    no_id : (ds : Jobs) → any (clashes job) ds ≡ false → any (λ d. d.id == job.id) ds ≡ false
    no_id [] e = refl
    no_id (d ∷ ds) e = ground (arith, no_id ds)

-- Each is due no later than those behind it.
abbrev pub IsSorted : Jobs → Type 0
IsSorted [] = Unit
IsSorted (d ∷ ds) = All (λ e. d.run_at ≤ e.run_at) ds × IsSorted ds

All-insert_sorted_run_at :
    (t : Time) (d : Job) (ds : Jobs)
    → t ≤ d.run_at
    → All (λ e. t ≤ e.run_at) ds
    → All (λ e. t ≤ e.run_at) (insert_sorted (λ e. e.run_at) d ds)
unfolding insert_sorted
All-insert_sorted_run_at t d [] h k = (h, tt)
All-insert_sorted_run_at t d (e ∷ ds) h k = ground (arith, All-insert_sorted_run_at t d ds)

All-later :
    (t u : Time) (ds : Jobs) → t ≤ u → All (λ e. u ≤ e.run_at) ds → All (λ e. t ≤ e.run_at) ds
All-later t u [] h k = tt
All-later t u (d ∷ ds) h k = (omega arith, All-later t u ds h k.1)

insert_sorted-IsSorted :
    (d : Job) (ds : Jobs) → IsSorted ds → IsSorted (insert_sorted (λ e. e.run_at) d ds)
unfolding insert_sorted
insert_sorted-IsSorted d [] h = (tt, tt)
insert_sorted-IsSorted d (e ∷ ds) h = ground (
  arith,
  insert_sorted-IsSorted d ds,
  All-insert_sorted_run_at e.run_at d ds,
  All-later d.run_at e.run_at ds,
)

sort_by-IsSorted : (ds : Jobs) → IsSorted (sort_by (λ e. e.run_at) ds)
unfolding sort_by
sort_by-IsSorted [] = tt
sort_by-IsSorted (d ∷ ds) =
    insert_sorted-IsSorted d (sort_by (λ e. e.run_at) ds) (sort_by-IsSorted ds)

count-insert_sorted :
    (p : Job → Bool) (d : Job) (ds : Jobs)
    → count p (insert_sorted (λ e. e.run_at) d ds) ≡ count p (d ∷ ds)
unfolding insert_sorted count
count-insert_sorted p d [] = refl
count-insert_sorted p d (e ∷ ds) = ground (arith, count-insert_sorted p d ds)

-- Sorting neither drops nor repeats a job.
count-sort_by : (p : Job → Bool) (ds : Jobs) → count p (sort_by (λ e. e.run_at) ds) ≡ count p ds
unfolding sort_by count
count-sort_by p [] = refl
count-sort_by p (d ∷ ds) =
    let here = count-insert_sorted p d (sort_by (λ e. e.run_at) ds) in
    let rest = count-sort_by p ds in ground arith

count-select : (p q : Job → Bool) (ds : Jobs) → count p (select q ds) ≡ count (λ d. p d && q d) ds
unfolding count
count-select p q [] = refl
count-select p q (d ∷ ds) = ground (arith, count-select p q ds)

take-all : (n : ℕ) (ds : Jobs) → (drop n ds ≡ []) ⊎ (length (take n ds) ≡ n)
take-all zero ds = inr refl
take-all (suc n) [] = inl refl
take-all (suc n) (d ∷ ds) = elim (take-all n ds) [ inl e ↦ inl e | inr e ↦ inr (ap suc e) ]

-- Queued, and no longer to wait.
abbrev pub IsReady : Time → Job → Type 0
IsReady now d = (d.status ≡ queued) × (d.run_at ≤ now)

select-IsReady : (now : Time) (jobs : Jobs) → All (IsReady now) (select (is_due now) jobs)
select-IsReady now [] = tt
select-IsReady now (d ∷ jobs) = elim (Bool-cases (is_due now d)) [
  | inl e ↦ rw e (ready d.status d.run_at e, select-IsReady now jobs)
  | inr e ↦ rw e (select-IsReady now jobs)
]
  where
    ready :
        (st : Status) (t : Time)
        → (has_status st queued && leb t now) ≡ true
        → (st ≡ queued) × (t ≤ now)
    ready queued t e = (refl, ground arith)
    ready running t e = absurd (ground arith)
    ready done t e = absurd (ground arith)
    ready dead t e = absurd (ground arith)

find_many-take :
    (filters : Job → Bool) (limit : ℕ) (jobs : Jobs)
    → 1 ≤ limit
    → find_many filters (λ e. e.run_at) 0 limit jobs
      ≡ take limit (sort_by (λ e. e.run_at) (select filters jobs))
unfolding find_many
find_many-take filters zero jobs h = absurd (omega arith)
find_many-take filters (suc n) jobs h = refl

-- With a batch size of at least one, a pass takes on the earliest of the due jobs, up to a batch of
-- them. Each job taken is queued and its `run_at` has come; the taken jobs with some `rest` behind
-- them are in the order of `run_at`; together they are the queued jobs of the collection whose
-- `run_at` has come, each as often as it is there; and there is no rest unless the batch is full.
pub due_jobs_lem :
    (cfg : Settings) (now : Time) (jobs : Jobs)
    → 1 ≤ cfg.batch
    → (rest : Jobs) × All (λ d. (d.status ≡ queued) × (d.run_at ≤ now)) (due_jobs cfg now jobs)
      × IsSorted (due_jobs cfg now jobs ++ rest)
      × ((p : Job → Bool)
          → count p (due_jobs cfg now jobs ++ rest)
            ≡ count (λ d. p d && (has_status d.status queued && leb d.run_at now)) jobs)
      × (length (due_jobs cfg now jobs) ≤ cfg.batch)
      × ((rest ≡ []) ⊎ (length (due_jobs cfg now jobs) ≡ cfg.batch))
unfolding due_jobs
due_jobs_lem cfg now jobs h =
    let due = select (is_due now) jobs in
    let sorted = sort_by (λ (e : Job). e.run_at) due in
    let whole = take-drop cfg.batch sorted in
    (
      drop cfg.batch sorted,
      All-find_many (IsReady now) (is_due now) (λ d. d.run_at) 0 cfg.batch jobs
          (select-IsReady now jobs),
      rw (find_many-take (is_due now) cfg.batch jobs h, whole) (sort_by-IsSorted due),
      λ p.
          rw (find_many-take (is_due now) cfg.batch jobs h, whole)
            (count-sort_by p due ∙ count-select p (is_due now) jobs),
      rw (find_many-take (is_due now) cfg.batch jobs h) (length-take-le cfg.batch sorted),
      rw (find_many-take (is_due now) cfg.batch jobs h) (take-all cfg.batch sorted),
    )
