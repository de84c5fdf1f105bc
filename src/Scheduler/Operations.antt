-- ===== src/Scheduler/Operations.antt =====
-- The operations of server/internal/scheduler, and what they do to the job table.
use kilnci.Base.{
  ℕ, suc, ◌+◌, true, false, not, ◌||◌, List, [], ◌∷◌, Option, none, some, ◌≡◌, ◌≢◌, refl, ◌==◌,
  string_eq, if◌then◌else◌, String, arith, Bool-cases, Option-cases, inl, inr,
}
use kilnci.Base.Results.{Result, ok, err}
use kilnci.Domain.{JobStatus, Error, job_status_eq}
use kilnci.Engine.States.{job_transition}
use kilnci.Leases.{
  Job, LeaseRef, release_lease, complete_leased_job, requeue_expired_job, get_leased_job,
}
use kilnci.Leases.Changes.{Call, perform}
use kilnci.Scheduler.{
  Run, Tables, M, ◌>>=◌, return, in_tx, on_jobs, ask_jobs, lock_run, list_jobs, has_runner,
  lock_runner, list_lease_candidates, list_expired_leases,
}
use kilnci.Scheduler.Progress.{progress_run, progress}
use kilnci.Scheduler.Leasing.{
  Caller, Lease, Options, Report, ref, get_leased, lock_caller, grant, may_lease, lease_job,
  try_lease, next_candidate, is_conflict, try_candidates, lease, give_back, release, renew,
  heartbeat, check_report, record_result, complete, max_candidates,
}
use kilnci.Scheduler.Reaping.{
  verdict, fail_job, requeue_job, end_job, reap_running, reap_job, reap_one, reap_all, reap,
  job_by_id, reap_batch,
}
use kilnci.Scheduler.Calls.{
  Follows, Follows-bind, Follows-check, Follows-in_tx, Follows-on_jobs, Follows-ask_jobs,
  Follows-lock_run, Follows-if, Follows-progress_run, Ran, Ran-refl, Ran-trans, here, after,
}

Follows-get_leased : (held : LeaseRef) (now : ℕ) → Follows (get_leased held now)
unfolding get_leased
Follows-get_leased held now t = Ran-refl t

Follows-renew : (held : LeaseRef) (now expires_at : ℕ) → Follows (renew held now expires_at)
unfolding renew perform
Follows-renew held now expires_at t = (refl, after here (Call.renew held now expires_at) tt)

Follows-lock_caller : (r : Caller) → Follows (lock_caller r)
unfolding lock_caller lock_runner
Follows-lock_caller r t = elim (Bool-cases (has_runner r.org_id r.id t.runners)) [
  | inl e ↦ rw (e, lock_caller) (Ran-refl t)
  | inr e ↦ rw (e, lock_caller) (Ran-refl t)
]

Follows-grant :
    (r : Caller) (job_id lease_id : String) (now e : ℕ) → Follows (grant r job_id lease_id now e)
unfolding grant perform
Follows-grant r job_id lease_id now e t = (
  refl,
  after here
      (Call.acquire (record {
        org_id = r.org_id;
        job_id = job_id;
        runner_id = r.id;
        lease_id = lease_id;
        now = now;
        expires_at = e;
      }))
      tt,
)

Follows-give_back : (held : LeaseRef) (now : ℕ) (job : Job) → Follows (give_back held now job)
unfolding give_back perform
Follows-give_back held now job =
    Follows-bind (lock_run held.org_id job.run_id) _ (Follows-lock_run held.org_id job.run_id)
      (λ run. Follows-check (job_transition JobStatus.running JobStatus.queued) _ (λ _.
        Follows-bind (ask_jobs (release_lease held now)) (λ _. return tt)
          (Follows-ask_jobs (release_lease held now) (Call.release held now) tt (λ rs js. refl))
          (λ _ t. Ran-refl t)))

Follows-release :
    (r : Caller) (job_id lease_id : String) (now : ℕ) → Follows (release r job_id lease_id now)
unfolding release
Follows-release r job_id lease_id now t =
    elim (Option-cases (get_leased_job (ref r job_id lease_id) now t.jobs)) [
      | inl e ↦ rw (e, release) (Ran-refl t)
      | inr (job, e) ↦
          rw (e, release)
            (Follows-in_tx (give_back (ref r job_id lease_id) now job)
              (Follows-give_back (ref r job_id lease_id) now job) t)
    ]

report_not_queued : (res : Report) → check_report res ≡ none → res.status ≢ JobStatus.queued
unfolding check_report
report_not_queued res h e = ground arith

next_from :
    (t : Tables) (p : Result Error Lease × Tables) (rest : M (Option Lease))
    → Ran t p.1
    → Follows rest
    → Ran t (next_candidate p rest).1
next_from t (ok l, t') rest h k = h
next_from t (err e, t') rest h k = elim (Bool-cases (is_conflict e)) [
  | inl again ↦ rw (again, next_candidate) (Ran-trans t t' (rest t').1 h (k t'))
  | inr stop ↦ rw (stop, next_candidate) h
]

module _ (observe : Run → Option Error) (opts : Options) where
  Follows-lease_job :
      (r : Caller) (c : Job) (lease_id : String) (now later : ℕ)
      → Follows (lease_job observe opts r c lease_id now later)
  unfolding lease_job
  Follows-lease_job r c lease_id now later =
      Follows-bind (lock_run r.org_id c.run_id) _ (Follows-lock_run r.org_id c.run_id) (λ run.
        Follows-check (may_lease run.status) _ (λ _.
          Follows-check (job_transition JobStatus.queued JobStatus.running) _ (λ _.
            Follows-bind (lock_caller r) _ (Follows-lock_caller r) (λ _.
              Follows-bind (grant r c.id lease_id now (now + opts.lease_ttl)) _
                (Follows-grant r c.id lease_id now (now + opts.lease_ttl))
                (λ _.
                  Follows-bind (progress_run observe r.org_id c.run_id later) _
                    (Follows-progress_run observe r.org_id c.run_id later)
                    (λ moved.
                      Follows-bind (get_leased (ref r c.id lease_id) now) _
                        (Follows-get_leased (ref r c.id lease_id) now) (λ job t. Ran-refl t)))))))

  Follows-try_lease :
      (r : Caller) (c : Job) (drawn : Result Error String) (now later : ℕ)
      → Follows (try_lease observe opts r c drawn now later)
  unfolding try_lease
  Follows-try_lease r c (err e) now later = λ t. Ran-refl t
  Follows-try_lease r c (ok lease_id) now later =
      Follows-in_tx (lease_job observe opts r c lease_id now later)
        (Follows-lease_job r c lease_id now later)

  Follows-try_candidates :
      (r : Caller) (draw : ℕ → Result Error String) (now later : ℕ → ℕ) (i : ℕ) (cs : List Job)
      → Follows (try_candidates observe opts r draw now later i cs)
  unfolding try_candidates
  Follows-try_candidates r draw now later i [] = λ t. Ran-refl t
  Follows-try_candidates r draw now later i (c ∷ cs) = λ t.
      next_from t (try_lease observe opts r c (draw i) (now i) (later i) t)
        (try_candidates observe opts r draw now later (suc i) cs)
        (Follows-try_lease r c (draw i) (now i) (later i) t)
        (Follows-try_candidates r draw now later (suc i) cs)

  Follows-lease :
      (r : Caller) (draw : ℕ → Result Error String) (now later : ℕ → ℕ)
      → Follows (lease observe opts r draw now later)
  unfolding lease list_lease_candidates
  Follows-lease r draw now later =
      Follows-if (r.id == "" || r.org_id == "") _ _ (λ t. Ran-refl t)
        (Follows-bind (list_lease_candidates r.org_id r.labels r.trusted max_candidates)
          (try_candidates observe opts r draw now later 0) (λ t. Ran-refl t)
          (λ cs. Follows-try_candidates r draw now later 0 cs))

  Follows-heartbeat :
      (r : Caller) (job_id lease_id : String) (now : ℕ)
      → Follows (heartbeat observe opts r job_id lease_id now)
  unfolding heartbeat
  Follows-heartbeat r job_id lease_id now =
      let held = ref r job_id lease_id in
      Follows-bind (renew held now (now + opts.lease_ttl)) _
        (Follows-renew held now (now + opts.lease_ttl)) (λ _ t. Ran-refl t)

  Follows-record_result :
      (sanitize : String → String) (held : LeaseRef) (res : Report) (job : Job) (now later : ℕ)
      → check_report res ≡ none
      → Follows (record_result observe opts sanitize held res job now later)
  unfolding record_result perform
  Follows-record_result sanitize held res job now later checked =
      Follows-bind (lock_run held.org_id job.run_id) _ (Follows-lock_run held.org_id job.run_id)
        (λ run. Follows-check (job_transition JobStatus.running res.status) _ (λ e.
          Follows-bind
            (on_jobs (complete_leased_job held res.status res.exit_code (sanitize res.reason) now))
            _
            (Follows-on_jobs
              (complete_leased_job held res.status res.exit_code (sanitize res.reason) now)
              (Call.complete held res.status res.exit_code (sanitize res.reason) now)
              (e, report_not_queued res checked) (λ rs js. refl))
            (λ _.
              Follows-bind (progress_run observe held.org_id job.run_id later) (λ _. return tt)
                (Follows-progress_run observe held.org_id job.run_id later) (λ _ t. Ran-refl t))))

  Follows-complete :
      (sanitize : String → String) (r : Caller) (job_id lease_id : String) (res : Report)
      (now later : ℕ)
      → Follows (complete observe opts sanitize r job_id lease_id res now later)
  unfolding complete
  Follows-complete sanitize r job_id lease_id res now later =
      let held = ref r job_id lease_id in
      Follows-check (check_report res) _ (λ checked.
        Follows-bind (get_leased held now)
          (λ job. in_tx (record_result observe opts sanitize held res job now later))
          (Follows-get_leased held now)
          (λ job.
            Follows-in_tx (record_result observe opts sanitize held res job now later)
              (Follows-record_result sanitize held res job now later checked)))

Follows-fail_job :
    (e : Job) (to : JobStatus) (reason : String) (now grace : ℕ)
    → job_transition JobStatus.running to ≡ none
    → to ≢ JobStatus.queued
    → Follows (fail_job e to reason now grace)
unfolding fail_job perform
Follows-fail_job e to reason now grace allowed ne t =
    (refl, after here (Call.fail e.org_id e.id to reason now grace) (allowed, ne))

Follows-requeue_job : (e : Job) (now : ℕ) → Follows (requeue_job e now)
unfolding requeue_job perform
Follows-requeue_job e now =
    elim (Option-cases (job_transition JobStatus.running JobStatus.queued)) [
      | inl free ↦ λ t.
          rw (free, requeue_job)
            (Follows-ask_jobs (requeue_expired_job e.org_id e.id now)
              (Call.requeue e.org_id e.id now) tt (λ rs js. refl) t)
      | inr (x, bad) ↦ λ t. rw (bad, requeue_job) (Ran-refl t)
    ]

verdict-ne-queued :
    (timed_out : ℕ → String) (j : Job) (now : ℕ) → (verdict timed_out j now).0 ≢ JobStatus.queued
unfolding verdict
verdict-ne-queued timed_out j now e = ground arith

module _ (observe : Run → Option Error) (opts : Options) (timed_out : ℕ → String) where
  Follows-end_job :
      (e job : Job) (now later : ℕ) → Follows (end_job observe opts timed_out e job now later)
  unfolding end_job
  Follows-end_job e job now later =
      let (to, reason) = verdict timed_out job now in
      Follows-check (job_transition JobStatus.running to) _ (λ allowed.
        Follows-bind (fail_job e to reason now opts.timeout_grace)
          (λ failed.
            if not failed
            then return false
            else progress_run observe e.org_id e.run_id later >>= λ _. return true)
          (Follows-fail_job e to reason now opts.timeout_grace allowed
            (verdict-ne-queued timed_out job now))
          (λ failed.
            Follows-if (not failed) (return false)
              (progress_run observe e.org_id e.run_id later >>= λ _. return true) (λ t. Ran-refl t)
              (Follows-bind (progress_run observe e.org_id e.run_id later) (λ _. return true)
                (Follows-progress_run observe e.org_id e.run_id later) (λ _ t. Ran-refl t))))

  Follows-reap_running :
      (e job : Job) (now later : ℕ) → Follows (reap_running observe opts timed_out e job now later)
  unfolding reap_running
  Follows-reap_running e job now later =
      Follows-bind (requeue_job e now) _ (Follows-requeue_job e now) (λ requeued.
        Follows-if requeued (return true) (end_job observe opts timed_out e job now later)
          (λ t. Ran-refl t) (Follows-end_job e job now later))

  Follows-reap_found :
      (e job : Job) (now later : ℕ)
      → Follows (
          if not (job.status == JobStatus.running)
          then return false
          else reap_running observe opts timed_out e job now later)
  Follows-reap_found e job now later =
      Follows-if (not (job.status == JobStatus.running)) (return false)
        (reap_running observe opts timed_out e job now later) (λ t. Ran-refl t)
        (Follows-reap_running e job now later)

  Follows-reap_one :
      (e : Job) (now later : ℕ) → Follows (reap_one observe opts timed_out e now later)
  unfolding reap_one reap_job list_jobs
  Follows-reap_one e now later = Follows-in_tx (reap_job observe opts timed_out e now later) (
      Follows-bind (lock_run e.org_id e.run_id) _ (Follows-lock_run e.org_id e.run_id) (λ run.
        Follows-bind (list_jobs e.org_id e.run_id)
          (λ jobs. elim (job_by_id e.id jobs) [
            | none ↦ return false
            | some job ↦
                if not (job.status == JobStatus.running)
                then return false
                else reap_running observe opts timed_out e job now later
          ])
          (λ t. Ran-refl t)
          (λ jobs. elim (Option-cases (job_by_id e.id jobs)) [
            | inl none_there ↦ λ t. rw none_there (Ran-refl t)
            | inr (job, there) ↦ λ t. rw there (Follows-reap_found e job now later t)
          ])))

  Follows-reap_all :
      (now : ℕ) (later : ℕ → ℕ) (i : ℕ) (es : List Job) (t : Tables)
      → Ran t (reap_all observe opts timed_out now later i es t).1
  unfolding reap_all
  Follows-reap_all now later i [] t = Ran-refl t
  Follows-reap_all now later i (e ∷ es) t =
      let t' = (reap_one observe opts timed_out e now (later i) t).1 in
      Ran-trans t t' (reap_all observe opts timed_out now later (i + 1) es t').1
        (Follows-reap_one e now (later i) t) (Follows-reap_all now later (i + 1) es t')

-- A call of the scheduler, with what it reads of the clock and of the random source.
pub data Operation : Type 0 where
  move_run : String → String → ℕ → Operation
  ask_lease : Caller → (ℕ → Result Error String) → (ℕ → ℕ) → (ℕ → ℕ) → Operation
  hand_back : Caller → String → String → ℕ → Operation
  beat : Caller → String → String → ℕ → Operation
  report : Caller → String → String → Report → ℕ → ℕ → Operation
  collect : ℕ → (ℕ → ℕ) → Operation

module _ (observe : Run → Option Error) (opts : Options) (timed_out : ℕ → String)
    (sanitize : String → String) where
  -- The tables after the call, whatever it answers.
  unfoldable pub operate : Operation → Tables → Tables
  operate (move_run o i now) t = (progress observe o i now t).1
  operate (ask_lease r draw now later) t = (lease observe opts r draw now later t).1
  operate (hand_back r job_id lease_id now) t = (release r job_id lease_id now t).1
  operate (beat r job_id lease_id now) t = (heartbeat observe opts r job_id lease_id now t).1
  operate (report r job_id lease_id res now later) t =
      (complete observe opts sanitize r job_id lease_id res now later t).1
  operate (collect now later) t = (reap observe opts timed_out now later t).1

  -- Whatever a call of the scheduler answers, it leaves the runners as they are, and it changes the
  -- job table by a sequence of the store's guarded updates, each with the checks that `Checked`
  -- names.
  pub operate-Ran : (o : Operation) (t : Tables) → Ran t (operate o t)
  unfolding operate progress reap list_expired_leases
  operate-Ran (move_run o i now) =
      Follows-in_tx (progress_run observe o i now) (Follows-progress_run observe o i now)
  operate-Ran (ask_lease r draw now later) = Follows-lease observe opts r draw now later
  operate-Ran (hand_back r job_id lease_id now) = Follows-release r job_id lease_id now
  operate-Ran (beat r job_id lease_id now) = Follows-heartbeat observe opts r job_id lease_id now
  operate-Ran (report r job_id lease_id res now later) =
      Follows-complete observe opts sanitize r job_id lease_id res now later
  operate-Ran (collect now later) =
      Follows-bind (list_expired_leases now opts.timeout_grace reap_batch)
        (λ expired t.
          let (counts, t') = reap_all observe opts timed_out now later 0 expired t in
          (ok counts, t'))
        (λ t. Ran-refl t)
        (λ expired t. Follows-reap_all observe opts timed_out now later 0 expired t)
