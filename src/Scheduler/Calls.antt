-- ===== src/Scheduler/Calls.antt =====
-- The scheduler of server/internal/scheduler changes the job table by checked calls only.
use kilnci.Base.{
  ℕ, Bool, true, false, ◌&&◌, ◌||◌, List, [], ◌∷◌, Option, none, some, ◌≡◌, ◌≢◌, refl, sym, ◌∙◌,
  subst, ◌==◌, string_eq, if◌then◌else◌, String, map, Option-cases, inl, inr,
}
use kilnci.Base.Results.{Result, ok, err}
use kilnci.Domain.{RunStatus, JobStatus, Error, job_status_eq, run_status_eq, run_is_terminal}
use kilnci.Engine.States.{job_transition, run_transition, run_outcome}
use kilnci.Leases.{Job, Runner, update_job_status}
use kilnci.Leases.Changes.{Call, perform, Checked}
use kilnci.Scheduler.{
  Run, Tables, M, chain, settle, ◌>>=◌, ◌>>◌, return, check_error, in_tx, on_jobs, ask_jobs,
  lock_run, list_jobs, update_run_status, RunStatusChange,
}
use kilnci.Scheduler.Progress.{
  set_job, set_jobs, set_run, finish_run, progress_run, by_name, set_status, skip_reason, started,
}

-- Checked calls, one after the other.
pub data History (rs : List Runner) (js : List Job) : List Job → Type 0 where
  here : History rs js js
  after :
      {ks : List Job} → History rs js ks → (c : Call) → Checked c → History rs js (perform c rs ks)

abbrev pub Ran : Tables → Tables → Type 0
Ran t t' = (t'.runners ≡ t.runners) × History t.runners t.jobs t'.jobs

History-trans :
    {rs : List Runner} {js ks ls : List Job}
    → History rs js ks
    → History rs ks ls
    → History rs js ls
History-trans h here = h
History-trans h (after k c good) = after (History-trans h k) c good

pub Ran-refl : (t : Tables) → Ran t t
Ran-refl t = (refl, here)

pub Ran-trans : (t t' t'' : Tables) → Ran t t' → Ran t' t'' → Ran t t''
Ran-trans t t' t'' (e, h) (f, k) =
    (f ∙ e, History-trans h (subst (λ rs. History rs t'.jobs t''.jobs) e k))

-- What the computation does to the tables, errors included.
abbrev pub Follows : {A : Type 0} → M A → Type 0
Follows m = (t : Tables) → Ran t (m t).1

pub Follows-quiet : {A : Type 0} (m : M A) → ((t : Tables) → (m t).1 ≡ t) → Follows m
Follows-quiet m h t = subst (Ran t) (sym (h t)) (Ran-refl t)

bind_from :
    {A B : Type 0} (t : Tables) (p : Result Error A × Tables) (f : A → M B)
    → Ran t p.1
    → ((a : A) → p.0 ≡ ok a → Follows (f a))
    → Ran t (chain p f).1
bind_from t (ok a, t') f h k = Ran-trans t t' (f a t').1 h (k a refl t')
bind_from t (err e, t') f h k = h

pub Follows-bind :
    {A B : Type 0} (m : M A) (f : A → M B)
    → Follows m
    → ((a : A) → Follows (f a))
    → Follows (m >>= f)
Follows-bind m f h k t = bind_from t (m t) f (h t) (λ a e. k a)

pub Follows-check :
    {B : Type 0} (e : Option Error) (k : M B)
    → (e ≡ none → Follows k)
    → Follows (check_error e >> k)
Follows-check none k h = h refl
Follows-check (some x) k h = λ t. Ran-refl t

pub Follows-check_last : (e : Option Error) → Follows (check_error e)
Follows-check_last none = λ t. Ran-refl t
Follows-check_last (some x) = λ t. Ran-refl t

tx_from : {A : Type 0} (t : Tables) (p : Result Error A × Tables) → Ran t p.1 → Ran t (settle t p).1
tx_from t (ok a, t') h = h
tx_from t (err e, t') h = Ran-refl t

pub Follows-in_tx : {A : Type 0} (m : M A) → Follows m → Follows (in_tx m)
unfolding in_tx
Follows-in_tx m h t = tx_from t (m t) (h t)

pub Follows-on_jobs :
    (f : List Job → Option Error × List Job) (c : Call)
    → Checked c
    → ((rs : List Runner) (js : List Job) → perform c rs js ≡ (f js).1)
    → Follows (on_jobs f)
Follows-on_jobs f c good same t =
    (refl, subst (History t.runners t.jobs) (same t.runners t.jobs) (after here c good))

pub Follows-ask_jobs :
    (f : List Job → Bool × List Job) (c : Call)
    → Checked c
    → ((rs : List Runner) (js : List Job) → perform c rs js ≡ (f js).1)
    → Follows (ask_jobs f)
Follows-ask_jobs f c good same t =
    (refl, subst (History t.runners t.jobs) (same t.runners t.jobs) (after here c good))

pub Follows-lock_run : (o i : String) → Follows (lock_run o i)
unfolding lock_run
Follows-lock_run o i t = Ran-refl t

pub Follows-list_jobs : (o i : String) → Follows (list_jobs o i)
unfolding list_jobs
Follows-list_jobs o i t = Ran-refl t

pub Follows-update_run_status : (c : RunStatusChange) → Follows (update_run_status c)
unfolding update_run_status
Follows-update_run_status c t = (refl, here)

Follows-set_job :
    (j : Job) (to : JobStatus) (now : ℕ) (reason : String)
    → to ≢ JobStatus.running
    → Follows (set_job j to now reason)
unfolding set_job perform
Follows-set_job j to now reason ne =
    Follows-check (job_transition j.status to)
      (on_jobs (update_job_status j.org_id j.id j.status to now reason))
      (λ e.
        Follows-on_jobs (update_job_status j.org_id j.id j.status to now reason)
          (Call.update j.org_id j.id j.status to now reason) (e, ne) (λ rs js. refl))

Follows-set_jobs :
    (names : List String) (to : JobStatus) (now : ℕ) (reason : String) (jobs : List Job)
    → to ≢ JobStatus.running
    → Follows (set_jobs names to now reason jobs)
unfolding set_jobs
Follows-set_jobs [] to now reason jobs ne = λ t. Ran-refl t
Follows-set_jobs (name ∷ names) to now reason jobs ne = elim (Option-cases (by_name name jobs)) [
  | inl e ↦ λ t. rw (e, set_jobs) (Ran-refl t)
  | inr (j, e) ↦ λ t.
      rw (e, set_jobs)
        (Follows-bind (set_job j to now reason)
          (λ _. set_jobs names to now reason (map (set_status name to) jobs))
          (Follows-set_job j to now reason ne)
          (λ _. Follows-set_jobs names to now reason (map (set_status name to) jobs) ne) t)
]

pub Follows-if :
    {A : Type 0} (b : Bool) (m n : M A) → Follows m → Follows n → Follows (if b then m else n)
Follows-if true m n h k = h
Follows-if false m n h k = k

module _ (observe : Run → Option Error) where
  Follows-set_run : (r : Run) (to : RunStatus) (now : ℕ) → Follows (set_run observe r to now)
  unfolding set_run
  Follows-set_run r to now = Follows-check (run_transition r.status to) _ (λ _.
      Follows-bind (update_run_status _) _ (Follows-update_run_status _)
        (λ _. Follows-check (observe _) _ (λ _ t. Ran-refl t)))

  Follows-finish_run :
      (r : Run) (jobs : List Job) (now : ℕ) → Follows (finish_run observe r jobs now)
  unfolding finish_run
  Follows-finish_run r jobs now = elim (Option-cases (run_outcome (map (λ j. j.status) jobs))) [
    | inl e ↦ λ t.
        rw (e, finish_run)
          (Follows-if (started jobs && r.status == RunStatus.queued)
            (set_run observe r RunStatus.running now) (return r)
            (Follows-set_run r RunStatus.running now) (λ t. Ran-refl t) t)
    | inr (final, e) ↦ λ t. rw (e, finish_run) (Follows-set_run r final now t)
  ]

  pub Follows-progress_run : (o i : String) (now : ℕ) → Follows (progress_run observe o i now)
  unfolding progress_run
  Follows-progress_run o i now = Follows-bind (lock_run o i) _ (Follows-lock_run o i) (λ r.
      Follows-if (run_is_terminal r.status || r.status == RunStatus.awaiting_approval) (return r) _
        (λ t. Ran-refl t)
        (Follows-bind (list_jobs o i) _ (Follows-list_jobs o i) (λ jobs.
          Follows-bind (set_jobs _ JobStatus.skipped now skip_reason jobs) _
            (Follows-set_jobs _ JobStatus.skipped now skip_reason jobs (λ e. cc))
            (λ skipped.
              Follows-bind (set_jobs _ JobStatus.queued now "" skipped) _
                (Follows-set_jobs _ JobStatus.queued now "" skipped (λ e. cc))
                (λ queued. Follows-finish_run r queued now)))))
