-- ===== src/Leases.antt =====
-- The job table of the scheduler: the guarded updates of server/internal/store/db/leases.sql.go and
-- runs.sql.go, with the methods of store/leases.go and store/runs.go that send them.
-- An instant counts microseconds, the resolution of the database. A row has the columns that these
-- queries read or write, less those of the log; a lease id is only compared, so its bytes are a String here.
pub mod Changes
pub mod Rows
pub mod Steps
pub mod Fencing
pub mod Ends
mod Once
pub mod Capacity
pub mod Trust
mod Tests
use kilnci.Base.{
  ℕ, ◌+◌, ◌-◌, ◌*◌, ◌^◌, Bool, true, false, not, ◌&&◌, ◌||◌, List, [], ◌∷◌, map, Option, none, some,
  ◌==◌, if◌then◌else◌, String, any, all, string_eq, Eq, ltb, leb,
}
use kilnci.Base.Int.{ℤ, pos, negsuc}
use kilnci.Base.Results.{Result, ok, err}
use kilnci.Domain.{
  JobStatus, job_status_eq, Error, err_not_found, err_conflict, err_validation, job_is_terminal,
}

pub record Job : Type 0 where
  pub id : String
  pub org_id : String
  pub run_id : String
  pub name : String
  pub status : JobStatus
  pub needs : List String
  pub labels : List String
  pub timeout_seconds : ℕ
  pub attempt : ℕ
  pub max_attempts : ℕ
  pub trusted : Bool
  pub runner_id : Option String
  pub lease_id : Option String
  pub lease_expires_at : Option ℕ
  pub cancel_requested : Bool
  pub exit_code : Option ℤ
  pub failure_reason : String
  pub queued_at : Option ℕ
  pub started_at : Option ℕ
  pub finished_at : Option ℕ

pub record Runner : Type 0 where
  pub id : String
  pub org_id : String
  pub labels : List String
  pub trusted : Bool
  pub capacity : ℕ
  pub revoked_at : Option ℕ

-- A column that is null equals nothing, and is neither before nor after an instant.
abbrev pub is : Option String → String → Bool
is none s = false
is (some x) s = x == s

abbrev pub is_after : Option ℕ → ℕ → Bool
is_after none t = false
is_after (some x) t = ltb t x

abbrev pub is_due : Option ℕ → ℕ → ℕ → Bool
is_due none seconds t = false
is_due (some x) seconds t = leb (x + seconds * 1000000) t

abbrev pub is_null : Option ℕ → Bool
is_null none = true
is_null (some x) = false

-- `labels <@ r.labels`
unfoldable pub contained : List String → List String → Bool
contained labels held = all (λ l. any (λ x. x == l) held) labels

abbrev pub count : (Job → Bool) → List Job → ℕ
count p [] = 0
count p (j ∷ js) = (if p j then 1 else 0) + count p js

-- An UPDATE: the rows that it selects, read before any is written, and what it makes of each.
pub record Update : Type 0 where
  pub selects : Job → Bool
  pub sets : Job → Job

unfoldable pub update_row : Update → Job → Job
update_row u j = if u.selects j then u.sets j else j

unfoldable pub execute : Update → List Job → List Job
execute u jobs = map (update_row u) jobs

unfoldable pub rows_affected : Update → List Job → ℕ
rows_affected u jobs = count u.selects jobs

abbrev pub is_job : String → String → Job → Bool
is_job org_id job_id j = j.org_id == org_id && j.id == job_id

abbrev pub is_running : Job → Bool
is_running j = j.status == JobStatus.running

pub record LeaseGrant : Type 0 where
  pub org_id : String
  pub job_id : String
  pub runner_id : String
  pub lease_id : String
  pub now : ℕ
  pub expires_at : ℕ

pub record LeaseRef : Type 0 where
  pub org_id : String
  pub job_id : String
  pub runner_id : String
  pub lease_id : String

-- `held.org_id = r.org_id AND held.runner_id = r.id AND held.status = 'running'`
abbrev pub holds : Runner → Job → Bool
holds r held = held.org_id == r.org_id && is held.runner_id r.id && is_running held

unfoldable pub eligible : List Job → String → Job → Runner → Bool
eligible jobs runner_id j r =
    r.org_id == j.org_id
    && r.id == runner_id
    && is_null r.revoked_at
    && contained j.labels r.labels
    && (j.trusted || not r.trusted)
    && ltb (count (holds r) jobs) r.capacity

unfoldable pub acquire_lease_query : LeaseGrant → List Runner → List Job → Update
acquire_lease_query g runners jobs = record {
  selects = λ j.
      is_job g.org_id g.job_id j
      && j.status == JobStatus.queued
      && any (eligible jobs g.runner_id j) runners;
  sets = λ j. record j {
    status = JobStatus.running;
    runner_id = some g.runner_id;
    lease_id = some g.lease_id;
    lease_expires_at = some g.expires_at;
    attempt = j.attempt + 1;
    started_at = some g.now;
    cancel_requested = false;
  };
}

-- The rows that a runner holds under a lease.
abbrev pub leased : LeaseRef → Job → Bool
leased ref j =
    is_job ref.org_id ref.job_id j
    && is_running j
    && is j.runner_id ref.runner_id
    && is j.lease_id ref.lease_id

unfoldable pub complete_query : LeaseRef → JobStatus → Option ℤ → String → ℕ → Update
complete_query ref to exit_code reason now = record {
  selects = λ j. leased ref j && is_after j.lease_expires_at now;
  sets = λ j. record j {
    status = to;
    lease_id = none;
    lease_expires_at = none;
    exit_code = exit_code;
    failure_reason = reason;
    finished_at = some now;
  };
}

unfoldable pub release_query : LeaseRef → ℕ → Update
release_query ref now = record {
  selects = λ j. leased ref j && ltb 0 j.attempt;
  sets = λ j. record j {
    status = JobStatus.queued;
    lease_id = none;
    lease_expires_at = none;
    runner_id = none;
    attempt = j.attempt - 1;
    started_at = none;
    queued_at = some now;
  };
}

unfoldable pub renew_query : LeaseRef → ℕ → ℕ → Update
renew_query ref now expires_at = record {
  selects = λ j. leased ref j && is_after j.lease_expires_at now;
  sets = λ j. record j { lease_expires_at = some expires_at };
}

unfoldable pub requeue_query : String → String → ℕ → Update
requeue_query org_id job_id now = record {
  selects = λ j.
      is_job org_id job_id j
      && is_running j
      && is_due j.lease_expires_at 0 now
      && ltb j.attempt j.max_attempts
      && not j.cancel_requested
      && not (is_null j.started_at)
      && not (is_due j.started_at j.timeout_seconds now);
  sets = λ j. record j {
    status = JobStatus.queued;
    lease_id = none;
    lease_expires_at = none;
    runner_id = none;
    queued_at = some now;
    started_at = none;
  };
}

unfoldable pub fail_query : String → String → JobStatus → String → ℕ → ℕ → Update
fail_query org_id job_id to reason now grace = record {
  selects = λ j.
      is_job org_id job_id j
      && is_running j
      && (is_due j.lease_expires_at 0 now || is_due j.started_at (j.timeout_seconds + grace) now);
  sets = λ j. record j {
    status = to;
    lease_id = none;
    lease_expires_at = none;
    failure_reason = reason;
    finished_at = some now;
  };
}

unfoldable pub cancel_query : String → String → Update
cancel_query org_id job_id = record {
  selects = λ j. is_job org_id job_id j && is_running j;
  sets = λ j. record j { cancel_requested = true };
}

unfoldable pub status_query : String → String → JobStatus → JobStatus → ℕ → String → Update
status_query org_id job_id from to at reason = record {
  selects = λ j. is_job org_id job_id j && j.status == from && not (is_running j);
  sets = λ j. record j {
    status = to;
    queued_at = if to == JobStatus.queued then some at else j.queued_at;
    finished_at = if job_is_terminal to then some at else j.finished_at;
    failure_reason = if reason == "" then j.failure_reason else reason;
  };
}

-- A method that reports an error when its query changes no row.
unfoldable pub or_error : Error → Update → List Job → Option Error × List Job
or_error e u jobs = (if ltb 0 (rows_affected u jobs) then none else some e, execute u jobs)

-- A method that reports whether its query changed a row.
unfoldable pub reported : Update → List Job → Bool × List Job
reported u jobs = (ltb 0 (rows_affected u jobs), execute u jobs)

unfoldable pub acquire_lease : LeaseGrant → List Runner → List Job → Option Error × List Job
acquire_lease g runners jobs = or_error err_conflict (acquire_lease_query g runners jobs) jobs

-- `int32Of`: the column is a 32-bit integer.
unfoldable pub fits_int32 : Option ℤ → Bool
fits_int32 none = true
fits_int32 (some (pos n)) = ltb n (2 ^ 31)
fits_int32 (some (negsuc n)) = ltb n (2 ^ 31)

unfoldable pub complete_leased_job :
    LeaseRef → JobStatus → Option ℤ → String → ℕ → List Job → Option Error × List Job
complete_leased_job ref to exit_code reason now jobs =
    if fits_int32 exit_code
    then or_error err_not_found (complete_query ref to exit_code reason now) jobs
    else (some err_validation, jobs)

unfoldable pub release_lease : LeaseRef → ℕ → List Job → Bool × List Job
release_lease ref now jobs = reported (release_query ref now) jobs

-- `RETURNING`: the first row that an update has written.
unfoldable pub returned : Update → List Job → Option Job
returned u [] = none
returned u (j ∷ js) = if u.selects j then some (u.sets j) else returned u js

pub record LeaseState : Type 0 where
  pub cancel_requested : Bool
  pub started_at : Option ℕ
  pub timeout_seconds : ℕ

unfoldable pub lease_state : Option Job → Result Error LeaseState
lease_state none = err err_not_found
lease_state (some j) = ok (record {
  cancel_requested = j.cancel_requested;
  started_at = j.started_at;
  timeout_seconds = j.timeout_seconds;
})

unfoldable pub renew_lease : LeaseRef → ℕ → ℕ → List Job → Result Error LeaseState × List Job
unfolding returned lease_state
renew_lease ref now expires_at jobs = (
  lease_state (returned (renew_query ref now expires_at) jobs),
  execute (renew_query ref now expires_at) jobs,
)

unfoldable pub get_leased_job : LeaseRef → ℕ → List Job → Option Job
get_leased_job ref now [] = none
get_leased_job ref now (j ∷ js) =
    if leased ref j && is_after j.lease_expires_at now then some j else get_leased_job ref now js

unfoldable pub requeue_expired_job : String → String → ℕ → List Job → Bool × List Job
requeue_expired_job org_id job_id now jobs = reported (requeue_query org_id job_id now) jobs

-- The grace is a whole number of seconds; one that does not fit is an error, and changes nothing.
unfoldable pub fail_expired_job :
    String → String → JobStatus → String → ℕ → ℕ → List Job → Option Error × (Bool × List Job)
fail_expired_job org_id job_id to reason now grace jobs =
    if fits_int32 (some (pos grace))
    then (none, reported (fail_query org_id job_id to reason now grace) jobs)
    else (some err_validation, (false, jobs))

unfoldable pub request_job_cancel : String → String → List Job → Option Error × List Job
request_job_cancel org_id job_id jobs = or_error err_conflict (cancel_query org_id job_id) jobs

unfoldable pub update_job_status :
    String → String → JobStatus → JobStatus → ℕ → String → List Job → Option Error × List Job
update_job_status org_id job_id from to at reason jobs =
    or_error err_conflict (status_query org_id job_id from to at reason) jobs
