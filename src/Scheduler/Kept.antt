-- ===== src/Scheduler/Kept.antt =====
-- What every call of the scheduler keeps: the invariants of the job table carry over.
use kilnci.Base.{ℕ, ◌≤◌, List, [], ◌∷◌, Option, sym, subst, string_eq, String, arith, All}
use kilnci.Domain.{Error}
use kilnci.Leases.{Job, Runner, count, holds}
use kilnci.Leases.Changes.{Call, perform, Checked}
use kilnci.Leases.Rows.{SoundRow, perform-SoundRow}
use kilnci.Leases.Steps.{Moved-count, perform-Moved}
use kilnci.Leases.Capacity.{OnlyRow, OneRow, perform-capacity}
use kilnci.Leases.Trust.{Trustworthy, perform-Trustworthy}
use kilnci.Scheduler.{Run, Tables}
use kilnci.Scheduler.Calls.{History, here, after, Ran}
use kilnci.Scheduler.Leasing.{Options}
use kilnci.Scheduler.Operations.{Operation, operate, operate-Ran}

-- What holds of the tables: ids are primary keys, each row is sound, no runner holds more jobs than
-- its capacity, and a trusted runner holds only trusted jobs.
pub record Healthy (rs : List Runner) (js : List Job) : Type 0 where
  pub keys : OneRow js
  pub runner_keys : All (λ r. OnlyRow r rs) rs
  pub sound : All SoundRow js
  pub within : All (λ r. count (holds r) js ≤ r.capacity) rs
  pub trusted : All (λ r. All (Trustworthy r) js) rs

module _ (rs : List Runner) (js : List Job) (c : Call) (checked : Checked c) (one : OneRow js) where
  within_each :
      (some_runners : List Runner)
      → All (λ r. OnlyRow r rs) some_runners
      → All (λ r. count (holds r) js ≤ r.capacity) some_runners
      → All (λ r. count (holds r) (perform c rs js) ≤ r.capacity) some_runners
  within_each [] keys h = tt
  within_each (r ∷ more) keys h =
      (perform-capacity r c rs js checked keys.0 one h.0, within_each more keys.1 h.1)

  trusted_each :
      (some_runners : List Runner)
      → All (λ r. OnlyRow r rs) some_runners
      → All (λ r. All (Trustworthy r) js) some_runners
      → All (λ r. All (Trustworthy r) (perform c rs js)) some_runners
  trusted_each [] keys h = tt
  trusted_each (r ∷ more) keys h =
      (perform-Trustworthy r c rs js checked keys.0 h.0, trusted_each more keys.1 h.1)

Healthy-perform :
    (rs : List Runner) (js : List Job) (c : Call)
    → Checked c
    → Healthy rs js
    → Healthy rs (perform c rs js)
Healthy-perform rs js c checked h = record {
  keys = λ o i.
      omega
        (arith, h.keys o i, Moved-count o i js (perform c rs js) (perform-Moved c rs js checked));
  runner_keys = h.runner_keys;
  sound = perform-SoundRow c rs js checked h.sound;
  within = within_each rs js c checked h.keys rs h.runner_keys h.within;
  trusted = trusted_each rs js c checked h.keys rs h.runner_keys h.trusted;
}

Healthy-History :
    {rs : List Runner} {js ks : List Job} → Healthy rs js → History rs js ks → Healthy rs ks
Healthy-History h here = h
Healthy-History {rs} h (after {ks} k c checked) =
    Healthy-perform rs ks c checked (Healthy-History h k)

pub Healthy-Ran : (t t' : Tables) → Healthy t.runners t.jobs → Ran t t' → Healthy t'.runners t'.jobs
Healthy-Ran t t' h (same, k) = subst (λ rs. Healthy rs t'.jobs) (sym same) (Healthy-History h k)

-- Every call of the scheduler, whatever it answers, keeps the tables healthy: ids stay primary keys,
-- each job is running exactly when it has a lease, an expiry and a runner, and has used at most its
-- attempts, no runner holds more jobs than its capacity, and a trusted runner only trusted jobs.
pub operate-Healthy :
    (observe : Run → Option Error) (opts : Options) (timed_out : ℕ → String)
    (sanitize : String → String) (o : Operation) (t : Tables)
    → Healthy t.runners t.jobs
    → let t' = operate observe opts timed_out sanitize o t in Healthy t'.runners t'.jobs
operate-Healthy observe opts timed_out sanitize o t h =
    Healthy-Ran t (operate observe opts timed_out sanitize o t) h
      (operate-Ran observe opts timed_out sanitize o t)
