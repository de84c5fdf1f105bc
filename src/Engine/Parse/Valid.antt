-- ===== src/Engine/Parse/Valid.antt =====
-- What a pipeline is that parse.go accepts: steps, jobs and the whole.
pub mod Names
pub mod Steps
pub mod Accepted
pub mod Whole
use kilnci.Base.{
  ℕ, suc, ◌≤◌, Bool, true, false, List, [], ◌∷◌, ◌≡◌, ◌⊎◌, length, All, String, codes,
}
use kilnci.Base.Int.{ℤ, pos}
use kilnci.Base.Results.{Result, ok}
use kilnci.Engine.Dag
use kilnci.Engine.Texts.{utf8, is_job_id, is_label, trim_space, is_blank, has_control}
use kilnci.Engine.Images.{Matches, image_pattern}
use kilnci.Engine.Yaml.{YamlNode}
use kilnci.Engine.Yaml.Structure.{max_nodes, max_depth}
use kilnci.Engine.Yaml.Structure.Exact.{size, height, AllClean}
use kilnci.Engine.Yaml.Walkers.{NoRepeats, Within}
use kilnci.Engine.Parse.{
  Outside, EnvVar, StepSpec, JobSpec, Pipeline, max_run_bytes, max_name_runes, max_image_len,
  max_labels, max_jobs, max_steps, max_retries, min_step_timeout, min_job_timeout, max_job_timeout,
}
use kilnci.Engine.Parse.Fields.{IsValidEnv, IsValidTriggers}
use kilnci.Engine.Parse.Jobs.{nodes}

-- A script with something in it, of at most 64 KiB.
abbrev pub IsScript : String → Type 0
IsScript s = (is_blank (trim_space s) ≡ false) × (length (utf8 s) ≤ max_run_bytes)

abbrev pub IsImage : String → Type 0
IsImage s = (length (utf8 s) ≤ max_image_len) × Matches image_pattern (codes s)

-- A name of 1 to 100 characters, no control or format character among them.
abbrev pub IsName : Outside → String → Type 0
IsName o s =
    (is_blank s ≡ false) × (length (codes s) ≤ max_name_runes) × (has_control o.is_format s ≡ false)

abbrev pub IsTimeout : ℤ → ℤ → Type 0
IsTimeout job_timeout t = (t ≡ pos 0) ⊎ Within min_step_timeout job_timeout t

-- Timeouts of steps are absent, or between a second and the job's own.
pub record IsValidStep (o : Outside) (job_timeout : ℤ) (st : StepSpec) : Type 0 where
  pub name : IsName o st.name
  pub script : IsScript st.script
  pub env : IsValidEnv st.env
  pub timeout : IsTimeout job_timeout st.timeout

abbrev pub IsValidLabels : List String → Type 0
IsValidLabels ls = All (λ s. is_label s ≡ true) ls × NoRepeats ls × (length ls ≤ max_labels)

abbrev pub IsValidNeeds : List String → Type 0
IsValidNeeds ns = All (λ s. is_job_id s ≡ true) ns × NoRepeats ns × (length ns ≤ max_jobs)

pub record IsValidJob (o : Outside) (j : JobSpec) : Type 0 where
  pub id : is_job_id j.id ≡ true
  pub image : IsImage j.image
  pub runs_on : IsValidLabels j.runs_on
  pub needs : IsValidNeeds j.needs
  pub timeout : Within min_job_timeout max_job_timeout j.timeout
  pub retries : Within (pos 0) (pos max_retries) j.retries
  pub env : IsValidEnv j.env
  pub steps : All (IsValidStep o j.timeout) j.steps
  pub some_steps : 1 ≤ length j.steps
  pub few_steps : length j.steps ≤ max_steps

-- At most 20000 nodes, at most 20 levels below the root, and in no node an anchor, alias, explicit tag,
-- expression or merge key.
abbrev pub IsWithinLimits : YamlNode → Type 0
IsWithinLimits doc = (size doc ≤ max_nodes) × (height doc ≤ suc max_depth) × AllClean doc

-- The jobs can be planned: their ids differ, their needs are jobs, and no job waits for itself.
pub record IsValidPipeline (o : Outside) (p : Pipeline) : Type 0 where
  pub on : IsValidTriggers o p.on
  pub env : IsValidEnv p.env
  pub jobs : All (IsValidJob o) p.jobs
  pub some_jobs : 1 ≤ length p.jobs
  pub few_jobs : length p.jobs ≤ max_jobs
  pub graph : (order : List String) × (Dag.plan (nodes o p.jobs) ≡ ok order)
