-- ===== src/Engine/Parse/Jobs.antt =====
-- Steps, jobs and the whole document: the second half of server/internal/engine/spec/parse.go.
use kilnci.Base.{
  ℕ, suc, ◌/◌, Bool, true, false, not, ◌||◌, List, [], ◌∷◌, ◌++◌, Option, none, some, ◌==◌,
  if◌then◌else◌, ltb, length, String, ByteString, codes, holds_key, nat_eq, string_eq, is_empty,
}
use kilnci.Base.Int.{ℤ, pos}
use kilnci.Base.Results.{Result, ok, err}
use kilnci.Engine.Dag
use kilnci.Engine.Images.{is_image}
use kilnci.Engine.Spec.{Triggers}
use kilnci.Engine.Texts.{
  utf8, is_job_id, is_label, trim_space, is_blank, has_control, sanitize_name, first_line,
}
use kilnci.Engine.Yaml.{
  YamlNode, document_node, head, content, entries, is_scalar, is_mapping, Message, Problem, Parser,
  ◌>>=◌, ◌>>◌, pure, when◌then◌else◌, fail_at, fail, join, at_index, scalar, str, integer, duration,
  list, str_list, with_some, Field, mapping, too_large, not_utf8, holds_nul, document_empty,
  many_documents, invalid_syntax, defined_twice, wrong_version, bad_jobs, bad_job_count, bad_job_id,
  bad_image, bad_label, bad_need, no_steps, bad_step_name, bad_script, bad_graph,
}
use kilnci.Engine.Yaml.Structure.{check_structure}
use kilnci.Engine.Parse.{
  Decoded, end_of_input, syntax_error, decoded, Outside, default_job_timeout, min_job_timeout,
  max_job_timeout, min_step_timeout, max_retries, max_jobs, max_steps, max_labels, max_run_bytes,
  max_image_len, max_name_runes, max_bytes, EnvVar, StepSpec, JobSpec, Pipeline, sort_labels, env,
  triggers,
}

-- A job that is being read, and the node of its steps.
pub record JobDraft : Type 0 where
  pub job : JobSpec
  pub steps_node : Option YamlNode

-- A pipeline that is being read, and the node of its jobs.
pub record Draft : Type 0 where
  pub on : Triggers
  pub env : List EnvVar
  pub jobs_node : Option YamlNode

module _ (o : Outside) where
  unfoldable pub set_name : Field StepSpec
  set_name path v st = do
    found ← scalar path v
    with_some found st λ s.
        let trimmed = trim_space s in
        when is_blank trimmed
          || ltb max_name_runes (length (codes trimmed))
          || has_control o.is_format trimmed
        then (do fail path v bad_step_name; pure st)
        else pure (record st { name = trimmed })

  unfoldable pub set_script : Field StepSpec
  set_script path v st = do
    found ← str path v
    with_some found st λ s.
        when is_blank (trim_space s) || ltb max_run_bytes (length (utf8 s))
        then (do fail path v bad_script; pure st)
        else pure (record st { script = s })

  unfoldable pub set_step_env : Field StepSpec
  set_step_env path v st = do e ← env path v; pure (record st { env = e })

  unfoldable pub set_step_timeout : ℤ → Field StepSpec
  set_step_timeout job_timeout path v st = do
    found ← duration o.parse_duration path v min_step_timeout job_timeout
    with_some found st λ d. pure (record st { timeout = d })

  abbrev pub step_fields : ℤ → List (String × Field StepSpec)
  step_fields job_timeout =
      ("name", set_name)
      ∷ ("run", set_script)
      ∷ ("env", set_step_env)
      ∷ ("timeout", set_step_timeout job_timeout)
      ∷ []

  -- A step with no name takes it from its script.
  unfoldable pub named : StepSpec → StepSpec
  named st =
      if is_blank st.name
      then record st { name = sanitize_name o.is_format (first_line max_name_runes st.script) }
      else st

  unfoldable pub step_items :
      ByteString → ℤ → ℕ → List YamlNode → List StepSpec → Parser (List StepSpec)
  unfolding set_name set_script set_step_env set_step_timeout named
  step_items path job_timeout i [] out = pure out
  step_items path job_timeout i (it ∷ rest) out = do
    st ←
        mapping (at_index path i) it (step_fields job_timeout) ("run" ∷ [])
          (record { name = ""; script = ""; env = []; timeout = pos 0 })
    step_items path job_timeout (suc i) rest (out ++ named st ∷ [])

  -- `steps`.
  unfoldable pub steps : ByteString → YamlNode → ℤ → Parser (List StepSpec)
  unfolding step_items
  steps path n job_timeout = do
    found ← list path n max_steps
    with_some found [] λ its.
        when is_empty its
        then (do fail path n no_steps; pure [])
        else step_items path job_timeout 0 its []

  unfoldable pub set_image : Field JobDraft
  set_image path v d = do
    found ← str path v
    with_some found d λ s.
        when ltb max_image_len (length (utf8 s)) || not (is_image s)
        then (do fail path v bad_image; pure d)
        else pure (record d { job = record d.job { image = s } })

  unfoldable pub set_runs_on : Field JobDraft
  set_runs_on path v d = do
    ls ← str_list path v max_labels is_label bad_label
    pure (record d { job = record d.job { runs_on = sort_labels ls } })

  unfoldable pub set_needs : Field JobDraft
  set_needs path v d = do
    ns ← str_list path v max_jobs is_job_id bad_need
    pure (record d { job = record d.job { needs = ns } })

  unfoldable pub set_timeout : Field JobDraft
  set_timeout path v d = do
    found ← duration o.parse_duration path v min_job_timeout max_job_timeout
    with_some found d λ t. pure (record d { job = record d.job { timeout = t } })

  unfoldable pub set_retries : Field JobDraft
  set_retries path v d = do
    found ← integer o.atoi path v (pos 0) (pos max_retries)
    with_some found d λ r. pure (record d { job = record d.job { retries = r } })

  unfoldable pub set_job_env : Field JobDraft
  set_job_env path v d = do e ← env path v; pure (record d { job = record d.job { env = e } })

  unfoldable pub set_steps : Field JobDraft
  set_steps path v d = pure (record d { steps_node = some v })

  abbrev pub job_fields : List (String × Field JobDraft)
  job_fields =
      ("image", set_image)
      ∷ ("runs-on", set_runs_on)
      ∷ ("needs", set_needs)
      ∷ ("timeout", set_timeout)
      ∷ ("retries", set_retries)
      ∷ ("env", set_job_env)
      ∷ ("steps", set_steps)
      ∷ []

  abbrev pub new_job : String → JobDraft
  new_job id = record {
    job = record {
      id = id;
      image = "";
      runs_on = [];
      needs = [];
      timeout = default_job_timeout;
      retries = pos 0;
      env = [];
      steps = [];
    };
    steps_node = none;
  }

  -- `job`.
  unfoldable pub job : ByteString → String → YamlNode → Parser JobSpec
  unfolding set_image set_runs_on set_needs set_timeout set_retries set_job_env set_steps
  job path id n = do
    d ← mapping path n job_fields ("image" ∷ "steps" ∷ []) (new_job id)
    with_some d.steps_node d.job
        λ v. do sts ← steps (join path "steps") v d.job.timeout; pure (record d.job { steps = sts })

  -- One entry of the mapping of jobs: the jobs so far, and the ids seen.
  unfoldable pub job_entry :
      ByteString
      → YamlNode
      → YamlNode
      → List JobSpec × List String
      → Parser (List JobSpec × List String)
  job_entry path k v (out, seen) =
      let id = (head k).value in
      when not (is_scalar k) || not (is_job_id id)
      then (do fail path k bad_job_id; pure (out, seen))
      else when holds_key id seen
      then (do fail (join path id) k defined_twice; pure (out, seen))
      else (do j ← job (join path id) id v; pure (out ++ j ∷ [], id ∷ seen))

  unfoldable pub job_entries :
      ByteString
      → List (YamlNode × YamlNode)
      → List JobSpec × List String
      → Parser (List JobSpec × List String)
  unfolding job_entry
  job_entries path [] all = pure all
  job_entries path ((k, v) ∷ rest) all = do
    all' ← job_entry path k v all
    job_entries path rest all'

  -- `jobs`.
  unfoldable pub jobs : ByteString → YamlNode → Parser (List JobSpec)
  unfolding job_entries job_entry
  jobs path n =
      when not (is_mapping n)
      then (do fail path n bad_jobs; pure [])
      else when (length (content n) / 2 == 0) || ltb max_jobs (length (content n) / 2)
      then (do fail path n bad_job_count; pure [])
      else (do all ← job_entries path (entries (content n)) ([], []); pure all.0)

  unfoldable pub check_version : Field Draft
  check_version path v d = do
    when not (is_scalar v) || not ((head v).tag == "!!int") || not ((head v).value == "1")
        then fail path v wrong_version
        else pure tt
    pure d

  unfoldable pub set_on : Field Draft
  set_on path v d = do t ← triggers o path v; pure (record d { on = t })

  unfoldable pub set_env : Field Draft
  set_env path v d = do e ← env path v; pure (record d { env = e })

  unfoldable pub set_jobs : Field Draft
  set_jobs path v d = pure (record d { jobs_node = some v })

  abbrev pub pipeline_fields : List (String × Field Draft)
  pipeline_fields =
      ("version", check_version) ∷ ("on", set_on) ∷ ("env", set_env) ∷ ("jobs", set_jobs) ∷ []

  abbrev pub empty_draft : Draft
  empty_draft = record {
    on = record {
      push = some (record { branches = [] });
      pull_request = some (record { branches = [] });
    };
    env = [];
    jobs_node = none;
  }

  -- `len(p.problems) > 0`.
  unfoldable pub has_problems : Parser Bool
  has_problems ps = (not (is_empty ps), ps)

  abbrev pub line_of : Option YamlNode → ℕ
  line_of none = 0
  line_of (some n) = (head n).line

  abbrev pub nodes : List JobSpec → List Dag.Node
  nodes [] = []
  nodes (j ∷ js) = (record { id = j.id; needs = j.needs }) ∷ nodes js

  -- The graph of the jobs is planned, and its error reported.
  unfoldable pub planned :
      ℕ → Pipeline → Result Dag.GraphError (List String) → Parser (Option Pipeline)
  planned line p (ok order) = pure (some p)
  planned line p (err e) = do
    fail_at (join (codes "jobs") e.node ++ codes ".needs") line (bad_graph e.message)
    pure none

  unfoldable pub read_jobs : Option YamlNode → Parser (List JobSpec)
  read_jobs none = pure []
  read_jobs (some v) = jobs (codes "jobs") v

  -- `pipeline`.
  unfoldable pub pipeline : YamlNode → Parser (Option Pipeline)
  unfolding check_version set_on set_env set_jobs has_problems planned read_jobs
  pipeline root = do
    d ← mapping [] root pipeline_fields ("version" ∷ "jobs" ∷ []) empty_draft
    js ← read_jobs d.jobs_node
    bad ← has_problems
    when bad
        then pure none
        else planned (line_of d.jobs_node) (record { on = d.on; env = d.env; jobs = js })
            (Dag.plan (nodes js))

  abbrev pub refuse : Message → Parser (Option Pipeline)
  refuse msg = do fail_at [] 0 msg; pure none

  -- `syntaxError`, which does not ask how many problems there are.
  unfoldable pub report_syntax : ℕ → Parser (Option Pipeline)
  report_syntax line ps =
      (none, ps ++ (record { path = []; line = line; message = invalid_syntax }) ∷ [])

  abbrev pub is_document : YamlNode → Bool
  is_document n = elim (head n).kind [ document_node ↦ true | _ ↦ false ]

  unfoldable pub read_root : YamlNode → List YamlNode → Parser (Option Pipeline)
  read_root doc (root ∷ []) = when is_document doc then pipeline root else refuse document_empty
  read_root doc other = refuse document_empty

  unfoldable pub read_decoded : Decoded → Parser (Option Pipeline)
  read_decoded end_of_input = refuse document_empty
  read_decoded (syntax_error line) = report_syntax line
  read_decoded (decoded doc alone) = when not alone then refuse many_documents else (do
    fine ← check_structure doc
    when not fine then pure none else read_root doc (content doc))

  -- The method `parse`.
  unfoldable pub read_document : ByteString → Parser (Option Pipeline)
  unfolding report_syntax read_root read_decoded
  read_document bytes =
      when ltb max_bytes (length bytes)
      then refuse too_large
      else when not (o.valid_utf8 bytes)
      then refuse not_utf8
      else when holds_key 0 bytes
      then refuse holds_nul
      else read_decoded (o.decode bytes)

  -- What `Parse` returns for the problems found: a pointer, which may be nil, or the problems.
  unfoldable pub outcome : Option Pipeline × List Problem → Result (List Problem) (Option Pipeline)
  outcome (p, []) = ok p
  outcome (p, q ∷ qs) = err (q ∷ qs)

  unfoldable pub parse : ByteString → Result (List Problem) (Option Pipeline)
  unfolding outcome
  parse bytes = outcome (read_document bytes [])
