-- ===== src/Engine/Parse.antt =====
-- The pipeline parser: server/internal/engine/spec/parse.go, with the records of spec.go. `Outside` is
-- what the parser takes from libraries. A duration is its nanoseconds.
pub mod Fields
pub mod Jobs
pub mod Valid
mod Tests
use Prim.Native.Nat.{Ordering}
use Prim.Native.String.{compare}
use kilnci.Base.{
  ℕ, zero, suc, ◌+◌, ◌*◌, ◌/◌, Bool, true, false, not, ◌&&◌, ◌||◌, List, [], ◌∷◌, ◌++◌, Option,
  none, some, ◌==◌, if◌then◌else◌, ltb, leb, length, map, String, ByteString, codes, holds_key,
  nat_eq, string_eq, is_empty,
}
use kilnci.Base.Int.{ℤ, pos, negsuc, leb_ℤ}
use kilnci.Base.Results.{Result, ok, err}
use kilnci.Engine.Dag
use kilnci.Engine.Spec.{Triggers, BranchFilter}
use kilnci.Engine.Texts.{
  utf8, is_job_id, is_label, is_env_key, is_reserved, trim_space, is_blank, has_control,
  sanitize_name, first_line,
}
use kilnci.Engine.Yaml.{
  YamlNode, NodeKind, head, content, entries, is_scalar, is_mapping, Message, Problem, Parser,
  ◌>>=◌, ◌>>◌, pure, when◌then◌else◌, fail_at, fail, join, at_index, scalar, str, integer, duration,
  list, str_list, with_some, Field, mapping, too_large, not_utf8, holds_nul, document_empty,
  many_documents, invalid_syntax, not_mapping, key_not_plain, defined_twice, too_many_items,
  bad_env_key, reserved_env_key, env_value_too_large, wrong_version, bad_pattern, bad_jobs,
  bad_job_count, bad_job_id, bad_image, bad_label, bad_need, no_steps, bad_step_name, bad_script,
  bad_graph,
}
use kilnci.Engine.Yaml.Structure.{check_structure}

-- What the two calls of the YAML decoder give: the end of the input, a syntax error with the line that
-- its text names or 0, or a document with whether it is the only one.
pub data Decoded : Type 0 where
  end_of_input : Decoded
  syntax_error : ℕ → Decoded
  decoded : YamlNode → Bool → Decoded

-- The YAML library, `utf8.Valid`, `time.ParseDuration`, `strconv.Atoi` and
-- the Unicode category Cf.
pub record Outside : Type 0 where
  pub decode : ByteString → Decoded
  pub valid_utf8 : ByteString → Bool
  pub parse_duration : String → Option ℤ
  pub atoi : String → Option ℤ
  pub is_format : ℕ → Bool

abbrev pub second : ℕ
second = 1000000000

abbrev pub default_job_timeout : ℤ
default_job_timeout = pos (60 * 60 * second)

abbrev pub min_job_timeout : ℤ
min_job_timeout = pos (60 * second)

abbrev pub max_job_timeout : ℤ
max_job_timeout = pos (24 * 60 * 60 * second)

abbrev pub min_step_timeout : ℤ
min_step_timeout = pos second

abbrev pub max_retries : ℕ
max_retries = 3

abbrev pub max_jobs : ℕ
max_jobs = 50

abbrev pub max_steps : ℕ
max_steps = 100

abbrev pub max_labels : ℕ
max_labels = 10

abbrev pub max_env : ℕ
max_env = 100

abbrev pub max_patterns : ℕ
max_patterns = 50

abbrev pub max_run_bytes : ℕ
max_run_bytes = 64 * 1024

abbrev pub max_env_value_bytes : ℕ
max_env_value_bytes = 32 * 1024

abbrev pub max_image_len : ℕ
max_image_len = 255

abbrev pub max_name_runes : ℕ
max_name_runes = 100

abbrev pub max_pattern_len : ℕ
max_pattern_len = 255

abbrev pub max_bytes : ℕ
max_bytes = 256 * 1024

pub record EnvVar : Type 0 where
  pub name : String
  pub value : String

pub record StepSpec : Type 0 where
  pub name : String
  pub script : String
  pub env : List EnvVar
  pub timeout : ℤ

pub record JobSpec : Type 0 where
  pub id : String
  pub image : String
  pub runs_on : List String
  pub needs : List String
  pub timeout : ℤ
  pub retries : ℤ
  pub env : List EnvVar
  pub steps : List StepSpec

pub record Pipeline : Type 0 where
  pub on : Triggers
  pub env : List EnvVar
  pub jobs : List JobSpec

abbrev pub less : String → String → Bool
less a b = elim (compare a b) [ Ordering.lt ↦ true | _ ↦ false ]

-- The sorts of `env` by name, and of the labels.
insert_var : EnvVar → List EnvVar → List EnvVar
insert_var v [] = v ∷ []
insert_var v (w ∷ ws) = if less w.name v.name then w ∷ insert_var v ws else v ∷ w ∷ ws

sort_vars : List EnvVar → List EnvVar
unfolding insert_var
sort_vars [] = []
sort_vars (v ∷ vs) = insert_var v (sort_vars vs)

insert_label : String → List String → List String
insert_label v [] = v ∷ []
insert_label v (w ∷ ws) = if less w v then w ∷ insert_label v ws else v ∷ w ∷ ws

pub sort_labels : List String → List String
unfolding insert_label
sort_labels [] = []
sort_labels (v ∷ vs) = insert_label v (sort_labels vs)

-- The variables so far, and the names seen.
abbrev Vars : Type 0
Vars = List EnvVar × List String

env_value : ByteString → String → YamlNode → Vars → Parser Vars
env_value child key v (out, seen) = do
  o ← scalar child v
  with_some o (out, key ∷ seen)
      λ val.
        when ltb max_env_value_bytes (length (utf8 val))
        then (do fail child v env_value_too_large; pure (out, key ∷ seen))
        else pure (out ++ (record { name = key; value = val }) ∷ [], key ∷ seen)

env_entry : ByteString → YamlNode → YamlNode → Vars → Parser Vars
unfolding env_value
env_entry path k v (out, seen) =
    let key = (head k).value in
    when not (is_scalar k)
    then (do fail path k key_not_plain; pure (out, seen))
    else when not (is_env_key key)
    then (do fail path k bad_env_key; pure (out, seen))
    else when is_reserved key
    then (do fail (join path key) k reserved_env_key; pure (out, seen))
    else when holds_key key seen
    then (do fail (join path key) k defined_twice; pure (out, seen))
    else env_value (join path key) key v (out, seen)

env_entries : ByteString → List (YamlNode × YamlNode) → Vars → Parser Vars
unfolding env_entry env_value
env_entries path [] vars = pure vars
env_entries path ((k, v) ∷ rest) vars = do
  vars' ← env_entry path k v vars
  env_entries path rest vars'

-- `env`.
unfoldable pub env : ByteString → YamlNode → Parser (List EnvVar)
unfolding env_entries env_entry env_value sort_vars insert_var
env path n =
    when not (is_mapping n)
    then (do fail path n not_mapping; pure [])
    else when ltb max_env (length (content n) / 2)
    then (do fail path n (too_many_items max_env); pure [])
    else (do vars ← env_entries path (entries (content n)) ([], []); pure (sort_vars vars.0))

module _ (o : Outside) where
  abbrev is_pattern : String → Bool
  is_pattern s =
      not (is_blank s) && leb (length (utf8 s)) max_pattern_len && not (has_control o.is_format s)

  set_branches : Field BranchFilter
  set_branches path v f = do
    bs ← str_list path v max_patterns is_pattern bad_pattern
    pure (record f { branches = map utf8 bs })

  abbrev filter_fields : List (String × Field BranchFilter)
  filter_fields = ("branches", set_branches) ∷ []

  branch_filter : ByteString → YamlNode → Parser BranchFilter
  unfolding set_branches
  branch_filter path v =
      when is_scalar v && (head v).tag == "!!null"
      then pure (record { branches = [] })
      else mapping path v filter_fields [] (record { branches = [] })

  set_push : Field Triggers
  set_push path v t = do f ← branch_filter path v; pure (record t { push = some f })

  set_pull_request : Field Triggers
  set_pull_request path v t = do f ← branch_filter path v; pure (record t { pull_request = some f })

  abbrev trigger_fields : List (String × Field Triggers)
  trigger_fields = ("push", set_push) ∷ ("pull_request", set_pull_request) ∷ []

  -- `triggers`.
  unfoldable pub triggers : ByteString → YamlNode → Parser Triggers
  unfolding set_push set_pull_request branch_filter set_branches
  triggers path n = mapping path n trigger_fields [] (record { push = none; pull_request = none })
