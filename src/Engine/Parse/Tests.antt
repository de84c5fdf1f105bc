-- ===== src/Engine/Parse/Tests.antt =====
-- The pipeline parser on a document with one job, and on one that is refused.
use kilnci.Base.{
  suc, ◌≤◌, true, false, List, [], ◌∷◌, none, some, ◌≡◌, ◌≢◌, ◌↔◌, refl, all, All, length, lookup,
  String, codes,
}
use kilnci.Base.Decimal.{decimal}
use kilnci.Base.Int.{pos}
use kilnci.Base.Results.{ok, err}
use kilnci.Engine.Dag
use kilnci.Engine.Images.{is_image}
use kilnci.Engine.Texts.{
  utf8, is_job_id, is_safe_key, has_expression, trim_space, sanitize_name, first_line,
}
use kilnci.Engine.Yaml.{
  YamlNode, YamlNodes, node, nil, cons, Head, NodeKind, document_node, sequence_node, mapping_node,
  scalar_node, alias_node, entries, Problem, max_errors, ◌>>=◌, pure, when◌then◌else◌, fail_at,
  join, at_index, scalar, str, integer, duration, list, str_list, with_some, mapping, has_anchor,
}
use kilnci.Engine.Yaml.Rules.{is_path_char}
use kilnci.Engine.Yaml.Structure.{check_structure, max_depth, max_nodes}
use kilnci.Engine.Yaml.Structure.Exact.{check_structure_iff, size, height, AllClean}
use kilnci.Engine.Yaml.Walkers.{Given}
use kilnci.Engine.Parse.{Outside, decoded, default_job_timeout, Pipeline, env, triggers}
use kilnci.Engine.Parse.Jobs.{steps, job, jobs, pipeline, read_document, parse}
use kilnci.Engine.Parse.Valid.{IsValidPipeline, IsWithinLimits}
use kilnci.Engine.Parse.Valid.Whole.{parse_ok, parse_err}

abbrev plain_head : NodeKind → String → String → Head
plain_head kind tag value = record {
  kind = kind;
  tag = tag;
  plain = true;
  tagged = false;
  anchor = "";
  value = value;
  line = 1;
}

abbrev text : String → YamlNode
text s = node (plain_head scalar_node "!!str" s) nil

abbrev number : String → YamlNode
number s = node (plain_head scalar_node "!!int" s) nil

abbrev map_of : YamlNodes → YamlNode
map_of ns = node (plain_head mapping_node "!!map" "") ns

abbrev list_of : YamlNodes → YamlNode
list_of ns = node (plain_head sequence_node "!!seq" "") ns

abbrev steps_of_build : YamlNode
steps_of_build = list_of (cons (map_of (cons (text "run") (cons (text "make") nil))) nil)

abbrev build : YamlNode
build =
    map_of (cons (text "image") (cons (text "go") (cons (text "steps") (cons steps_of_build nil))))

abbrev root : YamlNode
root = map_of (
    cons (text "version") (
      cons (number "1")
        (cons (text "jobs") (cons (map_of (cons (text "build") (cons build nil))) nil))))

abbrev document : YamlNode
document = node (plain_head document_node "" "") (cons root nil)

-- An alias at the root.
abbrev aliased : YamlNode
aliased = node (plain_head document_node "" "") (cons (node (plain_head alias_node "" "x") nil) nil)

abbrev outside : YamlNode → Outside
outside doc = record {
  decode = λ b. decoded doc true;
  valid_utf8 = λ b. true;
  parse_duration = λ s. none;
  atoi = λ s. none;
  is_format = λ c. false;
}

abbrev pipeline_of_one : Pipeline
pipeline_of_one = record {
  on = record {
    push = some (record { branches = [] });
    pull_request = some (record { branches = [] });
  };
  env = [];
  jobs =
      (record {
        id = "build";
        image = "go";
        runs_on = [];
        needs = [];
        timeout = default_job_timeout;
        retries = pos 0;
        env = [];
        steps = (record { name = "make"; script = "make"; env = []; timeout = pos 0 }) ∷ [];
      })
      ∷ [];
}

accepted : parse (outside document) (codes "x") ≡ ok (some pipeline_of_one)
unfolding is_image parse read_document pipeline jobs job steps env triggers mapping list str scalar
    str_list duration integer with_some check_structure entries pure ◌>>=◌ when◌then◌else◌ fail_at
    join at_index decimal is_job_id is_safe_key has_expression utf8 trim_space sanitize_name
    first_line lookup Dag.plan Dag.index_nodes Dag.link_nodes Dag.link_needs Dag.finish Dag.kahn
    Dag.sort Dag.start Dag.roots Dag.no_links Dag.insert_sorted Dag.take_ready Dag.release
accepted = refl

digest_image : is_image "ghcr.io:443/a--b/c__d:v1.2_X" ≡ true
unfolding is_image
digest_image = refl

no_image : is_image "" ≡ false
unfolding is_image
no_image = refl

bad_separator : is_image "a..b" ≡ false
unfolding is_image
bad_separator = refl

parse_ok_example :
    Given (IsValidPipeline (outside document)) (some pipeline_of_one)
    × ((doc : YamlNode) × ((outside document).decode (codes "x") ≡ decoded doc true)
        × IsWithinLimits doc)
parse_ok_example = parse_ok (outside document) (codes "x") (some pipeline_of_one) refl accepted

abbrev alias_problem : Problem
alias_problem = record { path = []; line = 1; message = has_anchor }

refused : parse (outside aliased) (codes "x") ≡ err (alias_problem ∷ [])
unfolding parse read_document check_structure entries pure ◌>>=◌ when◌then◌else◌ fail_at
    has_expression
refused = refl

parse_err_example :
    (◌≢◌ {A = List Problem} (alias_problem ∷ []) [])
    × (length (alias_problem ∷ []) ≤ max_errors)
    × All (λ (p : Problem). all is_path_char p.path ≡ true) (alias_problem ∷ [])
parse_err_example = parse_err (outside aliased) (codes "x") (alias_problem ∷ []) refl refused

check_structure_iff_example :
    ((check_structure document []).0 ≡ true)
    ↔ ((size document ≤ max_nodes) × (height document ≤ suc max_depth) × AllClean document)
check_structure_iff_example = check_structure_iff document
