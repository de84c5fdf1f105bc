-- ===== src/Engine/Parse/Valid/Whole.antt =====
-- A document that `Parse` of parse.go accepts, and what it reports of one that it refuses.
use kilnci.Base.{
  ℕ, ◌+◌, ◌/◌, ◌≤◌, Bool, true, false, not, List, [], ◌∷◌, ◌++◌, Option, none, some, ◌==◌, ◌≡◌, ◌≢◌,
  ◌∙◌, subst, ap, refl, sym, arith, if◌then◌else◌, ltb, length, length-append, all, All, String,
  ByteString, codes, holds_key, nat_eq, string_eq,
}
use kilnci.Base.Results.{Result, ok, err}
use kilnci.Engine.Dag
use kilnci.Engine.Yaml.{
  YamlNode, head, content, entries, Message, Problem, max_errors, Parser, when◌then◌else◌, join,
}
use kilnci.Engine.Yaml.Rules.{
  IsSafePath, is_path_char, Good, Sound, Sound-pure, Sound-if, Sound-bind, Sound-weaken, Sound-fail,
  Sound-refuse, join-IsSafePath, all-append,
}
use kilnci.Engine.Yaml.Structure.Limits.{check_structure-Sound}
use kilnci.Engine.Yaml.Structure.{check_structure}
use kilnci.Engine.Yaml.Structure.Exact.{check_structure_iff}
use kilnci.Engine.Yaml.Walkers.{Given, Handles, mapping-Sound, true_of_not}
use kilnci.Engine.Parse.{
  Decoded, end_of_input, syntax_error, decoded, Outside, JobSpec, Pipeline, max_jobs,
}
use kilnci.Engine.Parse.Fields.{IsValidEnv, env-Sound, IsValidTriggers, triggers-Sound}
use kilnci.Engine.Parse.Jobs.{
  Draft, job_entry, job_entries, jobs, check_version, set_on, set_env, set_jobs, pipeline_fields,
  empty_draft, has_problems, line_of, nodes, planned, read_jobs, pipeline, refuse, report_syntax,
  read_root, read_decoded, read_document, outcome, parse,
}
use kilnci.Engine.Parse.Valid.{IsValidJob, IsValidPipeline, IsWithinLimits}
use kilnci.Engine.Parse.Valid.Accepted.{job-Sound}
use kilnci.Engine.Parse.Valid.Steps.{or_false}

false_of_not : (b : Bool) → not b ≡ true → b ≡ false
false_of_not true h = cc
false_of_not false h = refl

module _ (o : Outside) (plain : o.is_format b'?' ≡ false) where
  All-snoc :
      (js : List JobSpec) (j : JobSpec)
      → All (IsValidJob o) js
      → IsValidJob o j
      → All (IsValidJob o) (js ++ j ∷ [])
  All-snoc [] j h p = (p, tt)
  All-snoc (k ∷ js) j h p = (h.0, All-snoc js j h.1 p)

  -- So many more jobs, all of them valid.
  abbrev More : List JobSpec × List String → ℕ → List JobSpec × List String → Type 0
  More all n r =
      (All (IsValidJob o) all.0 → All (IsValidJob o) r.0) × (length r.0 ≡ length all.0 + n)

  job_entry-Sound :
      (path : ByteString) (k v : YamlNode) (all : List JobSpec × List String)
      → IsSafePath path
      → Sound (job_entry o path k v all) (More all 1)
  unfolding job_entry
  job_entry-Sound path k v (out, seen) safe =
      let child = join-IsSafePath path (head k).value safe in
      Sound-if _ (λ _. Sound-refuse _ _ _ _ safe)
        (λ named.
          Sound-if _ (λ _. Sound-refuse _ _ _ _ child)
            (λ _.
              Sound-bind _
                (job-Sound o (join path (head k).value) (head k).value v plain
                  (true_of_not _ (or_false _ _ named).1) child)
                (λ j. Sound-pure _ (λ good.
                  (λ all. All-snoc out j all good, omega (arith, length-append out (j ∷ [])))))))

  job_entries-Sound :
      (path : ByteString) (rest : List (YamlNode × YamlNode)) (all : List JobSpec × List String)
      → IsSafePath path
      → Sound (job_entries o path rest all) (More all (length rest))
  unfolding job_entries
  job_entries-Sound path [] all safe = Sound-pure all (λ a. a, omega arith)
  job_entries-Sound path ((k, v) ∷ rest) all safe =
      Sound-bind _ (job_entry-Sound path k v all safe) (λ mid.
        Sound-weaken (job_entries-Sound path rest mid safe)
          (λ r later now. (λ a. later.0 (now.0 a), omega (arith, later.1, now.1))))

  abbrev AreJobs : List JobSpec → Type 0
  AreJobs js = All (IsValidJob o) js × (1 ≤ length js) × (length js ≤ max_jobs)

  entries-half : (ns : List YamlNode) → length (entries ns) ≡ length ns / 2
  unfolding entries
  entries-half [] = omega arith
  entries-half (k ∷ []) = omega arith
  entries-half (k ∷ v ∷ rest) = omega (arith, entries-half rest)

  jobs-Sound : (path : ByteString) (n : YamlNode) → IsSafePath path → Sound (jobs o path n) AreJobs
  unfolding jobs
  jobs-Sound path n safe =
      Sound-if _ (λ _. Sound-refuse _ _ _ _ safe)
        (λ _.
          Sound-if _ (λ _. Sound-refuse _ _ _ _ safe)
            (λ h. Sound-bind _ (job_entries-Sound path (entries (content n)) ([], []) safe) (λ r.
              Sound-pure _ (λ more.
                let parts =
                  or_false (length (content n) / 2 == 0) (ltb max_jobs (length (content n) / 2))
                    h in
                let half = entries-half (content n) in
                let some_jobs : 1 ≤ length (content n) / 2 = ground arith in
                let few_jobs : length (content n) / 2 ≤ max_jobs = ground arith in
                (
                  more.0 tt,
                  omega (arith, more.1, half, some_jobs),
                  omega (arith, more.1, half, few_jobs),
                )))))

  record DraftInv (seen : List String) (d : Draft) : Type 0 where
    on_read : IsValidTriggers o d.on
    env_read : IsValidEnv d.env
    jobs_seen : holds_key "jobs" seen ≡ true → Given (λ (_ : YamlNode). Unit {0}) d.jobs_node

  pipeline_fields-Handles : All (Handles DraftInv) (pipeline_fields o)
  unfolding check_version set_on set_env set_jobs
  pipeline_fields-Handles = (
    λ path v seen d safe.
        Sound-bind {Q = λ _. Unit {0}} _
          (Sound-if _ (λ _. Sound-fail _ _ _ safe) (λ _. Sound-pure _ tt))
          (λ _. Sound-pure _ (λ _ i. record {
            on_read = i.on_read;
            env_read = i.env_read;
            jobs_seen = i.jobs_seen;
          })),
    (
      λ path v seen d safe. Sound-bind _ (triggers-Sound o path v safe) (λ t.
          Sound-pure _
            (λ good i. record { on_read = good; env_read = i.env_read; jobs_seen = i.jobs_seen })),
      (
        λ path v seen d safe. Sound-bind _ (env-Sound path v safe) (λ e.
            Sound-pure _
              (λ good i. record { on_read = i.on_read; env_read = good; jobs_seen = i.jobs_seen })),
        (
          λ path v seen d safe.
              Sound-pure _
                (λ i. record { on_read = i.on_read; env_read = i.env_read; jobs_seen = λ _. tt }),
          tt,
        ),
      ),
    ),
  )

  empty_draft-DraftInv : DraftInv [] (empty_draft o)
  empty_draft-DraftInv = record {
    on_read = (
      ([], refl, tt, λ x. omega arith, omega arith),
      ([], refl, tt, λ x. omega arith, omega arith),
    );
    env_read = (tt, λ x. omega arith, omega arith);
    jobs_seen = λ h. cc;
  }

  read_jobs-Sound :
      (found : Option YamlNode)
      → Sound (read_jobs o found) (λ js. Given (λ (_ : YamlNode). Unit {0}) found → AreJobs js)
  unfolding read_jobs
  read_jobs-Sound none = Sound-pure [] (λ e. absurd e)
  read_jobs-Sound (some v) = Sound-weaken (jobs-Sound (codes "jobs") v refl) (λ js good _. good)

  has_problems-Sound : Sound (has_problems o) (λ bad. bad ≡ false)
  unfolding has_problems
  has_problems-Sound = record { quiet = λ ps e. (e, rw e refl); keeps = λ ps g. g }

  planned-Sound :
      (line : ℕ) (p : Pipeline) (r : Result Dag.GraphError (List String))
      → Sound (planned o line p r) (Given (λ q. (q ≡ p) × ((order : List String) × (r ≡ ok order))))
  unfolding planned
  planned-Sound line p (ok order) = Sound-pure (some p) (refl, (order, refl))
  planned-Sound line p (err e) = Sound-refuse _ _ _ _ (
      all-append is_path_char (join (codes "jobs") e.node) (codes ".needs")
        (join-IsSafePath (codes "jobs") e.node refl) refl)

  -- What was planned is the pipeline that was read.
  same_pipeline :
      (p : Pipeline) (found : Option Pipeline)
      → Given
          (λ q. (q ≡ p) × ((order : List String) × (Dag.plan (nodes o p.jobs) ≡ ok order)))
          found
      → (((order : List String) × (Dag.plan (nodes o p.jobs) ≡ ok order)) → IsValidPipeline o p)
      → Given (IsValidPipeline o) found
  same_pipeline p none h v = h
  same_pipeline p (some q) h v = rw (h.0) (v h.1)

  pipeline-Sound : (root : YamlNode) → Sound (pipeline o root) (Given (IsValidPipeline o))
  unfolding pipeline
  pipeline-Sound root =
      Sound-bind _
        (mapping-Sound DraftInv [] root (pipeline_fields o) ("version" ∷ "jobs" ∷ [])
          (empty_draft o) pipeline_fields-Handles refl)
        (λ d. Sound-bind _ (read_jobs-Sound d.jobs_node) (λ js.
          Sound-bind _ has_problems-Sound (λ bad.
            Sound-if bad
              (λ t. Sound-pure none (λ f. absurd (let e : true ≡ false = sym t ∙ f in cc)))
              (λ _.
                Sound-weaken
                  (planned-Sound (line_of o d.jobs_node)
                    (record { on = d.on; env = d.env; jobs = js }) (Dag.plan (nodes o js)))
                  (λ found same _ good now.
                    let (seen, inv, (_, (jobs_read, _))) = now empty_draft-DraftInv in
                    let js_good = good (inv.jobs_seen jobs_read) in
                    same_pipeline (record { on = d.on; env = d.env; jobs = js }) found same
                      (λ graph. record {
                        on = inv.on_read;
                        env = inv.env_read;
                        jobs = js_good.0;
                        some_jobs = js_good.1;
                        few_jobs = js_good.2;
                        graph = graph;
                      }))))))

  -- What is accepted of a decoded input: the only document, within the limits, and a pipeline.
  abbrev pub Accepted : Decoded → Option Pipeline → Type 0
  Accepted d found =
      Given (IsValidPipeline o) found
      × ((doc : YamlNode) × (d ≡ decoded doc true) × IsWithinLimits doc)

  refuse-Sound : {Q : Option Pipeline → Type 0} (msg : Message) → Sound (refuse o msg) Q
  refuse-Sound msg = Sound-refuse _ _ _ _ refl

  read_root-Sound :
      (doc : YamlNode) (ns : List YamlNode) → Sound (read_root o doc ns) (Given (IsValidPipeline o))
  unfolding read_root
  read_root-Sound doc [] = refuse-Sound _
  read_root-Sound doc (root ∷ []) = Sound-if _ (λ _. pipeline-Sound root) (λ _. refuse-Sound _)
  read_root-Sound doc (root ∷ n ∷ ns) = refuse-Sound _

  check_structure-Exact :
      (doc : YamlNode) → Sound (check_structure doc) (λ fine. (fine ≡ true) × IsWithinLimits doc)
  check_structure-Exact doc =
      let sound = check_structure-Sound doc in
      record {
        quiet = λ ps e.
            let (none_before, fine) = sound.quiet ps e in
            let from_none = subst (λ qs. (check_structure doc qs).0 ≡ true) none_before fine in
            (none_before, (fine, (check_structure_iff doc).0 from_none));
        keeps = sound.keeps;
      }

  decoded-Sound :
      (doc : YamlNode) (alone : Bool)
      → Sound (read_decoded o (decoded doc alone)) (Accepted (decoded doc alone))
  unfolding read_decoded
  decoded-Sound doc alone =
      Sound-if _ (λ _. refuse-Sound _)
        (λ single. Sound-bind _ (check_structure-Exact doc) (λ fine.
          Sound-if _
            (λ t.
              Sound-pure none
                (λ f. absurd (let e : false ≡ true = sym (false_of_not fine t) ∙ f.0 in cc)))
            (λ _. Sound-weaken (read_root-Sound doc (content doc)) (λ found good limits.
              (good, (doc, ap (λ b. decoded doc b) (true_of_not alone single), limits.1))))))

  -- What a run from no problems ends with.
  abbrev Ends : (Option Pipeline → Type 0) → Option Pipeline × List Problem → Type 0
  Ends Q r = (r.1 ≡ [] → Q r.0) × Good r.1

  Sound-Ends :
      {m : Parser (Option Pipeline)} {Q : Option Pipeline → Type 0} → Sound m Q → Ends Q (m [])
  Sound-Ends h = (λ e. (h.quiet [] e).1, h.keeps [] (omega arith, tt))

  Ends-if :
      (Q : Option Pipeline → Type 0) (b : Bool) (m k : Parser (Option Pipeline))
      → Ends Q (m [])
      → Ends Q (k [])
      → Ends Q ((when b then m else k) [])
  unfolding when◌then◌else◌
  Ends-if Q true m k h j = h
  Ends-if Q false m k h j = j

  read_decoded-Ends : (d : Decoded) → Ends (Accepted d) (read_decoded o d [])
  read_decoded-Ends end_of_input =
      unfold read_decoded in Sound-Ends {Q = Accepted end_of_input} (refuse-Sound _)
  read_decoded-Ends (syntax_error line) =
      unfold read_decoded in unfold report_syntax in (λ e. cc, (omega arith, (refl, tt)))
  read_decoded-Ends (decoded doc alone) = Sound-Ends (decoded-Sound doc alone)

  read_document-Ends :
      (bytes : ByteString) → Ends (Accepted (o.decode bytes)) (read_document o bytes [])
  unfolding read_document
  read_document-Ends bytes =
      let q = Accepted (o.decode bytes) in
      Ends-if q _ _ _ (Sound-Ends {Q = q} (refuse-Sound _)) (
        Ends-if q _ _ _ (Sound-Ends {Q = q} (refuse-Sound _)) (
          Ends-if q _ _ _ (Sound-Ends {Q = q} (refuse-Sound _))
            (read_decoded-Ends (o.decode bytes))))

  outcome-ok :
      (Q : Option Pipeline → Type 0) (r : Option Pipeline × List Problem) (p : Option Pipeline)
      → Ends Q r
      → outcome o r ≡ ok p
      → Q p
  unfolding outcome
  outcome-ok Q (found, []) p ends h = let same : found ≡ p = cc in rw (← same) (ends.0 refl)
  outcome-ok Q (found, q ∷ qs) p ends h = cc

  outcome-err :
      (Q : Option Pipeline → Type 0) (r : Option Pipeline × List Problem) (ps : List Problem)
      → Ends Q r
      → outcome o r ≡ err ps
      → (ps ≢ []) × Good ps
  unfolding outcome
  outcome-err Q (found, []) ps ends h = cc
  outcome-err Q (found, q ∷ qs) ps ends h =
      let same : q ∷ qs ≡ ps = cc in rw (← same) (λ e. cc, ends.1)

-- Whatever bytes `Parse` accepts decode to a single document of at most 20000 nodes, at most 20 levels
-- deep, with no anchor, alias, explicit tag or merge key, and with no `${{` in any scalar; and `Parse`
-- returns a pipeline of it that is valid: its triggers, variables, jobs and steps keep the rules and
-- bounds that `IsValidPipeline` lists, each image is a text of imagePattern, and its jobs can be
-- planned. The replacement character `?` is no format character.
pub parse_ok :
    (o : Outside) (bytes : ByteString) (p : Option Pipeline)
    → o.is_format b'?' ≡ false
    → parse o bytes ≡ ok p
    → Given (IsValidPipeline o) p
      × ((doc : YamlNode) × (o.decode bytes ≡ decoded doc true) × IsWithinLimits doc)
unfolding parse
parse_ok o bytes p plain h =
    outcome-ok o plain (Accepted o plain (o.decode bytes)) _ p (read_document-Ends o plain bytes) h

-- Whatever bytes `Parse` refuses, it reports between 1 and 50 problems, and the path of each consists
-- of letters, digits and the signs `_`, `-`, `.`, `[`, `]` and `?`, whatever the document holds.
pub parse_err :
    (o : Outside) (bytes : ByteString) (ps : List Problem)
    → o.is_format b'?' ≡ false
    → parse o bytes ≡ err ps
    → (ps ≢ [])
      × (length ps ≤ max_errors)
      × All (λ (p : Problem). all is_path_char p.path ≡ true) ps
unfolding parse
parse_err o bytes ps plain h =
    let (some_problem, good) =
      outcome-err o plain (Accepted o plain (o.decode bytes)) _ ps
        (read_document-Ends o plain bytes) h in
    (some_problem, good.0, good.1)
