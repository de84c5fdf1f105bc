-- ===== src/Engine/Parse/Valid/Accepted.antt =====
-- Jobs that parse.go reads without a problem are valid.
use kilnci.Base.{
  suc, true, false, List, [], ◌∷◌, Option, none, some, ◌≡◌, inl, inr, refl, arith, length, All,
  String, ByteString, holds_key, tally, nat_eq, string_eq, Bool-cases,
}
use kilnci.Base.Int.{pos}
use kilnci.Engine.Texts.{is_job_id, is_label}
use kilnci.Engine.Yaml.{YamlNode, ◌>>=◌, pure, join, with_some, bad_label, bad_need}
use kilnci.Engine.Images.{is_image-Matches}
use kilnci.Engine.Yaml.Rules.{
  IsSafePath, Sound, Sound-pure, Sound-if, Sound-bind, Sound-weaken, Sound-refuse, join-IsSafePath,
}
use kilnci.Engine.Yaml.Walkers.{
  Given, str-Sound, integer-Sound, duration-Sound, Within, str_list-Sound, Handles, true_of_not,
  mapping-Sound, Sound-with_some,
}
use kilnci.Engine.Parse.{
  Outside, StepSpec, max_labels, max_jobs, max_retries, min_job_timeout, max_job_timeout, less,
  insert_label, sort_labels,
}
use kilnci.Engine.Parse.Fields.{IsValidEnv, env-Sound}
use kilnci.Engine.Parse.Jobs.{
  JobDraft, named, steps, set_image, set_runs_on, set_needs, set_timeout, set_retries, set_job_env,
  set_steps, job_fields, new_job, job,
}
use kilnci.Engine.Parse.Valid.{IsImage, IsValidLabels, IsValidNeeds, IsValidJob}
use kilnci.Engine.Parse.Valid.Steps.{AreSteps, steps-Sound, or_false}

insert_label-tally :
    (x v : String) (vs : List String) → tally x (insert_label v vs) ≡ tally x (v ∷ vs)
unfolding insert_label
insert_label-tally x v [] = refl
insert_label-tally x v (w ∷ ws) = elim (Bool-cases (less w v)) [
  | inl t ↦ rw t (omega (arith, insert_label-tally x v ws))
  | inr t ↦ rw t
]

sort_labels-tally : (x : String) (vs : List String) → tally x (sort_labels vs) ≡ tally x vs
unfolding sort_labels
sort_labels-tally x [] = refl
sort_labels-tally x (v ∷ vs) =
    omega (arith, insert_label-tally x v (sort_labels vs), sort_labels-tally x vs)

insert_label-All :
    (P : String → Type 0) (v : String) (vs : List String)
    → P v
    → All P vs
    → All P (insert_label v vs)
unfolding insert_label
insert_label-All P v [] p h = (p, tt)
insert_label-All P v (w ∷ ws) p h = elim (Bool-cases (less w v)) [
  | inl t ↦ rw t (h.0, insert_label-All P v ws p h.1)
  | inr t ↦ rw t (p, (h.0, h.1))
]

sort_labels-All : (P : String → Type 0) (vs : List String) → All P vs → All P (sort_labels vs)
unfolding sort_labels
sort_labels-All P [] h = tt
sort_labels-All P (v ∷ vs) h = insert_label-All P v (sort_labels vs) h.0 (sort_labels-All P vs h.1)

length-insert_label : (v : String) (vs : List String) → length (insert_label v vs) ≡ suc (length vs)
unfolding insert_label
length-insert_label v [] = refl
length-insert_label v (w ∷ ws) = elim (Bool-cases (less w v)) [
  | inl t ↦ rw t (omega (arith, length-insert_label v ws))
  | inr t ↦ rw t
]

length-sort_labels : (vs : List String) → length (sort_labels vs) ≡ length vs
unfolding sort_labels
length-sort_labels [] = refl
length-sort_labels (v ∷ vs) =
    omega (arith, length-insert_label v (sort_labels vs), length-sort_labels vs)

sort_labels-IsValidLabels : (ls : List String) → IsValidLabels ls → IsValidLabels (sort_labels ls)
sort_labels-IsValidLabels ls (all, once, few) = (
  sort_labels-All (λ s. is_label s ≡ true) ls all,
  λ x. omega (arith, sort_labels-tally x ls, once x),
  omega (arith, length-sort_labels ls, few),
)

module _ (o : Outside) where
  -- What holds of a job while its mapping is read.
  record JobInv (id : String) (seen : List String) (d : JobDraft) : Type 0 where
    id_kept : d.job.id ≡ id
    image_read : holds_key "image" seen ≡ true → IsImage d.job.image
    runs_on_read : IsValidLabels d.job.runs_on
    needs_read : IsValidNeeds d.job.needs
    timeout_read : Within min_job_timeout max_job_timeout d.job.timeout
    retries_read : Within (pos 0) (pos max_retries) d.job.retries
    env_read : IsValidEnv d.job.env
    steps_read : holds_key "steps" seen ≡ true → Given (λ (_ : YamlNode). Unit {0}) d.steps_node

  module _ (id : String) where
    set_image-Sound :
        (path : ByteString) (v : YamlNode) (seen : List String) (d : JobDraft)
        → IsSafePath path
        → Sound (set_image o path v d) (λ s. JobInv id seen d → JobInv id ("image" ∷ seen) s)
    unfolding set_image
    set_image-Sound path v seen d safe = Sound-bind _ (str-Sound path v safe) (λ found.
        Sound-with_some found _ _ (λ s.
          Sound-if _ (λ _. Sound-refuse _ _ _ _ safe)
            (λ h. Sound-pure _ (λ _ i.
              let parts = or_false _ _ h in
              record {
                id_kept = i.id_kept;
                image_read = λ _. (ground arith, is_image-Matches s (true_of_not _ parts.1));
                runs_on_read = i.runs_on_read;
                needs_read = i.needs_read;
                timeout_read = i.timeout_read;
                retries_read = i.retries_read;
                env_read = i.env_read;
                steps_read = i.steps_read;
              }))))

    set_runs_on-Sound :
        (path : ByteString) (v : YamlNode) (seen : List String) (d : JobDraft)
        → IsSafePath path
        → Sound (set_runs_on o path v d) (λ s. JobInv id seen d → JobInv id ("runs-on" ∷ seen) s)
    unfolding set_runs_on
    set_runs_on-Sound path v seen d safe =
        Sound-bind _ (str_list-Sound is_label bad_label path v max_labels safe) (λ ls.
          Sound-pure _ (λ good i. record {
            id_kept = i.id_kept;
            image_read = i.image_read;
            runs_on_read = sort_labels-IsValidLabels ls good;
            needs_read = i.needs_read;
            timeout_read = i.timeout_read;
            retries_read = i.retries_read;
            env_read = i.env_read;
            steps_read = i.steps_read;
          }))

    set_needs-Sound :
        (path : ByteString) (v : YamlNode) (seen : List String) (d : JobDraft)
        → IsSafePath path
        → Sound (set_needs o path v d) (λ s. JobInv id seen d → JobInv id ("needs" ∷ seen) s)
    unfolding set_needs
    set_needs-Sound path v seen d safe =
        Sound-bind _ (str_list-Sound is_job_id bad_need path v max_jobs safe) (λ ns.
          Sound-pure _ (λ good i. record {
            id_kept = i.id_kept;
            image_read = i.image_read;
            runs_on_read = i.runs_on_read;
            needs_read = good;
            timeout_read = i.timeout_read;
            retries_read = i.retries_read;
            env_read = i.env_read;
            steps_read = i.steps_read;
          }))

    set_timeout-Sound :
        (path : ByteString) (v : YamlNode) (seen : List String) (d : JobDraft)
        → IsSafePath path
        → Sound (set_timeout o path v d) (λ s. JobInv id seen d → JobInv id ("timeout" ∷ seen) s)
    unfolding set_timeout
    set_timeout-Sound path v seen d safe =
        Sound-bind _ (duration-Sound o.parse_duration path v _ _ safe) (λ found.
          Sound-with_some found _ _ (λ t. Sound-pure _ (λ good i. record {
            id_kept = i.id_kept;
            image_read = i.image_read;
            runs_on_read = i.runs_on_read;
            needs_read = i.needs_read;
            timeout_read = good;
            retries_read = i.retries_read;
            env_read = i.env_read;
            steps_read = i.steps_read;
          })))

    set_retries-Sound :
        (path : ByteString) (v : YamlNode) (seen : List String) (d : JobDraft)
        → IsSafePath path
        → Sound (set_retries o path v d) (λ s. JobInv id seen d → JobInv id ("retries" ∷ seen) s)
    unfolding set_retries
    set_retries-Sound path v seen d safe =
        Sound-bind _ (integer-Sound o.atoi path v _ _ safe) (λ found.
          Sound-with_some found _ _ (λ r. Sound-pure _ (λ good i. record {
            id_kept = i.id_kept;
            image_read = i.image_read;
            runs_on_read = i.runs_on_read;
            needs_read = i.needs_read;
            timeout_read = i.timeout_read;
            retries_read = good;
            env_read = i.env_read;
            steps_read = i.steps_read;
          })))

    set_job_env-Sound :
        (path : ByteString) (v : YamlNode) (seen : List String) (d : JobDraft)
        → IsSafePath path
        → Sound (set_job_env o path v d) (λ s. JobInv id seen d → JobInv id ("env" ∷ seen) s)
    unfolding set_job_env
    set_job_env-Sound path v seen d safe = Sound-bind _ (env-Sound path v safe) (λ e.
        Sound-pure _ (λ good i. record {
          id_kept = i.id_kept;
          image_read = i.image_read;
          runs_on_read = i.runs_on_read;
          needs_read = i.needs_read;
          timeout_read = i.timeout_read;
          retries_read = i.retries_read;
          env_read = good;
          steps_read = i.steps_read;
        }))

    set_steps-Sound :
        (path : ByteString) (v : YamlNode) (seen : List String) (d : JobDraft)
        → IsSafePath path
        → Sound (set_steps o path v d) (λ s. JobInv id seen d → JobInv id ("steps" ∷ seen) s)
    unfolding set_steps
    set_steps-Sound path v seen d safe = Sound-pure _ (λ i. record {
      id_kept = i.id_kept;
      image_read = i.image_read;
      runs_on_read = i.runs_on_read;
      needs_read = i.needs_read;
      timeout_read = i.timeout_read;
      retries_read = i.retries_read;
      env_read = i.env_read;
      steps_read = λ _. tt;
    })

    job_fields-Handles : All (Handles (JobInv id)) (job_fields o)
    job_fields-Handles = (
      set_image-Sound,
      (
        set_runs_on-Sound,
        (
          set_needs-Sound,
          (set_timeout-Sound, (set_retries-Sound, (set_job_env-Sound, (set_steps-Sound, tt)))),
        ),
      ),
    )

    new_job-JobInv : JobInv id [] (new_job o id)
    new_job-JobInv = record {
      id_kept = refl;
      image_read = λ h. cc;
      runs_on_read = (tt, λ x. omega arith, omega arith);
      needs_read = (tt, λ x. omega arith, omega arith);
      timeout_read = (refl, refl);
      retries_read = (refl, refl);
      env_read = (tt, λ x. omega arith, omega arith);
      steps_read = λ h. cc;
    }

    with_steps :
        (seen : List String) (d : JobDraft) (sts : List StepSpec)
        → is_job_id id ≡ true
        → JobInv id seen d
        → holds_key "image" seen ≡ true
        → AreSteps o d.job.timeout sts
        → IsValidJob o (record d.job { steps = sts })
    with_steps seen d sts named i h good = record {
      id = rw (i.id_kept) named;
      image = i.image_read h;
      runs_on = i.runs_on_read;
      needs = i.needs_read;
      timeout = i.timeout_read;
      retries = i.retries_read;
      env = i.env_read;
      steps = good.0;
      some_steps = good.1;
      few_steps = good.2;
    }

    read_steps-Sound :
        (path : ByteString) (d : JobDraft) (found : Option YamlNode)
        → o.is_format b'?' ≡ false
        → is_job_id id ≡ true
        → IsSafePath path
        → Sound
            (with_some found d.job λ v. do
              sts ← steps o (join path "steps") v d.job.timeout
              pure (record d.job { steps = sts }))
            (λ j.
              (seen : List String)
              → JobInv id seen d
              → holds_key "image" seen ≡ true
              → Given (λ (_ : YamlNode). Unit {0}) found
              → IsValidJob o j)
    unfolding with_some
    read_steps-Sound path d none plain named safe = Sound-pure d.job (λ seen i h e. absurd e)
    read_steps-Sound path d (some v) plain named safe =
        Sound-bind _
          (steps-Sound o (join path "steps") v d.job.timeout plain
            (join-IsSafePath path "steps" safe))
          (λ sts. Sound-pure _ (λ good seen i h _. with_steps seen d sts named i h good))

  pub job-Sound :
      (path : ByteString) (id : String) (n : YamlNode)
      → o.is_format b'?' ≡ false
      → is_job_id id ≡ true
      → IsSafePath path
      → Sound (job o path id n) (IsValidJob o)
  unfolding job
  job-Sound path id n plain named safe =
      Sound-bind _
        (mapping-Sound (JobInv id) path n (job_fields o) ("image" ∷ "steps" ∷ []) (new_job o id)
          (job_fields-Handles id) safe)
        (λ d. Sound-weaken (read_steps-Sound id path d d.steps_node plain named safe) (λ j read now.
          let (seen, inv, (image, (sts, _))) = now (new_job-JobInv id) in
          read seen inv image (inv.steps_read sts)))
