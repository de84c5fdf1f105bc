-- ===== src/Engine/Parse/Valid/Steps.antt =====
-- Steps and jobs that parse.go reads without a problem are valid.
use kilnci.Base.{
  ℕ, suc, ◌+◌, ◌≤◌, Bool, true, false, ◌||◌, List, [], ◌∷◌, ◌++◌, ◌≡◌, inl, inr, refl, arith,
  length, length-append, All, String, ByteString, holds_key, nat_eq, string_eq, is_empty,
  Bool-cases,
}
use kilnci.Base.Int.{ℤ, pos}
use kilnci.Engine.Texts.{is_blank}
use kilnci.Engine.Yaml.{YamlNode, at_index}
use kilnci.Engine.Yaml.Rules.{
  IsSafePath, Sound, Sound-pure, Sound-if, Sound-bind, Sound-weaken, Sound-refuse,
  at_index-IsSafePath,
}
use kilnci.Engine.Yaml.Walkers.{
  scalar-Sound, str-Sound, duration-Sound, list-Sound, Handles, mapping-Sound, Sound-with_some,
}
use kilnci.Engine.Parse.{Outside, StepSpec, max_steps}
use kilnci.Engine.Parse.Fields.{IsValidEnv, env-Sound}
use kilnci.Engine.Parse.Jobs.{
  set_name, set_script, set_step_env, set_step_timeout, step_fields, named, step_items, steps,
}
use kilnci.Engine.Parse.Valid.{IsScript, IsName, IsTimeout, IsValidStep}
use kilnci.Engine.Parse.Valid.Names.{named-IsName}

pub or_false : (a b : Bool) → a || b ≡ false → (a ≡ false) × (b ≡ false)
or_false true b h = cc
or_false false b h = (refl, h)

pub not_empty : {A : Type 0} (xs : List A) → is_empty xs ≡ false → 1 ≤ length xs
not_empty [] h = cc
not_empty (x ∷ xs) h = omega arith

named_rest :
    (o : Outside) (st : StepSpec)
    → ((named o st).script ≡ st.script)
      × ((named o st).env ≡ st.env)
      × ((named o st).timeout ≡ st.timeout)
unfolding named
named_rest o st = elim (Bool-cases (is_blank st.name)) [
  | inl t ↦ rw t (refl, refl, refl)
  | inr t ↦ rw t (refl, refl, refl)
]

module _ (o : Outside) where
  module _ (job_timeout : ℤ) where
    -- What holds of a step while its mapping is read.
    record StepInv (seen : List String) (st : StepSpec) : Type 0 where
      name_read : is_blank st.name ≡ false → IsName o st.name
      script_read : holds_key "run" seen ≡ true → IsScript st.script
      env_read : IsValidEnv st.env
      timeout_read : IsTimeout job_timeout st.timeout

    set_name-Sound :
        (path : ByteString) (v : YamlNode) (seen : List String) (st : StepSpec)
        → IsSafePath path
        → Sound (set_name o path v st) (λ s. StepInv seen st → StepInv ("name" ∷ seen) s)
    unfolding set_name
    set_name-Sound path v seen st safe = Sound-bind _ (scalar-Sound path v safe) (λ found.
        Sound-with_some found _ _ (λ s.
          Sound-if _ (λ _. Sound-refuse _ _ _ _ safe)
            (λ h. Sound-pure _ (λ _ i.
              let parts = or_false _ _ h in
              let front = or_false _ _ parts.0 in
              record {
                name_read = λ _. (front.0, ground arith, parts.1);
                script_read = i.script_read;
                env_read = i.env_read;
                timeout_read = i.timeout_read;
              }))))

    set_script-Sound :
        (path : ByteString) (v : YamlNode) (seen : List String) (st : StepSpec)
        → IsSafePath path
        → Sound (set_script o path v st) (λ s. StepInv seen st → StepInv ("run" ∷ seen) s)
    unfolding set_script
    set_script-Sound path v seen st safe = Sound-bind _ (str-Sound path v safe) (λ found.
        Sound-with_some found _ _ (λ s.
          Sound-if _ (λ _. Sound-refuse _ _ _ _ safe)
            (λ h. Sound-pure _ (λ _ i.
              let parts = or_false _ _ h in
              record {
                name_read = i.name_read;
                script_read = λ _. (parts.0, ground arith);
                env_read = i.env_read;
                timeout_read = i.timeout_read;
              }))))

    set_step_env-Sound :
        (path : ByteString) (v : YamlNode) (seen : List String) (st : StepSpec)
        → IsSafePath path
        → Sound (set_step_env o path v st) (λ s. StepInv seen st → StepInv ("env" ∷ seen) s)
    unfolding set_step_env
    set_step_env-Sound path v seen st safe = Sound-bind _ (env-Sound path v safe) (λ e.
        Sound-pure _ (λ good i. record {
          name_read = i.name_read;
          script_read = i.script_read;
          env_read = good;
          timeout_read = i.timeout_read;
        }))

    set_step_timeout-Sound :
        (path : ByteString) (v : YamlNode) (seen : List String) (st : StepSpec)
        → IsSafePath path
        → Sound
            (set_step_timeout o job_timeout path v st)
            (λ s. StepInv seen st → StepInv ("timeout" ∷ seen) s)
    unfolding set_step_timeout
    set_step_timeout-Sound path v seen st safe =
        Sound-bind _ (duration-Sound o.parse_duration path v _ _ safe) (λ found.
          Sound-with_some found _ _ (λ d. Sound-pure _ (λ good i. record {
            name_read = i.name_read;
            script_read = i.script_read;
            env_read = i.env_read;
            timeout_read = inr good;
          })))

    step_fields-Handles : All (Handles StepInv) (step_fields o job_timeout)
    step_fields-Handles =
        (set_name-Sound, (set_script-Sound, (set_step_env-Sound, (set_step_timeout-Sound, tt))))

    new_step-StepInv : StepInv [] (record { name = ""; script = ""; env = []; timeout = pos 0 })
    new_step-StepInv = record {
      name_read = λ h. cc;
      script_read = λ h. cc;
      env_read = (tt, λ x. omega arith, omega arith);
      timeout_read = inl refl;
    }

    named-IsValidStep :
        (seen : List String) (st : StepSpec)
        → o.is_format b'?' ≡ false
        → StepInv seen st
        → holds_key "run" seen ≡ true
        → IsValidStep o job_timeout (named o st)
    named-IsValidStep seen st plain i h =
        let rest = named_rest o st in
        record {
          name = named-IsName o st plain i.name_read;
          script = rw (rest.0) (i.script_read h);
          env = rw (rest.1) i.env_read;
          timeout = rw (rest.2) i.timeout_read;
        }

    All-snoc :
        (sts : List StepSpec) (st : StepSpec)
        → All (IsValidStep o job_timeout) sts
        → IsValidStep o job_timeout st
        → All (IsValidStep o job_timeout) (sts ++ st ∷ [])
    All-snoc [] st h p = (p, tt)
    All-snoc (s ∷ sts) st h p = (h.0, All-snoc sts st h.1 p)

    step_items-Sound :
        (path : ByteString) (i : ℕ) (ns : List YamlNode) (out : List StepSpec)
        → o.is_format b'?' ≡ false
        → IsSafePath path
        → Sound (step_items o path job_timeout i ns out) (λ r.
          (All (IsValidStep o job_timeout) out → All (IsValidStep o job_timeout) r)
          × (length r ≡ length out + length ns))
    unfolding step_items
    step_items-Sound path i [] out plain safe = Sound-pure out (λ a. a, omega arith)
    step_items-Sound path i (it ∷ rest) out plain safe =
        Sound-bind _
          (mapping-Sound StepInv (at_index path i) it (step_fields o job_timeout) ("run" ∷ []) _
            step_fields-Handles (at_index-IsSafePath path i safe))
          (λ st.
            Sound-weaken (step_items-Sound path (suc i) rest (out ++ named o st ∷ []) plain safe)
              (λ r later now.
                let (seen, inv, (run, _)) = now new_step-StepInv in
                (
                  λ a. later.0 (All-snoc out _ a (named-IsValidStep seen st plain inv run)),
                  omega (arith, later.1, length-append out (named o st ∷ [])),
                )))

  -- The steps of a job are valid for its timeout, and between 1 and 100 of them.
  abbrev pub AreSteps : ℤ → List StepSpec → Type 0
  AreSteps job_timeout sts =
      All (IsValidStep o job_timeout) sts × (1 ≤ length sts) × (length sts ≤ max_steps)

  pub steps-Sound :
      (path : ByteString) (n : YamlNode) (job_timeout : ℤ)
      → o.is_format b'?' ≡ false
      → IsSafePath path
      → Sound (steps o path n job_timeout) (AreSteps job_timeout)
  unfolding steps
  steps-Sound path n job_timeout plain safe =
      Sound-bind _ (list-Sound path n max_steps safe) (λ found. Sound-with_some found _ _ (λ its.
        Sound-if _ (λ _. Sound-refuse _ _ _ _ safe)
          (λ some_items.
            Sound-weaken (step_items-Sound job_timeout path 0 its [] plain safe) (λ r read few. (
              read.0 tt,
              omega (arith, read.1, not_empty its some_items),
              omega (arith, read.1, few),
            )))))
