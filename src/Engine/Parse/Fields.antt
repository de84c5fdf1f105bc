-- ===== src/Engine/Parse/Fields.antt =====
-- What the environment and the triggers are when parse.go reports nothing about them.
use kilnci.Base.{
  ℕ, suc, ◌+◌, ◌/◌, ◌≤◌, true, false, List, [], ◌∷◌, ◌++◌, Option, none, some, ◌≡◌, inl, inr, refl,
  arith, length, length-append, map, All, String, ByteString, holds_key, tally, tally-append,
  nat_eq, string_eq, Bool-cases, ==_cases,
}
use kilnci.Engine.Spec.{Triggers, BranchFilter}
use kilnci.Engine.Texts.{utf8, is_env_key, is_reserved}
use kilnci.Engine.Yaml.{YamlNode, head, content, entries}
use kilnci.Engine.Yaml.Rules.{
  IsSafePath, Sound, Sound-pure, Sound-if, Sound-bind, Sound-weaken, Sound-refuse, join-IsSafePath,
}
use kilnci.Engine.Yaml.Walkers.{
  scalar-Sound, NoRepeats, str_list-Sound, Handles, mapping-Sound, Sound-with_some, length-entries,
  true_of_not,
}
use kilnci.Engine.Parse.{
  Outside, EnvVar, max_env, max_patterns, is_pattern, max_env_value_bytes, less, insert_var,
  sort_vars, env_value, env_entry, env_entries, env, set_branches, branch_filter, filter_fields,
  set_push, set_pull_request, trigger_fields, triggers,
}

-- A name that a variable may have, and a value that is not too large.
abbrev pub IsVar : EnvVar → Type 0
IsVar v =
    (is_env_key v.name ≡ true)
    × (is_reserved v.name ≡ false)
    × (length (utf8 v.value) ≤ max_env_value_bytes)

abbrev pub names : List EnvVar → List String
names [] = []
names (v ∷ vs) = v.name ∷ names vs

abbrev pub IsValidEnv : List EnvVar → Type 0
IsValidEnv vs = All IsVar vs × NoRepeats (names vs) × (length vs ≤ max_env)

names-append : (vs ws : List EnvVar) → names (vs ++ ws) ≡ names vs ++ names ws
names-append [] ws = refl
names-append (v ∷ vs) ws = rw (names-append vs ws)

All-snoc :
    (P : EnvVar → Type 0) (vs : List EnvVar) (v : EnvVar) → All P vs → P v → All P (vs ++ v ∷ [])
All-snoc P [] v h p = (p, tt)
All-snoc P (w ∷ vs) v h p = (h.0, All-snoc P vs v h.1 p)

-- Each variable so far is valid, and its name is among those seen.
abbrev EnvInv : List EnvVar × List String → Type 0
EnvInv r =
    All IsVar r.0
    × NoRepeats (names r.0)
    × ((x : String) → holds_key x r.1 ≡ false → tally x (names r.0) ≡ 0)

unseen :
    (x key : String) (seen : List String)
    → holds_key x (key ∷ seen) ≡ false
    → holds_key x seen ≡ false
unseen x key seen h = elim (==_cases key x) [
  | inl (t, e) ↦ absurd (let f : true ≡ false = rw t at h in cc)
  | inr (t, ne) ↦ rw t at h
]

EnvInv-add :
    (out : List EnvVar) (seen : List String) (v : EnvVar)
    → holds_key v.name seen ≡ false
    → IsVar v
    → EnvInv (out, seen)
    → EnvInv (out ++ v ∷ [], v.name ∷ seen)
EnvInv-add out seen v new ok_var (all, once, known) = (
  All-snoc IsVar out v all ok_var,
  λ x. elim (==_cases v.name x) [
    | inl (t, e) ↦
        let none_yet : tally x (names out) ≡ 0 = known x (rw (← e) new) in
        rw (names-append out (v ∷ []), tally-append x (names out) (v.name ∷ []), t, none_yet)
          (omega arith)
    | inr (t, ne) ↦
        rw (names-append out (v ∷ []), tally-append x (names out) (v.name ∷ []), t)
          (omega (arith, once x))
  ],
  λ x h. elim (==_cases v.name x) [
    | inl (t, e) ↦ absurd (let f : true ≡ false = rw t at h in cc)
    | inr (t, ne) ↦
        rw (names-append out (v ∷ []), tally-append x (names out) (v.name ∷ []), t)
          (omega (arith, known x (rw t at h)))
  ],
)

-- One more entry at most, and the invariant is kept.
abbrev Step : List EnvVar × List String → ℕ → List EnvVar × List String → Type 0
Step vars n r = (EnvInv vars → EnvInv r) × (length r.0 ≤ length vars.0 + n)

env_value-Sound :
    (child : ByteString) (key : String) (v : YamlNode) (out : List EnvVar) (seen : List String)
    → is_env_key key ≡ true
    → is_reserved key ≡ false
    → holds_key key seen ≡ false
    → IsSafePath child
    → Sound (env_value child key v (out, seen)) (Step (out, seen) 1)
unfolding env_value
env_value-Sound child key v out seen named free new safe =
    Sound-bind _ (scalar-Sound child v safe) (λ o. Sound-with_some o _ _ (λ val.
      Sound-if _ (λ _. Sound-refuse _ _ _ _ safe)
        (λ small. Sound-pure _ (λ _. (
          λ i.
              EnvInv-add out seen (record { name = key; value = val }) new
                (named, free, ground arith) i,
          omega (arith, length-append out ((record { name = key; value = val }) ∷ [])),
        )))))

env_entry-Sound :
    (path : ByteString) (k v : YamlNode) (vars : List EnvVar × List String)
    → IsSafePath path
    → Sound (env_entry path k v vars) (Step vars 1)
unfolding env_entry
env_entry-Sound path k v (out, seen) safe =
    let child = join-IsSafePath path (head k).value safe in
    Sound-if _ (λ _. Sound-refuse _ _ _ _ safe)
      (λ _.
        Sound-if _ (λ _. Sound-refuse _ _ _ _ safe)
          (λ named.
            Sound-if _ (λ _. Sound-refuse _ _ _ _ child)
              (λ free.
                Sound-if _ (λ _. Sound-refuse _ _ _ _ child)
                  (λ new. env_value-Sound _ _ v out seen (true_of_not _ named) free new child))))

env_entries-Sound :
    (path : ByteString) (rest : List (YamlNode × YamlNode)) (vars : List EnvVar × List String)
    → IsSafePath path
    → Sound (env_entries path rest vars) (Step vars (length rest))
unfolding env_entries
env_entries-Sound path [] vars safe = Sound-pure vars (λ i. i, omega arith)
env_entries-Sound path ((k, v) ∷ rest) vars safe =
    Sound-bind _ (env_entry-Sound path k v vars safe) (λ mid.
      Sound-weaken (env_entries-Sound path rest mid safe)
        (λ r later now. (λ i. later.0 (now.0 i), omega (arith, later.1, now.1))))

insert_var-names :
    (x : String) (v : EnvVar) (vs : List EnvVar)
    → tally x (names (insert_var v vs)) ≡ tally x (v.name ∷ names vs)
unfolding insert_var
insert_var-names x v [] = refl
insert_var-names x v (w ∷ ws) = elim (Bool-cases (less w.name v.name)) [
  | inl t ↦ rw t (omega (arith, insert_var-names x v ws))
  | inr t ↦ rw t
]

sort_vars-names :
    (x : String) (vs : List EnvVar) → tally x (names (sort_vars vs)) ≡ tally x (names vs)
unfolding sort_vars
sort_vars-names x [] = refl
sort_vars-names x (v ∷ vs) =
    omega (arith, insert_var-names x v (sort_vars vs), sort_vars-names x vs)

insert_var-All :
    (P : EnvVar → Type 0) (v : EnvVar) (vs : List EnvVar) → P v → All P vs → All P (insert_var v vs)
unfolding insert_var
insert_var-All P v [] p h = (p, tt)
insert_var-All P v (w ∷ ws) p h = elim (Bool-cases (less w.name v.name)) [
  | inl t ↦ rw t (h.0, insert_var-All P v ws p h.1)
  | inr t ↦ rw t (p, (h.0, h.1))
]

sort_vars-All : (P : EnvVar → Type 0) (vs : List EnvVar) → All P vs → All P (sort_vars vs)
unfolding sort_vars
sort_vars-All P [] h = tt
sort_vars-All P (v ∷ vs) h = insert_var-All P v (sort_vars vs) h.0 (sort_vars-All P vs h.1)

length-insert_var : (v : EnvVar) (vs : List EnvVar) → length (insert_var v vs) ≡ suc (length vs)
unfolding insert_var
length-insert_var v [] = refl
length-insert_var v (w ∷ ws) = elim (Bool-cases (less w.name v.name)) [
  | inl t ↦ rw t (omega (arith, length-insert_var v ws))
  | inr t ↦ rw t
]

length-sort_vars : (vs : List EnvVar) → length (sort_vars vs) ≡ length vs
unfolding sort_vars
length-sort_vars [] = refl
length-sort_vars (v ∷ vs) = omega (arith, length-insert_var v (sort_vars vs), length-sort_vars vs)

pub env-Sound : (path : ByteString) (n : YamlNode) → IsSafePath path → Sound (env path n) IsValidEnv
unfolding env
env-Sound path n safe =
    Sound-if _ (λ _. Sound-refuse _ _ _ _ safe)
      (λ _.
        Sound-if _ (λ _. Sound-refuse _ _ _ _ safe)
          (λ few. Sound-bind _ (env_entries-Sound path (entries (content n)) ([], []) safe) (λ r.
            Sound-pure _ (λ step.
              let inv = step.0 (tt, λ x. omega arith, λ x _. refl) in
              let at_most : length (content n) / 2 ≤ max_env = ground arith in
              (
                sort_vars-All IsVar r.0 inv.0,
                λ x. omega (arith, sort_vars-names x r.0, inv.1 x),
                omega (arith, length-sort_vars r.0, step.1, length-entries (content n), at_most),
              )))))

module _ (o : Outside) where
  -- The patterns of a filter are short texts without control characters, and differ.
  abbrev pub IsFilter : BranchFilter → Type 0
  IsFilter f =
      (bs : List String) × (f.branches ≡ map utf8 bs)
      × All (λ s. is_pattern o s ≡ true) bs
      × NoRepeats bs
      × (length bs ≤ max_patterns)

  -- `P` of a value that is there.
  abbrev pub If : {A : Type 0} → (A → Type 0) → Option A → Type 0
  If P none = Unit
  If P (some a) = P a

  abbrev pub IsValidTriggers : Triggers → Type 0
  IsValidTriggers t = If IsFilter t.push × If IsFilter t.pull_request

  empty-IsFilter : IsFilter (record { branches = [] })
  empty-IsFilter = ([], refl, tt, λ x. omega arith, omega arith)

  filter_fields-Handles : All (Handles (λ seen f. IsFilter f)) (filter_fields o)
  unfolding set_branches
  filter_fields-Handles = (
    λ path v seen s safe.
        Sound-bind _ (str_list-Sound (is_pattern o) _ path v max_patterns safe)
          (λ bs. Sound-pure _ (λ (all, once, few) i. (bs, refl, all, once, few))),
    tt,
  )

  branch_filter-Sound :
      (path : ByteString) (v : YamlNode) → IsSafePath path → Sound (branch_filter o path v) IsFilter
  unfolding branch_filter
  branch_filter-Sound path v safe =
      Sound-if _ (λ _. Sound-pure _ empty-IsFilter)
        (λ _.
          Sound-weaken
            (mapping-Sound (λ seen f. IsFilter f) path v (filter_fields o) [] _
              filter_fields-Handles safe)
            (λ f r. (r empty-IsFilter).1))

  trigger_fields-Handles : All (Handles (λ seen t. IsValidTriggers t)) (trigger_fields o)
  unfolding set_push set_pull_request
  trigger_fields-Handles = (
    λ path v seen t safe.
        Sound-bind _ (branch_filter-Sound path v safe) (λ f. Sound-pure _ (λ good i. (good, i.1))),
    (
      λ path v seen t safe.
          Sound-bind _ (branch_filter-Sound path v safe)
            (λ f. Sound-pure _ (λ good i. (i.0, good))),
      tt,
    ),
  )

  pub triggers-Sound :
      (path : ByteString) (n : YamlNode)
      → IsSafePath path
      → Sound (triggers o path n) IsValidTriggers
  unfolding triggers
  triggers-Sound path n safe =
      Sound-weaken
        (mapping-Sound (λ seen t. IsValidTriggers t) path n (trigger_fields o) [] _
          trigger_fields-Handles safe)
        (λ t r. (r (tt, tt)).1)
