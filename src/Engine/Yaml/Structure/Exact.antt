-- ===== src/Engine/Yaml/Structure/Exact.antt =====
-- Exactly which trees `checkStructure` of parse.go lets through.
use kilnci.Base.{
  ℕ, suc, ◌+◌, ◌≤◌, max, Bool, true, false, not, ◌&&◌, ◌||◌, List, [], ◌∷◌, Option, none, some, ◌≡◌,
  ◌↔◌, inl, inr, refl, sym, ◌∙◌, subst, arith, if◌then◌else◌, ltb, string_eq, Bool-cases,
}
use kilnci.Engine.Texts.{has_expression, is_blank}
use kilnci.Engine.Yaml.{
  YamlNode, YamlNodes, node, nil, cons, Head, head, alias_node, scalar_node, mapping_node, entries,
  items, Message,
}
use kilnci.Engine.Yaml.Structure.{
  max_depth, max_nodes, Walk, stop, is_kind, is_merge_key, check_keys, fault, judged, inspect,
  resume, go_on, walk, walk_all, check_structure,
}

unfoldable mutual
  pub size : YamlNode → ℕ
  size (node h cs) = suc (size_all cs)

  pub size_all : YamlNodes → ℕ
  size_all nil = 0
  size_all (cons n ns) = size n + size_all ns

unfoldable mutual
  pub height : YamlNode → ℕ
  height (node h cs) = suc (height_all cs)

  pub height_all : YamlNodes → ℕ
  height_all nil = 0
  height_all (cons n ns) = max (height n) (height_all ns)

-- No anchor, alias, explicit tag or expression.
abbrev pub IsClean : Head → Type 0
IsClean h =
    ((is_kind h.kind alias_node || not (is_blank h.anchor)) ≡ false)
    × (h.tagged ≡ false)
    × ((is_kind h.kind scalar_node && has_expression h.value) ≡ false)

abbrev pub has_merge : List (YamlNode × YamlNode) → Bool
has_merge [] = false
has_merge ((k, v) ∷ rest) = if is_merge_key (head k) then true else has_merge rest

abbrev pub NoMerge : Head → YamlNodes → Type 0
NoMerge h cs = is_kind h.kind mapping_node ≡ true → has_merge (entries (items cs)) ≡ false

unfoldable mutual
  pub AllClean : YamlNode → Type 0
  AllClean (node h cs) = IsClean h × NoMerge h cs × AllCleanItems cs

  pub AllCleanItems : YamlNodes → Type 0
  AllCleanItems nil = Unit
  AllCleanItems (cons n ns) = AllClean n × AllCleanItems ns

check_keys-count : (ks : List (YamlNode × YamlNode)) (w : Walk) → (check_keys ks w).count ≡ w.count
unfolding check_keys stop
check_keys-count [] w = refl
check_keys-count ((k, v) ∷ rest) w = elim (Bool-cases (is_merge_key (head k))) [
  | inl t ↦ rw t
  | inr t ↦ rw t (check_keys-count rest w)
]

check_keys-valid :
    (ks : List (YamlNode × YamlNode)) (w : Walk)
    → w.valid ≡ true
    → ((check_keys ks w).valid ≡ true) ↔ (has_merge ks ≡ false)
unfolding check_keys stop
check_keys-valid [] w h = (λ _. refl, λ _. h)
check_keys-valid ((k, v) ∷ rest) w h = elim (Bool-cases (is_merge_key (head k))) [
  | inl t ↦ rw t (λ e. cc, λ e. cc)
  | inr t ↦ rw t (check_keys-valid rest w h)
]

judged-count :
    (f : Option Message) (h : Head) (cs : YamlNodes) (w : Walk) → (judged f h cs w).count ≡ w.count
unfolding judged stop
judged-count (some msg) h cs w = refl
judged-count none h cs w = elim (Bool-cases (is_kind h.kind mapping_node)) [
  | inl t ↦ rw t (check_keys-count (entries (items cs)) w)
  | inr t ↦ rw t
]

judged-valid :
    (f : Option Message) (h : Head) (cs : YamlNodes) (w : Walk)
    → w.valid ≡ true
    → ((judged f h cs w).valid ≡ true) ↔ ((f ≡ none) × NoMerge h cs)
unfolding judged stop
judged-valid (some msg) h cs w v = (λ e. cc, λ (e, _). cc)
judged-valid none h cs w v = elim (Bool-cases (is_kind h.kind mapping_node)) [
  | inl t ↦
      let keys = check_keys-valid (entries (items cs)) w v in
      rw t (λ e. (refl, λ _. keys.0 e), λ (_, m). keys.1 (m refl))
  | inr t ↦ rw t (λ e. (refl, λ f. cc), λ _. v)
]

first_fault :
    (p q a b c : Bool) (m1 m2 m3 m4 m5 : Message)
    → ((if p
          then some m1
          else if q
          then some m2
          else if a
          then some m3
          else if b
          then some m4
          else if c
          then some m5
          else none)
        ≡ none)
      ↔ ((p ≡ false) × (q ≡ false) × ((a ≡ false) × (b ≡ false) × (c ≡ false)))
first_fault true q a b c m1 m2 m3 m4 m5 = (λ e. cc, λ (x, y, z). cc)
first_fault false true a b c m1 m2 m3 m4 m5 = (λ e. cc, λ (x, y, z). cc)
first_fault false false true b c m1 m2 m3 m4 m5 = (λ e. cc, λ (x, y, z). absurd (let f = z.0 in cc))
first_fault false false false true c m1 m2 m3 m4 m5 =
    (λ e. cc, λ (x, y, z). absurd (let f = z.1 in cc))
first_fault false false false false true m1 m2 m3 m4 m5 =
    (λ e. cc, λ (x, y, z). absurd (let f = z.2 in cc))
first_fault false false false false false m1 m2 m3 m4 m5 =
    (λ e. (refl, refl, (refl, refl, refl)), λ z. refl)

fault-none :
    (count depth : ℕ) (h : Head)
    → (fault count depth h ≡ none) ↔ ((count ≤ max_nodes) × (depth ≤ max_depth) × IsClean h)
unfolding fault
fault-none count depth h =
    let tests = first_fault (ltb max_nodes count) (ltb max_depth depth) _ _ _ _ _ _ _ _ in
    (
      λ e. let (p, q, clean) = tests.0 e in (ground arith, ground arith, clean),
      λ (few, near, clean). tests.1 (ground arith, ground arith, clean),
    )

resume-true : (b : Bool) (w : Walk) (next : Walk → Walk) → b ≡ true → resume b w next ≡ next w
unfolding resume
resume-true true w next h = refl
resume-true false w next h = cc

resume-false : (b : Bool) (w : Walk) (next : Walk → Walk) → b ≡ false → resume b w next ≡ w
unfolding resume
resume-false true w next h = cc
resume-false false w next h = refl

walk_skips : (n : YamlNode) (depth : ℕ) (w : Walk) → w.valid ≡ false → walk depth n w ≡ w
unfolding walk go_on
walk_skips (node k cs) depth w h = resume-false w.valid w _ h

walk_all-invalid :
    (ns : YamlNodes) (depth : ℕ) (w : Walk) → w.valid ≡ false → (walk_all depth ns w).valid ≡ false
unfolding walk_all
walk_all-invalid nil depth w h = h
walk_all-invalid (cons n ns) depth w h =
    subst (λ v. (walk_all depth ns v).valid ≡ false) (sym (walk_skips n depth w h))
      (walk_all-invalid ns depth w h)

-- What a visit asks for, from a number of nodes and a depth on.
record Fits (count depth nodes levels : ℕ) (Clean : Type 0) : Type 0 where
  few : count + nodes ≤ max_nodes
  flat : depth + levels ≤ suc max_depth
  clean : Clean

record Exact (w v : Walk) (depth nodes levels : ℕ) (Clean : Type 0) : Type 0 where
  only_if : v.valid ≡ true → Fits w.count depth nodes levels Clean
  counted : v.valid ≡ true → v.count ≡ w.count + nodes
  fits : Fits w.count depth nodes levels Clean → v.valid ≡ true

mutual
  unfolding walk walk_all go_on inspect size size_all height height_all AllClean AllCleanItems

  walk-Exact :
      (n : YamlNode) (depth : ℕ) (w : Walk)
      → w.valid ≡ true
      → Exact w (walk depth n w) depth (size n) (height n) (AllClean n)
  walk-Exact (node h cs) depth w t =
      let counted = record w { count = suc w.count } in
      let v = inspect depth h cs w in
      let counts = judged-count (fault (suc w.count) depth h) h cs counted in
      let judges = judged-valid (fault (suc w.count) depth h) h cs counted t in
      let faults = fault-none (suc w.count) depth h in
      rw (resume-true w.valid w _ t) (elim (Bool-cases v.valid) [
        | inl good ↦
            let (no_fault, no_merge) = judges.0 good in
            let (few, near, clean) = faults.0 no_fault in
            let below =
              walk_all-Exact cs (suc depth) v good (omega (arith, counts)) (omega arith) in
            rw (resume-true v.valid v _ good) (record {
              only_if = λ e.
                  let f = below.only_if e in
                  record {
                    few = omega (arith, f.few, counts);
                    flat = omega (arith, f.flat);
                    clean = (clean, no_merge, f.clean);
                  };
              counted = λ e. omega (arith, below.counted e, counts);
              fits = λ f. below.fits (record {
                few = omega (arith, f.few, counts);
                flat = omega (arith, f.flat);
                clean = f.clean.2;
              });
            })
        | inr bad ↦ rw (resume-false v.valid v _ bad) (record {
          only_if = λ e. absurd (let x : true ≡ false = sym e ∙ bad in cc);
          counted = λ e. absurd (let x : true ≡ false = sym e ∙ bad in cc);
          fits = λ f.
              judges.1
                (faults.1 (omega (arith, f.few), omega (arith, f.flat), f.clean.0), f.clean.1);
        })
      ])

  walk_all-Exact :
      (ns : YamlNodes) (depth : ℕ) (w : Walk)
      → w.valid ≡ true
      → w.count ≤ max_nodes
      → depth ≤ suc max_depth
      → Exact w (walk_all depth ns w) depth (size_all ns) (height_all ns) (AllCleanItems ns)
  walk_all-Exact nil depth w t few near = record {
    only_if = λ e. record { few = omega arith; flat = omega arith; clean = tt };
    counted = λ e. omega arith;
    fits = λ f. t;
  }
  walk_all-Exact (cons n ns) depth w t few near =
      let v = walk depth n w in
      let first = walk-Exact n depth w t in
      elim (Bool-cases v.valid) [
        | inl good ↦
            let f = first.only_if good in
            let counts = first.counted good in
            let later = walk_all-Exact ns depth v good (omega (arith, f.few, counts)) near in
            record {
              only_if = λ e.
                  let g = later.only_if e in
                  record {
                    few = omega (arith, g.few, counts);
                    flat = omega (arith, f.flat, g.flat);
                    clean = (f.clean, g.clean);
                  };
              counted = λ e. omega (arith, later.counted e, counts);
              fits = λ g. later.fits (record {
                few = omega (arith, g.few, counts);
                flat = omega (arith, g.flat);
                clean = g.clean.1;
              });
            }
        | inr bad ↦
            let ends = walk_all-invalid ns depth v bad in
            record {
              only_if = λ e. absurd (let x : true ≡ false = sym e ∙ ends in cc);
              counted = λ e. absurd (let x : true ≡ false = sym e ∙ ends in cc);
              fits = λ g.
                  let good = first.fits (record {
                    few = omega (arith, g.few);
                    flat = omega (arith, g.flat);
                    clean = g.clean.0;
                  }) in
                  absurd (let x : true ≡ false = sym good ∙ bad in cc);
            }
      ]

-- The structural check passes exactly the documents with at most 20000 nodes, at most 20 levels below
-- the root, and no anchor, alias, explicit tag, expression or merge key in any node. An explicit tag of
-- the core schema, such as `!!str`, is refused as any other is.
pub check_structure_iff :
    (root : YamlNode)
    → ((check_structure root []).0 ≡ true)
      ↔ ((size root ≤ max_nodes) × (height root ≤ suc max_depth) × AllClean root)
unfolding check_structure
check_structure_iff root =
    let exact = walk-Exact root 0 (record { count = 0; valid = true; problems = [] }) refl in
    (
      λ e. let f = exact.only_if e in (omega (arith, f.few), omega (arith, f.flat), f.clean),
      λ (few, flat, clean).
          exact.fits (record { few = omega arith; flat = omega arith; clean = clean }),
    )
