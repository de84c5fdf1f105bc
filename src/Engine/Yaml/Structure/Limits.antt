-- ===== src/Engine/Yaml/Structure/Limits.antt =====
-- What `checkStructure` of parse.go accepts, and what it reports.
use kilnci.Base.{
  ℕ, suc, Bool, true, false, List, [], ◌∷◌, Option, none, some, ◌≡◌, refl, if◌then◌else◌, string_eq,
}
use kilnci.Engine.Yaml.{
  YamlNode, YamlNodes, node, nil, cons, Head, head, mapping_node, entries, items, Message,
}
use kilnci.Engine.Yaml.Rules.{Good, Sound, Sound-fail}
use kilnci.Engine.Yaml.Structure.{
  Walk, stop, is_kind, is_merge_key, check_keys, fault, judged, inspect, resume, go_on, walk,
  walk_all, check_structure,
}

-- A step of the walk reports whatever makes it invalid.
record Honest (w v : Walk) : Type 0 where
  silent : v.problems ≡ [] → (w.problems ≡ []) × (w.valid ≡ true → v.valid ≡ true)
  tidy : Good w.problems → Good v.problems

Honest-refl : (w : Walk) → Honest w w
Honest-refl w = record { silent = λ e. (e, λ h. h); tidy = λ g. g }

Honest-trans : (u v w : Walk) → Honest u v → Honest v w → Honest u w
Honest-trans u v w h k = record {
  silent = λ e. let a = k.silent e in let b = h.silent a.0 in (b.0, λ t. a.1 (b.1 t));
  tidy = λ g. k.tidy (h.tidy g);
}

Honest-stop : (line : ℕ) (msg : Message) (w : Walk) → Honest w (stop line msg w)
unfolding stop
Honest-stop line msg w =
    let failing = Sound-fail {Q = λ _. ⊥} [] line msg refl in
    record {
      silent = λ e. absurd ((failing.quiet w.problems e).1);
      tidy = failing.keeps w.problems;
    }

Honest-if : (b : Bool) (u v w : Walk) → Honest u v → Honest u w → Honest u (if b then v else w)
Honest-if true u v w h k = h
Honest-if false u v w h k = k

Honest-check_keys : (ks : List (YamlNode × YamlNode)) (w : Walk) → Honest w (check_keys ks w)
unfolding check_keys
Honest-check_keys [] w = Honest-refl w
Honest-check_keys ((k, v) ∷ rest) w =
    Honest-if (is_merge_key (head k)) w _ _ (Honest-stop _ _ w) (Honest-check_keys rest w)

Honest-judged :
    (f : Option Message) (h : Head) (cs : YamlNodes) (w : Walk) → Honest w (judged f h cs w)
unfolding judged
Honest-judged (some msg) h cs w = Honest-stop h.line msg w
Honest-judged none h cs w =
    Honest-if (is_kind h.kind mapping_node) w _ _ (Honest-check_keys (entries (items cs)) w)
      (Honest-refl w)

Honest-inspect :
    (depth : ℕ) (h : Head) (cs : YamlNodes) (w : Walk) → Honest w (inspect depth h cs w)
unfolding inspect
Honest-inspect depth h cs w =
    let counted = record w { count = suc w.count } in
    Honest-trans w counted _ (record { silent = λ e. (e, λ t. t); tidy = λ g. g })
      (Honest-judged (fault (suc w.count) depth h) h cs counted)

Honest-go_on :
    (b : Bool) (u w : Walk) (next : Walk → Walk)
    → Honest u w
    → ((v : Walk) → Honest v (next v))
    → Honest u (resume b w next)
unfolding resume
Honest-go_on true u w next h k = Honest-trans u w (next w) h (k w)
Honest-go_on false u w next h k = h

mutual
  unfolding walk walk_all go_on

  Honest-walk : (n : YamlNode) (depth : ℕ) (w : Walk) → Honest w (walk depth n w)
  Honest-walk (node h cs) depth w = Honest-go_on w.valid w w _ (Honest-refl w) (λ v.
      Honest-go_on _ v (inspect depth h cs v) _ (Honest-inspect depth h cs v)
        (Honest-walk_all cs (suc depth)))

  Honest-walk_all : (ns : YamlNodes) (depth : ℕ) (w : Walk) → Honest w (walk_all depth ns w)
  Honest-walk_all nil depth w = Honest-refl w
  Honest-walk_all (cons n ns) depth w =
      Honest-trans w (walk depth n w) _ (Honest-walk n depth w)
        (Honest-walk_all ns depth (walk depth n w))

-- A document that is refused has a problem.
pub check_structure-Sound : (root : YamlNode) → Sound (check_structure root) (λ fine. fine ≡ true)
unfolding check_structure
check_structure-Sound root = record {
  quiet = λ ps e.
      let honest = Honest-walk root 0 (record { count = 0; valid = true; problems = ps }) in
      let s = honest.silent e in (s.0, s.1 refl);
  keeps = λ ps g. (Honest-walk root 0 (record { count = 0; valid = true; problems = ps })).tidy g;
}
