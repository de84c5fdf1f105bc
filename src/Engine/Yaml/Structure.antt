-- ===== src/Engine/Yaml/Structure.antt =====
-- The limits on the whole tree: `checkStructure` of server/internal/engine/spec/parse.go.
pub mod Limits
pub mod Exact
use kilnci.Base.{
  ℕ, zero, suc, ◌+◌, Bool, true, false, not, ◌&&◌, ◌||◌, List, [], ◌∷◌, Option, none, some, ◌==◌,
  if◌then◌else◌, ltb, String, string_eq,
}
use kilnci.Engine.Texts.{has_expression, is_blank}
use kilnci.Engine.Yaml.{
  YamlNode, YamlNodes, node, nil, cons, Head, head, NodeKind, alias_node, scalar_node, mapping_node,
  entries, items, Message, Problem, Parser, pure, fail_at, too_many_nodes, too_deep, has_anchor,
  has_tag, has_expressions, has_merge_key,
}

abbrev pub max_depth : ℕ
max_depth = 20

abbrev pub max_nodes : ℕ
max_nodes = 20000

-- The variables of the closure `walk`, and the problems.
pub record Walk : Type 0 where
  pub count : ℕ
  pub valid : Bool
  pub problems : List Problem

stop : ℕ → Message → Walk → Walk
stop line msg w = record w { valid = false; problems = (fail_at [] line msg w.problems).1 }

abbrev pub is_kind : NodeKind → NodeKind → Bool
is_kind NodeKind.alias_node NodeKind.alias_node = true
is_kind NodeKind.scalar_node NodeKind.scalar_node = true
is_kind NodeKind.mapping_node NodeKind.mapping_node = true
is_kind NodeKind.sequence_node NodeKind.sequence_node = true
is_kind NodeKind.document_node NodeKind.document_node = true
is_kind _ _ = false

-- `<<` as a plain key.
abbrev pub is_merge_key : Head → Bool
is_merge_key k = is_kind k.kind scalar_node && k.value == "<<" && k.plain

check_keys : List (YamlNode × YamlNode) → Walk → Walk
unfolding stop
check_keys [] w = w
check_keys ((k, v) ∷ rest) w =
    let later = check_keys rest w in
    if is_merge_key (head k) then stop (head k).line has_merge_key w else later

-- The cases of the switch, on the number of nodes so far.
fault : ℕ → ℕ → Head → Option Message
fault count depth h =
    if ltb max_nodes count
    then some too_many_nodes
    else if ltb max_depth depth
    then some too_deep
    else if is_kind h.kind alias_node || not (is_blank h.anchor)
    then some has_anchor
    else if h.tagged
    then some has_tag
    else if is_kind h.kind scalar_node && has_expression h.value
    then some has_expressions
    else none

-- After the switch, the keys of a mapping.
judged : Option Message → Head → YamlNodes → Walk → Walk
unfolding check_keys stop
judged (some msg) h cs w = stop h.line msg w
judged none h cs w = if is_kind h.kind mapping_node then check_keys (entries (items cs)) w else w

inspect : ℕ → Head → YamlNodes → Walk → Walk
unfolding fault judged check_keys stop
inspect depth h cs w = judged (fault (suc w.count) depth h) h cs (record w { count = suc w.count })

-- The rest of a visit is skipped once a limit is passed.
resume : Bool → Walk → (Walk → Walk) → Walk
resume true w next = next w
resume false w next = w

go_on : Walk → (Walk → Walk) → Walk
unfolding resume
go_on w next = resume w.valid w next

mutual
  unfolding go_on resume inspect fault judged check_keys stop

  walk : ℕ → YamlNode → Walk → Walk
  walk depth (node h cs) w = go_on w (λ v. go_on (inspect depth h cs v) (walk_all (suc depth) cs))

  walk_all : ℕ → YamlNodes → Walk → Walk
  walk_all depth nil w = w
  walk_all depth (cons n ns) w = walk_all depth ns (walk depth n w)

-- Whether the walk from the root ended well.
unfoldable pub check_structure : YamlNode → Parser Bool
unfolding walk walk_all go_on resume inspect fault judged check_keys stop
check_structure root ps =
    let w = walk 0 root (record { count = 0; valid = true; problems = ps }) in (w.valid, w.problems)
