-- ===== src/Engine/Yaml.antt =====
-- The node walkers of server/internal/engine/spec/parse.go: problems, mappings, scalars and lists.
-- A `yaml.Node` is the tree that the YAML library hands over, with the fields that the parser reads. A
-- parser is a function of the problems found so far; a Go pair of a value and `ok` is an Option.
pub mod Rules
pub mod Walkers
pub mod Structure
use kilnci.Base.{
  ℕ, zero, suc, ◌+◌, ◌-◌, ◌≤◌, ◌<◌, Bool, true, false, not, ◌&&◌, ◌||◌, List, [], ◌∷◌, ◌++◌, Option,
  none, some, ◌==◌, if◌then◌else◌, ltb, leb, length, String, ByteString, codes, lookup, holds_key,
  nat_eq, string_eq, is_empty,
}
use kilnci.Base.Decimal.{decimal}
use kilnci.Base.Int.{ℤ, pos, negsuc, leb_ℤ}
use kilnci.Engine.Dag
use kilnci.Engine.Texts.{is_safe_key}

pub data NodeKind : Type 0 where
  document_node sequence_node mapping_node scalar_node alias_node : NodeKind

-- The fields of a node but its content: `tag` is what ShortTag returns, `plain` whether Style is 0, and
-- `tagged` whether Style has the bit of an explicit tag.
pub record Head : Type 0 where
  pub kind : NodeKind
  pub tag : String
  pub plain : Bool
  pub tagged : Bool
  pub anchor : String
  pub value : String
  pub line : ℕ

mutual
  pub data YamlNode : Type 0 where
    node : Head → YamlNodes → YamlNode

  pub data YamlNodes : Type 0 where
    nil : YamlNodes
    cons : YamlNode → YamlNodes → YamlNodes

abbrev pub head : YamlNode → Head
head (node h cs) = h

abbrev pub items : YamlNodes → List YamlNode
items nil = []
items (cons n ns) = n ∷ items ns

-- `n.Content`.
abbrev pub content : YamlNode → List YamlNode
content (node h cs) = items cs

-- The two nodes of each entry of a mapping; an odd last node is passed over.
unfoldable pub entries : List YamlNode → List (YamlNode × YamlNode)
entries [] = []
entries (k ∷ []) = []
entries (k ∷ v ∷ rest) = (k, v) ∷ entries rest

abbrev pub is_scalar : YamlNode → Bool
is_scalar n = elim (head n).kind [ scalar_node ↦ true | _ ↦ false ]

abbrev pub is_mapping : YamlNode → Bool
is_mapping n = elim (head n).kind [ mapping_node ↦ true | _ ↦ false ]

abbrev pub is_sequence : YamlNode → Bool
is_sequence n = elim (head n).kind [ sequence_node ↦ true | _ ↦ false ]

-- The texts of the messages, each a fixed text with at most bounds in it.
pub data Message : Type 0 where
  too_large not_utf8 holds_nul document_empty many_documents invalid_syntax : Message
  too_many_nodes too_deep has_anchor has_tag has_expressions has_merge_key : Message
  not_mapping key_not_plain defined_twice unknown_field required_field : Message
  not_value not_string not_integer not_duration not_list : Message
  not_between : ℤ → ℤ → Message
  too_many_items : ℕ → Message
  listed_twice bad_env_key reserved_env_key env_value_too_large : Message
  wrong_version bad_pattern bad_jobs bad_job_count bad_job_id : Message
  bad_image bad_label bad_need no_steps bad_step_name bad_script : Message
  bad_graph : Dag.Message → Message

pub record Problem : Type 0 where
  pub path : ByteString
  pub line : ℕ
  pub message : Message

abbrev pub max_errors : ℕ
max_errors = 50

abbrev pub Parser : Type 0 → Type 0
Parser A = List Problem → A × List Problem

infixl 5 ◌>>=◌ ◌>>◌
unfoldable pub ◌>>=◌ : {A B : Type 0} → Parser A → (A → Parser B) → Parser B
◌>>=◌ m f ps = f (m ps).0 (m ps).1

abbrev pub ◌>>◌ : {B : Type 0} → Parser (Unit {0}) → Parser B → Parser B
m >> k = m >>= λ _. k

unfoldable pub pure : {A : Type 0} → A → Parser A
pure a ps = (a, ps)

-- A branch between two parsers.
infix 1 when◌then◌else◌
unfoldable pub when◌then◌else◌ : {A : Type 0} → Bool → Parser A → Parser A → Parser A
when◌then◌else◌ true m k = m
when◌then◌else◌ false m k = k

-- `fail`, at a line; a nil node has line 0.
unfoldable pub fail_at : ByteString → ℕ → Message → Parser (Unit {0})
fail_at path line msg ps =
    if leb max_errors (length ps)
    then (tt, ps)
    else (tt, ps ++ (record { path = path; line = line; message = msg }) ∷ [])

abbrev pub fail : ByteString → YamlNode → Message → Parser (Unit {0})
fail path n msg = fail_at path (head n).line msg

unfoldable pub join : ByteString → String → ByteString
join path key =
    let shown = if is_safe_key key then codes key else b'?' ∷ [] in
    if is_empty path then shown else path ++ b'.' ∷ shown

-- `fmt.Sprintf("%s[%d]", path, i)`.
unfoldable pub at_index : ByteString → ℕ → ByteString
at_index path i = path ++ b'[' ∷ (decimal i ++ b']' ∷ [])

-- `scalar`.
unfoldable pub scalar : ByteString → YamlNode → Parser (Option String)
scalar path n =
    when not (is_scalar n) || (head n).tag == "!!null"
    then (do fail path n not_value; pure none)
    else pure (some (head n).value)

-- `str`.
unfoldable pub str : ByteString → YamlNode → Parser (Option String)
str path n =
    when not (is_scalar n) || not ((head n).tag == "!!str")
    then (do fail path n not_string; pure none)
    else pure (some (head n).value)

bounded : ByteString → YamlNode → Message → ℤ → ℤ → Option ℤ → Parser (Option ℤ)
bounded path n unreadable lo hi none = do fail path n unreadable; pure none
bounded path n unreadable lo hi (some v) =
    when not (leb_ℤ lo v && leb_ℤ v hi)
    then (do fail path n (not_between lo hi); pure none)
    else pure (some v)

-- `integer`, with `strconv.Atoi` as an argument.
unfoldable pub integer : (String → Option ℤ) → ByteString → YamlNode → ℤ → ℤ → Parser (Option ℤ)
unfolding bounded
integer atoi path n lo hi =
    when not (is_scalar n) || not ((head n).tag == "!!int")
    then (do fail path n not_integer; pure none)
    else bounded path n (not_between lo hi) lo hi (atoi (head n).value)

duration_of :
    (String → Option ℤ) → ByteString → YamlNode → ℤ → ℤ → Option String → Parser (Option ℤ)
unfolding bounded
duration_of parse_duration path n lo hi none = pure none
duration_of parse_duration path n lo hi (some s) =
    bounded path n not_duration lo hi (parse_duration s)

-- `duration`, with `time.ParseDuration` as an argument; a duration is its nanoseconds.
unfoldable pub duration : (String → Option ℤ) → ByteString → YamlNode → ℤ → ℤ → Parser (Option ℤ)
unfolding duration_of bounded
duration parse_duration path n lo hi = do s ← str path n; duration_of parse_duration path n lo hi s

-- `list`.
unfoldable pub list : ByteString → YamlNode → ℕ → Parser (Option (List YamlNode))
list path n max_items =
    when not (is_sequence n)
    then (do fail path n not_list; pure none)
    else when ltb max_items (length (content n))
    then (do fail path n (too_many_items max_items); pure none)
    else pure (some (content n))

-- What one item adds to the texts that a list holds so far, which are also the texts seen.
add_item :
    (String → Bool)
    → Message
    → ByteString
    → YamlNode
    → List String
    → Option String
    → Parser (List String)
add_item valid rule path n out none = pure out
add_item valid rule path n out (some s) =
    when not (valid s)
    then (do fail path n rule; pure out)
    else when holds_key s out
    then (do fail path n listed_twice; pure out)
    else pure (out ++ s ∷ [])

str_items :
    (String → Bool) → Message → ByteString → ℕ → List YamlNode → List String → Parser (List String)
unfolding add_item
str_items valid rule path i [] out = pure out
str_items valid rule path i (n ∷ ns) out = do
  s ← str (at_index path i) n
  out' ← add_item valid rule (at_index path i) n out s
  str_items valid rule path (suc i) ns out'

str_items_of :
    (String → Bool) → Message → ByteString → Option (List YamlNode) → Parser (List String)
unfolding str_items add_item
str_items_of valid rule path none = pure []
str_items_of valid rule path (some ns) = str_items valid rule path 0 ns []

-- `strList`.
unfoldable pub str_list :
    ByteString → YamlNode → ℕ → (String → Bool) → Message → Parser (List String)
unfolding str_items_of str_items add_item
str_list path n max_items valid rule = do
  ns ← list path n max_items
  str_items_of valid rule path ns

-- What is done with a value that a walker may have found; nothing, if it did not.
unfoldable pub with_some : {A S : Type 0} → Option A → S → (A → Parser S) → Parser S
with_some none s f = pure s
with_some (some a) s f = f a

-- `fieldFn`: a known key's handler, which fills in a value that is being built.
abbrev pub Field : Type 0 → Type 0
Field S = ByteString → YamlNode → S → Parser S

module _ {S : Type 0} where
  known : ByteString → YamlNode → YamlNode → S → Option (Field S) → Parser S
  known child k v s none = do fail child k unknown_field; pure s
  known child k v s (some f) = f child v s

  -- One entry, with the keys seen, the last first.
  enter :
      List (String × Field S)
      → ByteString
      → YamlNode
      → YamlNode
      → List String
      → S
      → Parser (S × List String)
  unfolding known
  enter fields path k v seen s =
      let key = (head k).value in
      when not (is_scalar k)
      then (do fail path k key_not_plain; pure (s, seen))
      else when holds_key key seen
      then (do fail (join path key) k defined_twice; pure (s, seen))
      else (do s' ← known (join path key) k v s (lookup key fields); pure (s', key ∷ seen))

  fill :
      List (String × Field S)
      → ByteString
      → List (YamlNode × YamlNode)
      → List String
      → S
      → Parser (S × List String)
  unfolding enter known
  fill fields path [] seen s = pure (s, seen)
  fill fields path ((k, v) ∷ rest) seen s = do
    r ← enter fields path k v seen s
    fill fields path rest r.1 r.0

require : ByteString → YamlNode → List String → List String → Parser (Unit {0})
require path n seen [] = pure tt
require path n seen (r ∷ rs) = do
  when holds_key r seen then pure tt else fail (join path r) n required_field
  require path n seen rs

module _ {S : Type 0} where
  -- `mapping`.
  unfoldable pub mapping :
      ByteString → YamlNode → List (String × Field S) → List String → S → Parser S
  unfolding fill enter known require
  mapping path n fields required s =
      when not (is_mapping n)
      then (do fail path n not_mapping; pure s)
      else do r ← fill fields path (entries (content n)) [] s; require path n r.1 required; pure r.0
