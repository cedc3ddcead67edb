-- ===== src/DocTransfer/Rules.antt =====
-- tools/plugins/documentation/doc_transfer.py: the rules, and `apply_rule` with its test of a node
-- against the first level of a rule.
pub mod Notation
pub mod Syntax
use muen.Base.{ℕ, Bool, true, false, not, List, [], ◌∷◌, ◌++◌, Option, none, some, Str, codes}
use muen.Base.{◌==◌, Eq, list_eq, option_eq, nat_eq, eqb, if◌then◌else◌, init, get_elem?}
use muen.Base.{Result, ok, err, exit, index_error, ◌>>=◌}
use muen.Base.Dict.{Dict}
use muen.Base.Text.{split, join, has_infix}
use muen.Xml.{Etree}

-- The lambdas that `add_to_output` and `do_traversal` return, and the dictionaries of rules in the
-- order of their keys.
mutual
  pub data Action : Type 0 where
    output : Str → Action
    traverse : Rules → Action

  pub data Rules : Type 0 where
    no_rules : Rules
    rule : Str → Action → Rules → Rules

-- Variables of a rule with the values that they are bound to.
abbrev pub Bindings : Type 0
Bindings = Dict Str Str

-- `add_to_output(target_path)`
unfoldable pub add_to_output : Str → Result Action
add_to_output [] = err index_error
add_to_output (c ∷ path) =
    if eqb c b'/'
    then ok (output path)
    else err (exit (codes "ERROR: target path must be absolute and start with '/'"))

-- `xs[i]`
abbrev pub at : List Str → ℕ → Result Str
at xs i = elim (get_elem? xs i) [ none ↦ err index_error | some x ↦ ok x ]

abbrev pub head_or_nil : List Str → Str
head_or_nil [] = []
head_or_nil (x ∷ xs) = x

abbrev pub tail : List Str → List Str
tail [] = []
tail (x ∷ xs) = xs

-- `key.split('/')[0]` and `"/".join(key.split('/')[1:])`; a split has at least one part.
unfoldable pub local_part : Str → Str
local_part key = head_or_nil (split (codes "/") key)

unfoldable pub remaining_part : Str → Str
remaining_part key = join (codes "/") (tail (split (codes "/") key))

-- The next action of a rule that matches.
unfoldable pub new_action : Str → Action → Action
new_action key value =
    let rest = remaining_part key in
    if rest == [] then value else traverse (rule rest value no_rules)

-- Does a rule's first level match, and which variable does it bind?
pub data Match : Type 0 where
  mismatch : Match
  matches : Bindings → Match

-- The test of an attribute with the value `actual`: `attr_value` is a variable, or the value that
-- the attribute must have.
unfoldable pub match_value : Str → Str → Result Match
match_value actual [] = err index_error
match_value actual (c ∷ attr_value) =
    if eqb c b'$'
    then ok (matches ((attr_value, actual) ∷ []))
    else if actual == c ∷ attr_value
    then ok (matches [])
    else ok mismatch

module _ (X : Etree) where
  -- The part of `apply_rule` behind the test for `[`.
  unfoldable pub match_attribute : X.Elem → Str → Result Match
  match_attribute node local_rule = do
    rest ← at (split (codes "[@") local_rule) 1
    let attribs_string = init rest
    attr_name ← at (split (codes "=") attribs_string) 0
    elim (X.get node attr_name) [
      | none ↦ ok mismatch
      | some actual ↦ do
        quoted ← at (split (codes "=\"") attribs_string) 1
        match_value actual (init quoted)
    ]

  -- The tests of `apply_rule`, on its first level.
  unfoldable pub match_local : X.Elem → Str → Result Match
  match_local node local_rule = do
    node_name ← at (split (codes "[") local_rule) 0
    if X.tag node == some node_name
        then if has_infix local_rule (codes "[")
          then match_attribute node local_rule
          else ok (matches [])
        else ok mismatch

  -- `apply_rule(node, key, value)`: what it matches, and the action to take.
  unfoldable pub apply_rule : X.Elem → Str → Action → Result (Match × Action)
  apply_rule node key value = do m ← match_local node (local_part key); ok (m, new_action key value)

  -- `simple_xpath_match`
  unfoldable pub simple_xpath_match : X.Elem → Str → Result Bool
  simple_xpath_match node local_xpath = do
    m ← match_local node (local_part local_xpath)
    elim m [ mismatch ↦ ok false | matches b ↦ ok true ]
