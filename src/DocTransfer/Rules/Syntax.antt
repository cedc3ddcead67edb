-- ===== src/DocTransfer/Rules/Syntax.antt =====
-- What `apply_rule` of doc_transfer.py makes of the text of a rule.
use mathlib.Core.List.{map, append-eq-nil_iff}
use muen.Base.{List, [], ◌∷◌, ◌++◌, none, some, Str, codes, ◌≡◌, ◌≢◌}
use muen.Base.{◌==◌, list_eq, option_eq, nat_eq, eqb_iff, if◌then◌else◌, init-append, arith, refl}
use muen.Base.{Result, ok, ◌∙◌, list_beq_iff, All, All-append}
use muen.Base.Text.{split, join}
use muen.Base.Text.Laws.{Avoids, split-cons, split_self, join-split}
use muen.Xml.{Etree}
use muen.DocTransfer.Rules.{
  Action, traverse, rule, no_rules, apply_rule, new_action, Match, mismatch, matches, match_value,
  match_attribute, match_local, local_part, remaining_part,
}
use muen.DocTransfer.Rules.Notation.{
  Local, plain, equals, binds, attribute, print, IsPlain, IsLocal, print-ne-nil, has_infix-append,
  has_infix_plain, quoted, avoids, part_attribute, name_quoted, value_quoted, name_attribute,
  name_plain,
}

module _ (X : Etree) where
  -- What a local rule means.
  abbrev pub meaning : X.Elem → Local → Match
  meaning node (plain tag) = if X.tag node == some tag then matches [] else mismatch
  meaning node (equals tag attr value) =
      if X.tag node == some tag
      then (if X.get node attr == some value then matches [] else mismatch)
      else mismatch
  meaning node (binds tag attr variable) =
      if X.tag node == some tag
      then elim (X.get node attr) [ none ↦ mismatch | some v ↦ matches ((variable, v) ∷ []) ]
      else mismatch

  -- The test of the attribute, and the test of the tag before it.
  abbrev attribute_test : X.Elem → Str → Str → Result Match
  attribute_test node attr value = elim (X.get node attr) [
    | none ↦ ok mismatch
    | some v ↦ match_value v value
  ]

  match_attribute-attribute :
      (node : X.Elem) (tag attr value : Str)
      → IsPlain tag
      → IsPlain attr
      → IsPlain value
      → match_attribute X node (attribute tag attr value) ≡ attribute_test node attr value
  unfolding match_attribute
  match_attribute-attribute node tag attr value ht ha hv =
      rw
        (
          part_attribute tag attr value ht ha hv,
          init-append (quoted attr value) b']',
          name_quoted attr value ha,
        )
        (ground (
          arith,
          init-append (quoted attr value) b']',
          value_quoted attr value ha hv,
          init-append value b'"',
        ))

  match_local-attribute :
      (node : X.Elem) (tag attr value : Str)
      → IsPlain tag
      → IsPlain attr
      → IsPlain value
      → match_local X node (attribute tag attr value)
        ≡ (if X.tag node == some tag then attribute_test node attr value else ok mismatch)
  unfolding match_local
  match_local-attribute node tag attr value ht ha hv = rw (
    name_attribute tag attr value ht,
    has_infix-append tag (b'@' ∷ (attr ++ (codes "=\"" ++ (value ++ codes "\"]")))),
    match_attribute-attribute node tag attr value ht ha hv,
  )

  -- A local rule in the notation of the dictionaries is matched as its parts say.
  pub match_local-print :
      (node : X.Elem) (l : Local) → IsLocal l → match_local X node (print l) ≡ ok (meaning node l)
  unfolding match_local match_value
  match_local-print node (plain tag) h =
      rw (name_plain tag h.0, has_infix_plain tag h.0) (ground arith)
  match_local-print node (equals tag attr []) h = absurd (h.3 refl)
  match_local-print node (equals tag attr (c ∷ value)) h =
      match_local-attribute node tag attr (c ∷ value) h.0 h.1 h.2
      ∙ ground (arith, h.4, eqb_iff c b'$')
  match_local-print node (binds tag attr variable) h =
      match_local-attribute node tag attr (b'$' ∷ variable) h.0 h.1 (refl, h.2) ∙ ground arith

attribute-Avoids :
    (tag attr value : Str)
    → Avoids (codes "/") tag
    → Avoids (codes "/") attr
    → Avoids (codes "/") value
    → Avoids (codes "/") (attribute tag attr value)
attribute-Avoids tag attr value ht ha hv = All-append _ tag _ ht (
  refl,
  (refl, All-append _ attr _ ha (refl, (refl, All-append _ value _ hv (refl, (refl, tt))))),
)

print-Avoids : (l : Local) → IsLocal l → Avoids (codes "/") (print l)
print-Avoids (plain tag) h = avoids b'/' tag refl h.0
print-Avoids (equals tag attr value) h =
    attribute-Avoids tag attr value (avoids b'/' tag refl h.0) (avoids b'/' attr refl h.1)
      (avoids b'/' value refl h.2)
print-Avoids (binds tag attr variable) h =
    attribute-Avoids tag attr (b'$' ∷ variable) (avoids b'/' tag refl h.0)
      (avoids b'/' attr refl h.1) (refl, avoids b'/' variable refl h.2)

-- The text of a rule of one or more levels.
abbrev pub rule_text : List Local → Str
rule_text ls = join (codes "/") (map print ls)

rule_text-ne-nil : (l : Local) (ls : List Local) → IsLocal l → rule_text (l ∷ ls) ≢ []
rule_text-ne-nil l [] h = print-ne-nil l h
rule_text-ne-nil l (k ∷ ls) h = λ e. print-ne-nil l h (append-eq-nil_iff.0 e).0

split-rule_text :
    (l k : Local) (ls : List Local)
    → IsLocal l
    → split (codes "/") (rule_text (l ∷ k ∷ ls)) ≡ print l ∷ split (codes "/") (rule_text (k ∷ ls))
split-rule_text l k ls h = split-cons b'/' [] (print l) (rule_text (k ∷ ls)) (print-Avoids l h)

-- The action that a rule of several levels leaves for the children of a matched node.
abbrev pub rest_action : List Local → Action → Action
rest_action [] value = value
rest_action (k ∷ ks) value = traverse (rule (rule_text (k ∷ ks)) value no_rules)

new_action-rule_text :
    (l : Local) (ls : List Local) (value : Action)
    → IsLocal l
    → All IsLocal ls
    → new_action (rule_text (l ∷ ls)) value ≡ rest_action ls value
unfolding new_action remaining_part
new_action-rule_text l [] value h hs = rw (split_self b'/' [] (print l) (print-Avoids l h))
new_action-rule_text l (k ∷ ls) value h hs =
    rw (split-rule_text l k ls h, join-split b'/' (rule_text (k ∷ ls)))
      (ground (arith, list_beq_iff (rule_text (k ∷ ls)) [], rule_text-ne-nil k ls hs.0))

local_part-rule_text :
    (l : Local) (ls : List Local) → IsLocal l → local_part (rule_text (l ∷ ls)) ≡ print l
unfolding local_part
local_part-rule_text l [] h = rw (split_self b'/' [] (print l) (print-Avoids l h))
local_part-rule_text l (k ∷ ls) h = rw (split-rule_text l k ls h)

-- `apply_rule` matches a node against the first level of a rule as its parts say, and hands the
-- other levels on to the node's children.
pub apply_rule-rule_text :
    (X : Etree) (node : X.Elem) (l : Local) (ls : List Local) (value : Action)
    → IsLocal l
    → All IsLocal ls
    → apply_rule X node (rule_text (l ∷ ls)) value ≡ ok (meaning X node l, rest_action ls value)
unfolding apply_rule
apply_rule-rule_text X node l ls value h hs = rw (
  local_part-rule_text l ls h,
  match_local-print X node l h,
  new_action-rule_text l ls value h hs,
)
