-- ===== src/Tests/DocTransfer.antt =====
-- Runs of the insertion and of the rules of doc_transfer.py, and the theorems at them.
use muen.Base.{
  ℕ, Bool, true, false, List, [], ◌∷◌, Option, none, some, Str, codes, Result, ok, err, refl, ◌≡◌,
}
use muen.Xml.Tree.{Tree, elem, tree, tree-IsLawful}
use muen.Base.{◌↔◌, contains, ◌++◌, replicate, All}
use muen.Base.{Eq, any, list_eq, option_eq, pair_eq, nat_eq}
use muen.Base.Text.{join, is_in}
use muen.DocTransfer.Main.{transfer}
use muen.DocTransfer.Main.Ends.{transfer-Ends}
use muen.DocTransfer.Traverse.Fuel.{Ends}
use muen.DocTransfer.Apply.{apply_target_expansion, map_result}
use muen.DocTransfer.Apply.Extends.{Extends, apply_target_expansion-Extends}
use muen.DocTransfer.Rules.{
  Bindings, Action, output, traverse, Rules, rule, no_rules, tail, Match, apply_rule, match_local,
}
use muen.DocTransfer.Rules.Syntax.{
  meaning, rule_text, rest_action, apply_rule-rule_text, match_local-print,
}
use muen.DocTransfer.Rules.Notation.{IsLocal, Local, plain, equals, binds, print}
use muen.DocTransfer.Expansion.{
  Expansion, expansion, Children, no_children, child, blank, add_to_output_func,
  get_list_of_substitutions,
}
use muen.DocTransfer.Expansion.View.{leaves_at}
use muen.DocTransfer.Expansion.Insert.{keys_of, occurrences, add_to_output_func-Puts}
use muen.DocTransfer.Traverse.{execute}
use muen.DocTransfer.Traverse.Outputs.{by, action_of, put_out, outputs, execute-outputs}
use muen.DocTransfer.Maps.Plan.{system_plan, system_plan-AreSteps}
use mathlib.Core.List.{flat_map}
use muen.Base.{map, for_each}
use muen.Base.Dict.{insert, lookup}
use muen.Tests.Transfer.{named, joined, policy_b, slash, word, result_or}

abbrev target : List Str
target = [] ∷ codes "system" ∷ codes "subject[@name=\"$n\"]" ∷ []

abbrev tail_levels : List (List Str) → List (List Str)
tail_levels [] = []
tail_levels (x ∷ xs) = xs

abbrev target_levels : List (List Str)
target_levels = ([] ∷ []) ∷ (codes "system" ∷ []) ∷ (codes "subject[@name=\"s\"]" ∷ []) ∷ []

abbrev bound : Bindings
bound = (codes "n", codes "s") ∷ []

add_to_output_func-Puts_example :
    (t : Expansion ℕ) × (add_to_output_func 7 bound [] (join (codes "/") (tail target)) blank
      ≡ ok t)
    × ((p : List Str)
        → leaves_at p t
          ≡ leaves_at p (blank {E = ℕ}) ++ replicate (occurrences (tail_levels target_levels) p) 7)
unfolding get_list_of_substitutions keys_of muen.Base.Text.split
    muen.DocTransfer.Expansion.parameter_name muen.DocTransfer.Expansion.substitute
    muen.Base.Text.replace muen.DocTransfer.Expansion.Insert.substitute_all muen.Base.Dict.lookup
add_to_output_func-Puts_example =
    add_to_output_func-Puts 7 bound [] (tail target) (tail_levels target_levels)
      (
        slash (codes "system") refl,
        (λ e. cc),
        refl,
        (slash (codes "subject[@name=\"$n\"]") refl, (λ e. cc), refl, tt),
      )
      blank

abbrev leaf : Tree
leaf = elem (codes "doc") [] []

abbrev inserts : Children Tree
inserts = child (codes "subjects") (expansion (leaf ∷ []) no_children) no_children

abbrev inserted : Tree
inserted = result_or policy_b (apply_target_expansion tree (expansion (leaf ∷ []) inserts) policy_b)

apply_target_expansion-Extends_example : Extends tree policy_b inserted
unfolding apply_target_expansion map_result muen.DocTransfer.Rules.simple_xpath_match match_local
    muen.Base.Text.split muen.DocTransfer.Rules.local_part
apply_target_expansion-Extends_example =
    apply_target_expansion-Extends tree tree-IsLawful (expansion (leaf ∷ []) inserts) policy_b
      inserted refl

abbrev subject_s : Tree
subject_s = elem (codes "subject") (named (codes "s")) []

abbrev levels_of_rule : List Local
levels_of_rule = plain (codes "memory") ∷ equals (codes "memory") (codes "kind") (codes "ram") ∷ []

subject_IsLocal : IsLocal (binds (codes "subject") (codes "name") (codes "n"))
subject_IsLocal = (word (codes "subject") refl, word (codes "name") refl, word (codes "n") refl)

apply_rule-rule_text_example :
    apply_rule tree subject_s
      (rule_text (binds (codes "subject") (codes "name") (codes "n") ∷ levels_of_rule))
      (output [])
    ≡ ok (
      meaning tree subject_s (binds (codes "subject") (codes "name") (codes "n")),
      rest_action levels_of_rule (output []),
    )
apply_rule-rule_text_example =
    apply_rule-rule_text tree subject_s (binds (codes "subject") (codes "name") (codes "n"))
      levels_of_rule (output []) subject_IsLocal
      (
        (word (codes "memory") refl, λ e. cc),
        (
          (
            word (codes "memory") refl,
            word (codes "kind") refl,
            word (codes "ram") refl,
            (λ e. cc),
            refl,
          ),
          tt,
        ),
      )

match_local-print_example :
    match_local tree subject_s (print (binds (codes "subject") (codes "name") (codes "n")))
    ≡ ok (meaning tree subject_s (binds (codes "subject") (codes "name") (codes "n")))
match_local-print_example =
    match_local-print tree subject_s (binds (codes "subject") (codes "name") (codes "n"))
      subject_IsLocal

execute-outputs_example :
    execute tree [] (action_of (by system_plan)) joined [] blank
    ≡ for_each (put_out tree []) (outputs tree (by system_plan) joined []) blank
execute-outputs_example =
    execute-outputs tree [] tree-IsLawful (by system_plan) joined [] blank system_plan-AreSteps

-- The paths that the nodes of the policy are put out to
joined-paths :
    map (λ o. o.1.1) (outputs tree (by system_plan) joined [])
    ≡ codes "system"
      ∷ codes
          "system/subjects/subject[@name=\"$Component_To_Subjects($component_name)\"]/memory/memory[@logical=\"$comp_mem_logical\"]"
      ∷ codes "system/subjects/subject[@name=\"$Component_To_Subjects($component_name)\"]"
      ∷ codes "system/subjects/subject[@name=\"$subject_name\"]"
      ∷ []
unfolding flat_map insert lookup
joined-paths = refl

transfer-Ends_example : Ends (transfer tree joined policy_b)
transfer-Ends_example = transfer-Ends tree joined policy_b
