-- ===== src/DocTransfer/Main.antt =====
-- tools/plugins/documentation/doc_transfer.py: `compile_target_expansion`, and what `main` does to
-- the two policies between reading and writing them.
pub mod Keeps
pub mod Ends
use muen.Base.{List, [], ◌∷◌, Str, codes, Option, none, some, Result, ok, ◌>>=◌}
use muen.Xml.{Etree}
use muen.DocTransfer.Subjects.{compile_component_to_subjects_map}
use muen.DocTransfer.Rules.{traverse}
use muen.DocTransfer.Expansion.{Expansion, expansion, Children, no_children, child, blank}
use muen.DocTransfer.Expansion.View.{get_child}
use muen.DocTransfer.Traverse.{execute}
use muen.DocTransfer.Maps.{system_map}
use muen.DocTransfer.Apply.{apply_target_expansion}

module _ (X : Etree) where
  unfoldable pub compile_target_expansion : X.Elem → Result (Expansion X.Elem)
  compile_target_expansion source_root = do
    rules ← system_map
    c2s_map ← compile_component_to_subjects_map X source_root
    execute X c2s_map (traverse rules) source_root [] blank

  -- `expansion['__children']['system']`, if it is there
  unfoldable pub system_of : Expansion X.Elem → Option (Expansion X.Elem)
  system_of (expansion leaves cs) = get_child (codes "system") cs

  -- The root of the policy B that is written, from the roots of the joined policy and the policy B.
  unfoldable pub transfer : X.Elem → X.Elem → Result X.Elem
  transfer pj_root pb_root = do
    exp ← compile_target_expansion pj_root
    elim (system_of exp) [ none ↦ ok pb_root | some sub ↦ apply_target_expansion X sub pb_root ]
