-- ===== src/DocTransfer/Apply.antt =====
-- tools/plugins/documentation/doc_transfer.py, `apply_target_expansion`: the insertions into the
-- policy B. An element that the source changes in place is returned rebuilt.
pub mod Extends
use mathlib.Core.List.{reverse}
use muen.Base.{ℕ, Bool, true, false, List, [], ◌∷◌, Str, codes, if◌then◌else◌, Option, none, some}
use muen.Base.{Result, ok, err, ◌>>=◌}
use muen.Xml.{Etree}
use muen.DocTransfer.Rules.{simple_xpath_match}
use muen.DocTransfer.Expansion.{Expansion, expansion, Children, no_children, child}

-- A loop that may raise over the items of a list, with its results.
unfoldable pub map_result {ℓ κ} :
    {A : Type ℓ} {B : Type κ} → (A → Result B) → List A → Result (List B)
map_result f [] = ok []
map_result f (x ∷ xs) = do y ← f x; ys ← map_result f xs; ok (y ∷ ys)

module _ (X : Etree) where
  -- `for leave in reversed(leaves): root.insert(0, copy.deepcopy(leave))`, on the reversed list
  unfoldable pub insert_leaves : List X.Elem → X.Elem → X.Elem
  insert_leaves [] root = root
  insert_leaves (leave ∷ leaves) root = insert_leaves leaves (X.insert root 0 leave)

  unfoldable mutual
    pub apply_target_expansion : Expansion X.Elem → X.Elem → Result X.Elem
    apply_target_expansion (expansion leaves cs) subtree_root = do
      kids ← map_result (λ c. apply_children cs c) (X.children subtree_root)
      ok (insert_leaves (reverse leaves) (X.set_children subtree_root kids))

    -- The loop over the paths, for one child.
    pub apply_children : Children X.Elem → X.Elem → Result X.Elem
    apply_children no_children c = ok c
    apply_children (child path sub cs) c = do
      m ← simple_xpath_match X c path
      c' ← (if m then apply_target_expansion sub c else ok c)
      apply_children cs c'
