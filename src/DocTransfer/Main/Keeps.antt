-- ===== src/DocTransfer/Main/Keeps.antt =====
-- The transfer as a whole.
use muen.Base.{Option, none, some, ok, >>=-eq-ok, ◌≡◌}
use muen.Xml.{Etree, IsLawful}
use muen.DocTransfer.Expansion.{Expansion}
use muen.DocTransfer.Apply.{apply_target_expansion}
use muen.DocTransfer.Apply.Extends.{Extends, same, apply_target_expansion-Extends}
use muen.DocTransfer.Main.{compile_target_expansion, system_of, transfer}

module _ (X : Etree) (L : IsLawful X) where
  system-Extends :
      (o : Option (Expansion X.Elem)) (root t : X.Elem)
      → elim o [ none ↦ ok root | some sub ↦ apply_target_expansion X sub root ] ≡ ok t
      → Extends X root t
  system-Extends none root t h = same (cc)
  system-Extends (some sub) root t h = apply_target_expansion-Extends X L sub root t h

  -- The policy that is written is the policy B with elements added: nothing of it is lost, moved or
  -- changed in its tag or attributes.
  pub transfer-Extends :
      (pj_root pb_root t : X.Elem) → transfer X pj_root pb_root ≡ ok t → Extends X pb_root t
  unfolding transfer
  transfer-Extends pj_root pb_root t h =
      let (exp, _, r) = >>=-eq-ok (compile_target_expansion X pj_root) _ h in
      system-Extends (system_of X exp) pb_root t r
