-- ===== src/DocTransfer/Maps.antt =====
-- tools/plugins/documentation/doc_transfer.py: the dictionaries that determine what the program does.
pub mod Plan
use muen.Base.{codes, Result, ok, ◌>>=◌}
use muen.DocTransfer.Rules.{traverse, Rules, no_rules, rule, add_to_output}

abbrev pub subj_mem_map : Result Rules
subj_mem_map = do
  doc ← add_to_output (
      codes
        "/system/subjects/subject[@name=\"$subject_name\"]/memory/memory[@logical=\"$subj_mem_logical\"]")
  ok (rule (codes "doc") doc no_rules)

abbrev pub subject_map : Result Rules
subject_map = do
  doc ← add_to_output (codes "/system/subjects/subject[@name=\"$subject_name\"]")
  mem ← subj_mem_map
  ok (
      rule (codes "doc") doc (
        rule (codes "memory/memory[@logical=\"$subj_mem_logical\"]") (traverse mem) (
          rule (codes "component/map[@logical=\"$subj_mem_logical\"]") (traverse mem) (
            rule (codes "channels/reader[@logical=\"$subj_mem_logical\"]") (traverse mem) (
              rule (codes "channels/writer[@logical=\"$subj_mem_logical\"]") (traverse mem)
                no_rules)))))

abbrev pub comp_mem_map : Result Rules
comp_mem_map = do
  doc ← add_to_output (
      codes
        "/system/subjects/subject[@name=\"$Component_To_Subjects($component_name)\"]/memory/memory[@logical=\"$comp_mem_logical\"]")
  ok (rule (codes "doc") doc no_rules)

abbrev pub comp_map : Result Rules
comp_map = do
  doc ←
      add_to_output
        (codes "/system/subjects/subject[@name=\"$Component_To_Subjects($component_name)\"]")
  mem ← comp_mem_map
  ok (
      rule (codes "doc") doc (
        rule (codes "requires/memory/memory[@logical=\"$comp_mem_logical\"]") (traverse mem) (
          rule (codes "requires/memory/array/memory[@logical=\"$comp_mem_logical\"]") (traverse mem)
            (rule (codes "requires/channels/reader[@logical=\"$comp_mem_logical\"]") (traverse mem)
              (rule (codes "requires/channels/writer[@logical=\"$comp_mem_logical\"]")
                (traverse mem)
                (rule (codes "requires/channels/array/reader[@logical=\"$comp_mem_logical\"]")
                  (traverse mem)
                  (rule (codes "requires/channels/array/writer[@logical=\"$comp_mem_logical\"]")
                    (traverse mem) no_rules)))))))

abbrev pub components_map : Result Rules
components_map = do
  comp ← comp_map
  ok (
      rule (codes "component[@name=\"$component_name\"]") (traverse comp)
        (rule (codes "library[@name=\"$component_name\"]") (traverse comp) no_rules))

abbrev pub subjects_map : Result Rules
subjects_map = do
  doc ← add_to_output (codes "/system/subjects")
  subj ← subject_map
  ok (
      rule (codes "doc") doc
        (rule (codes "subject[@name=\"$subject_name\"]") (traverse subj) no_rules))

abbrev pub system_map : Result Rules
system_map = do
  doc ← add_to_output (codes "/system")
  mem ← add_to_output (codes "/system/memory/memory[@name=\"$mem_name\"]")
  components ← components_map
  subjects ← subjects_map
  ok (
      rule (codes "doc") doc (
        rule (codes "memory/memory[@name=\"$mem_name\"]/doc") mem (
          rule (codes "components") (traverse components)
            (rule (codes "subjects") (traverse subjects) no_rules))))
