-- ===== src/DocTransfer/Maps/Plan.antt =====
-- The dictionaries of tools/plugins/documentation/doc_transfer.py, by the levels of their rules.
use muen.Base.{String, Bool, true, not, ◌&&◌, all, All, arith}
use muen.Base.{false, List, [], ◌∷◌, Str, codes, ok, ◌≡◌, refl, any}
use muen.Base.Text.{is_in}
use muen.Base.Text.Laws.{Avoids-of_test}
use muen.DocTransfer.Rules.{add_to_output}
use muen.DocTransfer.Rules.Notation.{Local, plain, equals, binds, IsLocal, IsPlain, notation}
use muen.DocTransfer.Traverse.Outputs.{Plan, to, by, Steps, done, step, rules_of, IsPlan, AreSteps}
use muen.DocTransfer.Maps.{system_map}

abbrev tag : String → Local
tag t = plain (codes t)

abbrev logical : String → String → Local
logical t variable = binds (codes t) (codes "logical") (codes variable)

abbrev name : String → String → Local
name t variable = binds (codes t) (codes "name") (codes variable)

abbrev only_doc : String → Plan
only_doc path = by (step (tag "doc") [] (to (codes path)) done)

abbrev subj_mem_plan : Plan
subj_mem_plan =
    only_doc
      "system/subjects/subject[@name=\"$subject_name\"]/memory/memory[@logical=\"$subj_mem_logical\"]"

abbrev subj_mem : String → Local
subj_mem t = logical t "subj_mem_logical"

abbrev subject_plan : Plan
subject_plan = by (
    step (tag "doc") [] (to (codes "system/subjects/subject[@name=\"$subject_name\"]")) (
      step (tag "memory") (subj_mem "memory" ∷ []) subj_mem_plan (
        step (tag "component") (subj_mem "map" ∷ []) subj_mem_plan (
          step (tag "channels") (subj_mem "reader" ∷ []) subj_mem_plan
            (step (tag "channels") (subj_mem "writer" ∷ []) subj_mem_plan done)))))

abbrev comp_mem_plan : Plan
comp_mem_plan =
    only_doc
      "system/subjects/subject[@name=\"$Component_To_Subjects($component_name)\"]/memory/memory[@logical=\"$comp_mem_logical\"]"

abbrev comp_mem : String → Local
comp_mem t = logical t "comp_mem_logical"

abbrev required : List Local → Steps → Steps
required ls steps = step (tag "requires") ls comp_mem_plan steps

abbrev comp_plan : Plan
comp_plan = by (
    step (tag "doc") []
      (to (codes "system/subjects/subject[@name=\"$Component_To_Subjects($component_name)\"]"))
      (required (tag "memory" ∷ comp_mem "memory" ∷ []) (
        required (tag "memory" ∷ tag "array" ∷ comp_mem "memory" ∷ []) (
          required (tag "channels" ∷ comp_mem "reader" ∷ []) (
            required (tag "channels" ∷ comp_mem "writer" ∷ []) (
              required (tag "channels" ∷ tag "array" ∷ comp_mem "reader" ∷ [])
                (required (tag "channels" ∷ tag "array" ∷ comp_mem "writer" ∷ []) done)))))))

abbrev components_plan : Plan
components_plan = by (
    step (name "component" "component_name") [] comp_plan
      (step (name "library" "component_name") [] comp_plan done))

abbrev subjects_plan : Plan
subjects_plan = by (
    step (tag "doc") [] (to (codes "system/subjects"))
      (step (name "subject" "subject_name") [] subject_plan done))

abbrev pub system_plan : Steps
system_plan = step (tag "doc") [] (to (codes "system")) (
    step (tag "memory") (name "memory" "mem_name" ∷ tag "doc" ∷ [])
      (to (codes "system/memory/memory[@name=\"$mem_name\"]"))
      (step (tag "components") [] components_plan (step (tag "subjects") [] subjects_plan done)))

-- The dictionaries of the program are those of the plan.
pub system_map-rules_of : system_map ≡ ok (rules_of system_plan)
unfolding add_to_output
system_map-rules_of = refl

both : (b c : Bool) → (b && c) ≡ true → (b ≡ true) × (c ≡ true)
both true c h = (refl, h)
both false c h = cc

-- Tests of the names, for rules without an attribute that must have a value
abbrev is_word : Str → Bool
is_word s = not (any (is_in notation) s)

abbrev is_local : Local → Bool
is_local (plain []) = false
is_local (plain (c ∷ t)) = is_word (c ∷ t)
is_local (equals t attr value) = false
is_local (binds t attr variable) = is_word t && (is_word attr && is_word variable)

abbrev mutual
  is_plan : Plan → Bool
  is_plan (to path) = true
  is_plan (by steps) = are_steps steps

  are_steps : Steps → Bool
  are_steps done = true
  are_steps (step l ls plan steps) =
      is_local l && (all is_local ls && (is_plan plan && are_steps steps))

word : (s : Str) → is_word s ≡ true → IsPlain s
word s h = Avoids-of_test notation s (ground (arith, h))

is_local-IsLocal : (l : Local) → is_local l ≡ true → IsLocal l
is_local-IsLocal (plain []) h = cc
is_local-IsLocal (plain (c ∷ t)) h = (word (c ∷ t) h, λ e. cc)
is_local-IsLocal (equals t attr value) h = cc
is_local-IsLocal (binds t attr variable) h =
    let (p, q) = both (is_word t) _ h in
    let (r, u) = both (is_word attr) (is_word variable) q in
    (word t p, word attr r, word variable u)

all-IsLocal : (ls : List Local) → all is_local ls ≡ true → All IsLocal ls
all-IsLocal [] h = tt
all-IsLocal (l ∷ ls) h =
    let (p, q) = both (is_local l) (all is_local ls) h in (is_local-IsLocal l p, all-IsLocal ls q)

mutual
  is_plan-IsPlan : (plan : Plan) → is_plan plan ≡ true → IsPlan plan
  is_plan-IsPlan (to path) h = tt
  is_plan-IsPlan (by steps) h = are_steps-AreSteps steps h

  are_steps-AreSteps : (steps : Steps) → are_steps steps ≡ true → AreSteps steps
  are_steps-AreSteps done h = tt
  are_steps-AreSteps (step l ls plan steps) h =
      let (p, q) = both (is_local l) _ h in
      let (r, u) = both (all is_local ls) _ q in
      let (v, w) = both (is_plan plan) (are_steps steps) u in
      (is_local-IsLocal l p, all-IsLocal ls r, is_plan-IsPlan plan v, are_steps-AreSteps steps w)

pub system_plan-AreSteps : AreSteps system_plan
system_plan-AreSteps = are_steps-AreSteps system_plan refl
