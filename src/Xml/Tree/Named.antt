-- ===== src/Xml/Tree/Named.antt =====
-- The concrete tree has what the schema plugins rely on: its paths with `local-name()` are read by their steps.
use mathlib.Core.List.{flat_map, cons-ne-nil}
use muen.Base.{List, [], ◌∷◌, Option, none, some, Str, codes, ◌≡◌, refl, ap, ◌∙◌}
use muen.Base.{list_eq, nat_eq, option_eq, select, All, All-append, map}
use muen.Base.Text.{split}
use muen.Base.Text.Laws.{Avoids, Avoids-subset, split-join, join-split, Avoids-of_test}
use muen.Xml.Names.{IsNamed}
use muen.Xml.Steps.{Step, IsStep, step_text, path_text, walk}
use muen.Xml.Tree.{
  Tree, tree, children, step, steps, walk_parts, step_parts, step_test, flat_map-congr,
}
use muen.Xml.Tree.Prefixes.{
  names, set_children_self, prefix-set_children, nsmap-set_children, attrib-set_children,
  parts_prefix_plain, prefix-element_expanded, nsmap_lem,
}

step_at :
    (l : Str) (name : Option Str) (e : Tree)
    → IsStep (record { local = l; name = name })
    → step (step_text (record { local = l; name = name })) e
      ≡ select (step_test (record { local = l; name = name })) (children e)
step_at l none e h =
    let quote = Avoids-subset (codes "'") (codes "/'") l (refl, tt) h.0 in
    ap (λ ps. step_parts ps (step_text (record { local = l; name = none })) e)
      (split-join b'\'' (codes "*[local-name()=" ∷ l ∷ codes "]" ∷ []) (cons-ne-nil _ _) (
        Avoids-of_test (codes "'") (codes "*[local-name()=") refl,
        (quote, (Avoids-of_test (codes "'") (codes "]") refl, tt)),
      ))
step_at l (some n) e h =
    let quote = Avoids-subset (codes "'") (codes "/'") l (refl, tt) h.0 in
    let quote' = Avoids-subset (codes "'") (codes "/'") n (refl, tt) h.1 in
    ap (λ ps. step_parts ps (step_text (record { local = l; name = some n })) e)
      (split-join b'\'' (codes "*[local-name()=" ∷ l ∷ codes " and @name=" ∷ n ∷ codes "]" ∷ [])
        (cons-ne-nil _ _)
        (
          Avoids-of_test (codes "'") (codes "*[local-name()=") refl,
          (
            quote,
            (
              Avoids-of_test (codes "'") (codes " and @name=") refl,
              (quote', (Avoids-of_test (codes "'") (codes "]") refl, tt)),
            ),
          ),
        ))

step_of :
    (s : Step) (e : Tree) → IsStep s → step (step_text s) e ≡ select (step_test s) (children e)
step_of s e h = step_at s.local s.name e h

steps_of :
    (ss : List Step) (es : List Tree)
    → All IsStep ss
    → steps (map step_text ss) es ≡ walk tree ss es
steps_of [] es h = refl
steps_of (s ∷ ss) es h =
    ap (steps (map step_text ss)) (
      flat_map-congr (step (step_text s)) (λ e. select (step_test s) (children e)) es
        (λ e. step_of s e h.0))
    ∙ steps_of ss _ h.1

step_text-Avoids :
    (l : Str) (name : Option Str)
    → IsStep (record { local = l; name = name })
    → Avoids (codes "/") (step_text (record { local = l; name = name }))
step_text-Avoids l none h =
    All-append _ (codes "*[local-name()='") _
      (Avoids-of_test (codes "/") (codes "*[local-name()='") refl)
      (All-append _ l _ (Avoids-subset (codes "/") (codes "/'") l (refl, tt) h.0)
        (Avoids-of_test (codes "/") (codes "']") refl))
step_text-Avoids l (some n) h =
    All-append _ (codes "*[local-name()='") _
      (Avoids-of_test (codes "/") (codes "*[local-name()='") refl)
      (All-append _ l _ (Avoids-subset (codes "/") (codes "/'") l (refl, tt) h.0) (
        All-append _ (codes "' and @name='") _
          (Avoids-of_test (codes "/") (codes "' and @name='") refl)
          (All-append _ n _ (Avoids-subset (codes "/") (codes "/'") n (refl, tt) h.1)
            (Avoids-of_test (codes "/") (codes "']") refl))))

steps_text-Avoids : (ss : List Step) → All IsStep ss → All (Avoids (codes "/")) (map step_text ss)
steps_text-Avoids [] h = tt
steps_text-Avoids (s ∷ ss) h = (step_text-Avoids s.local s.name h.0, steps_text-Avoids ss h.1)

xpath_steps :
    (e : Tree) (ss : List Step)
    → All IsStep ss
    → tree.xpath e (path_text ss) ≡ walk tree ss (e ∷ [])
unfolding flat_map
xpath_steps e ss h =
    ap (λ ps. walk_parts ps e)
      (split-join b'/' (codes "." ∷ map step_text ss) (cons-ne-nil _ _)
        (Avoids-of_test (codes "/") (codes ".") refl, steps_text-Avoids ss h))
    ∙ steps_of ss (e ∷ []) h

pub names-IsNamed : IsNamed tree names
names-IsNamed = record {
  xpath_steps = xpath_steps;
  set_children_self = set_children_self;
  insert_lem = λ e x i. refl;
  append_lem = λ e x. refl;
  prefix-set_children = prefix-set_children;
  nsmap-set_children = nsmap-set_children;
  attrib-set_children = attrib-set_children;
  prefix-element = λ t a h. parts_prefix_plain t (split (codes "}") t) (join-split b'}' t) h;
  prefix-element_expanded = λ url t a u v. (_, prefix-element_expanded url t u v);
  nsmap_lem = nsmap_lem;
}
