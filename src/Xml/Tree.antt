-- ===== src/Xml/Tree.antt =====
-- A concrete tree with the interface of `Xml`: it shows that what is assumed of lxml can be met, and
-- the tests run on it.
pub mod Prefixes
pub mod Named
use mathlib.Core.List.{flat_map, head?, append-nil}
use muen.Base.{
  ◌&&◌, Bool, true, false, List, [], ◌∷◌, ◌++◌, Option, none, some, Str, codes, ◌≡◌, refl,
}
use muen.Base.{
  ◌==◌, list_eq, nat_eq, select, take, drop, length, ◌-◌, if◌then◌else◌, arith, ap, ◌∙◌,
}
use muen.Base.Dict.{Dict, lookup}
use muen.Base.Dict
use muen.Base.Text.{split}
use muen.Base.Text.Laws.{Avoids-subset, split-cons, split_self}
use muen.Xml.Steps.{Step, is_local, is_named}
use muen.Xml.{Etree, IsLawful, IsName, special}

mutual
  pub data Tree : Type 0 where
    node : Option Str → Dict Str Str → Option Str → Items → Tree

  pub data Items : Type 0 where
    nil : Items
    cons : Tree → Items → Items

abbrev pub to_list : Items → List Tree
to_list nil = []
to_list (cons t ts) = t ∷ to_list ts

abbrev pub of_list : List Tree → Items
of_list [] = nil
of_list (t ∷ ts) = cons t (of_list ts)

-- An element, by its tag, attributes and children.
abbrev pub elem : Str → Dict Str Str → List Tree → Tree
elem t attributes ts = node (some t) attributes none (of_list ts)

abbrev pub tag : Tree → Option Str
tag (node t a x ts) = t

abbrev pub get : Tree → Str → Option Str
get (node t a x ts) k = lookup k a

abbrev pub children : Tree → List Tree
children (node t a x ts) = to_list ts

abbrev has_tag : Str → Tree → Bool
has_tag name e = elim (tag e) [ none ↦ false | some t ↦ t == name ]

abbrev is_element : Tree → Bool
is_element e = elim (tag e) [ none ↦ false | some t ↦ true ]

abbrev pub step_test : Step → Tree → Bool
step_test s e = is_local s.local (tag e) && is_named s.name (get e (codes "name"))

abbrev findall : Tree → Str → List Tree
findall e t = select (if t == codes "*" then is_element else has_tag t) (children e)

-- `t[@name='n']`
abbrev pub named_test : Str → Str → Tree → Bool
named_test t n e = has_tag t e && is_named (some n) (get e (codes "name"))

-- `t[@key="value"]`, by its parts between double quotes, the text before the first at its bracket
abbrev attribute_test : Str → Str → Str → Tree → Bool
attribute_test t key value e = has_tag t e && is_named (some value) (get e key)

abbrev bracket_parts : List Str → Str → Tree → Str → List Tree
bracket_parts (t ∷ key ∷ []) value e p =
    select (attribute_test t (take (length key - 1) key) value) (children e)
bracket_parts [] value e p = findall e p
bracket_parts (t ∷ []) value e p = findall e p
bracket_parts (t ∷ k ∷ l ∷ rest) value e p = findall e p

abbrev attribute_parts : List Str → Str → Tree → List Tree
attribute_parts (a ∷ value ∷ b ∷ []) p e = bracket_parts (split (codes "[@") a) value e p
attribute_parts [] p e = findall e p
attribute_parts (a ∷ []) p e = findall e p
attribute_parts (a ∷ b ∷ []) p e = findall e p
attribute_parts (a ∷ b ∷ c ∷ d ∷ rest) p e = findall e p

-- One step of a path, by its parts between single quotes
abbrev pub step_parts : List Str → Str → Tree → List Tree
step_parts (a ∷ t ∷ b ∷ []) p e =
    if a == codes "*[local-name()="
    then select (step_test (record { local = t; name = none })) (children e)
    else select (named_test (take (length a - 7) a) t) (children e)
step_parts (a ∷ t ∷ b ∷ n ∷ c ∷ rest) p e =
    select (step_test (record { local = t; name = some n })) (children e)
step_parts [] p e = findall e p
step_parts (a ∷ []) p e = attribute_parts (split (codes "\"") p) p e
step_parts (a ∷ t ∷ []) p e = findall e p
step_parts (a ∷ t ∷ b ∷ n ∷ []) p e = findall e p

abbrev pub step : Str → Tree → List Tree
step p e = if p == codes "." then e ∷ [] else step_parts (split (codes "'") p) p e

abbrev pub steps : List Str → List Tree → List Tree
steps [] es = es
steps (p ∷ ps) es = steps ps (flat_map (step p) es)

-- A path that begins with a slash starts above the root.
abbrev pub walk_parts : List Str → Tree → List Tree
walk_parts [] e = e ∷ []
walk_parts ([] ∷ ps) e = steps ps (node none [] none (cons e nil) ∷ [])
walk_parts ((c ∷ p) ∷ ps) e = steps ((c ∷ p) ∷ ps) (e ∷ [])

abbrev pub set_children : Tree → List Tree → Tree
set_children (node t a x _) ts = node t a x (of_list ts)

abbrev append : Tree → Tree → Tree
append e x = set_children e (children e ++ x ∷ [])

abbrev set : Tree → Str → Str → Tree
set (node t a x ts) k v = node t (Dict.insert k v a) x ts

abbrev text : Tree → Option Str
text (node t a x ts) = x

abbrev set_text : Tree → Str → Tree
set_text (node t a _ ts) x = node t a (some x) ts

abbrev pub tree : Etree
tree = record {
  Elem = Tree;
  tag = tag;
  get = get;
  children = children;
  find = λ e t. head? (findall e t);
  findall = findall;
  xpath = λ e p. walk_parts (split (codes "/") p) e;
  insert = λ e i x. set_children e (take i (children e) ++ x ∷ drop i (children e));
  set_children = set_children;
  element = λ t a. elem t a [];
  append = append;
  set = set;
  text = text;
  set_text = set_text;
}

get-set : (e : Tree) (k j v : Str) → get (set e k v) j ≡ (if k == j then some v else get e j)
get-set (node t a x ts) k j v = Dict.lookup-insert k j v a

tag-set : (e : Tree) (k v : Str) → tag (set e k v) ≡ tag e
tag-set (node t a x ts) k v = refl

text-set_text : (e : Tree) (t : Str) → text (set_text e t) ≡ some t
text-set_text (node t a x ts) u = refl

to_list-of_list : (ts : List Tree) → to_list (of_list ts) ≡ ts
to_list-of_list [] = refl
to_list-of_list (t ∷ ts) = rw (to_list-of_list ts)

findall_name : (e : Tree) (t : Str) → IsName t → findall e t ≡ select (has_tag t) (children e)
findall_name e [] h = absurd (h.0 refl)
findall_name e (c ∷ t) h = ground (arith, h.1.0)

pub flat_map-congr {ℓ} :
    {A B : Type ℓ} (f g : A → List B) (xs : List A)
    → ((a : A) → f a ≡ g a)
    → flat_map f xs ≡ flat_map g xs
unfolding flat_map
flat_map-congr f g [] h = refl
flat_map-congr f g (x ∷ xs) h = rw (h x, flat_map-congr f g xs h) refl

step_name : (e : Tree) (p : Str) → IsName p → step p e ≡ findall e p
step_name e [] h = absurd (h.0 refl)
step_name e (c ∷ p) h =
    rw
      (
        split_self b'\'' [] (c ∷ p) (Avoids-subset (codes "'") special (c ∷ p) (refl, tt) h.1),
        split_self b'"' [] (c ∷ p) (Avoids-subset (codes "\"") special (c ∷ p) (refl, tt) h.1),
      )
      (ground (arith, h.1.0))

xpath_two :
    (e : Tree) (a b : Str)
    → IsName a
    → IsName b
    → walk_parts (split (codes "/") (a ++ (codes "/" ++ b))) e
      ≡ flat_map (λ c. findall c b) (findall e a)
unfolding flat_map
xpath_two e [] b ha hb = absurd (ha.0 refl)
xpath_two e (c ∷ a) b ha hb =
    rw
      (
        split-cons b'/' [] (c ∷ a) b (Avoids-subset (codes "/") special (c ∷ a) (refl, tt) ha.1),
        split_self b'/' [] b (Avoids-subset (codes "/") special b (refl, tt) hb.1),
      )
      (ap (λ es. flat_map (step b) (es ++ [])) (step_name e (c ∷ a) ha)
        ∙ ap (flat_map (step b)) (append-nil (findall e (c ∷ a)))
        ∙ flat_map-congr (step b) (λ d. findall d b) (findall e (c ∷ a)) (λ d. step_name d b hb))

tag-set_children : (e : Tree) (cs : List Tree) → tag (set_children e cs) ≡ tag e
tag-set_children (node t a x ts) cs = refl

get-set_children : (e : Tree) (cs : List Tree) (k : Str) → get (set_children e cs) k ≡ get e k
get-set_children (node t a x ts) cs k = refl

children-set_children : (e : Tree) (cs : List Tree) → children (set_children e cs) ≡ cs
children-set_children (node t a x ts) cs = to_list-of_list cs

pub tree-IsLawful : IsLawful tree
tree-IsLawful = record {
  findall_star = λ e. refl;
  findall_name = findall_name;
  find_lem = λ e t. refl;
  xpath_two = xpath_two;
  tag-insert = λ e x i. tag-set_children e _;
  get-insert = λ e x i. get-set_children e _;
  children-insert = λ e x i. children-set_children e _;
  tag-set_children = tag-set_children;
  get-set_children = get-set_children;
  children-set_children = children-set_children;
  tag-element = λ t a. refl;
  get-element = λ t a k. refl;
  children-element = λ t a. refl;
  tag-append = λ e x. tag-set_children e _;
  get-append = λ e x. get-set_children e _;
  children-append = λ e x. children-set_children e _;
  get-set = get-set;
  tag-set = tag-set;
  text-set_text = text-set_text;
}
