-- ===== src/DocTransfer/Rules/Notation.antt =====
-- The local rules that the dictionaries of doc_transfer.py are written in, and their parts.
use mathlib.Core.List.{append_assoc, cons-ne-nil}
use muen.Base.{ℕ, true, false, [], ◌∷◌, ◌++◌, Str, codes, ◌≡◌, ◌≢◌}
use muen.Base.{list_eq, option_eq, nat_eq, eqb_iff, arith, refl}
use muen.Base.{ok, ap, All-append}
use muen.Base.Text.{split, has_infix, is_in}
use muen.Base.Text.Laws.{Avoids, Avoids-subset, split-cons, split_self}
use muen.DocTransfer.Rules.{at}

-- A tag; a tag with an attribute that must have a value; a tag with a variable for the value of an
-- attribute.
pub data Local : Type 0 where
  plain : Str → Local
  equals : Str → Str → Str → Local
  binds : Str → Str → Str → Local

abbrev pub attribute : Str → Str → Str → Str
attribute tag attr value = tag ++ (codes "[@" ++ (attr ++ (codes "=\"" ++ (value ++ codes "\"]"))))

abbrev pub print : Local → Str
print (plain tag) = tag
print (equals tag attr value) = attribute tag attr value
print (binds tag attr variable) = attribute tag attr (b'$' ∷ variable)

-- The characters that the notation uses.
abbrev pub notation : Str
notation = codes "/[]@=\""

abbrev pub IsPlain : Str → Type 0
IsPlain = Avoids notation

abbrev pub IsLocal : Local → Type 0
IsLocal (plain tag) = IsPlain tag × (tag ≢ [])
IsLocal (equals tag attr value) =
    IsPlain tag
    × IsPlain attr
    × IsPlain value
    × (value ≢ [])
    × (has_infix value (codes "$") ≡ false)
IsLocal (binds tag attr variable) = IsPlain tag × IsPlain attr × IsPlain variable

pub print-ne-nil : (l : Local) → IsLocal l → print l ≢ []
print-ne-nil (plain tag) h = h.1
print-ne-nil (equals [] attr value) h = cons-ne-nil _ _
print-ne-nil (equals (c ∷ tag) attr value) h = cons-ne-nil _ _
print-ne-nil (binds [] attr variable) h = cons-ne-nil _ _
print-ne-nil (binds (c ∷ tag) attr variable) h = cons-ne-nil _ _

pub has_infix-append : (p s : Str) → has_infix (p ++ (b'[' ∷ s)) (codes "[") ≡ true
has_infix-append [] s = refl
has_infix-append (c ∷ p) s = ground (arith, has_infix-append p s)

pub has_infix_plain : (p : Str) → IsPlain p → has_infix p (codes "[") ≡ false
has_infix_plain [] h = refl
has_infix_plain (c ∷ p) h =
    ground (arith, eqb_iff c b'[', eqb_iff b'[' c, h.0, has_infix_plain p h.1)

-- The text between `[@` and `]`.
abbrev pub quoted : Str → Str → Str
quoted attr value = attr ++ (codes "=\"" ++ (value ++ codes "\""))

pub avoids : (d : ℕ) (s : Str) → is_in notation d ≡ true → IsPlain s → Avoids (d ∷ []) s
avoids d s m h = Avoids-subset (d ∷ []) notation s (m, tt) h

-- What `split("[@")` leaves behind the tag.
pub part_attribute :
    (tag attr value : Str)
    → IsPlain tag
    → IsPlain attr
    → IsPlain value
    → at (split (codes "[@") (attribute tag attr value)) 1 ≡ ok (quoted attr value ++ codes "]")
part_attribute tag attr value ht ha hv =
    let rest = attr ++ (codes "=\"" ++ (value ++ codes "\"]")) in
    let lacks : Avoids (codes "[") rest =
      All-append _ attr _ (avoids b'[' attr refl ha)
        (refl, (refl, All-append _ value _ (avoids b'[' value refl hv) (refl, (refl, tt)))) in
    rw
      (
        split-cons b'[' (codes "@") tag rest (avoids b'[' tag refl ht),
        split_self b'[' (codes "@") rest lacks,
      )
      (ap (λ (s : Str). ok s) (simp append_assoc))

pub name_quoted :
    (attr value : Str) → IsPlain attr → at (split (codes "=") (quoted attr value)) 0 ≡ ok attr
name_quoted attr value ha =
    rw (split-cons b'=' [] attr (b'"' ∷ (value ++ codes "\"")) (avoids b'=' attr refl ha))

pub value_quoted :
    (attr value : Str)
    → IsPlain attr
    → IsPlain value
    → at (split (codes "=\"") (quoted attr value)) 1 ≡ ok (value ++ codes "\"")
value_quoted attr value ha hv = rw (
  split-cons b'=' (codes "\"") attr (value ++ codes "\"") (avoids b'=' attr refl ha),
  split_self b'=' (codes "\"") (value ++ codes "\"")
      (All-append _ value _ (avoids b'=' value refl hv) (refl, tt)),
)

pub name_attribute :
    (tag attr value : Str)
    → IsPlain tag
    → at (split (codes "[") (attribute tag attr value)) 0 ≡ ok tag
name_attribute tag attr value ht = rw (split-cons b'[' [] tag _ (avoids b'[' tag refl ht))

pub name_plain : (tag : Str) → IsPlain tag → at (split (codes "[") tag) 0 ≡ ok tag
name_plain tag ht = rw (split_self b'[' [] tag (avoids b'[' tag refl ht))
