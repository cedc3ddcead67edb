-- ===== src/AdjustXmlSpec.antt =====
-- The script components/sl/misc/adjust-xml-spec.py, which sets the hashes of writable memory regions
-- to `none`, on the root of the specification.
pub mod Cleared
use muen.Base.{
  Bool, true, false, ◌&&◌, List, [], ◌∷◌, Option, none, some, Str, codes, if◌then◌else◌,
}
use muen.Base.{Result, ok, err, ◌>>=◌, ◌==◌, list_eq, nat_eq, option_eq, any, map, length, eqb}
use muen.Base.{text_of}
use muen.Xml.{Etree, has_tag}

-- A function that may raise, on each item
unfoldable pub map_ok {ℓ} : {A : Type ℓ} → (A → Result A) → List A → Result (List A)
map_ok f [] = ok []
map_ok f (x ∷ xs) = do y ← f x; ys ← map_ok f xs; ok (y ∷ ys)

abbrev pub hash_path : Str
hash_path = codes "/component/provides/memory[@writable=\"true\"]/hash"

module _ (X : Etree) where
  abbrev pub is_hash : X.Elem → Bool
  is_hash = has_tag X (codes "hash")

  -- `memory[@writable="true"]`
  abbrev pub is_writable : X.Elem → Bool
  is_writable m =
      has_tag X (codes "memory") m && (X.get m (codes "writable") == some (codes "true"))

  abbrev pub clear_hash : X.Elem → X.Elem
  clear_hash c = if is_hash c then X.set c (codes "value") (codes "none") else c

  -- The message for a hash needs the name of its region.
  abbrev pub adjust_memory : X.Elem → Result X.Elem
  adjust_memory m =
      if is_writable m && any is_hash (X.children m)
      then text_of (X.get m (codes "logical"))
        >>= (λ logical. ok (X.set_children m (map clear_hash (X.children m))))
      else ok m

  abbrev pub adjust_provides : X.Elem → Result X.Elem
  adjust_provides p =
      if has_tag X (codes "provides") p
      then map_ok adjust_memory (X.children p) >>= (λ ms. ok (X.set_children p ms))
      else ok p

  -- `none` if no file is written
  unfoldable pub adjust_xml_spec : X.Elem → Result (Option X.Elem)
  adjust_xml_spec doc =
      let hash_nodes = X.xpath doc hash_path in
      if eqb (length hash_nodes) 0
      then ok none
      else map_ok adjust_provides (X.children doc) >>= (λ ps. ok (some (X.set_children doc ps)))
