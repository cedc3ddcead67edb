-- ===== src/DocTransfer/Subjects/Resolve.antt =====
-- The last loop of `compile_component_to_subjects_map` in tools/plugins/documentation/doc_transfer.py: what
-- it adds to the map.
use mathlib.Core.Logic.{⊎_elim}
use muen.Base.{Bool-cases, pair_beq, ap, ◌∙◌}
use muen.Base.{◌≡◌, ◌⊎◌, inl, inr, refl, arith, Bool, true, false, Option, none, some}
use muen.Base.{List, [], ◌∷◌, Str, list_eq, option_eq, pair_eq, nat_eq, contains, add, contains-add}
use muen.Base.{ok, option_beq_iff, pair_beq_iff, Option-cases}
use muen.Base.Dict.{lookup, insert, lookup-insert}
use muen.DocTransfer.Graph.{Node, Graph}
use muen.DocTransfer.Graph.Reach.{Walk, get_reachable_nodes_returns}
use muen.DocTransfer.Subjects.{SubjectMap, add_subject, add_to_all, resolve}

abbrev pub has_key : SubjectMap → Option Str → Bool
has_key m n = elim (lookup n m) [ none ↦ false | some t ↦ true ]

-- `s` is in the set of the name `n`.
abbrev pub listed : SubjectMap → Option Str → Option Str → Bool
listed m n s = elim (lookup n m) [ none ↦ false | some t ↦ contains t s ]

-- `m'` has the keys of `m`, and its sets hold the pairs of `P` beside those of `m`.
pub record Adds (m m' : SubjectMap) (P : Option Str → Option Str → Type 0) : Type 0 where
  pub keys : (n : Option Str) → has_key m n ≡ true → has_key m' n ≡ true
  pub sound : (n s : Option Str) → listed m' n s ≡ true → (listed m n s ≡ true) ⊎ P n s
  pub old : (n s : Option Str) → listed m n s ≡ true → listed m' n s ≡ true
  pub new : (n s : Option Str) → P n s → listed m' n s ≡ true

-- The lemmas about the entry that `add_subject` writes.
module _ (k v : Option Str) (m : SubjectMap) {t : List (Option Str)}
    (found : lookup k m ≡ some t) where
  insert-Adds : Adds m (insert k (add t v) m) (λ n s. (k ≡ n) × (v ≡ s))
  insert-Adds = record {
    keys = λ n p. ground (arith, option_beq_iff k n, lookup-insert k n (add t v) m);
    sound = λ n s p.
        ground (arith, option_beq_iff k n, lookup-insert k n (add t v) m, contains-add t v s);
    old = λ n s p.
        ground (arith, option_beq_iff k n, lookup-insert k n (add t v) m, contains-add t v s);
    new = λ n s p.
        ground (arith, option_beq_iff k n, lookup-insert k n (add t v) m, contains-add t v s);
  }

add_subject-Adds :
    (k v : Option Str) (m : SubjectMap)
    → has_key m k ≡ true
    → (m' : SubjectMap) × (add_subject k v m ≡ ok m') × Adds m m' (λ n s. (k ≡ n) × (v ≡ s))
unfolding add_subject
add_subject-Adds k v m h = elim (Option-cases (lookup k m)) [
  | inl e ↦ ground arith
  | inr (t, e) ↦ (insert k (add t v) m, rw (e, add_subject), insert-Adds k v m e)
]

Adds-nil :
    (m : SubjectMap) (P : Option Str → Option Str → Type 0)
    → ((n s : Option Str) → ¬ P n s)
    → Adds m m P
Adds-nil m P h = record {
  keys = λ n p. p;
  sound = λ n s p. inl p;
  old = λ n s p. p;
  new = λ n s p. absurd (h n s p);
}

module _ {m m₁ m₂ : SubjectMap} (P Q R : Option Str → Option Str → Type 0) where
  Adds-trans :
      Adds m m₁ P
      → Adds m₁ m₂ Q
      → ((n s : Option Str) → P n s → R n s)
      → ((n s : Option Str) → Q n s → R n s)
      → ((n s : Option Str) → R n s → P n s ⊎ Q n s)
      → Adds m m₂ R
  Adds-trans a b p q r = record {
    keys = λ n h. b.keys n (a.keys n h);
    sound = λ n s h.
        ⊎_elim (λ h'. ⊎_elim inl (λ x. inr (p n s x)) (a.sound n s h')) (λ x. inr (q n s x))
          (b.sound n s h);
    old = λ n s h. b.old n s (a.old n s h);
    new = λ n s h. ⊎_elim (λ x. b.old n s (a.new n s x)) (b.new n s) (r n s h);
  }

-- What the loop over `ns` adds: the value `v`, under the name of each node.
abbrev Under : Option Str → List Node → Option Str → Option Str → Type 0
Under v ns n s = (y : Node) × (contains ns y ≡ true) × (y.0 ≡ n) × (v ≡ s)

Under-cons :
    (v : Option Str) (x : Node) (ns : List Node) (n s : Option Str)
    → Under v (x ∷ ns) n s
    → ((x.0 ≡ n) × (v ≡ s)) ⊎ Under v ns n s
Under-cons v x ns n s (y, m, e, f) = elim (Bool-cases (pair_beq x y)) [
  | inl p ↦ let q = (pair_beq_iff x y).0 p in inl (ap (λ (z : Node). z.0) q ∙ e, f)
  | inr p ↦ inr (y, ground arith, e, f)
]

add_to_all-Adds :
    (v : Option Str) (ns : List Node) (m : SubjectMap)
    → ((y : Node) → contains ns y ≡ true → has_key m y.0 ≡ true)
    → (m' : SubjectMap) × (add_to_all v ns m ≡ ok m') × Adds m m' (Under v ns)
unfolding add_to_all
add_to_all-Adds v [] m h = (m, refl, Adds-nil m (Under v []) (λ n s (y, p, e, f). cc))
add_to_all-Adds v (x ∷ ns) m h =
    let (m₁, e₁, a₁) = add_subject-Adds x.0 v m (h x (ground (arith, pair_beq_iff x x))) in
    let (m₂, e₂, a₂) = add_to_all-Adds v ns m₁ (λ y p. a₁.keys y.0 (h y (ground arith))) in
    (
      m₂,
      rw (e₁, e₂),
      Adds-trans (λ n s. (x.0 ≡ n) × (v ≡ s)) (Under v ns) (Under v (x ∷ ns)) a₁ a₂
          (λ n s (p, q). (x, ground (arith, pair_beq_iff x x), p, q))
          (λ n s (y, p, q, r). (y, ground arith, q, r)) (Under-cons v x ns),
    )

-- A subject of `ns` with the name `s` reaches a node with the name `n`.
abbrev pub Reaches : Graph → List Node → Option Str → Option Str → Type 0
Reaches g ns n s =
    (x : Node) × (y : Node) × (contains ns x ≡ true) × (x.0 ≡ s) × Walk g x y × (y.0 ≡ n)

Reaches-cons :
    (g : Graph) (x : Node) (ns reached : List Node)
    → ((y : Node) → Walk g x y → contains reached y ≡ true)
    → (n s : Option Str) → Reaches g (x ∷ ns) n s
    → Under x.0 reached n s ⊎ Reaches g ns n s
Reaches-cons g x ns reached full n s (z, y, m, e, w, f) = elim (Bool-cases (pair_beq x z)) [
  | inl p ↦
      let q : x ≡ z = (pair_beq_iff x z).0 p in
      inl (y, full y (rw q w), f, ap (λ (u : Node). u.0) q ∙ e)
  | inr p ↦ inr (z, y, ground arith, e, w, f)
]

pub resolve-Adds :
    (g : Graph) (ns : List Node) (m : SubjectMap)
    → ((x y : Node) → Walk g x y → has_key m y.0 ≡ true)
    → (m' : SubjectMap) × (resolve g ns m ≡ ok m') × Adds m m' (Reaches g ns)
unfolding resolve
resolve-Adds g [] m h = (m, refl, Adds-nil m (Reaches g []) (λ n s (x, y, p, q, w, r). cc))
resolve-Adds g (x ∷ ns) m h =
    let (t, e, sound, full) = get_reachable_nodes_returns g x in
    let (m₁, e₁, a₁) = add_to_all-Adds x.0 t m (λ y p. h x y (sound y p)) in
    let (m₂, e₂, a₂) = resolve-Adds g ns m₁ (λ z y w. a₁.keys y.0 (h z y w)) in
    (
      m₂,
      rw (e, e₁, e₂),
      Adds-trans (Under x.0 t) (Reaches g ns) (Reaches g (x ∷ ns)) a₁ a₂
          (λ n s (y, p, q, r). (x, y, ground (arith, pair_beq_iff x x), r, sound y p, q))
          (λ n s (z, y, p, q, w, r). (z, y, ground arith, q, w, r)) (Reaches-cons g x ns t full),
    )
