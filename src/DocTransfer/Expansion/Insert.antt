-- ===== src/DocTransfer/Expansion/Insert.antt =====
-- `add_to_output_func` of tools/plugins/documentation/doc_transfer.py, and the paths that a target path
-- stands for.
use mathlib.Core.List.{append_assoc, append-nil, append-eq-nil_iff}
use native.Mathlib.Nat.{add-zero}
use muen.Base.{ℕ, zero, suc, ◌<◌, List, [], ◌∷◌, ◌++◌, Option}
use muen.Base.{◌≡◌, ◌≢◌, refl, ◌∙◌, sym, ap, arith, list_eq, nat_eq, if◌then◌else◌}
use muen.Base.{
  inl, inr, Bool-cases, replicate, replicate-append, Result, ok, ◌>>=◌, >>=-eq-ok, Str, codes,
}
use muen.Base.{length, length-append}
use muen.Base.Text.{join, split, has_infix}
use muen.Base.Text.Laws.{Avoids, split-cons, split_self, join-split}
use muen.DocTransfer.Subjects.{SubjectMap}
use muen.DocTransfer.Rules.{Bindings, at, local_part, remaining_part}
use muen.DocTransfer.Expansion.{
  Expansion, expansion, add_new_leaf, insert_all, substitute, add_level, add_path,
  add_to_output_func, get_list_of_substitutions,
}
use muen.DocTransfer.Expansion.View.{leaves_at, Puts, below, below_all, insert_under-Puts}

-- The substitutions of a parameter, made in a level of the path.
unfoldable pub substitute_all : Str → Str → List (Option Str) → Result (List Str)
substitute_all local_path old [] = ok []
substitute_all local_path old (sub ∷ subs) = do
  s ← substitute local_path old sub
  ss ← substitute_all local_path old subs
  ok (s ∷ ss)

-- The keys that a level of the target path stands for.
unfoldable pub keys_of : Bindings → SubjectMap → Str → Result (List Str)
keys_of param_bind c2s_map local_path =
    if has_infix local_path (codes "$")
    then (do
      old ← at (split (codes "\"") local_path) 1
      subs ← get_list_of_substitutions old param_bind c2s_map
      substitute_all local_path old subs)
    else ok (local_path ∷ [])

-- How often a path is one of the paths with a key of each level.
abbrev pub occurrences : List (List Str) → List Str → ℕ
occurrences [] [] = 1
occurrences [] (j ∷ p) = 0
occurrences (ss ∷ levels) p = below_all ss (occurrences levels) p

-- The levels of a target path, with the keys that they stand for.
abbrev pub Levels : Bindings → SubjectMap → List Str → List (List Str) → Type 0
Levels param_bind c2s_map [] [] = Unit
Levels param_bind c2s_map [] (k ∷ ks) = ⊥
Levels param_bind c2s_map (s ∷ ss) [] = ⊥
Levels param_bind c2s_map (s ∷ ss) (k ∷ ks) =
    Avoids (codes "/") s
    × (s ≢ [])
    × (keys_of param_bind c2s_map s ≡ ok k)
    × Levels param_bind c2s_map ss ks

join-ne-nil : (s : Str) (ss : List Str) → s ≢ [] → join (codes "/") (s ∷ ss) ≢ []
join-ne-nil s [] h = h
join-ne-nil s (t ∷ ss) h = λ e. h (append-eq-nil_iff.0 e).0

local_part-join :
    (s : Str) (ss : List Str) → Avoids (codes "/") s → local_part (join (codes "/") (s ∷ ss)) ≡ s
unfolding local_part
local_part-join s [] h = rw (split_self b'/' [] s h)
local_part-join s (t ∷ ss) h = rw (split-cons b'/' [] s (join (codes "/") (t ∷ ss)) h)

remaining_part-join :
    (s : Str) (ss : List Str)
    → Avoids (codes "/") s
    → remaining_part (join (codes "/") (s ∷ ss)) ≡ join (codes "/") ss
unfolding remaining_part
remaining_part-join s [] h = rw (split_self b'/' [] s h)
remaining_part-join s (t ∷ ss) h =
    rw (split-cons b'/' [] s (join (codes "/") (t ∷ ss)) h)
      (join-split b'/' (join (codes "/") (t ∷ ss)))

length-join :
    (s : Str) (ss : List Str)
    → s ≢ []
    → length (join (codes "/") ss) < length (join (codes "/") (s ∷ ss))
length-join [] ss h = absurd (h refl)
length-join (c ∷ s) [] h = omega arith
length-join (c ∷ s) (t ∷ ss) h = omega (arith, length-append s (b'/' ∷ join (codes "/") (t ∷ ss)))

module _ {E : Type 0} (node : E) (param_bind : Bindings) (c2s_map : SubjectMap) where
  insert_all-Puts :
      (local_path old : Str) (f : Expansion E → Result (Expansion E)) (k : List Str → ℕ)
      (subs : List (Option Str)) (ss : List Str)
      → Puts node f k
      → substitute_all local_path old subs ≡ ok ss
      → Puts node (insert_all node param_bind c2s_map local_path old f subs) (below_all ss k)
  unfolding insert_all substitute_all
  insert_all-Puts local_path old f k [] [] h e x = (x, refl, λ p. sym (append-nil _))
  insert_all-Puts local_path old f k [] (s ∷ ss) h e x = cc
  insert_all-Puts local_path old f k (sub ∷ subs) ss h e x =
      let (s, e₁, r) = >>=-eq-ok (substitute local_path old sub) _ e in
      let (ss', e₂, q) = >>=-eq-ok (substitute_all local_path old subs) _ r in
      let (y, run, view) = insert_under-Puts node s f k h x in
      let (z, run', view') = insert_all-Puts local_path old f k subs ss' h e₂ y in
      let both : ss ≡ s ∷ ss' = cc in
      (
        z,
        rw (e₁, run, run'),
        λ p. rw both (
            view' p
            ∙ rw (view p, append_assoc)
                (ap (λ (r : List E). leaves_at p x ++ r)
                  (replicate-append (below s k p) (below_all ss' k p) node))),
      )

  add_new_leaf-Puts : Puts node (λ e. ok (add_new_leaf e node)) (occurrences [])
  unfolding add_new_leaf leaves_at
  add_new_leaf-Puts (expansion leaves cs) =
      (expansion (leaves ++ node ∷ []) cs, refl, elim [ [] ↦ refl | j ∷ p ↦ sym (append-nil _) ])

  -- One level of the path, with the call for the other levels.
  level-Puts :
      (local_path : Str) (inner : Expansion E → Result (Expansion E)) (k : List Str → ℕ)
      (ss : List Str)
      → keys_of param_bind c2s_map local_path ≡ ok ss
      → Puts node inner k
      → Puts node (add_level node param_bind c2s_map local_path inner) (below_all ss k)
  unfolding keys_of add_level
  level-Puts local_path inner k ss e h x = elim (Bool-cases (has_infix local_path (codes "$"))) [
    | inl b ↦
        let (old, e₁, r) =
          >>=-eq-ok (at (split (codes "\"") local_path) 1) _ (rw (b, keys_of) at e) in
        let (subs, e₂, q) = >>=-eq-ok (get_list_of_substitutions old param_bind c2s_map) _ r in
        let (t, run, view) = insert_all-Puts local_path old inner k subs ss h q x in
        (t, rw (b, add_level, e₁, e₂, run), view)
    | inr b ↦
        let (t, run, view) = insert_under-Puts node local_path inner k h x in
        let one : ss ≡ local_path ∷ [] = ground arith in
        (t, rw (b, add_level, run), λ p. rw (one, add-zero) (view p))
  ]

  add_path_step :
      (fuel : ℕ) (path : Str) (e : Expansion E)
      → path ≢ []
      → add_path node param_bind c2s_map (suc fuel) path e
        ≡ add_level node param_bind c2s_map
            (local_part path)
            (add_path node param_bind c2s_map fuel (remaining_part path))
            e
  unfolding add_path
  add_path_step fuel [] e h = absurd (h refl)
  add_path_step fuel (c ∷ path) e h = refl

  add_path-Puts :
      (fuel : ℕ) (ss : List Str) (levels : List (List Str))
      → Levels param_bind c2s_map ss levels
      → length (join (codes "/") ss) < fuel
      → Puts node (add_path node param_bind c2s_map fuel (join (codes "/") ss)) (occurrences levels)
  unfolding add_path
  add_path-Puts zero ss levels h f e = absurd (omega arith)
  add_path-Puts (suc fuel) [] [] h f e = add_new_leaf-Puts e
  add_path-Puts (suc fuel) [] (k ∷ levels) h f e = absurd h
  add_path-Puts (suc fuel) (s ∷ ss) [] h f e = absurd h
  add_path-Puts (suc fuel) (s ∷ ss) (k ∷ levels) h f e =
      rw
        (
          add_path_step fuel (join (codes "/") (s ∷ ss)) e (join-ne-nil s ss h.1),
          local_part-join s ss h.0,
          remaining_part-join s ss h.0,
        )
        (level-Puts s _ (occurrences levels) k h.2
          (add_path-Puts fuel ss levels h.3 (omega (arith, length-join s ss h.1))) e)

  -- If each level of the target path stands for some keys, then `add_to_output_func` returns, with
  -- the node put at each path of such keys as often as the keys say, and every other leaf where it
  -- was.
  pub add_to_output_func-Puts :
      (ss : List Str) (levels : List (List Str))
      → Levels param_bind c2s_map ss levels
      → (e : Expansion E)
      → (t : Expansion E) × (add_to_output_func node param_bind c2s_map (join (codes "/") ss) e
          ≡ ok t)
        × ((p : List Str) → leaves_at p t ≡ leaves_at p e ++ replicate (occurrences levels p) node)
  unfolding add_to_output_func
  add_to_output_func-Puts ss levels h e = add_path-Puts _ ss levels h (omega arith) e
