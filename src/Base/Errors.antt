-- ===== src/Base/Errors.antt =====
-- What a Python call may end in: a value, or an exception that nothing in these scripts catches.
use mathlib.Core.Path.{◌≡◌, refl, ap, ◌∙◌, sym}
use mathlib.Core.Logic.{◌⊎◌, inl, inr}
use mathlib.Core.Bool.{Bool, true, false}
use mathlib.Core.List.{List, [], ◌∷◌, ◌++◌, flat_map}
use mathlib.Core.Option.{Option, some, none}
use Prim.Native.Nat.{ℕ}

-- `exit` is `exit(1)` or `sys.exit(message)`, with the text that is printed; `out_of_fuel` is the
-- model's own.
pub data Error : Type 0 where
  exit : List ℕ → Error
  value_error exception : List ℕ → Error
  index_error key_error type_error attribute_error name_error out_of_fuel : Error

-- The outcome of a call.
pub data Result {ℓ} (V : Type ℓ) : Type ℓ where
  err : Error → Result V
  ok : V → Result V

pub ok_injective {ℓ} : {V : Type ℓ} (a b : V) → ok a ≡ ok b → a ≡ b
ok_injective a b h = cc

-- A value that may be `None` where a text is concatenated or written
abbrev pub text_of : Option (List ℕ) → Result (List ℕ)
text_of none = err type_error
text_of (some v) = ok v

-- A test that ends the script.
abbrev pub guard : Bool → Error → Result (Unit {0})
guard false why = err why
guard true why = ok tt

infixl 5 ◌>>=◌ ◌>>◌
-- A call, and what is done with its value.
abbrev pub ◌>>=◌ {ℓ κ} : {V : Type ℓ} {W : Type κ} → Result V → (V → Result W) → Result W
err why >>= next = err why
ok v >>= next = next v

abbrev pub ◌>>◌ {κ} : {W : Type κ} → Result (Unit {0}) → Result W → Result W
first >> second = first >>= (λ u. second)

-- A loop that updates a state and may raise.
unfoldable pub for_each {ℓ κ} :
    {A : Type ℓ} {S : Type κ} → (A → S → Result S) → List A → S → Result S
for_each f [] s = ok s
for_each f (x ∷ xs) s = f x s >>= for_each f xs

pub Result-cases {ℓ} :
    {A : Type ℓ} (r : Result A) → ((a : A) × (r ≡ ok a)) ⊎ ((e : Error) × (r ≡ err e))
Result-cases (ok a) = inl (a, refl)
Result-cases (err e) = inr (e, refl)

-- The two parts of a chain that returns.
pub >>=-eq-ok {ℓ κ} :
    {V : Type ℓ} {W : Type κ} (call : Result V) (next : V → Result W) {w : W}
    → (call >>= next) ≡ ok w
    → (v : V) × (call ≡ ok v) × (next v ≡ ok w)
>>=-eq-ok (err why) next h = cc
>>=-eq-ok (ok v) next h = (v, refl, h)

-- Two chains agree if they agree behind every value that their first part returns.
pub >>=-congr {ℓ κ} :
    {V : Type ℓ} {W : Type κ} (call : Result V) (f g : V → Result W)
    → ((v : V) → call ≡ ok v → f v ≡ g v)
    → (call >>= f) ≡ (call >>= g)
>>=-congr (ok a) f g h = h a refl
>>=-congr (err e) f g h = refl

pub >>=-ok {ℓ} : {V : Type ℓ} (r : Result V) → (r >>= (λ v. ok v)) ≡ r
>>=-ok (ok v) = refl
>>=-ok (err e) = refl

pub >>=_assoc {ℓ} :
    {U V W : Type ℓ} (r : Result U) (f : U → Result V) (g : V → Result W)
    → (r >>= f >>= g) ≡ (r >>= (λ u. f u >>= g))
>>=_assoc (ok u) f g = refl
>>=_assoc (err e) f g = refl

module _ {ℓ} {A S : Type ℓ} where
  pub for_each-one : (f : A → S → Result S) (x : A) (s : S) → for_each f (x ∷ []) s ≡ f x s
  unfolding for_each
  for_each-one f x s = >>=-ok (f x s)

  pub for_each-congr :
      (f g : A → S → Result S) (xs : List A) (s : S)
      → ((x : A) (t : S) → f x t ≡ g x t)
      → for_each f xs s ≡ for_each g xs s
  unfolding for_each
  for_each-congr f g [] s h = refl
  for_each-congr f g (x ∷ xs) s h =
      ap (λ r. r >>= for_each f xs) (h x s)
      ∙ >>=-congr (g x s) (for_each f xs) (for_each g xs) (λ t _. for_each-congr f g xs t h)

  pub for_each-append :
      (f : A → S → Result S) (xs ys : List A) (s : S)
      → for_each f (xs ++ ys) s ≡ (for_each f xs s >>= for_each f ys)
  unfolding for_each
  for_each-append f [] ys s = refl
  for_each-append f (x ∷ xs) ys s =
      >>=-congr (f x s) _ _ (λ t _. for_each-append f xs ys t)
      ∙ sym (>>=_assoc (f x s) (for_each f xs) (for_each f ys))

  pub for_each-flat_map :
      {B : Type ℓ} (f : A → S → Result S) (g : B → List A) (xs : List B) (s : S)
      → for_each f (flat_map g xs) s ≡ for_each (λ x. for_each f (g x)) xs s
  unfolding for_each flat_map
  for_each-flat_map f g [] s = refl
  for_each-flat_map f g (x ∷ xs) s =
      for_each-append f (g x) (flat_map g xs) s
      ∙ >>=-congr (for_each f (g x) s) _ _ (λ t _. for_each-flat_map f g xs t)
