-- ===== src/Base/Result.antt =====
-- Fallible code: a value, or what was thrown.
use mathlib.Core.Path.{◌≡◌, refl, sym}
use mathlib.Core.Bool.{Bool, true, false}
use mathlib.Core.List.{List, [], ◌∷◌, ◌++◌}
use mathlib.Core.Logic.{◌≢◌}
use native.Mathlib.Omega.{arith}

pub data Result {ℓ} (E : Type ℓ) (A : Type ℓ) : Type ℓ where
  err : E → Result E A
  ok : A → Result E A

-- `if (b) throw e`
abbrev pub throw_if : {E : Type 0} → Bool → E → Result E (Unit {0})
throw_if true e = err e
throw_if false e = ok tt

-- `try { … } catch (e) { throw f(e) }`
abbrev pub map_err {ℓ} : {E F A : Type ℓ} → (E → F) → Result E A → Result F A
map_err f (ok a) = ok a
map_err f (err e) = err (f e)

infixl 5 ◌>>=◌
-- `const a = await m; …`
abbrev pub ◌>>=◌ {ℓ} : {E A B : Type ℓ} → Result E A → (A → Result E B) → Result E B
err thrown >>= next = err thrown
ok value >>= next = next value

-- `await m; …`
infixl 5 ◌>>◌
abbrev pub ◌>>◌ {ℓ} : {E A B : Type ℓ} → Result E A → Result E B → Result E B
first >> second = first >>= λ _. second

-- A chain that gives a value gives one at each of its two steps.
pub >>=-eq-ok {ℓ} :
    {E A B : Type ℓ} (first : Result E A) (next : A → Result E B) {value : B}
    → (first >>= next) ≡ ok value
    → (got : A) × (first ≡ ok got) × (next got ≡ ok value)
>>=-eq-ok (err thrown) next chain = cc
>>=-eq-ok (ok got) next chain = (got, refl, chain)

pub bind-ok {ℓ} : {E A : Type ℓ} (m : Result E A) → (m >>= λ a. ok a) ≡ m
bind-ok (ok a) = refl
bind-ok (err e) = refl

module _ {ℓ} {E A B : Type ℓ} where
  -- `Promise.all(xs.map(f))`: the values in order, or the first failure.
  unfoldable pub traverse : (A → Result E B) → List A → Result E (List B)
  traverse f [] = ok []
  traverse f (x ∷ xs) = do y ← f x; ys ← traverse f xs; ok (y ∷ ys)

  -- What failed stays failed, wherever it stands in the list.
  pub traverse-ne-ok :
      (f : A → Result E B) (xs ys : List A) (x : A) (e : E) (zs : List B)
      → f x ≡ err e
      → traverse f (xs ++ x ∷ ys) ≢ ok zs
  unfolding traverse
  traverse-ne-ok f [] ys x e zs h = ground arith
  traverse-ne-ok f (w ∷ xs) ys x e zs h = λ p.
      let (y, _, rest) = >>=-eq-ok (f w) _ p in
      let (vs, found, _) = >>=-eq-ok (traverse f (xs ++ x ∷ ys)) _ rest in
      traverse-ne-ok f xs ys x e vs h found

  pub traverse-append :
      (f : A → Result E B) (xs ys : List A)
      → traverse f (xs ++ ys) ≡ (do as' ← traverse f xs; bs ← traverse f ys; ok (as' ++ bs))
  unfolding traverse
  traverse-append f [] ys = sym (bind-ok (traverse f ys))
  traverse-append f (x ∷ xs) ys = ground (arith, traverse-append f xs ys)
