-- ===== src/Base/Sort.antt =====
-- `[...xs].sort(compare)`: JavaScript's sort is stable. `after a b` is `compare(a, b) > 0`.
use mathlib.Core.Path.{◌≡◌, refl}
use mathlib.Core.Logic.{inl, inr}
use mathlib.Core.Bool.{Bool, true, false}
use mathlib.Core.List.{List, [], ◌∷◌}
use mathlib.Core.List.Perm
use mathlib.Core.List.{Perm}
use native.Mathlib.Omega.{arith}
use stellar_quorum.Base.Tests.{if◌then◌else◌, Bool-cases}
use stellar_quorum.Base.Lists.{All, All-impl, keep}

-- A comparison that orders its arguments, ties allowed.
pub record IsConsistent {ℓ} {A : Type ℓ} (after : A → A → Bool) : Type ℓ where
  pub one_way : (a b : A) → after a b ≡ true → after b a ≡ false
  pub chains : (a b c : A) → after a b ≡ false → after b c ≡ false → after a c ≡ false

module _ {ℓ} {A : Type ℓ} (after : A → A → Bool) where
  unfoldable pub insert : A → List A → List A
  insert x [] = x ∷ []
  insert x (y ∷ ys) = let later = y ∷ insert x ys in if after x y then later else x ∷ y ∷ ys

  unfoldable pub sort : List A → List A
  unfolding insert
  sort [] = []
  sort (x ∷ xs) = insert x (sort xs)

  -- Nothing stands after a later one.
  abbrev pub IsSorted : List A → Type ℓ
  IsSorted [] = Unit
  IsSorted (x ∷ xs) = All (λ y. after x y ≡ false) xs × IsSorted xs

  insert-perm : (x : A) (xs : List A) → Perm (insert x xs) (x ∷ xs)
  unfolding insert
  insert-perm x [] = Perm.refl (x ∷ [])
  insert-perm x (y ∷ ys) = elim (Bool-cases (after x y)) [
    | inl later ↦ rw later (Perm.trans (Perm.cons y (insert-perm x ys)) (Perm.swap x y ys))
    | inr here ↦ rw here (Perm.refl (x ∷ y ∷ ys))
  ]

  pub sort-perm : (xs : List A) → Perm (sort xs) xs
  unfolding sort
  sort-perm [] = Perm.refl []
  sort-perm (x ∷ xs) = Perm.trans (insert-perm x (sort xs)) (Perm.cons x (sort-perm xs))

  All-insert {κ} : (P : A → Type κ) (x : A) (xs : List A) → P x → All P xs → All P (insert x xs)
  unfolding insert
  All-insert P x [] h k = (h, tt)
  All-insert P x (y ∷ ys) h k = elim (Bool-cases (after x y)) [
    | inl later ↦ rw later (k.0, All-insert P x ys h k.1)
    | inr here ↦ rw here (h, k)
  ]

  module _ (consistent : IsConsistent after) where
    insert-IsSorted : (x : A) (xs : List A) → IsSorted xs → IsSorted (insert x xs)
    unfolding insert
    insert-IsSorted x [] s = (tt, tt)
    insert-IsSorted x (y ∷ ys) s = elim (Bool-cases (after x y)) [
      | inl later ↦
          rw later (All-insert _ x ys (consistent.one_way x y later) s.0, insert-IsSorted x ys s.1)
      | inr here ↦ rw here ((here, All-impl _ _ (λ z k. consistent.chains x y z here k) ys s.0), s)
    ]

    pub sort-IsSorted : (xs : List A) → IsSorted (sort xs)
    unfolding sort
    sort-IsSorted [] = tt
    sort-IsSorted (x ∷ xs) = insert-IsSorted x (sort xs) (sort-IsSorted xs)

  -- Two elements that stand neither way are in the order in which they stood.
  module _ (tied : A → Bool)
      (ties : (a b : A) → tied a ≡ true → tied b ≡ true → after a b ≡ false) where
    keep-insert : (x : A) (xs : List A) → keep tied (insert x xs) ≡ keep tied (x ∷ xs)
    unfolding insert
    keep-insert x [] = refl
    keep-insert x (y ∷ ys) = ground (arith, keep-insert x ys, ties x y)

    pub keep-sort : (xs : List A) → keep tied (sort xs) ≡ keep tied xs
    unfolding sort
    keep-sort [] = refl
    keep-sort (x ∷ xs) = ground (arith, keep-insert x (sort xs), keep-sort xs)
