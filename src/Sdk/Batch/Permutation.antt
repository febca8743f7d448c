-- ===== src/Sdk/Batch/Permutation.antt =====
-- A list of as many different ids as there are places is every place once.
use mathlib.Core.Path.{subst}
use stellar_quorum.Base.{
  ℕ, zero, suc, ◌+◌, ◌≤◌, ◌<◌, ◌≡◌, refl, sym, ap, ◌∙◌, true, List, [], ◌∷◌, if◌then◌else◌, ◌==◌,
  arith, length, All, Bool-cases, ==_iff, inl, inr,
}

-- `f 0 + … + f (n - 1)`
unfoldable pub sum_to : ℕ → (ℕ → ℕ) → ℕ
sum_to zero f = 0
sum_to (suc n) f = sum_to n f + f n

-- `k * w`
unfoldable pub scale : ℕ → ℕ → ℕ
scale zero w = 0
scale (suc k) w = w + scale k w

unfoldable pub count : ℕ → List ℕ → ℕ
count i [] = 0
count i (x ∷ xs) = let rest = count i xs in if x == i then suc rest else rest

-- The weights of the members, added up.
unfoldable pub weigh : (ℕ → ℕ) → List ℕ → ℕ
weigh f [] = 0
weigh f (x ∷ xs) = f x + weigh f xs

sum_to-ext : (n : ℕ) (f g : ℕ → ℕ) → ((i : ℕ) → i < n → f i ≡ g i) → sum_to n f ≡ sum_to n g
unfolding sum_to
sum_to-ext zero f g h = refl
sum_to-ext (suc n) f g h =
    let before = sum_to-ext n f g (λ i l. h i (omega arith)) in
    let last = h n (omega arith) in omega arith

sum_to-zero : (n : ℕ) → sum_to n (λ i. 0) ≡ 0
unfolding sum_to
sum_to-zero zero = refl
sum_to-zero (suc n) = omega (arith, sum_to-zero n)

pub sum_to-suc : (n : ℕ) (f : ℕ → ℕ) → sum_to (suc n) f ≡ f 0 + sum_to n (λ i. f (suc i))
unfolding sum_to
sum_to-suc zero f = omega arith
sum_to-suc (suc n) f = omega (arith, sum_to-suc n f)

unfoldable weighted : (ℕ → ℕ) → List ℕ → ℕ → ℕ
weighted f xs i = scale (count i xs) (f i)

-- A member that is no place counts for none.
weighted-other :
    (f : ℕ → ℕ) (x i : ℕ) (xs : List ℕ) → i < x → weighted f (x ∷ xs) i ≡ weighted f xs i
unfolding weighted count
weighted-other f x i xs l = ground arith

weighted-same : (f : ℕ → ℕ) (x : ℕ) (xs : List ℕ) → weighted f (x ∷ xs) x ≡ f x + weighted f xs x
unfolding weighted count scale
weighted-same f x xs = let hit : (x == x) ≡ true = ground arith in rw hit refl

weighted-later :
    (f : ℕ → ℕ) (x n : ℕ) (xs : List ℕ) → x < n → weighted f (x ∷ xs) n ≡ weighted f xs n
unfolding weighted count
weighted-later f x n xs l = ground arith

-- One more `x` in the list adds the weight of `x` to the sum over the places, if `x` is a place.
sum_to-bump :
    (n x : ℕ) (f : ℕ → ℕ) (xs : List ℕ)
    → x < n
    → sum_to n (weighted f (x ∷ xs)) ≡ f x + sum_to n (weighted f xs)
unfolding sum_to
sum_to-bump zero x f xs l = absurd (omega arith)
sum_to-bump (suc n) x f xs l = elim (Bool-cases (x == n)) [
  | inl same ↦
      let x_is_n = (==_iff x n).0 same in
      let before =
        sum_to-ext n (weighted f (x ∷ xs)) (weighted f xs)
          (λ i k. weighted-other f x i xs (omega (arith, x_is_n))) in
      let last : weighted f (x ∷ xs) n ≡ f x + weighted f xs n =
        subst (λ m. weighted f (x ∷ xs) m ≡ f x + weighted f xs m) x_is_n (weighted-same f x xs) in
      omega arith
  | inr other ↦
      let below : x < n = ground arith in
      let before = sum_to-bump n x f xs below in
      let last = weighted-later f x n xs below in omega arith
]

weighted-nil : (f : ℕ → ℕ) (i : ℕ) → weighted f [] i ≡ 0
unfolding weighted count scale
weighted-nil f i = refl

weigh-by_place :
    (n : ℕ) (f : ℕ → ℕ) (xs : List ℕ) → All (λ x. x < n) xs → weigh f xs ≡ sum_to n (weighted f xs)
unfolding weigh
weigh-by_place n f [] h =
    sym (sum_to-ext n (weighted f []) (λ i. 0) (λ i l. weighted-nil f i) ∙ sum_to-zero n)
weigh-by_place n f (x ∷ xs) h =
    let later = weigh-by_place n f xs h.1 in let bump = sum_to-bump n x f xs h.0 in omega arith

sum_to-le : (n : ℕ) (f : ℕ → ℕ) → ((i : ℕ) → i < n → f i ≤ 1) → sum_to n f ≤ n
unfolding sum_to
sum_to-le zero f h = omega arith
sum_to-le (suc n) f h =
    let before = sum_to-le n f (λ i l. h i (omega arith)) in
    let last = h n (omega arith) in omega arith

-- Numbers up to one whose sum is as large as it can be are all one.
sum_to-full :
    (n : ℕ) (f : ℕ → ℕ) → ((i : ℕ) → i < n → f i ≤ 1) → sum_to n f ≡ n → (i : ℕ) → i < n → f i ≡ 1
unfolding sum_to
sum_to-full zero f h e i l = absurd (omega arith)
sum_to-full (suc n) f h e i l =
    let bound = sum_to-le n f (λ j k. h j (omega arith)) in
    let last = h n (omega arith) in
    elim (Bool-cases (i == n)) [
      | inl same ↦
          let i_is_n = (==_iff i n).0 same in subst (λ m. f m ≡ 1) (sym i_is_n) (omega arith)
      | inr other ↦ sum_to-full n f (λ j k. h j (omega arith)) (omega arith) i (ground arith)
    ]

scale-once : (w : ℕ) → scale 1 w ≡ w
unfolding scale
scale-once w = omega arith

weigh-one : (xs : List ℕ) → weigh (λ i. 1) xs ≡ length xs
unfolding weigh
weigh-one [] = refl
weigh-one (x ∷ xs) = omega (arith, weigh-one xs)

scale-one : (k : ℕ) → scale k 1 ≡ k
unfolding scale
scale-one zero = refl
scale-one (suc k) = omega (arith, scale-one k)

-- `n` different ids below `n` weigh what the `n` places weigh.
pub weigh-permutation :
    (n : ℕ) (f : ℕ → ℕ) (xs : List ℕ)
    → length xs ≡ n
    → All (λ x. x < n) xs
    → ((i : ℕ) → count i xs ≤ 1)
    → weigh f xs ≡ sum_to n f
unfolding weighted
weigh-permutation n f xs len below once =
    let ones : sum_to n (λ i. count i xs) ≡ n =
      sum_to-ext n (λ i. count i xs) (weighted (λ j. 1) xs) (λ i l. sym (scale-one (count i xs)))
      ∙ sym (weigh-by_place n (λ j. 1) xs below)
      ∙ weigh-one xs
      ∙ len in
    let each = sum_to-full n (λ i. count i xs) (λ i l. once i) ones in
    weigh-by_place n f xs below
    ∙ sum_to-ext n (weighted f xs) f (λ i l. ap (λ k. scale k (f i)) (each i l) ∙ scale-once (f i))
