-- ===== src/Sdk/Batch/Ids.antt =====
-- The ids of the answers to a batch, in sdk/src/batch.ts.
use stellar_quorum.Base.{
  ℕ, suc, ◌≤◌, ◌<◌, ◌≡◌, refl, ap, ◌∙◌, true, false, Option, none, some, List, [], ◌∷◌, ◌==◌, arith,
  length, All, any, map, Bool-cases, inl, inr,
}
use stellar_quorum.Sdk.Batch.Reply.{
  BatchResponse, id_of, same_id, set_size, is_bad, id_below, whole_id,
}
use stellar_quorum.Sdk.Batch.Permutation.{count}

-- The ids of the answers, those that are no ids left out.
abbrev pub whole_on : Option ℕ → List ℕ → List ℕ
whole_on none is = is
whole_on (some i) is = i ∷ is

abbrev pub whole : List (Option BatchResponse) → List ℕ
whole [] = []
whole (r ∷ rs) = whole_on (id_of r) (whole rs)

count-whole_on :
    (i : ℕ) (o : Option ℕ) (is : List ℕ)
    → same_id (some i) o ≡ false
    → count i (whole_on o is) ≡ count i is
unfolding count
count-whole_on i none is h = refl
count-whole_on i (some j) is h = ground arith

count-whole_on_le :
    (i : ℕ) (o : Option ℕ) (is : List ℕ)
    → count i is ≤ 1
    → (same_id o (some i) ≡ true → count i is ≡ 0)
    → count i (whole_on o is) ≤ 1
unfolding count
count-whole_on_le i none is h k = h
count-whole_on_le i (some j) is h k = elim (Bool-cases (j == i)) [
  | inl same ↦ let none_yet = k same in rw same (omega arith)
  | inr other ↦ rw other h
]

count-whole_none :
    (i : ℕ) (rs : List (Option BatchResponse))
    → any (same_id (some i)) (map id_of rs) ≡ false
    → count i (whole rs) ≡ 0
unfolding count
count-whole_none i [] h = refl
count-whole_none i (r ∷ rs) h = elim (Bool-cases (same_id (some i) (id_of r))) [
  | inl same ↦ let e : true ≡ false = rw same at h in cc
  | inr other ↦ count-whole_on i (id_of r) (whole rs) other ∙ count-whole_none i rs (rw other at h)
]

any-same :
    (i : ℕ) (o : Option ℕ) (xs : List (Option ℕ))
    → same_id o (some i) ≡ true
    → any (same_id o) xs ≡ false
    → any (same_id (some i)) xs ≡ false
any-same i none xs h e = cc
any-same i (some j) xs h e = let j_is_i : j ≡ i = ground arith in rw j_is_i at e

set_size-le : (xs : List (Option ℕ)) → set_size xs ≤ length xs
set_size-le [] = omega arith
set_size-le (x ∷ xs) = ground (arith, set_size-le xs)

pub count-whole :
    (i : ℕ) (rs : List (Option BatchResponse))
    → set_size (map id_of rs) ≡ length (map id_of rs)
    → count i (whole rs) ≤ 1
unfolding count
count-whole i [] h = omega arith
count-whole i (r ∷ rs) h = elim (Bool-cases (any (same_id (id_of r)) (map id_of rs))) [
  | inl again ↦
      let bound = set_size-le (map id_of rs) in
      let small : set_size (map id_of rs) ≡ suc (length (map id_of rs)) = rw again at h in
      absurd (omega arith)
  | inr new ↦
      let rest : set_size (map id_of rs) ≡ length (map id_of rs) =
        let larger : suc (set_size (map id_of rs)) ≡ suc (length (map id_of rs)) = rw new at h in
        omega arith in
      count-whole_on_le i (id_of r) (whole rs) (count-whole i rs rest)
        (λ same. count-whole_none i rs (any-same i (id_of r) (map id_of rs) same new))
]

id_below-some : (n : ℕ) (o : Option ℕ) → id_below n o ≡ true → (i : ℕ) × (o ≡ some i) × (i < n)
id_below-some n none h = cc
id_below-some n (some i) h = (i, refl, ground arith)

id_of-good :
    (n : ℕ) (r : Option BatchResponse) → is_bad n r ≡ false → (i : ℕ) × (id_of r ≡ some i) × (i < n)
id_of-good n none h = cc
id_of-good n (some r) h = id_below-some n (whole_id r.id) (ground arith)

pub whole-good :
    (n : ℕ) (rs : List (Option BatchResponse))
    → any (is_bad n) rs ≡ false
    → (length (whole rs) ≡ length rs) × All (λ i. i < n) (whole rs)
whole-good n [] h = (refl, tt)
whole-good n (r ∷ rs) h = elim (Bool-cases (is_bad n r)) [
  | inl bad ↦ let e : true ≡ false = rw bad at h in cc
  | inr good ↦
      let (i, named, below) = id_of-good n r good in
      let later = whole-good n rs (rw good at h) in rw named (ap suc later.0, (below, later.1))
]
