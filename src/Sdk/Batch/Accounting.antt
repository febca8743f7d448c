-- ===== src/Sdk/Batch/Accounting.antt =====
-- How often a ticket stands in a queue or in the log, and that a batch settles each of its tickets
-- as often as it was queued.
use stellar_quorum.Base.{
  ℕ, ◌+◌, String, ◌≡◌, refl, sym, ap, ◌∙◌, Bool, true, false, Option, none, some, List, [], ◌∷◌,
  ◌++◌, if◌then◌else◌, ◌==◌, arith, length, get_elem?, any, map, take, drop, Bool-cases, inl, inr,
  Option-cases, length-map, take-append-drop,
}
use stellar_quorum.Base.Result.{Result, ok, err}
use stellar_quorum.Sdk.Errors.{Thrown}
use stellar_quorum.Sdk.Batch.{
  Pending, Settlement, fallback, rejected, answers, addressed, is_compatible, receive, line_for,
  answer_of,
}
use stellar_quorum.Sdk.Batch.Reply.{
  BatchResponse, id_of, set_size, is_bad, whole_id, refused_status,
}
use stellar_quorum.Sdk.Batch.Permutation.{weigh, sum_to, sum_to-suc, weigh-permutation}
use stellar_quorum.Sdk.Batch.Ids.{whole_on, whole, count-whole, whole-good}

abbrev pub indicator : ℕ → Pending → ℕ
indicator t p = if p.ticket == t then 1 else 0

unfoldable pub times : ℕ → List Pending → ℕ
times t [] = 0
times t (p ∷ ps) = indicator t p + times t ps

pub times-append : (t : ℕ) (ps qs : List Pending) → times t (ps ++ qs) ≡ times t ps + times t qs
unfolding times
times-append t [] qs = omega arith
times-append t (p ∷ ps) qs = omega (arith, times-append t ps qs)

pub times-split :
    (t n : ℕ) (ps : List Pending) → times t (take n ps) + times t (drop n ps) ≡ times t ps
times-split t n ps =
    sym (times-append t (take n ps) (drop n ps)) ∙ ap (times t) (take-append-drop n ps)

-- The weight of a place of the chunk: whether the ticket stands there.
abbrev present_at : ℕ → Option Pending → ℕ
present_at t none = 0
present_at t (some p) = indicator t p

abbrev weight : ℕ → List Pending → ℕ → ℕ
weight t chunk i = present_at t (get_elem? chunk i)

sum_to-weight :
    (t : ℕ) (chunk : List Pending) → sum_to (length chunk) (weight t chunk) ≡ times t chunk
unfolding times sum_to
sum_to-weight t [] = refl
sum_to-weight t (p ∷ ps) =
    sum_to-suc (length ps) (weight t (p ∷ ps)) ∙ ap (λ k. indicator t p + k) (sum_to-weight t ps)

unfoldable pub times_done : {V : Type 0} → ℕ → List (Pending × Settlement V) → ℕ
times_done t [] = 0
times_done t ((p, s) ∷ l) = indicator t p + times_done t l

pub times_done-append :
    {V : Type 0} (t : ℕ) (l m : List (Pending × Settlement V))
    → times_done t (l ++ m) ≡ times_done t l + times_done t m
unfolding times_done
times_done-append t [] m = omega arith
times_done-append t ((p, s) ∷ l) m = omega (arith, times_done-append t l m)

pub times_done-fallback :
    (V : Type 0) (t : ℕ) (ps : List Pending) → times_done t (fallback {V = V} ps) ≡ times t ps
unfolding times_done times
times_done-fallback V t [] = refl
times_done-fallback V t (p ∷ ps) = ap (λ k. indicator t p + k) (times_done-fallback V t ps)

times_done-rejected :
    (V : Type 0) (t : ℕ) (e : Thrown) (ps : List Pending)
    → times_done t (rejected {V = V} e ps) ≡ times t ps
unfolding times_done times
times_done-rejected V t e [] = refl
times_done-rejected V t e (p ∷ ps) = ap (λ k. indicator t p + k) (times_done-rejected V t e ps)

module _ {V : Type 0} (decode : String → Result Thrown V) where
  weigh-line :
      (t : ℕ) (chunk : List Pending) (s : Settlement V) (o : Option ℕ)
      (l : List (Pending × Settlement V)) (is : List ℕ)
      → times_done t l ≡ weigh (weight t chunk) is
      → times_done t (line_for decode s (addressed chunk o)) + times_done t l
        ≡ weigh (weight t chunk) (whole_on o is)
  unfolding times_done weigh
  weigh-line t chunk s none l is h = omega arith
  weigh-line t chunk s (some i) l is h = elim (Option-cases (get_elem? chunk i)) [
    | inl none_there ↦ rw none_there (omega arith)
    | inr (p, there) ↦ rw there (omega arith)
  ]

  times_done-answers :
      (t : ℕ) (chunk : List Pending) (rs : List (Option BatchResponse))
      → times_done t (answers decode chunk rs) ≡ weigh (weight t chunk) (whole rs)
  unfolding times_done answers weigh
  times_done-answers t chunk [] = refl
  times_done-answers t chunk (none ∷ rs) = times_done-answers t chunk rs
  times_done-answers t chunk (some r ∷ rs) =
      times_done-append t (line_for decode (answer_of decode r) (addressed chunk (whole_id r.id)))
        (answers decode chunk rs)
      ∙ weigh-line t chunk (answer_of decode r) (whole_id r.id) (answers decode chunk rs) (whole rs)
          (times_done-answers t chunk rs)

  compatible_parts :
      (chunk : List Pending) (rs : List (Option BatchResponse))
      → is_compatible decode chunk rs ≡ true
      → (length rs ≡ length chunk)
        × (set_size (map id_of rs) ≡ length chunk)
        × (any (is_bad (length chunk)) rs ≡ false)
  compatible_parts chunk rs h = (ground arith, ground arith, ground arith)

  times_done-compatible :
      (t : ℕ) (chunk : List Pending) (rs : List (Option BatchResponse))
      → is_compatible decode chunk rs ≡ true
      → times_done t (answers decode chunk rs) ≡ times t chunk
  times_done-compatible t chunk rs h =
      let (len, size, good) = compatible_parts chunk rs h in
      let parts = whole-good (length chunk) rs good in
      times_done-answers t chunk rs
      ∙ weigh-permutation (length chunk) (weight t chunk) (whole rs) (parts.0 ∙ len) parts.1
          (λ i. count-whole i rs (size ∙ sym len ∙ sym (length-map id_of rs)))
      ∙ sum_to-weight t chunk

  -- Whatever `send` comes to, what the flush does with it settles every ticket of the chunk as often
  -- as it is queued there.
  pub times_done-receive :
      (t : ℕ) (supported : Bool) (chunk : List Pending)
      (reply : Result Thrown (Option (List (Option BatchResponse))))
      → times_done t (receive decode supported chunk reply).done ≡ times t chunk
  unfolding receive
  times_done-receive t supported chunk (ok none) = times_done-fallback V t chunk
  times_done-receive t supported chunk (ok (some rs)) =
      elim (Bool-cases (is_compatible decode chunk rs)) [
        | inl good ↦ rw good (times_done-compatible t chunk rs good)
        | inr bad ↦ rw bad (times_done-fallback V t chunk)
      ]
  times_done-receive t supported chunk (err e) = elim (Bool-cases (refused_status e.status)) [
    | inl refused ↦ rw refused (times_done-fallback V t chunk)
    | inr other ↦ rw other (times_done-rejected V t e chunk)
  ]
