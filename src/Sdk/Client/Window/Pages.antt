-- ===== src/Sdk/Client/Window/Pages.antt =====
-- What a window of the proposal list holds and costs.
use mathlib.Core.List.{append-nil}
use stellar_quorum.Base.{
  ℕ, zero, suc, ◌+◌, ◌-◌, ◌≤◌, ◌<◌, min, ◌≡◌, refl, sym, ap, ◌∙◌, true, Option, none, some, List,
  [], ◌∷◌, ◌++◌, if◌then◌else◌, leb, length, All, All-impl, arith, Bool-cases, inl, inr,
}
use stellar_quorum.Base.Number.{nat}
use stellar_quorum.Base.Result.{Result, ok, err, ◌>>=◌, traverse, traverse-append, bind-ok}
use stellar_quorum.Sdk.Types.{Proposal}
use stellar_quorum.Sdk.Errors.{Thrown}
use stellar_quorum.Sdk.Client.Window.{ids_from, present, read_window, fetch_proposal_window}

length-ids_from : (a n : ℕ) → length (ids_from a n) ≡ n
unfolding ids_from
length-ids_from a zero = refl
length-ids_from a (suc n) = ap suc (length-ids_from (suc a) n)

ids_from-zero : (a : ℕ) → ids_from a 0 ≡ []
unfolding ids_from
ids_from-zero a = refl

pub ids_from-add : (a m n : ℕ) → ids_from a (m + n) ≡ ids_from a m ++ ids_from (a + m) n
unfolding ids_from
ids_from-add a zero n =
    let left : 0 + n ≡ n = omega arith in
    let right : a ≡ a + 0 = omega arith in ap (ids_from a) left ∙ ap (λ k. ids_from k n) right
ids_from-add a (suc m) n =
    let left : suc m + n ≡ suc (m + n) = omega arith in
    let right : suc a + m ≡ a + suc m = omega arith in
    ap (ids_from a) left
    ∙ ap (λ l. a ∷ l) (ids_from-add (suc a) m n)
    ∙ ap (λ k. a ∷ (ids_from (suc a) m ++ ids_from k n)) right

present-append : (ps qs : List (Option Proposal)) → present (ps ++ qs) ≡ present ps ++ present qs
unfolding present
present-append [] qs = refl
present-append (none ∷ ps) qs = present-append ps qs
present-append (some p ∷ ps) qs = ap (λ r. p ∷ r) (present-append ps qs)

All-ids_from : (a n m : ℕ) → a + n ≤ m → All (λ id. (a ≤ id) × (id < m)) (ids_from a n)
unfolding ids_from
All-ids_from a zero m h = tt
All-ids_from a (suc n) m h = (
  (omega arith, omega arith),
  All-impl (λ id. (suc a ≤ id) × (id < m)) (λ id. (a ≤ id) × (id < m))
      (λ id b. (omega (arith, b.0), b.1)) (ids_from (suc a) n)
      (All-ids_from (suc a) n m (omega arith)),
)

abbrev joined_raw :
    Result Thrown (List (Option Proposal))
    → Result Thrown (List (Option Proposal))
    → Result Thrown (List (Option Proposal))
joined_raw r s = do xs ← r; ys ← s; ok (xs ++ ys)

-- `[...xs, ...ys]` of two answers, the first failure first
abbrev joined :
    Result Thrown (List Proposal) → Result Thrown (List Proposal) → Result Thrown (List Proposal)
joined r s = do xs ← r; ys ← s; ok (xs ++ ys)

joined-nil : (r : Result Thrown (List Proposal)) → joined r (ok []) ≡ r
joined-nil (ok xs) = ap ok (append-nil xs)
joined-nil (err e) = refl

joined-present :
    (r s : Result Thrown (List (Option Proposal)))
    → (do ps ← joined_raw r s; ok (present ps))
      ≡ joined (do ps ← r; ok (present ps)) (do ps ← s; ok (present ps))
joined-present (err e) s = refl
joined-present (ok ps) (err e) = refl
joined-present (ok ps) (ok qs) = ap ok (present-append ps qs)

ids_from-window :
    (total offset limit : ℕ)
    → All
        (λ id. (offset < id) × (id ≤ total))
        (ids_from (offset + 1) (min total (offset + limit) - offset))
ids_from-window total offset limit = elim (Bool-cases (leb total offset)) [
  | inl past ↦
      let none_left : min total (offset + limit) - offset ≡ 0 = ground arith in
      rw (ap (ids_from (offset + 1)) none_left, ids_from-zero (offset + 1)) tt
  | inr more ↦
      All-impl (λ id. (offset + 1 ≤ id) × (id < total + 1)) (λ id. (offset < id) × (id ≤ total))
        (λ id b. (omega (arith, b.0), omega (arith, b.1)))
        (ids_from (offset + 1) (min total (offset + limit) - offset))
        (All-ids_from (offset + 1) (min total (offset + limit) - offset) (total + 1) (ground arith))
]

module _ (count : Result Thrown ℕ) (proposal : ℕ → Result Thrown (Option Proposal)) where
  pub fetch_rest :
      (total offset : ℕ)
      → count ≡ ok total
      → fetch_proposal_window count proposal (nat offset) none ≡ (
          if leb total offset
          then record { result = ok []; counts = 1; asked = [] }
          else read_window count proposal offset total)
  unfolding fetch_proposal_window
  fetch_rest total offset counted = rw counted

  fetch_nothing :
      (offset : ℕ)
      → fetch_proposal_window count proposal (nat offset) (some (nat 0))
        ≡ record { result = ok []; counts = 0; asked = [] }
  unfolding fetch_proposal_window
  fetch_nothing offset = refl

  fetch_page :
      (total offset limit : ℕ)
      → count ≡ ok total
      → fetch_proposal_window count proposal (nat offset) (some (nat (suc limit))) ≡ (
          if leb total offset
          then record { result = ok []; counts = 1; asked = [] }
          else read_window count proposal offset (min total (offset + suc limit)))
  unfolding fetch_proposal_window
  fetch_page total offset limit counted = rw counted

  asked-read_window : (a b : ℕ) → (read_window count proposal a b).asked ≡ ids_from (a + 1) (b - a)
  unfolding read_window
  asked-read_window a b = refl

  counts-read_window : (a b : ℕ) → (read_window count proposal a b).counts ≡ 1
  unfolding read_window
  counts-read_window a b = refl

  -- A window asks for `min limit (total - offset)` proposals, all of them with ids past `offset` and
  -- up to `total`, and reads the count once.
  pub window_cost :
      (total offset limit : ℕ)
      → count ≡ ok total
      → 0 < limit
      → (length (fetch_proposal_window count proposal (nat offset) (some (nat limit))).asked
          ≡ min limit (total - offset))
        × All
            (λ id. (offset < id) × (id ≤ total))
            (fetch_proposal_window count proposal (nat offset) (some (nat limit))).asked
        × ((fetch_proposal_window count proposal (nat offset) (some (nat limit))).counts ≡ 1)
  window_cost total offset zero counted pos = absurd (omega arith)
  window_cost total offset (suc limit) counted pos =
      let end = min total (offset + suc limit) in
      rw (fetch_page total offset limit counted) (elim (Bool-cases (leb total offset)) [
        | inl past ↦ rw past (ground arith, tt, refl)
        | inr more ↦ rw more (
            rw (asked-read_window offset end, counts-read_window offset end)
              (
                length-ids_from (offset + 1) (end - offset) ∙ ground arith,
                ids_from-window total offset (suc limit),
                refl,
              ))
      ])

  read_window-append :
      (a b c : ℕ)
      → a ≤ b
      → b ≤ c
      → (read_window count proposal a c).result
        ≡ joined (read_window count proposal a b).result (read_window count proposal b c).result
  unfolding read_window
  read_window-append a b c h k =
      let len : c - a ≡ (b - a) + (c - b) = omega arith in
      let next : a + 1 + (b - a) ≡ b + 1 = omega arith in
      rw (len, ids_from-add (a + 1) (b - a) (c - b), next)
        (rw (traverse-append proposal (ids_from (a + 1) (b - a)) (ids_from (b + 1) (c - b))) (
          joined-present (traverse proposal (ids_from (a + 1) (b - a)))
            (traverse proposal (ids_from (b + 1) (c - b)))))

  -- A page of `limit` proposals followed by everything past it is everything from the page on, so
  -- consecutive pages neither skip nor repeat a proposal.
  pub pages_tile :
      (total offset limit : ℕ)
      → count ≡ ok total
      → (fetch_proposal_window count proposal (nat offset) none).result ≡ (do
        page ← (fetch_proposal_window count proposal (nat offset) (some (nat limit))).result
        rest ← (fetch_proposal_window count proposal (nat (offset + limit)) none).result
        ok (page ++ rest))
  pages_tile total offset zero counted =
      let same : offset + 0 ≡ offset = omega arith in
      rw (fetch_nothing offset, same)
        (sym (bind-ok (fetch_proposal_window count proposal (nat offset) none).result))
  pages_tile total offset (suc limit) counted =
      rw
        (
          fetch_page total offset limit counted,
          fetch_rest total offset counted,
          fetch_rest total (offset + suc limit) counted,
        )
        (elim (Bool-cases (leb total offset)) [
          | inl past ↦
              let past_too : leb total (offset + suc limit) ≡ true = ground arith in
              rw (past, past_too) refl
          | inr more ↦ elim (Bool-cases (leb total (offset + suc limit))) [
            | inl last ↦
                let end : min total (offset + suc limit) ≡ total = ground arith in
                rw (more, last, end)
                  (sym (joined-nil (read_window count proposal offset total).result))
            | inr middle ↦
                let end : min total (offset + suc limit) ≡ offset + suc limit = ground arith in
                rw (more, middle, end)
                  (read_window-append offset (offset + suc limit) total (ground arith)
                    (ground arith))
          ]
        ])
