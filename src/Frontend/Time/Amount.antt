-- ===== src/Frontend/Time/Amount.antt =====
-- How far away a relative phrase says that a moment is.
use stellar_quorum.Base.{
  ℕ, ◌+◌, ◌*◌, ◌≤◌, ◌<◌, ◌≡◌, ◌⊎◌, Option, none, some, Bool-cases, inl, inr, leb, false, arith,
}
use stellar_quorum.Frontend.Time.{TimeUnit, year, month, day, hour, minute, ms_of, units, amount}

-- The amount is the whole number of the unit that has passed, at least one, and no larger unit fits.
abbrev pub Measures : ℕ → Option (TimeUnit × ℕ) → Type 0
Measures abs none = abs < ms_of minute
Measures abs (some (u, n)) =
    (1 ≤ n)
    × (n * ms_of u ≤ abs)
    × (abs < (n + 1) * ms_of u)
    × ((v : TimeUnit) → (ms_of v ≤ ms_of u) ⊎ (abs < ms_of v))

each : (P : TimeUnit → Type 0) → P year → P month → P day → P hour → P minute → (v : TimeUnit) → P v
each P a b c d e year = a
each P a b c d e month = b
each P a b c d e day = c
each P a b c d e hour = d
each P a b c d e minute = e

abbrev longer : TimeUnit → TimeUnit
longer minute = hour
longer hour = day
longer day = month
longer month = year
longer year = year

-- No unit lies between one and the next longer.
longer-le : (u v : TimeUnit) → ms_of u < ms_of v → ms_of (longer u) ≤ ms_of v
longer-le year =
    each _ (λ h. omega arith) (λ h. omega arith) (λ h. omega arith) (λ h. omega arith)
      (λ h. omega arith)
longer-le month =
    each _ (λ h. omega arith) (λ h. omega arith) (λ h. omega arith) (λ h. omega arith)
      (λ h. omega arith)
longer-le day =
    each _ (λ h. omega arith) (λ h. omega arith) (λ h. omega arith) (λ h. omega arith)
      (λ h. omega arith)
longer-le hour =
    each _ (λ h. omega arith) (λ h. omega arith) (λ h. omega arith) (λ h. omega arith)
      (λ h. omega arith)
longer-le minute =
    each _ (λ h. omega arith) (λ h. omega arith) (λ h. omega arith) (λ h. omega arith)
      (λ h. omega arith)

longest : (v : TimeUnit) → ms_of v ≤ ms_of year
longest = each _ (omega arith) (omega arith) (omega arith) (omega arith) (omega arith)

shorter :
    (abs : ℕ) (u : TimeUnit)
    → leb (ms_of (longer u)) abs ≡ false
    → (v : TimeUnit) → (ms_of v ≤ ms_of u) ⊎ (abs < ms_of v)
shorter abs u short v = elim (Bool-cases (leb (ms_of v) (ms_of u))) [
  | inl within ↦ inl (ground arith)
  | inr above ↦
      let larger : ms_of u < ms_of v = ground arith in inr (ground (arith, longer-le u v larger))
]

-- However far away a moment is: if that is a minute or more, the phrase names the largest unit that
-- fits into it, and how many whole ones do.
pub amount-Measures : (abs : ℕ) → Measures abs (amount abs units)
unfolding amount
amount-Measures abs = elim (Bool-cases (leb (ms_of year) abs)) [
  | inl fits ↦ rw fits (ground arith, omega arith, omega arith, λ v. inl (longest v))
  | inr n1 ↦ elim (Bool-cases (leb (ms_of month) abs)) [
    | inl fits ↦ rw (n1, fits) (ground arith, omega arith, omega arith, shorter abs month n1)
    | inr n2 ↦ elim (Bool-cases (leb (ms_of day) abs)) [
      | inl fits ↦ rw (n1, n2, fits) (ground arith, omega arith, omega arith, shorter abs day n2)
      | inr n3 ↦ elim (Bool-cases (leb (ms_of hour) abs)) [
        | inl fits ↦
            rw (n1, n2, n3, fits) (ground arith, omega arith, omega arith, shorter abs hour n3)
        | inr n4 ↦ elim (Bool-cases (leb (ms_of minute) abs)) [
          | inl fits ↦
              rw (n1, n2, n3, n4, fits)
                (ground arith, omega arith, omega arith, shorter abs minute n4)
          | inr n5 ↦ rw (n1, n2, n3, n4, n5) (ground arith)
        ]
      ]
    ]
  ]
]
