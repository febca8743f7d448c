-- ===== src/Base/Text/Decimal.antt =====
-- Printing a whole number and reading it back.
use Prim.Native.Nat.{ℕ, zero, suc, ◌+◌, ◌*◌, ◌/◌, ◌%◌, ◌≤◌, ◌<◌}
use Prim.Native.Char.{Char, code}
use Prim.Native.String.{String, [], ◌∷◌}
use mathlib.Core.Path.{◌≡◌, refl, ◌∙◌, ap}
use mathlib.Core.Bool.{true}
use mathlib.Core.Logic.{inl, inr}
use mathlib.Core.Option.{some}
use native.Mathlib.Omega.{arith}
use text.Mathlib.TextLemmas.{nil-append, cons-append}
use stellar_quorum.Base.Tests.{ltb, Bool-cases}
use stellar_quorum.Base.Text.{
  ◌<>◌, digit, is_digit, digits_from, read_number, decimal_onto, decimal,
}

code-digit : (d : ℕ) → d < 10 → code (digit d) ≡ d + 48
code-digit zero h = refl
code-digit (suc zero) h = refl
code-digit (suc (suc zero)) h = refl
code-digit (suc (suc (suc zero))) h = refl
code-digit (suc (suc (suc (suc zero)))) h = refl
code-digit (suc (suc (suc (suc (suc zero))))) h = refl
code-digit (suc (suc (suc (suc (suc (suc zero)))))) h = refl
code-digit (suc (suc (suc (suc (suc (suc (suc zero))))))) h = refl
code-digit (suc (suc (suc (suc (suc (suc (suc (suc zero)))))))) h = refl
code-digit (suc (suc (suc (suc (suc (suc (suc (suc (suc zero))))))))) h = refl
code-digit (suc (suc (suc (suc (suc (suc (suc (suc (suc (suc n)))))))))) h = absurd (omega arith)

is_digit-digit : (d : ℕ) → d < 10 → is_digit (digit d) ≡ true
is_digit-digit d h = ground (arith, code-digit d h)

digits_from-digit :
    (m d : ℕ) (s : String) → d < 10 → digits_from m (digit d ∷ s) ≡ digits_from (m * 10 + d) s
unfolding digits_from
digits_from-digit m d s h =
    rw (is_digit-digit d h) (ap (λ k. digits_from (m * 10 + k) s) (omega (arith, code-digit d h)))

pub digits_from-decimal_onto :
    (rounds n : ℕ) (s : String)
    → n ≤ rounds
    → digits_from 0 (decimal_onto rounds n s) ≡ digits_from n s
unfolding decimal_onto
digits_from-decimal_onto zero n s h =
    digits_from-digit 0 (n % 10) s (omega arith) ∙ ap (λ k. digits_from k s) (omega arith)
digits_from-decimal_onto (suc rounds) n s h = elim (Bool-cases (ltb n 10)) [
  | inl small ↦
      rw small
        (digits_from-digit 0 (n % 10) s (omega arith) ∙ ap (λ k. digits_from k s) (ground arith))
  | inr large ↦ rw large (
      digits_from-decimal_onto rounds (n / 10) (digit (n % 10) ∷ s) (ground arith)
      ∙ digits_from-digit (n / 10) (n % 10) s (omega arith)
      ∙ ap (λ k. digits_from k s) (omega arith))
]

pub decimal_onto-append :
    (rounds n : ℕ) (s t : String) → decimal_onto rounds n s <> t ≡ decimal_onto rounds n (s <> t)
unfolding decimal_onto
decimal_onto-append zero n s t = cons-append (digit (n % 10)) s t
decimal_onto-append (suc rounds) n s t = elim (Bool-cases (ltb n 10)) [
  | inl small ↦ rw small (cons-append (digit (n % 10)) s t)
  | inr large ↦ rw large (
      decimal_onto-append rounds (n / 10) (digit (n % 10) ∷ s) t
      ∙ ap (decimal_onto rounds (n / 10)) (cons-append (digit (n % 10)) s t))
]

decimal-append : (n : ℕ) (t : String) → decimal n <> t ≡ decimal_onto n n t
unfolding decimal
decimal-append n t = decimal_onto-append n n [] t ∙ ap (decimal_onto n n) (nil-append t)

-- A printed number begins with a digit.
decimal_onto-head :
    (rounds n : ℕ) (s : String)
    → (c : Char) × (t : String) × (decimal_onto rounds n s ≡ c ∷ t) × (is_digit c ≡ true)
unfolding decimal_onto
decimal_onto-head zero n s = (digit (n % 10), s, refl, is_digit-digit (n % 10) (omega arith))
decimal_onto-head (suc rounds) n s = elim (Bool-cases (ltb n 10)) [
  | inl small ↦ rw small (digit (n % 10), s, refl, is_digit-digit (n % 10) (omega arith))
  | inr large ↦ rw large (decimal_onto-head rounds (n / 10) (digit (n % 10) ∷ s))
]

read_number-digit :
    (s : String) {c : Char} {t : String}
    → s ≡ c ∷ t
    → is_digit c ≡ true
    → read_number s ≡ some (digits_from 0 s)
unfolding read_number
read_number-digit s e d = rw (e, d)

pub read_number-decimal :
    (n : ℕ) (t : String) → read_number (decimal n <> t) ≡ some (digits_from n t)
read_number-decimal n t =
    let (c, s, starts, is_dig) = decimal_onto-head n n t in
    rw (decimal-append n t) (
      read_number-digit (decimal_onto n n t) starts is_dig
      ∙ ap some (digits_from-decimal_onto n n t (omega arith)))
