-- ===== src/Sdk/Client/InsecureRpc/Loopback.antt =====
-- Which hosts may be reached without TLS.
use text.Mathlib.Text.{◌==◌ as same_text}
use text.Mathlib.TextEquality.{eq_iff}
use mathlib.Core.Option.{get_or}
use mathlib.Core.Path.{subst}
use Prim.Native.Char.{code}
use Prim.Native.String.{[], ◌∷◌}
use stellar_quorum.Base.{
  ℕ, zero, suc, String, ◌≡◌, refl, sym, ap, Bool, true, ◌&&◌, ◌||◌, Option, none, some, ◌⊎◌, inl,
  inr, Bool-cases, ◌==◌, arith,
}
use stellar_quorum.Base.Text.{strip_prefix, strip_by, is_digit}
use stellar_quorum.Sdk.Client.InsecureRpc.{
  digits_then, first_digit, octets, behind_127, is_loopback, allows_insecure_rpc,
}

-- Digits and dots only.
abbrev pub IsDotted : String → Type 0
IsDotted [] = Unit
IsDotted (c ∷ cs) = ((is_digit c || code c == 46) ≡ true) × IsDotted cs

digits_then-IsDotted :
    (rest : String → Bool) (n : ℕ) (s : String)
    → ((t : String) → rest t ≡ true → IsDotted t)
    → digits_then rest n s ≡ true
    → IsDotted s
unfolding digits_then
digits_then-IsDotted rest zero s dotted h = dotted s h
digits_then-IsDotted rest (suc n) [] dotted h = tt
digits_then-IsDotted rest (suc n) (c ∷ cs) dotted h = elim (Bool-cases (rest (c ∷ cs))) [
  | inl here ↦ dotted (c ∷ cs) here
  | inr more ↦
      let both : (is_digit c && digits_then rest n cs) ≡ true = rw more at h in
      (ground arith, digits_then-IsDotted rest n cs dotted (ground arith))
]

first_digit-IsDotted :
    (rest : String → Bool) (o : Option String)
    → ((t : String) → rest t ≡ true → IsDotted t)
    → first_digit rest o ≡ true
    → (t : String) × (o ≡ some t) × IsDotted t
first_digit-IsDotted rest none dotted h = cc
first_digit-IsDotted rest (some []) dotted h = cc
first_digit-IsDotted rest (some (c ∷ cs)) dotted h =
    (c ∷ cs, refl, (ground arith, digits_then-IsDotted rest 2 cs dotted (ground arith)))

strip_dot : (s t : String) → strip_prefix "." s ≡ some t → IsDotted t → IsDotted s
unfolding strip_prefix strip_by
strip_dot [] t h k = tt
strip_dot (c ∷ cs) t h k = elim (Bool-cases (46 == code c)) [
  | inl dot ↦
      let found : some cs ≡ some t = rw dot at h in
      (ground arith, subst IsDotted (ap (λ o. get_or o cs) (sym found)) k)
  | inr other ↦ let missed : none ≡ some t = rw other at h in cc
]

octets-IsDotted : (n : ℕ) (s : String) → octets n s ≡ true → IsDotted s
unfolding octets
octets-IsDotted zero [] h = tt
octets-IsDotted zero (c ∷ cs) h = cc
octets-IsDotted (suc n) s h =
    let (t, stripped, dotted) =
      first_digit-IsDotted (octets n) (strip_prefix "." s) (octets-IsDotted n) h in
    strip_dot s t stripped dotted

behind_127-IsDotted :
    (o : Option String) → behind_127 o ≡ true → (rest : String) × (o ≡ some rest) × IsDotted rest
behind_127-IsDotted none h = cc
behind_127-IsDotted (some rest) h = (rest, refl, octets-IsDotted 3 rest h)

either : (p q : Bool) → (p || q) ≡ true → (p ≡ true) ⊎ (q ≡ true)
either p q h = ground arith

is_loopback-cases :
    (host : String)
    → is_loopback host ≡ true
    → (host ≡ "localhost")
      ⊎ (host ≡ "::1")
      ⊎ (host ≡ "[::1]")
      ⊎ ((rest : String) × (strip_prefix "127" host ≡ some rest) × IsDotted rest)
is_loopback-cases host h =
    elim (either (same_text host "localhost" || same_text host "::1" || same_text host "[::1]")
      (behind_127 (strip_prefix "127" host)) h) [
        | inl named ↦
            elim (either (same_text host "localhost" || same_text host "::1")
              (same_text host "[::1]") named) [
                | inl named' ↦
                    elim (either (same_text host "localhost") (same_text host "::1") named') [
                      | inl e ↦ inl ((eq_iff host "localhost").0 e)
                      | inr e ↦ inr (inl ((eq_iff host "::1").0 e))
                    ]
                | inr e ↦ inr (inr (inl ((eq_iff host "[::1]").0 e)))
              ]
        | inr numeric ↦ inr (inr (inr (behind_127-IsDotted (strip_prefix "127" host) numeric)))
      ]

-- Plain HTTP is allowed only to `localhost`, to the loopback address of IPv6, and to a host that is 127
-- followed by digits and dots. A URL that the parser refuses is not allowed.
pub allows_insecure_rpc-host :
    (lower : String → String) (parsed : Option String)
    → allows_insecure_rpc lower parsed ≡ true
    → (host : String) × (parsed ≡ some host)
      × ((lower host ≡ "localhost")
          ⊎ (lower host ≡ "::1")
          ⊎ (lower host ≡ "[::1]")
          ⊎ ((rest : String) × (strip_prefix "127" (lower host) ≡ some rest) × IsDotted rest))
unfolding allows_insecure_rpc
allows_insecure_rpc-host lower none h = cc
allows_insecure_rpc-host lower (some host) h = (host, refl, is_loopback-cases (lower host) h)
