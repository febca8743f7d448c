-- ===== src/Base/Text/Replace.antt =====
-- `s.replace(/c/g, by)` for one character: what a chain of such replacements does to each character.
use Prim.Native.Nat.{ℕ}
use Prim.Native.Char.{Char, code}
use Prim.Native.String.{String, [], ◌∷◌}
use mathlib.Core.Path.{◌≡◌, refl, sym, ap, ◌∙◌}
use mathlib.Core.Logic.{inl, inr}
use mathlib.Core.Bool.{true}
use mathlib.Core.Option.{Option, none, some}
use text.Mathlib.TextEquality.{Char-path}
use text.Mathlib.TextLemmas.{nil-append, cons-append, append-nil, append_assoc}
use stellar_quorum.Base.Tests.{◌==◌, ==_iff, if◌then◌else◌, Bool-cases}
use stellar_quorum.Base.Text.{◌<>◌}

-- `<>` computes at literals only; this one, at a literal in front of any text.
abbrev pub onto : String → String → String
onto [] t = t
onto (c ∷ cs) t = c ∷ onto cs t

pub append-onto : (s t : String) → s <> t ≡ onto s t
append-onto [] t = nil-append t
append-onto (c ∷ cs) t = cons-append c cs t ∙ ap (λ r. c ∷ r) (append-onto cs t)

-- Each character replaced by a text.
unfoldable pub flat_map : (Char → String) → String → String
flat_map f [] = []
flat_map f (c ∷ cs) = f c <> flat_map f cs

abbrev pub swap : ℕ → String → Char → String
swap target by c = if code c == target then by else c ∷ []

unfoldable pub replace_all : ℕ → String → String → String
unfolding flat_map
replace_all target by s = flat_map (swap target by) s

module _ (f : Char → String) where
  pub flat_map-append : (s t : String) → flat_map f (s <> t) ≡ flat_map f s <> flat_map f t
  unfolding flat_map
  flat_map-append [] t = ap (flat_map f) (nil-append t) ∙ sym (nil-append (flat_map f t))
  flat_map-append (c ∷ cs) t =
      ap (flat_map f) (cons-append c cs t)
      ∙ ap (λ r. f c <> r) (flat_map-append cs t)
      ∙ sym (append_assoc (f c) (flat_map f cs) (flat_map f t))

  -- A replacement after others is one of each character's result.
  pub flat_map-flat_map :
      (g : Char → String) (s : String)
      → flat_map f (flat_map g s) ≡ flat_map (λ c. flat_map f (g c)) s
  unfolding flat_map
  flat_map-flat_map g [] = refl
  flat_map-flat_map g (c ∷ cs) =
      flat_map-append (g c) (flat_map g cs)
      ∙ ap (λ r. flat_map f (g c) <> r) (flat_map-flat_map g cs)

  -- A character that a replacement leaves is for the next one.
  pub flat_map-swap :
      (target : ℕ) (by : String) (c : Char)
      → flat_map f (swap target by c) ≡ (if code c == target then flat_map f by else f c)
  unfolding flat_map
  flat_map-swap target by c = elim (Bool-cases (code c == target)) [
    | inl hit ↦ rw hit
    | inr miss ↦ rw miss (append-nil (f c))
  ]

-- A reader's result behind a character that it has read.
abbrev pub before : Char → Option String → Option String
before c none = none
before c (some s) = some (c ∷ s)

pub same_before :
    (c d : Char) (rest : Option String) → (code c == code d) ≡ true → before d rest ≡ before c rest
same_before c d rest h =
    ap (λ e. before e rest) (sym (Char-path c d ((==_iff (code c) (code d)).0 h)))
