-- ===== src/Scripts/Script.antt =====
-- An asynchronous script as a function of the world that it runs in: what is awaited changes the world
-- and gives a value or throws. `unfinished` stands for a loop that has used up its rounds.
use stellar_quorum.Base.{Bool, String, if◌then◌else◌}
use stellar_quorum.Base.Result.{Result, ok, err}
use stellar_quorum.Sdk.Errors.{Thrown, instance_of, error}

pub data Outcome (A : Type 0) : Type 0 where
  returned : A → Outcome A
  thrown : Thrown → Outcome A
  unfinished : Outcome A

abbrev pub Script : Type 0 → Type 0 → Type 0
Script W A = W → W × Outcome A

abbrev outcome_of : {A : Type 0} → Result Thrown A → Outcome A
outcome_of (ok a) = returned a
outcome_of (err e) = thrown e

module _ {W : Type 0} where
  abbrev pub pure : {A : Type 0} → A → Script W A
  pure a w = (w, returned a)

  abbrev pub throws : {A : Type 0} → Thrown → Script W A
  throws e w = (w, thrown e)

  -- `throw new Error(message)`
  abbrev pub throw_error : {A : Type 0} → String → Script W A
  throw_error message = throws (instance_of error message)

  abbrev pub give_up : {A : Type 0} → Script W A
  give_up w = (w, unfinished)

  abbrev pub go_on : {A B : Type 0} → (A → Script W B) → W × Outcome A → W × Outcome B
  go_on next (w, returned a) = next a w
  go_on next (w, thrown e) = (w, thrown e)
  go_on next (w, unfinished) = (w, unfinished)

  infixl 5 ◌>>=◌
  abbrev pub ◌>>=◌ : {A B : Type 0} → Script W A → (A → Script W B) → Script W B
  (script >>= next) w = go_on next (script w)

  infixl 5 ◌>>◌
  abbrev pub ◌>>◌ : {A B : Type 0} → Script W A → Script W B → Script W B
  first >> second = first >>= λ _. second

  abbrev pub settled : {A : Type 0} → W × Result Thrown A → W × Outcome A
  settled (w, r) = (w, outcome_of r)

  -- `await` of something that the world does.
  abbrev pub awaited : {A : Type 0} → (W → W × Result Thrown A) → Script W A
  awaited act w = settled (act w)

  -- `try { … await … } catch`: the result, whatever it is.
  abbrev pub attempt : {E A : Type 0} → (W → W × Result E A) → Script W (Result E A)
  attempt act w = ((act w).0, returned (act w).1)

  abbrev pub throw_when : Bool → String → Script W (Unit {0})
  throw_when b message = if b then throw_error message else pure tt
