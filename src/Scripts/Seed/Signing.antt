-- ===== src/Scripts/Seed/Signing.antt =====
-- What the authorization entries that are submitted are signed by.
use mathlib.Core.Path.{subst}
use stellar_quorum.Base.{
  ℕ, ◌+◌, ◌≡◌, refl, String, true, Bool-cases, inl, inr, ◌⊎◌, Option, none, some, List, [], ◌∷◌,
}
use stellar_quorum.Base.Result.{Result, ok, err}
use stellar_quorum.Sdk.Errors.{Thrown}
use stellar_quorum.Scripts.Script.{
  Outcome, returned, thrown, unfinished, Script, pure, go_on, settled, awaited, ◌>>=◌,
}
use stellar_quorum.Scripts.Seed.{
  AuthEntry, Network, signer_of, has_key, authorized, signed_by, signed_entry, sign_auth_entries,
}

module _ {W Native : Type 0} (net : Network W Native) (keys : List String) (source : String) where
  -- The entry itself, if the transaction's signature covers it; or else what `authorizeEntry` made of it
  -- for a signer whose key the script has, up to a hundred ledgers after the latest.
  abbrev pub Covered : AuthEntry → AuthEntry → Type 0
  Covered entry signed =
      ((signer_of source entry ≡ none) × (signed ≡ entry))
      ⊎ ((signer : String) × (ledger : ℕ) × (v : W) × (signer_of source entry ≡ some signer)
          × (has_key signer keys ≡ true)
          × ((net.authorize entry signer (ledger + 100) v).1 ≡ ok signed))

  abbrev pub AllCovered : List AuthEntry → List AuthEntry → Type 0
  AllCovered [] [] = Unit
  AllCovered [] (s ∷ ss) = ⊥
  AllCovered (e ∷ es) [] = ⊥
  AllCovered (e ∷ es) (s ∷ ss) = Covered e s × AllCovered es ss

  abbrev IfReturned : {A : Type 0} → (A → Type 0) → W × Outcome A → Type 0
  IfReturned P (w, returned a) = P a
  IfReturned P (w, thrown e) = Unit
  IfReturned P (w, unfinished) = Unit

  go_on-IfReturned :
      {A B : Type 0} (P : A → Type 0) (Q : B → Type 0) (next : A → Script W B) (r : W × Outcome A)
      → IfReturned P r
      → ((a : A) (w : W) → P a → IfReturned Q (next a w))
      → IfReturned Q (go_on next r)
  go_on-IfReturned P Q next (w, returned a) h k = k a w h
  go_on-IfReturned P Q next (w, thrown e) h k = tt
  go_on-IfReturned P Q next (w, unfinished) h k = tt

  settled-IfReturned :
      {A : Type 0} (P : A → Type 0) (r : W × Result Thrown A)
      → ((a : A) → r.1 ≡ ok a → P a)
      → IfReturned P (settled r)
  settled-IfReturned P (w, ok a) h = h a refl
  settled-IfReturned P (w, err e) h = tt

  authorized-Covered :
      (entry : AuthEntry) (signer : String) (w : W)
      → signer_of source entry ≡ some signer
      → has_key signer keys ≡ true
      → IfReturned (Covered entry) (authorized net entry signer w)
  authorized-Covered entry signer w other held =
      go_on-IfReturned (λ n. Unit {0}) (Covered entry)
        (λ n. awaited (net.authorize entry signer (n + 100))) (settled (net.latest_ledger w))
        (settled-IfReturned (λ n. Unit {0}) (net.latest_ledger w) (λ n h. tt))
        λ n v u.
          settled-IfReturned (Covered entry) (net.authorize entry signer (n + 100) v)
            λ signed made. inr (signer, n, v, other, held, made)

  signed_by-Covered :
      (entry : AuthEntry) (signer : Option String) (w : W)
      → signer_of source entry ≡ signer
      → IfReturned (Covered entry) (signed_by net keys entry signer w)
  signed_by-Covered entry none w own = inl (own, refl)
  signed_by-Covered entry (some signer) w other = elim (Bool-cases (has_key signer keys)) [
    | inl held ↦ rw held (authorized-Covered entry signer w other held)
    | inr missing ↦ rw missing tt
  ]

  sign_auth_entries-AllCovered :
      (entries : List AuthEntry) (w : W)
      → IfReturned (AllCovered entries) (sign_auth_entries net keys source entries w)
  unfolding sign_auth_entries
  sign_auth_entries-AllCovered [] w = tt
  sign_auth_entries-AllCovered (entry ∷ more) w =
      go_on-IfReturned (Covered entry) (AllCovered (entry ∷ more))
        (λ first. sign_auth_entries net keys source more >>= λ rest. pure (first ∷ rest))
        (signed_entry net keys source entry w)
        (signed_by-Covered entry (signer_of source entry) w refl)
        λ first v covered.
          go_on-IfReturned (AllCovered more) (AllCovered (entry ∷ more))
            (λ rest. pure (first ∷ rest)) (sign_auth_entries net keys source more v)
            (sign_auth_entries-AllCovered more v) λ rest u all. (covered, all)

  -- If signing returns, each entry was covered by the transaction's own signature and is unchanged, or
  -- was authorized by an account whose key the script has; none is left out.
  pub sign_auth_entries_covers :
      (entries signed : List AuthEntry) (w v : W)
      → sign_auth_entries net keys source entries w ≡ (v, returned signed)
      → AllCovered entries signed
  sign_auth_entries_covers entries signed w v h =
      subst (IfReturned (AllCovered entries)) h (sign_auth_entries-AllCovered entries w)
