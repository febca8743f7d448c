-- ===== src/Sdk/Cache/EntryMap.antt =====
-- JavaScript's `Map` with string keys, in insertion order.
use text.Mathlib.Text.{◌==◌ as same_text}
use text.Mathlib.TextEquality.{eq_iff}
use stellar_quorum.Base.{
  ◌≢◌, Bool, Bool-cases, inl, inr, All, keep, ◌≤◌, ◌+◌, ◌-◌, String, ◌≡◌, refl, Option, none, some,
  List, [], ◌∷◌, arith, if◌then◌else◌, length,
}

abbrev pub Entries {ℓ} : Type ℓ → Type ℓ
Entries V = List (String × V)

module _ {ℓ} {V : Type ℓ} where
  unfoldable pub get : String → Entries V → Option V
  get k [] = none
  get k ((j, v) ∷ m) = if same_text j k then some v else get k m

  unfoldable pub delete : String → Entries V → Entries V
  delete k [] = []
  delete k ((j, v) ∷ m) = let rest = delete k m in if same_text j k then rest else (j, v) ∷ rest

  -- An old key keeps its place, a new one goes to the end.
  unfoldable pub set : String → V → Entries V → Entries V
  set k v [] = (k, v) ∷ []
  set k v ((j, w) ∷ m) = if same_text j k then (k, v) ∷ m else (j, w) ∷ set k v m

  -- `m.delete(m.keys().next().value)`
  unfoldable pub delete_first : Entries V → Entries V
  delete_first [] = []
  delete_first ((k, v) ∷ m) = m

  pub get-delete :
      (k j : String) (m : Entries V)
      → get j (delete k m) ≡ (if same_text k j then none else get j m)
  unfolding get delete
  get-delete k j [] = ground arith
  get-delete k j ((i, v) ∷ m) = ground (arith, get-delete k j m, eq_iff i k, eq_iff i j, eq_iff k j)

  pub get-set :
      (k j : String) (v : V) (m : Entries V)
      → get j (set k v m) ≡ (if same_text k j then some v else get j m)
  unfolding get set
  get-set k j v [] = refl
  get-set k j v ((i, w) ∷ m) = ground (arith, get-set k j v m, eq_iff i k, eq_iff i j, eq_iff k j)

  pub length-delete : (k : String) (m : Entries V) → length (delete k m) ≤ length m
  unfolding delete
  length-delete k [] = omega arith
  length-delete k ((j, v) ∷ m) = ground (arith, length-delete k m)

  pub length-set : (k : String) (v : V) (m : Entries V) → length (set k v m) ≤ length m + 1
  unfolding set
  length-set k v [] = omega arith
  length-set k v ((j, w) ∷ m) = ground (arith, length-set k v m)

  pub length-set_old :
      (k : String) (v w : V) (m : Entries V) → get k m ≡ some w → length (set k v m) ≡ length m
  unfolding get set
  length-set_old k v w [] h = cc
  length-set_old k v w ((j, x) ∷ m) h = ground (arith, length-set_old k v w m)

  pub length-delete_first : (m : Entries V) → length (delete_first m) ≡ length m - 1
  unfolding delete_first
  length-delete_first [] = omega arith
  length-delete_first ((k, v) ∷ m) = omega arith

same_value {ℓ} : {V : Type ℓ} (w v : V) → some w ≡ some v → w ≡ v
same_value w v e = cc

module _ {ℓ κ} {V : Type ℓ} (P : String × V → Type κ) where
  pub All-delete : (k : String) (m : Entries V) → All P m → All P (delete k m)
  unfolding delete
  All-delete k [] h = tt
  All-delete k ((j, v) ∷ m) h = let later = All-delete k m h.1 in ground (arith, later)

  pub All-set : (k : String) (v : V) (m : Entries V) → P (k, v) → All P m → All P (set k v m)
  unfolding set
  All-set k v [] p h = (p, tt)
  All-set k v ((j, w) ∷ m) p h = let later = All-set k v m p h.1 in ground (arith, later)

  pub All-delete_first : (m : Entries V) → All P m → All P (delete_first m)
  unfolding delete_first
  All-delete_first [] h = tt
  All-delete_first ((k, v) ∷ m) h = h.1

  pub All-keep : (p : String × V → Bool) (m : Entries V) → All P m → All P (keep p m)
  All-keep p [] h = tt
  All-keep p (b ∷ m) h = let later = All-keep p m h.1 in ground (arith, later)

  pub get-All : (k : String) (m : Entries V) {v : V} → get k m ≡ some v → All P m → P (k, v)
  unfolding get
  get-All k [] e h = cc
  get-All k ((j, w) ∷ m) {v} e h = elim (Bool-cases (same_text j k)) [
    | inl same ↦ rw (← (eq_iff j k).0 same, ← same_value w v (rw same at e)) h.0
    | inr other ↦ get-All k m (rw other at e) h.1
  ]

pub delete-All_ne {ℓ} : {V : Type ℓ} (k : String) (m : Entries V) → All (λ b. b.0 ≢ k) (delete k m)
unfolding delete
delete-All_ne k [] = tt
delete-All_ne k ((j, v) ∷ m) = let later = delete-All_ne k m in ground (arith, later, eq_iff j k)
