-- ===== src/Frontend/Wallet/Accounts.antt =====
-- Which addresses the provider remembers, and which is in use.
use mathlib.Core.Path.{subst}
use text.Mathlib.Text.{◌==◌ as same_text}
use stellar_quorum.Base.{
  ℕ, zero, suc, ◌≤◌, String, ◌≡◌, refl, sym, ap, Bool, true, false, not, Bool-cases, Option-cases,
  inl, inr, Option, none, some, List, [], ◌∷◌, All, keep, take, length, length-take, is_some, arith,
}
use stellar_quorum.Base.Result.{Result, ok, err}
use stellar_quorum.Sdk.Errors.{Thrown}
use stellar_quorum.Frontend.Wallet.{
  WalletState, initial, remembered, wallet_adapter, start_connect, finish_connect, disconnect,
  switch_account,
}

-- What can happen to the provider, whether the wallet is installed or not at the time.
pub data Steps : WalletState → WalletState → Type 0 where
  starts :
      (s : WalletState) (installed : Bool) (id : Option String)
      → Steps s (start_connect installed id s).0
  answers :
      (s : WalletState) (wallet : String) (answer : Result Thrown String)
      → Steps s (finish_connect wallet answer s)
  leaves : (s : WalletState) (installed : Bool) → Steps s (disconnect installed s).0
  switches :
      (s : WalletState) (installed : Bool) (address : String)
      → Steps s (switch_account installed address s)

pub data Reaches : WalletState → Type 0 where
  begins : Reaches initial
  goes_on : {s t : WalletState} → Reaches s → Steps s t → Reaches t

abbrev pub Distinct : List String → Type 0
Distinct [] = Unit
Distinct (a ∷ rest) = All (λ b. same_text b a ≡ false) rest × Distinct rest

-- The address in use leads the list.
abbrev pub Leads : Option String → List String → Type 0
Leads none rest = Unit
Leads (some a) [] = ⊥
Leads (some a) (b ∷ bs) = b ≡ a

pub record IsValid (s : WalletState) : Type 0 where
  pub distinct : Distinct s.connected_addresses
  pub bounded : length s.connected_addresses ≤ 10
  pub leads : Leads s.address s.connected_addresses
  pub in_use : is_some s.address ≡ is_some s.active_wallet_id

All-take : (P : String → Type 0) (n : ℕ) (rest : List String) → All P rest → All P (take n rest)
All-take P zero rest h = tt
All-take P (suc n) [] h = tt
All-take P (suc n) (a ∷ rest) h = (h.0, All-take P n rest h.1)

Distinct-take : (n : ℕ) (rest : List String) → Distinct rest → Distinct (take n rest)
Distinct-take zero rest h = tt
Distinct-take (suc n) [] h = tt
Distinct-take (suc n) (a ∷ rest) h = (All-take _ n rest h.0, Distinct-take n rest h.1)

All-keep :
    (P : String → Type 0) (p : String → Bool) (rest : List String)
    → All P rest
    → All P (keep p rest)
All-keep P p [] h = tt
All-keep P p (a ∷ rest) h = elim (Bool-cases (p a)) [
  | inl kept ↦ rw kept (h.0, All-keep P p rest h.1)
  | inr dropped ↦ rw dropped (All-keep P p rest h.1)
]

Distinct-keep : (p : String → Bool) (rest : List String) → Distinct rest → Distinct (keep p rest)
Distinct-keep p [] h = tt
Distinct-keep p (a ∷ rest) h = elim (Bool-cases (p a)) [
  | inl kept ↦ rw kept (All-keep _ p rest h.0, Distinct-keep p rest h.1)
  | inr dropped ↦ rw dropped (Distinct-keep p rest h.1)
]

keep-others :
    (a : String) (rest : List String)
    → All (λ b. same_text b a ≡ false) (keep (λ b. not (same_text b a)) rest)
keep-others a [] = tt
keep-others a (b ∷ bs) = elim (Bool-cases (same_text b a)) [
  | inl same ↦ rw same (keep-others a bs)
  | inr other ↦ rw other (other, keep-others a bs)
]

remembered-Distinct :
    (a : String) (rest : List String) → Distinct rest → Distinct (remembered a rest)
unfolding remembered
remembered-Distinct a rest h =
    Distinct-take 10 (a ∷ keep (λ b. not (same_text b a)) rest)
      (keep-others a rest, Distinct-keep (λ b. not (same_text b a)) rest h)

length-remembered : (a : String) (rest : List String) → length (remembered a rest) ≤ 10
unfolding remembered
length-remembered a rest = omega (arith, length-take 10 (a ∷ keep (λ b. not (same_text b a)) rest))

remembered-Leads : (a : String) (rest : List String) → Leads (some a) (remembered a rest)
unfolding remembered
remembered-Leads a rest = refl

-- Only the fields that the invariant reads matter.
IsValid-fields :
    {s t : WalletState}
    → t.address ≡ s.address
    → t.connected_addresses ≡ s.connected_addresses
    → t.active_wallet_id ≡ s.active_wallet_id
    → IsValid s
    → IsValid t
IsValid-fields a b c v = record {
  distinct = rw b v.distinct;
  bounded = rw b v.bounded;
  leads = rw (a, b) v.leads;
  in_use = rw (a, c) v.in_use;
}

remembers-IsValid :
    (s t : WalletState) (a : String)
    → t.address ≡ some a
    → t.connected_addresses ≡ remembered a s.connected_addresses
    → is_some t.active_wallet_id ≡ true
    → IsValid s
    → IsValid t
remembers-IsValid s t a p q r v = record {
  distinct = rw q (remembered-Distinct a s.connected_addresses v.distinct);
  bounded = rw q (length-remembered a s.connected_addresses);
  leads = rw (p, q) (remembered-Leads a s.connected_addresses);
  in_use = rw (p, r);
}

switch_account-IsValid :
    (s : WalletState) (installed : Bool) (address : String)
    → IsValid s
    → IsValid (switch_account installed address s)
unfolding switch_account
switch_account-IsValid s installed address v = elim (Option-cases s.active_wallet_id) [
  | inl unused ↦
      let fails : switch_account installed address s
          ≡ record s { error = some "No wallet connected" } =
        rw unused in
      subst IsValid (sym fails) (IsValid-fields refl refl refl v)
  | inr (id, used) ↦ elim (Option-cases (wallet_adapter installed id)) [
    | inl missing ↦
        let fails : switch_account installed address s
            ≡ record s { error = some "Wallet not found" } =
          ground arith in
        subst IsValid (sym fails) (IsValid-fields refl refl refl v)
    | inr (w, found) ↦
        let switched : WalletState = record s {
          error = none;
          address = some address;
          connected_addresses = remembered address s.connected_addresses;
          pending = false;
        } in
        let succeeds : switch_account installed address s ≡ switched = ground arith in
        subst IsValid (sym succeeds)
          (remembers-IsValid s switched address refl refl (ap is_some used) v)
  ]
]

Steps-IsValid : {s t : WalletState} → Steps s t → IsValid s → IsValid t
unfolding start_connect finish_connect disconnect
Steps-IsValid (starts s true id) v = IsValid-fields refl refl refl v
Steps-IsValid (starts s false id) v = IsValid-fields refl refl refl v
Steps-IsValid (answers s wallet (err e)) v = IsValid-fields refl refl refl v
Steps-IsValid (answers s wallet (ok key)) v = remembers-IsValid s _ key refl refl refl v
Steps-IsValid (leaves s installed) v = record {
  distinct = v.distinct;
  bounded = v.bounded;
  leads = tt;
  in_use = refl;
}
Steps-IsValid (switches s installed address) v = switch_account-IsValid s installed address v

-- Whatever happens, the provider remembers at most ten addresses and none of them twice, the address in
-- use is the first of them, and there is one exactly when a wallet is active.
pub Reaches-IsValid : (s : WalletState) → Reaches s → IsValid s
Reaches-IsValid s begins = record {
  distinct = tt;
  bounded = omega arith;
  leads = tt;
  in_use = refl;
}
Reaches-IsValid s (goes_on r step) = Steps-IsValid step (Reaches-IsValid _ r)
