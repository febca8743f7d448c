-- ===== src/Sdk/Freighter/Codes.antt =====
-- Which codes the failures of the wallet helper have.
use stellar_quorum.Base.{
  String, ◌≡◌, ◌≢◌, refl, Bool, true, false, Option, none, some, inl, inr, Bool-cases, get_or,
  if◌then◌else◌, ap, not, sym, ◌∙◌,
}
use stellar_quorum.Base.Result.{Result, ok, err, ◌>>=◌, throw_if, map_err, >>=-eq-ok}
use stellar_quorum.Base.Text.{includes_any}
use text.Mathlib.Text.{◌==◌ as same_text}
use text.Mathlib.TextEquality.{eq_iff}
use stellar_quorum.Sdk.Freighter.{
  found_api, absent, Signed, SignedTransaction, SignWithFreighterOptions, sign_with_freighter,
  declined_words, locked_words, missing_words, text_of, FreighterErrorCode, not_installed, locked,
  access_denied, signing_rejected, wallet_error, Failure, type_error, freighter_error, Payload,
  Phase, access, sign, FreighterApi, Wallet, code_for, to_freighter_error, load_freighter, connect,
  get_freighter_address, present_or, no_payload,
}

-- A failure to connect, not one to sign.
abbrev pub IsAccessCode : FreighterErrorCode → Type 0
IsAccessCode not_installed = Unit
IsAccessCode locked = Unit
IsAccessCode access_denied = Unit
IsAccessCode signing_rejected = ⊥
IsAccessCode wallet_error = ⊥

abbrev pub IsAccessFailure : Failure → Type 0
IsAccessFailure (type_error message) = ⊥
IsAccessFailure (freighter_error code message) = IsAccessCode code

-- Every failure of the computation is one to connect.
record AccessOnly {A : Type 0} (m : Result Failure A) : Type 0 where
  why : (f : Failure) → m ≡ err f → IsAccessFailure f

fine : {A : Type 0} (a : A) → AccessOnly (ok a)
fine a = record { why = λ f h. cc }

fails : {A : Type 0} (f : Failure) → IsAccessFailure f → AccessOnly {A = A} (err f)
fails {A} f k = record { why = λ g h. let same : f ≡ g = cc in rw⁻¹ same k }

bind-AccessOnly :
    {A B : Type 0} (m : Result Failure A) (f : A → Result Failure B)
    → AccessOnly m
    → ((a : A) → AccessOnly (f a))
    → AccessOnly (m >>= f)
bind-AccessOnly (ok a) f h k = k a
bind-AccessOnly (err e) f h k = record {
  why = λ g failed. let same : e ≡ g = cc in h.why g (ap err same);
}

map_err-AccessOnly :
    {A : Type 0} (g : Payload → Failure) (m : Result Payload A)
    → ((e : Payload) → IsAccessFailure (g e))
    → AccessOnly (map_err g m)
map_err-AccessOnly g (ok a) k = fine a
map_err-AccessOnly g (err e) k = fails (g e) (k e)

throw_if-AccessOnly : (b : Bool) (f : Failure) → IsAccessFailure f → AccessOnly (throw_if b f)
throw_if-AccessOnly true f k = fails f k
throw_if-AccessOnly false f k = fine tt

code_for-access : (message : String) → IsAccessCode (code_for message access)
unfolding code_for
code_for-access message =
    by_words (includes_any locked_words message) (includes_any missing_words message)
      (includes_any declined_words message)
  where
    by_words :
        (a b c : Bool)
        → IsAccessCode (
            if a
            then locked
            else if b
            then not_installed
            else if c
            then access_denied
            else access_denied)
    by_words true b c = tt
    by_words false true c = tt
    by_words false false true = tt
    by_words false false false = tt

to_freighter_error-access : (e : Payload) → IsAccessFailure (to_freighter_error access e)
unfolding to_freighter_error
to_freighter_error-access e = code_for-access (text_of e)

found_api-AccessOnly : (o : Option FreighterApi) → AccessOnly (found_api o)
found_api-AccessOnly none = fails _ tt
found_api-AccessOnly (some api) = fine api

load_freighter-AccessOnly : (w : Wallet) → AccessOnly (load_freighter w)
unfolding load_freighter
load_freighter-AccessOnly w =
    bind-AccessOnly (throw_if (not w.in_browser) _) _ (throw_if-AccessOnly (not w.in_browser) _ tt)
      (λ _.
        bind-AccessOnly (map_err absent w.api_module) _
          (map_err-AccessOnly absent w.api_module (λ e. tt)) found_api-AccessOnly)

no_payload-AccessOnly : (o : Option Payload) → AccessOnly (no_payload access o)
no_payload-AccessOnly none = fine tt
no_payload-AccessOnly (some e) = fails _ (to_freighter_error-access e)

present_or-AccessOnly :
    (f : Failure) (o : Option String) → IsAccessFailure f → AccessOnly (present_or f o)
present_or-AccessOnly f none k = fails f k
present_or-AccessOnly f (some s) k = elim (Bool-cases (same_text s "")) [
  | inl nothing ↦ rw nothing (fails f k)
  | inr given ↦ rw given (fine s)
]

connect-AccessOnly : (w : Wallet) → AccessOnly (connect w)
unfolding connect
connect-AccessOnly w = bind-AccessOnly (load_freighter w) _ (load_freighter-AccessOnly w) (λ api.
    bind-AccessOnly (map_err (to_freighter_error access) api.request_access) _
      (map_err-AccessOnly (to_freighter_error access) api.request_access to_freighter_error-access)
      (λ granted.
        bind-AccessOnly (no_payload access granted.error) _ (no_payload-AccessOnly granted.error)
          (λ _.
            bind-AccessOnly (present_or _ granted.address) _
              (present_or-AccessOnly _ granted.address tt) (λ address. fine (api, address)))))

-- `getFreighterAddress` throws a `FreighterError`, with one of the codes for a missing or locked
-- wallet or a refused connection.
pub get_freighter_address-eq-err :
    (w : Wallet) (f : Failure) → get_freighter_address w ≡ err f → IsAccessFailure f
unfolding get_freighter_address
get_freighter_address-eq-err w f h =
    (bind-AccessOnly (connect w) _ (connect-AccessOnly w) (λ c. fine c.1)).why f h

abbrev returned : SignedTransaction → Result Failure SignedTransaction
returned s = ok s

ok_xdr : {s t : SignedTransaction} → returned s ≡ ok t → s.signed_xdr ≡ t.signed_xdr
ok_xdr {s} {t} h = let same : s ≡ t = cc in ap (λ (u : SignedTransaction). u.signed_xdr) same

map_err-eq-ok :
    {A : Type 0} (g : Payload → Failure) (m : Result Payload A) (a : A)
    → map_err g m ≡ ok a
    → m ≡ ok a
map_err-eq-ok g (ok b) a h = let same : b ≡ a = cc in ap ok same
map_err-eq-ok g (err e) a h = cc

no_payload-eq-ok :
    (phase : Phase) (o : Option Payload) (u : Unit {0}) → no_payload phase o ≡ ok u → o ≡ none
no_payload-eq-ok phase none u h = refl
no_payload-eq-ok phase (some e) u h = cc

present_or-eq-ok :
    (f : Failure) (o : Option String) (s : String) → present_or f o ≡ ok s → (o ≡ some s) × (s ≢ "")
present_or-eq-ok f none s h = cc
present_or-eq-ok f (some t) s h = elim (Bool-cases (same_text t "")) [
  | inl nothing ↦ let refused = rw nothing at h in cc
  | inr given ↦
      let same : t ≡ s = let kept = rw given at h in cc in
      (
        ap some same,
        λ empty. let both : true ≡ false = sym ((eq_iff t "").1 (same ∙ empty)) ∙ given in cc,
      )
]

-- What `signWithFreighter` returns was signed by the wallet, for the transaction and network that were
-- passed and for the account that was asked for or else the connected one, and is not empty.
pub sign_with_freighter-eq-ok :
    (w : Wallet) (xdr : String) (options : SignWithFreighterOptions) (s : SignedTransaction)
    → sign_with_freighter w xdr options ≡ ok s
    → (api : FreighterApi) × (address : String) × (signed : Signed) × (connect w
        ≡ ok (api, address))
      × (api.sign_transaction xdr options.network_passphrase (get_or options.address address)
          ≡ ok signed)
      × (signed.error ≡ none)
      × (signed.signed_tx_xdr ≡ some s.signed_xdr)
      × (s.signed_xdr ≢ "")
unfolding sign_with_freighter
sign_with_freighter-eq-ok w xdr options s h =
    let (_, _, h1) = >>=-eq-ok (throw_if (same_text xdr "") _) _ h in
    let (_, _, h2) = >>=-eq-ok (throw_if (same_text options.network_passphrase "") _) _ h1 in
    let (c, connected, h3) = >>=-eq-ok (connect w) _ h2 in
    let signer = get_or options.address c.1 in
    let request = c.0.sign_transaction xdr options.network_passphrase signer in
    let (signed, answered, h4) = >>=-eq-ok (map_err (to_freighter_error sign) request) _ h3 in
    let (u, clean, h5) = >>=-eq-ok (no_payload sign signed.error) _ h4 in
    let (signed_xdr, given, h6) = >>=-eq-ok (present_or _ signed.signed_tx_xdr) _ h5 in
    let (there, full) = present_or-eq-ok _ signed.signed_tx_xdr signed_xdr given in
    let same : signed_xdr ≡ s.signed_xdr = ok_xdr h6 in
    (
      c.0,
      c.1,
      signed,
      connected,
      map_err-eq-ok (to_freighter_error sign) request signed answered,
      no_payload-eq-ok sign signed.error u clean,
      there ∙ ap some same,
      rw same at full,
    )
