-- ===== src/Frontend/Env/Strkey/Lengths.antt =====
-- How many bytes a base32 text has, and what a valid contract id decodes to.
use Prim.Native.String.{String, [], ◌∷◌}
use mathlib.Core.List as L
use mathlib.Core.List.{List}
use stellar_quorum.Base.{
  ℕ, suc, ◌+◌, ◌-◌, ◌*◌, ◌/◌, ◌%◌, ◌≤◌, ◌<◌, ◌≡◌, refl, sym, ap, ◌∙◌, Bool, true, false, ◌&&◌, not,
  Option, none, some, ltb, leb, length, arith, Bool-cases, Option-cases, inl, inr, get_or,
}
use stellar_quorum.Frontend.Env.Strkey.{
  decode_from, base32_decode, base32_index, after_char, bits_left, with_byte, text_length,
  is_valid_contract_id, is_valid_strkey, valid_bytes, checked, contract_version_byte, shifted_in,
  byte_at,
}

and-right : (a b : Bool) → (not a && b) ≡ true → b ≡ true
and-right true b h = cc
and-right false b h = h

with_byte-eq-some :
    (b : ℕ) (o : Option (List ℕ)) (bytes : List ℕ)
    → with_byte b o ≡ some bytes
    → (rest : List ℕ) × (o ≡ some rest) × (length bytes ≡ suc (length rest))
with_byte-eq-some b none bytes h = cc
with_byte-eq-some b (some rest) bytes h =
    let same : L.◌∷◌ b rest ≡ bytes = cc in (rest, refl, sym (ap length same))

-- The bytes and the bits left over are the bits that were read.
abbrev Accounts : ℕ → ℕ → List ℕ → Type 0
Accounts bits n bytes = (left : ℕ) × (left < 5) × (length bytes * 8 + left ≡ bits + 5 * n)

decode_step :
    (bits n byte : ℕ) (o : Option (List ℕ)) (bytes : List ℕ)
    → bits < 8
    → (i : ℕ) → after_char (some i) (bits + 5) byte o ≡ some bytes
    → ((rest : List ℕ) → o ≡ some rest → Accounts (bits_left (bits + 5)) n rest)
    → Accounts bits (suc n) bytes
decode_step bits n byte o bytes small i h later = elim (Bool-cases (leb 8 (bits + 5))) [
  | inl whole ↦
      let (rest, e, longer) = with_byte-eq-some byte o bytes (rw whole at h) in
      let (left, few, sum) = later rest e in
      let enough : 8 ≤ bits + 5 = ground arith in
      let taken : bits_left (bits + 5) ≡ bits + 5 - 8 = rw whole refl in (left, few, omega arith)
  | inr short ↦
      let (left, few, sum) = later bytes (rw short at h) in
      let kept : bits_left (bits + 5) ≡ bits + 5 = rw short refl in (left, few, omega arith)
]

decode_from-length :
    (buffer bits : ℕ) (s : String) (bytes : List ℕ)
    → bits < 8
    → decode_from buffer bits s ≡ some bytes
    → Accounts bits (text_length s) bytes
unfolding decode_from
decode_from-length buffer bits [] bytes small h = elim (Bool-cases (leb 5 bits)) [
  | inl left ↦ let refused : none ≡ some bytes = rw left at h in cc
  | inr few ↦
      let made : some L.[] ≡ some bytes = rw few at h in
      let empty : L.[] ≡ bytes = cc in (bits, ground arith, rw⁻¹ empty (omega arith))
]
decode_from-length buffer bits (c ∷ cs) bytes small h =
    let buffer' = shifted_in buffer (get_or (base32_index c) 0) in
    let left = bits_left (bits + 5) in
    let rest = decode_from buffer' left cs in
    let byte = byte_at buffer' left in
    let step : after_char (base32_index c) (bits + 5) byte rest ≡ some bytes = h in
    elim (Option-cases (base32_index c)) [
      | inl unknown ↦
          let refused : none ≡ some bytes =
            sym (ap (λ o. after_char o (bits + 5) byte rest) unknown) ∙ step in
          cc
      | inr (i, found) ↦
          let known = sym (ap (λ o. after_char o (bits + 5) byte rest) found) ∙ step in
          decode_step bits (text_length cs) byte rest bytes small i known
            (λ bs e. decode_from-length buffer' left cs bs (ground arith) e)
    ]

-- A base32 text that is decoded has as many bytes as its characters have whole bytes of bits, and fewer
-- than five bits more.
pub base32_decode-length :
    (s : String) (bytes : List ℕ)
    → base32_decode s ≡ some bytes
    → (length bytes ≡ 5 * text_length s / 8) × (5 * text_length s % 8 < 5)
unfolding base32_decode
base32_decode-length s bytes h =
    let (left, few, sum) = decode_from-length 0 0 s bytes (omega arith) h in
    (omega arith, omega arith)

valid_bytes-true :
    (version : ℕ) (o : Option (List ℕ))
    → valid_bytes version o ≡ true
    → (bytes : List ℕ) × (o ≡ some bytes) × (checked version bytes ≡ true)
valid_bytes-true version none h = cc
valid_bytes-true version (some bytes) h = (bytes, refl, and-right (ltb (length bytes) 3) _ h)

-- A text that is accepted as a contract id decodes to 35 bytes, with the contract's version byte in
-- front and the checksum of the first 33 bytes behind.
pub is_valid_contract_id_bytes :
    (value : String)
    → is_valid_contract_id value ≡ true
    → (bytes : List ℕ) × (base32_decode value ≡ some bytes)
      × (length bytes ≡ 35)
      × (checked 16 bytes ≡ true)
unfolding is_valid_contract_id is_valid_strkey
is_valid_contract_id_bytes value h =
    let len : text_length value ≡ 56 = ground arith in
    let valid : valid_bytes contract_version_byte (base32_decode value) ≡ true = ground arith in
    let (bytes, decoded, sound) = valid_bytes-true 16 (base32_decode value) valid in
    let long = base32_decode-length value bytes decoded in (bytes, decoded, omega arith, sound)
