-- ===== src/Frontend/Env/Strkey.antt =====
-- The Stellar strkeys of frontend/lib/env.ts. Bits are written out: `a << b` is `a * 2 ^ b` in 32 bits,
-- `a >> b` is `a / 2 ^ b`, and `a & (2 ^ b - 1)` is `a % 2 ^ b`.
pub mod Lengths
use Prim.Native.Char.{Char, code}
use Prim.Native.String.{String, [], ◌∷◌}
use mathlib.Core.List as L
use mathlib.Core.List.{List}
use stellar_quorum.Base.{
  ℕ, zero, suc, ◌+◌, ◌-◌, ◌*◌, ◌/◌, ◌%◌, ◌^◌, Bool, true, false, ◌&&◌, ◌||◌, not, Option, none,
  some, if◌then◌else◌, ltb, leb, ◌==◌, length, take, get_elem?, get_or,
}

-- `BASE32_ALPHABET.indexOf(char)`, for ABCDEFGHIJKLMNOPQRSTUVWXYZ234567.
abbrev pub base32_index : Char → Option ℕ
base32_index c =
    if leb 65 (code c) && leb (code c) 90
    then some (code c - 65)
    else if leb 50 (code c) && leb (code c) 55
    then some (code c - 24)
    else none

-- `(buffer << 5) | index`
abbrev pub shifted_in : ℕ → ℕ → ℕ
shifted_in buffer index = (buffer * 32 + index) % 2 ^ 32

abbrev pub with_byte : ℕ → Option (List ℕ) → Option (List ℕ)
with_byte b none = none
with_byte b (some bytes) = some (L.◌∷◌ b bytes)

-- `(buffer >> bits) & 0xff`
abbrev pub byte_at : ℕ → ℕ → ℕ
byte_at buffer bits = buffer / 2 ^ bits % 256

-- The bits that are left in the buffer when `bits` are: a byte goes if there is one.
abbrev pub bits_left : ℕ → ℕ
bits_left bits = if leb 8 bits then bits - 8 else bits

-- After a character, with what the rest of the text gives.
abbrev pub after_char : Option ℕ → ℕ → ℕ → Option (List ℕ) → Option (List ℕ)
after_char none bits byte rest = none
after_char (some i) bits byte rest = if leb 8 bits then with_byte byte rest else rest

-- The loop of `base32Decode`, from a buffer that holds `bits` bits, and the test behind it.
unfoldable pub decode_from : ℕ → ℕ → String → Option (List ℕ)
decode_from buffer bits [] = if leb 5 bits then none else some L.[]
decode_from buffer bits (c ∷ cs) =
    let buffer' = shifted_in buffer (get_or (base32_index c) 0) in
    let left = bits_left (bits + 5) in
    after_char (base32_index c) (bits + 5) (byte_at buffer' left) (decode_from buffer' left cs)

unfoldable pub base32_decode : String → Option (List ℕ)
base32_decode s = decode_from 0 0 s

-- `a ^ b` of `n` bits
abbrev xor_bits : ℕ → ℕ → ℕ → ℕ
xor_bits zero a b = 0
xor_bits (suc n) a b = (a + b) % 2 + 2 * xor_bits n (a / 2) (b / 2)

-- One round of the inner loop: `crc & 0x8000` is bit 15.
abbrev crc_bit : ℕ → ℕ
crc_bit crc =
    if crc / 2 ^ 15 % 2 == 1 then xor_bits 17 (crc * 2) 4129 % 2 ^ 16 else crc * 2 % 2 ^ 16

abbrev crc_bits : ℕ → ℕ → ℕ
crc_bits zero crc = crc
crc_bits (suc n) crc = crc_bits n (crc_bit crc)

unfoldable pub crc_from : ℕ → List ℕ → ℕ
crc_from crc L.[] = crc
crc_from crc (L.◌∷◌ b bs) = crc_from (crc_bits 8 (xor_bits 16 crc (b * 2 ^ 8))) bs

unfoldable pub crc16_xmodem : List ℕ → ℕ
crc16_xmodem bytes = crc_from 0 bytes

-- `/^[A-Z2-7]*$/`
abbrev pub is_base32 : String → Bool
is_base32 [] = true
is_base32 (c ∷ cs) =
    (leb 65 (code c) && leb (code c) 90 || leb 50 (code c) && leb (code c) 55) && is_base32 cs

abbrev pub text_length : String → ℕ
text_length [] = 0
text_length (c ∷ cs) = suc (text_length cs)

-- `a | (b << 8)` of two bytes
abbrev little_endian : ℕ → ℕ → ℕ
little_endian a b = a + b * 2 ^ 8

abbrev byte_of : List ℕ → ℕ → ℕ
byte_of bytes i = get_or (get_elem? bytes i) 0

abbrev pub checked : ℕ → List ℕ → Bool
checked version bytes =
    let n = length bytes in
    let payload = take (n - 2) bytes in
    byte_of payload 0 == version
    && crc16_xmodem payload == little_endian (byte_of bytes (n - 2)) (byte_of bytes (n - 1))

abbrev pub valid_bytes : ℕ → Option (List ℕ) → Bool
valid_bytes version none = false
valid_bytes version (some bytes) = not (ltb (length bytes) 3) && checked version bytes

-- The text is not empty and has base32 characters only.
unfoldable pub is_valid_strkey : String → ℕ → Bool
is_valid_strkey value version =
    if text_length value == 0 || not (is_base32 value)
    then false
    else valid_bytes version (base32_decode value)

abbrev pub contract_version_byte : ℕ
contract_version_byte = 2 * 2 ^ 3

unfoldable pub is_valid_contract_id : String → Bool
is_valid_contract_id value = text_length value == 56 && is_valid_strkey value contract_version_byte
