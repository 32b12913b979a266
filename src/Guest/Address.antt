-- ===== src/Guest/Address.antt =====
-- The addresses of internal/guest/wallet.go: a lock script's, and the lock script of one.
use air_fi.Base.{
  ℕ, ◌-◌, Bool, true, false, not, ◌||◌, Option, none, some, [], ◌∷◌, ◌++◌, if◌then◌else◌, ltb, ◌==◌,
  length, Result, ok, or_fail, fail_if, ◌>>=◌, ◌>>◌,
}
use air_fi.Base.Bytes.{Bytes, codes}
use air_fi.Perun.Crypto.{take, drop}
use air_fi.Guest.Bech32.{convert_bits, convert_bits_to_bytes, charset, index_from, bech32m_encode}

pub data HashType : Type 0 where
  data_hash type_hash data1_hash : HashType

pub record Script : Type 0 where
  pub code_hash : Bytes
  pub hash_type : HashType
  pub args : Bytes

pub data Network : Type 0 where
  main test : Network

pub data AddressError : Type 0 where
  too_short invalid_prefix no_separator invalid_character data_too_short payload_too_short
        unsupported_format unknown_hash_type :
      AddressError

-- The format and the hash type are always 0 and 1.
unfoldable pub encode_address : Script → Network → Bytes
encode_address script network =
    let payload = 0 ∷ (script.code_hash ++ 1 ∷ script.args) in
    let hrp : Bytes = elim network [ main ↦ codes "ckb" | test ↦ codes "ckt" ] in
    bech32m_encode hrp (convert_bits payload 8 5 true)

-- What follows the last `c`.
unfoldable pub after_last : ℕ → Bytes → Option Bytes
after_last c [] = none
after_last c (x ∷ xs) = elim (after_last c xs) [
  | some rest ↦ some rest
  | none ↦ if x == c then some xs else none
]

unfoldable pub decode_chars : Bytes → Option Bytes
decode_chars [] = some []
decode_chars (c ∷ cs) = elim (index_from 0 c charset) [
  | none ↦ none
  | some i ↦ elim (decode_chars cs) [ none ↦ none | some is ↦ some (i ∷ is) ]
]

abbrev pub same_prefix : Bytes → Bytes → Bool
same_prefix [] ys = true
same_prefix (x ∷ xs) [] = false
same_prefix (x ∷ xs) (y ∷ ys) = if x == y then same_prefix xs ys else false

abbrev pub hash_type_of : ℕ → Option HashType
hash_type_of n =
    if n == 0
    then some data_hash
    else if n == 1
    then some type_hash
    else if n == 2
    then some data1_hash
    else none

-- The number at a place that is there.
abbrev pub byte_at : ℕ → Bytes → ℕ
byte_at n [] = 0
byte_at ℕ.zero (x ∷ xs) = x
byte_at (ℕ.suc n) (x ∷ xs) = byte_at n xs

unfoldable pub decode_payload : Bytes → Result AddressError Script
decode_payload payload = do
  fail_if (ltb (length payload) 34) payload_too_short
  fail_if (not (byte_at 0 payload == 0)) unsupported_format
  ht ← or_fail (hash_type_of (byte_at 33 payload)) unknown_hash_type
  ok (record { code_hash = take 32 (drop 1 payload); hash_type = ht; args = drop 34 payload })

-- The last six values, the checksum, are cut off.
unfoldable pub decode_data : Bytes → Result AddressError Script
unfolding decode_payload
decode_data xs = do
  fail_if (ltb (length xs) 7) data_too_short
  decode_payload (convert_bits_to_bytes (take (length xs - 6) xs))

unfoldable pub decode_address : Bytes → Result AddressError Script
unfolding decode_data
decode_address address = do
  fail_if (ltb (length address) 3) too_short
  fail_if (not (same_prefix (codes "ckt") address || same_prefix (codes "ckb") address))
      invalid_prefix
  rest ← or_fail (after_last b'1' address) no_separator
  xs ← or_fail (decode_chars rest) invalid_character
  decode_data xs
