-- ===== src/Guest/Tests.antt =====
-- A concrete address of internal/guest, with its checksum and with another.
use air_fi.Base.{◌≡◌, ◌<◌, All, refl, some, [], ◌∷◌, ◌++◌, ok, replicate, arith}
use air_fi.Base.Bytes.{Bytes, codes}
use air_fi.Guest.Bech32.{
  drain, convert_from, convert_bits, convert_bits_to_bytes, index_from, bech32m_hrp_expand, mix,
  polymod_from, bech32m_polymod, create_bech32m_checksum, bech32m_encode,
}
use air_fi.Guest.Address.{
  Script, type_hash, main, test, encode_address, decode_address, decode_chars, decode_data,
  decode_payload, after_last,
}
use air_fi.Guest.Checksum.{decode_address_unchecked}
use air_fi.Guest.RoundTrip.{decode_address-encode_address}

abbrev script : Script
script = record { code_hash = replicate 32 171; hash_type = type_hash; args = replicate 20 205 }

-- The script's address decodes to the script.
decoded : decode_address (encode_address script test) ≡ ok script
unfolding decode_address decode_data decode_payload decode_chars after_last encode_address
    convert_bits convert_bits_to_bytes convert_from drain index_from bech32m_encode
    create_bech32m_checksum bech32m_hrp_expand bech32m_polymod polymod_from mix
decoded = refl

bytes : All (λ x. x < 256) (replicate 32 171)
bytes = omega arith

more_bytes : All (λ x. x < 256) (replicate 20 205)
more_bytes = omega arith

decode_address-encode_address_example : decode_address (encode_address script main) ≡ ok script
decode_address-encode_address_example =
    decode_address-encode_address script main refl bytes more_bytes

abbrev payload : Bytes
payload = codes "qqqq"

chars : decode_chars payload ≡ some (0 ∷ 0 ∷ 0 ∷ 0 ∷ [])
unfolding decode_chars index_from
chars = refl

zeros : decode_chars (codes "qqqqqq") ≡ some (replicate 6 0)
unfolding decode_chars index_from
zeros = refl

ones : decode_chars (codes "pppppp") ≡ some (replicate 6 1)
unfolding decode_chars index_from
ones = refl

decode_address_unchecked_example :
    decode_address (codes "ckt" ++ b'1' ∷ (payload ++ codes "qqqqqq"))
    ≡ decode_address (codes "ckt" ++ b'1' ∷ (payload ++ codes "pppppp"))
decode_address_unchecked_example =
    decode_address_unchecked (codes "ckt") payload (codes "qqqqqq") (codes "pppppp")
      (0 ∷ 0 ∷ 0 ∷ 0 ∷ []) (replicate 6 0) (replicate 6 1) (omega arith) chars zeros refl ones refl
