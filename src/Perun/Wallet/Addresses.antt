-- ===== src/Perun/Wallet/Addresses.antt =====
-- The two encoders of addresses, of internal/perun/client.go and internal/guest/wallet.go, agree; the
-- client's own address is one that the guests' decoder reads.
use Prim.Native.Nat.{bit_xor}
use air_fi.Base.{
  ℕ, suc, ◌+◌, ◌-◌, ◌*◌, ◌/◌, ◌%◌, ◌^◌, ◌<◌, ◌≡◌, refl, ap, ◌∙◌, inl, inr, Bool, true, some, List,
  [], ◌∷◌, ◌++◌, map, length, Result, ok, err, All, Option-cases,
}
use air_fi.Base.Bytes.{Bytes, codes}
use air_fi.Guest.Bech32 as Guest
use air_fi.Guest.Address.{
  Script, Network, main, test, decode_address, encode_address as encode_guest_address,
}
use air_fi.Guest.RoundTrip.{decode_address-encode_address}
use air_fi.Perun.Bech32.{
  drain, convert_from, convert_bits, generator, char_at, charset, mix, polymod_from,
  bech32m_polymod, bech32m_hrp_expand, create_bech32m_checksum, bech32m_encode,
}
use air_fi.Perun.Config.{NetworkType}
use air_fi.Perun.Wallet.{
  KeyLib, Wallet, WalletError, strip_0x, hex_decode, sdk_network, encode_address, lock_of,
  load_private_key,
}

drain_same : (fuel to acc bits : ℕ) → drain fuel to acc bits ≡ Guest.drain fuel to acc bits
unfolding drain Guest.drain
drain_same ℕ.zero to acc bits = refl
drain_same (suc fuel) to acc bits = rw (drain, drain_same fuel to acc (bits - to)) refl

convert_from_same :
    (width to : ℕ) (pad : Bool) (acc bits : ℕ) (xs : Bytes)
    → convert_from width to pad acc bits xs ≡ Guest.convert_from width to pad acc bits xs
unfolding convert_from Guest.convert_from
convert_from_same width to pad acc bits [] = refl
convert_from_same width to pad acc bits (x ∷ xs) =
    let acc' = (acc * 2 ^ width + x) % 2 ^ 64 in
    let groups = Guest.drain (bits + width) to acc' (bits + width) in
    ap (λ r. r.0 ++ convert_from width to pad acc' r.1 xs)
      (drain_same (bits + width) to acc' (bits + width))
    ∙ ap (λ ys. groups.0 ++ ys) (convert_from_same width to pad acc' groups.1 xs)

mix_same : (top chk : ℕ) (gs : List ℕ) → mix top chk gs ≡ Guest.mix top chk gs
unfolding mix Guest.mix
mix_same top chk [] = refl
mix_same top chk (g ∷ gs) = mix_same (top / 2) _ gs

polymod_from_same : (chk : ℕ) (vs : Bytes) → polymod_from chk vs ≡ Guest.polymod_from chk vs
unfolding polymod_from Guest.polymod_from
polymod_from_same chk [] = refl
polymod_from_same chk (v ∷ vs) =
    let mixed = bit_xor (chk % 2 ^ 25 * 2 ^ 5) v in
    polymod_from_same (mix (chk / 2 ^ 25) mixed generator) vs
    ∙ ap (λ k. Guest.polymod_from k vs) (mix_same (chk / 2 ^ 25) mixed generator)

checksum_same :
    (hrp xs : Bytes) → create_bech32m_checksum hrp xs ≡ Guest.create_bech32m_checksum hrp xs
unfolding create_bech32m_checksum Guest.create_bech32m_checksum bech32m_hrp_expand
    Guest.bech32m_hrp_expand bech32m_polymod Guest.bech32m_polymod
checksum_same hrp xs =
    ap
      (λ p.
        map (λ i. bit_xor p 0x2bc830a3 / 2 ^ (5 * (5 - i)) % 2 ^ 5) (0 ∷ 1 ∷ 2 ∷ 3 ∷ 4 ∷ 5 ∷ []))
      (polymod_from_same 1 (bech32m_hrp_expand hrp ++ (xs ++ 0 ∷ 0 ∷ 0 ∷ 0 ∷ 0 ∷ 0 ∷ [])))

bech32m_encode_same : (hrp xs : Bytes) → bech32m_encode hrp xs ≡ Guest.bech32m_encode hrp xs
unfolding bech32m_encode Guest.bech32m_encode
bech32m_encode_same hrp xs =
    ap (λ sum. hrp ++ b'1' ∷ map (char_at charset) (xs ++ sum)) (checksum_same hrp xs)

convert_bits_same :
    (xs : Bytes) (width to : ℕ) (pad : Bool)
    → convert_bits xs width to pad ≡ Guest.convert_bits xs width to pad
unfolding convert_bits Guest.convert_bits
convert_bits_same xs width to pad = convert_from_same width to pad 0 0 xs

encoded_same :
    (hrp xs : Bytes)
    → bech32m_encode hrp (convert_bits xs 8 5 true)
      ≡ Guest.bech32m_encode hrp (Guest.convert_bits xs 8 5 true)
encoded_same hrp xs =
    bech32m_encode_same hrp (convert_bits xs 8 5 true)
    ∙ ap (Guest.bech32m_encode hrp) (convert_bits_same xs 8 5 true)

-- The channel client and the guests' wallets write the same address of a lock script, on either
-- network.
pub encode_address_same :
    (script : Script) (network : Network)
    → encode_address script network ≡ encode_guest_address script network
unfolding encode_address encode_guest_address
encode_address_same script main =
    encoded_same (codes "ckb") (0 ∷ (script.code_hash ++ 1 ∷ script.args))
encode_address_same script test =
    encoded_same (codes "ckt") (0 ∷ (script.code_hash ++ 1 ∷ script.args))

module _ {Key : Type 0} (lib : KeyLib Key) where
  -- What the SDK's hashes are: bytes, and a code hash of 32 of them.
  pub record GivesBytes : Type 0 where
    pub whole : (n : Network) → length (lib.code_hash n) ≡ 32
    pub code_bytes : (n : Network) → All (λ x. x < 256) (lib.code_hash n)
    pub key_bytes : (k : Key) → All (λ x. x < 256) (lib.pub_key_hash k)

  own_address :
      (n : NetworkType) (k : Key)
      → GivesBytes
      → decode_address (encode_address (lock_of lib n k) (sdk_network n)) ≡ ok (lock_of lib n k)
  own_address n k g =
      ap decode_address (encode_address_same (lock_of lib n k) (sdk_network n))
      ∙ decode_address-encode_address (lock_of lib n k) (sdk_network n) (g.whole (sdk_network n))
          (g.code_bytes (sdk_network n)) (g.key_bytes k)

  failed : {e : WalletError} → ¬ (◌≡◌ {A = Result WalletError (Unit {0})} (err e) (ok tt))
  failed e = cc

  -- Where a key is loaded without an error, whatever was loaded before, the client has that key, its
  -- lock script on the configured network, and an address that the guests' decoder reads as exactly
  -- that lock script.
  pub load_private_key_address :
      (w : Wallet Key) (text : Bytes)
      → GivesBytes
      → (load_private_key lib w text).1 ≡ ok tt
      → let w' = (load_private_key lib w text).0 in
        (key : Key) × (lib.hex_to_key (strip_0x text) ≡ some key)
        × (w'.ckb_key ≡ some key)
        × (w'.lock_script ≡ some (lock_of lib w.network key))
        × (decode_address w'.address ≡ ok (lock_of lib w.network key))
  unfolding load_private_key
  load_private_key_address w text g e = elim (Option-cases (lib.hex_to_key (strip_0x text))) [
    | inl bad ↦ absurd (failed (rw (bad, load_private_key) at e))
    | inr (key, good) ↦ elim (Option-cases (hex_decode (strip_0x text))) [
      | inl odd ↦ absurd (failed (rw (good, odd, load_private_key) at e))
      | inr (bytes, even) ↦ (
        key,
        good,
        rw (good, even, load_private_key) refl,
        rw (good, even, load_private_key) refl,
        rw (good, even, load_private_key) (own_address w.network key g),
      )
    ]
  ]
