-- ===== src/Perun/Bech32.antt =====
-- The bech32m encoding of internal/perun/client.go, which has its own copy of the functions that
-- internal/guest/wallet.go has. Go's `int` has 64 bits, of which the groups that are taken out are
-- the low ones.
use Prim.Native.Nat.{bit_xor}
use air_fi.Base.{
  ℕ, suc, ◌+◌, ◌-◌, ◌*◌, ◌/◌, ◌%◌, ◌^◌, Bool, List, [], ◌∷◌, ◌++◌, map, if◌then◌else◌, leb, ltb,
  ◌==◌,
}
use air_fi.Base.Bytes.{Bytes, codes}

-- The whole groups of `to` bits in the last `bits` bits, and how many bits are left. Each turn takes
-- at least one bit, so that `bits` turns are enough.
unfoldable pub drain : ℕ → ℕ → ℕ → ℕ → Bytes × ℕ
drain ℕ.zero to acc bits = ([], bits)
drain (suc fuel) to acc bits =
    let rest = drain fuel to acc (bits - to) in
    if leb to bits then (acc / 2 ^ (bits - to) % 2 ^ to ∷ rest.0, rest.1) else ([], bits)

unfoldable pub convert_from : ℕ → ℕ → Bool → ℕ → ℕ → Bytes → Bytes
unfolding drain
convert_from width to pad acc bits [] =
    if pad then (if ltb 0 bits then acc * 2 ^ (to - bits) % 2 ^ to ∷ [] else []) else []
convert_from width to pad acc bits (x ∷ xs) =
    let acc' = (acc * 2 ^ width + x) % 2 ^ 64 in
    let (groups, left) = drain (bits + width) to acc' (bits + width) in
    groups ++ convert_from width to pad acc' left xs

unfoldable pub convert_bits : Bytes → ℕ → ℕ → Bool → Bytes
unfolding convert_from
convert_bits xs width to pad = convert_from width to pad 0 0 xs

abbrev pub charset : Bytes
charset = codes "qpzry9x8gf2tvdw0s3jn54khce6mua7l"

-- `charset[v]`, of a value below 32.
abbrev pub char_at : Bytes → ℕ → ℕ
char_at [] n = 0
char_at (x ∷ xs) ℕ.zero = x
char_at (x ∷ xs) (suc n) = char_at xs n

unfoldable pub bech32m_hrp_expand : Bytes → Bytes
bech32m_hrp_expand hrp = map (λ c. c / 2 ^ 5) hrp ++ 0 ∷ map (λ c. c % 2 ^ 5) hrp

abbrev pub generator : List ℕ
generator = 0x3b6a57b2 ∷ 0x26508e6d ∷ 0x1ea119fa ∷ 0x3d4233dd ∷ 0x2a1462b3 ∷ []

-- From the lowest bit of `top` on, one generator for each.
unfoldable pub mix : ℕ → ℕ → List ℕ → ℕ
mix top chk [] = chk
mix top chk (g ∷ gs) = mix (top / 2) (if top % 2 == 1 then bit_xor chk g else chk) gs

unfoldable pub polymod_from : ℕ → Bytes → ℕ
unfolding mix
polymod_from chk [] = chk
polymod_from chk (v ∷ vs) =
    polymod_from (mix (chk / 2 ^ 25) (bit_xor (chk % 2 ^ 25 * 2 ^ 5) v) generator) vs

unfoldable pub bech32m_polymod : Bytes → ℕ
unfolding polymod_from
bech32m_polymod values = polymod_from 1 values

unfoldable pub create_bech32m_checksum : Bytes → Bytes → Bytes
unfolding bech32m_hrp_expand bech32m_polymod
create_bech32m_checksum hrp xs =
    let polymod =
      bit_xor (bech32m_polymod (bech32m_hrp_expand hrp ++ (xs ++ 0 ∷ 0 ∷ 0 ∷ 0 ∷ 0 ∷ 0 ∷ [])))
        0x2bc830a3 in
    map (λ i. polymod / 2 ^ (5 * (5 - i)) % 2 ^ 5) (0 ∷ 1 ∷ 2 ∷ 3 ∷ 4 ∷ 5 ∷ [])

unfoldable pub bech32m_encode : Bytes → Bytes → Bytes
unfolding create_bech32m_checksum
bech32m_encode hrp xs = hrp ++ b'1' ∷ map (char_at charset) (xs ++ create_bech32m_checksum hrp xs)
