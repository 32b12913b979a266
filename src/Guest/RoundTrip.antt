-- ===== src/Guest/RoundTrip.antt =====
-- An address that internal/guest/wallet.go encodes, decoded again.
use air_fi.Base.{
  ℕ, suc, ◌≤◌, ◌<◌, ◌≡◌, refl, ap, ◌∙◌, subst, inl, inr, Bool, true, false, Option, none, some, [],
  ◌∷◌, ◌++◌, map, length, length-append, ok, err, arith, All, ◌||◌, if◌then◌else◌, ◌==◌, ltb,
  Bool-cases,
}
use air_fi.Base.Bytes.{Bytes, codes}
use air_fi.Perun.Crypto.{take, drop, take-append_eq}
use air_fi.Guest.Bech32.{
  charset, char_at, index_from, convert_bits, create_bech32m_checksum, bech32m_encode, convert_from,
  drain,
}
use air_fi.Guest.Bits.{convert_bits-Small, convert_bits_to_bytes-convert_bits}
use air_fi.Guest.Address.{
  Script, type_hash, Network, main, test, byte_at, encode_address, decode_address, decode_chars,
  decode_payload, same_prefix, invalid_prefix,
}
use air_fi.Guest.Checksum.{decoded, decode_address-append}

same_index : Option ℕ → ℕ → Bool
same_index none n = false
same_index (some i) n = i == n

same_index_eq : (o : Option ℕ) (n : ℕ) → same_index o n ≡ true → o ≡ some n
unfolding same_index
same_index_eq none n e = cc e
same_index_eq (some i) n e = ap some (ground arith)

-- The first `n` characters of the alphabet are found at their places.
indexed : ℕ → Bool
unfolding same_index
indexed ℕ.zero = true
indexed (suc n) =
    if same_index (index_from 0 (char_at charset n) charset) n then indexed n else false

all_indexed : indexed 32 ≡ true
unfolding indexed index_from
all_indexed = refl

indexed_at :
    (n v : ℕ)
    → indexed n ≡ true
    → v < n
    → same_index (index_from 0 (char_at charset v) charset) v ≡ true
unfolding indexed
indexed_at ℕ.zero v e h = absurd (omega (arith, h))
indexed_at (suc n) v e h =
    elim (Bool-cases (same_index (index_from 0 (char_at charset n) charset) n)) [
      | inr miss ↦ cc (rw (indexed, miss) at e)
      | inl hit ↦ elim (Bool-cases (v == n)) [
        | inl same ↦
            subst (λ k. same_index (index_from 0 (char_at charset k) charset) k ≡ true) {x = n}
              {y = v} (ground arith) hit
        | inr other ↦ indexed_at n v (rw (indexed, hit) at e) (ground arith)
      ]
    ]

index_char : (v : ℕ) → v < 32 → index_from 0 (char_at charset v) charset ≡ some v
index_char v h =
    same_index_eq (index_from 0 (char_at charset v) charset) v (indexed_at 32 v all_indexed h)

decode_chars-map :
    (vs : Bytes) → All (λ v. v < 32) vs → decode_chars (map (char_at charset) vs) ≡ some vs
unfolding decode_chars
decode_chars-map [] h = refl
decode_chars-map (v ∷ vs) (h, hs) = rw (decode_chars, index_char v h, decode_chars-map vs hs) refl

checksum-Small : (hrp vs : Bytes) → All (λ v. v < 32) (create_bech32m_checksum hrp vs)
unfolding create_bech32m_checksum
checksum-Small hrp vs =
    (omega arith, (omega arith, (omega arith, (omega arith, (omega arith, (omega arith, tt))))))

length-checksum : (hrp vs : Bytes) → length (create_bech32m_checksum hrp vs) ≡ 6
unfolding create_bech32m_checksum
length-checksum hrp vs = refl

map-append : (f : ℕ → ℕ) (xs ys : Bytes) → map f (xs ++ ys) ≡ map f xs ++ map f ys
map-append f [] ys = refl
map-append f (x ∷ xs) ys = ap (◌∷◌ (f x)) (map-append f xs ys)

byte_at-append : (xs : Bytes) (y : ℕ) (ys : Bytes) → byte_at (length xs) (xs ++ y ∷ ys) ≡ y
byte_at-append [] y ys = refl
byte_at-append (x ∷ xs) y ys = byte_at-append xs y ys

drop-append_suc : (xs : Bytes) (y : ℕ) (ys : Bytes) → drop (suc (length xs)) (xs ++ y ∷ ys) ≡ ys
drop-append_suc [] y ys = refl
drop-append_suc (x ∷ xs) y ys = drop-append_suc xs y ys

abbrev payload_of : Script → Bytes
payload_of s = 0 ∷ (s.code_hash ++ 1 ∷ s.args)

decode_payload-payload :
    (s : Script)
    → length s.code_hash ≡ 32
    → decode_payload (payload_of s) ≡ ok (record s { hash_type = type_hash })
unfolding decode_payload
decode_payload-payload s whole =
    let rest = s.code_hash ++ 1 ∷ s.args in
    let enough : ltb (suc (length rest)) 34 ≡ false =
      ground (arith, length-append s.code_hash (1 ∷ s.args)) in
    let kind : byte_at 32 rest ≡ 1 =
      subst (λ n. byte_at n rest ≡ 1) whole (byte_at-append s.code_hash 1 s.args) in
    let hash : take 32 rest ≡ s.code_hash = take-append_eq 32 s.code_hash (1 ∷ s.args) whole in
    let tail : drop 33 rest ≡ s.args =
      subst (λ n. drop (suc n) rest ≡ s.args) whole (drop-append_suc s.code_hash 1 s.args) in
    rw (decode_payload, enough, kind, hash, tail) refl

All-append :
    (xs ys : Bytes) → All (λ x. x < 256) xs → All (λ x. x < 256) ys → All (λ x. x < 256) (xs ++ ys)
All-append [] ys h k = k
All-append (x ∷ xs) ys (h, hs) k = (h, All-append xs ys hs k)

payload_of-Small :
    (s : Script)
    → All (λ x. x < 256) s.code_hash
    → All (λ x. x < 256) s.args
    → All (λ x. x < 256) (payload_of s)
payload_of-Small s h k = (omega arith, All-append s.code_hash (1 ∷ s.args) h (omega arith, k))

some_groups : (xs : Bytes) → ltb (length (convert_bits (0 ∷ xs) 8 5 true)) 1 ≡ false
unfolding convert_bits convert_from drain
some_groups xs = ground arith

decoded-payload :
    (s : Script)
    → length s.code_hash ≡ 32
    → All (λ x. x < 256) s.code_hash
    → All (λ x. x < 256) s.args
    → decoded (convert_bits (payload_of s) 8 5 true) ≡ ok (record s { hash_type = type_hash })
decoded-payload s whole h k =
    rw
      (
        some_groups (s.code_hash ++ 1 ∷ s.args),
        convert_bits_to_bytes-convert_bits (payload_of s) (payload_of-Small s h k),
      )
      (decode_payload-payload s whole)

-- An address under a prefix of three letters is the prefix, a 1, and characters of the alphabet.
decode_address-bech32m_encode :
    (hrp xs : Bytes)
    → 3 ≤ length hrp
    → (same_prefix (codes "ckt") hrp || same_prefix (codes "ckb") hrp) ≡ true
    → All (λ v. v < 32) xs
    → decode_address (bech32m_encode hrp xs) ≡ decoded xs
unfolding bech32m_encode
decode_address-bech32m_encode hrp xs long known small =
    let sum = create_bech32m_checksum hrp xs in
    rw (bech32m_encode, map-append (char_at charset) xs sum)
      (subst
        (λ b.
          decode_address (hrp ++ b'1' ∷ (map (char_at charset) xs ++ map (char_at charset) sum))
          ≡ (if b then decoded xs else err invalid_prefix))
        known
        (decode_address-append hrp (map (char_at charset) xs) (map (char_at charset) sum) xs sum
          long (decode_chars-map xs small) (decode_chars-map sum (checksum-Small hrp xs))
          (length-checksum hrp xs)))

-- The address of a lock script with a code hash of 32 bytes decodes, on either network, to that
-- script with the hash type "type", whatever the hash type it was encoded with: the code hash and
-- the arguments come back byte for byte.
pub decode_address-encode_address :
    (s : Script) (network : Network)
    → length s.code_hash ≡ 32
    → All (λ x. x < 256) s.code_hash
    → All (λ x. x < 256) s.args
    → decode_address (encode_address s network) ≡ ok (record s { hash_type = type_hash })
unfolding encode_address
decode_address-encode_address s main whole h k =
    decode_address-bech32m_encode (codes "ckb") (convert_bits (payload_of s) 8 5 true) (omega arith)
      refl (convert_bits-Small (payload_of s))
    ∙ decoded-payload s whole h k
decode_address-encode_address s test whole h k =
    decode_address-bech32m_encode (codes "ckt") (convert_bits (payload_of s) 8 5 true) (omega arith)
      refl (convert_bits-Small (payload_of s))
    ∙ decoded-payload s whole h k
