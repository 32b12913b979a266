-- ===== src/Guest/Checksum.antt =====
-- What becomes of an address's checksum when it is decoded (internal/guest/wallet.go).
use air_fi.Base.{
  ℕ, ◌-◌, ◌≤◌, ◌≡◌, refl, ap, sym, ◌∙◌, subst, inl, inr, true, false, ◌||◌, none, some, [], ◌∷◌,
  ◌++◌, if◌then◌else◌, ltb, ◌==◌, length, length-append, Result, err, arith, Bool-cases,
  Option-cases,
}
use air_fi.Base.Bytes.{Bytes, codes}
use air_fi.Perun.Crypto.{take, take-append_eq}
use air_fi.Guest.Bech32.{charset, index_from, convert_bits_to_bytes}
use air_fi.Guest.Address.{
  Script, AddressError, same_prefix, after_last, decode_chars, decode_payload, decode_data,
  decode_address, data_too_short, invalid_prefix,
}

-- `1` is no character of the data.
one_outside : index_from 0 b'1' charset ≡ none
unfolding index_from
one_outside = refl

none-some : {A : Type 0} {a : A} → ¬ (none ≡ some a)
none-some e = cc e

eq_one : (c : ℕ) → (c == b'1') ≡ true → c ≡ b'1'
eq_one c e = ground arith

some_inj : {a b : Bytes} → some a ≡ some b → a ≡ b
some_inj e = cc e

not_one : (c i : ℕ) → index_from 0 c charset ≡ some i → (c == b'1') ≡ false
not_one c i e = elim (Bool-cases (c == b'1')) [
  | inr miss ↦ miss
  | inl hit ↦
      absurd (
        none-some (sym one_outside ∙ subst (λ x. index_from 0 x charset ≡ some i) (eq_one c hit) e))
]

after_last-valid : (cs xs : Bytes) → decode_chars cs ≡ some xs → after_last b'1' cs ≡ none
unfolding decode_chars after_last
after_last-valid [] xs e = refl
after_last-valid (c ∷ cs) xs e = elim (Option-cases (index_from 0 c charset)) [
  | inl f ↦ absurd (none-some (rw (decode_chars, f) at e))
  | inr (i, f) ↦ elim (Option-cases (decode_chars cs)) [
    | inl g ↦ absurd (none-some (rw (decode_chars, f, g) at e))
    | inr (ys, g) ↦ rw (after_last, after_last-valid cs ys g, not_one c i f) refl
  ]
]

after_last-append :
    (pre cs : Bytes) → after_last b'1' cs ≡ none → after_last b'1' (pre ++ b'1' ∷ cs) ≡ some cs
unfolding after_last
after_last-append [] cs e = rw (after_last, e) refl
after_last-append (x ∷ pre) cs e = rw (after_last, after_last-append pre cs e) refl

decode_chars-append :
    (cs ds xs ys : Bytes)
    → decode_chars cs ≡ some xs
    → decode_chars ds ≡ some ys
    → decode_chars (cs ++ ds) ≡ some (xs ++ ys)
unfolding decode_chars
decode_chars-append [] ds xs ys e f = subst (λ z. decode_chars ds ≡ some (z ++ ys)) (some_inj e) f
decode_chars-append (c ∷ cs) ds xs ys e f = elim (Option-cases (index_from 0 c charset)) [
  | inl g ↦ absurd (none-some (rw (decode_chars, g) at e))
  | inr (i, g) ↦ elim (Option-cases (decode_chars cs)) [
    | inl h ↦ absurd (none-some (rw (decode_chars, g, h) at e))
    | inr (zs, h) ↦
        rw (decode_chars, g, decode_chars-append cs ds zs ys h f)
          (ap (λ z. some (z ++ ys)) (some_inj (rw (decode_chars, g, h) at e)))
  ]
]

same_prefix-append :
    (p pre rest : Bytes) → length p ≤ length pre → same_prefix p (pre ++ rest) ≡ same_prefix p pre
same_prefix-append [] pre rest h = refl
same_prefix-append (x ∷ p) [] rest h = absurd (omega (arith, h))
same_prefix-append (x ∷ p) (y ∷ pre) rest h = elim (Bool-cases (x == y)) [
  | inl hit ↦ rw hit (same_prefix-append p pre rest (omega (arith, h)))
  | inr miss ↦ rw miss refl
]

-- What the decoder makes of the values before the checksum.
abbrev pub decoded : Bytes → Result AddressError Script
decoded xs =
    if ltb (length xs) 1 then err data_too_short else decode_payload (convert_bits_to_bytes xs)

short_data :
    (xs cs : Bytes) → length cs ≡ 6 → ltb (length xs) 1 ≡ true → ltb (length (xs ++ cs)) 7 ≡ true
short_data xs cs six few = ground (arith, length-append xs cs)

long_data :
    (xs cs : Bytes) → length cs ≡ 6 → ltb (length xs) 1 ≡ false → ltb (length (xs ++ cs)) 7 ≡ false
long_data xs cs six enough = ground (arith, length-append xs cs)

not_short : (pre rest : Bytes) → 3 ≤ length pre → ltb (length (pre ++ rest)) 3 ≡ false
not_short pre rest long = ground (arith, length-append pre rest)

decode_data-append : (xs cs : Bytes) → length cs ≡ 6 → decode_data (xs ++ cs) ≡ decoded xs
unfolding decode_data
decode_data-append xs cs six =
    let cut : take (length (xs ++ cs) - 6) (xs ++ cs) ≡ xs =
      take-append_eq (length (xs ++ cs) - 6) xs cs (omega (arith, length-append xs cs)) in
    elim (Bool-cases (ltb (length xs) 1)) [
      | inl few ↦ rw (few, short_data xs cs six few, decode_data) refl
      | inr enough ↦ rw (enough, long_data xs cs six enough, cut, decode_data) refl
    ]

pub decode_address-append :
    (pre d c xs cs : Bytes)
    → 3 ≤ length pre
    → decode_chars d ≡ some xs
    → decode_chars c ≡ some cs
    → length cs ≡ 6
    → decode_address (pre ++ b'1' ∷ (d ++ c)) ≡ (
        if same_prefix (codes "ckt") pre || same_prefix (codes "ckb") pre
        then decoded xs
        else err invalid_prefix)
unfolding decode_address
decode_address-append pre d c xs cs long e f six =
    let rest = b'1' ∷ (d ++ c) in
    let chars = decode_chars-append d c xs cs e f in
    rw
      (
        decode_address,
        not_short pre rest long,
        same_prefix-append (codes "ckt") pre rest long,
        same_prefix-append (codes "ckb") pre rest long,
      )
      (elim (Bool-cases (same_prefix (codes "ckt") pre || same_prefix (codes "ckb") pre)) [
        | inr foreign ↦ rw foreign refl
        | inl known ↦
            rw
              (
                known,
                after_last-append pre (d ++ c) (after_last-valid (d ++ c) (xs ++ cs) chars),
                chars,
              )
              (decode_data-append xs cs six)
      ])

-- The checksum of an address is not looked at: an address decodes to the same lock script, or is
-- refused for the same reason, whatever six characters of the alphabet it ends in.
pub decode_address_unchecked :
    (pre d c c' xs cs cs' : Bytes)
    → 3 ≤ length pre
    → decode_chars d ≡ some xs
    → decode_chars c ≡ some cs
    → length cs ≡ 6
    → decode_chars c' ≡ some cs'
    → length cs' ≡ 6
    → decode_address (pre ++ b'1' ∷ (d ++ c)) ≡ decode_address (pre ++ b'1' ∷ (d ++ c'))
decode_address_unchecked pre d c c' xs cs cs' long e f six f' six' =
    decode_address-append pre d c xs cs long e f six
    ∙ sym (decode_address-append pre d c' xs cs' long e f' six')
