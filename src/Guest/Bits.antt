-- ===== src/Guest/Bits.antt =====
-- Regrouping bytes into groups of five bits, and back (internal/guest/wallet.go).
use air_fi.Base.{
  ℕ, suc, ◌+◌, ◌-◌, ◌*◌, ◌/◌, ◌%◌, ◌^◌, ◌<◌, ◌≡◌, refl, true, false, [], ◌∷◌, ◌++◌, arith, All,
  Bool-cases, inl, inr, leb, ltb,
}
use air_fi.Base.Bytes.{Bytes}
use air_fi.Guest.Bech32.{drain, convert_from, convert_bits, convert_bits_to_bytes}

-- `k` bits of the byte `b` are still to be written, and the others have been read.
abbrev Split : ℕ → ℕ → ℕ → ℕ → Type 0
Split k b wrote read = (wrote % 2 ^ k ≡ b % 2 ^ k) × (read % 2 ^ (8 - k) ≡ b / 2 ^ k)

abbrev there_and_back : ℕ → ℕ → ℕ → Bytes → Bytes
there_and_back k wrote read xs =
    convert_from 5 8 false read (8 - k) (convert_from 8 5 true wrote k xs)

abbrev from_start : ℕ → ℕ → Bytes → Bytes
from_start wrote read xs = convert_from 5 8 false read 0 (convert_from 8 5 true wrote 0 xs)

-- Where `k` bits are pending, what follows comes back behind the byte that they are of.
abbrev Back : ℕ → Bytes → Type 0
Back k xs =
    (b wrote read : ℕ) → b < 256 → Split k b wrote read → there_and_back k wrote read xs ≡ b ∷ xs

abbrev BackFromStart : Bytes → Type 0
BackFromStart xs = (wrote read : ℕ) → from_start wrote read xs ≡ xs

step0 : (x : ℕ) (xs : Bytes) → x < 256 → Back 3 xs → BackFromStart (x ∷ xs)
unfolding convert_from drain
step0 x xs hx next wrote read =
    let one = (wrote * 256 + x) % 2 ^ 64 in
    let two = (read * 32 + one / 8 % 32) % 2 ^ 64 in next x one two hx (omega arith, omega arith)

step3 : (x : ℕ) (xs : Bytes) → x < 256 → Back 1 xs → Back 3 (x ∷ xs)
unfolding convert_from drain
step3 x xs hx next b wrote read hb (w, r) =
    let one = (wrote * 256 + x) % 2 ^ 64 in
    let two = (read * 32 + one / 64 % 32) % 2 ^ 64 in
    let three = (two * 32 + one / 2 % 32) % 2 ^ 64 in
    let first : two / 4 % 256 ≡ b = omega arith in
    let rest = next x one three hx (omega arith, omega arith) in λ i. first i ∷ rest i

step1 : (x : ℕ) (xs : Bytes) → x < 256 → Back 4 xs → Back 1 (x ∷ xs)
unfolding convert_from drain
step1 x xs hx next b wrote read hb (w, r) =
    let one = (wrote * 256 + x) % 2 ^ 64 in
    let two = (read * 32 + one / 16 % 32) % 2 ^ 64 in
    let first : two / 16 % 256 ≡ b = omega arith in
    let rest = next x one two hx (omega arith, omega arith) in λ i. first i ∷ rest i

step4 : (x : ℕ) (xs : Bytes) → x < 256 → Back 2 xs → Back 4 (x ∷ xs)
unfolding convert_from drain
step4 x xs hx next b wrote read hb (w, r) =
    let one = (wrote * 256 + x) % 2 ^ 64 in
    let two = (read * 32 + one / 128 % 32) % 2 ^ 64 in
    let three = (two * 32 + one / 4 % 32) % 2 ^ 64 in
    let first : two / 2 % 256 ≡ b = omega arith in
    let rest = next x one three hx (omega arith, omega arith) in λ i. first i ∷ rest i

step2 : (x : ℕ) (xs : Bytes) → x < 256 → BackFromStart xs → Back 2 (x ∷ xs)
unfolding convert_from drain
step2 x xs hx next b wrote read hb (w, r) =
    let one = (wrote * 256 + x) % 2 ^ 64 in
    let two = (read * 32 + one / 32 % 32) % 2 ^ 64 in
    let three = (two * 32 + one / 1 % 32) % 2 ^ 64 in
    let first : two / 8 % 256 ≡ b = omega arith in
    let second : three / 1 % 256 ≡ x = omega arith in
    let rest = next one three in λ i. first i ∷ second i ∷ rest i

end1 : Back 1 []
unfolding convert_from drain
end1 b wrote read hb (w, r) =
    let first : (read * 32 + wrote * 16 % 32) % 2 ^ 64 / 16 % 256 ≡ b = omega arith in
    λ i. first i ∷ []

end2 : Back 2 []
unfolding convert_from drain
end2 b wrote read hb (w, r) =
    let first : (read * 32 + wrote * 8 % 32) % 2 ^ 64 / 8 % 256 ≡ b = omega arith in
    λ i. first i ∷ []

end3 : Back 3 []
unfolding convert_from drain
end3 b wrote read hb (w, r) =
    let first : (read * 32 + wrote * 4 % 32) % 2 ^ 64 / 4 % 256 ≡ b = omega arith in
    λ i. first i ∷ []

end4 : Back 4 []
unfolding convert_from drain
end4 b wrote read hb (w, r) =
    let first : (read * 32 + wrote * 2 % 32) % 2 ^ 64 / 2 % 256 ≡ b = omega arith in
    λ i. first i ∷ []

end0 : BackFromStart []
unfolding convert_from
end0 wrote read = refl

all-Back :
    (xs : Bytes)
    → All (λ x. x < 256) xs
    → BackFromStart xs × Back 1 xs × Back 2 xs × Back 3 xs × Back 4 xs
all-Back [] h = (end0, end1, end2, end3, end4)
all-Back (x ∷ xs) (h, hs) =
    let (zero, one, two, three, four) = all-Back xs hs in
    (step0 x xs h three, step1 x xs h four, step2 x xs h zero, step3 x xs h one, step4 x xs h two)

-- Bytes that are regrouped by five bits, with padding, come back as they were.
pub convert_bits_to_bytes-convert_bits :
    (xs : Bytes) → All (λ x. x < 256) xs → convert_bits_to_bytes (convert_bits xs 8 5 true) ≡ xs
unfolding convert_bits_to_bytes convert_bits
convert_bits_to_bytes-convert_bits xs h = (all-Back xs h).0 0 0

-- Every group is below 32.
drain-Small : (fuel acc bits : ℕ) → All (λ v. v < 32) (drain fuel 5 acc bits).0
unfolding drain
drain-Small ℕ.zero acc bits = tt
drain-Small (suc fuel) acc bits = elim (Bool-cases (leb 5 bits)) [
  | inl enough ↦ rw (drain, enough) (omega arith, drain-Small fuel acc (bits - 5))
  | inr few ↦ rw (drain, few) tt
]

Small-append :
    (xs ys : Bytes) → All (λ v. v < 32) xs → All (λ v. v < 32) ys → All (λ v. v < 32) (xs ++ ys)
Small-append [] ys h k = k
Small-append (x ∷ xs) ys (h, hs) k = (h, Small-append xs ys hs k)

convert_from-Small :
    (xs : Bytes) (acc bits : ℕ) → All (λ v. v < 32) (convert_from 8 5 true acc bits xs)
unfolding convert_from
convert_from-Small [] acc bits = elim (Bool-cases (ltb 0 bits)) [
  | inl some_left ↦ rw (convert_from, some_left) (omega arith, tt)
  | inr none_left ↦ rw (convert_from, none_left) tt
]
convert_from-Small (x ∷ xs) acc bits =
    let acc' = (acc * 2 ^ 8 + x) % 2 ^ 64 in
    Small-append (drain (bits + 8) 5 acc' (bits + 8)).0 _ (drain-Small (bits + 8) acc' (bits + 8))
      (convert_from-Small xs acc' (drain (bits + 8) 5 acc' (bits + 8)).1)

pub convert_bits-Small : (xs : Bytes) → All (λ v. v < 32) (convert_bits xs 8 5 true)
unfolding convert_bits
convert_bits-Small xs = convert_from-Small xs 0 0
