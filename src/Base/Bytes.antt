-- ===== src/Base/Bytes.antt =====
-- Byte strings as lists of numbers: `big.Int.Bytes` and `SetBytes`, `binary.BigEndian.PutUint64`,
-- hexadecimal and decimal text. A `string` is read as its code points, its bytes if it is ASCII.
use Prim.Native.Nat.{ℕ, zero, suc, ◌+◌, ◌-◌, ◌*◌, ◌/◌, ◌%◌, ◌^◌, ◌≤◌, ◌<◌}
use Prim.Native.Char.{code}
use Prim.Native.String.{String}
use mathlib.Core.Path.{◌≡◌, refl, ◌∙◌}
use mathlib.Core.Bool.{true, false}
use mathlib.Core.List.{List, [], ◌∷◌, ◌++◌}
use mathlib.Core.Logic.{inl, inr}
use native.Mathlib.Omega.{arith}
use native.Mathlib.Nat.{pow-suc}
use air_fi.Base.Tests.{ltb, ◌==◌, if◌then◌else◌, Bool-cases}
use air_fi.Base.Lists.{length, length-append}
use air_fi.Base.Int.{ℤ, pos, negsuc}

abbrev pub Bytes : Type 0
Bytes = List ℕ

abbrev pub codes : String → Bytes
codes String.[] = []
codes (String.◌∷◌ c s) = code c ∷ codes s

-- Digits, most significant first, with no leading zero. Fuel n is enough for n: each round divides.
unfoldable pub digits_fuel : ℕ → ℕ → ℕ → Bytes
digits_fuel base zero n = []
digits_fuel base (suc f) n = elim (n == 0) [
  | true ↦ []
  | false ↦ digits_fuel base f (n / base) ++ (n % base) ∷ []
]

-- `n.Bytes()` of a non-negative `big.Int`.
unfoldable pub big_bytes : ℕ → Bytes
unfolding digits_fuel
big_bytes n = digits_fuel 256 n n

-- `x.SetBytes(b)`.
set_from : ℕ → Bytes → ℕ
set_from acc [] = acc
set_from acc (b ∷ bs) = set_from (acc * 256 + b) bs

unfoldable pub set_bytes : Bytes → ℕ
unfolding set_from
set_bytes = set_from 0

-- The absolute value, which `Bytes()` encodes.
unfoldable pub abs : ℤ → ℕ
abs (pos n) = n
abs (negsuc n) = suc n

-- `binary.BigEndian.PutUint64`
unfoldable pub put_uint64_be : ℕ → Bytes
put_uint64_be n =
    (n / 2 ^ 56 % 256)
    ∷ (n / 2 ^ 48 % 256)
    ∷ (n / 2 ^ 40 % 256)
    ∷ (n / 2 ^ 32 % 256)
    ∷ (n / 2 ^ 24 % 256)
    ∷ (n / 2 ^ 16 % 256)
    ∷ (n / 2 ^ 8 % 256)
    ∷ (n % 256)
    ∷ []

-- `binary.LittleEndian.PutUint64`
unfoldable pub put_uint64_le : ℕ → Bytes
put_uint64_le n =
    (n % 256)
    ∷ (n / 2 ^ 8 % 256)
    ∷ (n / 2 ^ 16 % 256)
    ∷ (n / 2 ^ 24 % 256)
    ∷ (n / 2 ^ 32 % 256)
    ∷ (n / 2 ^ 40 % 256)
    ∷ (n / 2 ^ 48 % 256)
    ∷ (n / 2 ^ 56 % 256)
    ∷ []

hex_digit : ℕ → ℕ
hex_digit d = if ltb d 10 then b'0' + d else b'a' + (d - 10)

-- `hex.EncodeToString`
unfoldable pub hex_encode : Bytes → Bytes
unfolding hex_digit
hex_encode [] = []
hex_encode (b ∷ bs) = hex_digit (b / 16) ∷ hex_digit (b % 16) ∷ hex_encode bs

unfoldable pub ascii_digits : Bytes → Bytes
ascii_digits [] = []
ascii_digits (d ∷ ds) = (b'0' + d) ∷ ascii_digits ds

-- `%d`
unfoldable pub decimal : ℕ → Bytes
unfolding digits_fuel ascii_digits
decimal n = if n == 0 then b'0' ∷ [] else ascii_digits (digits_fuel 10 n n)

unfoldable pub decimal_ℤ : ℤ → Bytes
unfolding decimal
decimal_ℤ (pos n) = decimal n
decimal_ℤ (negsuc n) = b'-' ∷ decimal (suc n)

set_from-append :
    (acc : ℕ) (xs ys : Bytes) → set_from acc (xs ++ ys) ≡ set_from (set_from acc xs) ys
unfolding set_from
set_from-append acc [] ys = refl
set_from-append acc (x ∷ xs) ys = set_from-append (acc * 256 + x) xs ys

set_from-digits : (f n : ℕ) → n ≤ f → set_from 0 (digits_fuel 256 f n) ≡ n
unfolding digits_fuel set_from
set_from-digits zero n h = omega arith
set_from-digits (suc f) n h = elim (Bool-cases (n == 0)) [
  | inl e ↦ rw (e, digits_fuel) (ground arith)
  | inr e ↦
      rw (e, digits_fuel)
        (set_from-append 0 (digits_fuel 256 f (n / 256)) ((n % 256) ∷ [])
          ∙ (rw (set_from-digits f (n / 256) (ground arith)) (omega arith)))
]

-- Decoding the bytes of a number gives it back.
pub set_bytes-big_bytes : (n : ℕ) → set_bytes (big_bytes n) ≡ n
unfolding set_bytes big_bytes
set_bytes-big_bytes n = set_from-digits n n (omega arith)

length-digits_step :
    (f n : ℕ)
    → (n == 0) ≡ false
    → length (digits_fuel 256 (suc f) n) ≡ suc (length (digits_fuel 256 f (n / 256)))
unfolding digits_fuel
length-digits_step f n e =
    rw (e, digits_fuel)
      (omega (arith, length-append (digits_fuel 256 f (n / 256)) ((n % 256) ∷ [])))

length-digits_zero : (f n : ℕ) → (n == 0) ≡ true → length (digits_fuel 256 (suc f) n) ≡ 0
unfolding digits_fuel
length-digits_zero f n e = rw (e, digits_fuel)

length-digits_le : (f n k : ℕ) → n < 256 ^ k → length (digits_fuel 256 f n) ≤ k
unfolding digits_fuel
length-digits_le zero n k h = omega arith
length-digits_le (suc f) n zero h = omega (arith, length-digits_zero f n (ground arith))
length-digits_le (suc f) n (suc k) h = elim (Bool-cases (n == 0)) [
  | inl e ↦ omega (arith, length-digits_zero f n e)
  | inr e ↦ omega (
    arith,
    length-digits_step f n e,
    length-digits_le f (n / 256) k (omega (arith, pow-suc 256 k)),
  )
]

pow-pos : (k : ℕ) → 0 < 256 ^ k
pow-pos zero = omega arith
pow-pos (suc k) = omega (arith, pow-suc 256 k, pow-pos k)

length-digits_gt : (f n k : ℕ) → n ≤ f → 256 ^ k ≤ n → k < length (digits_fuel 256 f n)
length-digits_gt zero n k b h = absurd (omega (arith, pow-pos k))
length-digits_gt (suc f) n zero b h = omega (arith, length-digits_step f n (ground arith))
length-digits_gt (suc f) n (suc k) b h = omega (
  arith,
  pow-suc 256 k,
  length-digits_step f n (nonzero (256 ^ suc k) n (pow-pos (suc k)) h),
  length-digits_gt f (n / 256) k (smaller n f b) (omega (arith, pow-suc 256 k)),
)
  where
    nonzero : (p n : ℕ) → 0 < p → p ≤ n → (n == 0) ≡ false
    nonzero p n h k = ground arith

    smaller : (n f : ℕ) → n ≤ suc f → n / 256 ≤ f
    smaller n f h = omega arith

-- A number below 256 ^ k has at most k bytes.
pub length-big_bytes_le : (n k : ℕ) → n < 256 ^ k → length (big_bytes n) ≤ k
unfolding big_bytes
length-big_bytes_le n k h = length-digits_le n n k h

-- One of at least 256 ^ k has more.
pub length-big_bytes_gt : (n k : ℕ) → 256 ^ k ≤ n → k < length (big_bytes n)
unfolding big_bytes
length-big_bytes_gt n k h = length-digits_gt n n k (omega arith) h
