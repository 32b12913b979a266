-- ===== src/Base/Scan.antt =====
-- `fmt.Sscanf(text, "%d", &n)` into an `int64`: leading spaces are skipped, a sign is read, then the
-- longest run of digits; what follows it is left unread.
use Prim.Native.Nat.{ℕ, zero, suc, ◌+◌, ◌-◌, ◌*◌, ◌/◌, ◌%◌, ◌^◌, ◌≤◌, ◌<◌}
use mathlib.Core.Path.{◌≡◌, refl, ap, ◌∙◌}
use mathlib.Core.Bool.{Bool, true, false, ◌&&◌}
use mathlib.Core.Option.{Option, none, some}
use mathlib.Core.List.{[], ◌∷◌, ◌++◌}
use mathlib.Core.Logic.{inl, inr}
use native.Mathlib.Omega.{arith}
use air_fi.Base.Tests.{ltb, leb, ◌==◌, if◌then◌else◌, Bool-cases}
use air_fi.Base.Int.{ℤ, pos, negsuc, neg_ℕ}
use air_fi.Base.Word.{IsInt64}
use air_fi.Base.Bytes.{Bytes, decimal, decimal_ℤ, digits_fuel, ascii_digits}
use air_fi.Base.Lists.{All}

abbrev pub is_digit : ℕ → Bool
is_digit c = leb b'0' c && leb c b'9'

-- The value of the leading digits.
unfoldable pub digits_value : ℕ → Bytes → ℕ
digits_value acc [] = acc
digits_value acc (c ∷ cs) = if is_digit c then digits_value (acc * 10 + (c - b'0')) cs else acc

unfoldable pub starts_digit : Bytes → Bool
starts_digit [] = false
starts_digit (c ∷ cs) = is_digit c

unfoldable pub scan_digits : Bytes → Option ℕ
scan_digits cs = if starts_digit cs then some (digits_value 0 cs) else none

-- `none` where the number does not fit.
fit_positive : Option ℕ → Option ℤ
fit_positive none = none
fit_positive (some n) = if ltb n (2 ^ 63) then some (pos n) else none

fit_negative : Option ℕ → Option ℤ
fit_negative none = none
fit_negative (some n) = if leb n (2 ^ 63) then some (neg_ℕ n) else none

unfoldable pub scan_i64 : Bytes → Option ℤ
unfolding digits_value starts_digit scan_digits fit_positive fit_negative
scan_i64 [] = none
scan_i64 (c ∷ cs) =
    if c == b' '
    then scan_i64 cs
    else if c == b'-'
    then fit_negative (scan_digits cs)
    else if c == b'+'
    then fit_positive (scan_digits cs)
    else fit_positive (scan_digits (c ∷ cs))

pub ascii_is_digit : (d : ℕ) → d < 10 → is_digit (b'0' + d) ≡ true
ascii_is_digit d h = ground arith

AllDigits-append :
    (xs : Bytes) (d : ℕ) → All (λ x. x < 10) xs → d < 10 → All (λ x. x < 10) (xs ++ d ∷ [])
AllDigits-append [] d h k = (k, tt)
AllDigits-append (x ∷ xs) d (h, hs) k = (h, AllDigits-append xs d hs k)

pub digits_fuel-All : (f n : ℕ) → All (λ x. x < 10) (digits_fuel 10 f n)
unfolding digits_fuel
digits_fuel-All zero n = tt
digits_fuel-All (suc f) n = elim (Bool-cases (n == 0)) [
  | inl e ↦ rw (e, digits_fuel) tt
  | inr e ↦ rw (e, digits_fuel) (AllDigits-append _ _ (digits_fuel-All f (n / 10)) (omega arith))
]

-- Reading one more digit.
digits_value-snoc :
    (acc d : ℕ) (ds : Bytes)
    → All (λ x. x < 10) ds
    → d < 10
    → digits_value acc (ascii_digits (ds ++ d ∷ [])) ≡ digits_value acc (ascii_digits ds) * 10 + d
unfolding digits_value ascii_digits
digits_value-snoc acc d [] h k = ground (arith, ascii_is_digit d k)
digits_value-snoc acc d (x ∷ xs) (h, hs) k =
    ground (arith, ascii_is_digit x h, digits_value-snoc (acc * 10 + (b'0' + x - b'0')) d xs hs k)

digits_value_nil : digits_value 0 (ascii_digits []) ≡ 0
unfolding digits_value ascii_digits
digits_value_nil = refl

digits_value-digits : (f n : ℕ) → n ≤ f → digits_value 0 (ascii_digits (digits_fuel 10 f n)) ≡ n
unfolding digits_fuel
digits_value-digits zero n h = digits_value_nil ∙ omega arith
digits_value-digits (suc f) n h = elim (Bool-cases (n == 0)) [
  | inl e ↦ rw (e, digits_fuel) (digits_value_nil ∙ ground arith)
  | inr e ↦
      rw
        (
          e,
          digits_fuel,
          digits_value-snoc 0 (n % 10) (digits_fuel 10 f (n / 10)) (digits_fuel-All f (n / 10))
              (omega arith),
          digits_value-digits f (n / 10) (ground arith),
        )
        (omega arith)
]

starts_digit-snoc :
    (ds : Bytes) (d : ℕ)
    → All (λ x. x < 10) ds
    → d < 10
    → starts_digit (ascii_digits (ds ++ d ∷ [])) ≡ true
unfolding starts_digit ascii_digits
starts_digit-snoc [] d h k = ascii_is_digit d k
starts_digit-snoc (x ∷ xs) d (h, hs) k = ascii_is_digit x h

starts_digit-digits :
    (f n : ℕ) → (n == 0) ≡ false → n ≤ f → starts_digit (ascii_digits (digits_fuel 10 f n)) ≡ true
unfolding digits_fuel
starts_digit-digits zero n e h = absurd (ground arith)
starts_digit-digits (suc f) n e h =
    rw (e, digits_fuel)
      (starts_digit-snoc (digits_fuel 10 f (n / 10)) (n % 10) (digits_fuel-All f (n / 10))
        (omega arith))

scan_digits_zero : scan_digits (b'0' ∷ []) ≡ some 0
unfolding scan_digits starts_digit digits_value
scan_digits_zero = refl

starts_digit_zero : starts_digit (b'0' ∷ []) ≡ true
unfolding starts_digit
starts_digit_zero = refl

pub scan_digits-decimal : (n : ℕ) → scan_digits (decimal n) ≡ some n
unfolding scan_digits decimal
scan_digits-decimal n = elim (Bool-cases (n == 0)) [
  | inl e ↦ rw (e, decimal) (scan_digits_zero ∙ ap some (ground arith))
  | inr e ↦
      rw
        (e, decimal, starts_digit-digits n n e (omega arith), digits_value-digits n n (omega arith))
        refl
]

pub starts_digit-decimal : (n : ℕ) → starts_digit (decimal n) ≡ true
unfolding decimal
starts_digit-decimal n = elim (Bool-cases (n == 0)) [
  | inl e ↦ rw (e, decimal) starts_digit_zero
  | inr e ↦ rw (e, decimal, starts_digit-digits n n e (omega arith)) refl
]

scan_unsigned : (cs : Bytes) → starts_digit cs ≡ true → scan_i64 cs ≡ fit_positive (scan_digits cs)
unfolding scan_i64 starts_digit
scan_unsigned [] e = absurd (ground arith)
scan_unsigned (c ∷ cs) e = ground arith

scan_positive : (n : ℕ) → n < 2 ^ 63 → fit_positive (some n) ≡ some (pos n)
unfolding fit_positive
scan_positive n h = ground arith

scan_minus : (cs : Bytes) → scan_i64 (b'-' ∷ cs) ≡ fit_negative (scan_digits cs)
unfolding scan_i64
scan_minus cs = refl

scan_negative : (n : ℕ) → suc n ≤ 2 ^ 63 → fit_negative (some (suc n)) ≡ some (negsuc n)
unfolding fit_negative
scan_negative n h = ground arith

-- Scanning the decimal form of an `int64` gives it back.
pub scan_i64-decimal_ℤ : (z : ℤ) → IsInt64 z → scan_i64 (decimal_ℤ z) ≡ some z
unfolding decimal_ℤ
scan_i64-decimal_ℤ (pos n) h =
    scan_unsigned (decimal n) (starts_digit-decimal n)
    ∙ ap fit_positive (scan_digits-decimal n)
    ∙ scan_positive n h.0
scan_i64-decimal_ℤ (negsuc n) h =
    scan_minus (decimal (suc n))
    ∙ ap fit_negative (scan_digits-decimal (suc n))
    ∙ scan_negative n h.1
