-- ===== src/Base/Decimal.antt =====
-- `new(big.Int).SetString(text, 10)`: an optional sign, then digits to the end of the text, of which
-- there must be one.
use Prim.Native.Nat.{ℕ, suc, ◌<◌}
use mathlib.Core.Path.{◌≡◌, refl, ap, ◌∙◌}
use mathlib.Core.Bool.{Bool, true, ◌&&◌}
use mathlib.Core.Option.{Option, none, some}
use mathlib.Core.List.{[], ◌∷◌}
use mathlib.Core.Logic.{inl, inr}
use native.Mathlib.Omega.{arith}
use air_fi.Base.Tests.{◌==◌, if◌then◌else◌, Bool-cases}
use air_fi.Base.Int.{ℤ, pos, negsuc, neg_ℕ}
use air_fi.Base.Bytes.{Bytes, decimal, decimal_ℤ, digits_fuel, ascii_digits}
use air_fi.Base.Lists.{All}
use air_fi.Base.Scan.{
  is_digit, scan_digits, starts_digit, digits_fuel-All, ascii_is_digit, scan_digits-decimal,
  starts_digit-decimal,
}

all_digits : Bytes → Bool
all_digits [] = true
all_digits (c ∷ cs) = is_digit c && all_digits cs

signed : (ℕ → ℤ) → Option ℕ → Option ℤ
signed f none = none
signed f (some n) = some (f n)

set_digits : Bytes → Option ℕ
unfolding all_digits
set_digits cs = if all_digits cs then scan_digits cs else none

unfoldable pub set_string : Bytes → Option ℤ
unfolding set_digits signed
set_string [] = none
set_string (c ∷ cs) =
    if c == b'-'
    then signed neg_ℕ (set_digits cs)
    else if c == b'+'
    then signed pos (set_digits cs)
    else signed pos (set_digits (c ∷ cs))

all_digits-ascii : (ds : Bytes) → All (λ d. d < 10) ds → all_digits (ascii_digits ds) ≡ true
unfolding all_digits ascii_digits
all_digits-ascii [] h = refl
all_digits-ascii (d ∷ ds) (h, hs) = rw (ascii_is_digit d h, all_digits-ascii ds hs) refl

all_digits_zero : all_digits (b'0' ∷ []) ≡ true
unfolding all_digits
all_digits_zero = refl

all_digits-decimal : (n : ℕ) → all_digits (decimal n) ≡ true
unfolding decimal
all_digits-decimal n = elim (Bool-cases (n == 0)) [
  | inl e ↦ rw (e, decimal) all_digits_zero
  | inr e ↦ rw (e, decimal) (all_digits-ascii (digits_fuel 10 n n) (digits_fuel-All n n))
]

set_digits-decimal : (n : ℕ) → set_digits (decimal n) ≡ some n
unfolding set_digits
set_digits-decimal n = rw (all_digits-decimal n) (scan_digits-decimal n)

set_unsigned : (cs : Bytes) → starts_digit cs ≡ true → set_string cs ≡ signed pos (set_digits cs)
unfolding set_string starts_digit
set_unsigned [] e = absurd (ground arith)
set_unsigned (c ∷ cs) e = ground arith

set_minus : (cs : Bytes) → set_string (b'-' ∷ cs) ≡ signed neg_ℕ (set_digits cs)
unfolding set_string
set_minus cs = refl

-- Reading the decimal text of an integer gives it back, whatever its size and sign.
pub set_string-decimal_ℤ : (z : ℤ) → set_string (decimal_ℤ z) ≡ some z
unfolding decimal_ℤ signed
set_string-decimal_ℤ (pos n) =
    set_unsigned (decimal n) (starts_digit-decimal n) ∙ ap (signed pos) (set_digits-decimal n)
set_string-decimal_ℤ (negsuc n) =
    set_minus (decimal (suc n))
    ∙ ap (signed neg_ℕ) (set_digits-decimal (suc n))
    ∙ ap some (ground arith)
