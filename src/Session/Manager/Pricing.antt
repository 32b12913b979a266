-- ===== src/Session/Manager/Pricing.antt =====
-- Prices and durations are inverse to one another, up to whole minutes, as long as the duration
-- fits its 64 bits.
use air_fi.Base.{ℕ, ◌+◌, ◌*◌, ◌/◌, ◌^◌, ◌≤◌, ◌<◌, ◌≡◌, ap, ◌∙◌, arith, some}
use native.Mathlib.Nat.{div-add-mod}
use air_fi.Base.Int.{pos, ◌*ℤ◌, quot_ℕ}
use air_fi.Base.Word.{wrap64, mul_i64}
use air_fi.Perun.Config.{minute}
use air_fi.Session.Manager.{RateConfig, calculate_duration, calculate_price}

mul_pos : (a b : ℕ) → a * b < 2 ^ 63 → mul_i64 (pos a) (pos b) ≡ pos (a * b)
unfolding mul_i64
mul_pos a b h = ground arith

wrap_pos : (a : ℕ) → a < 2 ^ 63 → wrap64 (pos a) ≡ pos a
unfolding wrap64
wrap_pos a h = ground arith

-- A positive payment at a positive rate buys exactly its whole minutes, where these fit 64 bits.
pub calculate_duration_exact :
    (r : RateConfig) (rate payment : ℕ)
    → r.ckbytes_per_minute ≡ pos rate
    → 0 < rate
    → 0 < payment
    → payment / rate * minute < 2 ^ 63
    → calculate_duration r (some (pos payment)) ≡ pos (payment / rate * minute)
unfolding calculate_duration
calculate_duration_exact r rate payment e hr hp fits =
    rw e (
      ground (arith, wrap_pos (payment / rate) (omega arith), mul_pos (payment / rate) minute fits))

price_pos : (rate n : ℕ) → pos rate *ℤ pos n ≡ pos (rate * n)
unfolding ◌*ℤ◌
price_pos rate n = ground arith

price_minutes :
    (r : RateConfig) (rate n : ℕ)
    → r.ckbytes_per_minute ≡ pos rate
    → calculate_price r (pos (n * minute)) ≡ pos (rate * n)
unfolding calculate_price quot_ℕ
price_minutes r rate n e =
    let whole : n * minute / minute ≡ n = omega arith in rw (e, whole) (price_pos rate n)

cancel : (rate n : ℕ) → 0 < rate → rate * n / rate ≡ n
cancel rate n h = grind arith

product_pos : (rate n : ℕ) → 0 < rate → 0 < n → 0 < rate * n
product_pos rate n h k = grind arith

quotient_le : (rate p : ℕ) → rate * (p / rate) ≤ p
quotient_le rate p = grind (arith, div-add-mod)

quotient_gt : (rate p : ℕ) → 0 < rate → p < rate * (p / rate) + rate
quotient_gt rate p h = grind (arith, div-add-mod)

-- Paying the price of a positive whole number of minutes, at a positive rate, buys exactly these
-- minutes, where they fit 64 bits.
pub calculate_duration-calculate_price :
    (r : RateConfig) (rate minutes : ℕ)
    → r.ckbytes_per_minute ≡ pos rate
    → 0 < rate
    → 0 < minutes
    → minutes * minute < 2 ^ 63
    → calculate_duration r (some (calculate_price r (pos (minutes * minute))))
      ≡ pos (minutes * minute)
calculate_duration-calculate_price r rate minutes e hr hm fits =
    rw (price_minutes r rate minutes e) (
      calculate_duration_exact r rate (rate * minutes) e hr (product_pos rate minutes hr hm)
        (rw (cancel rate minutes hr) fits)
      ∙ ap (λ n. pos (n * minute)) (cancel rate minutes hr))

-- At a positive rate, what a positive payment buys never costs more than the payment, and falls short
-- of it by less than one minute's rate, where the duration fits 64 bits.
pub calculate_price-calculate_duration :
    (r : RateConfig) (rate payment : ℕ)
    → r.ckbytes_per_minute ≡ pos rate
    → 0 < rate
    → 0 < payment
    → payment / rate * minute < 2 ^ 63
    → (spent : ℕ) × (calculate_price r (calculate_duration r (some (pos payment))) ≡ pos spent)
      × (spent ≤ payment)
      × (payment < spent + rate)
calculate_price-calculate_duration r rate payment e hr hp fits = (
  rate * (payment / rate),
  rw (calculate_duration_exact r rate payment e hr hp fits)
      (price_minutes r rate (payment / rate) e),
  quotient_le rate payment,
  quotient_gt rate payment hr,
)
