-- ===== src/Backend/Sessions/Minutes.antt =====
-- How long a session that a wallet buys lasts.
use air_fi.Base.{ℕ, ◌+◌, ◌*◌, ◌/◌, ◌-◌, ◌≤◌, ◌<◌, ◌^◌, ◌≡◌, refl, ap, String, some, none, arith, ok}
use native.Mathlib.Nat.{mul-div-le, le-div_iff_mul-le, mul-le-mul_left, div-le_self}
use air_fi.Base.Int.{ℤ, pos, ◌+ℤ◌, ◌-ℤ◌, ◌*ℤ◌, quot_ℕ, quot_ℤ}
use air_fi.Base.Word.{wrap64, wrap64-eq_self, sub_i64, mul_i64}
use air_fi.Db.{Session, GuestWallet, get_rate_per_hour, has_id, get_session}
use air_fi.Db.Rows.{find_row}
use air_fi.Db.Queries.{with_session, create_session-fresh, get_session-with_session}
use air_fi.Backend.{Server, per_minute, shannons_per_ckb}
use air_fi.Backend.Sessions.{
  made, usable_ckb, rate_in_force, session_minutes, session_of, create_session_from_wallet,
}

mul_i64-eq : (a b : ℕ) → a * b < 2 ^ 63 → mul_i64 (pos a) (pos b) ≡ pos (a * b)
unfolding mul_i64 wrap64 ◌*ℤ◌
mul_i64-eq a b h = ground arith

sub_i64-eq : (a b : ℕ) → b ≤ a → a < 2 ^ 63 → sub_i64 (pos a) (pos b) ≡ pos (a - b)
unfolding sub_i64 wrap64 ◌-ℤ◌
sub_i64-eq a b h k = ground arith

usable_ckb-eq :
    (s : Server) (setup balance : ℕ)
    → s.channel_setup_ckb ≡ pos setup
    → setup ≤ balance
    → balance < 2 ^ 63
    → usable_ckb s (pos balance) ≡ pos (balance - setup)
unfolding usable_ckb
usable_ckb-eq s setup balance e h k = rw (e, sub_i64-eq balance setup h k) (ground arith)

rate_in_force-eq :
    (s : Server) (rate : ℕ)
    → get_rate_per_hour s.db ≡ pos rate
    → 1 ≤ rate
    → rate_in_force s.db ≡ pos rate
unfolding rate_in_force
rate_in_force-eq s rate e h = rw (e, rate_in_force) (ground arith)

pub per_minute-eq :
    (rate : ℕ) → rate < 90_000_000_000 → per_minute (pos rate) ≡ pos (rate * shannons_per_ckb / 60)
unfolding per_minute quot_ℕ
per_minute-eq rate h = rw (mul_i64-eq rate shannons_per_ckb (omega arith)) refl

-- Shannons for a minute, and the minutes that some CKBytes buy.
abbrev pub price : ℕ → ℕ
price rate = rate * shannons_per_ckb / 60

abbrev pub bought : ℕ → ℕ → ℕ
bought rate usable = usable * shannons_per_ckb / price rate

price_positive : (rate : ℕ) → 1 ≤ rate → 0 < price rate
price_positive rate h = omega arith

price_le : (rate : ℕ) → 60 * price rate ≤ rate * shannons_per_ckb
price_le rate = mul-div-le (rate * shannons_per_ckb) 60

bought_hours : (rate usable h : ℕ) → 1 ≤ rate → h * rate ≤ usable → 60 * h ≤ bought rate usable
bought_hours rate usable h pos_rate le =
    (le-div_iff_mul-le (price_positive rate pos_rate)).1
      (omega (arith, mul-le-mul_left h (price_le rate)))

quot-eq : (a p : ℕ) → 0 < p → quot_ℤ (pos a) (pos p) ≡ some (pos (a / p))
unfolding quot_ℤ quot_ℕ
quot-eq a p h = ground arith

wrap-eq : (a p : ℕ) → a < 2 ^ 63 → wrap64 (pos (a / p)) ≡ pos (a / p)
wrap-eq a p h = wrap64-eq_self (pos (a / p)) (omega (arith, div-le_self a p), omega arith)

module _ (s : Server) (setup rate balance : ℕ) (setup_is : s.channel_setup_ckb ≡ pos setup)
    (rate_is : get_rate_per_hour s.db ≡ pos rate) (rate_positive : 1 ≤ rate)
    (rate_bound : rate < 90_000_000_000) (funded : setup ≤ balance)
    (balance_bound : balance < 90_000_000_000) where
  session_minutes-eq : session_minutes s (pos balance) ≡ some (pos (bought rate (balance - setup)))
  unfolding session_minutes
  session_minutes-eq =
      rw
        (
          session_minutes,
          usable_ckb-eq s setup balance setup_is funded (omega arith),
          rate_in_force-eq s rate rate_is rate_positive,
          per_minute-eq rate rate_bound,
          mul_i64-eq (balance - setup) shannons_per_ckb (omega arith),
          quot-eq ((balance - setup) * shannons_per_ckb) (price rate)
              (price_positive rate rate_positive),
          wrap-eq ((balance - setup) * shannons_per_ckb) (price rate) (omega arith),
        )
        refl

  created :
      (id host : String) (now : ℤ) (wallet : GuestWallet)
      → find_row (has_id id) s.db.sessions ≡ none
      → let x =
          session_of s id host now wallet (pos balance) (pos (bought rate (balance - setup))) in
        create_session_from_wallet s id host now wallet (pos balance)
        ≡ (record s { db = with_session s.db x }, made x)
  unfolding create_session_from_wallet session_of
  created id host now wallet fresh =
      let x = session_of s id host now wallet (pos balance) (pos (bought rate (balance - setup))) in
      rw (create_session_from_wallet, session_minutes-eq, create_session-fresh s.db x fresh) refl

  -- A wallet that holds the reserve and the price of `h` hours buys a session of at least `h` hours,
  -- which the database then has under its ID: active, with what is beyond the reserve to spend, and
  -- ending when that is spent at the minute's price. The amounts are below 9 * 10 ^ 10 CKBytes, the
  -- length fits a duration, and no session has the ID yet.
  pub create_session_from_wallet_buys :
      (id host : String) (now : ℤ) (wallet : GuestWallet) (h : ℕ)
      → setup + h * rate ≤ balance
      → bought rate (balance - setup) * 60_000_000_000 < 2 ^ 63
      → find_row (has_id id) s.db.sessions ≡ none
      → let r = create_session_from_wallet s id host now wallet (pos balance) in
        (x : Session) × (r.1 ≡ made x)
        × (get_session r.0.db id ≡ ok x)
        × (x.status ≡ "active")
        × (x.balance_ckb ≡ pos (balance - setup))
        × (x.expires_at ≡ now +ℤ pos (bought rate (balance - setup) * 60_000_000_000))
        × (60 * h ≤ bought rate (balance - setup))
  unfolding session_of
  create_session_from_wallet_buys id host now wallet h covered lasts fresh =
      let m = bought rate (balance - setup) in
      let x = session_of s id host now wallet (pos balance) (pos m) in
      let e = created id host now wallet fresh in
      (
        x,
        ap (λ r. r.1) e,
        rw e (get_session-with_session s.db x fresh),
        refl,
        usable_ckb-eq s setup balance setup_is funded (omega arith),
        ap (◌+ℤ◌ now) (mul_i64-eq m 60_000_000_000 lasts),
        bought_hours rate (balance - setup) h rate_positive (omega arith),
      )
