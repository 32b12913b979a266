-- ===== src/Backend/Billing.antt =====
-- processMicropayments of cmd/backend/session.go: what every session in memory pays each minute. One
-- reading of the clock stands for those of a round; `accepts` says for which sessions the channel's
-- update succeeds.
pub mod Backing
pub mod Drain
use air_fi.Base.{
  String, Bool, true, false, List, [], ◌∷◌, ◌++◌, map, if◌then◌else◌, Result, ok, err,
}
use air_fi.Base.Int.{ℤ, pos, ◌+ℤ◌, ◌-ℤ◌, ltb_ℤ, quot_ℕ}
use air_fi.Base.Word.{wrap64, sub_i64}
use air_fi.Base.Map.{Map}
use air_fi.Db.{Db, update_session_balance}
use air_fi.Perun.ChannelClient.{GpChannel, send_payment}
use air_fi.Backend.{GuestSession, Server, Task, settle_expired, shannons_per_ckb}

-- Whether a session is over, or what has become of it.
pub data Charge : Type 0 where
  over : Charge
  unpaid : Charge
  paid : GuestSession → Charge

unfoldable pub charge : Bool → ℤ → ℤ → GuestSession → Charge
charge accepted rate now s =
    if ltb_ℤ s.expires_at now
    then over
    else if ltb_ℤ (s.funding_amount -ℤ s.total_paid) rate
    then over
    else (let (ch, sent) = send_payment accepted s.channel rate in
        elim sent [
          | err e ↦ unpaid
          | ok done ↦ paid (record s { channel = ch; total_paid = s.total_paid +ℤ rate })
        ])

-- In CKBytes: what was spent, and what is left.
unfoldable pub spent_ckb : GuestSession → ℤ
spent_ckb s = quot_ℕ (wrap64 s.total_paid) shannons_per_ckb

unfoldable pub balance_ckb : GuestSession → ℤ
balance_ckb s = quot_ℕ (sub_i64 (wrap64 s.funding_amount) (wrap64 s.total_paid)) shannons_per_ckb

-- What stays in the map, what goes to settlement, and the database.
pub record Round : Type 0 where
  pub kept : Map GuestSession
  pub ended : Map GuestSession
  pub db : Db

abbrev pub keep : String → GuestSession → Round → Round
keep id s r = record r { kept = (id, s) ∷ r.kept }

unfoldable pub process_each : (String → Bool) → ℤ → ℤ → Db → Map GuestSession → Round
unfolding charge spent_ckb balance_ckb
process_each accepts rate now db [] = record { kept = []; ended = []; db = db }
process_each accepts rate now db ((id, s) ∷ rest) = elim (charge (accepts id) rate now s) [
  | over ↦ let r = process_each accepts rate now db rest in record r { ended = (id, s) ∷ r.ended }
  | unpaid ↦ keep id s (process_each accepts rate now db rest)
  | paid s' ↦
      let db' = update_session_balance db id (balance_ckb s') (spent_ckb s') in
      keep id s' (process_each accepts rate now db' rest)
]

-- The goroutines of a round, the latest first.
unfoldable pub started : Map GuestSession → List Task → List Task
started [] tasks = tasks
started ((id, s) ∷ rest) tasks = started rest (settle_expired s ∷ tasks)

unfoldable pub process_micropayments : (String → Bool) → ℤ → Server → Server
unfolding process_each started
process_micropayments accepts now srv =
    let r = process_each accepts srv.rate_per_min now srv.db srv.sessions in
    record srv { sessions = r.kept; db = r.db; tasks = started r.ended srv.tasks }
