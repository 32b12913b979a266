-- ===== src/Backend/Sessions.antt =====
-- createSessionFromWallet of cmd/backend/session.go: the session that a funded wallet buys.
pub mod Minutes
use air_fi.Base.{ℕ, String, Bool, Option, none, some, if◌then◌else◌, Result, ok, err}
use air_fi.Base.Int.{ℤ, pos, ltb_ℤ, non_positive, quot_ℤ, ◌+ℤ◌}
use air_fi.Base.Word.{wrap64, sub_i64, mul_i64}
use air_fi.Db.{Db, Session, GuestWallet, get_rate_per_hour, default_rate_per_hour, create_session}
use air_fi.Backend.{Server, shannons_per_ckb, per_minute}

-- The division by a rate of 0 panics; a refused insertion gives the empty ID.
pub data Created : Type 0 where
  panicked : Created
  refused : Created
  made : Session → Created

-- `time.Minute`, in nanoseconds.
abbrev pub minute : ℤ
minute = pos 60_000_000_000

unfoldable pub usable_ckb : Server → ℤ → ℤ
usable_ckb s balance =
    let usable = sub_i64 balance s.channel_setup_ckb in
    if ltb_ℤ usable (pos 0) then pos 0 else usable

-- The rate per hour, or the default where none is set that is positive.
unfoldable pub rate_in_force : Db → ℤ
rate_in_force db =
    let rate = get_rate_per_hour db in if non_positive rate then default_rate_per_hour else rate

unfoldable pub session_minutes : Server → ℤ → Option ℤ
unfolding usable_ckb rate_in_force
session_minutes s balance =
    elim (quot_ℤ (mul_i64 (usable_ckb s balance) (pos shannons_per_ckb))
      (per_minute (rate_in_force s.db))) [ none ↦ none | some q ↦ some (wrap64 q) ]

unfoldable pub session_of : Server → String → String → ℤ → GuestWallet → ℤ → ℤ → Session
unfolding usable_ckb
session_of s id host now wallet balance minutes = record {
  id = id;
  wallet_id = wallet.id;
  channel_id = "";
  guest_address = wallet.address;
  host_address = host;
  funding_ckb = balance;
  balance_ckb = usable_ckb s balance;
  spent_ckb = pos 0;
  created_at = now;
  expires_at = now +ℤ mul_i64 minutes minute;
  status = "active";
  settled_at = none;
  mac_address = wallet.mac_address;
  ip_address = wallet.ip_address;
}

-- `id` is the fresh random ID, and `host` the host's address.
unfoldable pub create_session_from_wallet :
    Server → String → String → ℤ → GuestWallet → ℤ → Server × Created
unfolding session_minutes session_of
create_session_from_wallet s id host now wallet balance = elim (session_minutes s balance) [
  | none ↦ (s, panicked)
  | some minutes ↦
      let session = session_of s id host now wallet balance minutes in
      elim (create_session s.db session) [
        | err e ↦ (s, refused)
        | ok db ↦ (record s { db = db }, made session)
      ]
]
