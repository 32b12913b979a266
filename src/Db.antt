-- ===== src/Db.antt =====
-- internal/db/db.go: sessions, guest wallets and settings in SQLite. A table is the list of its rows.
-- A statement is run as its SQL says; the primary keys and the unique address are what an insertion
-- can violate. Every column that the program writes has a value, so that no string is NULL.
-- Instants are nanoseconds.
pub mod Rows
pub mod View
pub mod Queries
mod Tests
use air_fi.Base.{
  ℕ, suc, ◌+◌, ◌*◌, String, Bool, true, false, not, ◌&&◌, ◌||◌, str_eq, Option, none, some, List,
  [], ◌∷◌, map, if◌then◌else◌, Result, ok, err, or_fail, length,
}
use air_fi.Base.Int.{ℤ, pos, neg_part, ◌+ℤ◌, ◌-ℤ◌, non_positive}
use air_fi.Base.Map.{Map, lookup, insert}
use air_fi.Base.Bytes.{Bytes, codes, decimal_ℤ}
use air_fi.Base.Scan.{scan_i64}
use air_fi.Db.Rows.{find_row, update_rows, filter_rows, insert_row, order_by}

pub record Session : Type 0 where
  pub id : String
  pub wallet_id : String
  pub channel_id : String
  pub guest_address : String
  pub host_address : String
  pub funding_ckb : ℤ
  pub balance_ckb : ℤ
  pub spent_ckb : ℤ
  pub created_at : ℤ
  pub expires_at : ℤ
  pub status : String
  pub settled_at : Option ℤ
  pub mac_address : String
  pub ip_address : String

pub record GuestWallet : Type 0 where
  pub id : String
  pub address : String
  pub private_key_hex : String
  pub funding_ckb : ℤ
  pub balance_ckb : ℤ
  pub created_at : ℤ
  pub funded_at : Option ℤ
  pub session_id : String
  pub status : String
  pub sender_address : String
  pub mac_address : String
  pub ip_address : String

pub record Db : Type 0 where
  pub sessions : List Session
  pub guest_wallets : List GuestWallet
  pub settings : Map Bytes

pub data DbError : Type 0 where
  unique_violated no_rows : DbError

abbrev pub default_rate_per_hour : ℤ
default_rate_per_hour = pos 500

-- The tables of a new file.
unfoldable pub open_new : Db
open_new = record {
  sessions = [];
  guest_wallets = [];
  settings = ("rate_per_hour", codes "500") ∷ [];
}

abbrev pub has_id : String → Session → Bool
has_id id r = str_eq r.id id

abbrev pub wallet_has_id : String → GuestWallet → Bool
wallet_has_id id r = str_eq r.id id

unfoldable pub create_session : Db → Session → Result DbError Db
create_session db s = elim (insert_row (has_id s.id) s db.sessions) [
  | none ↦ err unique_violated
  | some rows ↦ ok (record db { sessions = rows })
]

unfoldable pub get_session : Db → String → Result DbError Session
get_session db id = or_fail (find_row (has_id id) db.sessions) no_rows

unfoldable pub get_session_by_wallet_id : Db → String → Result DbError Session
get_session_by_wallet_id db wallet_id =
    or_fail (find_row (λ r. str_eq r.wallet_id wallet_id) db.sessions) no_rows

-- `ORDER BY created_at DESC`
abbrev pub newest_first : Session → ℤ
newest_first r = pos 0 -ℤ r.created_at

unfoldable pub list_sessions : Db → String → List Session
list_sessions db status =
    if not (str_eq status "")
    then order_by newest_first (filter_rows (λ r. str_eq r.status status) db.sessions)
    else order_by newest_first db.sessions

unfoldable pub on_session : Db → String → (Session → Session) → Db
on_session db id f = record db { sessions = update_rows (has_id id) f db.sessions }

unfoldable pub update_session_status : Db → String → String → Db
update_session_status db id status = on_session db id (λ r. record r { status = status })

unfoldable pub update_session_mac : Db → String → String → String → Db
update_session_mac db id mac ip =
    on_session db id (λ r. record r { mac_address = mac; ip_address = ip })

unfoldable pub update_session_channel : Db → String → String → String → Db
update_session_channel db id channel_id status =
    on_session db id (λ r. record r { channel_id = channel_id; status = status })

unfoldable pub update_session_channel_and_activate : Db → String → String → ℤ → ℤ → Db
update_session_channel_and_activate db id channel_id duration now =
    on_session db id
      (λ r. record r { channel_id = channel_id; status = "active"; expires_at = now +ℤ duration })

unfoldable pub update_session_balance : Db → String → ℤ → ℤ → Db
update_session_balance db id balance_ckb spent_ckb =
    on_session db id (λ r. record r { balance_ckb = balance_ckb; spent_ckb = spent_ckb })

unfoldable pub settle_session : Db → String → ℤ → Db
settle_session db id now =
    on_session db id (λ r. record r { status = "settled"; settled_at = some now })

-- `datetime(expires_at, '+' || minutes || ' minutes')` is SQLite's: the argument `datetime`.
unfoldable pub extend_session : (ℤ → ℤ → ℤ) → Db → String → ℤ → ℤ → Db
extend_session datetime db id minutes spent = on_session db id (λ r. record r {
  expires_at = datetime r.expires_at minutes;
  spent_ckb = r.spent_ckb +ℤ spent;
  balance_ckb = r.balance_ckb -ℤ spent;
})

abbrev pub is_used_up : Session → Bool
is_used_up r = str_eq r.status "active" && non_positive r.balance_ckb

-- The number of rows that were changed, beside the new tables.
unfoldable pub cleanup_expired : Db → Db × ℕ
cleanup_expired db = (
  record db {
    sessions = update_rows is_used_up (λ r. record r { status = "expired" }) db.sessions;
  },
  length (filter_rows is_used_up db.sessions),
)

abbrev pub wallet_clashes : GuestWallet → GuestWallet → Bool
wallet_clashes w r = str_eq r.id w.id || str_eq r.address w.address

unfoldable pub create_guest_wallet : Db → GuestWallet → Result DbError Db
create_guest_wallet db w = elim (insert_row (wallet_clashes w) w db.guest_wallets) [
  | none ↦ err unique_violated
  | some rows ↦ ok (record db { guest_wallets = rows })
]

unfoldable pub get_guest_wallet : Db → String → Result DbError GuestWallet
get_guest_wallet db id = or_fail (find_row (wallet_has_id id) db.guest_wallets) no_rows

unfoldable pub get_guest_wallet_by_address : Db → String → Result DbError GuestWallet
get_guest_wallet_by_address db address =
    or_fail (find_row (λ r. str_eq r.address address) db.guest_wallets) no_rows

unfoldable pub get_wallet_by_session_id : Db → String → Result DbError GuestWallet
get_wallet_by_session_id db session_id =
    or_fail (find_row (λ r. str_eq r.session_id session_id) db.guest_wallets) no_rows

abbrev pub oldest_first : GuestWallet → ℤ
oldest_first r = r.created_at

unfoldable pub list_pending_wallets : Db → List GuestWallet
list_pending_wallets db =
    order_by oldest_first (filter_rows (λ r. str_eq r.status "created") db.guest_wallets)

unfoldable pub on_wallet : Db → String → (GuestWallet → GuestWallet) → Db
on_wallet db id f = record db { guest_wallets = update_rows (wallet_has_id id) f db.guest_wallets }

unfoldable pub update_wallet_funded : Db → String → ℤ → String → ℤ → Db
update_wallet_funded db id balance_ckb session_id now = on_wallet db id (λ r. record r {
  balance_ckb = balance_ckb;
  funded_at = some now;
  session_id = session_id;
  status = "funded";
})

unfoldable pub update_wallet_balance : Db → String → ℤ → Db
update_wallet_balance db id balance_ckb =
    on_wallet db id (λ r. record r { balance_ckb = balance_ckb })

unfoldable pub update_wallet_status : Db → String → String → Db
update_wallet_status db id status = on_wallet db id (λ r. record r { status = status })

unfoldable pub update_wallet_sender_address : Db → String → String → Db
update_wallet_sender_address db id sender =
    on_wallet db id (λ r. record r { sender_address = sender })

sum_spent : List Session → ℤ
sum_spent [] = pos 0
sum_spent (r ∷ rs) = r.spent_ckb +ℤ sum_spent rs

-- All sessions, the active ones, and what was spent on them.
unfoldable pub get_stats : Db → ℕ × ℕ × ℤ
unfolding sum_spent
get_stats db = (
  length db.sessions,
  length (filter_rows (λ r. str_eq r.status "active") db.sessions),
  sum_spent db.sessions,
)

unfoldable pub get_setting : Db → String → Result DbError Bytes
get_setting db key = or_fail (lookup key db.settings) no_rows

-- `ON CONFLICT(key) DO UPDATE`
unfoldable pub set_setting : Db → String → Bytes → Db
set_setting db key value = record db { settings = insert key value db.settings }

-- The default, where the setting is missing or does not scan.
unfoldable pub get_rate_per_hour : Db → ℤ
get_rate_per_hour db = elim (get_setting db "rate_per_hour") [
  | err _ ↦ default_rate_per_hour
  | ok value ↦ elim (scan_i64 value) [ none ↦ default_rate_per_hour | some rate ↦ rate ]
]

unfoldable pub set_rate_per_hour : Db → ℤ → Db
set_rate_per_hour db rate = set_setting db "rate_per_hour" (decimal_ℤ rate)

unfoldable pub get_all_settings : Db → Map Bytes
get_all_settings db = db.settings
