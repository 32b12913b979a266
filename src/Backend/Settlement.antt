-- ===== src/Backend/Settlement.antt =====
-- cmd/backend/session.go: settling a session's channel, and sending back what is left on its wallet.
-- `Outside` is what these call: the chain and its scripts, the decoding of a wallet's key and of its
-- address, and the chain after a wait. The errors of settling are only logged.
pub mod Refunds
use air_fi.Base.{
  ℕ, String, Bool, true, false, not, str_eq, Option, none, some, List, [], ◌∷◌, if◌then◌else◌,
  Result, ok, err,
}
use air_fi.Base.Int.{ℤ}
use air_fi.Base.Bytes.{Bytes}
use air_fi.Db.{
  Db, GuestWallet, get_session, settle_session, get_wallet_by_session_id,
  update_wallet_sender_address, update_wallet_status,
}
use air_fi.Perun.ChannelClient.{GpChannel, settle_channel}
use air_fi.Perun.Cells.{Node}
use air_fi.Perun.Withdraw.{Scripts, History, get_sender_address, withdraw_all}
use air_fi.Backend.{GuestSession, Server, RouterCall, deauthorize_mac, Task, withdraw}

pub record Outside (S W : Type 0) : Type 0 where
  pub node : Node S W
  pub scripts : Scripts S
  pub history : W → History S
  pub decode_key : String → Option ℕ
  pub decode_wallet_address : String → Option S
  pub wait : ℕ → W → W

pub data RefundError : Type 0 where
  no_wallet no_sender bad_key bad_wallet all_failed : RefundError

-- The MAC address of a session's row, where it has one, is taken off the router.
unfoldable pub revoke_session : Server → String → Server
revoke_session srv id = elim (get_session srv.db id) [
  | err e ↦ srv
  | ok row ↦
      if not (str_eq row.mac_address "")
      then record srv { router_calls = deauthorize_mac row.mac_address ∷ srv.router_calls }
      else srv
]

unfoldable pub settle_expired_session : Bool → Bool → ℤ → Server → GuestSession → GpChannel × Server
unfolding revoke_session
settle_expired_session updated settled now srv session =
    let (cl, ch, done) = settle_channel updated settled session.client session.channel in
    let srv' : Server =
      revoke_session (record srv { db = settle_session srv.db session.id now }) session.id in
    (ch, record srv' { tasks = withdraw session.id ∷ srv'.tasks })

module _ {S W : Type 0} (out : Outside S W) where
  -- The waits are 30, 60 and 120 seconds; the first withdrawal that succeeds is the last.
  unfoldable pub withdraw_attempts : W → List ℕ → ℕ → S → String → W × Option Bytes
  withdraw_attempts w [] key lock to = (w, none)
  withdraw_attempts w (t ∷ ts) key lock to =
      let (w', sent) = withdraw_all out.node out.scripts (out.wait t w) key lock to in
      elim sent [ ok hash ↦ (w', some hash) | err e ↦ withdraw_attempts w' ts key lock to ]

  abbrev pub wait_times : List ℕ
  wait_times = 30 ∷ 60 ∷ 120 ∷ []

  -- The sender on record, or else the one that the chain shows, which is recorded.
  unfoldable pub known_sender : W → Db → GuestWallet → Db × Result RefundError String
  known_sender w db wallet =
      if not (str_eq wallet.sender_address "")
      then (db, ok wallet.sender_address)
      else elim (get_sender_address out.scripts (out.history w) wallet.address) [
        | err e ↦ (db, err no_sender)
        | ok sender ↦ (update_wallet_sender_address db wallet.id sender, ok sender)
      ]

  unfoldable pub withdraw_from : W → Db → GuestWallet → String → W × Db × Result RefundError Bytes
  unfolding withdraw_attempts
  withdraw_from w db wallet to = elim (out.decode_key wallet.private_key_hex) [
    | none ↦ (w, db, err bad_key)
    | some key ↦ elim (out.decode_wallet_address wallet.address) [
      | none ↦ (w, db, err bad_wallet)
      | some lock ↦
          let (w', sent) = withdraw_attempts w wait_times key lock to in
          elim sent [
            | none ↦ (w', db, err all_failed)
            | some hash ↦ (w', update_wallet_status db wallet.id "withdrawn", ok hash)
          ]
    ]
  ]

  unfoldable pub withdraw_to_sender : W → Db → String → W × Db × Result RefundError Bytes
  unfolding known_sender withdraw_from
  withdraw_to_sender w db id = elim (get_wallet_by_session_id db id) [
    | err e ↦ (w, db, err no_wallet)
    | ok wallet ↦
        let (db', sender) = known_sender w db wallet in
        elim sender [ err e ↦ (w, db', err e) | ok to ↦ withdraw_from w db' wallet to ]
  ]

  unfoldable pub settle_session_in_background :
      Bool → Bool → ℤ → W → Db → GuestSession → GpChannel × W × Db
  unfolding withdraw_to_sender
  settle_session_in_background updated settled now w db session =
      let (cl, ch, done) = settle_channel updated settled session.client session.channel in
      let (w', db', sent) = withdraw_to_sender w (settle_session db session.id now) session.id in
      (ch, w', db')
