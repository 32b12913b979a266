-- ===== src/Backend/Funding.antt =====
-- cmd/backend/wallet.go: finding out that a wallet is funded, by the detector's rounds and by the
-- guest's polling. `Watch` is what these read: the capacity of a lock's cells, the fresh random ID of
-- the session for a wallet, and the host's address. A panic is `none`; gin turns one in a handler
-- into an answer.
pub mod Detected
pub mod Hour
pub mod Polled
use air_fi.Base.{
  ℕ, String, Bool, true, false, not, str_eq, Option, none, some, List, [], ◌∷◌, if◌then◌else◌,
  Result, ok, err,
}
use air_fi.Base.Int.{ℤ, pos, ltb_ℤ, leb_ℤ, quot_ℕ}
use air_fi.Base.Word.{wrap64, add_i64}
use air_fi.Db.{
  Db, Session, GuestWallet, get_rate_per_hour, get_guest_wallet, list_pending_wallets,
  create_guest_wallet, update_wallet_sender_address, update_wallet_funded, update_wallet_balance,
}
use air_fi.Perun.Withdraw.{get_sender_address}
use air_fi.Backend.{Server, RouterCall, authorize_mac, Task, open_channel, shannons_per_ckb}
use air_fi.Backend.Sessions.{Created, panicked, refused, made, create_session_from_wallet}
use air_fi.Backend.Settlement.{Outside}

pub record Watch (S W : Type 0) : Type 0 where
  pub out : Outside S W
  pub get_cells_capacity : S → Option ℕ
  pub fresh_id : String → String
  pub host_address : String

-- What the guest's device asked for: the wallet that was generated, if it was, and its addresses.
pub record NewWallet : Type 0 where
  pub id : String
  pub address : String
  pub private_key_hex : String

pub data CreateReply : Type 0 where
  not_generated not_saved : CreateReply
  created : NewWallet → CreateReply

unfoldable pub handle_create_guest_wallet :
    Option NewWallet → String → String → ℤ → Server → Server × CreateReply
handle_create_guest_wallet generated mac ip now srv = elim generated [
  | none ↦ (srv, not_generated)
  | some w ↦
      let row : GuestWallet = record {
        id = w.id;
        address = w.address;
        private_key_hex = w.private_key_hex;
        funding_ckb = pos 500;
        balance_ckb = pos 0;
        created_at = now;
        funded_at = none;
        session_id = "";
        status = "created";
        sender_address = "";
        mac_address = mac;
        ip_address = ip;
      } in
      elim (create_guest_wallet srv.db row) [
        | err e ↦ (srv, not_saved)
        | ok db ↦ (record srv { db = db }, created w)
      ]
]

unfoldable pub get_minimum_funding : Server → ℤ
get_minimum_funding srv = add_i64 srv.channel_setup_ckb (get_rate_per_hour srv.db)

unfoldable pub note_sender : Server → GuestWallet → String → Server
note_sender srv wallet sender =
    if not (str_eq sender "")
    then record srv { db = update_wallet_sender_address srv.db wallet.id sender }
    else srv

-- The wallet is marked, its device is let in, and its channel is opened in the background. The
-- comment that the router gets names the session.
unfoldable pub authorize : Server → GuestWallet → String → Server
authorize srv wallet id =
    if not (str_eq wallet.mac_address "")
    then record srv {
      router_calls = authorize_mac wallet.mac_address wallet.ip_address id ∷ srv.router_calls;
    }
    else srv

unfoldable pub admit : Server → ℤ → GuestWallet → String → ℤ → Server
unfolding authorize
admit srv now wallet id balance =
    let marked : Server = record srv {
      db = update_wallet_funded srv.db wallet.id balance id now;
    } in
    let let_in = authorize marked wallet id in
    record let_in { tasks = open_channel wallet id balance ∷ let_in.tasks }

-- The wallet and the minimum that the guest is shown.
pub data WalletReply : Type 0 where
  wallet_not_found failed : WalletReply
  shown : GuestWallet → ℤ → WalletReply

-- The ID that createSessionFromWallet returns.
unfoldable pub id_of : Created → String → String
id_of (made x) id = id
id_of _ id = ""

module _ {S W : Type 0} (watch : Watch S W) where
  -- In shannons, as an `int64`.
  unfoldable pub check_wallet_balance : String → Option ℤ
  check_wallet_balance address = elim (watch.out.decode_wallet_address address) [
    | none ↦ none
    | some lock ↦ elim (watch.get_cells_capacity lock) [
      | none ↦ none
      | some capacity ↦ some (wrap64 (pos capacity))
    ]
  ]

  unfoldable pub detect_sender_address : W → String → String
  detect_sender_address w address =
      elim (get_sender_address watch.out.scripts (watch.out.history w) address) [
        | err e ↦ ""
        | ok sender ↦ sender
      ]

  -- The wallet holds enough.
  unfoldable pub fund_pending : W → ℤ → Server → GuestWallet → ℤ → Option Server
  unfolding detect_sender_address note_sender admit
  fund_pending w now srv wallet balance =
      let noted = note_sender srv wallet (detect_sender_address w wallet.address) in
      let id = watch.fresh_id wallet.id in
      let (srv', result) =
        create_session_from_wallet noted id watch.host_address now wallet balance in
      elim result [
        | panicked ↦ none
        | refused ↦ some srv'
        | made x ↦ some (admit srv' now wallet id balance)
      ]

  unfoldable pub check_wallet : W → ℤ → ℤ → Server → GuestWallet → Option Server
  unfolding check_wallet_balance fund_pending
  check_wallet w now minimum srv wallet = elim (check_wallet_balance wallet.address) [
    | none ↦ some srv
    | some balance ↦
        let balance_ckb = quot_ℕ balance shannons_per_ckb in
        if leb_ℤ minimum balance_ckb
        then fund_pending w now srv wallet balance_ckb
        else if ltb_ℤ (pos 0) balance_ckb
        then some (record srv { db = update_wallet_balance srv.db wallet.id balance_ckb })
        else some srv
  ]

  unfoldable pub check_each : W → ℤ → ℤ → Server → List GuestWallet → Option Server
  unfolding check_wallet
  check_each w now minimum srv [] = some srv
  check_each w now minimum srv (wallet ∷ wallets) = elim (check_wallet w now minimum srv wallet) [
    | none ↦ none
    | some srv' ↦ check_each w now minimum srv' wallets
  ]

  unfoldable pub check_pending_wallets : W → ℤ → Server → Option Server
  unfolding check_each get_minimum_funding
  check_pending_wallets w now srv =
      check_each w now (get_minimum_funding srv) srv (list_pending_wallets srv.db)

  -- The polled wallet holds enough: it is marked as funded whatever ID came back.
  unfoldable pub fund_polled : W → ℤ → Server → GuestWallet → ℤ → Server × Option GuestWallet
  unfolding detect_sender_address note_sender id_of
  fund_polled w now srv wallet balance =
      let noted = note_sender srv wallet (detect_sender_address w wallet.address) in
      let fresh = watch.fresh_id wallet.id in
      let (srv', result) =
        create_session_from_wallet noted fresh watch.host_address now wallet balance in
      let id = id_of result fresh in
      let funded : GuestWallet = record wallet {
        status = "funded";
        balance_ckb = balance;
        session_id = id;
      } in
      let marked : Server = record srv' {
        db = update_wallet_funded srv'.db wallet.id balance id now;
        tasks = open_channel funded id balance ∷ srv'.tasks;
      } in
      elim result [ panicked ↦ (srv', none) | _ ↦ (marked, some funded) ]

  unfoldable pub poll_created : W → ℤ → ℤ → Server → GuestWallet → Server × Option GuestWallet
  unfolding check_wallet_balance fund_polled
  poll_created w now minimum srv wallet = elim (check_wallet_balance wallet.address) [
    | none ↦ (srv, some wallet)
    | some balance ↦
        let balance_ckb = quot_ℕ balance shannons_per_ckb in
        if leb_ℤ minimum balance_ckb
        then fund_polled w now srv wallet balance_ckb
        else if ltb_ℤ (pos 0) balance_ckb
        then (
          record srv { db = update_wallet_balance srv.db wallet.id balance_ckb },
          some (record wallet { balance_ckb = balance_ckb }),
        )
        else (srv, some wallet)
  ]

  unfoldable pub handle_get_guest_wallet : W → ℤ → Server → String → Server × WalletReply
  unfolding poll_created get_minimum_funding
  handle_get_guest_wallet w now srv wallet_id = elim (get_guest_wallet srv.db wallet_id) [
    | err e ↦ (srv, wallet_not_found)
    | ok wallet ↦
        let minimum = get_minimum_funding srv in
        if str_eq wallet.status "created"
        then (let (srv', seen) = poll_created w now minimum srv wallet in
            elim seen [ none ↦ (srv', failed) | some after ↦ (srv', shown after minimum) ])
        else (srv, shown wallet minimum)
  ]
