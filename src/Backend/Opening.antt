-- ===== src/Backend/Opening.antt =====
-- openChannelForSession of cmd/backend/channel.go. `Run` is what happens outside the program during
-- the call: what decodes, whether the cells are prepared and the client is made, the channel that
-- go-perun and the host agree to, and whether the catch-up payment goes through. The session's
-- database rows are written whatever the errors of these writes, which are only logged.
pub mod Access
pub mod CatchUp
use air_fi.Base.{
  ℕ, String, Bool, true, false, not, str_eq, Option, none, some, List, [], ◌∷◌, if◌then◌else◌,
  Result, ok, err,
}
use air_fi.Base.Int.{ℤ, pos, ◌-ℤ◌, ◌*ℤ◌, ltb_ℤ, quot_ℕ}
use air_fi.Base.Word.{wrap64, sub_i64, mul_i64}
use air_fi.Base.Map.{insert}
use air_fi.Db.{
  Db, Session, GuestWallet, get_session, update_session_status, update_session_channel,
  update_session_balance, update_wallet_status,
}
use air_fi.Perun.ChannelClient.{
  GpChannel, ChannelClient, new_channel_client, propose_channel, send_payment,
}
use air_fi.Backend.{GuestSession, Server, RouterCall, deauthorize_mac, shannons_per_ckb}

pub record Run : Type 0 where
  pub key_decodes : Bool
  pub address_decodes : Bool
  pub cells_prepared : Bool
  pub client_made : Bool
  pub proposal_well_formed : Bool
  pub agreed : Option String
  pub opened_at : ℤ
  pub caught_up_at : ℤ
  pub payment_accepted : Bool

-- 100 CKB
abbrev pub host_funding : ℤ
host_funding = pos 10_000_000_000

unfoldable pub set_status : Server → String → String → Server
set_status srv id status = record srv { db = update_session_status srv.db id status }

unfoldable pub revoke : Server → GuestWallet → Server
revoke srv wallet =
    if not (str_eq wallet.mac_address "")
    then record srv { router_calls = deauthorize_mac wallet.mac_address ∷ srv.router_calls }
    else srv

-- The whole minutes since the session began, one at the least.
unfoldable pub elapsed_minutes : ℤ → ℤ
elapsed_minutes elapsed =
    let minutes = quot_ℕ elapsed 60_000_000_000 in if ltb_ℤ minutes (pos 1) then pos 1 else minutes

unfoldable pub catch_up : Server → Run → Session → ℤ
unfolding elapsed_minutes
catch_up srv run row = elapsed_minutes (run.caught_up_at -ℤ row.created_at) *ℤ srv.rate_per_min

unfoldable pub pay_catch_up : Bool → GpChannel → ℤ → GpChannel
pay_catch_up accepted ch due = if ltb_ℤ (pos 0) due then (send_payment accepted ch due).0 else ch

unfoldable pub opened_session :
    Run → ChannelClient → GpChannel → GuestWallet → String → ℤ → ℤ → Session → GuestSession
unfolding pay_catch_up
opened_session run cl ch wallet id funding due row = record {
  id = id;
  client = cl;
  channel = pay_catch_up run.payment_accepted ch due;
  guest_address = wallet.address;
  funding_amount = funding;
  total_paid = due;
  created_at = row.created_at;
  expires_at = row.expires_at;
}

-- The channel is open: catch up, and keep the session in memory.
unfoldable pub enter_session :
    Server → Run → ChannelClient → GpChannel → GuestWallet → String → ℤ → ℤ → Server
unfolding catch_up opened_session
enter_session srv run cl ch wallet id funding_ckb funding =
    let db' =
      update_wallet_status (update_session_channel srv.db id ch.id "active") wallet.id
        "channel_open" in
    elim (get_session db' id) [
      | err e ↦ record srv { db = db' }
      | ok row ↦
          let due = catch_up srv run row in
          let due_ckb = quot_ℕ (wrap64 due) shannons_per_ckb in
          record srv {
            sessions = insert id (opened_session run cl ch wallet id funding due row) srv.sessions;
            db = update_session_balance db' id (sub_i64 funding_ckb due_ckb) due_ckb;
          }
    ]

unfoldable pub propose : Server → Run → GuestWallet → String → ℤ → Server
unfolding set_status revoke enter_session
propose srv run wallet id balance =
    let funding_ckb = sub_i64 balance srv.channel_setup_ckb in
    let funding = mul_i64 funding_ckb (pos shannons_per_ckb) in
    let opening = set_status srv id "channel_opening" in
    let (cl, answer) =
      propose_channel run.proposal_well_formed run.agreed new_channel_client funding host_funding
        run.opened_at in
    elim answer [
      | err e ↦ revoke (set_status opening id "channel_failed") wallet
      | ok ch ↦ enter_session opening run cl ch wallet id funding_ckb funding
    ]

unfoldable pub open_channel_for_session : Run → Server → GuestWallet → String → ℤ → Server
unfolding set_status propose
open_channel_for_session run srv wallet id balance =
    if not run.key_decodes
    then srv
    else if not run.address_decodes
    then set_status srv id "channel_failed"
    else if not run.cells_prepared
    then set_status srv id "cell_preparation_failed"
    else if not run.client_made
    then set_status srv id "channel_failed"
    else if ltb_ℤ balance srv.channel_setup_ckb
    then set_status srv id "insufficient_funds"
    else propose srv run wallet id balance
