-- ===== src/Backend/Tests.antt =====
-- A concrete server of cmd/backend, with one session, one wallet and a chain, on which the theorems
-- are run.
use air_fi.Base.{
  ℕ, ◌*◌, ◌≤◌, ◌≡◌, refl, ◌⊎◌, Bool, true, false, none, some, List, [], ◌∷◌, ok, arith,
}
use air_fi.Base.Int.{ℤ, pos, ◌+ℤ◌, ◌-ℤ◌, ◌*ℤ◌, ◌≤ℤ◌, ◌<ℤ◌, quot_ℕ}
use air_fi.Base.Word.{wrap64}
use air_fi.Base.Bytes.{codes}
use air_fi.Base.Map.{lookup}
use air_fi.Base.Scan.{scan_i64}
use air_fi.Auth.{Claims}
use air_fi.Auth.Tests.{service, jwt-IsSound, signed}
use air_fi.Db.Rows.{find_row, filter_rows, order_by}
use air_fi.Db.{
  Session, GuestWallet, has_id, get_session, get_setting, get_rate_per_hour, list_pending_wallets,
}
use air_fi.Perun.CellTests.{chain, scripts}
use air_fi.Perun.ChannelClient.{new_channel_client}
use air_fi.Perun.Withdraw.{History}
use air_fi.Backend.{GuestSession, Server, open_channel}
use air_fi.Backend.Sessions.Minutes.{bought}
use air_fi.Backend.Billing.{process_micropayments}
use air_fi.Backend.Billing.Backing.{IsBacked}
use air_fi.Backend.Billing.Drain.{AllDue, rounds, rounds_drain}
use air_fi.Backend.Settlement.{Outside, withdraw_to_sender}
use air_fi.Backend.Settlement.Refunds.{Refunded, withdraw_to_sender-Refunded}
use air_fi.Backend.Opening.{Run, host_funding, catch_up, elapsed_minutes, open_channel_for_session}
use air_fi.Backend.Opening.CatchUp.{open_channel_for_session_unbacked}
use air_fi.Backend.Funding.{
  Watch, get_minimum_funding, check_wallet_balance, check_wallet, check_each, check_pending_wallets,
  handle_get_guest_wallet,
}
use air_fi.Backend.Funding.Detected.{Grown, authorized, check_pending_wallets_lets_in}
use air_fi.Backend.Funding.Hour.{check_wallet_buys}
use air_fi.Backend.Funding.Polled.{handle_get_guest_wallet_calls}
use air_fi.Backend.Handlers.{
  session_expired, not_ready, given, handle_end_session, handle_get_session_token,
  handle_validate_token,
}
use air_fi.Backend.Handlers.Tokens.{Answers, handle_validate_token-handle_get_session_token}
use air_fi.Backend.Handlers.Ending.{Ended, handle_end_session_revokes}
use air_fi.Backend.Solvency.{here, next, round, IsSolvent, Reach-IsSolvent}

abbrev row : Session
row = record {
  id = "s";
  wallet_id = "w";
  channel_id = "c";
  guest_address = "g";
  host_address = "h";
  funding_ckb = pos 1500;
  balance_ckb = pos 500;
  spent_ckb = pos 0;
  created_at = pos 0;
  expires_at = pos 100;
  status = "active";
  settled_at = none;
  mac_address = "";
  ip_address = "";
}

abbrev wallet : GuestWallet
wallet = record {
  id = "w";
  address = "g";
  private_key_hex = "00";
  funding_ckb = pos 500;
  balance_ckb = pos 0;
  created_at = pos 0;
  funded_at = none;
  session_id = "s";
  status = "created";
  sender_address = "h";
  mac_address = "02:00:00:00:00:01";
  ip_address = "";
}

abbrev held : GuestSession
held = record {
  id = "s";
  client = new_channel_client;
  channel = record { id = "c"; my_balance = pos 900; peer_balance = pos 200; is_final = false };
  guest_address = "g";
  funding_amount = pos 1000;
  total_paid = pos 100;
  created_at = pos 0;
  expires_at = pos 100;
}

abbrev server : Server
server = record {
  db = record {
    sessions = row ∷ [];
    guest_wallets = wallet ∷ [];
    settings = ("rate_per_hour", codes "500") ∷ [];
  };
  sessions = ("s", held) ∷ [];
  rate_per_min = pos 300;
  channel_setup_ckb = pos 1000;
  dashboard_password = "secret";
  router_calls = [];
  tasks = [];
}

-- A chain that shows no history, and a lock that holds 2,000 CKB.
abbrev history : History ℕ
history = record { transactions = λ lock. none; transaction = λ h. none }

abbrev outside : Outside ℕ ℕ
outside = record {
  node = chain;
  scripts = scripts;
  history = λ w. history;
  decode_key = λ k. some 7;
  decode_wallet_address = λ a. some 1;
  wait = λ t w. w;
}

abbrev watch : Watch ℕ ℕ
watch = record {
  out = outside;
  get_cells_capacity = λ lock. some 200_000_000_000;
  fresh_id = λ id. "fresh";
  host_address = "host";
}

server-IsSolvent : IsSolvent server
unfolding ◌+ℤ◌
server-IsSolvent = (omega arith, ((omega arith, omega arith, refl), tt))

Reach-IsSolvent_example : IsSolvent (process_micropayments (λ id. true) (pos 5) server)
Reach-IsSolvent_example =
    Reach-IsSolvent server (process_micropayments (λ id. true) (pos 5) server)
      (next server server (process_micropayments (λ id. true) (pos 5) server) (here server)
        (round (λ id. true) (pos 5) server))
      server-IsSolvent

abbrev minutes : List ℤ
minutes = pos 1 ∷ pos 2 ∷ pos 3 ∷ pos 4 ∷ []

server-AllDue : AllDue 300 4 server.sessions
unfolding ◌+ℤ◌
server-AllDue = (omega arith, tt)

rounds_drain_example : (rounds minutes server).sessions ≡ []
rounds_drain_example = rounds_drain 300 minutes server refl server-IsSolvent.1 server-AllDue

withdraw_to_sender-Refunded_example :
    let r = withdraw_to_sender outside 5 server.db "s" in Refunded outside server.db "s" r.1 r.2
withdraw_to_sender-Refunded_example = withdraw_to_sender-Refunded outside 5 server.db "s"

handle_get_guest_wallet_calls_example :
    (handle_get_guest_wallet watch 5 (pos 5) server "w").0.router_calls ≡ []
handle_get_guest_wallet_calls_example = handle_get_guest_wallet_calls watch 5 (pos 5) server "w"

found : get_session server.db "s" ≡ ok row
unfolding get_session find_row
found = refl

in_memory : lookup "s" server.sessions ≡ some held
unfolding lookup
in_memory = refl

handle_end_session_revokes_example :
    let after = (handle_end_session server "s").0 in
    Ended server after "s" held row
    × ((handle_get_session_token service (pos 20) (pos 20) after "s" ≡ session_expired)
        ⊎ (handle_get_session_token service (pos 20) (pos 20) after "s" ≡ not_ready "settling"))
    × (handle_end_session after "s" ≡ (after, false))
handle_end_session_revokes_example =
    handle_end_session_revokes server "s" held row service (pos 20) (pos 20) in_memory found

token_given : handle_get_session_token service (pos 10) (pos 10) server "s" ≡ given "t" row
unfolding handle_get_session_token get_session find_row ◌-ℤ◌
token_given = rw (handle_get_session_token, signed) refl

handle_validate_token-handle_get_session_token_example :
    (get_session server.db "s" ≡ ok row)
    × (pos 10 ≤ℤ row.expires_at)
    × (row.status ≡ "active")
    × ((c : Claims) × (c.session_id ≡ row.id)
        × (c.channel_id ≡ row.channel_id)
        × (c.mac_address ≡ row.mac_address)
        × (c.expires_at ≡ service.jwt.numeric_date row.expires_at)
        × Answers (pos 20) c (handle_validate_token service (pos 20) (pos 20) (pos 20) "t"))
handle_validate_token-handle_get_session_token_example =
    handle_validate_token-handle_get_session_token service jwt-IsSound (pos 10) (pos 10) (pos 20)
      server "s" "t" row token_given (omega arith)

rate_is : get_rate_per_hour server.db ≡ pos 500
unfolding get_rate_per_hour get_setting lookup scan_i64
rate_is = refl

seen : check_wallet_balance watch "g" ≡ some (pos 200_000_000_000)
unfolding check_wallet_balance wrap64
seen = refl

unused : find_row (has_id "fresh") server.db.sessions ≡ none
unfolding find_row
unused = refl

check_wallet_buys_example :
    (after : Server) × (check_wallet watch 5 (pos 5) (get_minimum_funding server) server wallet
      ≡ some after)
    × (after.router_calls ≡ authorized wallet "fresh" [])
    × (after.tasks ≡ open_channel wallet "fresh" (pos 2000) ∷ [])
    × ((x : Session) × (get_session after.db "fresh" ≡ ok x)
        × (x.status ≡ "active")
        × (x.expires_at ≡ pos 5 +ℤ pos (bought 500 1000 * 60_000_000_000))
        × (60 ≤ bought 500 1000))
check_wallet_buys_example =
    check_wallet_buys watch 5 (pos 5) server wallet 1000 500 200_000_000_000 refl rate_is
      (omega arith) (omega arith) seen (omega arith) (omega arith) (omega arith) unused

-- The server after the detector's round.
funded :
    (after : Server) × (check_wallet watch 5 (pos 5) (get_minimum_funding server) server wallet
      ≡ some after)
funded =
    let r =
      check_wallet_buys watch 5 (pos 5) server wallet 1000 500 200_000_000_000 refl rate_is
        (omega arith) (omega arith) seen (omega arith) (omega arith) (omega arith) unused in
    (r.0, r.1)

pending : list_pending_wallets server.db ≡ wallet ∷ []
unfolding list_pending_wallets filter_rows order_by
pending = refl

one_round : check_pending_wallets watch 5 (pos 5) server ≡ some funded.0
unfolding check_pending_wallets check_each
one_round = rw (check_pending_wallets, pending, check_each, funded.1) refl

check_pending_wallets_lets_in_example :
    Grown watch
      (get_minimum_funding server)
      (list_pending_wallets server.db)
      []
      funded.0.router_calls
check_pending_wallets_lets_in_example =
    check_pending_wallets_lets_in watch 5 (pos 5) server funded.0 one_round

-- An opening that takes less than a minute.
abbrev run : Bool → Bool → Run
run prepared accepted = record {
  key_decodes = true;
  address_decodes = true;
  cells_prepared = prepared;
  client_made = true;
  proposal_well_formed = true;
  agreed = some "c2";
  opened_at = pos 1;
  caught_up_at = pos 2;
  payment_accepted = accepted;
}

due_is : (a : Bool) → catch_up server (run true a) row ≡ pos 300
unfolding catch_up elapsed_minutes quot_ℕ ◌*ℤ◌ ◌-ℤ◌
due_is a = refl

due_positive : pos 0 <ℤ catch_up server (run true false) row
due_positive = rw (due_is false) (omega arith)

open_channel_for_session_unbacked_example :
    let after = open_channel_for_session (run true false) server wallet "s" (pos 2000) in
    (x : GuestSession) × (lookup "s" after.sessions ≡ some x)
    × (x.total_paid ≡ catch_up server (run true false) row)
    × (x.channel.my_balance ≡ x.funding_amount)
    × (x.channel.peer_balance ≡ host_funding)
    × ¬ IsBacked x
open_channel_for_session_unbacked_example =
    open_channel_for_session_unbacked (run true false) server wallet "s" (pos 2000) "c2" row refl
      refl refl refl found due_positive
