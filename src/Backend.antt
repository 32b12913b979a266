-- ===== src/Backend.antt =====
-- cmd/backend/server.go: the backend's state. `router_calls` is what has been asked of the router
-- and `tasks` are the goroutines that were started, the latest first; how the router answers is only
-- logged. A session holds its client and its channel, which nothing else holds.
pub mod Billing
pub mod Sessions
pub mod Settlement
pub mod Opening
pub mod Funding
pub mod Handlers
pub mod Solvency
pub mod Startup
mod Tests
use air_fi.Base.{ℕ, String, List, [], ◌∷◌, if◌then◌else◌}
use air_fi.Base.Int.{ℤ, pos, non_positive, quot_ℕ}
use air_fi.Base.Word.{mul_i64}
use air_fi.Base.Map.{Map}
use air_fi.Db.{Db, GuestWallet}
use air_fi.Perun.ChannelClient.{GpChannel, ChannelClient}

pub record GuestSession : Type 0 where
  pub id : String
  pub client : ChannelClient
  pub channel : GpChannel
  pub guest_address : String
  pub funding_amount : ℤ
  pub total_paid : ℤ
  pub created_at : ℤ
  pub expires_at : ℤ

pub data RouterCall : Type 0 where
  authorize_mac : String → String → String → RouterCall
  deauthorize_mac : String → RouterCall

-- The goroutines: settleExpiredSession, settleSessionInBackground, openChannelForSession with a
-- wallet, a session's ID and a balance, and the withdrawal of an expired session.
pub data Task : Type 0 where
  settle_expired : GuestSession → Task
  settle_in_background : GuestSession → Task
  open_channel : GuestWallet → String → ℤ → Task
  withdraw : String → Task

pub record Server : Type 0 where
  pub db : Db
  pub sessions : Map GuestSession
  pub rate_per_min : ℤ
  pub channel_setup_ckb : ℤ
  pub dashboard_password : String
  pub router_calls : List RouterCall
  pub tasks : List Task

abbrev pub shannons_per_ckb : ℕ
shannons_per_ckb = 100_000_000

-- CKBytes for an hour, as shannons for a minute.
unfoldable pub per_minute : ℤ → ℤ
per_minute rate_per_hour = quot_ℕ (mul_i64 rate_per_hour (pos shannons_per_ckb)) 60

unfoldable pub new_server : Db → ℤ → ℤ → String → Server
new_server db rate_per_hour setup password = record {
  db = db;
  sessions = [];
  rate_per_min = per_minute rate_per_hour;
  channel_setup_ckb = if non_positive setup then pos 1000 else setup;
  dashboard_password = password;
  router_calls = [];
  tasks = [];
}

unfoldable pub update_rate_per_min : Server → ℤ → Server
update_rate_per_min s rate_per_hour = record s { rate_per_min = per_minute rate_per_hour }
