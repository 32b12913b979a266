-- ===== src/Perun/Config.antt =====
-- internal/perun/config.go: the configuration of the channel client, its defaults and its validation.
use air_fi.Base.{ℕ, ◌*◌, ◌≡◌, String, str_eq, Result, ok, ◌>>◌, fail_if, ◌≢◌, arith, eq_iff, ◌↔◌}
use air_fi.Base.Int.{ℤ, pos, non_positive, ◌<ℤ◌}

pub data NetworkType : Type 0 where
  testnet mainnet devnet : NetworkType

pub record Config : Type 0 where
  pub network : NetworkType
  pub rpc_url : String
  pub indexer_url : String
  pub channel_timeout : ℤ
  pub funding_timeout : ℤ
  pub settlement_timeout : ℤ
  pub private_key_path : String
  pub wallet_address : String
  pub asset_id : String

-- Nanoseconds.
abbrev pub second : ℕ
second = 1_000_000_000

abbrev pub minute : ℕ
minute = 60 * second

abbrev pub hour : ℕ
hour = 60 * minute

unfoldable pub default_testnet_config : Config
default_testnet_config = record {
  network = testnet;
  rpc_url = "https://testnet.ckb.dev/rpc";
  indexer_url = "https://testnet.ckb.dev/indexer";
  channel_timeout = pos hour;
  funding_timeout = pos (10 * minute);
  settlement_timeout = pos (30 * minute);
  private_key_path = "";
  wallet_address = "";
  asset_id = "CKBytes";
}

unfoldable default_devnet_config : Config
default_devnet_config = record {
  network = devnet;
  rpc_url = "http://localhost:8114";
  indexer_url = "http://localhost:8116";
  channel_timeout = pos hour;
  funding_timeout = pos (5 * minute);
  settlement_timeout = pos (10 * minute);
  private_key_path = "";
  wallet_address = "";
  asset_id = "CKBytes";
}

pub data ConfigError : Type 0 where
  rpc_url_required channel_timeout_not_positive : ConfigError

pub validate : Config → Result ConfigError (Unit {0})
validate c = do
  fail_if (str_eq c.rpc_url "") rpc_url_required
  fail_if (non_positive c.channel_timeout) channel_timeout_not_positive
  ok tt

-- A configuration is accepted exactly when it names an RPC endpoint and its channel timeout is
-- positive.
pub validate_iff :
    (c : Config) → (validate c ≡ ok tt) ↔ ((c.rpc_url ≢ "") × (pos 0 <ℤ c.channel_timeout))
unfolding validate
validate_iff c = ground (arith, eq_iff c.rpc_url "")
