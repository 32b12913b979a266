-- ===== src/Config.antt =====
-- internal/config/config.go: the application's configuration, its defaults, and what the environment
-- overrides. Reading YAML is a parameter; a variable that is not set reads as "".
mod Tests
pub mod Loaded
use air_fi.Base.{
  ℕ, ◌*◌, ◌≡◌, refl, sym, ap, ◌∙◌, subst, ◌≢◌, ◌⊎◌, inl, inr, String, Bool, true, false, not,
  Option, none, some, if◌then◌else◌, str_eq, eq_iff, Result, ok, err, arith, Bool-cases,
  Option-cases,
}
use air_fi.Base.Bytes.{Bytes, codes, decimal_ℤ}
use air_fi.Base.Int.{ℤ, pos, ltb_ℤ, ◌<ℤ◌, ◌≤ℤ◌, ltb_ℤ→lt, ltb_ℤ→ge}
use air_fi.Base.Scan.{scan_i64}
use air_fi.Perun.Config.{minute, hour}
use mathlib.Core.List.{◌∷◌, ◌++◌}

pub record CkbConfig : Type 0 where
  pub network : String
  pub rpc_url : String
  pub indexer_url : String
  pub private_key : String

pub record PerunConfig : Type 0 where
  pub channel_timeout : ℤ
  pub funding_timeout : ℤ
  pub settlement_timeout : ℤ
  pub channel_setup_ckb : ℤ

pub record AuthConfig : Type 0 where
  pub private_key_path : String
  pub public_key_path : String
  pub token_duration : ℤ

pub record ServerConfig : Type 0 where
  pub host : String
  pub port : ℤ
  pub dashboard_password : String

pub record WifiConfig : Type 0 where
  pub rate_per_hour : ℤ
  pub min_session_time : ℤ
  pub max_session_time : ℤ

pub record OpenWrtConfig : Type 0 where
  pub address : String
  pub port : ℤ
  pub username : String
  pub password : String
  pub private_key : String
  pub auth_timeout : ℤ

pub record Config : Type 0 where
  pub ckb : CkbConfig
  pub guest_private_key : String
  pub perun : PerunConfig
  pub auth : AuthConfig
  pub server : ServerConfig
  pub wifi : WifiConfig
  pub database_path : String
  pub openwrt : Option OpenWrtConfig

unfoldable pub default_config : Config
default_config = record {
  ckb = record {
    network = "testnet";
    rpc_url = "https://testnet.ckb.dev/rpc";
    indexer_url = "https://testnet.ckb.dev/indexer";
    private_key = "";
  };
  guest_private_key = "";
  perun = record {
    channel_timeout = pos hour;
    funding_timeout = pos (10 * minute);
    settlement_timeout = pos (30 * minute);
    channel_setup_ckb = pos 1000;
  };
  auth = record {
    private_key_path = "./keys/private.pem";
    public_key_path = "./keys/public.pem";
    token_duration = pos hour;
  };
  server = record { host = "0.0.0.0"; port = pos 8080; dashboard_password = "airfi2025" };
  wifi = record {
    rate_per_hour = pos 500;
    min_session_time = pos (5 * minute);
    max_session_time = pos (24 * hour);
  };
  database_path = "./airfi.db";
  openwrt = none;
}

-- `&OpenWrtConfig{}`
abbrev empty_openwrt : OpenWrtConfig
empty_openwrt = record {
  address = "";
  port = pos 0;
  username = "";
  password = "";
  private_key = "";
  auth_timeout = pos 0;
}

abbrev openwrt_of : Option OpenWrtConfig → OpenWrtConfig
openwrt_of none = empty_openwrt
openwrt_of (some o) = o

-- A text that is set takes the place of the old.
abbrev pub text_or : String → String → String
text_or v old = if str_eq v "" then old else v

-- What Sscanf leaves in a variable that was 0.
abbrev pub scanned : String → ℤ
scanned v = elim (scan_i64 (codes v)) [ none ↦ pos 0 | some n ↦ n ]

-- A number that is set counts only where it is positive.
abbrev pub number_or : String → ℤ → ℤ
number_or v old = if str_eq v "" then old else if ltb_ℤ (pos 0) (scanned v) then scanned v else old

-- One variable of the router's: setting it makes the section.
abbrev openwrt_step :
    String → (OpenWrtConfig → OpenWrtConfig) → Option OpenWrtConfig → Option OpenWrtConfig
openwrt_step v set o = if str_eq v "" then o else some (set (openwrt_of o))

unfoldable override_openwrt : (String → String) → Option OpenWrtConfig → Option OpenWrtConfig
override_openwrt env o0 =
    let address = env "OPENWRT_ADDRESS" in
    let port = env "OPENWRT_PORT" in
    let username = env "OPENWRT_USERNAME" in
    let password = env "OPENWRT_PASSWORD" in
    let key = env "OPENWRT_PRIVATE_KEY" in
    let timeout = env "OPENWRT_AUTH_TIMEOUT" in
    let o1 = openwrt_step address (λ o. record o { address = address }) o0 in
    let o2 = openwrt_step port (λ o. record o { port = number_or port o.port }) o1 in
    let o3 = openwrt_step username (λ o. record o { username = username }) o2 in
    let o4 = openwrt_step password (λ o. record o { password = password }) o3 in
    let o5 = openwrt_step key (λ o. record o { private_key = key }) o4 in
    openwrt_step timeout (λ o. record o { auth_timeout = scanned timeout }) o5

unfoldable pub apply_env_overrides : (String → String) → Config → Config
unfolding override_openwrt
apply_env_overrides env c = record c {
  ckb = record c.ckb { private_key = text_or (env "HOST_PRIVATE_KEY") c.ckb.private_key };
  server = record c.server {
    dashboard_password = text_or (env "DASHBOARD_PASSWORD") c.server.dashboard_password;
    port = number_or (env "PORT") c.server.port;
  };
  database_path = text_or (env "DB_PATH") c.database_path;
  perun = record c.perun {
    channel_setup_ckb = number_or (env "CHANNEL_SETUP_CKB") c.perun.channel_setup_ckb;
  };
  openwrt = override_openwrt env c.openwrt;
}

-- What reading the file gives.
pub data File : Type 0 where
  missing unreadable : File
  text : Bytes → File

pub data ConfigError : Type 0 where
  not_read not_parsed : ConfigError

-- `yaml` writes what the text has over a configuration. Without a file the environment is not read.
unfoldable pub load :
    (Config → Bytes → Option Config) → (String → String) → File → Result ConfigError Config
unfolding default_config apply_env_overrides
load yaml env missing = ok default_config
load yaml env unreadable = err not_read
load yaml env (text b) = elim (yaml default_config b) [
  | none ↦ err not_parsed
  | some c ↦ ok (apply_env_overrides env c)
]

unfoldable get_address : Config → Bytes
get_address c = codes c.server.host ++ b':' ∷ decimal_ℤ c.server.port
