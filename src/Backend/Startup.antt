-- ===== src/Backend/Startup.antt =====
-- cmd/backend/main.go: what is put together before the server runs. The libraries and the machine
-- are a parameter; what is printed is left out.
pub mod Started
mod Tests
use air_fi.Base.{
  ℕ, ◌+◌, ◌*◌, ◌&&◌, ◌==◌, String, Bool, Option, none, some, List, [], ◌∷◌, ◌++◌, if◌then◌else◌,
  str_eq, Result, ok, err,
}
use air_fi.Base.Bytes.{Bytes, codes, decimal_ℤ}
use air_fi.Base.Int.{ℤ, pos}
use air_fi.Auth.Keys.{Host, KeyPair, KeyError, Files, load_or_generate_key_pair}
use air_fi.Backend.{Server, new_server}
use air_fi.Config.{Config, File, ConfigError, load}
use air_fi.Config as Config
use air_fi.Db.{Db, get_rate_per_hour}
use air_fi.Guest.Address.{Script, AddressError, decode_address}
use air_fi.Perun.Cells.{Node, CellError, ensure_minimum_cells}
use air_fi.Perun.Wallet.{hex_value}
use air_fi.Router.{OpenWrtConfig, RouterError, is_empty, is_zero, new_open_wrt_client}

abbrev demo_key : String
demo_key = "0x5ba43817d0634ca9f1620b4f17874f366794f181cd0eb854ea7ff711093b26f3"

abbrev default_password : String
default_password = "airfi2025"

abbrev pub config_path : (String → String) → String
config_path env =
    let path = env "CONFIG_PATH" in if str_eq path "" then "./config/config.yaml" else path

-- A prefix goes where something follows it.
unfoldable strip_key : Bytes → Bytes
strip_key (a ∷ b ∷ c ∷ rest) = if a == b'0' && b == b'x' then c ∷ rest else a ∷ b ∷ c ∷ rest
strip_key text = text

-- What `hex.DecodeString` returns, its error passed over: the pairs before the first bad one.
unfoldable hex_bytes : Bytes → Bytes
hex_bytes [] = []
hex_bytes (a ∷ []) = []
hex_bytes (a ∷ b ∷ rest) = elim (hex_value a) [
  | none ↦ []
  | some x ↦ elim (hex_value b) [ none ↦ [] | some y ↦ (x * 16 + y) ∷ hex_bytes rest ]
]

unfoldable pub host_key_bytes : Config → Bytes
unfolding strip_key hex_bytes
host_key_bytes cfg =
    let text = cfg.ckb.private_key in
    hex_bytes (strip_key (codes (if str_eq text "" then demo_key else text)))

unfoldable pub password_of : Config → String
password_of cfg =
    let text = cfg.server.dashboard_password in if str_eq text "" then default_password else text

-- The client's configuration, with the port and the user's name where they are missing.
unfoldable pub router_config : Config.OpenWrtConfig → OpenWrtConfig
router_config o = record {
  address = codes o.address;
  port = if is_zero o.port then pos 22 else o.port;
  username = if str_eq o.username "" then codes "root" else codes o.username;
  password = codes o.password;
  private_key = codes o.private_key;
  auth_timeout = o.auth_timeout;
}

-- `none` is the router that does nothing; that the connection fails is only printed.
unfoldable pub initialize_router :
    (Bytes → Bool) → Option Config.OpenWrtConfig → Result RouterError (Option OpenWrtConfig)
unfolding router_config
initialize_router parses none = ok none
initialize_router parses (some o) =
    if str_eq o.address ""
    then ok none
    else elim (new_open_wrt_client parses (router_config o)) [ err e ↦ err e | ok c ↦ ok (some c) ]

-- What `main` calls of the libraries and asks of the machine.
pub record Machine (Private Public W : Type 0) : Type 0 where
  pub env : String → String
  pub read_config : String → File
  pub yaml : Config → Bytes → Option Config
  pub priv_key_from_bytes : Bytes → ℕ
  -- The address of the host's client, where it can be made.
  pub new_channel_client : ℕ → Option Bytes
  pub dial : Bool
  -- The host's balance; where asking for it fails, there is no number to print.
  pub get_balance : ℕ → Option ℤ
  pub node : Node Script W
  pub keys : Host Private Public
  pub open_db : String → Option Db
  pub parses : Bytes → Bool

pub data StartupError : Type 0 where
  no_host_client no_rpc balance_panicked no_database not_prepared : StartupError
  bad_config : ConfigError → StartupError
  bad_address : AddressError → StartupError
  no_cells : CellError → StartupError
  no_keys : KeyError → StartupError
  bad_router : RouterError → StartupError

pub record App (Private Public : Type 0) : Type 0 where
  pub config : Config
  pub db : Db
  pub host_key : ℕ
  pub host_lock : Script
  pub key_pair : KeyPair Private Public
  pub router : Option OpenWrtConfig
  pub server : Server
  pub address : Bytes

module _ {Private Public W : Type 0} (m : Machine Private Public W) where
  abbrev Outcome : Type 0
  Outcome = Files × W × Result StartupError (App Private Public)

  abbrev pub server_of : Config → Db → Server
  server_of cfg db =
      new_server db (get_rate_per_hour db) cfg.perun.channel_setup_ckb (password_of cfg)

  abbrev pub app_of :
      Config → ℕ → Script → KeyPair Private Public → Db → Option OpenWrtConfig → App Private Public
  app_of cfg key lock pair db router = record {
    config = cfg;
    db = db;
    host_key = key;
    host_lock = lock;
    key_pair = pair;
    router = router;
    server = server_of cfg db;
    address = codes ":" ++ decimal_ℤ cfg.server.port;
  }

  -- The database, the router and the server, once the keys are there.
  unfoldable pub open_server :
      Config → ℕ → Script → KeyPair Private Public → Result StartupError (App Private Public)
  unfolding initialize_router
  open_server cfg key lock pair = elim (m.open_db cfg.database_path) [
    | none ↦ err no_database
    | some db ↦ elim (initialize_router m.parses cfg.openwrt) [
      | err e ↦ err (bad_router e)
      | ok router ↦ ok (app_of cfg key lock pair db router)
    ]
  ]

  unfoldable pub load_keys : Config → ℕ → Script → Files → W → Outcome
  unfolding open_server
  load_keys cfg key lock files w =
      let r =
        load_or_generate_key_pair m.keys files cfg.auth.private_key_path cfg.auth.public_key_path in
      elim r.1 [
        | err e ↦ (r.0, w, err (no_keys e))
        | ok pair ↦ (r.0, w, open_server cfg key lock pair)
      ]

  -- Three cells, of which each round of the loop makes one.
  unfoldable pub prepare_cells : Config → ℕ → Script → Files → W → Outcome
  unfolding load_keys
  prepare_cells cfg key lock files w =
      let r = ensure_minimum_cells m.node 3 w key lock 3 in
      elim r.1 [
        | none ↦ (files, r.0, err not_prepared)
        | some (err e) ↦ (files, r.0, err (no_cells e))
        | some (ok u) ↦ load_keys cfg key lock files r.0
      ]

  -- The error of the balance is dropped, and printing a missing balance panics.
  unfoldable pub read_address : Config → ℕ → Bytes → Files → W → Outcome
  unfolding prepare_cells
  read_address cfg key address files w = elim (m.get_balance key) [
    | none ↦ (files, w, err balance_panicked)
    | some balance ↦ elim (decode_address address) [
      | err e ↦ (files, w, err (bad_address e))
      | ok lock ↦ prepare_cells cfg key lock files w
    ]
  ]

  unfoldable pub start_up : Files → W → Outcome
  unfolding host_key_bytes read_address
  start_up files w = elim (load m.yaml m.env (m.read_config (config_path m.env))) [
    | err e ↦ (files, w, err (bad_config e))
    | ok cfg ↦
        let key = m.priv_key_from_bytes (host_key_bytes cfg) in
        elim (m.new_channel_client key) [
          | none ↦ (files, w, err no_host_client)
          | some address ↦
              if m.dial then read_address cfg key address files w else (files, w, err no_rpc)
        ]
  ]
