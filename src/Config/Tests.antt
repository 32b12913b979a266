-- ===== src/Config/Tests.antt =====
-- A concrete environment of internal/config.
use air_fi.Base.{◌≡◌, refl, ◌⊎◌, String, str_eq, Option, none, some, err, [], if◌then◌else◌, ok}
use air_fi.Base.Bytes.{Bytes}
use air_fi.Base.Int.{pos}
use air_fi.Base.Scan.{scan_i64}
use air_fi.Config.{
  Config, text, default_config, apply_env_overrides, load, missing, unreadable, not_read,
  not_parsed,
}
use air_fi.Config.Loaded.{IsUsable, Configured, load_outcome}

abbrev env : String → String
env key = if str_eq key "PORT" then "9090" else if str_eq key "CHANNEL_SETUP_CKB" then "-4" else ""

abbrev yaml : Config → Bytes → Option Config
yaml c b = some c

abbrev loaded : Config
loaded = apply_env_overrides env default_config

port : loaded.server.port ≡ pos 9090
unfolding apply_env_overrides default_config scan_i64
port = refl

read : load yaml env (text []) ≡ ok loaded
unfolding load
read = refl

load_outcome_example :
    ((text [] ≡ missing) × (load yaml env (text []) ≡ ok default_config) × IsUsable default_config)
    ⊎ ((text [] ≡ unreadable) × (load yaml env (text []) ≡ err not_read))
    ⊎ ((b : Bytes) × (text [] ≡ text b)
        × (yaml default_config b ≡ none)
        × (load yaml env (text []) ≡ err not_parsed))
    ⊎ ((b : Bytes) × (d : Config) × (c : Config) × (text [] ≡ text b)
        × (yaml default_config b ≡ some d)
        × (load yaml env (text []) ≡ ok c)
        × Configured env d c)
load_outcome_example = load_outcome yaml env (text [])
