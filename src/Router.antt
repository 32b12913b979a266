-- ===== src/Router.antt =====
-- internal/router: letting devices in and taking them off an OpenWrt router with OpenNDS. Strings are
-- their bytes. `ssh` runs a command on the router: its output, or the text of the error.
pub mod Mac
mod Tests
use air_fi.Base.{
  ℕ, ◌+◌, Bool, true, false, not, ◌&&◌, ◌||◌, ◌==◌, leb, ltb, Option, none, some, List, [], ◌∷◌,
  ◌++◌, length, if◌then◌else◌, Result, ok, err, ◌>>=◌,
}
use air_fi.Base.Int.{ℤ, pos, ltb_ℤ}
use air_fi.Base.Bytes.{Bytes, codes, decimal_ℤ}
use air_fi.Guest.Address.{same_prefix}
use air_fi.Router.Mac.{to_lower, normalize_mac_address}

pub data RouterError : Type 0 where
  failed not_connected not_running no_authentication bad_private_key : RouterError

pub record OpenWrtConfig : Type 0 where
  pub address : Bytes
  pub port : ℤ
  pub username : Bytes
  pub password : Bytes
  pub private_key : Bytes
  pub auth_timeout : ℤ

abbrev pub is_empty : Bytes → Bool
is_empty [] = true
is_empty (x ∷ xs) = false

abbrev pub is_zero : ℤ → Bool
is_zero n = not (ltb_ℤ n (pos 0)) && not (ltb_ℤ (pos 0) n)

-- `parses`: whether a private key is one. The client keeps the configuration, with its port set.
unfoldable pub new_open_wrt_client :
    (Bytes → Bool) → OpenWrtConfig → Result RouterError OpenWrtConfig
new_open_wrt_client parses config =
    if not (is_empty config.private_key) && not (parses config.private_key)
    then err bad_private_key
    else if is_empty config.password && is_empty config.private_key
    then err no_authentication
    else ok (record config { port = if is_zero config.port then pos 22 else config.port })

-- `strings.Contains`
abbrev pub contains : Bytes → Bytes → Bool
contains text [] = true
contains [] (c ∷ cs) = false
contains (x ∷ xs) (c ∷ cs) = same_prefix (c ∷ cs) (x ∷ xs) || contains xs (c ∷ cs)

module _ (config : OpenWrtConfig) (ssh : Bytes → Result Bytes Bytes) where
  unfoldable pub auth_command : Bytes → Bytes
  auth_command mac =
      if ltb_ℤ (pos 0) config.auth_timeout
      then codes "ndsctl auth " ++ (mac ++ (codes " " ++ decimal_ℤ config.auth_timeout))
      else codes "ndsctl auth " ++ mac

  unfoldable pub authorize_mac : Bytes → Result RouterError (Unit {0})
  unfolding auth_command
  authorize_mac mac_address = elim (ssh (auth_command (normalize_mac_address mac_address))) [
    | err e ↦ err failed
    | ok output ↦
        if contains output (codes "already authenticated")
        then ok tt
        else if contains output (codes "authenticated") || contains output (codes "Authenticated")
        then ok tt
        else if contains output (codes "not found") || contains output (codes "Client not found")
        then err not_connected
        else ok tt
  ]

  unfoldable pub deauthorize_mac : Bytes → Result RouterError (Unit {0})
  deauthorize_mac mac_address =
      elim (ssh (codes "ndsctl deauth " ++ normalize_mac_address mac_address)) [
        | err e ↦ if contains e (codes "not found") then ok tt else err failed
        | ok output ↦ ok tt
      ]

  -- The second command is run only where the first shows no OpenNDS.
  unfoldable pub test_connection : Result RouterError (Unit {0})
  test_connection = elim (ssh (codes "ndsctl status")) [
    | err e ↦ err failed
    | ok output ↦
        if contains output (codes "openNDS") || contains output (codes "Version")
        then ok tt
        else elim (ssh (codes "pgrep opennds || pgrep nodogsplash")) [
          | err e ↦ err not_running
          | ok found ↦ if is_empty found then err not_running else ok tt
        ]
  ]

  unfoldable pub get_client_status : Bytes → Result Bytes Bool
  get_client_status mac_address = elim (ssh (codes "ndsctl json")) [
    | err e ↦ err e
    | ok output ↦ ok (contains (to_lower output) (to_lower (normalize_mac_address mac_address)))
  ]

  -- The output is not read: the list is always empty.
  unfoldable pub list_authenticated_clients : Result Bytes (List Bytes)
  list_authenticated_clients = elim (ssh (codes "ndsctl json")) [
    | err e ↦ err e
    | ok output ↦ ok []
  ]
