-- ===== src/Guest.antt =====
-- internal/guest/wallet.go: the guests' wallets and their addresses. Strings are their bytes. `Keys` is
-- what is called of crypto/rand, blake2b, hex and ckb-sdk-go's system scripts.
pub mod Bech32
pub mod Bits
pub mod Address
pub mod Checksum
pub mod RoundTrip
mod Tests
use air_fi.Base.{
  ℕ, String, Bool, true, false, ◌&&◌, ◌==◌, Option, none, some, List, [], ◌∷◌, if◌then◌else◌,
  Result, ok, err,
}
use air_fi.Base.Bytes.{Bytes}
use air_fi.Base.Map.{Map, lookup, insert, erase}
use air_fi.Perun.Crypto.{take}
use air_fi.Guest.Address.{Script, Network, encode_address}

pub record Keys : Type 0 where
  pub blake160 : Bytes → Bytes
  pub encode_hex : Bytes → String
  -- Of the compressed public key of a private key.
  pub lock_script : Bytes → Option Script

pub record Wallet : Type 0 where
  pub id : String
  pub private_key : Bytes
  pub address : Bytes
  pub lock_script : Script

pub record WalletManager : Type 0 where
  pub wallets : Map Wallet
  pub network : Network

pub data WalletError : Type 0 where
  no_random_key no_lock_script : WalletError

unfoldable pub new_wallet_manager : Network → WalletManager
new_wallet_manager network = record { wallets = []; network = network }

unfoldable pub create_wallet_from_key :
    Keys → WalletManager → String → Bytes → Result WalletError Wallet
create_wallet_from_key keys wm id key = elim (keys.lock_script key) [
  | none ↦ err no_lock_script
  | some script ↦ ok (record {
    id = id;
    private_key = key;
    address = encode_address script wm.network;
    lock_script = script;
  })
]

-- The random key, where one could be read.
unfoldable pub generate_wallet :
    Keys → WalletManager → Option Bytes → WalletManager × Result WalletError Wallet
unfolding create_wallet_from_key
generate_wallet keys wm random = elim random [
  | none ↦ (wm, err no_random_key)
  | some key ↦
      let id = keys.encode_hex (take 8 (keys.blake160 key)) in
      elim (create_wallet_from_key keys wm id key) [
        | err e ↦ (wm, err e)
        | ok w ↦ (record wm { wallets = insert id w wm.wallets }, ok w)
      ]
]

unfoldable pub get_wallet : WalletManager → String → Option Wallet
get_wallet wm id = lookup id wm.wallets

abbrev pub same_bytes : Bytes → Bytes → Bool
same_bytes [] [] = true
same_bytes (x ∷ xs) (y ∷ ys) = (x == y) && same_bytes xs ys
same_bytes _ _ = false

abbrev pub find_address : Bytes → Map Wallet → Option Wallet
find_address address [] = none
find_address address ((key, w) ∷ rest) =
    if same_bytes w.address address then some w else find_address address rest

unfoldable pub get_wallet_by_address : WalletManager → Bytes → Option Wallet
get_wallet_by_address wm address = find_address address wm.wallets

unfoldable pub remove_wallet : WalletManager → String → WalletManager
remove_wallet wm id = record wm { wallets = erase id wm.wallets }

unfoldable pub get_private_key_hex : Keys → Wallet → String
get_private_key_hex keys w = keys.encode_hex w.private_key
