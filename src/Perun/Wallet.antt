-- ===== src/Perun/Wallet.antt =====
-- internal/perun/client.go: the client's key, its address and lock script, its balance, and the
-- registry of assets. The libraries' functions on keys and hashes are parameters, and so is what a
-- server answers.
pub mod Addresses
mod Tests
use air_fi.Base.{
  ℕ, ◌+◌, ◌-◌, ◌*◌, ◌/◌, ◌<◌, String, Bool, true, false, ◌&&◌, ◌||◌, Option, none, some, List, [],
  ◌∷◌, ◌++◌, if◌then◌else◌, leb, ◌==◌, Result, ok, err, ◌>>=◌, ◌>>◌, fail_if, or_fail,
}
use air_fi.Base.Bytes.{Bytes, codes, set_bytes, hex_encode}
use air_fi.Base.Int.{ℤ, pos, neg_ℕ}
use air_fi.Base.Map.{Map, lookup, insert}
use air_fi.Perun.Config.{NetworkType, testnet, mainnet, devnet}
use air_fi.Perun.Bech32.{convert_bits, bech32m_encode}
use air_fi.Guest.Address.{Script, type_hash, data_hash, data1_hash, HashType, Network, main, test}

pub record Asset : Type 0 where
  pub id : String
  pub name : String
  pub symbol : String
  pub decimals : ℕ

-- What the SDK has for a key of its type, and for a network.
pub record KeyLib (Key : Type 0) : Type 0 where
  pub hex_to_key : Bytes → Option Key
  pub pub_key_hash : Key → Bytes
  pub code_hash : Network → Bytes

pub record Wallet (Key : Type 0) : Type 0 where
  pub network : NetworkType
  pub ckb_key : Option Key
  -- The scalar of the ECDSA key.
  pub private_key : Option ℕ
  pub address : Bytes
  pub lock_script : Option Script
  pub assets : Map Asset

pub data WalletError : Type 0 where
  bad_key bad_hex not_loaded wallet_not_loaded not_reached bad_status bad_answer not_supported
        asset_not_found :
      WalletError
  rpc_error : String → WalletError

abbrev pub hex_value : ℕ → Option ℕ
hex_value c =
    if leb b'0' c && leb c b'9'
    then some (c - b'0')
    else if leb b'a' c && leb c b'f'
    then some (c - b'a' + 10)
    else if leb b'A' c && leb c b'F'
    then some (c - b'A' + 10)
    else none

abbrev pub hex_pair : Option ℕ → Option ℕ → Option Bytes → Option Bytes
hex_pair (some a) (some b) (some more) = some ((a * 16 + b) ∷ more)
hex_pair _ _ _ = none

-- `hex.DecodeString`
unfoldable pub hex_decode : Bytes → Option Bytes
hex_decode [] = some []
hex_decode (h ∷ []) = none
hex_decode (h ∷ l ∷ rest) = hex_pair (hex_value h) (hex_value l) (hex_decode rest)

unfoldable pub strip_0x : Bytes → Bytes
strip_0x [] = []
strip_0x (a ∷ []) = a ∷ []
strip_0x (a ∷ b ∷ rest) = if a == b'0' && b == b'x' then rest else a ∷ b ∷ rest

abbrev pub sdk_network : NetworkType → Network
sdk_network mainnet = main
sdk_network _ = test

unfoldable pub encode_address : Script → Network → Bytes
encode_address script network =
    let payload = 0 ∷ (script.code_hash ++ 1 ∷ script.args) in
    let hrp : Bytes = elim network [ main ↦ codes "ckb" | test ↦ codes "ckt" ] in
    bech32m_encode hrp (convert_bits payload 8 5 true)

module _ {Key : Type 0} where
  abbrev pub lock_of : KeyLib Key → NetworkType → Key → Script
  lock_of lib network key = record {
    code_hash = lib.code_hash (sdk_network network);
    hash_type = type_hash;
    args = lib.pub_key_hash key;
  }

  -- The key stays where the second reading of its text fails.
  unfoldable pub load_private_key :
      KeyLib Key → Wallet Key → Bytes → Wallet Key × Result WalletError (Unit {0})
  unfolding strip_0x hex_decode encode_address
  load_private_key lib w hex_key = elim (lib.hex_to_key (strip_0x hex_key)) [
    | none ↦ (w, err bad_key)
    | some key ↦ elim (hex_decode (strip_0x hex_key)) [
      | none ↦ (record w { ckb_key = some key }, err bad_hex)
      | some bytes ↦
          let lock = lock_of lib w.network key in
          (
            record w {
              ckb_key = some key;
              private_key = some (set_bytes bytes);
              lock_script = some lock;
              address = encode_address lock (sdk_network w.network);
            },
            ok tt,
          )
    ]
  ]

  unfoldable register_asset : Wallet Key → Asset → Wallet Key
  register_asset w asset = record w { assets = insert asset.id asset w.assets }

  unfoldable get_asset : Wallet Key → String → Result WalletError Asset
  get_asset w id = or_fail (lookup id w.assets) asset_not_found

  -- Sending is a stub: it always fails.
  unfoldable send_ckb : Wallet Key → Bytes → ℤ → Result WalletError Bytes
  send_ckb w to_address amount = do key ← or_fail w.ckb_key not_loaded; err not_supported

-- What a server answers: nothing, or a status with a JSON object, which may not be one.
pub record Answer : Type 0 where
  pub result : Bytes
  pub error : Option String

pub data Reply : Type 0 where
  no_reply : Reply
  answered : ℕ → Option Answer → Reply

abbrev read_answer : Option Answer → Result WalletError Bytes
read_answer none = err bad_answer
read_answer (some a) = elim a.error [ some text ↦ err (rpc_error text) | none ↦ ok a.result ]

unfoldable verify_ckb_connection : Reply → Result WalletError Bytes
verify_ckb_connection no_reply = err not_reached
verify_ckb_connection (answered status answer) =
    if leb 400 status then err bad_status else read_answer answer

-- The script that is asked about, in hexadecimal.
pub record CellsQuery : Type 0 where
  pub code_hash : Bytes
  pub args : Bytes

unfoldable pub cells_query : Script → CellsQuery
cells_query s = record {
  code_hash = codes "0x" ++ hex_encode s.code_hash;
  args = codes "0x" ++ hex_encode s.args;
}

unfoldable pub hex_number : ℕ → Bytes → Option ℕ
hex_number acc [] = some acc
hex_number acc (c ∷ cs) = elim (hex_value c) [ none ↦ none | some d ↦ hex_number (acc * 16 + d) cs ]

abbrev hex_digits : Bytes → Option ℕ
hex_digits [] = none
hex_digits (c ∷ cs) = hex_number 0 (c ∷ cs)

abbrev signed : (ℕ → ℤ) → Option ℕ → Option ℤ
signed f none = none
signed f (some n) = some (f n)

-- `SetString(text, 16)`.
unfoldable pub set_hex : Bytes → Option ℤ
unfolding hex_number
set_hex [] = none
set_hex (c ∷ cs) =
    if c == b'-'
    then signed neg_ℕ (hex_digits cs)
    else if c == b'+'
    then signed pos (hex_digits cs)
    else signed pos (hex_digits (c ∷ cs))

-- The answer's status is not looked at. `unread` is the value that SetString leaves behind on a
-- text that is no number, which is not documented.
unfoldable pub get_balance :
    {Key : Type 0} → ℤ → (CellsQuery → Reply) → Wallet Key → Result WalletError ℤ
unfolding set_hex cells_query strip_0x
get_balance unread post w = do
  script ← or_fail w.lock_script wallet_not_loaded
  elim (post (cells_query script)) [
    | no_reply ↦ err not_reached
    | answered status answer ↦ (do
      capacity ← read_answer answer
      ok (elim (set_hex (strip_0x capacity)) [ none ↦ unread | some n ↦ n ]))
  ]

-- The bytes that are hashed by blake2b.
unfoldable script_bytes : Script → Bytes
script_bytes s =
    s.code_hash ++ (elim s.hash_type [ type_hash ↦ 1 | data_hash ↦ 0 | data1_hash ↦ 2 ] ∷ s.args)

unfoldable compute_script_hash : (Bytes → Bytes) → Script → Bytes
unfolding script_bytes
compute_script_hash blake256 s = blake256 (script_bytes s)
