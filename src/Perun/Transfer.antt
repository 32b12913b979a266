-- ===== src/Perun/Transfer.antt =====
-- internal/perun/transaction.go: sending CKB on the chain, and asking for a transaction's status. The
-- SDK's builder, signer and client are a parameter.
pub mod Sending
use air_fi.Base.{
  ℕ, ◌+◌, ◌*◌, ◌%◌, ◌^◌, ◌≡◌, refl, subst, ◌↔◌, arith, String, Bool, true, false, not, ◌||◌, Option,
  none, some, [], ◌∷◌, ◌++◌, if◌then◌else◌, ◌==◌, length, Result, ok, ◌>>=◌, ◌>>◌, fail_if, or_fail,
  >>=-ok, or_fail-ok, fail_if-ok,
}
use air_fi.Base.Bytes.{Bytes, codes, hex_encode}
use air_fi.Base.Int.{ℤ, pos, pos_part, ltb_ℤ, ltb_ℤ→ge, ◌≤ℤ◌}
use air_fi.Guest.Address.{Network, main, test}
use air_fi.Perun.Config.{NetworkType, testnet, mainnet, devnet}
use air_fi.Perun.Wallet.{Wallet, hex_value, strip_0x, sdk_network}

-- 61 CKB.
abbrev pub min_cell_capacity : ℕ
min_cell_capacity = 6_100_000_000

-- The output of a transfer, and where the change goes.
pub record Order : Type 0 where
  pub network : Network
  pub fee_rate : ℕ
  pub to_address : Bytes
  pub amount : ℕ
  pub change_address : Bytes

pub record Chain (Key Tx : Type 0) : Type 0 where
  pub dial : Bool
  pub has_cells : Bytes → Bool
  -- The address of the output is one.
  pub add_output : Bytes → Bool
  pub build : Order → Option Tx
  pub sign : Key → Tx → Option Tx
  pub send : Tx → Option Bytes
  -- The status of a transaction, if it has one.
  pub get_transaction : Bytes → Option (Option String)

pub data TransferError : Type 0 where
  key_not_loaded amount_too_small no_client no_cells bad_output not_built not_signed not_sent
        bad_hash not_found :
      TransferError

-- `amount.Uint64()`: the low 64 bits.
abbrev pub order_of : {Key : Type 0} → Wallet Key → Bytes → ℤ → Order
order_of w to_address amount = record {
  network = sdk_network w.network;
  fee_rate = 1000;
  to_address = to_address;
  amount = pos_part amount % 2 ^ 64;
  change_address = w.address;
}

pub record TransactionResult : Type 0 where
  pub tx_hash : Bytes
  pub status : String
  pub block_number : ℕ

abbrev is_blank : ℕ → Bool
is_blank c = c == 32 || c == 9 || c == 11 || c == 12 || c == 13

-- `Sscanf(text, "%02x", &b)` on two characters: the hexadecimal digits before any other character,
-- after blanks; 0 where there is none.
abbrev hex_byte : ℕ → ℕ → ℕ
hex_byte a b = elim (hex_value a) [
  | some x ↦ elim (hex_value b) [ some y ↦ x * 16 + y | none ↦ x ]
  | none ↦ if is_blank a then elim (hex_value b) [ some y ↦ y | none ↦ 0 ] else 0
]

unfoldable hash_bytes : Bytes → Bytes
hash_bytes [] = []
hash_bytes (a ∷ []) = []
hash_bytes (a ∷ b ∷ rest) = hex_byte a b ∷ hash_bytes rest

module _ {Key Tx : Type 0} (chain : Chain Key Tx) where
  unfoldable pub transfer : Wallet Key → Bytes → ℤ → Result TransferError Bytes
  transfer w to_address amount = do
    key ← or_fail w.ckb_key key_not_loaded
    fail_if (ltb_ℤ amount (pos min_cell_capacity)) amount_too_small
    fail_if (not chain.dial) no_client
    fail_if (not (chain.has_cells w.address)) no_cells
    fail_if (not (chain.add_output to_address)) bad_output
    tx ← or_fail (chain.build (order_of w to_address amount)) not_built
    signed ← or_fail (chain.sign key tx) not_signed
    hash ← or_fail (chain.send signed) not_sent
    ok (codes "0x" ++ hex_encode hash)

  -- A block number is not read.
  unfoldable get_transaction_status : Bytes → Result TransferError TransactionResult
  unfolding hash_bytes
  get_transaction_status tx_hash = do
    fail_if (not chain.dial) no_client
    let text = strip_0x tx_hash
    fail_if (not (length text == 64)) bad_hash
    found ← or_fail (chain.get_transaction (hash_bytes text)) not_found
    ok (record {
      tx_hash = codes "0x" ++ text;
      status = elim found [ none ↦ "" | some s ↦ s ];
      block_number = 0;
    })
