-- ===== src/Perun/Wallet/Tests.antt =====
-- A concrete key of internal/perun/client.go.
use air_fi.Base.{ℕ, ◌≡◌, refl, some, none, [], ok, length, replicate, arith}
use air_fi.Base.Bytes.{codes}
use air_fi.Base.Int.{pos}
use air_fi.Guest.Address.{
  Script, type_hash, test, decode_address, encode_address as encode_guest_address,
}
use air_fi.Perun.Config.{mainnet}
use air_fi.Perun.Wallet.{
  KeyLib, Wallet, answered, strip_0x, hex_decode, set_hex, hex_number, get_balance, cells_query,
  lock_of, encode_address, load_private_key,
}
use air_fi.Perun.Wallet.Addresses.{GivesBytes, load_private_key_address, encode_address_same}

abbrev lib : KeyLib ℕ
lib = record {
  hex_to_key = λ text. some (length text);
  pub_key_hash = λ key. replicate 20 17;
  code_hash = λ network. replicate 32 171;
}

lib_bytes : GivesBytes lib
lib_bytes = record {
  whole = λ n. refl;
  code_bytes = λ n. omega arith;
  key_bytes = λ k. omega arith;
}

abbrev wallet : Wallet ℕ
wallet = record {
  network = mainnet;
  ckb_key = none;
  private_key = none;
  address = [];
  lock_script = none;
  assets = [];
}

loaded : (load_private_key lib wallet (codes "0x0aF1")).1 ≡ ok tt
unfolding load_private_key strip_0x hex_decode
loaded = refl

load_private_key_address_example :
    let w' = (load_private_key lib wallet (codes "0x0aF1")).0 in
    (key : ℕ) × (lib.hex_to_key (strip_0x (codes "0x0aF1")) ≡ some key)
    × (w'.ckb_key ≡ some key)
    × (w'.lock_script ≡ some (lock_of lib mainnet key))
    × (decode_address w'.address ≡ ok (lock_of lib mainnet key))
load_private_key_address_example =
    load_private_key_address lib wallet (codes "0x0aF1") lib_bytes loaded

abbrev lock : Script
lock = record { code_hash = replicate 32 171; hash_type = type_hash; args = replicate 20 17 }

encode_address_same_example : encode_address lock test ≡ encode_guest_address lock test
encode_address_same_example = encode_address_same lock test

-- 0x174876e800 shannons are 1000 CKB.
balance :
    get_balance
      (pos 0)
      (λ q. answered 200 (some (record { result = codes "0x174876e800"; error = none })))
      (record wallet { lock_script = some lock })
    ≡ ok (pos 100_000_000_000)
unfolding get_balance strip_0x set_hex hex_number cells_query
balance = refl
