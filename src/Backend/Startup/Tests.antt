-- ===== src/Backend/Startup/Tests.antt =====
-- A start of cmd/backend without a configuration file, with no keys and three cells.
use air_fi.Base.{
  ℕ, suc, ◌+◌, ◌≡◌, refl, sym, ap, String, str_eq, true, if◌then◌else◌, eq_iff, Option, some, none,
  [], ◌∷◌, ok, replicate, length, arith,
}
use air_fi.Base.Bytes.{Bytes}
use air_fi.Base.Int.{pos}
use air_fi.Base.Map.{lookup, insert}
use air_fi.Auth.Keys.{
  Host, IsSound, load_or_generate_key_pair, load_key_pair, load_private_key, read_pem,
  generate_and_save, generate_key_pair, save_keys, save_private_key, save_public_key, save_pem,
  write_pem,
}
use air_fi.Backend.Startup.{
  Machine, App, host_key_bytes, app_of, start_up, prepare_cells, load_keys, open_server,
  initialize_router, read_address,
}
use air_fi.Backend.Startup.Started.{Started, HasKeyFiles, start_up-Started}
use air_fi.Config.{missing, default_config, load}
use air_fi.Db.{open_new}
use air_fi.Guest.Address.{Script, type_hash, test, encode_address, decode_address}
use air_fi.Guest.RoundTrip.{decode_address-encode_address}
use air_fi.Perun.Cells.{
  Node, OutPoint, LiveCell, plain_output, committed, count_cells, split_cell, submit,
  ensure_minimum_cells, pure_cells,
}
use air_fi.Perun.Cells.Preparation.{Grows}

abbrev lock : Script
lock = record { code_hash = replicate 32 171; hash_type = type_hash; args = replicate 20 205 }

abbrev place : OutPoint
place = record { tx_hash = []; index = 0 }

abbrev cell : LiveCell Script
cell = record { output = plain_output 20_000_000_000 lock; out_point = place }

-- The chain's state is the number of the wallet's cells.
abbrev chain : Node Script ℕ
chain = record {
  get_cells = λ w lock. some (replicate w cell);
  compute_hash = λ tx. [];
  blake256 = λ b. b;
  sign_compact = λ key b. replicate 65 27;
  serialize_witness = λ b. b;
  send_transaction = λ w tx. (suc w, some []);
  ticks = λ w h. (w, committed ∷ []);
  secp256k1_cell_dep = place;
}

all_pure : (n : ℕ) → length (pure_cells (replicate n cell)) ≡ n
unfolding pure_cells
all_pure ℕ.zero = refl
all_pure (suc n) = omega (arith, all_pure n)

counted : (l : Script) (w n : ℕ) → count_cells chain w l ≡ ok n → n ≡ w
unfolding count_cells
counted l w n e = ground (arith, all_pure w)

split_adds :
    (key : ℕ) (l : Script) (w : ℕ) (tx_hash : Bytes)
    → (split_cell chain w key l).1 ≡ ok tx_hash
    → (split_cell chain w key l).0 ≡ suc w
unfolding split_cell submit
split_adds key l w tx_hash e = ground arith

chain-Grows : (key : ℕ) (l : Script) → Grows chain key l
chain-Grows key l w n n' tx_hash few before split after = omega (
  arith,
  counted l w n before,
  counted l (split_cell chain w key l).0 n' after,
  split_adds key l w tx_hash split,
)

-- Keys are numbers, and a file is its text behind a number for its kind.
abbrev kind_of : ℕ → String
kind_of ℕ.zero = "EC PRIVATE KEY"
kind_of _ = "PUBLIC KEY"

abbrev decode : Bytes → Option (String × Bytes)
decode [] = none
decode (k ∷ bs) = some (kind_of k, bs)

abbrev parse : Bytes → Option ℕ
parse [] = none
parse (k ∷ bs) = some k

abbrev keys : Host ℕ ℕ
keys = record {
  generate = some 5;
  public_of = λ k. k + 1;
  marshal_private = λ k. some (k ∷ []);
  marshal_public = λ k. some (k ∷ []);
  parse_private = parse;
  parse_public = λ b. some (parse b);
  pem_encode = λ kind bs. (if str_eq kind "EC PRIVATE KEY" then 0 else 1) ∷ bs;
  pem_decode = decode;
  can_make = λ p. true;
  can_open = λ p. true;
  can_write = λ p. true;
  can_read = λ p. true;
}

some_bytes : {a b : Bytes} → some a ≡ some b → a ≡ b
some_bytes e = cc

parsed : (k : ℕ) (b : Bytes) → some (k ∷ []) ≡ some b → parse b ≡ some k
parsed k b e = sym (ap parse (some_bytes e))

keys-IsSound : IsSound keys
keys-IsSound = record {
  private_block = λ b. refl;
  public_block = λ b. refl;
  private = parsed;
  public = λ k b e. ap some (parsed k b e);
}

abbrev machine : Machine ℕ ℕ ℕ
machine = record {
  env = λ name. "";
  read_config = λ path. missing;
  yaml = λ cfg text. none;
  priv_key_from_bytes = length;
  new_channel_client = λ key. some (encode_address lock test);
  dial = true;
  get_balance = λ key. some (pos 0);
  node = chain;
  keys = keys;
  open_db = λ path. some open_new;
  parses = λ text. true;
}

decoded : decode_address (encode_address lock test) ≡ ok lock
decoded = decode_address-encode_address lock test refl (omega arith) (omega arith)

abbrev app : ℕ → App ℕ ℕ
app key =
    app_of machine default_config key lock (record { private_key = 5; public_key = 6 }) open_new
      none

key_length : length (host_key_bytes default_config) ≡ 32
unfolding host_key_bytes default_config
key_length = refl

prepared : (prepare_cells machine default_config 32 lock [] 3).2 ≡ ok (app 32)
unfolding prepare_cells ensure_minimum_cells count_cells pure_cells load_keys
    load_or_generate_key_pair load_key_pair load_private_key read_pem lookup generate_and_save
    generate_key_pair save_keys save_private_key save_public_key save_pem write_pem insert
    open_server initialize_router default_config
prepared = refl

started : (start_up machine [] 3).2 ≡ ok (app 32)
unfolding start_up load read_address
started = rw (key_length, read_address, decoded) prepared

has_key_files : HasKeyFiles machine default_config
unfolding default_config
has_key_files = record {
  apart = λ e. ground (arith, eq_iff "./keys/private.pem" "./keys/public.pem");
  reads_private = refl;
  reads_public = refl;
}

start_up-Started_example :
    Started machine (start_up machine [] 3).0 (start_up machine [] 3).1 (app 32)
start_up-Started_example =
    start_up-Started machine [] 3 (app 32) keys-IsSound has_key_files chain-Grows started
