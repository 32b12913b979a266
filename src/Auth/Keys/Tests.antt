-- ===== src/Auth/Keys/Tests.antt =====
-- Concrete keys and files of internal/auth/keys.go: keys are numbers, and a file is its text.
use air_fi.Base.{
  ℕ, ◌+◌, String, if◌then◌else◌, sym, ap, str_eq, true, ◌≡◌, refl, ◌≢◌, eq_iff, Option, some, none,
  [], ◌∷◌, ok, arith,
}
use air_fi.Base.Bytes.{Bytes}
use air_fi.Base.Map.{lookup}
use air_fi.Auth.Keys.{
  Host, IsSound, KeyPair, generate_key_pair, load_key_pair, load_private_key, read_pem, save_keys,
  save_private_key, save_public_key, save_pem, write_pem, generate_and_save,
  load_or_generate_key_pair,
}

abbrev kind_of : ℕ → String
kind_of ℕ.zero = "EC PRIVATE KEY"
kind_of _ = "PUBLIC KEY"

abbrev decode : Bytes → Option (String × Bytes)
decode [] = none
decode (k ∷ bs) = some (kind_of k, bs)

abbrev encode : String → Bytes → Bytes
encode kind bs = (if str_eq kind "EC PRIVATE KEY" then 0 else 1) ∷ bs

abbrev parse : Bytes → Option ℕ
parse [] = none
parse (k ∷ bs) = some k

abbrev host : Host ℕ ℕ
host = record {
  generate = some 5;
  public_of = λ k. k + 1;
  marshal_private = λ k. some (k ∷ []);
  marshal_public = λ k. some (k ∷ []);
  parse_private = parse;
  parse_public = λ b. some (parse b);
  pem_encode = encode;
  pem_decode = decode;
  can_make = λ p. true;
  can_open = λ p. true;
  can_write = λ p. true;
  can_read = λ p. true;
}

some_list : {a b : Bytes} → some a ≡ some b → a ≡ b
some_list e = cc

first_same : (k : ℕ) (b : Bytes) → some (k ∷ []) ≡ some b → parse b ≡ some k
first_same k b e = sym (ap parse (some_list e))

host-IsSound : IsSound host
host-IsSound = record {
  private_block = λ b. refl;
  public_block = λ b. refl;
  private = first_same;
  public = λ k b e. ap some (first_same k b e);
}

apart : ◌≢◌ {A = String} "private.pem" "public.pem"
apart e = ground (arith, eq_iff "private.pem" "public.pem")

abbrev pair : KeyPair ℕ ℕ
pair = record { private_key = 5; public_key = 6 }

generated : (load_or_generate_key_pair host [] "private.pem" "public.pem").1 ≡ ok pair
unfolding load_or_generate_key_pair load_key_pair load_private_key read_pem lookup generate_and_save
    generate_key_pair save_keys save_private_key save_public_key save_pem write_pem
generated = refl
