-- ===== src/Auth/Keys.antt =====
-- internal/auth/keys.go: the key pair that signs tokens, and its two PEM files. Keys, their encodings
-- and the system's answers are the standard library's, and so a parameter; the files are a map.
pub mod Stable
mod Tests
use air_fi.Base.{
  String, Bool, true, false, not, ◌≡◌, refl, sym, ap, ◌∙◌, ◌≢◌, inl, inr, Option, none, some, [],
  Result, ok, err, ◌>>=◌, ◌>>◌, fail_if, or_fail, str_eq, if◌then◌else◌, arith, Bool-cases,
  Option-cases, Result-cases,
}
use air_fi.Base.Bytes.{Bytes}
use air_fi.Base.Map.{Map, lookup, insert, lookup-insert_self, lookup-insert_ne}

pub record Host (Private Public : Type 0) : Type 0 where
  pub generate : Option Private
  pub public_of : Private → Public
  pub marshal_private : Private → Option Bytes
  pub marshal_public : Public → Option Bytes
  pub parse_private : Bytes → Option Private
  -- The inner `none` is a key of another family.
  pub parse_public : Bytes → Option (Option Public)
  pub pem_encode : String → Bytes → Bytes
  pub pem_decode : Bytes → Option (String × Bytes)
  -- The directory can be made, the file opened for writing, written, and read.
  pub can_make : String → Bool
  pub can_open : String → Bool
  pub can_write : String → Bool
  pub can_read : String → Bool

-- Documented: what is encoded decodes to itself.
pub record IsSound {Private Public : Type 0} (host : Host Private Public) : Type 0 where
  pub private_block :
      (b : Bytes)
      → host.pem_decode (host.pem_encode "EC PRIVATE KEY" b) ≡ some ("EC PRIVATE KEY", b)
  pub public_block :
      (b : Bytes) → host.pem_decode (host.pem_encode "PUBLIC KEY" b) ≡ some ("PUBLIC KEY", b)
  pub private :
      (k : Private) (b : Bytes) → host.marshal_private k ≡ some b → host.parse_private b ≡ some k
  pub public :
      (k : Public) (b : Bytes)
      → host.marshal_public k ≡ some b
      → host.parse_public b ≡ some (some k)

pub record KeyPair (Private Public : Type 0) : Type 0 where
  pub private_key : Private
  pub public_key : Public

pub data KeyError : Type 0 where
  no_randomness no_directory not_marshalled not_created not_written not_read no_pem_block
        unexpected_type not_parsed not_ecdsa :
      KeyError

abbrev pub Files : Type 0
Files = Map Bytes

module _ {Private Public : Type 0} (host : Host Private Public) where
  unfoldable pub generate_key_pair : Result KeyError (KeyPair Private Public)
  generate_key_pair = do
    k ← or_fail host.generate no_randomness
    ok (record { private_key = k; public_key = host.public_of k })

  -- The file is emptied as it is opened.
  unfoldable pub write_pem : Files → String → String → Bytes → Files × Result KeyError (Unit {0})
  write_pem files path kind bytes =
      if not (host.can_open path)
      then (files, err not_created)
      else if not (host.can_write path)
      then (insert path [] files, err not_written)
      else (insert path (host.pem_encode kind bytes) files, ok tt)

  unfoldable pub save_pem :
      Files → String → String → Option Bytes → Files × Result KeyError (Unit {0})
  unfolding write_pem
  save_pem files path kind marshalled =
      if not (host.can_make path) then (files, err no_directory) else elim marshalled [
        | none ↦ (files, err not_marshalled)
        | some bytes ↦ write_pem files path kind bytes
      ]

  unfoldable pub save_private_key :
      Files → KeyPair Private Public → String → Files × Result KeyError (Unit {0})
  unfolding save_pem
  save_private_key files kp path =
      save_pem files path "EC PRIVATE KEY" (host.marshal_private kp.private_key)

  unfoldable pub save_public_key :
      Files → KeyPair Private Public → String → Files × Result KeyError (Unit {0})
  unfolding save_pem
  save_public_key files kp path =
      save_pem files path "PUBLIC KEY" (host.marshal_public kp.public_key)

  unfoldable pub save_keys :
      Files → KeyPair Private Public → String → String → Files × Result KeyError (Unit {0})
  unfolding save_private_key save_public_key
  save_keys files kp private_path public_path =
      let saved = save_private_key files kp private_path in
      elim saved.1 [ err e ↦ (saved.0, err e) | ok u ↦ save_public_key saved.0 kp public_path ]

  unfoldable pub read_pem : Files → String → String → Result KeyError Bytes
  read_pem files path kind = do
    fail_if (not (host.can_read path)) not_read
    text ← or_fail (lookup path files) not_read
    block ← or_fail (host.pem_decode text) no_pem_block
    fail_if (not (str_eq block.0 kind)) unexpected_type
    ok block.1

  unfoldable pub load_private_key : Files → String → Result KeyError Private
  unfolding read_pem
  load_private_key files path = do
    bytes ← read_pem files path "EC PRIVATE KEY"
    or_fail (host.parse_private bytes) not_parsed

  unfoldable pub load_public_key : Files → String → Result KeyError Public
  unfolding read_pem
  load_public_key files path = do
    bytes ← read_pem files path "PUBLIC KEY"
    key ← or_fail (host.parse_public bytes) not_parsed
    or_fail key not_ecdsa

  unfoldable pub load_key_pair : Files → String → String → Result KeyError (KeyPair Private Public)
  unfolding load_private_key load_public_key
  load_key_pair files private_path public_path = do
    private ← load_private_key files private_path
    public ← load_public_key files public_path
    ok (record { private_key = private; public_key = public })

  unfoldable pub generate_and_save :
      Files → String → String → Files × Result KeyError (KeyPair Private Public)
  unfolding generate_key_pair save_keys
  generate_and_save files private_path public_path = elim generate_key_pair [
    | err e ↦ (files, err e)
    | ok kp ↦
        let saved = save_keys files kp private_path public_path in
        elim saved.1 [ err e ↦ (saved.0, err e) | ok u ↦ (saved.0, ok kp) ]
  ]

  -- Any failure to load has new keys made, which take the place of the old.
  unfoldable pub load_or_generate_key_pair :
      Files → String → String → Files × Result KeyError (KeyPair Private Public)
  unfolding load_key_pair generate_and_save
  load_or_generate_key_pair files private_path public_path =
      elim (load_key_pair files private_path public_path) [
        | ok kp ↦ (files, ok kp)
        | err e ↦ generate_and_save files private_path public_path
      ]
