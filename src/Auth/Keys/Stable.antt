-- ===== src/Auth/Keys/Stable.antt =====
-- Key pairs of internal/auth/keys.go that are saved are loaded again.
use air_fi.Base.{
  String, true, ◌≡◌, refl, ap, ◌∙◌, ◌≢◌, inl, inr, Option, some, Result, ok, err, eq_refl,
  Bool-cases, Option-cases, Result-cases,
}
use air_fi.Base.Bytes.{Bytes}
use air_fi.Base.Map.{lookup, insert, lookup-insert_self, lookup-insert_ne}
use air_fi.Auth.Keys.{
  Host, IsSound, KeyPair, KeyError, Files, generate_key_pair, write_pem, save_pem, save_private_key,
  save_public_key, save_keys, read_pem, load_private_key, load_public_key, load_key_pair,
  generate_and_save, load_or_generate_key_pair,
}

module _ {Private Public : Type 0} (host : Host Private Public) where
  failed : {A : Type 0} {e : KeyError} {a : A} → ¬ (◌≡◌ {A = Result KeyError A} (err e) (ok a))
  failed e = cc

  ok_eq : {A : Type 0} {a b : A} → ◌≡◌ {A = Result KeyError A} (ok a) (ok b) → a ≡ b
  ok_eq e = cc

  save_pem-eq :
      (files : Files) (path kind : String) (m : Option Bytes)
      → (save_pem host files path kind m).1 ≡ ok tt
      → (b : Bytes) × (m ≡ some b)
        × ((save_pem host files path kind m).0 ≡ insert path (host.pem_encode kind b) files)
  unfolding save_pem write_pem
  save_pem-eq files path kind m e = elim (Bool-cases (host.can_make path)) [
    | inr no_dir ↦ absurd (failed (rw (save_pem, no_dir) at e))
    | inl made ↦ elim (Option-cases m) [
      | inl bad ↦ absurd (failed (rw (save_pem, made, bad) at e))
      | inr (b, good) ↦ elim (Bool-cases (host.can_open path)) [
        | inr shut ↦ absurd (failed (rw (save_pem, made, good, shut) at e))
        | inl open_file ↦ elim (Bool-cases (host.can_write path)) [
          | inr full ↦ absurd (failed (rw (save_pem, made, good, open_file, full) at e))
          | inl written ↦ (b, good, rw (save_pem, made, good, open_file, written) refl)
        ]
      ]
    ]
  ]

  read_pem-pem :
      (files : Files) (path kind : String) (b : Bytes)
      → host.pem_decode (host.pem_encode kind b) ≡ some (kind, b)
      → host.can_read path ≡ true
      → lookup path files ≡ some (host.pem_encode kind b)
      → read_pem host files path kind ≡ ok b
  unfolding read_pem
  read_pem-pem files path kind b block readable here =
      rw (read_pem, readable, here, block, eq_refl kind) refl

  saved_private :
      (files : Files) (path : String) (b : Bytes) (k : Private)
      → IsSound host
      → host.can_read path ≡ true
      → host.marshal_private k ≡ some b
      → lookup path files ≡ some (host.pem_encode "EC PRIVATE KEY" b)
      → load_private_key host files path ≡ ok k
  unfolding load_private_key
  saved_private files path b k s readable marshalled here =
      rw
        (
          load_private_key,
          read_pem-pem files path "EC PRIVATE KEY" b (s.private_block b) readable here,
          s.private k b marshalled,
        )
        refl

  saved_public :
      (files : Files) (path : String) (b : Bytes) (k : Public)
      → IsSound host
      → host.can_read path ≡ true
      → host.marshal_public k ≡ some b
      → lookup path files ≡ some (host.pem_encode "PUBLIC KEY" b)
      → load_public_key host files path ≡ ok k
  unfolding load_public_key
  saved_public files path b k s readable marshalled here =
      rw
        (
          load_public_key,
          read_pem-pem files path "PUBLIC KEY" b (s.public_block b) readable here,
          s.public k b marshalled,
        )
        refl

  module _ (s : IsSound host) (private_path public_path : String)
      (apart : private_path ≢ public_path) (reads_private : host.can_read private_path ≡ true)
      (reads_public : host.can_read public_path ≡ true) where
    load_key_pair-save_keys :
        (files : Files) (kp : KeyPair Private Public)
        → (save_keys host files kp private_path public_path).1 ≡ ok tt
        → load_key_pair host
            (save_keys host files kp private_path public_path).0
            private_path
            public_path
          ≡ ok kp
    unfolding save_keys load_key_pair save_private_key save_public_key
    load_key_pair-save_keys files kp e =
        elim (Result-cases (save_private_key host files kp private_path).1) [
          | inl (x, bad) ↦ absurd (failed (rw (save_keys, bad) at e))
          | inr (u, good) ↦
              let saved = save_private_key host files kp private_path in
              let (b, marshalled, wrote) =
                save_pem-eq files private_path "EC PRIVATE KEY"
                  (host.marshal_private kp.private_key) good in
              let (b', marshalled', wrote') =
                save_pem-eq saved.0 public_path "PUBLIC KEY" (host.marshal_public kp.public_key)
                  (rw (save_keys, good) at e) in
              let q = host.pem_encode "EC PRIVATE KEY" b in
              let p = host.pem_encode "PUBLIC KEY" b' in
              let after = (save_keys host files kp private_path public_path).0 in
              let both : after ≡ insert public_path p (insert private_path q files) =
                rw (save_keys, good) (wrote' ∙ ap (insert public_path p) wrote) in
              let has_public : lookup public_path after ≡ some p =
                ap (lookup public_path) both
                ∙ lookup-insert_self public_path p (insert private_path q files) in
              let has_private : lookup private_path after ≡ some q =
                ap (lookup private_path) both
                ∙ lookup-insert_ne public_path private_path p (insert private_path q files) apart
                ∙ lookup-insert_self private_path q files in
              rw
                (
                  load_key_pair,
                  saved_private after private_path b kp.private_key s reads_private marshalled
                      has_private,
                  saved_public after public_path b' kp.public_key s reads_public marshalled'
                      has_public,
                )
                refl
        ]

    -- Where the key pair has been loaded, or generated and saved, the next call loads the same pair and
    -- writes nothing.
    pub load_or_generate_again :
        (files : Files) (kp : KeyPair Private Public)
        → (load_or_generate_key_pair host files private_path public_path).1 ≡ ok kp
        → let after = (load_or_generate_key_pair host files private_path public_path).0 in
          load_or_generate_key_pair host after private_path public_path ≡ (after, ok kp)
    unfolding load_or_generate_key_pair generate_and_save
    load_or_generate_again files kp e =
        elim (Result-cases (load_key_pair host files private_path public_path)) [
          | inr (kp0, loaded) ↦
              let same : kp0 ≡ kp = ok_eq (rw (load_or_generate_key_pair, loaded) at e) in
              let first : load_or_generate_key_pair host files private_path public_path
                  ≡ (files, ok kp0) =
                rw (load_or_generate_key_pair, loaded) refl in
              rw first (first ∙ ap (λ k. (files, ok k)) same)
          | inl (x, missing) ↦ elim (Result-cases (generate_key_pair host)) [
            | inl (y, none_made) ↦ absurd (
                failed (rw (load_or_generate_key_pair, missing, generate_and_save, none_made) at e))
            | inr (kp0, made) ↦
                elim (Result-cases (save_keys host files kp0 private_path public_path).1) [
                  | inl (y, unsaved) ↦ absurd (
                      failed (
                        rw (load_or_generate_key_pair, missing, generate_and_save, made, unsaved) at
                          e))
                  | inr (u, saved) ↦
                      let same : kp0 ≡ kp = ok_eq (
                        rw (load_or_generate_key_pair, missing, generate_and_save, made, saved) at
                          e) in
                      let after = (save_keys host files kp0 private_path public_path).0 in
                      let first : load_or_generate_key_pair host files private_path public_path
                          ≡ (after, ok kp0) =
                        rw (load_or_generate_key_pair, missing, generate_and_save, made, saved)
                          refl in
                      let again : load_or_generate_key_pair host after private_path public_path
                          ≡ (after, ok kp0) =
                        rw (load_or_generate_key_pair, load_key_pair-save_keys files kp0 saved)
                          refl in
                      rw first (again ∙ ap (λ k. (after, ok k)) same)
                ]
          ]
        ]
