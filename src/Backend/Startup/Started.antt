-- ===== src/Backend/Startup/Started.antt =====
-- What stands when the main function of cmd/backend has put the server together.
use air_fi.Base.Bytes.{Bytes}
use air_fi.Base.{
  ℕ, ◌≤◌, ◌≡◌, refl, sym, ap, ◌∙◌, subst, ◌≢◌, inl, inr, String, true, false, Option, [], Result,
  ok, err, Bool-cases, Option-cases, Result-cases, str_eq, eq_iff, arith,
}
use air_fi.Base.Int.{ℤ, pos, ◌<ℤ◌, non_positive}
use air_fi.Auth.Keys.{IsSound, KeyPair, Files, load_or_generate_key_pair}
use air_fi.Auth.Keys.Stable.{load_or_generate_again}
use air_fi.Backend.{new_server, per_minute}
use air_fi.Backend.Startup.{
  Machine, StartupError, App, app_of, server_of, password_of, open_server, load_keys, prepare_cells,
  read_address, start_up, host_key_bytes, config_path, initialize_router,
}
use air_fi.Config.{Config, load}
use air_fi.Db.{Db, get_rate_per_hour}
use air_fi.Guest.Address.{Script, decode_address}
use air_fi.Perun.Cells.{count_cells, ensure_minimum_cells}
use air_fi.Perun.Cells.Preparation.{Grows, ensure_minimum_cells-Ends}
use air_fi.Router.{OpenWrtConfig}

module _ {Private Public W : Type 0} (m : Machine Private Public W) where
  failed :
      {e : StartupError} {app : App Private Public}
      → ¬ (◌≡◌ {A = Result StartupError (App Private Public)} (err e) (ok app))
  failed e = cc

  same_app :
      {a b : App Private Public}
      → ◌≡◌ {A = Result StartupError (App Private Public)} (ok a) (ok b)
      → a ≡ b
  same_app e = cc

  open_server-ok :
      (cfg : Config) (key : ℕ) (lock : Script) (pair : KeyPair Private Public)
      (app : App Private Public)
      → open_server m cfg key lock pair ≡ ok app
      → (db : Db) × (router : Option OpenWrtConfig) × (app_of m cfg key lock pair db router ≡ app)
  unfolding open_server
  open_server-ok cfg key lock pair app e = elim (Option-cases (m.open_db cfg.database_path)) [
    | inl none_there ↦ absurd (failed (rw (open_server, none_there) at e))
    | inr (db, there) ↦ elim (Result-cases (initialize_router m.parses cfg.openwrt)) [
      | inl (x, bad) ↦ absurd (failed (rw (open_server, there, bad) at e))
      | inr (router, good) ↦ (db, router, same_app (rw (open_server, there, good) at e))
    ]
  ]

  -- The server, the keys and the cells that a start leaves.
  pub record Started (files : Files) (w : W) (app : App Private Public) : Type 0 where
    pub idle : app.server.sessions ≡ []
    pub funds : pos 0 <ℤ app.server.channel_setup_ckb
    pub priced : app.server.rate_per_min ≡ per_minute (get_rate_per_hour app.db)
    pub locked : app.server.dashboard_password ≢ ""
    pub prepared : (n : ℕ) × (count_cells m.node w app.host_lock ≡ ok n) × (3 ≤ n)
    pub same_keys :
        load_or_generate_key_pair m.keys files app.config.auth.private_key_path
          app.config.auth.public_key_path
        ≡ (files, ok app.key_pair)

  -- The two key files are two, and can be read.
  pub record HasKeyFiles (cfg : Config) : Type 0 where
    pub apart : cfg.auth.private_key_path ≢ cfg.auth.public_key_path
    pub reads_private : m.keys.can_read cfg.auth.private_key_path ≡ true
    pub reads_public : m.keys.can_read cfg.auth.public_key_path ≡ true

  not_blank : (text : String) → str_eq text "" ≡ false → text ≢ ""
  not_blank text e same = ground (arith, eq_iff text "")

  password_of_locked : (cfg : Config) → password_of cfg ≢ ""
  unfolding password_of
  password_of_locked cfg = elim (Bool-cases (str_eq cfg.server.dashboard_password "")) [
    | inl blank ↦ rw (password_of, blank) (not_blank "airfi2025" refl)
    | inr set ↦ rw (password_of, set) (not_blank cfg.server.dashboard_password set)
  ]

  new_server_funds :
      (db : Db) (rate setup : ℤ) (password : String)
      → pos 0 <ℤ (new_server db rate setup password).channel_setup_ckb
  unfolding new_server
  new_server_funds db rate setup password = elim (Bool-cases (non_positive setup)) [
    | inl none_set ↦ rw (new_server, none_set) (omega arith)
    | inr set ↦ rw (new_server, set) (positive setup set)
  ]
    where
      positive : (n : ℤ) → non_positive n ≡ false → pos 0 <ℤ n
      positive n e = ground arith

  server_of_new :
      (cfg : Config) (db : Db)
      → ((server_of m cfg db).sessions ≡ [])
        × ((server_of m cfg db).rate_per_min ≡ per_minute (get_rate_per_hour db))
        × ((server_of m cfg db).dashboard_password ≢ "")
  unfolding new_server
  server_of_new cfg db = (refl, refl, password_of_locked cfg)

  load_keys-Started :
      (cfg : Config) (key : ℕ) (lock : Script) (files : Files) (w : W) (app : App Private Public)
      → IsSound m.keys
      → HasKeyFiles cfg
      → (n : ℕ) × (count_cells m.node w lock ≡ ok n) × (3 ≤ n)
      → (load_keys m cfg key lock files w).2 ≡ ok app
      → Started (load_keys m cfg key lock files w).0 (load_keys m cfg key lock files w).1 app
  unfolding load_keys
  load_keys-Started cfg key lock files w app s has cells e =
      let private_path = cfg.auth.private_key_path in
      let public_path = cfg.auth.public_key_path in
      let r = load_or_generate_key_pair m.keys files private_path public_path in
      elim (Result-cases r.1) [
        | inl (x, bad) ↦ absurd (failed (rw (load_keys, bad) at e))
        | inr (pair, good) ↦
            let (db, router, same) =
              open_server-ok cfg key lock pair app (rw (load_keys, good) at e) in
            let again =
              load_or_generate_again m.keys s private_path public_path has.apart has.reads_private
                has.reads_public files pair good in
            rw (load_keys, good)
              (subst (Started r.0 w) same (record {
                idle = (server_of_new cfg db).0;
                funds =
                    new_server_funds db (get_rate_per_hour db) cfg.perun.channel_setup_ckb
                      (password_of cfg);
                priced = (server_of_new cfg db).1;
                locked = (server_of_new cfg db).2;
                prepared = cells;
                same_keys = again;
              }))
      ]

  load_keys_config :
      (cfg : Config) (key : ℕ) (lock : Script) (files : Files) (w : W) (app : App Private Public)
      → (load_keys m cfg key lock files w).2 ≡ ok app
      → cfg ≡ app.config
  unfolding load_keys
  load_keys_config cfg key lock files w app e =
      elim (Result-cases
        (load_or_generate_key_pair m.keys files cfg.auth.private_key_path
          cfg.auth.public_key_path).1) [
            | inl (x, bad) ↦ absurd (failed (rw (load_keys, bad) at e))
            | inr (pair, good) ↦
                let (db, router, same) =
                  open_server-ok cfg key lock pair app (rw (load_keys, good) at e) in
                ap (λ a. a.config) same
          ]

  prepare_cells_config :
      (cfg : Config) (key : ℕ) (lock : Script) (files : Files) (w : W) (app : App Private Public)
      → Grows m.node key lock
      → (prepare_cells m cfg key lock files w).2 ≡ ok app
      → cfg ≡ app.config
  unfolding prepare_cells
  prepare_cells_config cfg key lock files w app grows e =
      elim (ensure_minimum_cells-Ends m.node key lock 3 w grows (omega arith)) [
        | inl (x, bad) ↦ absurd (failed (rw (prepare_cells, bad) at e))
        | inr (done, n, counted, enough) ↦
            load_keys_config cfg key lock files (ensure_minimum_cells m.node 3 w key lock 3).0 app
              (rw (prepare_cells, done) at e)
      ]

  prepare_cells-Started :
      (cfg : Config) (key : ℕ) (lock : Script) (files : Files) (w : W) (app : App Private Public)
      → IsSound m.keys
      → HasKeyFiles cfg
      → Grows m.node key lock
      → (prepare_cells m cfg key lock files w).2 ≡ ok app
      → Started
          (prepare_cells m cfg key lock files w).0
          (prepare_cells m cfg key lock files w).1
          app
  unfolding prepare_cells
  prepare_cells-Started cfg key lock files w app s has grows e =
      elim (ensure_minimum_cells-Ends m.node key lock 3 w grows (omega arith)) [
        | inl (x, bad) ↦ absurd (failed (rw (prepare_cells, bad) at e))
        | inr (done, n, counted, enough) ↦
            rw (prepare_cells, done)
              (load_keys-Started cfg key lock files (ensure_minimum_cells m.node 3 w key lock 3).0
                app s has (n, counted, enough) (rw (prepare_cells, done) at e))
      ]

  read_address-Started :
      (cfg : Config) (key : ℕ) (address : Bytes) (files : Files) (w : W) (app : App Private Public)
      → IsSound m.keys
      → HasKeyFiles app.config
      → ((lock : Script) → Grows m.node key lock)
      → (read_address m cfg key address files w).2 ≡ ok app
      → Started
          (read_address m cfg key address files w).0
          (read_address m cfg key address files w).1
          app
  unfolding read_address
  read_address-Started cfg key address files w app s has grows e =
      elim (Option-cases (m.get_balance key)) [
        | inl unknown ↦ absurd (failed (rw (read_address, unknown) at e))
        | inr (balance, known) ↦ elim (Result-cases (decode_address address)) [
          | inl (x, bad) ↦ absurd (failed (rw (read_address, known, bad) at e))
          | inr (lock, decoded) ↦
              let same : read_address m cfg key address files w
                  ≡ prepare_cells m cfg key lock files w =
                rw (read_address, known, decoded) refl in
              let e' : (prepare_cells m cfg key lock files w).2 ≡ ok app =
                ap (λ o. o.2) (sym same) ∙ e in
              let of_config = prepare_cells_config cfg key lock files w app (grows lock) e' in
              subst (λ o. Started o.0 o.1 app) (sym same)
                (prepare_cells-Started cfg key lock files w app s
                  (subst HasKeyFiles (sym of_config) has) (grows lock) e')
        ]
      ]

  -- A start that succeeds, with two key files of different paths that can be read, leaves a server
  -- with no sessions, a positive amount set aside for a channel, the database's rate whatever the
  -- configuration says, and a password; at least three cells in the host's wallet, where a committed
  -- split adds one; and key files of which the next start loads the same pair, as what is encoded
  -- decodes to itself, so that the tokens that were handed out stay signed by its key.
  pub start_up-Started :
      (files : Files) (w : W) (app : App Private Public)
      → IsSound m.keys
      → HasKeyFiles app.config
      → ((key : ℕ) (lock : Script) → Grows m.node key lock)
      → (start_up m files w).2 ≡ ok app
      → Started (start_up m files w).0 (start_up m files w).1 app
  unfolding start_up
  start_up-Started files w app s has grows e =
      elim (Result-cases (load m.yaml m.env (m.read_config (config_path m.env)))) [
        | inl (x, bad) ↦ absurd (failed (rw (start_up, bad) at e))
        | inr (cfg, good) ↦
            let key = m.priv_key_from_bytes (host_key_bytes cfg) in
            elim (Option-cases (m.new_channel_client key)) [
              | inl no_client ↦ absurd (failed (rw (start_up, good, no_client) at e))
              | inr (address, client) ↦ elim (Bool-cases m.dial) [
                | inr no_rpc ↦ absurd (failed (rw (start_up, good, client, no_rpc) at e))
                | inl rpc ↦
                    let same : start_up m files w ≡ read_address m cfg key address files w =
                      rw (start_up, good, client, rpc) refl in
                    subst (λ o. Started o.0 o.1 app) (sym same)
                      (read_address-Started cfg key address files w app s has (grows key)
                        (ap (λ o. o.2) (sym same) ∙ e))
              ]
            ]
      ]
