-- ===== src/Config/Loaded.antt =====
-- internal/config/config.go: what Load gives, against the environment and the file.
use air_fi.Base.{
  ◌≡◌, refl, sym, ap, ◌∙◌, subst, ◌≢◌, ◌⊎◌, inl, inr, String, true, false, Option, none, some,
  if◌then◌else◌, str_eq, eq_iff, ok, err, arith, Bool-cases, Option-cases,
}
use air_fi.Base.Bytes.{Bytes, codes}
use air_fi.Base.Int.{ℤ, pos, ltb_ℤ, ◌<ℤ◌, ◌≤ℤ◌, ltb_ℤ→lt, ltb_ℤ→ge}
use air_fi.Base.Scan.{scan_i64}
use air_fi.Config.{
  not_read, not_parsed, unreadable, missing, Config, File, text, text_or, scanned, number_or,
  default_config, apply_env_overrides, load,
}

-- A number that the server can work with.
pub record IsUsable (c : Config) : Type 0 where
  pub listens : pos 0 <ℤ c.server.port
  pub funds : pos 0 <ℤ c.perun.channel_setup_ckb

number_or_positive : (v : String) (old : ℤ) → pos 0 <ℤ old → pos 0 <ℤ number_or v old
number_or_positive v old h = elim (Bool-cases (str_eq v "")) [
  | inl unset ↦ rw unset h
  | inr set ↦ elim (Bool-cases (ltb_ℤ (pos 0) (scanned v))) [
    | inl positive ↦ rw (set, positive) (ltb_ℤ→lt (pos 0) (scanned v) positive)
    | inr other ↦ rw (set, other) h
  ]
]

apply_env_overrides-IsUsable :
    (env : String → String) (c : Config) → IsUsable c → IsUsable (apply_env_overrides env c)
unfolding apply_env_overrides
apply_env_overrides-IsUsable env c u = record {
  listens = number_or_positive (env "PORT") c.server.port u.listens;
  funds = number_or_positive (env "CHANNEL_SETUP_CKB") c.perun.channel_setup_ckb u.funds;
}

default_config-IsUsable : IsUsable default_config
unfolding default_config
default_config-IsUsable = record { listens = omega arith; funds = omega arith }

-- What a numeric variable does: the number that it starts with where that is positive, and nothing
-- otherwise.
pub record Overrides (v : String) (old new : ℤ) : Type 0 where
  pub taken : (n : ℤ) → scan_i64 (codes v) ≡ some n → pos 0 <ℤ n → new ≡ n
  pub passed_over : ((n : ℤ) → scan_i64 (codes v) ≡ some n → n ≤ℤ pos 0) → new ≡ old

-- What a textual variable does: it replaces the old text where it is set.
pub record Replaces (v old new : String) : Type 0 where
  pub set : v ≢ "" → new ≡ v
  pub unset : v ≡ "" → new ≡ old

-- The configuration that the file and the environment give.
pub record Configured (env : String → String) (d c : Config) : Type 0 where
  pub port : Overrides (env "PORT") d.server.port c.server.port
  pub setup :
      Overrides (env "CHANNEL_SETUP_CKB") d.perun.channel_setup_ckb c.perun.channel_setup_ckb
  pub host_key : Replaces (env "HOST_PRIVATE_KEY") d.ckb.private_key c.ckb.private_key
  pub password :
      Replaces (env "DASHBOARD_PASSWORD") d.server.dashboard_password c.server.dashboard_password
  pub database : Replaces (env "DB_PATH") d.database_path c.database_path
  pub usable : IsUsable d → IsUsable c
  pub kept :
      (record d {
        ckb = record d.ckb { private_key = c.ckb.private_key };
        server = record d.server {
          dashboard_password = c.server.dashboard_password;
          port = c.server.port;
        };
        database_path = c.database_path;
        perun = record d.perun { channel_setup_ckb = c.perun.channel_setup_ckb };
        openwrt = c.openwrt;
      })
      ≡ c

same_number : {a b : ℤ} → some a ≡ some b → a ≡ b
same_number e = cc

-- The empty text starts with no number.
empty_scan : (v : String) (n : ℤ) → str_eq v "" ≡ true → ¬ (scan_i64 (codes v) ≡ some n)
unfolding scan_i64
empty_scan v n e read =
    let same : v ≡ "" = ground (arith, eq_iff v "") in
    absurd (nothing n (subst (λ x. scan_i64 (codes x) ≡ some n) same read))
  where
    nothing : (n : ℤ) → ¬ (none ≡ some n)
    nothing n e = cc e

scanned-none : (v : String) → scan_i64 (codes v) ≡ none → scanned v ≡ pos 0
scanned-none v e = ap (λ o. elim o as (λ _. ℤ) [ none ↦ pos 0 | some n ↦ n ]) e

scanned-some : (v : String) (n : ℤ) → scan_i64 (codes v) ≡ some n → scanned v ≡ n
scanned-some v n e = ap (λ o. elim o as (λ _. ℤ) [ none ↦ pos 0 | some n ↦ n ]) e

-- A variable whose number is `n`, which is 0 where there is none.
number_or_value :
    (v : String) (old n : ℤ)
    → str_eq v "" ≡ false
    → scanned v ≡ n
    → number_or v old ≡ (if ltb_ℤ (pos 0) n then n else old)
number_or_value v old n set e =
    subst (λ k. number_or v old ≡ (if ltb_ℤ (pos 0) k then k else old)) e (rw set refl)

number_or-Overrides : (v : String) (old : ℤ) → Overrides v old (number_or v old)
number_or-Overrides v old = elim (Bool-cases (str_eq v "")) [
  | inl unset ↦ rw unset (record {
    taken = λ n read more. absurd (empty_scan v n unset read);
    passed_over = λ h. refl;
  })
  | inr set ↦ elim (Option-cases (scan_i64 (codes v))) [
    | inl nothing ↦ record {
      taken = λ n read more. absurd (cc (nothing, read));
      passed_over = λ h. number_or_value v old (pos 0) set (scanned-none v nothing);
    }
    | inr (n, read) ↦
        let value = number_or_value v old n set (scanned-some v n read) in
        elim (Bool-cases (ltb_ℤ (pos 0) n)) [
          | inl more ↦ record {
            taken = λ k again _. value ∙ rw more (same_number (sym read ∙ again));
            passed_over = λ h. absurd (omega (arith, h n read, ltb_ℤ→lt (pos 0) n more));
          }
          | inr less ↦ record {
            taken = λ k again big. absurd (
                too_small k
                  (subst (λ j. j ≤ℤ pos 0) (same_number (sym read ∙ again))
                    (ltb_ℤ→ge (pos 0) n less))
                  big);
            passed_over = λ h. value ∙ rw less refl;
          }
        ]
  ]
]
  where
    too_small : (k : ℤ) → k ≤ℤ pos 0 → ¬ (pos 0 <ℤ k)
    too_small k h g = omega (arith, h, g)

text_or-Replaces : (v old : String) → Replaces v old (text_or v old)
text_or-Replaces v old = elim (Bool-cases (str_eq v "")) [
  | inl unset ↦
      rw unset (record { set = λ ne. absurd (ground (arith, ne, eq_iff v "")); unset = λ e. refl })
  | inr set ↦
      rw set (record { set = λ ne. refl; unset = λ e. absurd (ground (arith, e, eq_iff v "")) })
]

apply_env_overrides-Configured :
    (env : String → String) (d : Config) → Configured env d (apply_env_overrides env d)
unfolding apply_env_overrides
apply_env_overrides-Configured env d = record {
  port = number_or-Overrides (env "PORT") d.server.port;
  setup = number_or-Overrides (env "CHANNEL_SETUP_CKB") d.perun.channel_setup_ckb;
  host_key = text_or-Replaces (env "HOST_PRIVATE_KEY") d.ckb.private_key;
  password = text_or-Replaces (env "DASHBOARD_PASSWORD") d.server.dashboard_password;
  database = text_or-Replaces (env "DB_PATH") d.database_path;
  usable = apply_env_overrides-IsUsable env d;
  kept = refl;
}

-- Without a file the defaults are loaded, whose port and amount set aside for a channel are positive.
-- A file that cannot be read or parsed is an error. Otherwise what the file gives over the defaults is
-- loaded, where a textual variable that is set replaces its text, and the port and the channel's amount
-- become the number that their variable starts with if that is positive, and stay as they are if it is
-- not or there is none; so that both stay positive if the file leaves them so. All but these and the
-- router's section is as the file has it.
pub load_outcome :
    (yaml : Config → Bytes → Option Config) (env : String → String) (file : File)
    → ((file ≡ missing) × (load yaml env file ≡ ok default_config) × IsUsable default_config)
      ⊎ ((file ≡ unreadable) × (load yaml env file ≡ err not_read))
      ⊎ ((b : Bytes) × (file ≡ text b)
          × (yaml default_config b ≡ none)
          × (load yaml env file ≡ err not_parsed))
      ⊎ ((b : Bytes) × (d : Config) × (c : Config) × (file ≡ text b)
          × (yaml default_config b ≡ some d)
          × (load yaml env file ≡ ok c)
          × Configured env d c)
unfolding load
load_outcome yaml env missing = inl (refl, refl, default_config-IsUsable)
load_outcome yaml env unreadable = inr (inl (refl, refl))
load_outcome yaml env (text b) = elim (Option-cases (yaml default_config b)) [
  | inl bad ↦ inr (inr (inl (b, refl, bad, rw (load, bad) refl)))
  | inr (d, read) ↦ inr (
      inr (
        inr (
          b,
          d,
          apply_env_overrides env d,
          refl,
          read,
          rw (load, read) refl,
          apply_env_overrides-Configured env d,
        )))
]
