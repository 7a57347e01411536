-- ===== src/Master/Start/Ready.antt =====
-- What src/master/main.cpp has made sure of when it constructs its broker.
use mathlib.Core.Path.{subst}
use distributed_computing.Prelude.{
  ◌≡◌, ◌≢◌, refl, inl, inr, true, false, ◌||◌, none, List, [], Bytes, codes, ℤ, pos, str_eq,
  str_eq_iff, leb_ℤ, Bool-cases, if◌then◌else◌,
}
use distributed_computing.Common.Numbers.{int_max}
use distributed_computing.Common.Env.{Environment, get_env_or_default}
use distributed_computing.Broker.Postgres.Connection.{
  AuthentificationMethod, AuthentificationMethod.password, AuthentificationMethod.ssl, DbConfig,
}
use distributed_computing.Master.Mappers.Parse.{Parsed, accepted, refused}
use distributed_computing.Master.Config.{parse_validated_env_int}
use distributed_computing.Master.Config.Range.{IsSetting, parse_validated_env_int-IsSetting}
use distributed_computing.Master.Start.{
  MasterHost, Stage, proceeds, halts, failure, ◌>>=◌, Backend, get_auth_method, backend_of, base_db,
  with_credentials, from_setting, from_option, migrations, directory_made, load_master_config,
  Setup, set_up, master_env, parse_master_args, master_main,
}

-- A step that went on took a value from the step before.
bind-proceeds :
    {A B : Type 0} (m : Stage A) (f : A → Stage B) (b : B)
    → (m >>= f) ≡ proceeds b
    → (a : A) × (m ≡ proceeds a) × (f a ≡ proceeds b)
bind-proceeds (proceeds a) f b h = (a, refl, h)
bind-proceeds (halts code) f b h = absurd (cc h)

abbrev IsBetween : ℤ → ℤ → Type 0
IsBetween low n = (leb_ℤ low n ≡ true) × (leb_ℤ n (pos int_max) ≡ true)

setting_range :
    (env : Environment) (key : Bytes) (default_value low n : ℤ)
    → leb_ℤ (pos 0) low ≡ true
    → IsBetween low default_value
    → from_setting (parse_validated_env_int env key default_value low) ≡ proceeds n
    → IsBetween low n
setting_range env key default_value low n natural fits h =
    go (parse_validated_env_int env key default_value low)
      (parse_validated_env_int-IsSetting env key default_value low natural) h
  where
    go :
        (p : Parsed ℤ)
        → IsSetting env key default_value low p
        → from_setting p ≡ proceeds n
        → IsBetween low n
    go (refused message) s e = absurd (cc e)
    go (accepted v) (inl (missing, same)) e =
        let is_default : default_value ≡ n = cc (same, e) in subst (IsBetween low) is_default fits
    go (accepted v) (inr (value, found, (given_text, whole, above, below))) e =
        let is_read : v ≡ n = cc e in subst (IsBetween low) is_read (above, below)

-- A user with a password, or three files of certificates.
abbrev pub HasCredentials : DbConfig → Type 0
HasCredentials db = elim db.auth_method [
  | password ↦ (db.user ≢ []) × (db.password ≢ [])
  | ssl ↦ (db.ssl.rootcert ≢ []) × (db.ssl.cert ≢ []) × (db.ssl.key ≢ [])
]

given : (s : Bytes) → str_eq s [] ≡ false → s ≢ []
given s h e = cc (h, (str_eq_iff s []).1 e)

credentials :
    (env : Environment) (backend : Backend) (method : AuthentificationMethod) (db : DbConfig)
    → with_credentials env (base_db env backend method) ≡ proceeds db
    → HasCredentials db
unfolding with_credentials base_db
credentials env backend password db h =
    go (get_env_or_default env (codes "DB_USER") [])
      (get_env_or_default env (codes "DB_PASSWORD") []) h
  where
    go :
        (user secret : Bytes)
        → (if str_eq user [] || str_eq secret []
            then failure
            else proceeds
                (record (base_db env backend password) { user = user; password = secret }))
          ≡ proceeds db
        → HasCredentials db
    go user secret e = elim (Bool-cases (str_eq user [])) [
      | inl missing ↦ absurd (cc (rw missing at e))
      | inr named ↦ elim (Bool-cases (str_eq secret [])) [
        | inl missing ↦ absurd (cc (rw (named, missing) at e))
        | inr known ↦
            let same : record (base_db env backend password) { user = user; password = secret }
                ≡ db =
              cc (rw (named, known) at e) in
            subst HasCredentials same (given user named, given secret known)
      ]
    ]
credentials env backend ssl db h =
    go (get_env_or_default env (codes "DB_SSL_ROOTCERT") [])
      (get_env_or_default env (codes "DB_SSL_CERT") [])
      (get_env_or_default env (codes "DB_SSL_KEY") []) h
  where
    go :
        (root cert key : Bytes)
        → (if str_eq root [] || str_eq cert [] || str_eq key []
            then failure
            else proceeds (record (base_db env backend ssl) {
              ssl = record { rootcert = root; cert = cert; key = key };
            }))
          ≡ proceeds db
        → HasCredentials db
    go root cert key e = elim (Bool-cases (str_eq root [])) [
      | inl missing ↦ absurd (cc (rw missing at e))
      | inr rooted ↦ elim (Bool-cases (str_eq cert [])) [
        | inl missing ↦ absurd (cc (rw (rooted, missing) at e))
        | inr certified ↦ elim (Bool-cases (str_eq key [])) [
          | inl missing ↦ absurd (cc (rw (rooted, certified, missing) at e))
          | inr keyed ↦
              let same : record (base_db env backend ssl) {
                ssl = record { rootcert = root; cert = cert; key = key };
              }
                  ≡ db =
                cc (rw (rooted, certified, keyed) at e) in
              subst HasCredentials same (given root rooted, given cert certified, given key keyed)
        ]
      ]
    ]

-- What holds of a set-up.
abbrev pub IsReady : Setup → Type 0
IsReady setup =
    IsBetween (pos 1) setup.reconnect_attempts
    × IsBetween (pos 0) setup.reconnect_cooldown_sec
    × HasCredentials setup.db

set_up-IsReady :
    (host : MasterHost) (env : Environment) (setup : Setup)
    → set_up host env ≡ proceeds setup
    → IsReady setup
unfolding set_up
set_up-IsReady host env setup h =
    let (attempts, e1, h1) =
      bind-proceeds
        (from_setting
          (parse_validated_env_int env (codes "BROKER_RECONNECT_ATTEMPTS") (pos 5) (pos 1)))
        _ setup h in
    let (cooldown, e2, h2) =
      bind-proceeds
        (from_setting
          (parse_validated_env_int env (codes "BROKER_RECONNECT_COOLDOWN_SEC") (pos 2) (pos 0)))
        _ setup h1 in
    let (backend, e3, h3) = bind-proceeds (backend_of env) _ setup h2 in
    let (method, e4, h4) =
      bind-proceeds
        (from_option
          (get_auth_method (get_env_or_default env (codes "DB_AUTHMODE") (codes "password"))))
        _ setup h3 in
    let (db, e5, h5) =
      bind-proceeds (with_credentials env (base_db env backend method)) _ setup h4 in
    let (made, e6, h6) =
      bind-proceeds (directory_made host (load_master_config env).log_dir) _ setup h5 in
    let (migrated, e7, h7) = bind-proceeds (migrations host env) _ setup h6 in
    let made_from : record {
      config = load_master_config env;
      db = db;
      reconnect_attempts = attempts;
      reconnect_cooldown_sec = cooldown;
      backend = backend;
    }
        ≡ setup =
      cc h7 in
    subst IsReady made_from (
      setting_range env (codes "BROKER_RECONNECT_ATTEMPTS") (pos 5) (pos 1) attempts refl
          (refl, refl) e1,
      setting_range env (codes "BROKER_RECONNECT_COOLDOWN_SEC") (pos 2) (pos 0) cooldown refl
          (refl, refl) e2,
      credentials env backend method db e5,
    )

-- Whatever its arguments, its env file and its environment, a master that gets to the construction of
-- its broker makes from 1 to the largest `int` attempts to connect, waits from 0 to the largest `int`
-- seconds between them, and has a user and a password, or all three certificate files, as its method
-- of authentication wants.
pub master_main-IsReady :
    (host : MasterHost) (words : List Bytes) (env : Environment) (setup : Setup)
    → master_main host words env ≡ proceeds setup
    → IsReady setup
unfolding master_main
master_main-IsReady host words env setup h =
    let (env_file, e1, h1) = bind-proceeds (parse_master_args none words) _ setup h in
    let (env', e2, h2) = bind-proceeds (master_env host env_file env) _ setup h1 in
    set_up-IsReady host env' setup h2
