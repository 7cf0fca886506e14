-- ===== src/Settings.antt =====
-- common/src/env.rs, the `from_env` functions of common/src/auth.rs and common/src/db.rs, and
-- server/src/config.rs. The variables of the environment are an argument, and so are the standard
-- library's parsers of numbers and its `to_lowercase`.
pub mod Startup
use polyglot_commerce.Prelude.{
  ℕ, ◌-◌, ℤ, pos, String, str_eq, ◌⧺◌, ◌||◌, Option, none, some, if◌then◌else◌,
}
use polyglot_commerce.Errors.{internal}
use polyglot_commerce.Store.{Result, ok, err, and_then, ok_or}
use polyglot_commerce.Access.{JwtConfig}

-- `std::env::var`
abbrev pub Variables : Type 0
Variables = String → Option String

-- `str::parse` at the types that are read, and `str::to_lowercase`
pub record Parsers : Type 0 where
  pub parse_u16 : String → Option ℕ
  pub parse_u32 : String → Option ℕ
  pub parse_u64 : String → Option ℕ
  pub parse_i64 : String → Option ℤ
  pub to_lowercase : String → String

-- `required`
abbrev pub required : Variables → String → Result String
required env key = ok_or (env key) (internal ("missing required env var: " ⧺ key))

abbrev unwrap : {A : Type 0} → Option A → A → A
unwrap none d = d
unwrap (some a) d = a

-- `or_default`
abbrev pub or_default : Variables → String → String → String
or_default env key default = unwrap (env key) default

abbrev parsed : {A : Type 0} → (String → Option A) → Option String → Option A
parsed parse none = none
parsed parse (some v) = parse v

-- `parse_or`
abbrev pub parse_or : {A : Type 0} → (String → Option A) → Variables → String → A → A
parse_or parse env key default = unwrap (parsed parse (env key)) default

-- `Environment`
pub data Environment : Type 0 where
  development : Environment
  staging : Environment
  production : Environment

-- `Environment::from_env`
unfoldable pub environment_from_env : Parsers → Variables → Environment
environment_from_env ps env =
    let name = ps.to_lowercase (or_default env "ENVIRONMENT" "development") in
    if str_eq name "production" || str_eq name "prod"
    then production
    else if str_eq name "staging" || str_eq name "stage"
    then staging
    else development

-- `DbConfig`, with the timeout in seconds
pub record DbConfig : Type 0 where
  pub url : String
  pub max_connections : ℕ
  pub min_connections : ℕ
  pub connect_timeout : ℕ

-- `DbConfig::from_env`
unfoldable pub db_config_from_env : Parsers → Variables → Result DbConfig
db_config_from_env ps env = and_then (required env "DATABASE_URL") λ url. ok (record {
  url = url;
  max_connections = parse_or ps.parse_u32 env "DB_MAX_CONNECTIONS" 20;
  min_connections = parse_or ps.parse_u32 env "DB_MIN_CONNECTIONS" 2;
  connect_timeout = parse_or ps.parse_u64 env "DB_CONNECT_TIMEOUT_SECS" 5;
})

-- `JwtConfig::from_env`
unfoldable pub jwt_config_from_env : Parsers → Variables → Result JwtConfig
jwt_config_from_env ps env = and_then (required env "JWT_ACCESS_SECRET") λ secret. ok (record {
  access_secret = secret;
  refresh_secret = or_default env "JWT_REFRESH_SECRET" "refresh-secret";
  access_ttl_secs = parse_or ps.parse_i64 env "JWT_ACCESS_TTL_SECS" (pos 900);
  refresh_ttl_secs = parse_or ps.parse_i64 env "JWT_REFRESH_TTL_SECS" (pos 2592000);
  issuer = or_default env "JWT_ISSUER" "ecommerce.identity";
  audience = or_default env "JWT_AUDIENCE" "ecommerce.api";
})

abbrev nonempty : Option String → Option String
nonempty none = none
nonempty (some s) = if str_eq s "" then none else some s

-- `Config`
pub record Config : Type 0 where
  pub port : ℕ
  pub db : DbConfig
  pub jwt : JwtConfig
  pub redis_url : Option String
  pub cache_ttl_secs : ℕ

-- `Config::from_env`
unfoldable pub config_from_env : Parsers → Variables → Result Config
config_from_env ps env = and_then (db_config_from_env ps env) λ db.
    and_then (jwt_config_from_env ps env) λ jwt. ok (record {
      port = parse_or ps.parse_u16 env "PORT" 8080;
      db = db;
      jwt = jwt;
      redis_url = nonempty (env "REDIS_URL");
      cache_ttl_secs = parse_or ps.parse_u64 env "CACHE_TTL_SECS" 60;
    })
