-- ===== src/Main.antt =====
-- server/src/main.rs, the state of server/src/state.rs, `connect` and `ping` of common/src/db.rs, the
-- probes of server/src/router.rs, and the bind of common/src/http.rs. What the operating system, the
-- database, Redis and axum answer is an argument.
pub mod Start
use polyglot_commerce.Prelude.{
  decimal, ℕ, zero, suc, ℤ, pos, leb_ℤ, String, str_eq, ◌⧺◌, Bool, true, false, not, ◌&&◌, Option,
  none, some, List, [], ◌∷◌, if◌then◌else◌,
}
use polyglot_commerce.Errors.{AppError}
use polyglot_commerce.Store.{Result, ok, err}
use polyglot_commerce.Access.{JwtConfig}
use polyglot_commerce.Settings.{Variables, Parsers, DbConfig, Config, config_from_env, parse_or}
use polyglot_commerce.Telemetry.{Logging, Metrics, init}

-- The options of the pool that `connect` sets, the timeout in seconds.
pub record PoolOptions : Type 0 where
  pub max_connections : ℕ
  pub min_connections : ℕ
  pub acquire_timeout : ℕ
  pub test_before_acquire : Bool

-- What is outside of the program. A text stands for an error that is passed on.
pub record Outside (Pool Client Redis Filter : Type 0) : Type 0 where
  pub tcp_connect : String → ℕ → Bool
  pub pool_connect : PoolOptions → String → Option Pool
  pub migrate : Pool → Bool
  pub open_client : String → Option Client
  pub connection_manager : Client → Option Redis
  pub bind : String → Bool
  pub axum_serve : String → Bool
  pub parse_filter : String → Option Filter
  pub new_filter : String → Filter

-- `Inner`; `JwtManager::new` keeps what its keys are made of.
pub record Inner (Pool Redis : Type 0) : Type 0 where
  pub pool : Pool
  pub jwt : JwtConfig
  pub redis : Option Redis
  pub cache_ttl_secs : ℕ
  pub metrics : Metrics

-- How the process ends: `served` after a shutdown, with the state and the address it served.
pub data Exit (Pool Redis : Type 0) : Type 0 where
  healthy : Exit Pool Redis
  not_healthy : Exit Pool Redis
  not_configured : AppError → Exit Pool Redis
  no_database : Exit Pool Redis
  not_migrated : Exit Pool Redis
  not_bound : Exit Pool Redis
  broken_off : Exit Pool Redis
  served : Inner Pool Redis → String → Exit Pool Redis

-- `ping`, on what `SELECT 1` returned
unfoldable pub ping : Option ℤ → Bool
ping none = false
ping (some v) = leb_ℤ v (pos 1) && leb_ℤ (pos 1) v

-- `readiness`
unfoldable pub readiness : Option ℤ → ℕ × String
unfolding ping
readiness selected = if ping selected then (200, "ready") else (503, "degraded")

-- `liveness`
abbrev pub liveness : String
liveness = "ok"

abbrev nth : ℕ → List String → Option String
nth n [] = none
nth zero (a ∷ args) = some a
nth (suc n) (a ∷ args) = nth n args

abbrev pub is_some_text : String → Option String → Bool
is_some_text t none = false
is_some_text t (some s) = str_eq s t

-- `std::env::args().nth(1).as_deref() == Some("healthcheck")`
abbrev pub is_healthcheck : List String → Bool
is_healthcheck args = is_some_text "healthcheck" (nth 1 args)

module _ {Pool Client Redis Filter : Type 0} (out : Outside Pool Client Redis Filter) where
  -- `connect`
  abbrev pub connect : DbConfig → Option Pool
  connect cfg =
      out.pool_connect
        (record {
          max_connections = cfg.max_connections;
          min_connections = cfg.min_connections;
          acquire_timeout = cfg.connect_timeout;
          test_before_acquire = true;
        })
        cfg.url

  abbrev manager_of : Option Client → Option Redis
  manager_of none = none
  manager_of (some client) = out.connection_manager client

  -- the `match &cfg.redis_url` of `main`
  abbrev pub redis_of : Option String → Option Redis
  redis_of none = none
  redis_of (some url) = manager_of (out.open_client url)

  abbrev pub address : ℕ → String
  address port = "0.0.0.0:" ⧺ decimal port

  -- `serve`
  abbrev pub serve : ℕ → Inner Pool Redis → Exit Pool Redis
  serve port state =
      if not (out.bind (address port))
      then not_bound
      else if out.axum_serve (address port)
      then served state (address port)
      else broken_off

  abbrev with_pool : Config → Metrics → Option Pool → Exit Pool Redis
  with_pool cfg m none = no_database
  with_pool cfg m (some pool) =
      if not (out.migrate pool)
      then not_migrated
      else serve cfg.port (record {
        pool = pool;
        jwt = cfg.jwt;
        redis = redis_of cfg.redis_url;
        cache_ttl_secs = cfg.cache_ttl_secs;
        metrics = m;
      })

  abbrev with_config : Metrics → Result Config → Exit Pool Redis
  with_config m (err x) = not_configured x
  with_config m (ok cfg) = with_pool cfg m (connect cfg.db)

  -- `main`
  unfoldable pub main : Parsers → List String → Variables → Exit Pool Redis
  unfolding init
  main ps args env =
      if is_healthcheck args
      then (if out.tcp_connect "127.0.0.1" (parse_or ps.parse_u16 env "PORT" 8080)
          then healthy
          else not_healthy)
      else with_config (init out.parse_filter out.new_filter env).1 (config_from_env ps env)
