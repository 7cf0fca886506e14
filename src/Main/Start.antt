-- ===== src/Main/Start.antt =====
-- When the server starts, and with what state.
use mathlib.Core.Path.{subst}
use polyglot_commerce.Prelude.{
  decimal, ◌⧺◌, ◌≡◌, ◌⊎◌, ◌↔◌, refl, ◌∙◌, sym, ap, String, true, false, Option, none, some, List,
  [], arith, Option-cases, inl, inr,
}
use polyglot_commerce.Errors.{AppError}
use polyglot_commerce.Store.{Result, ok, err}
use polyglot_commerce.Settings.{Variables, Parsers, Config, config_from_env}
use polyglot_commerce.Telemetry.{init}
use polyglot_commerce.Main.{
  Outside, Inner, Exit, healthy, not_healthy, not_configured, no_database, not_migrated, not_bound,
  broken_off, served, is_healthcheck, connect, redis_of, address, main,
}

Result-cases : {A : Type 0} (r : Result A) → ((a : A) × (r ≡ ok a)) ⊎ ((x : AppError) × (r ≡ err x))
Result-cases (ok a) = inl (a, refl)
Result-cases (err x) = inr (x, refl)

module _ {Pool Client Redis Filter : Type 0} (out : Outside Pool Client Redis Filter) where
  abbrev state_of : Config → Pool → Inner Pool Redis
  state_of config pool = record {
    pool = pool;
    jwt = config.jwt;
    redis = redis_of out config.redis_url;
    cache_ttl_secs = config.cache_ttl_secs;
    metrics = record { http_requests_total = []; http_request_duration = [] };
  }

  -- The connection to Redis: none without a URL or with one that no client can be made of, and else
  -- whatever the client's connection manager answers.
  pub record Cached (url : Option String) (redis : Option Redis) : Type 0 where
    pub no_url : url ≡ none → redis ≡ none
    pub bad_url : (u : String) → url ≡ some u → out.open_client u ≡ none → redis ≡ none
    pub client :
        (u : String) (c : Client)
        → url ≡ some u
        → out.open_client u ≡ some c
        → redis ≡ out.connection_manager c

  -- What a server that was served had.
  pub record Started (ps : Parsers) (env : Variables) (state : Inner Pool Redis) (addr : String)
      : Type 0 where
    pub config : Config
    pub configured : config_from_env ps env ≡ ok config
    pub connected :
        out.pool_connect
          (record {
            max_connections = config.db.max_connections;
            min_connections = config.db.min_connections;
            acquire_timeout = config.db.connect_timeout;
            test_before_acquire = true;
          })
          config.db.url
        ≡ some state.pool
    pub migrated : out.migrate state.pool ≡ true
    pub same_jwt : state.jwt ≡ config.jwt
    pub same_ttl : state.cache_ttl_secs ≡ config.cache_ttl_secs
    pub cached : Cached config.redis_url state.redis
    pub no_requests : state.metrics.http_requests_total ≡ []
    pub no_durations : state.metrics.http_request_duration ≡ []
    pub is_address : addr ≡ "0.0.0.0:" ⧺ decimal config.port
    pub bound : out.bind addr ≡ true
    pub kept_on : out.axum_serve addr ≡ true

  redis_of-Cached : (url : Option String) → Cached url (redis_of out url)
  redis_of-Cached none = record {
    no_url = λ e. refl;
    bad_url = λ u e bad. refl;
    client = λ u c e opened. absurd (ground (arith, e));
  }
  redis_of-Cached (some url) = record {
    no_url = λ e. absurd (ground (arith, e));
    bad_url = λ u e bad. ground (arith, e, bad);
    client = λ u c e opened. ground (arith, e, opened);
  }

  Cached-eq :
      (url : Option String) {redis : Option Redis} → Cached url redis → redis ≡ redis_of out url
  Cached-eq none c = c.no_url refl
  Cached-eq (some url) c = elim (Option-cases (out.open_client url)) [
    | inl bad ↦ rw bad (c.bad_url url refl bad)
    | inr (client, opened) ↦ rw opened (c.client url client refl opened)
  ]

  Started-state :
      {ps : Parsers} {env : Variables} {state : Inner Pool Redis} {addr : String}
      (s : Started ps env state addr)
      → state ≡ state_of s.config state.pool
  Started-state s = ground (
    arith,
    s.same_jwt,
    s.same_ttl,
    Cached-eq s.config.redis_url s.cached,
    s.no_requests,
    s.no_durations,
  )

  module _ (ps : Parsers) (args : List String) (env : Variables) where
    served-Started :
        (config : Config) (pool : Pool) {state : Inner Pool Redis} {addr : String}
        → config_from_env ps env ≡ ok config
        → connect out config.db ≡ some pool
        → is_healthcheck args ≡ false
        → main out ps args env ≡ served state addr
        → Started ps env state addr
    unfolding main init
    served-Started config pool {state} {addr} configured connected normal e =
        let migrated : out.migrate pool ≡ true = ground (arith, e, normal, configured, connected) in
        let bound : out.bind (address out config.port) ≡ true =
          ground (arith, e, normal, configured, connected, migrated) in
        let kept_on : out.axum_serve (address out config.port) ≡ true =
          ground (arith, e, normal, configured, connected, migrated, bound) in
        let same : served (state_of config pool) (address out config.port) ≡ served state addr =
          ground (arith, e, normal, configured, connected, migrated, bound, kept_on) in
        let is_state : state ≡ state_of config pool = ground (arith, same) in
        let is_address : addr ≡ address out config.port = ground (arith, same) in
        let is_pool : state.pool ≡ pool = ap (λ (i : Inner Pool Redis). i.pool) is_state in
        record {
          config = config;
          configured = configured;
          connected = connected ∙ ap some (sym is_pool);
          migrated = ap out.migrate is_pool ∙ migrated;
          same_jwt = ap (λ (i : Inner Pool Redis). i.jwt) is_state;
          same_ttl = ap (λ (i : Inner Pool Redis). i.cache_ttl_secs) is_state;
          cached =
              subst (Cached config.redis_url)
                (sym (ap (λ (i : Inner Pool Redis). i.redis) is_state))
                (redis_of-Cached config.redis_url);
          no_requests = ap (λ (i : Inner Pool Redis). i.metrics.http_requests_total) is_state;
          no_durations = ap (λ (i : Inner Pool Redis). i.metrics.http_request_duration) is_state;
          is_address = is_address;
          bound = ap out.bind is_address ∙ bound;
          kept_on = ap out.axum_serve is_address ∙ kept_on;
        }

    Started-served :
        {state : Inner Pool Redis} {addr : String}
        → is_healthcheck args ≡ false
        → Started ps env state addr
        → main out ps args env ≡ served state addr
    unfolding main init
    Started-served {state} {addr} normal s =
        let bound : out.bind (address out s.config.port) ≡ true =
          ap out.bind (sym s.is_address) ∙ s.bound in
        let kept_on : out.axum_serve (address out s.config.port) ≡ true =
          ap out.axum_serve (sym s.is_address) ∙ s.kept_on in
        let here : main out ps args env
            ≡ served (state_of s.config state.pool) (address out s.config.port) =
          ground (arith, normal, s.configured, s.connected, s.migrated, bound, kept_on) in
        here
        ∙ ap (λ (i : Inner Pool Redis). served i (address out s.config.port))
            (sym (Started-state s))
        ∙ ap (served state) (sym s.is_address)

    Started-main :
        {state : Inner Pool Redis} {addr : String}
        → is_healthcheck args ≡ false
        → main out ps args env ≡ served state addr
        → Started ps env state addr
    unfolding main
    Started-main {state} {addr} normal e = elim (Result-cases (config_from_env ps env)) [
      | inl (config, configured) ↦ elim (Option-cases (connect out config.db)) [
        | inl nothing ↦ absurd (ground (arith, e, normal, configured, nothing))
        | inr (pool, connected) ↦
            served-Started config pool {state = state} {addr = addr} configured connected normal e
      ]
      | inr (x, wrong) ↦ absurd (ground (arith, e, normal, wrong))
    ]

    -- A process that was not started as a health check serves, until a shutdown, with a state and at an
    -- address, exactly where the configuration can be read, the pool is made with the configured
    -- numbers of connections and timeout and tests each connection, the database behind it is migrated,
    -- and the address, which is every interface at the configured port, is bound and served without an
    -- error. The state is then that pool, the keys' and the cache's settings of the configuration, the
    -- answer of the connection manager for Redis, or none if there is no URL or no client for it, and
    -- no counted request.
    pub main_iff :
        {state : Inner Pool Redis} {addr : String}
        → is_healthcheck args ≡ false
        → (main out ps args env ≡ served state addr) ↔ Started ps env state addr
    main_iff {state} {addr} normal = (
      Started-main {state = state} {addr = addr} normal,
      Started-served {state = state} {addr = addr} normal,
    )

  abbrev pub cacheless : Exit Pool Redis → Exit Pool Redis
  cacheless healthy = healthy
  cacheless not_healthy = not_healthy
  cacheless (not_configured x) = not_configured x
  cacheless no_database = no_database
  cacheless not_migrated = not_migrated
  cacheless not_bound = not_bound
  cacheless broken_off = broken_off
  cacheless (served state addr) = served (record state { redis = none }) addr

  -- Whatever Redis does: the process ends in the same way, and a server is served with the same state
  -- but for the connection to Redis.
  pub cacheless-main :
      (open_client : String → Option Client) (connection_manager : Client → Option Redis)
      (ps : Parsers) (args : List String) (env : Variables)
      → let other = record out {
        open_client = open_client;
        connection_manager = connection_manager;
      } in
        cacheless (main other ps args env) ≡ cacheless (main out ps args env)
  unfolding main init
  cacheless-main open_client connection_manager ps args env = ground arith
