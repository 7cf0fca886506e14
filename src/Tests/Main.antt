-- ===== src/Tests/Main.antt =====
-- A start with a database and an address, and a Redis that does not answer.
use polyglot_commerce.Prelude.{decimal, ℕ, ◌≡◌, ◌↔◌, refl, pos, String, true, none, some, [], ◌∷◌}
use polyglot_commerce.Settings.{Variables, config_from_env, db_config_from_env, jwt_config_from_env}
use polyglot_commerce.Main.{Outside, Inner, served, main, readiness}
use polyglot_commerce.Main.Start.{Started, main_iff, cacheless, cacheless-main}
use polyglot_commerce.Tests.Settings.{ps}

abbrev out : Outside ℕ ℕ ℕ String
out = record {
  tcp_connect = λ host port. true;
  pool_connect = λ options url. some options.max_connections;
  migrate = λ pool. true;
  open_client = λ url. some 1;
  connection_manager = λ client. none;
  bind = λ addr. true;
  axum_serve = λ addr. true;
  parse_filter = λ text. none;
  new_filter = λ text. text;
}

-- Every variable is set to one text, so that the port cannot be parsed.
abbrev env : Variables
env key = some "x"

abbrev state : Inner ℕ ℕ
state = record {
  pool = 20;
  jwt = record {
    access_secret = "x";
    refresh_secret = "x";
    access_ttl_secs = pos 900;
    refresh_ttl_secs = pos 2592000;
    issuer = "x";
    audience = "x";
  };
  redis = none;
  cache_ttl_secs = 60;
  metrics = record { http_requests_total = []; http_request_duration = [] };
}

main_iff_example :
    (main out ps ("ecommerce" ∷ []) env ≡ served state "0.0.0.0:8080")
    ↔ Started out ps env state "0.0.0.0:8080"
main_iff_example =
    main_iff out ps ("ecommerce" ∷ []) env {state = state} {addr = "0.0.0.0:8080"} refl

it_starts : main out ps ("ecommerce" ∷ []) env ≡ served state "0.0.0.0:8080"
unfolding main config_from_env db_config_from_env jwt_config_from_env decimal
it_starts = refl

cacheless-main_example :
    cacheless out
      (main (record out { connection_manager = λ client. some 3 }) ps ("ecommerce" ∷ []) env)
    ≡ cacheless out (main out ps ("ecommerce" ∷ []) env)
cacheless-main_example =
    cacheless-main out (λ url. some 1) (λ client. some 3) ps ("ecommerce" ∷ []) env

degraded : readiness none ≡ (503, "degraded")
unfolding readiness
degraded = refl
