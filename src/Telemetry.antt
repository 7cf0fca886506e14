-- ===== src/Telemetry.antt =====
-- common/src/telemetry.rs. A request is handled by a run, which takes some milliseconds or never ends
-- and leaves a state; `track_metrics` wraps the run of what is inside it. The recorder that is
-- installed holds the series of a counter and the observations of a histogram.
pub mod Series
use polyglot_commerce.Prelude.{
  decimal, ℕ, ◌+◌, String, str_eq, Bool, ◌&&◌, Option, none, some, List, [], ◌∷◌, if◌then◌else◌,
}
use polyglot_commerce.Settings.{Variables, or_default}

-- What the middleware reads of a request: `MatchedPath` is there if the router found a route.
pub record Request : Type 0 where
  pub method : String
  pub matched : Option String
  pub request_id : Option String

pub record Response : Type 0 where
  pub status : ℕ
  pub request_id : Option String

-- `took` is none if the run never ends, and `answer` none if it panics. While it runs, the state is
-- `before` at each millisecond; what has ended leaves `final`.
pub record Run (S : Type 0) : Type 0 where
  pub took : Option ℕ
  pub answer : Option Response
  pub before : ℕ → S
  pub final : S

abbrev pub Service : Type 0 → Type 0
Service S = Request → S → Run S

-- the labels `method`, `path` and `status`
pub record Labels : Type 0 where
  pub method : String
  pub path : String
  pub status : String

unfoldable pub same_labels : Labels → Labels → Bool
same_labels k l = str_eq k.method l.method && str_eq k.path l.path && str_eq k.status l.status

-- The series of `http_requests_total` with their values, and the observations of
-- `http_request_duration_seconds`, in milliseconds, the last one first.
pub record Metrics : Type 0 where
  pub http_requests_total : List (Labels × ℕ)
  pub http_request_duration : List (Labels × ℕ)

-- `counter!(..).increment(1)`: a series begins with its first increment.
unfoldable pub increment : Labels → List (Labels × ℕ) → List (Labels × ℕ)
increment k [] = (k, 1) ∷ []
increment k ((l, n) ∷ series) =
    let rest = increment k series in if same_labels k l then (l, n + 1) ∷ series else (l, n) ∷ rest

-- The state of the server with what it has recorded.
pub record Tracked (A : Type 0) : Type 0 where
  pub app : A
  pub metrics : Metrics

abbrev or_unmatched : Option String → String
or_unmatched none = "unmatched"
or_unmatched (some path) = path

abbrev pub labels_of : Request → Response → Labels
labels_of req response = record {
  method = req.method;
  path = or_unmatched req.matched;
  status = decimal response.status;
}

-- What stands after `next.run(req).await`: it is not reached by a run that panics or never ends.
abbrev pub recorded : Request → Option ℕ → Option Response → Metrics → Metrics
recorded req (some elapsed) (some response) m = record {
  http_requests_total = increment (labels_of req response) m.http_requests_total;
  http_request_duration = (labels_of req response, elapsed) ∷ m.http_request_duration;
}
recorded req none response m = m
recorded req (some elapsed) none m = m

-- `track_metrics`
unfoldable pub track_metrics : {A : Type 0} → Service A → Service (Tracked A)
track_metrics next req s =
    let run = next req s.app in
    record {
      took = run.took;
      answer = run.answer;
      before = λ t. record s { app = run.before t };
      final = record { app = run.final; metrics = recorded req run.took run.answer s.metrics };
    }

-- The log filter that `init` takes, and whether the log is JSON. `parse` is that of `EnvFilter`, and
-- `RUST_LOG` is the variable of `try_from_default_env`.
pub record Logging (Filter : Type 0) : Type 0 where
  pub filter : Filter
  pub json : Bool

abbrev try_from_env : {Filter : Type 0} → (String → Option Filter) → Option String → Option Filter
try_from_env parse none = none
try_from_env parse (some v) = parse v

abbrev or_else : {Filter : Type 0} → Option Filter → Option Filter → Option Filter
or_else none other = other
or_else (some f) other = some f

abbrev unwrap_or_else : {Filter : Type 0} → Option Filter → Filter → Filter
unwrap_or_else none d = d
unwrap_or_else (some f) d = f

-- `init`, which installs an empty recorder
unfoldable pub init :
    {Filter : Type 0}
    → (String → Option Filter)
    → (String → Filter)
    → Variables
    → Logging Filter × Metrics
init parse new env = (
  record {
    filter =
        unwrap_or_else
          (or_else (try_from_env parse (env "LOG_LEVEL")) (try_from_env parse (env "RUST_LOG")))
          (new "info,sqlx=warn,hyper=warn,tower_http=info");
    json = str_eq (or_default env "LOG_FORMAT" "json") "json";
  },
  record { http_requests_total = []; http_request_duration = [] },
)
