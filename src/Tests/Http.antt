-- ===== src/Tests/Http.antt =====
-- The middleware with layers that do what is documented of them, in either build, before a handler
-- that takes 31 seconds for one method and panics for another.
use polyglot_commerce.Prelude.{
  decimal, ℕ, ◌+◌, ◌*◌, ◌≡◌, refl, str_eq, true, false, none, some, [], ◌∷◌, arith, if◌then◌else◌,
}
use polyglot_commerce.Telemetry.{
  Request, Response, Service, Labels, same_labels, increment, Tracked, track_metrics,
}
use polyglot_commerce.Http.{
  Profile, release, unwinds, with_id, answered_id, bare, ends, is_preflight, TowerHttp,
  with_middleware,
}
use polyglot_commerce.Http.Served.{
  outcome, answered, died, timed_out, caught, with_cors, with_middleware_lem,
}
use polyglot_commerce.Http.Counted.{IsCounted, value_at-with_middleware}

module _ (S : Type 0) where
  over :
      (seconds : ℕ) (inner : Service S) (req : Request) (s : S)
      → ends (seconds * 1000) (inner req s).took ≡ true
      → timed_out (seconds * 1000) (inner req s) ≡ inner req s
  over seconds inner req s e = rw e refl

  late :
      (seconds : ℕ) (inner : Service S) (req : Request) (s : S)
      → ends (seconds * 1000) (inner req s).took ≡ false
      → timed_out (seconds * 1000) (inner req s) ≡ record (inner req s) {
        took = some (seconds * 1000);
        answer = some (bare 408);
        final = (inner req s).before (seconds * 1000);
      }
  late seconds inner req s e = rw e refl

  answers :
      (profile : Profile) (inner : Service S) (req : Request) (s : S) (r : Response)
      → (inner req s).answer ≡ some r
      → caught profile (inner req s) ≡ inner req s
  answers profile inner req s r e = ground (arith, e)

  panics :
      (profile : Profile) (inner : Service S) (req : Request) (s : S)
      → unwinds profile ≡ true
      → (inner req s).answer ≡ none
      → caught profile (inner req s) ≡ record (inner req s) { answer = some (bare 500) }
  panics profile inner req s on e = ground (arith, on, e)

  aborts :
      (profile : Profile) (inner : Service S) (req : Request) (s : S)
      → unwinds profile ≡ false
      → (inner req s).answer ≡ none
      → caught profile (inner req s) ≡ inner req s
  aborts profile inner req s off e = ground (arith, off, e)

  preflight :
      (inner : Service S) (req : Request) (s : S)
      → is_preflight req ≡ true
      → with_cors req s (inner req s)
        ≡ record { took = some 0; answer = some (bare 200); before = λ t. s; final = s }
  preflight inner req s e = rw e refl

  no_preflight :
      (inner : Service S) (req : Request) (s : S)
      → is_preflight req ≡ false
      → with_cors req s (inner req s) ≡ inner req s
  no_preflight inner req s e = rw e refl

  abbrev tower : (profile : Profile) → TowerHttp profile S
  tower profile = record {
    set_request_id = λ made inner req s. inner (with_id made req) s;
    propagate_request_id = λ inner req s. record (inner req s) {
      answer = answered_id req.request_id (inner req s).answer;
    };
    trace = λ inner. inner;
    catch_panic = λ inner req s. caught profile (inner req s);
    compression = λ inner. inner;
    timeout = λ seconds inner req s. timed_out (seconds * 1000) (inner req s);
    cors = λ inner req s. with_cors req s (inner req s);
    set_request_id_lem = λ made inner req s. refl;
    propagate_request_id_lem = λ inner req s. refl;
    trace_lem = λ inner req s. refl;
    catch_panic_some = answers profile;
    catch_panic_none = panics profile;
    catch_panic_abort = aborts profile;
    compression_lem = λ inner req s. refl;
    timeout_ends = over;
    timeout_late = late;
    cors_preflight = preflight;
    cors_other = no_preflight;
  }

-- The state counts the requests that were worked on.
abbrev handler : Service ℕ
handler req n =
    if str_eq req.method "POST"
    then record { took = some 31000; answer = some (bare 201); before = λ t. n; final = n + 1 }
    else if str_eq req.method "DELETE"
    then record { took = some 1; answer = none; before = λ t. n; final = n }
    else record { took = some 5; answer = some (bare 200); before = λ t. n; final = n + 1 }

abbrev get_request : Request
get_request = record { method = "GET"; matched = some "/v1/orders"; request_id = none }

abbrev get_labels : Labels
get_labels = record { method = "GET"; path = "/v1/orders"; status = "200" }

abbrev start : Tracked ℕ
start = record {
  app = 0;
  metrics = record { http_requests_total = (get_labels, 6) ∷ []; http_request_duration = [] };
}

abbrev after_get : Tracked ℕ
after_get = record {
  app = 1;
  metrics = record {
    http_requests_total = (get_labels, 7) ∷ [];
    http_request_duration = (get_labels, 5) ∷ [];
  };
}

with_middleware_lem_example :
    outcome (with_middleware (tower (Tracked ℕ) release) "id" handler get_request start)
    ≡ answered (record { status = 200; request_id = some "id" }) after_get
unfolding increment decimal same_labels
with_middleware_lem_example =
    with_middleware_lem (tower (Tracked ℕ) release) "id" handler get_request start

-- A panic ends a server that was built as a release.
abbrev deletion : Request
deletion = record get_request { method = "DELETE" }

dies : outcome (with_middleware (tower (Tracked ℕ) release) "id" handler deletion start) ≡ died 0
unfolding with_middleware track_metrics unwinds
dies = refl

value_at-with_middleware_example :
    let q = with_id "id" deletion in
    IsCounted release q
      (handler q 0)
      start.metrics.http_requests_total
      (outcome (with_middleware (tower (Tracked ℕ) release) "id" handler deletion start))
value_at-with_middleware_example =
    value_at-with_middleware (tower (Tracked ℕ) release) "id" handler deletion start
