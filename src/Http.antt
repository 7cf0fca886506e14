-- ===== src/Http.antt =====
-- common/src/http.rs: the middleware stack. The layers of `tower-http` are parameters with what their
-- documentation says of them; a response keeps its status and its `x-request-id` here. What a panic
-- does is set in rust/Cargo.toml for the profile of the build, `release` in the Dockerfile.
pub mod Served
pub mod Counted
use polyglot_commerce.Prelude.{
  ℕ, ◌*◌, ◌≡◌, String, str_eq, Bool, true, false, Option, none, some, leb,
}
use polyglot_commerce.Telemetry.{Request, Response, Run, Service, Tracked, track_metrics}

-- The profiles of Cargo.
pub data Profile : Type 0 where
  dev : Profile
  release : Profile

-- `panic = "abort"` in the profile `release`; a panic unwinds by default.
unfoldable pub unwinds : Profile → Bool
unwinds dev = true
unwinds release = false

abbrev or_made : String → Option String → String
or_made made none = made
or_made made (some id) = id

-- A request as `SetRequestIdLayer` passes it on: an id that it has stays.
abbrev pub with_id : String → Request → Request
with_id made req = record req { request_id = some (or_made made req.request_id) }

abbrev first_some : Option String → Option String → Option String
first_some none other = other
first_some (some id) other = some id

-- A response as `PropagateRequestIdLayer` passes it on.
abbrev pub response_id : Option String → Response → Response
response_id id r = record r { request_id = first_some r.request_id id }

abbrev pub answered_id : Option String → Option Response → Option Response
answered_id id none = none
answered_id id (some r) = some (response_id id r)

abbrev pub bare : ℕ → Response
bare status = record { status = status; request_id = none }

-- Whether a run ends within so many milliseconds.
abbrev pub ends : ℕ → Option ℕ → Bool
ends limit none = false
ends limit (some t) = leb t limit

abbrev pub is_preflight : Request → Bool
is_preflight req = str_eq req.method "OPTIONS"

-- The layers that are used. `MakeRequestUuid` draws the id that `set_request_id` takes. Where a panic
-- does not unwind there is nothing to catch: the run is still without an answer, as the process ended.
pub record TowerHttp (profile : Profile) (S : Type 0) : Type 0 where
  pub set_request_id : String → Service S → Service S
  pub propagate_request_id : Service S → Service S
  pub trace : Service S → Service S
  pub catch_panic : Service S → Service S
  pub compression : Service S → Service S
  pub timeout : ℕ → Service S → Service S
  pub cors : Service S → Service S
  pub set_request_id_lem :
      (made : String) (inner : Service S) (req : Request) (s : S)
      → set_request_id made inner req s ≡ inner (with_id made req) s
  pub propagate_request_id_lem :
      (inner : Service S) (req : Request) (s : S)
      → propagate_request_id inner req s
        ≡ record (inner req s) { answer = answered_id req.request_id (inner req s).answer }
  pub trace_lem : (inner : Service S) (req : Request) (s : S) → trace inner req s ≡ inner req s
  pub catch_panic_some :
      (inner : Service S) (req : Request) (s : S) (r : Response)
      → (inner req s).answer ≡ some r
      → catch_panic inner req s ≡ inner req s
  pub catch_panic_none :
      (inner : Service S) (req : Request) (s : S)
      → unwinds profile ≡ true
      → (inner req s).answer ≡ none
      → catch_panic inner req s ≡ record (inner req s) { answer = some (bare 500) }
  pub catch_panic_abort :
      (inner : Service S) (req : Request) (s : S)
      → unwinds profile ≡ false
      → (inner req s).answer ≡ none
      → catch_panic inner req s ≡ inner req s
  pub compression_lem :
      (inner : Service S) (req : Request) (s : S) → compression inner req s ≡ inner req s
  pub timeout_ends :
      (seconds : ℕ) (inner : Service S) (req : Request) (s : S)
      → ends (seconds * 1000) (inner req s).took ≡ true
      → timeout seconds inner req s ≡ inner req s
  pub timeout_late :
      (seconds : ℕ) (inner : Service S) (req : Request) (s : S)
      → ends (seconds * 1000) (inner req s).took ≡ false
      → timeout seconds inner req s ≡ record (inner req s) {
        took = some (seconds * 1000);
        answer = some (bare 408);
        final = (inner req s).before (seconds * 1000);
      }
  pub cors_preflight :
      (inner : Service S) (req : Request) (s : S)
      → is_preflight req ≡ true
      → cors inner req s
        ≡ record { took = some 0; answer = some (bare 200); before = λ t. s; final = s }
  pub cors_other :
      (inner : Service S) (req : Request) (s : S)
      → is_preflight req ≡ false
      → cors inner req s ≡ inner req s

-- `with_middleware`: of the layers of a `ServiceBuilder` the first is the outermost, and of two calls
-- of `Router::layer` the last is.
unfoldable pub with_middleware :
    {profile : Profile} {A : Type 0}
    → TowerHttp profile (Tracked A)
    → String
    → Service A
    → Service (Tracked A)
with_middleware tower made app = tower.set_request_id made (
    tower.propagate_request_id (
      tower.trace (
        tower.catch_panic (tower.compression (tower.timeout 30 (tower.cors (track_metrics app)))))))
