-- ===== src/Http/Counted.antt =====
-- What the counter `http_requests_total` counts.
use polyglot_commerce.Prelude.{
  ℕ, ◌+◌, ◌≡◌, refl, ◌∙◌, ap, String, Bool, true, false, Option, none, some, List, arith, leb,
  if◌then◌else◌, length, Bool-cases, inl, inr,
}
use polyglot_commerce.Telemetry.{
  Labels, same_labels, Request, Response, Run, Service, Metrics, Tracked, labels_of, increment,
}
use polyglot_commerce.Telemetry.Series.{value_at, value_at-increment, has_series, length-increment}
use polyglot_commerce.Http.{
  Profile, dev, release, bare, response_id, with_id, is_preflight, ends, TowerHttp, with_middleware,
}
use polyglot_commerce.Http.Served.{
  Outcome, answered, died, outcome, identified, sampled, ended, expected, with_middleware_lem,
}

-- The answer of a handler that ends within 30 seconds without a panic.
abbrev pub in_time : Option ℕ → Option Response → Option Response
in_time none answer = none
in_time (some t) answer = if leb t 30000 then answer else none

abbrev pub labels_if : Request → Option Response → Option Labels
labels_if req none = none
labels_if req (some r) = some (labels_of req r)

-- The labels that a request is counted under, if it is counted.
abbrev pub counted_as : {A : Type 0} → Request → Run A → Option Labels
counted_as req run = if is_preflight req then none else labels_if req (in_time run.took run.answer)

abbrev pub is_counted : Labels → Option Labels → Bool
is_counted j none = false
is_counted j (some k) = same_labels j k

abbrev pub is_series : Option Labels → List (Labels × ℕ) → Bool
is_series none series = true
is_series (some k) series = has_series k series

abbrev counted : Option Labels → List (Labels × ℕ) → List (Labels × ℕ)
counted none series = series
counted (some k) series = increment k series

-- A handler that is reached panics within 30 seconds, where a panic ends the process.
abbrev pub IsAborted : {A : Type 0} → Profile → Request → Run A → Type 0
IsAborted profile req run =
    (profile ≡ release)
    × (is_preflight req ≡ false)
    × (ends 30000 run.took ≡ true)
    × (run.answer ≡ none)

-- What a request adds to the series, or that it ends the process, the series with it.
abbrev pub IsCounted :
    {A : Type 0} → Profile → Request → Run A → List (Labels × ℕ) → Outcome A → Type 0
IsCounted profile req run series (answered r s) =
    let k = counted_as req run in
    ((j : Labels)
      → value_at j s.metrics.http_requests_total
        ≡ value_at j series + (if is_counted j k then 1 else 0))
    × (length s.metrics.http_requests_total ≡ length series + (if is_series k series then 0 else 1))
IsCounted profile req run series (died left) = IsAborted profile req run

value_at-counted :
    (j : Labels) (k : Option Labels) (series : List (Labels × ℕ))
    → value_at j (counted k series) ≡ value_at j series + (if is_counted j k then 1 else 0)
value_at-counted j none series = omega arith
value_at-counted j (some k) series = value_at-increment j k series

length-counted :
    (k : Option Labels) (series : List (Labels × ℕ))
    → length (counted k series) ≡ length series + (if is_series k series then 0 else 1)
length-counted none series = omega arith
length-counted (some k) series = length-increment k series

-- The series that a server which goes on has after a request.
counts :
    {A : Type 0} (profile : Profile) (req : Request) (run : Run A) (series : List (Labels × ℕ))
    (r : Response) (s : Tracked A)
    → s.metrics.http_requests_total ≡ counted (counted_as req run) series
    → IsCounted profile req run series (answered r s)
counts profile req run series r s e = (
  λ j. ap (value_at j) e ∙ value_at-counted j (counted_as req run) series,
  ap length e ∙ length-counted (counted_as req run) series,
)

module _ {A : Type 0} (profile : Profile) (id : Option String) (q : Request) (run : Run A)
    (m : Metrics) where
  ended-IsCounted :
      (t : ℕ) (answer : Option Response)
      → is_preflight q ≡ false
      → run.took ≡ some t
      → leb t 30000 ≡ true
      → run.answer ≡ answer
      → IsCounted profile q run m.http_requests_total
          (identified id (ended profile q run.final t answer m))
  ended-IsCounted t none other e soon a = by_profile profile refl
    where
      by_profile :
          (built : Profile)
          → profile ≡ built
          → IsCounted profile q run m.http_requests_total
              (identified id (ended built q run.final t none m))
      by_profile dev k =
          counts profile q run m.http_requests_total (response_id id (bare 500))
            (record { app = run.final; metrics = m }) (rw (other, e, soon, a) refl)
      by_profile release k = (k, other, rw e soon, a)
  ended-IsCounted t (some r) other e soon a =
      counts profile q run m.http_requests_total (response_id id r)
        (record { app = run.final; metrics = sampled q t r m }) (rw (other, e, soon, a) refl)

  expected-IsCounted :
      (took : Option ℕ)
      → is_preflight q ≡ false
      → run.took ≡ took
      → IsCounted profile q run m.http_requests_total
          (identified id (expected profile q took run m))
  expected-IsCounted none other e =
      counts profile q run m.http_requests_total (response_id id (bare 408))
        (record { app = run.before 30000; metrics = m }) (rw (other, e) refl)
  expected-IsCounted (some t) other e = elim (Bool-cases (leb t 30000)) [
    | inl soon ↦ rw soon (ended-IsCounted t run.answer other e soon refl)
    | inr late ↦ rw late (
        counts profile q run m.http_requests_total (response_id id (bare 408))
          (record { app = run.before 30000; metrics = m }) (rw (other, e, late) refl))
  ]

module _ {profile : Profile} {A : Type 0} (tower : TowerHttp profile (Tracked A)) (made : String)
    (app : Service A) where
  -- If the server goes on, a request has added one to the counter of its labels, and to no other, if
  -- its handler was reached and answered within 30 seconds, and else, as after an OPTIONS request, a
  -- timeout, or a panic in a `dev` build, nothing; the number of series has grown by one if the request
  -- was counted under labels that no series had. The process ends, and with it all its counters, only
  -- in a `release` build, where the handler is reached and panics within 30 seconds.
  pub value_at-with_middleware :
      (req : Request) (s : Tracked A)
      → let q = with_id made req in
        IsCounted profile q
          (app q s.app)
          s.metrics.http_requests_total
          (outcome (with_middleware tower made app req s))
  value_at-with_middleware req s =
      let q = with_id made req in
      rw (with_middleware_lem tower made app req s) elim (Bool-cases (is_preflight req)) [
        | inl preflight ↦ rw preflight (
            counts profile q (app q s.app) s.metrics.http_requests_total
              (response_id q.request_id (bare 200)) s (rw preflight refl))
        | inr other ↦ rw other (
            expected-IsCounted profile q.request_id q (app q s.app) s.metrics (app q s.app).took
              other refl)
      ]
