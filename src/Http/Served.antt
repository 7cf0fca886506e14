-- ===== src/Http/Served.antt =====
-- What the whole stack answers and records, for each way that the run of a handler can end.
use polyglot_commerce.Prelude.{
  ℕ, ◌≡◌, refl, ◌∙◌, ap, String, true, false, Option, none, some, ◌∷◌, arith, leb, if◌then◌else◌,
  Bool-cases, Option-cases, inl, inr,
}
use polyglot_commerce.Telemetry.{
  Request, Response, Run, Service, Metrics, Tracked, labels_of, increment, track_metrics,
}
use polyglot_commerce.Http.{
  Profile, dev, release, unwinds, with_id, response_id, answered_id, bare, ends, is_preflight,
  TowerHttp, with_middleware,
}

-- How a request ends: with an answer, from a server that goes on with a state, or with the process.
-- Then the metrics are gone with it, and what the handler did to the rest, such as rows, is left.
pub data Outcome (A : Type 0) : Type 0 where
  answered : Response → Tracked A → Outcome A
  died : A → Outcome A

abbrev pub ended_as : {A : Type 0} → Option Response → Tracked A → Outcome A
ended_as none s = died s.app
ended_as (some r) s = answered r s

abbrev pub outcome : {A : Type 0} → Run (Tracked A) → Outcome A
outcome run = ended_as run.answer run.final

-- The metrics with one sample more: the counter of its labels, and the time that it took.
abbrev pub sampled : Request → ℕ → Response → Metrics → Metrics
sampled req elapsed r m = record {
  http_requests_total = increment (labels_of req r) m.http_requests_total;
  http_request_duration = (labels_of req r, elapsed) ∷ m.http_request_duration;
}

abbrev pub ended : {A : Type 0} → Profile → Request → A → ℕ → Option Response → Metrics → Outcome A
ended dev req left elapsed none m = answered (bare 500) (record { app = left; metrics = m })
ended release req left elapsed none m = died left
ended profile req left elapsed (some r) m =
    answered r (record { app = left; metrics = sampled req elapsed r m })

-- What is expected of a request that is no preflight.
abbrev pub expected : {A : Type 0} → Profile → Request → Option ℕ → Run A → Metrics → Outcome A
expected profile req none run m =
    answered (bare 408) (record { app = run.before 30000; metrics = m })
expected profile req (some t) run m =
    if leb t 30000
    then ended profile req run.final t run.answer m
    else answered (bare 408) (record { app = run.before 30000; metrics = m })

-- The laws of three of the layers, each as one function of a run.
abbrev pub timed_out : {S : Type 0} → ℕ → Run S → Run S
timed_out limit run =
    if ends limit run.took
    then run
    else record run { took = some limit; answer = some (bare 408); final = run.before limit }

abbrev pub caught_answer : Profile → Option Response → Option Response
caught_answer profile none = if unwinds profile then some (bare 500) else none
caught_answer profile (some r) = some r

abbrev pub caught : {S : Type 0} → Profile → Run S → Run S
caught profile run = record run { answer = caught_answer profile run.answer }

abbrev pub with_cors : {S : Type 0} → Request → S → Run S → Run S
with_cors req s run =
    if is_preflight req
    then record { took = some 0; answer = some (bare 200); before = λ t. s; final = s }
    else run

module _ {profile : Profile} {S : Type 0} (tower : TowerHttp profile S) (inner : Service S)
    (req : Request) (s : S) where
  timeout-run : tower.timeout 30 inner req s ≡ timed_out 30000 (inner req s)
  timeout-run = elim (Bool-cases (ends 30000 (inner req s).took)) [
    | inl soon ↦ rw soon (tower.timeout_ends 30 inner req s soon)
    | inr late ↦ rw late (tower.timeout_late 30 inner req s late)
  ]

  catch_panic-run : tower.catch_panic inner req s ≡ caught profile (inner req s)
  catch_panic-run = elim (Option-cases (inner req s).answer) [
    | inl panics ↦ elim (Bool-cases (unwinds profile)) [
      | inl on ↦ tower.catch_panic_none inner req s on panics ∙ rw (panics, on) refl
      | inr off ↦ tower.catch_panic_abort inner req s off panics ∙ lost off panics
    ]
    | inr (r, answers) ↦ tower.catch_panic_some inner req s r answers ∙ kept r answers
  ]
    where
      kept :
          (r : Response)
          → (inner req s).answer ≡ some r
          → inner req s ≡ caught profile (inner req s)
      kept r e = ground (arith, e)

      lost :
          unwinds profile ≡ false
          → (inner req s).answer ≡ none
          → inner req s ≡ caught profile (inner req s)
      lost off e = ground (arith, off, e)

  cors-run : tower.cors inner req s ≡ with_cors req s (inner req s)
  cors-run = elim (Bool-cases (is_preflight req)) [
    | inl preflight ↦ rw preflight (tower.cors_preflight inner req s preflight)
    | inr other ↦ rw other (tower.cors_other inner req s other)
  ]

panicked :
    {A : Type 0} (profile : Profile) (req : Request) (left : A) (t : ℕ) (m : Metrics)
    → ended_as (caught_answer profile none) (record { app = left; metrics = m })
      ≡ ended profile req left t none m
unfolding unwinds
panicked dev req left t m = refl
panicked release req left t m = refl

-- The outcome with the id of the request on its answer.
abbrev pub identified : {A : Type 0} → Option String → Outcome A → Outcome A
identified id (answered r s) = answered (response_id id r) s
identified id (died left) = died left

ended_as-identified :
    {A : Type 0} (id : Option String) (answer : Option Response) (s : Tracked A)
    → ended_as (answered_id id answer) s ≡ identified id (ended_as answer s)
ended_as-identified id none s = refl
ended_as-identified id (some r) s = refl

module _ {profile : Profile} {A : Type 0} (tower : TowerHttp profile (Tracked A)) (made : String)
    (app : Service A) where
  stack-run :
      (req : Request) (s : Tracked A)
      → let q = with_id made req in
        let run = caught profile (timed_out 30000 (with_cors q s (track_metrics app q s))) in
        with_middleware tower made app req s
        ≡ record run { answer = answered_id q.request_id run.answer }
  unfolding with_middleware
  stack-run req s =
      let q = with_id made req in
      let c = tower.cors (track_metrics app) in
      let t = tower.timeout 30 c in
      let z = tower.compression t in
      let g = tower.catch_panic z in
      let r = tower.trace g in
      tower.set_request_id_lem made (tower.propagate_request_id r) req s
      ∙ tower.propagate_request_id_lem r q s
      ∙ ap (λ (run : Run (Tracked A)). record run { answer = answered_id q.request_id run.answer })
          (tower.trace_lem g q s
            ∙ catch_panic-run tower z q s
            ∙ ap (caught profile) (
                tower.compression_lem t q s
                ∙ timeout-run tower c q s
                ∙ ap (timed_out 30000) (cors-run tower (track_metrics app) q s)))

  ended-run :
      (q : Request) (s : Tracked A)
      → outcome (caught profile (timed_out 30000 (track_metrics app q s)))
        ≡ expected profile q (app q s.app).took (app q s.app) s.metrics
  unfolding track_metrics
  ended-run q s = by_time (app q s.app).took refl
    where
      by_answer :
          (t : ℕ) (answer : Option Response)
          → (app q s.app).took ≡ some t
          → (app q s.app).answer ≡ answer
          → leb t 30000 ≡ true
          → outcome (caught profile (timed_out 30000 (track_metrics app q s)))
            ≡ ended profile q (app q s.app).final t answer s.metrics
      by_answer t none e a soon =
          rw (e, soon, a) (panicked profile q (app q s.app).final t s.metrics)
      by_answer t (some r) e a soon = rw (e, soon, a) refl

      by_time :
          (took : Option ℕ)
          → (app q s.app).took ≡ took
          → outcome (caught profile (timed_out 30000 (track_metrics app q s)))
            ≡ expected profile q took (app q s.app) s.metrics
      by_time none e = rw e refl
      by_time (some t) e = elim (Bool-cases (leb t 30000)) [
        | inl soon ↦ by_answer t (app q s.app).answer e refl soon ∙ rw soon refl
        | inr late ↦ rw (e, late) refl
      ]

  -- What the middleware stack makes of each request: OPTIONS is answered 200 and never reaches the
  -- handler. Else, where the handler ends within 30 seconds, the client gets its answer and one sample
  -- of it is recorded, unless it panics: in a `release` build, which aborts on a panic, the process
  -- then ends without an answer; in a `dev` build the client gets 500 and no sample is
  -- recorded. Where it does not end within 30 seconds, the client gets 408, the handler stops as it
  -- stands, and no sample is recorded. Each answer carries the request's id, or the one made for it,
  -- unless the handler has set another.
  pub with_middleware_lem :
      (req : Request) (s : Tracked A)
      → let q = with_id made req in
        outcome (with_middleware tower made app req s)
        ≡ identified q.request_id (
            if is_preflight req
            then answered (bare 200) s
            else expected profile q (app q s.app).took (app q s.app) s.metrics)
  with_middleware_lem req s =
      let q = with_id made req in
      let run = caught profile (timed_out 30000 (with_cors q s (track_metrics app q s))) in
      ap outcome (stack-run req s)
      ∙ ended_as-identified q.request_id run.answer run.final
      ∙ elim (Bool-cases (is_preflight req)) [
        | inl preflight ↦ rw preflight refl
        | inr other ↦ rw other (ap (identified q.request_id) (ended-run q s))
      ]
