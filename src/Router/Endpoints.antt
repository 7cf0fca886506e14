-- ===== src/Router/Endpoints.antt =====
-- The table sends just the requests to a handler that the README says.
use polyglot_commerce.Prelude.{
  ◌≡◌, ◌↔◌, refl, ◌∙◌, sym, ap, String, str_eq, eq_iff, true, ◌&&◌, Option, none, some, List, arith,
  find-holds, Bool-cases, inl, inr,
}
use polyglot_commerce.Router.{Handler, Segment, Route, build, matches, handled, by_method, Axum}
use polyglot_commerce.Router.Apart.{finds, reference, route-build, finds-build}
use polyglot_commerce.Router.Readme.{method_of, path_of, accepts, index_of, Answers, answers}
use polyglot_commerce.Router.Lookup.{by_method-own, found-own}

module _ (axum : Axum) (h : Handler) (m : String) (xs : List String) where
  -- A route that handles is that of the endpoint.
  found-endpoint :
      (found : Option Route)
      → finds xs build ≡ found
      → reference m found ≡ handled (path_of h) h
      → (accepts (method_of h) m ≡ true) × (matches (path_of h) xs ≡ true)
  found-endpoint none f e = absurd (cc)
  found-endpoint (some r) f e =
      let own = found-own xs build {r = r} refl f in
      let (path, method) = by_method-own m r (path_of h) {h = h} own e in
      (
        method,
        ap (λ (p : List Segment). matches p xs) (sym path)
            ∙ find-holds (λ (q : Route). matches q.path xs) build {x = r} f,
      )

  by_method-accepts :
      (a : Answers h) → accepts (method_of h) m ≡ true → by_method m a.route ≡ handled (path_of h) h
  by_method-accepts a ok = elim (Bool-cases (str_eq m (method_of h))) [
    | inl same ↦
        ap (λ (n : String). by_method n a.route) ((eq_iff m (method_of h)).0 same) ∙ a.method
    | inr other ↦
        let head : (str_eq m "HEAD" && str_eq (method_of h) "GET") ≡ true = rw other at ok in
        ap (λ (n : String). by_method n a.route) ((eq_iff m "HEAD").0 (ground (arith, head)))
        ∙ a.head (ground (arith, head))
  ]

  -- A handler of the server answers a request exactly where the README says: where the method is that
  -- of its endpoint (GET endpoints take HEAD as well) and the path has its form, each capture being
  -- a segment that is not empty. No other route gets in the way.
  pub route_iff :
      (axum.route build m xs ≡ handled (path_of h) h)
      ↔ ((accepts (method_of h) m ≡ true) × (matches (path_of h) xs ≡ true))
  route_iff =
      let a = answers h in
      (
        λ e. found-endpoint (finds xs build) refl (sym (route-build axum m xs) ∙ e),
        λ g.
            route-build axum m xs
            ∙ ap (reference m) (
                finds-build (index_of h) xs {r = a.route} a.stands
                  (ap (λ (p : List Segment). matches p xs) a.path ∙ g.1))
            ∙ by_method-accepts a g.0,
      )
