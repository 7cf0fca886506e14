-- ===== src/Tests/Router.antt =====
-- The table with a router that takes the first route that matches.
use polyglot_commerce.Prelude.{
  ◌≡◌, ◌↔◌, refl, ◌∙◌, ap, String, true, some, List, [], ◌∷◌, ◌++◌, arith, find-append-absent,
}
use polyglot_commerce.Router.{
  Route, build, matches, Routed, handled, method_not_allowed, not_found, by_method, NoneMatches,
  Axum, get_order,
}
use polyglot_commerce.Router.Apart.{finds, reference}
use polyglot_commerce.Router.Readme.{path_of, accepts}
use polyglot_commerce.Router.Endpoints.{route_iff}

first_match : List Route → String → List String → Routed
first_match rs m xs = reference m (finds xs rs)

first_match_one :
    (before : List Route) (r : Route) (after : List Route) (m : String) (xs : List String)
    → NoneMatches xs before
    → matches r.path xs ≡ true
    → NoneMatches xs after
    → first_match (before ++ r ∷ after) m xs ≡ by_method m r
unfolding first_match
first_match_one before r after m xs none_before hit none_after =
    let first : finds xs (r ∷ after) ≡ some r = rw hit refl in
    ap (reference m)
      (find-append-absent (λ (q : Route). matches q.path xs) before (r ∷ after) none_before ∙ first)

first_match_none :
    (rs : List Route) (m : String) (xs : List String)
    → NoneMatches xs rs
    → first_match rs m xs ≡ not_found
unfolding first_match
first_match_none [] m xs e = refl
first_match_none (r ∷ rs) m xs e = ground (arith, e, first_match_none rs m xs)

abbrev axum : Axum
axum = record { route = first_match; route_one = first_match_one; route_none = first_match_none }

route_iff_example :
    (axum.route build "HEAD" ("v1" ∷ "orders" ∷ "7" ∷ []) ≡ handled (path_of get_order) get_order)
    ↔ ((accepts "GET" "HEAD" ≡ true)
        × (matches (path_of get_order) ("v1" ∷ "orders" ∷ "7" ∷ []) ≡ true))
route_iff_example = route_iff axum get_order "HEAD" ("v1" ∷ "orders" ∷ "7" ∷ [])

get_sent : axum.route build "GET" ("v1" ∷ "orders" ∷ "7" ∷ "cancel" ∷ []) ≡ method_not_allowed
unfolding first_match
get_sent = refl
