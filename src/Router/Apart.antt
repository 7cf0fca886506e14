-- ===== src/Router/Apart.antt =====
-- No request matches two routes of the table, so that the router does what the first match says.
use mathlib.Core.Path.{subst}
use polyglot_commerce.Prelude.{
  ℕ, zero, suc, ◌≡◌, refl, ◌∙◌, ap, String, str_eq, eq_iff, Bool, true, false, not, ◌&&◌, ◌||◌,
  Option, none, some, List, [], ◌∷◌, ◌++◌, arith, find, Bool-cases, inl, inr,
}
use polyglot_commerce.Router.{
  Segment, exact, capture, Route, build, matches, Routed, not_found, by_method, NoneMatches, Axum,
}

-- Two paths that no request has both: they differ in length or in a segment that is no capture.
apart : List Segment → List Segment → Bool
apart [] [] = false
apart [] (q ∷ qs) = true
apart (p ∷ ps) [] = true
apart (exact a ∷ ps) (exact b ∷ qs) = not (str_eq a b) || apart ps qs
apart (exact a ∷ ps) (capture b ∷ qs) = apart ps qs
apart (capture a ∷ ps) (q ∷ qs) = apart ps qs

apart-matches :
    (ps qs : List Segment) (xs : List String)
    → apart ps qs ≡ true
    → matches ps xs ≡ true
    → matches qs xs ≡ false
unfolding apart
apart-matches [] [] xs a m = cc
apart-matches [] (q ∷ qs) [] a m = refl
apart-matches [] (q ∷ qs) (x ∷ xs) a m = cc
apart-matches (p ∷ ps) [] [] a m = cc
apart-matches (p ∷ ps) [] (x ∷ xs) a m = refl
apart-matches (exact b ∷ ps) (exact c ∷ qs) [] a m = cc
apart-matches (exact b ∷ ps) (exact c ∷ qs) (x ∷ xs) a m =
    ground (arith, apart-matches ps qs xs, eq_iff b x, eq_iff c x, eq_iff b c)
apart-matches (exact b ∷ ps) (capture c ∷ qs) [] a m = cc
apart-matches (exact b ∷ ps) (capture c ∷ qs) (x ∷ xs) a m = ground (arith, apart-matches ps qs xs)
apart-matches (capture b ∷ ps) (exact c ∷ qs) [] a m = cc
apart-matches (capture b ∷ ps) (exact c ∷ qs) (x ∷ xs) a m = ground (arith, apart-matches ps qs xs)
apart-matches (capture b ∷ ps) (capture c ∷ qs) [] a m = cc
apart-matches (capture b ∷ ps) (capture c ∷ qs) (x ∷ xs) a m =
    ground (arith, apart-matches ps qs xs)

apart_from : List Segment → List Route → Bool
apart_from p [] = true
apart_from p (r ∷ rs) = apart p r.path && apart_from p rs

all_apart : List Route → Bool
unfolding apart_from apart
all_apart [] = true
all_apart (r ∷ rs) = apart_from r.path rs && all_apart rs

NoneMatches-apart_from :
    (p : List Segment) (rs : List Route) (xs : List String)
    → apart_from p rs ≡ true
    → matches p xs ≡ true
    → NoneMatches xs rs
unfolding apart_from
NoneMatches-apart_from p [] xs a m = refl
NoneMatches-apart_from p (r ∷ rs) xs a m =
    ground (arith, apart-matches p r.path xs, NoneMatches-apart_from p rs xs)

abbrev pub finds : List String → List Route → Option Route
finds xs = find (λ (r : Route). matches r.path xs)

-- What the table says: the first route that matches.
abbrev pub reference : String → Option Route → Routed
reference m none = not_found
reference m (some r) = by_method m r

-- The one place in a table of a route that matches.
record Place (rs : List Route) (r : Route) (xs : List String) : Type 0 where
  before : List Route
  after : List Route
  split : rs ≡ before ++ r ∷ after
  none_before : NoneMatches xs before
  hit : matches r.path xs ≡ true
  none_after : NoneMatches xs after

place :
    (rs : List Route) (xs : List String) {r : Route}
    → all_apart rs ≡ true
    → finds xs rs ≡ some r
    → Place rs r xs
unfolding all_apart
place [] xs a f = absurd (ground (arith, f))
place (x ∷ rs) xs {r} a f = elim (Bool-cases (matches x.path xs)) [
  | inl hit ↦
      let e : x ≡ r = ground (arith, f, hit) in
      subst (λ (y : Route). Place (x ∷ rs) y xs) e
        record {
          before = [];
          after = rs;
          split = refl;
          none_before = refl;
          hit = hit;
          none_after = NoneMatches-apart_from x.path rs xs (ground (arith, a)) hit;
        }
  | inr miss ↦
      let rest = place rs xs {r = r} (ground (arith, a)) (ground (arith, f, miss)) in
      record {
        before = x ∷ rest.before;
        after = rest.after;
        split = ap (◌∷◌ x) rest.split;
        none_before = ground (arith, miss, rest.none_before);
        hit = rest.hit;
        none_after = rest.none_after;
      }
]

none-found : (rs : List Route) (xs : List String) → finds xs rs ≡ none → NoneMatches xs rs
none-found [] xs f = refl
none-found (r ∷ rs) xs f = ground (arith, none-found rs xs)

abbrev pub route_at : ℕ → List Route → Option Route
route_at n [] = none
route_at zero (r ∷ rs) = some r
route_at (suc n) (r ∷ rs) = route_at n rs

-- A request that matches an earlier route matches no later one.
matches-route_at :
    (n : ℕ) (p : List Segment) (rs : List Route) (xs : List String) {r : Route}
    → apart_from p rs ≡ true
    → route_at n rs ≡ some r
    → matches r.path xs ≡ true
    → matches p xs ≡ false
unfolding apart_from
matches-route_at n p [] xs a e m = absurd (ground (arith, e))
matches-route_at zero p (x ∷ rs) xs a e m = ground (arith, e, apart-matches p x.path xs)
matches-route_at (suc n) p (x ∷ rs) xs {r} a e m =
    matches-route_at n p rs xs {r = r} (ground (arith, a)) e m

finds-route_at :
    (n : ℕ) (rs : List Route) (xs : List String) {r : Route}
    → all_apart rs ≡ true
    → route_at n rs ≡ some r
    → matches r.path xs ≡ true
    → finds xs rs ≡ some r
unfolding all_apart
finds-route_at n [] xs a e m = absurd (ground (arith, e))
finds-route_at zero (x ∷ rs) xs a e m = ground (arith, e, m)
finds-route_at (suc n) (x ∷ rs) xs {r} a e m =
    ground (arith, matches-route_at n x.path rs xs {r = r}, finds-route_at n rs xs {r = r})

build-apart : all_apart build ≡ true
unfolding all_apart apart apart_from
build-apart = refl

module _ (axum : Axum) where
  pub route-build :
      (m : String) (xs : List String) → axum.route build m xs ≡ reference m (finds xs build)
  route-build m xs = by_found (finds xs build) refl
    where
      by_found :
          (found : Option Route)
          → finds xs build ≡ found
          → axum.route build m xs ≡ reference m found
      by_found none f = axum.route_none build m xs (none-found build xs f)
      by_found (some r) f =
          let p = place build xs {r = r} build-apart f in
          ap (λ (rs : List Route). axum.route rs m xs) p.split
          ∙ axum.route_one p.before r p.after m xs p.none_before p.hit p.none_after

pub finds-build :
    (n : ℕ) (xs : List String) {r : Route}
    → route_at n build ≡ some r
    → matches r.path xs ≡ true
    → finds xs build ≡ some r
finds-build n xs {r} = finds-route_at n build xs {r = r} build-apart
