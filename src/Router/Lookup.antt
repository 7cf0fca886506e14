-- ===== src/Router/Lookup.antt =====
-- The handler that a route has for a method is one that stands under it.
use polyglot_commerce.Prelude.{
  ◌≡◌, refl, ◌∙◌, sym, ap, String, str_eq, eq_iff, Bool, true, false, ◌&&◌, Option, none, some,
  List, [], ◌∷◌, arith, Bool-cases, Option-cases, inl, inr,
}
use polyglot_commerce.Router.{
  Handler, Segment, Route, matches, handled, for_method, or_get, or_not_allowed, by_method,
}
use polyglot_commerce.Router.Apart.{finds}
use polyglot_commerce.Router.Readme.{method_of, accepts}

-- Each handler stands under its own method.
abbrev pub own_methods : (Handler → String) → List (String × Handler) → Bool
own_methods f [] = true
own_methods f ((n, h) ∷ methods) = str_eq (f h) n && own_methods f methods

abbrev pub all_own : List Route → Bool
all_own [] = true
all_own (r ∷ rs) = own_methods method_of r.methods && all_own rs

and-left : (a b : Bool) → (a && b) ≡ true → a ≡ true
and-left true b h = refl
and-left false b h = h

and-right : (a b : Bool) → (a && b) ≡ true → b ≡ true
and-right true b h = h
and-right false b h = absurd (cc)

own_first :
    (r : Route) (rs : List Route) → all_own (r ∷ rs) ≡ true → own_methods method_of r.methods ≡ true
own_first r rs a = and-left (own_methods method_of r.methods) (all_own rs) a

own_rest : (r : Route) (rs : List Route) → all_own (r ∷ rs) ≡ true → all_own rs ≡ true
own_rest r rs a = and-right (own_methods method_of r.methods) (all_own rs) a

for_method-own :
    (f : Handler → String) (m : String) (methods : List (String × Handler)) {h : Handler}
    → own_methods f methods ≡ true
    → for_method m methods ≡ some h
    → str_eq m (f h) ≡ true
for_method-own f m [] a e = absurd (ground (arith, e))
for_method-own f m ((n, k) ∷ methods) {h} a e = elim (Bool-cases (str_eq m n)) [
  | inl same ↦
      let it : k ≡ h = ground (arith, e, same) in
      ap (λ (x : Handler). str_eq m (f x)) (sym it)
      ∙ ap (str_eq m) ((eq_iff (f k) n).0 (ground (arith, a)))
      ∙ same
  | inr other ↦ for_method-own f m methods {h = h} (ground (arith, a)) (ground (arith, e, other))
]

or_get-own :
    (f : Handler → String) (m : String) (methods : List (String × Handler)) {h : Handler}
    → own_methods f methods ≡ true
    → or_get m methods (for_method m methods) ≡ some h
    → accepts (f h) m ≡ true
or_get-own f m methods {h} a e = elim (Option-cases (for_method m methods)) [
  | inl none_here ↦
      let head : str_eq m "HEAD" ≡ true = ground (arith, e, none_here) in
      let got : for_method "GET" methods ≡ some h = ground (arith, e, none_here) in
      ground (
        arith,
        head,
        for_method-own f "GET" methods {h = h} a got,
        eq_iff "GET" (f h),
        eq_iff (f h) "GET",
      )
  | inr (k, found) ↦
      let it : k ≡ h = ground (arith, e, found) in
      ground (arith, for_method-own f m methods {h = h} a (found ∙ ap some it))
]

pub by_method-own :
    (m : String) (r : Route) (p : List Segment) {h : Handler}
    → own_methods method_of r.methods ≡ true
    → by_method m r ≡ handled p h
    → (r.path ≡ p) × (accepts (method_of h) m ≡ true)
by_method-own m r p {h} a e = by_lookup (or_get m r.methods (for_method m r.methods)) refl
  where
    by_lookup :
        (found : Option Handler)
        → or_get m r.methods (for_method m r.methods) ≡ found
        → (r.path ≡ p) × (accepts (method_of h) m ≡ true)
    by_lookup none f = absurd (cc)
    by_lookup (some k) f =
        let both : handled r.path k ≡ handled p h = ap (or_not_allowed r.path) (sym f) ∙ e in
        let it : k ≡ h = ground (arith, both) in
        let found : or_get m r.methods (for_method m r.methods) ≡ some h = f ∙ ap some it in
        (ground (arith, both), or_get-own method_of m r.methods {h = h} a found)

pub found-own :
    (xs : List String) (rs : List Route) {r : Route}
    → all_own rs ≡ true
    → finds xs rs ≡ some r
    → own_methods method_of r.methods ≡ true
found-own xs [] a e = absurd (ground (arith, e))
found-own xs (x ∷ rs) {r} a e = elim (Bool-cases (matches x.path xs)) [
  | inl hit ↦
      let it : x ≡ r = ground (arith, e, hit) in
      ap (λ (q : Route). own_methods method_of q.methods) (sym it) ∙ own_first x rs a
  | inr miss ↦ found-own xs rs {r = r} (own_rest x rs a) (ground (arith, e, miss))
]
