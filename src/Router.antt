-- ===== src/Router.antt =====
-- server/src/router.rs and the `routes` functions of the four `mod.rs` files: the table of routes. How
-- axum finds a route in a table is a parameter, with what its documentation says of it.
pub mod Apart
pub mod Readme
pub mod Lookup
pub mod Endpoints
use polyglot_commerce.Prelude.{
  ◌+◌, ◌≡◌, String, str_eq, Bool, true, false, not, ◌&&◌, Option, none, some, List, [], ◌∷◌, ◌++◌,
  if◌then◌else◌, any,
}

-- The handlers, by module and name.
pub data Handler : Type 0 where
  register : Handler
  login : Handler
  refresh : Handler
  logout : Handler
  me : Handler
  list_products : Handler
  create_product : Handler
  get_product : Handler
  update_product : Handler
  archive_product : Handler
  list_categories : Handler
  create_category : Handler
  get_cart : Handler
  clear_cart : Handler
  add_item : Handler
  remove_item : Handler
  update_item : Handler
  list_orders : Handler
  checkout : Handler
  get_order : Handler
  cancel_order : Handler
  liveness : Handler
  readiness : Handler
  metrics : Handler

-- A segment of a path, `{name}` being a capture.
pub data Segment : Type 0 where
  exact : String → Segment
  capture : String → Segment

-- A route: its path, which begins with a slash, and its handlers by method.
pub record Route : Type 0 where
  pub path : List Segment
  pub methods : List (String × Handler)

-- `auth::routes`
abbrev pub auth_routes : List Route
auth_routes =
    record {
      path = exact "v1" ∷ exact "auth" ∷ exact "register" ∷ [];
      methods = ("POST", register) ∷ [];
    }
    ∷ record {
      path = exact "v1" ∷ exact "auth" ∷ exact "login" ∷ [];
      methods = ("POST", login) ∷ [];
    }
    ∷ record {
      path = exact "v1" ∷ exact "auth" ∷ exact "refresh" ∷ [];
      methods = ("POST", refresh) ∷ [];
    }
    ∷ record {
      path = exact "v1" ∷ exact "auth" ∷ exact "logout" ∷ [];
      methods = ("POST", logout) ∷ [];
    }
    ∷ record { path = exact "v1" ∷ exact "auth" ∷ exact "me" ∷ []; methods = ("GET", me) ∷ [] }
    ∷ []

-- `products::routes`
abbrev pub products_routes : List Route
products_routes =
    record {
      path = exact "v1" ∷ exact "products" ∷ [];
      methods = ("GET", list_products) ∷ ("POST", create_product) ∷ [];
    }
    ∷ record {
      path = exact "v1" ∷ exact "products" ∷ capture "id" ∷ [];
      methods = ("GET", get_product) ∷ ("PATCH", update_product) ∷ ("DELETE", archive_product) ∷ [];
    }
    ∷ record {
      path = exact "v1" ∷ exact "categories" ∷ [];
      methods = ("GET", list_categories) ∷ ("POST", create_category) ∷ [];
    }
    ∷ []

-- `cart::routes`
abbrev pub cart_routes : List Route
cart_routes =
    record {
      path = exact "v1" ∷ exact "cart" ∷ [];
      methods = ("GET", get_cart) ∷ ("DELETE", clear_cart) ∷ [];
    }
    ∷ record {
      path = exact "v1" ∷ exact "cart" ∷ exact "items" ∷ [];
      methods = ("POST", add_item) ∷ [];
    }
    ∷ record {
      path = exact "v1" ∷ exact "cart" ∷ exact "items" ∷ capture "product_id" ∷ [];
      methods = ("DELETE", remove_item) ∷ ("PATCH", update_item) ∷ [];
    }
    ∷ []

-- `orders::routes`
abbrev pub orders_routes : List Route
orders_routes =
    record {
      path = exact "v1" ∷ exact "orders" ∷ [];
      methods = ("GET", list_orders) ∷ ("POST", checkout) ∷ [];
    }
    ∷ record {
      path = exact "v1" ∷ exact "orders" ∷ capture "id" ∷ [];
      methods = ("GET", get_order) ∷ [];
    }
    ∷ record {
      path = exact "v1" ∷ exact "orders" ∷ capture "id" ∷ exact "cancel" ∷ [];
      methods = ("POST", cancel_order) ∷ [];
    }
    ∷ []

-- The table of `build`.
abbrev pub build : List Route
build =
    auth_routes
    ++ products_routes
    ++ cart_routes
    ++ orders_routes
    ++ record { path = exact "healthz" ∷ []; methods = ("GET", liveness) ∷ [] }
      ∷ record { path = exact "readyz" ∷ []; methods = ("GET", readiness) ∷ [] }
      ∷ record { path = exact "metrics" ∷ []; methods = ("GET", metrics) ∷ [] }
      ∷ []

-- Whether a path matches: a capture takes one segment that is not empty.
abbrev pub matches : List Segment → List String → Bool
matches [] [] = true
matches [] (x ∷ xs) = false
matches (p ∷ ps) [] = false
matches (exact a ∷ ps) (x ∷ xs) = str_eq a x && matches ps xs
matches (capture n ∷ ps) (x ∷ xs) = not (str_eq x "") && matches ps xs

-- What the router does with a request: a handler of a route, 405, or 404.
pub data Routed : Type 0 where
  handled : List Segment → Handler → Routed
  method_not_allowed : Routed
  not_found : Routed

abbrev pub for_method : String → List (String × Handler) → Option Handler
for_method m [] = none
for_method m ((n, h) ∷ methods) =
    let rest = for_method m methods in if str_eq m n then some h else rest

abbrev pub or_not_allowed : List Segment → Option Handler → Routed
or_not_allowed path none = method_not_allowed
or_not_allowed path (some h) = handled path h

abbrev pub or_get : String → List (String × Handler) → Option Handler → Option Handler
or_get m methods (some h) = some h
or_get m methods none = if str_eq m "HEAD" then for_method "GET" methods else none

-- A route's answer to a method; `get` takes HEAD as well.
abbrev pub by_method : String → Route → Routed
by_method m r = or_not_allowed r.path (or_get m r.methods (for_method m r.methods))

abbrev pub NoneMatches : List String → List Route → Type 0
NoneMatches path rs = any (λ (r : Route). matches r.path path) rs ≡ false

-- `Router`: the route that matches is used if it is the only one; without one the answer is 404.
pub record Axum : Type 0 where
  pub route : List Route → String → List String → Routed
  pub route_one :
      (before : List Route) (r : Route) (after : List Route) (m : String) (path : List String)
      → NoneMatches path before
      → matches r.path path ≡ true
      → NoneMatches path after
      → route (before ++ r ∷ after) m path ≡ by_method m r
  pub route_none :
      (rs : List Route) (m : String) (path : List String)
      → NoneMatches path rs
      → route rs m path ≡ not_found
