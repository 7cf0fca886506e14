-- ===== src/Router/Readme.antt =====
-- The endpoints as the README lists them, and the route of each in the table.
use polyglot_commerce.Prelude.{
  ℕ, ◌≡◌, refl, String, str_eq, Bool, true, false, ◌&&◌, ◌||◌, some, List, [], ◌∷◌, arith,
}
use polyglot_commerce.Router.{
  Handler, Segment, exact, capture, Route, build, handled, by_method, register, login, refresh,
  logout, me, list_products, create_product, get_product, update_product, archive_product,
  list_categories, create_category, get_cart, clear_cart, add_item, remove_item, update_item,
  list_orders, checkout, get_order, cancel_order, liveness, readiness, metrics,
}
use polyglot_commerce.Router.Apart.{route_at}

abbrev pub method_of : Handler → String
method_of register = "POST"
method_of login = "POST"
method_of refresh = "POST"
method_of logout = "POST"
method_of me = "GET"
method_of list_products = "GET"
method_of create_product = "POST"
method_of get_product = "GET"
method_of update_product = "PATCH"
method_of archive_product = "DELETE"
method_of list_categories = "GET"
method_of create_category = "POST"
method_of get_cart = "GET"
method_of clear_cart = "DELETE"
method_of add_item = "POST"
method_of remove_item = "DELETE"
method_of update_item = "PATCH"
method_of list_orders = "GET"
method_of checkout = "POST"
method_of get_order = "GET"
method_of cancel_order = "POST"
method_of liveness = "GET"
method_of readiness = "GET"
method_of metrics = "GET"

abbrev pub path_of : Handler → List Segment
path_of register = exact "v1" ∷ exact "auth" ∷ exact "register" ∷ []
path_of login = exact "v1" ∷ exact "auth" ∷ exact "login" ∷ []
path_of refresh = exact "v1" ∷ exact "auth" ∷ exact "refresh" ∷ []
path_of logout = exact "v1" ∷ exact "auth" ∷ exact "logout" ∷ []
path_of me = exact "v1" ∷ exact "auth" ∷ exact "me" ∷ []
path_of list_products = exact "v1" ∷ exact "products" ∷ []
path_of create_product = exact "v1" ∷ exact "products" ∷ []
path_of get_product = exact "v1" ∷ exact "products" ∷ capture "id" ∷ []
path_of update_product = exact "v1" ∷ exact "products" ∷ capture "id" ∷ []
path_of archive_product = exact "v1" ∷ exact "products" ∷ capture "id" ∷ []
path_of list_categories = exact "v1" ∷ exact "categories" ∷ []
path_of create_category = exact "v1" ∷ exact "categories" ∷ []
path_of get_cart = exact "v1" ∷ exact "cart" ∷ []
path_of clear_cart = exact "v1" ∷ exact "cart" ∷ []
path_of add_item = exact "v1" ∷ exact "cart" ∷ exact "items" ∷ []
path_of remove_item = exact "v1" ∷ exact "cart" ∷ exact "items" ∷ capture "product_id" ∷ []
path_of update_item = exact "v1" ∷ exact "cart" ∷ exact "items" ∷ capture "product_id" ∷ []
path_of list_orders = exact "v1" ∷ exact "orders" ∷ []
path_of checkout = exact "v1" ∷ exact "orders" ∷ []
path_of get_order = exact "v1" ∷ exact "orders" ∷ capture "id" ∷ []
path_of cancel_order = exact "v1" ∷ exact "orders" ∷ capture "id" ∷ exact "cancel" ∷ []
path_of liveness = exact "healthz" ∷ []
path_of readiness = exact "readyz" ∷ []
path_of metrics = exact "metrics" ∷ []

-- A GET endpoint takes HEAD as well.
abbrev pub accepts : String → String → Bool
accepts n m = str_eq m n || (str_eq m "HEAD" && str_eq n "GET")

-- Where the route of a handler stands in the table.
abbrev pub index_of : Handler → ℕ
index_of register = 0
index_of login = 1
index_of refresh = 2
index_of logout = 3
index_of me = 4
index_of list_products = 5
index_of create_product = 5
index_of get_product = 6
index_of update_product = 6
index_of archive_product = 6
index_of list_categories = 7
index_of create_category = 7
index_of get_cart = 8
index_of clear_cart = 8
index_of add_item = 9
index_of remove_item = 10
index_of update_item = 10
index_of list_orders = 11
index_of checkout = 11
index_of get_order = 12
index_of cancel_order = 13
index_of liveness = 14
index_of readiness = 15
index_of metrics = 16

-- The route of an endpoint, and what it answers.
pub record Answers (h : Handler) : Type 0 where
  pub route : Route
  pub stands : route_at (index_of h) build ≡ some route
  pub path : route.path ≡ path_of h
  pub method : by_method (method_of h) route ≡ handled (path_of h) h
  pub head : str_eq (method_of h) "GET" ≡ true → by_method "HEAD" route ≡ handled (path_of h) h

other_method :
    (h : Handler) (route : Route)
    → route_at (index_of h) build ≡ some route
    → route.path ≡ path_of h
    → by_method (method_of h) route ≡ handled (path_of h) h
    → str_eq (method_of h) "GET" ≡ false
    → Answers h
other_method h route stands path method other = record {
  route = route;
  stands = stands;
  path = path;
  method = method;
  head = λ e. absurd (ground (arith, e, other));
}

get_method :
    (h : Handler) (route : Route)
    → route_at (index_of h) build ≡ some route
    → route.path ≡ path_of h
    → by_method (method_of h) route ≡ handled (path_of h) h
    → by_method "HEAD" route ≡ handled (path_of h) h
    → Answers h
get_method h route stands path method head = record {
  route = route;
  stands = stands;
  path = path;
  method = method;
  head = λ e. head;
}

pub answers : (h : Handler) → Answers h
answers register = other_method register _ refl refl refl refl
answers login = other_method login _ refl refl refl refl
answers refresh = other_method refresh _ refl refl refl refl
answers logout = other_method logout _ refl refl refl refl
answers me = get_method me _ refl refl refl refl
answers list_products = get_method list_products _ refl refl refl refl
answers create_product = other_method create_product _ refl refl refl refl
answers get_product = get_method get_product _ refl refl refl refl
answers update_product = other_method update_product _ refl refl refl refl
answers archive_product = other_method archive_product _ refl refl refl refl
answers list_categories = get_method list_categories _ refl refl refl refl
answers create_category = other_method create_category _ refl refl refl refl
answers get_cart = get_method get_cart _ refl refl refl refl
answers clear_cart = other_method clear_cart _ refl refl refl refl
answers add_item = other_method add_item _ refl refl refl refl
answers remove_item = other_method remove_item _ refl refl refl refl
answers update_item = other_method update_item _ refl refl refl refl
answers list_orders = get_method list_orders _ refl refl refl refl
answers checkout = other_method checkout _ refl refl refl refl
answers get_order = get_method get_order _ refl refl refl refl
answers cancel_order = other_method cancel_order _ refl refl refl refl
answers liveness = get_method liveness _ refl refl refl refl
answers readiness = get_method readiness _ refl refl refl refl
answers metrics = get_method metrics _ refl refl refl refl
