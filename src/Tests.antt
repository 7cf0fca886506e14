-- ===== src/Tests.antt =====
-- A small shop on which the tests run: two products, two users, one cart, one old order.
mod Orders
mod Cart
mod Errors
mod Crates
mod Access
mod Sessions
mod Enrolment
mod Race
mod Service
mod OrderApi
mod Settings
mod CartApi
mod Catalog
mod Http
mod Router
mod Platform
mod Cached
mod Overtaken
mod Stale
mod Main
use polyglot_commerce.Prelude.{true, false, none, List, [], ◌∷◌}
use polyglot_commerce.Store.{UserRow, Named, Product, CartItemRow, OrderRow, OrderItemRow, Db}

abbrev pub ada : UserRow
ada = record {
  id = 7;
  email = "ada@example.org";
  password_hash = "phc";
  full_name = "Ada";
  email_verified = false;
  status = "active";
  created_at = 10;
  updated_at = 10;
}

abbrev pub keyboard : Product
keyboard = record {
  id = 1;
  sku = "ELEC-1001";
  name = "Mechanical Keyboard";
  slug = "mechanical-keyboard";
  description = "";
  price_cents = 12900;
  currency = "USD";
  stock_quantity = 5;
  category_id = none;
  status = "active";
  created_at = 20;
  updated_at = 20;
}

abbrev pub book : Product
book = record {
  id = 2;
  sku = "BOOK-2001";
  name = "Designing Data-Intensive Applications";
  slug = "ddia";
  description = "";
  price_cents = 4500;
  currency = "USD";
  stock_quantity = 2;
  category_id = none;
  status = "active";
  created_at = 30;
  updated_at = 30;
}

abbrev pub line : CartItemRow
line = record { user_id = 7; product_id = 1; quantity = 2; added_at = 40 }

abbrev pub other_line : CartItemRow
other_line = record { user_id = 7; product_id = 2; quantity = 1; added_at = 41 }

abbrev pub old_order : OrderRow
old_order = record {
  id = 90;
  user_id = 7;
  status = "confirmed";
  total_cents = 4500;
  currency = "USD";
  created_at = 35;
  updated_at = 35;
}

abbrev pub old_item : OrderItemRow
old_item = record {
  product_id = 2;
  product_name = "Designing Data-Intensive Applications";
  unit_price_cents = 4500;
  quantity = 1;
}

abbrev pub shop_db : Db
shop_db = record {
  users = ada ∷ [];
  roles = record { id = 50; name = "customer" } ∷ [];
  user_roles = (7, 50) ∷ [];
  permissions = record { id = 60; name = "order:write" } ∷ [];
  role_permissions = (50, 60) ∷ [];
  refresh_tokens = [];
  categories = [];
  products = keyboard ∷ book ∷ [];
  cart_items = line ∷ other_line ∷ [];
  orders = old_order ∷ [];
  order_items = (90, old_item) ∷ [];
}
