-- ===== src/Store/Rows.antt =====
-- The rows of the tables of server/migrations, as the `FromRow` structs of the `models.rs` files
-- read them. A UUID is the 128-bit number that its text spells, and a time is a number of
-- microseconds since 1970. A column that the schema checks not to be negative (prices, stock,
-- quantities, totals) is a natural number; what writes it makes the check.
use polyglot_commerce.Prelude.{ℕ, String, Bool, Option}

abbrev pub Uuid : Type 0
Uuid = ℕ

-- `DateTime<Utc>`
abbrev pub Time : Type 0
Time = ℕ

-- `UserRow` of auth/models.rs, table `users`
pub record UserRow : Type 0 where
  pub id : Uuid
  pub email : String
  pub password_hash : String
  pub full_name : String
  pub email_verified : Bool
  pub status : String
  pub created_at : Time
  pub updated_at : Time

-- table `roles`, and with the same columns table `permissions`
pub record Named : Type 0 where
  pub id : Uuid
  pub name : String

-- `RefreshRow` of auth/models.rs, table `refresh_tokens`
pub record RefreshRow : Type 0 where
  pub jti : Uuid
  pub family : Uuid
  pub user_id : Uuid
  pub used : Bool
  pub revoked : Bool
  pub expires_at : Time

-- `Product` of products/models.rs, table `products`
pub record Product : Type 0 where
  pub id : Uuid
  pub sku : String
  pub name : String
  pub slug : String
  pub description : String
  pub price_cents : ℕ
  pub currency : String
  pub stock_quantity : ℕ
  pub category_id : Option Uuid
  pub status : String
  pub created_at : Time
  pub updated_at : Time

-- `Category` of products/models.rs, table `categories`
pub record Category : Type 0 where
  pub id : Uuid
  pub name : String
  pub slug : String
  pub parent_id : Option Uuid
  pub created_at : Time

-- table `cart_items`
pub record CartItemRow : Type 0 where
  pub user_id : Uuid
  pub product_id : Uuid
  pub quantity : ℕ
  pub added_at : Time

-- `OrderRow` of orders/models.rs, table `orders`
pub record OrderRow : Type 0 where
  pub id : Uuid
  pub user_id : Uuid
  pub status : String
  pub total_cents : ℕ
  pub currency : String
  pub created_at : Time
  pub updated_at : Time

-- `OrderItemRow` of orders/models.rs: the columns of table `order_items` that the code reads
pub record OrderItemRow : Type 0 where
  pub product_id : Uuid
  pub product_name : String
  pub unit_price_cents : ℕ
  pub quantity : ℕ
