-- ===== src/Lib.antt =====
-- Verification library of the Rust backend (rust/common and rust/server): an HTTP shop over
-- PostgreSQL. Users hold roles and permissions, each has one cart, a checkout turns the cart into an
-- order in one transaction, and a cancellation puts the stock back.
--
-- How the files correspond to the code:
-- - Prelude and its children: names of the libraries, lists, text, signed integers, sorting.
-- - Errors: rust/common/src/error.rs, `AppError` and the problem document.
-- - Store: the rows of rust/server/migrations as the `FromRow` structs of the models.rs files read
--   them, the database as a record of tables, an action on it as a function to a result beside the
--   database that is left, `transaction` for what stands between `pool.begin()` and `tx.commit()`,
--   and Store.Consistent for the constraints that the schema promises.
-- - Crates: what is relied on of uuid, chrono, serde_json with base64, jsonwebtoken and argon2, as
--   records of operations and laws that the definitions take as parameters.
-- - Access: rust/common/src/auth.rs, passwords, tokens, the extractor and the permission test.
-- - Cart: rust/server/src/cart (repo.rs, models.rs).
-- - CartApi: rust/server/src/cart/handlers.rs.
-- - Orders: rust/server/src/orders/repo.rs, one function for each query or loop of `checkout` and
--   of `cancel`, composed in the order of the code. The SELECT of `checkout` has no ORDER BY: Orders.Unordered
--   has its rows in any order.
-- - Accounts: rust/server/src/auth/repo.rs, users, roles, permissions and refresh tokens.
-- - Sessions: rust/server/src/auth (handlers.rs, models.rs), registration, login, the rotation of
--   refresh tokens, logout.
-- - Pagination: rust/common/src/pagination.rs, and the keyset query and the cut of a page that the
--   list handlers share.
-- - OrderApi: rust/server/src/orders (handlers.rs, models.rs), and `list_orders` of repo.rs.
-- - Catalog: rust/server/src/products/repo.rs (models.rs), and in Catalog.Listing the listing of
--   products by filter and cursor, its handler included.
-- - CatalogApi: rust/server/src/products (handlers.rs, cache.rs), the product cache in Redis and the
--   requests that read and change products and categories.
-- - Settings: rust/common/src/env.rs, rust/server/src/config.rs and the `from_env` functions of
--   rust/common/src (auth.rs, db.rs).
-- - Telemetry: rust/common/src/telemetry.rs, the series that `track_metrics` writes, over runs that
--   take some time and answer, panic or never end.
-- - Http: rust/common/src/http.rs, the middleware stack. The layers of tower-http are parameters.
-- - Router: rust/server/src/router.rs and the four mod.rs files, the table of routes. How axum looks
--   a route up is a parameter.
-- - Main: rust/server/src (main.rs, state.rs), `connect` and `ping` of rust/common/src/db.rs, from the
--   arguments and variables to the end of the process.
-- - Sessions.Service: requests to the session handlers as steps, each handled whole, with the tokens
--   that were given out. Sessions.Race has two refreshes at once.
-- - Shop: the requests of many users as steps on one database. A checkout is two steps, as it waits
--   for the locks of the product rows after it has read the cart lines, which it does not lock.
-- - Platform: the requests of Shop, of Sessions.Service and of CatalogApi on one database and cache, each
--   handled whole but for a checkout. What two requests at once can do besides is in Sessions.Race and in
--   CatalogApi.Overtaken. A stock quantity in a request is an i32, as serde takes no other.
-- - Tests: sample data and the theorems at work on it.
--
-- SQL: each statement is a function on the tables that makes the checks of the schema (PRIMARY KEY,
-- UNIQUE, REFERENCES, CHECK and the range of INTEGER) and answers with the SQLSTATE that PostgreSQL
-- gives. A statement without ORDER BY gives the rows in the order of the table, and an inserted row
-- comes last. Values that the database or the runtime makes (`uuid_generate_v4()`, `new_v4`, `now()`,
-- `Utc::now()`, the salt) are arguments.
--
-- Numbers: an i64 total is its bit pattern, a natural number below 2^64, as a release build wraps
-- around; a pattern of 2^63 or more is negative, which the CHECK on `total_cents` refuses. Prices,
-- stock and quantities are natural numbers, as their CHECKs keep them so; request values, which may
-- be negative, are integers. The loops run over lists. The client that follows
-- the cursors of a listing runs on fuel, and one request more than there are rows is enough.
--
-- The expiry of a token is an i64 sum, which wraps around (`add_i64`).
--
-- Panics: in a release build (rust/Cargo.toml, the Dockerfile) a panic ends the process; in a dev build
-- it unwinds to the panic guard.
--
-- Time: a request's run takes a number of milliseconds, or never ends; the timeout of 30 seconds cuts
-- it where it stands.
--
-- Not modelled: sockets, the shutdown signal and the accept loop, the text of logs, response headers
-- other than the request's id, failures of the connection to the database within a request, and the
-- Go and Python services, which implement the same API.
pub mod Prelude
pub mod Errors
pub mod Store
pub mod Crates
pub mod Access
pub mod Accounts
pub mod Sessions
pub mod Cart
pub mod CartApi
pub mod Orders
pub mod Shop
pub mod Pagination
pub mod OrderApi
pub mod Catalog
pub mod CatalogApi
pub mod Settings
pub mod Platform
pub mod Telemetry
pub mod Http
pub mod Router
pub mod Main
pub mod Tests
