-- ===== src/Tests/Service.antt =====
-- Requests one after the other: a registration, and a logout that revokes a family.
use polyglot_commerce.Prelude.{◌≤◌, ◌≡◌, refl, pos, some, [], ◌∷◌, arith, if◌then◌else◌}
use polyglot_commerce.Errors.{unauthorized, forbidden}
use polyglot_commerce.Access.{verify_password}
use polyglot_commerce.Accounts.{find_by_email}
use polyglot_commerce.Sessions.{LoginRequest, login, validate_login, chars}
use polyglot_commerce.Sessions.Suspended.{suspend, with_users, refresh-suspend}
use polyglot_commerce.Tests.{ada}
use polyglot_commerce.Tests.Crates.{plain_hash}
use polyglot_commerce.Store.{ok, err}
use polyglot_commerce.Sessions.{register, logout, refresh}
use polyglot_commerce.Sessions.Refreshed.{revoked_all}
use polyglot_commerce.Sessions.Live.{live}
use polyglot_commerce.Sessions.Service.{Service, after, register_user, log_out, here, next}
use polyglot_commerce.Sessions.Given.{AreStored}
use polyglot_commerce.Sessions.Steady.{one_live-Reach}
use polyglot_commerce.Sessions.Dead.{refresh-Reach}
use polyglot_commerce.Tests.Enrolment.{request, empty_db}
use polyglot_commerce.Tests.Sessions.{server, draw, session_db, old_named_later, exact}

abbrev nobody : Service
nobody = record { db = empty_db; given = [] }

abbrev somebody : Service
somebody = after 2 4 [] (register server draw "salt" 7 10 4 request empty_db)

one_live-Reach_example : live 4 somebody.db.refresh_tokens ≤ 1
one_live-Reach_example =
    one_live-Reach server {s = nobody} {t = somebody}
      (next here (register_user nobody draw "salt" 7 10 4 request refl)) (tt, tt) refl refl 4

-- The session of token 1, given out.
abbrev session : Service
session = record { db = session_db; given = (1, 4) ∷ [] }

stored-AreStored : AreStored session.given session.db.refresh_tokens
stored-AreStored jti family h = ground arith

abbrev closed : Service
closed = record session { db = revoked_all server 4 session_db }

-- A logout with a text that is no token comes between.
abbrev later : Service
later = record closed { db = (logout server (pos 13) "c" closed.db).1 }

refresh-Reach_example : refresh server draw (pos 15) "a" later.db ≡ (err unauthorized, later.db)
refresh-Reach_example =
    refresh-Reach server 4 session {t = later} draw (pos 15) {token = "a"} {jti = 1}
      (next here (log_out closed (pos 13) "c")) (tt, tt) stored-AreStored refl old_named_later refl

-- Ada is suspended while the session of token 1 is open.
abbrev ada_login : LoginRequest
ada_login = record { email = "ada@example.org"; password = "phc" }

ada_valid : validate_login server ada_login ≡ ok tt
unfolding validate_login chars
ada_valid = refl

ada_found : find_by_email exact "ada@example.org" session_db ≡ some ada
unfolding find_by_email
ada_found = refl

refresh-suspend_example :
    (login server draw 5 ada_login (suspend 50 7 session_db) ≡ (
      err (if verify_password plain_hash "phc" "phc" then forbidden else unauthorized),
      suspend 50 7 session_db,
    ))
    × (refresh server draw (pos 15) "a" (suspend 50 7 session_db)
        ≡ with_users (suspend 50 7 session_db).users (refresh server draw (pos 15) "a" session_db))
refresh-suspend_example =
    refresh-suspend server draw (pos 15) 50 {token = "a"} {jti = 1} {family = 4} 5 ada_login
      session_db {u = ada} old_named_later ada_valid ada_found
