-- ===== src/Tests/Enrolment.antt =====
-- A registration and a login after it, with the small crates.
use polyglot_commerce.Prelude.{add_i64, sub_i64, ◌≡◌, refl, ◌+ℤ◌, ◌-ℤ◌, false, [], ◌∷◌}
use polyglot_commerce.Store.{Db, ok}
use polyglot_commerce.Access.{
  refresh_claims, access_claims, issue_access, issue_refresh, hash_password,
}
use polyglot_commerce.Accounts.{
  store_refresh, roles, permissions, granted, create_user, assign_role,
}
use polyglot_commerce.Sessions.{
  RegisterRequest, RegisterResponse, issue_session, register, login, enrol, validate_register,
  chars,
}
use polyglot_commerce.Tests.{shop_db, ada}
use polyglot_commerce.Sessions.Enrolment.{login-register}
use polyglot_commerce.Tests.Crates.{unary, counted}
use polyglot_commerce.Tests.Crates.Refresh.{same_claims}
use polyglot_commerce.Tests.Sessions.{server, draw, tokens}

abbrev pub empty_db : Db
empty_db = record shop_db { users = []; user_roles = [] }

abbrev pub request : RegisterRequest
request = record { email = "ada@example.org"; password = "hunter2hunter2"; full_name = "Ada" }

abbrev ada_response : RegisterResponse
ada_response = record {
  user = record {
    id = 7;
    email = "ada@example.org";
    full_name = "Ada";
    email_verified = false;
    status = "active";
    roles = "customer" ∷ [];
    created_at = 10;
  };
  tokens = tokens;
}

abbrev registered : Db
registered = record shop_db {
  users = record ada { password_hash = "hunter2hunter2" } ∷ [];
  refresh_tokens =
      record { jti = 2; family = 4; user_id = 7; used = false; revoked = false; expires_at = 22 }
      ∷ [];
}

sample_register :
    register server draw "salt" 7 10 4 request empty_db ≡ (ok (201, ada_response), registered)
unfolding register validate_register chars hash_password enrol create_user assign_role granted
    issue_session roles permissions issue_access issue_refresh access_claims refresh_claims unary
    store_refresh same_claims ◌-ℤ◌ sub_i64 ◌+ℤ◌ add_i64 counted
sample_register = refl

login-register_example :
    login server draw 5
      (record { email = "ada@example.org"; password = "hunter2hunter2" })
      registered
    ≡ issue_session server draw 7 5 registered
login-register_example =
    login-register server draw draw "salt" 7 10 4 5 request empty_db {answer = (201, ada_response)}
      {s' = registered} sample_register
