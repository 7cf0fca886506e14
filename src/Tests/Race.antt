-- ===== src/Tests/Race.antt =====
-- Two refreshes of one token at once, with the small crates.
use polyglot_commerce.Prelude.{add_i64, sub_i64, ◌≡◌, refl, pos, ◌+ℤ◌, ◌-ℤ◌, some, [], ◌∷◌}
use polyglot_commerce.Store.{RefreshRow, Db, ok, RefreshRow}
use polyglot_commerce.Access.{refresh_claims, access_claims, issue_access, issue_refresh}
use polyglot_commerce.Accounts.{get_refresh, mark_refresh_used, store_refresh, roles, permissions}
use polyglot_commerce.Sessions.{Draw, TokenResponse, issue_session, rotate, rotate_row}
use polyglot_commerce.Sessions.Issue.{issued_row}
use polyglot_commerce.Sessions.Race.{rotate_row-rotate_row}
use polyglot_commerce.Tests.{shop_db}
use polyglot_commerce.Tests.Crates.{unary, counted}
use polyglot_commerce.Tests.Crates.Refresh.{same_claims}
use polyglot_commerce.Tests.Sessions.{server, draw, first_row, tokens}

-- The row of token 9, which two refreshes have read; the first issues token 2, the second token 1.
abbrev shared_row : RefreshRow
shared_row = record first_row { jti = 9 }

abbrev shared : Db
shared = record shop_db { refresh_tokens = shared_row ∷ [] }

abbrev second_draw : Draw
second_draw = record draw { refresh_jti = 1; refresh_at = pos 10 }

abbrev second_tokens : TokenResponse
second_tokens = record tokens { refresh_token = "a" }

abbrev first_done : Db
first_done = (rotate_row server draw 9 4 shared_row shared).1

abbrev both_done : Db
both_done = (rotate_row server second_draw 9 4 shared_row first_done).1

first_rotates : rotate_row server draw 9 4 shared_row shared ≡ (ok tokens, first_done)
unfolding ◌+ℤ◌ add_i64 ◌-ℤ◌ sub_i64 counted rotate_row rotate mark_refresh_used issue_session roles
    permissions issue_access issue_refresh access_claims refresh_claims unary store_refresh
    same_claims
first_rotates = refl

second_rotates :
    rotate_row server second_draw 9 4 shared_row first_done ≡ (ok second_tokens, both_done)
unfolding ◌+ℤ◌ add_i64 ◌-ℤ◌ sub_i64 counted rotate_row rotate mark_refresh_used issue_session roles
    permissions issue_access issue_refresh access_claims refresh_claims unary store_refresh
    same_claims
second_rotates = refl

rotate_row-rotate_row_example :
    (get_refresh 2 both_done ≡ some (issued_row server draw 7 4))
    × (get_refresh 1 both_done ≡ some (issued_row server second_draw 7 4))
rotate_row-rotate_row_example =
    rotate_row-rotate_row server draw second_draw 9 4 shared_row shared {answer = tokens}
      {answer' = second_tokens} {s₁ = first_done} {s₂ = both_done} first_rotates second_rotates refl
