-- ===== src/Sessions/Issue.antt =====
-- What `issue_session` writes: one refresh token, new and unused.
use polyglot_commerce.Prelude.{◌≡◌, true, false, some, [], ◌∷◌, ◌++◌, arith, any}
use polyglot_commerce.Errors.{AppError}
use polyglot_commerce.Store.{Uuid, RefreshRow, Db, ok, err}
use polyglot_commerce.Access.{refresh_claims, issue_access, issue_refresh, RefreshClaims}
use polyglot_commerce.Accounts.{is_token, new_token, store_refresh, is_user}
use polyglot_commerce.Sessions.{Server, Draw, TokenResponse, issue_session, ts}

module _ {Salt Parsed : Type 0} (st : Server Salt Parsed) (draw : Draw) (user family : Uuid) where
  abbrev pub claims_of : RefreshClaims
  claims_of = refresh_claims st.uuids st.cfg draw.refresh_at draw.refresh_jti user family

  abbrev pub issued_row : RefreshRow
  issued_row = new_token draw.refresh_jti family user (ts st claims_of.exp draw.now)

  pub record Issued (s : Db) (answer : TokenResponse) (s' : Db) : Type 0 where
    pub fresh : any (is_token draw.refresh_jti) s.refresh_tokens ≡ false
    pub known : any (is_user user) s.users ≡ true
    pub after : s' ≡ record s { refresh_tokens = s.refresh_tokens ++ issued_row ∷ [] }
    pub signed : st.refresh_jwt.encode st.cfg.refresh_secret claims_of ≡ some answer.refresh_token

  pub issue_session-Issued :
      (s : Db) {answer : TokenResponse} {s' : Db}
      → issue_session st draw user family s ≡ (ok answer, s')
      → Issued s answer s'
  unfolding issue_session issue_access issue_refresh refresh_claims store_refresh
  issue_session-Issued s e = ground (arith, e, st.uuids.parse_to_string draw.refresh_jti)

  -- An `issue_session` that fails changes nothing.
  pub issue_session-err :
      (s : Db) {x : AppError} {s' : Db} → issue_session st draw user family s ≡ (err x, s') → s' ≡ s
  unfolding issue_session issue_access issue_refresh store_refresh
  issue_session-err s e = ground (arith, e)
