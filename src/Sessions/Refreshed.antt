-- ===== src/Sessions/Refreshed.antt =====
-- A refresh with a token that is accepted: what it looks up, and what it was of and left where it
-- succeeded.
use polyglot_commerce.Prelude.{
  add_i64, ◌≡◌, refl, ◌∙◌, sym, ℤ, pos, ◌+ℤ◌, ◌≤ℤ◌, String, false, Option, none, some, arith, find,
  update_where,
}
use polyglot_commerce.Errors.{unauthorized}
use polyglot_commerce.Store.{Uuid, RefreshRow, Db, Result, ok, err}
use polyglot_commerce.Access.{RefreshClaims, refresh_claims, verify_refresh}
use polyglot_commerce.Accounts.{
  is_token, in_family, used_up, withdrawn, get_refresh, mark_refresh_used, revoke_family,
}
use polyglot_commerce.Sessions.{
  Server, Draw, TokenResponse, issue_session, rotate, rotate_row, refresh,
}
use polyglot_commerce.Sessions.Issue.{Issued, claims_of, issue_session-Issued}

module _ {Salt Parsed : Type 0} (st : Server Salt Parsed) where
  -- A token that is accepted at a time, with the id and the family that it carries.
  pub record Names (now : ℤ) (token : String) (jti family : Uuid) : Type 0 where
    pub claims : RefreshClaims
    pub accepted : verify_refresh st.refresh_jwt st.cfg now token ≡ ok claims
    pub jti_text : st.uuids.parse_str claims.jti ≡ some jti
    pub family_text : st.uuids.parse_str claims.family ≡ some family

  abbrev pub revoked_all : Uuid → Db → Db
  revoked_all family s = record s {
    refresh_tokens = update_where (in_family family) withdrawn s.refresh_tokens;
  }

  abbrev pub rotate_found : Draw → Uuid → Uuid → Option RefreshRow → Db → Result TokenResponse × Db
  rotate_found draw jti family none s = (err unauthorized, s)
  rotate_found draw jti family (some row) s = rotate_row st draw jti family row s

  pub refresh-Names :
      (draw : Draw) (now : ℤ) {token : String} {jti family : Uuid} (s : Db)
      → Names now token jti family
      → refresh st draw now token s ≡ rotate_found draw jti family (get_refresh jti s) s
  unfolding refresh
  refresh-Names draw now s n = ground (arith, n.accepted, n.jti_text, n.family_text)

  -- What a successful refresh was of and what it left.
  pub record Rotated (draw : Draw) (jti family : Uuid) (s : Db) (answer : TokenResponse) (s' : Db)
      : Type 0 where
    pub row : RefreshRow
    pub found : find (is_token jti) s.refresh_tokens ≡ some row
    pub unused : row.used ≡ false
    pub live : row.revoked ≡ false
    pub issued :
        Issued st draw row.user_id family
          (record s { refresh_tokens = update_where (is_token jti) used_up s.refresh_tokens })
          answer
          s'

  pub rotate_row-ok :
      (draw : Draw) (jti family : Uuid) (row : RefreshRow) (s : Db) {answer : TokenResponse}
      {s' : Db}
      → rotate_row st draw jti family row s ≡ (ok answer, s')
      → (row.used ≡ false)
        × (row.revoked ≡ false)
        × (issue_session st draw row.user_id family
              (record s { refresh_tokens = update_where (is_token jti) used_up s.refresh_tokens })
            ≡ (ok answer, s'))
  unfolding rotate rotate_row mark_refresh_used revoke_family
  rotate_row-ok draw jti family row s e = ground (arith, e)

  found-Rotated :
      (draw : Draw) (jti family : Uuid) (s : Db) {answer : TokenResponse} {s' : Db}
      (found : Option RefreshRow)
      → find (is_token jti) s.refresh_tokens ≡ found
      → rotate_found draw jti family found s ≡ (ok answer, s')
      → Rotated draw jti family s answer s'
  found-Rotated draw jti family s none h e = absurd (ground arith)
  found-Rotated draw jti family s (some row) h e =
      let (unused, live, made) = rotate_row-ok draw jti family row s e in
      record {
        row = row;
        found = h;
        unused = unused;
        live = live;
        issued = issue_session-Issued st draw row.user_id family _ made;
      }

  pub refresh-Rotated :
      (draw : Draw) (now : ℤ) {token : String} {jti family : Uuid} (s : Db) {answer : TokenResponse}
      {s' : Db}
      → Names now token jti family
      → refresh st draw now token s ≡ (ok answer, s')
      → Rotated draw jti family s answer s'
  unfolding get_refresh
  refresh-Rotated draw now {token} {jti} {family} s n e =
      found-Rotated draw jti family s (find (is_token jti) s.refresh_tokens) refl
        (sym (refresh-Names draw now s n) ∙ e)

  -- The token of a new session is accepted until 60 seconds after it expires.
  pub Issued-Names :
      (draw : Draw) (last : ℤ) {user family : Uuid} {s : Db} {answer : TokenResponse} {s' : Db}
      → Issued st draw user family s answer s'
      → last ≤ℤ add_i64 draw.refresh_at st.cfg.refresh_ttl_secs +ℤ pos 60
      → Names last answer.refresh_token draw.refresh_jti family
  unfolding refresh_claims verify_refresh
  Issued-Names draw last {user} {family} {s} {answer} i fresh = record {
    claims = claims_of st draw user family;
    accepted = ground (
      arith,
      st.refresh_jwt.decode_complete st.cfg.refresh_secret last answer.refresh_token
          (claims_of st draw user family) i.signed fresh,
    );
    jti_text = st.uuids.parse_to_string draw.refresh_jti;
    family_text = st.uuids.parse_to_string family;
  }
