-- ===== src/Sessions/Race.antt =====
-- Two refreshes with one token that both read its row before either has written.
use polyglot_commerce.Prelude.{
  ◌≡◌, refl, ◌∙◌, ap, false, some, arith, ◌==◌, find, find-append-found, find-append-absent,
  find-update_where,
}
use polyglot_commerce.Store.{Uuid, RefreshRow, Db, ok}
use polyglot_commerce.Accounts.{is_token, used_up, get_refresh}
use polyglot_commerce.Sessions.{Server, Draw, TokenResponse, rotate_row}
use polyglot_commerce.Sessions.Issue.{issued_row, issue_session-Issued}
use polyglot_commerce.Sessions.Refreshed.{rotate_row-ok}

module _ {Salt Parsed : Type 0} (st : Server Salt Parsed) where
  -- Where two refreshes have read one row and both succeed, one after the other, and the id of the
  -- first new token is not that of the old one, both new tokens are stored neither used nor revoked:
  -- one family then has two live tokens.
  pub rotate_row-rotate_row :
      (draw draw' : Draw) (jti family : Uuid) (row : RefreshRow) (s : Db)
      {answer answer' : TokenResponse} {s₁ s₂ : Db}
      → rotate_row st draw jti family row s ≡ (ok answer, s₁)
      → rotate_row st draw' jti family row s₁ ≡ (ok answer', s₂)
      → (draw.refresh_jti == jti) ≡ false
      → (get_refresh draw.refresh_jti s₂ ≡ some (issued_row st draw row.user_id family))
        × (get_refresh draw'.refresh_jti s₂ ≡ some (issued_row st draw' row.user_id family))
  unfolding get_refresh
  rotate_row-rotate_row draw draw' jti family row s {s₁ = s₁} e e' ne =
      let (unused, live, made) = rotate_row-ok st draw jti family row s e in
      let (unused', live', made') = rotate_row-ok st draw' jti family row s₁ e' in
      let one = issue_session-Issued st draw row.user_id family _ made in
      let two = issue_session-Issued st draw' row.user_id family _ made' in
      let minted : find (is_token draw.refresh_jti) s₁.refresh_tokens
          ≡ some (issued_row st draw row.user_id family) =
        ap (λ (t : Db). find (is_token draw.refresh_jti) t.refresh_tokens) one.after
        ∙ find-append-absent (is_token draw.refresh_jti) _ _ one.fresh
        ∙ ground arith in
      let kept =
        find-update_where (is_token draw.refresh_jti) (is_token jti) used_up s₁.refresh_tokens
          (λ t. refl) minted in
      (
        ap (λ (t : Db). find (is_token draw.refresh_jti) t.refresh_tokens) two.after
            ∙ find-append-found (is_token draw.refresh_jti) _ _ (kept ∙ rw ne refl),
        ap (λ (t : Db). find (is_token draw'.refresh_jti) t.refresh_tokens) two.after
            ∙ find-append-absent (is_token draw'.refresh_jti) _ _ two.fresh
            ∙ ground arith,
      )
