-- ===== src/Sessions/Whole.antt =====
-- `refresh` with a token that names nothing, and `logout` with any token.
use polyglot_commerce.Prelude.{◌≡◌, ◌⊎◌, refl, ℤ, String, arith, Option-cases, inl, inr}
use polyglot_commerce.Store.{Uuid, Db, Result, ok, err}
use polyglot_commerce.Accounts.{revoke_family}
use polyglot_commerce.Access.{RefreshClaims, verify_refresh}
use polyglot_commerce.Sessions.{Server, Draw, refresh, logout}
use polyglot_commerce.Sessions.Refreshed.{Names, revoked_all}

module _ {Salt Parsed : Type 0} (st : Server Salt Parsed) where
  -- A token that is not accepted, or whose id or family is no UUID, changes nothing.
  pub refresh-unnamed :
      (draw : Draw) (now : ℤ) (token : String) (s : Db)
      → ((jti family : Uuid) → ¬ Names st now token jti family)
      → (refresh st draw now token s).1 ≡ s
  unfolding refresh
  refresh-unnamed draw now token s no_names =
      claims_cases (verify_refresh st.refresh_jwt st.cfg now token) refl
    where
      claims_cases :
          (r : Result RefreshClaims)
          → verify_refresh st.refresh_jwt st.cfg now token ≡ r
          → (refresh st draw now token s).1 ≡ s
      claims_cases (err x) e = rw e refl
      claims_cases (ok claims) e = elim (Option-cases (st.uuids.parse_str claims.jti)) [
        | inl none_jti ↦ ground (arith, e, none_jti)
        | inr (jti, is_jti) ↦ elim (Option-cases (st.uuids.parse_str claims.family)) [
          | inl none_family ↦ ground (arith, e, is_jti, none_family)
          | inr (family, is_family) ↦ absurd (
              no_names jti family record {
                claims = claims;
                accepted = e;
                jti_text = is_jti;
                family_text = is_family;
              })
        ]
      ]

  pub logout_cases :
      (now : ℤ) (token : String) (s : Db)
      → ((logout st now token s).1 ≡ s)
        ⊎ ((family : Uuid) × ((logout st now token s).1 ≡ revoked_all st family s))
  unfolding logout revoke_family
  logout_cases now token s = claims_cases (verify_refresh st.refresh_jwt st.cfg now token) refl
    where
      claims_cases :
          (r : Result RefreshClaims)
          → verify_refresh st.refresh_jwt st.cfg now token ≡ r
          → ((logout st now token s).1 ≡ s)
            ⊎ ((family : Uuid) × ((logout st now token s).1 ≡ revoked_all st family s))
      claims_cases (err x) e = inl (rw e refl)
      claims_cases (ok claims) e = elim (Option-cases (st.uuids.parse_str claims.family)) [
        | inl none_family ↦ inl (ground (arith, e, none_family))
        | inr (family, is_family) ↦ inr (family, ground (arith, e, is_family))
      ]
