-- ===== src/Sessions/Effect.antt =====
-- What a step does to the refresh tokens: nothing, or a new token of a new family, or a rotation, or
-- the revocation of a family.
use polyglot_commerce.Prelude.{ℕ, ◌≡◌, refl, ◌∙◌, ℤ, String, ◌∷◌, Bool-cases, inl, inr}
use polyglot_commerce.Store.{Uuid, Time, Db, Result, ok, err}
use polyglot_commerce.Accounts.{get_refresh}
use polyglot_commerce.Sessions.{
  Server, Draw, TokenResponse, RegisterRequest, RegisterResponse, LoginRequest, register, login,
  refresh,
}
use polyglot_commerce.Sessions.Refreshed.{Names, Rotated, refresh-Rotated, revoked_all}
use polyglot_commerce.Sessions.Rotation.{refresh-named_err, used_before}
use polyglot_commerce.Sessions.Minted.{
  Minted, register-Minted, register-err, login-Minted, login-err,
}
use polyglot_commerce.Sessions.Service.{
  Service, after, IsNew, IsGiven, OnlyGiven, Step, register_user, log_in, refresh_accepted,
  refresh_refused, log_out,
}
use polyglot_commerce.Sessions.Whole.{refresh-unnamed, logout_cases}

module _ {Salt Parsed : Type 0} (st : Server Salt Parsed) where
  pub data Effect (s t : Service) : Type 0 where
    unchanged : t.db ≡ s.db → t.given ≡ s.given → Effect s t
    minted :
        (draw : Draw) (user family : Uuid)
        → IsNew family s
        → Minted st draw user family s.db t.db
        → t.given ≡ (draw.refresh_jti, family) ∷ s.given
        → Effect s t
    rotated :
        (draw : Draw) (jti family : Uuid) (answer : TokenResponse)
        → Rotated st draw jti family s.db answer t.db
        → t.given ≡ (draw.refresh_jti, family) ∷ s.given
        → Effect s t
    revoked : (family : Uuid) → t.db ≡ revoked_all st family s.db → t.given ≡ s.given → Effect s t

  -- A token that was rotated was answered before, with the family that it carries.
  abbrev pub IsOfGiven : {s t : Service} → Effect s t → Type 0
  IsOfGiven (unchanged _ _) = Unit {0}
  IsOfGiven (minted _ _ _ _ _ _) = Unit {0}
  IsOfGiven {s} (rotated _ jti family _ _ _) = IsGiven jti family s
  IsOfGiven (revoked _ _ _) = Unit {0}

  register-Effect :
      (s : Service) (draw : Draw) (salt : Salt) (id : Uuid) (now : Time) (family : Uuid)
      (req : RegisterRequest) (r : Result (ℕ × RegisterResponse) × Db)
      → IsNew family s
      → register st draw salt id now family req s.db ≡ r
      → (eff : Effect s (after draw.refresh_jti family s.given r)) × IsOfGiven eff
  register-Effect s draw salt id now family req (ok answer, t) new e =
      let (user, m) = register-Minted st draw salt id now family req s.db e in
      (minted draw user family new m refl, tt)
  register-Effect s draw salt id now family req (err x, t) new e =
      (unchanged (register-err st draw salt id now family req s.db e) refl, tt)

  login-Effect :
      (s : Service) (draw : Draw) (family : Uuid) (req : LoginRequest)
      (r : Result TokenResponse × Db)
      → IsNew family s
      → login st draw family req s.db ≡ r
      → (eff : Effect s (after draw.refresh_jti family s.given r)) × IsOfGiven eff
  login-Effect s draw family req (ok answer, t) new e =
      let (user, m) = login-Minted st draw family req s.db e in
      (minted draw user family new m refl, tt)
  login-Effect s draw family req (err x, t) new e =
      (unchanged (login-err st draw family req s.db e) refl, tt)

  refresh-Effect :
      (s : Service) (draw : Draw) (now : ℤ) (token : String) (jti family : Uuid)
      (r : Result TokenResponse × Db)
      → Names st now token jti family
      → refresh st draw now token s.db ≡ r
      → (eff : Effect s (after draw.refresh_jti family s.given r)) × (IsGiven jti family s
          → IsOfGiven eff)
  refresh-Effect s draw now token jti family (ok answer, t) n e =
      (rotated draw jti family answer (refresh-Rotated st draw now s.db n e) refl, λ given. given)
  refresh-Effect s draw now token jti family (err x, t) n e =
      elim (Bool-cases (used_before st (get_refresh jti s.db))) [
        | inl again ↦ (
          revoked family (refresh-named_err st draw now s.db n e ∙ rw again refl) refl,
          λ given. tt,
        )
        | inr other ↦
            (unchanged (refresh-named_err st draw now s.db n e ∙ rw other refl) refl, λ given. tt)
      ]

  pub Step-Effect :
      {s t : Service} (step : Step st s t)
      → (eff : Effect s t) × (OnlyGiven st step → IsOfGiven eff)
  Step-Effect (register_user s draw salt id now family req new) =
      let (eff, ofs) = register-Effect s draw salt id now family req _ new refl in
      (eff, λ given. ofs)
  Step-Effect (log_in s draw family req new) =
      let (eff, ofs) = login-Effect s draw family req _ new refl in (eff, λ given. ofs)
  Step-Effect (refresh_accepted s draw now token jti family n) =
      refresh-Effect s draw now token jti family _ n refl
  Step-Effect (refresh_refused s draw now token no_names) =
      (unchanged (refresh-unnamed st draw now token s.db no_names) refl, λ given. tt)
  Step-Effect (log_out s now token) = elim (logout_cases st now token s.db) [
    | inl same ↦ (unchanged same refl, λ given. tt)
    | inr (family, gone) ↦ (revoked family gone refl, λ given. tt)
  ]
