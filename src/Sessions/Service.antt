-- ===== src/Sessions/Service.antt =====
-- Sessions as a system of steps: requests of many users, in any order, each handled whole before the
-- next (Sessions.Race has two at once). A drawn family is new, since `Uuid::new_v4` does not repeat
-- itself. `AllGiven` is what a secret refresh key brings: an accepted token is one that was answered.
use polyglot_commerce.Prelude.{◌≡◌, ℤ, String, Bool, true, false, ◌&&◌, List, ◌∷◌, ◌==◌, any}
use polyglot_commerce.Store.{Uuid, Time, Db, Result, ok, err}
use polyglot_commerce.Accounts.{in_family}
use polyglot_commerce.Sessions.{
  Server, Draw, RegisterRequest, LoginRequest, register, login, refresh, logout,
}
use polyglot_commerce.Sessions.Refreshed.{Names}

-- The database, and the id and the family of each refresh token that was answered.
pub record Service : Type 0 where
  pub db : Db
  pub given : List (Uuid × Uuid)

abbrev pub is_pair : Uuid → Uuid → Uuid × Uuid → Bool
is_pair jti family (j, f) = j == jti && f == family

-- What is left by a request whose success gives a token out.
abbrev pub after : {A : Type 0} → Uuid → Uuid → List (Uuid × Uuid) → Result A × Db → Service
after jti family given (ok a, s) = record { db = s; given = (jti, family) ∷ given }
after jti family given (err x, s) = record { db = s; given = given }

-- No stored token is of the family.
abbrev pub IsNew : Uuid → Service → Type 0
IsNew family s = any (in_family family) s.db.refresh_tokens ≡ false

abbrev pub IsGiven : Uuid → Uuid → Service → Type 0
IsGiven jti family s = any (is_pair jti family) s.given ≡ true

module _ {Salt Parsed : Type 0} (st : Server Salt Parsed) where
  pub data Step : Service → Service → Type 0 where
    register_user :
        (s : Service) (draw : Draw) (salt : Salt) (id : Uuid) (now : Time) (family : Uuid)
        (req : RegisterRequest)
        → IsNew family s
        → Step s
            (after draw.refresh_jti family s.given (register st draw salt id now family req s.db))
    log_in :
        (s : Service) (draw : Draw) (family : Uuid) (req : LoginRequest)
        → IsNew family s
        → Step s (after draw.refresh_jti family s.given (login st draw family req s.db))
    refresh_accepted :
        (s : Service) (draw : Draw) (now : ℤ) (token : String) (jti family : Uuid)
        → Names st now token jti family
        → Step s (after draw.refresh_jti family s.given (refresh st draw now token s.db))
    refresh_refused :
        (s : Service) (draw : Draw) (now : ℤ) (token : String)
        → ((jti family : Uuid) → ¬ Names st now token jti family)
        → Step s (record s { db = (refresh st draw now token s.db).1 })
    log_out :
        (s : Service) (now : ℤ) (token : String)
        → Step s (record s { db = (logout st now token s.db).1 })

  pub data Reach (s : Service) : Service → Type 0 where
    here : Reach s s
    next : {t u : Service} → Reach s t → Step t u → Reach s u

  -- A refresh token that is accepted was answered before, with its id and its family.
  abbrev pub OnlyGiven : {s t : Service} → Step s t → Type 0
  OnlyGiven (register_user _ _ _ _ _ _ _ _) = Unit {0}
  OnlyGiven (log_in _ _ _ _ _) = Unit {0}
  OnlyGiven (refresh_accepted s _ _ _ jti family _) = IsGiven jti family s
  OnlyGiven (refresh_refused _ _ _ _ _) = Unit {0}
  OnlyGiven (log_out _ _ _) = Unit {0}

  abbrev pub AllGiven : {s t : Service} → Reach s t → Type 0
  AllGiven here = Unit {0}
  AllGiven (next r step) = AllGiven r × OnlyGiven step
